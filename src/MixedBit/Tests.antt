-- ===== src/MixedBit/Tests.antt =====
-- Two experts with two choices each, their errors whole numbers.
use in_c_test.Prelude.{ℕ, ◌+◌, ◌≡◌, refl, List, [], ◌∷◌, ok, ltb, false, arith}
use in_c_test.Prelude.Int.{pos}
use in_c_test.MixedBit.{Floats, Choice, Expert, Plan, optimize}
use in_c_test.MixedBit.Table.{Laws}
use in_c_test.MixedBit.Sound.{cost, Sound, optimize-Sound}
use in_c_test.MixedBit.Optimal.{optimize-optimal}

abbrev whole : Floats
whole = record { Float = ℕ; nought = 0; plus = λ a b. a + b; less = ltb }

whole-Laws : Laws whole
whole-Laws = record {
  irreflexive = λ a. ground arith;
  transitive = λ a b c h k. ground arith;
  not_transitive = λ a b c h k. ground arith;
  monotone = λ a b c h. ground arith;
}

abbrev choices_of : ℕ → List (Choice whole)
choices_of n =
    record { bits = 8; bytes = 8192; error = 0 } ∷ record { bits = 4; bytes = 4097; error = n } ∷ []

abbrev two_experts : List (Expert whole)
two_experts =
    record { name = b'a' ∷ []; choices = choices_of 5 }
    ∷ record { name = b'b' ∷ []; choices = choices_of 3 }
    ∷ []

abbrev small_plan : Plan whole
small_plan = record {
  budget_bytes = 12288;
  quantum_bytes = 2048;
  projected_bytes = 8194;
  total_error = 8;
  expert_count = 2;
  assignment =
      (b'a' ∷ [], record { bits = 4; bytes = 4097; error = 5 })
      ∷ (b'b' ∷ [], record { bits = 4; bytes = 4097; error = 3 })
      ∷ [];
}

planned_small : optimize whole two_experts (pos 12288) (pos 2048) ≡ ok small_plan
unfolding optimize
planned_small = refl

optimize-Sound_example : Sound whole two_experts 12288 2047 small_plan
optimize-Sound_example = optimize-Sound whole two_experts 12287 2047 small_plan planned_small

optimize-optimal_example :
    (plan : Plan whole) × (optimize whole two_experts (pos 16384) (pos 2048) ≡ ok plan)
    × (ltb 3 plan.total_error ≡ false)
optimize-optimal_example =
    optimize-optimal whole whole-Laws two_experts 16383 2047 (0 ∷ 1 ∷ []) 7 3 (omega arith)
      (unfold cost in refl) (omega arith)
