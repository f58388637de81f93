-- ===== src/Dynskip/Tests.antt =====
-- A short dialogue, and a policy over routes whose weights are whole numbers.
use in_c_test.Prelude.{
  ℕ, ◌+◌, ◌*◌, ◌/◌, ◌-◌, ◌≡◌, ◌≤◌, refl, max, ltb, leb, List, [], ◌∷◌, ok, arith, Option, none,
  some, list_eq,
}
use in_c_test.Prelude.Int.{ℤ, pos, negsuc}
use in_c_test.Dynskip.{
  control, content, media, outside, user_body, im_end, im_user, im_system, im_middle, media_start,
  media_end, media_pad, classify, Floats, apply_policy, any_negative, count, heavy,
}
use in_c_test.Dynskip.Classes.{classify-user_turn, classify-system_turn, classify-picture}
use in_c_test.Text.{Str, codes, parse_int, strip, split}
use in_c_test.Dynskip.Simulate.{Sample, Report, simulate}
use in_c_test.Dynskip.Totals.{all_rows, simulate-totals}
use in_c_test.Dynskip.Policy.{apply_policy-eq}

classify-user_turn_example :
    classify outside (im_user ∷ 7 ∷ im_middle ∷ 8 ∷ 9 ∷ im_end ∷ 10 ∷ [])
    ≡ control ∷ control ∷ control ∷ content ∷ content ∷ control ∷ classify outside (10 ∷ [])
classify-user_turn_example =
    classify-user_turn (7 ∷ []) (8 ∷ 9 ∷ []) (10 ∷ []) (ground arith) (ground arith)

classify-system_turn_example :
    classify user_body (im_system ∷ im_user ∷ 8 ∷ im_end ∷ 10 ∷ [])
    ≡ control ∷ control ∷ control ∷ control ∷ classify outside (10 ∷ [])
classify-system_turn_example =
    classify-system_turn user_body (im_user ∷ 8 ∷ []) (10 ∷ []) (ground arith)

classify-picture_example :
    classify user_body (media_start ∷ media_pad ∷ 8 ∷ media_end ∷ 10 ∷ [])
    ≡ control ∷ media ∷ control ∷ control ∷ classify user_body (10 ∷ [])
classify-picture_example = classify-picture (media_pad ∷ 8 ∷ []) (10 ∷ []) (ground arith)

abbrev total : List ℕ → ℕ
total [] = 0
total (x ∷ xs) = x + total xs

-- Shares in hundreds.
abbrev whole : Floats
whole = record {
  Float = ℕ;
  nought = 0;
  sum = total;
  over = λ a b. a * 100 / b;
  less = ltb;
  at_most = leb;
}

apply_policy-eq_example :
    apply_policy whole (6 ∷ 1 ∷ 2 ∷ []) 30 2
    ≡ ok (3 - max (count (heavy whole 30 (whole.sum (6 ∷ 1 ∷ 2 ∷ [])) (6 ∷ 1 ∷ 2 ∷ []))) 2)
apply_policy-eq_example =
    apply_policy-eq whole (6 ∷ 1 ∷ 2 ∷ []) 30 2 refl (unfold any_negative in refl) refl

abbrev natural_of : Option ℤ → Option ℕ
natural_of none = none
natural_of (some (pos n)) = some n
natural_of (some (negsuc n)) = none

percent : Str → Option ℕ
unfolding parse_int
percent s = natural_of (parse_int s)

-- A user's token of three, in one layer.
abbrev short_sample : Sample
short_sample = record {
  prompt_ids = codes "163587 163601 8\n";
  trace = codes "# event layer expert weight\n3 1 0 6\n3 1 1 1\n\n3 1 2 2\n";
}

abbrev short_report : Report whole percent 100
short_report = record {
  samples = 1;
  routed = 3;
  skipped = 1;
  rows = (((content, pos 1), record { events = 1; routed = 3; skipped = 1 }), (30, pos 2)) ∷ [];
}

simulated :
    simulate whole percent 100 (codes "content 1 30 2\n") (short_sample ∷ []) ≡ ok short_report
unfolding simulate percent list_eq strip split parse_int
simulated = refl

simulate-totals_example : (3 ≡ all_rows (short_sample ∷ [])) × (1 ≤ all_rows (short_sample ∷ []))
simulate-totals_example =
    simulate-totals whole percent 100 (codes "content 1 30 2\n") (short_sample ∷ []) short_report
      simulated
