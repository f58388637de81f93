-- ===== src/MaskNovelty/Tests.antt =====
-- A mask of two experts, and one held-out prompt.
use in_c_test.Prelude.{
  ℕ, ◌+◌, ◌≡◌, refl, false, true, Option, none, some, List, [], ◌∷◌, ok, list_eq, length,
}
use in_c_test.Prelude.Int.{ℤ, pos, negsuc}
use in_c_test.Text.{Str, codes, parse_int, strip, split}
use in_c_test.Json.{int, obj, field, end}
use in_c_test.ExpertStore.{Key}
use in_c_test.MaskNovelty.{Floats, PromptDir, Report, read_mask, analyze}
use in_c_test.MaskNovelty.Totals.{all_selections, traces_of, analyze-totals}

abbrev natural_of : Option ℤ → Option ℕ
natural_of none = none
natural_of (some (pos n)) = some n
natural_of (some (negsuc n)) = none

natural_text : Str → Option ℕ
unfolding parse_int
natural_text s = natural_of (parse_int s)

abbrev naturals : Floats
naturals = record {
  Float = ℕ;
  nought = 0;
  plus = λ a b. a + b;
  is_negative = λ n. false;
  is_finite = λ n. true;
  float_of = natural_text;
}

abbrev one_prompt : PromptDir
one_prompt = record {
  id = codes "p1";
  trace =
      some (
        codes "# event layer expert rank weight saliency\n1 1 4 0 6 7\n1 1 5 1 3 2\n2 1 4 0 5 5\n");
  route =
      some
        (obj (field (codes "summary") (obj (field (codes "substitutions") (int (pos 3)) end)) end));
}

abbrev novelty_report : Report naturals
novelty_report = record {
  mask_entries = 2;
  prompts = 1;
  direct = 2;
  slots_hit = 1;
  slots_never_hit = 1;
  prompts_with_direct = 1;
  substitutions = 3;
  cascade = 1;
  per_prompt =
      record {
        id = codes "p1";
        direct = 2;
        unique_slots = 1;
        route_substitutions = 3;
        cascade = 1;
        hits = record { hits = ((1, 4), 2) ∷ []; saliency = ((1, 4), 12) ∷ [] };
      }
      ∷ [];
  mask_slots =
      record { slot = (1, 4); selection_count = 2; saliency = 12 }
      ∷ record { slot = (1, 6); selection_count = 0; saliency = 0 }
      ∷ [];
}

analyzed : analyze naturals (codes "1 6\n1 4\n") (one_prompt ∷ []) ≡ ok novelty_report
unfolding analyze natural_text list_eq strip split parse_int
analyzed = refl

analyze-totals_example :
    (mask : List Key) × (read_mask (codes "1 6\n1 4\n") ≡ ok mask)
    × (2 ≡ all_selections mask (traces_of (one_prompt ∷ [])))
    × (2 + 1 ≡ 3)
    × (1 + 1 ≡ length mask)
analyze-totals_example =
    analyze-totals naturals (codes "1 6\n1 4\n") (one_prompt ∷ []) novelty_report analyzed
