-- ===== src/MaskNovelty/Totals.antt =====
-- What the totals of the report count.
use in_c_test.Prelude.{
  ℕ, suc, ◌+◌, ◌≤◌, ◌≡◌, refl, sym, ap, subst, ◌∙◌, ◌&&◌, not, Option, none, some, List, [], ◌∷◌,
  ◌++◌, map, length-map, ok, guard, >>=-eq-ok, ok-injective, leb, ltb, ◌==◌, if◌then◌else◌, length,
  Bool-cases, inl, inr, arith,
}
use in_c_test.Prelude.Int.{ℤ, pos, negsuc}
use in_c_test.Struct.{Bytes}
use in_c_test.Text.{Str, strip, split, splitlines, universal_newlines, parse_int}
use in_c_test.Json.{Json}
use in_c_test.ExpertStore.{Key, key_eq, has_key}
use in_c_test.ExpertStore.Mask.{sorted, insert_key, key_lt}
use in_c_test.MaskNovelty.{
  invalid_saliency, Floats, read_mask, update, sum_of, update_all, in_mask, is_row, whole_number,
  substitutions_of, Hits, no_hits, hit, float, trace_row, trace_rows, read_direct_hits, PromptDir,
  PromptRow, Sums, prompt_row, prompt_files, all_prompts, SlotRow, slot_row, count_hit,
  count_never_hit, sum_substitutions, Report, report_of, analyze,
}

-- The rows of a trace that select an expert of the mask.
abbrev pub one_if : Option Key → ℕ
one_if none = 0
one_if (some k) = 1

abbrev pub chosen : List Key → Option ℤ → Option ℤ → ℕ
chosen mask (some l) (some e) = one_if (in_mask l e mask)
chosen mask _ _ = 0

abbrev pub selects : List Key → List Str → ℕ
selects mask (event ∷ l ∷ e ∷ rest) = chosen mask (parse_int l) (parse_int e)
selects mask _ = 0

unfoldable pub selecting_rows : List Key → List Str → ℕ
unfolding strip split parse_int has_key
selecting_rows mask [] = 0
selecting_rows mask (raw ∷ rest) =
    (if is_row (strip raw) then selects mask (split (strip raw)) else 0) + selecting_rows mask rest

abbrev pub selections : List Key → Option Str → ℕ
selections mask none = 0
selections mask (some text) = selecting_rows mask (splitlines (universal_newlines text))

unfoldable pub all_selections : List Key → List (Option Str) → ℕ
unfolding selecting_rows splitlines universal_newlines
all_selections mask [] = 0
all_selections mask (t ∷ ts) = selections mask t + all_selections mask ts

sum_of-update :
    (k : Key) (v : ℕ) (ps : List (Key × ℕ)) → sum_of (update 0 k (λ w. w + v) ps) ≡ sum_of ps + v
unfolding update sum_of
sum_of-update k v [] = omega arith
sum_of-update k v ((j, n) ∷ ps) = elim (Bool-cases (key_eq j k)) [
  | inl e ↦ rw e (omega arith)
  | inr e ↦ rw e (omega (arith, sum_of-update k v ps))
]

sum_of-update_all :
    (ps c : List (Key × ℕ)) → sum_of (update_all (λ a b. a + b) 0 ps c) ≡ sum_of ps + sum_of c
unfolding update_all sum_of
sum_of-update_all [] c = omega arith
sum_of-update_all ((k, v) ∷ ps) c =
    omega (arith, sum_of-update_all ps (update 0 k (λ w. w + v) c), sum_of-update k v c)

length-insert_key : (k : Key) (ks : List Key) → length (insert_key k ks) ≡ suc (length ks)
unfolding insert_key
length-insert_key k [] = refl
length-insert_key k (j ∷ js) = elim (Bool-cases (key_lt j k)) [
  | inl e ↦ rw e (ap suc (length-insert_key k js))
  | inr e ↦ rw e refl
]

length-sorted : (ks : List Key) → length (sorted ks) ≡ length ks
unfolding sorted
length-sorted [] = refl
length-sorted (k ∷ ks) = length-insert_key k (sorted ks) ∙ ap suc (length-sorted ks)

whole_number-ok : (o : Option ℤ) (n : ℤ) → whole_number o ≡ ok n → o ≡ some n
whole_number-ok none n h = cc
whole_number-ok (some m) n h = ap some (ok-injective h)

abbrev pub traces_of : List PromptDir → List (Option Str)
traces_of dirs = map (λ (p : PromptDir). p.trace) dirs

module _ (F : Floats) where
  sum_of-hit :
      (o : Option Key) (sal : F.Float) (h : Hits F)
      → sum_of (hit F o sal h).hits ≡ sum_of h.hits + one_if o
  sum_of-hit none sal h = omega arith
  sum_of-hit (some k) sal h = sum_of-update k 1 h.hits

  sum_of-trace_row :
      (mask : List Key) (ws : List Str) (h h' : Hits F)
      → trace_row F mask ws h ≡ ok h'
      → sum_of h'.hits ≡ sum_of h.hits + selects mask ws
  sum_of-trace_row mask (event ∷ l ∷ e ∷ rank ∷ weight ∷ s ∷ []) h h' eq =
      let (first, e0, h0) = >>=-eq-ok (whole_number (parse_int event)) _ eq in
      let (layer, e1, h1) = >>=-eq-ok (whole_number (parse_int l)) _ h0 in
      let (expert, e2, h2) = >>=-eq-ok (whole_number (parse_int e)) _ h1 in
      let (sal, e3, h3) = >>=-eq-ok (float F (F.float_of s)) _ h2 in
      let (u, e4, h4) =
        >>=-eq-ok (guard (F.is_finite sal && not (F.is_negative sal)) invalid_saliency) _ h3 in
      ap (λ (x : Hits F). sum_of x.hits) (sym (ok-injective h4))
      ∙ sum_of-hit (in_mask layer expert mask) sal h
      ∙ sym (
          ap (λ o. sum_of h.hits + chosen mask o (parse_int e))
            (whole_number-ok (parse_int l) layer e1)
          ∙ ap (λ o. sum_of h.hits + chosen mask (some layer) o)
              (whole_number-ok (parse_int e) expert e2))
  sum_of-trace_row mask [] h h' eq = cc
  sum_of-trace_row mask (a ∷ []) h h' eq = cc
  sum_of-trace_row mask (a ∷ b ∷ []) h h' eq = cc
  sum_of-trace_row mask (a ∷ b ∷ c ∷ []) h h' eq = cc
  sum_of-trace_row mask (a ∷ b ∷ c ∷ d ∷ []) h h' eq = cc
  sum_of-trace_row mask (a ∷ b ∷ c ∷ d ∷ e ∷ []) h h' eq = cc
  sum_of-trace_row mask (a ∷ b ∷ c ∷ d ∷ e ∷ f ∷ g ∷ ws) h h' eq = cc

  sum_of-trace_rows :
      (mask : List Key) (lines : List Str) (h h' : Hits F)
      → trace_rows F mask lines h ≡ ok h'
      → sum_of h'.hits ≡ sum_of h.hits + selecting_rows mask lines
  unfolding trace_rows selecting_rows
  sum_of-trace_rows mask [] h h' eq =
      omega (arith, ap (λ (x : Hits F). sum_of x.hits) (ok-injective eq))
  sum_of-trace_rows mask (raw ∷ rest) h h' eq = elim (Bool-cases (is_row (strip raw))) [
    | inl e ↦
        let (h1, e1, eq1) = >>=-eq-ok (trace_row F mask (split (strip raw)) h) _ (rw e at eq) in
        rw e (
          omega (
            arith,
            sum_of-trace_row mask (split (strip raw)) h h1 e1,
            sum_of-trace_rows mask rest h1 h' eq1,
          ))
    | inr e ↦ rw e (omega (arith, sum_of-trace_rows mask rest h h' (rw e at eq)))
  ]

  sum_substitutions-snoc :
      (rs : List (PromptRow F)) (r : PromptRow F)
      → sum_substitutions F (rs ++ r ∷ []) ≡ sum_substitutions F rs + r.route_substitutions
  unfolding sum_substitutions
  sum_substitutions-snoc [] r = omega arith
  sum_substitutions-snoc (x ∷ rs) r = omega (arith, sum_substitutions-snoc rs r)

  prompt_row-enough :
      (id : Str) (h : Hits F) (o : Option ℤ) (r : PromptRow F)
      → prompt_row F id h o ≡ ok r
      → sum_of h.hits ≤ r.route_substitutions
  prompt_row-enough id h (some (pos n)) r e = elim (Bool-cases (leb (sum_of h.hits) n)) [
    | inl t ↦
        let same : n ≡ r.route_substitutions =
          ap (λ (x : PromptRow F). x.route_substitutions) (ok-injective (rw t at e)) in
        ground arith
    | inr t ↦ absurd (let z = rw t at e in cc)
  ]
  prompt_row-enough id h (some (negsuc n)) r e = cc
  prompt_row-enough id h none r e = cc

  -- From `s` to `s'` the direct selections have grown by `n`, and they stay at most the substitutions.
  record Added (s s' : Sums F) (n : ℕ) : Type 0 where
    counted : sum_of s'.slots.hits ≡ sum_of s.slots.hits + n
    bounded :
        sum_of s.slots.hits ≤ sum_substitutions F s.per_prompt
        → sum_of s'.slots.hits ≤ sum_substitutions F s'.per_prompt

  prompt_files-Added :
      (mask : List Key) (id : Str) (t : Option Str) (j : Option Json) (s s' : Sums F)
      → prompt_files F mask id t j s ≡ ok s'
      → Added s s' (selections mask t)
  unfolding read_direct_hits
  prompt_files-Added mask id (some trace) (some route) s s' eq =
      let (h, e, eq1) = >>=-eq-ok (read_direct_hits F trace mask) _ eq in
      let (r, e1, eq2) = >>=-eq-ok (prompt_row F id h (substitutions_of route)) _ eq1 in
      let direct : sum_of h.hits ≡ selections mask (some trace) =
        (unfold sum_of in
          omega (
            arith,
            sum_of-trace_rows mask (splitlines (universal_newlines trace)) (no_hits F) h e,
          )) in
      subst (λ x. Added s x (selections mask (some trace))) (ok-injective eq2)
        (record {
          counted = omega (arith, sum_of-update_all h.hits s.slots.hits, direct);
          bounded = λ b. omega (
            arith,
            sum_of-update_all h.hits s.slots.hits,
            sum_substitutions-snoc s.per_prompt r,
            prompt_row-enough id h (substitutions_of route) r e1,
          );
        })
  prompt_files-Added mask id none j s s' eq = cc
  prompt_files-Added mask id (some trace) none s s' eq = cc

  all_prompts-Added :
      (mask : List Key) (ps : List PromptDir) (s s' : Sums F)
      → all_prompts F mask ps s ≡ ok s'
      → Added s s' (all_selections mask (traces_of ps))
  unfolding all_prompts all_selections
  all_prompts-Added mask [] s s' eq =
      subst (λ x. Added s x 0) (ok-injective eq)
        (record { counted = omega arith; bounded = λ b. b })
  all_prompts-Added mask (p ∷ ps) s s' eq =
      let (s1, e, eq1) = >>=-eq-ok (prompt_files F mask p.id p.trace p.route s) _ eq in
      let a = prompt_files-Added mask p.id p.trace p.route s s1 e in
      let a' = all_prompts-Added mask ps s1 s' eq1 in
      record {
        counted = omega (arith, a.counted, a'.counted);
        bounded = λ b. a'.bounded (a.bounded b);
      }

  one_count : (n : ℕ) → (if ltb 0 n then 1 else 0) + (if n == 0 then 1 else 0) ≡ 1
  one_count n = ground arith

  count_hit-count_never_hit :
      (rs : List (SlotRow F)) → count_hit F rs + count_never_hit F rs ≡ length rs
  unfolding count_hit count_never_hit
  count_hit-count_never_hit [] = omega arith
  count_hit-count_never_hit (r ∷ rs) =
      omega (arith, count_hit-count_never_hit rs, one_count r.selection_count)

  -- A report counts each row of a held-out trace that selects an expert of the mask as one direct
  -- selection; the substitutions are the direct selections and the cascade; and each entry of the mask
  -- is either hit or never hit.
  pub analyze-totals :
      (mask_file : Bytes) (dirs : List PromptDir) (rep : Report F)
      → analyze F mask_file dirs ≡ ok rep
      → (mask : List Key) × (read_mask mask_file ≡ ok mask)
        × (rep.direct ≡ all_selections mask (traces_of dirs))
        × (rep.direct + rep.cascade ≡ rep.substitutions)
        × (rep.slots_hit + rep.slots_never_hit ≡ length mask)
  unfolding analyze sum_of sum_substitutions
  analyze-totals mask_file dirs rep eq =
      let (mask, e, eq1) = >>=-eq-ok (read_mask mask_file) _ eq in
      let (s, e1, eq2) =
        >>=-eq-ok (all_prompts F mask dirs (record { slots = no_hits F; per_prompt = [] })) _ eq1 in
      let a = all_prompts-Added mask dirs (record { slots = no_hits F; per_prompt = [] }) s e1 in
      let few = a.bounded (omega arith) in
      let counts =
        count_hit-count_never_hit (map (slot_row F s.slots) (sorted mask))
        ∙ length-map (sorted mask) (slot_row F s.slots)
        ∙ length-sorted mask in
      let same : report_of F mask s ≡ rep = ok-injective eq2 in
      (
        mask,
        e,
        subst (λ (x : Report F). x.direct ≡ all_selections mask (traces_of dirs)) same
            (omega (arith, a.counted)),
        subst (λ (x : Report F). x.direct + x.cascade ≡ x.substitutions) same (omega (arith, few)),
        subst (λ (x : Report F). x.slots_hit + x.slots_never_hit ≡ length mask) same counts,
      )
