-- ===== src/Dynskip/Totals.antt =====
-- What the totals of a simulation count.
use in_c_test.Prelude.{
  ℕ, suc, ◌+◌, ◌-◌, ◌≤◌, ◌≡◌, refl, sym, ap, subst, ◌∙◌, ◌||◌, Option, List, [], ◌∷◌, Result, ok,
  err, guard, >>=-eq-ok, ok-injective, if◌then◌else◌, length, length-append, min, max, map, get_or,
  Bool-cases, inl, inr, arith,
}
use in_c_test.Prelude.Int.{ℤ, pos, ◌+ℤ◌, ◌-ℤ◌, same_int}
use in_c_test.Text.{Str, strip, split, splitlines, universal_newlines, parse_int}
use in_c_test.Dynskip.{
  Family, control, Floats, SkipError, classify_prompt, apply_policy, is_empty, any_negative, heavy,
  fill, count,
}
use in_c_test.Dynskip.Traces.{
  TraceError, Slot, slot_eq, event_eq, lookup, is_data, integer, Policy, load_policy, Events,
  append_weight, trace_row, trace_rows, some_events, parse_trace, ids_of, float, wrong_layer,
  invalid_weights, empty_prompt,
}
use in_c_test.Dynskip.Simulate.{
  floor_div, floor_mod, Counts, Stats, bump, lifted, keep_of, slot_lt, insert_slot, sorted_slots,
  total_routed, total_skipped, Sample, policy_of, one_event, all_events, one_sample, all_samples,
  Report, simulate,
}

-- The rows of a trace: its lines that are not blank and no comments.
unfoldable pub data_lines : List Str → ℕ
unfolding strip
data_lines [] = 0
data_lines (raw ∷ rest) = (if is_data (strip raw) then 1 else 0) + data_lines rest

abbrev pub rows_in : Str → ℕ
rows_in text = data_lines (splitlines (universal_newlines text))

unfoldable pub all_rows : List Sample → ℕ
unfolding data_lines splitlines universal_newlines
all_rows [] = 0
all_rows (s ∷ ss) = rows_in s.trace + all_rows ss

-- From `st` to `st'` the counters have grown by `n` routes, of which some are skipped.
pub record Grew (st st' : Stats) (n : ℕ) : Type 0 where
  pub more_routed : total_routed st' ≡ total_routed st + n
  pub few_skipped : total_skipped st' ≤ total_skipped st + n

Grew-refl : (st : Stats) → Grew st st 0
Grew-refl st = record { more_routed = omega arith; few_skipped = omega arith }

Grew-trans :
    (st st' st'' : Stats) (m n : ℕ) → Grew st st' m → Grew st' st'' n → Grew st st'' (m + n)
Grew-trans st st' st'' m n g g' = record {
  more_routed = omega (arith, g.more_routed, g'.more_routed);
  few_skipped = omega (arith, g.few_skipped, g'.few_skipped);
}

bump-Grew : (k : Slot) (n s : ℕ) (st : Stats) → s ≤ n → Grew st (bump k n s st) n
unfolding bump total_routed total_skipped
bump-Grew k n s [] h = record { more_routed = omega arith; few_skipped = omega arith }
bump-Grew k n s ((j, c) ∷ st) h =
    let g = bump-Grew k n s st h in
    elim (Bool-cases (slot_eq j k)) [
      | inl e ↦ rw e (record { more_routed = omega arith; few_skipped = omega arith })
      | inr e ↦ rw e (record {
        more_routed = omega (arith, g.more_routed);
        few_skipped = omega (arith, g.few_skipped);
      })
    ]

insert_slot-totals :
    (p : Slot × Counts) (st : Stats)
    → (total_routed (insert_slot p st) ≡ p.1.routed + total_routed st)
      × (total_skipped (insert_slot p st) ≡ p.1.skipped + total_skipped st)
unfolding insert_slot total_routed total_skipped
insert_slot-totals (k, c) [] = (refl, refl)
insert_slot-totals (k, c) ((j, d) ∷ st) =
    let i = insert_slot-totals (k, c) st in
    elim (Bool-cases (slot_lt j k)) [
      | inl e ↦ rw e (omega (arith, i.0), omega (arith, i.1))
      | inr e ↦ rw e (refl, refl)
    ]

sorted_slots-totals :
    (st : Stats)
    → (total_routed (sorted_slots st) ≡ total_routed st)
      × (total_skipped (sorted_slots st) ≡ total_skipped st)
unfolding sorted_slots total_routed total_skipped
sorted_slots-totals [] = (refl, refl)
sorted_slots-totals ((k, c) ∷ st) =
    let i = insert_slot-totals (k, c) (sorted_slots st) in
    let s = sorted_slots-totals st in (omega (arith, i.0, s.0), omega (arith, i.1, s.1))

module _ (F : Floats) where
  apply_policy-bound :
      (weights : List F.Float) (threshold : F.Float) (min_keep n : ℕ)
      → apply_policy F weights threshold min_keep ≡ ok n
      → n ≤ length weights
  unfolding apply_policy
  apply_policy-bound weights threshold min_keep n h =
      elim (Bool-cases (F.at_most threshold F.nought)) [
        | inl e ↦ let z : 0 ≡ n = ok-injective (rw e at h) in omega arith
        | inr e ↦ elim (Bool-cases (is_empty F weights || any_negative F weights)) [
          | inl e' ↦ absurd (let z = rw (e, e') at h in cc)
          | inr e' ↦ elim (Bool-cases (F.at_most (F.sum weights) F.nought)) [
            | inl e'' ↦ let z : 0 ≡ n = ok-injective (rw (e, e', e'') at h) in omega arith
            | inr e'' ↦
                let kept = count (
                  fill F (length weights) (map (λ x. F.over x (F.sum weights)) weights)
                    (min (max min_keep 1) (length weights))
                    (heavy F threshold (F.sum weights) weights)) in
                let z : length weights - kept ≡ n = ok-injective (rw (e, e', e'') at h) in
                omega arith
          ]
        ]
      ]

  module _ (float_of : Str → Option F.Float) (one : F.Float) where
    unfoldable weights_in : Events F float_of one → ℕ
    weights_in [] = 0
    weights_in ((k, ws) ∷ es) = length ws + weights_in es

    weights_in-append_weight :
        (k : ℤ × ℤ) (x : F.Float) (es : Events F float_of one)
        → weights_in (append_weight F float_of one k x es) ≡ suc (weights_in es)
    unfolding append_weight weights_in
    weights_in-append_weight k x [] = refl
    weights_in-append_weight k x ((j, ws) ∷ es) = elim (Bool-cases (event_eq j k)) [
      | inl e ↦ rw e (omega (arith, length-append ws (x ∷ [])))
      | inr e ↦ rw e (omega (arith, weights_in-append_weight k x es))
    ]

    weights_in-trace_row :
        (ws : List Str) (es es' : Events F float_of one)
        → trace_row F float_of one ws es ≡ ok es'
        → weights_in es' ≡ suc (weights_in es)
    weights_in-trace_row (e ∷ l ∷ x ∷ w ∷ rest) es es' h =
        let (event, e1, h1) = >>=-eq-ok (integer (parse_int e)) _ h in
        let (layer, e2, h2) = >>=-eq-ok (integer (parse_int l)) _ h1 in
        let (weight, e3, h3) = >>=-eq-ok (float F float_of one (float_of w)) _ h2 in
        ap weights_in (sym (ok-injective h3)) ∙ weights_in-append_weight (event, layer) weight es
    weights_in-trace_row [] es es' h = cc
    weights_in-trace_row (a ∷ []) es es' h = cc
    weights_in-trace_row (a ∷ b ∷ []) es es' h = cc
    weights_in-trace_row (a ∷ b ∷ c ∷ []) es es' h = cc

    weights_in-trace_rows :
        (lines : List Str) (es es' : Events F float_of one)
        → trace_rows F float_of one lines es ≡ ok es'
        → weights_in es' ≡ weights_in es + data_lines lines
    unfolding trace_rows data_lines
    weights_in-trace_rows [] es es' h = omega (arith, ap weights_in (ok-injective h))
    weights_in-trace_rows (raw ∷ rest) es es' h = elim (Bool-cases (is_data (strip raw))) [
      | inl e ↦
          let (es1, e1, h1) =
            >>=-eq-ok (trace_row F float_of one (split (strip raw)) es) _ (rw e at h) in
          rw e (
            omega (
              arith,
              weights_in-trace_row (split (strip raw)) es es1 e1,
              weights_in-trace_rows rest es1 es' h1,
            ))
      | inr e ↦ rw e (omega (arith, weights_in-trace_rows rest es es' (rw e at h)))
    ]

    weights_in-some_events :
        (es es' : Events F float_of one)
        → some_events F float_of one es ≡ ok es'
        → weights_in es' ≡ weights_in es
    weights_in-some_events [] es' h = cc
    weights_in-some_events (e ∷ es) es' h = ap weights_in (sym (ok-injective h))

    weights_in-parse_trace :
        (text : Str) (es : Events F float_of one)
        → parse_trace F float_of one text ≡ ok es
        → weights_in es ≡ rows_in text
    unfolding parse_trace weights_in
    weights_in-parse_trace text es h =
        let (es1, e, h1) =
          >>=-eq-ok (trace_rows F float_of one (splitlines (universal_newlines text)) []) _ h in
        omega (
          arith,
          weights_in-some_events es1 es h1,
          weights_in-trace_rows (splitlines (universal_newlines text)) [] es1 e,
        )

    lifted-ok :
        {A : Type 0} (e : TraceError) (r : Result SkipError A) (a : A)
        → lifted e r ≡ ok a
        → r ≡ ok a
    lifted-ok e (ok x) a h = ap ok (ok-injective h)
    lifted-ok e (err x) a h = cc

    module _ (policy : Policy F float_of one) where
      one_event-Grew :
          (families : List Family) (e : (ℤ × ℤ) × List F.Float) (st st' : Stats)
          → one_event F float_of one policy families e st ≡ ok st'
          → Grew st st' (length e.1)
      unfolding one_event
      one_event-Grew families ((event, layer), weights) st st' h =
          let n = length families in
          let (u, e1, h1) =
            >>=-eq-ok (guard (same_int (floor_div (event -ℤ pos 1) n +ℤ pos 1) layer) wrong_layer) _
              h in
          let family = get_or families (floor_mod (event -ℤ pos 1) n) control in
          let p =
            policy_of F float_of one (lookup slot_eq (family, layer) policy) (length weights) in
          let (s, e2, h2) =
            >>=-eq-ok (lifted invalid_weights (apply_policy F weights p.0 (keep_of p.1))) _ h1 in
          subst (λ x. Grew st x (length weights)) (ok-injective h2)
            (bump-Grew (family, layer) (length weights) s st
              (apply_policy-bound weights p.0 (keep_of p.1) s
                (lifted-ok invalid_weights (apply_policy F weights p.0 (keep_of p.1)) s e2)))

      all_events-Grew :
          (families : List Family) (es : Events F float_of one) (st st' : Stats)
          → all_events F float_of one policy families es st ≡ ok st'
          → Grew st st' (weights_in es)
      unfolding all_events weights_in
      all_events-Grew families [] st st' h =
          subst (λ x. Grew st x 0) (ok-injective h) (Grew-refl st)
      all_events-Grew families (e ∷ es) st st' h =
          let (st1, e1, h1) = >>=-eq-ok (one_event F float_of one policy families e st) _ h in
          Grew-trans st st1 st' (length e.1) (weights_in es) (one_event-Grew families e st st1 e1)
            (all_events-Grew families es st1 st' h1)

      one_sample-Grew :
          (s : Sample) (st st' : Stats)
          → one_sample F float_of one policy s st ≡ ok st'
          → Grew st st' (rows_in s.trace)
      unfolding one_sample
      one_sample-Grew s st st' h =
          let (ids, e1, h1) = >>=-eq-ok (ids_of (split s.prompt_ids)) _ h in
          let (families, e2, h2) = >>=-eq-ok (lifted empty_prompt (classify_prompt ids)) _ h1 in
          let (es, e3, h3) = >>=-eq-ok (parse_trace F float_of one s.trace) _ h2 in
          subst (Grew st st') (weights_in-parse_trace s.trace es e3)
            (all_events-Grew families es st st' h3)

      all_samples-Grew :
          (ss : List Sample) (st st' : Stats)
          → all_samples F float_of one policy ss st ≡ ok st'
          → Grew st st' (all_rows ss)
      unfolding all_samples all_rows
      all_samples-Grew [] st st' h = subst (λ x. Grew st x 0) (ok-injective h) (Grew-refl st)
      all_samples-Grew (s ∷ ss) st st' h =
          let (st1, e1, h1) = >>=-eq-ok (one_sample F float_of one policy s st) _ h in
          Grew-trans st st1 st' (rows_in s.trace) (all_rows ss) (one_sample-Grew s st st1 e1)
            (all_samples-Grew ss st1 st' h1)

    -- A simulation that returns has counted each row of each trace once, a row being a line that is not
    -- blank and no comment, and has skipped at most as many routes as there are rows.
    pub simulate-totals :
        (policy_text : Str) (samples : List Sample) (rep : Report F float_of one)
        → simulate F float_of one policy_text samples ≡ ok rep
        → (rep.routed ≡ all_rows samples) × (rep.skipped ≤ all_rows samples)
    unfolding simulate total_routed total_skipped
    simulate-totals policy_text samples rep h =
        let (policy, e1, h1) = >>=-eq-ok (load_policy F float_of one policy_text) _ h in
        let (st, e2, h2) = >>=-eq-ok (all_samples F float_of one policy samples []) _ h1 in
        let g = all_samples-Grew policy samples [] st e2 in
        let t = sorted_slots-totals st in
        let routed : total_routed (sorted_slots st) ≡ rep.routed =
          ap (λ (r : Report F float_of one). r.routed) (ok-injective h2) in
        let skipped : total_skipped (sorted_slots st) ≡ rep.skipped =
          ap (λ (r : Report F float_of one). r.skipped) (ok-injective h2) in
        (omega (arith, routed, t.0, g.more_routed), omega (arith, skipped, t.1, g.few_skipped))
