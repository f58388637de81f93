-- ===== src/Dynskip/Simulate.antt =====
-- `simulate` of tools/simulate_kimi_dynskip.py, from the texts of its files on.
use in_c_test.Prelude.{
  ℕ, ◌+◌, ◌-◌, ◌/◌, ◌%◌, Bool, Option, none, some, List, [], ◌∷◌, Result, ok, err, ◌>>=◌, ◌>>◌,
  guard, ltb, ◌==◌, if◌then◌else◌, length, get_or,
}
use in_c_test.Prelude.Int.{ℤ, pos, negsuc, ◌+ℤ◌, ◌-ℤ◌, ltb_ℤ, same_int}
use in_c_test.Text.{Str, split}
use in_c_test.Dynskip.{Family, control, Floats, SkipError, classify_prompt, apply_policy}
use in_c_test.Dynskip.Traces.{
  TraceError, wrong_layer, empty_prompt, invalid_weights, Slot, rank, slot_eq, lookup, Policy,
  load_policy, Events, parse_trace, ids_of,
}

-- `//` and `%` by a number that is not zero.
abbrev pub floor_div : ℤ → ℕ → ℤ
floor_div (pos a) n = pos (a / n)
floor_div (negsuc a) n = negsuc (a / n)

abbrev pub floor_mod : ℤ → ℕ → ℕ
floor_mod (pos a) n = a % n
floor_mod (negsuc a) n = n - 1 - a % n

-- The counters of a family in a layer.
pub record Counts : Type 0 where
  pub events : ℕ
  pub routed : ℕ
  pub skipped : ℕ

abbrev pub Stats : Type 0
Stats = List (Slot × Counts)

abbrev pub counted : ℕ → ℕ → Counts → Counts
counted n s c = record { events = c.events + 1; routed = c.routed + n; skipped = c.skipped + s }

abbrev pub no_counts : Counts
no_counts = record { events = 0; routed = 0; skipped = 0 }

-- `slot = stats[k]` and its three sums
unfoldable pub bump : Slot → ℕ → ℕ → Stats → Stats
bump k n s [] = (k, counted n s no_counts) ∷ []
bump k n s ((j, c) ∷ st) =
    let rest = bump k n s st in if slot_eq j k then (j, counted n s c) ∷ st else (j, c) ∷ rest

abbrev pub lifted : {A : Type 0} → TraceError → Result SkipError A → Result TraceError A
lifted e (err x) = err e
lifted e (ok a) = ok a

-- `min_keep`, of which `apply_policy` takes the greater of it and one.
abbrev pub keep_of : ℤ → ℕ
keep_of (pos n) = n
keep_of (negsuc n) = 0

-- `(family, layer)` by the order of tuples
abbrev pub slot_lt : Slot → Slot → Bool
slot_lt (f, l) (g, k) = if rank f == rank g then ltb_ℤ l k else ltb (rank f) (rank g)

unfoldable pub insert_slot : Slot × Counts → Stats → Stats
insert_slot p [] = p ∷ []
insert_slot p (q ∷ st) =
    let rest = insert_slot p st in if slot_lt q.0 p.0 then q ∷ rest else p ∷ q ∷ st

-- `sorted(stats.items())`
unfoldable pub sorted_slots : Stats → Stats
unfolding insert_slot
sorted_slots [] = []
sorted_slots (p ∷ st) = insert_slot p (sorted_slots st)

unfoldable pub total_routed : Stats → ℕ
total_routed [] = 0
total_routed ((k, c) ∷ st) = c.routed + total_routed st

unfoldable pub total_skipped : Stats → ℕ
total_skipped [] = 0
total_skipped ((k, c) ∷ st) = c.skipped + total_skipped st

-- The texts of the files of a sample.
pub record Sample : Type 0 where
  pub prompt_ids : Str
  pub trace : Str

module _ (F : Floats) (float_of : Str → Option F.Float) (one : F.Float) where
  -- The policy of a slot; without one, nothing is skipped.
  abbrev pub policy_of : Option (F.Float × ℤ) → ℕ → F.Float × ℤ
  policy_of none n = (F.nought, pos n)
  policy_of (some p) n = p

  -- One event of a trace.
  unfoldable pub one_event :
      Policy F float_of one
      → (families : List Family) → (ℤ × ℤ) × List F.Float
      → Stats
      → Result TraceError Stats
  unfolding apply_policy lookup bump ◌-ℤ◌ ◌+ℤ◌
  one_event policy families ((event, layer), weights) stats = do
    let n = length families
    guard (same_int (floor_div (event -ℤ pos 1) n +ℤ pos 1) layer) wrong_layer
    let family = get_or families (floor_mod (event -ℤ pos 1) n) control
    let p = policy_of (lookup slot_eq (family, layer) policy) (length weights)
    skipped ← lifted invalid_weights (apply_policy F weights p.0 (keep_of p.1))
    ok (bump (family, layer) (length weights) skipped stats)

  unfoldable pub all_events :
      Policy F float_of one → List Family → Events F float_of one → Stats → Result TraceError Stats
  unfolding one_event
  all_events policy families [] stats = ok stats
  all_events policy families (e ∷ es) stats = do
    stats' ← one_event policy families e stats
    all_events policy families es stats'

  unfoldable pub one_sample : Policy F float_of one → Sample → Stats → Result TraceError Stats
  unfolding ids_of classify_prompt parse_trace all_events split
  one_sample policy sample stats = do
    ids ← ids_of (split sample.prompt_ids)
    families ← lifted empty_prompt (classify_prompt ids)
    events ← parse_trace F float_of one sample.trace
    all_events policy families events stats

  unfoldable pub all_samples : Policy F float_of one → List Sample → Stats → Result TraceError Stats
  unfolding one_sample
  all_samples policy [] stats = ok stats
  all_samples policy (s ∷ ss) stats = do
    stats' ← one_sample policy s stats
    all_samples policy ss stats'

  -- The report, but for its quotients and its constant entries. A row is a slot with its counters and
  -- its policy.
  pub record Report : Type 0 where
    pub samples : ℕ
    pub routed : ℕ
    pub skipped : ℕ
    pub rows : List ((Slot × Counts) × (F.Float × ℤ))

  unfoldable pub rows_of : Policy F float_of one → Stats → List ((Slot × Counts) × (F.Float × ℤ))
  unfolding lookup
  rows_of policy [] = []
  rows_of policy (p ∷ st) = (p, policy_of (lookup slot_eq p.0 policy) 0) ∷ rows_of policy st

  unfoldable pub simulate : (policy_text : Str) → List Sample → Result TraceError Report
  unfolding load_policy all_samples sorted_slots total_routed total_skipped rows_of
  simulate policy_text samples = do
    policy ← load_policy F float_of one policy_text
    stats ← all_samples policy samples []
    let sorted = sorted_slots stats
    ok (record {
      samples = length samples;
      routed = total_routed sorted;
      skipped = total_skipped sorted;
      rows = rows_of policy sorted;
    })
