-- ===== src/Dynskip/Traces.antt =====
-- The inputs of tools/simulate_kimi_dynskip.py: `load_policy`, `parse_trace` and the ids of a prompt, on
-- the texts of their files.
use in_c_test.Prelude.{
  ℕ, Bool, false, ◌&&◌, ◌||◌, not, Option, none, some, List, [], ◌∷◌, ◌++◌, Result, ok, err, ◌>>=◌,
  ◌>>◌, guard, ltb, ◌==◌, list_eq, if◌then◌else◌,
}
use in_c_test.Prelude.Int.{ℤ, pos, negsuc, same_int}
use in_c_test.Text.{Str, codes, strip, split, splitlines, universal_newlines, parse_int}
use in_c_test.Dynskip.{Family, control, content, media, Floats}

-- What the readers and the simulation raise.
pub data TraceError : Type 0 where
  bad_policy_line invalid_policy no_active_threshold : TraceError
  malformed_row no_events not_an_int not_a_float : TraceError
  wrong_layer empty_prompt invalid_weights : TraceError

abbrev pub Slot : Type 0
Slot = Family × ℤ

abbrev pub rank : Family → ℕ
rank control = 0
rank content = 1
rank media = 2

abbrev pub slot_eq : Slot → Slot → Bool
slot_eq (f, l) (g, k) = if rank f == rank g then same_int l k else false

abbrev pub event_eq : ℤ × ℤ → ℤ × ℤ → Bool
event_eq (e, l) (f, k) = if same_int e f then same_int l k else false

-- `d[k] = v`: a new key stands last.
unfoldable pub assign : {K V : Type 0} → (K → K → Bool) → K → V → List (K × V) → List (K × V)
assign eq k v [] = (k, v) ∷ []
assign eq k v ((j, w) ∷ ps) =
    let rest = assign eq k v ps in if eq j k then (j, v) ∷ ps else (j, w) ∷ rest

unfoldable pub lookup : {K V : Type 0} → (K → K → Bool) → K → List (K × V) → Option V
lookup eq k [] = none
lookup eq k ((j, w) ∷ ps) = let rest = lookup eq k ps in if eq j k then some w else rest

-- A line that is read: not blank, and no comment.
abbrev pub is_data : Str → Bool
is_data [] = false
is_data (c ∷ s) = not (c == b'#')

abbrev pub integer : Option ℤ → Result TraceError ℤ
integer none = err not_an_int
integer (some n) = ok n

abbrev pub at_least_one : ℤ → Bool
at_least_one (pos n) = ltb 0 n
at_least_one (negsuc n) = false

module _ (F : Floats) (float_of : Str → Option F.Float) (one : F.Float) where
  abbrev pub Policy : Type 0
  Policy = List (Slot × (F.Float × ℤ))

  abbrev pub float : Option F.Float → Result TraceError F.Float
  float none = err not_a_float
  float (some x) = ok x

  abbrev pub family_of : Str → Option Family
  family_of s =
      if list_eq s (codes "content")
      then some content
      else if list_eq s (codes "media")
      then some media
      else none

  -- A line of the policy, behind the test of its family.
  abbrev pub policy_entry :
      Option Family → (layer threshold min_keep : Str) → Policy → Result TraceError Policy
  policy_entry none layer threshold min_keep out = err bad_policy_line
  policy_entry (some family) layer threshold min_keep out = do
    l ← integer (parse_int layer)
    t ← float (float_of threshold)
    k ← integer (parse_int min_keep)
    guard (at_least_one l && ((F.at_most F.nought t && F.at_most t one) && at_least_one k))
        invalid_policy
    ok (assign slot_eq (family, l) (t, k) out)

  abbrev pub policy_line : List Str → Policy → Result TraceError Policy
  policy_line (f ∷ l ∷ t ∷ k ∷ []) out = policy_entry (family_of f) l t k out
  policy_line _ out = err bad_policy_line

  unfoldable pub policy_lines : List Str → Policy → Result TraceError Policy
  unfolding strip split parse_int list_eq assign
  policy_lines [] out = ok out
  policy_lines (raw ∷ rest) out =
      if is_data (strip raw)
      then (do out' ← policy_line (split (strip raw)) out; policy_lines rest out')
      else policy_lines rest out

  -- `any(thr > 0.0 for thr, _ in out.values())`
  unfoldable pub any_active : Policy → Bool
  any_active [] = false
  any_active ((s, (t, k)) ∷ ps) = F.less F.nought t || any_active ps

  unfoldable pub load_policy : Str → Result TraceError Policy
  unfolding policy_lines any_active splitlines universal_newlines
  load_policy text = do
    out ← policy_lines (splitlines (universal_newlines text)) []
    guard (any_active out) no_active_threshold
    ok out

  -- Events with the weights of their routes, in the order of their first rows.
  abbrev pub Events : Type 0
  Events = List ((ℤ × ℤ) × List F.Float)

  -- `events[(event, layer)].append(weight)`
  unfoldable pub append_weight : ℤ × ℤ → F.Float → Events → Events
  append_weight k x [] = (k, x ∷ []) ∷ []
  append_weight k x ((j, ws) ∷ es) =
      let rest = append_weight k x es in
      if event_eq j k then (j, ws ++ x ∷ []) ∷ es else (j, ws) ∷ rest

  abbrev pub trace_row : List Str → Events → Result TraceError Events
  trace_row (e ∷ l ∷ x ∷ w ∷ rest) events = do
    event ← integer (parse_int e)
    layer ← integer (parse_int l)
    weight ← float (float_of w)
    ok (append_weight (event, layer) weight events)
  trace_row _ events = err malformed_row

  unfoldable pub trace_rows : List Str → Events → Result TraceError Events
  unfolding strip split parse_int append_weight
  trace_rows [] events = ok events
  trace_rows (raw ∷ rest) events =
      if is_data (strip raw)
      then (do events' ← trace_row (split (strip raw)) events; trace_rows rest events')
      else trace_rows rest events

  abbrev pub some_events : Events → Result TraceError Events
  some_events [] = err no_events
  some_events (e ∷ es) = ok (e ∷ es)

  unfoldable pub parse_trace : Str → Result TraceError Events
  unfolding trace_rows splitlines universal_newlines
  parse_trace text = do
    events ← trace_rows (splitlines (universal_newlines text)) []
    some_events events

-- A token as `classify_prompt` tells it from others: a negative one is like any that is no mark.
abbrev pub token_of : ℤ → ℕ
token_of (pos n) = n
token_of (negsuc n) = 0

-- `[int(x) for x in text.split()]`
unfoldable pub ids_of : List Str → Result TraceError (List ℕ)
unfolding parse_int
ids_of [] = ok []
ids_of (w ∷ ws) = do n ← integer (parse_int w); rest ← ids_of ws; ok (token_of n ∷ rest)
