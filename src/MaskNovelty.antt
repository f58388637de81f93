-- ===== src/MaskNovelty.antt =====
-- How a mask behaves on held-out routes, tools/analyze_kimi_mask_novelty.py, from the contents of its
-- files on. Its floats are a parameter.
pub mod Totals
mod Tests
use in_c_test.Prelude.{
  ℕ, zero, suc, ◌+◌, ◌-◌, Bool, true, false, ◌||◌, ◌&&◌, not, Option, none, some, List, [], ◌∷◌,
  ◌++◌, map, Result, ok, err, ◌>>=◌, ◌>>◌, guard, leb, ltb, ◌==◌, if◌then◌else◌, length, list_eq,
}
use in_c_test.Prelude.Int.{ℤ, pos, negsuc}
use in_c_test.Struct.{Bytes}
use in_c_test.Text.{Str, codes, strip, split, splitlines, universal_newlines, parse_int}
use in_c_test.Json.{to_int, Json, null, bool, int, real, str, arr, obj, get}
use in_c_test.ExpertStore.{Key, StoreError, key_eq, has_key}
use in_c_test.ExpertStore.Mask.{sorted}
use in_c_test.ExpertStore.Mask

pub data NoveltyError : Type 0 where
  mask_rejected : StoreError → NoveltyError
  not_six_columns not_an_int not_a_float invalid_saliency : NoveltyError
  missing_file bad_route fewer_than_direct : NoveltyError

pub record Floats : Type 1 where
  pub Float : Type 0
  pub nought : Float
  pub plus : Float → Float → Float
  pub is_negative : Float → Bool
  pub is_finite : Float → Bool
  pub float_of : Str → Option Float

abbrev pub masked : Result StoreError (List Key) → Result NoveltyError (List Key)
masked (ok ks) = ok ks
masked (err e) = err (mask_rejected e)

-- The same statements as in compact_expert_store.
unfoldable pub read_mask : Bytes → Result NoveltyError (List Key)
unfolding Mask.read_mask
read_mask bytes = masked (Mask.read_mask bytes)

-- A `Counter`: `c[k] = f(c[k])`, where a new key has the value `z`.
unfoldable pub update : {V : Type 0} → V → Key → (V → V) → List (Key × V) → List (Key × V)
update z k f [] = (k, f z) ∷ []
update z k f ((j, v) ∷ ps) =
    let rest = update z k f ps in if key_eq j k then (j, f v) ∷ ps else (j, v) ∷ rest

-- `c[k]`
unfoldable pub value_at : {V : Type 0} → V → Key → List (Key × V) → V
value_at z k [] = z
value_at z k ((j, v) ∷ ps) = let rest = value_at z k ps in if key_eq j k then v else rest

-- `sum(c.values())`
unfoldable pub sum_of : List (Key × ℕ) → ℕ
sum_of [] = 0
sum_of ((k, n) ∷ ps) = n + sum_of ps

-- `slot_hits.update(hits)`
unfoldable pub update_all :
    {V : Type 0} → (V → V → V) → V → List (Key × V) → List (Key × V) → List (Key × V)
unfolding update
update_all plus z [] c = c
update_all plus z ((k, v) ∷ ps) c = update_all plus z ps (update z k (λ w. plus w v) c)

-- A pair of the trace, if the mask has it.
abbrev pub in_mask : ℤ → ℤ → List Key → Option Key
in_mask (pos l) (pos e) mask = if has_key (l, e) mask then some (l, e) else none
in_mask _ _ mask = none

abbrev pub is_row : Str → Bool
is_row [] = false
is_row (c ∷ s) = not (c == b'#')

abbrev pub whole_number : Option ℤ → Result NoveltyError ℤ
whole_number none = err not_an_int
whole_number (some n) = ok n

abbrev pub substitutions_in : Option Json → Option ℤ
substitutions_in none = none
substitutions_in (some v) = to_int v

abbrev pub summary_in : Option Json → Option ℤ
summary_in (some (obj fs)) = substitutions_in (get (codes "substitutions") fs)
summary_in _ = none

-- `int(route["summary"]["substitutions"])`, `none` where it raises
unfoldable pub substitutions_of : Json → Option ℤ
unfolding get list_eq to_int
substitutions_of (obj fs) = summary_in (get (codes "summary") fs)
substitutions_of _ = none

-- A directory of a held-out prompt: the text of its trace and the JSON of its comparison, if they are
-- there.
pub record PromptDir : Type 0 where
  pub id : Str
  pub trace : Option Str
  pub route : Option Json

module _ (F : Floats) where
  pub record Hits : Type 0 where
    pub hits : List (Key × ℕ)
    pub saliency : List (Key × F.Float)

  abbrev pub no_hits : Hits
  no_hits = record { hits = []; saliency = [] }

  abbrev pub hit : Option Key → F.Float → Hits → Hits
  hit none sal h = h
  hit (some k) sal h = record {
    hits = update 0 k (λ n. n + 1) h.hits;
    saliency = update F.nought k (λ x. F.plus x sal) h.saliency;
  }

  abbrev pub float : Option F.Float → Result NoveltyError F.Float
  float none = err not_a_float
  float (some x) = ok x

  abbrev pub trace_row : List Key → List Str → Hits → Result NoveltyError Hits
  trace_row mask (event ∷ l ∷ e ∷ rank ∷ weight ∷ s ∷ []) h = do
    first ← whole_number (parse_int event)
    layer ← whole_number (parse_int l)
    expert ← whole_number (parse_int e)
    sal ← float (F.float_of s)
    guard (F.is_finite sal && not (F.is_negative sal)) invalid_saliency
    ok (hit (in_mask layer expert mask) sal h)
  trace_row mask _ h = err not_six_columns

  unfoldable pub trace_rows : List Key → List Str → Hits → Result NoveltyError Hits
  unfolding strip split parse_int has_key update
  trace_rows mask [] h = ok h
  trace_rows mask (raw ∷ rest) h =
      if is_row (strip raw)
      then (do h' ← trace_row mask (split (strip raw)) h; trace_rows mask rest h')
      else trace_rows mask rest h

  unfoldable pub read_direct_hits : Str → List Key → Result NoveltyError Hits
  unfolding trace_rows splitlines universal_newlines
  read_direct_hits text mask = trace_rows mask (splitlines (universal_newlines text)) no_hits

  pub record PromptRow : Type 0 where
    pub id : Str
    pub direct : ℕ
    pub unique_slots : ℕ
    pub route_substitutions : ℕ
    pub cascade : ℕ
    pub hits : Hits

  pub record Sums : Type 0 where
    pub slots : Hits
    pub per_prompt : List PromptRow

  abbrev pub prompt_row : Str → Hits → Option ℤ → Result NoveltyError PromptRow
  prompt_row id h (some (pos n)) =
      if leb (sum_of h.hits) n
      then ok (record {
        id = id;
        direct = sum_of h.hits;
        unique_slots = length h.hits;
        route_substitutions = n;
        cascade = n - sum_of h.hits;
        hits = h;
      })
      else err fewer_than_direct
  prompt_row id h (some (negsuc n)) = err fewer_than_direct
  prompt_row id h none = err bad_route

  abbrev pub add_slots : Hits → Hits → Hits
  add_slots h slots = record {
    hits = update_all (λ a b. a + b) 0 h.hits slots.hits;
    saliency = update_all F.plus F.nought h.saliency slots.saliency;
  }

  abbrev pub prompt_files :
      List Key → Str → Option Str → Option Json → Sums → Result NoveltyError Sums
  prompt_files mask id (some trace) (some route) s = do
    h ← read_direct_hits trace mask
    row ← prompt_row id h (substitutions_of route)
    ok (record { slots = add_slots h s.slots; per_prompt = s.per_prompt ++ row ∷ [] })
  prompt_files mask id none route s = err missing_file
  prompt_files mask id (some trace) none s = err missing_file

  -- The loop over the directories, in the order of their names.
  unfoldable pub all_prompts : List Key → List PromptDir → Sums → Result NoveltyError Sums
  unfolding read_direct_hits substitutions_of update_all sum_of
  all_prompts mask [] s = ok s
  all_prompts mask (p ∷ ps) s = do
    s' ← prompt_files mask p.id p.trace p.route s
    all_prompts mask ps s'

  pub record SlotRow : Type 0 where
    pub slot : Key
    pub selection_count : ℕ
    pub saliency : F.Float

  abbrev pub slot_row : Hits → Key → SlotRow
  slot_row h k = record {
    slot = k;
    selection_count = value_at 0 k h.hits;
    saliency = value_at F.nought k h.saliency;
  }

  -- `sum(int(r["heldout_selection_count"] > 0) for r in slot_rows)`, and that for `== 0`
  unfoldable pub count_hit : List SlotRow → ℕ
  count_hit [] = 0
  count_hit (r ∷ rs) = (if ltb 0 r.selection_count then 1 else 0) + count_hit rs

  unfoldable pub count_never_hit : List SlotRow → ℕ
  count_never_hit [] = 0
  count_never_hit (r ∷ rs) = (if r.selection_count == 0 then 1 else 0) + count_never_hit rs

  unfoldable pub count_direct : List PromptRow → ℕ
  count_direct [] = 0
  count_direct (r ∷ rs) = (if ltb 0 r.direct then 1 else 0) + count_direct rs

  unfoldable pub sum_substitutions : List PromptRow → ℕ
  sum_substitutions [] = 0
  sum_substitutions (r ∷ rs) = r.route_substitutions + sum_substitutions rs

  -- The report, but for its constant entries.
  pub record Report : Type 0 where
    pub mask_entries : ℕ
    pub prompts : ℕ
    pub direct : ℕ
    pub slots_hit : ℕ
    pub slots_never_hit : ℕ
    pub prompts_with_direct : ℕ
    pub substitutions : ℕ
    pub cascade : ℕ
    pub per_prompt : List PromptRow
    pub mask_slots : List SlotRow

  abbrev pub report_of : List Key → Sums → Report
  report_of mask s =
      let rows = map (slot_row s.slots) (sorted mask) in
      record {
        mask_entries = length mask;
        prompts = length s.per_prompt;
        direct = sum_of s.slots.hits;
        slots_hit = count_hit rows;
        slots_never_hit = count_never_hit rows;
        prompts_with_direct = count_direct s.per_prompt;
        substitutions = sum_substitutions s.per_prompt;
        cascade = sum_substitutions s.per_prompt - sum_of s.slots.hits;
        per_prompt = s.per_prompt;
        mask_slots = rows;
      }

  unfoldable pub analyze : (mask_file : Bytes) → List PromptDir → Result NoveltyError Report
  unfolding read_mask all_prompts sorted value_at count_hit count_never_hit count_direct
      sum_substitutions
  analyze mask_file dirs = do
    mask ← read_mask mask_file
    s ← all_prompts mask dirs (record { slots = no_hits; per_prompt = [] })
    ok (report_of mask s)
