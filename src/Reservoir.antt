-- ===== src/Reservoir.antt =====
-- The bounded activation reservoirs of experts, `build_reservoir` of tools/kimi_expert_reservoir.py, from
-- the text of its trace on. The arrays, the generator of random numbers and the parser of JSON are
-- parameters.
pub mod Bounds
mod Tests
use in_c_test.Prelude.{
  ℕ, zero, suc, ◌+◌, Bool, true, false, ◌&&◌, Option, none, some, List, [], ◌∷◌, ◌++◌, Result, ok,
  err, ◌>>=◌, ◌>>◌, guard, ltb, ◌==◌, list_eq, if◌then◌else◌, length, set,
}
use in_c_test.Prelude.Int.{ℤ, pos, negsuc, ltb_ℤ, same_int}
use in_c_test.Text.{Str, codes, strip, split_on, universal_newlines}
use in_c_test.Json.{Json, null, bool, int, real, str, arr, obj, Fields, get, to_int}

pub data ReservoirError : Type 0 where
  not_positive not_json invalid_record bad_shape : ReservoirError

-- `np.asarray(v, dtype=np.float32)` with the length of an array of rank one, `json.loads`, `str`, and
-- `rng.randrange`, whose state is threaded.
pub record Libraries : Type 1 where
  pub Vector : Type 0
  pub Random : Type 0
  pub asarray : Json → Option Vector
  pub length_of : Vector → Option ℕ
  pub loads : Str → Option Json
  pub text_of : Json → Str
  pub seeded : ℤ → Random
  pub randrange : Random → ℕ → ℕ × Random

abbrev pub Expert : Type 0
Expert = ℤ × ℤ

abbrev pub same_expert : Expert → Expert → Bool
same_expert (l, e) (k, f) = if same_int l k then same_int e f else false

abbrev pub expert_lt : Expert → Expert → Bool
expert_lt (l, e) (k, f) = if same_int l k then ltb_ℤ e f else ltb_ℤ l k

-- `counts[s] += 1`
unfoldable pub count_text : Str → List (Str × ℕ) → List (Str × ℕ)
unfolding list_eq
count_text s [] = (s, 1) ∷ []
count_text s ((t, n) ∷ ps) =
    let rest = count_text s ps in if list_eq t s then (t, n + 1) ∷ ps else (t, n) ∷ rest

abbrev pub is_size : ℕ → Option ℕ → Bool
is_size hidden none = false
is_size hidden (some n) = n == hidden

module _ (L : Libraries) where
  -- What is seen and kept of an expert: `seen` and `kept` have the same keys.
  pub record Bucket : Type 0 where
    pub seen : ℕ
    pub vectors : List L.Vector

  abbrev pub Buckets : Type 0
  Buckets = List (Expert × Bucket)

  abbrev pub replaced :
      (capacity : ℕ) → L.Vector → ℕ → (ℕ × L.Random) → List L.Vector → Bucket × L.Random
  replaced capacity x n (j, rng) vs =
      (record { seen = n; vectors = if ltb j capacity then set vs j x else vs }, rng)

  -- One more vector of an expert.
  abbrev pub offer : (capacity : ℕ) → L.Vector → L.Random → Bucket → Bucket × L.Random
  offer capacity x rng b =
      if ltb (length b.vectors) capacity
      then (record { seen = b.seen + 1; vectors = b.vectors ++ x ∷ [] }, rng)
      else replaced capacity x (b.seen + 1) (L.randrange rng (b.seen + 1)) b.vectors

  abbrev pub empty_bucket : Bucket
  empty_bucket = record { seen = 0; vectors = [] }

  abbrev pub put_bucket : Expert → Buckets → Bucket × L.Random → Buckets × L.Random
  put_bucket k bs (b, rng) = ((k, b) ∷ bs, rng)

  abbrev pub keep_bucket : Expert × Bucket → Buckets × L.Random → Buckets × L.Random
  keep_bucket p (bs, rng) = (p ∷ bs, rng)

  unfoldable pub offer_to :
      (capacity : ℕ) → Expert → L.Vector → L.Random → Buckets → Buckets × L.Random
  offer_to capacity k x rng [] = put_bucket k [] (offer capacity x rng empty_bucket)
  offer_to capacity k x rng ((j, b) ∷ bs) =
      let rest = offer_to capacity k x rng bs in
      if same_expert j k then put_bucket j bs (offer capacity x rng b) else keep_bucket (j, b) rest

  pub record Reservoir : Type 0 where
    pub buckets : Buckets
    pub source_counts : List (Str × ℕ)
    pub kind_counts : List (Str × ℕ)
    pub rows : ℕ
    pub rng : L.Random

  -- `layer`, `expert` and `x` of a record, `none` where reading them raises.
  abbrev pub all_three : Option ℤ → Option ℤ → Option L.Vector → Option (Expert × L.Vector)
  all_three (some l) (some e) (some x) = some ((l, e), x)
  all_three _ _ _ = none

  abbrev pub int_in : Option Json → Option ℤ
  int_in none = none
  int_in (some v) = to_int v

  abbrev pub vector_in : Option Json → Option L.Vector
  vector_in none = none
  vector_in (some v) = L.asarray v

  unfoldable pub routed : Fields → Option (Expert × L.Vector)
  unfolding get list_eq to_int
  routed fs =
      all_three (int_in (get (codes "layer") fs)) (int_in (get (codes "expert") fs))
        (vector_in (get (codes "x") fs))

  abbrev pub counted_as : Option Json → List (Str × ℕ) → List (Str × ℕ)
  counted_as none counts = counts
  counted_as (some v) counts = count_text (L.text_of v) counts

  abbrev pub stored : Fields → Reservoir → Buckets × L.Random → Reservoir
  stored fs r (bs, rng) = record {
    buckets = bs;
    source_counts = counted_as (get (codes "source") fs) r.source_counts;
    kind_counts = counted_as (get (codes "kind") fs) r.kind_counts;
    rows = r.rows + 1;
    rng = rng;
  }

  module _ (capacity hidden : ℕ) where
    abbrev pub add_routed :
        Fields → Option (Expert × L.Vector) → Reservoir → Result ReservoirError Reservoir
    add_routed fs none r = err invalid_record
    add_routed fs (some (k, x)) r =
        if is_size hidden (L.length_of x)
        then ok (stored fs r (offer_to capacity k x r.rng r.buckets))
        else err bad_shape

    -- One record of the trace.
    abbrev pub add_record : Option Json → Reservoir → Result ReservoirError Reservoir
    add_record none r = err not_json
    add_record (some (obj fs)) r = add_routed fs (routed fs) r
    add_record (some v) r = err invalid_record

    abbrev pub add_line : Str → Reservoir → Result ReservoirError Reservoir
    add_line [] r = ok r
    add_line (c ∷ s) r = add_record (L.loads (c ∷ s)) r

    unfoldable pub add_lines : List Str → Reservoir → Result ReservoirError Reservoir
    unfolding offer_to routed count_text strip get list_eq
    add_lines [] r = ok r
    add_lines (line ∷ lines) r = do r' ← add_line (strip line) r; add_lines lines r'

  unfoldable pub insert_bucket : Expert × Bucket → Buckets → Buckets
  insert_bucket p [] = p ∷ []
  insert_bucket p (q ∷ bs) =
      let rest = insert_bucket p bs in if expert_lt q.0 p.0 then q ∷ rest else p ∷ q ∷ bs

  -- `sorted(kept.items())`
  unfoldable pub sorted_buckets : Buckets → Buckets
  unfolding insert_bucket
  sorted_buckets [] = []
  sorted_buckets (p ∷ bs) = insert_bucket p (sorted_buckets bs)

  -- The manifest, with the vectors of the archives in place of their names, but for its constant
  -- entries and the arguments that it repeats.
  pub record Manifest : Type 0 where
    pub rows : ℕ
    pub expert_count : ℕ
    pub source_counts : List (Str × ℕ)
    pub kind_counts : List (Str × ℕ)
    pub experts : Buckets

  abbrev pub positive : ℤ → Option ℕ
  positive (pos zero) = none
  positive (pos (suc n)) = some (suc n)
  positive (negsuc n) = none

  abbrev pub manifest_of : Reservoir → Manifest
  manifest_of r = record {
    rows = r.rows;
    expert_count = length (sorted_buckets r.buckets);
    source_counts = r.source_counts;
    kind_counts = r.kind_counts;
    experts = sorted_buckets r.buckets;
  }

  abbrev pub lines_of : Str → List Str
  lines_of text = split_on (λ c. c == 10) (universal_newlines text)

  abbrev pub build_with : Str → Option ℕ → Option ℕ → ℤ → Result ReservoirError Manifest
  build_with text (some capacity) (some hidden) seed = do
    r ← add_lines capacity hidden (lines_of text) (record {
      buckets = [];
      source_counts = [];
      kind_counts = [];
      rows = 0;
      rng = L.seeded seed;
    })
    ok (manifest_of r)
  build_with text _ _ seed = err not_positive

  unfoldable pub build_reservoir : Str → (capacity hidden seed : ℤ) → Result ReservoirError Manifest
  unfolding add_lines sorted_buckets split_on universal_newlines
  build_reservoir text capacity hidden seed =
      build_with text (positive capacity) (positive hidden) seed
