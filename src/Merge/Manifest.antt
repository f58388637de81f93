-- ===== src/Merge/Manifest.antt =====
-- `load_mapping` of tools/merge_expert_store.py, and the lookup of a prototype in what it returns.
use in_c_test.Prelude.{
  ℕ, ◌==◌, Bool, true, false, Option, none, some, List, [], ◌∷◌, list_eq, if◌then◌else◌,
}
use in_c_test.Prelude.Int.{ℤ, pos, same_int}
use in_c_test.Text.{codes, parse_int}
use in_c_test.Json.{to_int, Json, bool, int, real, obj, Fields, end, field, get, get_or_default}

-- The logical experts of each layer with their prototypes.
abbrev pub LayerMap : Type 0
LayerMap = List (ℤ × List (ℤ × ℤ))

-- `v == 1`
abbrev pub is_one : Json → Bool
is_one (int (pos n)) = n == 1
is_one (bool b) = b
is_one (real r) = list_eq r.text (codes "1.0")
is_one _ = false

abbrev pub and_pair : Option ℤ → Option ℤ → Option (List (ℤ × ℤ)) → Option (List (ℤ × ℤ))
and_pair (some k) (some v) (some rest) = some ((k, v) ∷ rest)
and_pair _ _ _ = none

-- `{int(k): int(v) for k, v in ...items()}`
unfoldable pub pairs_of : Fields → Option (List (ℤ × ℤ))
unfolding to_int parse_int
pairs_of end = some []
pairs_of (field k v fs) = and_pair (parse_int k) (to_int v) (pairs_of fs)

abbrev pub items_of : Json → Option (List (ℤ × ℤ))
items_of (obj fs) = pairs_of fs
items_of _ = none

abbrev pub map_of : Json → Option (List (ℤ × ℤ))
map_of (obj fs) = items_of (get_or_default (codes "map") (obj end) fs)
map_of _ = none

abbrev pub and_layer : Option ℤ → Option (List (ℤ × ℤ)) → Option LayerMap → Option LayerMap
and_layer (some l) (some m) (some rest) = some ((l, m) ∷ rest)
and_layer _ _ _ = none

unfoldable pub layers_of : Fields → Option LayerMap
unfolding pairs_of get list_eq parse_int
layers_of end = some []
layers_of (field k v fs) = and_layer (parse_int k) (map_of v) (layers_of fs)

abbrev pub layers_in : Option Json → Option LayerMap
layers_in (some (obj fs)) = layers_of fs
layers_in _ = none

-- `load_mapping`, `none` where it raises
unfoldable pub load_mapping : Json → Option LayerMap
unfolding layers_of get list_eq
load_mapping (obj fs) = elim (get (codes "version") fs) [
  | none ↦ none
  | some v ↦ if is_one v then layers_in (get (codes "layers") fs) else none
]
load_mapping _ = none

abbrev pub or_here : {A : Type 0} → Option A → Bool → A → Option A
or_here (some b) t a = some b
or_here none true a = some a
or_here none false a = none

-- `d.get(k)` of the pairs that were put into a dictionary, of which the last stays.
unfoldable pub find_int : {A : Type 0} → ℤ → List (ℤ × A) → Option A
find_int k [] = none
find_int k ((j, a) ∷ ps) = or_here (find_int k ps) (same_int j k) a

abbrev pub in_layer : Option (List (ℤ × ℤ)) → ℤ → Option ℤ
in_layer none k = none
in_layer (some ps) k = find_int k ps

abbrev pub or_itself : Option ℤ → ℤ → ℤ
or_itself none k = k
or_itself (some p) k = p

-- `layer_map.get(layer, {}).get(expert, expert)`
unfoldable pub prototype : LayerMap → (layer expert : ℕ) → ℤ
unfolding find_int
prototype m layer expert = or_itself (in_layer (find_int (pos layer) m) (pos expert)) (pos expert)
