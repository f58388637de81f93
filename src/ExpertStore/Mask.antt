-- ===== src/ExpertStore/Mask.antt =====
-- The mask of disabled experts: `read_mask`, `write_mask_sidecar` and `mask_sidecar_path` of
-- tools/compact_expert_store.py. A set of keys is the list of its members.
use in_c_test.Prelude.{
  ℕ, Bool, true, false, Option, none, some, List, [], ◌∷◌, ◌++◌, map, Result, ok, err, ◌>>=◌, ltb,
  ◌==◌, ◌≡◌, refl, if◌then◌else◌,
}
use in_c_test.Prelude.Int.{ℤ, pos, negsuc}
use in_c_test.Text.{
  Str, strip, split, before, splitlines, universal_newlines, text_of_lines, parse_int, codes,
}
use in_c_test.Text.Print.{show}
use in_c_test.Text.Utf8.{decode}
use in_c_test.ExpertStore.{
  Key, StoreError, has_key, mask_not_a_pair, mask_not_an_integer, mask_negative, mask_duplicate,
  mask_empty, not_utf8,
}

abbrev pub natural : ℤ → Result StoreError ℕ
natural (pos n) = ok n
natural (negsuc n) = err mask_negative

abbrev pub integer : Option ℤ → Result StoreError ℤ
integer none = err mask_not_an_integer
integer (some v) = ok v

-- `layer, expert = map(int, parts)` and the test of the signs
unfoldable pub parse_pair : List Str → Result StoreError Key
unfolding parse_int
parse_pair (l ∷ e ∷ []) = do
  layer ← integer (parse_int l)
  expert ← integer (parse_int e)
  layer' ← natural layer
  expert' ← natural expert
  ok (layer', expert')
parse_pair _ = err mask_not_a_pair

-- One line: `none` where it is empty or a comment.
unfoldable pub parse_line : Str → Result StoreError (Option Key)
unfolding parse_pair strip split before
parse_line raw = elim (strip (before b'#' raw)) [
  | [] ↦ ok none
  | c ∷ line ↦ do k ← parse_pair (split (c ∷ line)); ok (some k)
]

abbrev pub add_key : Option Key → List Key → Result StoreError (List Key)
add_key none disabled = ok disabled
add_key (some k) disabled =
    if has_key k disabled then err mask_duplicate else ok (disabled ++ k ∷ [])

unfoldable pub parse_lines : List Str → List Key → Result StoreError (List Key)
parse_lines [] disabled = ok disabled
parse_lines (raw ∷ rest) disabled = do
  found ← parse_line raw
  disabled' ← add_key found disabled
  parse_lines rest disabled'

abbrev pub not_empty : List Key → Result StoreError (List Key)
not_empty [] = err mask_empty
not_empty (k ∷ ks) = ok (k ∷ ks)

abbrev pub parse_mask : Option Str → Result StoreError (List Key)
parse_mask none = err not_utf8
parse_mask (some text) = do
  disabled ← parse_lines (splitlines (universal_newlines text)) []
  not_empty disabled

-- `read_mask` on the bytes of the file
unfoldable pub read_mask : List ℕ → Result StoreError (List Key)
unfolding parse_lines parse_line has_key splitlines universal_newlines decode
read_mask bytes = parse_mask (decode bytes)

-- `sorted` of a set of pairs
abbrev pub key_lt : Key → Key → Bool
key_lt (l, e) (l', e') = if ltb l l' then true else if l == l' then ltb e e' else false

unfoldable pub insert_key : Key → List Key → List Key
insert_key k [] = k ∷ []
insert_key k (j ∷ js) = let rest = insert_key k js in if key_lt j k then j ∷ rest else k ∷ j ∷ js

unfoldable pub sorted : List Key → List Key
unfolding insert_key
sorted [] = []
sorted (k ∷ ks) = insert_key k (sorted ks)

-- `f"{layer} {expert}"`
unfoldable pub key_line : Key → Str
key_line (layer, expert) = show layer ++ (b' ' ∷ show expert)

abbrev pub mask_comments : List Str
mask_comments =
    codes "# KVL_MOE_MASK_V1" ∷ codes "# Bound to the physically absent routed expert records." ∷ []

-- The text that `write_mask_sidecar` writes, all of it ASCII.
unfoldable pub mask_text : List Key → Str
unfolding sorted key_line show text_of_lines
mask_text disabled = text_of_lines (mask_comments ++ map key_line (sorted disabled))

mask_runs : read_mask (codes "# x\n\t2 11 # y\r\n\n1  1_0") ≡ ok ((2, 11) ∷ (1, 10) ∷ [])
unfolding read_mask
mask_runs = refl
