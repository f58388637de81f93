-- ===== src/ExpertStore/MaskReader.antt =====
-- A mask that was read is a set of keys that is not empty.
use in_c_test.Prelude.{
  ℕ, ◌≡◌, refl, subst, true, false, Option, none, some, List, [], ◌∷◌, ◌++◌, Result, ok, err,
  >>=-eq-ok, ok-injective, Bool-cases, inl, inr,
}
use in_c_test.Text.{Str, splitlines, universal_newlines}
use in_c_test.Text.Utf8.{decode}
use in_c_test.ExpertStore.{Key, StoreError, has_key, mask_duplicate}
use in_c_test.ExpertStore.Mask.{
  read_mask, parse_mask, parse_line, parse_lines, add_key, not_empty, sorted, insert_key, key_lt,
}
use in_c_test.ExpertStore.KeySets.{Distinct, Distinct-snoc}

add_key-Distinct :
    (found : Option Key) (ks ks' : List Key)
    → Distinct ks
    → add_key found ks ≡ ok ks'
    → Distinct ks'
add_key-Distinct none ks ks' d h = subst Distinct (ok-injective h) d
add_key-Distinct (some k) ks ks' d h = elim (Bool-cases (has_key k ks)) [
  | inl e ↦ cc (old e h)
  | inr e ↦ subst Distinct (ok-injective (new e h)) (Distinct-snoc ks k d e)
]
  where
    old :
        has_key k ks ≡ true
        → add_key (some k) ks ≡ ok ks'
        → ◌≡◌ {A = Result StoreError (List Key)} (err mask_duplicate) (ok ks')
    old e g = rw e at g

    new :
        has_key k ks ≡ false
        → add_key (some k) ks ≡ ok ks'
        → ◌≡◌ {A = Result StoreError (List Key)} (ok (ks ++ k ∷ [])) (ok ks')
    new e g = rw e at g

parse_lines-Distinct :
    (lines : List Str) (ks ks' : List Key)
    → Distinct ks
    → parse_lines lines ks ≡ ok ks'
    → Distinct ks'
unfolding parse_lines
parse_lines-Distinct [] ks ks' d h = subst Distinct (ok-injective h) d
parse_lines-Distinct (raw ∷ rest) ks ks' d h =
    let (found, _, h1) = >>=-eq-ok (parse_line raw) _ h in
    let (more, added, h2) = >>=-eq-ok (add_key found ks) _ h1 in
    parse_lines-Distinct rest more ks' (add_key-Distinct found ks more d added) h2

not_empty-same : (ks ks' : List Key) → not_empty ks ≡ ok ks' → ks ≡ ks'
not_empty-same [] ks' h = cc
not_empty-same (k ∷ ks) ks' h = ok-injective h

not_empty-insert_key :
    (k : Key) (ks : List Key) → not_empty (insert_key k ks) ≡ ok (insert_key k ks)
unfolding insert_key
not_empty-insert_key k [] = refl
not_empty-insert_key k (j ∷ ks) = elim (Bool-cases (key_lt j k)) [ inl e ↦ rw e | inr e ↦ rw e ]

not_empty-sorted :
    (ks ks' : List Key) → not_empty ks ≡ ok ks' → not_empty (sorted ks) ≡ ok (sorted ks)
unfolding sorted
not_empty-sorted [] ks' h = cc
not_empty-sorted (k ∷ ks) ks' h = not_empty-insert_key k (sorted ks)

parse_mask-Distinct :
    (text : Option Str) (ks : List Key)
    → parse_mask text ≡ ok ks
    → Distinct ks × (not_empty (sorted ks) ≡ ok (sorted ks))
parse_mask-Distinct none ks h = cc
parse_mask-Distinct (some text) ks h =
    let (found, parsed, h1) =
      >>=-eq-ok (parse_lines (splitlines (universal_newlines text)) []) _ h in
    subst (λ l. Distinct l × (not_empty (sorted l) ≡ ok (sorted l))) (not_empty-same found ks h1)
      (parse_lines-Distinct _ [] found tt parsed, not_empty-sorted found ks h1)

pub read_mask-Distinct :
    (bytes : List ℕ) (ks : List Key)
    → read_mask bytes ≡ ok ks
    → Distinct ks × (not_empty (sorted ks) ≡ ok (sorted ks))
unfolding read_mask
read_mask-Distinct bytes ks h = parse_mask-Distinct (decode bytes) ks h
