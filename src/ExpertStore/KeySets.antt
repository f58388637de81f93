-- ===== src/ExpertStore/KeySets.antt =====
-- Sets of keys as lists without repetition, and their sorting.
use mathlib.Core.List.Perm
use mathlib.Core.List.{Perm}
use in_c_test.Prelude.{
  ◌≡◌, refl, sym, ap, ◌∙◌, Bool, true, false, ◌||◌, List, [], ◌∷◌, ◌++◌, Bool-cases, inl, inr,
  arith,
}
use in_c_test.ExpertStore.{Key, key_eq, has_key}
use in_c_test.ExpertStore.Mask.{sorted, insert_key, key_lt}

-- No key twice.
abbrev pub Distinct : List Key → Type 0
Distinct [] = Unit {0}
Distinct (k ∷ ks) = (has_key k ks ≡ false) × Distinct ks

-- Each key is new behind the keys `seen` and those before it.
abbrev pub Fresh : List Key → List Key → Type 0
Fresh seen [] = Unit {0}
Fresh seen (k ∷ ks) = (has_key k seen ≡ false) × Fresh (seen ++ k ∷ []) ks

-- None of `ks` is among `seen`.
abbrev pub Avoids : List Key → List Key → Type 0
Avoids seen [] = Unit {0}
Avoids seen (k ∷ ks) = (has_key k seen ≡ false) × Avoids seen ks

pub key_eq_refl : (k : Key) → key_eq k k ≡ true
key_eq_refl (l, e) = ground arith

pub key_eq-sym : (j k : Key) → key_eq j k ≡ key_eq k j
key_eq-sym (l, e) (l', e') = ground arith

pub key_eq→≡ : (j k : Key) → key_eq j k ≡ true → j ≡ k
key_eq→≡ (l, e) (l', e') h = ground arith

pub has_key-cons : (j k : Key) (ks : List Key) → has_key j (k ∷ ks) ≡ (key_eq j k || has_key j ks)
unfolding has_key
has_key-cons j k ks = elim (Bool-cases (key_eq j k)) [ inl e ↦ rw e | inr e ↦ rw e ]

pub has_key-append :
    (k : Key) (xs ys : List Key) → has_key k (xs ++ ys) ≡ (has_key k xs || has_key k ys)
has_key-append k [] ys = unfold has_key in refl
has_key-append k (x ∷ xs) ys =
    has_key-cons k x (xs ++ ys)
    ∙ step (key_eq k x) (has_key k xs) (has_key-append k xs ys)
    ∙ ap (λ b. b || has_key k ys) (sym (has_key-cons k x xs))
  where
    step :
        (a b : Bool)
        → has_key k (xs ++ ys) ≡ (b || has_key k ys)
        → (a || has_key k (xs ++ ys)) ≡ ((a || b) || has_key k ys)
    step true b e = refl
    step false b e = e

-- A key that is not in a longer list.
has_key-cons_false :
    (j k : Key) (ks : List Key)
    → has_key j (k ∷ ks) ≡ false
    → (key_eq j k ≡ false) × (has_key j ks ≡ false)
has_key-cons_false j k ks h = or_false _ _ (sym (has_key-cons j k ks) ∙ h)
  where
    or_false : (a b : Bool) → (a || b) ≡ false → (a ≡ false) × (b ≡ false)
    or_false true b e = cc
    or_false false b e = (refl, e)

or_swap : (a b c : Bool) → (a || (b || c)) ≡ (b || (a || c))
or_swap true true c = refl
or_swap true false c = refl
or_swap false b c = refl

pub has_key-snoc_false :
    (j k : Key) (seen : List Key)
    → has_key j seen ≡ false
    → key_eq j k ≡ false
    → has_key j (seen ++ k ∷ []) ≡ false
has_key-snoc_false j k seen h e = rw has_key-append (rw h (unfold has_key in rw e))

Avoids-snoc :
    (k : Key) (seen ks : List Key)
    → Avoids seen ks
    → has_key k ks ≡ false
    → Avoids (seen ++ k ∷ []) ks
Avoids-snoc k seen [] h n = tt
Avoids-snoc k seen (j ∷ ks) h n =
    let (other, rest) = has_key-cons_false k j ks n in
    (has_key-snoc_false j k seen h.0 (key_eq-sym j k ∙ other), Avoids-snoc k seen ks h.1 rest)

pub Distinct→Fresh : (seen ks : List Key) → Distinct ks → Avoids seen ks → Fresh seen ks
Distinct→Fresh seen [] d a = tt
Distinct→Fresh seen (k ∷ ks) d a =
    (a.0, Distinct→Fresh (seen ++ k ∷ []) ks d.1 (Avoids-snoc k seen ks a.1 d.0))

pub Avoids-nil : (ks : List Key) → Avoids [] ks
Avoids-nil [] = tt
Avoids-nil (k ∷ ks) = (unfold has_key in refl, Avoids-nil ks)

has_key-insert_key :
    (j k : Key) (ks : List Key) → has_key j (insert_key k ks) ≡ (key_eq j k || has_key j ks)
unfolding insert_key
has_key-insert_key j k [] = has_key-cons j k []
has_key-insert_key j k (i ∷ ks) = elim (Bool-cases (key_lt i k)) [
  | inl e ↦ rw e (
      has_key-cons j i (insert_key k ks)
      ∙ ap (λ b. key_eq j i || b) (has_key-insert_key j k ks)
      ∙ or_swap (key_eq j i) (key_eq j k) (has_key j ks)
      ∙ ap (λ b. key_eq j k || b) (sym (has_key-cons j i ks)))
  | inr e ↦ rw e (has_key-cons j k (i ∷ ks))
]

Distinct-insert_key :
    (k : Key) (ks : List Key) → has_key k ks ≡ false → Distinct ks → Distinct (insert_key k ks)
unfolding insert_key
Distinct-insert_key k [] h d = (h, d)
Distinct-insert_key k (j ∷ ks) h d =
    let (other, rest) = has_key-cons_false k j ks h in
    elim (Bool-cases (key_lt j k)) [
      | inl e ↦ rw e (
        has_key-insert_key j k ks ∙ ap (λ b. b || has_key j ks) (key_eq-sym j k ∙ other) ∙ d.0,
        Distinct-insert_key k ks rest d.1,
      )
      | inr e ↦ rw e (h, d)
    ]

-- Sorting keeps the set.
pub has_key-sorted : (j : Key) (ks : List Key) → has_key j (sorted ks) ≡ has_key j ks
unfolding sorted
has_key-sorted j [] = refl
has_key-sorted j (k ∷ ks) =
    has_key-insert_key j k (sorted ks)
    ∙ ap (λ b. key_eq j k || b) (has_key-sorted j ks)
    ∙ sym (has_key-cons j k ks)

pub Distinct-sorted : (ks : List Key) → Distinct ks → Distinct (sorted ks)
unfolding sorted
Distinct-sorted [] d = tt
Distinct-sorted (k ∷ ks) d =
    Distinct-insert_key k (sorted ks) (has_key-sorted k ks ∙ d.0) (Distinct-sorted ks d.1)

insert_key-perm : (k : Key) (ks : List Key) → Perm (insert_key k ks) (k ∷ ks)
unfolding insert_key
insert_key-perm k [] = Perm.refl _
insert_key-perm k (j ∷ ks) = elim (Bool-cases (key_lt j k)) [
  | inl e ↦ rw e (Perm.trans (Perm.cons j (insert_key-perm k ks)) (Perm.swap k j ks))
  | inr e ↦ rw e (Perm.refl _)
]

pub sorted-perm : (ks : List Key) → Perm (sorted ks) ks
unfolding sorted
sorted-perm [] = Perm.refl _
sorted-perm (k ∷ ks) = Perm.trans (insert_key-perm k (sorted ks)) (Perm.cons k (sorted-perm ks))

-- One more key at the end.
pub Distinct-snoc :
    (ks : List Key) (k : Key) → Distinct ks → has_key k ks ≡ false → Distinct (ks ++ k ∷ [])
Distinct-snoc [] k d h = (h, tt)
Distinct-snoc (j ∷ ks) k d h =
    let (other, rest) = has_key-cons_false k j ks h in
    (has_key-snoc_false j k ks d.0 (key_eq-sym j k ∙ other), Distinct-snoc ks k d.1 rest)
