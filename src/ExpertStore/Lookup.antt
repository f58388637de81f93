-- ===== src/ExpertStore/Lookup.antt =====
-- Records found by their key, in a store and in its compaction.
use in_c_test.Prelude.{
  ◌≡◌, refl, sym, ap, ap₂, subst, ◌∙◌, Bool, true, false, ◌&&◌, ◌||◌, not, Option, none, some, List,
  [], ◌∷◌, map, if◌then◌else◌, Bool-cases, inl, inr,
}
use in_c_test.Struct.{Bytes}
use in_c_test.ExpertStore.{ExpertRecord, Key, key, key_eq, has_key}
use in_c_test.ExpertStore.KeySets.{key_eq_refl, key_eq→≡, has_key-cons}
use in_c_test.ExpertStore.Compact.{minus}
use in_c_test.ExpertStore.Compacted.{MovedRecord, Moved, remaining}
use in_c_test.ExpertStore.Verify.{find_record, later, all_among, same_keys}

-- The keys that remain are those of the store without the disabled ones.
pub map-key-remaining :
    (disabled : List Key) (rs : List ExpertRecord)
    → map key (remaining disabled rs) ≡ minus (map key rs) disabled
unfolding remaining minus
map-key-remaining disabled [] = refl
map-key-remaining disabled (r ∷ rs) = elim (Bool-cases (has_key (key r) disabled)) [
  | inl e ↦ rw e (map-key-remaining disabled rs)
  | inr e ↦ rw e (ap (λ l. key r ∷ l) (map-key-remaining disabled rs))
]

pub map-key-Moved :
    (src out : Bytes) (rs ks : List ExpertRecord) → Moved src out rs ks → map key ks ≡ map key rs
map-key-Moved src out [] [] m = refl
map-key-Moved src out [] (k ∷ ks) m = absurd m
map-key-Moved src out (r ∷ rs) [] m = absurd m
map-key-Moved src out (r ∷ rs) (k ∷ ks) m =
    ap₂ (λ a l. a ∷ l) (ap key m.0.same) (map-key-Moved src out rs ks m.1)

-- Where a key leads in the two stores.
pub data FoundBoth (src out : Bytes) : Option ExpertRecord → Option ExpertRecord → Type 0 where
  neither : FoundBoth src out none none
  both : {r k : ExpertRecord} → MovedRecord src out r k → FoundBoth src out (some r) (some k)

later-FoundBoth :
    (src out : Bytes) {a b c d : Option ExpertRecord}
    → FoundBoth src out a b
    → FoundBoth src out c d
    → FoundBoth src out (later a c) (later b d)
later-FoundBoth src out neither g = g
later-FoundBoth src out (both m) g = both m

if-FoundBoth :
    (src out : Bytes) (b : Bool) (r k : ExpertRecord)
    → MovedRecord src out r k
    → FoundBoth src out (if b then some r else none) (if b then some k else none)
if-FoundBoth src out true r k m = both m
if-FoundBoth src out false r k m = neither

pub find_record-Moved :
    (src out : Bytes) (j : Key) (rs ks : List ExpertRecord)
    → Moved src out rs ks
    → FoundBoth src out (find_record j rs) (find_record j ks)
unfolding find_record
find_record-Moved src out j [] [] m = neither
find_record-Moved src out j [] (k ∷ ks) m = absurd m
find_record-Moved src out j (r ∷ rs) [] m = absurd m
find_record-Moved src out j (r ∷ rs) (k ∷ ks) m =
    later-FoundBoth src out (find_record-Moved src out j rs ks m.1) (
      subst
        (λ q.
          FoundBoth src out (if key_eq j (key r) then some r else none)
            (if key_eq j q then some k else none))
        (sym (ap key m.0.same)) (if-FoundBoth src out (key_eq j (key r)) r k m.0))

later-none : (o : Option ExpertRecord) → later o none ≡ o
later-none none = refl
later-none (some r) = refl

different :
    (j k : Key) (ks : List Key) → has_key j ks ≡ false → has_key k ks ≡ true → key_eq j k ≡ false
different j k ks h h' = elim (Bool-cases (key_eq j k)) [
  | inl e ↦ cc (ap (λ q. has_key q ks) (key_eq→≡ j k e))
  | inr e ↦ e
]

pub find_record-remaining :
    (disabled : List Key) (j : Key) (rs : List ExpertRecord)
    → has_key j disabled ≡ false
    → find_record j (remaining disabled rs) ≡ find_record j rs
unfolding remaining find_record
find_record-remaining disabled j [] h = refl
find_record-remaining disabled j (r ∷ rs) h = elim (Bool-cases (has_key (key r) disabled)) [
  | inl e ↦ rw e (
      rw (different j (key r) disabled h e)
        (find_record-remaining disabled j rs h ∙ sym (later-none (find_record j rs))))
  | inr e ↦ rw e (
      ap (λ o. later o (if key_eq j (key r) then some r else none))
        (find_record-remaining disabled j rs h))
]

later-some :
    (o : Option ExpertRecord) (r : ExpertRecord) → (x : ExpertRecord) × (later o (some r) ≡ some x)
later-some none r = (r, refl)
later-some (some x) r = (x, refl)

pub find_record-has_key :
    (j : Key) (rs : List ExpertRecord)
    → has_key j (map key rs) ≡ true
    → (r : ExpertRecord) × (find_record j rs ≡ some r)
unfolding find_record
find_record-has_key j [] h = unfold has_key in cc
find_record-has_key j (r ∷ rs) h = elim (Bool-cases (key_eq j (key r))) [
  | inl e ↦ rw e (later-some (find_record j rs) r)
  | inr e ↦
      let (x, found) = find_record-has_key j rs (elsewhere e) in
      (x, ap (λ o. later o (if key_eq j (key r) then some r else none)) found)
]
  where
    elsewhere : key_eq j (key r) ≡ false → has_key j (map key rs) ≡ true
    elsewhere e =
        sym (has_key-cons j (key r) (map key rs) ∙ ap (λ b. b || has_key j (map key rs)) e) ∙ h

and_not-true : (a b : Bool) → b ≡ true → (a && not b) ≡ not b
and_not-true true b e = refl
and_not-true false b e = rw e

not-false : (b : Bool) → b ≡ false → not b ≡ true
not-false b e = rw e

pub has_key-minus :
    (j : Key) (xs ys : List Key) → has_key j (minus xs ys) ≡ (has_key j xs && not (has_key j ys))
unfolding minus
has_key-minus j [] ys = unfold has_key in refl
has_key-minus j (x ∷ xs) ys = elim (Bool-cases (has_key x ys)) [
  | inl e ↦ elim (Bool-cases (key_eq j x)) [
    | inl same ↦
        rw (e, same)
          (has_key-minus j xs ys
            ∙ and_not-true _ _ (ap (λ q. has_key q ys) (key_eq→≡ j x same) ∙ e))
    | inr other ↦ rw (e, other) (has_key-minus j xs ys)
  ]
  | inr e ↦ elim (Bool-cases (key_eq j x)) [
    | inl same ↦
        rw (e, has_key)
          (rw same (sym (not-false _ (ap (λ q. has_key q ys) (key_eq→≡ j x same) ∙ e))))
    | inr other ↦ rw (e, has_key) (rw other (has_key-minus j xs ys))
  ]
]

or_true : (a : Bool) → (a || true) ≡ true
or_true true = refl
or_true false = refl

all_among-cons :
    (xs ys : List Key) (y : Key) → all_among xs ys ≡ true → all_among xs (y ∷ ys) ≡ true
unfolding all_among
all_among-cons [] ys y h = refl
all_among-cons (x ∷ xs) ys y h = elim (Bool-cases (has_key x ys)) [
  | inl e ↦
      rw (has_key-cons x y ys ∙ ap (λ b. key_eq x y || b) e ∙ or_true (key_eq x y))
        (all_among-cons xs ys y (found e h))
  | inr e ↦ cc (missing e h)
]
  where
    found : has_key x ys ≡ true → all_among (x ∷ xs) ys ≡ true → all_among xs ys ≡ true
    found e g = rw e at g

    missing : has_key x ys ≡ false → all_among (x ∷ xs) ys ≡ true → ◌≡◌ {A = Bool} false true
    missing e g = rw e at g

all_among_refl : (xs : List Key) → all_among xs xs ≡ true
all_among_refl [] = unfold all_among in refl
all_among_refl (x ∷ xs) =
    all_among_head x xs (x ∷ xs) (has_key-cons x x xs ∙ ap (λ b. b || has_key x xs) (key_eq_refl x))
      (all_among-cons xs xs x (all_among_refl xs))
  where
    all_among_head :
        (y : Key) (ys zs : List Key)
        → has_key y zs ≡ true
        → all_among ys zs ≡ true
        → all_among (y ∷ ys) zs ≡ true
    all_among_head y ys zs e f = unfold all_among in rw e f

pub same_keys_refl : (xs : List Key) → same_keys xs xs ≡ true
same_keys_refl xs = rw (all_among_refl xs) refl

all_among_sound :
    (xs ys : List Key) (j : Key)
    → all_among xs ys ≡ true
    → has_key j xs ≡ true
    → has_key j ys ≡ true
unfolding all_among
all_among_sound [] ys j h e = unfold has_key in cc
all_among_sound (x ∷ xs) ys j h e = elim (Bool-cases (has_key x ys)) [
  | inr f ↦ cc (missing f h)
  | inl f ↦ elim (Bool-cases (key_eq j x)) [
    | inl same ↦ ap (λ q. has_key q ys) (key_eq→≡ j x same) ∙ f
    | inr other ↦
        all_among_sound xs ys j (others f h)
          (sym (has_key-cons j x xs ∙ ap (λ b. b || has_key j xs) other) ∙ e)
  ]
]
  where
    others : has_key x ys ≡ true → all_among (x ∷ xs) ys ≡ true → all_among xs ys ≡ true
    others f g = rw f at g

    missing : has_key x ys ≡ false → all_among (x ∷ xs) ys ≡ true → ◌≡◌ {A = Bool} false true
    missing f g = rw f at g

bool_ext : (a b : Bool) → (a ≡ true → b ≡ true) → (b ≡ true → a ≡ true) → a ≡ b
bool_ext true b f g = sym (f refl)
bool_ext false true f g = g refl
bool_ext false false f g = refl

and_parts : (a b : Bool) → (a && b) ≡ true → (a ≡ true) × (b ≡ true)
and_parts true b h = (refl, h)
and_parts false b h = cc

pub same_keys_sound :
    (xs ys : List Key) (j : Key) → same_keys xs ys ≡ true → has_key j xs ≡ has_key j ys
same_keys_sound xs ys j h =
    let (there, back) = and_parts (all_among xs ys) (all_among ys xs) h in
    bool_ext (has_key j xs) (has_key j ys) (all_among_sound xs ys j there)
      (all_among_sound ys xs j back)
