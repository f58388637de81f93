-- ===== src/Prelude/Fallible.antt =====
-- A computation that may raise: the exception is a value of the component's own type of errors.
use mathlib.Core.Path.{◌≡◌, refl}
use mathlib.Core.Logic.{◌⊎◌, inl, inr}
use mathlib.Core.Bool.{Bool, true, false}

pub data Result {ℓ} (Raised : Type 0) (Value : Type ℓ) : Type ℓ where
  err : Raised → Result Raised Value
  ok : Value → Result Raised Value

-- `if not test: raise x`
abbrev pub guard : {X : Type 0} (test : Bool) (x : X) → Result X (Unit {0})
guard false x = err x
guard true x = ok tt

pub ok-injective {ℓ} :
    {X : Type 0} {A : Type ℓ} {a b : A} → ◌≡◌ {A = Result X A} (ok a) (ok b) → a ≡ b
ok-injective same = cc

pub Result-cases {ℓ} :
    {X : Type 0} {A : Type ℓ} (r : Result X A) → ((a : A) × (r ≡ ok a)) ⊎ ((x : X) × (r ≡ err x))
Result-cases (err x) = inr (x, refl)
Result-cases (ok a) = inl (a, refl)

infixl 5 ◌>>=◌ ◌>>◌
abbrev pub ◌>>=◌ {ℓ ℓ'} :
    {X : Type 0} {A : Type ℓ} {B : Type ℓ'}
    → (first : Result X A) (next : A → Result X B) → Result X B
err x >>= next = err x
ok a >>= next = next a

-- A bind that returns ran both its parts.
pub >>=-eq-ok {ℓ ℓ'} :
    {X : Type 0} {A : Type ℓ} {B : Type ℓ'} (first : Result X A) (next : A → Result X B) {b : B}
    → (first >>= next) ≡ ok b
    → (a : A) × (first ≡ ok a) × (next a ≡ ok b)
>>=-eq-ok (err x) next returned = cc
>>=-eq-ok (ok a) next returned = (a, refl, returned)

abbrev pub ◌>>◌ {ℓ'} :
    {X : Type 0} {B : Type ℓ'} (test : Result X (Unit {0})) (next : Result X B) → Result X B
test >> next = test >>= λ u. next
