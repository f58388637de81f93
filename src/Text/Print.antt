-- ===== src/Text/Print.antt =====
-- `str(n)` of a natural number, and that `int` reads it back.
use mathlib.Core.List.{append_assoc, append-nil}
use in_c_test.Prelude.{
  ℕ, zero, suc, ◌+◌, ◌-◌, ◌*◌, ◌/◌, ◌%◌, ◌<◌, ◌≡◌, refl, sym, ap, ◌∙◌, Bool, true, false, some, [],
  ◌∷◌, ◌++◌, ltb, ◌==◌, Bool-cases, inl, inr, if◌then◌else◌, arith,
}
use in_c_test.Prelude.Int.{pos}
use in_c_test.Text.{
  Str, is_space, is_digit, lstrip, rstrip, strip, int_digits, signed, int_body, parse_int,
}

abbrev pub digit : ℕ → ℕ
digit n = b'0' + n % 10

-- The fuel bounds the number of digits.
show_fuel : ℕ → ℕ → Str
show_fuel zero n = []
show_fuel (suc f) n =
    let high = show_fuel f (n / 10) in (if ltb n 10 then [] else high) ++ digit n ∷ []

-- `str(n)`
unfoldable pub show : ℕ → Str
unfolding show_fuel
show n = show_fuel (suc n) n

show-1206 : show 1206 ≡ b'1' ∷ b'2' ∷ b'0' ∷ b'6' ∷ []
unfolding show
show-1206 = refl

is_digit-digit : (n : ℕ) → is_digit (digit n) ≡ true
unfolding is_digit
is_digit-digit n = ground arith

underscore_not_digit : (n : ℕ) → (digit n == b'_') ≡ false
underscore_not_digit n = ground arith

digit_value : (m n : ℕ) → m * 10 + (digit n - b'0') ≡ m * 10 + n % 10
digit_value m n = omega arith

int_digits-digit :
    (wanted : Bool) (m n : ℕ) (t : Str)
    → int_digits wanted m (digit n ∷ t) ≡ int_digits false (m * 10 + n % 10) t
unfolding int_digits
int_digits-digit wanted m n t = rw (is_digit-digit n, underscore_not_digit n, digit_value m n)

int_digits-show_fuel :
    (f : ℕ) (wanted : Bool) (n : ℕ) (t : Str)
    → n < f
    → int_digits wanted 0 (show_fuel f n ++ t) ≡ int_digits false n t
unfolding show_fuel
int_digits-show_fuel zero wanted n t h = elim h [ ]
int_digits-show_fuel (suc f) wanted n t h = elim (Bool-cases (ltb n 10)) [
  | inl small ↦
      rw small (rw (int_digits-digit wanted 0 n t) (ap (λ k. int_digits false k t) (ground arith)))
  | inr large ↦ rw large (
      rw append_assoc (
        rw (int_digits-show_fuel f wanted (n / 10) (digit n ∷ t) (ground arith)) (
          rw (int_digits-digit false (n / 10) n t) (ap (λ k. int_digits false k t) (omega arith)))))
]

-- The digits of a number, before any text, read back.
pub int_digits-show :
    (wanted : Bool) (n : ℕ) (t : Str) → int_digits wanted 0 (show n ++ t) ≡ int_digits false n t
unfolding show
int_digits-show wanted n t = int_digits-show_fuel (suc n) wanted n t (omega arith)

-- Every code point of the text satisfies the test.
abbrev pub AllChars : (ℕ → Bool) → Str → Type 0
AllChars p [] = Unit {0}
AllChars p (c ∷ s) = (p c ≡ true) × AllChars p s

pub AllChars-append : (p : ℕ → Bool) (s t : Str) → AllChars p s → AllChars p t → AllChars p (s ++ t)
AllChars-append p [] t hs ht = ht
AllChars-append p (c ∷ s) t hs ht = (hs.0, AllChars-append p s t hs.1 ht)

show_fuel-digits : (f n : ℕ) → AllChars is_digit (show_fuel f n)
unfolding show_fuel
show_fuel-digits zero n = tt
show_fuel-digits (suc f) n = elim (Bool-cases (ltb n 10)) [
  | inl small ↦ rw small (is_digit-digit n, tt)
  | inr large ↦
      rw large (AllChars-append is_digit _ _ (show_fuel-digits f (n / 10)) (is_digit-digit n, tt))
]

pub show-digits : (n : ℕ) → AllChars is_digit (show n)
unfolding show
show-digits n = show_fuel-digits (suc n) n

show_fuel-cons : (f n : ℕ) → n < f → (c : ℕ) × (s : Str) × (show_fuel f n ≡ c ∷ s)
unfolding show_fuel
show_fuel-cons zero n h = elim h [ ]
show_fuel-cons (suc f) n h = elim (Bool-cases (ltb n 10)) [
  | inl small ↦ rw small (digit n, [], refl)
  | inr large ↦
      let (c, s, e) = show_fuel-cons f (n / 10) (ground arith) in
      rw (large, e) (c, s ++ digit n ∷ [], refl)
]

pub show-cons : (n : ℕ) → (c : ℕ) × (s : Str) × (show n ≡ c ∷ s)
unfolding show
show-cons n = show_fuel-cons (suc n) n (omega arith)

-- A digit is neither white space, nor a line end, nor a sign.
pub digit_not_space : (c : ℕ) → is_digit c ≡ true → is_space c ≡ false
unfolding is_digit is_space
digit_not_space c h = ground arith

pub rstrip-digits : (s : Str) → AllChars is_digit s → rstrip s ≡ s
unfolding rstrip
rstrip-digits [] h = refl
rstrip-digits (c ∷ []) h = rw (digit_not_space c h.0)
rstrip-digits (c ∷ d ∷ s) h = rw (rstrip-digits (d ∷ s) h.1)

pub lstrip-digit : (c : ℕ) (s : Str) → is_digit c ≡ true → lstrip (c ∷ s) ≡ c ∷ s
unfolding lstrip
lstrip-digit c s h = rw (digit_not_space c h)

-- Digits alone have nothing to strip.
pub strip-digits : (s : Str) → AllChars is_digit s → strip s ≡ s
unfolding strip
strip-digits [] h = unfold lstrip rstrip in refl
strip-digits (c ∷ s) h = rw (lstrip-digit c s h.0) (rstrip-digits (c ∷ s) h)

int_body-digit :
    (c : ℕ) (s : Str)
    → is_digit c ≡ true
    → int_body (c ∷ s) ≡ signed false (int_digits true 0 (c ∷ s))
unfolding is_digit
int_body-digit c s h = ground arith

-- A text of digits alone is read without sign and without stripping.
parse_int-digits :
    (s : Str) (c : ℕ) (r : Str)
    → s ≡ c ∷ r
    → AllChars is_digit s
    → parse_int s ≡ signed false (int_digits true 0 s)
unfolding parse_int
parse_int-digits [] c r e h = cc
parse_int-digits (d ∷ s) c r e h = rw (strip-digits (d ∷ s) h) (int_body-digit d s h.0)

-- `int(str(n))` is `n`.
pub parse_int-show : (n : ℕ) → parse_int (show n) ≡ some (pos n)
parse_int-show n =
    let (c, s, e) = show-cons n in
    parse_int-digits (show n) c s e (show-digits n)
    ∙ ap (λ o. signed false o)
        (ap (int_digits true 0) (sym (append-nil (show n))) ∙ int_digits-show true n [] ∙ nil_lem n)
  where
    nil_lem : (n : ℕ) → int_digits false n [] ≡ some n
    nil_lem n = unfold int_digits in refl
