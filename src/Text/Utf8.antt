-- ===== src/Text/Utf8.antt =====
-- `bytes.decode("utf-8")`: strict, so overlong forms, surrogates and code points past U+10FFFF are
-- refused.
use in_c_test.Prelude.{
  ℕ, ◌+◌, ◌-◌, ◌*◌, ◌<◌, ◌≡◌, refl, ap, ◌&&◌, Option, none, some, List, [], ◌∷◌, ltb, leb, ◌==◌,
  if◌then◌else◌, arith,
}
use in_c_test.Text.{Str}

-- The bytes that a sequence still needs, the bits that it has, and the bounds of its next byte.
record Partial : Type 0 where
  need : ℕ
  bits : ℕ
  lo : ℕ
  hi : ℕ

abbrev start : Partial
start = record { need = 0; bits = 0; lo = 0; hi = 0 }

abbrev await : ℕ → ℕ → ℕ → ℕ → Option (Partial × Option ℕ)
await need bits lo hi = some (record { need = need; bits = bits; lo = lo; hi = hi }, none)

first_byte : ℕ → Option (Partial × Option ℕ)
first_byte b =
    if ltb b 0x80
    then some (start, some b)
    else if ltb b 0xc2
    then none
    else if ltb b 0xe0
    then await 1 (b - 0xc0) 0x80 0xbf
    else if b == 0xe0
    then await 2 0 0xa0 0xbf
    else if b == 0xed
    then await 2 13 0x80 0x9f
    else if ltb b 0xf0
    then await 2 (b - 0xe0) 0x80 0xbf
    else if b == 0xf0
    then await 3 0 0x90 0xbf
    else if ltb b 0xf4
    then await 3 (b - 0xf0) 0x80 0xbf
    else if b == 0xf4
    then await 3 4 0x80 0x8f
    else none

next_byte : Partial → ℕ → Option (Partial × Option ℕ)
next_byte p b =
    let bits = p.bits * 64 + (b - 0x80) in
    if leb p.lo b && leb b p.hi
    then (if p.need == 1 then some (start, some bits) else await (p.need - 1) bits 0x80 0xbf)
    else none

step : Partial → ℕ → Option (Partial × Option ℕ)
unfolding first_byte next_byte
step p b = if p.need == 0 then first_byte b else next_byte p b

abbrev emit : Option ℕ → Option Str → Option Str
emit none rest = rest
emit (some c) none = none
emit (some c) (some s) = some (c ∷ s)

decode_from : Partial → List ℕ → Option Str
decode_from p [] = if p.need == 0 then some [] else none
decode_from p (b ∷ bs) = elim (step p b) [
  | none ↦ none
  | some (p', out) ↦ emit out (decode_from p' bs)
]

-- `none` is UnicodeDecodeError.
unfoldable pub decode : List ℕ → Option Str
unfolding decode_from step
decode = decode_from start

-- U+0110 and "!"
decode_two : decode (0xc4 ∷ 0x90 ∷ b'!' ∷ []) ≡ some (0x110 ∷ b'!' ∷ [])
unfolding decode
decode_two = refl

decode_surrogate : decode (0xed ∷ 0xa0 ∷ 0x80 ∷ []) ≡ none
unfolding decode
decode_surrogate = refl

abbrev pub IsAscii : List ℕ → Type 0
IsAscii [] = Unit {0}
IsAscii (c ∷ s) = (c < 0x80) × IsAscii s

step-ascii : (c : ℕ) → c < 0x80 → step start c ≡ some (start, some c)
unfolding step
step-ascii c h = ground arith

decode_from-ascii : (s : List ℕ) → IsAscii s → decode_from start s ≡ some s
unfolding decode_from
decode_from-ascii [] h = refl
decode_from-ascii (c ∷ s) h =
    rw (step-ascii c h.0, decode_from) (ap (emit (some c)) (decode_from-ascii s h.1))

-- A text of ASCII is its own encoding.
pub decode-ascii : (s : List ℕ) → IsAscii s → decode s ≡ some s
unfolding decode
decode-ascii s h = decode_from-ascii s h
