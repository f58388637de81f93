-- ===== src/Struct.antt =====
-- The `struct` formats of the store indexes: little-endian unsigned fields without padding.
-- A format is the list of the fields' widths in bytes; bytes are numbers below 256.
use mathlib.Core.List.{append_assoc}
use native.Mathlib.Nat.{pow-suc}
use in_c_test.Prelude.{
  ℕ, zero, suc, ◌+◌, ◌*◌, ◌/◌, ◌%◌, ◌^◌, ◌<◌, ◌≡◌, refl, ap, List, [], ◌∷◌, ◌++◌, Result, ok, err,
  ◌>>=◌, ltb, if◌then◌else◌, length, take, drop, take-append_exact, drop-append_exact, >>=-eq-ok,
  length-append, arith,
}

abbrev pub Bytes : Type 0
Bytes = List ℕ

-- struct.error
pub data StructError : Type 0 where
  struct_error : StructError

unfoldable pub le_bytes : ℕ → ℕ → Bytes
le_bytes zero n = []
le_bytes (suc w) n = n % 256 ∷ le_bytes w (n / 256)

unfoldable pub of_le : Bytes → ℕ
of_le [] = 0
of_le (b ∷ bs) = b + 256 * of_le bs

-- `struct.calcsize`
unfoldable pub size : List ℕ → ℕ
size [] = 0
size (w ∷ ws) = w + size ws

-- `Struct.pack`: a value out of the range of its field, or a wrong number of values, is an error.
unfoldable pub pack : List ℕ → List ℕ → Result StructError Bytes
unfolding le_bytes
pack [] [] = ok []
pack [] (v ∷ vs) = err struct_error
pack (w ∷ ws) [] = err struct_error
pack (w ∷ ws) (v ∷ vs) = do
  rest ← pack ws vs
  if ltb v (256 ^ w) then ok (le_bytes w v ++ rest) else err struct_error

unfoldable pub unpack : List ℕ → Bytes → List ℕ
unfolding of_le
unpack [] raw = []
unpack (w ∷ ws) raw = of_le (take w raw) ∷ unpack ws (drop w raw)

-- `Struct.unpack_from`: the buffer must hold the fields behind the offset.
unfoldable pub unpack_from : List ℕ → Bytes → ℕ → Result StructError (List ℕ)
unfolding unpack size
unpack_from ws raw pos =
    if ltb (length raw) (pos + size ws) then err struct_error else ok (unpack ws (drop pos raw))

div_bound : (w n : ℕ) → n < 256 ^ suc w → n / 256 < 256 ^ w
div_bound w n h = omega (arith, pow-suc 256 w)

of_le-le_bytes : (w n : ℕ) → n < 256 ^ w → of_le (le_bytes w n) ≡ n
unfolding le_bytes of_le
of_le-le_bytes zero n h = omega arith
of_le-le_bytes (suc w) n h = omega (arith, of_le-le_bytes w (n / 256) (div_bound w n h))

length-le_bytes : (w n : ℕ) → length (le_bytes w n) ≡ w
unfolding le_bytes
length-le_bytes zero n = refl
length-le_bytes (suc w) n = ap suc (length-le_bytes w (n / 256))

-- What a successful `pack` of one more field did.
record PackedField (w v : ℕ) (ws vs : List ℕ) (bs : Bytes) : Type 0 where
  tail : Bytes
  packed : pack ws vs ≡ ok tail
  in_range : v < 256 ^ w
  joined : bs ≡ le_bytes w v ++ tail

checked_field :
    (w v : ℕ) (t : Bytes) {bs : Bytes}
    → (if ltb v (256 ^ w) then ok (le_bytes w v ++ t) else err struct_error) ≡ ok bs
    → (v < 256 ^ w) × (bs ≡ le_bytes w v ++ t)
checked_field w v t h = ground arith

pack_field :
    (w v : ℕ) (ws vs : List ℕ) {bs : Bytes}
    → pack (w ∷ ws) (v ∷ vs) ≡ ok bs
    → PackedField w v ws vs bs
unfolding pack
pack_field w v ws vs h =
    let (t, packed, e) = >>=-eq-ok (pack ws vs) _ h in
    let (fits, joined) = checked_field w v t e in
    record { tail = t; packed = packed; in_range = fits; joined = joined }

-- A format is read back from what it packed, whatever bytes follow.
pub unpack-pack :
    (ws vs : List ℕ) (rest : Bytes) {bs : Bytes} → pack ws vs ≡ ok bs → unpack ws (bs ++ rest) ≡ vs
unfolding unpack
unpack-pack [] [] rest h = refl
unpack-pack [] (v ∷ vs) rest h = unfold pack in cc
unpack-pack (w ∷ ws) [] rest h = unfold pack in cc
unpack-pack (w ∷ ws) (v ∷ vs) rest h =
    let p = pack_field w v ws vs h in
    rw (p.joined, append_assoc)
      (rw (take-append_exact w (le_bytes w v) (p.tail ++ rest) (length-le_bytes w v)) (
        rw (drop-append_exact w (le_bytes w v) (p.tail ++ rest) (length-le_bytes w v))
          (rw (of_le-le_bytes w v p.in_range) (ap (λ l. v ∷ l) (unpack-pack ws vs rest p.packed)))))

pub length-pack : (ws vs : List ℕ) {bs : Bytes} → pack ws vs ≡ ok bs → length bs ≡ size ws
unfolding size
length-pack [] [] h = unfold pack in ground arith
length-pack [] (v ∷ vs) h = unfold pack in cc
length-pack (w ∷ ws) [] h = unfold pack in cc
length-pack (w ∷ ws) (v ∷ vs) h =
    let p = pack_field w v ws vs h in
    rw p.joined (
      omega (
        arith,
        length-append (le_bytes w v) p.tail,
        length-le_bytes w v,
        length-pack ws vs p.packed,
      ))
