-- ===== src/ExpertStore/Copy.antt =====
-- Copying in chunks is copying one slice.
use mathlib.Core.List.{append_assoc, append-nil}
use in_c_test.Prelude.{
  ℕ, zero, suc, ◌+◌, ◌-◌, ◌≤◌, ◌≡◌, refl, sym, ap, ◌∙◌, true, false, [], ◌∷◌, ◌++◌, min, Result, ok,
  err, leb, ==_iff, ap₂, ◌⊎◌, ◌==◌, if◌then◌else◌, length, take, drop, drop-drop, length-take,
  length-drop, Bool-cases, inl, inr, arith,
}
use in_c_test.Struct.{Bytes}
use in_c_test.ExpertStore.{chunk, StoreError, short_read}
use in_c_test.ExpertStore.Compact.{copy_chunks, copy_exact, Writing}

-- `n` bytes from the byte `pos` on.
abbrev pub slice : Bytes → (pos n : ℕ) → Bytes
slice src pos n = take n (drop pos src)

take-nil : (m : ℕ) → take m (let e : Bytes = [] in e) ≡ []
take-nil zero = refl
take-nil (suc m) = refl

pub take-split : (k n : ℕ) (xs : Bytes) → k ≤ n → take k xs ++ take (n - k) (drop k xs) ≡ take n xs
take-split zero n xs h = ap (λ m. take m xs) (omega arith)
take-split (suc k) zero xs h = absurd (omega arith)
take-split (suc k) (suc n) [] h = take-nil (suc n - suc k)
take-split (suc k) (suc n) (x ∷ xs) h =
    ap (λ l. x ∷ l)
      (ap (λ m. take k xs ++ take m (drop k xs)) (omega arith) ∙ take-split k n xs (omega arith))

take-length-take : (k : ℕ) (xs : Bytes) → take (length (take k xs)) xs ≡ take k xs
take-length-take zero xs = refl
take-length-take (suc k) [] = refl
take-length-take (suc k) (x ∷ xs) = ap (λ l. x ∷ l) (take-length-take k xs)

List-cases : (xs : Bytes) → (xs ≡ []) ⊎ ((x : ℕ) × (r : Bytes) × (xs ≡ x ∷ r))
List-cases [] = inl refl
List-cases (x ∷ r) = inr (x, r, refl)

copy_done :
    (fuel : ℕ) (src : Bytes) (pos n : ℕ) (out : Bytes)
    → n ≡ 0
    → copy_chunks fuel src pos n out ≡ (ok tt, out)
unfolding copy_chunks
copy_done zero src pos n out e = rw e
copy_done (suc fuel) src pos n out e = rw e

copy_end :
    (fuel : ℕ) (src : Bytes) (pos n : ℕ) (out : Bytes)
    → (n == 0) ≡ false
    → take (min chunk n) (drop pos src) ≡ []
    → copy_chunks (suc fuel) src pos n out ≡ (err short_read, out)
unfolding copy_chunks
copy_end fuel src pos n out more e = rw (more, copy_chunks) (rw (e, copy_chunks) refl)

copy_step :
    (fuel : ℕ) (src : Bytes) (pos n : ℕ) (out : Bytes) (b : ℕ) (bs : Bytes)
    → (n == 0) ≡ false
    → take (min chunk n) (drop pos src) ≡ b ∷ bs
    → copy_chunks (suc fuel) src pos n out
      ≡ copy_chunks fuel src (pos + length (b ∷ bs)) (n - length (b ∷ bs)) (out ++ (b ∷ bs))
unfolding copy_chunks
copy_step fuel src pos n out b bs more e = rw (more, copy_chunks) (rw (e, copy_chunks) refl)

-- All bytes asked for, or those that there are and the error of a short read.
abbrev pub copied_slice : Bytes → (pos n : ℕ) → Bytes → Writing
copied_slice src pos n out =
    (if leb n (length src - pos) then ok tt else err short_read, out ++ slice src pos n)

leb_step : (m n k : ℕ) → m ≤ n → m ≤ k → leb (n - m) (k - m) ≡ leb n k
leb_step m n k h h' = ground arith

leb_zero : (k : ℕ) → leb 0 k ≡ true
leb_zero k = ground arith

leb_none : (n k : ℕ) → (n == 0) ≡ false → k ≡ 0 → leb n k ≡ false
leb_none n k h e = ground arith

nil_of_length : (xs : Bytes) → length xs ≡ 0 → xs ≡ []
nil_of_length [] h = refl
nil_of_length (x ∷ xs) h = absurd (omega arith)

slice_done :
    (src : Bytes) (pos n : ℕ) (out : Bytes) → n ≡ 0 → copied_slice src pos n out ≡ (ok tt, out)
slice_done src pos n out e = rw e (rw (leb_zero (length src - pos), append-nil out) refl)

slice_end :
    (src : Bytes) (pos n : ℕ) (out : Bytes)
    → (n == 0) ≡ false
    → take (min chunk n) (drop pos src) ≡ []
    → copied_slice src pos n out ≡ (err short_read, out)
slice_end src pos n out more e =
    let none_left : length (drop pos src) ≡ 0 =
      ground (arith, length-take (min chunk n) (drop pos src), ap length e) in
    let gone : length src - pos ≡ 0 = sym (length-drop pos src) ∙ none_left in
    rw (leb_none n (length src - pos) more gone)
      (rw (nil_of_length (drop pos src) none_left) (rw (take-nil n) (rw (append-nil out) refl)))

pair_path :
    {a b : Result StoreError (Unit {0})} {x y : Bytes}
    → a ≡ b
    → x ≡ y
    → ◌≡◌ {A = Writing} (a, x) (b, y)
pair_path p q = cc

-- What the slice is made of when its first `m` bytes are read.
slice_step :
    (src : Bytes) (pos n : ℕ) (out block : Bytes)
    → block ≡ take (min chunk n) (drop pos src)
    → copied_slice src (pos + length block) (n - length block) (out ++ block)
      ≡ copied_slice src pos n out
slice_step src pos n out block e =
    let m = length block in
    let size : m ≡ min (min chunk n) (length src - pos) =
      ap length e
      ∙ length-take (min chunk n) (drop pos src)
      ∙ ap (min (min chunk n)) (length-drop pos src) in
    let first : block ≡ take m (drop pos src) =
      e
      ∙ sym (take-length-take (min chunk n) (drop pos src))
      ∙ ap (λ l. take (length l) (drop pos src)) (sym e) in
    pair_path
      (ap (λ b. if b then ok tt else err short_read)
        (ap (leb (n - m)) (omega arith)
          ∙ leb_step m n (length src - pos) (omega arith) (omega arith)))
      (append_assoc out block _
        ∙ ap (λ l. out ++ l)
            (ap₂ (λ a b. a ++ take (n - m) b) first (sym (drop-drop m pos src))
              ∙ take-split m n (drop pos src) (omega arith)))

copy_chunks-eq :
    (fuel : ℕ) (src : Bytes) (pos n : ℕ) (out : Bytes)
    → n ≤ fuel
    → copy_chunks fuel src pos n out ≡ copied_slice src pos n out
copy_chunks-eq zero src pos n out h =
    copy_done zero src pos n out (omega arith) ∙ sym (slice_done src pos n out (omega arith))
copy_chunks-eq (suc fuel) src pos n out h = elim (Bool-cases (n == 0)) [
  | inl done ↦
      copy_done (suc fuel) src pos n out ((==_iff n 0).0 done)
      ∙ sym (slice_done src pos n out ((==_iff n 0).0 done))
  | inr more ↦ elim (List-cases (take (min chunk n) (drop pos src))) [
    | inl e ↦ copy_end fuel src pos n out more e ∙ sym (slice_end src pos n out more e)
    | inr (b, bs, e) ↦
        copy_step fuel src pos n out b bs more e
        ∙ copy_chunks-eq fuel src (pos + length (b ∷ bs)) (n - length (b ∷ bs)) (out ++ (b ∷ bs))
            (omega arith)
        ∙ slice_step src pos n out (b ∷ bs) (sym e)
  ]
]

-- `copy_exact` appends the bytes asked for; where the source ends before, it appends those that
-- there are and raises.
pub copy_exact-eq :
    (src dst : Bytes) (offset n : ℕ)
    → copy_exact src dst offset n
      ≡ (if leb n (length src - offset) then ok tt else err short_read, dst ++ slice src offset n)
unfolding copy_exact
copy_exact-eq src dst offset n = copy_chunks-eq n src offset n dst (omega arith)
