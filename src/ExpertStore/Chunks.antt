-- ===== src/ExpertStore/Chunks.antt =====
-- Comparing in chunks is comparing two slices.
use in_c_test.Prelude.{
  ℕ, zero, suc, ◌+◌, ◌-◌, ◌≤◌, ◌≡◌, refl, sym, ap, ap₂, ◌∙◌, Bool, true, false, ◌&&◌, ◌++◌, min,
  Result, ok, ◌>>◌, guard, >>=-eq-ok, ok-injective, subst, take-append_exact, drop-append_exact,
  ◌==◌, ==_iff, length, take, drop, drop-drop, length-take, length-drop, list_eq, list_eq→≡,
  list_eq_refl, Bool-cases, inl, inr, arith,
}
use in_c_test.Struct.{Bytes}
use in_c_test.ExpertStore.{chunk, StoreError, short_read, payload_mismatch}
use in_c_test.ExpertStore.Copy.{slice, take-split}
use in_c_test.ExpertStore.Checked.{guard-ok}
use in_c_test.ExpertStore.Verify.{verify_chunks, Progress, fed}

-- Both files hold `n` bytes behind their offsets, and the same bytes.
pub record SameSlice (src : Bytes) (i : ℕ) (dst : Bytes) (j n : ℕ) : Type 0 where
  pub in_src : n ≤ length src - i
  pub in_dst : n ≤ length dst - j
  pub same : slice src i n ≡ slice dst j n

chunk_of : Bytes → ℕ → ℕ → Bytes
chunk_of src i n = take (min chunk n) (drop i src)

abbrev next : Bytes → Bytes → (i j n : ℕ) → Progress → Progress
next src dst i j n v = fed v (take (min chunk n) (drop i src)) (take (min chunk n) (drop j dst))

module _ (src dst : Bytes) where
  verify_chunks-done :
      (fuel i j n : ℕ) (v : Progress) → (n == 0) ≡ true → verify_chunks fuel src i dst j n v ≡ ok v
  unfolding verify_chunks
  verify_chunks-done zero i j n v e = rw e
  verify_chunks-done (suc fuel) i j n v e = rw (e, verify_chunks)

  abbrev rest : (fuel i j n : ℕ) → Progress → Result StoreError Progress
  rest fuel i j n v =
      verify_chunks fuel src (i + min chunk n) dst (j + min chunk n) (n - min chunk n)
        (next src dst i j n v)

  verify_chunks-step :
      (fuel i j n : ℕ) (v : Progress)
      → (n == 0) ≡ false
      → verify_chunks (suc fuel) src i dst j n v ≡ (
          guard
            (length (take (min chunk n) (drop i src)) == min chunk n
              && length (take (min chunk n) (drop j dst)) == min chunk n)
            short_read
          >> (guard
                (list_eq (take (min chunk n) (drop i src)) (take (min chunk n) (drop j dst)))
                payload_mismatch
              >> rest fuel i j n v))
  unfolding verify_chunks
  verify_chunks-step fuel i j n v e = rw (e, verify_chunks)

  slices-split :
      (i n : ℕ) (b : Bytes)
      → slice b i n ≡ take (min chunk n) (drop i b) ++ slice b (i + min chunk n) (n - min chunk n)
  slices-split i n b = sym (
      ap (λ l. take (min chunk n) (drop i b) ++ take (n - min chunk n) l)
        (sym (drop-drop (min chunk n) i b))
      ∙ take-split (min chunk n) n (drop i b) (omega arith))

  length-chunk :
      (i n : ℕ) (b : Bytes)
      → n ≤ length b - i
      → length (take (min chunk n) (drop i b)) ≡ min chunk n
  length-chunk i n b h = omega (arith, length-take (min chunk n) (drop i b), length-drop i b)

  chunk_available :
      (i n : ℕ) (b : Bytes)
      → length (take (min chunk n) (drop i b)) ≡ min chunk n
      → min chunk n ≤ length b - i
  chunk_available i n b h = omega (arith, length-take (min chunk n) (drop i b), length-drop i b)

  SameSlice-empty : (i j n : ℕ) → (n == 0) ≡ true → SameSlice src i dst j n
  SameSlice-empty i j n e = record {
    in_src = ground arith;
    in_dst = ground arith;
    same = rw ((==_iff n 0).0 e) refl;
  }

  -- A first chunk that is the same, and a rest that is.
  SameSlice-chunk :
      (i j n : ℕ)
      → (length (take (min chunk n) (drop i src)) == min chunk n
          && length (take (min chunk n) (drop j dst)) == min chunk n)
        ≡ true
      → list_eq (take (min chunk n) (drop i src)) (take (min chunk n) (drop j dst)) ≡ true
      → SameSlice src (i + min chunk n) dst (j + min chunk n) (n - min chunk n)
      → SameSlice src i dst j n
  SameSlice-chunk i j n sizes equal r =
      let (a, b) = both _ _ sizes in
      let a' = chunk_available i n src ((==_iff _ _).0 a) in
      let b' = chunk_available j n dst ((==_iff _ _).0 b) in
      record {
        in_src = omega (arith, r.in_src, a');
        in_dst = omega (arith, r.in_dst, b');
        same =
            slices-split i n src
            ∙ ap₂ (λ x y. x ++ y) (list_eq→≡ _ _ equal) r.same
            ∙ sym (slices-split j n dst);
      }
    where
      both : (x y : Bool) → (x && y) ≡ true → (x ≡ true) × (y ≡ true)
      both true y h = (refl, h)
      both false y h = cc

  pub record Compared (i j n : ℕ) (v v' : Progress) : Type 0 where
    pub same_slice : SameSlice src i dst j n
    pub same_fed : v.src_fed ≡ v.dst_fed → v'.src_fed ≡ v'.dst_fed
    pub counted : v'.bytes_verified ≡ v.bytes_verified + n

  Compared-empty : (i j n : ℕ) (v : Progress) → (n == 0) ≡ true → Compared i j n v v
  Compared-empty i j n v e = record {
    same_slice = SameSlice-empty i j n e;
    same_fed = λ f. f;
    counted = ground arith;
  }

  Compared-chunk :
      (i j n : ℕ) (v v' : Progress)
      → (length (take (min chunk n) (drop i src)) == min chunk n
          && length (take (min chunk n) (drop j dst)) == min chunk n)
        ≡ true
      → list_eq (take (min chunk n) (drop i src)) (take (min chunk n) (drop j dst)) ≡ true
      → Compared (i + min chunk n) (j + min chunk n) (n - min chunk n) (next src dst i j n v) v'
      → Compared i j n v v'
  Compared-chunk i j n v v' sizes equal c =
      let s = SameSlice-chunk i j n sizes equal c.same_slice in
      record {
        same_slice = s;
        same_fed = λ f. c.same_fed (ap₂ (λ x y. x ++ y) f (list_eq→≡ _ _ equal));
        counted = omega (arith, c.counted, length-chunk i n src s.in_src);
      }

  verified_empty :
      (fuel i j n : ℕ) (v v' : Progress)
      → (n == 0) ≡ true
      → verify_chunks fuel src i dst j n v ≡ ok v'
      → Compared i j n v v'
  verified_empty fuel i j n v v' done e =
      subst (Compared i j n v) (ok-injective (sym (verify_chunks-done fuel i j n v done) ∙ e))
        (Compared-empty i j n v done)

  pub verify_chunks_sound :
      (fuel i j n : ℕ) (v v' : Progress)
      → n ≤ fuel
      → verify_chunks fuel src i dst j n v ≡ ok v'
      → Compared i j n v v'
  verify_chunks_sound zero i j n v v' h e =
      verified_empty zero i j n v v' ((==_iff n 0).1 (omega arith)) e
  verify_chunks_sound (suc fuel) i j n v v' h e = elim (Bool-cases (n == 0)) [
    | inl done ↦ verified_empty (suc fuel) i j n v v' done e
    | inr more ↦
        let (_, sizes, e1) =
          >>=-eq-ok (guard _ short_read) _ (sym (verify_chunks-step fuel i j n v more) ∙ e) in
        let (_, equal, e2) = >>=-eq-ok (guard _ payload_mismatch) _ e1 in
        Compared-chunk i j n v v' (guard-ok _ _ sizes) (guard-ok _ _ equal) (
          verify_chunks_sound fuel (i + min chunk n) (j + min chunk n) (n - min chunk n)
            (next src dst i j n v) v' (ground arith) e2)
  ]

  guard_pass :
      (a b : Bool) (x y : StoreError) (r : Result StoreError Progress)
      → a ≡ true
      → b ≡ true
      → (guard a x >> (guard b y >> r)) ≡ r
  guard_pass a b x y r p q = rw (p, q) refl

  -- Equal slices pass the tests of the first chunk, and their rests are equal.
  pub record Splits (i j n : ℕ) : Type 0 where
    pub sizes :
        (length (take (min chunk n) (drop i src)) == min chunk n
          && length (take (min chunk n) (drop j dst)) == min chunk n)
        ≡ true
    pub equal : list_eq (take (min chunk n) (drop i src)) (take (min chunk n) (drop j dst)) ≡ true
    pub others : SameSlice src (i + min chunk n) dst (j + min chunk n) (n - min chunk n)

  SameSlice-Splits : (i j n : ℕ) → SameSlice src i dst j n → Splits i j n
  SameSlice-Splits i j n s =
      let m = min chunk n in
      let la = length-chunk i n src s.in_src in
      let lb = length-chunk j n dst s.in_dst in
      let joined = sym (slices-split i n src) ∙ s.same ∙ slices-split j n dst in
      let heads : take m (drop i src) ≡ take m (drop j dst) =
        sym (take-append_exact m _ _ la) ∙ ap (take m) joined ∙ take-append_exact m _ _ lb in
      record {
        sizes = ground (arith, la, lb);
        equal = ap (list_eq (take m (drop i src))) (sym heads) ∙ list_eq_refl (take m (drop i src));
        others = record {
          in_src = omega (arith, s.in_src);
          in_dst = omega (arith, s.in_dst);
          same = sym (drop-append_exact m _ _ la) ∙ ap (drop m) joined ∙ drop-append_exact m _ _ lb;
        };
      }

  pub verify_chunks_complete :
      (fuel i j n : ℕ) (v : Progress)
      → n ≤ fuel
      → SameSlice src i dst j n
      → (v' : Progress) × (verify_chunks fuel src i dst j n v ≡ ok v')
  verify_chunks_complete zero i j n v h s =
      (v, verify_chunks-done zero i j n v ((==_iff n 0).1 (omega arith)))
  verify_chunks_complete (suc fuel) i j n v h s = elim (Bool-cases (n == 0)) [
    | inl done ↦ (v, verify_chunks-done (suc fuel) i j n v done)
    | inr more ↦
        let p = SameSlice-Splits i j n s in
        let (v', e) =
          verify_chunks_complete fuel (i + min chunk n) (j + min chunk n) (n - min chunk n)
            (next src dst i j n v) (ground arith) p.others in
        (v', verify_chunks-step fuel i j n v more ∙ guard_pass _ _ _ _ _ p.sizes p.equal ∙ e)
  ]
