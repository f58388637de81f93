-- ===== src/Reservoir/Bounds.antt =====
-- How much a reservoir keeps, and what it counts.
use in_c_test.Prelude.{
  ℕ, zero, suc, ◌+◌, ◌≡◌, refl, subst, ◌∙◌, false, Option, none, some, List, [], ◌∷◌, ok, >>=-eq-ok,
  ok-injective, ltb, length, length-append, length-set, min, Bool-cases, inl, inr, arith,
}
use in_c_test.Prelude.Int.{ℤ, pos, negsuc}
use in_c_test.Text.{Str, strip}
use in_c_test.Json.{Json, null, bool, int, real, str, arr, obj, Fields}
use in_c_test.Reservoir.{
  Libraries, Expert, same_expert, expert_lt, is_size, Bucket, Buckets, replaced, offer,
  empty_bucket, put_bucket, keep_bucket, offer_to, Reservoir, routed, stored, add_routed,
  add_record, add_line, add_lines, insert_bucket, sorted_buckets, Manifest, positive, lines_of,
  build_with, build_reservoir,
}

-- The records of a trace: its lines that are not blank.
abbrev pub one_if_any : Str → ℕ
one_if_any [] = 0
one_if_any (c ∷ s) = 1

unfoldable pub records_in : List Str → ℕ
unfolding strip
records_in [] = 0
records_in (line ∷ lines) = one_if_any (strip line) + records_in lines

module _ (L : Libraries) where
  -- All that was seen is kept, up to the capacity.
  abbrev pub IsBounded : ℕ → Bucket L → Type 0
  IsBounded capacity b = length b.vectors ≡ min b.seen capacity

  abbrev pub AllBounded : ℕ → Buckets L → Type 0
  AllBounded capacity [] = Unit {0}
  AllBounded capacity ((k, b) ∷ bs) = IsBounded capacity b × AllBounded capacity bs

  unfoldable pub total_seen : Buckets L → ℕ
  total_seen [] = 0
  total_seen ((k, b) ∷ bs) = b.seen + total_seen bs

  module _ (capacity : ℕ) where
    abbrev pub Offered : Bucket L → Bucket L → Type 0
    Offered b b' = IsBounded capacity b' × (b'.seen ≡ b.seen + 1)

    replaced-Offered :
        (x : L.Vector) (b : Bucket L) (d : ℕ × L.Random)
        → IsBounded capacity b
        → ltb (length b.vectors) capacity ≡ false
        → Offered b (replaced L capacity x (b.seen + 1) d b.vectors).0
    replaced-Offered x b (j, rng) h full = elim (Bool-cases (ltb j capacity)) [
      | inl e ↦ rw e (length-set b.vectors j x ∙ ground arith, refl)
      | inr e ↦ rw e (ground arith, refl)
    ]

    offer-Offered :
        (x : L.Vector) (rng : L.Random) (b : Bucket L)
        → IsBounded capacity b
        → Offered b (offer L capacity x rng b).0
    offer-Offered x rng b h = elim (Bool-cases (ltb (length b.vectors) capacity)) [
      | inl e ↦ rw e (length-append b.vectors (x ∷ []) ∙ ground arith, refl)
      | inr e ↦ rw e (replaced-Offered x b (L.randrange rng (b.seen + 1)) h e)
    ]

    -- Bounded buckets that have seen `n` vectors.
    abbrev pub Holds : ℕ → Buckets L → Type 0
    Holds n bs = AllBounded capacity bs × (total_seen bs ≡ n)

    put_bucket-Holds :
        (k : Expert) (b : Bucket L) (bs : Buckets L) (o : Bucket L × L.Random)
        → AllBounded capacity bs
        → Offered b o.0
        → Holds (suc (b.seen + total_seen bs)) (put_bucket L k bs o).0
    unfolding total_seen
    put_bucket-Holds k b bs (b', rng) a o = ((o.0, a), omega (arith, o.1))

    keep_bucket-Holds :
        (k : Expert) (b : Bucket L) (n : ℕ) (o : Buckets L × L.Random)
        → IsBounded capacity b
        → Holds n o.0
        → Holds (b.seen + n) (keep_bucket L (k, b) o).0
    unfolding total_seen
    keep_bucket-Holds k b n (bs, rng) h o = ((h, o.0), omega (arith, o.1))

    offer_to-Holds :
        (k : Expert) (x : L.Vector) (rng : L.Random) (bs : Buckets L)
        → AllBounded capacity bs
        → Holds (suc (total_seen bs)) (offer_to L capacity k x rng bs).0
    unfolding offer_to total_seen
    offer_to-Holds k x rng [] a =
        put_bucket-Holds k (empty_bucket L) [] (offer L capacity x rng (empty_bucket L)) tt
          (offer-Offered x rng (empty_bucket L) (omega arith))
    offer_to-Holds k x rng ((j, b) ∷ bs) (h, a) = elim (Bool-cases (same_expert j k)) [
      | inl e ↦
          rw e (put_bucket-Holds j b bs (offer L capacity x rng b) a (offer-Offered x rng b h))
      | inr e ↦
          let o = offer_to-Holds k x rng bs a in
          let p =
            keep_bucket-Holds j b (suc (total_seen bs)) (offer_to L capacity k x rng bs) h o in
          rw e (p.0, p.1 ∙ omega arith)
    ]

    insert_bucket-Holds :
        (k : Expert) (b : Bucket L) (bs : Buckets L)
        → IsBounded capacity b
        → AllBounded capacity bs
        → Holds (b.seen + total_seen bs) (insert_bucket L (k, b) bs)
    unfolding insert_bucket total_seen
    insert_bucket-Holds k b [] h a = ((h, tt), refl)
    insert_bucket-Holds k b ((j, c) ∷ bs) h (hc, a) =
        let i = insert_bucket-Holds k b bs h a in
        elim (Bool-cases (expert_lt j k)) [
          | inl e ↦ rw e ((hc, i.0), omega (arith, i.1))
          | inr e ↦ rw e ((h, (hc, a)), refl)
        ]

    sorted_buckets-Holds :
        (bs : Buckets L) → AllBounded capacity bs → Holds (total_seen bs) (sorted_buckets L bs)
    unfolding sorted_buckets total_seen
    sorted_buckets-Holds [] a = (tt, refl)
    sorted_buckets-Holds ((k, b) ∷ bs) (h, a) =
        let s = sorted_buckets-Holds bs a in
        let i = insert_bucket-Holds k b (sorted_buckets L bs) h s.0 in
        (i.0, omega (arith, i.1, s.1))

    -- The state of the loop: its buckets have seen as many vectors as there were rows.
    abbrev pub IsSound : Reservoir L → Type 0
    IsSound r = Holds r.rows r.buckets

    stored-IsSound :
        (fs : Fields) (r : Reservoir L) (o : Buckets L × L.Random)
        → Holds (r.rows + 1) o.0
        → IsSound (stored L fs r o)
    stored-IsSound fs r (bs, rng) h = h

    -- What one line adds: a sound state, and a row for a record.
    abbrev pub Added : ℕ → Reservoir L → Reservoir L → Type 0
    Added n r r' = IsSound r' × (r'.rows ≡ n + r.rows)

    rows-stored :
        (fs : Fields) (r : Reservoir L) (o : Buckets L × L.Random)
        → (stored L fs r o).rows ≡ 1 + r.rows
    rows-stored fs r (bs, rng) = omega arith

    module _ (hidden : ℕ) where
      add_routed-Added :
          (fs : Fields) (p : Option (Expert × L.Vector)) (r r' : Reservoir L)
          → IsSound r
          → add_routed L capacity hidden fs p r ≡ ok r'
          → Added 1 r r'
      add_routed-Added fs none r r' s h = cc
      add_routed-Added fs (some (k, x)) r r' s h =
          elim (Bool-cases (is_size hidden (L.length_of x))) [
            | inl e ↦
                let o = offer_to-Holds k x r.rng r.buckets s.0 in
                let y = offer_to L capacity k x r.rng r.buckets in
                subst (Added 1 r) (ok-injective (rw e at h))
                  (stored-IsSound fs r y (o.0, o.1 ∙ omega (arith, s.1)), rows-stored fs r y)
            | inr e ↦ absurd (let z = rw e at h in cc)
          ]

      add_record-Added :
          (v : Option Json) (r r' : Reservoir L)
          → IsSound r
          → add_record L capacity hidden v r ≡ ok r'
          → Added 1 r r'
      add_record-Added none r r' s h = cc
      add_record-Added (some (obj fs)) r r' s h = add_routed-Added fs (routed L fs) r r' s h
      add_record-Added (some null) r r' s h = cc
      add_record-Added (some (bool v)) r r' s h = cc
      add_record-Added (some (int v)) r r' s h = cc
      add_record-Added (some (real v)) r r' s h = cc
      add_record-Added (some (str v)) r r' s h = cc
      add_record-Added (some (arr v)) r r' s h = cc

      add_line-Added :
          (line : Str) (r r' : Reservoir L)
          → IsSound r
          → add_line L capacity hidden line r ≡ ok r'
          → Added (one_if_any line) r r'
      add_line-Added [] r r' s h = subst (Added 0 r) (ok-injective h) (s, omega arith)
      add_line-Added (c ∷ line) r r' s h = add_record-Added (L.loads (c ∷ line)) r r' s h

      add_lines-Added :
          (lines : List Str) (r r' : Reservoir L)
          → IsSound r
          → add_lines L capacity hidden lines r ≡ ok r'
          → Added (records_in lines) r r'
      unfolding add_lines records_in
      add_lines-Added [] r r' s h = subst (Added 0 r) (ok-injective h) (s, omega arith)
      add_lines-Added (line ∷ lines) r r' s h =
          let (r1, e, h1) = >>=-eq-ok (add_line L capacity hidden (strip line) r) _ h in
          let a = add_line-Added (strip line) r r1 s e in
          let b = add_lines-Added lines r1 r' a.0 h1 in (b.0, omega (arith, a.1, b.1))

  -- What the manifest says: each record is a row and was seen by its expert, and an expert keeps all
  -- that it has seen, up to the capacity.
  pub record Bounded (text : Str) (capacity : ℤ) (m : Manifest L) : Type 0 where
    pub limit : ℕ
    pub limit_is : capacity ≡ pos limit
    pub rows_counted : m.rows ≡ records_in (lines_of L text)
    pub seen_counted : total_seen m.experts ≡ m.rows
    pub kept_bounded : AllBounded limit m.experts

  positive-eq : (c : ℤ) (n : ℕ) → positive L c ≡ some n → c ≡ pos n
  positive-eq (pos zero) n h = cc
  positive-eq (pos (suc c)) n h = cc
  positive-eq (negsuc c) n h = cc

  build_with-Bounded :
      (text : Str) (capacity seed : ℤ) (c h : Option ℕ) (m : Manifest L)
      → positive L capacity ≡ c
      → build_with L text c h seed ≡ ok m
      → Bounded text capacity m
  unfolding total_seen
  build_with-Bounded text capacity seed (some c) (some hidden) m p h =
      let (r, e, h1) = >>=-eq-ok (add_lines L c hidden (lines_of L text) _) _ h in
      let a = add_lines-Added c hidden (lines_of L text) _ r (tt, refl) e in
      let s = sorted_buckets-Holds c r.buckets a.0.0 in
      subst (Bounded text capacity) (ok-injective h1) (record {
        limit = c;
        limit_is = positive-eq capacity c p;
        rows_counted = a.1 ∙ omega arith;
        seen_counted = s.1 ∙ a.0.1;
        kept_bounded = s.0;
      })
  build_with-Bounded text capacity seed (some c) none m p h = cc
  build_with-Bounded text capacity seed none h m p e = cc

  -- A run that returns has a positive capacity, has counted each record of the trace as a row and as
  -- seen by one expert, a record being a line that is not blank, and keeps of each expert as many vectors
  -- as it has seen, up to the capacity.
  pub build_reservoir-Bounded :
      (text : Str) (capacity hidden seed : ℤ) (m : Manifest L)
      → build_reservoir L text capacity hidden seed ≡ ok m
      → Bounded text capacity m
  unfolding build_reservoir
  build_reservoir-Bounded text capacity hidden seed m h =
      build_with-Bounded text capacity seed (positive L capacity) (positive L hidden) m refl h
