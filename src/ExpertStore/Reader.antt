-- ===== src/ExpertStore/Reader.antt =====
-- What the strict reader guarantees, and what it lets through again after a compaction.
use in_c_test.Prelude.{
  ℕ, zero, suc, ◌+◌, ◌%◌, ◌<◌, ◌≡◌, refl, sym, ap, ◌∙◌, subst, Bool, true, false, ◌||◌, List, [],
  ◌∷◌, ◌++◌, ok, >>=-eq-ok, ok-injective, length, Bool-cases, inl, inr, arith,
}
use in_c_test.Struct.{Bytes}
use in_c_test.ExpertStore.{
  ExpertRecord, Key, key, has_key, page, check_record, read_records, unpack_record, record_size,
}
use in_c_test.ExpertStore.Index.{Readable}
use in_c_test.ExpertStore.KeySets.{has_key-append}
use in_c_test.ExpertStore.Compact.{moved}
use in_c_test.ExpertStore.Compacted.{MovedRecord, Moved, remaining}

-- The tests of the reader on one record.
pub record Accepted (nl ne : ℕ) (seen : List Key) (r : ExpertRecord) : Type 0 where
  pub layer_in_range : r.layer < nl
  pub expert_in_range : r.expert < ne
  pub new : has_key (key r) seen ≡ false
  pub not_empty : 0 < r.read_bytes
  pub read_aligned : r.read_bytes % page ≡ 0
  pub offset_aligned : r.file_offset % page ≡ 0

pub check_record-Accepted :
    (nl ne : ℕ) (seen : List Key) (r : ExpertRecord)
    → check_record nl ne seen r ≡ ok tt
    → Accepted nl ne seen r
unfolding check_record
check_record-Accepted nl ne seen r h = ground arith

pub Accepted-check_record :
    (nl ne : ℕ) (seen : List Key) (r : ExpertRecord)
    → Accepted nl ne seen r
    → check_record nl ne seen r ≡ ok tt
unfolding check_record
Accepted-check_record nl ne seen r a = ground arith

-- The records that were read pass the tests, and there are as many as the header says.
pub read_records-Readable :
    (nl ne : ℕ) (raw : Bytes) (n pos : ℕ) (seen : List Key) (rs : List ExpertRecord)
    → read_records nl ne raw n pos seen ≡ ok rs
    → Readable nl ne seen rs × (length rs ≡ n)
unfolding read_records
read_records-Readable nl ne raw zero pos seen [] h = (tt, refl)
read_records-Readable nl ne raw zero pos seen (r ∷ rs) h = cc
read_records-Readable nl ne raw (suc n) pos seen rs h =
    let r = unpack_record raw pos in
    let (_, checked, h') = >>=-eq-ok (check_record nl ne seen r) _ h in
    let (rest, others, e) =
      >>=-eq-ok (read_records nl ne raw n (pos + record_size) (seen ++ key r ∷ [])) _ h' in
    let (readable, long) =
      read_records-Readable nl ne raw n (pos + record_size) (seen ++ key r ∷ []) rest others in
    subst (λ l. Readable nl ne seen l × (length l ≡ suc n)) (ok-injective e)
      ((checked, readable), ap suc long)

-- Every key of one list is in the other.
abbrev pub Within : List Key → List Key → Type 0
Within xs ys = (j : Key) → has_key j xs ≡ true → has_key j ys ≡ true

absent : (xs ys : List Key) (j : Key) → Within xs ys → has_key j ys ≡ false → has_key j xs ≡ false
absent xs ys j sub h = elim (Bool-cases (has_key j xs)) [ inl e ↦ cc (sub j e) | inr e ↦ e ]

or_intro : (a b : Bool) → (a ≡ true) → (a || b) ≡ true
or_intro a b e = rw e

Within-append : (xs ys : List Key) (k : Key) → Within xs ys → Within xs (ys ++ k ∷ [])
Within-append xs ys k sub j h = has_key-append j ys (k ∷ []) ∙ or_intro _ _ (sub j h)

or_mono : (a b c : Bool) → (a ≡ true → b ≡ true) → (a || c) ≡ true → (b || c) ≡ true
or_mono true b c f h = rw (f refl)
or_mono false true c f h = refl
or_mono false false c f h = h

Within-snoc : (xs ys : List Key) (k : Key) → Within xs ys → Within (xs ++ k ∷ []) (ys ++ k ∷ [])
Within-snoc xs ys k sub j h =
    has_key-append j ys (k ∷ []) ∙ or_mono _ _ _ (sub j) (sym (has_key-append j xs (k ∷ [])) ∙ h)

-- A record that was moved to another page is accepted again, behind fewer keys.
moved-Accepted :
    (nl ne : ℕ) (seen fewer : List Key) (r : ExpertRecord) (start : ℕ)
    → Within fewer seen
    → start % page ≡ 0
    → Accepted nl ne seen r
    → Accepted nl ne fewer (moved r start)
moved-Accepted nl ne seen fewer r start sub aligned a = record {
  layer_in_range = a.layer_in_range;
  expert_in_range = a.expert_in_range;
  new = absent fewer seen (key r) sub a.new;
  not_empty = a.not_empty;
  read_aligned = a.read_aligned;
  offset_aligned = aligned;
}

accepted_again :
    (nl ne : ℕ) (src out : Bytes) (seen fewer : List Key) (r k : ExpertRecord)
    → Within fewer seen
    → MovedRecord src out r k
    → check_record nl ne seen r ≡ ok tt
    → check_record nl ne fewer k ≡ ok tt
accepted_again nl ne src out seen fewer r k sub m h =
    ap (check_record nl ne fewer) m.same
    ∙ Accepted-check_record nl ne fewer (moved r k.file_offset) (
        moved-Accepted nl ne seen fewer r k.file_offset sub m.aligned
          (check_record-Accepted nl ne seen r h))

-- The records of a compacted store pass the tests of the reader.
pub Readable-Moved :
    (nl ne : ℕ) (src out : Bytes) (disabled seen fewer : List Key) (rs ks : List ExpertRecord)
    → Within fewer seen
    → Readable nl ne seen rs
    → Moved src out (remaining disabled rs) ks
    → Readable nl ne fewer ks
unfolding remaining
Readable-Moved nl ne src out disabled seen fewer [] [] sub h m = tt
Readable-Moved nl ne src out disabled seen fewer [] (k ∷ ks) sub h m = absurd m
Readable-Moved nl ne src out disabled seen fewer (r ∷ rs) [] sub h m = tt
Readable-Moved nl ne src out disabled seen fewer (r ∷ rs) (k ∷ ks) sub h m =
    elim (Bool-cases (has_key (key r) disabled)) [
      | inl e ↦
          Readable-Moved nl ne src out disabled (seen ++ key r ∷ []) fewer rs (k ∷ ks)
            (Within-append fewer seen (key r) sub) h.1 (rw e at m)
      | inr e ↦
          let (first, others) = kept_cons e m in
          (
            accepted_again nl ne src out seen fewer r k sub first h.0,
            subst (λ j. Readable nl ne (fewer ++ j ∷ []) ks) (ap key (sym first.same))
                (Readable-Moved nl ne src out disabled (seen ++ key r ∷ []) (fewer ++ key r ∷ []) rs
                  ks (Within-snoc fewer seen (key r) sub) h.1 others),
          )
    ]
  where
    kept_cons :
        has_key (key r) disabled ≡ false
        → Moved src out (remaining disabled (r ∷ rs)) (k ∷ ks)
        → MovedRecord src out r k × Moved src out (remaining disabled rs) ks
    kept_cons e n = rw e at n
