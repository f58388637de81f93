-- ===== src/ExpertStore/Verified.antt =====
-- What `verify_compaction` accepts: soundness for any two stores, and completeness for a store that
-- `compact_store` wrote.
use in_c_test.Prelude.{
  ◌+◌, ◌≡◌, refl, sym, ap, ap₂, subst, ◌∙◌, Bool, true, false, ◌||◌, Option, none, some, List, [],
  ◌∷◌, ◌++◌, ok, guard, >>=-eq-ok, ok-injective, list_eq, list_eq→≡, list_eq_refl, Bool-cases, inl,
  inr, arith,
}
use in_c_test.Struct.{Bytes}
use in_c_test.ExpertStore.{ExpertRecord, Key, key_eq, has_key, metadata_mismatch}
use in_c_test.ExpertStore.KeySets.{has_key-cons, key_eq→≡, key_eq_refl}
use in_c_test.ExpertStore.Checked.{guard-ok}
use in_c_test.ExpertStore.Chunks.{SameSlice, verify_chunks_sound, verify_chunks_complete}
use in_c_test.ExpertStore.Verify.{
  Progress, find_record, other_fields, tagged, key_tag, found_both, verify_record, verify_records,
}

-- The record `dr` of the sparse store stands for the record `sr` of the source: but for the offset
-- the fields are the same, and both data files hold the same bytes where the records lead.
pub record SameRecord (src dst : Bytes) (sr dr : ExpertRecord) : Type 0 where
  pub fields : other_fields sr ≡ other_fields dr
  pub content : SameSlice src sr.file_offset dst dr.file_offset sr.read_bytes

module _ (src dst : Bytes) where
  pub record RecordStep (sr dr : ExpertRecord) (v v' : Progress) : Type 0 where
    pub same : SameRecord src dst sr dr
    pub same_fed : v.src_fed ≡ v.dst_fed → v'.src_fed ≡ v'.dst_fed
    pub counted : v'.bytes_verified ≡ v.bytes_verified + sr.read_bytes

  verify_record_sound :
      (sr dr : ExpertRecord) (v v' : Progress)
      → verify_record src dst sr dr v ≡ ok v'
      → RecordStep sr dr v v'
  unfolding verify_record
  verify_record_sound sr dr v v' e =
      let (_, fields, e1) =
        >>=-eq-ok (guard (list_eq (other_fields sr) (other_fields dr)) metadata_mismatch) _ e in
      let c =
        verify_chunks_sound src dst sr.read_bytes sr.file_offset dr.file_offset sr.read_bytes
          (tagged v (key_tag sr)) v' (omega arith) e1 in
      record {
        same = record { fields = list_eq→≡ _ _ (guard-ok _ _ fields); content = c.same_slice };
        same_fed = λ f. c.same_fed (ap (λ l. l ++ key_tag sr) f);
        counted = c.counted;
      }

  verify_record_complete :
      (sr dr : ExpertRecord) (v : Progress)
      → SameRecord src dst sr dr
      → (v' : Progress) × (verify_record src dst sr dr v ≡ ok v')
  unfolding verify_record
  verify_record_complete sr dr v s =
      let (v', e) =
        verify_chunks_complete src dst sr.read_bytes sr.file_offset dr.file_offset sr.read_bytes
          (tagged v (key_tag sr)) (omega arith) s.content in
      (v', rw (ap (list_eq (other_fields sr)) (sym s.fields) ∙ list_eq_refl (other_fields sr)) e)

-- A key leads to a record in each store, and the two stand for one another.
pub record PairAt (src dst : Bytes) (srs drs : List ExpertRecord) (j : Key) : Type 0 where
  pub source_record : ExpertRecord
  pub sparse_record : ExpertRecord
  pub source_found : find_record j srs ≡ some source_record
  pub sparse_found : find_record j drs ≡ some sparse_record
  pub same : SameRecord src dst source_record sparse_record

module _ (src dst : Bytes) (srs drs : List ExpertRecord) where
  record KeyStep (j : Key) (v v' : Progress) : Type 0 where
    pair : PairAt src dst srs drs j
    same_fed : v.src_fed ≡ v.dst_fed → v'.src_fed ≡ v'.dst_fed

  found_both_sound :
      (j : Key) (a b : Option ExpertRecord) (v v' : Progress)
      → find_record j srs ≡ a
      → find_record j drs ≡ b
      → found_both src dst a b v ≡ ok v'
      → KeyStep j v v'
  found_both_sound j (some sr) (some dr) v v' ea eb e =
      let s = verify_record_sound src dst sr dr v v' e in
      record {
        pair = record {
          source_record = sr;
          sparse_record = dr;
          source_found = ea;
          sparse_found = eb;
          same = s.same;
        };
        same_fed = s.same_fed;
      }
  found_both_sound j (some sr) none v v' ea eb e = cc
  found_both_sound j none b v v' ea eb e = cc

  pub record AllPairs (ks : List Key) (v v' : Progress) : Type 0 where
    pub pairs : (j : Key) → has_key j ks ≡ true → PairAt src dst srs drs j
    pub same_fed : v.src_fed ≡ v.dst_fed → v'.src_fed ≡ v'.dst_fed

  AllPairs-nil : (v : Progress) → AllPairs [] v v
  AllPairs-nil v = record {
    pairs = λ j h. unfold has_key in absurd (ground arith);
    same_fed = λ f. f;
  }

  AllPairs-cons :
      (k : Key) (ks : List Key) (v v1 v' : Progress)
      → KeyStep k v v1
      → AllPairs ks v1 v'
      → AllPairs (k ∷ ks) v v'
  AllPairs-cons k ks v v1 v' s a = record {
    pairs = λ j h. at j h;
    same_fed = λ f. a.same_fed (s.same_fed f);
  }
    where
      at : (j : Key) → has_key j (k ∷ ks) ≡ true → PairAt src dst srs drs j
      at j h = elim (Bool-cases (key_eq j k)) [
        | inl e ↦ subst (PairAt src dst srs drs) (sym (key_eq→≡ j k e)) s.pair
        | inr e ↦ a.pairs j (sym (has_key-cons j k ks ∙ ap (λ b. b || has_key j ks) e) ∙ h)
      ]

  pub verify_records_sound :
      (ks : List Key) (v v' : Progress)
      → verify_records src dst srs drs ks v ≡ ok v'
      → AllPairs ks v v'
  unfolding verify_records
  verify_records_sound [] v v' e = subst (AllPairs [] v) (ok-injective e) (AllPairs-nil v)
  verify_records_sound (k ∷ ks) v v' e =
      let (v1, first, others) =
        >>=-eq-ok (found_both src dst (find_record k srs) (find_record k drs) v) _ e in
      AllPairs-cons k ks v v1 v' (found_both_sound k _ _ v v1 refl refl first)
        (verify_records_sound ks v1 v' others)

  found_both_complete :
      (j : Key) (v : Progress)
      → PairAt src dst srs drs j
      → (v' : Progress) × (found_both src dst (find_record j srs) (find_record j drs) v ≡ ok v')
  found_both_complete j v p =
      let (v', e) = verify_record_complete src dst p.source_record p.sparse_record v p.same in
      (v', ap₂ (λ a b. found_both src dst a b v) p.source_found p.sparse_found ∙ e)

  pub verify_records_complete :
      (ks : List Key) (v : Progress)
      → ((j : Key) → has_key j ks ≡ true → PairAt src dst srs drs j)
      → (v' : Progress) × (verify_records src dst srs drs ks v ≡ ok v')
  unfolding verify_records
  verify_records_complete [] v h = (v, refl)
  verify_records_complete (k ∷ ks) v h =
      let (v1, e1) =
        found_both_complete k v
          (h k (has_key-cons k k ks ∙ ap (λ b. b || has_key k ks) (key_eq_refl k))) in
      let (v2, e2) =
        verify_records_complete ks v1
          (λ j m. h j (has_key-cons j k ks ∙ or_right (key_eq j k) _ m)) in
      (v2, rw e1 e2)
    where
      or_right : (a b : Bool) → b ≡ true → (a || b) ≡ true
      or_right true b e = refl
      or_right false b e = e
