-- ===== src/ExpertStore/EndToEnd.antt =====
-- `verify_compaction` accepts what `compact_store` wrote.
use in_c_test.Prelude.{
  ℕ, ◌≡◌, ◌≢◌, refl, sym, ap, subst, ◌∙◌, Bool, true, false, ◌&&◌, ◌||◌, not, Option, some, List,
  map, ok, ◌==◌, ==_iff, list_eq, list_eq_refl, length, length-map, arith,
}
use in_c_test.Struct.{Bytes}
use in_c_test.ExpertStore.{ExpertRecord, Meta, Key, key, ids, has_key, digest_mismatch}
use in_c_test.ExpertStore.KeySets.{has_key-sorted}
use in_c_test.ExpertStore.Mask.{mask_text, sorted}
use in_c_test.ExpertStore.Files.{FilePath, Files, put}
use in_c_test.ExpertStore.Compact.{Paths, Report, minus, is_empty, compact_store}
use in_c_test.ExpertStore.Compacted.{MovedRecord, Moved, remaining}
use in_c_test.ExpertStore.Checked.{check_source-Parts}
use in_c_test.ExpertStore.Lookup.{
  FoundBoth, neither, both, find_record-Moved, find_record-remaining, find_record-has_key,
  has_key-minus, map-key-remaining, map-key-Moved, same_keys_refl,
}
use in_c_test.ExpertStore.Verified.{
  SameRecord, PairAt, verify_records_sound, verify_records_complete,
}
use in_c_test.ExpertStore.Verification.{Inputs}
use in_c_test.ExpertStore.Compaction.{
  compact_store-Compacted, ThreeFiles, data_id, index_id, sidecar_id, put-other,
  compact_store-Success,
}
use in_c_test.ExpertStore.Verify.{
  VerifyReport, nothing_verified, find_record, other_fields, check_keys, same_keys, verify_report,
  verify_files, verify_compaction,
}

MovedRecord-SameRecord :
    (src out : Bytes) (r k : ExpertRecord) → MovedRecord src out r k → SameRecord src out r k
MovedRecord-SameRecord src out r k m =
    let reads : k.read_bytes ≡ r.read_bytes = ap (λ (x : ExpertRecord). x.read_bytes) m.same in
    record {
      fields = sym (ap other_fields m.same);
      content = record {
        in_src = m.available;
        in_dst = omega (arith, m.inside, reads);
        same = sym (
            subst
              (λ n.
                in_c_test.ExpertStore.Copy.slice out k.file_offset n
                ≡ in_c_test.ExpertStore.Copy.slice src r.file_offset r.read_bytes)
              reads m.stored);
      };
    }

module _ (src out : Bytes) (disabled : List Key) (rs ks : List ExpertRecord)
    (m : Moved src out (remaining disabled rs) ks) where
  pair_of :
      (j : Key) {a b : Option ExpertRecord} (r : ExpertRecord)
      → FoundBoth src out a b
      → find_record j rs ≡ a
      → find_record j ks ≡ b
      → a ≡ some r
      → PairAt src out rs ks j
  pair_of j r neither ea eb e = cc
  pair_of j r (both {r = sr} {k = dr} mr) ea eb e = record {
    source_record = sr;
    sparse_record = dr;
    source_found = ea;
    sparse_found = eb;
    same = MovedRecord-SameRecord src out sr dr mr;
  }

  and_both : (a b : Bool) → (a && not b) ≡ true → (a ≡ true) × (b ≡ false)
  and_both true false h = (refl, refl)
  and_both true true h = cc
  and_both false b h = cc

  pair_at : (j : Key) → has_key j (minus (map key rs) disabled) ≡ true → PairAt src out rs ks j
  pair_at j h =
      let (present, enabled) = and_both _ _ (sym (has_key-minus j (map key rs) disabled) ∙ h) in
      let (r, found) = find_record-has_key j rs present in
      pair_of j r (find_record-Moved src out j (remaining disabled rs) ks m)
        (sym (find_record-remaining disabled j rs enabled)) refl
        (find_record-remaining disabled j rs enabled ∙ found)

  same_ids : map key ks ≡ minus (map key rs) disabled
  same_ids = map-key-Moved src out (remaining disabled rs) ks m ∙ map-key-remaining disabled rs

check_keys_complete :
    (src dst : Meta) (disabled : List Key)
    → is_empty (minus disabled (ids src)) ≡ true
    → ids dst ≡ minus (ids src) disabled
    → dst.n_records ≡ length (ids dst)
    → check_keys src dst disabled ≡ ok tt
unfolding check_keys
check_keys_complete src dst disabled none_missing same count =
    let sets : same_keys (ids dst) (minus (ids src) disabled) ≡ true =
      subst (λ l. same_keys (ids dst) l ≡ true) same (same_keys_refl (ids dst)) in
    let number : (dst.n_records == length (minus (ids src) disabled)) ≡ true =
      (==_iff _ _).1 (count ∙ ap length same) in
    rw (none_missing, sets, number) refl

-- Valid files whose keys and records match are accepted.
verify_files_complete :
    (sha256 : Bytes → Bytes) (source_bin source_idx sparse_bin sparse_idx mask : Option Bytes)
    (src dst : Meta) (disabled : List Key) (source sparse : Bytes)
    → Inputs source_bin source_idx sparse_bin sparse_idx mask src dst disabled source sparse
    → src.n_layers ≡ dst.n_layers
    → src.n_experts ≡ dst.n_experts
    → length source ≡ src.data_bytes
    → length sparse ≡ dst.data_bytes
    → check_keys src dst disabled ≡ ok tt
    → ((j : Key)
        → has_key j (minus (ids src) disabled) ≡ true
        → PairAt source sparse src.records dst.records j)
    → (rep : VerifyReport) × (verify_files sha256 source_bin source_idx sparse_bin sparse_idx mask
        ≡ ok rep)
unfolding verify_files
verify_files_complete sha256 source_bin source_idx sparse_bin sparse_idx mask src dst disabled
      source sparse i layers experts size size' keys pairs =
    let ks = sorted (minus (ids src) disabled) in
    let (v, e) =
      verify_records_complete source sparse src.records dst.records ks nothing_verified
        (λ j h. pairs j (sym (has_key-sorted j (minus (ids src) disabled)) ∙ h)) in
    let same =
      (verify_records_sound source sparse src.records dst.records ks nothing_verified v e).same_fed
        refl in
    let digests : list_eq (sha256 v.src_fed) (sha256 v.dst_fed) ≡ true =
      ap (λ f. list_eq (sha256 v.src_fed) (sha256 f)) (sym same)
      ∙ list_eq_refl (sha256 v.src_fed) in
    (
      verify_report sha256 src dst disabled source sparse v,
      rw (i.src_opened, i.dst_opened, i.mask_opened, i.source_opened, i.sparse_opened)
          (rw (i.src_read, i.dst_read, i.mask_read)
            (rw
              (
                (==_iff src.n_layers dst.n_layers).1 layers,
                (==_iff src.n_experts dst.n_experts).1 experts,
                (==_iff (length source) src.data_bytes).1 size,
                (==_iff (length sparse) dst.data_bytes).1 size',
              )
              (rw (keys, e, digests) refl))),
    )

module _ (resolve : FilePath → ℕ) (p : Paths) where
  abbrev Spared : FilePath → Type 0
  Spared f =
      (resolve f ≢ data_id resolve p)
      × (resolve f ≢ index_id resolve p)
      × (resolve f ≢ sidecar_id resolve p)

  -- No file of the source is a file of the destination.
  abbrev pub SourceSpared : Type 0
  SourceSpared = Spared p.src_bin × Spared p.src_idx × Spared p.mask

  put-Spared :
      (fs : Files) (f : FilePath) (a b c : Bytes)
      → Spared f
      → put
          (put (put fs (data_id resolve p) a) (index_id resolve p) b)
          (sidecar_id resolve p)
          c
          (resolve f)
        ≡ fs (resolve f)
  put-Spared fs f a b c h =
      let fs1 = put fs (data_id resolve p) a in
      let fs2 = put fs1 (index_id resolve p) b in
      put-other fs2 (sidecar_id resolve p) (resolve f) c h.2
      ∙ put-other fs1 (index_id resolve p) (resolve f) b h.1
      ∙ put-other fs (data_id resolve p) (resolve f) a h.0

  -- A run of `compact_store` that returns changes no file but the three of its destination.
  pub compact_store-spares :
      (allow : Bool) (fs : Files) (rep : Report) (fs' : Files) (f : FilePath)
      → Spared f
      → compact_store resolve p allow fs ≡ (ok rep, fs')
      → fs' (resolve f) ≡ fs (resolve f)
  compact_store-spares allow fs rep fs' f h e =
      let y = compact_store-Success resolve p allow fs rep fs' e in
      ap (λ (g : Files). g (resolve f)) y.files
      ∙ put-Spared fs f y.writer.out y.index (mask_text y.source.disabled) h

  or_false : (b : Bool) → (b || false) ≡ true → b ≡ true
  or_false true h = refl
  or_false false h = h

  -- What `compact_store` wrote, `verify_compaction` accepts, with the same source and mask and for
  -- any digest: if the run returned without `allow_missing_disabled`, if the destination is three
  -- different files and if none of them is a file of the source.
  pub verify_compaction-compact_store :
      (sha256 : Bytes → Bytes) (fs : Files) (rep : Report) (fs' : Files)
      → ThreeFiles resolve p
      → SourceSpared
      → compact_store resolve p false fs ≡ (ok rep, fs')
      → (v : VerifyReport) × (verify_compaction sha256 resolve fs' p.src_bin p.src_idx p.dst_bin
            p.dst_idx p.mask
          ≡ ok v)
  verify_compaction-compact_store sha256 fs rep fs' three spared h =
      let (s, checked, c) = compact_store-Compacted resolve p false fs rep fs' three h in
      let parts = check_source-Parts _ _ _ false s checked in
      let keeps = λ (f : FilePath) (k : Spared f). compact_store-spares false fs rep fs' f k h in
      let same = same_ids s.bytes c.out s.disabled s.meta.records c.records c.same_records in
      let (v, e) =
        verify_files_complete sha256 (fs' (resolve p.src_bin)) (fs' (resolve p.src_idx))
          (fs' (resolve p.dst_bin)) (fs' (resolve p.dst_idx)) (fs' (resolve p.mask)) s.meta
          (record {
            n_layers = s.meta.n_layers;
            n_experts = s.meta.n_experts;
            n_records = length c.records;
            data_bytes = length c.out;
            records = c.records;
          })
          s.disabled s.bytes c.out
          (record {
            src_index = parts.index;
            src_opened = keeps p.src_idx spared.1 ∙ parts.index_file;
            src_read = parts.index_read;
            dst_index = c.index;
            dst_opened = c.index_written;
            dst_read = c.index_read;
            mask_bytes = parts.mask_bytes;
            mask_opened = keeps p.mask spared.2 ∙ parts.mask_file;
            mask_read = parts.mask_read;
            source_opened = keeps p.src_bin spared.0 ∙ parts.data_file;
            sparse_opened = c.data_written;
          })
          refl refl (sym parts.size) refl
          (check_keys_complete s.meta _ s.disabled (or_false _ parts.none_missing) same
            (sym (length-map c.records key)))
          (pair_at s.bytes c.out s.disabled s.meta.records c.records c.same_records) in
      (v, unfold verify_compaction in e)
