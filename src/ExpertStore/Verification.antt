-- ===== src/ExpertStore/Verification.antt =====
-- `verify_compaction` as a whole: what it accepts, and that it accepts what `compact_store` wrote.
use in_c_test.Prelude.{
  ◌≡◌, refl, sym, ◌∙◌, Bool, true, false, ◌&&◌, not, Option, some, List, ok, guard, >>=-eq-ok, ◌==◌,
  ==_iff, length,
}
use in_c_test.Struct.{Bytes}
use in_c_test.ExpertStore.{
  Meta, Key, ids, has_key, read_index, mask_missing_from_source, ids_mismatch, shape_changed,
  size_mismatch,
}
use in_c_test.ExpertStore.KeySets.{has_key-sorted}
use in_c_test.ExpertStore.Mask.{read_mask, sorted}
use in_c_test.ExpertStore.Files.{opened}
use in_c_test.ExpertStore.Compact.{minus, is_empty}
use in_c_test.ExpertStore.Checked.{guard-ok, opened-ok}
use in_c_test.ExpertStore.Lookup.{has_key-minus, same_keys_sound}
use in_c_test.ExpertStore.Verified.{PairAt, verify_records_sound}
use in_c_test.ExpertStore.Verify.{
  VerifyReport, nothing_verified, verify_records, check_keys, same_keys, verify_files,
}

-- The files, and what was read from them.
pub record Inputs (source_bin source_idx sparse_bin sparse_idx mask : Option Bytes) (src dst : Meta)
    (disabled : List Key) (source sparse : Bytes) : Type 0 where
  pub src_index : Bytes
  pub src_opened : source_idx ≡ some src_index
  pub src_read : read_index src_index ≡ ok src
  pub dst_index : Bytes
  pub dst_opened : sparse_idx ≡ some dst_index
  pub dst_read : read_index dst_index ≡ ok dst
  pub mask_bytes : Bytes
  pub mask_opened : mask ≡ some mask_bytes
  pub mask_read : read_mask mask_bytes ≡ ok disabled
  pub source_opened : source_bin ≡ some source
  pub sparse_opened : sparse_bin ≡ some sparse

-- The sparse store holds the records of the source that are not disabled, and no others.
pub record IsSparse (src dst : Meta) (disabled : List Key) (source sparse : Bytes) : Type 0 where
  pub same_layers : src.n_layers ≡ dst.n_layers
  pub same_experts : src.n_experts ≡ dst.n_experts
  pub same_keys :
      (j : Key) → has_key j (ids dst) ≡ (has_key j (ids src) && not (has_key j disabled))
  pub same_records :
      (j : Key) → has_key j (ids dst) ≡ true → PairAt source sparse src.records dst.records j

and_parts : (a b : Bool) → (a && b) ≡ true → (a ≡ true) × (b ≡ true)
and_parts true b h = (refl, h)
and_parts false b h = cc

check_keys_sound :
    (src dst : Meta) (disabled : List Key) {u : Unit {0}}
    → check_keys src dst disabled ≡ ok u
    → (j : Key) → has_key j (ids dst) ≡ has_key j (minus (ids src) disabled)
unfolding check_keys
check_keys_sound src dst disabled e =
    let (_, _, e1) =
      >>=-eq-ok (guard (is_empty (minus disabled (ids src))) mask_missing_from_source) _ e in
    let (_, g, e2) =
      >>=-eq-ok (guard (same_keys (ids dst) (minus (ids src) disabled)) ids_mismatch) _ e1 in
    λ j. same_keys_sound (ids dst) (minus (ids src) disabled) j (guard-ok _ _ g)

-- A verification that returns read five valid files, and the sparse store holds exactly the
-- records of the source that the mask does not disable, each with the same fields but for its
-- offset and the same bytes.
pub verify_files-IsSparse :
    (sha256 : Bytes → Bytes) (source_bin source_idx sparse_bin sparse_idx mask : Option Bytes)
    (rep : VerifyReport)
    → verify_files sha256 source_bin source_idx sparse_bin sparse_idx mask ≡ ok rep
    → (src : Meta) × (dst : Meta) × (disabled : List Key) × (source : Bytes) × (sparse : Bytes)
      × Inputs source_bin source_idx sparse_bin sparse_idx mask src dst disabled source sparse
      × IsSparse src dst disabled source sparse
unfolding verify_files
verify_files-IsSparse sha256 source_bin source_idx sparse_bin sparse_idx mask rep e =
    let (src_index, a1, e1) = >>=-eq-ok (opened source_idx) _ e in
    let (src, a2, e2) = >>=-eq-ok (read_index src_index) _ e1 in
    let (dst_index, a3, e3) = >>=-eq-ok (opened sparse_idx) _ e2 in
    let (dst, a4, e4) = >>=-eq-ok (read_index dst_index) _ e3 in
    let (mask_bytes, a5, e5) = >>=-eq-ok (opened mask) _ e4 in
    let (disabled, a6, e6) = >>=-eq-ok (read_mask mask_bytes) _ e5 in
    let (_, a7, e7) =
      >>=-eq-ok
        (guard (src.n_layers == dst.n_layers && src.n_experts == dst.n_experts) shape_changed) _
        e6 in
    let (source, a8, e8) = >>=-eq-ok (opened source_bin) _ e7 in
    let (_, a9, e9) = >>=-eq-ok (guard (length source == src.data_bytes) size_mismatch) _ e8 in
    let (sparse, b1, f1) = >>=-eq-ok (opened sparse_bin) _ e9 in
    let (_, b2, f2) = >>=-eq-ok (guard (length sparse == dst.data_bytes) size_mismatch) _ f1 in
    let (_, b3, f3) = >>=-eq-ok (check_keys src dst disabled) _ f2 in
    let (v, b4, f4) =
      >>=-eq-ok
        (verify_records source sparse src.records dst.records (sorted (minus (ids src) disabled))
          nothing_verified)
        _ f3 in
    let (layers, experts) = and_parts (src.n_layers == dst.n_layers) _ (guard-ok _ _ a7) in
    let keys = check_keys_sound src dst disabled b3 in
    let pairs =
      verify_records_sound source sparse src.records dst.records _ nothing_verified v b4 in
    (
      src,
      dst,
      disabled,
      source,
      sparse,
      record {
        src_index = src_index;
        src_opened = opened-ok source_idx a1;
        src_read = a2;
        dst_index = dst_index;
        dst_opened = opened-ok sparse_idx a3;
        dst_read = a4;
        mask_bytes = mask_bytes;
        mask_opened = opened-ok mask a5;
        mask_read = a6;
        source_opened = opened-ok source_bin a8;
        sparse_opened = opened-ok sparse_bin b1;
      },
      record {
        same_layers = (==_iff _ _).0 layers;
        same_experts = (==_iff _ _).0 experts;
        same_keys = λ j. keys j ∙ has_key-minus j (ids src) disabled;
        same_records =
            λ j h. pairs.pairs j (has_key-sorted j (minus (ids src) disabled) ∙ sym (keys j) ∙ h);
      },
    )
