-- ===== src/ExpertStore/Checked.antt =====
-- What `compact_store` knows of its source before it writes.
use in_c_test.Prelude.{
  ◌+◌, ◌*◌, ◌≡◌, refl, ap, subst, Bool, true, false, ◌||◌, ◌&&◌, Option, none, some, [], ok, ◌==◌,
  ==_iff, guard, leb, list_eq, list_eq→≡, sym, ◌∙◌, take, arith, >>=-eq-ok, ok-injective, length,
}
use in_c_test.Struct.{Bytes}
use in_c_test.ExpertStore.{
  Header, Meta, read_index, read_records, unpack_header, ids, record_size, header_size, store_magic,
  store_version, page, dtype_q8_row, truncated_header, unsupported_index, incompatible_header,
  bad_index_size,
}
use in_c_test.ExpertStore.Mask.{read_mask}
use in_c_test.ExpertStore.Files.{opened}
use in_c_test.ExpertStore.Compact.{Source, check_source, minus, all_in_range, is_empty}
use in_c_test.ExpertStore.Index.{Readable}
use in_c_test.ExpertStore.Reader.{read_records-Readable}

pub guard-ok : {E : Type 0} (b : Bool) (e : E) {u : Unit {0}} → guard b e ≡ ok u → b ≡ true
guard-ok true e h = refl
guard-ok false e h = cc

and_left : (a b : Bool) → (a && b) ≡ true → a ≡ true
and_left true b h = refl
and_left false b h = cc

and_right : (a b : Bool) → (a && b) ≡ true → b ≡ true
and_right true b h = h
and_right false b h = cc

magic_lem : (raw : Bytes) → (unpack_header raw).magic ≡ take 8 raw
unfolding unpack_header
magic_lem raw = refl

pub opened-ok : (o : Option Bytes) {b : Bytes} → opened o ≡ ok b → o ≡ some b
opened-ok none h = cc
opened-ok (some b) h = ap some (ok-injective h)

-- The header of a store, whose sizes are those of `m`.
pub record HeaderOf (h : Header) (m : Meta) : Type 0 where
  pub constants : (h.version ≡ 1) × (h.align ≡ 4096) × (h.dtype ≡ 3) × (h.records_offset ≡ 48)
  pub sizes : (h.n_layers ≡ m.n_layers) × (h.n_experts ≡ m.n_experts)
  pub amounts : (h.n_records ≡ m.n_records) × (h.data_bytes ≡ m.data_bytes)

-- What the tests of the header leave: the magic bytes, the header, the size of the file, and its
-- records.
pub record Contents (raw : Bytes) (m : Meta) : Type 0 where
  pub magic : take 8 raw ≡ store_magic
  pub header : HeaderOf (unpack_header raw) m
  pub file_size : length raw ≡ 48 + 80 * m.n_records
  pub records_read : read_records m.n_layers m.n_experts raw m.n_records 48 [] ≡ ok m.records

pub read_index-Contents : (raw : Bytes) (m : Meta) → read_index raw ≡ ok m → Contents raw m
unfolding read_index
read_index-Contents raw m e =
    let h = unpack_header raw in
    let (_, _, e1) = >>=-eq-ok (guard (leb header_size (length raw)) truncated_header) _ e in
    let (_, known, e2) =
      >>=-eq-ok
        (guard (list_eq h.magic store_magic && h.version == store_version) unsupported_index) _
        e1 in
    let (_, shaped, e3) =
      >>=-eq-ok
        (guard (h.align == page && (h.dtype == dtype_q8_row && h.records_offset == header_size))
          incompatible_header)
        _ e2 in
    let (_, sized, e4) =
      >>=-eq-ok (guard (length raw == h.records_offset + h.n_records * record_size) bad_index_size)
        _ e3 in
    let (rs, e5, e6) =
      >>=-eq-ok (read_records h.n_layers h.n_experts raw h.n_records h.records_offset []) _ e4 in
    let shape = guard-ok _ _ shaped in
    let at = (==_iff _ _).0 (and_right _ _ (and_right _ _ shape)) in
    subst (Contents raw) (ok-injective e6) (record {
      magic =
          sym (magic_lem raw) ∙ list_eq→≡ h.magic store_magic (and_left _ _ (guard-ok _ _ known));
      header = record {
        constants = (
          (==_iff _ _).0 (and_right _ _ (guard-ok _ _ known)),
          (==_iff _ _).0 (and_left _ _ shape),
          (==_iff _ _).0 (and_left _ _ (and_right _ _ shape)),
          at,
        );
        sizes = (refl, refl);
        amounts = (refl, refl);
      };
      file_size = omega (arith, at, (==_iff _ _).0 (guard-ok _ _ sized));
      records_read =
          ap (λ o. read_records h.n_layers h.n_experts raw h.n_records o []) (sym at) ∙ e5;
    })

-- The records of an index that was read pass, one by one, the tests `check_record` makes of a
-- record, and there are as many as the header says.
pub read_index-Readable :
    (raw : Bytes) (m : Meta)
    → read_index raw ≡ ok m
    → Readable m.n_layers m.n_experts [] m.records × (length m.records ≡ m.n_records)
read_index-Readable raw m e =
    read_records-Readable m.n_layers m.n_experts raw m.n_records 48 [] m.records
      (read_index-Contents raw m e).records_read

-- The parts of the source that passed.
pub record Parts (src_idx mask src_bin : Option Bytes) (allow : Bool) (s : Source) : Type 0 where
  pub index : Bytes
  pub index_file : src_idx ≡ some index
  pub index_read : read_index index ≡ ok s.meta
  pub mask_bytes : Bytes
  pub mask_file : mask ≡ some mask_bytes
  pub mask_read : read_mask mask_bytes ≡ ok s.disabled
  pub in_range : all_in_range s.meta s.disabled ≡ true
  pub missing : s.missing ≡ minus s.disabled (ids s.meta)
  pub none_missing : (is_empty (minus s.disabled (ids s.meta)) || allow) ≡ true
  pub data_file : src_bin ≡ some s.bytes
  pub size : s.meta.data_bytes ≡ length s.bytes

pub check_source-Parts :
    (src_idx mask src_bin : Option Bytes) (allow : Bool) (s : Source)
    → check_source src_idx mask src_bin allow ≡ ok s
    → Parts src_idx mask src_bin allow s
unfolding check_source
check_source-Parts src_idx mask src_bin allow s e =
    let (index, a1, e1) = >>=-eq-ok (opened src_idx) _ e in
    let (meta, a2, e2) = >>=-eq-ok (read_index index) _ e1 in
    let (mask_bytes, a3, e3) = >>=-eq-ok (opened mask) _ e2 in
    let (disabled, a4, e4) = >>=-eq-ok (read_mask mask_bytes) _ e3 in
    let (_, a5, e5) = >>=-eq-ok (guard (all_in_range meta disabled) _) _ e4 in
    let (_, a6, e6) = >>=-eq-ok (guard (is_empty (minus disabled (ids meta)) || allow) _) _ e5 in
    let (bytes, a7, e7) = >>=-eq-ok (opened src_bin) _ e6 in
    let (_, a8, e8) = >>=-eq-ok (guard (meta.data_bytes == length bytes) _) _ e7 in
    subst (Parts src_idx mask src_bin allow) (ok-injective e8) (record {
      index = index;
      index_file = opened-ok src_idx a1;
      index_read = a2;
      mask_bytes = mask_bytes;
      mask_file = opened-ok mask a3;
      mask_read = a4;
      in_range = guard-ok _ _ a5;
      missing = refl;
      none_missing = guard-ok _ _ a6;
      data_file = opened-ok src_bin a7;
      size = (==_iff _ _).0 (guard-ok _ _ a8);
    })
