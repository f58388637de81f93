-- ===== src/ExpertStore/Verify.antt =====
-- tools/verify_compact_expert_store.py: a sparse store against its source, record by record and byte
-- by byte. The digest is a parameter: a function of the bytes that it was fed.
use in_c_test.Prelude.{
  ℕ, zero, suc, ◌+◌, ◌-◌, Bool, true, false, ◌&&◌, Option, none, some, List, [], ◌∷◌, ◌++◌, min,
  Result, ok, err, ◌>>=◌, ◌>>◌, guard, ◌==◌, list_eq, if◌then◌else◌, length, take, drop,
}
use in_c_test.Prelude.Int.{ℤ, sub_ℕ}
use in_c_test.Struct.{Bytes}
use in_c_test.Text.Print.{show}
use in_c_test.ExpertStore.{
  ExpertRecord, Meta, Key, StoreError, key, key_eq, ids, has_key, chunk, read_index, shape_changed,
  size_mismatch, mask_missing_from_source, ids_mismatch, record_count_mismatch, metadata_mismatch,
  payload_mismatch, digest_mismatch, short_read,
}
use in_c_test.ExpertStore.Mask.{read_mask, sorted}
use in_c_test.ExpertStore.Files.{FilePath, Files, opened}
use in_c_test.ExpertStore.Compact.{minus, is_empty}

abbrev pub later : Option ExpertRecord → Option ExpertRecord → Option ExpertRecord
later (some r) o = some r
later none o = o

-- `_records_by_id(meta)[key]`: of two records with one key the later is kept.
unfoldable pub find_record : Key → List ExpertRecord → Option ExpertRecord
find_record k [] = none
find_record k (r ∷ rs) = later (find_record k rs) (if key_eq k (key r) then some r else none)

unfoldable pub all_among : List Key → List Key → Bool
unfolding has_key
all_among [] ks = true
all_among (j ∷ js) ks = let rest = all_among js ks in if has_key j ks then rest else false

-- Equality of sets.
abbrev pub same_keys : List Key → List Key → Bool
same_keys xs ys = all_among xs ys && all_among ys xs

-- A record without its field 2, `file_offset`.
abbrev pub other_fields : ExpertRecord → List ℕ
other_fields r =
    r.layer ∷ r.expert ∷ r.read_bytes ∷ r.payload_bytes ∷ r.gate_off ∷ r.gate_bytes ∷ r.up_off
    ∷ r.up_bytes ∷ r.down_off ∷ r.down_bytes ∷ []

-- What the two digests were fed, and `bytes_verified`.
pub record Progress : Type 0 where
  pub src_fed : Bytes
  pub dst_fed : Bytes
  pub bytes_verified : ℕ

abbrev pub fed : Progress → Bytes → Bytes → Progress
fed v a b = record {
  src_fed = v.src_fed ++ a;
  dst_fed = v.dst_fed ++ b;
  bytes_verified = v.bytes_verified + length a;
}

-- The `while remain` loop: the next `min(CHUNK, remain)` bytes of both files. Each round reads a
-- byte or more, so `remain` rounds are enough.
unfoldable pub verify_chunks :
    (fuel : ℕ) → Bytes → ℕ → Bytes → ℕ → (remain : ℕ) → Progress → Result StoreError Progress
verify_chunks zero src i dst j remain v = if remain == 0 then ok v else err short_read
verify_chunks (suc fuel) src i dst j remain v = elim (remain == 0) [
  | true ↦ ok v
  | false ↦
      let n = min chunk remain in
      let a = take n (drop i src) in
      let b = take n (drop j dst) in
      do
        guard (length a == n && length b == n) short_read
        guard (list_eq a b) payload_mismatch
        verify_chunks fuel src (i + n) dst (j + n) (remain - n) (fed v a b)
]

-- `f"{layer}:{expert}:{n}\n"`
abbrev pub key_tag : ExpertRecord → Bytes
key_tag r = show r.layer ++ (b':' ∷ (show r.expert ++ (b':' ∷ (show r.read_bytes ++ (10 ∷ [])))))

abbrev pub tagged : Progress → Bytes → Progress
tagged v t = record v { src_fed = v.src_fed ++ t; dst_fed = v.dst_fed ++ t }

unfoldable pub verify_record :
    Bytes → Bytes → ExpertRecord → ExpertRecord → Progress → Result StoreError Progress
unfolding verify_chunks
verify_record src dst sr dr v = do
  guard (list_eq (other_fields sr) (other_fields dr)) metadata_mismatch
  verify_chunks sr.read_bytes src sr.file_offset dst dr.file_offset sr.read_bytes
      (tagged v (key_tag sr))

-- The keys are those of both stores, so the look-ups find a record.
abbrev pub found_both :
    Bytes
    → Bytes
    → Option ExpertRecord
    → Option ExpertRecord
    → Progress
    → Result StoreError Progress
found_both src dst (some sr) (some dr) v = verify_record src dst sr dr v
found_both src dst (some sr) none v = err ids_mismatch
found_both src dst none d v = err ids_mismatch

-- `for key in sorted(expected_ids)`
unfoldable pub verify_records :
    Bytes
    → Bytes
    → List ExpertRecord
    → List ExpertRecord
    → List Key
    → Progress
    → Result StoreError Progress
unfolding find_record
verify_records src dst srs drs [] v = ok v
verify_records src dst srs drs (k ∷ ks) v = do
  v' ← found_both src dst (find_record k srs) (find_record k drs) v
  verify_records src dst srs drs ks v'

abbrev pub nothing_verified : Progress
nothing_verified = record { src_fed = []; dst_fed = []; bytes_verified = 0 }

-- The tests of the keys of the two stores, before any data is read.
unfoldable pub check_keys : Meta → Meta → List Key → Result StoreError (Unit {0})
unfolding minus all_among
check_keys src dst disabled = do
  guard (is_empty (minus disabled (ids src))) mask_missing_from_source
  guard (same_keys (ids dst) (minus (ids src) disabled)) ids_mismatch
  guard (dst.n_records == length (minus (ids src) disabled)) record_count_mismatch

-- The report, but for its quotient of the sizes.
pub record VerifyReport : Type 0 where
  pub source_records : ℕ
  pub sparse_records : ℕ
  pub disabled_records : ℕ
  pub records_verified : ℕ
  pub bytes_verified : ℕ
  pub source_bytes : ℕ
  pub sparse_bytes : ℕ
  pub byte_reduction : ℤ
  pub kept_records_sha256 : Bytes
  pub n_layers : ℕ
  pub n_experts : ℕ

module _ (sha256 : Bytes → Bytes) where
  abbrev pub verify_report : Meta → Meta → List Key → Bytes → Bytes → Progress → VerifyReport
  verify_report src dst disabled source sparse v = record {
    source_records = src.n_records;
    sparse_records = dst.n_records;
    disabled_records = length disabled;
    records_verified = length (minus (ids src) disabled);
    bytes_verified = v.bytes_verified;
    source_bytes = length source;
    sparse_bytes = length sparse;
    byte_reduction = sub_ℕ (length source) (length sparse);
    kept_records_sha256 = sha256 v.src_fed;
    n_layers = src.n_layers;
    n_experts = src.n_experts;
  }

  -- `verify_compaction` on the contents of its five files
  unfoldable pub verify_files :
      (source_bin source_idx sparse_bin sparse_idx mask : Option Bytes)
      → Result StoreError VerifyReport
  verify_files source_bin source_idx sparse_bin sparse_idx mask = do
    src_index ← opened source_idx
    src ← read_index src_index
    dst_index ← opened sparse_idx
    dst ← read_index dst_index
    mask_bytes ← opened mask
    disabled ← read_mask mask_bytes
    guard (src.n_layers == dst.n_layers && src.n_experts == dst.n_experts) shape_changed
    source ← opened source_bin
    guard (length source == src.data_bytes) size_mismatch
    sparse ← opened sparse_bin
    guard (length sparse == dst.data_bytes) size_mismatch
    check_keys src dst disabled
    let expected = minus (ids src) disabled
    v ← verify_records source sparse src.records dst.records (sorted expected) nothing_verified
    guard (list_eq (sha256 v.src_fed) (sha256 v.dst_fed)) digest_mismatch
    ok (verify_report src dst disabled source sparse v)

  unfoldable pub verify_compaction :
      (FilePath → ℕ)
      → Files
      → (source_bin source_idx sparse_bin sparse_idx mask : FilePath)
      → Result StoreError VerifyReport
  unfolding verify_files read_index read_mask check_keys verify_records verify_record sorted show
  verify_compaction resolve fs source_bin source_idx sparse_bin sparse_idx mask =
      verify_files (fs (resolve source_bin)) (fs (resolve source_idx)) (fs (resolve sparse_bin))
        (fs (resolve sparse_idx)) (fs (resolve mask))
