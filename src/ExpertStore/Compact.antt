-- ===== src/ExpertStore/Compact.antt =====
-- `copy_exact` and `compact_store` of tools/compact_expert_store.py. A file that is being written is
-- the bytes written so far; they stay in the file when an exception ends the writing.
use in_c_test.Prelude.{
  ℕ, zero, suc, ◌+◌, ◌-◌, Bool, true, false, ◌&&◌, ◌||◌, Option, List, [], ◌∷◌, ◌++◌, min, Result,
  ok, err, ◌>>=◌, ◌>>◌, guard, ltb, ◌==◌, if◌then◌else◌, length, take, drop, replicate,
}
use in_c_test.Prelude.Int.{ℤ, sub_ℕ}
use in_c_test.Struct.{Bytes}
use in_c_test.ExpertStore.{
  Header, ExpertRecord, Meta, Key, StoreError, key, ids, has_key, align_up, chunk, page,
  store_magic, store_version, dtype_q8_row, header_size, short_read, overwrites_source,
  mask_out_of_range, mask_missing_from_source, size_mismatch, read_index, write_index,
}
use in_c_test.ExpertStore.Mask.{read_mask, mask_text}
use in_c_test.ExpertStore.Files.{FilePath, Files, put, opened, mask_sidecar_path}

abbrev pub Writing : Type 0
Writing = Result StoreError (Unit {0}) × Bytes

-- The `while remain` loop of `copy_exact`, from the byte `pos` of the source on. Each round reads
-- a byte or more, so `remain` rounds are enough.
unfoldable pub copy_chunks : (fuel : ℕ) → Bytes → (pos remain : ℕ) → Bytes → Writing
copy_chunks zero src pos remain out = (if remain == 0 then ok tt else err short_read, out)
copy_chunks (suc fuel) src pos remain out = elim (remain == 0) [
  | true ↦ (ok tt, out)
  | false ↦
      let block = take (min chunk remain) (drop pos src) in
      elim block [
        | [] ↦ (err short_read, out)
        | b ∷ bs ↦
            copy_chunks fuel src (pos + length (b ∷ bs)) (remain - length (b ∷ bs))
              (out ++ (b ∷ bs))
      ]
]

unfoldable pub copy_exact : Bytes → Bytes → (offset n : ℕ) → Writing
unfolding copy_chunks
copy_exact src dst offset n = copy_chunks n src offset n dst

-- The variables of the loop over the records.
pub record Writer : Type 0 where
  pub out : Bytes
  pub kept : List ExpertRecord
  pub removed_records : ℕ
  pub removed_read_bytes : ℕ

abbrev pub moved : ExpertRecord → ℕ → ExpertRecord
moved r start = record r { file_offset = start }

-- Zeros up to the next page.
unfoldable pub pad : Bytes → Bytes
unfolding align_up
pad out = out ++ replicate (align_up (length out) - length out) 0

abbrev pub copied : Writer → ExpertRecord → Writing → Result StoreError (Unit {0}) × Writer
copied w r (ok _, out) =
    (ok tt, record w { out = out; kept = w.kept ++ moved r (align_up (length w.out)) ∷ [] })
copied w r (err e, out) = (err e, record w { out = out })

-- One round: a disabled record is counted, any other is copied.
unfoldable pub compact_record :
    Bytes → List Key → Writer → ExpertRecord → Result StoreError (Unit {0}) × Writer
unfolding has_key pad copy_exact
compact_record src disabled w r =
    if has_key (key r) disabled
    then (
      ok tt,
      record w {
        removed_records = w.removed_records + 1;
        removed_read_bytes = w.removed_read_bytes + r.read_bytes;
      },
    )
    else copied w r (copy_exact src (pad w.out) r.file_offset r.read_bytes)

-- The next round, unless this one raised.
abbrev pub go_on :
    Result StoreError (Unit {0}) × Writer
    → (Writer → Result StoreError (Unit {0}) × Writer)
    → Result StoreError (Unit {0}) × Writer
go_on (ok _, w) f = f w
go_on (err e, w) f = (err e, w)

unfoldable pub compact_records :
    Bytes → List Key → Writer → List ExpertRecord → Result StoreError (Unit {0}) × Writer
compact_records src disabled w [] = (ok tt, w)
compact_records src disabled w (r ∷ rs) =
    go_on (compact_record src disabled w r) (λ w'. compact_records src disabled w' rs)

-- The report, but for its quotient of the sizes.
pub record Report : Type 0 where
  pub source_records : ℕ
  pub output_records : ℕ
  pub disabled_mask_entries : ℕ
  pub disabled_missing_from_source : ℕ
  pub removed_records : ℕ
  pub source_bytes : ℕ
  pub output_bytes : ℕ
  pub removed_read_bytes : ℕ
  pub byte_reduction : ℤ
  pub n_layers : ℕ
  pub n_experts : ℕ
  pub mask_sidecar : FilePath

-- What the tool has read and checked before it writes.
pub record Source : Type 0 where
  pub meta : Meta
  pub disabled : List Key
  pub missing : List Key
  pub bytes : Bytes

-- `disabled - ids`
unfoldable pub minus : List Key → List Key → List Key
unfolding has_key
minus [] ks = []
minus (j ∷ js) ks = let rest = minus js ks in if has_key j ks then rest else j ∷ rest

-- No pair of the mask is out of the range of the store.
unfoldable pub all_in_range : Meta → List Key → Bool
all_in_range m [] = true
all_in_range m ((l, e) ∷ ks) =
    let rest = all_in_range m ks in if ltb l m.n_layers && ltb e m.n_experts then rest else false

abbrev pub is_empty : List Key → Bool
is_empty [] = true
is_empty (k ∷ ks) = false

unfoldable pub check_source :
    Option Bytes → Option Bytes → Option Bytes → Bool → Result StoreError Source
check_source src_idx mask src_bin allow_missing_disabled = do
  index ← opened src_idx
  meta ← read_index index
  mask_bytes ← opened mask
  disabled ← read_mask mask_bytes
  guard (all_in_range meta disabled) mask_out_of_range
  let missing = minus disabled (ids meta)
  guard (is_empty missing || allow_missing_disabled) mask_missing_from_source
  bytes ← opened src_bin
  guard (meta.data_bytes == length bytes) size_mismatch
  ok (record { meta = meta; disabled = disabled; missing = missing; bytes = bytes })

abbrev pub fresh_writer : Writer
fresh_writer = record { out = []; kept = []; removed_records = 0; removed_read_bytes = 0 }

abbrev pub output_header : Source → Writer → Header
output_header s w = record {
  magic = store_magic;
  version = store_version;
  align = page;
  n_layers = s.meta.n_layers;
  n_experts = s.meta.n_experts;
  n_records = length w.kept;
  dtype = dtype_q8_row;
  records_offset = header_size;
  data_bytes = length w.out;
}

abbrev pub report : Source → Writer → FilePath → Report
report s w sidecar = record {
  source_records = s.meta.n_records;
  output_records = length w.kept;
  disabled_mask_entries = length s.disabled;
  disabled_missing_from_source = length s.missing;
  removed_records = w.removed_records;
  source_bytes = length s.bytes;
  output_bytes = length w.out;
  removed_read_bytes = w.removed_read_bytes;
  byte_reduction = sub_ℕ (length s.bytes) (length w.out);
  n_layers = s.meta.n_layers;
  n_experts = s.meta.n_experts;
  mask_sidecar = sidecar;
}

-- The arguments of the command line.
pub record Paths : Type 0 where
  pub src_bin : FilePath
  pub src_idx : FilePath
  pub mask : FilePath
  pub dst_bin : FilePath
  pub dst_idx : FilePath

module _ (resolve : FilePath → ℕ) (p : Paths) where
  -- The index and the sidecar, once the data file is written.
  abbrev pub emit_index : Source → Writer → Files → Writing → Result StoreError Report × Files
  emit_index s w fs (ok _, index) =
      let sidecar = mask_sidecar_path p.dst_idx in
      (
        ok (report s w sidecar),
        put (put fs (resolve p.dst_idx) index) (resolve sidecar) (mask_text s.disabled),
      )
  emit_index s w fs (err e, index) = (err e, put fs (resolve p.dst_idx) index)

  abbrev pub emit :
      Files → Source → Result StoreError (Unit {0}) × Writer → Result StoreError Report × Files
  emit fs s (err e, w) = (err e, put fs (resolve p.dst_bin) w.out)
  emit fs s (ok _, w) =
      emit_index s w (put fs (resolve p.dst_bin) w.out) (write_index (output_header s w) w.kept)

  abbrev pub compact_checked : Files → Result StoreError Source → Result StoreError Report × Files
  compact_checked fs (err e) = (err e, fs)
  compact_checked fs (ok s) =
      emit fs s (compact_records s.bytes s.disabled fresh_writer s.meta.records)

  unfoldable pub compact_store : Bool → Files → Result StoreError Report × Files
  unfolding check_source read_index read_mask minus all_in_range compact_records compact_record
      write_index mask_text mask_sidecar_path
  compact_store allow_missing_disabled fs =
      if resolve p.dst_bin == resolve p.src_bin || resolve p.dst_idx == resolve p.src_idx
      then (err overwrites_source, fs)
      else compact_checked fs (
          check_source (fs (resolve p.src_idx)) (fs (resolve p.mask)) (fs (resolve p.src_bin))
            allow_missing_disabled)
