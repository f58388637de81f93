-- ===== src/ExpertStore.antt =====
-- The Q8 expert store, tools/compact_expert_store.py: the index file (a header and one record for
-- each routed expert), its strict reader, and the bytes that its writer emits.
pub mod Index
pub mod RoundTrip
pub mod Mask
pub mod MaskRoundTrip
pub mod KeySets
pub mod Sidecar
pub mod Files
pub mod Compact
pub mod Copy
pub mod Compacted
pub mod Reader
pub mod Outcome
pub mod MaskReader
pub mod Checked
pub mod Strict
pub mod Compaction
pub mod Verify
pub mod Chunks
pub mod Lookup
pub mod Verified
pub mod Verification
pub mod EndToEnd
mod Tests
use in_c_test.Prelude.{
  ℕ, zero, suc, ◌+◌, ◌-◌, ◌*◌, ◌/◌, ◌%◌, Bool, true, false, ◌&&◌, ◌||◌, not, List, [], ◌∷◌, ◌++◌,
  map, Result, ok, err, ◌>>=◌, ◌>>◌, guard, ltb, leb, ◌==◌, list_eq, if◌then◌else◌, length, take,
  drop, get_or, replicate,
}
use in_c_test.Struct.{Bytes, StructError, pack, unpack}

abbrev pub page : ℕ
page = 4096

-- b"KVLXPRT1"
abbrev pub store_magic : Bytes
store_magic = b'K' ∷ b'V' ∷ b'L' ∷ b'X' ∷ b'P' ∷ b'R' ∷ b'T' ∷ b'1' ∷ []

abbrev pub store_version : ℕ
store_version = 1

abbrev pub dtype_q8_row : ℕ
dtype_q8_row = 3

abbrev pub chunk : ℕ
chunk = 1024 * 1024

-- `HDR` behind the magic, `REC`, and their sizes in bytes.
abbrev pub header_widths : List ℕ
header_widths = 4 ∷ 4 ∷ 4 ∷ 4 ∷ 4 ∷ 4 ∷ 8 ∷ 8 ∷ []

abbrev pub record_widths : List ℕ
record_widths = 4 ∷ 4 ∷ 8 ∷ 8 ∷ 8 ∷ 8 ∷ 8 ∷ 8 ∷ 8 ∷ 8 ∷ 8 ∷ []

abbrev pub header_size : ℕ
header_size = 48

abbrev pub record_size : ℕ
record_size = 80

unfoldable pub align_up : ℕ → ℕ
align_up x = (x + page - 1) / page * page

-- What the store tools raise: ValueError, struct.error, IOError, FileNotFoundError.
pub data StoreError : Type 0 where
  truncated_header unsupported_index incompatible_header bad_index_size : StoreError
  id_out_of_range duplicate_record read_bytes_not_aligned file_offset_not_aligned : StoreError
  mask_not_a_pair mask_not_an_integer mask_negative mask_duplicate mask_empty : StoreError
  overwrites_source mask_out_of_range mask_missing_from_source size_mismatch : StoreError
  file_not_found short_read field_out_of_range not_utf8 : StoreError
  shape_changed ids_mismatch record_count_mismatch metadata_mismatch payload_mismatch
        digest_mismatch :
      StoreError

pub record Header : Type 0 where
  pub magic : Bytes
  pub version : ℕ
  pub align : ℕ
  pub n_layers : ℕ
  pub n_experts : ℕ
  pub n_records : ℕ
  pub dtype : ℕ
  pub records_offset : ℕ
  pub data_bytes : ℕ

pub record ExpertRecord : Type 0 where
  pub layer : ℕ
  pub expert : ℕ
  pub file_offset : ℕ
  pub read_bytes : ℕ
  pub payload_bytes : ℕ
  pub gate_off : ℕ
  pub gate_bytes : ℕ
  pub up_off : ℕ
  pub up_bytes : ℕ
  pub down_off : ℕ
  pub down_bytes : ℕ

-- A routed expert: its layer and its number in the layer.
abbrev pub Key : Type 0
Key = ℕ × ℕ

abbrev pub key : ExpertRecord → Key
key r = (r.layer, r.expert)

abbrev pub key_eq : Key → Key → Bool
key_eq (l, e) (l', e') = if l == l' then e == e' else false

-- `k in keys`
unfoldable pub has_key : Key → List Key → Bool
has_key k [] = false
has_key k (j ∷ js) = let rest = has_key k js in if key_eq k j then true else rest

abbrev pub checked {ℓ} : {A : Type ℓ} → Result StructError A → Result StoreError A
checked (ok a) = ok a
checked (err e) = err field_out_of_range

abbrev pub header_fields : Header → List ℕ
header_fields h =
    h.version ∷ h.align ∷ h.n_layers ∷ h.n_experts ∷ h.n_records ∷ h.dtype ∷ h.records_offset
    ∷ h.data_bytes ∷ []

abbrev pub record_fields : ExpertRecord → List ℕ
record_fields r =
    r.layer ∷ r.expert ∷ r.file_offset ∷ r.read_bytes ∷ r.payload_bytes ∷ r.gate_off ∷ r.gate_bytes
    ∷ r.up_off ∷ r.up_bytes ∷ r.down_off ∷ r.down_bytes ∷ []

-- `HDR.pack`: the format "8s" cuts the magic or fills it up with zeros.
unfoldable pub pack_header : Header → Result StoreError Bytes
pack_header h = do
  fields ← checked (pack header_widths (header_fields h))
  ok (take 8 (h.magic ++ replicate 8 0) ++ fields)

unfoldable pub pack_record : ExpertRecord → Result StoreError Bytes
pack_record r = checked (pack record_widths (record_fields r))

abbrev header_of : Bytes → List ℕ → Header
header_of magic v = record {
  magic = magic;
  version = get_or v 0 0;
  align = get_or v 1 0;
  n_layers = get_or v 2 0;
  n_experts = get_or v 3 0;
  n_records = get_or v 4 0;
  dtype = get_or v 5 0;
  records_offset = get_or v 6 0;
  data_bytes = get_or v 7 0;
}

abbrev record_of : List ℕ → ExpertRecord
record_of v = record {
  layer = get_or v 0 0;
  expert = get_or v 1 0;
  file_offset = get_or v 2 0;
  read_bytes = get_or v 3 0;
  payload_bytes = get_or v 4 0;
  gate_off = get_or v 5 0;
  gate_bytes = get_or v 6 0;
  up_off = get_or v 7 0;
  up_bytes = get_or v 8 0;
  down_off = get_or v 9 0;
  down_bytes = get_or v 10 0;
}

-- `HDR.unpack_from(raw, 0)` and `REC.unpack_from(raw, pos)`, behind the tests of `len(raw)`.
unfoldable pub unpack_header : Bytes → Header
unpack_header raw = header_of (take 8 raw) (unpack header_widths (drop 8 raw))

unfoldable pub unpack_record : Bytes → ℕ → ExpertRecord
unpack_record raw pos = record_of (unpack record_widths (drop pos raw))

-- The dictionary that `read_index` returns. Its set "ids" is the keys of the records.
pub record Meta : Type 0 where
  pub n_layers : ℕ
  pub n_experts : ℕ
  pub n_records : ℕ
  pub data_bytes : ℕ
  pub records : List ExpertRecord

abbrev pub ids : Meta → List Key
ids m = map key m.records

-- The tests on one record, in the order of the code.
unfoldable pub check_record : ℕ → ℕ → List Key → ExpertRecord → Result StoreError (Unit {0})
check_record n_layers n_experts seen r = do
  guard (ltb r.layer n_layers && ltb r.expert n_experts) id_out_of_range
  guard (not (has_key (key r) seen)) duplicate_record
  guard (ltb 0 r.read_bytes && r.read_bytes % page == 0) read_bytes_not_aligned
  guard (r.file_offset % page == 0) file_offset_not_aligned

-- `for i in range(n_records)`, from the byte `pos` on.
unfoldable pub read_records :
    ℕ → ℕ → Bytes → (n pos : ℕ) → List Key → Result StoreError (List ExpertRecord)
read_records n_layers n_experts raw zero pos seen = ok []
read_records n_layers n_experts raw (suc n) pos seen = do
  let r = unpack_record raw pos
  check_record n_layers n_experts seen r
  rest ← read_records n_layers n_experts raw n (pos + record_size) (seen ++ key r ∷ [])
  ok (r ∷ rest)

unfoldable pub read_index : Bytes → Result StoreError Meta
read_index raw = do
  guard (leb header_size (length raw)) truncated_header
  let h = unpack_header raw
  guard (list_eq h.magic store_magic && h.version == store_version) unsupported_index
  guard (h.align == page && (h.dtype == dtype_q8_row && h.records_offset == header_size))
      incompatible_header
  guard (length raw == h.records_offset + h.n_records * record_size) bad_index_size
  records ← read_records h.n_layers h.n_experts raw h.n_records h.records_offset []
  ok (record {
    n_layers = h.n_layers;
    n_experts = h.n_experts;
    n_records = h.n_records;
    data_bytes = h.data_bytes;
    records = records;
  })

-- `for r in kept_records: f.write(REC.pack(*r))` behind what is written already. Before an error
-- some records have been written.
unfoldable pub write_records : Bytes → List ExpertRecord → Result StoreError (Unit {0}) × Bytes
write_records out [] = (ok tt, out)
write_records out (r ∷ rs) = elim (pack_record r) [
  | ok b ↦ write_records (out ++ b) rs
  | err e ↦ (err e, out)
]

-- `f.write(HDR.pack(*header))` and the records, into a new file.
unfoldable pub write_index : Header → List ExpertRecord → Result StoreError (Unit {0}) × Bytes
write_index h rs = elim (pack_header h) [ ok b ↦ write_records b rs | err e ↦ (err e, []) ]
