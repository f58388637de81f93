-- ===== src/Merge.antt =====
-- The merging of experts, tools/merge_expert_store.py: a store in which the experts that a manifest
-- maps to one prototype share its payload. The two files read and the two written are different
-- files.
pub mod Manifest
pub mod Placed
pub mod Shared
pub mod Index
pub mod Whole
mod Tests
use in_c_test.Prelude.{
  ℕ, zero, suc, ◌+◌, ◌-◌, ◌*◌, ◌%◌, Bool, true, false, ◌&&◌, not, Option, none, some, List, [], ◌∷◌,
  ◌++◌, map, Result, ok, err, ◌>>=◌, ◌>>◌, guard, leb, ◌==◌, list_eq, if◌then◌else◌, length, take,
  drop, replicate,
}
use in_c_test.Prelude.Int.{ℤ, pos, negsuc}
use in_c_test.Struct.{Bytes}
use in_c_test.Json.{Json}
use in_c_test.ExpertStore.{
  Header, ExpertRecord, Key, StoreError, key, key_eq, has_key, page, store_magic, store_version,
  header_size, record_size, unpack_header, unpack_record, write_index,
}
use in_c_test.ExpertStore.Mask.{sorted}
use in_c_test.ExpertStore.Verify.{find_record}
use in_c_test.Merge.Manifest.{LayerMap, prototype, load_mapping}

-- What the tool raises. `key_error` is that of a missing key of a dictionary.
pub data MergeError : Type 0 where
  short_header bad_header truncated_records bin_too_short unsupported_manifest : MergeError
  duplicate_records prototype_not_present not_aligned short_payload key_error : MergeError
  field_out_of_range : MergeError

-- The records from the byte `offset` on.
unfoldable pub records_at : Bytes → (n offset : ℕ) → List ExpertRecord
unfolding unpack_record
records_at raw zero offset = []
records_at raw (suc n) offset = unpack_record raw offset ∷ records_at raw n (offset + record_size)

unfoldable pub read_index : Bytes → Result MergeError (Header × List ExpertRecord)
unfolding unpack_header records_at list_eq
read_index raw = do
  guard (leb header_size (length raw)) short_header
  let h = unpack_header raw
  guard (list_eq h.magic store_magic && (h.version == store_version && h.align == page)) bad_header
  guard (leb (h.records_offset + h.n_records * record_size) (length raw)) truncated_records
  ok (h, records_at raw h.n_records h.records_offset)

-- `len({...}) == len(recs)`
unfoldable pub all_different : List Key → Bool
unfolding has_key
all_different [] = true
all_different (k ∷ ks) = let rest = all_different ks in if has_key k ks then false else rest

abbrev pub present : List ExpertRecord → ℕ → ℤ → Result MergeError Key
present recs layer (pos p) =
    if has_key (layer, p) (map key recs) then ok (layer, p) else err prototype_not_present
present recs layer (negsuc p) = err prototype_not_present

-- `prototype_for`: each record with the key of its prototype, among the records of `all`.
unfoldable pub prototypes_for :
    LayerMap → List ExpertRecord → List ExpertRecord → Result MergeError (List (ExpertRecord × Key))
unfolding prototype has_key
prototypes_for m all [] = ok []
prototypes_for m all (r ∷ rs) = do
  k ← present all r.layer (prototype m r.layer r.expert)
  rest ← prototypes_for m all rs
  ok ((r, k) ∷ rest)

-- A set of keys as a list.
unfoldable pub once : List Key → List Key
unfolding has_key
once [] = []
once (k ∷ ks) = let rest = once ks in if has_key k rest then rest else k ∷ rest

abbrev pub proto_of : ExpertRecord × Key → Key
proto_of (r, k) = k

unfoldable pub referenced : List (ExpertRecord × Key) → List Key
unfolding once sorted
referenced rks = sorted (once (map proto_of rks))

unfoldable pub align_file : Bytes → Bytes
align_file out = out ++ replicate ((page - length out % page) % page) 0

-- The file of the payloads, and `new_location`.
pub record Output : Type 0 where
  pub out : Bytes
  pub places : List (Key × ℕ)

abbrev pub blob_of : Bytes → ExpertRecord → Bytes
blob_of src r = take r.read_bytes (drop r.file_offset src)

-- The payload of one prototype.
unfoldable pub copy_payload :
    Bytes → Key → Option ExpertRecord → Output → Result MergeError (Unit {0}) × Output
unfolding align_file
copy_payload src k none o = (err key_error, o)
copy_payload src k (some r) o =
    let out = align_file o.out in
    if r.file_offset % page == 0 && r.read_bytes % page == 0
    then (if length (blob_of src r) == r.read_bytes
        then (
          ok tt,
          record { out = out ++ blob_of src r; places = o.places ++ (k, length out) ∷ [] },
        )
        else (err short_payload, record o { out = out }))
    else (err not_aligned, o)

-- The next payload, unless this one raised.
abbrev pub next_payload :
    Result MergeError (Unit {0}) × Output
    → (Output → Result MergeError (Unit {0}) × Output)
    → Result MergeError (Unit {0}) × Output
next_payload (ok u, o) f = f o
next_payload (err e, o) f = (err e, o)

unfoldable pub copy_payloads :
    Bytes → List ExpertRecord → List Key → Output → Result MergeError (Unit {0}) × Output
unfolding copy_payload find_record
copy_payloads src recs [] o = (ok tt, o)
copy_payloads src recs (k ∷ ks) o =
    next_payload (copy_payload src k (find_record k recs) o) (copy_payloads src recs ks)

-- `new_location[key]`
unfoldable pub find_place : Key → List (Key × ℕ) → Option ℕ
find_place k [] = none
find_place k ((j, n) ∷ ps) = let rest = find_place k ps in if key_eq k j then some n else rest

abbrev pub shared : ExpertRecord → Option ℕ → Option ExpertRecord → Result MergeError ExpertRecord
shared r (some n) (some pr) = ok (record pr { layer = r.layer; expert = r.expert; file_offset = n })
shared r none pr = err key_error
shared r (some n) none = err key_error

unfoldable pub out_records :
    List ExpertRecord
    → List (Key × ℕ)
    → List (ExpertRecord × Key)
    → Result MergeError (List ExpertRecord)
unfolding find_place find_record
out_records recs places [] = ok []
out_records recs places ((r, k) ∷ rks) = do
  r' ← shared r (find_place k places) (find_record k recs)
  rest ← out_records recs places rks
  ok (r' ∷ rest)

-- What the tool prints, but for the quotient and the counts of the layers.
pub record Summary : Type 0 where
  pub logical_records : ℕ
  pub unique_payloads : ℕ
  pub bytes : ℕ
  pub source_bytes : ℕ

-- The two files that are written, `none` before they are opened.
pub record OutFiles : Type 0 where
  pub out_bin : Option Bytes
  pub out_idx : Option Bytes

abbrev pub untouched : OutFiles
untouched = record { out_bin = none; out_idx = none }

-- What is read and checked before anything is written.
pub record Plan : Type 0 where
  pub header : Header
  pub recs : List ExpertRecord
  pub prototype_for : List (ExpertRecord × Key)

abbrev pub loaded : Option LayerMap → Result MergeError LayerMap
loaded none = err unsupported_manifest
loaded (some m) = ok m

abbrev pub mapping_of : Option Json → Result MergeError LayerMap
mapping_of none = err unsupported_manifest
mapping_of (some v) = loaded (load_mapping v)

unfoldable pub plan_merge : Bytes → Bytes → Option Json → Result MergeError Plan
unfolding read_index all_different prototypes_for load_mapping
plan_merge src_bin src_idx manifest = do
  p ← read_index src_idx
  guard (leb p.0.data_bytes (length src_bin)) bin_too_short
  m ← mapping_of manifest
  guard (all_different (map key p.1)) duplicate_records
  rks ← prototypes_for m p.1 p.1
  ok (record { header = p.0; recs = p.1; prototype_for = rks })

abbrev pub out_header : Header → Bytes → Header
out_header h out = record h { records_offset = header_size; data_bytes = length out }

abbrev pub indexed :
    Plan
    → Bytes
    → Bytes
    → Result StoreError (Unit {0}) × Bytes
    → Result MergeError Summary × OutFiles
indexed p src out (err e, index) =
    (err field_out_of_range, record { out_bin = some out; out_idx = some index })
indexed p src out (ok u, index) = (
  ok (record {
    logical_records = p.header.n_records;
    unique_payloads = length (referenced p.prototype_for);
    bytes = length out;
    source_bytes = length src;
  }),
  record { out_bin = some out; out_idx = some index },
)

-- The index, once the payloads are copied.
abbrev pub index_merged :
    Plan
    → Bytes
    → Bytes
    → Result MergeError (List ExpertRecord)
    → Result MergeError Summary × OutFiles
index_merged p src out (err e) = (err e, record { out_bin = some out; out_idx = none })
index_merged p src out (ok rs) = indexed p src out (write_index (out_header p.header out) rs)

abbrev pub copied_payloads :
    Plan → Bytes → Result MergeError (Unit {0}) × Output → Result MergeError Summary × OutFiles
copied_payloads p src (err e, o) = (err e, record { out_bin = some o.out; out_idx = none })
copied_payloads p src (ok u, o) =
    index_merged p src (align_file o.out) (out_records p.recs o.places p.prototype_for)

abbrev pub write_merged : Bytes → Result MergeError Plan → Result MergeError Summary × OutFiles
write_merged src (err e) = (err e, untouched)
write_merged src (ok p) =
    copied_payloads p src
      (copy_payloads src p.recs (referenced p.prototype_for) (record { out = []; places = [] }))

-- `main`, from the contents of the source files and the manifest on, `none` if that is no JSON.
unfoldable pub merge : Bytes → Bytes → Option Json → Result MergeError Summary × OutFiles
unfolding plan_merge copy_payloads out_records referenced align_file write_index
merge src_bin src_idx manifest = write_merged src_bin (plan_merge src_bin src_idx manifest)
