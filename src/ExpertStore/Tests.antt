-- ===== src/ExpertStore/Tests.antt =====
-- A store of two experts, and its compaction.
use in_c_test.Prelude.{
  ℕ, ◌*◌, ◌%◌, ◌≤◌, ◌≡◌, refl, false, none, some, List, [], ◌∷◌, ◌++◌, ok, err, length, replicate,
  arith, ◌==◌, if◌then◌else◌, list_eq,
}
use in_c_test.ExpertStore.{
  Meta, has_key, write_records, unpack_header, unpack_record, read_records, check_record, align_up,
  short_read,
}
use in_c_test.Struct.{pack, unpack}
use in_c_test.ExpertStore.Compact.{copy_exact}
use in_c_test.ExpertStore.Mask.{not_empty}
use in_c_test.ExpertStore.Index.{Readable}
use in_c_test.ExpertStore.Copy.{copy_exact-eq}
use in_c_test.ExpertStore.Compacted.{align_up_least, remaining}
use in_c_test.ExpertStore.Strict.{IsStrict, read_index-IsStrict}
use in_c_test.ExpertStore.Outcome.{all_available, compact_records-outcome}
use in_c_test.ExpertStore.Sidecar.{read_mask-mask_text}
use in_c_test.ExpertStore.Compaction.{
  Compacted, ThreeFiles, checked_source, compact_store-Compacted,
}
use in_c_test.ExpertStore.Verify.{VerifyReport, verify_files, verify_compaction}
use in_c_test.ExpertStore.Verification.{Inputs, IsSparse, verify_files-IsSparse}
use in_c_test.ExpertStore.EndToEnd.{
  SourceSpared, compact_store-spares, verify_compaction-compact_store,
}
use in_c_test.Prelude.Int.{pos}
use in_c_test.Struct.{Bytes}
use in_c_test.ExpertStore.{
  ExpertRecord, Key, page, read_index, write_index, pack_record, pack_header,
}
use in_c_test.Text.{codes}
use in_c_test.ExpertStore.Mask.{read_mask, mask_text, sorted}
use in_c_test.ExpertStore.Files.{FilePath, Files, mask_sidecar_path}
use in_c_test.ExpertStore.Compact.{
  Paths, Report, Source, compact_store, compact_records, fresh_writer,
}
use in_c_test.ExpertStore.RoundTrip.{store_header, read_index-write_index}

abbrev path : ℕ → FilePath
path n = record { parent = []; name = replicate n b'x' }

-- A path is told from another by the length of its name.
abbrev by_length : FilePath → ℕ
by_length f = length f.name

abbrev paths : Paths
paths = record {
  src_bin = path 1;
  src_idx = path 2;
  mask = path 3;
  dst_bin = path 4;
  dst_idx = record { parent = []; name = codes "s.idx" };
}

abbrev first : ExpertRecord
first = record {
  layer = 1;
  expert = 0;
  file_offset = 0;
  read_bytes = page;
  payload_bytes = 48;
  gate_off = 0;
  gate_bytes = 16;
  up_off = 16;
  up_bytes = 16;
  down_off = 32;
  down_bytes = 16;
}

abbrev second : ExpertRecord
second = record first { expert = 1; file_offset = page }

abbrev two_records : List ExpertRecord
two_records = first ∷ second ∷ []

index_file : Bytes
unfolding write_index
index_file = (write_index (store_header 3 2 2 (2 * page)) two_records).1

data_file : Bytes
data_file = replicate page b'A' ++ replicate page b'B'

files : Files
unfolding index_file data_file
files i =
    if i == 1
    then some data_file
    else if i == 2
    then some index_file
    else if i == 3
    then some (codes "# first\n1 0\n")
    else none

abbrev compaction_report : Report
compaction_report = record {
  source_records = 2;
  output_records = 1;
  disabled_mask_entries = 1;
  disabled_missing_from_source = 0;
  removed_records = 1;
  source_bytes = 8192;
  output_bytes = 4096;
  removed_read_bytes = 4096;
  byte_reduction = pos 4096;
  n_layers = 3;
  n_experts = 2;
  mask_sidecar = record { parent = []; name = codes "s.mask" };
}

abbrev files_after : Files
files_after = (compact_store by_length paths false files).1

-- What a run of the tools unfolds.
program : Unit {0}
unfolding compact_store files write_index write_records pack_header pack_record unpack_header
    unpack_record read_records check_record pack unpack list_eq
program = tt

compacted : compact_store by_length paths false files ≡ (ok compaction_report, files_after)
unfolding program
compacted = refl

apart : ThreeFiles by_length paths
unfolding mask_sidecar_path list_eq
apart = (omega arith, omega arith, omega arith)

spared : SourceSpared by_length paths
unfolding mask_sidecar_path list_eq
spared = (
  (omega arith, omega arith, omega arith),
  (omega arith, omega arith, omega arith),
  (omega arith, omega arith, omega arith),
)

compact_store-Compacted_example :
    (s : Source) × (checked_source by_length paths false files ≡ ok s)
    × Compacted (files_after 4) (files_after 5) (files_after 6) s
unfolding mask_sidecar_path list_eq
compact_store-Compacted_example =
    compact_store-Compacted by_length paths false files compaction_report files_after apart
      compacted

abbrev no_digest : Bytes → Bytes
no_digest bytes = []

verify_compaction-compact_store_example :
    (v : VerifyReport) × (verify_compaction no_digest by_length files_after
        (path 1)
        (path 2)
        (path 4)
        paths.dst_idx
        (path 3)
      ≡ ok v)
verify_compaction-compact_store_example =
    verify_compaction-compact_store by_length paths no_digest files compaction_report files_after
      apart spared compacted

compact_store-spares_example : files_after 2 ≡ files 2
unfolding mask_sidecar_path list_eq
compact_store-spares_example =
    compact_store-spares by_length paths false files compaction_report files_after (path 2)
      (omega arith, omega arith, omega arith) compacted

verified : VerifyReport
verified =
    (verify_compaction-compact_store by_length paths no_digest files compaction_report files_after
      apart spared compacted).0

verified_lem :
    verify_files no_digest
      (files_after 1)
      (files_after 2)
      (files_after 4)
      (files_after 5)
      (files_after 3)
    ≡ ok verified
unfolding verify_compaction verified
verified_lem =
    (verify_compaction-compact_store by_length paths no_digest files compaction_report files_after
      apart spared compacted).1

verify_files-IsSparse_example :
    (src : Meta) × (dst : Meta) × (disabled : List Key) × (source : Bytes) × (sparse : Bytes)
    × Inputs
        (files_after 1)
        (files_after 2)
        (files_after 4)
        (files_after 5)
        (files_after 3)
        src
        dst
        disabled
        source
        sparse
    × IsSparse src dst disabled source sparse
verify_files-IsSparse_example =
    verify_files-IsSparse no_digest (files_after 1) (files_after 2) (files_after 4) (files_after 5)
      (files_after 3) verified verified_lem

written_index : write_index (store_header 3 2 2 8192) two_records ≡ (ok tt, index_file)
unfolding program index_file
written_index = refl

two_Readable : Readable 3 2 [] two_records
unfolding check_record has_key
two_Readable = (refl, (refl, tt))

read_index-write_index_example :
    read_index index_file
    ≡ ok (record {
      n_layers = 3;
      n_experts = 2;
      n_records = 2;
      data_bytes = 8192;
      records = two_records;
    })
read_index-write_index_example =
    read_index-write_index 3 2 8192 two_records index_file written_index two_Readable

abbrev two_meta : Meta
two_meta = record {
  n_layers = 3;
  n_experts = 2;
  n_records = 2;
  data_bytes = 8192;
  records = two_records;
}

read_index-IsStrict_example : IsStrict index_file two_meta
read_index-IsStrict_example = read_index-IsStrict index_file two_meta read_index-write_index_example

read_mask-mask_text_example :
    read_mask (mask_text ((2, 1) ∷ (1, 10) ∷ [])) ≡ not_empty (sorted ((2, 1) ∷ (1, 10) ∷ []))
unfolding has_key
read_mask-mask_text_example = read_mask-mask_text ((2, 1) ∷ (1, 10) ∷ []) (refl, (refl, tt))

copy_exact-eq_example : copy_exact (1 ∷ 2 ∷ 3 ∷ []) (9 ∷ []) 1 5 ≡ (err short_read, 9 ∷ 2 ∷ 3 ∷ [])
copy_exact-eq_example = copy_exact-eq (1 ∷ 2 ∷ 3 ∷ []) (9 ∷ []) 1 5

align_up_least_example :
    (align_up 5000 % page ≡ 0)
    × (5000 ≤ align_up 5000)
    × ((m : ℕ) → 5000 ≤ m * page → align_up 5000 ≤ m * page)
align_up_least_example = align_up_least 5000

compact_records-outcome_example :
    (compact_records (replicate page b'A') ((1, 1) ∷ []) fresh_writer two_records).0 ≡ ok tt
unfolding all_available remaining has_key
compact_records-outcome_example =
    compact_records-outcome (replicate page b'A') ((1, 1) ∷ []) fresh_writer two_records
