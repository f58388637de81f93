-- ===== src/Merge/Tests.antt =====
-- Two experts of one layer, the second of which takes the payload of the first.
use in_c_test.Prelude.{◌*◌, ◌≡◌, refl, some, List, [], ◌∷◌, ◌++◌, ok, replicate, list_eq}
use in_c_test.Prelude.Int.{pos}
use in_c_test.Struct.{Bytes, pack, unpack}
use in_c_test.Text.{codes}
use in_c_test.Json.{Json, int, obj, field, end}
use in_c_test.ExpertStore.{
  ExpertRecord, page, write_index, write_records, pack_header, pack_record, unpack_header,
  unpack_record,
}
use in_c_test.ExpertStore.RoundTrip.{store_header}
use in_c_test.Merge.{Summary, OutFiles, merge}
use in_c_test.Merge.Whole.{Merged, merge-Merged}

abbrev plain_expert : ExpertRecord
plain_expert = record {
  layer = 1;
  expert = 0;
  file_offset = 0;
  read_bytes = page;
  payload_bytes = 48;
  gate_off = 0;
  gate_bytes = 16;
  up_off = 16;
  up_bytes = 16;
  down_off = 32;
  down_bytes = 16;
}

abbrev twins : List ExpertRecord
twins = plain_expert ∷ record plain_expert { expert = 1; file_offset = page } ∷ []

twin_index : Bytes
unfolding write_index
twin_index = (write_index (store_header 3 2 2 (2 * page)) twins).1

twin_data : Bytes
twin_data = replicate page b'A' ++ replicate page b'B'

-- `{"version": 1, "layers": {"1": {"map": {"1": 0}}}}`
abbrev second_to_first : Json
second_to_first = obj (
    field (codes "version") (int (pos 1)) (
      field (codes "layers")
        (obj (
          field (codes "1")
            (obj (field (codes "map") (obj (field (codes "1") (int (pos 0)) end)) end)) end))
        end))

abbrev merge_summary : Summary
merge_summary = record {
  logical_records = 2;
  unique_payloads = 1;
  bytes = 4096;
  source_bytes = 8192;
}

abbrev merged_files : OutFiles
merged_files = (merge twin_data twin_index (some second_to_first)).1

merged : merge twin_data twin_index (some second_to_first) ≡ (ok merge_summary, merged_files)
unfolding merge twin_index twin_data write_index write_records pack_header pack_record unpack_header
    unpack_record pack unpack list_eq
merged = refl

merge-Merged_example : Merged twin_data twin_index (some second_to_first) merged_files
merge-Merged_example =
    merge-Merged twin_data twin_index (some second_to_first) merge_summary merged_files merged
