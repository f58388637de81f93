-- ===== src/Merge/Index.antt =====
-- The index of a merged store, read back.
use mathlib.Core.List.{append_assoc}
use in_c_test.Prelude.{
  ℕ, zero, suc, ◌+◌, ◌*◌, ◌≡◌, refl, sym, ap, ◌∙◌, true, List, [], ◌∷◌, ◌++◌, Result, ok, guard,
  ◌>>◌, >>=-eq-ok, ok-injective, length, length-append, leb, list_eq, list_eq_refl, arith, ◌&&◌,
  ◌==◌,
}
use in_c_test.Struct.{Bytes, pack, unpack-pack, length-pack}
use in_c_test.ExpertStore.{
  Header, ExpertRecord, header_fields, header_widths, record_size, header_size, page, store_magic,
  store_version, pack_header, unpack_header, unpack_record, write_records, write_index, checked,
}
use in_c_test.ExpertStore.Index.{
  checked-ok, write_records-Appended, wrote_record, unpack_record-pack, length-pack_record,
}
use in_c_test.ExpertStore.RoundTrip.{wrote_index, header_fields_size}
use in_c_test.Merge.{MergeError, bad_header, truncated_records, read_index, records_at}

pub length-records_at : (raw : Bytes) (n offset : ℕ) → length (records_at raw n offset) ≡ n
unfolding records_at
length-records_at raw zero offset = refl
length-records_at raw (suc n) offset = ap suc (length-records_at raw n (offset + record_size))

records_at-write_records :
    (out : Bytes) (rs : List ExpertRecord) (final : Bytes)
    → write_records out rs ≡ (ok tt, final)
    → records_at final (length rs) (length out) ≡ rs
unfolding records_at
records_at-write_records out [] final h = refl
records_at-write_records out (r ∷ rs) final h =
    let w = wrote_record out r rs final h in
    let a = write_records-Appended (out ++ w.bytes) rs final w.others in
    let here : unpack_record final (length out) ≡ r =
      ap (λ b. unpack_record b (length out)) (a.joined ∙ append_assoc out w.bytes a.tail)
      ∙ unpack_record-pack r out a.tail w.packed in
    let next : length out + record_size ≡ length (out ++ w.bytes) =
      omega (arith, length-append out w.bytes, length-pack_record r w.packed) in
    rw (here, next) (ap (λ l. r ∷ l) (records_at-write_records (out ++ w.bytes) rs final w.others))

-- The tests of `read_index` behind the header.
abbrev read_behind : Bytes → Header → Result MergeError (Header × List ExpertRecord)
read_behind raw h = do
  guard (list_eq h.magic store_magic && (h.version == store_version && h.align == page)) bad_header
  guard (leb (h.records_offset + h.n_records * record_size) (length raw)) truncated_records
  ok (h, records_at raw h.n_records h.records_offset)

read_index-read_behind :
    (raw : Bytes) (h : Header)
    → leb header_size (length raw) ≡ true
    → unpack_header raw ≡ h
    → read_index raw ≡ read_behind raw h
unfolding read_index
read_index-read_behind raw h enough first = rw enough (ap (read_behind raw) first)

module _ (h : Header) where
  abbrev of_store : Header
  of_store = record h { magic = store_magic }

  unpack_header-pack_header :
      (rest : Bytes) {b : Bytes}
      → pack_header of_store ≡ ok b
      → unpack_header (b ++ rest) ≡ of_store
  unfolding unpack_header pack_header
  unpack_header-pack_header rest {b} e =
      let (fields, packed, joined) =
        >>=-eq-ok (checked (pack header_widths (header_fields h))) _ e in
      rw (← ok-injective joined)
        (rw (unpack-pack header_widths (header_fields h) rest (checked-ok packed)) refl)

  length-pack_header : {b : Bytes} → pack_header of_store ≡ ok b → length b ≡ header_size
  unfolding pack_header
  length-pack_header e =
      let (fields, packed, joined) =
        >>=-eq-ok (checked (pack header_widths (header_fields h))) _ e in
      rw (← ok-injective joined) (
        omega (
          arith,
          length-pack header_widths (header_fields h) (checked-ok packed),
          header_fields_size,
        ))

  of_store_read :
      (rs : List ExpertRecord) (final : Bytes)
      → h.records_offset ≡ header_size
      → h.n_records ≡ length rs
      → (h.version == store_version && h.align == page) ≡ true
      → write_index of_store rs ≡ (ok tt, final)
      → read_index final ≡ ok (of_store, rs)
  of_store_read rs final o n t e =
      let w = wrote_index of_store rs final e in
      let a = write_records-Appended w.header rs final w.others in
      let long = length-pack_header w.packed in
      let total : length final ≡ header_size + length rs * record_size =
        ap length a.joined ∙ omega (arith, length-append w.header a.tail, long, a.long) in
      let first : unpack_header final ≡ of_store =
        ap unpack_header a.joined ∙ unpack_header-pack_header a.tail w.packed in
      let others : records_at final (length rs) header_size ≡ rs =
        ap (λ p. records_at final (length rs) p) (sym long)
        ∙ records_at-write_records w.header rs final w.others in
      let enough : leb header_size (length final) ≡ true = ground arith in
      let all_there : leb (header_size + length rs * record_size) (length final) ≡ true =
        ground arith in
      read_index-read_behind final of_store enough first
      ∙ rw (list_eq_refl store_magic, t, o, n, all_there, others) refl

-- An index that was written for such a header and as many records as it says reads back as these.
pub read_index_written :
    (h : Header) (rs : List ExpertRecord) (final : Bytes)
    → h.magic ≡ store_magic
    → h.records_offset ≡ header_size
    → h.n_records ≡ length rs
    → (h.version == store_version && h.align == page) ≡ true
    → write_index h rs ≡ (ok tt, final)
    → read_index final ≡ ok (h, rs)
read_index_written h rs final m o n t e =
    let same : of_store h ≡ h = ap (λ x. record h { magic = x }) (sym m) in
    of_store_read h rs final o n t (ap (λ x. write_index x rs) same ∙ e) ∙ ap (λ x. ok (x, rs)) same
