-- ===== src/ExpertStore/RoundTrip.antt =====
-- `read_index` of a whole index file.
use in_c_test.Prelude.{
  ℕ, ◌+◌, ◌*◌, ◌≡◌, refl, sym, ap, ◌∙◌, true, List, [], ◌++◌, ok, >>=-eq-ok, Result-cases,
  ok-injective, inl, inr, length, length-append, list_eq_refl, arith, leb, ◌==◌,
}
use in_c_test.Struct.{Bytes, pack, unpack-pack, length-pack, size}
use in_c_test.ExpertStore.{
  Header, ExpertRecord, header_fields, header_widths, record_size, header_size, page, store_magic,
  store_version, dtype_q8_row, pack_header, unpack_header, read_records, read_index, write_records,
  write_index, checked,
}
use in_c_test.ExpertStore.Index.{Readable, checked-ok, write_records-Appended, read-write_records}

-- The header of a Q8 store with these sizes.
abbrev pub store_header : (n_layers n_experts n_records data_bytes : ℕ) → Header
store_header nl ne n bytes = record {
  magic = store_magic;
  version = store_version;
  align = page;
  n_layers = nl;
  n_experts = ne;
  n_records = n;
  dtype = dtype_q8_row;
  records_offset = header_size;
  data_bytes = bytes;
}

pub header_fields_size : size header_widths ≡ 40
unfolding size
header_fields_size = refl

module _ (nl ne n bytes : ℕ) where
  abbrev h : Header
  h = store_header nl ne n bytes

  unpack_header-pack :
      (rest : Bytes) {b : Bytes} → pack_header h ≡ ok b → unpack_header (b ++ rest) ≡ h
  unfolding unpack_header pack_header
  unpack_header-pack rest {b} e =
      let (fields, packed, joined) =
        >>=-eq-ok (checked (pack header_widths (header_fields h))) _ e in
      rw (← ok-injective joined)
        (rw (unpack-pack header_widths (header_fields h) rest (checked-ok packed)) refl)

  length-pack_header : {b : Bytes} → pack_header h ≡ ok b → length b ≡ header_size
  unfolding pack_header
  length-pack_header e =
      let (fields, packed, joined) =
        >>=-eq-ok (checked (pack header_widths (header_fields h))) _ e in
      rw (← ok-injective joined) (
        omega (
          arith,
          length-pack header_widths (header_fields h) (checked-ok packed),
          header_fields_size,
        ))

-- What the writer of an index wrote.
pub record WroteIndex (h : Header) (rs : List ExpertRecord) (final : Bytes) : Type 0 where
  pub header : Bytes
  pub packed : pack_header h ≡ ok header
  pub others : write_records header rs ≡ (ok tt, final)

pub wrote_index :
    (h : Header) (rs : List ExpertRecord) (final : Bytes)
    → write_index h rs ≡ (ok tt, final)
    → WroteIndex h rs final
wrote_index h rs final e = elim (Result-cases (pack_header h)) [
  | inl (b, p) ↦ record {
    header = b;
    packed = p;
    others = unfold write_index in rw (p, write_index) at e;
  }
  | inr (x, p) ↦ unfold write_index in cc (rw (p, write_index) at e)
]

-- Reading an index that was written gives the sizes and the records that were written, if the
-- records pass the tests of the reader.
pub read_index-write_index :
    (nl ne bytes : ℕ) (rs : List ExpertRecord) (final : Bytes)
    → write_index (store_header nl ne (length rs) bytes) rs ≡ (ok tt, final)
    → Readable nl ne [] rs
    → read_index final
      ≡ ok (record {
        n_layers = nl;
        n_experts = ne;
        n_records = length rs;
        data_bytes = bytes;
        records = rs;
      })
unfolding read_index
read_index-write_index nl ne bytes rs final e readable =
    let w = wrote_index (store_header nl ne (length rs) bytes) rs final e in
    let a = write_records-Appended w.header rs final w.others in
    let long = length-pack_header nl ne (length rs) bytes w.packed in
    let total : length final ≡ header_size + length rs * record_size =
      ap length a.joined ∙ omega (arith, length-append w.header a.tail, long, a.long) in
    let first : unpack_header final ≡ store_header nl ne (length rs) bytes =
      ap unpack_header a.joined ∙ unpack_header-pack nl ne (length rs) bytes a.tail w.packed in
    let others : read_records nl ne final (length rs) header_size [] ≡ ok rs =
      ap (λ p. read_records nl ne final (length rs) p []) (sym long)
      ∙ read-write_records nl ne w.header rs [] final w.others readable in
    let enough : leb header_size (length final) ≡ true = ground arith in
    let exact : (length final == header_size + length rs * record_size) ≡ true = ground arith in
    rw first (rw (enough, list_eq_refl store_magic, exact, others) refl)
