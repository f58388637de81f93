-- ===== src/ExpertStore/Index.antt =====
-- The reader of the index against its writer.
use mathlib.Core.List.{append_assoc, append-nil}
use in_c_test.Prelude.{
  ℕ, ◌+◌, ◌*◌, ◌≡◌, refl, sym, ap, ◌∙◌, List, [], ◌∷◌, ◌++◌, Result, ok, err, Result-cases, inl,
  inr, length, length-append, drop-append_exact, arith,
}
use in_c_test.Struct.{Bytes, pack, unpack, unpack-pack, length-pack, size}
use in_c_test.ExpertStore.{
  ExpertRecord, Key, StoreError, key, record_fields, record_widths, record_size, pack_record,
  unpack_record, check_record, read_records, write_records, checked,
}

-- Each record passes the tests of the reader behind the keys `seen` before it.
abbrev pub Readable : ℕ → ℕ → List Key → List ExpertRecord → Type 0
Readable nl ne seen [] = Unit {0}
Readable nl ne seen (r ∷ rs) =
    (check_record nl ne seen r ≡ ok tt) × Readable nl ne (seen ++ key r ∷ []) rs

pub checked-ok :
    {A : Type 0} {m : Result in_c_test.Struct.StructError A} {a : A} → checked m ≡ ok a → m ≡ ok a
checked-ok {m = ok a} h = ground arith
checked-ok {m = err e} h = cc

pub unpack_record-pack :
    (r : ExpertRecord) (before rest : Bytes) {b : Bytes}
    → pack_record r ≡ ok b
    → unpack_record (before ++ (b ++ rest)) (length before) ≡ r
unfolding unpack_record pack_record
unpack_record-pack r before rest {b} h =
    rw (drop-append_exact (length before) before (b ++ rest) refl)
      (rw (unpack-pack record_widths (record_fields r) rest (checked-ok h)) refl)

pub length-pack_record :
    (r : ExpertRecord) {b : Bytes} → pack_record r ≡ ok b → length b ≡ record_size
unfolding pack_record
length-pack_record r h =
    length-pack record_widths (record_fields r) (checked-ok h) ∙ (unfold size in refl)

-- A successful write of one more record.
pub record WroteRecord (out : Bytes) (r : ExpertRecord) (rs : List ExpertRecord) (final : Bytes)
    : Type 0 where
  pub bytes : Bytes
  pub packed : pack_record r ≡ ok bytes
  pub others : write_records (out ++ bytes) rs ≡ (ok tt, final)

write_records-ok :
    (out b : Bytes) (r : ExpertRecord) (rs : List ExpertRecord)
    → pack_record r ≡ ok b
    → write_records out (r ∷ rs) ≡ write_records (out ++ b) rs
unfolding write_records
write_records-ok out b r rs e = rw (e, write_records)

write_records-err :
    (out : Bytes) (e : StoreError) (r : ExpertRecord) (rs : List ExpertRecord)
    → pack_record r ≡ err e
    → write_records out (r ∷ rs) ≡ (err e, out)
unfolding write_records
write_records-err out x r rs e = rw (e, write_records)

pub wrote_record :
    (out : Bytes) (r : ExpertRecord) (rs : List ExpertRecord) (final : Bytes)
    → write_records out (r ∷ rs) ≡ (ok tt, final)
    → WroteRecord out r rs final
wrote_record out r rs final h = elim (Result-cases (pack_record r)) [
  | inl (b, e) ↦ record { bytes = b; packed = e; others = sym (write_records-ok out b r rs e) ∙ h }
  | inr (x, e) ↦ cc (h, write_records-err out x r rs e)
]

-- Writing goes on behind what is written.
pub record Appended (out : Bytes) (rs : List ExpertRecord) (final : Bytes) : Type 0 where
  pub tail : Bytes
  pub joined : final ≡ out ++ tail
  pub long : length tail ≡ length rs * record_size

pub write_records-Appended :
    (out : Bytes) (rs : List ExpertRecord) (final : Bytes)
    → write_records out rs ≡ (ok tt, final)
    → Appended out rs final
write_records-Appended out [] final h = record {
  tail = [];
  joined = unfold write_records in cc (h, append-nil out);
  long = refl;
}
write_records-Appended out (r ∷ rs) final h =
    let w = wrote_record out r rs final h in
    let a = write_records-Appended (out ++ w.bytes) rs final w.others in
    record {
      tail = w.bytes ++ a.tail;
      joined = a.joined ∙ append_assoc out w.bytes a.tail;
      long = omega (arith, length-append w.bytes a.tail, length-pack_record r w.packed, a.long);
    }

-- The records are read back, in order, from the place where they were written.
pub read-write_records :
    (nl ne : ℕ) (out : Bytes) (rs : List ExpertRecord) (seen : List Key) (final : Bytes)
    → write_records out rs ≡ (ok tt, final)
    → Readable nl ne seen rs
    → read_records nl ne final (length rs) (length out) seen ≡ ok rs
unfolding read_records
read-write_records nl ne out [] seen final h readable = refl
read-write_records nl ne out (r ∷ rs) seen final h readable =
    let w = wrote_record out r rs final h in
    let a = write_records-Appended (out ++ w.bytes) rs final w.others in
    let here : unpack_record final (length out) ≡ r =
      ap (λ b. unpack_record b (length out)) (a.joined ∙ append_assoc out w.bytes a.tail)
      ∙ unpack_record-pack r out a.tail w.packed in
    let at : length out + record_size ≡ length (out ++ w.bytes) =
      omega (arith, length-append out w.bytes, length-pack_record r w.packed) in
    rw (here, readable.0, at)
      (rw
        (read-write_records nl ne (out ++ w.bytes) rs (seen ++ key r ∷ []) final w.others
          readable.1)
        refl)
