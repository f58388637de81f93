-- ===== src/ExpertStore/Strict.antt =====
-- What an index holds that `read_index` has read, by position in the file.
use in_c_test.Prelude.{
  ℕ, zero, suc, ◌+◌, ◌*◌, ◌%◌, ◌<◌, ◌≡◌, refl, sym, ap, subst, ◌∙◌, true, false, ◌||◌, some, List,
  [], ◌∷◌, ◌++◌, ok, >>=-eq-ok, ok-injective, length, take, get_elem?, Bool, arith,
}
use mathlib.Core.Option.{some-injective}
use in_c_test.Struct.{Bytes}
use in_c_test.ExpertStore.{
  ExpertRecord, Key, Meta, key, has_key, read_index, read_records, unpack_header, unpack_record,
  check_record, record_size, store_magic,
}
use in_c_test.ExpertStore.Index.{Readable}
use in_c_test.ExpertStore.Reader.{Accepted, check_record-Accepted}
use in_c_test.ExpertStore.KeySets.{key_eq_refl, has_key-append, has_key-cons}
use in_c_test.ExpertStore.Checked.{HeaderOf, read_index-Contents, read_index-Readable}

-- A record of a store of `n_layers` times `n_experts` experts.
pub record InStore (n_layers n_experts : ℕ) (r : ExpertRecord) : Type 0 where
  pub layer_in_range : r.layer < n_layers
  pub expert_in_range : r.expert < n_experts
  pub some_bytes : 0 < r.read_bytes
  pub whole_pages : r.read_bytes % 4096 ≡ 0
  pub at_a_page : r.file_offset % 4096 ≡ 0

-- The file starts with the magic bytes and the header of a store, and holds 80 bytes for each record behind the 48 of its header.
-- The records are those that these bytes encode, and belong to the store. No two of them are of the
-- same expert of the same layer.
pub record IsStrict (raw : Bytes) (m : Meta) : Type 0 where
  pub magic : take 8 raw ≡ store_magic
  pub header : HeaderOf (unpack_header raw) m
  pub file_size : length raw ≡ 48 + 80 * length m.records
  pub count : length m.records ≡ m.n_records
  pub decoded :
      (i : ℕ) (r : ExpertRecord)
      → get_elem? m.records i ≡ some r
      → unpack_record raw (48 + 80 * i) ≡ r
  pub in_store :
      (i : ℕ) (r : ExpertRecord) → get_elem? m.records i ≡ some r → InStore m.n_layers m.n_experts r
  pub distinct :
      (i j : ℕ) (r s : ExpertRecord)
      → get_elem? m.records i ≡ some r
      → get_elem? m.records j ≡ some s
      → r.layer ≡ s.layer
      → r.expert ≡ s.expert
      → i ≡ j

read_records-decoded :
    (nl ne : ℕ) (raw : Bytes) (n pos : ℕ) (seen : List Key) (rs : List ExpertRecord) (i : ℕ)
    (r : ExpertRecord)
    → read_records nl ne raw n pos seen ≡ ok rs
    → get_elem? rs i ≡ some r
    → unpack_record raw (pos + 80 * i) ≡ r
unfolding read_records
read_records-decoded nl ne raw zero pos seen [] i r h at = cc
read_records-decoded nl ne raw zero pos seen (x ∷ rs) i r h at = cc
read_records-decoded nl ne raw (suc n) pos seen rs zero r h at =
    let x = unpack_record raw pos in
    let (_, _, h1) = >>=-eq-ok (check_record nl ne seen x) _ h in
    let (_, _, h2) =
      >>=-eq-ok (read_records nl ne raw n (pos + record_size) (seen ++ key x ∷ [])) _ h1 in
    let here : pos + 80 * 0 ≡ pos = omega arith in
    ap (unpack_record raw) here
    ∙ some-injective _ _ (ap (λ l. get_elem? l 0) (ok-injective h2) ∙ at)
read_records-decoded nl ne raw (suc n) pos seen rs (suc i) r h at =
    let x = unpack_record raw pos in
    let (_, _, h1) = >>=-eq-ok (check_record nl ne seen x) _ h in
    let (rest, e, h2) =
      >>=-eq-ok (read_records nl ne raw n (pos + record_size) (seen ++ key x ∷ [])) _ h1 in
    let next : pos + 80 * suc i ≡ pos + record_size + 80 * i = omega arith in
    ap (unpack_record raw) next
    ∙ read_records-decoded nl ne raw n (pos + record_size) (seen ++ key x ∷ []) rest i r e
        (ap (λ l. get_elem? l (suc i)) (ok-injective h2) ∙ at)

Accepted-InStore :
    (nl ne : ℕ) (seen : List Key) (r : ExpertRecord) → Accepted nl ne seen r → InStore nl ne r
Accepted-InStore nl ne seen r a = record {
  layer_in_range = a.layer_in_range;
  expert_in_range = a.expert_in_range;
  some_bytes = a.not_empty;
  whole_pages = a.read_aligned;
  at_a_page = a.offset_aligned;
}

-- A record among those that passed belongs to the store, and its key is new behind `seen`.
Readable-at :
    (nl ne : ℕ) (seen : List Key) (rs : List ExpertRecord) (i : ℕ) (r : ExpertRecord)
    → Readable nl ne seen rs
    → get_elem? rs i ≡ some r
    → InStore nl ne r × (has_key (key r) seen ≡ false)
Readable-at nl ne seen [] i r p at = cc
Readable-at nl ne seen (x ∷ rs) zero r p at =
    subst (λ y. InStore nl ne y × (has_key (key y) seen ≡ false)) (some-injective _ _ at)
      (let a = check_record-Accepted nl ne seen x p.0 in (Accepted-InStore nl ne seen x a, a.new))
Readable-at nl ne seen (x ∷ rs) (suc i) r p at =
    let (inside, new) = Readable-at nl ne (seen ++ key x ∷ []) rs i r p.1 at in
    (inside, or_false_left _ _ (sym (has_key-append (key r) seen (key x ∷ [])) ∙ new))
  where
    or_false_left : (a b : Bool) → (a || b) ≡ false → a ≡ false
    or_false_left true b e = cc
    or_false_left false b e = refl

-- The key that was seen last is not new.
last_seen : (seen : List Key) (k : Key) → has_key k (seen ++ k ∷ []) ≡ true
last_seen seen k =
    has_key-append k seen (k ∷ [])
    ∙ ap (λ b. has_key k seen || b)
        (has_key-cons k k [] ∙ ap (λ b. b || has_key k []) (key_eq_refl k))
    ∙ or_true (has_key k seen)
  where
    or_true : (a : Bool) → (a || true) ≡ true
    or_true true = refl
    or_true false = refl

module _ (nl ne : ℕ) where
  -- No later record has the key of the first.
  first_alone :
      (seen : List Key) (x : ExpertRecord) (rs : List ExpertRecord) (j : ℕ) (s : ExpertRecord)
      → Readable nl ne (seen ++ key x ∷ []) rs
      → get_elem? rs j ≡ some s
      → ¬ (key x ≡ key s)
  first_alone seen x rs j s p at same =
      let new = (Readable-at nl ne (seen ++ key x ∷ []) rs j s p at).1 in
      let old = ap (λ k. has_key k (seen ++ key x ∷ [])) (sym same) ∙ last_seen seen (key x) in cc

  Readable-distinct :
      (seen : List Key) (rs : List ExpertRecord) (i j : ℕ) (r s : ExpertRecord)
      → Readable nl ne seen rs
      → get_elem? rs i ≡ some r
      → get_elem? rs j ≡ some s
      → key r ≡ key s
      → i ≡ j
  Readable-distinct seen [] i j r s p a b e = cc
  Readable-distinct seen (x ∷ rs) zero zero r s p a b e = refl
  Readable-distinct seen (x ∷ rs) zero (suc j) r s p a b e =
      absurd (first_alone seen x rs j s p.1 b (ap key (some-injective _ _ a) ∙ e))
  Readable-distinct seen (x ∷ rs) (suc i) zero r s p a b e =
      absurd (first_alone seen x rs i r p.1 a (ap key (some-injective _ _ b) ∙ sym e))
  Readable-distinct seen (x ∷ rs) (suc i) (suc j) r s p a b e =
      ap suc (Readable-distinct (seen ++ key x ∷ []) rs i j r s p.1 a b e)

-- An index that was read is a strict one: it starts with the magic bytes and a header of the known
-- version, alignment, type and offset of the records, and has the size that its number of records
-- gives; the sizes returned are those of the header; the records are those that the bytes behind the header encode, in order;
-- each has a layer and a number in range, a positive length in whole pages and an offset at a page; and
-- no two of them have the same layer and number.
pub read_index-IsStrict : (raw : Bytes) (m : Meta) → read_index raw ≡ ok m → IsStrict raw m
read_index-IsStrict raw m h =
    let c = read_index-Contents raw m h in
    let (readable, count) = read_index-Readable raw m h in
    record {
      magic = c.magic;
      header = c.header;
      file_size = omega (arith, c.file_size, count);
      count = count;
      decoded = λ i r at.
          read_records-decoded m.n_layers m.n_experts raw m.n_records 48 [] m.records i r
            c.records_read at;
      in_store = λ i r at. (Readable-at m.n_layers m.n_experts [] m.records i r readable at).0;
      distinct = λ i j r s a b same_layer same_expert.
          Readable-distinct m.n_layers m.n_experts [] m.records i j r s readable a b
            (λ k. (same_layer k, same_expert k));
    }
