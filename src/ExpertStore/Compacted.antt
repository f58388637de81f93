-- ===== src/ExpertStore/Compacted.antt =====
-- What the loop of `compact_store` makes of the records.
use mathlib.Core.List.{append_assoc, append-nil}
use in_c_test.Prelude.{
  ℕ, ◌+◌, ◌-◌, ◌*◌, ◌%◌, ◌≤◌, ◌≡◌, refl, sym, ap, ap₂, subst, ◌∙◌, true, false, List, [], ◌∷◌, ◌++◌,
  min, ok, err, leb, if◌then◌else◌, length, take, drop, replicate, length-append, length-replicate,
  length-take, length-drop, take-append_exact, drop-append_exact, Bool-cases, inl, inr, arith,
}
use in_c_test.Struct.{Bytes}
use in_c_test.ExpertStore.{ExpertRecord, Key, StoreError, key, has_key, align_up, page, short_read}
use in_c_test.ExpertStore.Compact.{Writer, moved, pad, go_on, compact_record, compact_records}
use in_c_test.ExpertStore.Copy.{slice, copy_exact-eq}

-- `align_up` gives the least multiple of the page size that is not below its argument.
pub align_up_least :
    (x : ℕ)
    → (align_up x % page ≡ 0) × (x ≤ align_up x) × ((m : ℕ) → x ≤ m * page → align_up x ≤ m * page)
unfolding align_up
align_up_least x = (omega arith, omega arith, λ m h. omega arith)

-- The records that are not disabled.
unfoldable pub remaining : List Key → List ExpertRecord → List ExpertRecord
remaining disabled [] = []
remaining disabled (r ∷ rs) =
    let rest = remaining disabled rs in if has_key (key r) disabled then rest else r ∷ rest

-- The record `k` of the output is the record `r` of the source, at a page of the output that holds
-- the same bytes.
pub record MovedRecord (src out : Bytes) (r k : ExpertRecord) : Type 0 where
  pub same : k ≡ moved r k.file_offset
  pub aligned : k.file_offset % page ≡ 0
  pub available : r.read_bytes ≤ length src - r.file_offset
  pub inside : k.file_offset + k.read_bytes ≤ length out
  pub stored : slice out k.file_offset k.read_bytes ≡ slice src r.file_offset r.read_bytes

-- The records of the output are those of the source, one by one.
abbrev pub Moved : Bytes → Bytes → List ExpertRecord → List ExpertRecord → Type 0
Moved src out [] [] = Unit {0}
Moved src out [] (k ∷ ks) = ⊥
Moved src out (r ∷ rs) [] = ⊥
Moved src out (r ∷ rs) (k ∷ ks) = MovedRecord src out r k × Moved src out rs ks

-- Each record begins where the one before it ends, or later.
abbrev pub Laid : ℕ → List ExpertRecord → Type 0
Laid from [] = Unit {0}
Laid from (k ∷ ks) = (from ≤ k.file_offset) × Laid (k.file_offset + k.read_bytes) ks

length-pad : (out : Bytes) → length (pad out) ≡ align_up (length out)
unfolding pad align_up
length-pad out =
    length-append out _
    ∙ ap (λ n. length out + n) (length-replicate (align_up (length out) - length out) 0)
    ∙ omega arith

abbrev pub counted : Writer → ExpertRecord → Writer
counted w r = record w {
  removed_records = w.removed_records + 1;
  removed_read_bytes = w.removed_read_bytes + r.read_bytes;
}

abbrev pub stored_out : Bytes → Writer → ExpertRecord → Bytes
stored_out src w r = pad w.out ++ slice src r.file_offset r.read_bytes

abbrev pub added : Bytes → Writer → ExpertRecord → Writer
added src w r = record w {
  out = stored_out src w r;
  kept = w.kept ++ moved r (align_up (length w.out)) ∷ [];
}

module _ (src : Bytes) (disabled : List Key) (w : Writer) (r : ExpertRecord) where
  pub compact_record-disabled :
      has_key (key r) disabled ≡ true → compact_record src disabled w r ≡ (ok tt, counted w r)
  unfolding compact_record
  compact_record-disabled e = rw e

  pub compact_record-kept :
      has_key (key r) disabled ≡ false
      → leb r.read_bytes (length src - r.file_offset) ≡ true
      → compact_record src disabled w r ≡ (ok tt, added src w r)
  unfolding compact_record
  compact_record-kept e enough =
      rw e (rw (copy_exact-eq src (pad w.out) r.file_offset r.read_bytes) (rw enough refl))

  pub compact_record-short :
      has_key (key r) disabled ≡ false
      → leb r.read_bytes (length src - r.file_offset) ≡ false
      → compact_record src disabled w r ≡ (err short_read, record w { out = stored_out src w r })
  unfolding compact_record
  compact_record-short e short =
      rw e (rw (copy_exact-eq src (pad w.out) r.file_offset r.read_bytes) (rw short refl))

  pub compact_records-ok :
      (rs : List ExpertRecord) (w' : Writer)
      → compact_record src disabled w r ≡ (ok tt, w')
      → compact_records src disabled w (r ∷ rs) ≡ compact_records src disabled w' rs
  unfolding compact_records
  compact_records-ok rs w' e = ap (λ p. go_on p (λ v. compact_records src disabled v rs)) e

  pub compact_records-err :
      (rs : List ExpertRecord) (x : StoreError) (w' : Writer)
      → compact_record src disabled w r ≡ (err x, w')
      → compact_records src disabled w (r ∷ rs) ≡ (err x, w')
  unfolding compact_records
  compact_records-err rs x w' e = ap (λ p. go_on p (λ v. compact_records src disabled v rs)) e

-- What a loop without error did, from the writer `w` to the writer `w'`.
pub record Progress (src : Bytes) (disabled : List Key) (w : Writer) (rs : List ExpertRecord)
    (w' : Writer) : Type 0 where
  pub tail : Bytes
  pub new : List ExpertRecord
  pub grown : w'.out ≡ w.out ++ tail
  pub kept : w'.kept ≡ w.kept ++ new
  pub moved_all : Moved src w'.out (remaining disabled rs) new
  pub laid : Laid (length w.out) new
  pub counts : w'.removed_records + length new ≡ w.removed_records + length rs

pub slice-append : (a b c : Bytes) (n : ℕ) → length b ≡ n → slice (a ++ b ++ c) (length a) n ≡ b
slice-append a b c n e =
    ap (λ l. take n (drop (length a) l)) (append_assoc a b c)
    ∙ ap (take n) (drop-append_exact (length a) a (b ++ c) refl)
    ∙ take-append_exact n b c e

Laid-weaken : (a b : ℕ) (ks : List ExpertRecord) → a ≤ b → Laid b ks → Laid a ks
Laid-weaken a b [] h l = tt
Laid-weaken a b (k ∷ ks) h l = (omega arith, l.1)

abbrev zeros : Writer → Bytes
zeros w = replicate (align_up (length w.out) - length w.out) 0

grown_lem :
    (src tail : Bytes) (w : Writer) (r : ExpertRecord)
    → stored_out src w r ++ tail
      ≡ w.out ++ (zeros w ++ (slice src r.file_offset r.read_bytes ++ tail))
unfolding pad
grown_lem src tail w r = append_assoc (w.out ++ zeros w) _ tail ∙ append_assoc w.out (zeros w) _

module _ (src : Bytes) (w : Writer) (r : ExpertRecord)
    (enough : leb r.read_bytes (length src - r.file_offset) ≡ true) where
  length-slice : length (slice src r.file_offset r.read_bytes) ≡ r.read_bytes
  length-slice =
      length-take r.read_bytes (drop r.file_offset src)
      ∙ ap (min r.read_bytes) (length-drop r.file_offset src)
      ∙ ground arith

  length-stored_out : length (stored_out src w r) ≡ align_up (length w.out) + r.read_bytes
  length-stored_out =
      length-append (pad w.out) _ ∙ ap₂ (λ a b. a + b) (length-pad w.out) length-slice

  -- The record that a round adds, in any output that goes on behind it.
  added-MovedRecord :
      (tail : Bytes)
      → MovedRecord src (stored_out src w r ++ tail) r (moved r (align_up (length w.out)))
  added-MovedRecord tail = record {
    same = refl;
    aligned = (align_up_least (length w.out)).0;
    available = ground arith;
    inside = omega (arith, length-append (stored_out src w r) tail, length-stored_out);
    stored =
        ap (λ n. slice (stored_out src w r ++ tail) n r.read_bytes) (sym (length-pad w.out))
        ∙ slice-append (pad w.out) (slice src r.file_offset r.read_bytes) tail r.read_bytes
            length-slice;
  }

module _ (src : Bytes) (disabled : List Key) where
  Progress-disabled :
      (w : Writer) (r : ExpertRecord) (rs : List ExpertRecord) (w' : Writer)
      → has_key (key r) disabled ≡ true
      → Progress src disabled (counted w r) rs w'
      → Progress src disabled w (r ∷ rs) w'
  unfolding remaining
  Progress-disabled w r rs w' e p = record {
    tail = p.tail;
    new = p.new;
    grown = p.grown;
    kept = p.kept;
    moved_all = rw e p.moved_all;
    laid = p.laid;
    counts = omega (arith, p.counts);
  }

  Progress-nil : (w : Writer) → Progress src disabled w [] w
  unfolding remaining
  Progress-nil w = record {
    tail = [];
    new = [];
    grown = sym (append-nil w.out);
    kept = sym (append-nil w.kept);
    moved_all = tt;
    laid = tt;
    counts = refl;
  }

  Progress-kept :
      (w : Writer) (r : ExpertRecord) (rs : List ExpertRecord) (w' : Writer)
      → has_key (key r) disabled ≡ false
      → leb r.read_bytes (length src - r.file_offset) ≡ true
      → Progress src disabled (added src w r) rs w'
      → Progress src disabled w (r ∷ rs) w'
  unfolding remaining
  Progress-kept w r rs w' e enough p =
      let start = align_up (length w.out) in
      record {
        tail = zeros w ++ (slice src r.file_offset r.read_bytes ++ p.tail);
        new = moved r start ∷ p.new;
        grown = p.grown ∙ grown_lem src p.tail w r;
        kept = p.kept ∙ append_assoc w.kept (moved r start ∷ []) p.new;
        moved_all = rw e (rw p.grown (added-MovedRecord src w r enough p.tail), p.moved_all);
        laid = (
          (align_up_least (length w.out)).1,
          subst (λ n. Laid n p.new) (length-stored_out src w r enough) p.laid,
        );
        counts = omega (arith, p.counts);
      }

  compact_records-nil : (w w' : Writer) → compact_records src disabled w [] ≡ (ok tt, w') → w ≡ w'
  unfolding compact_records
  compact_records-nil w w' h = cc

  pub compact_records-Progress :
      (w : Writer) (rs : List ExpertRecord) (w' : Writer)
      → compact_records src disabled w rs ≡ (ok tt, w')
      → Progress src disabled w rs w'
  compact_records-Progress w [] w' h =
      subst (Progress src disabled w []) (compact_records-nil w w' h) (Progress-nil w)
  compact_records-Progress w (r ∷ rs) w' h = elim (Bool-cases (has_key (key r) disabled)) [
    | inl e ↦ Progress-disabled w r rs w' e (
        compact_records-Progress (counted w r) rs w' (
          sym (
            compact_records-ok src disabled w r rs (counted w r)
              (compact_record-disabled src disabled w r e))
          ∙ h))
    | inr e ↦ elim (Bool-cases (leb r.read_bytes (length src - r.file_offset))) [
      | inl enough ↦ Progress-kept w r rs w' e enough (
          compact_records-Progress (added src w r) rs w' (
            sym (
              compact_records-ok src disabled w r rs (added src w r)
                (compact_record-kept src disabled w r e enough))
            ∙ h))
      | inr short ↦ cc (
        h,
        compact_records-err src disabled w r rs short_read _
            (compact_record-short src disabled w r e short),
      )
    ]
  ]
