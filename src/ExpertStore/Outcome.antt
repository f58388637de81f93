-- ===== src/ExpertStore/Outcome.antt =====
-- When the copying loop of `compact_store` returns, and when it raises.
use in_c_test.Prelude.{
  ◌-◌, ◌≡◌, refl, sym, ap, ◌∙◌, Bool, true, false, ◌&&◌, List, [], ◌∷◌, Result, ok, err, leb,
  if◌then◌else◌, length, Bool-cases, inl, inr,
}
use in_c_test.Struct.{Bytes}
use in_c_test.ExpertStore.{ExpertRecord, Key, StoreError, key, has_key, short_read}
use in_c_test.ExpertStore.Compact.{Writer, compact_records}
use in_c_test.ExpertStore.Compacted.{
  remaining, counted, added, compact_record-disabled, compact_record-kept, compact_record-short,
  compact_records-ok, compact_records-err,
}

-- Whether the data file holds the bytes of each of the records.
unfoldable pub all_available : Bytes → List ExpertRecord → Bool
all_available src [] = true
all_available src (r ∷ rs) = leb r.read_bytes (length src - r.file_offset) && all_available src rs

abbrev pub outcome : Bool → Result StoreError (Unit {0})
outcome b = if b then ok tt else err short_read

remaining-disabled :
    (disabled : List Key) (r : ExpertRecord) (rs : List ExpertRecord)
    → has_key (key r) disabled ≡ true
    → remaining disabled (r ∷ rs) ≡ remaining disabled rs
unfolding remaining
remaining-disabled disabled r rs e = rw e refl

remaining-kept :
    (disabled : List Key) (r : ExpertRecord) (rs : List ExpertRecord)
    → has_key (key r) disabled ≡ false
    → remaining disabled (r ∷ rs) ≡ r ∷ remaining disabled rs
unfolding remaining
remaining-kept disabled r rs e = rw e refl

all_available-cons :
    (src : Bytes) (r : ExpertRecord) (rs : List ExpertRecord) (b : Bool)
    → leb r.read_bytes (length src - r.file_offset) ≡ b
    → all_available src (r ∷ rs) ≡ (b && all_available src rs)
unfolding all_available
all_available-cons src r rs b e = ap (λ c. c && all_available src rs) e

-- The loop returns where the source holds the bytes of every record that is not disabled, and raises
-- a short read where it does not.
pub compact_records-outcome :
    (src : Bytes) (disabled : List Key) (w : Writer) (rs : List ExpertRecord)
    → (compact_records src disabled w rs).0 ≡ outcome (all_available src (remaining disabled rs))
compact_records-outcome src disabled w [] =
    unfold compact_records in unfold remaining in unfold all_available in refl
compact_records-outcome src disabled w (r ∷ rs) = elim (Bool-cases (has_key (key r) disabled)) [
  | inl e ↦
      ap (λ p. p.0)
        (compact_records-ok src disabled w r rs (counted w r)
          (compact_record-disabled src disabled w r e))
      ∙ compact_records-outcome src disabled (counted w r) rs
      ∙ ap (λ l. outcome (all_available src l)) (sym (remaining-disabled disabled r rs e))
  | inr e ↦
      let same = ap (λ l. outcome (all_available src l)) (sym (remaining-kept disabled r rs e)) in
      elim (Bool-cases (leb r.read_bytes (length src - r.file_offset))) [
        | inl enough ↦
            ap (λ p. p.0)
              (compact_records-ok src disabled w r rs (added src w r)
                (compact_record-kept src disabled w r e enough))
            ∙ compact_records-outcome src disabled (added src w r) rs
            ∙ ap outcome (sym (all_available-cons src r (remaining disabled rs) true enough))
            ∙ same
        | inr short ↦
            ap (λ p. p.0)
              (compact_records-err src disabled w r rs short_read _
                (compact_record-short src disabled w r e short))
            ∙ ap outcome (sym (all_available-cons src r (remaining disabled rs) false short))
            ∙ same
      ]
]
