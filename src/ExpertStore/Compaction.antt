-- ===== src/ExpertStore/Compaction.antt =====
-- `compact_store` as a whole: what stands in the three files that it wrote.
use in_c_test.Prelude.{
  ℕ, ◌≡◌, ◌≢◌, refl, sym, ap, ◌∙◌, subst, Bool, true, false, ◌||◌, Option, some, List, [], Result,
  ok, err, ◌==◌, if◌then◌else◌, ok-injective, length, Bool-cases, inl, inr, arith,
}
use in_c_test.Struct.{Bytes}
use in_c_test.ExpertStore.{ExpertRecord, StoreError, read_index, write_index, overwrites_source}
use in_c_test.ExpertStore.Mask.{read_mask, mask_text, sorted}
use in_c_test.ExpertStore.Files.{FilePath, Files, put, mask_sidecar_path}
use in_c_test.ExpertStore.Compact.{
  Paths, Writing, Source, Writer, Report, compact_store, compact_records, compact_checked,
  check_source, fresh_writer, output_header, report, emit, emit_index,
}
use in_c_test.ExpertStore.Compacted.{Moved, Laid, remaining, compact_records-Progress}
use in_c_test.ExpertStore.RoundTrip.{read_index-write_index}
use in_c_test.ExpertStore.Sidecar.{read_mask-mask_text}
use in_c_test.ExpertStore.MaskReader.{read_mask-Distinct}
use in_c_test.ExpertStore.Checked.{check_source-Parts, read_index-Readable}
use in_c_test.ExpertStore.Reader.{Readable-Moved}

-- The stages of a successful run.
pub record Stages (src_idx mask src_bin : Option Bytes) (allow : Bool) (s : Source) (w : Writer)
    (index : Bytes) : Type 0 where
  pub checked : check_source src_idx mask src_bin allow ≡ ok s
  pub looped : compact_records s.bytes s.disabled fresh_writer s.meta.records ≡ (ok tt, w)
  pub indexed : write_index (output_header s w) w.kept ≡ (ok tt, index)

module _ (resolve : FilePath → ℕ) (p : Paths) (allow : Bool) (fs : Files) where
  abbrev pub checked_source : Result StoreError Source
  checked_source =
      check_source (fs (resolve p.src_idx)) (fs (resolve p.mask)) (fs (resolve p.src_bin)) allow

  -- The files after a successful run.
  abbrev pub written : Source → Writer → Bytes → Files
  written s w index =
      put (put (put fs (resolve p.dst_bin) w.out) (resolve p.dst_idx) index)
        (resolve (mask_sidecar_path p.dst_idx)) (mask_text s.disabled)

  pub record Success (rep : Report) (fs' : Files) : Type 0 where
    pub source : Source
    pub writer : Writer
    pub index : Bytes
    pub stages :
        Stages
          (fs (resolve p.src_idx))
          (fs (resolve p.mask))
          (fs (resolve p.src_bin))
          allow
          source
          writer
          index
    pub files : fs' ≡ written source writer index
    pub reported : rep ≡ report source writer (mask_sidecar_path p.dst_idx)

  abbrev same_files : Bool
  same_files = resolve p.dst_bin == resolve p.src_bin || resolve p.dst_idx == resolve p.src_idx

  pub compact_store-eq : compact_store resolve p allow fs ≡ (
      if same_files
      then (err overwrites_source, fs)
      else compact_checked resolve p fs checked_source)
  unfolding compact_store
  compact_store-eq = refl

  record Indexed (s : Source) (w : Writer) (rep : Report) (fs' : Files) (x : Writing) : Type 0 where
    index : Bytes
    outcome : x ≡ (ok tt, index)
    files : fs' ≡ written s w index
    reported : rep ≡ report s w (mask_sidecar_path p.dst_idx)

  emit_index-Indexed :
      (s : Source) (w : Writer) (rep : Report) (fs' : Files) (x : Writing)
      → emit_index resolve p s w (put fs (resolve p.dst_bin) w.out) x ≡ (ok rep, fs')
      → Indexed s w rep fs' x
  emit_index-Indexed s w rep fs' (ok _, index) h = record {
    index = index;
    outcome = refl;
    files = sym (ap (λ q. q.1) h);
    reported = sym (ok-injective (ap (λ q. q.0) h));
  }
  emit_index-Indexed s w rep fs' (err e, index) h = cc

  emit-Success :
      (s : Source) (rep : Report) (fs' : Files) (x : Result StoreError (Unit {0}) × Writer)
      → checked_source ≡ ok s
      → compact_records s.bytes s.disabled fresh_writer s.meta.records ≡ x
      → emit resolve p fs s x ≡ (ok rep, fs')
      → Success rep fs'
  emit-Success s rep fs' (err e, w) c l h = cc
  emit-Success s rep fs' (ok _, w) c l h =
      let i = emit_index-Indexed s w rep fs' (write_index (output_header s w) w.kept) h in
      record {
        source = s;
        writer = w;
        index = i.index;
        stages = record { checked = c; looped = l; indexed = i.outcome };
        files = i.files;
        reported = i.reported;
      }

  compact_checked-Success :
      (rep : Report) (fs' : Files) (x : Result StoreError Source)
      → checked_source ≡ x
      → compact_checked resolve p fs x ≡ (ok rep, fs')
      → Success rep fs'
  compact_checked-Success rep fs' (err e) c h = cc
  compact_checked-Success rep fs' (ok s) c h = emit-Success s rep fs' _ c refl h

  pub compact_store-Success :
      (rep : Report) (fs' : Files)
      → compact_store resolve p allow fs ≡ (ok rep, fs')
      → Success rep fs'
  compact_store-Success rep fs' h = elim (Bool-cases same_files) [
    | inl e ↦ cc (refused e, h)
    | inr e ↦ compact_checked-Success rep fs' checked_source refl (sym (went_on e) ∙ h)
  ]
    where
      refused : same_files ≡ true → compact_store resolve p allow fs ≡ (err overwrites_source, fs)
      refused e = compact_store-eq ∙ (rw e refl)

      went_on :
          same_files ≡ false
          → compact_store resolve p allow fs ≡ compact_checked resolve p fs checked_source
      went_on e = compact_store-eq ∙ (rw e refl)

-- A store without the disabled experts, in the three files of the destination: the data, the index
-- that leads to it, and the sidecar.
pub record Compacted (data_file index_file sidecar_file : Option Bytes) (s : Source) : Type 0 where
  pub out : Bytes
  pub index : Bytes
  pub records : List ExpertRecord
  pub data_written : data_file ≡ some out
  pub index_written : index_file ≡ some index
  pub index_read :
      read_index index
      ≡ ok (record {
        n_layers = s.meta.n_layers;
        n_experts = s.meta.n_experts;
        n_records = length records;
        data_bytes = length out;
        records = records;
      })
  pub same_records : Moved s.bytes out (remaining s.disabled s.meta.records) records
  pub apart : Laid 0 records
  pub sidecar_written : sidecar_file ≡ some (mask_text s.disabled)
  pub sidecar_read : read_mask (mask_text s.disabled) ≡ ok (sorted s.disabled)

put_self : (fs : Files) (i : ℕ) (b : Bytes) → put fs i b i ≡ some b
put_self fs i b = ground arith

pub put-other : (fs : Files) (i j : ℕ) (b : Bytes) → j ≢ i → put fs i b j ≡ fs j
put-other fs i j b h = ground arith

module _ (resolve : FilePath → ℕ) (p : Paths) where
  abbrev pub data_id : ℕ
  data_id = resolve p.dst_bin

  abbrev pub index_id : ℕ
  index_id = resolve p.dst_idx

  abbrev pub sidecar_id : ℕ
  sidecar_id = resolve (mask_sidecar_path p.dst_idx)

  -- The destination is three files.
  abbrev pub ThreeFiles : Type 0
  ThreeFiles = (data_id ≢ index_id) × (data_id ≢ sidecar_id) × (index_id ≢ sidecar_id)

  Stages-Compacted :
      (allow : Bool) (fs : Files) (s : Source) (w : Writer) (index : Bytes)
      → ThreeFiles
      → Stages
          (fs (resolve p.src_idx))
          (fs (resolve p.mask))
          (fs (resolve p.src_bin))
          allow
          s
          w
          index
      → Compacted
          (written resolve p allow fs s w index data_id)
          (written resolve p allow fs s w index index_id)
          (written resolve p allow fs s w index sidecar_id)
          s
  Stages-Compacted allow fs s w index apart st =
      let parts = check_source-Parts _ _ _ allow s st.checked in
      let prog =
        compact_records-Progress s.bytes s.disabled fresh_writer s.meta.records w st.looped in
      let (readable, _) = read_index-Readable parts.index s.meta parts.index_read in
      let (distinct, nonempty) = read_mask-Distinct parts.mask_bytes s.disabled parts.mask_read in
      let moved : Moved s.bytes w.out (remaining s.disabled s.meta.records) w.kept =
        subst (Moved s.bytes w.out (remaining s.disabled s.meta.records)) (sym prog.kept)
          prog.moved_all in
      let fs1 = put fs data_id w.out in
      let fs2 = put fs1 index_id index in
      record {
        out = w.out;
        index = index;
        records = w.kept;
        data_written =
            put-other fs2 sidecar_id data_id _ apart.1
            ∙ put-other fs1 index_id data_id index apart.0
            ∙ put_self fs data_id w.out;
        index_written = put-other fs2 sidecar_id index_id _ apart.2 ∙ put_self fs1 index_id index;
        index_read =
            read_index-write_index s.meta.n_layers s.meta.n_experts (length w.out) w.kept index
              st.indexed
              (Readable-Moved s.meta.n_layers s.meta.n_experts s.bytes w.out s.disabled [] []
                s.meta.records w.kept (λ j h. h) readable moved);
        same_records = moved;
        apart = subst (Laid 0) (sym prog.kept) prog.laid;
        sidecar_written = put_self fs2 sidecar_id (mask_text s.disabled);
        sidecar_read = read_mask-mask_text s.disabled distinct ∙ nonempty;
      }

  -- A run that returns has read a valid source, and has written a store of its records that are
  -- not disabled: the index is read back and holds them in order, each with a page-aligned place
  -- of its own in the data file that holds the bytes of its source, and the sidecar is read back
  -- as the mask. The three files of the destination must be different files.
  pub compact_store-Compacted :
      (allow : Bool) (fs : Files) (rep : Report) (fs' : Files)
      → ThreeFiles
      → compact_store resolve p allow fs ≡ (ok rep, fs')
      → (s : Source) × (checked_source resolve p allow fs ≡ ok s)
        × Compacted (fs' data_id) (fs' index_id) (fs' sidecar_id) s
  compact_store-Compacted allow fs rep fs' apart h =
      let y = compact_store-Success resolve p allow fs rep fs' h in
      (
        y.source,
        y.stages.checked,
        subst (λ (g : Files). Compacted (g data_id) (g index_id) (g sidecar_id) y.source)
            (sym y.files) (Stages-Compacted allow fs y.source y.writer y.index apart y.stages),
      )
