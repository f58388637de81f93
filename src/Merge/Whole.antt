-- ===== src/Merge/Whole.antt =====
-- A whole run of the tool.
use in_c_test.Prelude.{
  ℕ, ◌+◌, ◌*◌, ◌≡◌, refl, sym, ap, subst, ◌∙◌, Bool, true, false, ◌&&◌, Option, some, List, [], map,
  Result, ok, err, guard, ◌>>=◌, >>=-eq-ok, ok-injective, leb, ◌==◌, list_eq, list_eq→≡, length,
}
use in_c_test.Struct.{Bytes}
use in_c_test.Json.{Json}
use in_c_test.ExpertStore.{
  Header, ExpertRecord, Key, StoreError, key, page, store_magic, store_version, header_size,
  record_size, unpack_header, write_index,
}
use in_c_test.Merge.{
  MergeError, short_header, bad_header, truncated_records, bin_too_short, duplicate_records, Output,
  Summary, OutFiles, Plan, read_index, records_at, mapping_of, all_different, prototypes_for,
  plan_merge, referenced, align_file, copy_payloads, out_records, out_header, indexed, index_merged,
  copied_payloads, write_merged, merge, find_place,
}
use in_c_test.Merge.Manifest.{LayerMap}
use in_c_test.Merge.Placed.{AllPlaced, AllPlaced-align_file, copy_payloads-AllPlaced}
use in_c_test.Merge.Shared.{
  AllShared, AllShared-length, AllAssigned, prototypes_for-AllAssigned, out_records-AllShared,
}
use in_c_test.Merge.Index.{length-records_at, read_index_written}

-- What a source must be for a plan to be made.
record Planned (src_bin src_idx : Bytes) (manifest : Option Json) (p : Plan) : Type 0 where
  mapping : LayerMap
  read : read_index src_idx ≡ ok (p.header, p.recs)
  mapped : mapping_of manifest ≡ ok mapping
  assigned : AllAssigned mapping p.recs p.prototype_for

guarded :
    {E : Type 0} {A : Type 0} (t : Bool) (e : E) (next : Unit {0} → Result E A) {a : A}
    → (guard t e >>= next) ≡ ok a
    → (t ≡ true) × (next tt ≡ ok a)
guarded true e next h = (refl, h)
guarded false e next h = cc

plan_merge-Planned :
    (src_bin src_idx : Bytes) (manifest : Option Json) (p : Plan)
    → plan_merge src_bin src_idx manifest ≡ ok p
    → Planned src_bin src_idx manifest p
unfolding plan_merge
plan_merge-Planned src_bin src_idx manifest p h =
    let ((hd, recs), e, h1) = >>=-eq-ok (read_index src_idx) _ h in
    let (long, h2) = guarded (leb hd.data_bytes (length src_bin)) bin_too_short _ h1 in
    let (m, e', h3) = >>=-eq-ok (mapping_of manifest) _ h2 in
    let (different, h4) = guarded (all_different (map key recs)) duplicate_records _ h3 in
    let (rks, e'', h5) = >>=-eq-ok (prototypes_for m recs recs) _ h4 in
    subst (Planned src_bin src_idx manifest) (ok-injective h5) (record {
      mapping = m;
      read = e;
      mapped = e';
      assigned = prototypes_for-AllAssigned m recs recs rks e'';
    })

-- What `read_index` says of the header it returns.
record ReadHeader (h : Header) (recs : List ExpertRecord) : Type 0 where
  magic_is : h.magic ≡ store_magic
  supported : (h.version == store_version && h.align == page) ≡ true
  counted : h.n_records ≡ length recs

both : (a b : Bool) → (a && b) ≡ true → (a ≡ true) × (b ≡ true)
both true b h = (refl, h)
both false b h = cc

read_index-ReadHeader :
    (raw : Bytes) (h : Header) (recs : List ExpertRecord)
    → read_index raw ≡ ok (h, recs)
    → ReadHeader h recs
unfolding read_index
read_index-ReadHeader raw h recs e =
    let hd = unpack_header raw in
    let (long, e1) = guarded (leb header_size (length raw)) short_header _ e in
    let (good, e2) =
      guarded (list_eq hd.magic store_magic && (hd.version == store_version && hd.align == page))
        bad_header _ e1 in
    let (whole, e3) =
      guarded (leb (hd.records_offset + hd.n_records * record_size) (length raw)) truncated_records
        _ e2 in
    let (magic, supported) =
      both (list_eq hd.magic store_magic) (hd.version == store_version && hd.align == page) good in
    let same : (hd, records_at raw hd.n_records hd.records_offset) ≡ (h, recs) = ok-injective e3 in
    subst (λ (x : Header × List ExpertRecord). ReadHeader x.0 x.1) same
      (record {
        magic_is = list_eq→≡ hd.magic store_magic magic;
        supported = supported;
        counted = sym (length-records_at raw hd.n_records hd.records_offset);
      })

-- A merged store: the source was read, and the index that was written reads back as its header, for
-- the new data file, with a record for each of its records that shares the payload of its prototype.
pub record Merged (src_bin src_idx : Bytes) (manifest : Option Json) (files : OutFiles)
    : Type 0 where
  pub header : Header
  pub recs : List ExpertRecord
  pub mapping : LayerMap
  pub out : Bytes
  pub index : Bytes
  pub place : Key → Option ℕ
  pub records : List ExpertRecord
  pub source_read : read_index src_idx ≡ ok (header, recs)
  pub manifest_read : mapping_of manifest ≡ ok mapping
  pub data_written : files.out_bin ≡ some out
  pub index_written : files.out_idx ≡ some index
  pub index_read : read_index index ≡ ok (out_header header out, records)
  pub all_shared : AllShared mapping recs src_bin out place recs records

module _ (src_bin src_idx : Bytes) (manifest : Option Json) (p : Plan)
    (pl : Planned src_bin src_idx manifest p) (s : Summary) (files : OutFiles) where
  module _ (o : Output) (placed : AllPlaced src_bin p.recs (align_file o.out) o.places)
      (rs : List ExpertRecord) (made : out_records p.recs o.places p.prototype_for ≡ ok rs) where
    indexed-Merged :
        (x : Result StoreError (Unit {0}) × Bytes)
        → write_index (out_header p.header (align_file o.out)) rs ≡ x
        → indexed p src_bin (align_file o.out) x ≡ (ok s, files)
        → Merged src_bin src_idx manifest files
    indexed-Merged (err e, index) w h = cc
    indexed-Merged (ok u, index) w h =
        let a =
          out_records-AllShared pl.mapping p.recs src_bin (align_file o.out) o.places placed p.recs
            p.prototype_for rs pl.assigned made in
        let hd = read_index-ReadHeader src_idx p.header p.recs pl.read in
        let written = ap (λ q. q.1) h in
        record {
          header = p.header;
          recs = p.recs;
          mapping = pl.mapping;
          out = align_file o.out;
          index = index;
          place = λ k. find_place k o.places;
          records = rs;
          source_read = pl.read;
          manifest_read = pl.mapped;
          data_written = sym (ap (λ (f : OutFiles). f.out_bin) written);
          index_written = sym (ap (λ (f : OutFiles). f.out_idx) written);
          index_read =
              read_index_written (out_header p.header (align_file o.out)) rs index hd.magic_is refl
                (hd.counted
                  ∙ AllShared-length pl.mapping p.recs src_bin (align_file o.out)
                      (λ k. find_place k o.places) p.recs rs a)
                hd.supported w;
          all_shared = a;
        }

  index_merged-Merged :
      (o : Output) (x : Result MergeError (List ExpertRecord))
      → AllPlaced src_bin p.recs (align_file o.out) o.places
      → out_records p.recs o.places p.prototype_for ≡ x
      → index_merged p src_bin (align_file o.out) x ≡ (ok s, files)
      → Merged src_bin src_idx manifest files
  index_merged-Merged o (err e) a made h = cc
  index_merged-Merged o (ok rs) a made h = indexed-Merged o a rs made _ refl h

  copied_payloads-Merged :
      (x : Result MergeError (Unit {0}) × Output)
      → copy_payloads src_bin p.recs (referenced p.prototype_for) (record { out = []; places = [] })
        ≡ x
      → copied_payloads p src_bin x ≡ (ok s, files)
      → Merged src_bin src_idx manifest files
  copied_payloads-Merged (err e, o) c h = cc
  copied_payloads-Merged (ok u, o) c h =
      index_merged-Merged o _
        (AllPlaced-align_file src_bin p.recs o.out o.places
          (copy_payloads-AllPlaced src_bin p.recs (referenced p.prototype_for) _ o tt c))
        refl h

write_merged-Merged :
    (src_bin src_idx : Bytes) (manifest : Option Json) (s : Summary) (files : OutFiles)
    (x : Result MergeError Plan)
    → plan_merge src_bin src_idx manifest ≡ x
    → write_merged src_bin x ≡ (ok s, files)
    → Merged src_bin src_idx manifest files
write_merged-Merged src_bin src_idx manifest s files (err e) c h = cc
write_merged-Merged src_bin src_idx manifest s files (ok p) c h =
    copied_payloads-Merged src_bin src_idx manifest p
      (plan_merge-Planned src_bin src_idx manifest p c) s files _ refl h

-- A run that returns has read the source and the manifest, and has written an index that reads back
-- with one record for each record of the source, in order: with its layer and number, and with the
-- other fields of its prototype but for the place, which is the prototype's, is aligned, lies in the
-- data file and holds the bytes of the prototype's payload.
pub merge-Merged :
    (src_bin src_idx : Bytes) (manifest : Option Json) (s : Summary) (files : OutFiles)
    → merge src_bin src_idx manifest ≡ (ok s, files)
    → Merged src_bin src_idx manifest files
unfolding merge
merge-Merged src_bin src_idx manifest s files h =
    write_merged-Merged src_bin src_idx manifest s files (plan_merge src_bin src_idx manifest) refl
      h
