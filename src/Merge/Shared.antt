-- ===== src/Merge/Shared.antt =====
-- The records of a merged store: each leads to the payload of its prototype.
use mathlib.Core.List.{append_assoc}
use in_c_test.Prelude.{
  ℕ, suc, ◌+◌, ◌%◌, ◌≤◌, ◌≡◌, refl, sym, ap, subst, ◌∙◌, Option, none, some, List, [], ◌∷◌, ◌++◌,
  map, ok, >>=-eq-ok, ok-injective, length, length-append, Bool-cases, inl, inr, arith,
}
use in_c_test.Prelude.Int.{ℤ, pos, negsuc}
use in_c_test.Struct.{Bytes}
use in_c_test.ExpertStore.{ExpertRecord, Key, key, key_eq, has_key, page}
use in_c_test.ExpertStore.KeySets.{key_eq→≡}
use in_c_test.ExpertStore.Copy.{slice}
use in_c_test.ExpertStore.Compacted.{slice-append}
use in_c_test.ExpertStore.Verify.{find_record}
use in_c_test.Merge.{present, prototypes_for, find_place, shared, out_records, blob_of}
use in_c_test.Merge.Manifest.{LayerMap, prototype}
use in_c_test.Merge.Placed.{Placed, AllPlaced}

-- What the record `r` of the source becomes: `place` tells where a prototype is put.
pub record SharedRecord (m : LayerMap) (recs : List ExpertRecord) (src out : Bytes)
    (place : Key → Option ℕ) (r r' : ExpertRecord) : Type 0 where
  pub proto : ExpertRecord
  pub number : ℕ
  pub assigned : prototype m r.layer r.expert ≡ pos number
  pub found : find_record (r.layer, number) recs ≡ some proto
  pub placed : place (r.layer, number) ≡ some r'.file_offset
  pub same : r' ≡ record proto { layer = r.layer; expert = r.expert; file_offset = r'.file_offset }
  pub aligned : r'.file_offset % page ≡ 0
  pub stored : slice out r'.file_offset r'.read_bytes ≡ slice src proto.file_offset proto.read_bytes
  pub inside : r'.file_offset + r'.read_bytes ≤ length out

module _ (m : LayerMap) (recs : List ExpertRecord) (src out : Bytes) (place : Key → Option ℕ) where
  abbrev pub AllShared : List ExpertRecord → List ExpertRecord → Type 0
  AllShared [] [] = Unit {0}
  AllShared [] (k ∷ ks) = ⊥
  AllShared (r ∷ rs) [] = ⊥
  AllShared (r ∷ rs) (k ∷ ks) = SharedRecord m recs src out place r k × AllShared rs ks

  pub AllShared-length : (rs ks : List ExpertRecord) → AllShared rs ks → length rs ≡ length ks
  AllShared-length [] [] a = refl
  AllShared-length [] (k ∷ ks) a = absurd a
  AllShared-length (r ∷ rs) [] a = absurd a
  AllShared-length (r ∷ rs) (k ∷ ks) a = ap suc (AllShared-length rs ks a.1)

find_place-Placed :
    (src : Bytes) (recs : List ExpertRecord) (out : Bytes) (places : List (Key × ℕ)) (k : Key)
    (n : ℕ)
    → AllPlaced src recs out places
    → find_place k places ≡ some n
    → Placed src recs out k n
unfolding find_place
find_place-Placed src recs out [] k n a h = cc
find_place-Placed src recs out ((j, i) ∷ ps) k n (p, a) h = elim (Bool-cases (key_eq k j)) [
  | inl e ↦
      let at_i : i ≡ n = (let z = rw e at h in cc) in
      subst (λ x. Placed src recs out k x) at_i
        (subst (λ x. Placed src recs out x i) (sym (key_eq→≡ k j e)) p)
  | inr e ↦ find_place-Placed src recs out ps k n a (rw e at h)
]

-- A record with the key of its prototype.
pub record Assigned (m : LayerMap) (r : ExpertRecord) (k : Key) : Type 0 where
  pub number : ℕ
  pub key_is : k ≡ (r.layer, number)
  pub prototype_is : prototype m r.layer r.expert ≡ pos number

present-Assigned :
    (recs : List ExpertRecord) (r : ExpertRecord) (p : ℤ) (k : Key)
    → present recs r.layer p ≡ ok k
    → (n : ℕ) × (k ≡ (r.layer, n)) × (p ≡ pos n)
present-Assigned recs r (pos n) k h = elim (Bool-cases (has_key (r.layer, n) (map key recs))) [
  | inl e ↦ (n, sym (ok-injective (rw e at h)), refl)
  | inr e ↦ absurd (let z = rw e at h in cc)
]
present-Assigned recs r (negsuc n) k h = cc

abbrev pub AllAssigned : LayerMap → List ExpertRecord → List (ExpertRecord × Key) → Type 0
AllAssigned m [] [] = Unit {0}
AllAssigned m [] (rk ∷ rks) = ⊥
AllAssigned m (r ∷ rs) [] = ⊥
AllAssigned m (r ∷ rs) ((r', k) ∷ rks) = (r' ≡ r) × (Assigned m r k × AllAssigned m rs rks)

pub prototypes_for-AllAssigned :
    (m : LayerMap) (all rs : List ExpertRecord) (rks : List (ExpertRecord × Key))
    → prototypes_for m all rs ≡ ok rks
    → AllAssigned m rs rks
unfolding prototypes_for
prototypes_for-AllAssigned m all [] rks h = subst (AllAssigned m []) (ok-injective h) tt
prototypes_for-AllAssigned m all (r ∷ rs) rks h =
    let (k, e, h') = >>=-eq-ok (present all r.layer (prototype m r.layer r.expert)) _ h in
    let (rest, e', h'') = >>=-eq-ok (prototypes_for m all rs) _ h' in
    let (n, key_is, prototype_is) = present-Assigned all r (prototype m r.layer r.expert) k e in
    subst (AllAssigned m (r ∷ rs)) (ok-injective h'') (
      refl,
      (
        record { number = n; key_is = key_is; prototype_is = prototype_is },
        prototypes_for-AllAssigned m all rs rest e',
      ),
    )

module _ (m : LayerMap) (recs : List ExpertRecord) (src out : Bytes) (places : List (Key × ℕ))
    (all_placed : AllPlaced src recs out places) where
  abbrev place : Key → Option ℕ
  place k = find_place k places

  placed_lem :
      (r pr : ExpertRecord) (k : Key) (n : ℕ)
      → Assigned m r k
      → place k ≡ some n
      → find_record k recs ≡ some pr
      → SharedRecord m recs src out place r
          (record pr { layer = r.layer; expert = r.expert; file_offset = n })
  placed_lem r pr k n a e f =
      let p = find_place-Placed src recs out places k n all_placed e in
      let proto : p.proto ≡ pr = (let z = sym p.found ∙ f in cc) in
      let long : length (blob_of src pr) ≡ pr.read_bytes =
        subst (λ x. length (blob_of src x) ≡ x.read_bytes) proto p.long in
      let split : out ≡ p.before ++ (blob_of src pr ++ p.behind) =
        subst (λ x. out ≡ p.before ++ (blob_of src x ++ p.behind)) proto p.split in
      record {
        proto = pr;
        number = a.number;
        assigned = a.prototype_is;
        found = subst (λ x. find_record x recs ≡ some pr) a.key_is f;
        placed = subst (λ x. place x ≡ some n) a.key_is e;
        same = refl;
        aligned = p.aligned;
        stored =
            ap (λ l. slice l n pr.read_bytes) split
            ∙ ap (λ x. slice (p.before ++ (blob_of src pr ++ p.behind)) x pr.read_bytes) p.here
            ∙ sym (
                ap (λ l. slice l (length p.before) pr.read_bytes)
                  (append_assoc p.before (blob_of src pr) p.behind))
            ∙ slice-append p.before (blob_of src pr) p.behind pr.read_bytes long;
        inside = omega (
          arith,
          ap length split,
          length-append p.before (blob_of src pr ++ p.behind),
          length-append (blob_of src pr) p.behind,
          long,
          p.here,
        );
      }

  shared-SharedRecord :
      (r r' : ExpertRecord) (k : Key) (n : Option ℕ) (pr : Option ExpertRecord)
      → Assigned m r k
      → place k ≡ n
      → find_record k recs ≡ pr
      → shared r n pr ≡ ok r'
      → SharedRecord m recs src out place r r'
  shared-SharedRecord r r' k (some n) (some pr) a e f h =
      subst (λ x. SharedRecord m recs src out place r x) (ok-injective h)
        (placed_lem r pr k n a e f)
  shared-SharedRecord r r' k none pr a e f h = cc
  shared-SharedRecord r r' k (some n) none a e f h = cc

  pub out_records-AllShared :
      (rs : List ExpertRecord) (rks : List (ExpertRecord × Key)) (ks : List ExpertRecord)
      → AllAssigned m rs rks
      → out_records recs places rks ≡ ok ks
      → AllShared m recs src out place rs ks
  unfolding out_records
  out_records-AllShared [] [] ks a h = subst (AllShared m recs src out place []) (ok-injective h) tt
  out_records-AllShared [] (rk ∷ rks) ks a h = absurd a
  out_records-AllShared (r ∷ rs) [] ks a h = absurd a
  out_records-AllShared (r ∷ rs) ((r1, k) ∷ rks) ks (same, (a, others)) h =
      let (r', e, h') = >>=-eq-ok (shared r1 (find_place k places) (find_record k recs)) _ h in
      let (rest, e', h'') = >>=-eq-ok (out_records recs places rks) _ h' in
      subst (AllShared m recs src out place (r ∷ rs)) (ok-injective h'') (
        shared-SharedRecord r r' k (find_place k places) (find_record k recs) a refl refl
            (ap (λ x. shared x (find_place k places) (find_record k recs)) (sym same) ∙ e),
        out_records-AllShared rs rks rest others e',
      )
