-- ===== src/Merge/Placed.antt =====
-- The loop over the prototypes: where it has put their payloads.
use mathlib.Core.List.{append_assoc, append-nil}
use in_c_test.Prelude.{
  ℕ, ◌+◌, ◌-◌, ◌%◌, ◌≡◌, refl, sym, ap, subst, ◌∙◌, ◌&&◌, Option, none, some, List, [], ◌∷◌, ◌++◌,
  Result, ok, err, ◌==◌, length, length-append, length-replicate, Bool-cases, inl, inr, arith,
  ==_iff,
}
use in_c_test.Struct.{Bytes}
use in_c_test.ExpertStore.{ExpertRecord, Key, page}
use in_c_test.ExpertStore.Verify.{find_record}
use in_c_test.Merge.{
  MergeError, Output, align_file, blob_of, copy_payload, copy_payloads, next_payload,
}

-- The payload of the prototype `k` stands at the byte `offset` of `out`.
pub record Placed (src : Bytes) (recs : List ExpertRecord) (out : Bytes) (k : Key) (offset : ℕ)
    : Type 0 where
  pub proto : ExpertRecord
  pub found : find_record k recs ≡ some proto
  pub before : Bytes
  pub behind : Bytes
  pub split : out ≡ before ++ (blob_of src proto ++ behind)
  pub here : offset ≡ length before
  pub aligned : offset % page ≡ 0
  pub long : length (blob_of src proto) ≡ proto.read_bytes

length-align_file : (out : Bytes) → length (align_file out) % page ≡ 0
unfolding align_file
length-align_file out =
    ap (λ n. n % page)
      (length-append out _
        ∙ ap (λ n. length out + n) (length-replicate ((page - length out % page) % page) 0))
    ∙ omega arith

module _ (src : Bytes) (recs : List ExpertRecord) where
  abbrev pub AllPlaced : Bytes → List (Key × ℕ) → Type 0
  AllPlaced out [] = Unit {0}
  AllPlaced out ((k, n) ∷ ps) = Placed src recs out k n × AllPlaced out ps

  Placed-append :
      (out tail : Bytes) (k : Key) (n : ℕ)
      → Placed src recs out k n
      → Placed src recs (out ++ tail) k n
  Placed-append out tail k n p = record {
    proto = p.proto;
    found = p.found;
    before = p.before;
    behind = p.behind ++ tail;
    split =
        ap (λ l. l ++ tail) p.split
        ∙ append_assoc p.before (blob_of src p.proto ++ p.behind) tail
        ∙ ap (λ l. p.before ++ l) (append_assoc (blob_of src p.proto) p.behind tail);
    here = p.here;
    aligned = p.aligned;
    long = p.long;
  }

  pub AllPlaced-append :
      (out tail : Bytes) (ps : List (Key × ℕ)) → AllPlaced out ps → AllPlaced (out ++ tail) ps
  AllPlaced-append out tail [] a = tt
  AllPlaced-append out tail ((k, n) ∷ ps) (p, a) =
      (Placed-append out tail k n p, AllPlaced-append out tail ps a)

  pub AllPlaced-align_file :
      (out : Bytes) (ps : List (Key × ℕ)) → AllPlaced out ps → AllPlaced (align_file out) ps
  unfolding align_file
  AllPlaced-align_file out ps a = AllPlaced-append out _ ps a

  AllPlaced-snoc :
      (out : Bytes) (ps : List (Key × ℕ)) (k : Key) (n : ℕ)
      → AllPlaced out ps
      → Placed src recs out k n
      → AllPlaced out (ps ++ (k, n) ∷ [])
  AllPlaced-snoc out [] k n a p = (p, tt)
  AllPlaced-snoc out ((j, m) ∷ ps) k n (q, a) p = (q, AllPlaced-snoc out ps k n a p)

  -- What a payload that was copied adds.
  added_lem :
      (k : Key) (r : ExpertRecord) (o : Output)
      → find_record k recs ≡ some r
      → length (blob_of src r) ≡ r.read_bytes
      → AllPlaced o.out o.places
      → AllPlaced
          (align_file o.out ++ blob_of src r)
          (o.places ++ (k, length (align_file o.out)) ∷ [])
  added_lem k r o found long a =
      AllPlaced-snoc _ o.places k _
        (AllPlaced-append (align_file o.out) (blob_of src r) o.places
          (AllPlaced-align_file o.out o.places a))
        (record {
          proto = r;
          found = found;
          before = align_file o.out;
          behind = [];
          split = ap (λ l. align_file o.out ++ l) (sym (append-nil (blob_of src r)));
          here = refl;
          aligned = length-align_file o.out;
          long = long;
        })

  copy_payload-AllPlaced :
      (k : Key) (x : Option ExpertRecord) (o o' : Output)
      → find_record k recs ≡ x
      → AllPlaced o.out o.places
      → copy_payload src k x o ≡ (ok tt, o')
      → AllPlaced o'.out o'.places
  unfolding copy_payload
  copy_payload-AllPlaced k none o o' found a h = cc
  copy_payload-AllPlaced k (some r) o o' found a h =
      elim (Bool-cases (r.file_offset % page == 0 && r.read_bytes % page == 0)) [
        | inl e ↦ elim (Bool-cases (length (blob_of src r) == r.read_bytes)) [
          | inl e' ↦
              subst (λ (x : Output). AllPlaced x.out x.places) (ap (λ q. q.1) (rw (e, e') at h))
                (added_lem k r o found ((==_iff (length (blob_of src r)) r.read_bytes).0 e') a)
          | inr e' ↦ absurd (let z = rw (e, e') at h in cc)
        ]
        | inr e ↦ absurd (let z = rw e at h in cc)
      ]

  next_AllPlaced :
      (x : Result MergeError (Unit {0}) × Output)
      (f : Output → Result MergeError (Unit {0}) × Output) (o' : Output)
      → ((o : Output) → x ≡ (ok tt, o) → AllPlaced o.out o.places)
      → ((o : Output) → AllPlaced o.out o.places → f o ≡ (ok tt, o') → AllPlaced o'.out o'.places)
      → next_payload x f ≡ (ok tt, o')
      → AllPlaced o'.out o'.places
  next_AllPlaced (ok u, o) f o' first rest h = rest o (first o refl) h
  next_AllPlaced (err e, o) f o' first rest h = cc

  pub copy_payloads-AllPlaced :
      (ks : List Key) (o o' : Output)
      → AllPlaced o.out o.places
      → copy_payloads src recs ks o ≡ (ok tt, o')
      → AllPlaced o'.out o'.places
  unfolding copy_payloads
  copy_payloads-AllPlaced [] o o' a h =
      subst (λ (x : Output). AllPlaced x.out x.places) (ap (λ q. q.1) h) a
  copy_payloads-AllPlaced (k ∷ ks) o o' a h =
      next_AllPlaced (copy_payload src k (find_record k recs) o) (copy_payloads src recs ks) o'
        (λ o1 e. copy_payload-AllPlaced k (find_record k recs) o o1 refl a e)
        (λ o1 a1 e. copy_payloads-AllPlaced ks o1 o' a1 e) h
