-- ===== src/Api/Supported.antt =====
-- Which contents `_flatten_text_content` takes, at any depth.
use in_c_test.Prelude.{
  ◌≡◌, refl, ap, ◌∙◌, ◌↔◌, true, false, ok, Result, list_eq, list_eq→≡, Bool-cases, inl, inr,
  >>=-eq-ok, List, [], ◌∷◌,
}
use in_c_test.Text.{Str, codes}
use in_c_test.Json.{
  Json, null, bool, int, real, str, arr, obj, Items, nil, cons, Fields, end, field, get,
  get_or_default, is_str,
}
use in_c_test.Api.{ApiError, Python}
use in_c_test.Api.Content.{
  is_text_kind, is_image_kind, kind_of, flatten, flatten_blocks, flatten_block, flatten_content,
  block_part, joined, text_block, tool_result, tool_use,
}

abbrev content_of : Fields → Json
content_of fs = get_or_default (codes "content") (str []) fs

-- Contents of text, of calls of tools, and of results of tools that are such contents again.
mutual
  pub data Supported : Json → Type 0 where
    nothing : Supported null
    plain : (s : Str) → Supported (str s)
    blocks : {vs : Items} → SupportedBlocks vs → Supported (arr vs)

  pub data SupportedBlocks : Items → Type 0 where
    done : SupportedBlocks nil
    more :
        {v : Json} {vs : Items}
        → SupportedBlock v
        → SupportedBlocks vs
        → SupportedBlocks (cons v vs)

  pub data SupportedBlock : Json → Type 0 where
    line : (s : Str) → SupportedBlock (str s)
    texts : (fs : Fields) → is_text_kind (kind_of fs) ≡ true → SupportedBlock (obj fs)
    result :
        (fs : Fields)
        → is_str (codes "tool_result") (kind_of fs) ≡ true
        → Supported (content_of fs)
        → SupportedBlock (obj fs)
    call : (fs : Fields) → is_str (codes "tool_use") (kind_of fs) ≡ true → SupportedBlock (obj fs)

is_str→≡ : (t : Str) (k : Json) → is_str t k ≡ true → k ≡ str t
is_str→≡ t (str s) h = ap str (list_eq→≡ s t h)
is_str→≡ t null h = cc
is_str→≡ t (bool b) h = cc
is_str→≡ t (int n) h = cc
is_str→≡ t (real r) h = cc
is_str→≡ t (arr vs) h = cc
is_str→≡ t (obj fs) h = cc

not_text_result : (k : Json) → is_str (codes "tool_result") k ≡ true → is_text_kind k ≡ false
not_text_result k h = rw (is_str→≡ (codes "tool_result") k h) (unfold list_eq in refl)

not_text_use : (k : Json) → is_str (codes "tool_use") k ≡ true → is_text_kind k ≡ false
not_text_use k h = rw (is_str→≡ (codes "tool_use") k h) (unfold list_eq in refl)

not_result_use :
    (k : Json) → is_str (codes "tool_use") k ≡ true → is_str (codes "tool_result") k ≡ false
not_result_use k h = rw (is_str→≡ (codes "tool_use") k h) (unfold list_eq in refl)

module _ (py : Python) where
  part_text :
      (fs : Fields) (k : Json) (body : Result ApiError Str)
      → is_text_kind k ≡ true
      → block_part py fs k body ≡ ok (text_block py fs)
  unfolding block_part
  part_text fs k body h = rw h refl

  part_result :
      (fs : Fields) (k : Json) (s : Str)
      → is_str (codes "tool_result") k ≡ true
      → block_part py fs k (ok s) ≡ ok (tool_result py fs s)
  unfolding block_part
  part_result fs k s h = rw (not_text_result k h, h) refl

  part_use :
      (fs : Fields) (k : Json) (body : Result ApiError Str)
      → is_str (codes "tool_use") k ≡ true
      → block_part py fs k body ≡ ok (tool_use py fs)
  unfolding block_part
  part_use fs k body h = rw (not_text_use k h, not_result_use k h, h) refl

  -- A part that is returned is of one of the three kinds.
  part_sound :
      (fs : Fields) (body : Result ApiError Str) {s : Str}
      → ((b : Str) → body ≡ ok b → Supported (content_of fs))
      → block_part py fs (kind_of fs) body ≡ ok s
      → SupportedBlock (obj fs)
  unfolding block_part
  part_sound fs body inner h = elim (Bool-cases (is_text_kind (kind_of fs))) [
    | inl e ↦ texts fs e
    | inr e ↦ elim (Bool-cases (is_str (codes "tool_result") (kind_of fs))) [
      | inl e' ↦
          let (b, found, _) = >>=-eq-ok body _ (rw (e, e') at h) in result fs e' (inner b found)
      | inr e' ↦ elim (Bool-cases (is_str (codes "tool_use") (kind_of fs))) [
        | inl e'' ↦ call fs e''
        | inr e'' ↦ elim (Bool-cases (is_image_kind (kind_of fs))) [
          | inl i ↦ absurd (let h' = rw (e, e', e'', i) at h in cc)
          | inr i ↦ absurd (let h' = rw (e, e', e'', i) at h in cc)
        ]
      ]
    ]
  ]

  mutual
    unfolding flatten get

    flatten_sound : (v : Json) (s : Str) → flatten py v ≡ ok s → Supported v
    flatten_sound null s h = nothing
    flatten_sound (str t) s h = plain t
    flatten_sound (arr vs) s h =
        let (parts, e, _) = >>=-eq-ok (flatten_blocks py vs) _ h in
        blocks (flatten_blocks_sound vs parts e)
    flatten_sound (bool b) s h = cc
    flatten_sound (int n) s h = cc
    flatten_sound (real r) s h = cc
    flatten_sound (obj fs) s h = cc

    flatten_blocks_sound :
        (vs : Items) (parts : List Str) → flatten_blocks py vs ≡ ok parts → SupportedBlocks vs
    flatten_blocks_sound nil parts h = done
    flatten_blocks_sound (cons v vs) parts h =
        let (p, e, h') = >>=-eq-ok (flatten_block py v) _ h in
        let (ps, e', _) = >>=-eq-ok (flatten_blocks py vs) _ h' in
        more (flatten_block_sound v p e) (flatten_blocks_sound vs ps e')

    flatten_block_sound : (v : Json) (s : Str) → flatten_block py v ≡ ok s → SupportedBlock v
    flatten_block_sound (str t) s h = line t
    flatten_block_sound (obj fs) s h =
        part_sound fs (flatten_content py fs) (flatten_content_sound fs) h
    flatten_block_sound null s h = cc
    flatten_block_sound (bool b) s h = cc
    flatten_block_sound (int n) s h = cc
    flatten_block_sound (real r) s h = cc
    flatten_block_sound (arr vs) s h = cc

    flatten_content_sound :
        (fs : Fields) (s : Str) → flatten_content py fs ≡ ok s → Supported (content_of fs)
    flatten_content_sound end s h = plain []
    flatten_content_sound (field k v fs) s h = elim (Bool-cases (list_eq k (codes "content"))) [
      | inl e ↦ rw e (flatten_sound v s (rw e at h))
      | inr e ↦ rw e (flatten_content_sound fs s (rw e at h))
    ]

  flatten_content-eq : (fs : Fields) → flatten_content py fs ≡ flatten py (content_of fs)
  unfolding flatten get
  flatten_content-eq end = refl
  flatten_content-eq (field k v fs) = elim (Bool-cases (list_eq k (codes "content"))) [
    | inl e ↦ rw e refl
    | inr e ↦ rw e (flatten_content-eq fs)
  ]

  mutual
    unfolding flatten

    flatten_complete : {v : Json} → Supported v → (s : Str) × (flatten py v ≡ ok s)
    flatten_complete nothing = ([], refl)
    flatten_complete (plain s) = (s, refl)
    flatten_complete (blocks b) =
        let (parts, e) = flatten_blocks_complete b in (joined parts, rw e refl)

    flatten_blocks_complete :
        {vs : Items} → SupportedBlocks vs → (parts : List Str) × (flatten_blocks py vs ≡ ok parts)
    flatten_blocks_complete done = ([], refl)
    flatten_blocks_complete (more b bs) =
        let (p, e) = flatten_block_complete b in
        let (ps, e') = flatten_blocks_complete bs in (p ∷ ps, rw (e, e') refl)

    flatten_block_complete : {v : Json} → SupportedBlock v → (s : Str) × (flatten_block py v ≡ ok s)
    flatten_block_complete (line s) = (s, refl)
    flatten_block_complete (texts fs h) =
        (text_block py fs, part_text fs (kind_of fs) (flatten_content py fs) h)
    flatten_block_complete (result fs h c) =
        let (s, e) = flatten_complete c in
        (
          tool_result py fs s,
          ap (block_part py fs (kind_of fs)) (flatten_content-eq fs ∙ e)
              ∙ part_result fs (kind_of fs) s h,
        )
    flatten_block_complete (call fs h) =
        (tool_use py fs, part_use fs (kind_of fs) (flatten_content py fs) h)

  -- The adapter flattens exactly the supported contents: null, text, and arrays of texts, of text
  -- blocks, of calls of tools and of results of tools with such a content. Any other value, an image
  -- or a block of an unknown kind at any depth raises.
  pub flatten-Supported : (v : Json) → ((s : Str) × (flatten py v ≡ ok s)) ↔ Supported v
  flatten-Supported v = (λ p. flatten_sound v p.0 p.1, λ c. flatten_complete c)
