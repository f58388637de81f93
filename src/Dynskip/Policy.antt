-- ===== src/Dynskip/Policy.antt =====
-- How many routes a policy skips.
use in_c_test.Prelude.{
  ℕ, zero, suc, ◌+◌, ◌-◌, ◌≤◌, ◌<◌, ◌≡◌, refl, ap, subst, ◌∙◌, min, max, Bool, true, false, ◌||◌,
  some, List, [], ◌∷◌, map, ok, ltb, length, length-map, length-set, get_elem?, set, get_or,
  Bool-cases, inl, inr, ◌⊎◌, arith,
}
use in_c_test.Dynskip.{
  Floats, count, candidates, heaviest, fill, any_negative, is_empty, heavy, apply_policy,
}

-- The indices in the list, counted from `i`, are those of routes that are not kept.
abbrev AllOut : ℕ → List Bool → List ℕ → Type 0
AllOut i keep [] = Unit {0}
AllOut i keep (j ∷ js) =
    ((k : ℕ) × (j ≡ k + i) × (get_elem? keep k ≡ some false)) × AllOut i keep js

shift-AllOut :
    (i : ℕ) (b : Bool) (keep : List Bool) (js : List ℕ)
    → AllOut (suc i) keep js
    → AllOut i (b ∷ keep) js
shift-AllOut i b keep [] h = tt
shift-AllOut i b keep (j ∷ js) ((k, e, g), h) =
    ((suc k, omega (arith, e), g), shift-AllOut i b keep js h)

candidates-AllOut : (i : ℕ) (keep : List Bool) → AllOut i keep (candidates i keep)
unfolding candidates
candidates-AllOut i [] = tt
candidates-AllOut i (true ∷ keep) =
    shift-AllOut i true keep (candidates (suc i) keep) (candidates-AllOut (suc i) keep)
candidates-AllOut i (false ∷ keep) = (
  (0, omega arith, refl),
  shift-AllOut i false keep (candidates (suc i) keep) (candidates-AllOut (suc i) keep),
)

candidates-nil : (i : ℕ) (keep : List Bool) → candidates i keep ≡ [] → count keep ≡ length keep
unfolding candidates count
candidates-nil i [] h = refl
candidates-nil i (true ∷ keep) h = ap suc (candidates-nil (suc i) keep h)
candidates-nil i (false ∷ keep) h = cc

count-set :
    (keep : List Bool) (i : ℕ)
    → get_elem? keep i ≡ some false
    → count (set keep i true) ≡ suc (count keep)
unfolding count
count-set [] i h = cc
count-set (true ∷ keep) zero h = cc
count-set (false ∷ keep) zero h = refl
count-set (true ∷ keep) (suc i) h = ap suc (count-set keep i h)
count-set (false ∷ keep) (suc i) h = count-set keep i h

module _ (F : Floats) where
  heaviest-out :
      (mass : List F.Float) (keep : List Bool) (b : ℕ) (bs : List ℕ)
      → AllOut 0 keep (b ∷ bs)
      → get_elem? keep (heaviest F mass b bs) ≡ some false
  unfolding heaviest
  heaviest-out mass keep b [] ((k, e, g), h) = ap (get_elem? keep) (e ∙ omega arith) ∙ g
  heaviest-out mass keep b (i ∷ is) (first, (second, h)) =
      elim (Bool-cases (F.less (get_or mass b F.nought) (get_or mass i F.nought))) [
        | inl e ↦ rw e (heaviest-out mass keep i is (second, h))
        | inr e ↦ rw e (heaviest-out mass keep b is (first, h))
      ]

  List-cases : (l : List ℕ) → (l ≡ []) ⊎ ((b : ℕ) × (bs : List ℕ) × (l ≡ b ∷ bs))
  List-cases [] = inl refl
  List-cases (b ∷ bs) = inr (b, bs, refl)

  fill_reached :
      (fuel : ℕ) (mass : List F.Float) (target : ℕ) (keep : List Bool)
      → ltb (count keep) target ≡ false
      → fill F (suc fuel) mass target keep ≡ keep
  unfolding fill
  fill_reached fuel mass target keep e = rw (e, fill) refl

  fill_round :
      (fuel : ℕ) (mass : List F.Float) (target : ℕ) (keep : List Bool) (b : ℕ) (bs : List ℕ)
      → ltb (count keep) target ≡ true
      → candidates 0 keep ≡ b ∷ bs
      → fill F (suc fuel) mass target keep
        ≡ fill F fuel mass target (set keep (heaviest F mass b bs) true)
  unfolding fill
  fill_round fuel mass target keep b bs e c = rw (e, fill) (rw (c, fill) refl)

  -- With a round for each route that is wanting, the loop reaches its target.
  count-fill :
      (fuel : ℕ) (mass : List F.Float) (target : ℕ) (keep : List Bool)
      → target ≤ length keep
      → target ≤ count keep + fuel
      → count (fill F fuel mass target keep) ≡ max (count keep) target
  count-fill zero mass target keep fits enough = unfold fill in ground arith
  count-fill (suc fuel) mass target keep fits enough = elim (Bool-cases (ltb (count keep) target)) [
    | inr e ↦ ap count (fill_reached fuel mass target keep e) ∙ ground arith
    | inl e ↦ elim (List-cases (candidates 0 keep)) [
      | inl n ↦ let full = candidates-nil 0 keep n in absurd (ground arith)
      | inr (b, bs, c) ↦
          let out : AllOut 0 keep (b ∷ bs) = subst (AllOut 0 keep) c (candidates-AllOut 0 keep) in
          let next = set keep (heaviest F mass b bs) true in
          let more : count next ≡ suc (count keep) =
            count-set keep (heaviest F mass b bs) (heaviest-out mass keep b bs out) in
          let same : length next ≡ length keep = length-set keep (heaviest F mass b bs) true in
          let less : count keep < target = ground arith in
          ap count (fill_round fuel mass target keep b bs e c)
          ∙ count-fill fuel mass target next (omega (arith, same, fits))
              (omega (arith, more, enough))
          ∙ omega (arith, more, less)
    ]
  ]

  -- Under a policy with a threshold and valid weights of a positive sum, all routes are skipped but
  -- those whose share reaches the threshold, or `min_keep` (at least one, at most all) where these
  -- are fewer.
  pub apply_policy-eq :
      (weights : List F.Float) (threshold : F.Float) (min_keep : ℕ)
      → F.at_most threshold F.nought ≡ false
      → (is_empty F weights || any_negative F weights) ≡ false
      → F.at_most (F.sum weights) F.nought ≡ false
      → apply_policy F weights threshold min_keep
        ≡ ok (
            length weights
            - max
                (count (heavy F threshold (F.sum weights) weights))
                (min (max min_keep 1) (length weights)))
  unfolding apply_policy
  apply_policy-eq weights threshold min_keep active valid positive =
      let total = F.sum weights in
      let keep = heavy F threshold total weights in
      let same : length keep ≡ length weights = length-map weights _ in
      rw (active, valid, positive)
        (ap (λ n. ok (length weights - n))
          (count-fill (length weights) (map (λ x. F.over x total) weights)
            (min (max min_keep 1) (length weights)) keep (omega (arith, same)) (omega arith)))
