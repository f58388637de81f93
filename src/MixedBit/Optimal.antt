-- ===== src/MixedBit/Optimal.antt =====
-- No assignment that fits beats the one that `optimize` returns.
use in_c_test.Prelude.{
  ℕ, suc, ◌+◌, ◌/◌, ◌≤◌, ◌<◌, ◌≡◌, refl, sym, ap, subst, Bool, true, false, some, List, [], ◌∷◌,
  Result, ok, ◌==◌, if◌then◌else◌, get_elem?, Bool-cases, Option-cases, inl, inr, arith,
}
use in_c_test.Prelude.Int.{pos}
use in_c_test.MixedBit.{
  Floats, Expert, Entry, PlanError, Plan, find, units, spread, feasible, rounds, cheaper, best,
  finish, optimize, no_picks,
}
use in_c_test.MixedBit.Table.{some-injective, Laws, Dominates, spread-adds}
use in_c_test.MixedBit.Sound.{Every, cost, Built, Sound, rounds-Every, finish-Finished, first_table}

module _ (F : Floats) (L : Laws F) where
  cost_grows :
      (q : ℕ) (xs : List (Expert F)) (is : List ℕ) (u : ℕ) (e : F.Float) (u' : ℕ) (e' : F.Float)
      → cost F q xs is u e ≡ some (u', e')
      → u ≤ u'
  unfolding cost
  cost_grows q [] [] u e u' e' h =
      let same : u ≡ u' = ap (λ (p : ℕ × F.Float). p.0) (some-injective h) in omega arith
  cost_grows q [] (i ∷ is) u e u' e' h = cc
  cost_grows q (x ∷ xs) [] u e u' e' h = cc
  cost_grows q (x ∷ xs) (i ∷ is) u e u' e' h = elim (Option-cases (get_elem? x.choices i)) [
    | inl n ↦ absurd (let h' = rw n at h in cc)
    | inr (c, s) ↦
        let more = cost_grows q xs is (u + units F q c) (F.plus e c.error) u' e' (rw s at h) in
        omega arith
  ]

  feasible-Dominates :
      (xs : List (Entry F)) {u : ℕ} {e : F.Float} → Dominates F xs u e → feasible F xs ≡ ok xs
  feasible-Dominates [] d = absurd (let f = d.found in unfold find in cc)
  feasible-Dominates (x ∷ xs) d = refl

  -- The rounds go through, and what they end with dominates each assignment that fits.
  record Reached (r : Result PlanError (List (Entry F))) (u : ℕ) (e : F.Float) : Type 0 where
    table : List (Entry F)
    returned : r ≡ ok table
    dominates : Dominates F table u e

  rounds-Reached :
      (budget q : ℕ) (xs : List (Expert F)) (is : List ℕ) (dp : List (Entry F)) (u : ℕ)
      (e : F.Float) (u' : ℕ) (e' : F.Float)
      → Dominates F dp u e
      → cost F q xs is u e ≡ some (u', e')
      → u' ≤ budget
      → Reached (rounds F budget q xs dp) u' e'
  unfolding rounds cost
  rounds-Reached budget q [] [] dp u e u' e' d h fits = record {
    table = dp;
    returned = refl;
    dominates = subst (λ (p : ℕ × F.Float). Dominates F dp p.0 p.1) (some-injective h) d;
  }
  rounds-Reached budget q [] (i ∷ is) dp u e u' e' d h fits = cc
  rounds-Reached budget q (x ∷ xs) [] dp u e u' e' d h fits = cc
  rounds-Reached budget q (x ∷ xs) (i ∷ is) dp u e u' e' d h fits =
      elim (Option-cases (get_elem? x.choices i)) [
        | inl n ↦ absurd (let h' = rw n at h in cc)
        | inr (c, s) ↦
            let nxt = spread F budget q dp x.choices [] in
            let h' = rw s at h in
            let more = cost_grows q xs is (u + units F q c) (F.plus e c.error) u' e' h' in
            let d' =
              spread-adds F L budget q dp x.choices [] i u e d s (omega (arith, more, fits)) in
            let r =
              rounds-Reached budget q xs is nxt (u + units F q c) (F.plus e c.error) u' e' d' h'
                fits in
            record {
              table = r.table;
              returned = rw (feasible-Dominates nxt d') r.returned;
              dominates = r.dominates;
            }
      ]

  cheaper_no_worse : (x y : Entry F) → cheaper F y x ≡ true → F.less x.error y.error ≡ false
  cheaper_no_worse x y h = elim (Bool-cases (F.less x.error y.error)) [
    | inl b ↦ elim (Bool-cases (F.less y.error x.error)) [
      | inl b' ↦
          absurd (
            let t = L.transitive x.error y.error x.error b b' in
            let n = L.irreflexive x.error in cc)
      | inr b' ↦ absurd (let h' = rw (b, b') at h in cc)
    ]
    | inr b ↦ b
  ]

  not_cheaper_no_worse : (x y : Entry F) → cheaper F y x ≡ false → F.less y.error x.error ≡ false
  not_cheaper_no_worse x y h = elim (Bool-cases (F.less y.error x.error)) [
    | inl b ↦ absurd (let h' = rw b at h in cc)
    | inr b ↦ b
  ]

  best-cons :
      (x y : Entry F) (ys : List (Entry F)) (b : Bool)
      → cheaper F y x ≡ b
      → best F x (y ∷ ys) ≡ best F (if b then y else x) ys
  unfolding best
  best-cons x y ys b h = ap (λ c. best F (if c then y else x) ys) h

  -- `best` of a longer list, whichever item it goes on with.
  through :
      (e : F.Float) (x y : Entry F) (ys : List (Entry F)) (b : Bool)
      → cheaper F y x ≡ b
      → F.less e (best F (if b then y else x) ys).error ≡ false
      → F.less e (best F x (y ∷ ys)).error ≡ false
  through e x y ys b h k =
      subst (λ (w : Entry F). F.less e w.error ≡ false) (sym (best-cons x y ys b h)) k

  best_first : (x : Entry F) (ys : List (Entry F)) → F.less x.error (best F x ys).error ≡ false
  best_first x [] = unfold best in L.irreflexive x.error
  best_first x (y ∷ ys) = elim (Bool-cases (cheaper F y x)) [
    | inl b ↦ through x.error x y ys true b (
        L.not_transitive x.error y.error (best F y ys).error (cheaper_no_worse x y b)
          (best_first y ys))
    | inr b ↦ through x.error x y ys false b (best_first x ys)
  ]

  best_other :
      (u : ℕ) (x : Entry F) (ys : List (Entry F)) (z : Entry F)
      → find F u ys ≡ some z
      → F.less z.error (best F x ys).error ≡ false
  unfolding find
  best_other u x [] z h = cc
  best_other u x (y ∷ ys) z h = elim (Bool-cases (y.used == u)) [
    | inl k ↦
        let same : y ≡ z = some-injective (rw k at h) in
        subst (λ (w : Entry F). F.less w.error (best F x (y ∷ ys)).error ≡ false) same
          (elim (Bool-cases (cheaper F y x)) [
            | inl b ↦ through y.error x y ys true b (best_first y ys)
            | inr b ↦ through y.error x y ys false b (
                L.not_transitive y.error x.error (best F x ys).error (not_cheaper_no_worse x y b)
                  (best_first x ys))
          ])
    | inr k ↦ elim (Bool-cases (cheaper F y x)) [
      | inl b ↦ through z.error x y ys true b (best_other u y ys z (rw k at h))
      | inr b ↦ through z.error x y ys false b (best_other u x ys z (rw k at h))
    ]
  ]

  find_in :
      (u : ℕ) (x : Entry F) (ys : List (Entry F)) (z : Entry F)
      → find F u (x ∷ ys) ≡ some z
      → F.less z.error (best F x ys).error ≡ false
  unfolding find
  find_in u x ys z h = elim (Bool-cases (x.used == u)) [
    | inl k ↦
        let same : x ≡ z = some-injective (rw k at h) in
        subst (λ (w : Entry F). F.less w.error (best F x ys).error ≡ false) same (best_first x ys)
    | inr k ↦ best_other u x ys z (rw k at h)
  ]

  record Best (xs : List (Expert F)) (b q : ℕ) (e : F.Float) (r : Result PlanError (Plan F))
      : Type 0 where
    plan : Plan F
    returned : r ≡ ok plan
    no_worse : F.less e plan.total_error ≡ false
    sound : Sound F xs b q plan

  finish-Best :
      (xs : List (Expert F)) (b q : ℕ) (dp : List (Entry F)) (u : ℕ) (e : F.Float)
      → Every (Built F (b / suc q) (suc q) xs) dp
      → Dominates F dp u e
      → Best xs b q e (finish F b (suc q) xs dp)
  finish-Best xs b q [] u e ps d = absurd (let f = d.found in unfold find in cc)
  finish-Best xs b q (y ∷ ys) u e ps d =
      let f = finish-Finished F xs b q y ys ps in
      record {
        plan = f.plan;
        returned = f.returned;
        no_worse =
            subst (λ w. F.less e w ≡ false) (sym f.least)
              (L.not_transitive e d.item.error (best F y ys).error d.no_worse
                (find_in u y ys d.item d.found));
        sound = f.sound;
      }

  first-Dominates : Dominates F (no_picks F ∷ []) 0 F.nought
  first-Dominates = record {
    item = no_picks F;
    found = unfold find in refl;
    no_worse = L.irreflexive F.nought;
  }

  -- `optimize` returns a plan wherever the budget holds a unit and some assignment fits it, its bytes
  -- rounded up to units, and no assignment that fits has a smaller error. The errors are no NaN.
  pub optimize-optimal :
      (xs : List (Expert F)) (b q : ℕ) (picks : List ℕ) (u : ℕ) (e : F.Float)
      → 0 < suc b / suc q
      → cost F (suc q) xs picks 0 F.nought ≡ some (u, e)
      → u ≤ suc b / suc q
      → (plan : Plan F) × (optimize F xs (pos (suc b)) (pos (suc q)) ≡ ok plan)
        × (F.less e plan.total_error ≡ false)
  unfolding optimize
  optimize-optimal xs b q picks u e unit h fits =
      let budget = suc b / suc q in
      let r =
        rounds-Reached budget (suc q) xs picks (no_picks F ∷ []) 0 F.nought u e first-Dominates h
          fits in
      let ps =
        rounds-Every F budget (suc q) [] xs (no_picks F ∷ []) r.table (first_table F budget (suc q))
          r.returned in
      let y = finish-Best xs (suc b) q r.table u e ps r.dominates in
      let test : (suc b / suc q == 0) ≡ false = ground arith in
      (y.plan, rw test (rw r.returned y.returned), y.no_worse)
