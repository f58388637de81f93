-- ===== src/MixedBit/Sound.antt =====
-- The assignments that `optimize` returns are within the budget.
use mathlib.Core.List.{append_assoc, append-nil}
use in_c_test.Prelude.{
  ℕ, suc, ◌+◌, ◌-◌, ◌*◌, ◌/◌, ◌≤◌, ◌≡◌, refl, sym, ap, subst, ◌∙◌, true, Option, none, some, List,
  [], ◌∷◌, ◌++◌, Result, ok, not, guard, ok-injective, >>=-eq-ok, ltb, leb, ◌==◌, get_elem?,
  Bool-cases, Option-cases, inl, inr, arith,
}
use in_c_test.Prelude.Int.{pos}
use in_c_test.Text.{Str}
use in_c_test.MixedBit.{
  Floats, Choice, Expert, Entry, PlanError, Plan, find, store, units, extended, improves, consider,
  expand, spread, feasible, rounds, cheaper, best, assign, exact_bytes, finish, plan_of, optimize,
  no_picks, budget_too_small,
}
use in_c_test.MixedBit.Table.{some-injective}

rounded_up : (b q : ℕ) → b ≤ (b + suc q - 1) / suc q * suc q
rounded_up b q = omega arith

rounded_down : (b q : ℕ) → b / suc q * suc q ≤ b
rounded_down b q = ground arith

scaled : (u b q : ℕ) → u ≤ b → u * suc q ≤ b * suc q
scaled u b q h = grind arith

added_units : (b x u n m t : ℕ) → b ≤ n * m → x + (u + n) * m ≤ t → b + x + u * m ≤ t
added_units b x u n m t h k = grind arith

abbrev pub Every : {A : Type 0} → (A → Type 0) → List A → Type 0
Every P [] = Unit {0}
Every P (x ∷ xs) = P x × Every P xs

module _ (F : Floats) where
  abbrev pub after : Option (Choice F) → (Choice F → Option (ℕ × F.Float)) → Option (ℕ × F.Float)
  after none f = none
  after (some c) f = f c

  -- The units and the error of an assignment, from those of the experts before.
  unfoldable pub cost : ℕ → List (Expert F) → List ℕ → ℕ → F.Float → Option (ℕ × F.Float)
  cost q [] [] u e = some (u, e)
  cost q [] (i ∷ is) u e = none
  cost q (x ∷ xs) [] u e = none
  cost q (x ∷ xs) (i ∷ is) u e =
      after (get_elem? x.choices i) (λ c. cost q xs is (u + units F q c) (F.plus e c.error))

  cost-snoc :
      (q : ℕ) (xs : List (Expert F)) (is : List ℕ) (u : ℕ) (e : F.Float) (u' : ℕ) (e' : F.Float)
      (x : Expert F) (k : ℕ) (c : Choice F)
      → cost q xs is u e ≡ some (u', e')
      → get_elem? x.choices k ≡ some c
      → cost q (xs ++ x ∷ []) (is ++ k ∷ []) u e ≡ some (u' + units F q c, F.plus e' c.error)
  unfolding cost
  cost-snoc q [] [] u e u' e' x k c h g =
      let same : (u, e) ≡ (u', e') = some-injective h in
      rw g (ap (λ (p : ℕ × F.Float). some (p.0 + units F q c, F.plus p.1 c.error)) same)
  cost-snoc q [] (i ∷ is) u e u' e' x k c h g = cc
  cost-snoc q (y ∷ ys) [] u e u' e' x k c h g = cc
  cost-snoc q (y ∷ ys) (i ∷ is) u e u' e' x k c h g = elim (Option-cases (get_elem? y.choices i)) [
    | inl n ↦ absurd (let h' = rw n at h in cc)
    | inr (d, s) ↦
        rw s (cost-snoc q ys is (u + units F q d) (F.plus e d.error) u' e' x k c (rw s at h) g)
  ]

  -- An assignment with a cost has a choice for each expert, of as many bytes as its units hold.
  record Assigned (q : ℕ) (xs : List (Expert F)) (is : List ℕ) (u u' : ℕ) : Type 0 where
    assignment : List (Str × Choice F)
    assigned : assign F xs is ≡ ok assignment
    bytes : exact_bytes F assignment + u * suc q ≤ u' * suc q

  cost-Assigned :
      (q : ℕ) (xs : List (Expert F)) (is : List ℕ) (u : ℕ) (e : F.Float) (u' : ℕ) (e' : F.Float)
      → cost (suc q) xs is u e ≡ some (u', e')
      → Assigned q xs is u u'
  unfolding cost assign exact_bytes
  cost-Assigned q [] [] u e u' e' h =
      let same : u ≡ u' = ap (λ (p : ℕ × F.Float). p.0) (some-injective h) in
      record {
        assignment = [];
        assigned = refl;
        bytes = subst (λ n. 0 + u * suc q ≤ n * suc q) same (omega arith);
      }
  cost-Assigned q [] (i ∷ is) u e u' e' h = cc
  cost-Assigned q (x ∷ xs) [] u e u' e' h = cc
  cost-Assigned q (x ∷ xs) (i ∷ is) u e u' e' h = elim (Option-cases (get_elem? x.choices i)) [
    | inl n ↦ absurd (let h' = rw n at h in cc)
    | inr (c, s) ↦
        let a =
          cost-Assigned q xs is (u + units F (suc q) c) (F.plus e c.error) u' e' (rw s at h) in
        let up = rounded_up c.bytes q in
        let rest = a.bytes in
        record {
          assignment = (x.name, c) ∷ a.assignment;
          assigned = rw s (rw a.assigned refl);
          bytes =
              added_units c.bytes (exact_bytes F a.assignment) u (units F (suc q) c) (suc q)
                (u' * suc q) up rest;
        }
  ]

  module _ (P : Entry F → Type 0) (budget quantum : ℕ) where
    store-Every : (v : Entry F) (xs : List (Entry F)) → P v → Every P xs → Every P (store F v xs)
    unfolding store
    store-Every v [] p ps = (p, tt)
    store-Every v (x ∷ xs) p ps = elim (Bool-cases (x.used == v.used)) [
      | inl e ↦ rw e (p, ps.1)
      | inr e ↦ rw e (ps.0, store-Every v xs p ps.1)
    ]

    consider-Every :
        (x : Entry F) (i : ℕ) (c : Choice F) (nxt : List (Entry F))
        → (x.used + units F quantum c ≤ budget → P (extended F quantum x i c))
        → Every P nxt
        → Every P (consider F budget quantum x i c nxt)
    unfolding consider
    consider-Every x i c nxt p ps = elim (Bool-cases (ltb budget (x.used + units F quantum c))) [
      | inl h ↦ rw h ps
      | inr h ↦
          let fits : x.used + units F quantum c ≤ budget = ground arith in
          elim (Bool-cases
            (improves F (extended F quantum x i c) (find F (x.used + units F quantum c) nxt))) [
              | inl b ↦ rw (h, b) (store-Every (extended F quantum x i c) nxt (p fits) ps)
              | inr b ↦ rw (h, b) ps
            ]
    ]

    expand-Every :
        (x : Entry F) (i : ℕ) (cs : List (Choice F)) (nxt : List (Entry F))
        → ((k j : ℕ) (c : Choice F)
            → j ≡ i + k
            → get_elem? cs k ≡ some c
            → x.used + units F quantum c ≤ budget
            → P (extended F quantum x j c))
        → Every P nxt
        → Every P (expand F budget quantum x i cs nxt)
    unfolding expand
    expand-Every x i [] nxt p ps = ps
    expand-Every x i (c ∷ cs) nxt p ps =
        expand-Every x (suc i) cs (consider F budget quantum x i c nxt)
          (λ k j d e g fits. p (suc k) j d (omega (arith, e)) g fits)
          (consider-Every x i c nxt (λ fits. p 0 i c (omega arith) refl fits) ps)

    spread-Every :
        (Q : Entry F → Type 0) (xs : List (Entry F)) (cs : List (Choice F)) (nxt : List (Entry F))
        → ((x : Entry F) (k : ℕ) (c : Choice F)
            → Q x
            → get_elem? cs k ≡ some c
            → x.used + units F quantum c ≤ budget
            → P (extended F quantum x k c))
        → Every Q xs
        → Every P nxt
        → Every P (spread F budget quantum xs cs nxt)
    unfolding spread
    spread-Every Q [] cs nxt p qs ps = ps
    spread-Every Q (x ∷ xs) cs nxt p qs ps =
        spread-Every Q xs cs (expand F budget quantum x 0 cs nxt) p qs.1 (
          expand-Every x 0 cs nxt
            (λ k j c e g fits. p x j c qs.0 (ap (get_elem? cs) (e ∙ omega arith) ∙ g) fits) ps)

  pub best-Every :
      (P : Entry F → Type 0) (x : Entry F) (ys : List (Entry F))
      → P x
      → Every P ys
      → P (best F x ys)
  unfolding best
  best-Every P x [] p ps = p
  best-Every P x (y ∷ ys) p ps = elim (Bool-cases (cheaper F y x)) [
    | inl e ↦ rw e (best-Every P y ys ps.0 ps.1)
    | inr e ↦ rw e (best-Every P x ys p ps.1)
  ]

  -- The picks of the item are an assignment of the experts, with the units and the error it says.
  pub record Built (budget quantum : ℕ) (xs : List (Expert F)) (x : Entry F) : Type 0 where
    pub costs : cost quantum xs x.picks 0 F.nought ≡ some (x.used, x.error)
    pub fits : x.used ≤ budget

  Built-extended :
      (budget quantum : ℕ) (xs : List (Expert F)) (e : Expert F) (x : Entry F) (k : ℕ)
      (c : Choice F)
      → Built budget quantum xs x
      → get_elem? e.choices k ≡ some c
      → x.used + units F quantum c ≤ budget
      → Built budget quantum (xs ++ e ∷ []) (extended F quantum x k c)
  Built-extended budget quantum xs e x k c b g fits = record {
    costs = cost-snoc quantum xs x.picks 0 F.nought x.used x.error e k c b.costs g;
    fits = fits;
  }

  feasible-ok : (xs : List (Entry F)) {ys : List (Entry F)} → feasible F xs ≡ ok ys → xs ≡ ys
  feasible-ok [] h = cc
  feasible-ok (x ∷ xs) h = cc

  pub rounds-Every :
      (budget quantum : ℕ) (before xs : List (Expert F)) (dp dp' : List (Entry F))
      → Every (Built budget quantum before) dp
      → rounds F budget quantum xs dp ≡ ok dp'
      → Every (Built budget quantum (before ++ xs)) dp'
  unfolding rounds
  rounds-Every budget quantum before [] dp dp' ps h =
      let same : dp ≡ dp' = cc in
      subst (λ l. Every (Built budget quantum l) dp') (sym (append-nil before))
        (subst (Every (Built budget quantum before)) same ps)
  rounds-Every budget quantum before (x ∷ xs) dp dp' ps h =
      let nxt = spread F budget quantum dp x.choices [] in
      let (l, f, h') = >>=-eq-ok (feasible F nxt) _ h in
      subst (λ l. Every (Built budget quantum l) dp') (append_assoc before (x ∷ []) xs)
        (rounds-Every budget quantum (before ++ x ∷ []) xs l dp'
          (subst (Every (Built budget quantum (before ++ x ∷ []))) (feasible-ok nxt f) (
            spread-Every (Built budget quantum (before ++ x ∷ [])) budget quantum
              (Built budget quantum before) dp x.choices []
              (λ y k c b g fits. Built-extended budget quantum before x y k c b g fits) ps tt))
          h')

  -- What the plan says of its assignment.
  pub record Sound (xs : List (Expert F)) (b q : ℕ) (plan : Plan F) : Type 0 where
    pub picks : List ℕ
    pub used : ℕ
    pub costs : cost (suc q) xs picks 0 F.nought ≡ some (used, plan.total_error)
    pub assigned : assign F xs picks ≡ ok plan.assignment
    pub exact : plan.projected_bytes ≡ exact_bytes F plan.assignment
    pub within : plan.projected_bytes ≤ b

  pub record Finished (xs : List (Expert F)) (b q : ℕ) (x : Entry F) (r : Result PlanError (Plan F))
      : Type 0 where
    pub plan : Plan F
    pub returned : r ≡ ok plan
    pub least : plan.total_error ≡ x.error
    pub sound : Sound xs b q plan

  -- Every table of such items gives a plan: no pick is out of range, and no plan is over the budget.
  pub finish-Finished :
      (xs : List (Expert F)) (b q : ℕ) (y : Entry F) (ys : List (Entry F))
      → Every (Built (b / suc q) (suc q) xs) (y ∷ ys)
      → Finished xs b q (best F y ys) (finish F b (suc q) xs (y ∷ ys))
  unfolding finish
  finish-Finished xs b q y ys ps =
      let x = best F y ys in
      let built = best-Every (Built (b / suc q) (suc q) xs) y ys ps.0 ps.1 in
      let a = cost-Assigned q xs x.picks 0 F.nought x.used x.error built.costs in
      let up = scaled x.used (b / suc q) q built.fits in
      let down = rounded_down b q in
      let bytes = a.bytes in
      let within : exact_bytes F a.assignment ≤ b = omega (arith, up, down, bytes) in
      let test : leb (exact_bytes F a.assignment) b ≡ true = ground arith in
      record {
        plan = plan_of F b (suc q) xs x a.assignment;
        returned = rw a.assigned (rw test refl);
        least = refl;
        sound = record {
          picks = x.picks;
          used = x.used;
          costs = built.costs;
          assigned = a.assigned;
          exact = refl;
          within = within;
        };
      }

  finish-Sound :
      (xs : List (Expert F)) (b q : ℕ) (dp : List (Entry F)) (plan : Plan F)
      → Every (Built (b / suc q) (suc q) xs) dp
      → finish F b (suc q) xs dp ≡ ok plan
      → Sound xs b q plan
  finish-Sound xs b q [] plan ps h = unfold finish in cc
  finish-Sound xs b q (y ∷ ys) plan ps h =
      let f = finish-Finished xs b q y ys ps in
      subst (Sound xs b q) (ok-injective (sym f.returned ∙ h)) f.sound

  pub first_table : (budget q : ℕ) → Every (Built budget q []) (no_picks F ∷ [])
  first_table budget q = (record { costs = unfold cost in refl; fits = omega arith }, tt)

  -- A plan that `optimize` returns is one of its assignments: `picks` has a choice for each expert, the
  -- plan lists these choices with their bytes and their total error, and the bytes are within the
  -- budget.
  pub optimize-Sound :
      (xs : List (Expert F)) (b q : ℕ) (plan : Plan F)
      → optimize F xs (pos (suc b)) (pos (suc q)) ≡ ok plan
      → Sound xs (suc b) q plan
  unfolding optimize
  optimize-Sound xs b q plan h =
      let budget = suc b / suc q in
      let (_, _, h1) = >>=-eq-ok (guard (not (budget == 0)) budget_too_small) _ h in
      let (dp, e, h2) = >>=-eq-ok (rounds F budget (suc q) xs (no_picks F ∷ [])) _ h1 in
      finish-Sound xs (suc b) q dp plan
        (rounds-Every budget (suc q) [] xs (no_picks F ∷ []) dp (first_table budget (suc q)) e) h2
