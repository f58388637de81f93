-- ===== src/MixedBit/Table.antt =====
-- The table of `optimize`: which items it has behind each of the loops.
use in_c_test.Prelude.{
  ℕ, zero, suc, ◌+◌, ◌≤◌, ◌≡◌, refl, sym, ap, subst, ◌∙◌, true, false, some, List, [], ◌∷◌, ltb,
  ◌==◌, get_elem?, ==_iff, Bool-cases, Option-cases, inl, inr, arith,
}
use in_c_test.MixedBit.{
  Floats, Choice, Entry, find, store, units, extended, improves, consider, expand, spread,
}

-- What the planner relies on of the floats that are no NaN: `<` is a weak order, and adding the same
-- number on the right keeps it from turning round.
pub record Laws (F : Floats) : Type 0 where
  pub irreflexive : (a : F.Float) → F.less a a ≡ false
  pub transitive : (a b c : F.Float) → F.less a b ≡ true → F.less b c ≡ true → F.less a c ≡ true
  pub not_transitive :
      (a b c : F.Float) → F.less a b ≡ false → F.less b c ≡ false → F.less a c ≡ false
  pub monotone : (a b c : F.Float) → F.less a b ≡ false → F.less (F.plus a c) (F.plus b c) ≡ false

pub some-injective : {A : Type 0} {a b : A} → some a ≡ some b → a ≡ b
some-injective h = cc

==_refl : (n : ℕ) → (n == n) ≡ true
==_refl n = ground arith

module _ (F : Floats) where
  pub record Dominates (xs : List (Entry F)) (u : ℕ) (e : F.Float) : Type 0 where
    pub item : Entry F
    pub found : find F u xs ≡ some item
    pub no_worse : F.less e item.error ≡ false

  find-used : (u : ℕ) (xs : List (Entry F)) {x : Entry F} → find F u xs ≡ some x → x.used ≡ u
  unfolding find
  find-used u [] h = cc
  find-used u (y ∷ ys) {x} h = elim (Bool-cases (y.used == u)) [
    | inl e ↦
        let same : y.used ≡ u = (==_iff y.used u).0 e in
        let found : some y ≡ some x = rw e at h in cc
    | inr e ↦ find-used u ys (rw e at h)
  ]

  find-store_self : (v : Entry F) (xs : List (Entry F)) → find F v.used (store F v xs) ≡ some v
  unfolding find store
  find-store_self v [] = rw (==_refl v.used) refl
  find-store_self v (x ∷ xs) = elim (Bool-cases (x.used == v.used)) [
    | inl e ↦ rw e (rw (==_refl v.used) refl)
    | inr e ↦ rw e (rw e (find-store_self v xs))
  ]

  find-store_ne :
      (u : ℕ) (v : Entry F) (xs : List (Entry F))
      → (v.used == u) ≡ false
      → find F u (store F v xs) ≡ find F u xs
  unfolding find store
  find-store_ne u v [] h = rw h refl
  find-store_ne u v (x ∷ xs) h = elim (Bool-cases (x.used == v.used)) [
    | inl e ↦ let other : (x.used == u) ≡ false = ground arith in rw e (rw (h, other) refl)
    | inr e ↦ elim (Bool-cases (x.used == u)) [
      | inl e' ↦ rw e (rw e' refl)
      | inr e' ↦ rw e (rw e' (find-store_ne u v xs h))
    ]
  ]

  module _ (L : Laws F) (budget quantum : ℕ) (x : Entry F) (i : ℕ) (c : Choice F) where
    abbrev new : Entry F
    new = extended F quantum x i c

    stored-Dominates :
        (nxt : List (Entry F)) (e : F.Float)
        → F.less e new.error ≡ false
        → Dominates (store F new nxt) new.used e
    stored-Dominates nxt e h = record { item = new; found = find-store_self new nxt; no_worse = h }

    -- An item that `consider` replaces is worse than the new one.
    replaced-Dominates :
        (nxt : List (Entry F)) (u : ℕ) (e : F.Float)
        → improves F new (find F new.used nxt) ≡ true
        → Dominates nxt u e
        → Dominates (store F new nxt) u e
    replaced-Dominates nxt u e better d = elim (Bool-cases (new.used == u)) [
      | inl h ↦
          let same : new.used ≡ u = (==_iff new.used u).0 h in
          let found : find F new.used nxt ≡ some d.item = ap (λ n. find F n nxt) same ∙ d.found in
          let worse : F.less new.error d.item.error ≡ true = rw found at better in
          subst (λ n. Dominates (store F new nxt) n e) same
            (stored-Dominates nxt e (elim (Bool-cases (F.less e new.error)) [
              | inl l ↦ absurd (
                  let t = L.transitive e new.error d.item.error l worse in let n = d.no_worse in cc)
              | inr l ↦ l
            ]))
      | inr h ↦ record {
        item = d.item;
        found = find-store_ne u new nxt h ∙ d.found;
        no_worse = d.no_worse;
      }
    ]

    consider-keeps :
        (nxt : List (Entry F)) (u : ℕ) (e : F.Float)
        → Dominates nxt u e
        → Dominates (consider F budget quantum x i c nxt) u e
    unfolding consider
    consider-keeps nxt u e d = elim (Bool-cases (ltb budget new.used)) [
      | inl h ↦ rw h d
      | inr h ↦ elim (Bool-cases (improves F new (find F new.used nxt))) [
        | inl b ↦ rw (h, b) (replaced-Dominates nxt u e b d)
        | inr b ↦ rw (h, b) d
      ]
    ]

    consider-adds :
        (nxt : List (Entry F)) (e : F.Float)
        → new.used ≤ budget
        → F.less e new.error ≡ false
        → Dominates (consider F budget quantum x i c nxt) new.used e
    unfolding consider
    consider-adds nxt e fits h =
        let inside : ltb budget new.used ≡ false = ground arith in
        elim (Bool-cases (improves F new (find F new.used nxt))) [
          | inl b ↦ rw (inside, b) (stored-Dominates nxt e h)
          | inr b ↦
              rw (inside, b)
                (elim (Option-cases (find F new.used nxt)) [
                  | inl n ↦ absurd (let b' = rw n at b in cc)
                  | inr (cur, f) ↦ record {
                    item = cur;
                    found = f;
                    no_worse = L.not_transitive e new.error cur.error h (rw f at b);
                  }
                ])
        ]

  module _ (L : Laws F) (budget quantum : ℕ) where
    pub expand-keeps :
        (x : Entry F) (i : ℕ) (cs : List (Choice F)) (nxt : List (Entry F)) (u : ℕ) (e : F.Float)
        → Dominates nxt u e
        → Dominates (expand F budget quantum x i cs nxt) u e
    unfolding expand
    expand-keeps x i [] nxt u e d = d
    expand-keeps x i (c ∷ cs) nxt u e d =
        expand-keeps x (suc i) cs (consider F budget quantum x i c nxt) u e
          (consider-keeps L budget quantum x i c nxt u e d)

    pub expand-adds :
        (x : Entry F) (i k : ℕ) (cs : List (Choice F)) {c : Choice F} (nxt : List (Entry F))
        (e : F.Float)
        → get_elem? cs k ≡ some c
        → x.used + units F quantum c ≤ budget
        → F.less e (F.plus x.error c.error) ≡ false
        → Dominates (expand F budget quantum x i cs nxt) (x.used + units F quantum c) e
    unfolding expand
    expand-adds x i k [] nxt e g fits h = cc
    expand-adds x i zero (b ∷ cs) {c} nxt e g fits h =
        expand-keeps x (suc i) cs (consider F budget quantum x i b nxt) (x.used + units F quantum c)
          e
          (subst
            (λ d. Dominates (consider F budget quantum x i b nxt) (x.used + units F quantum d) e)
            (some-injective g)
            (consider-adds L budget quantum x i b nxt e
              (subst (λ (d : Choice F). x.used + units F quantum d ≤ budget)
                (sym (some-injective g)) fits)
              (subst (λ (d : Choice F). F.less e (F.plus x.error d.error) ≡ false)
                (sym (some-injective g)) h)))
    expand-adds x i (suc k) (b ∷ cs) nxt e g fits h =
        expand-adds x (suc i) k cs (consider F budget quantum x i b nxt) e g fits h

    pub spread-keeps :
        (xs : List (Entry F)) (cs : List (Choice F)) (nxt : List (Entry F)) (u : ℕ) (e : F.Float)
        → Dominates nxt u e
        → Dominates (spread F budget quantum xs cs nxt) u e
    unfolding spread
    spread-keeps [] cs nxt u e d = d
    spread-keeps (x ∷ xs) cs nxt u e d =
        spread-keeps xs cs (expand F budget quantum x 0 cs nxt) u e (expand-keeps x 0 cs nxt u e d)

    -- A choice that fits extends whatever the table dominates.
    pub spread-adds :
        (xs : List (Entry F)) (cs : List (Choice F)) (nxt : List (Entry F)) (k : ℕ) {c : Choice F}
        (u : ℕ) (e : F.Float)
        → Dominates xs u e
        → get_elem? cs k ≡ some c
        → u + units F quantum c ≤ budget
        → Dominates (spread F budget quantum xs cs nxt) (u + units F quantum c) (F.plus e c.error)
    unfolding spread find
    spread-adds [] cs nxt k u e d g fits = absurd (let f = d.found in cc)
    spread-adds (x ∷ xs) cs nxt k {c} u e d g fits = elim (Bool-cases (x.used == u)) [
      | inl h ↦
          let same : x.used ≡ u = (==_iff x.used u).0 h in
          let first : x ≡ d.item = some-injective (rw h at d.found) in
          spread-keeps xs cs (expand F budget quantum x 0 cs nxt) (u + units F quantum c)
            (F.plus e c.error)
            (subst
              (λ n.
                Dominates (expand F budget quantum x 0 cs nxt) (n + units F quantum c)
                  (F.plus e c.error))
              same
              (expand-adds x 0 k cs nxt (F.plus e c.error) g (omega (arith, same, fits)) (
                L.monotone e x.error c.error
                  (subst (λ (y : Entry F). F.less e y.error ≡ false) (sym first) d.no_worse))))
      | inr h ↦
          spread-adds xs cs (expand F budget quantum x 0 cs nxt) k u e
            (record { item = d.item; found = rw h at d.found; no_worse = d.no_worse }) g fits
    ]
