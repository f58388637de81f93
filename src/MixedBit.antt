-- ===== src/MixedBit.antt =====
-- The planner of expert bit widths, `optimize` of tools/kimi_mixed_bit_plan.py: a dynamic program
-- over the units of storage used. Its floats are a parameter.
pub mod Table
pub mod Optimal
pub mod Sound
mod Tests
use in_c_test.Prelude.{
  ℕ, zero, suc, ◌+◌, ◌-◌, ◌*◌, ◌/◌, Bool, ◌&&◌, ◌||◌, not, Option, none, some, List, [], ◌∷◌, ◌++◌,
  Result, ok, err, ◌>>=◌, ◌>>◌, guard, ltb, leb, ◌==◌, if◌then◌else◌, length, get_elem?,
}
use in_c_test.Prelude.Int.{ℤ, pos, negsuc}
use in_c_test.Text.{Str}

-- The floats of Python, as far as the planner uses them: `0.0`, `+` and `<`.
pub record Floats : Type 1 where
  pub Float : Type 0
  pub nought : Float
  pub plus : Float → Float → Float
  pub less : Float → Float → Bool

pub data PlanError : Type 0 where
  budget_not_positive quantum_not_positive budget_too_small no_feasible : PlanError
  index_out_of_range over_budget : PlanError

module _ (F : Floats) where
  pub record Choice : Type 0 where
    pub bits : ℕ
    pub bytes : ℕ
    pub error : F.Float

  pub record Expert : Type 0 where
    pub name : Str
    pub choices : List Choice

  -- An item of the table `dp`: the units used, the total error and the choices made.
  pub record Entry : Type 0 where
    pub used : ℕ
    pub error : F.Float
    pub picks : List ℕ

  -- A dict from units to items, in the order of insertion: `get` and the assignment to a key.
  unfoldable pub find : ℕ → List Entry → Option Entry
  find u [] = none
  find u (x ∷ xs) = let rest = find u xs in if x.used == u then some x else rest

  unfoldable pub store : Entry → List Entry → List Entry
  store v [] = v ∷ []
  store v (x ∷ xs) = let rest = store v xs in if x.used == v.used then v ∷ xs else x ∷ rest

  abbrev pub units : ℕ → Choice → ℕ
  units quantum c = (c.bytes + quantum - 1) / quantum

  abbrev pub extended : ℕ → Entry → ℕ → Choice → Entry
  extended quantum x idx c = record {
    used = x.used + units quantum c;
    error = F.plus x.error c.error;
    picks = x.picks ++ idx ∷ [];
  }

  -- Whether the item at this key is none or worse.
  abbrev pub improves : Entry → Option Entry → Bool
  improves v none = Bool.true
  improves v (some cur) = F.less v.error cur.error

  -- The body of the innermost loop.
  unfoldable pub consider : (budget quantum : ℕ) → Entry → ℕ → Choice → List Entry → List Entry
  unfolding find store
  consider budget quantum x idx c nxt =
      let v = extended quantum x idx c in
      if ltb budget v.used then nxt else if improves v (find v.used nxt) then store v nxt else nxt

  -- `for idx, c in enumerate(choices)`, from an index on
  unfoldable pub expand : (budget quantum : ℕ) → Entry → ℕ → List Choice → List Entry → List Entry
  unfolding consider
  expand budget quantum x idx [] nxt = nxt
  expand budget quantum x idx (c ∷ cs) nxt =
      expand budget quantum x (suc idx) cs (consider budget quantum x idx c nxt)

  -- `for used, (err, picks) in dp.items()`
  unfoldable pub spread : (budget quantum : ℕ) → List Entry → List Choice → List Entry → List Entry
  unfolding expand
  spread budget quantum [] choices nxt = nxt
  spread budget quantum (x ∷ xs) choices nxt =
      spread budget quantum xs choices (expand budget quantum x 0 choices nxt)

  abbrev pub feasible : List Entry → Result PlanError (List Entry)
  feasible [] = err no_feasible
  feasible (x ∷ xs) = ok (x ∷ xs)

  -- `for _, choices in experts`
  unfoldable pub rounds :
      (budget quantum : ℕ) → List Expert → List Entry → Result PlanError (List Entry)
  unfolding spread
  rounds budget quantum [] dp = ok dp
  rounds budget quantum (x ∷ xs) dp = do
    nxt ← feasible (spread budget quantum dp x.choices [])
    rounds budget quantum xs nxt

  -- The order of the pairs of error and units.
  abbrev pub cheaper : Entry → Entry → Bool
  cheaper y x = F.less y.error x.error || (not (F.less x.error y.error) && ltb y.used x.used)

  -- `min`: the first of the least items
  unfoldable pub best : Entry → List Entry → Entry
  best x [] = x
  best x (y ∷ ys) = best (if cheaper y x then y else x) ys

  -- `zip(experts, picks)` with the choice of each
  abbrev pub chosen : Option Choice → Result PlanError Choice
  chosen none = err index_out_of_range
  chosen (some c) = ok c

  unfoldable pub assign : List Expert → List ℕ → Result PlanError (List (Str × Choice))
  assign [] picks = ok []
  assign (x ∷ xs) [] = ok []
  assign (x ∷ xs) (i ∷ is) = do
    c ← chosen (get_elem? x.choices i)
    cs ← assign xs is
    ok ((x.name, c) ∷ cs)

  unfoldable pub exact_bytes : List (Str × Choice) → ℕ
  exact_bytes [] = 0
  exact_bytes ((name, c) ∷ cs) = c.bytes + exact_bytes cs

  pub record Plan : Type 0 where
    pub budget_bytes : ℕ
    pub quantum_bytes : ℕ
    pub projected_bytes : ℕ
    pub total_error : F.Float
    pub expert_count : ℕ
    pub assignment : List (Str × Choice)

  abbrev pub plan_of : (budget quantum : ℕ) → List Expert → Entry → List (Str × Choice) → Plan
  plan_of budget quantum experts x cs = record {
    budget_bytes = budget;
    quantum_bytes = quantum;
    projected_bytes = exact_bytes cs;
    total_error = x.error;
    expert_count = length experts;
    assignment = cs;
  }

  -- The plan of the best item.
  unfoldable pub finish : (budget quantum : ℕ) → List Expert → List Entry → Result PlanError Plan
  unfolding best assign exact_bytes
  finish budget quantum experts [] = err no_feasible
  finish budget quantum experts (y ∷ ys) = do
    cs ← assign experts (best y ys).picks
    guard (leb (exact_bytes cs) budget) over_budget
    ok (plan_of budget quantum experts (best y ys) cs)

  abbrev pub no_picks : Entry
  no_picks = record { used = 0; error = F.nought; picks = [] }

  unfoldable pub optimize : List Expert → ℤ → ℤ → Result PlanError Plan
  unfolding rounds finish
  optimize experts (pos (suc b)) (pos (suc q)) = do
    guard (not (suc b / suc q == 0)) budget_too_small
    dp ← rounds (suc b / suc q) (suc q) experts (no_picks ∷ [])
    finish (suc b) (suc q) experts dp
  optimize experts (pos (suc b)) quantum = err quantum_not_positive
  optimize experts budget quantum = err budget_not_positive
