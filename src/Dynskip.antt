-- ===== src/Dynskip.antt =====
-- The simulator of dynamic expert skips, tools/simulate_kimi_dynskip.py: the classes of prompt tokens
-- (`classify_prompt`) and the routes a policy skips (`apply_policy`). Its floats are a parameter.
pub mod Classes
pub mod Policy
pub mod Traces
pub mod Simulate
pub mod Totals
mod Tests
use in_c_test.Prelude.{
  ℕ, zero, suc, ◌+◌, ◌-◌, ◌<◌, min, max, Bool, true, false, ◌||◌, List, [], ◌∷◌, map, Result, ok,
  err, ltb, ◌==◌, if◌then◌else◌, length, get_or, set,
}

pub data Family : Type 0 where
  control content media : Family

pub data SkipError : Type 0 where
  empty_prompt invalid_weights : SkipError

abbrev pub im_end : ℕ
im_end = 163586

abbrev pub im_user : ℕ
im_user = 163587

abbrev pub im_assistant : ℕ
im_assistant = 163588

abbrev pub im_system : ℕ
im_system = 163594

abbrev pub im_middle : ℕ
im_middle = 163601

abbrev pub media_start : ℕ
media_start = 163602

abbrev pub media_end : ℕ
media_end = 163604

abbrev pub media_pad : ℕ
media_pad = 163605

pub data State : Type 0 where
  outside system user_header user_body media_state assistant : State

-- The branches from `elif token == IM_USER` on, for a state that is not `SYSTEM`.
abbrev pub go : State → ℕ → State × Family
go user_header token =
    if token == im_user
    then (user_header, control)
    else if token == im_middle
    then (user_body, control)
    else (user_header, control)
go media_state token = if token == im_user then (user_header, control) else (
  if token == media_end then user_body else media_state,
  if token == media_pad then media else control,
)
go user_body token =
    if token == im_user
    then (user_header, control)
    else if token == im_end
    then (outside, control)
    else if token == media_start
    then (media_state, control)
    else if token == media_pad
    then (user_body, media)
    else (user_body, content)
go assistant token = if token == im_user then (user_header, control) else (assistant, control)
go outside token =
    if token == im_user
    then (user_header, control)
    else if token == im_assistant
    then (assistant, control)
    else if token == media_pad
    then (outside, media)
    else (outside, control)
go system token = if token == im_end then (outside, control) else (system, control)

-- The body of the loop.
unfoldable pub step : State → ℕ → State × Family
step state token = if token == im_system then (system, control) else go state token

unfoldable pub classify : State → List ℕ → List Family
unfolding step
classify state [] = []
classify state (token ∷ ids) = (step state token).1 ∷ classify (step state token).0 ids

unfoldable pub classify_prompt : List ℕ → Result SkipError (List Family)
unfolding classify
classify_prompt [] = err empty_prompt
classify_prompt (token ∷ ids) = ok (classify outside (token ∷ ids))

-- The floats of Python, as far as `apply_policy` uses them; `sum` is the built-in function.
pub record Floats : Type 1 where
  pub Float : Type 0
  pub nought : Float
  pub sum : List Float → Float
  pub over : Float → Float → Float
  pub less : Float → Float → Bool
  pub at_most : Float → Float → Bool

-- `sum(keep)`
unfoldable pub count : List Bool → ℕ
count [] = 0
count (true ∷ keep) = suc (count keep)
count (false ∷ keep) = count keep

-- The indices, from `i` on, of the routes that are not kept.
unfoldable pub candidates : ℕ → List Bool → List ℕ
candidates i [] = []
candidates i (true ∷ keep) = candidates (suc i) keep
candidates i (false ∷ keep) = i ∷ candidates (suc i) keep

module _ (F : Floats) where
  unfoldable pub any_negative : List F.Float → Bool
  any_negative [] = false
  any_negative (x ∷ xs) = F.less x F.nought || any_negative xs

  -- `max(candidates, key=lambda i: mass[i])`: the first of the greatest
  unfoldable pub heaviest : List F.Float → ℕ → List ℕ → ℕ
  heaviest mass b [] = b
  heaviest mass b (i ∷ is) =
      heaviest mass (if F.less (get_or mass b F.nought) (get_or mass i F.nought) then i else b) is

  -- The `while` loop. Each round keeps one route more.
  unfoldable pub fill : (fuel : ℕ) → List F.Float → ℕ → List Bool → List Bool
  unfolding count candidates heaviest
  fill zero mass target keep = keep
  fill (suc fuel) mass target keep = elim (ltb (count keep) target) [
    | false ↦ keep
    | true ↦ elim (candidates 0 keep) [
      | [] ↦ keep
      | b ∷ bs ↦ fill fuel mass target (set keep (heaviest mass b bs) true)
    ]
  ]

  abbrev pub is_empty : List F.Float → Bool
  is_empty [] = true
  is_empty (x ∷ xs) = false

  -- The routes that the threshold keeps.
  abbrev pub heavy : F.Float → F.Float → List F.Float → List Bool
  heavy threshold total weights = map (λ x. F.at_most threshold (F.over x total)) weights

  unfoldable pub apply_policy : List F.Float → F.Float → ℕ → Result SkipError ℕ
  unfolding any_negative fill
  apply_policy weights threshold min_keep =
      if F.at_most threshold F.nought
      then ok 0
      else if is_empty weights || any_negative weights
      then err invalid_weights
      else let total = F.sum weights in
        if F.at_most total F.nought
        then ok 0
        else let target = min (max min_keep 1) (length weights) in
          let mass = map (λ x. F.over x total) weights in
          ok (
            length weights
            - count (fill (length weights) mass target (heavy threshold total weights)))
