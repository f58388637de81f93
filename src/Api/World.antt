-- ===== src/Api/World.antt =====
-- What a request changes: what its client is sent, and what the adapter does to the host. An action
-- returns or raises, in either case with the world it leaves.
use in_c_test.Prelude.{ℕ, zero, suc, Option, none, some, List, [], ◌∷◌, ◌++◌, Result, ok, err}
use in_c_test.Prelude.Int.{ℤ}
use in_c_test.Text.{Str}
use in_c_test.Json.{Json, Real}
use in_c_test.Api.{ApiError}

-- What is written to the socket: a status with its headers, a JSON body, an event of a name, a chunk,
-- and the text that ends the chunks.
pub data Written : Type 0 where
  head : ℕ → List (Str × Str) → Written
  body : Json → Written
  event : Str → Json → Written
  chunk : Json → Written
  done : Written

-- The command line of the generator, with the ids of the prompt and the trunk cache of its
-- environment.
pub record Command : Type 0 where
  pub binary : Str
  pub model_dir : Str
  pub prompt_ids : List ℕ
  pub cache_bytes : ℕ
  pub max_tokens : ℤ
  pub temperature : Real
  pub seed : ℤ
  pub trunk_cache_mib : ℕ

-- What is done to the host. `terminated` is the termination of a generator that still runs.
pub data Effect : Type 0 where
  ids_written : List ℕ → Effect
  started : Command → Effect
  drained waited terminated ids_removed : Effect

-- `room` is the number of writes before the client is gone, `none` if it stays.
pub record World : Type 0 where
  pub written : List Written
  pub room : Option ℕ
  pub effects : List Effect

-- Why an action ends early: what the adapter raises, or that the client is gone (`BrokenPipeError`,
-- `ConnectionResetError`).
pub data Fault : Type 0 where
  raised : ApiError → Fault
  gone : Fault

abbrev pub Act : Type 0 → Type 0
Act A = World → Result Fault A × World

abbrev pub after : {A B : Type 0} → Result Fault A × World → (A → Act B) → Result Fault B × World
after (ok a, w) f = f a w
after (err e, w) f = (err e, w)

infixl 5 ◌>>=◌ ◌>>◌
abbrev pub ◌>>=◌ : {A B : Type 0} → Act A → (A → Act B) → Act B
(m >>= f) w = after (m w) f

abbrev pub ◌>>◌ : {B : Type 0} → Act (Unit {0}) → Act B → Act B
m >> k = m >>= λ u. k

abbrev pub give : {A : Type 0} → A → Act A
give a w = (ok a, w)

abbrev pub raise : {A : Type 0} → ApiError → Act A
raise e w = (err (raised e), w)

abbrev pub lift : {A : Type 0} → Result ApiError A → Act A
lift (ok a) w = (ok a, w)
lift (err e) w = (err (raised e), w)

abbrev pub wrote : Written → World → Option ℕ → World
wrote x w room = record w { written = w.written ++ x ∷ []; room = room }

abbrev pub put_in : Written → World → Option ℕ → Result Fault (Unit {0}) × World
put_in x w none = (ok tt, wrote x w none)
put_in x w (some zero) = (err gone, w)
put_in x w (some (suc n)) = (ok tt, wrote x w (some n))

-- A write to the socket.
unfoldable pub put : Written → Act (Unit {0})
put x w = put_in x w w.room

abbrev pub effect : Effect → Act (Unit {0})
effect e w = (ok tt, record w { effects = w.effects ++ e ∷ [] })

abbrev pub and_effect : {A : Type 0} → Effect → Result Fault A × World → Result Fault A × World
and_effect e (r, w) = (r, record w { effects = w.effects ++ e ∷ [] })

-- `try: m finally: e`
abbrev pub finally : {A : Type 0} → Effect → Act A → Act A
finally e m w = and_effect e (m w)

abbrev pub effect_if_raised :
    {A : Type 0} → Effect → Result Fault A × World → Result Fault A × World
effect_if_raised e (ok a, w) = (ok a, w)
effect_if_raised e (err x, w) = (err x, record w { effects = w.effects ++ e ∷ [] })

-- `try: m except: e; raise`
abbrev pub or_effect : {A : Type 0} → Effect → Act A → Act A
or_effect e m w = effect_if_raised e (m w)
