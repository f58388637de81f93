-- ===== src/Api/Cleanup.antt =====
-- What `generate` leaves of the host, whichever way it ends.
use mathlib.Core.List.{append_assoc, append-nil}
use in_c_test.Prelude.{
  ℕ, ◌+◌, ◌≡◌, refl, sym, ap, ◌∙◌, not, Option, none, some, List, [], ◌∷◌, ◌++◌, Result, ok, err,
  guard, length, Bool-cases, inl, inr,
}
use in_c_test.Prelude.Int.{ℤ}
use in_c_test.Struct.{Bytes}
use in_c_test.Text.{Str}
use in_c_test.Json.{Real}
use in_c_test.MemoryPlan.{plan_request}
use in_c_test.Api.{ApiError, negative_temperature}
use in_c_test.Api.World.{
  World, Act, Fault, after, Effect, ids_written, started, drained, waited, terminated, ids_removed,
  effect_if_raised, and_effect, Command, lift,
}
use in_c_test.Api.Backend.{Backend, Run, KimiRuntime, token_of_line, is_stop, planned}
use in_c_test.Api.Process.{
  Decoding, fresh_decoding, delta_of, decoded, emit, on_token, read_lines, finish_run, follow,
  start, command, generate, is_zero,
}

abbrev pub effects_of : {A : Type 0} → Result Fault A × World → List Effect
effects_of x = x.1.effects

-- An action that does nothing to the host.
abbrev pub Quiet : {A : Type 0} → Act A → Type 0
Quiet m = (w : World) → effects_of (m w) ≡ w.effects

abbrev pub QuietCallback : (Str → Act (Unit {0})) → Type 0
QuietCallback on_delta = (s : Str) → Quiet (on_delta s)

pub after-effects :
    {A B : Type 0} (x : Result Fault A × World) (f : A → Act B)
    → ((a : A) → Quiet (f a))
    → effects_of (after x f) ≡ effects_of x
after-effects (ok a, w) f q = q a w
after-effects (err e, w) f q = refl

pub lift-Quiet : {A : Type 0} (r : Result ApiError A) → Quiet (lift r)
lift-Quiet (ok a) w = refl
lift-Quiet (err e) w = refl

module _ (on_delta : Str → Act (Unit {0})) (quiet : QuietCallback on_delta) where
  emit-Quiet : (d : Decoding) (s : Str) → Quiet (emit on_delta d s)
  emit-Quiet d [] w = refl
  emit-Quiet d (c ∷ s) w = after-effects (on_delta (c ∷ s) w) _ (λ a w'. refl) ∙ quiet (c ∷ s) w

  decoded-Quiet :
      (d : Decoding) (next : Decoding → Act Decoding)
      → ((d' : Decoding) → Quiet (next d'))
      → (p : Bytes × Str) → Quiet (decoded on_delta d next p)
  decoded-Quiet d next q (fed, s) w =
      after-effects (emit on_delta (record d { fed = fed }) s w) next q
      ∙ emit-Quiet (record d { fed = fed }) s w

  module _ (b : Backend) where
    on_token-Quiet :
        (d : Decoding) (token : Option ℤ) (next : Decoding → Act Decoding)
        → ((d' : Decoding) → Quiet (next d'))
        → Quiet (on_token b on_delta d token next)
    on_token-Quiet d none next q w = q d w
    on_token-Quiet d (some token) next q w = elim (Bool-cases (is_stop token)) [
      | inl e ↦ rw e refl
      | inr e ↦
          let counted = record d { output_tokens = d.output_tokens + 1 } in
          let t = delta_of b (b.token_bytes token) counted token in
          rw e (
            after-effects (lift t w) (decoded on_delta counted next)
              (λ p. decoded-Quiet counted next q p)
            ∙ lift-Quiet t w)
    ]

    read_lines-Quiet : (lines : List Str) (d : Decoding) → Quiet (read_lines b on_delta lines d)
    unfolding read_lines
    read_lines-Quiet [] d w = refl
    read_lines-Quiet (raw ∷ lines) d w =
        after-effects (lift (token_of_line raw) w) _ (λ token w'.
          on_token-Quiet d token (read_lines b on_delta lines) (λ d'. read_lines-Quiet lines d') w')
        ∙ lift-Quiet (token_of_line raw) w

    finish_run-effects :
        (run : Run) (d : Decoding) (w : World)
        → effects_of (finish_run b on_delta run d w) ≡ w.effects ++ drained ∷ waited ∷ []
    unfolding finish_run
    finish_run-effects run d w = elim (Bool-cases (is_zero run.exit_code)) [
      | inl e ↦
          let w' = record w { effects = (w.effects ++ drained ∷ []) ++ waited ∷ [] } in
          rw e (
            after-effects (emit on_delta d (b.finish d.fed) w') _ (λ d' w''. refl)
            ∙ emit-Quiet d (b.finish d.fed) w'
            ∙ append_assoc w.effects (drained ∷ []) (waited ∷ []))
      | inr e ↦ rw e (append_assoc w.effects (drained ∷ []) (waited ∷ []))
    ]

-- The end of a process that was started.
pub data Ends : List Effect → Type 0 where
  by_wait : Ends (drained ∷ waited ∷ [])
  by_termination : Ends (terminated ∷ [])

-- What a call of `generate` does to the host: nothing; or it writes the file of the ids and removes it
-- again; or between the two it starts one process, and waits for it or terminates it.
pub data IsClean : List Effect → Type 0 where
  rejected : IsClean []
  not_started : (ids : List ℕ) → IsClean (ids_written ids ∷ ids_removed ∷ [])
  ran :
      (ids : List ℕ) (cmd : Command) {log : List Effect}
      → Ends log
      → IsClean (ids_written ids ∷ started cmd ∷ log ++ ids_removed ∷ [])

-- What an action adds to the effects before it.
pub record Adds (P : List Effect → Type 0) (before after : List Effect) : Type 0 where
  pub log : List Effect
  pub added : after ≡ before ++ log
  pub kind : P log

-- Behind a computation that may raise.
pub rejected_or :
    {A B : Type 0} (r : Result ApiError A) (f : A → Act B) (w : World)
    → ((a : A) → Adds IsClean w.effects (effects_of (f a w)))
    → Adds IsClean w.effects (effects_of (after (lift r w) f))
rejected_or (ok a) f w k = k a
rejected_or (err e) f w k = record { log = []; added = sym (append-nil w.effects); kind = rejected }

module _ (b : Backend) (on_delta : Str → Act (Unit {0})) (quiet : QuietCallback on_delta) where
  follow_end :
      (run : Run) (es : List Effect) (x : Result Fault Decoding × World)
      → effects_of x ≡ es
      → Adds Ends es
          (effects_of (after (effect_if_raised terminated x) (finish_run b on_delta run)))
  follow_end run es (err e, w) h = record {
    log = terminated ∷ [];
    added = ap (λ l. l ++ terminated ∷ []) h;
    kind = by_termination;
  }
  follow_end run es (ok d, w) h = record {
    log = drained ∷ waited ∷ [];
    added = finish_run-effects on_delta quiet b run d w ∙ ap (λ l. l ++ drained ∷ waited ∷ []) h;
    kind = by_wait;
  }

  follow-Ends : (run : Run) (w : World) → Adds Ends w.effects (effects_of (follow b on_delta run w))
  unfolding follow
  follow-Ends run w =
      follow_end run w.effects (read_lines b on_delta run.lines fresh_decoding w)
        (read_lines-Quiet on_delta quiet b run.lines fresh_decoding w)

  -- `generate` behind the file of the ids.
  start_end :
      (es : List Effect) (ids : List ℕ) (cmd : Command) (run : Option Run) (w : World)
      → w.effects ≡ es ++ ids_written ids ∷ []
      → Adds IsClean es (effects_of (and_effect ids_removed (start b on_delta cmd run w)))
  start_end es ids cmd none w h = record {
    log = ids_written ids ∷ ids_removed ∷ [];
    added =
        ap (λ l. l ++ ids_removed ∷ []) h
        ∙ append_assoc es (ids_written ids ∷ []) (ids_removed ∷ []);
    kind = not_started ids;
  }
  start_end es ids cmd (some run) w h =
      let f = follow-Ends run (record w { effects = w.effects ++ started cmd ∷ [] }) in
      record {
        log = ids_written ids ∷ started cmd ∷ f.log ++ ids_removed ∷ [];
        added =
            ap (λ l. l ++ ids_removed ∷ [])
              (f.added
                ∙ ap (λ l. (l ++ started cmd ∷ []) ++ f.log) h
                ∙ ap (λ l. l ++ f.log) (append_assoc es (ids_written ids ∷ []) (started cmd ∷ []))
                ∙ append_assoc es (ids_written ids ∷ started cmd ∷ []) f.log)
            ∙ append_assoc es (ids_written ids ∷ started cmd ∷ f.log) (ids_removed ∷ []);
        kind = ran ids cmd f.kind;
      }

  -- Whichever way `generate` ends, it leaves no file of ids and no process of its own: if its callback
  -- does nothing to the host.
  pub generate-IsClean :
      (r : KimiRuntime) (ids : List ℕ) (max_tokens : ℤ) (temperature : Real) (seed : ℤ) (w : World)
      → Adds IsClean w.effects
          (effects_of (generate b r ids max_tokens temperature seed on_delta w))
  unfolding generate
  generate-IsClean r ids max_tokens temperature seed w =
      rejected_or (guard (not temperature.is_negative) negative_temperature) _ w (λ u.
        rejected_or (planned (plan_request r.memory (length ids) max_tokens)) _ w (λ plan.
          let cmd = command b r ids max_tokens temperature seed plan.0 in
          start_end w.effects ids cmd (b.spawn cmd)
            (record w { effects = w.effects ++ ids_written ids ∷ [] }) refl))
