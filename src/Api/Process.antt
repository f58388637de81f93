-- ===== src/Api/Process.antt =====
-- `KimiRuntime.generate` of tools/kvl_api.py: the loop over the lines of the generator, its callback,
-- and what it does to the host.
use in_c_test.Prelude.{
  ℕ, zero, suc, ◌+◌, ◌*◌, Bool, true, false, not, Option, none, some, List, [], ◌∷◌, ◌++◌, Result,
  ok, err, guard, length, if◌then◌else◌,
}
use in_c_test.Prelude.Int.{ℤ, pos, negsuc}
use in_c_test.Struct.{Bytes}
use in_c_test.Text.{Str, join}
use in_c_test.Json.{Real}
use in_c_test.MemoryPlan.{mib, plan_request}
use in_c_test.Api.{ApiError, unknown_token, negative_temperature, spawn_failed, generator_failed}
use in_c_test.Api.Backend.{Run, Backend, KimiRuntime, token_of_line, is_stop, planned}
use in_c_test.Api.World.{
  Act, ◌>>=◌, ◌>>◌, give, raise, lift, effect, finally, or_effect, Command, started, ids_written,
  drained, waited, terminated, ids_removed,
}

pub record GenerationResult : Type 0 where
  pub text : Str
  pub output_tokens : ℕ
  pub stopped_by_eos : Bool

-- The state of the loop over the generator's lines.
pub record Decoding : Type 0 where
  pub fed : Bytes
  pub parts : List Str
  pub output_tokens : ℕ
  pub stopped_by_eos : Bool

abbrev pub fresh_decoding : Decoding
fresh_decoding = record { fed = []; parts = []; output_tokens = 0; stopped_by_eos = false }

abbrev pub is_zero : ℤ → Bool
is_zero (pos zero) = true
is_zero (pos (suc n)) = false
is_zero (negsuc n) = false

-- `if delta: text_parts.append(delta); on_delta(delta)`
abbrev pub emit : (Str → Act (Unit {0})) → Decoding → Str → Act Decoding
emit on_delta d [] = give d
emit on_delta d (c ∷ s) = do on_delta (c ∷ s); give (record d { parts = d.parts ++ (c ∷ s) ∷ [] })

abbrev pub result_of : Decoding → GenerationResult
result_of d = record {
  text = join [] d.parts;
  output_tokens = d.output_tokens;
  stopped_by_eos = d.stopped_by_eos;
}

abbrev pub decoded :
    (Str → Act (Unit {0})) → Decoding → (Decoding → Act Decoding) → Bytes × Str → Act Decoding
decoded on_delta d next (fed, delta) = do d' ← emit on_delta (record d { fed = fed }) delta; next d'

-- The text of a token that is decoded alone.
abbrev pub single : Bytes → Option Str → Result ApiError (Bytes × Str)
single fed none = err unknown_token
single fed (some s) = ok (fed, s)

module _ (b : Backend) where
  -- The bytes that the decoder has been fed after a token, and the text that the token gives.
  abbrev pub delta_of : Option Bytes → Decoding → ℤ → Result ApiError (Bytes × Str)
  delta_of none d token = single d.fed (b.decode_one token)
  delta_of (some bytes) d token = ok (d.fed ++ bytes, b.feed d.fed bytes)

  -- The rest of the loop's body, and of the loop.
  abbrev pub on_token :
      (Str → Act (Unit {0})) → Decoding → Option ℤ → (Decoding → Act Decoding) → Act Decoding
  on_token on_delta d none next = next d
  on_token on_delta d (some token) next =
      let counted = record d { output_tokens = d.output_tokens + 1 } in
      if is_stop token then give (record counted { stopped_by_eos = true }) else (do
        p ← lift (delta_of (b.token_bytes token) counted token)
        decoded on_delta counted next p)

  unfoldable pub read_lines : (Str → Act (Unit {0})) → List Str → Decoding → Act Decoding
  unfolding token_of_line
  read_lines on_delta [] d = give d
  read_lines on_delta (raw ∷ lines) d = do
    token ← lift (token_of_line raw)
    on_token on_delta d token (read_lines on_delta lines)

  -- What follows the loop: the exit code, and the decoder's last text.
  unfoldable pub finish_run : (Str → Act (Unit {0})) → Run → Decoding → Act GenerationResult
  unfolding join
  finish_run on_delta run d = do
    effect drained
    effect waited
    if is_zero run.exit_code then give tt else raise generator_failed
    d' ← emit on_delta d (b.finish d.fed)
    give (result_of d')

  -- What follows the start of the process.
  unfoldable pub follow : (Str → Act (Unit {0})) → Run → Act GenerationResult
  unfolding read_lines finish_run
  follow on_delta run = do
    d ← or_effect terminated (read_lines on_delta run.lines fresh_decoding)
    finish_run on_delta run d

  abbrev pub start : (Str → Act (Unit {0})) → Command → Option Run → Act GenerationResult
  start on_delta cmd none = raise spawn_failed
  start on_delta cmd (some run) = do effect (started cmd); follow on_delta run

  abbrev pub command : KimiRuntime → List ℕ → ℤ → Real → ℤ → ℕ → Command
  command r ids max_tokens temperature seed trunk_cache_mib = record {
    binary = r.binary;
    model_dir = r.model_dir;
    prompt_ids = ids;
    cache_bytes = r.memory.cache_mib * mib;
    max_tokens = max_tokens;
    temperature = temperature;
    seed = seed;
    trunk_cache_mib = trunk_cache_mib;
  }

  -- `generate`; a caller without a callback passes one that does nothing.
  unfoldable pub generate :
      KimiRuntime → List ℕ → ℤ → Real → ℤ → (Str → Act (Unit {0})) → Act GenerationResult
  unfolding plan_request follow
  generate r ids max_tokens temperature seed on_delta = do
    lift (guard (not temperature.is_negative) negative_temperature)
    plan ← lift (planned (plan_request r.memory (length ids) max_tokens))
    let cmd = command r ids max_tokens temperature seed plan.0
    effect (ids_written ids)
    finally ids_removed (start on_delta cmd (b.spawn cmd))
