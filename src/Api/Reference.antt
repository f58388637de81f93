-- ===== src/Api/Reference.antt =====
-- A generation that only computes: what `generate` of tools/kvl_api.py is to return, and the pieces of
-- text that its callback is to be called for.
use in_c_test.Prelude.{
  ℕ, ◌+◌, true, not, Option, none, some, List, [], ◌∷◌, ◌++◌, Result, ok, err, guard, length,
  if◌then◌else◌,
}
use in_c_test.Prelude.Int.{ℤ}
use in_c_test.Struct.{Bytes}
use in_c_test.Text.{Str}
use in_c_test.Json.{Real}
use in_c_test.MemoryPlan.{plan_request}
use in_c_test.Api.{ApiError, unknown_token, negative_temperature, spawn_failed, generator_failed}
use in_c_test.Api.World.{Written}
use in_c_test.Api.Backend.{Backend, Run, KimiRuntime, token_of_line, is_stop, planned}
use in_c_test.Api.Process.{Decoding, GenerationResult, fresh_decoding, command, is_zero}

abbrev pub ref_emit : Decoding → Str → Decoding
ref_emit d [] = d
ref_emit d (c ∷ s) = record d { parts = d.parts ++ (c ∷ s) ∷ [] }

-- The pieces of a text, one behind the other.
unfoldable pub ref_text : List Str → Str
ref_text [] = []
ref_text (piece ∷ pieces) = piece ++ ref_text pieces

abbrev pub ref_result : Decoding → GenerationResult
ref_result d = record {
  text = ref_text d.parts;
  output_tokens = d.output_tokens;
  stopped_by_eos = d.stopped_by_eos;
}

-- A token without bytes leaves the decoder as it is.
abbrev pub ref_alone : Decoding → Option Str → Result ApiError Decoding
ref_alone d (some s) = ok (ref_emit (record d { output_tokens = d.output_tokens + 1 }) s)
ref_alone d none = err unknown_token

module _ (b : Backend) where
  unfoldable pub ref_next : Option Bytes → Decoding → ℤ → Result ApiError Decoding
  ref_next (some bytes) d token = ok (
      ref_emit (record d { output_tokens = d.output_tokens + 1; fed = d.fed ++ bytes })
        (b.feed d.fed bytes))
  ref_next none d token = ref_alone d (b.decode_one token)

  abbrev pub ref_then :
      Result ApiError Decoding
      → Decoding
      → (Decoding → Result ApiError (Unit {0}) × Decoding)
      → Result ApiError (Unit {0}) × Decoding
  ref_then (err e) d next = (err e, d)
  ref_then (ok d') d next = next d'

  abbrev pub ref_line :
      Result ApiError (Option ℤ)
      → Decoding
      → (Decoding → Result ApiError (Unit {0}) × Decoding)
      → Result ApiError (Unit {0}) × Decoding
  ref_line (err e) d next = (err e, d)
  ref_line (ok none) d next = next d
  ref_line (ok (some token)) d next =
      if is_stop token
      then (ok tt, record d { output_tokens = d.output_tokens + 1; stopped_by_eos = true })
      else ref_then (ref_next (b.token_bytes token) d token) d next

  -- How the loop ends, and what it has decoded.
  unfoldable pub ref_lines : List Str → Decoding → Result ApiError (Unit {0}) × Decoding
  unfolding ref_next
  ref_lines [] d = (ok tt, d)
  ref_lines (raw ∷ lines) d = ref_line (token_of_line raw) d (ref_lines lines)

  abbrev pub ref_finish :
      Run → Result ApiError (Unit {0}) × Decoding → Result ApiError GenerationResult × List Str
  ref_finish run (err e, d) = (err e, d.parts)
  ref_finish run (ok u, d) =
      if is_zero run.exit_code
      then (ok (ref_result (ref_emit d (b.finish d.fed))), (ref_emit d (b.finish d.fed)).parts)
      else (err generator_failed, d.parts)

  abbrev pub ref_start : Option Run → Result ApiError GenerationResult × List Str
  ref_start none = (err spawn_failed, [])
  ref_start (some run) = ref_finish run (ref_lines run.lines fresh_decoding)

  abbrev pub ref_planned :
      {A : Type 0}
      → Result ApiError A
      → (A → Result ApiError GenerationResult × List Str)
      → Result ApiError GenerationResult × List Str
  ref_planned (err e) k = (err e, [])
  ref_planned (ok a) k = k a

  -- The result of a generation, and the pieces of its text.
  unfoldable pub ref_generate :
      KimiRuntime → List ℕ → ℤ → Real → ℤ → Result ApiError GenerationResult × List Str
  unfolding ref_lines ref_text
  ref_generate r ids max_tokens temperature seed =
      ref_planned (guard (not temperature.is_negative) negative_temperature) (λ u.
        ref_planned (planned (plan_request r.memory (length ids) max_tokens))
          (λ plan. ref_start (b.spawn (command b r ids max_tokens temperature seed plan.0))))

-- What is sent for pieces of text, if `f` tells what is sent for one.
unfoldable pub sent_for : (Str → List Written) → List Str → List Written
sent_for f [] = []
sent_for f (s ∷ ss) = f s ++ sent_for f ss
