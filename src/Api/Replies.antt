-- ===== src/Api/Replies.antt =====
-- The JSON that tools/kvl_api.py answers with.
use in_c_test.Prelude.{ℕ, ◌+◌, Bool, List, [], ◌∷◌, if◌then◌else◌}
use in_c_test.Prelude.Int.{ℤ, pos}
use in_c_test.Text.{Str, codes}
use in_c_test.Json.{Json, null, bool, int, str, arr, obj, nil, Fields, end, field, arr_of}
use in_c_test.Api.Process.{GenerationResult}

abbrev pub fields_of : List (Str × Json) → Fields
fields_of [] = end
fields_of ((k, v) ∷ kvs) = field k v (fields_of kvs)

abbrev pub object : List (Str × Json) → Json
object kvs = obj (fields_of kvs)

abbrev pub count : ℕ → Json
count n = int (pos n)

abbrev pub anthropic_stop_reason : GenerationResult → Str
anthropic_stop_reason r = if r.stopped_by_eos then codes "end_turn" else codes "max_tokens"

abbrev pub openai_finish_reason : GenerationResult → Str
openai_finish_reason r = if r.stopped_by_eos then codes "stop" else codes "length"

-- `_anthropic_response`, with its fresh id
unfoldable pub anthropic_response : Str → Str → (input_tokens : ℕ) → GenerationResult → Json
anthropic_response id model input_tokens r = object (
    (codes "id", str id)
    ∷ (codes "type", str (codes "message"))
    ∷ (codes "role", str (codes "assistant"))
    ∷ (codes "model", str model)
    ∷ (
      codes "content",
      arr (
          arr_of
            (object ((codes "type", str (codes "text")) ∷ (codes "text", str r.text) ∷ []) ∷ [])),
    )
    ∷ (codes "stop_reason", str (anthropic_stop_reason r))
    ∷ (codes "stop_sequence", null)
    ∷ (
      codes "usage",
      object (
          (codes "input_tokens", count input_tokens)
          ∷ (codes "output_tokens", count r.output_tokens)
          ∷ []),
    )
    ∷ [])

-- `_openai_response`, with its fresh id and the time
unfoldable pub openai_response : Str → ℤ → Str → (input_tokens : ℕ) → GenerationResult → Json
openai_response id created model input_tokens r = object (
    (codes "id", str id)
    ∷ (codes "object", str (codes "chat.completion"))
    ∷ (codes "created", int created)
    ∷ (codes "model", str model)
    ∷ (
      codes "choices",
      arr (
          arr_of (
            object (
              (codes "index", count 0)
              ∷ (
                codes "message",
                object
                    ((codes "role", str (codes "assistant")) ∷ (codes "content", str r.text) ∷ []),
              )
              ∷ (codes "finish_reason", str (openai_finish_reason r))
              ∷ [])
            ∷ [])),
    )
    ∷ (
      codes "usage",
      object (
          (codes "prompt_tokens", count input_tokens)
          ∷ (codes "completion_tokens", count r.output_tokens)
          ∷ (codes "total_tokens", count (input_tokens + r.output_tokens))
          ∷ []),
    )
    ∷ [])

-- `{"type": "error", "error": {"type": kind, "message": message}}`
abbrev pub error_reply : Str → Str → Json
error_reply kind message = object (
    (codes "type", str (codes "error"))
    ∷ (codes "error", object ((codes "type", str kind) ∷ (codes "message", str message) ∷ []))
    ∷ [])

abbrev pub not_found_reply : Json
not_found_reply = object (
    (
      codes "error",
      object (
          (codes "message", str (codes "not found"))
          ∷ (codes "type", str (codes "not_found"))
          ∷ []),
    )
    ∷ [])

abbrev pub health_reply : Str → Bool → Json
health_reply model busy = object (
    (codes "status", str (codes "ok"))
    ∷ (codes "model", str model)
    ∷ (codes "backend", str (codes "serialized-process-v1"))
    ∷ (codes "busy", bool busy)
    ∷ [])

abbrev pub models_reply : Str → Json
models_reply model = object (
    (codes "object", str (codes "list"))
    ∷ (
      codes "data",
      arr (
          arr_of (
            object (
              (codes "id", str model)
              ∷ (codes "object", str (codes "model"))
              ∷ (codes "created", count 0)
              ∷ (codes "owned_by", str (codes "local-kimi"))
              ∷ [])
            ∷ [])),
    )
    ∷ [])

-- The events of `_anthropic_stream`
abbrev pub message_start : Str → Str → ℕ → Json
message_start id model input_tokens = object (
    (codes "type", str (codes "message_start"))
    ∷ (
      codes "message",
      object (
          (codes "id", str id)
          ∷ (codes "type", str (codes "message"))
          ∷ (codes "role", str (codes "assistant"))
          ∷ (codes "model", str model)
          ∷ (codes "content", arr nil)
          ∷ (codes "stop_reason", null)
          ∷ (codes "stop_sequence", null)
          ∷ (
            codes "usage",
            object (
                (codes "input_tokens", count input_tokens) ∷ (codes "output_tokens", count 0) ∷ []),
          )
          ∷ []),
    )
    ∷ [])

abbrev pub block_start : Json
block_start = object (
    (codes "type", str (codes "content_block_start"))
    ∷ (codes "index", count 0)
    ∷ (
      codes "content_block",
      object ((codes "type", str (codes "text")) ∷ (codes "text", str []) ∷ []),
    )
    ∷ [])

abbrev pub block_delta : Str → Json
block_delta delta = object (
    (codes "type", str (codes "content_block_delta"))
    ∷ (codes "index", count 0)
    ∷ (
      codes "delta",
      object ((codes "type", str (codes "text_delta")) ∷ (codes "text", str delta) ∷ []),
    )
    ∷ [])

abbrev pub block_stop : Json
block_stop =
    object ((codes "type", str (codes "content_block_stop")) ∷ (codes "index", count 0) ∷ [])

abbrev pub message_delta : GenerationResult → Json
message_delta r = object (
    (codes "type", str (codes "message_delta"))
    ∷ (
      codes "delta",
      object (
          (codes "stop_reason", str (anthropic_stop_reason r))
          ∷ (codes "stop_sequence", null)
          ∷ []),
    )
    ∷ (codes "usage", object ((codes "output_tokens", count r.output_tokens) ∷ []))
    ∷ [])

abbrev pub message_stop : Json
message_stop = object ((codes "type", str (codes "message_stop")) ∷ [])

-- A chunk of `_openai_stream`
abbrev pub chat_chunk : Str → ℤ → Str → Fields → Json → Json
chat_chunk id created model delta finish_reason = object (
    (codes "id", str id)
    ∷ (codes "object", str (codes "chat.completion.chunk"))
    ∷ (codes "created", int created)
    ∷ (codes "model", str model)
    ∷ (
      codes "choices",
      arr (
          arr_of (
            object (
              (codes "index", count 0)
              ∷ (codes "delta", obj delta)
              ∷ (codes "finish_reason", finish_reason)
              ∷ [])
            ∷ [])),
    )
    ∷ [])
