-- ===== src/Api/Server.antt =====
-- The handlers of `KimiRequestHandler` of tools/kvl_api.py.
use in_c_test.Prelude.{
  ℕ, Bool, true, false, Option, none, some, List, [], ◌∷◌, ◌++◌, Result, ok, err, guard, length,
  take, list_eq, if◌then◌else◌,
}
use in_c_test.Prelude.Int.{ℤ}
use in_c_test.Text.{Str, codes, before, parse_int}
use in_c_test.Json.{
  Json, null, bool, str, Fields, end, get, get_or_default, default, truthy, is_str, Real,
}
use in_c_test.Api.{ApiError, unknown_model, no_length, Python}
use in_c_test.Api.World.{
  World, Act, Fault, raised, gone, ◌>>=◌, ◌>>◌, give, lift, put, head, body, event, chunk, done,
}
use in_c_test.Api.Backend.{Backend, prepare, preflight}
use in_c_test.Api.Process.{GenerationResult, generate}
use in_c_test.Api.Replies.{
  fields_of, count, object, anthropic_response, openai_response, error_reply, not_found_reply,
  health_reply, models_reply, message_start, block_start, block_delta, block_stop, message_delta,
  message_stop, chat_chunk, openai_finish_reason,
}
use in_c_test.Api.Requests.{
  Server, Request, cors, json_headers, stream_headers, key_matches, length_of, object_of,
  or_not_encodable, py_int, Blame, blame, swallowed, default_temperature, client, backend,
}

module _ (py : Python) (b : Backend) (sv : Server) where
  -- `_json`
  unfoldable pub respond : ℕ → Json → Act (Unit {0})
  unfolding put
  respond status payload = do
    bytes ← lift (or_not_encodable (py.encoded payload))
    put (head status (json_headers (length bytes)))
    put (body payload)

  -- `_safe_error`
  unfoldable pub safe_error : ℕ → Str → Str → Act (Unit {0})
  unfolding respond
  safe_error status kind message w = swallowed (respond status (error_reply kind message) w)

  -- The `except` clauses of `do_POST`.
  abbrev pub answer_error : Blame → ApiError → Act (Unit {0})
  answer_error client e = safe_error 400 (codes "invalid_request_error") (py.message_of e)
  answer_error backend e = safe_error 500 (codes "backend_error") (py.message_of e)

  abbrev pub caught : Result Fault (Unit {0}) × World → Result Fault (Unit {0}) × World
  caught (ok u, w) = (ok u, w)
  caught (err gone, w) = (ok tt, w)
  caught (err (raised e), w) = answer_error (blame e) e w

  abbrev pub refuse : Act (Unit {0})
  refuse = respond 401 (error_reply (codes "authentication_error") (codes "invalid local API key"))

  abbrev pub valid_model : Fields → Result ApiError (Unit {0})
  valid_model fs =
      guard (is_str sv.model_id (get_or_default (codes "model") (str sv.model_id) fs)) unknown_model

  -- The ids of the prompt, and the other arguments of a generation.
  abbrev pub ids_of : (system : Json) → Fields → Result ApiError (List ℕ)
  ids_of system fs =
      prepare b py (default null (get (codes "messages") fs)) system
        (default null (get (codes "tools") fs))

  abbrev pub max_tokens_of : (otherwise : Json) → Fields → Result ApiError ℤ
  max_tokens_of otherwise fs = py_int (get_or_default (codes "max_tokens") otherwise fs)

  abbrev pub temperature_of : Fields → Result ApiError Real
  temperature_of fs = py.float_of (get_or_default (codes "temperature") default_temperature fs)

  abbrev pub seed_of : Fields → Result ApiError ℤ
  seed_of fs = py_int (get_or_default (codes "seed") (count 1) fs)

  -- `_anthropic_count`
  unfoldable pub anthropic_count : Fields → Act (Unit {0})
  unfolding respond get prepare list_eq
  anthropic_count fs = do
    lift (valid_model fs)
    ids ← lift (ids_of (default null (get (codes "system") fs)) fs)
    respond 200 (object ((codes "input_tokens", count (length ids)) ∷ []))

  abbrev pub send_delta : Str → Act (Unit {0})
  send_delta delta = put (event (codes "content_block_delta") (block_delta delta))

  -- `_anthropic_stream`
  unfoldable pub anthropic_stream : List ℕ → ℤ → Real → ℤ → Act (Unit {0})
  unfolding put generate
  anthropic_stream ids max_tokens temperature seed = do
    put (head 200 stream_headers)
    put (
        event (codes "message_start")
          (message_start (sv.message_id (codes "msg")) sv.model_id (length ids)))
    put (event (codes "content_block_start") block_start)
    result ← generate b sv.runtime ids max_tokens temperature seed send_delta
    put (event (codes "content_block_stop") block_stop)
    put (event (codes "message_delta") (message_delta result))
    put (event (codes "message_stop") message_stop)

  abbrev pub no_callback : Str → Act (Unit {0})
  no_callback delta = give tt

  -- What the two handlers do once the prompt is prepared: stream, or generate and answer.
  abbrev pub reply_with :
      (stream : Bool)
      → (List ℕ → ℤ → Real → ℤ → Act (Unit {0}))
      → (GenerationResult → Json)
      → List ℕ
      → ℤ
      → Real
      → ℤ
      → Act (Unit {0})
  reply_with true streamed response ids max_tokens temperature seed = do
    lift (preflight b sv.runtime ids max_tokens temperature)
    streamed ids max_tokens temperature seed
  reply_with false streamed response ids max_tokens temperature seed = do
    result ← generate b sv.runtime ids max_tokens temperature seed no_callback
    respond 200 (response result)

  abbrev pub wants_stream : Fields → Bool
  wants_stream fs = truthy (get_or_default (codes "stream") (bool false) fs)

  -- `_anthropic_messages`
  unfoldable pub anthropic_messages : Fields → Act (Unit {0})
  unfolding respond get prepare preflight generate py_int anthropic_stream anthropic_response
      list_eq
  anthropic_messages fs = do
    lift (valid_model fs)
    ids ← lift (ids_of (default null (get (codes "system") fs)) fs)
    max_tokens ← lift (max_tokens_of (count 128) fs)
    temperature ← lift (temperature_of fs)
    seed ← lift (seed_of fs)
    reply_with (wants_stream fs) anthropic_stream
        (anthropic_response (sv.message_id (codes "msg")) sv.model_id (length ids)) ids max_tokens
        temperature seed

  abbrev pub send_chunk : Fields → Json → Act (Unit {0})
  send_chunk delta finish_reason =
      put (
        chunk
          (chat_chunk (sv.message_id (codes "chatcmpl")) sv.now sv.model_id delta finish_reason))

  abbrev pub send_content : Str → Act (Unit {0})
  send_content delta = send_chunk (fields_of ((codes "content", str delta) ∷ [])) null

  -- `_openai_stream`
  unfoldable pub openai_stream : List ℕ → ℤ → Real → ℤ → Act (Unit {0})
  unfolding put generate
  openai_stream ids max_tokens temperature seed = do
    put (head 200 stream_headers)
    send_chunk
        (fields_of ((codes "role", str (codes "assistant")) ∷ (codes "content", str []) ∷ [])) null
    result ← generate b sv.runtime ids max_tokens temperature seed send_content
    send_chunk end (str (openai_finish_reason result))
    put done

  -- `_openai_chat`
  unfoldable pub openai_chat : Fields → Act (Unit {0})
  unfolding respond get prepare preflight generate py_int openai_stream openai_response list_eq
  openai_chat fs = do
    lift (valid_model fs)
    ids ← lift (ids_of null fs)
    max_tokens ←
        lift (max_tokens_of (get_or_default (codes "max_completion_tokens") (count 128) fs) fs)
    temperature ← lift (temperature_of fs)
    seed ← lift (seed_of fs)
    reply_with (wants_stream fs) openai_stream
        (openai_response (sv.message_id (codes "chatcmpl")) sv.now sv.model_id (length ids)) ids
        max_tokens temperature seed

  -- `_read_json`
  abbrev pub declared_length : Option Str → Result ApiError ℕ
  declared_length none = err no_length
  declared_length (some s) = length_of (parse_int s)

  unfoldable pub read_json : Request → Act Fields
  unfolding parse_int
  read_json rq = do
    n ← lift (declared_length rq.content_length)
    lift (object_of (py.loads (take n rq.stream)))

  abbrev pub route : Str → Fields → Act (Unit {0})
  route path fs =
      if list_eq path (codes "/v1/messages")
      then anthropic_messages fs
      else if list_eq path (codes "/v1/messages/count_tokens")
      then anthropic_count fs
      else if list_eq path (codes "/v1/chat/completions")
      then openai_chat fs
      else respond 404 not_found_reply

  -- The `try` of `do_POST`
  abbrev pub handle : Request → Act (Unit {0})
  handle rq = do fs ← read_json rq; route (before b'?' rq.path) fs

  unfoldable pub do_post : Request → Act (Unit {0})
  unfolding respond safe_error read_json anthropic_messages anthropic_count openai_chat before
      list_eq
  do_post rq w = if key_matches sv.api_key rq then caught (handle rq w) else refuse w

  abbrev pub get_route : Str → Act (Unit {0})
  get_route path =
      if list_eq path (codes "/healthz")
      then respond 200 (health_reply sv.model_id sv.busy)
      else if list_eq path (codes "/v1/models")
      then respond 200 (models_reply sv.model_id)
      else respond 404 not_found_reply

  unfoldable pub do_get : Request → Act (Unit {0})
  unfolding respond before list_eq
  do_get rq w = if key_matches sv.api_key rq then get_route (before b'?' rq.path) w else refuse w

  unfoldable pub do_options : Act (Unit {0})
  unfolding put
  do_options = put (head 204 (cors ++ (codes "Content-Length", codes "0") ∷ []))
