-- ===== src/Api/Routes.antt =====
-- How the handlers of the requests end.
use in_c_test.Prelude.{
  ℕ, ◌≡◌, ◌∙◌, Bool, true, false, List, [], ◌∷◌, ◌++◌, Result, ok, err, length, list_eq,
  if◌then◌else◌, take,
}
use in_c_test.Prelude.Int.{ℤ}
use in_c_test.Text.{Str, codes, before}
use in_c_test.Json.{Json, null, Real, Fields, get, get_or_default, default}
use in_c_test.Api.{ApiError, Python}
use in_c_test.Api.World.{World, Act, Fault, raised, Written, head, after, lift}
use in_c_test.Api.Backend.{Backend, preflight}
use in_c_test.Api.Process.{GenerationResult}
use in_c_test.Api.Replies.{count, object, not_found_reply, anthropic_response, openai_response}
use in_c_test.Api.Requests.{Server, Request, stream_headers, object_of}
use in_c_test.Api.Server.{
  anthropic_stream, openai_stream, anthropic_count, anthropic_messages, openai_chat, read_json,
  route, handle, reply_with, no_callback, wants_stream, valid_model, ids_of, max_tokens_of,
  temperature_of, seed_of, declared_length,
}
use in_c_test.Api.Outcomes.{
  Sends, Sending, outcome, Silent, weaken, give-Silent, after-Sends, then-Sends,
}
use in_c_test.Api.Reference.{ref_generate, sent_for}
use in_c_test.Api.Streams.{err_lem}
use in_c_test.Api.Generation.{generate-Sends}
use in_c_test.Api.Events.{
  with_last, ended, delta_event, last_events, first_events, anthropic_stream-events, content_chunk,
  last_chunks, first_chunks, openai_stream-events,
}
use in_c_test.Api.Answers.{
  AllEvents, AllEvents-append, sent_for-AllEvents, sent_for-nothing, stream, Handled, answered,
  nothing, streaming, Handled-as, respond-Handled, lifted-Handled,
}

module _ (py : Python) (b : Backend) (sv : Server) where
  -- A stream of events, however its generation ends.
  pub streamed-Handled :
      (f : Str → List Written) (last : GenerationResult → List Written) (opening : List Written)
      → ((s : Str) → AllEvents (f s))
      → ((g : GenerationResult) → AllEvents (last g))
      → AllEvents opening
      → (p : Result ApiError GenerationResult × List Str) (r : Result Fault (Unit {0}))
        (out : List Written)
      → (r ≡ ended p.0) × (out ≡ (head 200 stream_headers ∷ opening) ++ with_last f last p)
      → Handled py r out
  streamed-Handled f last opening each final first (ok g, pieces) r out q =
      Handled-as py
        (answered (
          stream (opening ++ (sent_for f pieces ++ last g)) (
            AllEvents-append opening (sent_for f pieces ++ last g) first (
              AllEvents-append (sent_for f pieces) (last g) (sent_for-AllEvents f each pieces)
                (final g)))))
        q
  streamed-Handled f last opening each final first (err e, pieces) r out q =
      Handled-as py
        (streaming e (opening ++ sent_for f pieces)
          (AllEvents-append opening (sent_for f pieces) first (sent_for-AllEvents f each pieces)))
        q

  pub anthropic_stream-Handled :
      (ids : List ℕ) (max_tokens : ℤ) (temperature : Real) (seed : ℤ)
      → Sending (Handled py) (anthropic_stream py b sv ids max_tokens temperature seed)
  anthropic_stream-Handled ids max_tokens temperature seed w h =
      weaken _ _ w _
        (streamed-Handled (delta_event py b sv) (last_events py b sv) (first_events py b sv ids)
          (λ s. (tt, tt)) (λ g. (tt, (tt, (tt, tt)))) (tt, (tt, tt))
          (ref_generate b sv.runtime ids max_tokens temperature seed))
        (anthropic_stream-events py b sv ids max_tokens temperature seed w h)

  pub openai_stream-Handled :
      (ids : List ℕ) (max_tokens : ℤ) (temperature : Real) (seed : ℤ)
      → Sending (Handled py) (openai_stream py b sv ids max_tokens temperature seed)
  openai_stream-Handled ids max_tokens temperature seed w h =
      weaken _ _ w _
        (streamed-Handled (content_chunk py b sv) (last_chunks py b sv) (first_chunks py b sv)
          (λ s. (tt, tt)) (λ g. (tt, (tt, tt))) (tt, tt)
          (ref_generate b sv.runtime ids max_tokens temperature seed))
        (openai_stream-events py b sv ids max_tokens temperature seed w h)

  -- Behind an action that sends nothing.
  pub silent-Handled :
      {A : Type 0} (p : Result ApiError A) (w : World) (x : Result Fault A × World)
      (k : A → Act (Unit {0}))
      → Sends (Silent (outcome p)) w x
      → ((a : A) → Sending (Handled py) (k a))
      → Sends (Handled py) w (after x k)
  silent-Handled (ok a) w x k s m = then-Sends a [] (Handled py) w x k s (m a)
  silent-Handled (err e) w x k s m =
      after-Sends (Silent (err (raised e))) (Handled py) w x k s
        (λ a out q. absurd (let z = q.0 in cc))
        (λ y out q. Handled-as py (nothing e) (err_lem q.0, q.1))

  pub reply_with-Handled :
      (stream : Bool) (streamed : List ℕ → ℤ → Real → ℤ → Act (Unit {0}))
      (payload_of : GenerationResult → Json) (ids : List ℕ) (max_tokens : ℤ) (temperature : Real)
      (seed : ℤ)
      → Sending (Handled py) (streamed ids max_tokens temperature seed)
      → Sending
          (Handled py)
          (reply_with py b sv stream streamed payload_of ids max_tokens temperature seed)
  reply_with-Handled true streamed payload_of ids max_tokens temperature seed m w h =
      lifted-Handled py (preflight b sv.runtime ids max_tokens temperature) _ (λ u. m) w h
  reply_with-Handled false streamed payload_of ids max_tokens temperature seed m w h =
      let p = ref_generate b sv.runtime ids max_tokens temperature seed in
      silent-Handled p.0 w _ _
        (weaken _ _ w _ (λ r out q. (q.0, q.1 ∙ sent_for-nothing p.1))
          (generate-Sends (λ s. []) (no_callback py b sv) (λ s. give-Silent tt) b sv.runtime ids
            max_tokens temperature seed w h))
        (λ g. respond-Handled py b sv 200 (payload_of g))

  pub anthropic_count-Handled : (fs : Fields) → Sending (Handled py) (anthropic_count py b sv fs)
  unfolding anthropic_count
  anthropic_count-Handled fs = lifted-Handled py (valid_model py b sv fs) _ (λ u.
      lifted-Handled py (ids_of py b sv (default null (get (codes "system") fs)) fs) _
        (λ ids. respond-Handled py b sv 200 _))

  -- A generation, once its prompt is prepared.
  pub generation-Handled :
      (fs : Fields) (otherwise : Json) (ids : List ℕ)
      (reply : List ℕ → ℤ → Real → ℤ → Act (Unit {0}))
      → ((max_tokens : ℤ) (temperature : Real) (seed : ℤ)
          → Sending (Handled py) (reply ids max_tokens temperature seed))
      → Sending (Handled py) (λ w.
        after (lift (max_tokens_of py b sv otherwise fs) w) (λ max_tokens w1.
          after (lift (temperature_of py b sv fs) w1) (λ temperature w2.
            after (lift (seed_of py b sv fs) w2) (reply ids max_tokens temperature))))
  generation-Handled fs otherwise ids reply m =
      lifted-Handled py (max_tokens_of py b sv otherwise fs) _ (λ max_tokens.
        lifted-Handled py (temperature_of py b sv fs) _
          (λ temperature. lifted-Handled py (seed_of py b sv fs) _ (m max_tokens temperature)))

  pub anthropic_messages-Handled :
      (fs : Fields) → Sending (Handled py) (anthropic_messages py b sv fs)
  unfolding anthropic_messages
  anthropic_messages-Handled fs = lifted-Handled py (valid_model py b sv fs) _ (λ u.
      lifted-Handled py (ids_of py b sv (default null (get (codes "system") fs)) fs) _ (λ ids.
        generation-Handled fs (count 128) ids
          (reply_with py b sv (wants_stream py b sv fs) (anthropic_stream py b sv)
            (anthropic_response (sv.message_id (codes "msg")) sv.model_id (length ids)))
          (λ max_tokens temperature seed.
            reply_with-Handled (wants_stream py b sv fs) (anthropic_stream py b sv)
              (anthropic_response (sv.message_id (codes "msg")) sv.model_id (length ids)) ids
              max_tokens temperature seed
              (anthropic_stream-Handled ids max_tokens temperature seed))))

  pub openai_chat-Handled : (fs : Fields) → Sending (Handled py) (openai_chat py b sv fs)
  unfolding openai_chat
  openai_chat-Handled fs = lifted-Handled py (valid_model py b sv fs) _ (λ u.
      lifted-Handled py (ids_of py b sv null fs) _ (λ ids.
        generation-Handled fs (get_or_default (codes "max_completion_tokens") (count 128) fs) ids
          (reply_with py b sv (wants_stream py b sv fs) (openai_stream py b sv)
            (openai_response (sv.message_id (codes "chatcmpl")) sv.now sv.model_id (length ids)))
          (λ max_tokens temperature seed.
            reply_with-Handled (wants_stream py b sv fs) (openai_stream py b sv)
              (openai_response (sv.message_id (codes "chatcmpl")) sv.now sv.model_id (length ids))
              ids max_tokens temperature seed
              (openai_stream-Handled ids max_tokens temperature seed))))

  pub chosen-Handled :
      (c : Bool) (x y : Act (Unit {0}))
      → Sending (Handled py) x
      → Sending (Handled py) y
      → Sending (Handled py) (if c then x else y)
  chosen-Handled true x y m n = m
  chosen-Handled false x y m n = n

  pub route-Handled : (path : Str) (fs : Fields) → Sending (Handled py) (route py b sv path fs)
  route-Handled path fs =
      chosen-Handled (list_eq path (codes "/v1/messages")) _ _ (anthropic_messages-Handled fs) (
        chosen-Handled (list_eq path (codes "/v1/messages/count_tokens")) _ _
          (anthropic_count-Handled fs)
          (chosen-Handled (list_eq path (codes "/v1/chat/completions")) _ _ (openai_chat-Handled fs)
            (respond-Handled py b sv 404 not_found_reply)))

  pub read-Handled :
      (t : Result ApiError ℕ) (object : ℕ → Result ApiError Fields) (k : Fields → Act (Unit {0}))
      → ((fs : Fields) → Sending (Handled py) (k fs))
      → Sending (Handled py) (λ w. after (after (lift t w) (λ n. lift (object n))) k)
  read-Handled (ok n) object k m = lifted-Handled py (object n) k m
  read-Handled (err e) object k m = lifted-Handled py (err e) k m

  pub handle-Handled : (rq : Request) → Sending (Handled py) (handle py b sv rq)
  unfolding read_json
  handle-Handled rq =
      read-Handled (declared_length py b sv rq.content_length)
        (λ n. object_of (py.loads (take n rq.stream))) _ (route-Handled (before b'?' rq.path))
