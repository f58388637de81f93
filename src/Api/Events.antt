-- ===== src/Api/Events.antt =====
-- The streams of the two protocols, event by event, to a client that stays.
use in_c_test.Prelude.{ℕ, ◌≡◌, ap, List, [], ◌∷◌, ◌++◌, Result, ok, err, length}
use in_c_test.Prelude.Int.{ℤ}
use in_c_test.Text.{Str, codes}
use in_c_test.Json.{Json, null, str, Real}
use in_c_test.Api.{ApiError, Python}
use in_c_test.Api.World.{World, Act, Fault, raised, Written, head, event, chunk, done, after, put}
use in_c_test.Api.Backend.{Backend}
use in_c_test.Api.Process.{GenerationResult}
use in_c_test.Api.Replies.{
  message_start, block_start, block_delta, block_stop, message_delta, message_stop, chat_chunk,
  fields_of, openai_finish_reason,
}
use in_c_test.Api.Requests.{Server, stream_headers}
use in_c_test.Api.Server.{anthropic_stream, openai_stream, send_delta, send_content}
use in_c_test.Api.Outcomes.{
  Post, Sends, Sending, outcome, weaken, put-Sends, after-Sends, then-Sends,
}
use in_c_test.Api.Reference.{ref_generate, sent_for}
use in_c_test.Api.Streams.{err_lem}
use in_c_test.Api.Generation.{generate-Sends}

pub put_then :
    {B : Type 0} (x : Written) (Q : Post B) (m : Act B)
    → Sending (λ r out. Q r (x ∷ out)) m
    → Sending Q (λ w. after (put x w) (λ u. m))
put_then x Q m k w h = then-Sends tt (x ∷ []) Q w (put x w) (λ u. m) (put-Sends x w h) k

-- How a stream ends, by the result of its generation.
abbrev pub ended : Result ApiError GenerationResult → Result Fault (Unit {0})
ended (ok r) = ok tt
ended (err e) = err (raised e)

-- Behind the pieces of a generation comes what `last` sends, if it returns.
abbrev pub with_last :
    (Str → List Written)
    → (GenerationResult → List Written)
    → Result ApiError GenerationResult × List Str
    → List Written
with_last f last (ok r, pieces) = sent_for f pieces ++ last r
with_last f last (err e, pieces) = sent_for f pieces

module _ (f : Str → List Written) (last : GenerationResult → List Written) where
  generated_then :
      (p : Result ApiError GenerationResult × List Str) (w : World)
      (x : Result Fault GenerationResult × World) (k : GenerationResult → Act (Unit {0}))
      → Sends (λ r out. (r ≡ outcome p.0) × (out ≡ sent_for f p.1)) w x
      → ((g : GenerationResult) → Sending (λ r out. (r ≡ ok tt) × (out ≡ last g)) (k g))
      → Sends (λ r out. (r ≡ ended p.0) × (out ≡ with_last f last p)) w (after x k)
  generated_then (ok g, pieces) w x k s l = then-Sends g (sent_for f pieces) _ w x k s (λ w' h'.
      weaken _ _ w' _ (λ r out q. (q.0, ap (λ m. sent_for f pieces ++ m) q.1)) (l g w' h'))
  generated_then (err e, pieces) w x k s l =
      after-Sends (λ r out. (r ≡ err (raised e)) × (out ≡ sent_for f pieces)) _ w x k s
        (λ a out q. absurd (let z = q.0 in cc)) (λ y out q. (err_lem q.0, q.1))

module _ (py : Python) (b : Backend) (sv : Server) where
  abbrev pub delta_event : Str → List Written
  delta_event s = event (codes "content_block_delta") (block_delta s) ∷ []

  abbrev pub last_events : GenerationResult → List Written
  last_events r =
      event (codes "content_block_stop") block_stop
      ∷ event (codes "message_delta") (message_delta r)
      ∷ event (codes "message_stop") message_stop
      ∷ []

  abbrev pub first_events : List ℕ → List Written
  first_events ids =
      event (codes "message_start")
        (message_start (sv.message_id (codes "msg")) sv.model_id (length ids))
      ∷ event (codes "content_block_start") block_start
      ∷ []

  abbrev pub anthropic_opening : List ℕ → List Written
  anthropic_opening ids = head 200 stream_headers ∷ first_events ids

  -- To a client that stays, the stream is its opening, one event for each piece of the text, and the
  -- closing events if the generation returns; if that raises, the stream raises the same.
  pub anthropic_stream-events :
      (ids : List ℕ) (max_tokens : ℤ) (temperature : Real) (seed : ℤ)
      → Sending
          (λ r out.
            (r ≡ ended (ref_generate b sv.runtime ids max_tokens temperature seed).0)
            × (out
                ≡ anthropic_opening ids
                  ++ with_last delta_event last_events
                      (ref_generate b sv.runtime ids max_tokens temperature seed)))
          (anthropic_stream py b sv ids max_tokens temperature seed)
  unfolding anthropic_stream
  anthropic_stream-events ids max_tokens temperature seed = put_then _ _ _ (
      put_then _ _ _ (
        put_then _ _ _ (λ w h.
          weaken _ _ w _ (λ r out q. (q.0, ap (λ m. anthropic_opening ids ++ m) q.1))
            (generated_then delta_event last_events
              (ref_generate b sv.runtime ids max_tokens temperature seed) w _ _
              (generate-Sends delta_event (send_delta py b sv) (λ s. put-Sends _) b sv.runtime ids
                max_tokens temperature seed w h)
              (λ g. put_then _ _ _ (
                put_then _ _ _ (λ w' h'.
                  weaken _ _ w' _
                    (λ r out q. (
                      q.0,
                      ap
                          (λ m.
                            event (codes "content_block_stop") block_stop
                            ∷ event (codes "message_delta") (message_delta g)
                            ∷ m)
                          q.1,
                    ))
                    (put-Sends (event (codes "message_stop") message_stop) w' h'))))))))

  abbrev pub a_chunk : List (Str × Json) → Json → Written
  a_chunk delta finish_reason = chunk (
      chat_chunk (sv.message_id (codes "chatcmpl")) sv.now sv.model_id (fields_of delta)
        finish_reason)

  abbrev pub content_chunk : Str → List Written
  content_chunk s = a_chunk ((codes "content", str s) ∷ []) null ∷ []

  abbrev pub last_chunks : GenerationResult → List Written
  last_chunks r = a_chunk [] (str (openai_finish_reason r)) ∷ done ∷ []

  abbrev pub first_chunks : List Written
  first_chunks =
      a_chunk ((codes "role", str (codes "assistant")) ∷ (codes "content", str []) ∷ []) null ∷ []

  abbrev pub openai_opening : List Written
  openai_opening = head 200 stream_headers ∷ first_chunks

  -- To a client that stays, the stream is its opening, one chunk for each piece of the text, and the
  -- closing chunks if the generation returns; if that raises, the stream raises the same.
  pub openai_stream-events :
      (ids : List ℕ) (max_tokens : ℤ) (temperature : Real) (seed : ℤ)
      → Sending
          (λ r out.
            (r ≡ ended (ref_generate b sv.runtime ids max_tokens temperature seed).0)
            × (out
                ≡ openai_opening
                  ++ with_last content_chunk last_chunks
                      (ref_generate b sv.runtime ids max_tokens temperature seed)))
          (openai_stream py b sv ids max_tokens temperature seed)
  unfolding openai_stream
  openai_stream-events ids max_tokens temperature seed = put_then _ _ _ (
      put_then _ _ _ (λ w h.
        weaken _ _ w _ (λ r out q. (q.0, ap (λ m. openai_opening ++ m) q.1))
          (generated_then content_chunk last_chunks
            (ref_generate b sv.runtime ids max_tokens temperature seed) w _ _
            (generate-Sends content_chunk (send_content py b sv) (λ s. put-Sends _) b sv.runtime ids
              max_tokens temperature seed w h)
            (λ g. put_then _ _ _ (λ w' h'.
              weaken _ _ w' _
                (λ r out q. (q.0, ap (λ m. a_chunk [] (str (openai_finish_reason g)) ∷ m) q.1))
                (put-Sends done w' h'))))))
