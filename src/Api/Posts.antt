-- ===== src/Api/Posts.antt =====
-- Every request to a client that stays is answered.
use mathlib.Core.List.{append_assoc, append-nil}
use in_c_test.Prelude.{
  ℕ, ◌≡◌, sym, ap, subst, ◌∙◌, List, [], ◌∷◌, ◌++◌, Result, ok, err, none, Bool-cases, inl, inr,
}
use in_c_test.Text.{Str}
use in_c_test.Json.{Json}
use in_c_test.Api.{ApiError, Python, not_encodable}
use in_c_test.Api.World.{World, Fault, raised, gone, Written, head}
use in_c_test.Api.Backend.{Backend}
use in_c_test.Api.Replies.{error_reply}
use in_c_test.Api.Requests.{
  Server, Request, stream_headers, Blame, client, backend, blame, swallowed, key_matches,
}
use in_c_test.Api.Server.{safe_error, handle, do_post, caught, answer_error}
use in_c_test.Api.Outcomes.{Post, Sends, Sending, weaken}
use in_c_test.Api.Answers.{
  AllEvents, Answer, response, broken, Handled, answered, nothing, streaming, Responded, responded,
  unencoded, respond-Sends, not_gone,
}
use in_c_test.Api.Routes.{handle-Handled}

module _ (py : Python) (b : Backend) (sv : Server) where
  -- The end of a POST: the client is answered, or the reply to an error does not encode, and then
  -- the POST raises, with nothing sent or in its stream.
  pub data Answered : Result Fault (Unit {0}) → List Written → Type 0 where
    answer : {out : List Written} → Answer py out → Answered (ok tt) out
    unanswered :
        (kind message : Str)
        → py.encoded (error_reply kind message) ≡ none
        → Answered (err (raised not_encodable)) []
    broken_off :
        (kind message : Str) (events : List Written)
        → AllEvents events
        → py.encoded (error_reply kind message) ≡ none
        → Answered (err (raised not_encodable)) (head 200 stream_headers ∷ events)

  swallowed-Sends :
      (status : ℕ) (payload : Json) (w : World) (x : Result Fault (Unit {0}) × World)
      → Sends (Responded py status payload) w x
      → Sends (Responded py status payload) w (swallowed x)
  swallowed-Sends status payload w (ok u, w') s = s
  swallowed-Sends status payload w (err (raised e), w') s = s
  swallowed-Sends status payload w (err gone, w') s = absurd (not_gone py s.holds)

  -- Either answer to an exception is the response of an error.
  answer_error-Sends :
      (c : Blame) (e : ApiError)
      → Sending
          (λ r out.
            (status : ℕ) × ((kind : Str) × ((message : Str) × Responded py status
                  (error_reply kind message)
                  r
                  out)))
          (answer_error py b sv c e)
  unfolding safe_error
  answer_error-Sends client e w h =
      weaken _ _ w _ (λ r out q. (400, (_, (_, q))))
        (swallowed-Sends 400 _ w _ (respond-Sends py b sv 400 _ w h))
  answer_error-Sends backend e w h =
      weaken _ _ w _ (λ r out q. (500, (_, (_, q))))
        (swallowed-Sends 500 _ w _ (respond-Sends py b sv 500 _ w h))

  -- Behind what is already sent.
  behind :
      {P Q : Post (Unit {0})} (out : List Written) (w w' : World)
      (x : Result Fault (Unit {0}) × World)
      → w'.written ≡ w.written ++ out
      → ((r : Result Fault (Unit {0})) (out' : List Written) → P r out' → Q r (out ++ out'))
      → Sends P w' x
      → Sends Q w x
  behind out w w' x e k s = record {
    out = out ++ s.out;
    sent = s.sent ∙ ap (λ l. l ++ s.out) e ∙ append_assoc w.written out s.out;
    stays = s.stays;
    holds = k x.0 s.out s.holds;
  }

  error-Answered :
      {status : ℕ} {kind message : Str} (r : Result Fault (Unit {0})) (out : List Written)
      → Responded py status (error_reply kind message) r out
      → Answered r out
  error-Answered _ _ (responded bytes e) = answer (response _ _ bytes e)
  error-Answered _ _ (unencoded e) = unanswered _ _ e

  broken-Answered :
      {status : ℕ} {kind message : Str} (events : List Written)
      → AllEvents events
      → (r : Result Fault (Unit {0})) (out : List Written)
      → Responded py status (error_reply kind message) r out
      → Answered r (head 200 stream_headers ∷ events ++ out)
  broken-Answered events p _ _ (responded bytes e) = answer (broken events _ _ bytes p e)
  broken-Answered events p _ _ (unencoded e) =
      subst (λ l. Answered (err (raised not_encodable)) (head 200 stream_headers ∷ l))
        (sym (append-nil events)) (broken_off _ _ events p e)

  caught-Sends :
      {r : Result Fault (Unit {0})} {out : List Written} (w w' : World)
      → Handled py r out
      → w'.written ≡ w.written ++ out
      → w'.room ≡ none
      → Sends Answered w (caught py b sv (r, w'))
  caught-Sends w w' (answered a) e h = record { out = _; sent = e; stays = h; holds = answer a }
  caught-Sends w w' (nothing x) e h =
      behind [] w w' _ e (λ r out q. error-Answered r out q.1.1.1)
        (answer_error-Sends (blame x) x w' h)
  caught-Sends w w' (streaming x events p) e h =
      behind (head 200 stream_headers ∷ events) w w' _ e
        (λ r out q. broken-Answered events p r out q.1.1.1) (answer_error-Sends (blame x) x w' h)

  -- A POST by a client that stays gets one JSON response of the length it declares, or a stream of
  -- events or chunks, or such a stream with the response of a fault behind it. The only exception
  -- that it can end with is that of an error's reply that does not encode.
  pub do_post-Answered : (rq : Request) → Sending Answered (do_post py b sv rq)
  unfolding do_post
  do_post-Answered rq w h = elim (Bool-cases (key_matches sv.api_key rq)) [
    | inl e ↦
        let s = handle-Handled py b sv rq w h in
        rw e (caught-Sends w (handle py b sv rq w).1 s.holds s.sent s.stays)
    | inr e ↦ rw e (weaken _ _ w _ error-Answered (respond-Sends py b sv 401 _ w h))
  ]
