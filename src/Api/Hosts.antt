-- ===== src/Api/Hosts.antt =====
-- What a request does to the host.
use in_c_test.Prelude.{
  ℕ, ◌≡◌, refl, sym, subst, ◌∙◌, Bool, true, false, List, [], Option, none, some, zero, suc, Result,
  ok, err, length, if◌then◌else◌, Bool-cases, inl, inr, take, list_eq,
}
use mathlib.Core.List.{append-nil}
use in_c_test.Prelude.Int.{ℤ}
use in_c_test.Text.{Str, codes, before}
use in_c_test.Json.{Json, null, Real, Fields, get, get_or_default, default}
use in_c_test.Api.{ApiError, Python}
use in_c_test.Api.World.{
  World, Act, Fault, raised, gone, Written, body, after, put, put_in, lift, Effect,
}
use in_c_test.Api.Backend.{Backend, preflight}
use in_c_test.Api.Process.{GenerationResult}
use in_c_test.Api.Replies.{count, not_found_reply, anthropic_response, openai_response}
use in_c_test.Api.Requests.{
  Server, Request, Blame, client, backend, blame, swallowed, key_matches, object_of,
  or_not_encodable,
}
use in_c_test.Api.Server.{
  anthropic_stream, openai_stream, respond, safe_error, anthropic_count, anthropic_messages,
  openai_chat, read_json, route, handle, do_post, caught, answer_error, reply_with, no_callback,
  wants_stream, valid_model, ids_of, max_tokens_of, temperature_of, seed_of, declared_length,
  send_delta, send_content,
}
use in_c_test.Api.Cleanup.{
  effects_of, Quiet, after-effects, lift-Quiet, IsClean, rejected, Adds, rejected_or,
  generate-IsClean,
}

-- An action does to the host what one call of `generate` does.
abbrev pub Cleanly : {A : Type 0} → Act A → Type 0
Cleanly m = (w : World) → Adds IsClean w.effects (effects_of (m w))

-- What a request may do to the host, by whether its key matches.
abbrev pub Permitted : Bool → List Effect → Type 0
Permitted true log = IsClean log
Permitted false log = log ≡ []

Quiet-Cleanly : {A : Type 0} (m : Act A) → Quiet m → Cleanly m
Quiet-Cleanly m q w = record { log = []; added = q w ∙ sym (append-nil w.effects); kind = rejected }

put_in-effects :
    (x : Written) (w : World) (room : Option ℕ) → effects_of (put_in x w room) ≡ w.effects
put_in-effects x w none = refl
put_in-effects x w (some zero) = refl
put_in-effects x w (some (suc n)) = refl

pub put-Quiet : (x : Written) → Quiet (put x)
unfolding put
put-Quiet x w = put_in-effects x w w.room

after-Quiet :
    {A B : Type 0} (m : Act A) (f : A → Act B)
    → Quiet m
    → ((a : A) → Quiet (f a))
    → Quiet (λ w. after (m w) f)
after-Quiet m f q k w = after-effects (m w) f k ∙ q w

-- Behind an action that does nothing to the host.
behind-Quiet :
    {A B : Type 0} (es : List Effect) (x : Result Fault A × World) (f : A → Act B)
    → effects_of x ≡ es
    → ((a : A) → Cleanly (f a))
    → Adds IsClean es (effects_of (after x f))
behind-Quiet es (ok a, w) f e k = subst (λ l. Adds IsClean l (effects_of (f a w))) e (k a w)
behind-Quiet es (err y, w) f e k = record {
  log = [];
  added = e ∙ sym (append-nil es);
  kind = rejected;
}

-- Before an action that does nothing to the host.
before-Quiet :
    {A B : Type 0} (es : List Effect) (x : Result Fault A × World) (f : A → Act B)
    → ((a : A) → Quiet (f a))
    → Adds IsClean es (effects_of x)
    → Adds IsClean es (effects_of (after x f))
before-Quiet es x f q a = subst (λ l. Adds IsClean es l) (sym (after-effects x f q)) a

put-Cleanly :
    {B : Type 0} (x : Written) (m : Act B) → Cleanly m → Cleanly (λ w. after (put x w) (λ u. m))
put-Cleanly x m k w = behind-Quiet w.effects (put x w) (λ u. m) (put-Quiet x w) (λ u. k)

module _ (py : Python) (b : Backend) (sv : Server) where
  respond-Quiet : (status : ℕ) (payload : Json) → Quiet (respond py b sv status payload)
  unfolding respond
  respond-Quiet status payload =
      after-Quiet (lift (or_not_encodable (py.encoded payload))) _
        (lift-Quiet (or_not_encodable (py.encoded payload)))
        (λ bytes.
          after-Quiet (put _) (λ u. put (body payload)) (put-Quiet _)
            (λ u. put-Quiet (body payload)))

  anthropic_stream-Cleanly :
      (ids : List ℕ) (max_tokens : ℤ) (temperature : Real) (seed : ℤ)
      → Cleanly (anthropic_stream py b sv ids max_tokens temperature seed)
  unfolding anthropic_stream
  anthropic_stream-Cleanly ids max_tokens temperature seed = put-Cleanly _ _ (
      put-Cleanly _ _ (
        put-Cleanly _ _ (λ w.
          before-Quiet w.effects _ _
            (λ g.
              after-Quiet (put _) _ (put-Quiet _)
                (λ u. after-Quiet (put _) _ (put-Quiet _) (λ v. put-Quiet _)))
            (generate-IsClean b (send_delta py b sv) (λ s. put-Quiet _) sv.runtime ids max_tokens
              temperature seed w))))

  openai_stream-Cleanly :
      (ids : List ℕ) (max_tokens : ℤ) (temperature : Real) (seed : ℤ)
      → Cleanly (openai_stream py b sv ids max_tokens temperature seed)
  unfolding openai_stream
  openai_stream-Cleanly ids max_tokens temperature seed = put-Cleanly _ _ (
      put-Cleanly _ _ (λ w.
        before-Quiet w.effects _ _ (λ g. after-Quiet (put _) _ (put-Quiet _) (λ u. put-Quiet _))
          (generate-IsClean b (send_content py b sv) (λ s. put-Quiet _) sv.runtime ids max_tokens
            temperature seed w)))

  reply_with-Cleanly :
      (stream : Bool) (streamed : List ℕ → ℤ → Real → ℤ → Act (Unit {0}))
      (payload_of : GenerationResult → Json) (ids : List ℕ) (max_tokens : ℤ) (temperature : Real)
      (seed : ℤ)
      → Cleanly (streamed ids max_tokens temperature seed)
      → Cleanly (reply_with py b sv stream streamed payload_of ids max_tokens temperature seed)
  reply_with-Cleanly true streamed payload_of ids max_tokens temperature seed k w =
      rejected_or (preflight b sv.runtime ids max_tokens temperature) _ w (λ u. k w)
  reply_with-Cleanly false streamed payload_of ids max_tokens temperature seed k w =
      before-Quiet w.effects _ _ (λ g. respond-Quiet 200 (payload_of g))
        (generate-IsClean b (no_callback py b sv) (λ s w'. refl) sv.runtime ids max_tokens
          temperature seed w)

  anthropic_count-Cleanly : (fs : Fields) → Cleanly (anthropic_count py b sv fs)
  unfolding anthropic_count
  anthropic_count-Cleanly fs w = rejected_or (valid_model py b sv fs) _ w (λ u.
      rejected_or (ids_of py b sv (default null (get (codes "system") fs)) fs) _ w
        (λ ids. Quiet-Cleanly (respond py b sv 200 _) (respond-Quiet 200 _) w))

  -- A generation, once its prompt is prepared.
  generation-Cleanly :
      (fs : Fields) (otherwise : Json) (ids : List ℕ)
      (reply : List ℕ → ℤ → Real → ℤ → Act (Unit {0}))
      → ((max_tokens : ℤ) (temperature : Real) (seed : ℤ)
          → Cleanly (reply ids max_tokens temperature seed))
      → Cleanly (λ w. after (lift (max_tokens_of py b sv otherwise fs) w) (λ max_tokens w1.
        after (lift (temperature_of py b sv fs) w1) (λ temperature w2.
          after (lift (seed_of py b sv fs) w2) (reply ids max_tokens temperature))))
  generation-Cleanly fs otherwise ids reply k w =
      rejected_or (max_tokens_of py b sv otherwise fs) _ w (λ max_tokens.
        rejected_or (temperature_of py b sv fs) _ w (λ temperature.
          rejected_or (seed_of py b sv fs) _ w (λ seed. k max_tokens temperature seed w)))

  anthropic_messages-Cleanly : (fs : Fields) → Cleanly (anthropic_messages py b sv fs)
  unfolding anthropic_messages
  anthropic_messages-Cleanly fs w = rejected_or (valid_model py b sv fs) _ w (λ u.
      rejected_or (ids_of py b sv (default null (get (codes "system") fs)) fs) _ w (λ ids.
        generation-Cleanly fs (count 128) ids
          (reply_with py b sv (wants_stream py b sv fs) (anthropic_stream py b sv)
            (anthropic_response (sv.message_id (codes "msg")) sv.model_id (length ids)))
          (λ max_tokens temperature seed.
            reply_with-Cleanly (wants_stream py b sv fs) (anthropic_stream py b sv) _ ids max_tokens
              temperature seed (anthropic_stream-Cleanly ids max_tokens temperature seed))
          w))

  openai_chat-Cleanly : (fs : Fields) → Cleanly (openai_chat py b sv fs)
  unfolding openai_chat
  openai_chat-Cleanly fs w = rejected_or (valid_model py b sv fs) _ w (λ u.
      rejected_or (ids_of py b sv null fs) _ w (λ ids.
        generation-Cleanly fs (get_or_default (codes "max_completion_tokens") (count 128) fs) ids
          (reply_with py b sv (wants_stream py b sv fs) (openai_stream py b sv)
            (openai_response (sv.message_id (codes "chatcmpl")) sv.now sv.model_id (length ids)))
          (λ max_tokens temperature seed.
            reply_with-Cleanly (wants_stream py b sv fs) (openai_stream py b sv) _ ids max_tokens
              temperature seed (openai_stream-Cleanly ids max_tokens temperature seed))
          w))

  chosen-Cleanly :
      (c : Bool) (x y : Act (Unit {0})) → Cleanly x → Cleanly y → Cleanly (if c then x else y)
  chosen-Cleanly true x y k l = k
  chosen-Cleanly false x y k l = l

  route-Cleanly : (path : Str) (fs : Fields) → Cleanly (route py b sv path fs)
  route-Cleanly path fs =
      chosen-Cleanly (list_eq path (codes "/v1/messages")) _ _ (anthropic_messages-Cleanly fs) (
        chosen-Cleanly (list_eq path (codes "/v1/messages/count_tokens")) _ _
          (anthropic_count-Cleanly fs)
          (chosen-Cleanly (list_eq path (codes "/v1/chat/completions")) _ _ (openai_chat-Cleanly fs)
            (Quiet-Cleanly (respond py b sv 404 not_found_reply)
              (respond-Quiet 404 not_found_reply))))

  handle-Cleanly : (rq : Request) → Cleanly (handle py b sv rq)
  unfolding read_json
  handle-Cleanly rq w =
      behind-Quiet w.effects (read_json py b sv rq w) _
        (after-effects (lift (declared_length py b sv rq.content_length) w) _
            (λ n. lift-Quiet (object_of (py.loads (take n rq.stream))))
          ∙ lift-Quiet (declared_length py b sv rq.content_length) w)
        (route-Cleanly (before b'?' rq.path))

  swallowed-effects :
      (x : Result Fault (Unit {0}) × World) → effects_of (swallowed x) ≡ effects_of x
  swallowed-effects (ok u, w) = refl
  swallowed-effects (err gone, w) = refl
  swallowed-effects (err (raised e), w) = refl

  answer_error-Quiet : (c : Blame) (e : ApiError) → Quiet (answer_error py b sv c e)
  unfolding safe_error
  answer_error-Quiet client e w =
      swallowed-effects (respond py b sv 400 _ w) ∙ respond-Quiet 400 _ w
  answer_error-Quiet backend e w =
      swallowed-effects (respond py b sv 500 _ w) ∙ respond-Quiet 500 _ w

  caught-effects :
      (x : Result Fault (Unit {0}) × World) → effects_of (caught py b sv x) ≡ effects_of x
  caught-effects (ok u, w) = refl
  caught-effects (err gone, w) = refl
  caught-effects (err (raised e), w) = answer_error-Quiet (blame e) e w

  -- Whatever a POST holds and whenever its client goes: with the key of the server it leaves no file of
  -- ids and no process of its own, and it starts at most one; without, it does nothing to the host.
  pub do_post-Permitted :
      (rq : Request) (w : World)
      → Adds (Permitted (key_matches sv.api_key rq)) w.effects (effects_of (do_post py b sv rq w))
  unfolding do_post
  do_post-Permitted rq w = elim (Bool-cases (key_matches sv.api_key rq)) [
    | inl e ↦ rw e (
        subst (λ l. Adds IsClean w.effects l) (sym (caught-effects (handle py b sv rq w)))
          (handle-Cleanly rq w))
    | inr e ↦ rw e (record {
      log = [];
      added = respond-Quiet 401 _ w ∙ sym (append-nil w.effects);
      kind = refl;
    })
  ]
