-- ===== src/Api/Answers.antt =====
-- What a client gets, and how a handler may end.
use mathlib.Core.List.{append-nil}
use in_c_test.Prelude.{
  ℕ, ◌≡◌, refl, sym, ap, subst, List, [], ◌∷◌, ◌++◌, Result, ok, err, length, none, some, Option,
}
use in_c_test.Struct.{Bytes}
use in_c_test.Text.{Str}
use in_c_test.Json.{Json}
use in_c_test.Api.{ApiError, Python, not_encodable}
use in_c_test.Api.World.{
  Act, Fault, raised, gone, Written, head, body, event, chunk, done, after, put, lift,
}
use in_c_test.Api.Backend.{Backend}
use in_c_test.Api.Requests.{Server, stream_headers, json_headers, or_not_encodable}
use in_c_test.Api.Server.{respond}
use in_c_test.Api.Outcomes.{Sending, weaken, put-Sends}
use in_c_test.Api.Reference.{sent_for}
use in_c_test.Api.Events.{put_then}

-- Nothing but events and chunks.
abbrev pub IsEvent : Written → Type 0
IsEvent (event name payload) = Unit {0}
IsEvent (chunk payload) = Unit {0}
IsEvent done = Unit {0}
IsEvent (head status headers) = ⊥
IsEvent (body payload) = ⊥

abbrev pub AllEvents : List Written → Type 0
AllEvents [] = Unit {0}
AllEvents (x ∷ xs) = IsEvent x × AllEvents xs

pub AllEvents-append : (xs ys : List Written) → AllEvents xs → AllEvents ys → AllEvents (xs ++ ys)
AllEvents-append [] ys p q = q
AllEvents-append (x ∷ xs) ys (p, ps) q = (p, AllEvents-append xs ys ps q)

pub sent_for-AllEvents :
    (f : Str → List Written)
    → ((s : Str) → AllEvents (f s))
    → (ss : List Str) → AllEvents (sent_for f ss)
unfolding sent_for
sent_for-AllEvents f each [] = tt
sent_for-AllEvents f each (s ∷ ss) =
    AllEvents-append (f s) (sent_for f ss) (each s) (sent_for-AllEvents f each ss)

pub sent_for-nothing : (ss : List Str) → sent_for (λ s. []) ss ≡ []
unfolding sent_for
sent_for-nothing [] = refl
sent_for-nothing (s ∷ ss) = sent_for-nothing ss

abbrev pub json_answer : ℕ → Json → Bytes → List Written
json_answer status payload bytes = head status (json_headers (length bytes)) ∷ body payload ∷ []

module _ (py : Python) where
  -- What a client gets: one JSON response of the length it declares; or a stream; or a stream that a
  -- fault of the backend has broken off, with the response of the fault behind it.
  pub data Answer : List Written → Type 0 where
    response :
        (status : ℕ) (payload : Json) (bytes : Bytes)
        → py.encoded payload ≡ some bytes
        → Answer (json_answer status payload bytes)
    stream : (events : List Written) → AllEvents events → Answer (head 200 stream_headers ∷ events)
    broken :
        (events : List Written) (status : ℕ) (payload : Json) (bytes : Bytes)
        → AllEvents events
        → py.encoded payload ≡ some bytes
        → Answer (head 200 stream_headers ∷ events ++ json_answer status payload bytes)

  -- What a handler has done when it ends: it has answered, or it raises and nothing is sent yet, or
  -- it raises in its stream.
  pub data Handled : Result Fault (Unit {0}) → List Written → Type 0 where
    answered : {out : List Written} → Answer out → Handled (ok tt) out
    nothing : (e : ApiError) → Handled (err (raised e)) []
    streaming :
        (e : ApiError) (events : List Written)
        → AllEvents events
        → Handled (err (raised e)) (head 200 stream_headers ∷ events)

  -- `_json` sends its response, or sends nothing as the payload does not encode.
  pub data Responded (status : ℕ) (payload : Json)
      : Result Fault (Unit {0}) → List Written → Type 0 where
    responded :
        (bytes : Bytes)
        → py.encoded payload ≡ some bytes
        → Responded status payload (ok tt) (json_answer status payload bytes)
    unencoded : py.encoded payload ≡ none → Responded status payload (err (raised not_encodable)) []

  pub Responded-as :
      {status : ℕ} {payload : Json} {l out : List Written} {r r' : Result Fault (Unit {0})}
      → Responded status payload r' l
      → (r ≡ r') × (out ≡ l)
      → Responded status payload r out
  Responded-as {status} {payload} {l} {out} {r} {r'} a (e, e') =
      subst (λ x. Responded status payload x out) (sym e)
        (subst (λ m. Responded status payload r' m) (sym e') a)

  pub encoded-Sends :
      (status : ℕ) (payload : Json) (bytes : Option Bytes)
      → py.encoded payload ≡ bytes
      → Sending (Responded status payload) (λ w. after (lift (or_not_encodable bytes) w) (λ bs w1.
        after (put (head status (json_headers (length bs))) w1) (λ u. put (body payload))))
  encoded-Sends status payload none e w h = record {
    out = [];
    sent = sym (append-nil w.written);
    stays = h;
    holds = unencoded e;
  }
  encoded-Sends status payload (some bytes) e w h =
      put_then _ _ _
        (λ w' h'.
          weaken _ _ w' _
            (λ r out q.
              Responded-as (responded bytes e)
                (q.0, ap (λ m. head status (json_headers (length bytes)) ∷ m) q.1))
            (put-Sends (body payload) w' h'))
        w h

  pub from_gone :
      {status : ℕ} {payload : Json} {out : List Written} {r : Result Fault (Unit {0})}
      → Responded status payload r out
      → ¬ (r ≡ err gone)
  from_gone (responded bytes e) h = cc
  from_gone (unencoded e) h = cc

  pub not_gone :
      {status : ℕ} {payload : Json} {out : List Written}
      → ¬ (Responded status payload (err gone) out)
  not_gone p = from_gone p refl

  -- Whatever is equal to a handler's end is one.
  pub Handled-as :
      {l out : List Written} {r r' : Result Fault (Unit {0})}
      → Handled r' l
      → (r ≡ r') × (out ≡ l)
      → Handled r out
  Handled-as {l} {out} {r} {r'} a (e, e') =
      subst (λ x. Handled x out) (sym e) (subst (λ m. Handled r' m) (sym e') a)

  pub from_response :
      {status : ℕ} {payload : Json} (r : Result Fault (Unit {0})) (out : List Written)
      → Responded status payload r out
      → Handled r out
  from_response _ _ (responded bytes e) = answered (response _ _ bytes e)
  from_response _ _ (unencoded e) = nothing not_encodable

  -- Behind a computation that may raise.
  pub lifted-Handled :
      {A : Type 0} (t : Result ApiError A) (k : A → Act (Unit {0}))
      → ((a : A) → Sending Handled (k a))
      → Sending Handled (λ w. after (lift t w) k)
  lifted-Handled (ok a) k m w h = m a w h
  lifted-Handled (err e) k m w h = record {
    out = [];
    sent = sym (append-nil w.written);
    stays = h;
    holds = nothing e;
  }

  module _ (b : Backend) (sv : Server) where
    pub respond-Sends :
        (status : ℕ) (payload : Json)
        → Sending (Responded status payload) (respond py b sv status payload)
    unfolding respond
    respond-Sends status payload = encoded-Sends status payload (py.encoded payload) refl

    pub respond-Handled :
        (status : ℕ) (payload : Json) → Sending Handled (respond py b sv status payload)
    respond-Handled status payload w h =
        weaken _ _ w _ from_response (respond-Sends status payload w h)
