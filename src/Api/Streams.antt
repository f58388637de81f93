-- ===== src/Api/Streams.antt =====
-- The loop of `generate` with a callback that sends something for each piece of text, against the
-- generation that only computes.
use mathlib.Core.List.{append_assoc, append-nil}
use in_c_test.Prelude.{
  ◌+◌, ◌≡◌, refl, sym, ap, ◌∙◌, Option, none, some, List, [], ◌∷◌, ◌++◌, Result, ok, err,
  Bool-cases, Option-cases, inl, inr,
}
use in_c_test.Prelude.Int.{ℤ}
use in_c_test.Struct.{Bytes}
use in_c_test.Text.{Str}
use in_c_test.Api.{ApiError}
use in_c_test.Api.World.{Act, Fault, raised, Written, after, lift}
use in_c_test.Api.Backend.{Backend, token_of_line, is_stop}
use in_c_test.Api.Process.{Decoding, delta_of, decoded, emit, on_token, read_lines}
use in_c_test.Api.Outcomes.{Post, Sending, weaken, give-Silent, after-Sends, then-Sends}
use in_c_test.Api.Reference.{ref_emit, ref_next, ref_then, ref_line, ref_lines, sent_for}

sent_for-append :
    (f : Str → List Written) (ss ts : List Str)
    → sent_for f (ss ++ ts) ≡ sent_for f ss ++ sent_for f ts
unfolding sent_for
sent_for-append f [] ts = refl
sent_for-append f (s ∷ ss) ts =
    ap (λ l. f s ++ l) (sent_for-append f ss ts)
    ∙ sym (append_assoc (f s) (sent_for f ss) (sent_for f ts))

pub sent_for-snoc :
    (f : Str → List Written) (ss : List Str) (s : Str)
    → sent_for f (ss ++ s ∷ []) ≡ sent_for f ss ++ f s
unfolding sent_for
sent_for-snoc f ss s =
    sent_for-append f ss (s ∷ []) ∙ ap (λ l. sent_for f ss ++ l) (append-nil (f s))

-- A callback that sends what `f` says.
abbrev pub Callback : (Str → List Written) → (Str → Act (Unit {0})) → Type 0
Callback f on_delta = (s : Str) → Sending (λ r out. (r ≡ ok tt) × (out ≡ f s)) (on_delta s)

pub fault_ok-injective : {A : Type 0} {a c : A} → ◌≡◌ {A = Result Fault A} (ok a) (ok c) → a ≡ c
fault_ok-injective h = cc

err_injective : {A : Type 0} {x y : Fault} → ◌≡◌ {A = Result Fault A} (err x) (err y) → x ≡ y
err_injective h = cc

pub err_lem :
    {A B : Type 0} {x y : Fault}
    → ◌≡◌ {A = Result Fault A} (err x) (err y)
    → ◌≡◌ {A = Result Fault B} (err x) (err y)
err_lem h = let e = err_injective h in ap err e

abbrev pub outcome_with : Result ApiError (Unit {0}) × Decoding → Result Fault Decoding
outcome_with (ok u, d) = ok d
outcome_with (err e, d) = err (raised e)

module _ (f : Str → List Written) (on_delta : Str → Act (Unit {0})) (cb : Callback f on_delta) where
  -- What has been sent for the pieces in `d` and since then is what is sent for those of `d'`.
  abbrev pub Grown : Decoding → Result ApiError (Unit {0}) × Decoding → Post Decoding
  Grown d p r out = (r ≡ outcome_with p) × (sent_for f p.1.parts ≡ sent_for f d.parts ++ out)

  pub emit-Sends :
      (d : Decoding) (s : Str) → Sending (Grown d (ok tt, ref_emit d s)) (emit on_delta d s)
  emit-Sends d [] w h =
      weaken _ _ w _
        (λ r out k. (
          k.0,
          sym (append-nil (sent_for f d.parts)) ∙ ap (λ l. sent_for f d.parts ++ l) (sym k.1),
        ))
        (give-Silent d w h)
  emit-Sends d (c ∷ s) w h =
      then-Sends tt (f (c ∷ s)) _ w (on_delta (c ∷ s) w) _ (cb (c ∷ s) w h) (λ w' h'.
        weaken _ _ w' _
          (λ r out k. (
            k.0,
            sent_for-snoc f d.parts (c ∷ s)
                ∙ ap (λ l. sent_for f d.parts ++ l)
                    (sym (append-nil (f (c ∷ s))) ∙ ap (λ l. f (c ∷ s) ++ l) (sym k.1)),
          ))
          (give-Silent (record d { parts = d.parts ++ (c ∷ s) ∷ [] }) w' h'))

  module _ (b : Backend) where
    -- What is decoded of a token, as the piece and the bytes that the decoder was fed.
    abbrev next_of : Decoding → Result ApiError (Bytes × Str) → Result ApiError Decoding
    next_of d (err e) = err e
    next_of d (ok (fed, s)) = ok (ref_emit (record d { fed = fed }) s)

    ref_next_lem :
        (bytes : Option Bytes) (d : Decoding) (token : ℤ)
        → let counted = record d { output_tokens = d.output_tokens + 1 } in
          ref_next b bytes d token ≡ next_of counted (delta_of b bytes counted token)
    unfolding ref_next
    ref_next_lem (some bytes) d token = refl
    ref_next_lem none d token = elim (Option-cases (b.decode_one token)) [
      | inl e ↦ rw (e, ref_next) refl
      | inr (s, e) ↦ rw (e, ref_next) refl
    ]

    decoded-Sends :
        (t : Result ApiError (Bytes × Str)) (d counted : Decoding) (next : Decoding → Act Decoding)
        (ref : Decoding → Result ApiError (Unit {0}) × Decoding)
        → counted.parts ≡ d.parts
        → ((d' : Decoding) → Sending (Grown d' (ref d')) (next d'))
        → Sending
            (Grown d (ref_then b (next_of counted t) d ref))
            (λ w. after (lift t w) (decoded on_delta counted next))
    decoded-Sends (err e) d counted next ref same_parts k w h = record {
      out = [];
      sent = sym (append-nil w.written);
      stays = h;
      holds = (refl, sym (append-nil _));
    }
    decoded-Sends (ok (fed, s)) d counted next ref same_parts k w h =
        let d1 = record counted { fed = fed } in
        after-Sends (Grown d1 (ok tt, ref_emit d1 s)) _ w (emit on_delta d1 s w) next
          (emit-Sends d1 s w h)
          (λ a out g w' h'.
            let same : a ≡ ref_emit d1 s = fault_ok-injective g.0 in
            weaken _ _ w' _
              (λ r out' k'. (
                k'.0 ∙ ap (λ x. outcome_with (ref x)) same,
                ap (λ x. sent_for f (ref x).1.parts) (sym same)
                    ∙ k'.1
                    ∙ ap (λ x. sent_for f x.parts ++ out') same
                    ∙ ap (λ l. l ++ out') (g.1 ∙ ap (λ ps. sent_for f ps ++ out) same_parts)
                    ∙ append_assoc (sent_for f d.parts) out out',
              ))
              (k a w' h'))
          (λ x out g. absurd (let z = g.0 in cc))

    line-Sends :
        (t : Result ApiError (Option ℤ)) (d : Decoding) (next : Decoding → Act Decoding)
        (ref : Decoding → Result ApiError (Unit {0}) × Decoding)
        → ((d' : Decoding) → Sending (Grown d' (ref d')) (next d'))
        → Sending
            (Grown d (ref_line b t d ref))
            (λ w. after (lift t w) (λ token. on_token b on_delta d token next))
    line-Sends (err e) d next ref k w h = record {
      out = [];
      sent = sym (append-nil w.written);
      stays = h;
      holds = (refl, sym (append-nil _));
    }
    line-Sends (ok none) d next ref k w h = k d w h
    line-Sends (ok (some token)) d next ref k w h = elim (Bool-cases (is_stop token)) [
      | inl e ↦ rw e (record {
        out = [];
        sent = sym (append-nil w.written);
        stays = h;
        holds = (refl, sym (append-nil _));
      })
      | inr e ↦
          let counted = record d { output_tokens = d.output_tokens + 1 } in
          rw (e, ref_next_lem (b.token_bytes token) d token)
            (decoded-Sends (delta_of b (b.token_bytes token) counted token) d counted next ref refl
              k w h)
    ]

    pub read_lines-Sends :
        (lines : List Str) (d : Decoding)
        → Sending (Grown d (ref_lines b lines d)) (read_lines b on_delta lines d)
    unfolding read_lines ref_lines
    read_lines-Sends [] d w h = record {
      out = [];
      sent = sym (append-nil w.written);
      stays = h;
      holds = (refl, sym (append-nil _));
    }
    read_lines-Sends (raw ∷ lines) d w h =
        line-Sends (token_of_line raw) d (read_lines b on_delta lines) (ref_lines b lines)
          (λ d'. read_lines-Sends lines d') w h
