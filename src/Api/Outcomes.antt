-- ===== src/Api/Outcomes.antt =====
-- What an action returns and sends to a client that stays.
use mathlib.Core.List.{append_assoc, append-nil}
use in_c_test.Prelude.{◌≡◌, refl, sym, ap, subst, ◌∙◌, none, List, [], ◌∷◌, ◌++◌, Result, ok, err}
use in_c_test.Api.{ApiError}
use in_c_test.Api.World.{World, Act, Fault, raised, Written, after, give, raise, lift, put}

-- A claim about what is returned and what is sent.
abbrev pub Post : Type 0 → Type 1
Post A = Result Fault A → List Written → Type 0

-- The action got to `x` from the world `w`, and sent `out` on the way.
pub record Sends {A : Type 0} (P : Post A) (w : World) (x : Result Fault A × World) : Type 0 where
  pub out : List Written
  pub sent : x.1.written ≡ w.written ++ out
  pub stays : x.1.room ≡ none
  pub holds : P x.0 out

abbrev pub Sending : {A : Type 0} → Post A → Act A → Type 0
Sending P m = (w : World) → w.room ≡ none → Sends P w (m w)

abbrev pub outcome : {A : Type 0} → Result ApiError A → Result Fault A
outcome (ok a) = ok a
outcome (err e) = err (raised e)

-- It returns `r` and sends nothing, or one thing.
abbrev pub Silent : {A : Type 0} → Result Fault A → Post A
Silent r r' out = (r' ≡ r) × (out ≡ [])

pub weaken :
    {A : Type 0} (P Q : Post A) (w : World) (x : Result Fault A × World)
    → ((r : Result Fault A) (out : List Written) → P r out → Q r out)
    → Sends P w x
    → Sends Q w x
weaken P Q w x k s = record {
  out = s.out;
  sent = s.sent;
  stays = s.stays;
  holds = k x.0 s.out s.holds;
}

pub give-Silent : {A : Type 0} (a : A) → Sending (Silent (ok a)) (give a)
give-Silent a w h = record {
  out = [];
  sent = sym (append-nil w.written);
  stays = h;
  holds = (refl, refl);
}

pub raise-Silent : {A : Type 0} (e : ApiError) → Sending (Silent {A = A} (err (raised e))) (raise e)
raise-Silent e w h = record {
  out = [];
  sent = sym (append-nil w.written);
  stays = h;
  holds = (refl, refl);
}

pub lift-Silent : {A : Type 0} (r : Result ApiError A) → Sending (Silent (outcome r)) (lift r)
lift-Silent (ok a) w h = record {
  out = [];
  sent = sym (append-nil w.written);
  stays = h;
  holds = (refl, refl);
}
lift-Silent (err e) w h = record {
  out = [];
  sent = sym (append-nil w.written);
  stays = h;
  holds = (refl, refl);
}

pub put-Sends : (x : Written) → Sending (λ r out. (r ≡ ok tt) × (out ≡ x ∷ [])) (put x)
unfolding put
put-Sends x w h = rw h (record { out = x ∷ []; sent = refl; stays = refl; holds = (refl, refl) })

-- The rule for a bind.
pub after-Sends :
    {A B : Type 0} (P : Post A) (Q : Post B) (w : World) (x : Result Fault A × World)
    (f : A → Act B)
    → Sends P w x
    → ((a : A) (out : List Written) → P (ok a) out → Sending (λ r out'. Q r (out ++ out')) (f a))
    → ((e : Fault) (out : List Written) → P (err e) out → Q (err e) out)
    → Sends Q w (after x f)
after-Sends P Q w (ok a, w') f s k c =
    let t = k a s.out s.holds w' s.stays in
    record {
      out = s.out ++ t.out;
      sent = t.sent ∙ ap (λ l. l ++ t.out) s.sent ∙ append_assoc w.written s.out t.out;
      stays = t.stays;
      holds = t.holds;
    }
after-Sends P Q w (err e, w') f s k c = record {
  out = s.out;
  sent = s.sent;
  stays = s.stays;
  holds = c e s.out s.holds;
}

-- Behind an action that returns and sends known things.
pub then-Sends :
    {A B : Type 0} (a : A) (l : List Written) (Q : Post B) (w : World) (x : Result Fault A × World)
    (f : A → Act B)
    → Sends (λ r out. (r ≡ ok a) × (out ≡ l)) w x
    → Sending (λ r out'. Q r (l ++ out')) (f a)
    → Sends Q w (after x f)
then-Sends a l Q w (ok a', w') f s k =
    let same : a' ≡ a = cc in
    let t = k w' s.stays in
    let t' = subst (λ b. Sends (λ r out'. Q r (l ++ out')) w' (f b w')) (sym same) t in
    record {
      out = l ++ t'.out;
      sent =
          t'.sent
          ∙ ap (λ m. m ++ t'.out) (s.sent ∙ ap (λ m. w.written ++ m) s.holds.1)
          ∙ append_assoc w.written l t'.out;
      stays = t'.stays;
      holds = t'.holds;
    }
then-Sends a l Q w (err e, w') f s k = absurd (let h = s.holds.0 in cc)
