-- ===== src/Api/Turns.antt =====
-- What the prompt of a dialogue says of its turns.
use mathlib.Core.List.{append_assoc, append-nil}
use in_c_test.Prelude.{
  ℕ, zero, suc, ◌≡◌, refl, sym, ap, ◌∙◌, true, false, Option, none, some, List, [], ◌∷◌, ◌++◌, ok,
  ◌==◌, length, list_eq, if◌then◌else◌, arith,
}
use in_c_test.Text.{Str, codes, strip_prefix}
use in_c_test.Text.Pieces.{NoChar}
use in_c_test.Json.{Json, null, str, arr, obj, Items, nil, cons, end, field}
use in_c_test.Api.{Python}
use in_c_test.Api.Content.{default_system}
use in_c_test.Api.Dialogue.{
  Role, user, assistant, Turn, render_turns, render, role_tag, end_tag, system_tag, format_dialogue,
  Gathered, read_message, read_messages, check_last,
}

-- A reader of prompts: a text runs up to the next `<`.
unfoldable pub read_text : Str → Str × Str
read_text [] = ([], [])
read_text (c ∷ s) = let (t, rest) = read_text s in if c == b'<' then ([], c ∷ s) else (c ∷ t, rest)

abbrev pub IsPlain : Str → Type 0
IsPlain s = NoChar (λ c. c == b'<') s

abbrev pub AllPlain : List Turn → Type 0
AllPlain [] = Unit {0}
AllPlain (t ∷ ts) = IsPlain t.content × AllPlain ts

abbrev pub with_role : Role → Option Str → Option (Role × Str)
with_role r none = none
with_role r (some s) = some (r, s)

abbrev pub or_else : Option (Role × Str) → Option (Role × Str) → Option (Role × Str)
or_else none o = o
or_else (some p) o = some p

unfoldable pub read_role : Str → Option (Role × Str)
unfolding strip_prefix
read_role s =
    or_else (with_role user (strip_prefix (role_tag user) s))
      (with_role assistant (strip_prefix (role_tag assistant) s))

abbrev pub then_text : Option (Role × Str) → Option (Role × Str × Str)
then_text none = none
then_text (some (r, s)) = some (r, (read_text s).0, (read_text s).1)

abbrev pub add_turn : Turn → Option (List Turn) → Option (List Turn)
add_turn t none = none
add_turn t (some ts) = some (t ∷ ts)

-- The turns up to the opening of the answer, with which the prompt ends.
unfoldable pub read_turns : (fuel : ℕ) → Str → Option (List Turn)
unfolding read_role read_text strip_prefix list_eq
read_turns zero s = none
read_turns (suc fuel) s = elim (list_eq s (role_tag assistant)) [
  | true ↦ some []
  | false ↦ elim (then_text (read_role s)) [
    | none ↦ none
    | some (r, t, rest) ↦ elim (strip_prefix end_tag rest) [
      | none ↦ none
      | some s' ↦ add_turn (record { role = r; content = t }) (read_turns fuel s')
    ]
  ]
]

strip_prefix-append : (p s : Str) → strip_prefix p (p ++ s) ≡ some s
unfolding strip_prefix
strip_prefix-append [] s = refl
strip_prefix-append (c ∷ p) s =
    let same : (c == c) ≡ true = ground arith in rw same (strip_prefix-append p s)

read_text-plain :
    (t rest : Str) → IsPlain t → read_text (t ++ (end_tag ++ rest)) ≡ (t, end_tag ++ rest)
unfolding read_text
read_text-plain [] rest h = refl
read_text-plain (c ∷ t) rest (h, hs) =
    rw h (ap (λ (p : Str × Str). (c ∷ p.0, p.1)) (read_text-plain t rest hs))

read_role-tag : (r : Role) (s : Str) → read_role (role_tag r ++ s) ≡ some (r, s)
unfolding read_role
read_role-tag user s =
    ap
      (λ o.
        or_else (with_role user o)
          (with_role assistant (strip_prefix (role_tag assistant) (role_tag user ++ s))))
      (strip_prefix-append (role_tag user) s)
read_role-tag assistant s =
    ap (λ o. or_else none (with_role assistant o)) (strip_prefix-append (role_tag assistant) s)

-- A turn is longer than the opening of an answer.
turn_not_open :
    (r : Role) (t rest : Str)
    → list_eq (role_tag r ++ (t ++ (end_tag ++ rest))) (role_tag assistant) ≡ false
unfolding list_eq
turn_not_open user t rest = refl
turn_not_open assistant [] rest = refl
turn_not_open assistant (c ∷ t) rest = refl

read_turns-next :
    (fuel : ℕ) (s : Str) (r : Role) (t rest s' : Str)
    → list_eq s (role_tag assistant) ≡ false
    → then_text (read_role s) ≡ some (r, t, rest)
    → strip_prefix end_tag rest ≡ some s'
    → read_turns (suc fuel) s ≡ add_turn (record { role = r; content = t }) (read_turns fuel s')
unfolding read_turns
read_turns-next fuel s r t rest s' h e e' =
    rw (h, read_turns) (rw (e, read_turns) (rw (e', read_turns) refl))

read_turns-turn :
    (fuel : ℕ) (r : Role) (t rest : Str)
    → IsPlain t
    → read_turns (suc fuel) (role_tag r ++ (t ++ (end_tag ++ rest)))
      ≡ add_turn (record { role = r; content = t }) (read_turns fuel rest)
read_turns-turn fuel r t rest plain =
    read_turns-next fuel (role_tag r ++ (t ++ (end_tag ++ rest))) r t (end_tag ++ rest) rest
      (turn_not_open r t rest)
      (ap then_text (read_role-tag r (t ++ (end_tag ++ rest)))
        ∙ ap (λ (p : Str × Str). some (r, p.0, p.1)) (read_text-plain t rest plain))
      (strip_prefix-append end_tag rest)

-- From a prompt whose contents hold no `<`, the turns can be read back.
pub read_turns-render_turns :
    (ts : List Turn)
    → AllPlain ts
    → read_turns (suc (length ts)) (render_turns ts ++ role_tag assistant) ≡ some ts
unfolding render_turns
read_turns-render_turns [] h = unfold read_turns in refl
read_turns-render_turns (t ∷ ts) (h, hs) =
    ap (read_turns (suc (suc (length ts)))) (
      append_assoc (role_tag t.role) (t.content ++ (end_tag ++ render_turns ts))
        (role_tag assistant)
      ∙ ap (λ s. role_tag t.role ++ s)
          (append_assoc t.content (end_tag ++ render_turns ts) (role_tag assistant)))
    ∙ read_turns-turn (suc (length ts)) t.role t.content (render_turns ts ++ role_tag assistant) h
    ∙ ap (add_turn t) (read_turns-render_turns ts hs)

abbrev pub message : Str → Str → Json
message role content =
    obj (field (codes "role") (str role) (field (codes "content") (str content) end))

-- A text with the marks of a dialogue in it.
abbrev pub forged : Str → Str → Str → Str
forged a b c = a ++ (end_tag ++ (role_tag assistant ++ (b ++ (end_tag ++ (role_tag user ++ c)))))

forged_turns :
    (a b c : Str)
    → render_turns (record { role = user; content = forged a b c } ∷ [])
      ≡ render_turns (
          record { role = user; content = a }
          ∷ record { role = assistant; content = b }
          ∷ record { role = user; content = c }
          ∷ [])
unfolding render_turns
forged_turns a b c =
    ap (λ s. role_tag user ++ s)
      (append_assoc a (end_tag ++ (role_tag assistant ++ (b ++ (end_tag ++ (role_tag user ++ c)))))
          (end_tag ++ [])
        ∙ ap (λ s. a ++ (end_tag ++ (role_tag assistant ++ s)))
            (append_assoc b (end_tag ++ (role_tag user ++ c)) (end_tag ++ [])))

-- The marks of a dialogue are not escaped: one message of the user gives the same prompt as three
-- messages, the second of them the assistant's, if its text holds the marks between them.
pub format_dialogue-forged :
    (py : Python) (a b c : Str)
    → format_dialogue py (arr (cons (message (codes "user") (forged a b c)) nil)) null null
      ≡ format_dialogue py
          (arr (
            cons
              (message (codes "user") a)
              (cons (message (codes "assistant") b) (cons (message (codes "user") c) nil))))
          null
          null
unfolding format_dialogue render
format_dialogue-forged py a b c =
    ap (λ s. ok (system_tag ++ (default_system ++ (end_tag ++ (s ++ role_tag assistant)))))
      (forged_turns a b c)

-- Messages of the user and the assistant with these turns.
abbrev pub role_name : Role → Str
role_name user = codes "user"
role_name assistant = codes "assistant"

abbrev pub as_messages : List Turn → Items
as_messages [] = nil
as_messages (t ∷ ts) = cons (message (role_name t.role) t.content) (as_messages ts)

read_message-turn :
    (py : Python) (g : Gathered) (r : Role) (c : Str)
    → read_message py g (message (role_name r) c)
      ≡ ok (record g { turns = g.turns ++ record { role = r; content = c } ∷ [] })
unfolding read_message
read_message-turn py g user c = refl
read_message-turn py g assistant c = refl

read_messages-turns :
    (py : Python) (g : Gathered) (ts : List Turn)
    → read_messages py g (as_messages ts) ≡ ok (record g { turns = g.turns ++ ts })
unfolding read_messages
read_messages-turns py g [] = ap (λ l. ok (record g { turns = l })) (sym (append-nil g.turns))
read_messages-turns py g (t ∷ ts) = rw (read_message-turn py g t.role t.content) (
    read_messages-turns py (record g { turns = g.turns ++ t ∷ [] }) ts
    ∙ ap (λ l. ok (record g { turns = l })) (append_assoc g.turns (t ∷ []) ts))

-- The reader of a whole prompt.
unfoldable pub read_prompt : (fuel : ℕ) → Str → Option (List Turn)
unfolding read_turns
read_prompt fuel p = elim (strip_prefix system_tag p) [
  | none ↦ none
  | some s ↦ elim (strip_prefix end_tag (read_text s).1) [
    | none ↦ none
    | some s' ↦ read_turns fuel s'
  ]
]

-- A dialogue of turns without `<`, the last of them the user's, gives a prompt from which these turns
-- can be read back.
pub read_prompt-format_dialogue :
    (py : Python) (t : Turn) (ts : List Turn)
    → AllPlain (t ∷ ts)
    → check_last (t ∷ ts) ≡ ok tt
    → (p : Str) × (format_dialogue py (arr (as_messages (t ∷ ts))) null null ≡ ok p)
      × (read_prompt (suc (length (t ∷ ts))) p ≡ some (t ∷ ts))
unfolding format_dialogue
read_prompt-format_dialogue py t ts plain last = (
  render (default_system ++ []) (t ∷ ts),
  rw (read_messages-turns py (record { system_parts = default_system ∷ []; turns = [] }) (t ∷ ts))
      (rw last refl),
  unfold read_prompt render in read_turns-render_turns (t ∷ ts) plain,
)
