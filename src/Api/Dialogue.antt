-- ===== src/Api/Dialogue.antt =====
-- `_format_dialogue` of tools/kvl_api.py: the turns of a request, and the prompt they are written as.
use in_c_test.Prelude.{
  Bool, ◌||◌, List, [], ◌∷◌, ◌++◌, Result, ok, err, ◌>>=◌, ◌>>◌, list_eq, if◌then◌else◌,
}
use in_c_test.Text.{Str, codes, join, non_empty}
use in_c_test.Json.{
  Json, null, bool, int, real, str, arr, obj, Items, nil, cons, get, get_or_default,
}
use in_c_test.Api.{
  ApiError, no_messages, message_not_object, unsupported_role, no_turn, last_not_user, Python,
}
use in_c_test.Api.Content.{text, flatten, flatten_system, tool_note, newline}

pub data Role : Type 0 where
  user assistant : Role

pub record Turn : Type 0 where
  pub role : Role
  pub content : Str

-- What the loop over the messages gathers.
pub record Gathered : Type 0 where
  pub system_parts : List Str
  pub turns : List Turn

abbrev pub is_system_role : Str → Bool
is_system_role r = list_eq r (codes "system") || list_eq r (codes "developer")

-- `if content: system_parts.append(content)`
abbrev pub add_part : Str → List Str → List Str
add_part [] parts = parts
add_part (c ∷ s) parts = parts ++ (c ∷ s) ∷ []

-- What a message of this role adds.
unfoldable pub gather : Gathered → Str → Str → Result ApiError Gathered
unfolding list_eq
gather g role content =
    if is_system_role role
    then ok (record g { system_parts = add_part content g.system_parts })
    else if list_eq role (codes "user")
    then ok (record g { turns = g.turns ++ record { role = user; content = content } ∷ [] })
    else if list_eq role (codes "assistant")
    then ok (record g { turns = g.turns ++ record { role = assistant; content = content } ∷ [] })
    else err unsupported_role

abbrev pub role_tag : Role → Str
role_tag user = codes "<|im_user|>user<|im_middle|>"
role_tag assistant = codes "<|im_assistant|>assistant<|im_middle|>"

abbrev pub end_tag : Str
end_tag = codes "<|im_end|>"

abbrev pub system_tag : Str
system_tag = codes "<|im_system|>system<|im_middle|>"

unfoldable pub render_turns : List Turn → Str
render_turns [] = []
render_turns (t ∷ ts) = role_tag t.role ++ (t.content ++ (end_tag ++ render_turns ts))

-- The prompt: the system's text, the turns, and the opening of the answer.
unfoldable pub render : Str → List Turn → Str
unfolding render_turns
render system_text turns =
    system_tag ++ (system_text ++ (end_tag ++ (render_turns turns ++ role_tag assistant)))

-- `turns` is not empty and its last role is the user's.
unfoldable pub check_last : List Turn → Result ApiError (Unit {0})
check_last [] = err no_turn
check_last (t ∷ []) = elim t.role [ user ↦ ok tt | assistant ↦ err last_not_user ]
check_last (t ∷ u ∷ ts) = check_last (u ∷ ts)

module _ (py : Python) where
  -- The body of the loop over the messages.
  unfoldable pub read_message : Gathered → Json → Result ApiError Gathered
  unfolding gather get flatten list_eq
  read_message g (obj fs) = do
    let role = text py (get_or_default (codes "role") (str []) fs)
    content ← flatten py (get_or_default (codes "content") (str []) fs)
    gather g role content
  read_message g null = err message_not_object
  read_message g (bool b) = err message_not_object
  read_message g (int n) = err message_not_object
  read_message g (real r) = err message_not_object
  read_message g (str s) = err message_not_object
  read_message g (arr vs) = err message_not_object

  unfoldable pub read_messages : Gathered → Items → Result ApiError Gathered
  unfolding read_message
  read_messages g nil = ok g
  read_messages g (cons m ms) = do g' ← read_message g m; read_messages g' ms

  -- The array of the messages, which is not empty.
  abbrev pub messages_of : Json → Result ApiError Items
  messages_of (arr (cons m ms)) = ok (cons m ms)
  messages_of v = err no_messages

  unfoldable pub format_dialogue : (messages system tools : Json) → Result ApiError Str
  unfolding read_messages flatten_system tool_note check_last render join
  format_dialogue messages system tools = do
    ms ← messages_of messages
    first ← flatten_system py system
    g ← read_messages (record { system_parts = first ∷ []; turns = [] }) ms
    check_last g.turns
    let system_text = join (newline ++ newline) (non_empty g.system_parts) ++ tool_note py tools
    ok (render system_text g.turns)
