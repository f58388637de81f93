-- ===== src/Api/Content.antt =====
-- `_flatten_text_content`, `_flatten_system` and `_tool_note` of tools/kvl_api.py. Python's limit on
-- the depth of recursion is left out.
use in_c_test.Prelude.{
  Bool, ◌||◌, Option, none, some, List, [], ◌∷◌, ◌++◌, Result, ok, err, ◌>>=◌, take, list_eq,
  if◌then◌else◌,
}
use in_c_test.Text.{Str, codes, join, non_empty, strip}
use in_c_test.Json.{
  Json, null, bool, int, real, str, arr, obj, Items, nil, cons, Fields, end, field, get,
  get_or_default, truthy, is_str,
}
use in_c_test.Api.{
  ApiError, content_not_text, block_not_object, image_block, unsupported_block, Python,
}

abbrev pub newline : Str
newline = 10 ∷ []

-- `kind in ("text", "input_text", "output_text")`, and the kinds of images
abbrev pub is_text_kind : Json → Bool
is_text_kind k =
    is_str (codes "text") k || (is_str (codes "input_text") k || is_str (codes "output_text") k)

abbrev pub is_image_kind : Json → Bool
is_image_kind k =
    is_str (codes "image") k || (is_str (codes "image_url") k || is_str (codes "input_image") k)

abbrev pub default_system : Str
default_system = codes "You are a helpful assistant"

abbrev pub kind_of : Fields → Json
kind_of fs = get_or_default (codes "type") (str (codes "text")) fs

abbrev pub joined : List Str → Str
joined parts = join newline (non_empty parts)

-- `text or DEFAULT_SYSTEM`
abbrev pub or_default_system : Str → Str
or_default_system [] = default_system
or_default_system (c ∷ s) = c ∷ s

abbrev pub keep : Option Str → List Str → List Str
keep none names = names
keep (some n) names = n ∷ names

abbrev pub tools_suffix : List Str → Str
tools_suffix [] = []
tools_suffix (n ∷ ns) =
    codes " Tools supplied by the client: " ++ (join (codes ", ") (take 32 (n ∷ ns)) ++ codes ".")

abbrev pub no_tool_calls : Str
no_tool_calls =
    newline
    ++ (newline
        ++ (codes "Local adapter note: native Anthropic/OpenAI tool calls are not implemented yet. "
            ++ codes "Do not claim that you executed tools; answer in plain text only."))

module _ (py : Python) where
  -- `str(v)`
  abbrev pub text : Json → Str
  text (str s) = s
  text v = py.text_of v

  -- `f"[tool_result {tool_id}]\n{body}".strip()`
  abbrev pub tool_result : Fields → Str → Str
  tool_result fs body = strip (
      codes "[tool_result "
      ++ (text (get_or_default (codes "tool_use_id") (str []) fs)
          ++ (codes "]" ++ (newline ++ body))))

  -- `f"[tool_use {name}] {payload}"`
  abbrev pub tool_use : Fields → Str
  tool_use fs =
      codes "[tool_use "
      ++ (text (get_or_default (codes "name") (str (codes "tool")) fs)
          ++ (codes "] " ++ py.dumps (get_or_default (codes "input") (obj end) fs)))

  abbrev pub text_block : Fields → Str
  text_block fs = text (get_or_default (codes "text") (str []) fs)

  -- A block by its kind, with the text of its `content` if it is a tool's result.
  unfoldable pub block_part : Fields → Json → Result ApiError Str → Result ApiError Str
  unfolding get list_eq strip
  block_part fs kind body =
      if is_text_kind kind
      then ok (text_block fs)
      else if is_str (codes "tool_result") kind
      then (do b ← body; ok (tool_result fs b))
      else if is_str (codes "tool_use") kind
      then ok (tool_use fs)
      else if is_image_kind kind
      then err image_block
      else err unsupported_block

  unfoldable mutual
    unfolding block_part join

    -- `_flatten_text_content`
    pub flatten : Json → Result ApiError Str
    flatten null = ok []
    flatten (str s) = ok s
    flatten (arr blocks) = do parts ← flatten_blocks blocks; ok (joined parts)
    flatten (bool b) = err content_not_text
    flatten (int n) = err content_not_text
    flatten (real r) = err content_not_text
    flatten (obj fs) = err content_not_text

    pub flatten_blocks : Items → Result ApiError (List Str)
    flatten_blocks nil = ok []
    flatten_blocks (cons block blocks) = do
      part ← flatten_block block
      parts ← flatten_blocks blocks
      ok (part ∷ parts)

    pub flatten_block : Json → Result ApiError Str
    flatten_block (str s) = ok s
    flatten_block (obj fs) = block_part fs (kind_of fs) (flatten_content fs)
    flatten_block null = err block_not_object
    flatten_block (bool b) = err block_not_object
    flatten_block (int n) = err block_not_object
    flatten_block (real r) = err block_not_object
    flatten_block (arr vs) = err block_not_object

    -- `_flatten_text_content(block.get("content", ""))`
    pub flatten_content : Fields → Result ApiError Str
    flatten_content end = ok []
    flatten_content (field k v fs) =
        let here = flatten v in
        let rest = flatten_content fs in if list_eq k (codes "content") then here else rest

  -- `_flatten_system`
  unfoldable pub flatten_system : Json → Result ApiError Str
  unfolding flatten
  flatten_system null = ok default_system
  flatten_system v = do s ← flatten v; ok (or_default_system s)

  -- `str(tool["name"])` for the tools that are objects with a name
  abbrev pub tool_name : Json → Option Str
  tool_name (obj fs) = elim (get (codes "name") fs) [
    | none ↦ none
    | some v ↦ if truthy v then some (text v) else none
  ]
  tool_name v = none

  unfoldable pub tool_names : Items → List Str
  unfolding get list_eq
  tool_names nil = []
  tool_names (cons t ts) = keep (tool_name t) (tool_names ts)

  abbrev pub note_of : Json → Str
  note_of (arr ts) = no_tool_calls ++ tools_suffix (tool_names ts)
  note_of v =
      newline
      ++ (newline
          ++ codes "Local adapter note: native tool use is unavailable; answer in plain text.")

  -- `_tool_note`
  unfoldable pub tool_note : Json → Str
  unfolding tool_names join
  tool_note v = if truthy v then note_of v else []
