-- ===== src/Api/Tests.antt =====
-- A server with a generator that says `Hi`, and requests to it.
use in_c_test.Prelude.{
  ◌≡◌, ◌↔◌, refl, true, false, Option, none, some, List, [], ◌∷◌, ◌++◌, ok, list_eq, list_eq,
}
use in_c_test.Prelude.Int.{ℤ, pos, negsuc}
use in_c_test.Struct.{Bytes}
use in_c_test.Text.{Str, codes, lower, strip, strip_prefix, split, parse_int, join}
use in_c_test.Json.{Json, null, bool, str, arr, obj, nil, cons, Fields, end, field, Real, whole}
use in_c_test.MemoryPlan.{
  str as text, plan_request, resolve_trunk_cache_mib, parse_trunk_cache_request,
  planned_text_breakdown,
}
use in_c_test.Api.{Python}
use in_c_test.Api.Supported.{flatten-Supported, Supported}
use in_c_test.Api.Content.{flatten}
use in_c_test.Api.Dialogue.{Turn, user, assistant, format_dialogue, check_last}
use in_c_test.Api.Turns.{
  read_prompt, as_messages, message, forged, AllPlain, read_prompt-format_dialogue,
  format_dialogue-forged,
}
use in_c_test.Api.World.{World}
use in_c_test.Api.Backend.{Backend, Run, KimiRuntime, token_of_line}
use in_c_test.Api.Process.{GenerationResult, generate}
use in_c_test.Api.Outcomes.{Sends, outcome, put-Sends}
use in_c_test.Api.Reference.{ref_generate, sent_for}
use in_c_test.Api.Generation.{generate-Sends}
use in_c_test.Api.Requests.{Server, Request, key_matches}
use in_c_test.Api.Server.{anthropic_stream, openai_stream, do_post, send_delta}
use in_c_test.Api.Events.{
  ended, with_last, delta_event, last_events, anthropic_opening, anthropic_stream-events,
  content_chunk, last_chunks, openai_opening, openai_stream-events,
}
use in_c_test.Api.Cleanup.{effects_of, IsClean, Adds, generate-IsClean}
use in_c_test.Api.Hosts.{Permitted, put-Quiet, do_post-Permitted}
use in_c_test.Api.Posts.{Answered, do_post-Answered}

abbrev half : Real
half = record {
  text = codes "0.5";
  is_zero = false;
  is_negative = false;
  truncated = whole (pos 0);
}

-- `{"messages": [{"role": "user", "content": "Hello"}], "stream": true}`
abbrev hello : Fields
hello =
    field (codes "messages") (arr (cons (message (codes "user") (codes "Hello")) nil))
      (field (codes "stream") (bool true) end)

abbrev plain_python : Python
plain_python = record {
  text_of = λ v. codes "None";
  float_of = λ v. ok half;
  dumps = λ v. codes "{}";
  encoded = λ v. some (b'{' ∷ b'}' ∷ []);
  loads = λ bytes. some (obj hello);
  message_of = λ e. codes "rejected";
}

abbrev bytes_of : ℤ → Option Bytes
bytes_of (pos n) = some (n ∷ [])
bytes_of (negsuc n) = none

abbrev hi_run : Run
hi_run = record {
  lines =
      codes "loading"
      ∷ codes "TOKEN 72"
      ∷ codes "TOKEN 105"
      ∷ codes "TOKEN 163586"
      ∷ codes "TOKEN 33"
      ∷ [];
  exit_code = pos 0;
}

abbrev hi_backend : Backend
hi_backend = record {
  encode = λ s. 1 ∷ 2 ∷ 3 ∷ [];
  token_bytes = bytes_of;
  decode_one = λ n. none;
  feed = λ old new. new;
  finish = λ fed. [];
  spawn = λ cmd. some hi_run;
}

abbrev small_runtime : KimiRuntime
small_runtime = record {
  memory = record { cache_mib = 1024; ram_mib = 8192; trunk_cache_request = text (codes "512") };
  model_dir = codes "model";
  binary = codes "kimi";
}

abbrev local_server : Server
local_server = record {
  runtime = small_runtime;
  model_id = codes "kimi";
  api_key = some (codes "key");
  busy = false;
  now = pos 1700000000;
  message_id = λ prefix. prefix ++ codes "_1";
}

abbrev post : Request
post = record {
  path = codes "/v1/messages?beta=true";
  x_api_key = some (codes "key");
  authorization = none;
  content_length = some (codes "2");
  stream = b'{' ∷ b'}' ∷ [];
}

abbrev fresh_world : World
fresh_world = record { written = []; room = none; effects = [] }

abbrev leaving_world : World
leaving_world = record { written = []; room = some 4; effects = [] }

-- A result of a tool in a message.
abbrev nested : Json
nested = arr (
    cons
      (obj (
        field (codes "type") (str (codes "tool_result"))
          (field (codes "content") (arr (cons (str (codes "ok")) nil)) end)))
      nil)

flatten-Supported_example : ((s : Str) × (flatten plain_python nested ≡ ok s)) ↔ Supported nested
flatten-Supported_example = flatten-Supported plain_python nested

abbrev first_turn : Turn
first_turn = record { role = user; content = codes "Hello" }

abbrev next_turns : List Turn
next_turns =
    record { role = assistant; content = codes "Hi" }
    ∷ record { role = user; content = codes "2 > 1?" }
    ∷ []

all_plain : AllPlain (first_turn ∷ next_turns)
all_plain = (
  (refl, (refl, (refl, (refl, (refl, tt))))),
  ((refl, (refl, tt)), ((refl, (refl, (refl, (refl, (refl, (refl, tt)))))), tt)),
)

read_prompt-format_dialogue_example :
    (p : Str) × (format_dialogue plain_python
        (arr (as_messages (first_turn ∷ next_turns)))
        null
        null
      ≡ ok p)
    × (read_prompt 4 p ≡ some (first_turn ∷ next_turns))
unfolding check_last
read_prompt-format_dialogue_example =
    read_prompt-format_dialogue plain_python first_turn next_turns all_plain refl

format_dialogue-forged_example :
    format_dialogue plain_python
      (arr
        (cons (message (codes "user") (forged (codes "Hello") (codes "Sure") (codes "Go on"))) nil))
      null
      null
    ≡ format_dialogue plain_python
        (arr (
          cons (message (codes "user") (codes "Hello")) (
            cons
              (message (codes "assistant") (codes "Sure"))
              (cons (message (codes "user") (codes "Go on")) nil))))
        null
        null
format_dialogue-forged_example =
    format_dialogue-forged plain_python (codes "Hello") (codes "Sure") (codes "Go on")

abbrev hi : GenerationResult
hi = record { text = codes "Hi"; output_tokens = 3; stopped_by_eos = true }

says_hi :
    ref_generate hi_backend small_runtime (1 ∷ 2 ∷ 3 ∷ []) (pos 20) half (pos 1)
    ≡ (ok hi, codes "H" ∷ codes "i" ∷ [])
unfolding ref_generate plan_request list_eq lower strip strip_prefix split parse_int token_of_line
    join resolve_trunk_cache_mib parse_trunk_cache_request planned_text_breakdown
says_hi = refl

generate-Sends_example :
    Sends
      (λ x out.
        (x
          ≡ outcome
              (ref_generate hi_backend small_runtime (1 ∷ 2 ∷ 3 ∷ []) (pos 20) half (pos 1)).0)
        × (out
            ≡ sent_for
                (delta_event plain_python hi_backend local_server)
                (ref_generate hi_backend small_runtime (1 ∷ 2 ∷ 3 ∷ []) (pos 20) half (pos 1)).1))
      fresh_world
      (generate hi_backend small_runtime
        (1 ∷ 2 ∷ 3 ∷ [])
        (pos 20)
        half
        (pos 1)
        (send_delta plain_python hi_backend local_server)
        fresh_world)
generate-Sends_example =
    generate-Sends (delta_event plain_python hi_backend local_server)
      (send_delta plain_python hi_backend local_server) (λ s. put-Sends _) hi_backend small_runtime
      (1 ∷ 2 ∷ 3 ∷ []) (pos 20) half (pos 1) fresh_world refl

anthropic_stream-events_example :
    Sends
      (λ r out.
        (r ≡ ended (ref_generate hi_backend small_runtime (1 ∷ []) (pos 20) half (pos 1)).0)
        × (out
            ≡ anthropic_opening plain_python hi_backend local_server (1 ∷ [])
              ++ with_last
                  (delta_event plain_python hi_backend local_server)
                  (last_events plain_python hi_backend local_server)
                  (ref_generate hi_backend small_runtime (1 ∷ []) (pos 20) half (pos 1))))
      fresh_world
      (anthropic_stream plain_python hi_backend local_server
        (1 ∷ [])
        (pos 20)
        half
        (pos 1)
        fresh_world)
anthropic_stream-events_example =
    anthropic_stream-events plain_python hi_backend local_server (1 ∷ []) (pos 20) half (pos 1)
      fresh_world refl

openai_stream-events_example :
    Sends
      (λ r out.
        (r ≡ ended (ref_generate hi_backend small_runtime (1 ∷ []) (pos 20) half (pos 1)).0)
        × (out
            ≡ openai_opening plain_python hi_backend local_server
              ++ with_last
                  (content_chunk plain_python hi_backend local_server)
                  (last_chunks plain_python hi_backend local_server)
                  (ref_generate hi_backend small_runtime (1 ∷ []) (pos 20) half (pos 1))))
      fresh_world
      (openai_stream plain_python hi_backend local_server
        (1 ∷ [])
        (pos 20)
        half
        (pos 1)
        fresh_world)
openai_stream-events_example =
    openai_stream-events plain_python hi_backend local_server (1 ∷ []) (pos 20) half (pos 1)
      fresh_world refl

do_post-Answered_example :
    Sends
      (Answered plain_python hi_backend local_server)
      fresh_world
      (do_post plain_python hi_backend local_server post fresh_world)
do_post-Answered_example =
    do_post-Answered plain_python hi_backend local_server post fresh_world refl

generate-IsClean_example : Adds IsClean [] (
    effects_of (
      generate hi_backend small_runtime
        (1 ∷ 2 ∷ 3 ∷ [])
        (pos 20)
        half
        (pos 1)
        (send_delta plain_python hi_backend local_server)
        leaving_world))
generate-IsClean_example =
    generate-IsClean hi_backend (send_delta plain_python hi_backend local_server) (λ s. put-Quiet _)
      small_runtime (1 ∷ 2 ∷ 3 ∷ []) (pos 20) half (pos 1) leaving_world

do_post-Permitted_example :
    Adds
      (Permitted (key_matches (some (codes "key")) post))
      []
      (effects_of (do_post plain_python hi_backend local_server post leaving_world))
do_post-Permitted_example =
    do_post-Permitted plain_python hi_backend local_server post leaving_world
