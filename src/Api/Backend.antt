-- ===== src/Api/Backend.antt =====
-- `KimiRuntime` of tools/kvl_api.py but for its `generate`: `__init__`, `prepare` and `preflight`, and
-- the reading of a line of the generator. The tokenizer, the decoder of UTF-8 and the generator's
-- process are parameters.
use in_c_test.Prelude.{
  ℕ, suc, Bool, true, false, ◌||◌, not, Option, none, some, List, [], ◌∷◌, Result, ok, err, ◌>>=◌,
  ◌>>◌, guard, length, get_elem?, if◌then◌else◌, ◌==◌,
}
use in_c_test.Prelude.Int.{ℤ, pos, negsuc}
use in_c_test.Struct.{Bytes}
use in_c_test.Text.{Str, codes, strip, split, strip_prefix, parse_int}
use in_c_test.Json.{Json, Real}
use in_c_test.MemoryPlan.{
  Runtime, Breakdown, CacheRequest, PlanError, plan_request, parse_trunk_cache_request,
}
use in_c_test.Api.{
  ApiError, negative_temperature, plan_failed, index_error, not_an_int, missing_files,
  binary_not_found, sizes_not_positive, Python,
}
use in_c_test.Api.Dialogue.{format_dialogue}
use in_c_test.Api.World.{Command}

-- A run of the generator: the lines it prints, and its exit code.
pub record Run : Type 0 where
  pub lines : List Str
  pub exit_code : ℤ

-- `feed old new` is the text that the incremental decoder returns for `new`, after it was fed `old`;
-- `finish` is its text at the end. `decode_one` is `none` where `decode` raises a KeyError, and `spawn`
-- where `Popen` raises.
pub record Backend : Type 0 where
  pub encode : Str → List ℕ
  pub token_bytes : ℤ → Option Bytes
  pub decode_one : ℤ → Option Str
  pub feed : Bytes → Bytes → Str
  pub finish : Bytes → Str
  pub spawn : Command → Option Run

pub record KimiRuntime : Type 0 where
  pub memory : Runtime
  pub model_dir : Str
  pub binary : Str

abbrev pub second_word : Option Str → Result ApiError Str
second_word none = err index_error
second_word (some w) = ok w

abbrev pub token_number : Option ℤ → Result ApiError (Option ℤ)
token_number none = err not_an_int
token_number (some n) = ok (some n)

abbrev pub is_some : Option Str → Bool
is_some none = false
is_some (some s) = true

-- The token of a line, if it starts with `TOKEN `.
unfoldable pub token_of_line : Str → Result ApiError (Option ℤ)
unfolding strip strip_prefix split parse_int
token_of_line raw =
    if is_some (strip_prefix (codes "TOKEN ") (strip raw))
    then (do w ← second_word (get_elem? (split (strip raw)) 1); token_number (parse_int w))
    else ok none

-- `token in STOP_IDS`
abbrev pub is_stop : ℤ → Bool
is_stop (pos n) = n == 163585 || n == 163586
is_stop (negsuc n) = false

abbrev pub is_negative : ℤ → Bool
is_negative (pos n) = false
is_negative (negsuc n) = true

abbrev pub planned : Result PlanError (ℕ × Breakdown) → Result ApiError (ℕ × Breakdown)
planned (ok p) = ok p
planned (err e) = err (plan_failed e)

abbrev pub parsed_request : Result PlanError (Option ℕ) → Result ApiError (Unit {0})
parsed_request (ok p) = ok tt
parsed_request (err e) = err (plan_failed e)

abbrev pub required : List Str
required =
    codes "trunk.bin"
    ∷ codes "trunk.idx"
    ∷ codes "experts.bin"
    ∷ codes "experts.idx"
    ∷ codes "tiktoken.model"
    ∷ codes "tokenizer_config.json"
    ∷ []

-- Whether each of the files is there.
unfoldable pub all_files : (Str → Bool) → List Str → Bool
all_files is_file [] = true
all_files is_file (n ∷ ns) = let rest = all_files is_file ns in if is_file n then rest else false

abbrev pub positive : ℤ → ℤ → Result ApiError (ℕ × ℕ)
positive (pos (suc c)) (pos (suc r)) = ok (suc c, suc r)
positive c r = err sizes_not_positive

-- `__init__`, up to the tokenizer: `in_model` tells the files of the model's directory, and
-- `is_binary` the generator.
unfoldable pub new_runtime :
    (in_model : Str → Bool) (is_binary : Str → Bool) (model_dir binary : Str) (cache_mib : ℤ)
    → CacheRequest
    → (ram_mib : ℤ) → Result ApiError KimiRuntime
unfolding parse_trunk_cache_request all_files
new_runtime in_model is_binary model_dir binary cache_mib request ram_mib = do
  sizes ← positive cache_mib ram_mib
  parsed_request (parse_trunk_cache_request request)
  guard (all_files in_model required) missing_files
  guard (is_binary binary) binary_not_found
  ok (record {
    memory = record { cache_mib = sizes.0; ram_mib = sizes.1; trunk_cache_request = request };
    model_dir = model_dir;
    binary = binary;
  })

module _ (b : Backend) where
  unfoldable pub preflight : KimiRuntime → List ℕ → ℤ → Real → Result ApiError (Unit {0})
  unfolding plan_request
  preflight r ids max_tokens temperature = do
    guard (not temperature.is_negative) negative_temperature
    p ← planned (plan_request r.memory (length ids) max_tokens)
    ok tt

  unfoldable pub prepare : Python → (messages system tools : Json) → Result ApiError (List ℕ)
  unfolding format_dialogue
  prepare py messages system tools = do
    s ← format_dialogue py messages system tools
    ok (b.encode s)
