-- ===== src/Api/Requests.antt =====
-- Requests to the server of tools/kvl_api.py: their key, length, body and arguments, and how an
-- exception is answered.
use in_c_test.Prelude.{
  ℕ, ◌*◌, Bool, true, false, ◌||◌, Option, none, some, List, [], ◌∷◌, ◌++◌, Result, ok, err, leb,
  list_eq, if◌then◌else◌,
}
use in_c_test.Prelude.Int.{ℤ, pos, negsuc}
use in_c_test.Struct.{Bytes}
use in_c_test.Text.{Str, codes, parse_int}
use in_c_test.Text.Print.{show}
use in_c_test.Json.{
  Json, null, bool, int, real, str, arr, obj, Fields, Whole, whole, infinite, not_a_number,
}
use in_c_test.Api.{
  ApiError, not_an_int, body_too_large, not_json, not_an_object, not_encodable, type_error,
  index_error, overflow, unknown_token, spawn_failed, generator_failed, missing_files,
  binary_not_found,
}
use in_c_test.Api.World.{World, Fault, raised, gone}
use in_c_test.Api.Backend.{KimiRuntime}

-- `KimiHTTPServer`, and what it takes of the time and of `uuid`.
pub record Server : Type 0 where
  pub runtime : KimiRuntime
  pub model_id : Str
  pub api_key : Option Str
  pub busy : Bool
  pub now : ℤ
  pub message_id : Str → Str

-- A request: the headers that are looked up, and the bytes behind them.
pub record Request : Type 0 where
  pub path : Str
  pub x_api_key : Option Str
  pub authorization : Option Str
  pub content_length : Option Str
  pub stream : Bytes

abbrev pub max_request_bytes : ℕ
max_request_bytes = 16 * 1024 * 1024

abbrev pub cors : List (Str × Str)
cors =
    (codes "Access-Control-Allow-Origin", codes "*")
    ∷ (
      codes "Access-Control-Allow-Headers",
      codes "authorization, content-type, x-api-key, anthropic-version, anthropic-beta",
    )
    ∷ (codes "Access-Control-Allow-Methods", codes "GET, POST, OPTIONS")
    ∷ []

abbrev pub json_headers : ℕ → List (Str × Str)
json_headers n =
    (codes "Content-Type", codes "application/json; charset=utf-8")
    ∷ (codes "Content-Length", show n)
    ∷ cors

abbrev pub stream_headers : List (Str × Str)
stream_headers =
    (codes "Content-Type", codes "text/event-stream; charset=utf-8")
    ∷ (codes "Cache-Control", codes "no-cache")
    ∷ (codes "Connection", codes "close")
    ∷ cors

abbrev pub same_text : Str → Option Str → Bool
same_text t none = false
same_text t (some s) = list_eq s t

abbrev pub or_empty : Option Str → Str
or_empty none = []
or_empty (some s) = s

-- The test of `_authorized`; an empty key is no key.
abbrev pub key_matches : Option Str → Request → Bool
key_matches none rq = true
key_matches (some []) rq = true
key_matches (some (c ∷ s)) rq =
    same_text (c ∷ s) rq.x_api_key
    || list_eq (or_empty rq.authorization) (codes "Bearer " ++ (c ∷ s))

abbrev pub length_of : Option ℤ → Result ApiError ℕ
length_of none = err not_an_int
length_of (some (negsuc n)) = err body_too_large
length_of (some (pos n)) = if leb n max_request_bytes then ok n else err body_too_large

abbrev pub object_of : Option Json → Result ApiError Fields
object_of none = err not_json
object_of (some (obj fs)) = ok fs
object_of (some v) = err not_an_object

-- A lone surrogate raises a `UnicodeEncodeError`, which is a `ValueError`.
abbrev pub or_not_encodable : Option Bytes → Result ApiError Bytes
or_not_encodable none = err not_encodable
or_not_encodable (some bytes) = ok bytes

abbrev pub int_of_real : Whole → Result ApiError ℤ
int_of_real (whole n) = ok n
int_of_real infinite = err overflow
int_of_real not_a_number = err not_an_int

abbrev pub int_of_text : Option ℤ → Result ApiError ℤ
int_of_text none = err not_an_int
int_of_text (some n) = ok n

-- `int(v)`
unfoldable pub py_int : Json → Result ApiError ℤ
unfolding parse_int
py_int (int n) = ok n
py_int (bool b) = ok (if b then pos 1 else pos 0)
py_int (real r) = int_of_real r.truncated
py_int (str s) = int_of_text (parse_int s)
py_int null = err type_error
py_int (arr vs) = err type_error
py_int (obj fs) = err type_error

-- How `do_POST` answers an exception: a `ValueError` is the client's, any other the backend's.
pub data Blame : Type 0 where
  client backend : Blame

abbrev pub blame : ApiError → Blame
blame missing_files = backend
blame binary_not_found = backend
blame type_error = backend
blame index_error = backend
blame overflow = backend
blame unknown_token = backend
blame spawn_failed = backend
blame generator_failed = backend
blame e = client

abbrev pub swallowed : Result Fault (Unit {0}) × World → Result Fault (Unit {0}) × World
swallowed (err gone, w) = (ok tt, w)
swallowed (err (raised e), w) = (err (raised e), w)
swallowed (ok u, w) = (ok u, w)

abbrev pub default_temperature : Json
default_temperature =
    real (record {
      text = codes "0.2";
      is_zero = false;
      is_negative = false;
      truncated = whole (pos 0);
    })
