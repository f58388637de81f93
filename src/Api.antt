-- ===== src/Api.antt =====
-- The local HTTP adapter, tools/kvl_api.py: what it raises, and what it takes of Python and of the
-- generator. The children model its parts.
pub mod Content
pub mod Supported
pub mod Dialogue
pub mod Turns
pub mod World
pub mod Backend
pub mod Process
pub mod Cleanup
pub mod Replies
pub mod Requests
pub mod Server
pub mod Outcomes
pub mod Reference
pub mod Streams
pub mod Generation
pub mod Events
pub mod Answers
pub mod Routes
pub mod Posts
pub mod Hosts
mod Tests
use in_c_test.Prelude.{ℕ, Bool, true, false, Option, Result}
use in_c_test.Struct.{Bytes}
use in_c_test.Text.{Str}
use in_c_test.Json.{Json, Real}
use in_c_test.MemoryPlan.{PlanError}

-- What the adapter raises. Its `ValueError`s are named; `plan_failed` is that of the RAM plan.
pub data ApiError : Type 0 where
  content_not_text block_not_object image_block unsupported_block : ApiError
  no_messages message_not_object unsupported_role no_turn last_not_user : ApiError
  negative_temperature not_an_int unknown_model : ApiError
  no_length body_too_large not_json not_an_object not_encodable : ApiError
  plan_failed : PlanError → ApiError
  sizes_not_positive missing_files binary_not_found : ApiError
  type_error index_error overflow unknown_token spawn_failed generator_failed : ApiError

-- What Python makes of values: `str(v)` of a value that is no text, `float(v)`, `json.dumps` with
-- `ensure_ascii=False, separators=(",", ":")`, that encoded if no text in it holds a lone surrogate, `json.loads` of decoded bytes, and the
-- text of an exception.
pub record Python : Type 0 where
  pub text_of : Json → Str
  pub float_of : Json → Result ApiError Real
  pub dumps : Json → Str
  pub encoded : Json → Option Bytes
  pub loads : Bytes → Option Json
  pub message_of : ApiError → Str
