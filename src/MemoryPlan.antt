-- ===== src/MemoryPlan.antt =====
-- tools/kvl_memory_plan.py: the RAM planner of the text runtime, and its one client in
-- tools/kvl_api.py, `KimiRuntime._plan`. Python's integers are ℤ where they come from a caller;
-- behind the guards they are natural numbers.
pub mod Budget
pub mod Grants
pub mod Request
mod Tests
use in_c_test.Prelude.{
  ℕ, zero, suc, ◌+◌, ◌-◌, ◌*◌, ◌/◌, ◌^◌, Bool, true, false, ◌||◌, Option, none, some, List, [], ◌∷◌,
  Result, ok, err, ◌>>=◌, ◌>>◌, guard, not, min, list_eq, ltb, leb, ◌==◌, if◌then◌else◌,
}
use in_c_test.Prelude.Int.{ℤ, pos, negsuc}
use in_c_test.Text.{Str, strip, lower, parse_int}

abbrev pub hidden : ℕ
hidden = 2048

abbrev pub layers : ℕ
layers = 27

abbrev pub heads : ℕ
heads = 16

abbrev pub qk_nope : ℕ
qk_nope = 128

abbrev pub qk_rope : ℕ
qk_rope = 64

abbrev pub value_head : ℕ
value_head = 128

abbrev pub kv_latent : ℕ
kv_latent = 512

abbrev pub kv_latent_plus_rope : ℕ
kv_latent_plus_rope = kv_latent + qk_rope

abbrev pub dense_intermediate : ℕ
dense_intermediate = 11264

abbrev pub fp32_bytes : ℕ
fp32_bytes = 4

abbrev pub bf16_bytes : ℕ
bf16_bytes = 2

abbrev pub mib : ℕ
mib = 1024 * 1024

abbrev pub global_bf16_bytes : ℕ
global_bf16_bytes = 2 * (163840 * hidden * bf16_bytes) + hidden * bf16_bytes

abbrev pub layer_major_prompt_buffers : ℕ
layer_major_prompt_buffers = 3

abbrev pub peak_layer_bf16_bytes : ℕ
peak_layer_bf16_bytes = 3 * dense_intermediate * hidden * bf16_bytes

abbrev pub runtime_misc_safety : ℕ
runtime_misc_safety = 128 * mib

abbrev pub full_trunk_cache_mib : ℕ
full_trunk_cache_mib = 1706

-- The ValueErrors of the planner and of its client.
pub data PlanError : Type 0 where
  negative_trunk_cache trunk_cache_not_an_integer not_positive ram_not_positive : PlanError
  max_tokens_not_positive over_budget : PlanError

-- `value: str | int`
pub data CacheRequest : Type 0 where
  int : ℤ → CacheRequest
  str : Str → CacheRequest

abbrev non_negative : ℤ → Result PlanError (Option ℕ)
non_negative (pos n) = ok (some n)
non_negative (negsuc n) = err negative_trunk_cache

abbrev pub auto_text : Str
auto_text = b'a' ∷ b'u' ∷ b't' ∷ b'o' ∷ []

abbrev parsed_request : Option ℤ → Result PlanError (Option ℕ)
parsed_request none = err trunk_cache_not_an_integer
parsed_request (some v) = non_negative v

-- `none` is the planner-managed request 'auto'.
unfoldable pub parse_trunk_cache_request : CacheRequest → Result PlanError (Option ℕ)
parse_trunk_cache_request (int v) = non_negative v
parse_trunk_cache_request (str value) =
    let raw = lower (strip value) in
    if list_eq raw auto_text then ok none else parsed_request (parse_int raw)

pub record Breakdown : Type 0 where
  pub global_bf16 : ℕ
  pub compressed_state : ℕ
  pub sequence_workspace : ℕ
  pub streaming_mla_workspace : ℕ
  pub expert_cache : ℕ
  pub trunk_cache : ℕ
  pub peak_layer_bf16 : ℕ
  pub misc_safety : ℕ
  pub total : ℕ

-- `sum(parts.values())`, before the total is added to the parts.
abbrev pub sum_of_parts : Breakdown → ℕ
sum_of_parts b =
    b.global_bf16 + b.compressed_state + b.sequence_workspace + b.streaming_mla_workspace
    + b.expert_cache + b.trunk_cache + b.peak_layer_bf16 + b.misc_safety

abbrev with_total : Breakdown → Breakdown
with_total b = record b { total = sum_of_parts b }

abbrev pub breakdown : ℕ → ℕ → ℕ → ℕ → Breakdown
breakdown prompt_tokens max_new cache_mib trunk_cache_mib = with_total (record {
  global_bf16 = global_bf16_bytes;
  compressed_state = layers * (prompt_tokens + max_new) * kv_latent_plus_rope * fp32_bytes;
  sequence_workspace = layer_major_prompt_buffers * prompt_tokens * hidden * fp32_bytes;
  streaming_mla_workspace =
      prompt_tokens * (kv_latent_plus_rope + qk_nope + value_head + 1) * fp32_bytes
      + ((qk_nope + qk_rope) * fp32_bytes
          + (kv_latent + qk_rope) * fp32_bytes
          + (qk_nope + value_head) * fp32_bytes
          + qk_rope * fp32_bytes
          + heads * value_head * fp32_bytes
          + value_head * 8);
  expert_cache = cache_mib * mib;
  trunk_cache = trunk_cache_mib * mib;
  peak_layer_bf16 = peak_layer_bf16_bytes;
  misc_safety = runtime_misc_safety;
  total = 0;
})

-- A negative number fails the guard too.
unfoldable pub planned_text_breakdown : ℤ → ℤ → ℤ → ℤ → Result PlanError Breakdown
planned_text_breakdown (pos prompt) (pos new) (pos cache) (pos trunk) =
    if prompt == 0 || (new == 0 || cache == 0)
    then err not_positive
    else ok (breakdown prompt new cache trunk)
planned_text_breakdown _ _ _ _ = err not_positive

-- The room that the base plan leaves; `-` on ℕ stops at 0, where the code tests `available <= 0`.
abbrev pub auto_budget : ℕ → Breakdown → ℕ
auto_budget ram base =
    if leb (ram * mib) base.total
    then 0
    else min full_trunk_cache_mib ((ram * mib - base.total) / mib)

abbrev resolve_parsed : ℤ → ℤ → ℤ → ℕ → Option ℕ → Result PlanError ℕ
resolve_parsed prompt new cache ram (some v) = ok v
resolve_parsed prompt new cache ram none = do
  base ← planned_text_breakdown prompt new cache (pos 0)
  ok (auto_budget ram base)

unfoldable pub resolve_trunk_cache_mib : ℤ → ℤ → ℤ → ℤ → CacheRequest → Result PlanError ℕ
resolve_trunk_cache_mib prompt new cache (pos (suc ram)) requested = do
  parsed ← parse_trunk_cache_request requested
  resolve_parsed prompt new cache (suc ram) parsed
resolve_trunk_cache_mib prompt new cache _ requested = err ram_not_positive

unfoldable pub planned_text_bytes : ℤ → ℤ → ℤ → ℤ → Result PlanError ℕ
planned_text_bytes prompt new cache trunk = do
  plan ← planned_text_breakdown prompt new cache trunk
  ok plan.total

-- The fields of `KimiRuntime` that its plan reads. The constructor demands positive sizes.
pub record Runtime : Type 0 where
  pub cache_mib : ℕ
  pub ram_mib : ℕ
  pub trunk_cache_request : CacheRequest

abbrev within_budget : ℕ → ℕ → Breakdown → Result PlanError (ℕ × Breakdown)
within_budget ram trunk plan =
    if ltb (ram * mib) plan.total then err over_budget else ok (trunk, plan)

-- `KimiRuntime._plan`
unfoldable pub plan_request : Runtime → ℕ → ℤ → Result PlanError (ℕ × Breakdown)
plan_request r prompt (pos (suc new)) = do
  trunk ←
      resolve_trunk_cache_mib (pos prompt) (pos (suc new)) (pos r.cache_mib) (pos r.ram_mib)
        r.trunk_cache_request
  plan ← planned_text_breakdown (pos prompt) (pos (suc new)) (pos r.cache_mib) (pos trunk)
  within_budget r.ram_mib trunk plan
plan_request r prompt _ = err max_tokens_not_positive
