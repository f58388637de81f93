-- ===== src/MemoryPlan/Tests.antt =====
-- A request of 100 prompt tokens on a machine of 8 GiB.
use in_c_test.Prelude.{ℕ, list_eq, ◌≤◌, ◌≡◌, ◌↔◌, refl, min, [], ◌∷◌, none, ok}
use in_c_test.Prelude.Int.{pos}
use in_c_test.Text.{lower, strip}
use in_c_test.Text.Print.{show}
use in_c_test.MemoryPlan.{
  CacheRequest, int, str, Breakdown, Runtime, breakdown, full_trunk_cache_mib,
  parse_trunk_cache_request, planned_text_breakdown, resolve_trunk_cache_mib, plan_request,
}
use in_c_test.MemoryPlan.Budget.{plan_request_auto}
use in_c_test.MemoryPlan.Grants.{ram_plan, Grants, plan_request-Grants}
use in_c_test.MemoryPlan.Request.{parse_trunk_cache_request-show}

abbrev laptop : CacheRequest → Runtime
laptop request = record { cache_mib = 1024; ram_mib = 8192; trunk_cache_request = request }

abbrev auto_request : CacheRequest
auto_request = str (b' ' ∷ b'A' ∷ b'u' ∷ b't' ∷ b'o' ∷ [])

is_auto : parse_trunk_cache_request auto_request ≡ ok none
unfolding parse_trunk_cache_request list_eq lower strip
is_auto = refl

planned : plan_request (laptop (int (pos 512))) 100 (pos 20) ≡ ok (512, breakdown 100 20 1024 512)
unfolding plan_request resolve_trunk_cache_mib parse_trunk_cache_request planned_text_breakdown
planned = refl

plan_request-Grants_example :
    (plan_request (laptop (int (pos 512))) 100 (pos 20) ≡ ok (512, ram_plan 100 20 1024 512)) ↔ (
      Grants (laptop (int (pos 512))) 100 20 512
      × (ram_plan 100 20 1024 512 ≡ ram_plan 100 20 1024 512))
plan_request-Grants_example =
    plan_request-Grants (laptop (int (pos 512))) 100 20 512 (ram_plan 100 20 1024 512)

plan_request_auto_example :
    (auto : ℕ) × (best : Breakdown) × (plan_request (laptop auto_request) 100 (pos 20)
      ≡ ok (auto, best))
    × (min 512 full_trunk_cache_mib ≤ auto)
plan_request_auto_example =
    plan_request_auto (laptop auto_request) 100 (pos 20) 512 512 (breakdown 100 20 1024 512) is_auto
      planned

parse_trunk_cache_request-show_example :
    parse_trunk_cache_request (str (show 1706)) ≡ parse_trunk_cache_request (int (pos 1706))
parse_trunk_cache_request-show_example = parse_trunk_cache_request-show 1706
