-- ===== src/MemoryPlan/Budget.antt =====
-- The plan and the RAM budget.
use in_c_test.Prelude.{ℕ, zero, suc, ◌+◌, ◌*◌, ◌≤◌, ◌<◌, ◌≡◌, refl, ap, ◌∙◌, min, none, ok, arith}
use native.Mathlib.Nat.{le_trans, le-add_right}
use in_c_test.Prelude.Int.{ℤ, pos, negsuc}
use in_c_test.MemoryPlan.{
  CacheRequest, int, Breakdown, Runtime, mib, full_trunk_cache_mib, planned_text_breakdown,
  breakdown, auto_budget, parse_trunk_cache_request, resolve_trunk_cache_mib, plan_request,
}

pub planned_ok :
    (p n c t : ℕ)
    → 0 < p
    → 0 < n
    → 0 < c
    → planned_text_breakdown (pos p) (pos n) (pos c) (pos t) ≡ ok (breakdown p n c t)
unfolding planned_text_breakdown
planned_ok p n c t hp hn hc = ground arith

-- One more MiB of trunk cache costs one MiB of the plan.
pub breakdown_trunk :
    (p n c t : ℕ) → (breakdown p n c t).total ≡ (breakdown p n c 0).total + t * mib
breakdown_trunk p n c t = omega arith

-- What the base plan leaves of the budget holds the automatic trunk cache.
pub auto_room :
    (ram : ℕ) (base : Breakdown)
    → base.total ≤ ram * mib
    → base.total + auto_budget ram base * mib ≤ ram * mib
auto_room ram base h = ground arith

pub auto_max :
    (ram t : ℕ) (base : Breakdown)
    → base.total + t * mib ≤ ram * mib
    → min t full_trunk_cache_mib ≤ auto_budget ram base
auto_max ram t base h = ground arith

pub resolved :
    (p n c ram : ℕ) (req : CacheRequest)
    → parse_trunk_cache_request req ≡ ok none
    → 0 < p
    → 0 < n
    → 0 < c
    → 0 < ram
    → resolve_trunk_cache_mib (pos p) (pos n) (pos c) (pos ram) req
      ≡ ok (auto_budget ram (breakdown p n c 0))
unfolding resolve_trunk_cache_mib
resolved p n c zero req parsed hp hn hc hr = elim hr [ ]
resolved p n c (suc ram) req parsed hp hn hc hr = rw parsed (rw (planned_ok p n c 0 hp hn hc) refl)

pub positive :
    (p n c t : ℕ) {b : Breakdown}
    → planned_text_breakdown (pos p) (pos n) (pos c) (pos t) ≡ ok b
    → (0 < p) × (0 < c) × (b ≡ breakdown p n c t)
unfolding planned_text_breakdown
positive p n c t h = ground arith

-- What an accepted request went through.
pub record Accepted (r : Runtime) (p n t : ℕ) (plan : Breakdown) : Type 0 where
  pub resolved :
      resolve_trunk_cache_mib
        (pos p)
        (pos n)
        (pos r.cache_mib)
        (pos r.ram_mib)
        r.trunk_cache_request
      ≡ ok t
  pub planned : planned_text_breakdown (pos p) (pos n) (pos r.cache_mib) (pos t) ≡ ok plan
  pub fits : plan.total ≤ r.ram_mib * mib

pub accepted :
    (r : Runtime) (p n t : ℕ) (plan : Breakdown)
    → plan_request r p (pos (suc n)) ≡ ok (t, plan)
    → Accepted r p (suc n) t plan
unfolding plan_request
accepted r p n t plan h = ground arith

pub accept :
    (r : Runtime) (p n t : ℕ) (plan : Breakdown)
    → Accepted r p (suc n) t plan
    → plan_request r p (pos (suc n)) ≡ ok (t, plan)
unfolding plan_request
accept r p n t plan a = ground arith

fits_at :
    (total base t v ram : ℕ)
    → total ≡ base + t * mib
    → t ≡ v
    → total ≤ ram * mib
    → base + v * mib ≤ ram * mib
fits_at total base t v ram more same fits = omega arith

explicit_lem :
    (p n c ram v t : ℕ)
    → resolve_trunk_cache_mib (pos p) (pos n) (pos c) (pos ram) (int (pos v)) ≡ ok t
    → (0 < ram) × (t ≡ v)
unfolding resolve_trunk_cache_mib parse_trunk_cache_request
explicit_lem p n c zero v t h = ground arith
explicit_lem p n c (suc ram) v t h = ground arith

-- The automatic request is accepted wherever some explicit request of `v` MiB is, and its trunk
-- cache is at least that, up to the size of the whole trunk.
pub plan_request_auto :
    (r : Runtime) (prompt : ℕ) (new : ℤ) (v t : ℕ) (plan : Breakdown)
    → parse_trunk_cache_request r.trunk_cache_request ≡ ok none
    → plan_request (record r { trunk_cache_request = int (pos v) }) prompt new ≡ ok (t, plan)
    → (auto : ℕ) × (best : Breakdown) × (plan_request r prompt new ≡ ok (auto, best))
      × (min v full_trunk_cache_mib ≤ auto)
plan_request_auto r p (pos (suc n)) v t plan is_auto h =
    let a = accepted (record r { trunk_cache_request = int (pos v) }) p n t plan h in
    let (hr, same) = explicit_lem p (suc n) r.cache_mib r.ram_mib v t a.resolved in
    let (hp, hc, e) = positive p (suc n) r.cache_mib t a.planned in
    let base = breakdown p (suc n) r.cache_mib 0 in
    let auto = auto_budget r.ram_mib base in
    let best = breakdown p (suc n) r.cache_mib auto in
    let more : plan.total ≡ base.total + t * mib =
      ap (λ (b : Breakdown). b.total) e ∙ breakdown_trunk p (suc n) r.cache_mib t in
    let room = fits_at plan.total base.total t v r.ram_mib more same a.fits in
    (
      auto,
      best,
      accept r p n auto best (record {
        resolved = resolved p (suc n) r.cache_mib r.ram_mib _ is_auto hp (omega arith) hc hr;
        planned = planned_ok p (suc n) r.cache_mib auto hp (omega arith) hc;
        fits =
            rw (breakdown_trunk p (suc n) r.cache_mib auto)
              (auto_room r.ram_mib base (le_trans (le-add_right base.total (v * mib)) room));
      }),
      auto_max r.ram_mib v base room,
    )
plan_request_auto r p (pos zero) v t plan is_auto h = unfold plan_request in absurd (ground arith)
plan_request_auto r p (negsuc n) v t plan is_auto h = unfold plan_request in absurd (ground arith)
