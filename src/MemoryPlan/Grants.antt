-- ===== src/MemoryPlan/Grants.antt =====
-- Which requests a runtime grants, in numbers of bytes.
use in_c_test.Prelude.{
  ℕ, zero, suc, ◌+◌, ◌*◌, ◌≤◌, ◌<◌, ◌≡◌, refl, sym, ap, subst, ◌∙◌, ◌⊎◌, inl, inr, ◌↔◌, Option,
  none, some, ok, >>=-eq-ok, ok-injective, arith,
}
use in_c_test.Prelude.Int.{pos}
use in_c_test.MemoryPlan.{
  mib, CacheRequest, Breakdown, Runtime, breakdown, auto_budget, parse_trunk_cache_request,
  resolve_parsed, resolve_trunk_cache_mib, plan_request,
}
use in_c_test.MemoryPlan.Budget.{
  Accepted, accepted, accept, positive, planned_ok, resolved, auto_room, auto_max,
}

-- The bytes of a generation, as a number for each of its sizes: 90116 for a token of the prompt, 62208
-- for a new one, 1 MiB for one of either cache, and 1540 MiB and a bit for what does not depend on them.
abbrev pub ram_need : (prompt new cache_mib trunk_mib : ℕ) → ℕ
ram_need prompt new cache_mib trunk_mib =
    1614824704 + 90116 * prompt + 62208 * new + 1048576 * (cache_mib + trunk_mib)

-- The plan, part by part.
abbrev pub ram_plan : (prompt new cache_mib trunk_mib : ℕ) → Breakdown
ram_plan prompt new cache_mib trunk_mib = record {
  global_bf16 = 1342181376;
  compressed_state = 62208 * prompt + 62208 * new;
  sequence_workspace = 24576 * prompt;
  streaming_mla_workspace = 3332 * prompt + 13568;
  expert_cache = 1048576 * cache_mib;
  trunk_cache = 1048576 * trunk_mib;
  peak_layer_bf16 = 138412032;
  misc_safety = 134217728;
  total = ram_need prompt new cache_mib trunk_mib;
}

-- The most MiB, up to the whole trunk, that fit.
abbrev pub Most : (r : Runtime) (prompt new trunk : ℕ) → Type 0
Most r prompt new trunk =
    (trunk ≤ 1706)
    × ((more : ℕ)
        → more ≤ 1706
        → ram_need prompt new r.cache_mib more ≤ 1048576 * r.ram_mib
        → more ≤ trunk)

-- The sizes are positive, the bytes fit, and the trunk cache is the one asked for: the explicit one, or
-- for 'auto' the largest that fits.
pub record Grants (r : Runtime) (prompt new trunk : ℕ) : Type 0 where
  pub some_prompt : 0 < prompt
  pub some_new : 0 < new
  pub some_cache : 0 < r.cache_mib
  pub some_ram : 0 < r.ram_mib
  pub fits : ram_need prompt new r.cache_mib trunk ≤ 1048576 * r.ram_mib
  pub asked :
      (parse_trunk_cache_request r.trunk_cache_request ≡ ok (some trunk))
      ⊎ ((parse_trunk_cache_request r.trunk_cache_request ≡ ok none) × Most r prompt new trunk)

total_lem : (p n c t : ℕ) → (breakdown p n c t).total ≡ ram_need p n c t
total_lem p n c t = omega arith

breakdown_lem : (p n c t : ℕ) → breakdown p n c t ≡ ram_plan p n c t
breakdown_lem p n c t =
    let state : (breakdown p n c t).compressed_state ≡ (ram_plan p n c t).compressed_state =
      omega arith in
    let rows : (breakdown p n c t).sequence_workspace ≡ (ram_plan p n c t).sequence_workspace =
      omega arith in
    let mla : (breakdown p n c t).streaming_mla_workspace
        ≡ (ram_plan p n c t).streaming_mla_workspace =
      omega arith in
    let experts : c * mib ≡ 1048576 * c = omega arith in
    let trunk : t * mib ≡ 1048576 * t = omega arith in
    λ i. record {
      global_bf16 = 1342181376;
      compressed_state = state i;
      sequence_workspace = rows i;
      streaming_mla_workspace = mla i;
      expert_cache = experts i;
      trunk_cache = trunk i;
      peak_layer_bf16 = 138412032;
      misc_safety = 134217728;
      total = total_lem p n c t i;
    }

-- The two ways to resolve a request.
explicit_or_auto :
    (p n c ram t : ℕ) (o : Option ℕ)
    → resolve_parsed (pos p) (pos n) (pos c) ram o ≡ ok t
    → 0 < p
    → 0 < n
    → 0 < c
    → (o ≡ some t) ⊎ ((o ≡ none) × (t ≡ auto_budget ram (breakdown p n c 0)))
explicit_or_auto p n c ram t (some v) h hp hn hc = inl (ap some (ok-injective h))
explicit_or_auto p n c ram t none h hp hn hc =
    inr (refl, sym (ok-injective (rw (planned_ok p n c 0 hp hn hc) at h)))

asked_for :
    (p n c ram t : ℕ) (req : CacheRequest)
    → resolve_trunk_cache_mib (pos p) (pos n) (pos c) (pos ram) req ≡ ok t
    → 0 < p
    → 0 < n
    → 0 < c
    → (0 < ram)
      × ((parse_trunk_cache_request req ≡ ok (some t))
          ⊎ ((parse_trunk_cache_request req ≡ ok none) × (t ≡ auto_budget ram (breakdown p n c 0))))
unfolding resolve_trunk_cache_mib
asked_for p n c zero t req h hp hn hc = absurd (ground arith)
asked_for p n c (suc ram) t req h hp hn hc =
    let (o, e, h') = >>=-eq-ok (parse_trunk_cache_request req) _ h in
    (
      omega arith,
      elim (explicit_or_auto p n c (suc ram) t o h' hp hn hc) [
        | inl same ↦ inl (e ∙ ap ok same)
        | inr (none_asked, same) ↦ inr (e ∙ ap ok none_asked, same)
      ],
    )

-- The automatic budget is the most that fits, if any does.
auto-Most :
    (r : Runtime) (p n t : ℕ)
    → t ≡ auto_budget r.ram_mib (breakdown p n r.cache_mib 0)
    → Most r p n t
auto-Most r p n t e = (
  ground (arith, e),
  λ more small fits.
      let best = auto_max r.ram_mib more (breakdown p n r.cache_mib 0) (omega arith) in
      omega (arith, e, best),
)

Most-auto :
    (r : Runtime) (p n t : ℕ)
    → ram_need p n r.cache_mib t ≤ 1048576 * r.ram_mib
    → Most r p n t
    → auto_budget r.ram_mib (breakdown p n r.cache_mib 0) ≡ t
Most-auto r p n t fits (small, best) =
    let base = breakdown p n r.cache_mib 0 in
    let small_auto : auto_budget r.ram_mib base ≤ 1706 = ground arith in
    let room = auto_room r.ram_mib base (omega arith) in
    let below = auto_max r.ram_mib t base (omega arith) in
    let above = best (auto_budget r.ram_mib base) small_auto (omega (arith, room)) in
    omega (arith, below, above)

Accepted-Grants :
    (r : Runtime) (p n t : ℕ) (plan : Breakdown)
    → Accepted r p n t plan
    → 0 < n
    → Grants r p n t × (plan ≡ ram_plan p n r.cache_mib t)
Accepted-Grants r p n t plan a hn =
    let (hp, hc, e) = positive p n r.cache_mib t a.planned in
    let (hr, asks) =
      asked_for p n r.cache_mib r.ram_mib t r.trunk_cache_request a.resolved hp hn hc in
    let sum = ap (λ (b : Breakdown). b.total) e ∙ total_lem p n r.cache_mib t in
    (
      record {
        some_prompt = hp;
        some_new = hn;
        some_cache = hc;
        some_ram = hr;
        fits = omega (arith, sum, a.fits);
        asked = elim asks [
          | inl explicit ↦ inl explicit
          | inr (auto, same) ↦ inr (auto, auto-Most r p n t same)
        ];
      },
      e ∙ breakdown_lem p n r.cache_mib t,
    )

resolve_explicit :
    (p n c ram t : ℕ) (req : CacheRequest)
    → parse_trunk_cache_request req ≡ ok (some t)
    → 0 < ram
    → resolve_trunk_cache_mib (pos p) (pos n) (pos c) (pos ram) req ≡ ok t
unfolding resolve_trunk_cache_mib
resolve_explicit p n c zero t req e h = elim h [ ]
resolve_explicit p n c (suc ram) t req e h = rw e refl

Grants-Accepted :
    (r : Runtime) (p n t : ℕ) → Grants r p n t → Accepted r p n t (breakdown p n r.cache_mib t)
Grants-Accepted r p n t g = record {
  resolved = elim g.asked [
    | inl explicit ↦
        resolve_explicit p n r.cache_mib r.ram_mib t r.trunk_cache_request explicit g.some_ram
    | inr (auto, most) ↦
        resolved p n r.cache_mib r.ram_mib _ auto g.some_prompt g.some_new g.some_cache g.some_ram
        ∙ ap ok (Most-auto r p n t g.fits most)
  ];
  planned = planned_ok p n r.cache_mib t g.some_prompt g.some_new g.some_cache;
  fits = omega (arith, total_lem p n r.cache_mib t, g.fits);
}

-- A request is accepted with a trunk cache of `trunk` MiB exactly where all sizes are positive, the
-- bytes it needs fit the RAM of the runtime, and `trunk` is what was asked for: the explicit number or,
-- for 'auto', the largest up to 1706 that fits. Its plan is then `ram_plan`, part by part.
pub plan_request-Grants :
    (r : Runtime) (prompt new trunk : ℕ) (plan : Breakdown)
    → (plan_request r prompt (pos new) ≡ ok (trunk, plan))
      ↔ (Grants r prompt new trunk × (plan ≡ ram_plan prompt new r.cache_mib trunk))
plan_request-Grants r p zero t plan =
    (λ h. unfold plan_request in absurd (ground arith), λ g. elim g.0.some_new [ ])
plan_request-Grants r p (suc n) t plan = (
  λ h. Accepted-Grants r p (suc n) t plan (accepted r p n t plan h) (omega arith),
  λ (g, e). accept r p n t plan (
      subst (Accepted r p (suc n) t) (breakdown_lem p (suc n) r.cache_mib t ∙ sym e)
        (Grants-Accepted r p (suc n) t g)),
)
