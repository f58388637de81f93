-- ===== src/GgufIndex/Layout.antt =====
-- The slot of an expert: where its three parts are read to.
use in_c_test.Prelude.{
  ℕ, ◌+◌, ◌*◌, ◌/◌, ◌%◌, ◌≤◌, ◌<◌, ◌≡◌, refl, subst, ◌∙◌, ok, guard, >>=-eq-ok, ok-injective, ◌==◌,
  arith,
}
use in_c_test.GgufIndex.{
  page, Tensor, Part, Parts, part_info, parts_of, expert_is_outer, start_gate, start_up, start_down,
  record_of, LayerTensors, not_q8_0, not_divisible, not_outer_axis,
}

-- The read is of whole pages, from the page on in which the expert's slice starts, and holds the slice.
-- No shorter read of whole pages from there does, so it ends less than a page behind the slice.
pub record Covers (t : Tensor) (expert n_experts : ℕ) (p : Part) : Type 0 where
  pub slice : p.raw ≡ t.data_offset + expert * (t.n_bytes / n_experts)
  pub size : p.bytes ≡ t.n_bytes / n_experts
  pub place : p.src + p.sub ≡ p.raw
  pub src_aligned : p.src % page ≡ 0
  pub read_aligned : p.read % page ≡ 0
  pub inside : p.sub + p.bytes ≤ p.read
  pub first_page : (p.src ≤ p.raw) × (p.raw < p.src + page)
  pub last_page : p.src + p.read < p.raw + p.bytes + page
  pub least : (pages : ℕ) → p.raw + p.bytes ≤ p.src + pages * page → p.read ≤ pages * page

-- What part_info returns is a read of whole pages that holds the slice of the expert. It starts at the
-- page in which the slice starts, ends less than a page behind the slice, and no shorter read of whole
-- pages from there holds the slice.
pub part_info-Covers :
    (t : Tensor) (expert n_experts : ℕ) (p : Part)
    → part_info t expert n_experts ≡ ok p
    → Covers t expert n_experts p
unfolding part_info
part_info-Covers t expert n p h =
    let (_, _, h1) = >>=-eq-ok (guard t.is_q8_0 not_q8_0) _ h in
    let (_, _, h2) = >>=-eq-ok (guard (t.n_bytes % n == 0) not_divisible) _ h1 in
    let (_, _, h3) = >>=-eq-ok (guard (expert_is_outer t.shape n) not_outer_axis) _ h2 in
    let s = t.n_bytes / n in
    let raw = t.data_offset + expert * s in
    subst (Covers t expert n) (ok-injective h3) (record {
      slice = refl;
      size = refl;
      place = omega arith;
      src_aligned = omega arith;
      read_aligned = omega arith;
      inside = omega arith;
      first_page = (omega arith, omega arith);
      last_page = omega arith;
      least = λ pages h. omega arith;
    })

-- The three reads fill the slot page by page with no gap, each slice lies in its own read, and a byte
-- of it lands as far behind the offset of the record as it is behind the slice's start in the file.
pub record Slot (layer expert : ℕ) (p : Parts) : Type 0 where
  pub no_gap :
      (start_gate p ≡ 0) × (start_up p ≡ p.gate.read) × (start_down p ≡ start_up p + p.up.read)
  pub whole_pages : (record_of layer expert p).read_bytes % page ≡ 0
  pub gate_in : (record_of layer expert p).gate_off + p.gate.bytes ≤ start_up p
  pub up_in :
      (start_up p ≤ (record_of layer expert p).up_off)
      × ((record_of layer expert p).up_off + p.up.bytes ≤ start_down p)
  pub down_in :
      (start_down p ≤ (record_of layer expert p).down_off)
      × ((record_of layer expert p).down_off + p.down.bytes ≤ (record_of layer expert p).read_bytes)
  pub gate_lands : (record_of layer expert p).gate_off + p.gate.src ≡ start_gate p + p.gate.raw
  pub up_lands : (record_of layer expert p).up_off + p.up.src ≡ start_up p + p.up.raw
  pub down_lands : (record_of layer expert p).down_off + p.down.src ≡ start_down p + p.down.raw

laid_Slot :
    (t : LayerTensors) (layer expert n : ℕ) (p : Parts)
    → Covers t.gate_exps expert n p.gate
    → Covers t.up_exps expert n p.up
    → Covers t.down_exps expert n p.down
    → Slot layer expert p
laid_Slot t layer expert n p g u d =
    let up_at : start_up p ≡ p.gate.read = omega (arith, g.read_aligned) in
    let down_at : start_down p ≡ p.gate.read + p.up.read =
      omega (arith, g.read_aligned, u.read_aligned) in
    record {
      no_gap = (refl, up_at, down_at ∙ omega (arith, up_at));
      whole_pages = omega (arith, down_at, g.read_aligned, u.read_aligned, d.read_aligned);
      gate_in = omega (arith, up_at, g.inside);
      up_in = (omega arith, omega (arith, up_at, down_at, u.inside));
      down_in = (omega arith, omega (arith, d.inside));
      gate_lands = omega (arith, g.place);
      up_lands = omega (arith, u.place);
      down_lands = omega (arith, d.place);
    }

pub parts_of-Covers :
    (t : LayerTensors) (expert n_experts : ℕ) (p : Parts)
    → parts_of t expert n_experts ≡ ok p
    → Covers t.gate_exps expert n_experts p.gate
      × Covers t.up_exps expert n_experts p.up
      × Covers t.down_exps expert n_experts p.down
unfolding parts_of
parts_of-Covers t expert n p h =
    let (g, e1, h1) = >>=-eq-ok (part_info t.gate_exps expert n) _ h in
    let (u, e2, h2) = >>=-eq-ok (part_info t.up_exps expert n) _ h1 in
    let (d, e3, h3) = >>=-eq-ok (part_info t.down_exps expert n) _ h2 in
    subst
      (λ (q : Parts).
        Covers t.gate_exps expert n q.gate
        × Covers t.up_exps expert n q.up
        × Covers t.down_exps expert n q.down)
      (ok-injective h3)
      (
        part_info-Covers t.gate_exps expert n g e1,
        part_info-Covers t.up_exps expert n u e2,
        part_info-Covers t.down_exps expert n d e3,
      )

-- For every expert whose parts the tool finds: the three reads fill the slot page by page with no gap,
-- each slice lies in its own read, and its bytes land as far behind the offset of the record as they
-- are behind the start of the slice in the file.
pub parts_of-Slot :
    (t : LayerTensors) (layer expert n_experts : ℕ) (p : Parts)
    → parts_of t expert n_experts ≡ ok p
    → Slot layer expert p
parts_of-Slot t layer expert n p h =
    let (g, u, d) = parts_of-Covers t expert n p h in laid_Slot t layer expert n p g u d
