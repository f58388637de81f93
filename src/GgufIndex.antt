-- ===== src/GgufIndex.antt =====
-- The sidecar index of experts in a GGUF file, tools/index_kimi_gguf_q8.py. The tensors are what the
-- package `gguf` reads.
pub mod Layout
pub mod Order
mod Tests
use in_c_test.Prelude.{
  ℕ, zero, suc, ◌+◌, ◌-◌, ◌*◌, ◌/◌, ◌%◌, Bool, not, ◌&&◌, Option, none, some, List, [], ◌∷◌, ◌++◌,
  Result, ok, err, ◌>>=◌, ◌>>◌, guard, ◌==◌, length, min,
}

abbrev pub page : ℕ
page = 4096

-- What is read of a tensor: whether its type is Q8_0, its size, place and shape.
pub record Tensor : Type 0 where
  pub is_q8_0 : Bool
  pub n_bytes : ℕ
  pub data_offset : ℕ
  pub shape : List ℕ

pub data IndexError : Type 0 where
  not_q8_0 not_divisible not_outer_axis missing_tensor : IndexError

abbrev pub align_down : ℕ → ℕ
align_down x = x / page * page

abbrev pub align_up : ℕ → ℕ
align_up x = (x + page - 1) / page * page

-- The place of an expert's slice in the file: `src` and `read` are the page-aligned read, `sub` the
-- slice's place in it.
pub record Part : Type 0 where
  pub raw : ℕ
  pub src : ℕ
  pub sub : ℕ
  pub read : ℕ
  pub bytes : ℕ

-- Three axes, the first of them the experts.
abbrev pub expert_is_outer : List ℕ → ℕ → Bool
expert_is_outer (a ∷ b ∷ c ∷ []) n = a == n
expert_is_outer _ n = Bool.false

abbrev pub part_at : (raw bytes : ℕ) → Part
part_at raw bytes = record {
  raw = raw;
  src = align_down raw;
  sub = raw - align_down raw;
  read = align_up (raw - align_down raw + bytes);
  bytes = bytes;
}

unfoldable pub part_info : Tensor → (expert n_experts : ℕ) → Result IndexError Part
part_info t expert n_experts = do
  guard t.is_q8_0 not_q8_0
  guard (t.n_bytes % n_experts == 0) not_divisible
  guard (expert_is_outer t.shape n_experts) not_outer_axis
  let slice_bytes = t.n_bytes / n_experts
  ok (part_at (t.data_offset + expert * slice_bytes) slice_bytes)

-- The three parts of an expert.
pub record Parts : Type 0 where
  pub gate : Part
  pub up : Part
  pub down : Part

-- `dst_start` of the parts, and `dst` behind the last one
abbrev pub start_gate : Parts → ℕ
start_gate p = align_up 0

abbrev pub start_up : Parts → ℕ
start_up p = align_up (start_gate p + p.gate.read)

abbrev pub start_down : Parts → ℕ
start_down p = align_up (start_up p + p.up.read)

pub record IndexRecord : Type 0 where
  pub layer : ℕ
  pub expert : ℕ
  pub file_sort : ℕ
  pub read_bytes : ℕ
  pub payload_bytes : ℕ
  pub gate_off : ℕ
  pub gate_bytes : ℕ
  pub up_off : ℕ
  pub up_bytes : ℕ
  pub down_off : ℕ
  pub down_bytes : ℕ

abbrev pub record_of : (layer expert : ℕ) → Parts → IndexRecord
record_of layer expert p = record {
  layer = layer;
  expert = expert;
  file_sort = min p.gate.src (min p.up.src p.down.src);
  read_bytes = start_down p + p.down.read;
  payload_bytes = p.gate.bytes + p.up.bytes + p.down.bytes;
  gate_off = start_gate p + p.gate.sub;
  gate_bytes = p.gate.bytes;
  up_off = start_up p + p.up.sub;
  up_bytes = p.up.bytes;
  down_off = start_down p + p.down.sub;
  down_bytes = p.down.bytes;
}

-- One positioned read: from the file, how much, and to which place of the slot.
pub record Move : Type 0 where
  pub src : ℕ
  pub read : ℕ
  pub dst : ℕ

abbrev pub moves_of : Parts → List Move
moves_of p =
    record { src = p.gate.src; read = p.gate.read; dst = start_gate p }
    ∷ record { src = p.up.src; read = p.up.read; dst = start_up p }
    ∷ record { src = p.down.src; read = p.down.read; dst = start_down p }
    ∷ []

-- The tensors of a layer, which the tool has looked up by name.
pub record LayerTensors : Type 0 where
  pub gate_exps : Tensor
  pub up_exps : Tensor
  pub down_exps : Tensor

unfoldable pub parts_of : LayerTensors → (expert n_experts : ℕ) → Result IndexError Parts
unfolding part_info
parts_of t expert n_experts = do
  g ← part_info t.gate_exps expert n_experts
  u ← part_info t.up_exps expert n_experts
  d ← part_info t.down_exps expert n_experts
  ok (record { gate = g; up = u; down = d })

-- `for expert in range(n_experts)`, the last `count` of them
unfoldable pub layer_records :
    LayerTensors → (layer n_experts count : ℕ) → Result IndexError (List (IndexRecord × List Move))
unfolding parts_of
layer_records t layer n_experts zero = ok []
layer_records t layer n_experts (suc count) = do
  p ← parts_of t (n_experts - suc count) n_experts
  rest ← layer_records t layer n_experts count
  ok ((record_of layer (n_experts - suc count) p, moves_of p) ∷ rest)

unfoldable pub all_records :
    (layer n_experts : ℕ) → List LayerTensors → Result IndexError (List (IndexRecord × List Move))
unfolding layer_records
all_records layer n_experts [] = ok []
all_records layer n_experts (t ∷ ts) = do
  first ← layer_records t layer n_experts n_experts
  rest ← all_records (suc layer) n_experts ts
  ok (first ++ rest)
