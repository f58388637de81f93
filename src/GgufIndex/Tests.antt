-- ===== src/GgufIndex/Tests.antt =====
-- A layer of two experts in a small file.
use in_c_test.Prelude.{ℕ, ◌+◌, refl, true, List, [], ◌∷◌}
use in_c_test.GgufIndex.{
  Tensor, Parts, LayerTensors, IndexRecord, Move, part_at, part_info, parts_of, record_of, moves_of,
}
use in_c_test.GgufIndex.Layout.{Covers, Slot, part_info-Covers, parts_of-Slot}

abbrev tensor_at : ℕ → Tensor
tensor_at offset = record {
  is_q8_0 = true;
  n_bytes = 10000;
  data_offset = offset;
  shape = 2 ∷ 34 ∷ 4 ∷ [];
}

abbrev layer : LayerTensors
layer = record { gate_exps = tensor_at 100; up_exps = tensor_at 20000; down_exps = tensor_at 40000 }

abbrev parts_at : ℕ → Parts
parts_at n = record {
  gate = part_at (100 + n) 5000;
  up = part_at (20000 + n) 5000;
  down = part_at (40000 + n) 5000;
}

part_info-Covers_example : Covers (tensor_at 100) 1 2 (part_at 5100 5000)
part_info-Covers_example =
    part_info-Covers (tensor_at 100) 1 2 (part_at 5100 5000) (unfold part_info in refl)

parts_of-Slot_example : Slot 1 1 (parts_at 5000)
parts_of-Slot_example = parts_of-Slot layer 1 1 2 (parts_at 5000) (unfold parts_of in refl)

abbrev two_records : List (IndexRecord × List Move)
two_records =
    (record_of 1 0 (parts_at 0), moves_of (parts_at 0))
    ∷ (record_of 1 1 (parts_at 5000), moves_of (parts_at 5000))
    ∷ []
