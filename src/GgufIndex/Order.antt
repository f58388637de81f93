-- ===== src/GgufIndex/Order.antt =====
-- The loops over layers and experts, by position.
use in_c_test.Prelude.{ℕ, ◌≡◌, some, List, get_elem?}
use in_c_test.GgufIndex.Layout.{Covers}
use in_c_test.GgufIndex.{Parts, IndexRecord, Move, record_of, moves_of, LayerTensors}

-- Entry `i` of the index has the numbers of the layer and the expert, and is made of the reads of this
-- expert's own slices of the three tensors of the layer.
pub record EntryAt (t : LayerTensors) (layer expert n : ℕ)
    (entries : List (IndexRecord × List Move)) (i : ℕ) : Type 0 where
  pub parts : Parts
  pub gate : Covers t.gate_exps expert n parts.gate
  pub up : Covers t.up_exps expert n parts.up
  pub down : Covers t.down_exps expert n parts.down
  pub entry : get_elem? entries i ≡ some (record_of layer expert parts, moves_of parts)
