-- ===== src/Examples/Measuring.antt =====
-- Tests of Measured, on the recorded logs.
use share_compute.Prelude.{Bool, true, false, List, [], ◌∷◌, ◌++◌, all, ◌≡◌, refl, arith}
use share_compute.Measured.{Row, full_row, window}
use share_compute.Measured.Windows.{Grows, grows, grows-Grows}
use share_compute.Measured.Lookup.{Splits}
use share_compute.Measured.Measures.{Measures, window-Measures}
use share_compute.Measured.Logs.LayerHalf1.{layer_half_1}
use share_compute.Measured.Logs.LayerHalf2.{layer_half_2}
use share_compute.Measured.Logs.LayerHalf3.{layer_half_3}
use share_compute.Measured.Logs.TensorHalf1.{tensor_half_1_part_1, tensor_half_1_part_2}
use share_compute.Measured.Logs.TensorHalf2.{tensor_half_2_part_1, tensor_half_2_part_2}
use share_compute.Measured.Logs.TensorHalf3.{tensor_half_3_part_1, tensor_half_3_part_2}
use share_compute.Measured.Logs.FirstLayer1.{first_layer_1}
use share_compute.Measured.Logs.FirstLayer2.{first_layer_2}
use share_compute.Measured.Logs.FirstLayer3.{first_layer_3}
use share_compute.Measured.Logs.FirstTensor1.{first_tensor_1_part_1, first_tensor_1_part_2}
use share_compute.Measured.Logs.FirstTensor2.{first_tensor_2_part_1, first_tensor_2_part_2}
use share_compute.Measured.Logs.FirstTensor3.{first_tensor_3_part_1, first_tensor_3_part_2}
use share_compute.Measured.Logs.LargeTensor1A.{large_tensor_1_part_1}
use share_compute.Measured.Logs.LargeTensor1B.{large_tensor_1_part_2}
use share_compute.Measured.Logs.LargeTensor1C.{large_tensor_1_part_3}

abbrev log_grows : List Row → Bool
log_grows [] = false
log_grows (r ∷ rows) = grows r rows

abbrev logs : List (List Row)
logs =
    layer_half_1
    ∷ layer_half_2
    ∷ layer_half_3
    ∷ (tensor_half_1_part_1 ++ tensor_half_1_part_2)
    ∷ (tensor_half_2_part_1 ++ tensor_half_2_part_2)
    ∷ (tensor_half_3_part_1 ++ tensor_half_3_part_2)
    ∷ first_layer_1
    ∷ first_layer_2
    ∷ first_layer_3
    ∷ (first_tensor_1_part_1 ++ first_tensor_1_part_2)
    ∷ (first_tensor_2_part_1 ++ first_tensor_2_part_2)
    ∷ (first_tensor_3_part_1 ++ first_tensor_3_part_2)
    ∷ (large_tensor_1_part_1 ++ large_tensor_1_part_2 ++ large_tensor_1_part_3)
    ∷ []

-- Every recorded log is in order, and its counters never fall.
logs_grow : all log_grows logs ≡ true
logs_grow = refl

abbrev tail_of : List Row → List Row
tail_of [] = []
tail_of (r ∷ rows) = rows

abbrev first_row : Row
first_row = full_row 1791990363550 0 0 0 0

abbrev later_rows : List Row
later_rows = tail_of layer_half_1

rows_grow : Grows first_row later_rows
rows_grow = grows-Grows first_row later_rows refl

window-Measures_example :
    (a b : Row) × Splits 1791990364000 layer_half_1 a
    × Splits 1791990369000 layer_half_1 b
    × Measures (window layer_half_1 1791990364000 1791990369000) a b
window-Measures_example =
    window-Measures first_row later_rows 1791990364000 1791990369000 rows_grow (omega arith)
      (omega arith)
