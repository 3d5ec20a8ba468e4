-- ===== src/Predict.antt =====
-- Prediction from the pixel to the left, or above in the first column: predictLeftPixel and
-- inversePredictLeftPixel of src/core/simd_predict.cpp. A plane is the list of its rows; a value is
-- the 16 bits of its int16_t, so sums and differences wrap.
pub mod Inverse
mod Examples
use omnidesk.Prelude.{ℕ, ◌+◌, ◌-◌, ◌%◌, ◌^◌, List, [], ◌∷◌}

-- `predicted` is the value to the left, and at the start the one above, or 0.
unfoldable pub predict_row : ℕ → List ℕ → List ℕ
predict_row predicted [] = []
predict_row predicted (v ∷ row) = (v + 2 ^ 16 - predicted) % 2 ^ 16 ∷ predict_row v row

-- What stands above the next row's first column.
abbrev pub first_or : ℕ → List ℕ → ℕ
first_or above [] = above
first_or above (v ∷ row) = v

unfoldable pub predict_rows : ℕ → List (List ℕ) → List (List ℕ)
unfolding predict_row
predict_rows above [] = []
predict_rows above (row ∷ rows) = predict_row above row ∷ predict_rows (first_or above row) rows

unfoldable pub predict_left_pixel : List (List ℕ) → List (List ℕ)
unfolding predict_rows
predict_left_pixel src = predict_rows 0 src

unfoldable pub inverse_row : ℕ → List ℕ → List ℕ
inverse_row predicted [] = []
inverse_row predicted (d ∷ row) =
    (d + predicted) % 2 ^ 16 ∷ inverse_row ((d + predicted) % 2 ^ 16) row

unfoldable pub inverse_rows : ℕ → List (List ℕ) → List (List ℕ)
unfolding inverse_row
inverse_rows above [] = []
inverse_rows above (row ∷ rows) =
    inverse_row above row ∷ inverse_rows (first_or above (inverse_row above row)) rows

unfoldable pub inverse_predict_left_pixel : List (List ℕ) → List (List ℕ)
unfolding inverse_rows
inverse_predict_left_pixel residual = inverse_rows 0 residual
