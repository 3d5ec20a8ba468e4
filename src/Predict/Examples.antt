-- ===== src/Predict/Examples.antt =====
-- Two rows of three values, one of them negative.
use omnidesk.Prelude.{ℕ, ◌≡◌, List, [], ◌∷◌, arith}
use omnidesk.Predict.{predict_left_pixel, inverse_predict_left_pixel}
use omnidesk.Predict.Inverse.{predict_left_pixel_lem}

abbrev plane : List (List ℕ)
plane = (5 ∷ 65535 ∷ 7 ∷ []) ∷ (0 ∷ 300 ∷ 2 ∷ []) ∷ []

predict_left_pixel_lem_example :
    (inverse_predict_left_pixel (predict_left_pixel plane) ≡ plane)
    × (predict_left_pixel (inverse_predict_left_pixel plane) ≡ plane)
predict_left_pixel_lem_example = predict_left_pixel_lem plane (omega arith)
