-- ===== src/Predict/Inverse.antt =====
-- The residuals give the plane back, and every residual plane comes from one.
use omnidesk.Prelude.{ℕ, ◌+◌, ◌-◌, ◌%◌, ◌^◌, ◌≡◌, refl, List, [], ◌∷◌, arith, All}
use omnidesk.Bytes.{IsU16}
use omnidesk.Predict.{
  predict_row, predict_rows, predict_left_pixel, first_or, inverse_row, inverse_rows,
  inverse_predict_left_pixel,
}

abbrev pub IsPlane : List (List ℕ) → Type 0
IsPlane rows = All (λ row. All IsU16 row) rows

undo : (v p : ℕ) → IsU16 v → IsU16 p → ((v + 2 ^ 16 - p) % 2 ^ 16 + p) % 2 ^ 16 ≡ v
undo v p h k = omega arith

redo : (d p : ℕ) → IsU16 d → IsU16 p → ((d + p) % 2 ^ 16 + 2 ^ 16 - p) % 2 ^ 16 ≡ d
redo d p h k = omega arith

inverse_row-predict :
    (p : ℕ) (row : List ℕ) → IsU16 p → All IsU16 row → inverse_row p (predict_row p row) ≡ row
unfolding inverse_row predict_row
inverse_row-predict p [] k h = refl
inverse_row-predict p (v ∷ row) k (h, hs) = rw (undo v p h k, inverse_row-predict v row h hs) refl

predict_row-inverse :
    (p : ℕ) (row : List ℕ) → IsU16 p → All IsU16 row → predict_row p (inverse_row p row) ≡ row
unfolding inverse_row predict_row
predict_row-inverse p [] k h = refl
predict_row-inverse p (d ∷ row) k (h, hs) =
    rw (redo d p h k, predict_row-inverse ((d + p) % 2 ^ 16) row (omega arith) hs) refl

first_or-IsU16 : (p : ℕ) (row : List ℕ) → IsU16 p → All IsU16 row → IsU16 (first_or p row)
first_or-IsU16 p [] k h = k
first_or-IsU16 p (v ∷ row) k (h, hs) = h

inverse_row-IsU16 : (p : ℕ) (row : List ℕ) → All IsU16 (inverse_row p row)
unfolding inverse_row
inverse_row-IsU16 p [] = tt
inverse_row-IsU16 p (d ∷ row) = (omega arith, inverse_row-IsU16 ((d + p) % 2 ^ 16) row)

inverse_rows-predict :
    (p : ℕ) (rows : List (List ℕ))
    → IsU16 p
    → IsPlane rows
    → inverse_rows p (predict_rows p rows) ≡ rows
unfolding inverse_rows predict_rows
inverse_rows-predict p [] k h = refl
inverse_rows-predict p (row ∷ rows) k (h, hs) =
    rw
      (
        inverse_row-predict p row k h,
        inverse_rows-predict (first_or p row) rows (first_or-IsU16 p row k h) hs,
      )
      refl

predict_rows-inverse :
    (p : ℕ) (rows : List (List ℕ))
    → IsU16 p
    → IsPlane rows
    → predict_rows p (inverse_rows p rows) ≡ rows
unfolding inverse_rows predict_rows
predict_rows-inverse p [] k h = refl
predict_rows-inverse p (row ∷ rows) k (h, hs) =
    rw
      (
        predict_row-inverse p row k h,
        predict_rows-inverse (first_or p (inverse_row p row)) rows
            (first_or-IsU16 p (inverse_row p row) k (inverse_row-IsU16 p row)) hs,
      )
      refl

-- On planes of 16-bit values, prediction and its inverse undo each other, in both orders.
pub predict_left_pixel_lem :
    (rows : List (List ℕ))
    → IsPlane rows
    → (inverse_predict_left_pixel (predict_left_pixel rows) ≡ rows)
      × (predict_left_pixel (inverse_predict_left_pixel rows) ≡ rows)
unfolding predict_left_pixel inverse_predict_left_pixel
predict_left_pixel_lem rows h =
    (inverse_rows-predict 0 rows (omega arith) h, predict_rows-inverse 0 rows (omega arith) h)
