-- ===== src/Tile/Shape.antt =====
-- The rows of a plane, and the left-pixel residuals of a tile.

use omnidesk.Prelude.{
  ℕ, zero, suc, ◌*◌, ◌≡◌, refl, sym, ap, ◌∙◌, List, [], ◌∷◌, ◌++◌, arith, All, length, take, drop,
  take-append, drop-append, length-take, length-drop,
}
use omnidesk.Bytes.{IsU16}
use omnidesk.Predict.{
  predict_row, predict_rows, predict_left_pixel, inverse_predict_left_pixel, first_or,
}
use omnidesk.Predict.Inverse.{IsPlane, predict_left_pixel_lem}
use omnidesk.Tile.Samples.{rows, flat, flat-rows}
use omnidesk.Tile.Select.{left_residual}

module _ {ℓ} {A : Type ℓ} (P : A → Type 0) where
  pub All-take : (n : ℕ) (xs : List A) → All P xs → All P (take n xs)
  All-take zero xs a = tt
  All-take (suc n) [] a = tt
  All-take (suc n) (x ∷ xs) (p, a) = (p, All-take n xs a)

  pub All-drop : (n : ℕ) (xs : List A) → All P xs → All P (drop n xs)
  All-drop zero xs a = a
  All-drop (suc n) [] a = tt
  All-drop (suc n) (x ∷ xs) (p, a) = All-drop n xs a

abbrev pub Shape : ℕ → ℕ → List (List ℕ) → Type 0
Shape w h rs = (length rs ≡ h) × All (λ row. length row ≡ w) rs

pub rows-flat :
    (w : ℕ) (rs : List (List ℕ))
    → All (λ row. length row ≡ w) rs
    → rows w (length rs) (flat rs) ≡ rs
unfolding rows flat
rows-flat w [] a = refl
rows-flat w (r ∷ rs) (e, a) =
    let first : take w (r ++ flat rs) ≡ r =
      ap (λ (k : ℕ). take k (r ++ flat rs)) (sym e) ∙ take-append r (flat rs) in
    let others : drop w (r ++ flat rs) ≡ flat rs =
      ap (λ (k : ℕ). drop k (r ++ flat rs)) (sym e) ∙ drop-append r (flat rs) in
    rw (first, others, rows-flat w rs a) refl

pub rows-Shape : (w h : ℕ) (plane : List ℕ) → length plane ≡ h * w → Shape w h (rows w h plane)
unfolding rows
rows-Shape w zero plane e = (refl, tt)
rows-Shape w (suc h) plane e =
    let (n, a) = rows-Shape w h (drop w plane) (omega (arith, length-drop w plane)) in
    (ap suc n, (omega (arith, length-take w plane), a))

pub rows-IsPlane : (w h : ℕ) (plane : List ℕ) → All IsU16 plane → IsPlane (rows w h plane)
unfolding rows
rows-IsPlane w zero plane a = tt
rows-IsPlane w (suc h) plane a =
    (All-take IsU16 w plane a, rows-IsPlane w h (drop w plane) (All-drop IsU16 w plane a))

pub length-predict_row : (p : ℕ) (row : List ℕ) → length (predict_row p row) ≡ length row
unfolding predict_row
length-predict_row p [] = refl
length-predict_row p (v ∷ row) = ap suc (length-predict_row v row)

pub predict_rows-Shape :
    (w p : ℕ) (rs : List (List ℕ))
    → All (λ row. length row ≡ w) rs
    → Shape w (length rs) (predict_rows p rs)
unfolding predict_rows
predict_rows-Shape w p [] a = (refl, tt)
predict_rows-Shape w p (r ∷ rs) (e, a) =
    let (n, b) = predict_rows-Shape w (first_or p r) rs a in
    (ap suc n, (length-predict_row p r ∙ e, b))

pub left_residual_undo :
    (w h : ℕ) (src : List ℕ)
    → length src ≡ h * w
    → All IsU16 src
    → flat (inverse_predict_left_pixel (rows w h (left_residual src w h))) ≡ src
unfolding left_residual predict_left_pixel
left_residual_undo w h src e a =
    let (n, s) = rows-Shape w h src e in
    let (n', s') = predict_rows-Shape w 0 (rows w h src) s in
    let same : rows w h (flat (predict_left_pixel (rows w h src)))
        ≡ predict_left_pixel (rows w h src) =
      ap (λ (k : ℕ). rows w k (flat (predict_left_pixel (rows w h src)))) (sym (n' ∙ n))
      ∙ rows-flat w (predict_left_pixel (rows w h src)) s' in
    rw (same, (predict_left_pixel_lem (rows w h src) (rows-IsPlane w h src a)).0)
      (flat-rows w h src e)
