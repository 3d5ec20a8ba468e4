-- ===== src/Tile/Undo.antt =====
-- Every mode of prediction can be undone.
use native.Mathlib.Nat.{mul_comm}
use omnidesk.Prelude.{
  ℕ, zero, suc, ◌+◌, ◌-◌, ◌*◌, ◌%◌, ◌^◌, ◌≤◌, ◌≡◌, refl, sym, ap, ◌∙◌, List, [], ◌∷◌, ◌++◌, arith,
  All, All-append, length, length-append, length-replicate,
}
use omnidesk.Bytes.{IsU16}
use omnidesk.Predict.{predict_row, predict_rows, predict_left_pixel, first_or}
use omnidesk.Predict.Inverse.{IsPlane}
use omnidesk.Tile.Samples.{sub_i16, add_i16, rows, flat}
use omnidesk.Tile.Modes.{
  Neighbours, raster_row, raster, predict_dc, predict_h, predict_v, predict_planar, dc_value,
  planar_at, border_at,
}
use omnidesk.Tile.Select.{
  PredMode, dc, horizontal, vertical, planar, left_pixel, reserved, left_residual, prediction,
  zip_i16, apply_prediction, inverse_prediction,
}
use omnidesk.Tile.Shape.{rows-Shape, predict_rows-Shape, left_residual_undo}

zip_undo :
    (src q t t' : List ℕ)
    → length src ≤ length q
    → All IsU16 src
    → zip_i16 add_i16 (zip_i16 sub_i16 src (q ++ t)) (q ++ t') ≡ src
unfolding zip_i16 add_i16 sub_i16
zip_undo [] q t t' h a = refl
zip_undo (v ∷ src) [] t t' h a = absurd (omega arith)
zip_undo (v ∷ src) (p ∷ q) t t' h (k, a) =
    let same : ((v + 2 ^ 16 - p % 2 ^ 16) % 2 ^ 16 + p) % 2 ^ 16 ≡ v = omega arith in
    rw (same, zip_undo src q t t' (omega arith) a) refl

length-raster_row : (f : ℕ → ℕ → ℕ) (y x w : ℕ) → length (raster_row f y x w) ≡ w
unfolding raster_row
length-raster_row f y x zero = refl
length-raster_row f y x (suc w) = ap suc (length-raster_row f y (x + 1) w)

pub length-raster : (f : ℕ → ℕ → ℕ) (w y h : ℕ) → length (raster f w y h) ≡ h * w
unfolding raster
length-raster f w y zero = omega arith
length-raster f w y (suc h) = omega (
  arith,
  length-append (raster_row f y 0 w) (raster f w (y + 1) h),
  length-raster_row f y 0 w,
  length-raster f w (y + 1) h,
)

pub length-predict_dc : (nb : Neighbours) (w h : ℕ) → length (predict_dc nb w h) ≡ h * w
unfolding predict_dc
length-predict_dc nb w h = length-replicate (w * h) (dc_value nb w h) ∙ mul_comm w h

pub length-predict_h : (nb : Neighbours) (w h : ℕ) → length (predict_h nb w h) ≡ h * w
unfolding predict_h
length-predict_h nb w h = length-raster (λ y x. border_at nb.left y) w 0 h

pub length-predict_v : (nb : Neighbours) (w h : ℕ) → length (predict_v nb w h) ≡ h * w
unfolding predict_v
length-predict_v nb w h = length-raster (λ y x. border_at nb.top x) w 0 h

pub length-predict_planar : (nb : Neighbours) (w h : ℕ) → length (predict_planar nb w h) ≡ h * w
unfolding predict_planar
length-predict_planar nb w h = length-raster (planar_at nb w h) w 0 h

-- One of the enumeration's five constants.
abbrev pub IsMode : PredMode → Type 0
IsMode (reserved n) = ⊥
IsMode mode = Unit

zip_i16-fits :
    (f : ℕ → ℕ → ℕ) (xs ys : List ℕ)
    → ((a b : ℕ) → IsU16 (f a b))
    → length xs ≤ length ys
    → (length (zip_i16 f xs ys) ≡ length xs) × All IsU16 (zip_i16 f xs ys)
unfolding zip_i16
zip_i16-fits f [] ys g h = (refl, tt)
zip_i16-fits f (x ∷ xs) [] g h = absurd (omega arith)
zip_i16-fits f (x ∷ xs) (y ∷ ys) g h =
    let (n, a) = zip_i16-fits f xs ys g (omega arith) in (ap suc n, (g x y, a))

flat-IsU16 : (rs : List (List ℕ)) → IsPlane rs → All IsU16 (flat rs)
unfolding flat
flat-IsU16 [] a = tt
flat-IsU16 (r ∷ rs) (h, a) = All-append IsU16 r (flat rs) h (flat-IsU16 rs a)

predict_row-IsU16 : (p : ℕ) (row : List ℕ) → All IsU16 (predict_row p row)
unfolding predict_row
predict_row-IsU16 p [] = tt
predict_row-IsU16 p (v ∷ row) = (omega arith, predict_row-IsU16 v row)

predict_rows-IsPlane : (p : ℕ) (rs : List (List ℕ)) → IsPlane (predict_rows p rs)
unfolding predict_rows
predict_rows-IsPlane p [] = tt
predict_rows-IsPlane p (r ∷ rs) = (predict_row-IsU16 p r, predict_rows-IsPlane (first_or p r) rs)

length-flat :
    (w : ℕ) (rs : List (List ℕ)) → All (λ row. length row ≡ w) rs → length (flat rs) ≡ length rs * w
unfolding flat
length-flat w [] a = omega arith
length-flat w (r ∷ rs) (e, a) = omega (arith, length-append r (flat rs), length-flat w rs a)

left_residual-fits :
    (w h : ℕ) (src : List ℕ)
    → length src ≡ h * w
    → (length (left_residual src w h) ≡ h * w) × All IsU16 (left_residual src w h)
unfolding left_residual predict_left_pixel
left_residual-fits w h src e =
    let (n, s) = rows-Shape w h src e in
    let (n', s') = predict_rows-Shape w 0 (rows w h src) s in
    (
      length-flat w (predict_rows 0 (rows w h src)) s' ∙ ap (λ (k : ℕ). k * w) (n' ∙ n),
      flat-IsU16 (predict_rows 0 (rows w h src)) (predict_rows-IsPlane 0 (rows w h src)),
    )

pub sub_i16-IsU16 : (a b : ℕ) → IsU16 (sub_i16 a b)
unfolding sub_i16
sub_i16-IsU16 a b = omega arith

-- As many residuals as values.
abbrev pub Fits : List ℕ → List ℕ → Type 0
Fits src residual = (length residual ≡ length src) × All IsU16 residual

zip_sub-Fits : (src q t : List ℕ) → length src ≤ length q → Fits src (zip_i16 sub_i16 src (q ++ t))
zip_sub-Fits src q t h =
    zip_i16-fits sub_i16 src (q ++ t) sub_i16-IsU16 (omega (arith, length-append q t))

pub apply_prediction-Fits :
    (src : List ℕ) (w h : ℕ) (mode : PredMode) (nb : Neighbours) (old : List ℕ)
    → length src ≡ h * w
    → IsMode mode
    → Fits src (apply_prediction src w h mode nb old).0
unfolding apply_prediction prediction
apply_prediction-Fits src w h dc nb old e m =
    zip_sub-Fits src (predict_dc nb w h) _ (omega (arith, length-predict_dc nb w h))
apply_prediction-Fits src w h horizontal nb old e m =
    zip_sub-Fits src (predict_h nb w h) _ (omega (arith, length-predict_h nb w h))
apply_prediction-Fits src w h vertical nb old e m =
    zip_sub-Fits src (predict_v nb w h) _ (omega (arith, length-predict_v nb w h))
apply_prediction-Fits src w h planar nb old e m =
    zip_sub-Fits src (predict_planar nb w h) _ (omega (arith, length-predict_planar nb w h))
apply_prediction-Fits src w h left_pixel nb old e m =
    let (n, a) = left_residual-fits w h src e in (n ∙ sym e, a)
apply_prediction-Fits src w h (reserved n) nb old e m = absurd m

-- For every mode of prediction, every border and whatever the encoder's and the decoder's
-- prediction buffers held before, the residuals of a plane of 16-bit values give the plane back.
pub inverse_prediction-apply :
    (src : List ℕ) (w h : ℕ) (mode : PredMode) (nb : Neighbours) (old old' : List ℕ)
    → length src ≡ h * w
    → All IsU16 src
    → IsMode mode
    → (inverse_prediction (apply_prediction src w h mode nb old).0 w h mode nb old').0 ≡ src
unfolding inverse_prediction apply_prediction prediction
inverse_prediction-apply src w h dc nb old old' e a m =
    zip_undo src (predict_dc nb w h) _ _ (omega (arith, length-predict_dc nb w h)) a
inverse_prediction-apply src w h horizontal nb old old' e a m =
    zip_undo src (predict_h nb w h) _ _ (omega (arith, length-predict_h nb w h)) a
inverse_prediction-apply src w h vertical nb old old' e a m =
    zip_undo src (predict_v nb w h) _ _ (omega (arith, length-predict_v nb w h)) a
inverse_prediction-apply src w h planar nb old old' e a m =
    zip_undo src (predict_planar nb w h) _ _ (omega (arith, length-predict_planar nb w h)) a
inverse_prediction-apply src w h left_pixel nb old old' e a m = left_residual_undo w h src e a
inverse_prediction-apply src w h (reserved n) nb old old' e a m = absurd m
