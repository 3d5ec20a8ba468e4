-- ===== src/Tile/Select.antt =====
-- The choice of a prediction mode, and the residuals: selectPredMode and applyPrediction of
-- TileEncoder, and inversePrediction of TileDecoder.
use omnidesk.Prelude.{
  ℕ, ◌+◌, ◌-◌, ◌*◌, ◌^◌, List, [], ◌∷◌, ◌++◌, Option, none, some, Bool, true, false, not, ◌&&◌, ltb,
  if◌then◌else◌, ◌==◌, drop,
}
use omnidesk.Predict.{predict_left_pixel, inverse_predict_left_pixel}
use omnidesk.Tile.Samples.{sub_i16, add_i16, rows, flat}
use omnidesk.Tile.Modes.{
  Neighbours, predict_dc, predict_h, predict_v, predict_planar, distance, compute_sad,
}

-- `reserved` is a value of the enumeration's type that is none of its constants: the decoder casts
-- three bits of the stream.
pub data PredMode : Type 0 where
  dc horizontal vertical planar left_pixel : PredMode
  reserved : ℕ → PredMode

unfoldable pub mode_code : PredMode → ℕ
mode_code dc = 0
mode_code horizontal = 1
mode_code vertical = 2
mode_code planar = 3
mode_code left_pixel = 4
mode_code (reserved n) = n

unfoldable pub mode_of : ℕ → PredMode
mode_of n =
    if n == 0
    then dc
    else (if n == 1
        then horizontal
        else (if n == 2
            then vertical
            else (if n == 3 then planar else (if n == 4 then left_pixel else reserved n))))

unfoldable pub left_residual : List ℕ → ℕ → ℕ → List ℕ
unfolding flat rows predict_left_pixel
left_residual plane width height = flat (predict_left_pixel (rows width height plane))

unfoldable pub sum_abs : List ℕ → ℕ
unfolding distance
sum_abs [] = 0
sum_abs (v ∷ vs) = distance v 0 + sum_abs vs

-- `if (sad < bestSAD) { bestSAD = sad; bestMode = mode; }`
unfoldable pub try_mode : ℕ → PredMode → ℕ × PredMode → ℕ × PredMode
try_mode sad mode best = if ltb sad best.0 then (sad, mode) else best

unfoldable pub try_h : List ℕ → ℕ → ℕ → Neighbours → ℕ × PredMode → ℕ × PredMode
unfolding try_mode compute_sad predict_h
try_h channel w h nb best = elim nb.left [
  | none ↦ best
  | some border ↦ try_mode (compute_sad channel (predict_h nb w h)) horizontal best
]

unfoldable pub try_v : List ℕ → ℕ → ℕ → Neighbours → ℕ × PredMode → ℕ × PredMode
unfolding try_mode compute_sad predict_v
try_v channel w h nb best = elim nb.top [
  | none ↦ best
  | some border ↦ try_mode (compute_sad channel (predict_v nb w h)) vertical best
]

unfoldable pub try_planar : List ℕ → ℕ → ℕ → Neighbours → ℕ × PredMode → ℕ × PredMode
unfolding try_mode compute_sad predict_planar
try_planar channel w h nb best = elim nb.top [
  | none ↦ best
  | some border ↦ elim nb.left [
    | none ↦ best
    | some border' ↦ try_mode (compute_sad channel (predict_planar nb w h)) planar best
  ]
]

-- All modes whose borders are there; `bestSAD` starts at UINT64_MAX.
unfoldable pub select_full : List ℕ → ℕ → ℕ → Neighbours → PredMode
unfolding try_mode compute_sad predict_dc try_h try_v try_planar sum_abs left_residual
select_full channel w h nb =
    let best0 = try_mode (compute_sad channel (predict_dc nb w h)) dc (2 ^ 64 - 1, left_pixel) in
    let best = try_planar channel w h nb (try_v channel w h nb (try_h channel w h nb best0)) in
    (try_mode (sum_abs (left_residual channel w h)) left_pixel best).1

unfoldable pub select_without_borders : List ℕ → ℕ → ℕ → PredMode
unfolding sum_abs left_residual
select_without_borders channel w h =
    if ltb (sum_abs (left_residual channel w h)) (sum_abs channel) then left_pixel else dc

-- A pointer that is not null.
unfoldable pub present : Option (List ℕ) → Bool
present none = false
present (some border) = true

unfoldable pub select_pred_mode : List ℕ → ℕ → ℕ → Neighbours → PredMode
unfolding present
select_pred_mode channel w h nb =
    if not (present nb.top) && not (present nb.left)
    then select_without_borders channel w h
    else select_full channel w h nb

-- What the switch leaves at the start of predBuf_; a reserved mode leaves it as it was.
unfoldable pub prediction : PredMode → ℕ → ℕ → Neighbours → List ℕ → List ℕ
unfolding predict_dc predict_h predict_v predict_planar
prediction dc w h nb old = predict_dc nb w h ++ drop (w * h) old
prediction horizontal w h nb old = predict_h nb w h ++ drop (w * h) old
prediction vertical w h nb old = predict_v nb w h ++ drop (w * h) old
prediction planar w h nb old = predict_planar nb w h ++ drop (w * h) old
prediction left_pixel w h nb old = old
prediction (reserved n) w h nb old = old

-- The loop over the plane's values. predBuf_ holds a value for each of them.
unfoldable pub zip_i16 : (ℕ → ℕ → ℕ) → List ℕ → List ℕ → List ℕ
zip_i16 f [] bs = []
zip_i16 f (a ∷ xs) [] = []
zip_i16 f (a ∷ xs) (b ∷ bs) = f a b ∷ zip_i16 f xs bs

-- The residual, and predBuf_ after the call.
unfoldable pub apply_prediction : List ℕ → ℕ → ℕ → PredMode → Neighbours → List ℕ → List ℕ × List ℕ
unfolding left_residual prediction zip_i16 sub_i16
apply_prediction src w h left_pixel nb old = (left_residual src w h, old)
apply_prediction src w h mode nb old =
    (zip_i16 sub_i16 src (prediction mode w h nb old), prediction mode w h nb old)

unfoldable pub inverse_prediction :
    List ℕ → ℕ → ℕ → PredMode → Neighbours → List ℕ → List ℕ × List ℕ
unfolding prediction zip_i16 add_i16 flat rows inverse_predict_left_pixel
inverse_prediction residual w h left_pixel nb old =
    (flat (inverse_predict_left_pixel (rows w h residual)), old)
inverse_prediction residual w h mode nb old =
    (zip_i16 add_i16 residual (prediction mode w h nb old), prediction mode w h nb old)
