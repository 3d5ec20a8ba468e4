-- ===== src/Tile/Examples.antt =====
-- Two tiles, the modes that are chosen for a plane, and runs of the predictors.
use omnidesk.Prelude.{ℕ, ◌/◌, ◌≡◌, refl, List, [], ◌∷◌, ◌++◌, none, some, arith, length}
use omnidesk.Bitstream.Unread.{at_byte}
use omnidesk.Color.{Pixel}
use omnidesk.Tile.Modes.{Neighbours, predict_dc}
use omnidesk.Tile.Select.{
  planar, left_pixel, select_pred_mode, apply_prediction, inverse_prediction,
  select_without_borders,
}
use omnidesk.Tile.Undo.{inverse_prediction-apply}
use omnidesk.Tile.Residuals.{encode_residuals, decode_residuals}
use omnidesk.Tile.Coded.{encode_residuals-Carries}
use omnidesk.Tile.Streams.{Carries}
use omnidesk.Tile.Coder.{
  Channels, to_planes, from_planes, select_modes, encode_lossless, decode_lossless,
  encode_near_lossless, decode_near_lossless,
}
use omnidesk.Tile.Lossless.{IsTile, Decodes, decode_lossless-encode}
use omnidesk.Tile.Error.{requantize}
use omnidesk.Tile.NearLossless.{NearPlanes, decode_near_lossless-encode}

abbrev no_borders : Neighbours
no_borders = record { top = none; left = none; top_left = 0 }

abbrev two_borders : Neighbours
two_borders = record { top = some (4 ∷ 8 ∷ []); left = some (2 ∷ 65535 ∷ []); top_left = 3 }

abbrev tile_borders : Channels Neighbours
tile_borders = record { y = no_borders; co = no_borders; cg = no_borders }

abbrev two_pixels : List Pixel
two_pixels = record { b = 0; g = 165; r = 255 } ∷ record { b = 255; g = 3; r = 0 } ∷ []

two_pixels-IsTile : IsTile 2 1 two_pixels
two_pixels-IsTile = record {
  size = refl;
  small = omega arith;
  pixels = (
    record { b = omega arith; g = omega arith; r = omega arith },
    (record { b = omega arith; g = omega arith; r = omega arith }, tt),
  );
}

decode_lossless-encode_example :
    Decodes
      (encode_lossless none two_pixels 2 1 tile_borders (at_byte []))
      (decode_lossless none 2 1 tile_borders (7 ∷ 7 ∷ []))
      two_pixels
decode_lossless-encode_example =
    decode_lossless-encode two_pixels 2 1 tile_borders (7 ∷ 7 ∷ []) two_pixels-IsTile

decode_near_lossless-encode_example :
    (planes : Channels (List ℕ)) × Decodes
      (encode_near_lossless none two_pixels 2 1 tile_borders 2 (at_byte []))
      (decode_near_lossless none 2 1 tile_borders [])
      (from_planes planes)
    × NearPlanes
        (2 / 2)
        (select_modes (to_planes two_pixels) 2 1 tile_borders)
        (to_planes two_pixels)
        planes
decode_near_lossless-encode_example =
    decode_near_lossless-encode two_pixels 2 1 tile_borders 2 [] two_pixels-IsTile (omega arith)

encode_residuals-Carries_example :
    Carries
      (encode_residuals none (3 ∷ 3 ∷ 250 ∷ 3 ∷ []))
      (decode_residuals none 4)
      (3 ∷ 3 ∷ 250 ∷ 3 ∷ [])
encode_residuals-Carries_example =
    encode_residuals-Carries (3 ∷ 3 ∷ 250 ∷ 3 ∷ []) (omega arith) (omega arith)

inverse_prediction-apply_example :
    (inverse_prediction
      (apply_prediction (5 ∷ 9 ∷ 65535 ∷ 7 ∷ []) 2 2 planar two_borders []).0
      2
      2
      planar
      two_borders
      (1 ∷ [])).0
    ≡ 5 ∷ 9 ∷ 65535 ∷ 7 ∷ []
inverse_prediction-apply_example =
    inverse_prediction-apply (5 ∷ 9 ∷ 65535 ∷ 7 ∷ []) 2 2 planar two_borders [] (1 ∷ []) refl
      (omega arith) tt

-- Two values above and two to the left, one of them -1: their mean is 3, cut towards zero.
mean_of_borders : predict_dc two_borders 2 2 ≡ 3 ∷ 3 ∷ 3 ∷ 3 ∷ []
unfolding predict_dc omnidesk.Prelude.Int.◌+ℤ◌
mean_of_borders = refl

-- Without borders an even slope is predicted from the left.
abbrev slope : List ℕ
slope = 1 ∷ 2 ∷ 3 ∷ 4 ∷ 5 ∷ 6 ∷ []

slope_mode : select_pred_mode slope 6 1 no_borders ≡ left_pixel
unfolding select_pred_mode select_without_borders
slope_mode = refl

-- There the quantization errors add up: with a step of 2 the slope comes back twice as steep, and
-- its last value is off by 6.
slope_drift :
    (inverse_prediction
      (requantize 2 (apply_prediction slope 6 1 left_pixel no_borders []).0)
      6
      1
      left_pixel
      no_borders
      []).0
    ≡ 2 ∷ 4 ∷ 6 ∷ 8 ∷ 10 ∷ 12 ∷ []
unfolding inverse_prediction apply_prediction omnidesk.Tile.Coder.dequantize_residual
    omnidesk.Tile.Coder.quantize_residual
slope_drift = refl
