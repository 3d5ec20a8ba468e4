-- ===== src/OmniEncoder.antt =====
-- The choices of the frame encoder: src/codec/omni/omni_encoder.cpp. The layout of a frame and the
-- reference frame are not modelled here.
pub mod Bitrate
mod Examples
use omnidesk.Prelude.{ℕ, ◌+◌, ◌-◌, ◌*◌, ◌/◌, List, [], ◌∷◌, Bool, true, false, ltb, if◌then◌else◌}
use omnidesk.Prelude.Int.{ℤ, pos, ◌+ℤ◌, ◌-ℤ◌, ltb_ℤ}
use omnidesk.Quality.{ContentType, unknown, text, motion, static}
use omnidesk.ScrollDetector.{hash_bytes}

pub data TileMode : Type 0 where
  skip copy lossless near_lossless lossy : TileMode

pub record OmniEncoderConfig : Type 0 where
  pub lossy_base_qp : ℤ
  pub text_qp_delta : ℤ

-- The encoder's state, as far as the choices read it.
pub record OmniEncoder : Type 0 where
  pub target_bitrate_bps : ℕ
  pub omni_config : OmniEncoderConfig

-- The number of tiles along a side.
unfoldable pub tiles_along : ℕ → ℕ → ℕ
tiles_along side tile_size = (side + tile_size - 1) / tile_size

unfoldable pub setup_tile_grid : ℕ → ℕ → ℕ → ℕ × ℕ
setup_tile_grid width height tile_size = (tiles_along width tile_size, tiles_along height tile_size)

-- The hash goes on from row to row of the tile.
unfoldable pub hash_rows : ℕ → List (List ℕ) → ℕ
hash_rows h [] = h
hash_rows h (row ∷ rows) = hash_rows (hash_bytes h row) rows

unfoldable pub compute_tile_hash : List (List ℕ) → ℕ
compute_tile_hash rows = hash_rows 0x517CC1B727220A95 rows

unfoldable pub decide_tile_mode : ContentType → Bool → OmniEncoder → TileMode
decide_tile_mode type true e = copy
decide_tile_mode text false e = lossless
decide_tile_mode static false e = near_lossless
decide_tile_mode motion false e = lossy
decide_tile_mode unknown false e =
    if ltb 2000000 e.target_bitrate_bps then lossless else near_lossless

abbrev at_least : ℤ → ℤ → ℤ
at_least a b = if ltb_ℤ a b then b else a

abbrev at_most : ℤ → ℤ → ℤ
at_most a b = if ltb_ℤ b a then b else a

unfoldable pub get_tile_qp : ContentType → OmniEncoder → ℤ
get_tile_qp text e = at_least (pos 1) (e.omni_config.lossy_base_qp +ℤ e.omni_config.text_qp_delta)
get_tile_qp static e = at_least (pos 1) (e.omni_config.lossy_base_qp -ℤ pos 5)
get_tile_qp motion e = at_most (pos 51) (e.omni_config.lossy_base_qp +ℤ pos 4)
get_tile_qp unknown e = e.omni_config.lossy_base_qp

-- The quotients are of doubles, and truncated: with numbers this small that is the division of
-- whole numbers.
unfoldable pub qp_for_bitrate : ℕ → ℕ
qp_for_bitrate bps =
    if ltb bps 500000
    then 40
    else if ltb bps 2000000
    then 26 + (2000000 - bps) / 100000
    else if ltb bps 8000000
    then 15 + (8000000 - bps) / 550000
    else 15

unfoldable pub update_bitrate : ℕ → OmniEncoder → OmniEncoder
update_bitrate bps e = record e {
  target_bitrate_bps = bps;
  omni_config = record e.omni_config { lossy_base_qp = pos (qp_for_bitrate bps) };
}
