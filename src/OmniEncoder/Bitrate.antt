-- ===== src/OmniEncoder/Bitrate.antt =====
-- The quantizer that goes with a bitrate: src/codec/omni/omni_encoder.cpp.
use omnidesk.Prelude.{ℕ, ◌≤◌, arith}
use omnidesk.Prelude.Int.{pos, ◌≤ℤ◌}
use omnidesk.Quality.{unknown}
use omnidesk.OmniEncoder.{OmniEncoder, qp_for_bitrate, update_bitrate, get_tile_qp}

qp_for_bitrate_bounds : (bps : ℕ) → (15 ≤ qp_for_bitrate bps) × (qp_for_bitrate bps ≤ 41)
unfolding qp_for_bitrate
qp_for_bitrate_bounds bps = ground arith

qp_for_bitrate-anti : (a b : ℕ) → 500000 ≤ a → a ≤ b → qp_for_bitrate b ≤ qp_for_bitrate a
unfolding qp_for_bitrate
qp_for_bitrate-anti a b low le = ground arith

-- From 500 kbps on, a higher bitrate gives a lossy tile no coarser quantizer, and both quantizers
-- are between 15 and 41.
pub update_bitrate-get_tile_qp :
    (a b : ℕ) (e : OmniEncoder)
    → 500000 ≤ a
    → a ≤ b
    → (pos 15 ≤ℤ get_tile_qp unknown (update_bitrate b e))
      × (get_tile_qp unknown (update_bitrate b e) ≤ℤ get_tile_qp unknown (update_bitrate a e))
      × (get_tile_qp unknown (update_bitrate a e) ≤ℤ pos 41)
unfolding update_bitrate get_tile_qp
update_bitrate-get_tile_qp a b e low le =
    let least = qp_for_bitrate_bounds b in
    let most = qp_for_bitrate_bounds a in
    (omega (arith, least), omega (arith, qp_for_bitrate-anti a b low le), omega (arith, most))
