-- ===== src/OmniEncoder/Examples.antt =====
-- The quantizers at 1 Mbps and 4 Mbps: src/codec/omni/omni_encoder.cpp.
use omnidesk.Prelude.{arith}
use omnidesk.Prelude.Int.{pos, negsuc, ◌≤ℤ◌}
use omnidesk.Quality.{unknown}
use omnidesk.OmniEncoder.{OmniEncoder, update_bitrate, get_tile_qp}
use omnidesk.OmniEncoder.Bitrate.{update_bitrate-get_tile_qp}

abbrev encoder : OmniEncoder
encoder = record {
  target_bitrate_bps = 2000000;
  omni_config = record { lossy_base_qp = pos 26; text_qp_delta = negsuc 14 };
}

update_bitrate-get_tile_qp_example :
    (pos 15 ≤ℤ get_tile_qp unknown (update_bitrate 4000000 encoder))
    × (get_tile_qp unknown (update_bitrate 4000000 encoder)
        ≤ℤ get_tile_qp unknown (update_bitrate 1000000 encoder))
    × (get_tile_qp unknown (update_bitrate 1000000 encoder) ≤ℤ pos 41)
update_bitrate-get_tile_qp_example =
    update_bitrate-get_tile_qp 1000000 4000000 encoder (omega arith) (omega arith)
