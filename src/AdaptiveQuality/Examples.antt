-- ===== src/AdaptiveQuality/Examples.antt =====
-- A ladder over thousandths in place of floats.
use omnidesk.Prelude.{ℕ, ◌+◌, ◌-◌, ◌*◌, ◌/◌, ◌≡◌, refl, [], ◌∷◌, ltb, arith}
use omnidesk.AdaptiveQuality.{Float, Config, AdaptiveQuality, Sample, create, update, target_side}
use omnidesk.AdaptiveQuality.Ladder.{OnLadder, start-OnLadder, run, run-OnLadder, run_steady}

abbrev thousandths : Float ℕ
thousandths = record {
  lit = λ n d. n * 1000 / d;
  add = λ a b. a + b;
  sub = λ a b. a - b;
  mul = λ a b. a * b / 1000;
  div = λ a b. a * 1000 / b;
  less = ltb;
  of_int = λ n. n * 1000;
  to_int = λ a. a / 1000;
  to_u32 = λ a. a / 1000;
}

abbrev full_hd : Config ℕ
full_hd = record {
  native_width = 1920;
  native_height = 1080;
  min_width = 1280;
  min_height = 720;
  downscale_threshold = 800;
  upscale_threshold = 500;
  downscale_bitrate_bps = 500000;
  upscale_bitrate_bps = 2000000;
  min_bitrate_bps = 300000;
  max_fps = 60000;
  min_fps = 15000;
  idle_fps = 30000;
  downscale_frame_count = 3;
  upscale_frame_count = 30;
}

-- A frame that takes the whole budget.
abbrev slow : Sample ℕ
slow = record {
  encode_time_ms = 33000;
  frame_budget_ms = 33000;
  current_bitrate_bps = 4000000;
  motion_ratio = 0;
}

run-OnLadder_example :
    OnLadder thousandths (run thousandths (slow ∷ slow ∷ slow ∷ []) (create thousandths full_hd))
run-OnLadder_example =
    run-OnLadder thousandths (slow ∷ slow ∷ slow ∷ []) (create thousandths full_hd)
      (start-OnLadder thousandths full_hd (create thousandths full_hd)).0

run_steady_example :
    (run thousandths (slow ∷ slow ∷ []) (create thousandths full_hd)).current_level ≡ 0
unfolding create omnidesk.AdaptiveQuality.compute_target_resolution
run_steady_example =
    run_steady thousandths (slow ∷ slow ∷ []) (create thousandths full_hd) (omega arith)
      (omega arith)

-- The third slow frame in a row takes the next level, of 1598 by 898.
third_frame :
    (run thousandths (slow ∷ slow ∷ slow ∷ []) (create thousandths full_hd)).target_width ≡ 1598
unfolding run update omnidesk.AdaptiveQuality.step_level omnidesk.AdaptiveQuality.want_down
    omnidesk.AdaptiveQuality.cpu_pressure create omnidesk.AdaptiveQuality.compute_target_resolution
    omnidesk.AdaptiveQuality.encode_load target_side omnidesk.AdaptiveQuality.scale_factor
third_frame = refl
