-- ===== src/RateControl/Examples.antt =====
-- Reports on a steady and on a congested network, with hundredths in place of floats.
use omnidesk.Prelude.{ℕ, ◌+◌, ◌-◌, ◌*◌, ◌/◌, ◌≡◌, [], ◌∷◌, arith, ltb}
use omnidesk.RateControl.{Float, Config, QualityReport, create, adjust}
use omnidesk.RateControl.Bounds.{IsConfig, Within, Adjusted, after, after-Within, adjust-direction}

abbrev hundredths : Float ℕ
hundredths = record {
  zero_f = 0;
  sixteen = 1600;
  add = λ a b. a + b;
  sub = λ a b. a - b;
  mul = λ a b. a * b / 100;
  less = ltb;
  of_u32 = λ n. n * 100;
  to_u32 = λ a. a / 100;
}

abbrev config : Config ℕ
config = record {
  initial_bitrate_bps = 1500000;
  min_bitrate_bps = 150000;
  max_bitrate_bps = 8000000;
  additive_increase_bps = 80000;
  multiplicative_decrease = 65;
  packet_loss_threshold = 150;
  rtt_increase_threshold = 4000;
  decode_time_threshold = 2000;
  min_adjust_interval_ms = 40000;
}

abbrev lossy : QualityReport ℕ
lossy = record { rtt_ms = 50000; packet_loss_percent = 500; decode_time_ms = 900; jitter_ms = 100 }

config-IsConfig : IsConfig config
config-IsConfig = record { ordered = omega arith; no_wrap = omega arith }

after-Within_example :
    Within (after hundredths (lossy ∷ lossy ∷ []) (create hundredths config))
    × ((after hundredths (lossy ∷ lossy ∷ []) (create hundredths config)).config ≡ config)
unfolding create
after-Within_example =
    after-Within hundredths (lossy ∷ lossy ∷ []) (create hundredths config) config-IsConfig
      (λ b h. omega arith) (omega arith)

adjust-direction_example :
    Adjusted hundredths lossy
      (create hundredths config)
      (adjust hundredths lossy (create hundredths config)).current_bitrate_bps
unfolding create
adjust-direction_example =
    adjust-direction hundredths lossy (create hundredths config) config-IsConfig
      (λ b h. omega arith) (omega arith)
