-- ===== src/RateControl.antt =====
-- The bitrate controller: src/codec/rate_control.h and src/codec/rate_control.cpp. The numbers of
-- type float are a parameter, with the operations that the code uses.
pub mod Bounds
mod Examples
use omnidesk.Prelude.{ℕ, ◌+◌, ◌%◌, ◌^◌, Bool, true, false, ltb, leb, not, ◌||◌, if◌then◌else◌}

-- IEEE single precision: `of_u32` and `to_u32` are the casts, `less` is `<`.
pub record Float (F : Type 0) : Type 0 where
  pub zero_f : F
  pub sixteen : F
  pub add : F → F → F
  pub sub : F → F → F
  pub mul : F → F → F
  pub less : F → F → Bool
  pub of_u32 : ℕ → F
  pub to_u32 : F → ℕ

pub record Config (F : Type 0) : Type 0 where
  pub initial_bitrate_bps : ℕ
  pub min_bitrate_bps : ℕ
  pub max_bitrate_bps : ℕ
  pub additive_increase_bps : ℕ
  pub multiplicative_decrease : F
  pub packet_loss_threshold : F
  pub rtt_increase_threshold : F
  pub decode_time_threshold : F
  pub min_adjust_interval_ms : F

pub record QualityReport (F : Type 0) : Type 0 where
  pub rtt_ms : F
  pub packet_loss_percent : F
  pub decode_time_ms : F
  pub jitter_ms : F

pub record Controller (F : Type 0) : Type 0 where
  pub config : Config F
  pub current_bitrate_bps : ℕ
  pub last_rtt_ms : F
  pub last_adjust_time_ms : F
  pub elapsed_ms : F
  pub should_downscale : Bool
  pub can_upscale : Bool

abbrev pub max : ℕ → ℕ → ℕ
max a b = if ltb a b then b else a

abbrev pub min : ℕ → ℕ → ℕ
min a b = if ltb b a then b else a

abbrev pub downscale_bitrate_bps : ℕ
downscale_bitrate_bps = 500000

abbrev pub upscale_bitrate_bps : ℕ
upscale_bitrate_bps = 2000000

module _ {F : Type 0} (float : Float F) where
  unfoldable pub create : Config F → Controller F
  create config = record {
    config = config;
    current_bitrate_bps = config.initial_bitrate_bps;
    last_rtt_ms = float.zero_f;
    last_adjust_time_ms = float.zero_f;
    elapsed_ms = float.zero_f;
    should_downscale = false;
    can_upscale = false;
  }

  unfoldable pub reset : Controller F → Controller F
  unfolding create
  reset c = create c.config

  -- std::clamp
  unfoldable pub set_config : Config F → Controller F → Controller F
  set_config config c = record c {
    config = config;
    current_bitrate_bps =
        if ltb c.current_bitrate_bps config.min_bitrate_bps
        then config.min_bitrate_bps
        else if ltb config.max_bitrate_bps c.current_bitrate_bps
        then config.max_bitrate_bps
        else c.current_bitrate_bps;
  }

  -- The four signals, with the round-trip time of the last adjustment.
  unfoldable pub congested : Controller F → QualityReport F → Bool
  congested c report =
      float.less c.config.packet_loss_threshold report.packet_loss_percent
      || (if float.less float.zero_f c.last_rtt_ms
          then float.less c.config.rtt_increase_threshold (float.sub report.rtt_ms c.last_rtt_ms)
          else false)
      || float.less c.config.decode_time_threshold report.decode_time_ms
      || float.less c.config.rtt_increase_threshold report.jitter_ms

  -- The sum is of type uint32_t.
  unfoldable pub next_bitrate : Bool → Controller F → ℕ
  next_bitrate true c =
      max
        (float.to_u32
          (float.mul (float.of_u32 c.current_bitrate_bps) c.config.multiplicative_decrease))
        c.config.min_bitrate_bps
  next_bitrate false c =
      min ((c.current_bitrate_bps + c.config.additive_increase_bps) % 2 ^ 32)
        c.config.max_bitrate_bps

  -- What a report that is not ignored does, the time having been counted.
  unfoldable pub adjust : QualityReport F → Controller F → Controller F
  unfolding congested next_bitrate
  adjust report c =
      let bitrate : ℕ = next_bitrate (congested c report) c in
      record c {
        current_bitrate_bps = bitrate;
        last_rtt_ms = report.rtt_ms;
        last_adjust_time_ms = c.elapsed_ms;
        should_downscale = ltb bitrate downscale_bitrate_bps;
        can_upscale = leb upscale_bitrate_bps bitrate;
      }

  -- The result is the current bitrate of the controller returned.
  unfoldable pub on_quality_report : QualityReport F → Controller F → Controller F
  unfolding adjust
  on_quality_report report c =
      let elapsed : F =
        float.add c.elapsed_ms
          (if float.less report.rtt_ms float.sixteen then float.sixteen else report.rtt_ms) in
      let timed = record c { elapsed_ms = elapsed } in
      if float.less (float.sub elapsed c.last_adjust_time_ms) c.config.min_adjust_interval_ms
      then timed
      else adjust report timed
