-- ===== src/AdaptiveQuality.antt =====
-- The resolution ladder: src/codec/adaptive_quality.h and src/codec/adaptive_quality.cpp. The
-- numbers of type float are a parameter, with the operations that the code uses.
pub mod Ladder
mod Examples
use omnidesk.Prelude.{
  ℕ, ◌+◌, ◌-◌, ◌%◌, ◌^◌, Bool, true, false, ltb, leb, ◌==◌, ◌&&◌, ◌||◌, if◌then◌else◌,
}

-- IEEE single precision: `lit n d` is the literal n / d, `less` is `<`, and the others are the
-- operators and the casts from and to int and uint32_t.
pub record Float (F : Type 0) : Type 0 where
  pub lit : ℕ → ℕ → F
  pub add : F → F → F
  pub sub : F → F → F
  pub mul : F → F → F
  pub div : F → F → F
  pub less : F → F → Bool
  pub of_int : ℕ → F
  pub to_int : F → ℕ
  pub to_u32 : F → ℕ

pub record Config (F : Type 0) : Type 0 where
  pub native_width : ℕ
  pub native_height : ℕ
  pub min_width : ℕ
  pub min_height : ℕ
  pub downscale_threshold : F
  pub upscale_threshold : F
  pub downscale_bitrate_bps : ℕ
  pub upscale_bitrate_bps : ℕ
  pub min_bitrate_bps : ℕ
  pub max_fps : F
  pub min_fps : F
  pub idle_fps : F
  pub downscale_frame_count : ℕ
  pub upscale_frame_count : ℕ

abbrev pub max_levels : ℕ
max_levels = 3

pub record AdaptiveQuality (F : Type 0) : Type 0 where
  pub config : Config F
  pub current_level : ℕ
  pub target_width : ℕ
  pub target_height : ℕ
  pub target_bitrate : ℕ
  pub target_fps : F
  pub downscale_counter : ℕ
  pub upscale_counter : ℕ
  pub resolution_changed : Bool

-- The arguments of update.
pub record Sample (F : Type 0) : Type 0 where
  pub encode_time_ms : F
  pub frame_budget_ms : F
  pub current_bitrate_bps : ℕ
  pub motion_ratio : F

module _ {F : Type 0} (float : Float F) where
  unfoldable pub max_f : F → F → F
  max_f a b = if float.less a b then b else a

  unfoldable pub min_f : F → F → F
  min_f a b = if float.less b a then b else a

  -- kScaleFactors
  unfoldable pub scale_factor : ℕ → F
  scale_factor level =
      if level == 0
      then float.lit 1 1
      else (if level == 1 then float.lit 833 1000 else float.lit 667 1000)

  -- One side of the resolution: scaled, rounded down to even, and not below its minimum.
  unfoldable pub target_side : ℕ → ℕ → ℕ → ℕ
  target_side native least level =
      let scaled : ℕ = float.to_int (float.mul (float.of_int native) (scale_factor level)) in
      let even : ℕ = scaled - scaled % 2 in if ltb even least then least else even

  unfoldable pub compute_target_resolution : AdaptiveQuality F → AdaptiveQuality F
  compute_target_resolution q = record q {
    target_width = target_side q.config.native_width q.config.min_width q.current_level;
    target_height = target_side q.config.native_height q.config.min_height q.current_level;
  }

  unfoldable pub create : Config F → AdaptiveQuality F
  create config = compute_target_resolution (record {
    config = config;
    current_level = 0;
    target_width = config.native_width;
    target_height = config.native_height;
    target_bitrate = config.upscale_bitrate_bps;
    target_fps = float.lit 30 1;
    downscale_counter = 0;
    upscale_counter = 0;
    resolution_changed = false;
  })

  unfoldable pub reset : AdaptiveQuality F → AdaptiveQuality F
  reset q = compute_target_resolution (record q {
    current_level = 0;
    downscale_counter = 0;
    upscale_counter = 0;
    resolution_changed = false;
  })

  unfoldable pub set_config : Config F → AdaptiveQuality F → AdaptiveQuality F
  set_config config q =
      compute_target_resolution (record q {
        config = config;
        current_level = 0;
        downscale_counter = 0;
        upscale_counter = 0;
      })

  unfoldable pub encode_load : Sample F → F
  encode_load x =
      if float.less (float.lit 0 1) x.frame_budget_ms
      then float.div x.encode_time_ms x.frame_budget_ms
      else float.lit 0 1

  unfoldable pub cpu_pressure : Config F → Sample F → Bool
  cpu_pressure config x = float.less config.downscale_threshold (encode_load x)

  unfoldable pub bandwidth_pressure : Config F → Sample F → Bool
  bandwidth_pressure config x =
      ltb 0 x.current_bitrate_bps && ltb x.current_bitrate_bps config.downscale_bitrate_bps

  unfoldable pub want_down : Config F → Sample F → Bool
  want_down config x = cpu_pressure config x || bandwidth_pressure config x

  unfoldable pub want_up : Config F → Sample F → Bool
  want_up config x =
      float.less (encode_load x) config.upscale_threshold
      && leb config.upscale_bitrate_bps x.current_bitrate_bps

  -- Between 30% and 80% of motion the rate goes from idleFps to maxFps.
  unfoldable pub motion_fps : Config F → F → F
  motion_fps config motion =
      let t : F =
        min_f (float.div (float.sub motion (float.lit 3 10)) (float.lit 1 2)) (float.lit 1 1) in
      if float.less (float.lit 3 10) motion
      then float.add config.idle_fps (float.mul t (float.sub config.max_fps config.idle_fps))
      else config.idle_fps

  unfoldable pub desired_fps : Config F → Sample F → F
  desired_fps config x =
      let f0 : F = motion_fps config x.motion_ratio in
      let f1 : F =
        if cpu_pressure config x
        then max_f (float.mul f0 (float.lit 7 10)) config.min_fps
        else f0 in
      if bandwidth_pressure config x
      then max_f (float.mul f1 (float.lit 6 10)) config.min_fps
      else f1

  -- The moving average, kept within the range.
  unfoldable pub next_fps : Config F → Sample F → F → F
  next_fps config x fps =
      min_f
        (max_f
          (float.add (float.mul fps (float.lit 8 10))
            (float.mul (desired_fps config x) (float.lit 2 10)))
          config.min_fps)
        config.max_fps

  -- The step of the ladder, with the counters of consecutive frames.
  unfoldable pub step_level : Sample F → AdaptiveQuality F → AdaptiveQuality F
  step_level x q =
      let down : ℕ = q.downscale_counter + 1 in
      let up : ℕ = q.upscale_counter + 1 in
      if want_down q.config x && ltb q.current_level (max_levels - 1)
      then (if leb q.config.downscale_frame_count down
          then record q {
            current_level = q.current_level + 1;
            downscale_counter = 0;
            upscale_counter = 0;
            resolution_changed = true;
          }
          else record q { downscale_counter = down; upscale_counter = 0 })
      else (if want_up q.config x && ltb 0 q.current_level
          then (if leb q.config.upscale_frame_count up
              then record q {
                current_level = q.current_level - 1;
                downscale_counter = 0;
                upscale_counter = 0;
                resolution_changed = true;
              }
              else record q { downscale_counter = 0; upscale_counter = up })
          else record q { downscale_counter = 0; upscale_counter = 0 })

  unfoldable pub bitrate_for : Config F → Sample F → ℕ → ℕ
  bitrate_for config x level =
      let ratio : F = float.mul (scale_factor level) (scale_factor level) in
      let bitrate : ℕ = float.to_u32 (float.mul (float.of_int x.current_bitrate_bps) ratio) in
      if ltb bitrate config.min_bitrate_bps then config.min_bitrate_bps else bitrate

  unfoldable pub update : Sample F → AdaptiveQuality F → AdaptiveQuality F
  update x q =
      let q1 : AdaptiveQuality F =
        step_level x (record q {
          resolution_changed = false;
          target_fps = next_fps q.config x q.target_fps;
        }) in
      let q2 : AdaptiveQuality F =
        if q1.resolution_changed then compute_target_resolution q1 else q1 in
      record q2 { target_bitrate = bitrate_for q2.config x q2.current_level }
