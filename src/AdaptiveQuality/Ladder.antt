-- ===== src/AdaptiveQuality/Ladder.antt =====
-- The level stays on the ladder, the resolution goes with it, and it does not oscillate.
use omnidesk.Prelude.{
  ℕ, ◌%◌, ◌+◌, ◌-◌, ◌≤◌, ◌<◌, ◌≡◌, refl, sym, ◌∙◌, ◌⊎◌, inl, inr, List, [], ◌∷◌, Bool, true, false,
  ltb, leb, ◌&&◌, arith, length, Bool-cases, true-false,
}
use omnidesk.AdaptiveQuality.{
  Float, Config, AdaptiveQuality, Sample, max_levels, scale_factor, target_side,
  compute_target_resolution, create, reset, set_config, want_down, want_up, next_fps, step_level,
  update,
}

and-right : (a b : Bool) → a && b ≡ true → b ≡ true
and-right true b e = e
and-right false b e = cc

module _ {F : Type 0} (float : Float F) where
  -- The scale of each level: 100%, 83.3% and 66.7%.
  abbrev pub IsScale : ℕ → F → Type 0
  IsScale level f =
      ((level ≡ 0) × (f ≡ float.lit 1 1))
      ⊎ ((level ≡ 1) × (f ≡ float.lit 833 1000))
      ⊎ ((level ≡ 2) × (f ≡ float.lit 667 1000))

  -- The greatest even number that is not above `scaled`, or `least` if that is more.
  abbrev pub IsRounded : ℕ → ℕ → ℕ → Type 0
  IsRounded scaled least side =
      (even : ℕ) × (even % 2 ≡ 0)
      × (even ≤ scaled)
      × (scaled ≤ even + 1)
      × (((least ≤ even) × (side ≡ even)) ⊎ ((even < least) × (side ≡ least)))

  -- A side of the target resolution at a level.
  abbrev pub IsSide : ℕ → ℕ → ℕ → ℕ → Type 0
  IsSide native least level side =
      (f : F) × IsScale level f
      × IsRounded (float.to_int (float.mul (float.of_int native) f)) least side

  -- The level is on the ladder and the resolution is that of the level.
  pub record OnLadder (q : AdaptiveQuality F) : Type 0 where
    pub level : q.current_level < max_levels
    pub width : IsSide q.config.native_width q.config.min_width q.current_level q.target_width
    pub height : IsSide q.config.native_height q.config.min_height q.current_level q.target_height

  scale_factor-IsScale : (level : ℕ) → level < max_levels → IsScale level (scale_factor float level)
  unfolding scale_factor
  scale_factor-IsScale level h = ground arith

  target_side-IsSide :
      (native least level : ℕ)
      → level < max_levels
      → IsSide native least level (target_side float native least level)
  unfolding target_side
  target_side-IsSide native least level h =
      let scaled : ℕ = float.to_int (float.mul (float.of_int native) (scale_factor float level)) in
      (
        scale_factor float level,
        scale_factor-IsScale level h,
        (scaled - scaled % 2, omega arith, omega arith, omega arith, ground arith),
      )

  -- What a step may do: nothing to the level, or one level up or down with the change noted.
  abbrev Stepped : AdaptiveQuality F → AdaptiveQuality F → Type 0
  Stepped q q' =
      (q'.config ≡ q.config)
      × (q'.target_width ≡ q.target_width)
      × (q'.target_height ≡ q.target_height)
      × (((q'.current_level ≡ q.current_level)
            × (q'.resolution_changed ≡ q.resolution_changed)
            × (q'.downscale_counter ≤ q.downscale_counter + 1)
            × (q'.upscale_counter ≤ q.upscale_counter + 1))
          ⊎ ((q.current_level + 1 < max_levels)
              × (q'.current_level ≡ q.current_level + 1)
              × (q'.resolution_changed ≡ true)
              × (q.config.downscale_frame_count ≤ q.downscale_counter + 1))
          ⊎ ((0 < q.current_level)
              × (q'.current_level + 1 ≡ q.current_level)
              × (q'.resolution_changed ≡ true)
              × (q.config.upscale_frame_count ≤ q.upscale_counter + 1)))

  step_level-Stepped : (x : Sample F) (q : AdaptiveQuality F) → Stepped q (step_level float x q)
  unfolding step_level
  step_level-Stepped x q =
      elim (Bool-cases (want_down float q.config x && ltb q.current_level (max_levels - 1))) [
        | inl d ↦
            let room : q.current_level + 1 < max_levels = ground (
              arith,
              and-right (want_down float q.config x) (ltb q.current_level (max_levels - 1)) d,
            ) in
            elim (Bool-cases (leb q.config.downscale_frame_count (q.downscale_counter + 1))) [
              | inl e ↦
                  rw (d, e) (refl, refl, refl, inr (inl (room, refl, refl, ground (arith, e))))
              | inr e ↦ rw (d, e) (refl, refl, refl, inl (refl, refl, omega arith, omega arith))
            ]
        | inr d ↦ elim (Bool-cases (want_up float q.config x && ltb 0 q.current_level)) [
          | inl u ↦
              let above : 0 < q.current_level =
                ground (arith, and-right (want_up float q.config x) (ltb 0 q.current_level) u) in
              let back : q.current_level - 1 + 1 ≡ q.current_level = omega arith in
              elim (Bool-cases (leb q.config.upscale_frame_count (q.upscale_counter + 1))) [
                | inl e ↦
                    rw (d, u, e)
                      (refl, refl, refl, inr (inr (above, back, refl, ground (arith, e))))
                | inr e ↦
                    rw (d, u, e) (refl, refl, refl, inl (refl, refl, omega arith, omega arith))
              ]
          | inr u ↦ rw (d, u) (refl, refl, refl, inl (refl, refl, omega arith, omega arith))
        ]
      ]

  Stepped-level :
      (q q' : AdaptiveQuality F) → Stepped q q' → OnLadder q → q'.current_level < max_levels
  Stepped-level q q' (c, w, h, inl (e, r, d, u)) l = omega (arith, e, l.level)
  Stepped-level q q' (c, w, h, inr (inl (room, e, r, d))) l = omega (arith, e)
  Stepped-level q q' (c, w, h, inr (inr (above, e, r, d))) l = omega (arith, e, l.level)

  -- A step that notes no change leaves the resolution right.
  Stepped-OnLadder :
      (q q' : AdaptiveQuality F)
      → Stepped q q'
      → OnLadder q
      → q'.resolution_changed ≡ false
      → OnLadder q'
  Stepped-OnLadder q q' (c, w, h, inl (e, r, d, u)) l n = record {
    level = omega (arith, e, l.level);
    width = rw (w, c, e) l.width;
    height = rw (h, c, e) l.height;
  }
  Stepped-OnLadder q q' (c, w, h, inr (inl (room, e, r, d))) l n = absurd (true-false (sym r ∙ n))
  Stepped-OnLadder q q' (c, w, h, inr (inr (above, e, r, d))) l n = absurd (true-false (sym r ∙ n))

  -- The state that update steps from.
  abbrev before_step : Sample F → AdaptiveQuality F → AdaptiveQuality F
  before_step x q = record q {
    resolution_changed = false;
    target_fps = next_fps float q.config x q.target_fps;
  }

  update-config : (x : Sample F) (q : AdaptiveQuality F) → (update float x q).config ≡ q.config
  unfolding update compute_target_resolution
  update-config x q = elim (Bool-cases (step_level float x (before_step x q)).resolution_changed) [
    | inl e ↦ rw e (step_level-Stepped x (before_step x q)).0
    | inr e ↦ rw e (step_level-Stepped x (before_step x q)).0
  ]

  update-level :
      (x : Sample F) (q : AdaptiveQuality F)
      → (update float x q).current_level ≡ (step_level float x (before_step x q)).current_level
  unfolding update compute_target_resolution
  update-level x q = elim (Bool-cases (step_level float x (before_step x q)).resolution_changed) [
    | inl e ↦ rw e refl
    | inr e ↦ rw e refl
  ]

  -- An update keeps the level on the ladder and the resolution that of the level.
  update-OnLadder :
      (x : Sample F) (q : AdaptiveQuality F) → OnLadder q → OnLadder (update float x q)
  unfolding update compute_target_resolution
  update-OnLadder x q h =
      let q0 : AdaptiveQuality F = before_step x q in
      let q1 : AdaptiveQuality F = step_level float x q0 in
      let start : OnLadder q0 = record { level = h.level; width = h.width; height = h.height } in
      let stepped = step_level-Stepped x q0 in
      let settled = Stepped-OnLadder q0 q1 stepped start in
      elim (Bool-cases q1.resolution_changed) [
        | inl e ↦
            let low : q1.current_level < max_levels = Stepped-level q0 q1 stepped start in
            rw e (record {
              level = low;
              width =
                  target_side-IsSide q1.config.native_width q1.config.min_width q1.current_level
                    low;
              height =
                  target_side-IsSide q1.config.native_height q1.config.min_height q1.current_level
                    low;
            })
        | inr e ↦ rw e (record {
          level = (settled e).level;
          width = (settled e).width;
          height = (settled e).height;
        })
      ]

  -- Updates, one frame after another.
  unfoldable pub run : List (Sample F) → AdaptiveQuality F → AdaptiveQuality F
  run [] q = q
  run (x ∷ xs) q = run xs (update float x q)

  -- However the measurements run, the level stays one of the three, and each side of the target
  -- resolution is the native one times the level's scale (1, 0.833 or 0.667), rounded down to even,
  -- or the configured minimum if that is more, provided that this held at the start.
  pub run-OnLadder :
      (xs : List (Sample F)) (q : AdaptiveQuality F) → OnLadder q → OnLadder (run xs q)
  unfolding run
  run-OnLadder [] q h = h
  run-OnLadder (x ∷ xs) q h = run-OnLadder xs (update float x q) (update-OnLadder x q h)

  -- create, reset and setConfig start on the ladder.
  pub start-OnLadder :
      (config : Config F) (q : AdaptiveQuality F)
      → OnLadder (create float config)
        × OnLadder (reset float q)
        × OnLadder (set_config float config q)
  unfolding create reset set_config compute_target_resolution
  start-OnLadder config q =
      let low : 0 < max_levels = omega arith in
      (
        record {
          level = low;
          width = target_side-IsSide config.native_width config.min_width 0 low;
          height = target_side-IsSide config.native_height config.min_height 0 low;
        },
        record {
          level = low;
          width = target_side-IsSide q.config.native_width q.config.min_width 0 low;
          height = target_side-IsSide q.config.native_height q.config.min_height 0 low;
        },
        record {
          level = low;
          width = target_side-IsSide config.native_width config.min_width 0 low;
          height = target_side-IsSide config.native_height config.min_height 0 low;
        },
      )

  update-counters :
      (x : Sample F) (q : AdaptiveQuality F)
      → ((update float x q).downscale_counter
          ≡ (step_level float x (before_step x q)).downscale_counter)
        × ((update float x q).upscale_counter
            ≡ (step_level float x (before_step x q)).upscale_counter)
  unfolding update compute_target_resolution
  update-counters x q =
      elim (Bool-cases (step_level float x (before_step x q)).resolution_changed) [
        | inl e ↦ rw e (refl, refl)
        | inr e ↦ rw e (refl, refl)
      ]

  -- One frame that does not fill a counter.
  update_steady :
      (x : Sample F) (q : AdaptiveQuality F)
      → q.downscale_counter + 1 < q.config.downscale_frame_count
      → q.upscale_counter + 1 < q.config.upscale_frame_count
      → ((update float x q).current_level ≡ q.current_level)
        × ((update float x q).downscale_counter ≤ q.downscale_counter + 1)
        × ((update float x q).upscale_counter ≤ q.upscale_counter + 1)
  update_steady x q d u =
      let level = update-level x q in
      let (downs, ups) = update-counters x q in
      let (c, w, h, cases) = step_level-Stepped x (before_step x q) in
      elim cases [
        | inl (e, r, down, up) ↦ (level ∙ e, omega (arith, downs, down), omega (arith, ups, up))
        | inr (inl (room, e, r, full)) ↦ absurd (omega (arith, full))
        | inr (inr (above, e, r, full)) ↦ absurd (omega (arith, full))
      ]

  -- The level stays as it is over fewer frames than either counter lacks: after a change, when both
  -- are 0, a further change takes as many consecutive frames as the configuration says.
  pub run_steady :
      (xs : List (Sample F)) (q : AdaptiveQuality F)
      → q.downscale_counter + length xs < q.config.downscale_frame_count
      → q.upscale_counter + length xs < q.config.upscale_frame_count
      → (run xs q).current_level ≡ q.current_level
  unfolding run
  run_steady [] q d u = refl
  run_steady (x ∷ xs) q d u =
      let (level, down, up) = update_steady x q (omega arith) (omega arith) in
      let same = update-config x q in
      run_steady xs (update float x q) (rw same (omega (arith, down))) (rw same (omega (arith, up)))
      ∙ level
