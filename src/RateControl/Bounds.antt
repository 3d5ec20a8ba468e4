-- ===== src/RateControl/Bounds.antt =====
-- The bitrate stays within its bounds, and the recommendations follow it.
use mathlib.Core.Path.{subst}
use omnidesk.Prelude.{
  ℕ, sym, ◌∙◌, ◌⊎◌, ◌&&◌, ◌+◌, ◌^◌, ◌≤◌, ◌<◌, ◌≡◌, refl, List, [], ◌∷◌, Bool, true, false,
  Bool-cases, inl, inr, arith, ltb, leb, if◌then◌else◌,
}
use omnidesk.RateControl.{
  Float, Config, QualityReport, Controller, set_config, congested, next_bitrate, adjust,
  on_quality_report, downscale_bitrate_bps, upscale_bitrate_bps,
}

module _ {F : Type 0} where
  -- The bounds are in order and the increase does not wrap.
  pub record IsConfig (c : Config F) : Type 0 where
    pub ordered : c.min_bitrate_bps ≤ c.max_bitrate_bps
    pub no_wrap : c.max_bitrate_bps + c.additive_increase_bps < 2 ^ 32

  -- A decrease by the configured factor, which is at most 1, does not increase a bitrate.
  abbrev pub Decreases : Float F → Config F → Type 0
  Decreases float c =
      (b : ℕ) → b < 2 ^ 32 → float.to_u32 (float.mul (float.of_u32 b) c.multiplicative_decrease) ≤ b

  abbrev pub Within : Controller F → Type 0
  Within c =
      (c.config.min_bitrate_bps ≤ c.current_bitrate_bps)
      × (c.current_bitrate_bps ≤ c.config.max_bitrate_bps)

  -- The recommendations are those for the bitrate: never both.
  abbrev pub Recommends : Controller F → Type 0
  Recommends c =
      (c.should_downscale ≡ ltb c.current_bitrate_bps downscale_bitrate_bps)
      × (c.can_upscale ≡ leb upscale_bitrate_bps c.current_bitrate_bps)

module _ {F : Type 0} (float : Float F) where
  next_bitrate-bounds :
      (b : Bool) (c : Controller F)
      → IsConfig c.config
      → Decreases float c.config
      → Within c
      → (c.config.min_bitrate_bps ≤ next_bitrate float b c)
        × (next_bitrate float b c ≤ c.config.max_bitrate_bps)
  unfolding next_bitrate
  next_bitrate-bounds true c v d w =
      ground (arith, v.ordered, v.no_wrap, d c.current_bitrate_bps (omega (arith, v.no_wrap, w)))
  next_bitrate-bounds false c v d w = ground (arith, v.ordered, v.no_wrap)

  -- One report keeps the bitrate within its bounds and the configuration as it was.
  pub on_quality_report-Within :
      (report : QualityReport F) (c : Controller F)
      → IsConfig c.config
      → Decreases float c.config
      → Within c
      → Within (on_quality_report float report c)
        × ((on_quality_report float report c).config ≡ c.config)
  unfolding on_quality_report adjust
  on_quality_report-Within report c v d w =
      elim (Bool-cases (
        float.less
          (float.sub
            (float.add c.elapsed_ms
              (if float.less report.rtt_ms float.sixteen then float.sixteen else report.rtt_ms))
            c.last_adjust_time_ms)
          c.config.min_adjust_interval_ms)) [
            | inl early ↦ rw (on_quality_report, early) (w, refl)
            | inr due ↦ rw (on_quality_report, due) (next_bitrate-bounds _ _ v d w, refl)
          ]

  -- The controller after some reports.
  unfoldable pub after : List (QualityReport F) → Controller F → Controller F
  unfolding on_quality_report
  after [] c = c
  after (report ∷ reports) c = after reports (on_quality_report float report c)

  -- Whatever the reports, a bitrate within its bounds stays so and the configuration is kept, if
  -- the bounds are in order, the increase does not wrap and the decrease does not increase.
  pub after-Within :
      (reports : List (QualityReport F)) (c : Controller F)
      → IsConfig c.config
      → Decreases float c.config
      → Within c
      → Within (after reports c) × ((after reports c).config ≡ c.config)
  unfolding after
  after-Within [] c v d w = (w, refl)
  after-Within (report ∷ reports) c v d w =
      let (in_bounds, same) = on_quality_report-Within report c v d w in
      let later =
        after-Within reports (on_quality_report float report c)
          (subst (λ (k : Config F). IsConfig k) (sym same) v)
          (subst (λ (k : Config F). Decreases float k) (sym same) d) in_bounds in
      (later.0, later.1 ∙ same)

  -- What an adjustment does to the bitrate: on a congested network it becomes the decreased one, or
  -- the minimum if that is more, and does not rise; otherwise it becomes the increased one, or the
  -- maximum if that is less.
  abbrev pub Adjusted : QualityReport F → Controller F → ℕ → Type 0
  Adjusted report c bitrate =
      let decreased : ℕ =
        float.to_u32
          (float.mul (float.of_u32 c.current_bitrate_bps) c.config.multiplicative_decrease) in
      let increased : ℕ = c.current_bitrate_bps + c.config.additive_increase_bps in
      ((congested float c report ≡ true)
        × (bitrate ≤ c.current_bitrate_bps)
        × (((c.config.min_bitrate_bps ≤ decreased) × (bitrate ≡ decreased))
            ⊎ ((decreased < c.config.min_bitrate_bps) × (bitrate ≡ c.config.min_bitrate_bps))))
      ⊎ ((congested float c report ≡ false)
          × (((increased ≤ c.config.max_bitrate_bps) × (bitrate ≡ increased))
              ⊎ ((c.config.max_bitrate_bps < increased) × (bitrate ≡ c.config.max_bitrate_bps))))

  -- If the configured bounds are in order, the increase does not wrap, the decrease does not
  -- increase and the bitrate is within the bounds: a report that is not ignored makes it, on a
  -- congested network, the bitrate decreased by the factor, or the minimum if that is more, and never
  -- more than it was; otherwise the bitrate increased, or the maximum if that is less.
  pub adjust-direction :
      (report : QualityReport F) (c : Controller F)
      → IsConfig c.config
      → Decreases float c.config
      → Within c
      → Adjusted report c (adjust float report c).current_bitrate_bps
  unfolding adjust next_bitrate
  adjust-direction report c v d w = elim (Bool-cases (congested float c report)) [
    | inl bad ↦
        let lower = d c.current_bitrate_bps (omega (arith, v.no_wrap, w)) in
        rw bad (inl (refl, ground (arith, lower, w), ground arith))
    | inr good ↦ rw good (inr (refl, ground (arith, v.no_wrap, w)))
  ]

  -- The recommendations of an adjusted controller are never both given, and follow its bitrate.
  pub adjust-Recommends :
      (report : QualityReport F) (c : Controller F)
      → Recommends (adjust float report c)
        × (((adjust float report c).should_downscale && (adjust float report c).can_upscale)
            ≡ false)
  unfolding adjust
  adjust-Recommends report c = ((refl, refl), ground arith)

  -- A new configuration brings the bitrate within its bounds.
  pub set_config-Within :
      (config : Config F) (c : Controller F)
      → config.min_bitrate_bps ≤ config.max_bitrate_bps
      → Within (set_config float config c)
  unfolding set_config
  set_config-Within config c v = ground (arith, v)
