-- ===== src/Quality.antt =====
-- The quantizer choice for a region: src/codec/quality_tuner.h and src/codec/quality_tuner.cpp, with
-- ContentType of src/core/types.h. A QP is an integer; an int that overflows is not modelled.
pub mod Range
mod Examples
use omnidesk.Prelude.{Bool, true, false, if◌then◌else◌}
use omnidesk.Prelude.Int.{ℤ, pos, negsuc, ◌+ℤ◌, ltb_ℤ}

pub data ContentType : Type 0 where
  unknown text motion static : ContentType

pub record QpAdjustment : Type 0 where
  pub qp : ℤ
  pub skip : Bool

pub record QualityTuner : Type 0 where
  pub text_qp_delta : ℤ
  pub motion_qp_delta : ℤ

-- The deltas of a tuner that has not been set: -15 and 4.
abbrev pub default_tuner : QualityTuner
default_tuner = record { text_qp_delta = negsuc 14; motion_qp_delta = pos 4 }

-- std::clamp(qp, 0, 51)
unfoldable pub clamp_qp : ℤ → ℤ
clamp_qp qp = if ltb_ℤ qp (pos 0) then pos 0 else if ltb_ℤ (pos 51) qp then pos 51 else qp

unfoldable pub tune : QualityTuner → ℤ → ContentType → QpAdjustment
unfolding clamp_qp
tune t base_qp text = record { qp = clamp_qp (base_qp +ℤ t.text_qp_delta); skip = false }
tune t base_qp motion = record { qp = clamp_qp (base_qp +ℤ t.motion_qp_delta); skip = false }
tune t base_qp static = record { qp = clamp_qp base_qp; skip = true }
tune t base_qp unknown = record { qp = clamp_qp base_qp; skip = false }

unfoldable pub adjust_qp : QualityTuner → ℤ → ContentType → ℤ
unfolding tune
adjust_qp t base_qp type = (tune t base_qp type).qp
