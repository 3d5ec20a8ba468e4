-- ===== src/Quality/Range.antt =====
-- What the tuner promises of the quantizers it chooses.
use omnidesk.Prelude.{arith}
use omnidesk.Prelude.Int.{ℤ, pos, negsuc, ◌+ℤ◌, ◌≤ℤ◌, int_laws}
use omnidesk.Quality.{
  ContentType, unknown, text, motion, static, QualityTuner, default_tuner, clamp_qp, tune,
  adjust_qp,
}

clamp_qp-range : (q : ℤ) → (pos 0 ≤ℤ clamp_qp q) × (clamp_qp q ≤ℤ pos 51)
unfolding clamp_qp
clamp_qp-range q = ground arith

clamp_qp-mono : (a b : ℤ) → a ≤ℤ b → clamp_qp a ≤ℤ clamp_qp b
unfolding clamp_qp
clamp_qp-mono a b h = ground (arith, h)

-- The quantizer lies in the range of H.264, whatever the deltas, and a higher base never lowers it.
pub adjust_qp-range :
    (t : QualityTuner) (a b : ℤ) (type : ContentType)
    → (pos 0 ≤ℤ adjust_qp t a type)
      × (adjust_qp t a type ≤ℤ pos 51)
      × (a ≤ℤ b → adjust_qp t a type ≤ℤ adjust_qp t b type)
unfolding adjust_qp tune
adjust_qp-range t a b text = (
  (clamp_qp-range (a +ℤ t.text_qp_delta)).0,
  (clamp_qp-range (a +ℤ t.text_qp_delta)).1,
  λ h. clamp_qp-mono (a +ℤ t.text_qp_delta) (b +ℤ t.text_qp_delta) (omega (int_laws, h)),
)
adjust_qp-range t a b motion = (
  (clamp_qp-range (a +ℤ t.motion_qp_delta)).0,
  (clamp_qp-range (a +ℤ t.motion_qp_delta)).1,
  λ h. clamp_qp-mono (a +ℤ t.motion_qp_delta) (b +ℤ t.motion_qp_delta) (omega (int_laws, h)),
)
adjust_qp-range t a b static =
    ((clamp_qp-range a).0, (clamp_qp-range a).1, λ h. clamp_qp-mono a b h)
adjust_qp-range t a b unknown =
    ((clamp_qp-range a).0, (clamp_qp-range a).1, λ h. clamp_qp-mono a b h)

-- With the deltas that are not set, text is coded no coarser than the rest, and motion no finer.
pub default_tuner-order :
    (q : ℤ) (type : ContentType)
    → (adjust_qp default_tuner q text ≤ℤ adjust_qp default_tuner q type)
      × (adjust_qp default_tuner q type ≤ℤ adjust_qp default_tuner q motion)
unfolding adjust_qp tune
default_tuner-order q type = go type
  where
    finer : clamp_qp (q +ℤ negsuc 14) ≤ℤ clamp_qp q
    finer = clamp_qp-mono (q +ℤ negsuc 14) q (omega int_laws)

    coarser : clamp_qp q ≤ℤ clamp_qp (q +ℤ pos 4)
    coarser = clamp_qp-mono q (q +ℤ pos 4) (omega int_laws)

    whole : clamp_qp (q +ℤ negsuc 14) ≤ℤ clamp_qp (q +ℤ pos 4)
    whole = clamp_qp-mono (q +ℤ negsuc 14) (q +ℤ pos 4) (omega int_laws)

    go :
        (type : ContentType)
        → (clamp_qp (q +ℤ negsuc 14) ≤ℤ adjust_qp default_tuner q type)
          × (adjust_qp default_tuner q type ≤ℤ clamp_qp (q +ℤ pos 4))
    go text = (omega arith, whole)
    go motion = (whole, omega arith)
    go static = (finer, coarser)
    go unknown = (finer, coarser)
