-- ===== src/Quality/Examples.antt =====
-- Text at a middling and at a low quantizer.

use omnidesk.Prelude.Int.{pos, ◌≤ℤ◌}
use omnidesk.Quality.{text, motion, static, default_tuner, adjust_qp}
use omnidesk.Quality.Range.{adjust_qp-range, default_tuner-order}

adjust_qp-range_example :
    (pos 0 ≤ℤ adjust_qp default_tuner (pos 10) text)
    × (adjust_qp default_tuner (pos 10) text ≤ℤ pos 51)
    × (pos 10 ≤ℤ pos 26
        → adjust_qp default_tuner (pos 10) text ≤ℤ adjust_qp default_tuner (pos 26) text)
adjust_qp-range_example = adjust_qp-range default_tuner (pos 10) (pos 26) text

default_tuner-order_example :
    (adjust_qp default_tuner (pos 26) text ≤ℤ adjust_qp default_tuner (pos 26) static)
    × (adjust_qp default_tuner (pos 26) static ≤ℤ adjust_qp default_tuner (pos 26) motion)
default_tuner-order_example = default_tuner-order (pos 26) static
