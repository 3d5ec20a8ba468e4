-- ===== src/Tile/Choice.antt =====
-- The mode that selectPredMode chooses, and the modes' codes.
use omnidesk.Prelude.{
  ℕ, ◌-◌, ◌^◌, ◌<◌, ◌≡◌, refl, List, arith, ltb, not, ◌&&◌, Bool-cases, Option-cases, inl, inr,
}
use omnidesk.Tile.Modes.{Neighbours, predict_dc, compute_sad}
use omnidesk.Tile.Select.{
  PredMode, dc, horizontal, vertical, planar, left_pixel, reserved, mode_code, mode_of, try_mode,
  try_h, try_v, try_planar, select_full, select_without_borders, select_pred_mode, left_residual,
  sum_abs, present,
}
use omnidesk.Tile.Undo.{IsMode}
use omnidesk.Tile.Coder.{Channels, select_modes}
use omnidesk.Tile.Planes.{AreModes}

pub mode_code-lt : (m : PredMode) → IsMode m → mode_code m < 8
unfolding mode_code
mode_code-lt dc h = omega arith
mode_code-lt horizontal h = omega arith
mode_code-lt vertical h = omega arith
mode_code-lt planar h = omega arith
mode_code-lt left_pixel h = omega arith
mode_code-lt (reserved n) h = absurd h

pub mode_of-mode_code : (m : PredMode) → IsMode m → mode_of (mode_code m) ≡ m
unfolding mode_code mode_of
mode_of-mode_code dc h = refl
mode_of-mode_code horizontal h = refl
mode_of-mode_code vertical h = refl
mode_of-mode_code planar h = refl
mode_of-mode_code left_pixel h = refl
mode_of-mode_code (reserved n) h = absurd h

-- The mode is one of the five.
abbrev Chosen : ℕ × PredMode → Type 0
Chosen best = IsMode best.1

try_mode-Chosen :
    (sad : ℕ) (m : PredMode) (best : ℕ × PredMode)
    → IsMode m
    → Chosen best
    → Chosen (try_mode sad m best)
unfolding try_mode
try_mode-Chosen sad m best h k = elim (Bool-cases (ltb sad best.0)) [
  | inl e ↦ rw e h
  | inr e ↦ rw e k
]

try_h-Chosen :
    (channel : List ℕ) (w h : ℕ) (nb : Neighbours) (best : ℕ × PredMode)
    → Chosen best
    → Chosen (try_h channel w h nb best)
unfolding try_h
try_h-Chosen channel w h nb best k = elim (Option-cases nb.left) [
  | inl e ↦ rw e k
  | inr (border, e) ↦ rw e (try_mode-Chosen _ horizontal best tt k)
]

try_v-Chosen :
    (channel : List ℕ) (w h : ℕ) (nb : Neighbours) (best : ℕ × PredMode)
    → Chosen best
    → Chosen (try_v channel w h nb best)
unfolding try_v
try_v-Chosen channel w h nb best k = elim (Option-cases nb.top) [
  | inl e ↦ rw e k
  | inr (border, e) ↦ rw e (try_mode-Chosen _ vertical best tt k)
]

try_planar-Chosen :
    (channel : List ℕ) (w h : ℕ) (nb : Neighbours) (best : ℕ × PredMode)
    → Chosen best
    → Chosen (try_planar channel w h nb best)
unfolding try_planar
try_planar-Chosen channel w h nb best k = elim (Option-cases nb.top) [
  | inl e ↦ rw e k
  | inr (border, e) ↦ elim (Option-cases nb.left) [
    | inl e' ↦ rw (e, e') k
    | inr (border', e') ↦ rw (e, e') (try_mode-Chosen _ planar best tt k)
  ]
]

select_full-IsMode :
    (channel : List ℕ) (w h : ℕ) (nb : Neighbours) → IsMode (select_full channel w h nb)
unfolding select_full
select_full-IsMode channel w h nb =
    let first =
      try_mode-Chosen (compute_sad channel (predict_dc nb w h)) dc (2 ^ 64 - 1, left_pixel) tt tt in
    try_mode-Chosen (sum_abs (left_residual channel w h)) left_pixel _ tt (
      try_planar-Chosen channel w h nb _
        (try_v-Chosen channel w h nb _ (try_h-Chosen channel w h nb _ first)))

select_without_borders-IsMode :
    (channel : List ℕ) (w h : ℕ) → IsMode (select_without_borders channel w h)
unfolding select_without_borders
select_without_borders-IsMode channel w h =
    elim (Bool-cases (ltb (sum_abs (left_residual channel w h)) (sum_abs channel))) [
      | inl e ↦ rw e tt
      | inr e ↦ rw e tt
    ]

pub select_pred_mode-IsMode :
    (channel : List ℕ) (w h : ℕ) (nb : Neighbours) → IsMode (select_pred_mode channel w h nb)
unfolding select_pred_mode
select_pred_mode-IsMode channel w h nb =
    elim (Bool-cases (not (present nb.top) && not (present nb.left))) [
      | inl e ↦ rw e (select_without_borders-IsMode channel w h)
      | inr e ↦ rw e (select_full-IsMode channel w h nb)
    ]

pub select_modes-AreModes :
    (p : Channels (List ℕ)) (w h : ℕ) (nb : Channels Neighbours) → AreModes (select_modes p w h nb)
unfolding select_modes
select_modes-AreModes p w h nb = record {
  y = select_pred_mode-IsMode p.y w h nb.y;
  co = select_pred_mode-IsMode p.co w h nb.co;
  cg = select_pred_mode-IsMode p.cg w h nb.cg;
}
