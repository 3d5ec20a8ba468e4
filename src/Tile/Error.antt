-- ===== src/Tile/Error.antt =====
-- How far quantization moves a value.
use native.Mathlib.Nat.{div-add-mod, mod-lt, div-le_self}
use omnidesk.Prelude.{
  ℕ, ◌+◌, ◌*◌, ◌-◌, ◌/◌, ◌%◌, ◌^◌, ◌≤◌, ◌<◌, ◌≡◌, ap, ◌⊎◌, inl, inr, List, [], ◌∷◌, ◌++◌, arith,
  All, length, map, ltb, Bool-cases,
}
use omnidesk.Bytes.{IsU16}
use omnidesk.Tile.Samples.{sub_i16, add_i16}
use omnidesk.Tile.Modes.{Neighbours, predict_dc, predict_h, predict_v, predict_planar}
use omnidesk.Tile.Select.{
  PredMode, dc, horizontal, vertical, planar, left_pixel, reserved, prediction, zip_i16,
  apply_prediction, inverse_prediction,
}
use omnidesk.Tile.Undo.{
  sub_i16-IsU16, length-predict_dc, length-predict_h, length-predict_v, length-predict_planar,
}
use omnidesk.Tile.Coder.{quantize_residual, dequantize_residual}

-- Two int16_t values lie at most `e` apart, modulo 2^16.
abbrev pub Near : ℕ → ℕ → ℕ → Type 0
Near e x x' = ((x' + 2 ^ 16 - x) % 2 ^ 16 ≤ e) ⊎ (2 ^ 16 - e ≤ (x' + 2 ^ 16 - x) % 2 ^ 16)

-- A quotient to the nearest, times its divisor.
nearest : (v q : ℕ) → 0 < q → ((v + q / 2) / q * q ≤ v + q / 2) × (v ≤ (v + q / 2) / q * q + q / 2)
nearest v q h =
    let whole = div-add-mod (v + q / 2) q in
    let rest : (v + q / 2) % q < q = mod-lt (v + q / 2) h in omega (arith, whole, rest)

-- The negative of a product, in 16 bits.
negated : (k q : ℕ) → k < 2 ^ 16 → ((2 ^ 16 - k) % 2 ^ 16 * q % 2 ^ 16 + k * q) % 2 ^ 16 ≡ 0
negated k q h =
    let rest : ℕ = (2 ^ 16 - k) % 2 ^ 16 in
    let whole : (rest + k ≡ 2 ^ 16) ⊎ (rest + k ≡ 0) = omega arith in
    let product : (rest * q + k * q ≡ 2 ^ 16 * q) ⊎ (rest * q + k * q ≡ 0) = elim whole [
      | inl e ↦ inl (omega (arith, ap (λ (n : ℕ). n * q) e))
      | inr e ↦ inr (omega (arith, ap (λ (n : ℕ). n * q) e))
    ] in
    omega (arith, product)

-- A residual comes back from its quantization within half a step.
pub dequantize-Near :
    (q u : ℕ)
    → 0 < q
    → q < 2 ^ 8
    → IsU16 u
    → Near (q / 2) u (dequantize_residual q (quantize_residual q u))
unfolding dequantize_residual quantize_residual
dequantize-Near q u h k b =
    let up = nearest u q h in
    let down = nearest (2 ^ 16 - u) q h in
    elim (Bool-cases (ltb u (2 ^ 15))) [
      | inl e ↦ rw e (omega (arith, up))
      | inr e ↦
          let high : 2 ^ 15 ≤ u = ground (arith, e) in
          let small = div-le_self (2 ^ 16 - u + q / 2) q in
          let turned = negated ((2 ^ 16 - u + q / 2) / q) q (omega (arith, small)) in
          rw e (omega (arith, down, turned))
    ]

-- Values that lie pairwise at most `e` apart.
abbrev pub AllNear : ℕ → List ℕ → List ℕ → Type 0
AllNear e [] [] = Unit
AllNear e [] (y ∷ ys) = ⊥
AllNear e (x ∷ xs) [] = ⊥
AllNear e (x ∷ xs) (y ∷ ys) = Near e x y × AllNear e xs ys

-- The step there and back over a list.
abbrev pub requantize : ℕ → List ℕ → List ℕ
requantize q us = map (dequantize_residual q) (map (quantize_residual q) us)

-- What moves the residual moves the value that is rebuilt from it.
shifted : (e v p d : ℕ) → IsU16 v → e < 2 ^ 8 → Near e (sub_i16 v p) d → Near e v (add_i16 d p)
unfolding sub_i16 add_i16
shifted e v p d h k n =
    let same : ((d + p) % 2 ^ 16 + 2 ^ 16 - v) % 2 ^ 16
        ≡ (d + 2 ^ 16 - (v + 2 ^ 16 - p % 2 ^ 16) % 2 ^ 16) % 2 ^ 16 =
      omega arith in
    rw same n

-- With a prediction that does not depend on the values, no error exceeds half a step.
pub zip_near :
    (q : ℕ) (src p t t' : List ℕ)
    → 0 < q
    → q < 2 ^ 8
    → length src ≤ length p
    → All IsU16 src
    → AllNear (q / 2) src (zip_i16 add_i16 (requantize q (zip_i16 sub_i16 src (p ++ t))) (p ++ t'))
unfolding zip_i16
zip_near q [] p t t' h k n a = tt
zip_near q (v ∷ src) [] t t' h k n a = absurd (omega arith)
zip_near q (v ∷ src) (x ∷ p) t t' h k n (b, a) = (
  shifted (q / 2) v x _ b (omega arith) (dequantize-Near q (sub_i16 v x) h k (sub_i16-IsU16 v x)),
  zip_near q src p t t' h k (omega arith) a,
)

-- The modes that predict from the borders alone.
abbrev pub FromBorders : PredMode → Type 0
FromBorders left_pixel = ⊥
FromBorders (reserved n) = ⊥
FromBorders mode = Unit

pub apply_inverse_near :
    (q : ℕ) (src : List ℕ) (w h : ℕ) (mode : PredMode) (nb : Neighbours) (old old' : List ℕ)
    → 0 < q
    → q < 2 ^ 8
    → length src ≡ h * w
    → All IsU16 src
    → FromBorders mode
    → AllNear
        (q / 2)
        src
        (inverse_prediction
          (requantize q (apply_prediction src w h mode nb old).0)
          w
          h
          mode
          nb
          old').0
unfolding inverse_prediction apply_prediction prediction
apply_inverse_near q src w h dc nb old old' pos small e a m =
    zip_near q src (predict_dc nb w h) _ _ pos small (omega (arith, length-predict_dc nb w h)) a
apply_inverse_near q src w h horizontal nb old old' pos small e a m =
    zip_near q src (predict_h nb w h) _ _ pos small (omega (arith, length-predict_h nb w h)) a
apply_inverse_near q src w h vertical nb old old' pos small e a m =
    zip_near q src (predict_v nb w h) _ _ pos small (omega (arith, length-predict_v nb w h)) a
apply_inverse_near q src w h planar nb old old' pos small e a m =
    zip_near q src (predict_planar nb w h) _ _ pos small
      (omega (arith, length-predict_planar nb w h)) a
apply_inverse_near q src w h left_pixel nb old old' pos small e a m = absurd m
apply_inverse_near q src w h (reserved n) nb old old' pos small e a m = absurd m
