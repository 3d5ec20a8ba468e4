-- ===== src/Tile/Modes.antt =====
-- The predictors: src/core/simd_predict.cpp, the scalar routines, which the vector ones repeat for
-- eight values at a time.
use omnidesk.Prelude.{
  ℕ, zero, suc, ◌+◌, ◌-◌, ◌*◌, ◌/◌, ◌%◌, ◌^◌, List, [], ◌∷◌, ◌++◌, Option, none, some, ltb, ◌==◌,
  if◌then◌else◌, length, get_or, replicate, take,
}
use omnidesk.Prelude.Int.{to_i16, from_i16, ℤ, pos, negsuc, ◌+ℤ◌, ◌-ℤ◌, ◌*ℤ◌}

-- The borders of a tile: the row above it and the column to its left, where there are any, and the
-- value above and to the left.
pub record Neighbours : Type 0 where
  pub top : Option (List ℕ)
  pub left : Option (List ℕ)
  pub top_left : ℕ

unfoldable pub sum_border : List ℕ → ℤ
unfolding from_i16
sum_border [] = pos 0
sum_border (v ∷ vs) = from_i16 v +ℤ sum_border vs

-- C++ division, towards zero.
unfoldable pub quot : ℤ → ℕ → ℤ
quot (pos n) d = pos (n / d)
quot (negsuc n) d = pos 0 -ℤ pos (suc n / d)

-- The part of a border that a tile of this side reads, none if there is no border.
unfoldable pub border : Option (List ℕ) → ℕ → List ℕ
border none side = []
border (some vs) side = take side vs

unfoldable pub dc_value : Neighbours → ℕ → ℕ → ℕ
unfolding border sum_border quot to_i16
dc_value nb width height =
    let seen : List ℕ = border nb.top width ++ border nb.left height in
    if length seen == 0 then 0 else to_i16 (quot (sum_border seen) (length seen))

unfoldable pub predict_dc : Neighbours → ℕ → ℕ → List ℕ
unfolding dc_value
predict_dc nb width height = replicate (width * height) (dc_value nb width height)

-- The loops over x and y: `f y x` at each place, from `x` on and from `y` on.
unfoldable pub raster_row : (ℕ → ℕ → ℕ) → ℕ → ℕ → ℕ → List ℕ
raster_row f y x zero = []
raster_row f y x (suc width) = f y x ∷ raster_row f y (x + 1) width

unfoldable pub raster : (ℕ → ℕ → ℕ) → ℕ → ℕ → ℕ → List ℕ
unfolding raster_row
raster f width y zero = []
raster f width y (suc height) = raster_row f y 0 width ++ raster f width (y + 1) height

-- `top ? top[x] : 0`. A border holds a value for each row or column of the tile.
unfoldable pub border_at : Option (List ℕ) → ℕ → ℕ
border_at none i = 0
border_at (some vs) i = get_or vs i 0

unfoldable pub predict_h : Neighbours → ℕ → ℕ → List ℕ
unfolding raster border_at
predict_h nb width height = raster (λ y x. border_at nb.left y) width 0 height

unfoldable pub predict_v : Neighbours → ℕ → ℕ → List ℕ
unfolding raster border_at
predict_v nb width height = raster (λ y x. border_at nb.top x) width 0 height

-- The blend at one place, with `std::max(wh - 2, 1)`.
unfoldable pub planar_at : Neighbours → ℕ → ℕ → ℕ → ℕ → ℕ
unfolding border_at from_i16 to_i16 quot
planar_at nb width height y x =
    let wh : ℕ = width + height in
    let blend : ℤ =
      pos (height - 1 - y) *ℤ from_i16 (border_at nb.top x)
      +ℤ pos (width - 1 - x) *ℤ from_i16 (border_at nb.left y)
      +ℤ pos (y + x) *ℤ from_i16 nb.top_left
      +ℤ pos (wh / 2) in
    to_i16 (quot blend (if ltb 2 wh then wh - 2 else 1))

unfoldable pub predict_planar : Neighbours → ℕ → ℕ → List ℕ
unfolding raster planar_at
predict_planar nb width height = raster (planar_at nb width height) width 0 height

-- |a - b| of two int16_t values, in int.
unfoldable pub distance : ℕ → ℕ → ℕ
distance a b =
    let x : ℕ = (a + 2 ^ 15) % 2 ^ 16 in let y : ℕ = (b + 2 ^ 15) % 2 ^ 16 in x - y + (y - x)

-- The sum over the values of `a`.
unfoldable pub compute_sad : List ℕ → List ℕ → ℕ
unfolding distance
compute_sad [] bs = 0
compute_sad (a ∷ xs) [] = 0
compute_sad (a ∷ xs) (b ∷ bs) = distance a b + compute_sad xs bs
