-- ===== src/Color.antt =====
-- The lossless colour transform: src/core/simd_ycocg.cpp, the scalar routines, which the vector
-- ones repeat for four pixels at a time. A plane holds a pixel's values as integers. The fourth
-- byte of a pixel is not read, and is written as 255.
pub mod Lossless
mod Examples
use omnidesk.Prelude.{ℕ, ◌/◌, List, [], ◌∷◌, Bool, true, false, ltb, if◌then◌else◌}
use omnidesk.Prelude.Int.{ℤ, pos, negsuc, ◌+ℤ◌, ◌-ℤ◌, to_i16, from_i16}

pub record Pixel : Type 0 where
  pub b : ℕ
  pub g : ℕ
  pub r : ℕ

pub record YCoCg : Type 0 where
  pub y : ℤ
  pub co : ℤ
  pub cg : ℤ

-- `a >> 1`, an arithmetic shift.
unfoldable pub half : ℤ → ℤ
half (pos n) = pos (n / 2)
half (negsuc n) = negsuc (n / 2)

-- The components as ints; `stored` casts them.
unfoldable pub to_ycocg : Pixel → YCoCg
unfolding half
to_ycocg p =
    let co : ℤ = pos p.r -ℤ pos p.b in
    let t : ℤ = pos p.b +ℤ half co in
    let cg : ℤ = pos p.g -ℤ t in record { y = t +ℤ half cg; co = co; cg = cg }

-- static_cast<int16_t> of the components, as they go into the planes.
unfoldable pub stored : YCoCg → YCoCg
stored v = record {
  y = from_i16 (to_i16 v.y);
  co = from_i16 (to_i16 v.co);
  cg = from_i16 (to_i16 v.cg);
}

-- std::clamp(v, 0, 255)
unfoldable pub clamp : ℤ → ℕ
clamp (pos n) = if ltb 255 n then 255 else n
clamp (negsuc n) = 0

unfoldable pub from_ycocg : YCoCg → Pixel
unfolding half clamp
from_ycocg v =
    let t : ℤ = v.y -ℤ half v.cg in
    let b : ℤ = t -ℤ half v.co in
    record { b = clamp b; g = clamp (v.cg +ℤ t); r = clamp (v.co +ℤ b) }

-- A frame, row by row.
unfoldable pub bgra_to_ycocg : List Pixel → List YCoCg
unfolding to_ycocg stored
bgra_to_ycocg [] = []
bgra_to_ycocg (p ∷ ps) = stored (to_ycocg p) ∷ bgra_to_ycocg ps

unfoldable pub ycocg_to_bgra : List YCoCg → List Pixel
unfolding from_ycocg
ycocg_to_bgra [] = []
ycocg_to_bgra (v ∷ vs) = from_ycocg v ∷ ycocg_to_bgra vs
