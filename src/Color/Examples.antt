-- ===== src/Color/Examples.antt =====
-- A few pixels.
use omnidesk.Prelude.{◌≡◌, [], ◌∷◌, arith}
use omnidesk.Prelude.Int.{pos, negsuc, ◌≤ℤ◌}
use omnidesk.Color.{Pixel, to_ycocg, bgra_to_ycocg, ycocg_to_bgra}
use omnidesk.Color.Lossless.{IsPixel, ycocg_to_bgra-bgra_to_ycocg, to_ycocg-bounds}

abbrev orange : Pixel
orange = record { b = 0; g = 165; r = 255 }

abbrev blue : Pixel
blue = record { b = 255; g = 3; r = 0 }

orange-IsPixel : IsPixel orange
orange-IsPixel = record { b = omega arith; g = omega arith; r = omega arith }

blue-IsPixel : IsPixel blue
blue-IsPixel = record { b = omega arith; g = omega arith; r = omega arith }

ycocg_to_bgra-bgra_to_ycocg_example :
    ycocg_to_bgra (bgra_to_ycocg (orange ∷ blue ∷ [])) ≡ orange ∷ blue ∷ []
ycocg_to_bgra-bgra_to_ycocg_example =
    ycocg_to_bgra-bgra_to_ycocg (orange ∷ blue ∷ []) (orange-IsPixel, (blue-IsPixel, tt))

to_ycocg-bounds_example :
    ((pos 0 ≤ℤ (to_ycocg blue).y) × ((to_ycocg blue).y ≤ℤ pos 255))
    × ((negsuc 254 ≤ℤ (to_ycocg blue).co) × ((to_ycocg blue).co ≤ℤ pos 255))
    × ((negsuc 254 ≤ℤ (to_ycocg blue).cg) × ((to_ycocg blue).cg ≤ℤ pos 255))
to_ycocg-bounds_example = to_ycocg-bounds blue blue-IsPixel
