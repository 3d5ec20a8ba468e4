-- ===== src/Tile/Samples.antt =====
-- The int16_t values of a plane as 16-bit patterns, and the rows of a flat plane.
use omnidesk.Prelude.{
  ℕ, zero, suc, ◌+◌, ◌-◌, ◌*◌, ◌%◌, ◌^◌, ◌≡◌, refl, List, [], ◌∷◌, ◌++◌, arith, length, take, drop,
  take-append-drop, length-drop,
}

-- `a - b` and `a + b`, stored in an int16_t.
unfoldable pub sub_i16 : ℕ → ℕ → ℕ
sub_i16 a b = (a + 2 ^ 16 - b % 2 ^ 16) % 2 ^ 16

unfoldable pub add_i16 : ℕ → ℕ → ℕ
add_i16 a b = (a + b) % 2 ^ 16

-- The rows of a plane of `height` rows of `width` values.
unfoldable pub rows : ℕ → ℕ → List ℕ → List (List ℕ)
rows width zero plane = []
rows width (suc height) plane = take width plane ∷ rows width height (drop width plane)

unfoldable pub flat : List (List ℕ) → List ℕ
flat [] = []
flat (row ∷ rest) = row ++ flat rest

pub flat-rows :
    (width height : ℕ) (plane : List ℕ)
    → length plane ≡ height * width
    → flat (rows width height plane) ≡ plane
unfolding rows flat
flat-rows width zero [] h = refl
flat-rows width zero (v ∷ plane) h = absurd (omega arith)
flat-rows width (suc height) plane h =
    rw (flat-rows width height (drop width plane) (omega (arith, length-drop width plane)))
      (take-append-drop width plane)
