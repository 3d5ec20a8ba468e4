-- ===== src/Color/Lossless.antt =====
-- The transform loses nothing, and its planes fit sixteen bits.
use omnidesk.Prelude.{ℕ, ◌+◌, ◌≤◌, ◌≡◌, refl, ap, ◌∙◌, List, [], ◌∷◌, arith, All}
use omnidesk.Prelude.Int.{
  ℤ, pos, negsuc, ◌+ℤ◌, ◌-ℤ◌, ◌≤ℤ◌, int_laws, +ℤ_parts, -ℤ_parts, pos_part, neg_part,
  from_i16-to_i16,
}
use omnidesk.Bytes.{IsByte}
use omnidesk.Color.{Pixel, half, to_ycocg, stored, from_ycocg, clamp, bgra_to_ycocg, ycocg_to_bgra}

pub record IsPixel (p : Pixel) : Type 0 where
  pub b : IsByte p.b
  pub g : IsByte p.g
  pub r : IsByte p.r

clamp_byte : (n : ℕ) → IsByte n → clamp (pos n) ≡ n
unfolding clamp
clamp_byte n h = ground arith

add_sub : (a b : ℤ) → a +ℤ b -ℤ b ≡ a
add_sub a b = omega int_laws

sub_add : (a b : ℤ) → a -ℤ b +ℤ b ≡ a
sub_add a b = omega int_laws

-- A pixel is found again exactly.
pub from_ycocg-to_ycocg : (p : Pixel) → IsPixel p → from_ycocg (to_ycocg p) ≡ p
unfolding from_ycocg to_ycocg
from_ycocg-to_ycocg p h =
    rw
      (
        add_sub (pos p.b +ℤ half (pos p.r -ℤ pos p.b))
            (half (pos p.g -ℤ (pos p.b +ℤ half (pos p.r -ℤ pos p.b)))),
        add_sub (pos p.b) (half (pos p.r -ℤ pos p.b)),
        sub_add (pos p.g) (pos p.b +ℤ half (pos p.r -ℤ pos p.b)),
        sub_add (pos p.r) (pos p.b),
        clamp_byte p.b h.b,
        clamp_byte p.g h.g,
        clamp_byte p.r h.r,
      )
      refl

-- Twice the half is the number or one less.
half_lem :
    (a : ℤ)
    → (pos_part (half a) + pos_part (half a) + neg_part a
        ≤ pos_part a + neg_part (half a) + neg_part (half a))
      × (pos_part a + neg_part (half a) + neg_part (half a)
          ≤ pos_part (half a) + pos_part (half a) + neg_part a + 1)
unfolding half
half_lem (pos n) = omega arith
half_lem (negsuc n) = omega arith

-- The luma is a byte, and the two chroma values lie within 255 of 0, so no cast to int16_t cuts.
pub to_ycocg-bounds :
    (p : Pixel)
    → IsPixel p
    → ((pos 0 ≤ℤ (to_ycocg p).y) × ((to_ycocg p).y ≤ℤ pos 255))
      × ((negsuc 254 ≤ℤ (to_ycocg p).co) × ((to_ycocg p).co ≤ℤ pos 255))
      × ((negsuc 254 ≤ℤ (to_ycocg p).cg) × ((to_ycocg p).cg ≤ℤ pos 255))
unfolding to_ycocg
to_ycocg-bounds p h =
    let co : ℤ = pos p.r -ℤ pos p.b in
    let t : ℤ = pos p.b +ℤ half co in
    let cg : ℤ = pos p.g -ℤ t in
    let r_b = -ℤ_parts (pos p.r) (pos p.b) in
    let b_half = +ℤ_parts (pos p.b) (half co) in
    let g_t = -ℤ_parts (pos p.g) t in
    let t_half = +ℤ_parts t (half cg) in
    let h_co = half_lem co in
    let h_cg = half_lem cg in omega (arith, r_b, b_half, g_t, t_half, h_co, h_cg, h.b, h.g, h.r)

-- No cast cuts.
pub stored-to_ycocg : (p : Pixel) → IsPixel p → stored (to_ycocg p) ≡ to_ycocg p
unfolding stored
stored-to_ycocg p h =
    let bounds = to_ycocg-bounds p h in
    rw
      (
        from_i16-to_i16 (to_ycocg p).y (omega (arith, bounds)) (omega (arith, bounds)),
        from_i16-to_i16 (to_ycocg p).co (omega (arith, bounds)) (omega (arith, bounds)),
        from_i16-to_i16 (to_ycocg p).cg (omega (arith, bounds)) (omega (arith, bounds)),
      )
      refl

-- A frame of byte components comes back exactly from its three planes.
pub ycocg_to_bgra-bgra_to_ycocg :
    (ps : List Pixel) → All IsPixel ps → ycocg_to_bgra (bgra_to_ycocg ps) ≡ ps
unfolding bgra_to_ycocg ycocg_to_bgra
ycocg_to_bgra-bgra_to_ycocg [] h = refl
ycocg_to_bgra-bgra_to_ycocg (p ∷ ps) (h, hs) =
    let pixel = ap from_ycocg (stored-to_ycocg p h) ∙ from_ycocg-to_ycocg p h in
    ap (λ (q : Pixel). q ∷ ycocg_to_bgra (bgra_to_ycocg ps)) pixel
    ∙ ap (λ (qs : List Pixel). p ∷ qs) (ycocg_to_bgra-bgra_to_ycocg ps hs)
