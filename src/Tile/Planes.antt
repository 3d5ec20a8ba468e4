-- ===== src/Tile/Planes.antt =====
-- The planes of a tile give its pixels back.
use native.Mathlib.Nat.{mul_comm}
use mathlib.Core.List.{append-nil}
use omnidesk.Prelude.{
  ℕ, suc, ◌*◌, ◌≡◌, refl, ap, ◌∙◌, sym, List, [], ◌∷◌, ◌++◌, arith, All, All-append, map, length,
  length-map, length-append, take, drop, take-append, drop-append,
}
use omnidesk.Prelude.Int.{ℤ, pos, negsuc, to_i16}
use omnidesk.Bytes.{IsU16}
use omnidesk.Color.{Pixel, YCoCg, bgra_to_ycocg, to_ycocg, stored}
use omnidesk.Color.Lossless.{IsPixel, stored-to_ycocg, ycocg_to_bgra-bgra_to_ycocg}
use omnidesk.Tile.Modes.{Neighbours}
use omnidesk.Tile.Select.{PredMode, apply_prediction, inverse_prediction}
use omnidesk.Tile.Undo.{IsMode, inverse_prediction-apply, Fits, apply_prediction-Fits}
use omnidesk.Tile.Coder.{
  Channels, to_planes, zip_planes, from_planes, predict_planes, rebuild_planes,
}

to_i16-IsU16 : (z : ℤ) → IsU16 (to_i16 z)
unfolding to_i16
to_i16-IsU16 (pos n) = omega arith
to_i16-IsU16 (negsuc n) = omega arith

plane-IsU16 : (f : YCoCg → ℤ) (vs : List YCoCg) → All IsU16 (map (λ v. to_i16 (f v)) vs)
plane-IsU16 f [] = tt
plane-IsU16 f (v ∷ vs) = (to_i16-IsU16 (f v), plane-IsU16 f vs)

length-bgra_to_ycocg : (ps : List Pixel) → length (bgra_to_ycocg ps) ≡ length ps
unfolding bgra_to_ycocg
length-bgra_to_ycocg [] = refl
length-bgra_to_ycocg (p ∷ ps) = ap suc (length-bgra_to_ycocg ps)

-- A plane of a tile: as many 16-bit values as pixels.
pub record IsTilePlane (n : ℕ) (plane : List ℕ) : Type 0 where
  pub size : length plane ≡ n
  pub words : All IsU16 plane

pub to_planes-IsTilePlane :
    (ps : List Pixel)
    → IsTilePlane (length ps) (to_planes ps).y
      × IsTilePlane (length ps) (to_planes ps).co
      × IsTilePlane (length ps) (to_planes ps).cg
unfolding to_planes
to_planes-IsTilePlane ps =
    let vs : List YCoCg = bgra_to_ycocg ps in
    let plane : (f : YCoCg → ℤ) → IsTilePlane (length ps) (map (λ v. to_i16 (f v)) vs) = λ f.
      record {
        size = length-map vs (λ v. to_i16 (f v)) ∙ length-bgra_to_ycocg ps;
        words = plane-IsU16 f vs;
      } in
    (plane (λ v. v.y), plane (λ v. v.co), plane (λ v. v.cg))

zip_planes-to_planes :
    (ps : List Pixel)
    → All IsPixel ps
    → zip_planes (to_planes ps).y (to_planes ps).co (to_planes ps).cg ≡ bgra_to_ycocg ps
unfolding zip_planes to_planes bgra_to_ycocg stored
zip_planes-to_planes [] a = refl
zip_planes-to_planes (p ∷ ps) (h, a) =
    ap (λ (v : YCoCg). v ∷ zip_planes (to_planes ps).y (to_planes ps).co (to_planes ps).cg)
      (ap stored (stored-to_ycocg p h))
    ∙ ap (λ (vs : List YCoCg). stored (to_ycocg p) ∷ vs) (zip_planes-to_planes ps a)

pub from_planes-to_planes : (ps : List Pixel) → All IsPixel ps → from_planes (to_planes ps) ≡ ps
unfolding from_planes
from_planes-to_planes ps a = rw (zip_planes-to_planes ps a) (ycocg_to_bgra-bgra_to_ycocg ps a)

take-at : (xs ys : List ℕ) (n : ℕ) → length xs ≡ n → take n (xs ++ ys) ≡ xs
take-at xs ys n e = ap (λ (k : ℕ). take k (xs ++ ys)) (sym e) ∙ take-append xs ys

drop-at : (xs ys : List ℕ) (n : ℕ) → length xs ≡ n → drop n (xs ++ ys) ≡ ys
drop-at xs ys n e = ap (λ (k : ℕ). drop k (xs ++ ys)) (sym e) ∙ drop-append xs ys

-- The three parts of the buffer.
pub rebuild_planes-append :
    (ys cos cgs : List ℕ) (w h : ℕ) (modes : Channels PredMode) (nb : Channels Neighbours)
    (old : List ℕ)
    → length ys ≡ w * h
    → length cos ≡ w * h
    → length cgs ≡ w * h
    → rebuild_planes (ys ++ (cos ++ cgs)) w h modes nb old ≡ (
        let y = inverse_prediction ys w h modes.y nb.y old in
        let co = inverse_prediction cos w h modes.co nb.co y.1 in
        let cg = inverse_prediction cgs w h modes.cg nb.cg co.1 in
        record { y = y.0; co = co.0; cg = cg.0 })
unfolding rebuild_planes
rebuild_planes-append ys cos cgs w h modes nb old ey eco ecg =
    let last : take (w * h) cgs ≡ cgs =
      ap (λ (xs : List ℕ). take (w * h) xs) (sym (append-nil cgs)) ∙ take-at cgs [] (w * h) ecg in
    rw
      (
        take-at ys (cos ++ cgs) (w * h) ey,
        drop-at ys (cos ++ cgs) (w * h) ey,
        take-at cos cgs (w * h) eco,
        drop-at cos cgs (w * h) eco,
        last,
      )
      refl

-- The modes of the three channels.
pub record AreModes (modes : Channels PredMode) : Type 0 where
  pub y : IsMode modes.y
  pub co : IsMode modes.co
  pub cg : IsMode modes.cg

-- A tile of planes: each has the tile's size.
pub record ArePlanes (n : ℕ) (p : Channels (List ℕ)) : Type 0 where
  pub y : IsTilePlane n p.y
  pub co : IsTilePlane n p.co
  pub cg : IsTilePlane n p.cg

pub to_planes-ArePlanes : (ps : List Pixel) → ArePlanes (length ps) (to_planes ps)
to_planes-ArePlanes ps =
    let (y, co, cg) = to_planes-IsTilePlane ps in record { y = y; co = co; cg = cg }

pub predict_planes-IsTilePlane :
    (p : Channels (List ℕ)) (w h : ℕ) (modes : Channels PredMode) (nb : Channels Neighbours)
    → ArePlanes (h * w) p
    → AreModes modes
    → IsTilePlane (w * h * 3) (predict_planes p w h modes nb)
unfolding predict_planes
predict_planes-IsTilePlane p w h modes nb s m =
    let (ny, ay) = apply_prediction-Fits p.y w h modes.y nb.y [] s.y.size m.y in
    let (nco, ao) = apply_prediction-Fits p.co w h modes.co nb.co [] s.co.size m.co in
    let (ng, ag) = apply_prediction-Fits p.cg w h modes.cg nb.cg [] s.cg.size m.cg in
    let ys : List ℕ = (apply_prediction p.y w h modes.y nb.y []).0 in
    let cos : List ℕ = (apply_prediction p.co w h modes.co nb.co []).0 in
    let cgs : List ℕ = (apply_prediction p.cg w h modes.cg nb.cg []).0 in
    record {
      size = omega (
        arith,
        ny,
        nco,
        ng,
        s.y.size,
        s.co.size,
        s.cg.size,
        mul_comm w h,
        length-append ys (cos ++ cgs),
        length-append cos cgs,
      );
      words = All-append IsU16 ys (cos ++ cgs) ay (All-append IsU16 cos cgs ao ag);
    }

-- Without quantization the planes are rebuilt, whatever predBuf_ held.
pub rebuild_planes-predict_planes :
    (p : Channels (List ℕ)) (w h : ℕ) (modes : Channels PredMode) (nb : Channels Neighbours)
    (old : List ℕ)
    → ArePlanes (h * w) p
    → AreModes modes
    → rebuild_planes (predict_planes p w h modes nb) w h modes nb old ≡ p
unfolding predict_planes
rebuild_planes-predict_planes p w h modes nb old s m =
    let size : (xs src : List ℕ) → Fits src xs → length src ≡ h * w → length xs ≡ w * h =
      λ xs src f e. f.0 ∙ e ∙ mul_comm h w in
    let y = apply_prediction p.y w h modes.y nb.y [] in
    let co = apply_prediction p.co w h modes.co nb.co [] in
    let cg = apply_prediction p.cg w h modes.cg nb.cg [] in
    rw
      (
        rebuild_planes-append y.0 co.0 cg.0 w h modes nb old
            (size y.0 p.y (apply_prediction-Fits p.y w h modes.y nb.y [] s.y.size m.y) s.y.size)
            (size co.0 p.co (apply_prediction-Fits p.co w h modes.co nb.co [] s.co.size m.co)
              s.co.size)
            (size cg.0 p.cg (apply_prediction-Fits p.cg w h modes.cg nb.cg [] s.cg.size m.cg)
              s.cg.size),
        inverse_prediction-apply p.y w h modes.y nb.y [] _ s.y.size s.y.words m.y,
        inverse_prediction-apply p.co w h modes.co nb.co [] _ s.co.size s.co.words m.co,
        inverse_prediction-apply p.cg w h modes.cg nb.cg [] _ s.cg.size s.cg.words m.cg,
      )
      refl
