-- ===== src/Tile/NearLossless.antt =====
-- A near-lossless tile comes back within half a quantization step, where the prediction does not
-- build on the tile itself.
use native.Mathlib.Nat.{mul_comm, div-le_self}
use mathlib.Core.Path.{subst}
use omnidesk.Prelude.{
  ℕ, ◌+◌, ◌*◌, ◌/◌, ◌%◌, ◌^◌, ◌<◌, ◌≡◌, refl, ap, ◌∙◌, sym, List, [], ◌∷◌, ◌++◌, none, map, ltb,
  if◌then◌else◌, arith, All, length, length-map, Bool-cases, inl, inr,
}
use omnidesk.Bytes.{IsU16}
use omnidesk.Bitstream.{BitstreamWriter, flush_bits, put_u8}
use omnidesk.Bitstream.Unread.{at_byte, reader_of}
use omnidesk.Color.{Pixel}
use omnidesk.Tile.Modes.{Neighbours}
use omnidesk.Tile.Select.{PredMode, mode_code, apply_prediction}
use omnidesk.Tile.Coder.{
  Channels, to_planes, from_planes, select_modes, predict_planes, write_modes, write_residuals,
  quantize_residual, dequantize_residual, encode_near_lossless, rebuild_planes,
  decode_near_lossless,
}
use omnidesk.Tile.Planes.{
  IsTilePlane, ArePlanes, AreModes, to_planes-ArePlanes, rebuild_planes-append,
}
use omnidesk.Tile.Choice.{select_modes-AreModes}
use omnidesk.Tile.Lossless.{
  IsTile, Decodes, tile_modes, tile_residuals, residuals-IsTilePlane, symbols_Carries,
  reader_of-Fresh,
}
use omnidesk.Tile.Header.{flag_of, mode_byte}
use omnidesk.Tile.Undo.{Fits, apply_prediction-Fits}
use omnidesk.Tile.Error.{AllNear, requantize, FromBorders, apply_inverse_near}
use omnidesk.Tile.NearBytes.{near_bytes, write_near, write_step, read_near}

quantize_residual-IsU16 : (q u : ℕ) → 0 < q → q < 2 ^ 8 → IsU16 (quantize_residual q u)
unfolding quantize_residual
quantize_residual-IsU16 q u h k = elim (Bool-cases (ltb u (2 ^ 15))) [
  | inl e ↦
      let low : u < 2 ^ 15 = ground (arith, e) in rw e (omega (arith, div-le_self (u + q / 2) q))
  | inr e ↦ rw e (omega arith)
]

quantize-IsU16 :
    (q : ℕ) (us : List ℕ) → 0 < q → q < 2 ^ 8 → All IsU16 (map (quantize_residual q) us)
quantize-IsU16 q [] h k = tt
quantize-IsU16 q (u ∷ us) h k = (quantize_residual-IsU16 q u h k, quantize-IsU16 q us h k)

length-requantize : (q : ℕ) (us : List ℕ) → length (requantize q us) ≡ length us
length-requantize q us =
    length-map (map (quantize_residual q) us) (dequantize_residual q)
    ∙ length-map us (quantize_residual q)

requantize-append :
    (q : ℕ) (xs ys : List ℕ) → requantize q (xs ++ ys) ≡ requantize q xs ++ requantize q ys
requantize-append q [] ys = refl
requantize-append q (x ∷ xs) ys =
    ap (λ (zs : List ℕ). dequantize_residual q (quantize_residual q x) ∷ zs)
      (requantize-append q xs ys)

-- What the decoder rebuilds.
abbrev near_planes : List Pixel → ℕ → ℕ → Channels Neighbours → ℕ → List ℕ → Channels (List ℕ)
near_planes ps w h nb q old =
    rebuild_planes (requantize q (tile_residuals ps w h nb)) w h (tile_modes ps w h nb) nb old

-- A channel is near if its mode predicts from the borders alone.
abbrev NearChannel : ℕ → PredMode → List ℕ → List ℕ → Type 0
NearChannel e mode plane plane' = FromBorders mode → AllNear e plane plane'

-- In every channel whose mode predicts from the borders alone, the values differ from the tile's by
-- at most half a step.
abbrev pub NearPlanes : ℕ → Channels PredMode → Channels (List ℕ) → Channels (List ℕ) → Type 0
NearPlanes e modes p p' =
    NearChannel e modes.y p.y p'.y
    × NearChannel e modes.co p.co p'.co
    × NearChannel e modes.cg p.cg p'.cg

rebuild_near :
    (p : Channels (List ℕ)) (w h q : ℕ) (m : Channels PredMode) (nb : Channels Neighbours)
    (old : List ℕ)
    → 0 < q
    → q < 2 ^ 8
    → ArePlanes (h * w) p
    → AreModes m
    → NearPlanes
        (q / 2)
        m
        p
        (rebuild_planes (requantize q (predict_planes p w h m nb)) w h m nb old)
unfolding predict_planes
rebuild_near p w h q m nb old pos small s a =
    let y : List ℕ = (apply_prediction p.y w h m.y nb.y []).0 in
    let co : List ℕ = (apply_prediction p.co w h m.co nb.co []).0 in
    let cg : List ℕ = (apply_prediction p.cg w h m.cg nb.cg []).0 in
    let size : (xs src : List ℕ)
        → Fits src xs
        → length src ≡ h * w
        → length (requantize q xs) ≡ w * h =
      λ xs src f e. length-requantize q xs ∙ f.0 ∙ e ∙ mul_comm h w in
    let parts =
      requantize-append q y (co ++ cg)
      ∙ ap (λ (zs : List ℕ). requantize q y ++ zs) (requantize-append q co cg) in
    let rebuilt =
      ap (λ (zs : List ℕ). rebuild_planes zs w h m nb old) parts
      ∙ rebuild_planes-append (requantize q y) (requantize q co) (requantize q cg) w h m nb old
          (size y p.y (apply_prediction-Fits p.y w h m.y nb.y [] s.y.size a.y) s.y.size)
          (size co p.co (apply_prediction-Fits p.co w h m.co nb.co [] s.co.size a.co) s.co.size)
          (size cg p.cg (apply_prediction-Fits p.cg w h m.cg nb.cg [] s.cg.size a.cg) s.cg.size) in
    subst (NearPlanes (q / 2) m p) (sym rebuilt) (
      λ b. apply_inverse_near q p.y w h m.y nb.y [] _ pos small s.y.size s.y.words b,
      λ b. apply_inverse_near q p.co w h m.co nb.co [] _ pos small s.co.size s.co.words b,
      λ b. apply_inverse_near q p.cg w h m.cg nb.cg [] _ pos small s.cg.size s.cg.words b,
    )

-- The quantization step.
abbrev pub step_of : ℕ → ℕ
step_of max_error = if ltb 1 max_error then max_error else 1

step_of-range :
    (max_error : ℕ) → max_error < 2 ^ 8 → (0 < step_of max_error) × (step_of max_error < 2 ^ 8)
step_of-range max_error h = ground arith

-- For a tile of byte components with fewer than 2^21 pixels and a largest error below 256,
-- encodeNearLossless with a table of its own succeeds. decodeNearLossless makes planes of its
-- bytes, and in every channel whose prediction mode reads the borders alone (DC, horizontal,
-- vertical or planar) they differ from the tile's planes by at most half the quantization step in
-- each value.
pub decode_near_lossless-encode :
    (ps : List Pixel) (w h : ℕ) (nb : Channels Neighbours) (max_error : ℕ) (old : List ℕ)
    → IsTile w h ps
    → max_error < 2 ^ 8
    → (planes : Channels (List ℕ)) × Decodes
        (encode_near_lossless none ps w h nb max_error (at_byte []))
        (decode_near_lossless none w h nb old)
        (from_planes planes)
      × NearPlanes
          (step_of max_error / 2)
          (select_modes (to_planes ps) w h nb)
          (to_planes ps)
          planes
unfolding encode_near_lossless
decode_near_lossless-encode ps w h nb max_error old tile limit =
    let q : ℕ = step_of max_error in
    let (pos, small) = step_of-range max_error limit in
    let m : Channels PredMode = tile_modes ps w h nb in
    let modes = select_modes-AreModes (to_planes ps) w h nb in
    let sized = subst (λ (n : ℕ). ArePlanes n (to_planes ps)) tile.size (to_planes-ArePlanes ps) in
    let residuals : List ℕ = map (quantize_residual q) (tile_residuals ps w h nb) in
    let all = residuals-IsTilePlane ps w h nb tile in
    let size : IsTilePlane (w * h * 3) residuals = record {
      size = length-map (tile_residuals ps w h nb) (quantize_residual q) ∙ all.size;
      words = quantize-IsU16 q (tile_residuals ps w h nb) pos small;
    } in
    let (coded, enc, dec) =
      symbols_Carries residuals (w * h) size (omega (arith, tile.small, mul_comm w h)) in
    let bytes : List ℕ = near_bytes m q (flag_of residuals) coded in
    let byte : q % 256 ≡ q = omega (arith, small) in
    let written =
      ap (λ (x : BitstreamWriter). write_residuals none residuals x)
        (ap (λ (n : ℕ). put_u8 n (flush_bits (write_modes m (at_byte [])))) byte
          ∙ write_step m q modes)
      ∙ write_near residuals (mode_byte m ∷ (mode_code m.cg % 2 * 128) ∷ q ∷ []) coded none enc in
    let read =
      read_near m q residuals coded [] none w h nb old (reader_of bytes) modes pos size
        (λ x u. dec x [] u) (reader_of-Fresh bytes) in
    (
      near_planes ps w h nb q old,
      (at_byte bytes, written, read),
      rebuild_near (to_planes ps) w h q m nb old pos small sized modes,
    )
