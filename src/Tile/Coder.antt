-- ===== src/Tile/Coder.antt =====
-- A tile, losslessly and nearly so: encodeLossless and encodeNearLossless of TileEncoder,
-- decodeLossless and decodeNearLossless of TileDecoder.
use omnidesk.Prelude.{
  ℕ, ◌+◌, ◌*◌, ◌-◌, ◌/◌, ◌%◌, ◌^◌, List, [], ◌∷◌, ◌++◌, Option, Bool, ltb, ◌==◌, ◌||◌, not,
  if◌then◌else◌, take, drop, map,
}
use omnidesk.Prelude.Int.{to_i16, from_i16}
use omnidesk.Bitstream.{
  BitstreamWriter, flush_bits, put_u8, write_bits, BitstreamReader, align_to_byte, read_u8_at,
  read_bits,
}
use omnidesk.Color.{Pixel, YCoCg, bgra_to_ycocg, ycocg_to_bgra}
use omnidesk.Rans.Freq.{RansSymbol}
use omnidesk.Rans.Table.{RansDecodeEntry}
use omnidesk.Tile.Modes.{Neighbours}
use omnidesk.Tile.Select.{
  PredMode, mode_code, mode_of, select_pred_mode, apply_prediction, inverse_prediction,
}
use omnidesk.Tile.Symbols.{single_byte, symbols_of, symbol_count, residuals_of}
use omnidesk.Tile.Residuals.{encode_residuals, decode_residuals, Attempt, failed, overrun, done}

-- Something for each of the channels.
pub record Channels (A : Type 0) : Type 0 where
  pub y : A
  pub co : A
  pub cg : A

unfoldable pub to_planes : List Pixel → Channels (List ℕ)
to_planes ps = record {
  y = map (λ v. to_i16 v.y) (bgra_to_ycocg ps);
  co = map (λ v. to_i16 v.co) (bgra_to_ycocg ps);
  cg = map (λ v. to_i16 v.cg) (bgra_to_ycocg ps);
}

unfoldable pub zip_planes : List ℕ → List ℕ → List ℕ → List YCoCg
zip_planes [] cos cgs = []
zip_planes (y ∷ ys) [] cgs = []
zip_planes (y ∷ ys) (co ∷ cos) [] = []
zip_planes (y ∷ ys) (co ∷ cos) (cg ∷ cgs) =
    record { y = from_i16 y; co = from_i16 co; cg = from_i16 cg } ∷ zip_planes ys cos cgs

unfoldable pub from_planes : Channels (List ℕ) → List Pixel
from_planes p = ycocg_to_bgra (zip_planes p.y p.co p.cg)

unfoldable pub select_modes : Channels (List ℕ) → ℕ → ℕ → Channels Neighbours → Channels PredMode
select_modes p w h nb = record {
  y = select_pred_mode p.y w h nb.y;
  co = select_pred_mode p.co w h nb.co;
  cg = select_pred_mode p.cg w h nb.cg;
}

-- residualBuf_. The modes selected leave nothing of what predBuf_ held, so it is passed as empty.
unfoldable pub predict_planes :
    Channels (List ℕ) → ℕ → ℕ → Channels PredMode → Channels Neighbours → List ℕ
predict_planes p w h modes nb =
    (apply_prediction p.y w h modes.y nb.y []).0
    ++ ((apply_prediction p.co w h modes.co nb.co []).0
        ++ (apply_prediction p.cg w h modes.cg nb.cg []).0)

unfoldable pub write_modes : Channels PredMode → BitstreamWriter → BitstreamWriter
write_modes m w =
    write_bits (mode_code m.cg) 3 (write_bits (mode_code m.co) 3 (write_bits (mode_code m.y) 3 w))

-- The flag, the symbols and their coding.
unfoldable pub write_residuals :
    Option (List RansSymbol) → List ℕ → BitstreamWriter → Option BitstreamWriter
write_residuals shared residuals w =
    encode_residuals shared (symbols_of residuals)
      (write_bits (if single_byte residuals then 1 else 0) 1 w)

unfoldable pub encode_lossless :
    Option (List RansSymbol)
    → List Pixel
    → ℕ
    → ℕ
    → Channels Neighbours
    → BitstreamWriter
    → Option BitstreamWriter
encode_lossless shared bgra w h nb bs =
    let planes : Channels (List ℕ) = to_planes bgra in
    let modes : Channels PredMode = select_modes planes w h nb in
    write_residuals shared (predict_planes planes w h modes nb) (write_modes modes bs)

-- Round-to-nearest, away from 0 at a half; the quotient of an int16_t fits in one.
unfoldable pub quantize_residual : ℕ → ℕ → ℕ
quantize_residual q_step u =
    if ltb u (2 ^ 15)
    then (u + q_step / 2) / q_step
    else (2 ^ 16 - (2 ^ 16 - u + q_step / 2) / q_step) % 2 ^ 16

-- `qStep` is written as a uint8_t.
unfoldable pub encode_near_lossless :
    Option (List RansSymbol)
    → List Pixel
    → ℕ
    → ℕ
    → Channels Neighbours
    → ℕ
    → BitstreamWriter
    → Option BitstreamWriter
encode_near_lossless shared bgra w h nb max_error bs =
    let planes : Channels (List ℕ) = to_planes bgra in
    let modes : Channels PredMode = select_modes planes w h nb in
    let q_step : ℕ = if ltb 1 max_error then max_error else 1 in
    write_residuals shared (map (quantize_residual q_step) (predict_planes planes w h modes nb))
      (put_u8 (q_step % 256) (flush_bits (write_modes modes bs)))

unfoldable pub read_modes : BitstreamReader → Channels PredMode × BitstreamReader
read_modes r =
    let y = read_bits 3 0 r in
    let co = read_bits 3 0 y.1 in
    let cg = read_bits 3 0 co.1 in
    (record { y = mode_of y.0; co = mode_of co.0; cg = mode_of cg.0 }, cg.1)

-- The planes out of residualBuf_; predBuf_ goes from one channel to the next.
unfoldable pub rebuild_planes :
    List ℕ → ℕ → ℕ → Channels PredMode → Channels Neighbours → List ℕ → Channels (List ℕ)
rebuild_planes residuals w h modes nb pred_buf =
    let n : ℕ = w * h in
    let y = inverse_prediction (take n residuals) w h modes.y nb.y pred_buf in
    let co = inverse_prediction (take n (drop n residuals)) w h modes.co nb.co y.1 in
    let cg = inverse_prediction (take n (drop n (drop n residuals))) w h modes.cg nb.cg co.1 in
    record { y = y.0; co = co.0; cg = cg.0 }

-- What is done with the symbols, if there are any.
unfoldable pub on_symbols : {A : Type 0} → (List ℕ → A) → Attempt (List ℕ) → Attempt A
on_symbols f failed = failed
on_symbols f overrun = overrun
on_symbols f (done symbols) = done (f symbols)

-- `pred_buf` is what predBuf_ holds before the call.
unfoldable pub decode_lossless :
    Option (List RansDecodeEntry)
    → ℕ
    → ℕ
    → Channels Neighbours
    → List ℕ
    → BitstreamReader
    → Attempt (List Pixel)
decode_lossless shared w h nb pred_buf r =
    let modes = read_modes r in
    let flag = read_bits 1 0 modes.1 in
    let single : Bool = not (flag.0 == 0) in
    let symbols : Attempt (List ℕ) =
      decode_residuals shared (symbol_count single (w * h)) (align_to_byte flag.1) in
    let finish : List ℕ → List Pixel =
      λ s. from_planes (rebuild_planes (residuals_of single s) w h modes.0 nb pred_buf) in
    if flag.1.error then failed else on_symbols finish symbols

-- The product, stored in an int16_t.
unfoldable pub dequantize_residual : ℕ → ℕ → ℕ
dequantize_residual q_step u = u * q_step % 2 ^ 16

unfoldable pub decode_near_lossless :
    Option (List RansDecodeEntry)
    → ℕ
    → ℕ
    → Channels Neighbours
    → List ℕ
    → BitstreamReader
    → Attempt (List Pixel)
decode_near_lossless shared w h nb pred_buf r =
    let modes = read_modes r in
    let q_step = read_u8_at (align_to_byte modes.1) in
    let flag = read_bits 1 0 q_step.1 in
    let single : Bool = not (flag.0 == 0) in
    let symbols : Attempt (List ℕ) = decode_residuals shared (symbol_count single (w * h)) flag.1 in
    let finish : List ℕ → List Pixel = λ s. from_planes (
      rebuild_planes (map (dequantize_residual q_step.0) (residuals_of single s)) w h modes.0 nb
        pred_buf) in
    if modes.1.error || (q_step.1.error || q_step.0 == 0)
    then failed
    else (if flag.1.error then failed else on_symbols finish symbols)
