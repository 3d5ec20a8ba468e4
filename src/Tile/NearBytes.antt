-- ===== src/Tile/NearBytes.antt =====
-- The bytes of a near-lossless tile.

use mathlib.Core.Path.{subst}
use mathlib.Core.List.{append_assoc}
use omnidesk.Prelude.{
  ℕ, ◌+◌, ◌*◌, ◌/◌, ◌%◌, ◌<◌, ◌≡◌, refl, ap, ◌∙◌, sym, List, [], ◌∷◌, ◌++◌, Option, some, map,
  false, ◌==◌, arith, length,
}
use omnidesk.Bitstream.{
  BitstreamWriter, flush_bits, put_u8, append_bytes, BitstreamReader, align_to_byte, read_u8_at,
}
use omnidesk.Bitstream.Unread.{at_byte, Unread, align-Unread, read_u8-Unread}
use omnidesk.Bitstream.Bits.{
  Fresh, within_byte, within-Unread, read_flag, flush_last, flush_alone, read_u8_at-bit_pos,
}
use omnidesk.Rans.Freq.{RansSymbol}
use omnidesk.Rans.Table.{RansDecodeEntry}
use omnidesk.Tile.Modes.{Neighbours}
use omnidesk.Tile.Select.{PredMode, mode_code}
use omnidesk.Tile.Symbols.{symbols_of, residuals_of-symbols_of, symbols_of-count}
use omnidesk.Tile.Residuals.{encode_residuals, decode_residuals, done}
use omnidesk.Tile.Coder.{
  Channels, from_planes, write_modes, write_residuals, dequantize_residual, rebuild_planes,
  on_symbols, decode_near_lossless,
}
use omnidesk.Tile.Planes.{IsTilePlane, AreModes}
use omnidesk.Tile.Header.{
  flag_of, flag_of-lt, flag_of-single, encode_residuals-flush, mode_byte, write_modes_lem,
  read_modes_lem,
}

abbrev pub near_bytes : Channels PredMode → ℕ → ℕ → List ℕ → List ℕ
near_bytes m q flag coded = mode_byte m ∷ (mode_code m.cg % 2 * 128) ∷ q ∷ (flag * 128) ∷ coded

-- The flag and the symbols, behind whole bytes.
pub write_near :
    (residuals bytes coded : List ℕ) (shared : Option (List RansSymbol))
    → ((start : List ℕ)
        → encode_residuals shared (symbols_of residuals) (at_byte start)
          ≡ some (at_byte (start ++ coded)))
    → write_residuals shared residuals (at_byte bytes)
      ≡ some (at_byte (bytes ++ ((flag_of residuals * 128) ∷ coded)))
unfolding write_residuals
write_near residuals bytes coded shared enc =
    encode_residuals-flush shared (symbols_of residuals) _
    ∙ ap (λ (x : BitstreamWriter). encode_residuals shared (symbols_of residuals) x)
        (flush_alone bytes (flag_of residuals) (flag_of-lt residuals))
    ∙ enc (bytes ++ ((flag_of residuals * 128) ∷ []))
    ∙ ap (λ (xs : List ℕ). some (at_byte xs))
        (append_assoc bytes ((flag_of residuals * 128) ∷ []) coded)

-- The header: the modes, flushed, and the step.
pub write_step :
    (m : Channels PredMode) (q : ℕ)
    → AreModes m
    → put_u8 q (flush_bits (write_modes m (at_byte [])))
      ≡ at_byte (mode_byte m ∷ (mode_code m.cg % 2 * 128) ∷ q ∷ [])
unfolding put_u8 append_bytes
write_step m q a =
    let low : mode_code m.cg % 2 < 2 = omega arith in
    let head =
      ap flush_bits (write_modes_lem m [] a)
      ∙ flush_last (mode_byte m ∷ []) (mode_code m.cg % 2) low in
    rw head refl

pub read_near :
    (m : Channels PredMode) (q : ℕ) (residuals coded rest : List ℕ)
    (shared : Option (List RansDecodeEntry)) (w h : ℕ) (nb : Channels Neighbours) (old : List ℕ)
    (r : BitstreamReader)
    → AreModes m
    → 0 < q
    → IsTilePlane (w * h * 3) residuals
    → ((x : BitstreamReader)
        → Unread x (coded ++ rest)
        → decode_residuals shared (length (symbols_of residuals)) x ≡ done (symbols_of residuals))
    → Fresh r (near_bytes m q (flag_of residuals) coded ++ rest)
    → decode_near_lossless shared w h nb old r
      ≡ done (from_planes (rebuild_planes (map (dequantize_residual q) residuals) w h m nb old))
unfolding decode_near_lossless on_symbols
read_near m q residuals coded rest shared w h nb old r a pos size dec f =
    let second : ℕ = mode_code m.cg % 2 * 128 in
    let plus : second + 0 ≡ second = omega arith in
    let tail : List ℕ = q ∷ (flag_of residuals * 128) ∷ (coded ++ rest) in
    let after : BitstreamReader = within_byte (within_byte r (mode_byte m) 0) second 7 in
    let modes =
      read_modes_lem m 0 tail r a (omega arith)
        (subst (λ (n : ℕ). Fresh r (mode_byte m ∷ n ∷ tail)) (sym plus) f)
      ∙ ap (λ (n : ℕ). (m, within_byte (within_byte r (mode_byte m) 0) n 7)) plus in
    let u = align-Unread after tail (
      within-Unread (within_byte r (mode_byte m) 0) second 7 tail
        (within-Unread r (mode_byte m) 0 (second ∷ tail) f.unread)) in
    let (step, u') =
      read_u8-Unread (align_to_byte after) q ((flag_of residuals * 128) ∷ (coded ++ rest)) u in
    let at_flag : BitstreamReader = (read_u8_at (align_to_byte after)).1 in
    let small : flag_of residuals * 128 < 256 = omega (arith, flag_of-lt residuals) in
    let flag =
      read_flag at_flag (flag_of residuals * 128) (coded ++ rest) small
        (record { unread = u'; whole = read_u8_at-bit_pos (align_to_byte after) }) in
    let value : flag_of residuals * 128 / 128 ≡ flag_of residuals = omega arith in
    let u'' = within-Unread at_flag (flag_of residuals * 128) 7 (coded ++ rest) u' in
    let nonzero : (q == 0) ≡ false = ground (arith, pos) in
    let (count, bytes) = symbols_of-count residuals (w * h) size.size in
    rw
      (
        modes,
        flag,
        value,
        flag_of-single residuals,
        sym count,
        dec (within_byte at_flag (flag_of residuals * 128) 7) u'',
        u''.clean,
        step,
        nonzero,
        f.unread.clean,
        residuals_of-symbols_of residuals size.words,
      )
      refl
