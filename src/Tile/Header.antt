-- ===== src/Tile/Header.antt =====
-- The header of a tile: the modes and the flag for one byte a symbol.

use omnidesk.Prelude.{
  ℕ, ◌+◌, ◌*◌, ◌%◌, ◌<◌, ◌≡◌, refl, ap, ◌∙◌, List, [], ◌∷◌, ◌++◌, Option, none, some, not, ltb,
  ◌==◌, if◌then◌else◌, arith, Bool-cases, inl, inr,
}
use omnidesk.Bitstream.{BitstreamWriter, flush_bits, BitstreamReader}
use omnidesk.Bitstream.Unread.{at_byte}
use omnidesk.Bitstream.Bits.{Fresh, within_byte, read_fields_lem, write_fields_lem, field_byte}
use omnidesk.Rans.Freq.{RansSymbol}
use omnidesk.Tile.Select.{PredMode, mode_code, mode_of}
use omnidesk.Tile.Symbols.{single_byte}
use omnidesk.Tile.Residuals.{encode_residuals, encode_residuals_shared}
use omnidesk.Tile.Coder.{Channels, write_modes, read_modes}
use omnidesk.Tile.Planes.{AreModes}
use omnidesk.Tile.Choice.{mode_code-lt, mode_of-mode_code}

-- The flag for one byte a symbol.
abbrev pub flag_of : List ℕ → ℕ
flag_of residuals = if single_byte residuals then 1 else 0

pub flag_of-lt : (residuals : List ℕ) → flag_of residuals < 2
flag_of-lt residuals = elim (Bool-cases (single_byte residuals)) [
  | inl e ↦ rw e (omega arith)
  | inr e ↦ rw e (omega arith)
]

pub flag_of-single : (residuals : List ℕ) → not (flag_of residuals == 0) ≡ single_byte residuals
flag_of-single residuals = elim (Bool-cases (single_byte residuals)) [
  | inl e ↦ rw e refl
  | inr e ↦ rw e refl
]

pub flush_twice : (w : BitstreamWriter) → flush_bits (flush_bits w) ≡ flush_bits w
unfolding flush_bits
flush_twice w = elim (Bool-cases (ltb 0 w.bit_pos)) [ inl e ↦ rw e refl | inr e ↦ rw (e, e) refl ]

-- A partial byte is flushed before the symbols.
pub encode_residuals-flush :
    (shared : Option (List RansSymbol)) (symbols : List ℕ) (w : BitstreamWriter)
    → encode_residuals shared symbols w ≡ encode_residuals shared symbols (flush_bits w)
unfolding encode_residuals encode_residuals_shared
encode_residuals-flush none symbols w = rw (flush_twice w) refl
encode_residuals-flush (some table) symbols w = rw (flush_twice w) refl

abbrev pub mode_byte : Channels PredMode → ℕ
mode_byte m = field_byte (mode_code m.y) (mode_code m.co) (mode_code m.cg)

pub AreModes-codes :
    (m : Channels PredMode)
    → AreModes m
    → (mode_code m.y < 8) × (mode_code m.co < 8) × (mode_code m.cg < 8)
AreModes-codes m a = (mode_code-lt m.y a.y, mode_code-lt m.co a.co, mode_code-lt m.cg a.cg)

pub write_modes_lem :
    (m : Channels PredMode) (bytes : List ℕ)
    → AreModes m
    → write_modes m (at_byte bytes)
      ≡ record { buf = bytes ++ (mode_byte m ∷ []); bit_buf = mode_code m.cg % 2; bit_pos = 1 }
unfolding write_modes
write_modes_lem m bytes a =
    write_fields_lem bytes (mode_code m.y) (mode_code m.co) (mode_code m.cg) (AreModes-codes m a)

-- The modes are read again; `tail` fills the second byte.
pub read_modes_lem :
    (m : Channels PredMode) (tail : ℕ) (rest : List ℕ) (r : BitstreamReader)
    → AreModes m
    → tail < 128
    → Fresh r (mode_byte m ∷ (mode_code m.cg % 2 * 128 + tail) ∷ rest)
    → read_modes r
      ≡ (m, within_byte (within_byte r (mode_byte m) 0) (mode_code m.cg % 2 * 128 + tail) 7)
unfolding read_modes
read_modes_lem m tail rest r a h f =
    let fields =
      read_fields_lem r (mode_code m.y) (mode_code m.co) (mode_code m.cg) tail rest
        (AreModes-codes m a) h f in
    let named : (ℕ × ℕ × ℕ) × BitstreamReader → Channels PredMode × BitstreamReader =
      λ x. (record { y = mode_of x.0.0; co = mode_of x.0.1; cg = mode_of x.0.2 }, x.1) in
    ap named fields
    ∙ rw (mode_of-mode_code m.y a.y, mode_of-mode_code m.co a.co, mode_of-mode_code m.cg a.cg) refl
