-- ===== src/Bitstream/Bits.antt =====
-- Bit fields, written and read: the headers of a tile. Groups of bits that end within two bytes.
use mathlib.Core.List.{append_assoc}
use omnidesk.Prelude.{
  ℕ, ◌+◌, ◌*◌, ◌/◌, ◌%◌, ◌<◌, ◌≡◌, refl, ap, ◌∙◌, sym, List, [], ◌∷◌, ◌++◌, false, arith, ltb, leb,
  length, Bool-cases, inl, inr, length-append,
}
use omnidesk.Bytes.{IsByte}
use omnidesk.Bitstream.{
  BitstreamWriter, flush_bits, write_bits, put_bit, BitstreamReader, claim, align_to_byte, cache,
  read_bits, read_u8_at,
}
use omnidesk.Bitstream.Unread.{at_byte, Unread, Unread-at}

-- A reader between two bytes.
pub record Fresh (r : BitstreamReader) (rest : List ℕ) : Type 0 where
  pub unread : Unread r rest
  pub whole : r.bit_pos ≡ 0

-- Within a byte: `left` bits of `byte` are still to be read.
abbrev pub within_byte : BitstreamReader → ℕ → ℕ → BitstreamReader
within_byte r byte left = record {
  data_bytes = r.data_bytes;
  pos = r.pos + 1;
  bit_buf = byte;
  bit_pos = left;
  error = r.error;
}

-- The bytes of a reader that has passed one more byte.
pub within-Unread :
    (r : BitstreamReader) (b left : ℕ) (rest : List ℕ)
    → Unread r (b ∷ rest)
    → Unread (within_byte r b left) rest
within-Unread r b left rest u = record {
  before = u.before ++ (b ∷ []);
  bytes = u.bytes ∙ sym (append_assoc u.before (b ∷ []) rest);
  here = omega (arith, u.here, length-append u.before (b ∷ []));
  clean = u.clean;
}

in_data :
    (r : BitstreamReader) (b : ℕ) (rest : List ℕ)
    → Unread r (b ∷ rest)
    → leb (length r.data_bytes) r.pos ≡ false
in_data r b rest u =
    let size = ap (λ (xs : List ℕ). length xs) u.bytes ∙ length-append u.before (b ∷ rest) in
    ground (arith, size, u.here)

-- Three bits from a new byte, three more, and three that end in the next byte.
read_three :
    (r : BitstreamReader) (b : ℕ) (rest : List ℕ)
    → IsByte b
    → Fresh r (b ∷ rest)
    → read_bits 3 0 r ≡ (b / 32, within_byte r b 5)
unfolding read_bits cache
read_three r b rest h f =
    let value : ((0 + b / 128 % 2) * 2 % 256 + b / 64 % 2) * 2 % 256 + b / 32 % 2 ≡ b / 32 =
      omega arith in
    rw (f.whole, in_data r b rest f.unread, Unread-at r (b ∷ rest) 0 f.unread, value) refl

read_three_more :
    (r : BitstreamReader) (b : ℕ)
    → IsByte b
    → read_bits 3 0 (within_byte r b 5) ≡ (b / 4 % 8, within_byte r b 2)
unfolding read_bits cache
read_three_more r b h =
    let value : ((0 + b / 16 % 2) * 2 % 256 + b / 8 % 2) * 2 % 256 + b / 4 % 2 ≡ b / 4 % 8 =
      omega arith in
    rw value refl

read_across :
    (r : BitstreamReader) (b b' : ℕ) (rest : List ℕ)
    → IsByte b
    → IsByte b'
    → Unread r (b ∷ b' ∷ rest)
    → read_bits 3 0 (within_byte r b 2)
      ≡ (b % 4 * 2 + b' / 128, within_byte (within_byte r b 0) b' 7)
unfolding read_bits cache
read_across r b b' rest h h' u =
    let next = within-Unread r b 0 (b' ∷ rest) u in
    let value : ((0 + b / 2 % 2) * 2 % 256 + b / 1 % 2) * 2 % 256 + b' / 128 % 2
        ≡ b % 4 * 2 + b' / 128 =
      omega arith in
    rw
      (
        in_data (within_byte r b 0) b' rest next,
        Unread-at (within_byte r b 0) (b' ∷ rest) 0 next,
        value,
      )
      refl

pub read_flag_next :
    (r : BitstreamReader) (b : ℕ)
    → read_bits 1 0 (within_byte r b 7) ≡ (b / 64 % 2, within_byte r b 6)
unfolding read_bits cache
read_flag_next r b = let value : 0 + b / 64 % 2 ≡ b / 64 % 2 = omega arith in rw value refl

-- A flag in a byte of its own.
pub read_flag :
    (r : BitstreamReader) (b : ℕ) (rest : List ℕ)
    → IsByte b
    → Fresh r (b ∷ rest)
    → read_bits 1 0 r ≡ (b / 128, within_byte r b 7)
unfolding read_bits cache
read_flag r b rest h f =
    let value : 0 + b / 128 % 2 ≡ b / 128 = omega arith in
    rw (f.whole, in_data r b rest f.unread, Unread-at r (b ∷ rest) 0 f.unread, value) refl

-- Three fields of three bits, read one after the other.
abbrev pub read_fields : BitstreamReader → (ℕ × ℕ × ℕ) × BitstreamReader
read_fields r =
    let x = read_bits 3 0 r in
    let y = read_bits 3 0 x.1 in let z = read_bits 3 0 y.1 in ((x.0, y.0, z.0), z.1)

abbrev pub write_fields : ℕ → ℕ → ℕ → BitstreamWriter → BitstreamWriter
write_fields a b c w = write_bits c 3 (write_bits b 3 (write_bits a 3 w))

abbrev pub field_byte : ℕ → ℕ → ℕ → ℕ
field_byte a b c = a * 32 + b * 4 + c / 2

pub read_fields_lem :
    (r : BitstreamReader) (a b c tail : ℕ) (rest : List ℕ)
    → (a < 8) × (b < 8) × (c < 8)
    → tail < 128
    → Fresh r (field_byte a b c ∷ (c % 2 * 128 + tail) ∷ rest)
    → read_fields r
      ≡ ((a, b, c), within_byte (within_byte r (field_byte a b c) 0) (c % 2 * 128 + tail) 7)
read_fields_lem r a b c tail rest (ha, hb, hc) h f =
    let first : field_byte a b c / 32 ≡ a = omega arith in
    let second : field_byte a b c / 4 % 8 ≡ b = omega arith in
    let third : field_byte a b c % 4 * 2 + (c % 2 * 128 + tail) / 128 ≡ c = omega arith in
    rw
      (
        read_three r (field_byte a b c) ((c % 2 * 128 + tail) ∷ rest) (omega arith) f,
        read_three_more r (field_byte a b c) (omega arith),
        read_across r (field_byte a b c) (c % 2 * 128 + tail) rest (omega arith) (omega arith)
            f.unread,
        first,
        second,
        third,
      )
      refl

pub write_fields_lem :
    (bytes : List ℕ) (a b c : ℕ)
    → (a < 8) × (b < 8) × (c < 8)
    → write_fields a b c (at_byte bytes)
      ≡ record { buf = bytes ++ (field_byte a b c ∷ []); bit_buf = c % 2; bit_pos = 1 }
unfolding write_bits put_bit
write_fields_lem bytes a b c (ha, hb, hc) =
    let low : 0 + c / 1 % 2 ≡ c % 2 = omega arith in
    let whole : (((((((0 + a / 4 % 2) * 2 % 256 + a / 2 % 2) * 2 % 256 + a / 1 % 2) * 2 % 256
                          + b / 4 % 2)
                        * 2
                        % 256
                      + b / 2 % 2)
                    * 2
                    % 256
                  + b / 1 % 2)
                * 2
                % 256
              + c / 4 % 2)
            * 2
            % 256
          + c / 2 % 2
        ≡ field_byte a b c =
      omega arith in
    rw (low, whole) refl

-- The bit that is left over, with a flag behind it or alone, and a flag alone.
pub flush_flag :
    (bytes : List ℕ) (c f : ℕ)
    → c < 2
    → f < 2
    → flush_bits (write_bits f 1 (record { buf = bytes; bit_buf = c; bit_pos = 1 }))
      ≡ at_byte (bytes ++ ((c * 128 + f * 64) ∷ []))
unfolding write_bits put_bit flush_bits
flush_flag bytes c f h k =
    let value : (c * 2 % 256 + f / 1 % 2) * 64 % 256 ≡ c * 128 + f * 64 = omega arith in
    rw value refl

pub flush_last :
    (bytes : List ℕ) (c : ℕ)
    → c < 2
    → flush_bits (record { buf = bytes; bit_buf = c; bit_pos = 1 })
      ≡ at_byte (bytes ++ ((c * 128) ∷ []))
unfolding flush_bits
flush_last bytes c h = let value : c * 128 % 256 ≡ c * 128 = omega arith in rw value refl

pub flush_alone :
    (bytes : List ℕ) (f : ℕ)
    → f < 2
    → flush_bits (write_bits f 1 (at_byte bytes)) ≡ at_byte (bytes ++ ((f * 128) ∷ []))
unfolding write_bits put_bit flush_bits
flush_alone bytes f h =
    let value : (0 + f / 1 % 2) * 128 % 256 ≡ f * 128 = omega arith in rw value refl

pub read_u8_at-bit_pos : (r : BitstreamReader) → (read_u8_at r).1.bit_pos ≡ 0
unfolding read_u8_at claim align_to_byte
read_u8_at-bit_pos r = elim (Bool-cases (ltb (length r.data_bytes) (r.pos + 1))) [
  | inl e ↦ rw e refl
  | inr e ↦ rw e refl
]
