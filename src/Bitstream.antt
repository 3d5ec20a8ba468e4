-- ===== src/Bitstream.antt =====
-- The bit stream of a frame: src/codec/omni/bitstream.h and src/codec/omni/bitstream.cpp.
pub mod Reader
pub mod Unread
pub mod Bits
mod Examples
use omnidesk.Prelude.{
  ℕ, zero, suc, ◌+◌, ◌-◌, ◌*◌, ◌/◌, ◌%◌, ◌^◌, List, [], ◌∷◌, ◌++◌, Bool, true, false, ltb, leb,
  ◌==◌, if◌then◌else◌, length, get_or, take, drop,
}
use omnidesk.Bytes.{write_u16, write_u32}

pub record BitstreamWriter : Type 0 where
  pub buf : List ℕ
  pub bit_buf : ℕ
  pub bit_pos : ℕ

-- A partial byte is filled with zeros.
unfoldable pub flush_bits : BitstreamWriter → BitstreamWriter
flush_bits w =
    if ltb 0 w.bit_pos
    then record {
      buf = w.buf ++ ((w.bit_buf * 2 ^ (8 - w.bit_pos) % 256) ∷ []);
      bit_buf = 0;
      bit_pos = 0;
    }
    else w

unfoldable pub append_bytes : List ℕ → BitstreamWriter → BitstreamWriter
unfolding flush_bits
append_bytes bytes w = record (flush_bits w) { buf = (flush_bits w).buf ++ bytes }

unfoldable pub put_u8 : ℕ → BitstreamWriter → BitstreamWriter
unfolding append_bytes
put_u8 val = append_bytes (val ∷ [])

unfoldable pub put_u16 : ℕ → BitstreamWriter → BitstreamWriter
unfolding append_bytes write_u16
put_u16 val = append_bytes (write_u16 val)

unfoldable pub put_u32 : ℕ → BitstreamWriter → BitstreamWriter
unfolding append_bytes write_u32
put_u32 val = append_bytes (write_u32 val)

-- One round of the loop of writeBits.
unfoldable pub put_bit : ℕ → BitstreamWriter → BitstreamWriter
put_bit bit w =
    let bits : ℕ = (w.bit_buf * 2 % 256) + bit in
    if w.bit_pos + 1 == 8
    then record { buf = w.buf ++ (bits ∷ []); bit_buf = 0; bit_pos = 0 }
    else record w { bit_buf = bits; bit_pos = w.bit_pos + 1 }

-- The `num_bits` low bits of `val`, the highest first.
unfoldable pub write_bits : ℕ → ℕ → BitstreamWriter → BitstreamWriter
unfolding put_bit
write_bits val zero w = w
write_bits val (suc num_bits) w = write_bits val num_bits (put_bit (val / 2 ^ num_bits % 2) w)

unfoldable pub clear : BitstreamWriter → BitstreamWriter
clear w = record { buf = []; bit_buf = 0; bit_pos = 0 }

-- `size_` is the length of the data.
pub record BitstreamReader : Type 0 where
  pub data_bytes : List ℕ
  pub pos : ℕ
  pub bit_buf : ℕ
  pub bit_pos : ℕ
  pub error : Bool

abbrev pub byte_at : BitstreamReader → ℕ → ℕ
byte_at r i = get_or r.data_bytes (r.pos + i) 0

unfoldable pub align_to_byte : BitstreamReader → BitstreamReader
align_to_byte r = record r { bit_pos = 0 }

-- A read of `count` bytes: whether they are there, and the reader after it. The sum is a size_t,
-- which does not wrap: a count is below 2^32 and the position within the data.
unfoldable pub claim : ℕ → BitstreamReader → Bool × BitstreamReader
unfolding align_to_byte
claim count r =
    if ltb (length r.data_bytes) (r.pos + count)
    then (false, record (align_to_byte r) { error = true })
    else (true, record (align_to_byte r) { pos = r.pos + count })

unfoldable pub read_u8_at : BitstreamReader → ℕ × BitstreamReader
unfolding claim
read_u8_at r = (if (claim 1 r).0 then byte_at r 0 else 0, (claim 1 r).1)

unfoldable pub read_u16_at : BitstreamReader → ℕ × BitstreamReader
unfolding claim
read_u16_at r = (if (claim 2 r).0 then byte_at r 0 * 2 ^ 8 + byte_at r 1 else 0, (claim 2 r).1)

unfoldable pub read_u32_at : BitstreamReader → ℕ × BitstreamReader
unfolding claim
read_u32_at r = (
  if (claim 4 r).0
      then byte_at r 0 * 2 ^ 24 + byte_at r 1 * 2 ^ 16 + byte_at r 2 * 2 ^ 8 + byte_at r 3
      else 0,
  (claim 4 r).1,
)

-- The bytes copied; none if they are not there.
unfoldable pub read_bytes : ℕ → BitstreamReader → List ℕ × BitstreamReader
unfolding claim
read_bytes count r =
    (if (claim count r).0 then take count (drop r.pos r.data_bytes) else [], (claim count r).1)

-- The byte that the bits come from: the cached one, or the next of the data.
unfoldable pub cache : BitstreamReader → BitstreamReader
cache r =
    if r.bit_pos == 0 then record r { bit_buf = byte_at r 0; pos = r.pos + 1; bit_pos = 8 } else r

-- The loop of readBits; at the end of the data it gives 0 and sets the error.
unfoldable pub read_bits : ℕ → ℕ → BitstreamReader → ℕ × BitstreamReader
unfolding cache
read_bits zero result r = (result, r)
read_bits (suc num_bits) result r =
    let c = cache r in
    let next =
      read_bits num_bits ((result * 2 % 256) + c.bit_buf / 2 ^ (c.bit_pos - 1) % 2)
        (record c { bit_pos = c.bit_pos - 1 }) in
    if r.bit_pos == 0
    then (if leb (length r.data_bytes) r.pos then (0, record r { error = true }) else next)
    else next

unfoldable pub remaining : BitstreamReader → ℕ
remaining r = if ltb r.pos (length r.data_bytes) then length r.data_bytes - r.pos else 0
