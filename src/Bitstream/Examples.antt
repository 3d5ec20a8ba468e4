-- ===== src/Bitstream/Examples.antt =====
-- Three mode bits, then a word, written and read.
use omnidesk.Prelude.{◌+◌, ◌≡◌, refl, [], ◌∷◌, ◌++◌, false, arith, length}
use omnidesk.Bitstream.{
  BitstreamWriter, flush_bits, put_u32, BitstreamReader, read_u32_at, read_bits,
}
use omnidesk.Bitstream.Reader.{IsReader, read_bits-IsReader, read_u32_at-append}

-- After five bits of a byte.
abbrev writer : BitstreamWriter
writer = record { buf = 7 ∷ []; bit_buf = 21; bit_pos = 5 }

abbrev reader : BitstreamReader
reader = record {
  data_bytes = 7 ∷ 168 ∷ 0 ∷ 1 ∷ 0 ∷ 2 ∷ 9 ∷ [];
  pos = 2;
  bit_buf = 168;
  bit_pos = 3;
  error = false;
}

written : reader.data_bytes ≡ (put_u32 65538 writer).buf ++ (9 ∷ [])
unfolding put_u32
written = refl

at_word : reader.pos ≡ length (flush_bits writer).buf
unfolding flush_bits
at_word = refl

read_u32_at-append_example :
    ((read_u32_at reader).0 ≡ 65538)
    × ((read_u32_at reader).1.pos ≡ 2 + 4)
    × ((read_u32_at reader).1.error ≡ false)
read_u32_at-append_example =
    read_u32_at-append 65538 writer (9 ∷ []) reader (omega arith) written at_word

read_bits-IsReader_example :
    IsReader (read_bits 8 0 reader).1 × ((read_bits 8 0 reader).1.data_bytes ≡ reader.data_bytes)
read_bits-IsReader_example = read_bits-IsReader 8 0 reader (omega arith)
