-- ===== src/Tile/Streams.antt =====
-- Symbols behind their numbers, and tiles of one symbol.

use mathlib.Core.List.{append_assoc}
use omnidesk.Prelude.{
  ℕ, suc, ◌^◌, ◌<◌, ◌≡◌, refl, ap, ◌∙◌, List, [], ◌∷◌, ◌++◌, Option, none, some, arith, length,
  replicate, ==_iff,
}
use omnidesk.Bytes.{IsByte, IsU32, write_u16, write_u32}
use omnidesk.Bitstream.{
  BitstreamWriter, put_u8, put_u16, put_u32, append_bytes, flush_bits, BitstreamReader, read_u8_at,
  read_u16_at, read_u32_at,
}
use omnidesk.Bitstream.Unread.{
  at_byte, Unread, read_u8-Unread, read_u16-Unread, read_u32-Unread, read_bytes-Unread,
}
use omnidesk.Rans.Freq.{RansSymbol}
use omnidesk.Rans.Table.{RansDecodeEntry}
use omnidesk.Rans.{encode_interleaved, decode_interleaved, Decoded}
use omnidesk.Tile.Residuals.{
  write_stream, write_uniform, Attempt, done, read_stream, decode_uniform, decode_residuals,
  from_decoded,
}

-- What the encoder writes between two bytes does not depend on what stands before it, and gives
-- `a` back whatever follows it.
abbrev pub Carries :
    {A : Type 0}
    → (BitstreamWriter → Option BitstreamWriter)
    → (BitstreamReader → Attempt A)
    → A
    → Type 0
Carries enc dec a =
    (coded : List ℕ) × ((bytes : List ℕ) → enc (at_byte bytes) ≡ some (at_byte (bytes ++ coded)))
    × ((r : BitstreamReader) (rest : List ℕ) → Unread r (coded ++ rest) → dec r ≡ done a)

pub stream_bytes : List ℕ → List ℕ → List ℕ
stream_bytes out symbols = write_u32 (length out) ++ (write_u32 (length symbols) ++ out)

pub write_stream_lem :
    (s : ℕ) (ss : List ℕ) (table : List RansSymbol) (out bytes : List ℕ)
    → ((output : List ℕ) → encode_interleaved (s ∷ ss) table output ≡ some (output ++ out))
    → write_stream (s ∷ ss) table (at_byte bytes)
      ≡ some (at_byte (bytes ++ stream_bytes out (s ∷ ss)))
unfolding write_stream put_u32 append_bytes flush_bits stream_bytes
write_stream_lem s ss table out bytes e = rw (e []) (
    ap (λ (xs : List ℕ). some (at_byte xs))
      (append_assoc (bytes ++ write_u32 (length out)) (write_u32 (suc (length ss))) out
        ∙ append_assoc bytes (write_u32 (length out)) (write_u32 (suc (length ss)) ++ out)))

pub read_stream_lem :
    (out symbols rest : List ℕ) (table : List RansDecodeEntry) (r : BitstreamReader)
    → length symbols < 2 ^ 24
    → length out < 2 ^ 32
    → decode_interleaved out table (length symbols) ≡ Decoded.decoded symbols
    → Unread r (stream_bytes out symbols ++ rest)
    → read_stream table (length symbols) r ≡ done symbols
unfolding read_stream stream_bytes from_decoded
read_stream_lem out symbols rest table r h k e u =
    let (e1, u1) = read_u32-Unread r (length out) (write_u32 (length symbols) ++ (out ++ rest)) k (
      rw
        (
          append_assoc (write_u32 (length out)) (write_u32 (length symbols) ++ out) rest,
          append_assoc (write_u32 (length symbols)) out rest,
        )
        at u) in
    let (e2, u2) =
      read_u32-Unread (read_u32_at r).1 (length symbols) (out ++ rest) (omega arith) u1 in
    let (e3, u3) = read_bytes-Unread (read_u32_at (read_u32_at r).1).1 out rest u2 in
    let same = (==_iff (length symbols) (length symbols)).1 refl in
    rw (e1, u2.clean, e2, u3.clean, e3, same, e) refl

pub uniform_Carries :
    (symbol total : ℕ)
    → IsU32 total
    → IsByte symbol
    → Carries
        (λ w. some (write_uniform symbol total (flush_bits w)))
        (decode_residuals none total)
        (replicate total symbol)
unfolding write_uniform decode_residuals decode_uniform flush_bits put_u8 put_u16 put_u32
    append_bytes
uniform_Carries symbol total h k = (
  write_u16 0 ++ (symbol ∷ write_u32 total),
  λ bytes.
      ap (λ (xs : List ℕ). some (at_byte xs))
        (append_assoc (bytes ++ write_u16 0) (symbol ∷ []) (write_u32 total)
          ∙ append_assoc bytes (write_u16 0) (symbol ∷ write_u32 total)),
  λ r rest u.
      let (e0, u0) = read_u16-Unread r 0 (symbol ∷ (write_u32 total ++ rest)) (omega arith) u in
      let (e1, u1) = read_u8-Unread (read_u16_at r).1 symbol (write_u32 total ++ rest) u0 in
      let (e2, u2) = read_u32-Unread (read_u8_at (read_u16_at r).1).1 total rest h u1 in
      let same = (==_iff total total).1 refl in rw (e0, u0.clean, u2.clean, e1, e2, same) refl,
)
