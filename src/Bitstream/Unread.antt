-- ===== src/Bitstream/Unread.antt =====
-- What is still to be read: the bytes that a writer appended come out of the reader in order.

use mathlib.Core.List.{append_assoc}
use omnidesk.Prelude.{
  ℕ, ◌+◌, ◌≡◌, refl, ap, ◌∙◌, sym, List, [], ◌∷◌, ◌++◌, true, false, arith, ltb, length,
  length-append, get_or, take, drop, take-append, drop-append,
}
use omnidesk.Bytes.{IsU16, IsU32, join_u16, join_u32, write_u16, write_u32}
use omnidesk.Bitstream.{
  BitstreamWriter, BitstreamReader, align_to_byte, claim, read_u8_at, read_u16_at, read_u32_at,
  read_bytes,
}
use omnidesk.Bitstream.Reader.{get_or-append}

-- A writer between two bytes, with these bytes written.
abbrev pub at_byte : List ℕ → BitstreamWriter
at_byte bytes = record { buf = bytes; bit_buf = 0; bit_pos = 0 }

-- A reader at the start of its data.
abbrev pub reader_of : List ℕ → BitstreamReader
reader_of bytes = record { data_bytes = bytes; pos = 0; bit_buf = 0; bit_pos = 0; error = false }

-- The reader has had no error, and these bytes are what follows its position.
pub record Unread (r : BitstreamReader) (rest : List ℕ) : Type 0 where
  pub before : List ℕ
  pub bytes : r.data_bytes ≡ before ++ rest
  pub here : r.pos ≡ length before
  pub clean : r.error ≡ false

pub reader_of-Unread : (bytes : List ℕ) → Unread (reader_of bytes) bytes
reader_of-Unread bytes = record { before = []; bytes = refl; here = refl; clean = refl }

pub align-Unread :
    (r : BitstreamReader) (rest : List ℕ) → Unread r rest → Unread (align_to_byte r) rest
unfolding align_to_byte
align-Unread r rest u = record {
  before = u.before;
  bytes = u.bytes;
  here = u.here;
  clean = u.clean;
}

-- The bytes ahead, by their distance.
pub Unread-at :
    (r : BitstreamReader) (rest : List ℕ) (i : ℕ)
    → Unread r rest
    → get_or r.data_bytes (r.pos + i) 0 ≡ get_or rest i 0
Unread-at r rest i u =
    ap (λ (xs : List ℕ). get_or xs (r.pos + i) 0) u.bytes
    ∙ ap (λ (p : ℕ). get_or (u.before ++ rest) (p + i) 0) u.here
    ∙ get_or-append u.before rest i

-- A claim of the bytes that come first succeeds and passes them.
pub claim-Unread :
    (r : BitstreamReader) (xs rest : List ℕ) (n : ℕ)
    → length xs ≡ n
    → Unread r (xs ++ rest)
    → ((claim n r).0 ≡ true) × Unread (claim n r).1 rest
unfolding claim align_to_byte
claim-Unread r xs rest n e u =
    let size : length r.data_bytes ≡ length u.before + (length xs + length rest) =
      ap (λ (ys : List ℕ). length ys) u.bytes
      ∙ length-append u.before (xs ++ rest)
      ∙ ap (λ (k : ℕ). length u.before + k) (length-append xs rest) in
    let enough : ltb (length r.data_bytes) (r.pos + n) ≡ false = ground (arith, size, u.here, e) in
    rw enough (
      refl,
      record {
        before = u.before ++ xs;
        bytes = u.bytes ∙ sym (append_assoc u.before xs rest);
        here = omega (arith, u.here, e, length-append u.before xs);
        clean = u.clean;
      },
    )

pub read_u8-Unread :
    (r : BitstreamReader) (b : ℕ) (rest : List ℕ)
    → Unread r (b ∷ rest)
    → ((read_u8_at r).0 ≡ b) × Unread (read_u8_at r).1 rest
unfolding read_u8_at
read_u8-Unread r b rest u =
    let (ok, next) = claim-Unread r (b ∷ []) rest 1 refl u in
    rw ok (Unread-at r (b ∷ rest) 0 u, next)

pub read_u16-Unread :
    (r : BitstreamReader) (v : ℕ) (rest : List ℕ)
    → IsU16 v
    → Unread r (write_u16 v ++ rest)
    → ((read_u16_at r).0 ≡ v) × Unread (read_u16_at r).1 rest
unfolding read_u16_at write_u16
read_u16-Unread r v rest h u =
    let (ok, next) = claim-Unread r (write_u16 v) rest 2 refl u in
    let at = λ (i : ℕ). Unread-at r (write_u16 v ++ rest) i u in
    rw (ok, at 0, at 1) (join_u16 v h, next)

pub read_u32-Unread :
    (r : BitstreamReader) (v : ℕ) (rest : List ℕ)
    → IsU32 v
    → Unread r (write_u32 v ++ rest)
    → ((read_u32_at r).0 ≡ v) × Unread (read_u32_at r).1 rest
unfolding read_u32_at write_u32
read_u32-Unread r v rest h u =
    let (ok, next) = claim-Unread r (write_u32 v) rest 4 refl u in
    let at = λ (i : ℕ). Unread-at r (write_u32 v ++ rest) i u in
    rw (ok, at 0, at 1, at 2, at 3) (join_u32 v h, next)

pub read_bytes-Unread :
    (r : BitstreamReader) (xs rest : List ℕ)
    → Unread r (xs ++ rest)
    → ((read_bytes (length xs) r).0 ≡ xs) × Unread (read_bytes (length xs) r).1 rest
unfolding read_bytes
read_bytes-Unread r xs rest u =
    let (ok, next) = claim-Unread r xs rest (length xs) refl u in
    let copied : take (length xs) (drop r.pos r.data_bytes) ≡ xs =
      ap (λ (ys : List ℕ). take (length xs) (drop r.pos ys)) u.bytes
      ∙ ap (λ (p : ℕ). take (length xs) (drop p (u.before ++ (xs ++ rest)))) u.here
      ∙ ap (λ (ys : List ℕ). take (length xs) ys) (drop-append u.before (xs ++ rest))
      ∙ take-append xs rest in
    rw (ok, copied) (refl, next)
