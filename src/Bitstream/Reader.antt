-- ===== src/Bitstream/Reader.antt =====
-- The reader stays within its data, and reads back what the writer wrote.
use mathlib.Core.List.{append_assoc}
use omnidesk.Prelude.{
  ℕ, zero, suc, ◌+◌, ◌-◌, ◌*◌, ◌/◌, ◌%◌, ◌^◌, ◌≤◌, ◌<◌, ◌≡◌, refl, ap, ◌∙◌, ◌⊎◌, inl, inr, List, [],
  ◌∷◌, ◌++◌, Bool, true, false, arith, ltb, leb, ◌==◌, if◌then◌else◌, length, length-append, get_or,
}
use omnidesk.Bytes.{IsU32, join_u32, write_u32}
use omnidesk.Bitstream.{
  BitstreamWriter, flush_bits, append_bytes, put_u32, BitstreamReader, claim, read_u32_at, cache,
  read_bits,
}

-- The position is within the data.
abbrev pub IsReader : BitstreamReader → Type 0
IsReader r = r.pos ≤ length r.data_bytes

-- A call leaves the position within the data, and the data as they are.
abbrev Stays : BitstreamReader → ℕ × BitstreamReader → Type 0
Stays r (v, r') = IsReader r' × (r'.data_bytes ≡ r.data_bytes)

if-Stays :
    (r : BitstreamReader) (b c : Bool) (x y : ℕ × BitstreamReader)
    → (b ≡ true → c ≡ true → Stays r x)
    → (b ≡ true → c ≡ false → Stays r y)
    → (b ≡ false → Stays r y)
    → Stays r (if b then (if c then x else y) else y)
if-Stays r true true x y f g h = f refl refl
if-Stays r true false x y f g h = g refl refl
if-Stays r false c x y f g h = h refl

cache-IsReader :
    (r : BitstreamReader)
    → ((r.bit_pos == 0) ≡ true) × (r.pos < length r.data_bytes)
      ⊎ ((r.bit_pos == 0) ≡ false) × IsReader r
    → IsReader (cache r) × ((cache r).data_bytes ≡ r.data_bytes)
unfolding cache
cache-IsReader r (inl (b, h)) = rw (cache, b) (omega arith, refl)
cache-IsReader r (inr (b, h)) = rw (cache, b) (h, refl)

-- Reading any number of bits keeps the position within the data and the data as they are.
pub read_bits-IsReader :
    (n result : ℕ) (r : BitstreamReader)
    → IsReader r
    → IsReader (read_bits n result r).1 × ((read_bits n result r).1.data_bytes ≡ r.data_bytes)
unfolding read_bits
read_bits-IsReader zero result r h = (h, refl)
read_bits-IsReader (suc n) result r h =
    let value : ℕ = (result * 2 % 256) + (cache r).bit_buf / 2 ^ ((cache r).bit_pos - 1) % 2 in
    let next : BitstreamReader = record (cache r) { bit_pos = (cache r).bit_pos - 1 } in
    let later : IsReader (cache r) × ((cache r).data_bytes ≡ r.data_bytes)
        → Stays r (read_bits n value next) =
      λ k. let (in_data, kept) = read_bits-IsReader n value next k.0 in (in_data, kept ∙ k.1) in
    if-Stays r (r.bit_pos == 0) (leb (length r.data_bytes) r.pos) (0, record r { error = true })
      (read_bits n value next) (λ b c. (h, refl))
      (λ b c. later (cache-IsReader r (inl (b, ground (arith, c)))))
      (λ b. later (cache-IsReader r (inr (b, h))))

pub get_or-append : (xs ys : List ℕ) (i : ℕ) → get_or (xs ++ ys) (length xs + i) 0 ≡ get_or ys i 0
get_or-append [] ys i = let e : 0 + i ≡ i = omega arith in ap (λ (n : ℕ). get_or ys n 0) e
get_or-append (x ∷ xs) ys i =
    let e : suc (length xs) + i ≡ suc (length xs + i) = omega arith in
    ap (λ (n : ℕ). get_or (x ∷ (xs ++ ys)) n 0) e ∙ get_or-append xs ys i

put_u32_lem : (v : ℕ) (w : BitstreamWriter) → (put_u32 v w).buf ≡ (flush_bits w).buf ++ write_u32 v
unfolding put_u32 append_bytes
put_u32_lem v w = refl

-- A 32-bit word that was put after what the writer held, flushed, is read back at its position,
-- whatever follows it, and without an error if there was none.
pub read_u32_at-append :
    (v : ℕ) (w : BitstreamWriter) (rest : List ℕ) (r : BitstreamReader)
    → IsU32 v
    → r.data_bytes ≡ (put_u32 v w).buf ++ rest
    → r.pos ≡ length (flush_bits w).buf
    → ((read_u32_at r).0 ≡ v)
      × ((read_u32_at r).1.pos ≡ r.pos + 4)
      × ((read_u32_at r).1.error ≡ r.error)
unfolding read_u32_at claim write_u32
read_u32_at-append v w rest r h d e =
    let all : r.data_bytes ≡ (flush_bits w).buf ++ (write_u32 v ++ rest) =
      d
      ∙ ap (λ (xs : List ℕ). xs ++ rest) (put_u32_lem v w)
      ∙ append_assoc (flush_bits w).buf (write_u32 v) rest in
    let enough : ltb (length r.data_bytes) (r.pos + 4) ≡ false = ground (
      arith,
      ap (λ (xs : List ℕ). length xs) all,
      length-append (flush_bits w).buf (write_u32 v ++ rest),
      e,
    ) in
    let at = λ (i : ℕ).
      ap (λ (xs : List ℕ). get_or xs (r.pos + i) 0) all
      ∙ ap (λ (p : ℕ). get_or ((flush_bits w).buf ++ (write_u32 v ++ rest)) (p + i) 0) e
      ∙ get_or-append (flush_bits w).buf (write_u32 v ++ rest) i in
    rw (enough, at 0, at 1, at 2, at 3) (join_u32 v h, refl, refl)
