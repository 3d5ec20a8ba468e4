-- ===== src/Tile/Rebuilt.antt =====
-- The frequencies that the encoder writes rebuild its table, as far as decoding goes.
use mathlib.Core.Path.{subst}
use mathlib.Core.List.{append_assoc, append-nil}
use omnidesk.Prelude.{
  ℕ, suc, ◌+◌, ◌%◌, ◌^◌, ◌≤◌, ◌≡◌, refl, ap, ◌∙◌, sym, List, [], ◌∷◌, ◌++◌, Option, some, Bool,
  true, false, ltb, leb, ◌==◌, if◌then◌else◌, ◌||◌, ◌&&◌, arith, length, length-append, set,
  replicate, map, All, Bool-cases, inl, inr,
}
use omnidesk.Bytes.{IsU16, write_u16}
use omnidesk.Bitstream.{
  put_u8, put_u16, append_bytes, flush_bits, BitstreamReader, read_u8_at, read_u16_at,
}
use omnidesk.Bitstream.Unread.{at_byte, Unread, read_u8-Unread, read_u16-Unread}
use omnidesk.Rans.Freq.{RansSymbol, rans_scale}
use omnidesk.Rans.Table.{RansDecodeEntry, fill_table, fill_symbol, build_decode_table}
use omnidesk.Rans.Slots.{Tiles, Tiles-le}
use omnidesk.Tile.Residuals.{nonzero_count, write_entries, read_entries, rebuild_table, fits_slots}

abbrev pub freqs : List RansSymbol → List ℕ
freqs table = map (λ s. s.freq) table

-- The bytes of the table.
abbrev pub entry_bytes : ℕ → List RansSymbol → List ℕ
entry_bytes i [] = []
entry_bytes i (s ∷ ss) =
    if ltb 0 s.freq
    then (i % 256) ∷ (write_u16 s.freq ++ entry_bytes (i + 1) ss)
    else entry_bytes (i + 1) ss

pub write_entries_lem :
    (table : List RansSymbol) (i : ℕ) (bytes : List ℕ)
    → write_entries i table (at_byte bytes) ≡ at_byte (bytes ++ entry_bytes i table)
unfolding write_entries put_u8 put_u16 append_bytes flush_bits
write_entries_lem [] i bytes = ap at_byte (sym (append-nil bytes))
write_entries_lem (s ∷ ss) i bytes = elim (Bool-cases (ltb 0 s.freq)) [
  | inl e ↦ rw e (
      write_entries_lem ss (i + 1) ((bytes ++ ((i % 256) ∷ [])) ++ write_u16 s.freq)
      ∙ ap at_byte (
          append_assoc (bytes ++ ((i % 256) ∷ [])) (write_u16 s.freq) (entry_bytes (i + 1) ss)
          ∙ append_assoc bytes ((i % 256) ∷ []) (write_u16 s.freq ++ entry_bytes (i + 1) ss)))
  | inr e ↦ rw e (write_entries_lem ss (i + 1) bytes)
]

set-append :
    (pre : List ℕ) (x v : ℕ) (rest : List ℕ)
    → set (pre ++ (x ∷ rest)) (length pre) v ≡ pre ++ (v ∷ rest)
set-append [] x v rest = refl
set-append (p ∷ pre) x v rest = ap (λ (zs : List ℕ). p ∷ zs) (set-append pre x v rest)

-- Where the loop stops.
abbrev pub Reads : Option (List ℕ × BitstreamReader) → List ℕ → List ℕ → Type 0
Reads result fs rest = (r' : BitstreamReader) × (result ≡ some (fs, r')) × Unread r' rest

abbrev pub Restored : List RansSymbol → Type 0
Restored table =
    (pre rest : List ℕ) (r : BitstreamReader)
    → length pre + length table ≤ 256
    → All (λ s. IsU16 s.freq) table
    → Unread r (entry_bytes (length pre) table ++ rest)
    → Reads (read_entries (nonzero_count table) (pre ++ replicate (length table) 0) r)
        (pre ++ freqs table) rest

-- The loop goes on behind the entry for the next symbol.
next_entry :
    (f : ℕ) (ss : List RansSymbol) (pre rest : List ℕ) (r : BitstreamReader)
    → length pre + suc (length ss) ≤ 256
    → Restored ss
    → All (λ s. IsU16 s.freq) ss
    → Unread r (entry_bytes (length pre + 1) ss ++ rest)
    → Reads
        (read_entries (nonzero_count ss) (pre ++ (f ∷ replicate (length ss) 0)) r)
        (pre ++ (f ∷ freqs ss))
        rest
next_entry f ss pre rest r h ih a u =
    let size : length (pre ++ (f ∷ [])) ≡ length pre + 1 = length-append pre (f ∷ []) in
    let (r', e, u') =
      ih (pre ++ (f ∷ [])) rest r (omega (arith, size)) a
        (subst (λ (n : ℕ). Unread r (entry_bytes n ss ++ rest)) (sym size) u) in
    let zeros = append_assoc pre (f ∷ []) (replicate (length ss) 0) in
    let out = append_assoc pre (f ∷ []) (freqs ss) in
    (
      r',
      ap (λ (fs : List ℕ). read_entries (nonzero_count ss) fs r) (sym zeros)
          ∙ e
          ∙ ap (λ (fs : List ℕ). some (fs, r')) out,
      u',
    )

read_absent :
    (s : RansSymbol) (ss : List RansSymbol) (pre rest : List ℕ) (r : BitstreamReader)
    → length pre + suc (length ss) ≤ 256
    → 0 ≡ s.freq
    → Unread r (entry_bytes (length pre + 1) ss ++ rest)
    → Restored ss
    → All (λ s. IsU16 s.freq) ss
    → Reads
        (read_entries (nonzero_count ss) (pre ++ (0 ∷ replicate (length ss) 0)) r)
        (pre ++ (s.freq ∷ freqs ss))
        rest
read_absent s ss pre rest r h absent u ih a = rw (sym absent) (next_entry 0 ss pre rest r h ih a u)

read_entry :
    (s : RansSymbol) (ss : List RansSymbol) (pre rest : List ℕ) (r : BitstreamReader)
    → length pre + suc (length ss) ≤ 256
    → IsU16 s.freq
    → Unread r ((length pre % 256) ∷ (write_u16 s.freq ++ entry_bytes (length pre + 1) ss) ++ rest)
    → Restored ss
    → All (λ s. IsU16 s.freq) ss
    → Reads
        (read_entries (suc (nonzero_count ss)) (pre ++ (0 ∷ replicate (length ss) 0)) r)
        (pre ++ (s.freq ∷ freqs ss))
        rest
unfolding read_entries
read_entry s ss pre rest r h k u ih a =
    let more : List ℕ = entry_bytes (length pre + 1) ss ++ rest in
    let (e8, u8) =
      read_u8-Unread r (length pre % 256) (write_u16 s.freq ++ more)
        (rw (append_assoc (write_u16 s.freq) (entry_bytes (length pre + 1) ss) rest) at u) in
    let (e16, u16) = read_u16-Unread (read_u8_at r).1 s.freq more k u8 in
    let index : length pre % 256 ≡ length pre = omega arith in
    rw (u16.clean, e16, e8, index, set-append pre 0 s.freq (replicate (length ss) 0))
      (next_entry s.freq ss pre rest (read_u16_at (read_u8_at r).1).1 h ih a u16)

pub read_entries_lem : (table : List RansSymbol) → Restored table
unfolding read_entries nonzero_count
read_entries_lem [] pre rest r h a u = (r, refl, u)
read_entries_lem (s ∷ ss) pre rest r h (k, a) u = elim (Bool-cases (ltb 0 s.freq)) [
  | inl e ↦
      let one_more : 1 + nonzero_count ss ≡ suc (nonzero_count ss) = omega arith in
      rw (e, one_more) (read_entry s ss pre rest r h k (rw e at u) (read_entries_lem ss) a)
  | inr e ↦
      let absent : 0 ≡ s.freq = ground (arith, e) in
      let none_more : 0 + nonzero_count ss ≡ nonzero_count ss = omega arith in
      rw (e, none_more) (read_absent s ss pre rest r h absent (rw e at u) (read_entries_lem ss) a)
]

-- The rebuilt table fills the same slots.
rebuilt_fill :
    (table : List RansSymbol) (c sym : ℕ) (t : List RansDecodeEntry)
    → Tiles c table
    → fill_table sym (rebuild_table c (freqs table)) t ≡ fill_table sym table t
unfolding fill_table rebuild_table fill_symbol
rebuilt_fill [] c sym t h = refl
rebuilt_fill (s ∷ ss) c sym t (e, i, h) =
    let next : (c + s.freq) % 2 ^ 16 ≡ c + s.freq = omega (arith, Tiles-le (c + s.freq) ss h) in
    rw (next, e) (rebuilt_fill ss (c + s.freq) (sym + 1) _ h)

pub rebuilt_decode_table :
    (table : List RansSymbol)
    → Tiles 0 table
    → build_decode_table (rebuild_table 0 (freqs table)) ≡ build_decode_table table
unfolding build_decode_table
rebuilt_decode_table table h = rebuilt_fill table 0 0 _ h

or_true : (b : Bool) → (b || true) && true ≡ true
or_true true = refl
or_true false = refl

pub rebuilt_fits :
    (table : List RansSymbol) (c : ℕ)
    → Tiles c table
    → fits_slots (rebuild_table c (freqs table)) ≡ true
unfolding fits_slots rebuild_table
rebuilt_fits [] c h = refl
rebuilt_fits (s ∷ ss) c (e, i, h) =
    let next : (c + s.freq) % 2 ^ 16 ≡ c + s.freq = omega (arith, Tiles-le (c + s.freq) ss h) in
    let within : leb (c + s.freq) rans_scale ≡ true = ground (arith, Tiles-le (c + s.freq) ss h) in
    rw (next, within, rebuilt_fits ss (c + s.freq) h) (or_true (s.freq == 0))

pub Tiles-freq : (table : List RansSymbol) (c : ℕ) → Tiles c table → All (λ s. IsU16 s.freq) table
Tiles-freq [] c h = tt
Tiles-freq (s ∷ ss) c (e, i, h) =
    (omega (arith, Tiles-le (c + s.freq) ss h), Tiles-freq ss (c + s.freq) h)
