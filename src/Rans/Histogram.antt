-- ===== src/Rans/Histogram.antt =====
-- The coder with the tables that buildFrequencyTable and buildDecodeTable make out of symbol
-- counts.
use omnidesk.Prelude.{
  ℕ, zero, suc, ◌<◌, ◌≡◌, ◌∙◌, sym, List, [], ◌∷◌, some, arith, length, All, get_elem?,
  lt_of_get_elem?, get_elem?_of_lt,
}
use omnidesk.Rans.Freq.{build_frequency_table}
use omnidesk.Rans.Table.{build_decode_table}
use omnidesk.Rans.{encode, encode_interleaved, decode, decode_interleaved}
use omnidesk.Rans.Loops.{Occurs}
use omnidesk.Rans.Support.{sum, SameSupport-length, length-fill_symbols}
use omnidesk.Rans.Normal.{
  IsCounts, normal_freqs, build_counted, build_frequency_table-Tiles, build_frequency_table-support,
}
use omnidesk.Rans.Codec.{Restores, decode-encode, decode-encode_interleaved}

-- The symbol `s` was counted at least once.
abbrev pub Counted : List ℕ → ℕ → Type 0
Counted cs s = (c : ℕ) × (get_elem? cs s ≡ some c) × (0 < c)

pub Counted-sum : (cs : List ℕ) (s : ℕ) → Counted cs s → 0 < sum cs
unfolding sum
Counted-sum [] s (c, e, h) = cc
Counted-sum (x ∷ cs) zero (c, e, h) = ground arith
Counted-sum (x ∷ cs) (suc s) (c, e, h) = omega (arith, Counted-sum cs s (c, e, h))

pub length-build :
    (cs : List ℕ) → IsCounts cs → 0 < sum cs → length (build_frequency_table cs) ≡ length cs
length-build cs h pos =
    rw (build_counted cs h pos)
      (length-fill_symbols 0 _ ∙ sym (SameSupport-length cs _ (normal_freqs cs h pos).1))

Counted-Occurs :
    (cs : List ℕ) (s : ℕ) → IsCounts cs → Counted cs s → Occurs (build_frequency_table cs) s
Counted-Occurs cs s h (c, e, pos) =
    let some_count = Counted-sum cs s (c, e, pos) in
    let below = lt_of_get_elem? cs s e in
    let table = build_frequency_table cs in
    let (x, at) = get_elem?_of_lt table s (omega (arith, below, length-build cs h some_count)) in
    (
      x,
      at,
      (build_frequency_table-support cs s c x h some_count e at).0 pos,
      omega (arith, below, h.few),
    )

All-Counted-Occurs :
    (cs syms : List ℕ)
    → IsCounts cs
    → All (Counted cs) syms
    → All (Occurs (build_frequency_table cs)) syms
All-Counted-Occurs cs [] h a = tt
All-Counted-Occurs cs (s ∷ syms) h a = (Counted-Occurs cs s h a.0, All-Counted-Occurs cs syms h a.1)

-- From counts to tables to bytes and back: for 1 to 256 counts of 32 bits and every non-empty
-- sequence of counted symbols, the decoder returns what was encoded, out of four bytes and at most
-- two more for each symbol.
pub histogram_round_trip :
    (cs : List ℕ) (s : ℕ) (ss : List ℕ)
    → IsCounts cs
    → All (Counted cs) (s ∷ ss)
    → let table = build_frequency_table cs in
      Restores
        (encode (s ∷ ss) table)
        (λ out. decode out (build_decode_table table) (length (s ∷ ss)))
        4
        (s ∷ ss)
histogram_round_trip cs s ss h a =
    decode-encode (build_frequency_table cs) s ss (build_frequency_table-Tiles cs h)
      (All-Counted-Occurs cs (s ∷ ss) h a)

-- The same with the four interleaved states and the unrolled decoder: what was encoded comes back,
-- out of sixteen bytes and at most two more for each symbol.
pub histogram_round_trip_interleaved :
    (cs : List ℕ) (s : ℕ) (ss : List ℕ)
    → IsCounts cs
    → All (Counted cs) (s ∷ ss)
    → let table = build_frequency_table cs in
      Restores
        (encode_interleaved (s ∷ ss) table)
        (λ out. decode_interleaved out (build_decode_table table) (length (s ∷ ss)))
        16
        (s ∷ ss)
histogram_round_trip_interleaved cs s ss h a =
    decode-encode_interleaved (build_frequency_table cs) s ss (build_frequency_table-Tiles cs h)
      (All-Counted-Occurs cs (s ∷ ss) h a)
