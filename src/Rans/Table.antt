-- ===== src/Rans/Table.antt =====
-- The decode table: RANSDecodeEntry and buildDecodeTable in src/codec/omni/rans_codec.cpp.
use omnidesk.Prelude.{ℕ, zero, suc, ◌+◌, ◌%◌, ◌^◌, List, [], ◌∷◌, set, replicate}
use omnidesk.Rans.Freq.{RansSymbol, rans_scale}

pub record RansDecodeEntry : Type 0 where
  pub symbol : ℕ
  pub freq : ℕ
  pub cum_freq : ℕ

-- The slots that one symbol takes: `base` and the `n - 1` that follow.
unfoldable pub fill_slots : RansDecodeEntry → ℕ → ℕ → List RansDecodeEntry → List RansDecodeEntry
fill_slots entry base zero table = table
fill_slots entry base (suc n) table =
    fill_slots entry (base + 1) n (set table (base % 2 ^ 16) entry)

unfoldable pub fill_symbol : ℕ → RansSymbol → List RansDecodeEntry → List RansDecodeEntry
unfolding fill_slots
fill_symbol sym s table =
    fill_slots (record { symbol = sym % 2 ^ 16; freq = s.freq; cum_freq = s.cum_freq }) s.cum_freq
      s.freq table

unfoldable pub fill_table : ℕ → List RansSymbol → List RansDecodeEntry → List RansDecodeEntry
fill_table sym [] table = table
fill_table sym (s ∷ ss) table = fill_table (sym + 1) ss (fill_symbol sym s table)

abbrev pub empty_entry : RansDecodeEntry
empty_entry = record { symbol = 0; freq = 0; cum_freq = 0 }

-- A symbol of frequency 0 takes no slot, which is what the `continue` of the source does.
unfoldable pub build_decode_table : List RansSymbol → List RansDecodeEntry
build_decode_table symbols = fill_table 0 symbols (replicate rans_scale empty_entry)
