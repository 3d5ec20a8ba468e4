-- ===== src/Rans/Examples.antt =====
-- Runs of the coder, and the theorems at concrete inputs.
use omnidesk.Prelude.{ℕ, ◌≡◌, ◌↔◌, ◌<◌, refl, List, [], ◌∷◌, some, arith}
use omnidesk.Rans.Freq.{
  build_frequency_table, reciprocal, symbol_at, fill_symbols, sum_counts, adjust, sum_scaled,
  scale_count,
}
use omnidesk.Rans.Table.{RansDecodeEntry, build_decode_table}
use omnidesk.Rans.{
  decode_loop, get_symbol, advance, refill, read_lanes, read_lane, write_lane, finish, overrun,
  encode, encode_interleaved, decode, decode_interleaved, put_symbol_fast, code_symbol, renormalize,
  encode_loop, encode_symbol, decoded, overrun, advance, refill,
}
use omnidesk.Rans.Normal.{IsCounts, build_frequency_table-Tiles, build_frequency_table-support}
use omnidesk.Rans.Support.{sum}
use omnidesk.Rans.Slots.{Tiles}
use omnidesk.Rans.Codec.{Restores, decode_interleaved_plain}
use omnidesk.Rans.Histogram.{histogram_round_trip, histogram_round_trip_interleaved}

-- Three symbols, the middle one absent.
abbrev three_counts : List ℕ
three_counts = 5 ∷ 0 ∷ 3 ∷ []

three_counts-IsCounts : IsCounts three_counts
three_counts-IsCounts = omega arith

three_counts_table :
    build_frequency_table three_counts
    ≡ symbol_at 0 2560 ∷ symbol_at 2560 0 ∷ symbol_at 2560 1536 ∷ []
unfolding build_frequency_table sum_counts fill_symbols adjust sum_scaled scale_count
three_counts_table = refl

encode_run :
    encode (0 ∷ 2 ∷ []) (build_frequency_table three_counts) [] ≡ some (2 ∷ 34 ∷ 40 ∷ 0 ∷ [])
unfolding encode encode_loop encode_symbol put_symbol_fast code_symbol renormalize
    build_frequency_table sum_counts fill_symbols adjust sum_scaled scale_count symbol_at reciprocal
encode_run = refl

histogram_round_trip_example :
    Restores
      (encode (0 ∷ 2 ∷ 2 ∷ 0 ∷ []) (build_frequency_table three_counts))
      (λ out. decode out (build_decode_table (build_frequency_table three_counts)) 4)
      4
      (0 ∷ 2 ∷ 2 ∷ 0 ∷ [])
histogram_round_trip_example =
    histogram_round_trip three_counts 0 (2 ∷ 2 ∷ 0 ∷ []) three_counts-IsCounts (
      (5, refl, omega arith),
      ((3, refl, omega arith), ((3, refl, omega arith), ((5, refl, omega arith), tt))),
    )

histogram_round_trip_interleaved_example :
    Restores
      (encode_interleaved (0 ∷ 2 ∷ []) (build_frequency_table three_counts))
      (λ out. decode_interleaved out (build_decode_table (build_frequency_table three_counts)) 2)
      16
      (0 ∷ 2 ∷ [])
histogram_round_trip_interleaved_example =
    histogram_round_trip_interleaved three_counts 0 (2 ∷ []) three_counts-IsCounts
      ((5, refl, omega arith), ((3, refl, omega arith), tt))

build_frequency_table-Tiles_example : Tiles 0 (build_frequency_table three_counts)
build_frequency_table-Tiles_example = build_frequency_table-Tiles three_counts three_counts-IsCounts

build_frequency_table-support_example : (0 < 3) ↔ (0 < 1536)
unfolding symbol_at
build_frequency_table-support_example =
    build_frequency_table-support three_counts 2 3 (symbol_at 2560 1536) three_counts-IsCounts
      (unfold sum in omega arith) refl (rw three_counts_table refl)

-- One symbol that takes the whole scale: each of the four states stays at RANS_L.
abbrev constant_input : List ℕ
constant_input = 0 ∷ 128 ∷ 0 ∷ 0 ∷ 0 ∷ 128 ∷ 0 ∷ 0 ∷ 0 ∷ 128 ∷ 0 ∷ 0 ∷ 0 ∷ 128 ∷ 0 ∷ 0 ∷ []

abbrev constant_slots : List RansDecodeEntry
constant_slots = record { symbol = 7; freq = 4096; cum_freq = 0 } ∷ []

decode_interleaved_plain_example :
    decode_interleaved constant_input constant_slots 6 ≡ decoded (7 ∷ 7 ∷ 7 ∷ 7 ∷ 7 ∷ 7 ∷ [])
unfolding read_lanes decode_loop get_symbol advance refill read_lane write_lane finish
decode_interleaved_plain_example = decode_interleaved_plain constant_input constant_slots 6

-- A state that needs a byte when there is none left: the source reads past its input.
decode_overrun : decode (0 ∷ 0 ∷ 0 ∷ 0 ∷ []) constant_slots 1 ≡ overrun
unfolding decode decode_loop get_symbol advance refill finish
decode_overrun = refl
