-- ===== src/Tile/Residuals.antt =====
-- Coding the symbols of a tile: encodeResiduals and encodeResidualsShared of TileEncoder,
-- decodeResiduals and decodeResidualsShared of TileDecoder.
use omnidesk.Prelude.{
  ℕ, zero, suc, ◌+◌, ◌%◌, ◌^◌, List, [], ◌∷◌, Option, none, some, Bool, true, ltb, leb, ◌==◌, ◌||◌,
  ◌&&◌, not, if◌then◌else◌, length, set, replicate,
}
use omnidesk.Bytes.{◌>>=◌}
use omnidesk.Bitstream.{
  BitstreamWriter, flush_bits, append_bytes, put_u8, put_u16, put_u32, BitstreamReader, read_u8_at,
  read_u16_at, read_u32_at, read_bytes,
}
use omnidesk.Rans.Freq.{RansSymbol, rans_scale, build_frequency_table}
use omnidesk.Rans.Table.{RansDecodeEntry, build_decode_table}
use omnidesk.Rans.{encode_interleaved, decode_interleaved, Decoded, rejected, decoded}
use omnidesk.Tile.Counts.{count_symbols, scan_unique, no_counts}

-- `numNonZero`.
unfoldable pub nonzero_count : List RansSymbol → ℕ
nonzero_count [] = 0
nonzero_count (s ∷ ss) = (if ltb 0 s.freq then 1 else 0) + nonzero_count ss

-- The symbols from `i` on that have a frequency, each with it.
unfoldable pub write_entries : ℕ → List RansSymbol → BitstreamWriter → BitstreamWriter
write_entries i [] w = w
write_entries i (s ∷ ss) w =
    write_entries (i + 1) ss (if ltb 0 s.freq then put_u16 s.freq (put_u8 (i % 256) w) else w)

-- The coded bytes, behind their number and that of the symbols. `none` is a read past the
-- frequency table.
unfoldable pub write_stream : List ℕ → List RansSymbol → BitstreamWriter → Option BitstreamWriter
write_stream symbols table w = do
  rans_data ← encode_interleaved symbols table []
  some (append_bytes rans_data (put_u32 (length symbols) (put_u32 (length rans_data) w)))

unfoldable pub encode_residuals_shared :
    List ℕ → List RansSymbol → BitstreamWriter → Option BitstreamWriter
encode_residuals_shared symbols table w = write_stream symbols table (flush_bits w)

unfoldable pub write_uniform : ℕ → ℕ → BitstreamWriter → BitstreamWriter
write_uniform sym total w = put_u32 total (put_u8 sym (put_u16 0 w))

-- With `sharedFreqTable_`, where there is one.
unfoldable pub encode_residuals :
    Option (List RansSymbol) → List ℕ → BitstreamWriter → Option BitstreamWriter
encode_residuals (some table) symbols w = encode_residuals_shared symbols table w
encode_residuals none symbols w =
    let counts : List ℕ = count_symbols symbols no_counts in
    let unique = scan_unique 0 0 0 counts in
    let table : List RansSymbol = build_frequency_table counts in
    if leb unique.0 1
    then some (write_uniform unique.1 (length symbols) (flush_bits w))
    else write_stream symbols table
        (write_entries 0 table (put_u16 (nonzero_count table) (flush_bits w)))

-- What a decoding function gives: `failed` is the result false; `overrun` an access outside an
-- array, on which the source has no defined behaviour.
pub data Attempt (A : Type 0) : Type 0 where
  failed overrun : Attempt A
  done : A → Attempt A

unfoldable pub from_decoded : Decoded → Attempt (List ℕ)
from_decoded rejected = failed
from_decoded Decoded.overrun = overrun
from_decoded (decoded out) = done out

-- The numbers of bytes and of symbols, and the bytes.
unfoldable pub read_stream : List RansDecodeEntry → ℕ → BitstreamReader → Attempt (List ℕ)
read_stream table total r =
    let rans_size = read_u32_at r in
    let sym_count = read_u32_at rans_size.1 in
    let rans_data = read_bytes rans_size.0 sym_count.1 in
    if sym_count.1.error || not (sym_count.0 == total) || rans_data.1.error
    then failed
    else from_decoded (decode_interleaved rans_data.0 table total)

unfoldable pub decode_residuals_shared :
    List RansDecodeEntry → ℕ → BitstreamReader → Attempt (List ℕ)
decode_residuals_shared table total r = read_stream table total r

-- The loop that reads the frequencies; `none` at the end of the data.
unfoldable pub read_entries : ℕ → List ℕ → BitstreamReader → Option (List ℕ × BitstreamReader)
read_entries zero freqs r = some (freqs, r)
read_entries (suc n) freqs r =
    let sym = read_u8_at r in
    let freq = read_u16_at sym.1 in
    let rest = read_entries n (set freqs sym.0 freq.0) freq.1 in if freq.1.error then none else rest

-- `cumFreq` is a uint16_t; the decoder does not use the reciprocals.
unfoldable pub rebuild_table : ℕ → List ℕ → List RansSymbol
rebuild_table cum_freq [] = []
rebuild_table cum_freq (f ∷ fs) =
    record { freq = f; cum_freq = cum_freq; rcp_freq = 0; rcp_shift = 0 }
    ∷ rebuild_table ((cum_freq + f) % 2 ^ 16) fs

-- Whether buildDecodeTable stays within the table, which it does not test: the frequencies are
-- those of the stream.
unfoldable pub fits_slots : List RansSymbol → Bool
fits_slots [] = true
fits_slots (s ∷ ss) = (s.freq == 0 || leb (s.cum_freq + s.freq) rans_scale) && fits_slots ss

unfoldable pub decode_uniform : ℕ → BitstreamReader → Attempt (List ℕ)
decode_uniform total r =
    let sym = read_u8_at r in
    let sym_count = read_u32_at sym.1 in
    if sym_count.1.error || not (sym_count.0 == total) then failed else done (replicate total sym.0)

-- With the table rebuilt from the frequencies that were read.
unfoldable pub decode_rebuilt : ℕ → Option (List ℕ × BitstreamReader) → Attempt (List ℕ)
decode_rebuilt total none = failed
decode_rebuilt total (some (freqs, r)) =
    let table : List RansSymbol = rebuild_table 0 freqs in
    if fits_slots table then read_stream (build_decode_table table) total r else overrun

-- With `sharedDecodeTable_`, where there is one.
unfoldable pub decode_residuals :
    Option (List RansDecodeEntry) → ℕ → BitstreamReader → Attempt (List ℕ)
decode_residuals (some table) total r = decode_residuals_shared table total r
decode_residuals none total r =
    let nonzero = read_u16_at r in
    let rebuilt : Attempt (List ℕ) =
      decode_rebuilt total (read_entries nonzero.0 (replicate 256 0) nonzero.1) in
    if nonzero.1.error
    then failed
    else (if nonzero.0 == 0 then decode_uniform total nonzero.1 else rebuilt)
