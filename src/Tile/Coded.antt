-- ===== src/Tile/Coded.antt =====
-- Symbols come back from the bytes of encodeResiduals.
use mathlib.Core.Path.{subst}
use mathlib.Core.List.{append_assoc}
use omnidesk.Prelude.{
  ℕ, ◌+◌, ◌^◌, ◌≤◌, ◌<◌, ◌≡◌, ap, ◌∙◌, sym, List, [], ◌∷◌, ◌++◌, none, some, false, ltb, leb, ◌==◌,
  arith, length, replicate, All, Bool-cases, inl, inr, leb→le,
}
use omnidesk.Bytes.{IsByte, write_u16}
use omnidesk.Bitstream.{BitstreamWriter, put_u16, append_bytes, flush_bits, read_u16_at}
use omnidesk.Bitstream.Unread.{at_byte, read_u16-Unread}
use omnidesk.Rans.Freq.{RansSymbol, build_frequency_table}
use omnidesk.Rans.Table.{build_decode_table}
use omnidesk.Rans.{encode_interleaved, decode_interleaved}
use omnidesk.Rans.Slots.{Tiles}
use omnidesk.Rans.Loops.{Occurs}
use omnidesk.Rans.Normal.{build_frequency_table-Tiles}
use omnidesk.Rans.Codec.{Restores, decode-encode_interleaved}
use omnidesk.Rans.Histogram.{histogram_round_trip_interleaved, length-build, Counted-sum, Counted}
use omnidesk.Tile.Counts.{
  count_symbols, scan_unique, no_counts, count_symbols-IsCounts, count_symbols-Counted,
  unique_symbol_lem, scan_unique-IsByte, nothing_counted, length-tile_counts,
}
use omnidesk.Tile.Residuals.{
  nonzero_count, write_entries, write_stream, encode_residuals_shared, write_uniform,
  encode_residuals, decode_residuals_shared, decode_rebuilt, decode_residuals,
}
use omnidesk.Tile.Rebuilt.{
  entry_bytes, write_entries_lem, read_entries_lem, rebuilt_decode_table, rebuilt_fits, Tiles-freq,
}
use omnidesk.Tile.Streams.{
  Carries, stream_bytes, write_stream_lem, read_stream_lem, uniform_Carries,
}

-- A shared table codes every non-empty list of symbols that occur in it.
pub shared_Carries :
    (table : List RansSymbol) (s : ℕ) (ss : List ℕ)
    → Tiles 0 table
    → All (Occurs table) (s ∷ ss)
    → length (s ∷ ss) < 2 ^ 24
    → Carries
        (encode_residuals (some table) (s ∷ ss))
        (decode_residuals (some (build_decode_table table)) (length (s ∷ ss)))
        (s ∷ ss)
unfolding encode_residuals decode_residuals encode_residuals_shared decode_residuals_shared
    flush_bits
shared_Carries table s ss tiles occurs h =
    let (out, enc, dec, small) = decode-encode_interleaved table s ss tiles occurs in
    (
      stream_bytes out (s ∷ ss),
      λ bytes. write_stream_lem s ss table out bytes enc,
      λ r rest u.
          read_stream_lem out (s ∷ ss) rest (build_decode_table table) r h (omega arith) dec u,
    )

nonzero_count-le : (table : List RansSymbol) → nonzero_count table ≤ length table
unfolding nonzero_count
nonzero_count-le [] = omega arith
nonzero_count-le (s ∷ ss) = ground (arith, nonzero_count-le ss)

nonzero_count-pos :
    (table : List RansSymbol) (c : ℕ) → Tiles c table → c < 2 ^ 12 → 0 < nonzero_count table
unfolding nonzero_count
nonzero_count-pos [] c h k = absurd (omega arith)
nonzero_count-pos (s ∷ ss) c (e, i, h) k = elim (Bool-cases (ltb 0 s.freq)) [
  | inl b ↦ rw b (omega arith)
  | inr b ↦ rw b (omega (arith, nonzero_count-pos ss (c + s.freq) h (ground (arith, b))))
]

-- A table that tiles the slots travels with the symbols it codes.
table_Carries :
    (table : List RansSymbol) (s : ℕ) (ss : List ℕ)
    → Tiles 0 table
    → length table ≡ 256
    → Restores
        (encode_interleaved (s ∷ ss) table)
        (λ out. decode_interleaved out (build_decode_table table) (length (s ∷ ss)))
        16
        (s ∷ ss)
    → length (s ∷ ss) < 2 ^ 24
    → Carries
        (λ w.
          write_stream
            (s ∷ ss)
            table
            (write_entries 0 table (put_u16 (nonzero_count table) (flush_bits w))))
        (decode_residuals none (length (s ∷ ss)))
        (s ∷ ss)
unfolding decode_residuals decode_rebuilt put_u16 append_bytes flush_bits
table_Carries table s ss tiles full (out, enc, dec, small) h =
    let n : ℕ = nonzero_count table in
    let stream : List ℕ = stream_bytes out (s ∷ ss) in
    (
      write_u16 n ++ (entry_bytes 0 table ++ stream),
      λ bytes.
          ap (λ (w : BitstreamWriter). write_stream (s ∷ ss) table w)
            (write_entries_lem table 0 (bytes ++ write_u16 n))
          ∙ write_stream_lem s ss table out ((bytes ++ write_u16 n) ++ entry_bytes 0 table) enc
          ∙ ap (λ (xs : List ℕ). some (at_byte xs))
              (append_assoc (bytes ++ write_u16 n) (entry_bytes 0 table) stream
                ∙ append_assoc bytes (write_u16 n) (entry_bytes 0 table ++ stream)),
      λ r rest u.
          let few = nonzero_count-le table in
          let pos = nonzero_count-pos table 0 tiles (omega arith) in
          let u' =
            rw
              (
                append_assoc (write_u16 n) (entry_bytes 0 table ++ stream) rest,
                append_assoc (entry_bytes 0 table) stream rest,
              )
              at u in
          let (e0, u0) =
            read_u16-Unread r n (entry_bytes 0 table ++ (stream ++ rest)) (omega (arith, few, full))
              u' in
          let (r', e1, u1) =
            read_entries_lem table [] (stream ++ rest) (read_u16_at r).1 (omega (arith, full))
              (Tiles-freq table 0 tiles) u0 in
          let tag : (n == 0) ≡ false = ground (arith, pos) in
          let zeros : replicate {A = ℕ} (length table) 0 ≡ replicate 256 0 =
            ap (λ (k : ℕ). replicate {A = ℕ} k 0) full in
          rw
            (
              u0.clean,
              e0,
              tag,
              sym zeros,
              e1,
              rebuilt_fits table 0 tiles,
              rebuilt_decode_table table tiles,
            )
            (read_stream_lem out (s ∷ ss) rest (build_decode_table table) r' h (omega arith) dec
              u1),
    )

-- Where the scan finds more than one symbol, the table of the counts is written.
several_Carries :
    (symbols : List ℕ)
    → let counts : List ℕ = count_symbols symbols no_counts in
      let table : List RansSymbol = build_frequency_table counts in
      leb (scan_unique 0 0 0 counts).0 1 ≡ false
      → All (Counted counts) symbols
      → length symbols < 2 ^ 24
      → Carries
          (λ w.
            write_stream symbols table
              (write_entries 0 table (put_u16 (nonzero_count table) (flush_bits w))))
          (decode_residuals none (length symbols))
          symbols
several_Carries [] e a h = absurd (ground (arith, ap (λ (p : ℕ × ℕ). p.0) nothing_counted, e))
several_Carries (s ∷ ss) e a h =
    let counts : List ℕ = count_symbols (s ∷ ss) no_counts in
    let valid = count_symbols-IsCounts (s ∷ ss) in
    let full = length-build counts valid (Counted-sum counts s a.0) ∙ length-tile_counts (s ∷ ss) in
    table_Carries (build_frequency_table counts) s ss (build_frequency_table-Tiles counts valid)
      full (histogram_round_trip_interleaved counts s ss valid a) h

-- Fewer than 2^24 byte symbols, none included, are carried by the bytes that encodeResiduals writes
-- with a table of their own: decodeResiduals, told their number, gives them back.
pub encode_residuals-Carries :
    (symbols : List ℕ)
    → All IsByte symbols
    → length symbols < 2 ^ 24
    → Carries (encode_residuals none symbols) (decode_residuals none (length symbols)) symbols
unfolding encode_residuals
encode_residuals-Carries symbols a h =
    let counts : List ℕ = count_symbols symbols no_counts in
    let unique = scan_unique 0 0 0 counts in
    let counted = count_symbols-Counted symbols (omega arith) a in
    elim (Bool-cases (leb unique.0 1)) [
      | inl e ↦
          let same = unique_symbol_lem symbols symbols (leb→le unique.0 1 e) a counted in
          rw e (
            subst
              (Carries (λ w. some (write_uniform unique.1 (length symbols) (flush_bits w)))
                (decode_residuals none (length symbols)))
              (sym same)
              (uniform_Carries unique.1 (length symbols) (omega arith)
                (scan_unique-IsByte counts 0 0 0 (omega arith))))
      | inr e ↦ rw e (several_Carries symbols e counted h)
    ]
