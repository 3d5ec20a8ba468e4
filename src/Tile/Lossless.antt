-- ===== src/Tile/Lossless.antt =====
-- A lossless tile comes back.
use native.Mathlib.Nat.{mul_comm}
use mathlib.Core.Path.{subst}
use mathlib.Core.List.{append_assoc, append-nil}
use omnidesk.Prelude.{
  ℕ, ◌+◌, ◌*◌, ◌/◌, ◌%◌, ◌^◌, ◌<◌, ◌≡◌, refl, ap, ◌∙◌, sym, List, [], ◌∷◌, ◌++◌, Option, none, some,
  arith, All, length,
}
use omnidesk.Bitstream.{BitstreamWriter, flush_bits, write_bits, BitstreamReader, align_to_byte}
use omnidesk.Bitstream.Unread.{at_byte, reader_of, reader_of-Unread, Unread, align-Unread}
use omnidesk.Bitstream.Bits.{Fresh, within_byte, within-Unread, read_flag_next, flush_flag}
use omnidesk.Color.{Pixel}
use omnidesk.Color.Lossless.{IsPixel}
use omnidesk.Rans.Freq.{RansSymbol}
use omnidesk.Rans.Table.{RansDecodeEntry}
use omnidesk.Tile.Modes.{Neighbours}
use omnidesk.Tile.Select.{PredMode, mode_code}
use omnidesk.Tile.Symbols.{
  single_byte, symbols_of, residuals_of-symbols_of, symbols_of-count, symbol_count-le,
}
use omnidesk.Tile.Residuals.{encode_residuals, decode_residuals, Attempt, done}
use omnidesk.Tile.Coded.{encode_residuals-Carries}
use omnidesk.Tile.Streams.{Carries}
use omnidesk.Tile.Coder.{
  Channels, to_planes, from_planes, select_modes, predict_planes, write_modes, write_residuals,
  encode_lossless, rebuild_planes, on_symbols, decode_lossless,
}
use omnidesk.Tile.Planes.{
  IsTilePlane, ArePlanes, AreModes, to_planes-ArePlanes, predict_planes-IsTilePlane,
  rebuild_planes-predict_planes, from_planes-to_planes,
}
use omnidesk.Tile.Choice.{select_modes-AreModes}
use omnidesk.Tile.Header.{
  flag_of, flag_of-lt, flag_of-single, encode_residuals-flush, mode_byte, write_modes_lem,
  read_modes_lem,
}

-- A tile of byte components and of a size that fits its symbols into 24 bits.
pub record IsTile (w h : ℕ) (ps : List Pixel) : Type 0 where
  pub size : length ps ≡ h * w
  pub small : h * w < 2 ^ 21
  pub pixels : All IsPixel ps

-- The bytes of a tile.
abbrev tile_bytes : Channels PredMode → ℕ → List ℕ → List ℕ
tile_bytes m flag coded = mode_byte m ∷ (mode_code m.cg % 2 * 128 + flag * 64) ∷ coded

abbrev pub tile_modes : List Pixel → ℕ → ℕ → Channels Neighbours → Channels PredMode
tile_modes ps w h nb = select_modes (to_planes ps) w h nb

abbrev pub tile_residuals : List Pixel → ℕ → ℕ → Channels Neighbours → List ℕ
tile_residuals ps w h nb = predict_planes (to_planes ps) w h (tile_modes ps w h nb) nb

write_lossless :
    (m : Channels PredMode) (residuals bytes coded : List ℕ) (shared : Option (List RansSymbol))
    → AreModes m
    → ((start : List ℕ)
        → encode_residuals shared (symbols_of residuals) (at_byte start)
          ≡ some (at_byte (start ++ coded)))
    → write_residuals shared residuals (write_modes m (at_byte bytes))
      ≡ some (at_byte (bytes ++ tile_bytes m (flag_of residuals) coded))
unfolding write_residuals
write_lossless m residuals bytes coded shared a enc =
    let low : mode_code m.cg % 2 < 2 = omega arith in
    let second : ℕ = mode_code m.cg % 2 * 128 + flag_of residuals * 64 in
    encode_residuals-flush shared (symbols_of residuals) _
    ∙ ap
        (λ (x : BitstreamWriter).
          encode_residuals shared (symbols_of residuals)
            (flush_bits (write_bits (flag_of residuals) 1 x)))
        (write_modes_lem m bytes a)
    ∙ ap (λ (x : BitstreamWriter). encode_residuals shared (symbols_of residuals) x)
        (flush_flag (bytes ++ (mode_byte m ∷ [])) (mode_code m.cg % 2) (flag_of residuals) low
          (flag_of-lt residuals))
    ∙ enc ((bytes ++ (mode_byte m ∷ [])) ++ (second ∷ []))
    ∙ ap (λ (xs : List ℕ). some (at_byte xs))
        (append_assoc (bytes ++ (mode_byte m ∷ [])) (second ∷ []) coded
          ∙ append_assoc bytes (mode_byte m ∷ []) (second ∷ coded))

read_lossless :
    (m : Channels PredMode) (residuals coded rest : List ℕ) (shared : Option (List RansDecodeEntry))
    (w h : ℕ) (nb : Channels Neighbours) (old : List ℕ) (r : BitstreamReader)
    → AreModes m
    → IsTilePlane (w * h * 3) residuals
    → ((x : BitstreamReader)
        → Unread x (coded ++ rest)
        → decode_residuals shared (length (symbols_of residuals)) x ≡ done (symbols_of residuals))
    → Fresh r (tile_bytes m (flag_of residuals) coded ++ rest)
    → decode_lossless shared w h nb old r
      ≡ done (from_planes (rebuild_planes residuals w h m nb old))
unfolding decode_lossless on_symbols
read_lossless m residuals coded rest shared w h nb old r a size dec f =
    let tail : flag_of residuals * 64 < 128 = omega (arith, flag_of-lt residuals) in
    let second : ℕ = mode_code m.cg % 2 * 128 + flag_of residuals * 64 in
    let r' : BitstreamReader = within_byte r (mode_byte m) 0 in
    let modes = read_modes_lem m (flag_of residuals * 64) (coded ++ rest) r a tail f in
    let u =
      within-Unread r' second 6 (coded ++ rest)
        (within-Unread r (mode_byte m) 0 (second ∷ (coded ++ rest)) f.unread) in
    let flag : second / 64 % 2 ≡ flag_of residuals = omega (arith, flag_of-lt residuals) in
    let (count, bytes) = symbols_of-count residuals (w * h) size.size in
    rw
      (
        modes,
        read_flag_next r' second,
        flag,
        flag_of-single residuals,
        sym count,
        dec (align_to_byte (within_byte r' second 6)) (align-Unread _ (coded ++ rest) u),
        u.clean,
        residuals_of-symbols_of residuals size.words,
      )
      refl

-- A tile is coded into bytes of which the decoder makes `result`.
abbrev pub Decodes :
    Option BitstreamWriter → (BitstreamReader → Attempt (List Pixel)) → List Pixel → Type 0
Decodes encoded dec result =
    (bs : BitstreamWriter) × (encoded ≡ some bs) × (dec (reader_of bs.buf) ≡ done result)

pub reader_of-Fresh : (bytes : List ℕ) → Fresh (reader_of bytes) (bytes ++ [])
reader_of-Fresh bytes = record {
  unread = subst (Unread (reader_of bytes)) (sym (append-nil bytes)) (reader_of-Unread bytes);
  whole = refl;
}

pub residuals-IsTilePlane :
    (ps : List Pixel) (w h : ℕ) (nb : Channels Neighbours)
    → IsTile w h ps
    → IsTilePlane (w * h * 3) (tile_residuals ps w h nb)
residuals-IsTilePlane ps w h nb tile =
    let sized = subst (λ (n : ℕ). ArePlanes n (to_planes ps)) tile.size (to_planes-ArePlanes ps) in
    predict_planes-IsTilePlane (to_planes ps) w h (tile_modes ps w h nb) nb sized
      (select_modes-AreModes (to_planes ps) w h nb)

pub symbols_Carries :
    (residuals : List ℕ) (n : ℕ)
    → IsTilePlane (n * 3) residuals
    → n < 2 ^ 21
    → let symbols : List ℕ = symbols_of residuals in
      Carries (encode_residuals none symbols) (decode_residuals none (length symbols)) symbols
symbols_Carries residuals n size h =
    let (count, bytes) = symbols_of-count residuals n size.size in
    encode_residuals-Carries (symbols_of residuals) bytes
      (omega (arith, count, symbol_count-le (single_byte residuals) n))

-- With any coding of the symbols that carries those of this tile.
lossless_with :
    (ps : List Pixel) (w h : ℕ) (nb : Channels Neighbours) (old : List ℕ)
    (shared : Option (List RansSymbol)) (slots : Option (List RansDecodeEntry))
    → IsTile w h ps
    → (let symbols : List ℕ = symbols_of (tile_residuals ps w h nb) in
        Carries (encode_residuals shared symbols) (decode_residuals slots (length symbols)) symbols)
    → Decodes (encode_lossless shared ps w h nb (at_byte [])) (decode_lossless slots w h nb old) ps
unfolding encode_lossless
lossless_with ps w h nb old shared slots tile (coded, enc, dec) =
    let m : Channels PredMode = tile_modes ps w h nb in
    let residuals : List ℕ = tile_residuals ps w h nb in
    let modes = select_modes-AreModes (to_planes ps) w h nb in
    let sized = subst (λ (n : ℕ). ArePlanes n (to_planes ps)) tile.size (to_planes-ArePlanes ps) in
    let bytes : List ℕ = tile_bytes m (flag_of residuals) coded in
    (
      at_byte bytes,
      write_lossless m residuals [] coded shared modes enc,
      read_lossless m residuals coded [] slots w h nb old (reader_of bytes) modes
            (residuals-IsTilePlane ps w h nb tile) (λ x u. dec x [] u) (reader_of-Fresh bytes)
          ∙ ap (λ (p : Channels (List ℕ)). done (from_planes p))
              (rebuild_planes-predict_planes (to_planes ps) w h m nb old sized modes)
          ∙ ap (λ (qs : List Pixel). done qs) (from_planes-to_planes ps tile.pixels),
    )

-- For a tile of byte components with fewer than 2^21 pixels, whatever its borders and whatever the
-- decoder's prediction buffer holds, encodeLossless with a table of its own succeeds, and
-- decodeLossless gives exactly the tile's pixels out of its bytes.
pub decode_lossless-encode :
    (ps : List Pixel) (w h : ℕ) (nb : Channels Neighbours) (old : List ℕ)
    → IsTile w h ps
    → Decodes (encode_lossless none ps w h nb (at_byte [])) (decode_lossless none w h nb old) ps
decode_lossless-encode ps w h nb old tile =
    let size = residuals-IsTilePlane ps w h nb tile in
    lossless_with ps w h nb old none none tile (
      symbols_Carries (tile_residuals ps w h nb) (w * h) size
        (omega (arith, tile.small, mul_comm w h)))
