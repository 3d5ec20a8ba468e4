-- ===== src/Tile/Symbols.antt =====
-- The bytes that stand for residuals: one for each if all fit in an int8_t, else two. The loops of
-- TileEncoder and TileDecoder over residualBuf_, which holds the residuals of the three channels.
use omnidesk.Prelude.{
  ℕ, suc, ◌+◌, ◌*◌, ◌-◌, ◌/◌, ◌%◌, ◌^◌, ◌≤◌, ◌≡◌, refl, ap, List, [], ◌∷◌, Bool, true, false, ltb,
  leb, if◌then◌else◌, ◌&&◌, ◌||◌, arith, All, length, Bool-cases, inl, inr,
}
use omnidesk.Bytes.{IsByte, IsU16}

-- `singleByte`: every value lies in [-128, 127].
unfoldable pub fits_byte : ℕ → Bool
fits_byte u = ltb u 128 || leb (2 ^ 16 - 128) u

unfoldable pub single_byte : List ℕ → Bool
unfolding fits_byte
single_byte [] = true
single_byte (u ∷ us) = fits_byte u && single_byte us

unfoldable pub low_bytes : List ℕ → List ℕ
low_bytes [] = []
low_bytes (u ∷ us) = (u % 256) ∷ low_bytes us

unfoldable pub byte_pairs : List ℕ → List ℕ
byte_pairs [] = []
byte_pairs (u ∷ us) = (u % 256) ∷ (u / 2 ^ 8 % 256) ∷ byte_pairs us

unfoldable pub symbols_of : List ℕ → List ℕ
unfolding single_byte low_bytes byte_pairs
symbols_of residuals = if single_byte residuals then low_bytes residuals else byte_pairs residuals

-- The decoder's `totalSymbols`.
unfoldable pub symbol_count : Bool → ℕ → ℕ
symbol_count single num_pixels = if single then num_pixels * 3 else num_pixels * 3 * 2

-- An int8_t as an int16_t.
unfoldable pub sign_extend : ℕ → ℕ
sign_extend b = if ltb b 128 then b else b + 2 ^ 16 - 2 ^ 8

unfoldable pub from_low_bytes : List ℕ → List ℕ
unfolding sign_extend
from_low_bytes [] = []
from_low_bytes (b ∷ bs) = sign_extend b ∷ from_low_bytes bs

-- `lo | (hi << 8)`, a sum since the low byte is below 256.
unfoldable pub from_byte_pairs : List ℕ → List ℕ
from_byte_pairs [] = []
from_byte_pairs (lo ∷ []) = []
from_byte_pairs (lo ∷ hi ∷ bs) = (lo + hi * 2 ^ 8) ∷ from_byte_pairs bs

unfoldable pub residuals_of : Bool → List ℕ → List ℕ
unfolding from_low_bytes from_byte_pairs
residuals_of single symbols = if single then from_low_bytes symbols else from_byte_pairs symbols

from_low_bytes-low_bytes :
    (us : List ℕ) → All IsU16 us → single_byte us ≡ true → from_low_bytes (low_bytes us) ≡ us
unfolding from_low_bytes low_bytes single_byte
from_low_bytes-low_bytes [] a e = refl
from_low_bytes-low_bytes (u ∷ us) (h, a) e =
    let this : sign_extend (u % 256) ≡ u = unfold sign_extend fits_byte in ground (arith, e) in
    let rest : single_byte us ≡ true = ground (arith, e) in
    rw (this, from_low_bytes-low_bytes us a rest) refl

from_byte_pairs-byte_pairs : (us : List ℕ) → All IsU16 us → from_byte_pairs (byte_pairs us) ≡ us
unfolding from_byte_pairs byte_pairs
from_byte_pairs-byte_pairs [] a = refl
from_byte_pairs-byte_pairs (u ∷ us) (h, a) =
    let this : u % 256 + u / 2 ^ 8 % 256 * 2 ^ 8 ≡ u = omega arith in
    rw (this, from_byte_pairs-byte_pairs us a) refl

-- Sixteen-bit residuals are found again from their symbols.
pub residuals_of-symbols_of :
    (us : List ℕ) → All IsU16 us → residuals_of (single_byte us) (symbols_of us) ≡ us
unfolding residuals_of symbols_of
residuals_of-symbols_of us a = elim (Bool-cases (single_byte us)) [
  | inl e ↦ rw e (from_low_bytes-low_bytes us a e)
  | inr e ↦ rw e (from_byte_pairs-byte_pairs us a)
]

length-low_bytes : (us : List ℕ) → (length (low_bytes us) ≡ length us) × All IsByte (low_bytes us)
unfolding low_bytes
length-low_bytes [] = (refl, tt)
length-low_bytes (u ∷ us) = let (n, a) = length-low_bytes us in (ap suc n, (omega arith, a))

length-byte_pairs :
    (us : List ℕ) → (length (byte_pairs us) ≡ length us * 2) × All IsByte (byte_pairs us)
unfolding byte_pairs
length-byte_pairs [] = (refl, tt)
length-byte_pairs (u ∷ us) =
    let (n, a) = length-byte_pairs us in (omega (arith, n), (omega arith, (omega arith, a)))

-- There are as many symbols as the decoder expects, all of them bytes.
pub symbols_of-count :
    (us : List ℕ) (n : ℕ)
    → length us ≡ n * 3
    → (length (symbols_of us) ≡ symbol_count (single_byte us) n) × All IsByte (symbols_of us)
unfolding symbols_of symbol_count
symbols_of-count us n e = elim (Bool-cases (single_byte us)) [
  | inl s ↦ rw s (let (k, a) = length-low_bytes us in (omega (arith, k, e), a))
  | inr s ↦ rw s (let (k, a) = length-byte_pairs us in (omega (arith, k, e), a))
]

pub symbol_count-le : (single : Bool) (n : ℕ) → symbol_count single n ≤ n * 6
unfolding symbol_count
symbol_count-le true n = omega arith
symbol_count-le false n = omega arith
