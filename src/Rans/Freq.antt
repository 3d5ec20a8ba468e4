-- ===== src/Rans/Freq.antt =====
-- Frequency tables: RANSSymbol, buildFreqTableCore and the two functions around it, in
-- src/codec/omni/rans_codec.cpp.
use omnidesk.Prelude.{
  ℕ, zero, suc, ◌+◌, ◌-◌, ◌*◌, ◌/◌, ◌%◌, ◌^◌, List, [], ◌∷◌, Bool, false, ltb, ◌==◌, if◌then◌else◌,
  get_or, set, length, map,
}

abbrev pub rans_scale : ℕ
rans_scale = 2 ^ 12

abbrev pub rans_l : ℕ
rans_l = 2 ^ 23

pub record RansSymbol : Type 0 where
  pub freq : ℕ
  pub cum_freq : ℕ
  pub rcp_freq : ℕ
  pub rcp_shift : ℕ

-- `total` is a uint64_t.
unfoldable pub sum_counts : List ℕ → ℕ
sum_counts [] = 0
sum_counts (c ∷ cs) = (c + sum_counts cs) % 2 ^ 64

-- The reciprocal 2^32 / freq, clamped to a uint32_t; 0 for an absent symbol.
unfoldable pub reciprocal : ℕ → ℕ
reciprocal f =
    let rcp : ℕ = 2 ^ 32 / f in
    if ltb 0 f then (if ltb (2 ^ 32 - 1) rcp then 2 ^ 32 - 1 else rcp) else 0

-- One round of the loops that fill the table; `freq` and `cumFreq` are uint16_t.
unfoldable pub symbol_at : ℕ → ℕ → RansSymbol
symbol_at cum f = record {
  freq = f % 2 ^ 16;
  cum_freq = cum;
  rcp_freq = reciprocal f;
  rcp_shift = 32;
}

-- Cumulative frequencies and reciprocals.
unfoldable pub fill_symbols : ℕ → List ℕ → List RansSymbol
fill_symbols cum [] = []
fill_symbols cum (f ∷ fs) = symbol_at cum f ∷ fill_symbols ((cum + f % 2 ^ 16) % 2 ^ 16) fs

-- The uniform fallback: `remainder` symbols get one more than the others.
unfoldable pub uniform_freqs : ℕ → ℕ → ℕ → ℕ → List ℕ
uniform_freqs freq_each remainder i zero = []
uniform_freqs freq_each remainder i (suc n) =
    ((freq_each + (if ltb i remainder then 1 else 0)) % 2 ^ 16)
    ∷ uniform_freqs freq_each remainder (i + 1) n

unfoldable pub scale_count : ℕ → ℕ → ℕ
scale_count total c =
    let share : ℕ = (c * rans_scale + total / 2) % 2 ^ 64 / total % 2 ^ 32 in
    if c == 0 then 0 else (if ltb share 1 then 1 else share)

-- `scaledSum`, a uint32_t.
unfoldable pub sum_scaled : List ℕ → ℕ
sum_scaled [] = 0
sum_scaled (f ∷ fs) = (f + sum_scaled fs) % 2 ^ 32

-- `maxIdx`: the first index of the greatest entry. `best` is the entry at `max_idx`, `i` the index
-- of the list's head.
unfoldable pub find_max : ℕ → ℕ → ℕ → List ℕ → ℕ
find_max max_idx best i [] = max_idx
find_max max_idx best i (f ∷ fs) =
    find_max (if ltb best f then i else max_idx) (if ltb best f then f else best) (i + 1) fs

-- One pass of the inner `for` that takes one off every entry above 1 while the sum is too large.
unfoldable pub trim_pass : ℕ → List ℕ → ℕ × List ℕ
trim_pass sum [] = (sum, [])
trim_pass sum (f ∷ fs) =
    let hit : Bool = if ltb rans_scale sum then ltb 1 f else false in
    let (sum', fs') = trim_pass (if hit then sum - 1 else sum) fs in
    (sum', (if hit then f - 1 else f) ∷ fs')

-- One pass of the inner `for` that adds one to every positive entry while the sum is too small.
unfoldable pub grow_pass : ℕ → List ℕ → ℕ × List ℕ
grow_pass sum [] = (sum, [])
grow_pass sum (f ∷ fs) =
    let hit : Bool = if ltb sum rans_scale then ltb 0 f else false in
    let (sum', fs') = grow_pass (if hit then sum + 1 else sum) fs in
    (sum', (if hit then f + 1 else f) ∷ fs')

unfoldable pub trim : ℕ → ℕ × List ℕ → ℕ × List ℕ
trim zero s = s
trim (suc fuel) (sum, fs) =
    let next = trim fuel (trim_pass sum fs) in if ltb rans_scale sum then next else (sum, fs)

unfoldable pub grow : ℕ → ℕ × List ℕ → ℕ × List ℕ
grow zero s = s
grow (suc fuel) (sum, fs) =
    let next = grow fuel (grow_pass sum fs) in if ltb sum rans_scale then next else (sum, fs)

-- Each round of either `while` moves the sum by one at least, so its distance from 4096 is enough
-- fuel for both.
unfoldable pub rebalance : ℕ → List ℕ → List ℕ
rebalance sum fs = (grow rans_scale (trim sum (sum, fs))).1

-- `newVal` is scaled[maxIdx] + delta; the test is made without the signed numbers.
unfoldable pub adjust : List ℕ → List ℕ
adjust fs =
    let sum : ℕ = sum_scaled fs in
    let max_idx : ℕ = find_max 0 (get_or fs 0 0) 0 fs in
    let best : ℕ = get_or fs max_idx 0 in
    let trimmed = rebalance sum fs in
    if sum == rans_scale
    then fs
    else (if ltb sum (best + rans_scale) then set fs max_idx (best + rans_scale - sum) else trimmed)

-- `counts` has `alphabetSize` entries, and the source's `scaled` array holds 256 at most.
unfoldable pub build_frequency_table : List ℕ → List RansSymbol
build_frequency_table counts =
    let total : ℕ = sum_counts counts in
    let n : ℕ = length counts in
    let freq_each : ℕ = rans_scale / n % 2 ^ 16 in
    let remainder : ℕ = (rans_scale - freq_each * n) % 2 ^ 16 in
    if total == 0
    then fill_symbols 0 (uniform_freqs freq_each remainder 0 n)
    else fill_symbols 0 (adjust (map (scale_count total) counts))
