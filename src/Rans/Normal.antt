-- ===== src/Rans/Normal.antt =====
-- buildFrequencyTable: the frequencies fill RANS_SCALE, and the table can be decoded.
use native.Mathlib.Nat.{div-lt_iff_lt-mul, div-add-mod}
use omnidesk.Prelude.{
  ℕ, ◌+◌, ◌-◌, ◌*◌, ◌/◌, ◌%◌, ◌^◌, ◌≤◌, ◌<◌, ◌≡◌, ◌↔◌, refl, List, [], ◌∷◌, some, arith, length,
  All, get_elem?, map, length-map, ℕ_discrete,
}
use omnidesk.Bytes.{IsU32}
use omnidesk.Rans.Freq.{
  RansSymbol, rans_scale, fill_symbols, uniform_freqs, scale_count, adjust, build_frequency_table,
}
use omnidesk.Rans.Slots.{Tiles}
use omnidesk.Rans.Support.{
  sum, SameSupport, SameSupport-trans, SameSupport-at, sum-le, le-sum, sum_counts-sum,
  fill_symbols-Tiles, fill_symbols-freq, sum-uniform_freqs,
}
use omnidesk.Rans.Adjust.{adjust_lem}

scale_count_lem :
    (total c : ℕ)
    → 0 < total
    → c ≤ total
    → total ≤ 2 ^ 41
    → (scale_count total c ≤ 2 ^ 12) × ((0 < c) ↔ (0 < scale_count total c))
scale_count_lem total c h le small =
    let word : (c * 2 ^ 12 + total / 2) % 2 ^ 64 ≡ c * 2 ^ 12 + total / 2 = omega arith in
    let share : (c * 2 ^ 12 + total / 2) / total < 2 ^ 12 + 1 =
      (div-lt_iff_lt-mul h).1 (omega arith) in
    let word' : (c * 2 ^ 12 + total / 2) / total % 2 ^ 32 ≡ (c * 2 ^ 12 + total / 2) / total =
      omega arith in
    unfold scale_count in rw (word, word') (ground arith)

scaled_lem :
    (total : ℕ) (cs : List ℕ)
    → 0 < total
    → total ≤ 2 ^ 41
    → All (λ c. c ≤ total) cs
    → All (λ f. f ≤ 2 ^ 12) (map (scale_count total) cs)
      × SameSupport cs (map (scale_count total) cs)
scaled_lem total [] h small a = (tt, tt)
scaled_lem total (c ∷ cs) h small a =
    let x = scale_count_lem total c h a.0 small in
    let ih = scaled_lem total cs h small a.1 in ((x.0, ih.0), (x.1, ih.1))

-- The counts that the tables are made for: at most 256 of them, each a uint32_t.
pub record IsCounts (cs : List ℕ) : Type 0 where
  pub some_symbol : 0 < length cs
  pub few : length cs ≤ 256
  pub words : All IsU32 cs

words-le : (cs : List ℕ) → All IsU32 cs → All (λ c. c ≤ 2 ^ 32) cs
words-le [] a = tt
words-le (c ∷ cs) a = (omega (arith, a.0), words-le cs a.1)

Support-pos : (xs ys : List ℕ) → SameSupport xs ys → 0 < sum xs → 0 < sum ys
unfolding sum
Support-pos [] [] s h = h
Support-pos [] (y ∷ ys) s h = absurd s
Support-pos (x ∷ xs) [] s h = absurd s
Support-pos (x ∷ xs) (y ∷ ys) s h = ground (arith, s.0.0, Support-pos xs ys s.1)

pub normal_freqs :
    (cs : List ℕ)
    → IsCounts cs
    → 0 < sum cs
    → let fs : List ℕ = adjust (map (scale_count (sum cs)) cs) in
      (sum fs ≡ rans_scale) × SameSupport cs fs
normal_freqs cs h pos =
    let bound = sum-le (2 ^ 32) cs (words-le cs h.words) in
    let scaled : List ℕ = map (scale_count (sum cs)) cs in
    let x =
      scaled_lem (sum cs) cs pos (omega (arith, h.few, bound)) (le-sum (sum cs) cs (omega arith)) in
    let n = length-map cs (scale_count (sum cs)) in
    let top = sum-le (2 ^ 12) scaled x.0 in
    let a =
      adjust_lem scaled (Support-pos cs scaled x.1 pos) (omega (arith, n, h.few, top))
        (omega (arith, n, h.few)) in
    (a.0, SameSupport-trans cs scaled (adjust scaled) x.1 a.1)

uniform_total :
    (n : ℕ)
    → 0 < n
    → n ≤ 256
    → sum (
        uniform_freqs
          (rans_scale / n % 2 ^ 16)
          ((rans_scale - rans_scale / n % 2 ^ 16 * n) % 2 ^ 16)
          0
          n)
      ≡ rans_scale
uniform_total n pos few =
    let each : rans_scale / n ≤ rans_scale = omega arith in
    let word : rans_scale / n % 2 ^ 16 ≡ rans_scale / n = omega arith in
    let whole = div-add-mod rans_scale n in
    let rest : rans_scale % n < n = omega arith in
    let word' : (rans_scale - rans_scale / n * n) % 2 ^ 16 ≡ rans_scale % n =
      omega (arith, whole) in
    rw (word, word')
      (omega (
        arith,
        whole,
        (sum-uniform_freqs (rans_scale / n) (rans_scale % n) 0 n (omega arith)).0 (omega arith),
      ))

-- The branch that is taken, once the sum is known.
pub build_counted :
    (cs : List ℕ)
    → IsCounts cs
    → 0 < sum cs
    → build_frequency_table cs ≡ fill_symbols 0 (adjust (map (scale_count (sum cs)) cs))
unfolding build_frequency_table
build_counted cs h pos =
    let total = sum_counts-sum cs h.few (words-le cs h.words) in rw total (ground arith)

build_uniform :
    (cs : List ℕ)
    → IsCounts cs
    → sum cs ≡ 0
    → build_frequency_table cs
      ≡ fill_symbols 0 (
          uniform_freqs
            (rans_scale / length cs % 2 ^ 16)
            ((rans_scale - rans_scale / length cs % 2 ^ 16 * length cs) % 2 ^ 16)
            0
            (length cs))
unfolding build_frequency_table
build_uniform cs h zeros =
    let total = sum_counts-sum cs h.few (words-le cs h.words) in rw (total, zeros) refl

-- For 1 to 256 counts of 32 bits, the frequencies of the table sum to RANS_SCALE: each symbol's slots begin where those of the
-- symbol before it end, the first at 0 and the last ending at 4096.
pub build_frequency_table-Tiles : (cs : List ℕ) → IsCounts cs → Tiles 0 (build_frequency_table cs)
build_frequency_table-Tiles cs h = elim (ℕ_discrete (sum cs) 0) [
  | yes zeros ↦
      rw (build_uniform cs h zeros)
        (fill_symbols-Tiles 0 _ (omega (arith, uniform_total (length cs) h.some_symbol h.few)))
  | no some_count ↦
      rw (build_counted cs h (omega arith))
        (fill_symbols-Tiles 0 _ (omega (arith, (normal_freqs cs h (omega arith)).0)))
]

-- If something was counted, then exactly the symbols that were counted have a frequency.
pub build_frequency_table-support :
    (cs : List ℕ) (i c : ℕ) (s : RansSymbol)
    → IsCounts cs
    → 0 < sum cs
    → get_elem? cs i ≡ some c
    → get_elem? (build_frequency_table cs) i ≡ some s
    → (0 < c) ↔ (0 < s.freq)
build_frequency_table-support cs i c s h pos e e' =
    let fs = normal_freqs cs h pos in
    SameSupport-at cs _ i c s.freq fs.1 e
      (fill_symbols-freq 0 _ i s (omega (arith, fs.0)) (rw (build_counted cs h pos) at e'))
