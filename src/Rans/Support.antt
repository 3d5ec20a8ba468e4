-- ===== src/Rans/Support.antt =====
-- Lists of frequencies: their sum, and which symbols occur.
use omnidesk.Prelude.{
  ℕ, zero, suc, ◌+◌, ◌-◌, ◌*◌, ◌%◌, ◌^◌, ◌≤◌, ◌<◌, ◌≡◌, ◌↔◌, refl, ap, List, [], ◌∷◌, some, arith,
  length, All, get_or, set, get_elem?,
}
use omnidesk.Rans.Freq.{
  RansSymbol, rans_scale, sum_counts, symbol_at, fill_symbols, uniform_freqs, sum_scaled,
}
use Prim.Native.Nat.{min}
use omnidesk.Rans.Slots.{Tiles}

unfoldable pub sum : List ℕ → ℕ
sum [] = 0
sum (x ∷ xs) = x + sum xs

-- The same symbols occur in both lists.
abbrev pub SameSupport : List ℕ → List ℕ → Type 0
SameSupport [] [] = Unit {0}
SameSupport [] (y ∷ ys) = ⊥
SameSupport (x ∷ xs) [] = ⊥
SameSupport (x ∷ xs) (y ∷ ys) = ((0 < x) ↔ (0 < y)) × SameSupport xs ys

pub SameSupport-refl : (xs : List ℕ) → SameSupport xs xs
SameSupport-refl [] = tt
SameSupport-refl (x ∷ xs) = ((λ h. h, λ h. h), SameSupport-refl xs)

pub SameSupport-trans :
    (xs ys zs : List ℕ) → SameSupport xs ys → SameSupport ys zs → SameSupport xs zs
SameSupport-trans [] [] [] p q = tt
SameSupport-trans [] [] (z ∷ zs) p q = absurd q
SameSupport-trans [] (y ∷ ys) zs p q = absurd p
SameSupport-trans (x ∷ xs) [] zs p q = absurd p
SameSupport-trans (x ∷ xs) (y ∷ ys) [] p q = absurd q
SameSupport-trans (x ∷ xs) (y ∷ ys) (z ∷ zs) p q =
    ((λ h. q.0.0 (p.0.0 h), λ h. p.0.1 (q.0.1 h)), SameSupport-trans xs ys zs p.1 q.1)

pub SameSupport-length : (xs ys : List ℕ) → SameSupport xs ys → length xs ≡ length ys
SameSupport-length [] [] p = refl
SameSupport-length [] (y ∷ ys) p = absurd p
SameSupport-length (x ∷ xs) [] p = absurd p
SameSupport-length (x ∷ xs) (y ∷ ys) p = omega (arith, SameSupport-length xs ys p.1)

pub SameSupport-at :
    (xs ys : List ℕ) (i a b : ℕ)
    → SameSupport xs ys
    → get_elem? xs i ≡ some a
    → get_elem? ys i ≡ some b
    → (0 < a) ↔ (0 < b)
SameSupport-at [] ys i a b p e e' = cc
SameSupport-at (x ∷ xs) [] i a b p e e' = cc
SameSupport-at (x ∷ xs) (y ∷ ys) zero a b p e e' =
    let ea : x ≡ a = cc in let eb : y ≡ b = cc in rw (← ea, ← eb) p.0
SameSupport-at (x ∷ xs) (y ∷ ys) (suc i) a b p e e' = SameSupport-at xs ys i a b p.1 e e'

pub SameSupport-set :
    (xs : List ℕ) (i v : ℕ) → 0 < v → 0 < get_or xs i 0 → SameSupport xs (set xs i v)
SameSupport-set [] i v h h' = tt
SameSupport-set (x ∷ xs) zero v h h' = ((λ p. h, λ p. h'), SameSupport-refl xs)
SameSupport-set (x ∷ xs) (suc i) v h h' = ((λ p. p, λ p. p), SameSupport-set xs i v h h')

pub sum-set :
    (xs : List ℕ) (i v : ℕ) → i < length xs → sum (set xs i v) + get_or xs i 0 ≡ sum xs + v
unfolding sum
sum-set [] i v h = absurd (omega arith)
sum-set (x ∷ xs) zero v h = omega arith
sum-set (x ∷ xs) (suc i) v h = omega (arith, sum-set xs i v (omega arith))

pub sum-le : (k : ℕ) (xs : List ℕ) → All (λ x. x ≤ k) xs → sum xs ≤ length xs * k
unfolding sum
sum-le k [] h = omega arith
sum-le k (x ∷ xs) h = omega (arith, sum-le k xs h.1, h.0)

pub le-sum : (k : ℕ) (xs : List ℕ) → sum xs ≤ k → All (λ x. x ≤ k) xs
unfolding sum
le-sum k [] h = tt
le-sum k (x ∷ xs) h = (omega arith, le-sum k xs (omega arith))

-- With few enough symbols no sum wraps around.
pub sum_counts-sum :
    (xs : List ℕ) → length xs ≤ 256 → All (λ x. x ≤ 2 ^ 32) xs → sum_counts xs ≡ sum xs
unfolding sum sum_counts
sum_counts-sum [] h a = refl
sum_counts-sum (x ∷ xs) h a =
    omega (arith, sum_counts-sum xs (omega arith) a.1, sum-le (2 ^ 32) xs a.1)

pub sum_scaled-sum : (xs : List ℕ) → sum xs < 2 ^ 32 → sum_scaled xs ≡ sum xs
unfolding sum sum_scaled
sum_scaled-sum [] h = refl
sum_scaled-sum (x ∷ xs) h = omega (arith, sum_scaled-sum xs (omega arith))

-- Frequencies that fill the scale from `c` on give a table that tiles the slots from `c` on.
pub fill_symbols-Tiles :
    (c : ℕ) (fs : List ℕ) → c + sum fs ≡ rans_scale → Tiles c (fill_symbols c fs)
unfolding fill_symbols symbol_at sum
fill_symbols-Tiles c [] h = omega arith
fill_symbols-Tiles c (f ∷ fs) h =
    let word : f % 2 ^ 16 ≡ f = omega arith in
    let next : (c + f) % 2 ^ 16 ≡ c + f = omega arith in
    rw (word, next) (refl, refl, fill_symbols-Tiles (c + f) fs (omega arith))

pub fill_symbols-freq :
    (c : ℕ) (fs : List ℕ) (i : ℕ) (s : RansSymbol)
    → sum fs ≤ rans_scale
    → get_elem? (fill_symbols c fs) i ≡ some s
    → get_elem? fs i ≡ some s.freq
unfolding fill_symbols symbol_at sum
fill_symbols-freq c [] i s h e = cc
fill_symbols-freq c (f ∷ fs) zero s h e =
    let same : symbol_at c f ≡ s = cc in
    ap some (omega (arith, ap (λ (z : RansSymbol). z.freq) same))
fill_symbols-freq c (f ∷ fs) (suc i) s h e =
    fill_symbols-freq ((c + f % 2 ^ 16) % 2 ^ 16) fs i s (omega arith) e

pub length-fill_symbols : (c : ℕ) (fs : List ℕ) → length (fill_symbols c fs) ≡ length fs
unfolding fill_symbols
length-fill_symbols c [] = refl
length-fill_symbols c (f ∷ fs) = omega (arith, length-fill_symbols ((c + f % 2 ^ 16) % 2 ^ 16) fs)

-- The fallback gives `remainder` symbols one more than the others.
pub sum-uniform_freqs :
    (each extra i n : ℕ)
    → each < 2 ^ 15
    → (i ≤ extra → sum (uniform_freqs each extra i n) ≡ each * n + min n (extra - i))
      × (extra ≤ i → sum (uniform_freqs each extra i n) ≡ each * n)
unfolding sum uniform_freqs
sum-uniform_freqs each extra i zero h = omega arith
sum-uniform_freqs each extra i (suc n) h = ground (arith, sum-uniform_freqs each extra (i + 1) n h)
