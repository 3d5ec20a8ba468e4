-- ===== src/Rans/Adjust.antt =====
-- The adjustment of the scaled frequencies to exactly RANS_SCALE, with its two loops.
use omnidesk.Prelude.{
  ℕ, zero, suc, ◌+◌, ◌-◌, ◌^◌, ◌≤◌, ◌<◌, ◌≡◌, refl, sym, ◌⊎◌, inl, inr, List, [], ◌∷◌, arith,
  length, All, get_or, ltb, Bool-cases, tests, true, false,
}
use mathlib.Core.Path.{subst}
use omnidesk.Rans.Freq.{rans_scale, find_max, trim_pass, trim, grow, rebalance, adjust}
use omnidesk.Rans.Support.{
  sum, SameSupport, SameSupport-refl, SameSupport-trans, SameSupport-set, SameSupport-length,
  sum-set, sum_scaled-sum,
}

-- One pass takes as much off the list as off the sum, stops at RANS_SCALE, removes no symbol, and
-- lowers the sum unless no entry is above 1.
record Trimmed (total : ℕ) (fs : List ℕ) (r : ℕ × List ℕ) : Type 0 where
  balance : r.0 + sum fs ≡ total + sum r.1
  enough : rans_scale ≤ r.0
  falls : (r.0 < total) ⊎ (sum fs ≤ length fs) ⊎ (total ≡ rans_scale)
  at_most : r.0 ≤ total
  support : SameSupport fs r.1

trim_pass-Trimmed :
    (total : ℕ) (fs : List ℕ) → rans_scale ≤ total → Trimmed total fs (trim_pass total fs)
unfolding trim_pass sum
trim_pass-Trimmed total [] h = record {
  balance = omega arith;
  enough = h;
  falls = omega arith;
  at_most = omega arith;
  support = tt;
}
trim_pass-Trimmed total (f ∷ fs) h =
    ground (arith, trim_pass-Trimmed total fs, trim_pass-Trimmed (total - 1) fs)

-- The first `while` ends at RANS_SCALE exactly, so that the second makes no round.
trim_lem :
    (fuel total : ℕ) (fs : List ℕ)
    → total ≡ sum fs
    → length fs ≤ 256
    → rans_scale ≤ total
    → total ≤ rans_scale + fuel
    → ((trim fuel (total, fs)).0 ≡ rans_scale)
      × (sum (trim fuel (total, fs)).1 ≡ rans_scale)
      × SameSupport fs (trim fuel (total, fs)).1
unfolding trim
trim_lem zero total fs e n lo hi = (omega arith, omega arith, SameSupport-refl fs)
trim_lem (suc fuel) total fs e n lo hi =
    let p = trim_pass-Trimmed total fs lo in
    let r = trim_pass total fs in
    let same = SameSupport-length fs r.1 p.support in
    ground (
      arith,
      SameSupport-refl fs,
      p.balance,
      p.enough,
      p.falls,
      p.at_most,
      same,
      trim_lem fuel r.0 r.1,
      SameSupport-trans fs r.1 (trim fuel r).1 p.support,
    )

grow_done : (fuel : ℕ) (s : ℕ × List ℕ) → s.0 ≡ rans_scale → (grow fuel s).1 ≡ s.1
unfolding grow
grow_done zero s e = refl
grow_done (suc fuel) (total, fs) e = ground arith

rebalance_lem :
    (total : ℕ) (fs : List ℕ)
    → total ≡ sum fs
    → length fs ≤ 256
    → rans_scale ≤ total
    → (sum (rebalance total fs) ≡ rans_scale) × SameSupport fs (rebalance total fs)
unfolding rebalance
rebalance_lem total fs e n lo =
    let t = trim_lem total total fs e n lo (omega arith) in
    rw (grow_done rans_scale (trim total (total, fs)) t.0) (t.1, t.2)

find_max-up :
    (m best i f : ℕ) (fs : List ℕ)
    → ltb best f ≡ true
    → find_max m best i (f ∷ fs) ≡ find_max i f (i + 1) fs
unfolding find_max
find_max-up m best i f fs e = rw e

find_max-stay :
    (m best i f : ℕ) (fs : List ℕ)
    → ltb best f ≡ false
    → find_max m best i (f ∷ fs) ≡ find_max m best (i + 1) fs
unfolding find_max
find_max-stay m best i f fs e = rw e

find_max-nil : (m best i : ℕ) → find_max m best i [] ≡ m
unfolding find_max
find_max-nil m best i = refl

abbrev IsTop : List ℕ → ℕ → ℕ → List ℕ → ℕ → Type 0
IsTop gs n best fs m = (m < n) × (best ≤ get_or gs m 0) × All (λ f. f ≤ get_or gs m 0) fs

-- `find_max` returns an index into the list, at which the entry is the greatest.
find_max_lem :
    (m best i n : ℕ) (fs gs : List ℕ)
    → n ≡ i + length fs
    → m < n
    → (get_or gs m 0 ≡ best)
    → ((k : ℕ) → get_or gs (i + k) 0 ≡ get_or fs k 0)
    → IsTop gs n best fs (find_max m best i fs)
find_max_lem m best i n [] gs e h b at = rw find_max-nil (h, omega arith, tt)
find_max_lem m best i n (f ∷ fs) gs e h b at =
    let zeroth : get_or gs i 0 ≡ f = let z : i + 0 ≡ i = omega arith in rw z at (at 0) in
    let later : (k : ℕ) → get_or gs (i + 1 + k) 0 ≡ get_or fs k 0 =
      λ k. let z : i + suc k ≡ i + 1 + k = omega arith in rw z at (at (suc k)) in
    elim (Bool-cases (ltb best f)) [
      | inl up ↦
          let ih = find_max_lem i f (i + 1) n fs gs (omega arith) (omega arith) zeroth later in
          subst (IsTop gs n best (f ∷ fs)) (sym (find_max-up m best i f fs up))
            (ih.0, omega (tests, ih.1, up), (ih.1, ih.2))
      | inr stay ↦
          let ih = find_max_lem m best (i + 1) n fs gs (omega arith) h b later in
          subst (IsTop gs n best (f ∷ fs)) (sym (find_max-stay m best i f fs stay))
            (ih.0, ih.1, (ground (arith, ih.1, stay), ih.2))
    ]

max_pos : (k : ℕ) (fs : List ℕ) → All (λ f. f ≤ k) fs → 0 < sum fs → 0 < k
unfolding sum
max_pos k [] a h = absurd (omega arith)
max_pos k (f ∷ fs) a h = ground (arith, a.0, max_pos k fs a.1)

-- Whatever the rounding did, the adjusted frequencies sum to RANS_SCALE, and the symbols that
-- occur are the same.
pub adjust_lem :
    (fs : List ℕ)
    → 0 < sum fs
    → sum fs < 2 ^ 32
    → length fs ≤ 256
    → (sum (adjust fs) ≡ rans_scale) × SameSupport fs (adjust fs)
unfolding adjust
adjust_lem [] h w n = absurd (unfold sum in omega arith)
adjust_lem (f ∷ fs) h w n =
    let m : ℕ = find_max 0 f 0 (f ∷ fs) in
    let top =
      find_max_lem 0 f 0 (suc (length fs)) (f ∷ fs) (f ∷ fs) (omega arith) (omega arith) refl
        (λ k. let z : 0 + k ≡ k = omega arith in rw z refl) in
    let best : ℕ = get_or (f ∷ fs) m 0 in
    let pos : 0 < best = max_pos best (f ∷ fs) top.2 h in
    let v : ℕ = best + rans_scale - sum (f ∷ fs) in
    rw (sum_scaled-sum (f ∷ fs) w) (
      ground (
        arith,
        SameSupport-refl (f ∷ fs),
        sum-set (f ∷ fs) m v top.0,
        pos,
        SameSupport-set (f ∷ fs) m v,
        rebalance_lem (sum (f ∷ fs)) (f ∷ fs) refl n,
      ))
