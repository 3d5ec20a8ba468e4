-- ===== src/Rects/Merge.antt =====
-- RectMerger::merge ends, covers what it was given, and keeps to its limit.
use omnidesk.Prelude.{
  ℕ, zero, suc, ◌+◌, ◌≤◌, ◌<◌, ◌≡◌, refl, inl, inr, List, [], ◌∷◌, none, some, Bool, true, false,
  Bool-cases, Option-cases, arith, ltb, if◌then◌else◌, length,
}
use omnidesk.Prelude.Int.{ℤ, pos, negsuc}
use omnidesk.Rects.{
  Rect, empty, merge_pair, not_empty, find_pair, merge_touching, merge_overlapping, Best, best_with,
  best_pair, find_best_merge_pair, reduce, merge, better, waste, chosen, limit_of,
}
use omnidesk.Rects.Cover.{Covered, Inside-empty, find_pair_lem, merge_pair_lem}

-- Every pixel of the one list is covered by the other.
abbrev pub Covers : List Rect → List Rect → Type 0
Covers rs out = (p : ℤ × ℤ) → Covered p rs → Covered p out

not_empty-Covers : (rs : List Rect) → Covers rs (not_empty rs)
unfolding not_empty
not_empty-Covers [] p c = c
not_empty-Covers (r ∷ rs) p c = elim (Bool-cases (empty r)) [
  | inl e ↦ elim c [
    | inl h ↦ let absurdly = Inside-empty p r h in cc
    | inr d ↦ rw (not_empty, e) (not_empty-Covers rs p d)
  ]
  | inr e ↦ elim c [
    | inl h ↦ rw (not_empty, e) (inl h)
    | inr d ↦ rw (not_empty, e) (inr (not_empty-Covers rs p d))
  ]
]

-- With enough fuel the merging of touching rectangles ends, with no pair that touches.
merge_touching_lem :
    (fuel : ℕ) (rs : List Rect)
    → length rs < fuel
    → (out : List Rect) × (merge_touching fuel rs ≡ some out)
      × (length out ≤ length rs)
      × (find_pair out 0 ≡ none)
      × Covers rs out
unfolding merge_touching
merge_touching_lem zero rs h = absurd (omega arith)
merge_touching_lem (suc fuel) rs h = elim (Option-cases (find_pair rs 0)) [
  | inl stable ↦ (rs, rw (merge_touching, stable) refl, omega arith, stable, λ p c. c)
  | inr (q, found) ↦
      let (l, n) = find_pair_lem rs 0 q.0 q.1 found in
      let n' : q.1 < length rs = omega (arith, n) in
      let (shorter, kept) = merge_pair_lem rs q.0 q.1 l n' in
      let (out, e, small, stable, covers) =
        merge_touching_lem fuel (merge_pair rs q.0 q.1) (omega (arith, shorter, h)) in
      (
        out,
        rw (merge_touching, found) e,
        omega (arith, small, shorter),
        stable,
        λ p c. covers p (kept p c),
      )
]

-- The best pair so far is a pair of positions below `n`.
abbrev Good : ℕ → Best → Type 0
Good n none = Unit {0}
Good n (some ((i, j), w)) = (i < j) × (j < n)

best_with-Good :
    (n i : ℕ) (a : Rect) (rs : List Rect) (j : ℕ) (best : Best)
    → Good n best
    → i < j
    → j + length rs ≤ n
    → Good n (best_with i a rs j best)
unfolding best_with
best_with-Good n i a [] j best g l h = g
best_with-Good n i a (b ∷ rs) j best g l h =
    best_with-Good n i a rs (j + 1)
      (if better (waste a b) best then some ((i, j), waste a b) else best)
      (choose (better (waste a b) best)) (omega arith) (omega arith)
  where
    choose : (c : Bool) → Good n (if c then some ((i, j), waste a b) else best)
    choose true = (l, omega arith)
    choose false = g

best_pair-Good :
    (n : ℕ) (rs : List Rect) (i : ℕ) (best : Best)
    → Good n best
    → i + length rs ≤ n
    → Good n (best_pair rs i best)
unfolding best_pair
best_pair-Good n [] i best g h = g
best_pair-Good n (a ∷ rs) i best g h =
    best_pair-Good n rs (i + 1) (best_with i a rs (i + 1) best)
      (best_with-Good n i a rs (i + 1) best g (omega arith) (omega arith)) (omega arith)

find_best_lem :
    (rs : List Rect)
    → 2 ≤ length rs
    → ((find_best_merge_pair rs).0 < (find_best_merge_pair rs).1)
      × ((find_best_merge_pair rs).1 < length rs)
unfolding find_best_merge_pair
find_best_lem rs h =
    go (best_pair rs 0 none) (best_pair-Good (length rs) rs 0 none tt (omega arith))
  where
    go :
        (best : Best)
        → Good (length rs) best
        → ((chosen best).0 < (chosen best).1) × ((chosen best).1 < length rs)
    go none g = (omega arith, omega arith)
    go (some b) g = g

-- With enough fuel the reduction ends, at the limit.
reduce_lem :
    (fuel limit : ℕ) (rs : List Rect)
    → 1 ≤ limit
    → length rs < fuel
    → (out : List Rect) × (reduce fuel limit rs ≡ some out) × (length out ≤ limit) × Covers rs out
unfolding reduce
reduce_lem zero limit rs l h = absurd (omega arith)
reduce_lem (suc fuel) limit rs l h = elim (Bool-cases (ltb limit (length rs))) [
  | inr few ↦ (rs, rw (reduce, few) refl, ground (arith, few), λ p c. c)
  | inl many ↦
      let (i, j) = find_best_lem rs (ground (arith, many)) in
      let (shorter, kept) =
        merge_pair_lem rs (find_best_merge_pair rs).0 (find_best_merge_pair rs).1 i j in
      let (out, e, small, covers) =
        reduce_lem fuel limit
          (merge_pair rs (find_best_merge_pair rs).0 (find_best_merge_pair rs).1) l
          (omega (arith, shorter, h)) in
      (out, rw (reduce, many) e, small, λ p c. covers p (kept p c))
]

limit_pos : (n : ℤ) → 1 ≤ limit_of n
limit_pos (pos zero) = omega arith
limit_pos (pos (suc n)) = omega arith
limit_pos (negsuc n) = omega arith

merge_two :
    (r : Rect) (rs : List Rect) (max_rects : ℤ) (working out : List Rect)
    → merge_touching (suc (length (not_empty (r ∷ rs)))) (not_empty (r ∷ rs)) ≡ some working
    → reduce (suc (length working)) (limit_of max_rects) working ≡ some out
    → merge (r ∷ rs) max_rects ≡ some out
unfolding merge merge_overlapping
merge_two r rs max_rects working out e f = rw (merge, merge_overlapping, e) f

-- Merging ends for every list of rectangles and every limit: no more rectangles than the limit, or
-- one for a limit that is not positive, cover every pixel of the rectangles given.
pub merge-Covers :
    (rects : List Rect) (max_rects : ℤ)
    → (out : List Rect) × (merge rects max_rects ≡ some out)
      × (length out ≤ limit_of max_rects)
      × Covers rects out
unfolding merge
merge-Covers [] max_rects = ([], refl, omega arith, λ p c. c)
merge-Covers (r ∷ rs) max_rects =
    let (working, e, _, _, covers) =
      merge_touching_lem (suc (length (not_empty (r ∷ rs)))) (not_empty (r ∷ rs)) (omega arith) in
    let (out, f, small, covers') =
      reduce_lem (suc (length working)) (limit_of max_rects) working (limit_pos max_rects)
        (omega arith) in
    (
      out,
      merge_two r rs max_rects working out e f,
      small,
      λ p c. covers' p (covers p (not_empty-Covers (r ∷ rs) p c)),
    )
