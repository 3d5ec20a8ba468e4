-- ===== src/Rects/Cover.antt =====
-- Merging terminates, keeps every dirty pixel and respects the limit.
use omnidesk.Prelude.{
  ℕ, zero, suc, ◌+◌, ◌≤◌, ◌<◌, ◌≡◌, refl, ap, ◌∙◌, ◌⊎◌, inl, inr, List, [], ◌∷◌, some, true, false,
  Option-cases, arith, length, set, length-set, get_elem?, get_elem?_of_lt,
}
use omnidesk.Prelude.Int.{ℤ, pos, ◌+ℤ◌, ◌-ℤ◌, ◌≤ℤ◌, ltb_ℤ, +ℤ_parts, int_laws}
use omnidesk.Rects.{
  Rect, min, max, right, bottom, empty, united, erase, merge_pair, find_touching, find_pair,
}

-- The pixel (u, v) lies in the rectangle.
abbrev pub Inside : ℤ × ℤ → Rect → Type 0
Inside (u, v) r = (r.x ≤ℤ u) × (ltb_ℤ u (right r) ≡ true) × (r.y ≤ℤ v) × (ltb_ℤ v (bottom r) ≡ true)

abbrev pub Covered : ℤ × ℤ → List Rect → Type 0
Covered p [] = ⊥
Covered p (r ∷ rs) = Inside p r ⊎ Covered p rs

span : (a b : ℤ) → a +ℤ (b -ℤ a) ≡ b
span a b = omega int_laws

min_le : (u a b : ℤ) → (a ≤ℤ u → min a b ≤ℤ u) × (b ≤ℤ u → min a b ≤ℤ u)
min_le u a b = ground arith

lt_max :
    (u a b : ℤ)
    → (ltb_ℤ u a ≡ true → ltb_ℤ u (max a b) ≡ true) × (ltb_ℤ u b ≡ true → ltb_ℤ u (max a b) ≡ true)
lt_max u a b = ground arith

edges-united :
    (a b : Rect)
    → (right (united a b) ≡ max (right a) (right b))
      × (bottom (united a b) ≡ max (bottom a) (bottom b))
unfolding right bottom united
edges-united a b =
    (span (min a.x b.x) (max (right a) (right b)), span (min a.y b.y) (max (bottom a) (bottom b)))

pub Inside-united :
    (p : ℤ × ℤ) (a b : Rect)
    → (Inside p a → Inside p (united a b)) × (Inside p b → Inside p (united a b))
unfolding united
Inside-united (u, v) a b =
    let (r, d) = edges-united a b in
    (
      (λ (l, h, l', h').
          rw (r, d)
            (
              (min_le u a.x b.x).0 l,
              (lt_max u (right a) (right b)).0 h,
              (min_le v a.y b.y).0 l',
              (lt_max v (bottom a) (bottom b)).0 h',
            )),
      (λ (l, h, l', h').
          rw (r, d)
            (
              (min_le u a.x b.x).1 l,
              (lt_max u (right a) (right b)).1 h,
              (min_le v a.y b.y).1 l',
              (lt_max v (bottom a) (bottom b)).1 h',
            )),
    )

positive : (lo u len : ℤ) → lo ≤ℤ u → ltb_ℤ u (lo +ℤ len) ≡ true → ltb_ℤ (pos 0) len ≡ true
positive lo u len h k = ground (arith, +ℤ_parts lo len)

pub Inside-empty : (p : ℤ × ℤ) (r : Rect) → Inside p r → empty r ≡ false
unfolding empty right bottom
Inside-empty (u, v) r h = rw (positive r.x u r.width h.0 h.1, positive r.y v r.height h.2 h.3) refl

pub Covered-erase :
    (p : ℤ × ℤ) (rs : List Rect) (j : ℕ) (b : Rect)
    → get_elem? rs j ≡ some b
    → Covered p rs
    → Inside p b ⊎ Covered p (erase rs j)
unfolding erase
Covered-erase p [] j b e c = inr c
Covered-erase p (r ∷ rs) zero b e (inl h) = let same : r ≡ b = cc in inl (rw (← same) h)
Covered-erase p (r ∷ rs) zero b e (inr c) = inr c
Covered-erase p (r ∷ rs) (suc j) b e (inl h) = inr (inl h)
Covered-erase p (r ∷ rs) (suc j) b e (inr c) = elim (Covered-erase p rs j b e c) [
  | inl h ↦ inl h
  | inr d ↦ inr (inr d)
]

Covered-merge :
    (p : ℤ × ℤ) (rs : List Rect) (i j : ℕ) (a b : Rect)
    → i < j
    → get_elem? rs i ≡ some a
    → get_elem? rs j ≡ some b
    → Covered p rs
    → Covered p (erase (set rs i (united a b)) j)
unfolding erase
Covered-merge p [] i j a b l e f c = c
Covered-merge p (r ∷ rs) i zero a b l e f c = absurd (omega arith)
Covered-merge p (r ∷ rs) zero (suc j) a b l e f (inl h) =
    let same : r ≡ a = cc in inl ((Inside-united p a b).0 (rw (← same) h))
Covered-merge p (r ∷ rs) zero (suc j) a b l e f (inr c) = elim (Covered-erase p rs j b f c) [
  | inl h ↦ inl ((Inside-united p a b).1 h)
  | inr d ↦ inr d
]
Covered-merge p (r ∷ rs) (suc i) (suc j) a b l e f (inl h) = inl h
Covered-merge p (r ∷ rs) (suc i) (suc j) a b l e f (inr c) =
    inr (Covered-merge p rs i j a b (omega arith) e f c)

length-erase : (rs : List Rect) (j : ℕ) → j < length rs → suc (length (erase rs j)) ≡ length rs
unfolding erase
length-erase [] j h = absurd (omega arith)
length-erase (r ∷ rs) zero h = refl
length-erase (r ∷ rs) (suc j) h = ap suc (length-erase rs j (omega arith))

-- Merging a pair makes the list one shorter and keeps every pixel.
pub merge_pair_lem :
    (rs : List Rect) (i j : ℕ)
    → i < j
    → j < length rs
    → (suc (length (merge_pair rs i j)) ≡ length rs)
      × ((p : ℤ × ℤ) → Covered p rs → Covered p (merge_pair rs i j))
unfolding merge_pair
merge_pair_lem rs i j l h =
    let (a, e) = get_elem?_of_lt rs i (omega (arith, l, h)) in
    let (b, f) = get_elem?_of_lt rs j h in
    rw (merge_pair, e, f)
      (
        length-erase (set rs i (united a b)) j (omega (arith, h, length-set rs i (united a b)))
            ∙ length-set rs i (united a b),
        λ p c. Covered-merge p rs i j a b l e f c,
      )

find_touching_lem :
    (a : Rect) (rs : List Rect) (j k : ℕ)
    → find_touching a rs j ≡ some k
    → (j ≤ k) × (k < j + length rs)
unfolding find_touching
find_touching_lem a [] j k e = cc
find_touching_lem a (b ∷ rs) j k e = ground (arith, find_touching_lem a rs (j + 1) k)

pub find_pair_lem :
    (rs : List Rect) (n i j : ℕ) → find_pair rs n ≡ some (i, j) → (i < j) × (j < n + length rs)
unfolding find_pair
find_pair_lem [] n i j e = cc
find_pair_lem (a ∷ rs) n i j e = elim (Option-cases (find_touching a rs (n + 1))) [
  | inl missing ↦ ground (arith, missing, find_pair_lem rs (n + 1) i j)
  | inr (k, found) ↦ ground (arith, found, find_touching_lem a rs (n + 1) k found)
]
