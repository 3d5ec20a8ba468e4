-- ===== src/Rects.antt =====
-- Rectangles of pixels and the merging of dirty ones: Rect of src/core/types.h and
-- src/diff/rect_merger.cpp. Coordinates and areas are integers: an int32_t that overflows, which is
-- undefined in C++, is not modelled.
pub mod Cover
pub mod Merge
mod Examples
use omnidesk.Prelude.{
  ℕ, zero, suc, ◌+◌, ◌-◌, List, [], ◌∷◌, ◌++◌, Option, none, some, Bool, true, false, ltb, leb,
  ◌==◌, ◌&&◌, ◌||◌, not, if◌then◌else◌, length, set, get_elem?,
}
use omnidesk.Prelude.Int.{ℤ, pos, negsuc, ◌+ℤ◌, ◌-ℤ◌, ◌*ℤ◌, ltb_ℤ}

pub record Rect : Type 0 where
  pub x : ℤ
  pub y : ℤ
  pub width : ℤ
  pub height : ℤ

abbrev pub min : ℤ → ℤ → ℤ
min a b = if ltb_ℤ b a then b else a

abbrev pub max : ℤ → ℤ → ℤ
max a b = if ltb_ℤ a b then b else a

abbrev pub leb_ℤ : ℤ → ℤ → Bool
leb_ℤ a b = not (ltb_ℤ b a)

unfoldable pub right : Rect → ℤ
right r = r.x +ℤ r.width

unfoldable pub bottom : Rect → ℤ
bottom r = r.y +ℤ r.height

unfoldable pub area : Rect → ℤ
area r = r.width *ℤ r.height

unfoldable pub empty : Rect → Bool
empty r = leb_ℤ r.width (pos 0) || leb_ℤ r.height (pos 0)

unfoldable pub united : Rect → Rect → Rect
unfolding right bottom
united a b = record {
  x = min a.x b.x;
  y = min a.y b.y;
  width = max (right a) (right b) -ℤ min a.x b.x;
  height = max (bottom a) (bottom b) -ℤ min a.y b.y;
}

-- Overlapping, or with edges that touch.
unfoldable pub touches : Rect → Rect → Bool
unfolding right bottom
touches a b =
    leb_ℤ a.x (right b) && leb_ℤ b.x (right a) && leb_ℤ a.y (bottom b) && leb_ℤ b.y (bottom a)

unfoldable pub erase : List Rect → ℕ → List Rect
erase [] j = []
erase (r ∷ rs) zero = rs
erase (r ∷ rs) (suc j) = r ∷ erase rs j

-- The pair becomes its union, in the place of the first.
unfoldable pub merge_pair : List Rect → ℕ → ℕ → List Rect
unfolding united erase
merge_pair rs i j = elim (get_elem? rs i) [
  | none ↦ rs
  | some a ↦ elim (get_elem? rs j) [ none ↦ rs | some b ↦ erase (set rs i (united a b)) j ]
]

unfoldable pub not_empty : List Rect → List Rect
unfolding empty
not_empty [] = []
not_empty (r ∷ rs) = if empty r then not_empty rs else r ∷ not_empty rs

-- The first position from `j` on that touches `a`.
unfoldable pub find_touching : Rect → List Rect → ℕ → Option ℕ
unfolding touches
find_touching a [] j = none
find_touching a (b ∷ rs) j = if touches a b then some j else find_touching a rs (j + 1)

-- The first pair that touches, `i` being the position of the list's head.
unfoldable pub find_pair : List Rect → ℕ → Option (ℕ × ℕ)
unfolding find_touching
find_pair [] i = none
find_pair (a ∷ rs) i = elim (find_touching a rs (i + 1)) [
  | none ↦ find_pair rs (i + 1)
  | some j ↦ some (i, j)
]

-- The loop that merges until nothing touches; each turn but the last makes the list shorter.
unfoldable pub merge_touching : ℕ → List Rect → Option (List Rect)
unfolding find_pair merge_pair
merge_touching zero rs = none
merge_touching (suc fuel) rs = elim (find_pair rs 0) [
  | none ↦ some rs
  | some p ↦ merge_touching fuel (merge_pair rs p.0 p.1)
]

unfoldable pub merge_overlapping : List Rect → Option (List Rect)
unfolding not_empty merge_touching
merge_overlapping rects = merge_touching (suc (length (not_empty rects))) (not_empty rects)

-- The area that a merge wastes.
unfoldable pub waste : Rect → Rect → ℤ
unfolding united area
waste a b = area (united a b) -ℤ area a -ℤ area b

-- The best pair so far and its cost: `none` before the first, the cost being INT64_MAX.
abbrev pub Best : Type 0
Best = Option ((ℕ × ℕ) × ℤ)

unfoldable pub better : ℤ → Best → Bool
better w none = true
better w (some b) = ltb_ℤ w b.1

unfoldable pub best_with : ℕ → Rect → List Rect → ℕ → Best → Best
unfolding waste better
best_with i a [] j best = best
best_with i a (b ∷ rs) j best =
    best_with i a rs (j + 1) (if better (waste a b) best then some ((i, j), waste a b) else best)

unfoldable pub best_pair : List Rect → ℕ → Best → Best
unfolding best_with
best_pair [] i best = best
best_pair (a ∷ rs) i best = best_pair rs (i + 1) (best_with i a rs (i + 1) best)

-- bestI and bestJ are 0 and 1 at first.
abbrev pub chosen : Best → ℕ × ℕ
chosen none = (0, 1)
chosen (some b) = b.0

unfoldable pub find_best_merge_pair : List Rect → ℕ × ℕ
unfolding best_pair
find_best_merge_pair rs = chosen (best_pair rs 0 none)

-- The loop that reduces the list to `max_rects`.
unfoldable pub reduce : ℕ → ℕ → List Rect → Option (List Rect)
unfolding find_best_merge_pair merge_pair
reduce zero max_rects rs = none
reduce (suc fuel) max_rects rs =
    if ltb max_rects (length rs)
    then reduce fuel max_rects
        (merge_pair rs (find_best_merge_pair rs).0 (find_best_merge_pair rs).1)
    else some rs

-- A limit that is not positive is 1.
abbrev pub limit_of : ℤ → ℕ
limit_of (pos zero) = 1
limit_of (pos (suc n)) = suc n
limit_of (negsuc n) = 1

-- `none` means that the fuel of a loop has run out.
unfoldable pub merge : List Rect → ℤ → Option (List Rect)
unfolding merge_overlapping reduce
merge [] max_rects = some []
merge (r ∷ rs) max_rects = elim (merge_overlapping (r ∷ rs)) [
  | none ↦ none
  | some working ↦ reduce (suc (length working)) (limit_of max_rects) working
]
