-- ===== src/Rects/Examples.antt =====
-- Three dirty rectangles, two of which touch.
use omnidesk.Prelude.{◌≤◌, ◌≡◌, List, [], ◌∷◌, some, length}
use omnidesk.Prelude.Int.{pos}
use omnidesk.Rects.{Rect, merge, limit_of}
use omnidesk.Rects.Merge.{Covers, merge-Covers}

abbrev dirty : List Rect
dirty =
    (record { x = pos 0; y = pos 0; width = pos 16; height = pos 16 })
    ∷ (record { x = pos 16; y = pos 8; width = pos 16; height = pos 16 })
    ∷ (record { x = pos 300; y = pos 40; width = pos 5; height = pos 5 })
    ∷ []

merge-Covers_example :
    (out : List Rect) × (merge dirty (pos 1) ≡ some out)
    × (length out ≤ limit_of (pos 1))
    × Covers dirty out
merge-Covers_example = merge-Covers dirty (pos 1)
