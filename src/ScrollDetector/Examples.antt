-- ===== src/ScrollDetector/Examples.antt =====
-- A frame of one pixel by eight rows that scrolled by two rows: src/codec/omni/scroll_detector.cpp.
use omnidesk.Prelude.{ℕ, ◌+◌, List, [], ◌∷◌, ◌≡◌, ap, true, arith}
use omnidesk.ScrollDetector.{ScrollDetector, init, update_reference, detect_tile_scroll}
use omnidesk.ScrollDetector.Search.{
  BestMatch, detect_tile_scroll-BestMatch, detect_tile_scroll-moved,
}

abbrev old_rows : ℕ → List ℕ
old_rows y = y ∷ 0 ∷ 0 ∷ 255 ∷ []

abbrev new_rows : ℕ → List ℕ
new_rows y = old_rows (y + 2)

abbrev detector : ScrollDetector
detector = init 1 8 4

detect_tile_scroll-moved_example :
    (detect_tile_scroll new_rows 0 4 (update_reference old_rows detector)).detected ≡ true
unfolding init
detect_tile_scroll-moved_example =
    detect_tile_scroll-moved new_rows old_rows detector 0 4 514 (omega arith, omega arith)
      (omega arith) (omega arith) (omega arith) (omega arith)
      (λ j low high. ap old_rows (omega arith))

detect_tile_scroll-BestMatch_example :
    BestMatch new_rows 0 4
      (update_reference old_rows detector)
      (detect_tile_scroll new_rows 0 4 (update_reference old_rows detector))
detect_tile_scroll-BestMatch_example =
    detect_tile_scroll-BestMatch new_rows 0 4 (update_reference old_rows detector)
      detect_tile_scroll-moved_example
