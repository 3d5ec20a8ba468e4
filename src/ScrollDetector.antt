-- ===== src/ScrollDetector.antt =====
-- Vertical scrolling by hashes of rows: src/codec/omni/scroll_detector.cpp. A frame is a function
-- from a row's number to its 4 * width bytes. An offset dy between -512 and 512 stands as dy + 512.
pub mod Search
mod Examples
use Prim.Native.Nat.{bit_xor}
use omnidesk.Prelude.{
  ℕ, zero, suc, ◌+◌, ◌-◌, ◌*◌, ◌%◌, ◌^◌, List, [], ◌∷◌, Bool, true, false, ltb, leb, ◌==◌, ◌&&◌,
  if◌then◌else◌, get_or,
}
use omnidesk.Prelude.Int.{ℤ, pos, sub_ℕ}

-- The confidence, bestMatches / tileH, stands as bestMatches.
pub record ScrollResult : Type 0 where
  pub detected : Bool
  pub mv_x : ℤ
  pub mv_y : ℤ
  pub confidence : ℕ

pub record ScrollDetector : Type 0 where
  pub width : ℕ
  pub height : ℕ
  pub tile_size : ℕ
  pub ref_row_hashes : List ℕ

abbrev pub max_scroll_distance : ℕ
max_scroll_distance = 512

-- FNV-1a on 64 bits.
unfoldable pub hash_bytes : ℕ → List ℕ → ℕ
hash_bytes h [] = h
hash_bytes h (b ∷ bs) = hash_bytes (bit_xor h b * 0x100000001B3 % 2 ^ 64) bs

unfoldable pub hash_row : List ℕ → ℕ
hash_row row = hash_bytes 0x517CC1B727220A95 row

unfoldable pub zeros : ℕ → List ℕ
zeros zero = []
zeros (suc n) = 0 ∷ zeros n

unfoldable pub init : ℕ → ℕ → ℕ → ScrollDetector
init width height tile_size = record {
  width = width;
  height = height;
  tile_size = tile_size;
  ref_row_hashes = zeros height;
}

unfoldable pub reset : ScrollDetector → ScrollDetector
reset d = record d { ref_row_hashes = zeros d.height }

-- The hashes of `n` rows from row `y` on.
unfoldable pub row_hashes : (ℕ → List ℕ) → ℕ → ℕ → List ℕ
row_hashes rows y zero = []
row_hashes rows y (suc n) = hash_row (rows y) ∷ row_hashes rows (y + 1) n

unfoldable pub update_reference : (ℕ → List ℕ) → ScrollDetector → ScrollDetector
update_reference rows d = record d { ref_row_hashes = row_hashes rows 0 d.height }

-- currentHashes: a row below the frame keeps 0.
unfoldable pub tile_hashes : (ℕ → List ℕ) → ℕ → ℕ → ℕ → List ℕ
tile_hashes rows height y zero = []
tile_hashes rows height y (suc n) =
    (if ltb y height then hash_row (rows y) else 0) ∷ tile_hashes rows height (y + 1) n

-- Whether the row with hash `h` at `y` is the reference's row at the offset.
unfoldable pub same_row : ScrollDetector → ℕ → ℕ → ℕ → Bool
same_row d dy y h =
    leb max_scroll_distance (y + dy)
    && ltb (y + dy - max_scroll_distance) d.height
    && (h == get_or d.ref_row_hashes (y + dy - max_scroll_distance) 0)

-- The rows that match at an offset.
unfoldable pub count_matches : ScrollDetector → ℕ → ℕ → List ℕ → ℕ
count_matches d dy y [] = 0
count_matches d dy y (h ∷ hs) = (if same_row d dy y h then 1 else 0) + count_matches d dy (y + 1) hs

-- One offset of the search, on (bestOffset, bestMatches); offset 0 is passed over.
unfoldable pub improve : (ℕ → ℕ) → ℕ → ℕ × ℕ → ℕ × ℕ
improve matches dy best =
    if dy == max_scroll_distance
    then best
    else (if ltb best.1 (matches dy) then (dy, matches dy) else best)

-- The offsets from `dy` on.
unfoldable pub search : (ℕ → ℕ) → ℕ → ℕ → ℕ × ℕ → ℕ × ℕ
search matches zero dy best = best
search matches (suc n) dy best = search matches n (dy + 1) (improve matches dy best)

-- The test on the confidence: a quotient of numbers this small is at least 0.75 in floats exactly
-- if it is.
unfoldable pub confident : ℕ → ℕ → Bool
confident tile_h best = leb (3 * (if ltb tile_h 1 then 1 else tile_h)) (4 * best) && leb 4 best

-- The rows of the tile that match at an offset.
unfoldable pub offset_matches : (ℕ → List ℕ) → ℕ → ℕ → ScrollDetector → ℕ → ℕ
offset_matches rows tile_y tile_h d dy =
    let py : ℕ = tile_y * d.tile_size in count_matches d dy py (tile_hashes rows d.height py tile_h)

unfoldable pub best_offset : (ℕ → List ℕ) → ℕ → ℕ → ScrollDetector → ℕ × ℕ
best_offset rows tile_y tile_h d =
    search (offset_matches rows tile_y tile_h d) (2 * max_scroll_distance + 1) 0
      (max_scroll_distance, 0)

unfoldable pub detect_tile_scroll : (ℕ → List ℕ) → ℕ → ℕ → ScrollDetector → ScrollResult
detect_tile_scroll rows tile_y tile_h d =
    let best : ℕ × ℕ = best_offset rows tile_y tile_h d in
    if confident tile_h best.1
    then record {
      detected = true;
      mv_x = pos 0;
      mv_y = sub_ℕ best.0 max_scroll_distance;
      confidence = best.1;
    }
    else record { detected = false; mv_x = pos 0; mv_y = pos 0; confidence = 0 }
