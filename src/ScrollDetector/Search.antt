-- ===== src/ScrollDetector/Search.antt =====
-- What the search for a vertical offset finds: src/codec/omni/scroll_detector.cpp.
use omnidesk.Prelude.{
  ℕ, zero, suc, ◌+◌, ◌-◌, ◌*◌, ◌≤◌, ◌<◌, ◌≡◌, ◌≢◌, refl, sym, ap, ◌∙◌, ◌⊎◌, inl, inr, List, true,
  false, ltb, leb, arith, get_or, Bool-cases, ℕ_discrete, true-false, ==_iff,
}
use omnidesk.Prelude.Int.{sub_ℕ}
use omnidesk.ScrollDetector.{
  ScrollResult, ScrollDetector, max_scroll_distance, hash_row, row_hashes, update_reference,
  tile_hashes, same_row, count_matches, improve, search, confident, best_offset, detect_tile_scroll,
  offset_matches,
}

-- An offset that the search tries.
abbrev pub IsOffset : ℕ → Type 0
IsOffset dy = (dy ≤ 2 * max_scroll_distance) × (dy ≢ max_scroll_distance)

abbrev Found : (ℕ → ℕ) → ℕ × ℕ → Type 0
Found m best = (best.1 ≡ 0) ⊎ (IsOffset best.0 × (best.1 ≡ m best.0))

improve-grows : (m : ℕ → ℕ) (dy o b : ℕ) → b ≤ (improve m dy (o, b)).1
unfolding improve
improve-grows m dy o b = ground arith

improve-covers :
    (m : ℕ → ℕ) (dy o b : ℕ) → dy ≢ max_scroll_distance → m dy ≤ (improve m dy (o, b)).1
unfolding improve
improve-covers m dy o b h = ground arith

improve-Found :
    (m : ℕ → ℕ) (dy o b : ℕ)
    → dy ≤ 2 * max_scroll_distance
    → Found m (o, b)
    → Found m (improve m dy (o, b))
unfolding improve
improve-Found m dy o b h f = ground arith

search-grows : (m : ℕ → ℕ) (n dy : ℕ) (best : ℕ × ℕ) → best.1 ≤ (search m n dy best).1
unfolding search
search-grows m zero dy best = omega arith
search-grows m (suc n) dy (o, b) =
    omega (arith, improve-grows m dy o b, search-grows m n (dy + 1) (improve m dy (o, b)))

search-covers :
    (m : ℕ → ℕ) (n dy : ℕ) (best : ℕ × ℕ) (k : ℕ)
    → dy ≤ k
    → k < dy + n
    → k ≢ max_scroll_distance
    → m k ≤ (search m n dy best).1
unfolding search
search-covers m zero dy best k low high h = absurd (omega arith)
search-covers m (suc n) dy (o, b) k low high h = elim (ℕ_discrete dy k) [
  | yes e ↦
      let here = improve-covers m dy o b (λ e'. h (sym e ∙ e')) in
      let same : m dy ≡ m k = ap m e in
      omega (arith, same, here, search-grows m n (dy + 1) (improve m dy (o, b)))
  | no ne ↦
      let later : dy + 1 ≤ k = omega arith in
      search-covers m n (dy + 1) (improve m dy (o, b)) k later (omega arith) h
]

search-Found :
    (m : ℕ → ℕ) (n dy : ℕ) (best : ℕ × ℕ)
    → dy + n ≤ 2 * max_scroll_distance + 1
    → Found m best
    → Found m (search m n dy best)
unfolding search
search-Found m zero dy best h f = f
search-Found m (suc n) dy (o, b) h f =
    search-Found m n (dy + 1) (improve m dy (o, b)) (omega arith)
      (improve-Found m dy o b (omega arith) f)

-- What a motion vector promises: an offset tried, at which at least three quarters of the tile's rows
-- match, and at least four, and no other offset has more.
pub record BestMatch (rows : ℕ → List ℕ) (tile_y tile_h : ℕ) (d : ScrollDetector) (r : ScrollResult)
    : Type 0 where
  pub offset : ℕ
  pub tried : IsOffset offset
  pub vector : r.mv_y ≡ sub_ℕ offset max_scroll_distance
  pub enough : 3 * tile_h ≤ 4 * offset_matches rows tile_y tile_h d offset
  pub four : 4 ≤ offset_matches rows tile_y tile_h d offset
  pub most :
      (other : ℕ)
      → IsOffset other
      → offset_matches rows tile_y tile_h d other ≤ offset_matches rows tile_y tile_h d offset

confident→enough :
    (tile_h best : ℕ) → confident tile_h best ≡ true → (3 * tile_h ≤ 4 * best) × (4 ≤ best)
unfolding confident
confident→enough tile_h best h = ground arith

enough→confident :
    (tile_h best : ℕ) → 3 * tile_h ≤ 4 * best → 4 ≤ best → confident tile_h best ≡ true
unfolding confident
enough→confident tile_h best h h' = ground arith

module _ (rows : ℕ → List ℕ) (tile_y tile_h : ℕ) (d : ScrollDetector) where
  best_offset-Found : Found (offset_matches rows tile_y tile_h d) (best_offset rows tile_y tile_h d)
  unfolding best_offset
  best_offset-Found =
      search-Found (offset_matches rows tile_y tile_h d) (2 * max_scroll_distance + 1) 0
        (max_scroll_distance, 0) (omega arith) (inl refl)

  best_offset-covers :
      (other : ℕ)
      → IsOffset other
      → offset_matches rows tile_y tile_h d other ≤ (best_offset rows tile_y tile_h d).1
  unfolding best_offset
  best_offset-covers other (low, ne) =
      search-covers (offset_matches rows tile_y tile_h d) (2 * max_scroll_distance + 1) 0
        (max_scroll_distance, 0) other (omega arith) (omega arith) ne

  confident-BestMatch :
      confident tile_h (best_offset rows tile_y tile_h d).1 ≡ true
      → BestMatch rows tile_y tile_h d (detect_tile_scroll rows tile_y tile_h d)
  unfolding detect_tile_scroll
  confident-BestMatch c = elim best_offset-Found [
    | inl none_found ↦ absurd (omega (arith, none_found, (confident→enough tile_h _ c).1))
    | inr (tried, found) ↦
        let bounds = confident→enough tile_h _ c in
        record {
          offset = (best_offset rows tile_y tile_h d).0;
          tried = tried;
          vector = rw c refl;
          enough = omega (arith, found, bounds.0);
          four = omega (arith, found, bounds.1);
          most = λ other o. omega (arith, found, best_offset-covers other o);
        }
  ]

  detected→confident :
      (detect_tile_scroll rows tile_y tile_h d).detected ≡ true
      → confident tile_h (best_offset rows tile_y tile_h d).1 ≡ true
  unfolding detect_tile_scroll
  detected→confident h = elim (Bool-cases (confident tile_h (best_offset rows tile_y tile_h d).1)) [
    | inl c ↦ c
    | inr c ↦
        let missed : (detect_tile_scroll rows tile_y tile_h d).detected ≡ false = rw c refl in
        absurd (true-false (sym h ∙ missed))
  ]

  matches→detected :
      (dy : ℕ)
      → IsOffset dy
      → 3 * tile_h ≤ 4 * offset_matches rows tile_y tile_h d dy
      → 4 ≤ offset_matches rows tile_y tile_h d dy
      → (detect_tile_scroll rows tile_y tile_h d).detected ≡ true
  unfolding detect_tile_scroll
  matches→detected dy o enough four =
      let covered = best_offset-covers dy o in
      let c : confident tile_h (best_offset rows tile_y tile_h d).1 ≡ true =
        enough→confident tile_h _ (omega (arith, covered, enough)) (omega (arith, covered, four)) in
      rw c refl

-- A scroll that is reported has the vector of an offset other than 0, within 512 rows, at which at
-- least three quarters of the tile's rows have the hash of the reference's row, and at least four,
-- and no other such offset has more.
pub detect_tile_scroll-BestMatch :
    (rows : ℕ → List ℕ) (tile_y tile_h : ℕ) (d : ScrollDetector)
    → (detect_tile_scroll rows tile_y tile_h d).detected ≡ true
    → BestMatch rows tile_y tile_h d (detect_tile_scroll rows tile_y tile_h d)
detect_tile_scroll-BestMatch rows tile_y tile_h d h =
    confident-BestMatch rows tile_y tile_h d (detected→confident rows tile_y tile_h d h)

row_hashes_lem :
    (rows : ℕ → List ℕ) (y n i : ℕ)
    → i < n
    → get_or (row_hashes rows y n) i 0 ≡ hash_row (rows (y + i))
unfolding row_hashes
row_hashes_lem rows y zero i h = absurd (omega arith)
row_hashes_lem rows y (suc n) zero h =
    let at : y ≡ y + 0 = omega arith in ap (λ (k : ℕ). hash_row (rows k)) at
row_hashes_lem rows y (suc n) (suc i) h =
    let at : y + 1 + i ≡ y + suc i = omega arith in
    row_hashes_lem rows (y + 1) n i (omega arith) ∙ ap (λ (k : ℕ). hash_row (rows k)) at

moved_row :
    (rows old : ℕ → List ℕ) (d : ScrollDetector) (dy y : ℕ)
    → max_scroll_distance ≤ y + dy
    → y + dy < d.height + max_scroll_distance
    → rows y ≡ old (y + dy - max_scroll_distance)
    → same_row (update_reference old d) dy y (hash_row (rows y)) ≡ true
unfolding same_row update_reference
moved_row rows old d dy y low high e =
    let reached : leb max_scroll_distance (y + dy) ≡ true = ground arith in
    let within : ltb (y + dy - max_scroll_distance) d.height ≡ true = ground arith in
    let stored = row_hashes_lem old 0 d.height (y + dy - max_scroll_distance) (omega arith) in
    let at : 0 + (y + dy - max_scroll_distance) ≡ y + dy - max_scroll_distance = omega arith in
    let shown = ap hash_row e ∙ sym (stored ∙ ap (λ (k : ℕ). hash_row (old k)) at) in
    rw (reached, within, (==_iff _ _).1 shown) refl

count_matches_lem :
    (rows old : ℕ → List ℕ) (d : ScrollDetector) (dy y n : ℕ)
    → y + n ≤ d.height
    → max_scroll_distance ≤ y + dy
    → y + n + dy ≤ d.height + max_scroll_distance
    → ((j : ℕ) → y ≤ j → j < y + n → rows j ≡ old (j + dy - max_scroll_distance))
    → count_matches (update_reference old d) dy y (tile_hashes rows d.height y n) ≡ n
unfolding count_matches tile_hashes
count_matches_lem rows old d dy y zero inside low high same = refl
count_matches_lem rows old d dy y (suc n) inside low high same =
    let here = moved_row rows old d dy y low (omega arith) (same y (omega arith) (omega arith)) in
    let shown : ltb y d.height ≡ true = ground arith in
    let rest =
      count_matches_lem rows old d dy (y + 1) n (omega arith) (omega arith) (omega arith)
        (λ j l h. same j (omega arith) (omega arith)) in
    rw (shown, here, rest) (omega arith)

-- A tile whose rows are those of the reference frame, moved by an offset other than 0 within 512
-- rows, is detected as scrolled, if it has at least four rows and they are all inside both frames.
pub detect_tile_scroll-moved :
    (rows old : ℕ → List ℕ) (d : ScrollDetector) (tile_y tile_h dy : ℕ)
    → IsOffset dy
    → 4 ≤ tile_h
    → tile_y * d.tile_size + tile_h ≤ d.height
    → max_scroll_distance ≤ tile_y * d.tile_size + dy
    → tile_y * d.tile_size + tile_h + dy ≤ d.height + max_scroll_distance
    → ((j : ℕ)
        → tile_y * d.tile_size ≤ j
        → j < tile_y * d.tile_size + tile_h
        → rows j ≡ old (j + dy - max_scroll_distance))
    → (detect_tile_scroll rows tile_y tile_h (update_reference old d)).detected ≡ true
unfolding update_reference offset_matches
detect_tile_scroll-moved rows old d tile_y tile_h dy o tall inside low high same =
    let all : offset_matches rows tile_y tile_h (update_reference old d) dy ≡ tile_h =
      count_matches_lem rows old d dy (tile_y * d.tile_size) tile_h inside low high same in
    matches→detected rows tile_y tile_h (update_reference old d) dy o (omega (arith, all))
      (omega (arith, all))
