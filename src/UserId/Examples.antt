-- ===== src/UserId/Examples.antt =====
-- First and second start; the first candidate of the first start is taken already.
use omnidesk.Prelude.{
  ℕ, zero, suc, ◌+◌, ◌%◌, ◌≡◌, List, [], ◌∷◌, none, Bool, true, false, ◌==◌, arith,
}
use omnidesk.UserId.{load_or_generate}
use omnidesk.UserId.Persist.{IsUserId, IsDraw, load_or_generate-again}

abbrev taken : List ℕ → Bool
taken [] = false
taken (c ∷ id) = c == 50

abbrev draw : ℕ → ℕ → ℕ
draw zero i = i % 31
draw (suc k) i = (i + 30) % 31

draw-IsDraw : (k : ℕ) → IsDraw (draw k)
draw-IsDraw zero i = omega arith
draw-IsDraw (suc k) i = omega arith

load_or_generate-again_example :
    let (id, file') = load_or_generate true taken draw none in
    IsUserId id × (load_or_generate true taken draw file' ≡ (id, file'))
load_or_generate-again_example = load_or_generate-again taken taken draw draw none draw-IsDraw
