-- ===== src/Rans/Slots.antt =====
-- What buildDecodeTable puts in each slot.
use omnidesk.Prelude.{
  ℕ, zero, suc, ◌+◌, ◌%◌, ◌^◌, ◌≤◌, ◌<◌, ◌≡◌, refl, ap, ◌∙◌, ◌⊎◌, inl, inr, List, [], ◌∷◌, some,
  arith, length, get_elem?, set, length-set, get_elem?-set_self, get_elem?-set_ne, replicate,
  length-replicate,
}
use native.Mathlib.Nat.{eq-or-lt_of_le}
use omnidesk.Rans.Freq.{RansSymbol, rans_scale, reciprocal}
use omnidesk.Rans.Table.{
  RansDecodeEntry, fill_slots, fill_symbol, fill_table, empty_entry, build_decode_table,
}
use omnidesk.Rans.Step.{IsCoded}
use omnidesk.Rans.Loops.{Decodes}

-- The symbols' slots follow one another from `c` on and end at RANS_SCALE.
abbrev pub Tiles : ℕ → List RansSymbol → Type 0
Tiles c [] = c ≡ rans_scale
Tiles c (s ∷ ss) = (s.cum_freq ≡ c) × (s.rcp_freq ≡ reciprocal s.freq) × Tiles (c + s.freq) ss

pub Tiles-le : (c : ℕ) (ss : List RansSymbol) → Tiles c ss → c ≤ rans_scale
Tiles-le c [] t = omega arith
Tiles-le c (s ∷ ss) t = omega (arith, Tiles-le (c + s.freq) ss t.2)

length-fill_slots :
    (e : RansDecodeEntry) (base n : ℕ) (t : List RansDecodeEntry)
    → length (fill_slots e base n t) ≡ length t
unfolding fill_slots
length-fill_slots e base zero t = refl
length-fill_slots e base (suc n) t =
    length-fill_slots e (base + 1) n (set t (base % 2 ^ 16) e) ∙ length-set t (base % 2 ^ 16) e

fill_slots_outside :
    (e : RansDecodeEntry) (base n i : ℕ) (t : List RansDecodeEntry)
    → base + n ≤ rans_scale
    → (i < base) ⊎ (base + n ≤ i)
    → get_elem? (fill_slots e base n t) i ≡ get_elem? t i
unfolding fill_slots
fill_slots_outside e base zero i t fits h = refl
fill_slots_outside e base (suc n) i t fits h =
    fill_slots_outside e (base + 1) n i (set t (base % 2 ^ 16) e) (omega arith) (omega arith)
    ∙ get_elem?-set_ne t {i = base % 2 ^ 16} {j = i} e (omega arith)

fill_slots_inside :
    (e : RansDecodeEntry) (base n i : ℕ) (t : List RansDecodeEntry)
    → base + n ≤ rans_scale
    → length t ≡ rans_scale
    → base ≤ i
    → i < base + n
    → get_elem? (fill_slots e base n t) i ≡ some e
unfolding fill_slots
fill_slots_inside e base zero i t fits l lo hi = absurd (omega arith)
fill_slots_inside e base (suc n) i t fits l lo hi = elim (eq-or-lt_of_le lo) [
  | inl here ↦
      fill_slots_outside e (base + 1) n i (set t (base % 2 ^ 16) e) (omega arith) (omega arith)
      ∙ rw (← here) (
          let b : base % 2 ^ 16 ≡ base = omega arith in
          rw b (get_elem?-set_self t base e (omega arith)))
  | inr later ↦
      fill_slots_inside e (base + 1) n i (set t (base % 2 ^ 16) e) (omega arith)
        (length-set t (base % 2 ^ 16) e ∙ l) (omega arith) (omega arith)
]

-- Symbols further on leave the slots below `c` alone.
fill_table_below :
    (n c i : ℕ) (ss : List RansSymbol) (t : List RansDecodeEntry)
    → Tiles c ss
    → i < c
    → get_elem? (fill_table n ss t) i ≡ get_elem? t i
unfolding fill_table fill_symbol
fill_table_below n c i [] t tiles h = refl
fill_table_below n c i (s ∷ ss) t tiles h =
    fill_table_below (n + 1) (c + s.freq) i ss (fill_symbol n s t) tiles.2 (omega arith)
    ∙ fill_slots_outside _ s.cum_freq s.freq i t
        (omega (arith, tiles.0, Tiles-le (c + s.freq) ss tiles.2)) (inl (omega (arith, tiles.0)))

abbrev slot_entry : ℕ → RansSymbol → RansDecodeEntry
slot_entry n s = record { symbol = n % 2 ^ 16; freq = s.freq; cum_freq = s.cum_freq }

fill_table-slot :
    (n c k i : ℕ) (s : RansSymbol) (ss : List RansSymbol) (t : List RansDecodeEntry)
    → Tiles c ss
    → length t ≡ rans_scale
    → get_elem? ss k ≡ some s
    → s.cum_freq ≤ i
    → i < s.cum_freq + s.freq
    → get_elem? (fill_table n ss t) i ≡ some (slot_entry (n + k) s)
unfolding fill_table fill_symbol
fill_table-slot n c k i s [] t tiles l e lo hi = cc
fill_table-slot n c zero i s (x ∷ ss) t tiles l e lo hi =
    let same : x ≡ s = cc in
    let first : n + 0 ≡ n = omega arith in
    let fits = Tiles-le (c + x.freq) ss tiles.2 in
    fill_table_below (n + 1) (c + x.freq) i ss (fill_symbol n x t) tiles.2 (
      omega (
        arith,
        tiles.0,
        ap (λ (z : RansSymbol). z.freq) same,
        ap (λ (z : RansSymbol). z.cum_freq) same,
      ))
    ∙ rw (← same, first)
        (fill_slots_inside (slot_entry n x) x.cum_freq x.freq i t (omega (arith, tiles.0)) l
          (rw (← same) at lo) (rw (← same) at hi))
fill_table-slot n c (suc k) i s (x ∷ ss) t tiles l e lo hi =
    let next : n + 1 + k ≡ n + suc k = omega arith in
    rw (← next) (
      fill_table-slot (n + 1) (c + x.freq) k i s ss (fill_symbol n x t) tiles.2
        (length-fill_slots _ x.cum_freq x.freq t ∙ l) e lo hi)

Tiles-IsCoded :
    (c k : ℕ) (s : RansSymbol) (ss : List RansSymbol)
    → Tiles c ss
    → get_elem? ss k ≡ some s
    → 0 < s.freq
    → IsCoded s
Tiles-IsCoded c k s [] tiles e h = cc
Tiles-IsCoded c zero s (x ∷ ss) tiles e h =
    let same : x ≡ s = cc in
    rw (← same) (record {
      occurs = rw (← same) at h;
      fits = omega (arith, tiles.0, Tiles-le (c + x.freq) ss tiles.2);
      inverse = tiles.1;
    })
Tiles-IsCoded c (suc k) s (x ∷ ss) tiles e h = Tiles-IsCoded (c + x.freq) k s ss tiles.2 e h

-- The table that buildDecodeTable makes answers each slot of a symbol with that symbol.
pub build_decode_table-Decodes :
    (ss : List RansSymbol) → Tiles 0 ss → Decodes ss (build_decode_table ss)
unfolding build_decode_table
build_decode_table-Decodes ss tiles = record {
  coded = λ k s e h. Tiles-IsCoded 0 k s ss tiles e h;
  slot = λ k s i byte e lo hi.
      let word : k % 2 ^ 16 ≡ k = omega arith in
      let zeroth : 0 + k ≡ k = omega arith in
      fill_table-slot 0 0 k i s ss (replicate rans_scale empty_entry) tiles
        (length-replicate rans_scale empty_entry) e lo hi
      ∙ rw (zeroth, word);
}
