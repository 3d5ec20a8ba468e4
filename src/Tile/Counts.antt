-- ===== src/Tile/Counts.antt =====
-- The statistics of a tile's symbols: the first loops of TileEncoder::encodeResiduals.
use omnidesk.Prelude.{
  ℕ, zero, suc, ◌+◌, ◌%◌, ◌^◌, ◌≤◌, ◌<◌, ◌≡◌, refl, ap, ◌∙◌, sym, List, [], ◌∷◌, some, ltb, true,
  ◌==◌, if◌then◌else◌, arith, All, length, length-set, get_or, set, get_elem?, get_elem?-set_self,
  get_elem?-set_ne, replicate, length-replicate, ℕ_discrete, lt_of_get_elem?,
}
use mathlib.Core.Path.{subst}
use omnidesk.Bytes.{IsByte, IsU32}
use omnidesk.Rans.Normal.{IsCounts}
use omnidesk.Rans.Histogram.{Counted}

-- `counts[symbols[i]]++` for every symbol; an entry is a uint32_t.
unfoldable pub count_symbols : List ℕ → List ℕ → List ℕ
count_symbols [] counts = counts
count_symbols (s ∷ ss) counts = count_symbols ss (set counts s ((get_or counts s 0 + 1) % 2 ^ 32))

-- The loop from index `i` on, with `uniqueCount` and `uniqueSym`; it stops at the second symbol.
unfoldable pub scan_unique : ℕ → ℕ → ℕ → List ℕ → ℕ × ℕ
scan_unique i unique_count unique_sym [] = (unique_count, unique_sym)
scan_unique i unique_count unique_sym (c ∷ cs) =
    let found = scan_unique (i + 1) (unique_count + 1) (i % 256) cs in
    let absent = scan_unique (i + 1) unique_count unique_sym cs in
    if ltb 0 c
    then (if ltb 1 (unique_count + 1) then (unique_count + 1, i % 256) else found)
    else absent

abbrev pub no_counts : List ℕ
no_counts = replicate 256 0

-- How often `i` stands in the list.
unfoldable pub occurrences : ℕ → List ℕ → ℕ
occurrences i [] = 0
occurrences i (s ∷ ss) = (if s == i then 1 else 0) + occurrences i ss

occurrences-le : (i : ℕ) (ss : List ℕ) → occurrences i ss ≤ length ss
unfolding occurrences
occurrences-le i [] = omega arith
occurrences-le i (s ∷ ss) = ground (arith, occurrences-le i ss)

get_or-get_elem? : (xs : List ℕ) (i x : ℕ) → get_elem? xs i ≡ some x → get_or xs i 0 ≡ x
get_or-get_elem? [] i x e = cc
get_or-get_elem? (y ∷ xs) zero x e = cc
get_or-get_elem? (y ∷ xs) (suc i) x e = get_or-get_elem? xs i x e

-- An entry grows by the number of times its symbol occurs.
pub count_symbols_lem :
    (ss counts : List ℕ) (i c : ℕ)
    → get_elem? counts i ≡ some c
    → c + length ss < 2 ^ 32
    → get_elem? (count_symbols ss counts) i ≡ some (c + occurrences i ss)
unfolding count_symbols occurrences
count_symbols_lem [] counts i c e h = let same : c ≡ c + 0 = omega arith in e ∙ ap some same
count_symbols_lem (s ∷ ss) counts i c e h = elim (ℕ_discrete s i) [
  | yes here ↦
      let value : (get_or counts s 0 + 1) % 2 ^ 32 ≡ c + 1 =
        let at = get_or-get_elem? counts i c e in
        let at' : get_or counts s 0 ≡ c = ap (λ (k : ℕ). get_or counts k 0) here ∙ at in
        omega (arith, at') in
      let written : get_elem? (set counts s ((get_or counts s 0 + 1) % 2 ^ 32)) i ≡ some (c + 1) =
        subst
          (λ (k : ℕ). get_elem? (set counts k ((get_or counts s 0 + 1) % 2 ^ 32)) i ≡ some (c + 1))
          (sym here) (get_elem?-set_self counts i _ (lt_of_get_elem? counts i e) ∙ ap some value) in
      let total : c + 1 + occurrences i ss ≡ c + ((if s == i then 1 else 0) + occurrences i ss) =
        ground (arith, here) in
      count_symbols_lem ss _ i (c + 1) written (omega arith) ∙ ap some total
  | no other ↦
      let total : c + occurrences i ss ≡ c + ((if s == i then 1 else 0) + occurrences i ss) =
        ground (arith, other) in
      count_symbols_lem ss _ i c (get_elem?-set_ne counts _ other ∙ e) (omega arith) ∙ ap some total
]

length-count_symbols : (ss counts : List ℕ) → length (count_symbols ss counts) ≡ length counts
unfolding count_symbols
length-count_symbols [] counts = refl
length-count_symbols (s ∷ ss) counts = length-count_symbols ss _ ∙ length-set counts s _

set-IsU32 : (cs : List ℕ) (i v : ℕ) → IsU32 v → All IsU32 cs → All IsU32 (set cs i v)
set-IsU32 [] i v h a = tt
set-IsU32 (c ∷ cs) zero v h (k, a) = (h, a)
set-IsU32 (c ∷ cs) (suc i) v h (k, a) = (k, set-IsU32 cs i v h a)

count_symbols-IsU32 : (ss counts : List ℕ) → All IsU32 counts → All IsU32 (count_symbols ss counts)
unfolding count_symbols
count_symbols-IsU32 [] counts a = a
count_symbols-IsU32 (s ∷ ss) counts a =
    count_symbols-IsU32 ss _ (set-IsU32 counts s _ (omega arith) a)

replicate-IsU32 : (n : ℕ) → All IsU32 (replicate n 0)
replicate-IsU32 zero = tt
replicate-IsU32 (suc n) = (omega arith, replicate-IsU32 n)

get_elem?-replicate : (n i : ℕ) → i < n → get_elem? (replicate {A = ℕ} n 0) i ≡ some 0
get_elem?-replicate zero i h = absurd (omega arith)
get_elem?-replicate (suc n) zero h = refl
get_elem?-replicate (suc n) (suc i) h = get_elem?-replicate n i (omega arith)

pub length-tile_counts : (ss : List ℕ) → length (count_symbols ss no_counts) ≡ 256
length-tile_counts ss = length-count_symbols ss no_counts ∙ length-replicate {A = ℕ} 256 0

pub count_symbols-IsCounts : (ss : List ℕ) → IsCounts (count_symbols ss no_counts)
count_symbols-IsCounts ss =
    let n = length-tile_counts ss in
    record {
      some_symbol = omega (arith, n);
      few = omega (arith, n);
      words = count_symbols-IsU32 ss no_counts (replicate-IsU32 256);
    }

pub tile_counts_at :
    (ss : List ℕ) (i : ℕ)
    → length ss < 2 ^ 32
    → IsByte i
    → get_elem? (count_symbols ss no_counts) i ≡ some (occurrences i ss)
tile_counts_at ss i h k =
    let from_none : 0 + occurrences i ss ≡ occurrences i ss = omega arith in
    count_symbols_lem ss no_counts i 0 (get_elem?-replicate 256 i k) (omega arith)
    ∙ ap some from_none

All-Counted :
    (ss all : List ℕ)
    → length all < 2 ^ 32
    → All IsByte ss
    → ((i : ℕ) → occurrences i ss ≤ occurrences i all)
    → All (Counted (count_symbols all no_counts)) ss
unfolding occurrences
All-Counted [] all h a le = tt
All-Counted (s ∷ ss) all h (k, a) le =
    let once : 0 < occurrences s all = ground (arith, le s) in
    let later : (i : ℕ) → occurrences i ss ≤ occurrences i all = λ i. ground (arith, le i) in
    ((occurrences s all, tile_counts_at all s h k, once), All-Counted ss all h a later)

pub count_symbols-Counted :
    (ss : List ℕ)
    → length ss < 2 ^ 32
    → All IsByte ss
    → All (Counted (count_symbols ss no_counts)) ss
count_symbols-Counted ss h a = All-Counted ss ss h a (λ i. omega arith)

-- After one symbol: if no second one follows, the symbol is kept and nothing else was counted.
scan_unique-kept :
    (cs : List ℕ) (i u : ℕ) → (scan_unique i 1 u cs).0 ≤ 1 → (scan_unique i 1 u cs).1 ≡ u
unfolding scan_unique
scan_unique-kept [] i u h = refl
scan_unique-kept (zero ∷ cs) i u h = scan_unique-kept cs (i + 1) u h
scan_unique-kept (suc x ∷ cs) i u h = absurd (ground (arith, h))

scan_unique-one :
    (cs : List ℕ) (i u j c : ℕ) → (scan_unique i 1 u cs).0 ≤ 1 → get_elem? cs j ≡ some c → c ≡ 0
unfolding scan_unique
scan_unique-one [] i u j c h e = cc
scan_unique-one (zero ∷ cs) i u zero c h e = cc
scan_unique-one (zero ∷ cs) i u (suc j) c h e = scan_unique-one cs (i + 1) u j c h e
scan_unique-one (suc x ∷ cs) i u j c h e = absurd (ground (arith, h))

-- If the scan finds at most one symbol, every symbol that was counted is the one it found.
pub scan_unique_lem :
    (cs : List ℕ) (i u j c : ℕ)
    → (scan_unique i 0 u cs).0 ≤ 1
    → i + length cs ≤ 256
    → get_elem? cs j ≡ some c
    → 0 < c
    → (scan_unique i 0 u cs).1 ≡ i + j
unfolding scan_unique
scan_unique_lem [] i u j c h b e k = cc
scan_unique_lem (zero ∷ cs) i u zero c h b e k = absurd (ground (arith, e))
scan_unique_lem (zero ∷ cs) i u (suc j) c h b e k =
    omega (arith, scan_unique_lem cs (i + 1) u j c h (omega arith) e k)
scan_unique_lem (suc x ∷ cs) i u j c h b e k =
    let alone : (scan_unique (i + 1) 1 (i % 256) cs).0 ≤ 1 = ground (arith, h) in
    let kept = scan_unique-kept cs (i + 1) (i % 256) alone in
    let found : ltb 0 (suc x) ≡ true = ground arith in
    rw found (
      elim j
          as (λ (n : ℕ).
            get_elem? (suc x ∷ cs) n ≡ some c → (scan_unique (i + 1) 1 (i % 256) cs).1 ≡ i + n) [
              | zero ↦ λ e'. omega (arith, kept)
              | suc n ↦
                  λ e'. absurd (omega (arith, scan_unique-one cs (i + 1) (i % 256) n c alone e'))
            ]
        e)

-- In a list of one symbol alone there is nothing else.
pub unique_symbol_lem :
    (all ss : List ℕ)
    → (scan_unique 0 0 0 (count_symbols all no_counts)).0 ≤ 1
    → All IsByte ss
    → All (Counted (count_symbols all no_counts)) ss
    → ss ≡ replicate (length ss) (scan_unique 0 0 0 (count_symbols all no_counts)).1
unique_symbol_lem all [] h b a = refl
unique_symbol_lem all (s ∷ ss) h (k, b) ((c, e, pos), a) =
    let n = length-tile_counts all in
    let this = scan_unique_lem (count_symbols all no_counts) 0 0 s c h (omega (arith, n)) e pos in
    let head : (scan_unique 0 0 0 (count_symbols all no_counts)).1 ≡ s = omega (arith, this) in
    let found : ℕ = (scan_unique 0 0 0 (count_symbols all no_counts)).1 in
    ap (λ (zs : List ℕ). s ∷ zs) (unique_symbol_lem all ss h b a)
    ∙ ap (λ (z : ℕ). z ∷ replicate (length ss) found) (sym head)

pub scan_unique-IsByte : (cs : List ℕ) (i n u : ℕ) → IsByte u → IsByte (scan_unique i n u cs).1
unfolding scan_unique
scan_unique-IsByte [] i n u h = h
scan_unique-IsByte (c ∷ cs) i n u h =
    let found = scan_unique-IsByte cs (i + 1) (n + 1) (i % 256) (omega arith) in
    let absent = scan_unique-IsByte cs (i + 1) n u h in ground (arith, found, absent)

pub nothing_counted : scan_unique 0 0 0 (count_symbols [] no_counts) ≡ (0, 0)
unfolding scan_unique count_symbols
nothing_counted = refl
