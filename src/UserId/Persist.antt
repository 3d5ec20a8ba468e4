-- ===== src/UserId/Persist.antt =====
-- An installation keeps its identity.
use mathlib.Core.Path.{subst}
use omnidesk.Prelude.{
  ◌≤◌, ℕ, zero, suc, ◌+◌, ◌<◌, ◌≡◌, refl, sym, ap, ◌∙◌, ◌⊎◌, inl, inr, List, [], ◌∷◌, ◌++◌, Option,
  none, some, Bool, true, false, Bool-cases, Option-cases, arith, ◌==◌, length, get_or, All,
}
use omnidesk.UserId.{
  alphanumeric, valid, generate_random, first_line, trim, is_alnum, is_lower, to_upper, normalize,
  load, save, try_ids, load_or_generate, max_collision_retries,
}

-- A digit or a capital letter.
abbrev pub IsCapital : ℕ → Type 0
IsCapital c = ((48 ≤ c) × (c ≤ 57)) ⊎ ((65 ≤ c) × (c ≤ 90))

-- Eight digits and capital letters.
abbrev pub IsUserId : List ℕ → Type 0
IsUserId id = (length id ≡ 8) × All IsCapital id

-- The distribution gives indices of the alphabet.
abbrev pub IsDraw : (ℕ → ℕ) → Type 0
IsDraw draw = (i : ℕ) → draw i < 31

first_line-line : (id : List ℕ) → All IsCapital id → first_line (id ++ (10 ∷ [])) ≡ id
unfolding first_line
first_line-line [] h = refl
first_line-line (c ∷ id) (h, hs) = ground (arith, first_line-line id hs)

trim-capitals : (id : List ℕ) → All IsCapital id → trim id ≡ id
unfolding trim
trim-capitals [] h = refl
trim-capitals (c ∷ id) (h, hs) = ground (arith, trim-capitals id hs)

normalize-capitals : (id : List ℕ) → All IsCapital id → normalize id ≡ some id
unfolding normalize
normalize-capitals [] h = refl
normalize-capitals (c ∷ id) (h, hs) =
    let good : is_alnum c ≡ true = ground (arith, h) in
    let capital : is_lower c ≡ false = ground (arith, h) in
    rw (good, normalize-capitals id hs, capital) refl

-- What is saved is loaded.
pub load-saved : (id : List ℕ) → IsUserId id → load (some (id ++ (10 ∷ []))) ≡ id
unfolding load
load-saved id (n, h) =
    rw (first_line-line id h, trim-capitals id h, n, normalize-capitals id h) refl

to_upper-IsCapital : (c : ℕ) → is_alnum c ≡ true → IsCapital (to_upper c)
to_upper-IsCapital c h = ground (arith, h)

normalize-IsUserId :
    (s id : List ℕ) → normalize s ≡ some id → (length id ≡ length s) × All IsCapital id
unfolding normalize
normalize-IsUserId [] id e = let same : id ≡ [] = cc in rw same (refl, tt)
normalize-IsUserId (c ∷ s) id e = elim (Bool-cases (is_alnum c)) [
  | inr bad ↦ let stop : normalize (c ∷ s) ≡ none = rw (normalize, bad) refl in cc
  | inl good ↦ elim (Option-cases (normalize s)) [
    | inl f ↦ let stop : normalize (c ∷ s) ≡ none = rw (normalize, good, f) refl in cc
    | inr (t, f) ↦
        let (n, h) = normalize-IsUserId s t f in
        let go_on : normalize (c ∷ s) ≡ some (to_upper c ∷ t) = rw (normalize, good, f) refl in
        let same : id ≡ to_upper c ∷ t = cc in rw same (ap suc n, (to_upper-IsCapital c good, h))
  ]
]

alphanumeric-IsCapital : All IsCapital alphanumeric
alphanumeric-IsCapital = omega arith

pick-IsCapital :
    (cs : List ℕ) (d : ℕ) → All IsCapital cs → d < length cs → IsCapital (get_or cs d 0)
pick-IsCapital [] d h l = absurd (omega arith)
pick-IsCapital (c ∷ cs) zero (h, hs) l = h
pick-IsCapital (c ∷ cs) (suc d) (h, hs) l = pick-IsCapital cs d hs (omega arith)

generate_random-IsUserId : (draw : ℕ → ℕ) → IsDraw draw → IsUserId (generate_random draw)
unfolding generate_random
generate_random-IsUserId draw d =
    let pick : (i : ℕ) → IsCapital (get_or alphanumeric (draw i) 0) =
      λ i. pick-IsCapital alphanumeric (draw i) alphanumeric-IsCapital (d i) in
    (refl, (pick 0, (pick 1, (pick 2, (pick 3, (pick 4, (pick 5, (pick 6, (pick 7, tt)))))))))

-- A file that gives a valid id gives eight digits and capital letters.
load-IsUserId : (file : Option (List ℕ)) → valid (load file) ≡ true → IsUserId (load file)
unfolding load valid
load-IsUserId none v = cc
load-IsUserId (some content) v = elim (Bool-cases (length (trim (first_line content)) == 8)) [
  | inr other ↦
      let no_id : load (some content) ≡ [] = rw (load, other) refl in
      let bad : valid (load (some content)) ≡ false = ap valid no_id in cc
  | inl eight ↦ elim (Option-cases (normalize (trim (first_line content)))) [
    | inl e ↦
        let no_id : load (some content) ≡ [] = rw (load, eight, e) refl in
        let bad : valid (load (some content)) ≡ false = ap valid no_id in cc
    | inr (id, e) ↦
        let (n, h) = normalize-IsUserId (trim (first_line content)) id e in
        rw (load, eight, e) (n ∙ ground (arith, eight), h)
  ]
]

try_ids-IsUserId :
    (collides : List ℕ → Bool) (draws : ℕ → ℕ → ℕ) (n i : ℕ)
    → ((k : ℕ) → IsDraw (draws k))
    → IsUserId (try_ids collides draws (suc n) i)
unfolding try_ids
try_ids-IsUserId collides draws zero i d = generate_random-IsUserId (draws i) (d i)
try_ids-IsUserId collides draws (suc n) i d =
    elim (Bool-cases (collides (generate_random (draws i)))) [
      | inl taken ↦ rw (try_ids, taken) (try_ids-IsUserId collides draws n (i + 1) d)
      | inr free ↦ rw (try_ids, free) (generate_random-IsUserId (draws i) (d i))
    ]

loaded :
    (collides : List ℕ → Bool) (draws : ℕ → ℕ → ℕ) (file : Option (List ℕ))
    → valid (load file) ≡ true
    → load_or_generate true collides draws file ≡ (load file, file)
unfolding load_or_generate
loaded collides draws file kept = rw (load_or_generate, kept) refl

generated :
    (collides : List ℕ → Bool) (draws : ℕ → ℕ → ℕ) (file : Option (List ℕ)) (id : List ℕ)
    → valid (load file) ≡ false
    → try_ids collides draws max_collision_retries 0 ≡ id
    → valid id ≡ true
    → load_or_generate true collides draws file ≡ (id, some (id ++ (10 ∷ [])))
unfolding load_or_generate save
generated collides draws file id fresh e v = rw (load_or_generate, fresh, e, save, v) refl

-- What a start gives is an id, and any later start gives the same.
abbrev Keeps : (List ℕ → Bool) → (ℕ → ℕ → ℕ) → List ℕ × Option (List ℕ) → Type 0
Keeps collides draws (id, file) =
    IsUserId id × (load_or_generate true collides draws file ≡ (id, file))

-- An installation whose file can be written has an id of eight digits and capital letters, and a
-- later start finds the same id and leaves the file as it is, whatever is drawn then.
pub load_or_generate-again :
    (collides collides' : List ℕ → Bool) (draws draws' : ℕ → ℕ → ℕ) (file : Option (List ℕ))
    → ((k : ℕ) → IsDraw (draws k))
    → let (id, file') = load_or_generate true collides draws file in
      IsUserId id × (load_or_generate true collides' draws' file' ≡ (id, file'))
unfolding valid
load_or_generate-again collides collides' draws draws' file d =
    elim (Bool-cases (valid (load file))) [
      | inl kept ↦
          subst (Keeps collides' draws') (sym (loaded collides draws file kept))
            (load-IsUserId file kept, loaded collides' draws' file kept)
      | inr fresh ↦
          go (try_ids collides draws max_collision_retries 0)
            (try_ids-IsUserId collides draws 9 0 d) refl fresh
    ]
  where
    go :
        (id : List ℕ)
        → IsUserId id
        → try_ids collides draws max_collision_retries 0 ≡ id
        → valid (load file) ≡ false
        → Keeps collides' draws' (load_or_generate true collides draws file)
    go id u e fresh =
        let v : valid id ≡ true = ap (λ (n : ℕ). n == 8) u.0 in
        let saved : load (some (id ++ (10 ∷ []))) ≡ id = load-saved id u in
        subst (Keeps collides' draws') (sym (generated collides draws file id fresh e v)) (
          u,
          loaded collides' draws' (some (id ++ (10 ∷ []))) (ap valid saved ∙ v)
              ∙ ap (λ (i : List ℕ). (i, some (id ++ (10 ∷ [])))) saved,
        )
