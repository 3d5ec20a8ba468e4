-- ===== src/UserId.antt =====
-- The identity of an installation: src/signaling/user_id.h and src/signaling/user_id.cpp. The file
-- that keeps it is a parameter and a result: its bytes, or `none` if it cannot be opened. The
-- generator's random numbers are a parameter, as is the check for collisions.
pub mod Persist
mod Examples
use omnidesk.Prelude.{
  ℕ, zero, suc, ◌+◌, ◌-◌, List, [], ◌∷◌, ◌++◌, Option, none, some, Bool, true, false, leb, ◌==◌,
  ◌&&◌, ◌||◌, not, if◌then◌else◌, length, get_or, set,
}
use omnidesk.Text.{codes, is_empty}

abbrev pub alphanumeric : List ℕ
alphanumeric = codes "23456789ABCDEFGHJKMNPQRSTUVWXYZ"

abbrev pub user_id_length : ℕ
user_id_length = 8

unfoldable pub valid : List ℕ → Bool
valid id = length id == user_id_length

-- `id.resize(n)`, which fills with 0.
unfoldable pub resized : ℕ → List ℕ
resized zero = []
resized (suc n) = 0 ∷ resized n

-- The loop over the characters from index `i` on; draw `i` gives a number from 0 to 30.
unfoldable pub fill_random : (ℕ → ℕ) → ℕ → ℕ → List ℕ → List ℕ
fill_random draw zero i id = id
fill_random draw (suc n) i id =
    fill_random draw n (i + 1) (set id i (get_or alphanumeric (draw i) 0))

unfoldable pub generate_random : (ℕ → ℕ) → List ℕ
unfolding resized fill_random
generate_random draw = fill_random draw user_id_length 0 (resized user_id_length)

-- std::getline
unfoldable pub first_line : List ℕ → List ℕ
first_line [] = []
first_line (c ∷ s) = if c == 10 then [] else c ∷ first_line s

-- Newline, carriage return and space at the end are removed.
unfoldable pub trim : List ℕ → List ℕ
trim [] = []
trim (c ∷ s) =
    let rest = trim s in if is_empty rest && (c == 10 || c == 13 || c == 32) then [] else c ∷ rest

abbrev pub is_lower : ℕ → Bool
is_lower c = leb 97 c && leb c 122

abbrev pub is_alnum : ℕ → Bool
is_alnum c = (leb 48 c && leb c 57) || (leb 65 c && leb c 90) || is_lower c

abbrev pub to_upper : ℕ → ℕ
to_upper c = if is_lower c then c - 32 else c

-- The loop over the characters: the id in upper case, or `none` at one that is not alphanumeric.
unfoldable pub normalize : List ℕ → Option (List ℕ)
normalize [] = some []
normalize (c ∷ s) =
    let rest = normalize s in
    if is_alnum c then elim rest [ none ↦ none | some t ↦ some (to_upper c ∷ t) ] else none

-- The empty id if there is none to load.
unfoldable pub load : Option (List ℕ) → List ℕ
unfolding first_line trim normalize
load none = []
load (some content) =
    let line : List ℕ = trim (first_line content) in
    if not (length line == user_id_length)
    then []
    else elim (normalize line) [ none ↦ [] | some id ↦ id ]

-- Whether the id was saved, and the file after it. `writable` tells whether it can be opened.
unfoldable pub save : Bool → List ℕ → Option (List ℕ) → Bool × Option (List ℕ)
unfolding valid
save writable id file =
    if not (valid id)
    then (false, file)
    else if writable
    then (true, some (id ++ (10 ∷ [])))
    else (false, file)

-- At most `n` candidates are tried, `draws` giving the draws of each; the last one is taken if all
-- collide.
unfoldable pub try_ids : (List ℕ → Bool) → (ℕ → ℕ → ℕ) → ℕ → ℕ → List ℕ
unfolding generate_random
try_ids collides draws zero i = []
try_ids collides draws (suc zero) i = generate_random (draws i)
try_ids collides draws (suc (suc n)) i =
    let rest = try_ids collides draws (suc n) (i + 1) in
    let id : List ℕ = generate_random (draws i) in if collides id then rest else id

abbrev pub max_collision_retries : ℕ
max_collision_retries = 10

unfoldable pub load_or_generate :
    Bool → (List ℕ → Bool) → (ℕ → ℕ → ℕ) → Option (List ℕ) → List ℕ × Option (List ℕ)
unfolding load save try_ids
load_or_generate writable collides draws file =
    if valid (load file)
    then (load file, file)
    else let id : List ℕ = try_ids collides draws max_collision_retries 0 in
      (id, (save writable id file).1)
