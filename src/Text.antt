-- ===== src/Text.antt =====
-- Byte strings: what the program uses of std::string, std::stoi and std::to_string.
pub mod Order
use Prim.Native.Char.{code}
use Prim.Native.String
use Prim.Native.String.{String}
use omnidesk.Prelude.{
  ℕ, zero, suc, ◌+◌, ◌-◌, ◌*◌, ◌/◌, ◌%◌, ◌^◌, List, [], ◌∷◌, ◌++◌, Option, none, some, Bool, true,
  false, ltb, leb, ◌==◌, ◌&&◌, ◌||◌, if◌then◌else◌, length,
}

-- The bytes of an ASCII text.
abbrev pub codes : String → List ℕ
codes String.[] = []
codes (String.◌∷◌ c s) = code c ∷ codes s

unfoldable pub bytes_eq : List ℕ → List ℕ → Bool
bytes_eq [] [] = true
bytes_eq [] (y ∷ ys) = false
bytes_eq (x ∷ xs) [] = false
bytes_eq (x ∷ xs) (y ∷ ys) = if x == y then bytes_eq xs ys else false

-- The order of std::map over its keys.
unfoldable pub bytes_lt : List ℕ → List ℕ → Bool
bytes_lt [] [] = false
bytes_lt [] (y ∷ ys) = true
bytes_lt (x ∷ xs) [] = false
bytes_lt (x ∷ xs) (y ∷ ys) = if x == y then bytes_lt xs ys else ltb x y

abbrev pub is_empty : List ℕ → Bool
is_empty [] = true
is_empty (x ∷ xs) = false

-- What follows the needle, if the text begins with it.
unfoldable pub strip : List ℕ → List ℕ → Option (List ℕ)
strip [] s = some s
strip (n ∷ ns) [] = none
strip (n ∷ ns) (c ∷ s) = if n == c then strip ns s else none

-- What follows the first occurrence of the needle: `find` and the position after it.
unfoldable pub find_after : List ℕ → List ℕ → Option (List ℕ)
find_after needle [] = strip needle []
find_after needle (c ∷ s) =
    let later = find_after needle s in
    elim (strip needle (c ∷ s)) [ some rest ↦ some rest | none ↦ later ]

-- isspace, and the blanks that the JSON helper skips.
unfoldable pub is_space : ℕ → Bool
is_space c = c == 32 || (leb 9 c && leb c 13)

unfoldable pub skip_spaces : (ℕ → Bool) → List ℕ → List ℕ
skip_spaces blank [] = []
skip_spaces blank (c ∷ s) = let rest = skip_spaces blank s in if blank c then rest else c ∷ s

unfoldable pub is_digit : ℕ → Bool
is_digit c = leb 48 c && leb c 57

-- The number that the leading digits stand for.
unfoldable pub read_digits : ℕ → List ℕ → ℕ
unfolding is_digit
read_digits acc [] = acc
read_digits acc (c ∷ s) =
    let rest = read_digits (acc * 10 + (c - 48)) s in if is_digit c then rest else acc

unfoldable pub starts_with_digit : List ℕ → Bool
unfolding is_digit
starts_with_digit [] = false
starts_with_digit (c ∷ s) = is_digit c

-- The digits after the sign: `none` where std::stoi throws, for want of a digit or of room in an
-- int; otherwise the value as a uint16_t.
unfoldable pub stoi_digits : Bool → List ℕ → Option ℕ
unfolding starts_with_digit read_digits
stoi_digits negative s =
    let n : ℕ = read_digits 0 s in
    if starts_with_digit s
    then (if negative
        then (if leb n (2 ^ 31) then some ((2 ^ 32 - n) % 2 ^ 16) else none)
        else (if ltb n (2 ^ 31) then some (n % 2 ^ 16) else none))
    else none

unfoldable pub stoi_signed : List ℕ → Option ℕ
unfolding stoi_digits
stoi_signed [] = none
stoi_signed (c ∷ s) =
    if c == b'-'
    then stoi_digits true s
    else if c == b'+'
    then stoi_digits false s
    else stoi_digits false (c ∷ s)

-- static_cast<uint16_t>(std::stoi(s)).
unfoldable pub stoi_u16 : List ℕ → Option ℕ
unfolding skip_spaces is_space stoi_signed
stoi_u16 s = stoi_signed (skip_spaces is_space s)

-- The last `fuel` decimal digits, without leading zeros.
unfoldable pub digits : ℕ → ℕ → List ℕ → List ℕ
digits zero n acc = acc
digits (suc fuel) n acc =
    let rest = digits fuel (n / 10) ((48 + n % 10) ∷ acc) in
    if ltb n 10 then (48 + n) ∷ acc else rest

-- std::to_string of a uint16_t, which has five digits at most.
unfoldable pub to_string_u16 : ℕ → List ℕ
unfolding digits
to_string_u16 n = digits 5 n []
