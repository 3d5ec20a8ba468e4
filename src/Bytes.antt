-- ===== src/Bytes.antt =====
-- Big-endian bytes: writeU16, writeU32, readU16 and readU32 of src/core/types.h. A buffer is the
-- list of its bytes. A read past its end, undefined in C++, is `none`.
use omnidesk.Prelude.{
  ℕ, ◌+◌, ◌*◌, ◌/◌, ◌%◌, ◌^◌, ◌<◌, ◌≡◌, List, [], ◌∷◌, Option, none, some, arith, refl, get_elem?,
  All,
}

infixl 5 ◌>>=◌
abbrev pub ◌>>=◌ {ℓ κ} : {A : Type ℓ} {B : Type κ} → Option A → (A → Option B) → Option B
none >>= f = none
some a >>= f = f a

-- A bind that gives a result gave one before it.
pub bind-some {ℓ κ} :
    {A : Type ℓ} {B : Type κ} (x : Option A) (f : A → Option B) {b : B}
    → (x >>= f) ≡ some b
    → (a : A) × (x ≡ some a) × (f a ≡ some b)
bind-some none f e = cc
bind-some (some a) f e = (a, refl, e)

abbrev pub IsByte : ℕ → Type 0
IsByte b = b < 256

abbrev pub IsU16 : ℕ → Type 0
IsU16 v = v < 2 ^ 16

abbrev pub IsU32 : ℕ → Type 0
IsU32 v = v < 2 ^ 32

-- The bytes that the call leaves in the buffer.
unfoldable pub write_u16 : ℕ → List ℕ
write_u16 v = (v / 2 ^ 8 % 256) ∷ (v % 256) ∷ []

unfoldable pub write_u32 : ℕ → List ℕ
write_u32 v = (v / 2 ^ 24 % 256) ∷ (v / 2 ^ 16 % 256) ∷ (v / 2 ^ 8 % 256) ∷ (v % 256) ∷ []

unfoldable pub read_u16 : List ℕ → ℕ → Option ℕ
read_u16 buf i = do a ← get_elem? buf i; b ← get_elem? buf (i + 1); some (a * 2 ^ 8 + b)

unfoldable pub read_u32 : List ℕ → ℕ → Option ℕ
read_u32 buf i = do
  a ← get_elem? buf i
  b ← get_elem? buf (i + 1)
  c ← get_elem? buf (i + 2)
  d ← get_elem? buf (i + 3)
  some (a * 2 ^ 24 + b * 2 ^ 16 + c * 2 ^ 8 + d)

pub join_u16 : (v : ℕ) → IsU16 v → v / 2 ^ 8 % 256 * 2 ^ 8 + v % 256 ≡ v
join_u16 v h = omega arith

pub join_u32 :
    (v : ℕ)
    → IsU32 v
    → v / 2 ^ 24 % 256 * 2 ^ 24 + v / 2 ^ 16 % 256 * 2 ^ 16 + v / 2 ^ 8 % 256 * 2 ^ 8 + v % 256 ≡ v
join_u32 v h = omega arith

pub write_u32-IsByte : (v : ℕ) → All IsByte (write_u32 v)
unfolding write_u32
write_u32-IsByte v = omega arith
