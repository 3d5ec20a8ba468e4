-- ===== src/RingBuffer.antt =====
-- The single-producer single-consumer queue of src/core/ring_buffer.h. `storage` maps a position
-- to its item; the capacity is a power of two, `2 ^ k`, so `& kMask` is `% 2 ^ k`. Each operation
-- is one step: its loads and its store of one index are what the other thread sees of it.
pub mod Queue
mod Examples
use omnidesk.Prelude.{ℕ, ◌+◌, ◌-◌, ◌%◌, ◌^◌, Option, none, some, Bool, ◌==◌, if◌then◌else◌}

pub record RingBuffer {ℓ} (A : Type ℓ) : Type ℓ where
  pub storage : ℕ → A
  pub head : ℕ
  pub tail : ℕ

unfoldable pub store_at {ℓ} : {A : Type ℓ} → (ℕ → A) → ℕ → A → ℕ → A
store_at f i x j = if i == j then x else f j

-- None is the result false: the buffer is full.
unfoldable pub push {ℓ} : {A : Type ℓ} → ℕ → A → RingBuffer A → Option (RingBuffer A)
unfolding store_at
push k item b =
    let next : ℕ = (b.head + 1) % 2 ^ k in
    if next == b.tail
    then none
    else some (record b { storage = store_at b.storage b.head item; head = next })

unfoldable pub pop {ℓ} : {A : Type ℓ} → ℕ → RingBuffer A → Option (A × RingBuffer A)
pop k b =
    if b.tail == b.head
    then none
    else some (b.storage b.tail, record b { tail = (b.tail + 1) % 2 ^ k })

unfoldable pub empty {ℓ} : {A : Type ℓ} → RingBuffer A → Bool
empty b = b.head == b.tail

-- The difference is of type size_t, so it wraps at 2 ^ 64.
unfoldable pub size {ℓ} : {A : Type ℓ} → ℕ → RingBuffer A → ℕ
size k b = (b.head + 2 ^ 64 - b.tail) % 2 ^ 64 % 2 ^ k
