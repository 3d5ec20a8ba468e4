-- ===== src/RingBuffer/Queue.antt =====
-- The ring buffer implements a queue of at most `2 ^ k - 1` items.
use omnidesk.Prelude.{
  ℕ, zero, suc, ◌+◌, ◌-◌, ◌*◌, ◌%◌, ◌^◌, ◌≤◌, ◌<◌, ◌≡◌, refl, sym, ap, ◌∙◌, ◌⊎◌, inl, inr, List, [],
  ◌∷◌, ◌++◌, none, some, true, false, Bool-cases, arith, ◌==◌, leb, ltb, if◌then◌else◌, length,
  length-append,
}
use native.Mathlib.Nat.{mod_self, mod-eq_of_lt, mul-add-mod_self_left}
use omnidesk.RingBuffer.{RingBuffer, store_at, push, pop, empty, size}

-- Both indices are in range.
pub record IsRing {ℓ} {A : Type ℓ} (k : ℕ) (b : RingBuffer A) : Type 0 where
  pub head : b.head < 2 ^ k
  pub tail : b.tail < 2 ^ k

-- The position of the `i`th item from `t` on.
abbrev pub place : ℕ → ℕ → ℕ → ℕ
place c t i = if ltb (t + i) c then t + i else t + i - c

-- How far it is from `t` to `h`.
abbrev pub span : ℕ → ℕ → ℕ → ℕ
span c t h = if leb t h then h - t else h + c - t

pub collect {ℓ} : {A : Type ℓ} → ℕ → (ℕ → A) → ℕ → ℕ → List A
collect c f t zero = []
collect c f t (suc n) = collect c f t n ++ (f (place c t n) ∷ [])

-- The queue that a buffer stands for, the oldest item first.
unfoldable pub contents {ℓ} : {A : Type ℓ} → ℕ → RingBuffer A → List A
unfolding collect
contents k b = collect (2 ^ k) b.storage b.tail (span (2 ^ k) b.tail b.head)

suc_mod : (c h : ℕ) → h < c → (h + 1) % c ≡ (if h + 1 == c then 0 else h + 1)
suc_mod c h lt = ground (arith, mod_self c, mod-eq_of_lt {n = h + 1} {m = c})

place-span : (c t h : ℕ) → t < c → h < c → place c t (span c t h) ≡ h
place-span c t h p q = ground arith

span_lt : (c t h : ℕ) → t < c → h < c → span c t h < c
span_lt c t h p q = ground arith

length-collect {ℓ} : {A : Type ℓ} (c : ℕ) (f : ℕ → A) (t n : ℕ) → length (collect c f t n) ≡ n
unfolding collect
length-collect c f t zero = refl
length-collect c f t (suc n) =
    length-append (collect c f t n) (f (place c t n) ∷ []) ∙ omega (arith, length-collect c f t n)

-- An update outside the span is not seen.
collect-store_at {ℓ} :
    {A : Type ℓ} (c : ℕ) (f : ℕ → A) (x : A) (t h n : ℕ)
    → t < c
    → h < c
    → n ≤ span c t h
    → collect c (store_at f h x) t n ≡ collect c f t n
unfolding collect store_at
collect-store_at c f x t h zero p q le = refl
collect-store_at c f x t h (suc n) p q le =
    let other : (h == place c t n) ≡ false = ground arith in
    rw (other, collect-store_at c f x t h n p q (omega (arith, le))) refl

place-suc :
    (c t n : ℕ)
    → t < c
    → suc n < c
    → place c t (suc n) ≡ place c (if t + 1 == c then 0 else t + 1) n
place-suc c t n p q = ground arith

collect_front {ℓ} :
    {A : Type ℓ} (c : ℕ) (f : ℕ → A) (t n : ℕ)
    → t < c
    → n < c
    → collect c f t (suc n) ≡ f t ∷ collect c f (if t + 1 == c then 0 else t + 1) n
unfolding collect
collect_front c f t zero p q = ap (λ (i : ℕ). f i ∷ []) (ground arith)
collect_front c f t (suc n) p q = rw (collect_front c f t n p (omega (arith, q))) (
    ap (λ (i : ℕ). f t ∷ (collect c f (if t + 1 == c then 0 else t + 1) n ++ (f i ∷ [])))
      (place-suc c t n p q))

span_push :
    (c t h : ℕ)
    → t < c
    → h < c
    → ((if h + 1 == c then 0 else h + 1) == t) ≡ false
    → span c t (if h + 1 == c then 0 else h + 1) ≡ suc (span c t h)
span_push c t h p q e = ground arith

span_full :
    (c t h : ℕ)
    → t < c
    → h < c
    → ((if h + 1 == c then 0 else h + 1) == t) ≡ true
    → suc (span c t h) ≡ c
span_full c t h p q e = ground arith

span_pop :
    (c t h : ℕ)
    → t < c
    → h < c
    → (t == h) ≡ false
    → span c t h ≡ suc (span c (if t + 1 == c then 0 else t + 1) h)
span_pop c t h p q e = ground arith

collect_push {ℓ} :
    {A : Type ℓ} (c : ℕ) (f : ℕ → A) (x : A) (t h : ℕ)
    → t < c
    → h < c
    → ((if h + 1 == c then 0 else h + 1) == t) ≡ false
    → collect c (store_at f h x) t (span c t (if h + 1 == c then 0 else h + 1))
      ≡ collect c f t (span c t h) ++ (x ∷ [])
unfolding collect store_at
collect_push c f x t h p q room =
    let itself : (h == h) ≡ true = ground arith in
    rw
      (
        span_push c t h p q room,
        collect-store_at c f x t h (span c t h) p q (omega arith),
        place-span c t h p q,
        itself,
      )
      refl

collect_none {ℓ} :
    {A : Type ℓ} (c : ℕ) (f : ℕ → A) (t h : ℕ) → (t == h) ≡ true → collect c f t (span c t h) ≡ []
unfolding collect
collect_none c f t h e = let none_left : span c t h ≡ 0 = ground arith in rw none_left refl

next_lt : (c h : ℕ) → h < c → (if h + 1 == c then 0 else h + 1) < c
next_lt c h p = ground arith

-- Pushing onto a buffer with `2 ^ k - 1` items fails; onto any other it succeeds and adds the item
-- at the end of the queue, the indices staying in range.
pub push-contents {ℓ} :
    {A : Type ℓ} (k : ℕ) (x : A) (b : RingBuffer A)
    → IsRing k b
    → ((push k x b ≡ none) × (suc (length (contents k b)) ≡ 2 ^ k))
      ⊎ ((b' : RingBuffer A) × (push k x b ≡ some b')
          × (contents k b' ≡ contents k b ++ (x ∷ []))
          × IsRing k b')
unfolding push contents
push-contents {A = A} k x b r =
    let c : ℕ = 2 ^ k in
    let next = suc_mod c b.head r.head in
    elim (Bool-cases ((if b.head + 1 == c then 0 else b.head + 1) == b.tail)) [
      | inl full ↦ inl (
        rw (next, full) refl,
        ap suc (length-collect c b.storage b.tail (span c b.tail b.head))
            ∙ span_full c b.tail b.head r.tail r.head full,
      )
      | inr room ↦ inr (
        record b {
          storage = store_at b.storage b.head x;
          head = if b.head + 1 == c then 0 else b.head + 1;
        },
        rw (next, room) refl,
        collect_push c b.storage x b.tail b.head r.tail r.head room,
        record { head = next_lt c b.head r.head; tail = r.tail },
      )
    ]

-- Popping an empty queue fails; any other gives its oldest item and leaves the others in order.
pub pop-contents {ℓ} :
    {A : Type ℓ} (k : ℕ) (b : RingBuffer A)
    → IsRing k b
    → ((pop k b ≡ none) × (contents k b ≡ []))
      ⊎ ((x : A) × (b' : RingBuffer A) × (pop k b ≡ some (x, b'))
          × (contents k b ≡ x ∷ contents k b')
          × IsRing k b')
unfolding pop contents
pop-contents {A = A} k b r =
    let c : ℕ = 2 ^ k in
    let next = suc_mod c b.tail r.tail in
    elim (Bool-cases (b.tail == b.head)) [
      | inl none_left ↦ inl (rw none_left refl, collect_none c b.storage b.tail b.head none_left)
      | inr some_left ↦ inr (
        b.storage b.tail,
        record b { tail = if b.tail + 1 == c then 0 else b.tail + 1 },
        rw (next, some_left) refl,
        rw (span_pop c b.tail b.head r.tail r.head some_left) (
            collect_front c b.storage b.tail
              (span c (if b.tail + 1 == c then 0 else b.tail + 1) b.head) r.tail
              (omega (
                arith,
                span_lt c b.tail b.head r.tail r.head,
                span_pop c b.tail b.head r.tail r.head some_left,
              ))),
        record { head = r.head; tail = next_lt c b.tail r.tail },
      )
    ]

size_span :
    (c m t h : ℕ) → c * suc m ≡ 2 ^ 64 → t < c → h < c → (h + 2 ^ 64 - t) % 2 ^ 64 % c ≡ span c t h
size_span c m t h e p q =
    let total : c * m + c ≡ 2 ^ 64 = omega (arith, e) in
    elim (Bool-cases (leb t h)) [
      | inl up ↦
          let inner : (h + 2 ^ 64 - t) % 2 ^ 64 ≡ h - t = ground (arith, up, total) in
          ap (λ (i : ℕ). i % c) inner ∙ mod-eq_of_lt {n = h - t} {m = c} (omega arith) ∙ rw up refl
      | inr down ↦
          let inner : (h + 2 ^ 64 - t) % 2 ^ 64 ≡ c * m + (h + c - t) =
            ground (arith, down, total) in
          ap (λ (i : ℕ). i % c) inner
          ∙ mul-add-mod_self_left c m (h + c - t)
          ∙ mod-eq_of_lt {n = h + c - t} {m = c} (ground (arith, down))
          ∙ rw down refl
    ]

span_zero : (c t h : ℕ) → t < c → h < c → (h == t) ≡ (span c t h == 0)
span_zero c t h p q = ground arith

-- The size is the number of queued items, when the capacity divides 2 ^ 64, and the buffer is
-- empty just when it is 0.
pub size-contents {ℓ} :
    {A : Type ℓ} (k m : ℕ) (b : RingBuffer A)
    → 2 ^ k * suc m ≡ 2 ^ 64
    → IsRing k b
    → (size k b ≡ length (contents k b)) × (empty b ≡ (size k b == 0))
unfolding size contents empty
size-contents k m b e r =
    let sized = size_span (2 ^ k) m b.tail b.head e r.tail r.head in
    (
      sized ∙ sym (length-collect (2 ^ k) b.storage b.tail (span (2 ^ k) b.tail b.head)),
      span_zero (2 ^ k) b.tail b.head r.tail r.head ∙ ap (λ (i : ℕ). i == 0) (sym sized),
    )
