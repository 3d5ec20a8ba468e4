-- ===== src/RingBuffer/Examples.antt =====
-- A buffer of four places, wrapped around: the items stand at the positions 3 and 0.
use omnidesk.Prelude.{
  ℕ, suc, ◌+◌, ◌^◌, ◌≡◌, refl, ◌⊎◌, [], ◌∷◌, ◌++◌, none, some, ◌==◌, length, arith,
}
use omnidesk.RingBuffer.{RingBuffer, push, pop, size, empty}
use omnidesk.RingBuffer.Queue.{IsRing, contents, push-contents, pop-contents, size-contents}

abbrev wrapped : RingBuffer ℕ
wrapped = record { storage = λ i. i + 10; head = 1; tail = 3 }

wrapped-IsRing : IsRing 2 wrapped
wrapped-IsRing = record { head = omega arith; tail = omega arith }

push-contents_example :
    ((push 2 99 wrapped ≡ none) × (suc (length (contents 2 wrapped)) ≡ 2 ^ 2))
    ⊎ ((b' : RingBuffer ℕ) × (push 2 99 wrapped ≡ some b')
        × (contents 2 b' ≡ contents 2 wrapped ++ (99 ∷ []))
        × IsRing 2 b')
push-contents_example = push-contents 2 99 wrapped wrapped-IsRing

pop-contents_example :
    ((pop 2 wrapped ≡ none) × (contents 2 wrapped ≡ []))
    ⊎ ((x : ℕ) × (b' : RingBuffer ℕ) × (pop 2 wrapped ≡ some (x, b'))
        × (contents 2 wrapped ≡ x ∷ contents 2 b')
        × IsRing 2 b')
pop-contents_example = pop-contents 2 wrapped wrapped-IsRing

size-contents_example :
    (size 2 wrapped ≡ length (contents 2 wrapped)) × (empty wrapped ≡ (size 2 wrapped == 0))
size-contents_example = size-contents 2 4611686018427387903 wrapped refl wrapped-IsRing
