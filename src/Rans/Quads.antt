-- ===== src/Rans/Quads.antt =====
-- The unrolled loop of decodeInterleaved against the plain one.

use omnidesk.Prelude.{
  ℕ, zero, suc, ◌+◌, ◌*◌, ◌%◌, ◌^◌, ◌≡◌, refl, List, ◌∷◌, ◌++◌, Option, none, some, arith,
  Option-cases, inl, inr,
}
use omnidesk.Bytes.{◌>>=◌}
use omnidesk.Rans.Table.{RansDecodeEntry}
use omnidesk.Rans.{
  Lanes, four_states, read_lane, write_lane, get_symbol, advance, decode_loop, decode_quads,
}

>>=_assoc {ℓ κ μ} :
    {A : Type ℓ} {B : Type κ} {C : Type μ} (m : Option A) (f : A → Option B) (g : B → Option C)
    → (m >>= f >>= g) ≡ (m >>= λ a. f a >>= g)
>>=_assoc none f g = refl
>>=_assoc (some a) f g = refl

>>=-none {ℓ κ} : {A : Type ℓ} {B : Type κ} (m : Option A) → ◌>>=◌ {B = B} m (λ _. none) ≡ none
>>=-none none = refl
>>=-none (some a) = refl

read_lanes_at :
    (st : Lanes) (i : ℕ)
    → i % 4 ≡ 0
    → (read_lane st i ≡ st.s0)
      × (read_lane st (i + 1) ≡ st.s1)
      × (read_lane st (i + 1 + 1) ≡ st.s2)
      × (read_lane st (i + 1 + 1 + 1) ≡ st.s3)
unfolding read_lane
read_lanes_at st i h = ground arith

write_lanes_at :
    (st : Lanes) (i x : ℕ)
    → i % 4 ≡ 0
    → (write_lane st i x ≡ record st { s0 = x })
      × (write_lane st (i + 1) x ≡ record st { s1 = x })
      × (write_lane st (i + 1 + 1) x ≡ record st { s2 = x })
      × (write_lane st (i + 1 + 1 + 1) x ≡ record st { s3 = x })
unfolding write_lane
write_lanes_at st i x h = ground arith

>>=-some {ℓ} : {A : Type ℓ} (m : Option A) → (m >>= λ a. some a) ≡ m
>>=-some none = refl
>>=-some (some a) = refl

-- `4 * n + r`, as a number of rounds.
pub rounds : ℕ → ℕ → ℕ
rounds zero r = r
rounds (suc n) r = suc (suc (suc (suc (rounds n r))))

pub rounds_lem : (n r : ℕ) → rounds n r ≡ 4 * n + r
unfolding rounds
rounds_lem zero r = omega arith
rounds_lem (suc n) r = omega (arith, rounds_lem n r)

-- The quads, and then the rest one by one.
abbrev pub finish_quads :
    List RansDecodeEntry → ℕ → ℕ → Option (List ℕ × Lanes × List ℕ) → Option (List ℕ)
finish_quads slots r i q = do
  (quads, st, p) ← q
  rest ← decode_loop four_states slots r i st p
  some (quads ++ rest)

one_round :
    (slots : List RansDecodeEntry) (n i : ℕ) (st : Lanes) (p : List ℕ)
    → i % 4 ≡ 0
    → decode_loop four_states slots (suc (suc (suc (suc n)))) i st p ≡ (do
      e0 ← get_symbol st.s0 slots
      (x0, p0) ← advance st.s0 e0 p
      e1 ← get_symbol st.s1 slots
      (x1, p1) ← advance st.s1 e1 p0
      e2 ← get_symbol st.s2 slots
      (x2, p2) ← advance st.s2 e2 p1
      e3 ← get_symbol st.s3 slots
      (x3, p3) ← advance st.s3 e3 p2
      rest ←
          decode_loop four_states slots n (i + 4) (record { s0 = x0; s1 = x1; s2 = x2; s3 = x3 }) p3
      some (
          (e0.symbol % 2 ^ 8)
          ∷ (e1.symbol % 2 ^ 8)
          ∷ (e2.symbol % 2 ^ 8)
          ∷ (e3.symbol % 2 ^ 8)
          ∷ rest))
unfolding decode_loop
one_round slots n i st p h =
    let r0 = λ (t : Lanes). (read_lanes_at t i h).0 in
    let r1 = λ (t : Lanes). (read_lanes_at t i h).1 in
    let r2 = λ (t : Lanes). (read_lanes_at t i h).2 in
    let r3 = λ (t : Lanes). (read_lanes_at t i h).3 in
    let w0 = λ (t : Lanes) (x : ℕ). (write_lanes_at t i x h).0 in
    let w1 = λ (t : Lanes) (x : ℕ). (write_lanes_at t i x h).1 in
    let w2 = λ (t : Lanes) (x : ℕ). (write_lanes_at t i x h).2 in
    let w3 = λ (t : Lanes) (x : ℕ). (write_lanes_at t i x h).3 in
    let next : i + 1 + 1 + 1 + 1 ≡ i + 4 = omega arith in
    simp (r0, w0, r1, w1, r2, w2, r3, w3, next, >>=_assoc)

-- Looking all four symbols up first gives the same bytes, and fails on the same inputs.
pub quads-loop :
    (slots : List RansDecodeEntry) (n r i j : ℕ) (st : Lanes) (p : List ℕ)
    → i % 4 ≡ 0
    → i + 4 * n ≡ j
    → finish_quads slots r j (decode_quads slots n st p)
      ≡ decode_loop four_states slots (rounds n r) i st p
unfolding decode_quads rounds
quads-loop slots zero r i j st p h e =
    let e' : j ≡ i = omega arith in rw e' (>>=-some (decode_loop four_states slots r i st p))
quads-loop slots (suc n) r i j st p h e =
    let ih = λ (t : Lanes) (bs : List ℕ).
      quads-loop slots n r (i + 4) j t bs (omega arith) (omega arith) in
    rw (one_round slots (rounds n r) i st p h) (elim (Option-cases (get_symbol st.s0 slots)) [
      | inl e0 ↦ rw e0 refl
      | inr (e0, q0) ↦ elim (Option-cases (get_symbol st.s1 slots)) [
        | inl e1 ↦ rw (q0, e1) (simp >>=-none)
        | inr (e1, q1) ↦ elim (Option-cases (get_symbol st.s2 slots)) [
          | inl e2 ↦ rw (q0, q1, e2) (simp >>=-none)
          | inr (e2, q2) ↦ elim (Option-cases (get_symbol st.s3 slots)) [
            | inl e3 ↦ rw (q0, q1, q2, e3) (simp >>=-none)
            | inr (e3, q3) ↦ rw (q0, q1, q2, q3) (simp (← ih) (simp >>=_assoc))
          ]
        ]
      ]
    ])
