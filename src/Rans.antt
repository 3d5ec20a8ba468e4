-- ===== src/Rans.antt =====
-- The rANS entropy coder: src/codec/omni/rans_codec.h and src/codec/omni/rans_codec.cpp.
-- Words are natural numbers with their wrap-around written out. The byte stack of the encoder is a
-- list whose head is the byte pushed last; what is still to be read of a stream is a list too.
pub mod Freq
pub mod Table
pub mod Step
pub mod Loops
mod Examples
pub mod Histogram
pub mod Normal
pub mod Adjust
pub mod Support
pub mod Codec
pub mod Slots
pub mod Quads
use omnidesk.Prelude.{
  ℕ, zero, suc, ◌+◌, ◌-◌, ◌*◌, ◌/◌, ◌%◌, ◌^◌, List, [], ◌∷◌, ◌++◌, Option, none, some, Bool, true,
  false, ltb, leb, ◌==◌, if◌then◌else◌, get_elem?, length, drop, ◌||◌,
}
use omnidesk.Bytes.{◌>>=◌, write_u32, read_u32}
use omnidesk.Rans.Freq.{RansSymbol, rans_scale, rans_l}
use omnidesk.Rans.Table.{RansDecodeEntry}

-- `while (state >= x_max)`. A 32-bit state is zero after four rounds.
unfoldable pub renormalize : ℕ → ℕ → ℕ → List ℕ → ℕ × List ℕ
renormalize zero state x_max stack = (state, stack)
renormalize (suc fuel) state x_max stack =
    let next = renormalize fuel (state / 2 ^ 8) x_max ((state % 256) ∷ stack) in
    if leb x_max state then next else (state, stack)

-- The division-free step: the quotient by the reciprocal, corrected by one where it is too small.
unfoldable pub code_symbol : ℕ → RansSymbol → ℕ
code_symbol state sym =
    let q : ℕ = state * sym.rcp_freq / 2 ^ 32 % 2 ^ 32 in
    let r : ℕ = (state + 2 ^ 32 - q * sym.freq % 2 ^ 32) % 2 ^ 32 in
    let q' : ℕ = if leb sym.freq r then (q + 1) % 2 ^ 32 else q in
    let r' : ℕ = if leb sym.freq r then r - sym.freq else r in
    (q' * 2 ^ 12 % 2 ^ 32 + r' + sym.cum_freq) % 2 ^ 32

unfoldable pub put_symbol_fast : ℕ → RansSymbol → List ℕ → ℕ × List ℕ
put_symbol_fast state sym stack =
    let x_max : ℕ = rans_l / 2 ^ 12 * 2 ^ 8 * sym.freq % 2 ^ 32 in
    let (x, stack') = renormalize 4 state x_max stack in (code_symbol x sym, stack')

-- The four states of the interleaved coder.
pub record Lanes : Type 0 where
  pub s0 : ℕ
  pub s1 : ℕ
  pub s2 : ℕ
  pub s3 : ℕ

-- One state or four, as the loops of both coders see them: the state for position `i`, and a new
-- one in its place.
pub record States (S : Type 0) : Type 0 where
  pub read : S → ℕ → ℕ
  pub write : S → ℕ → ℕ → S

abbrev pub one_state : States ℕ
one_state = record { read = λ s i. s; write = λ s i x. x }

unfoldable pub read_lane : Lanes → ℕ → ℕ
read_lane st i =
    if i % 4 == 0 then st.s0 else if i % 4 == 1 then st.s1 else if i % 4 == 2 then st.s2 else st.s3

unfoldable pub write_lane : Lanes → ℕ → ℕ → Lanes
write_lane st i x = record {
  s0 = if i % 4 == 0 then x else st.s0;
  s1 = if i % 4 == 1 then x else st.s1;
  s2 = if i % 4 == 2 then x else st.s2;
  s3 = if i % 4 == 3 then x else st.s3;
}

-- `state[idx & 3]`.
abbrev pub four_states : States Lanes
four_states = record { read = read_lane; write = write_lane }

-- One round of the encoding loop, at position `i`; a symbol of frequency 0 is skipped.
unfoldable pub encode_symbol : {S : Type 0} → States S → ℕ → RansSymbol → S × List ℕ → S × List ℕ
encode_symbol ops i sym (st, stack) =
    let (x, stack') = put_symbol_fast (ops.read st i) sym stack in
    if sym.freq == 0 then (st, stack) else (ops.write st i x, stack')

-- The loop runs from the last symbol down, so what follows the head is encoded before it. `none`
-- is a read past the frequency table.
unfoldable pub encode_loop :
    {S : Type 0} → States S → List RansSymbol → ℕ → List ℕ → S → Option (S × List ℕ)
encode_loop ops table i [] init = some (init, [])
encode_loop ops table i (s ∷ ss) init = do
  sym ← get_elem? table s
  rest ← encode_loop ops table (i + 1) ss init
  some (encode_symbol ops i sym rest)

unfoldable pub encode : List ℕ → List RansSymbol → List ℕ → Option (List ℕ)
unfolding write_u32
encode [] table output = some output
encode (s ∷ ss) table output = do
  (state, stack) ← encode_loop one_state table 0 (s ∷ ss) rans_l
  some (output ++ (write_u32 state ++ stack))

abbrev pub initial_lanes : Lanes
initial_lanes = record { s0 = rans_l; s1 = rans_l; s2 = rans_l; s3 = rans_l }

unfoldable pub encode_interleaved : List ℕ → List RansSymbol → List ℕ → Option (List ℕ)
unfolding write_u32
encode_interleaved [] table output = some output
encode_interleaved (s ∷ ss) table output = do
  (st, stack) ← encode_loop four_states table 0 (s ∷ ss) initial_lanes
  some (
      output
      ++ (write_u32 st.s0 ++ (write_u32 st.s1 ++ (write_u32 st.s2 ++ (write_u32 st.s3 ++ stack)))))

-- The slot's entry; `none` is a read past the table.
unfoldable pub get_symbol : ℕ → List RansDecodeEntry → Option RansDecodeEntry
get_symbol state table = get_elem? table (state % rans_scale)

-- `while (state < RANS_L)`: each round takes a byte, and nothing checks that there is one. `none`
-- is a read past the input. Below RANS_L the shift loses no bit and leaves the low byte free.
unfoldable pub refill : ℕ → List ℕ → Option (ℕ × List ℕ)
refill state [] = if ltb state rans_l then none else some (state, [])
refill state (b ∷ bs) =
    let next = refill (state * 2 ^ 8 + b) bs in
    if ltb state rans_l then next else some (state, b ∷ bs)

unfoldable pub advance : ℕ → RansDecodeEntry → List ℕ → Option (ℕ × List ℕ)
advance state entry = refill (
    (entry.freq * (state / 2 ^ 12) % 2 ^ 32 + state % rans_scale + 2 ^ 32 - entry.cum_freq)
    % 2 ^ 32)

-- The plain decoding loop, from position `i`.
unfoldable pub decode_loop :
    {S : Type 0} → States S → List RansDecodeEntry → ℕ → ℕ → S → List ℕ → Option (List ℕ)
decode_loop ops table zero i st stream = some []
decode_loop ops table (suc n) i st stream = do
  entry ← get_symbol (ops.read st i) table
  (state, stream') ← advance (ops.read st i) entry stream
  rest ← decode_loop ops table n (i + 1) (ops.write st i state) stream'
  some ((entry.symbol % 2 ^ 8) ∷ rest)

-- `rejected` is the result false; `overrun` a read outside the input or the table, on which the
-- source has no defined behaviour.
pub data Decoded : Type 0 where
  rejected overrun : Decoded
  decoded : List ℕ → Decoded

unfoldable pub finish : Option (List ℕ) → Decoded
finish none = overrun
finish (some out) = decoded out

unfoldable pub decode : List ℕ → List RansDecodeEntry → ℕ → Decoded
unfolding read_u32
decode input table count =
    if ltb (length input) 4 || count == 0
    then rejected
    else finish
        do state ← read_u32 input 0; decode_loop one_state table count 0 state (drop 4 input)

-- The unrolled loop: four symbols are looked up before the four states move on.
unfoldable pub decode_quads :
    List RansDecodeEntry → ℕ → Lanes → List ℕ → Option (List ℕ × Lanes × List ℕ)
decode_quads table zero st p = some ([], st, p)
decode_quads table (suc n) st p = do
  e0 ← get_symbol st.s0 table
  e1 ← get_symbol st.s1 table
  e2 ← get_symbol st.s2 table
  e3 ← get_symbol st.s3 table
  (x0, p0) ← advance st.s0 e0 p
  (x1, p1) ← advance st.s1 e1 p0
  (x2, p2) ← advance st.s2 e2 p1
  (x3, p3) ← advance st.s3 e3 p2
  (out, st', p') ← decode_quads table n (record { s0 = x0; s1 = x1; s2 = x2; s3 = x3 }) p3
  some (
    (e0.symbol % 2 ^ 8) ∷ (e1.symbol % 2 ^ 8) ∷ (e2.symbol % 2 ^ 8) ∷ (e3.symbol % 2 ^ 8) ∷ out,
    st',
    p',
  )

unfoldable pub read_lanes : List ℕ → Option Lanes
unfolding read_u32
read_lanes input = do
  a ← read_u32 input 0
  b ← read_u32 input 4
  c ← read_u32 input 8
  d ← read_u32 input 12
  some (record { s0 = a; s1 = b; s2 = c; s3 = d })

-- `aligned` is `count & ~3`; what is left is decoded one by one.
unfoldable pub decode_interleaved : List ℕ → List RansDecodeEntry → ℕ → Decoded
decode_interleaved input table count =
    if ltb (length input) 16 || count == 0
    then rejected
    else finish do
      st ← read_lanes input
      (quads, st', p) ← decode_quads table (count / 4) st (drop 16 input)
      rest ← decode_loop four_states table (count % 4) (count - count % 4) st' p
      some (quads ++ rest)
