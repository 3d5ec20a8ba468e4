-- ===== src/Rans/Codec.antt =====
-- The four entry points of RANSEncoder and RANSDecoder, over a table that tiles the slots.
use omnidesk.Prelude.{
  ℕ, suc, ◌+◌, ◌-◌, ◌*◌, ◌/◌, ◌%◌, ◌^◌, ◌≤◌, ◌<◌, ◌≡◌, ◌∙◌, List, ◌∷◌, ◌++◌, some, Option, arith,
  length, drop, All, ltb, ◌==◌, ◌||◌, if◌then◌else◌,
}
use omnidesk.Bytes.{◌>>=◌, write_u32, join_u32}
use omnidesk.Rans.Freq.{RansSymbol, rans_l}
use omnidesk.Rans.Table.{RansDecodeEntry, build_decode_table}
use omnidesk.Rans.{
  Lanes, one_state, four_states, read_lane, initial_lanes, encode, encode_interleaved, decode_loop,
  decode, decode_interleaved, read_lanes, Decoded, rejected, decoded, finish,
}
use omnidesk.Rans.Loops.{Occurs, AllStates, decode-encode_loop, one_state_laws, four_states_laws}
use omnidesk.Rans.Quads.{rounds, rounds_lem, quads-loop}
use omnidesk.Rans.Slots.{Tiles, build_decode_table-Decodes}

decode_written :
    (x : ℕ) (stack : List ℕ) (slots : List RansDecodeEntry) (n : ℕ) (syms : List ℕ)
    → x < 2 ^ 32
    → decode_loop one_state slots (suc n) 0 x stack ≡ some syms
    → decode (write_u32 x ++ stack) slots (suc n) ≡ decoded syms
unfolding decode finish write_u32
decode_written x stack slots n syms h e = rw (join_u32 x h, e) (ground arith)

-- What an encoder appends to its output and what the decoder reads out of that.
abbrev pub Restores : (List ℕ → Option (List ℕ)) → (List ℕ → Decoded) → ℕ → List ℕ → Type 0
Restores enc dec header syms =
    (out : List ℕ) × ((output : List ℕ) → enc output ≡ some (output ++ out))
    × (dec out ≡ decoded syms)
    × (length out ≤ header + 2 * length syms)

-- decode gives back what encode was given, for every non-empty sequence of symbols that occur in
-- a table that tiles the slots. The encoding takes four bytes and at most two more for each symbol.
pub decode-encode :
    (table : List RansSymbol) (s : ℕ) (ss : List ℕ)
    → Tiles 0 table
    → All (Occurs table) (s ∷ ss)
    → Restores
        (encode (s ∷ ss) table)
        (λ out. decode out (build_decode_table table) (length (s ∷ ss)))
        4
        (s ∷ ss)
unfolding encode
decode-encode table s ss tiles occurs =
    let ((x, stack), trip) =
      decode-encode_loop one_state one_state_laws table (build_decode_table table) 0 (s ∷ ss) rans_l
        (build_decode_table-Decodes table tiles) (λ j. omega arith) occurs in
    let (e, states, d, l) = trip in
    (
      write_u32 x ++ stack,
      λ output. rw e,
      decode_written x stack _ _ (s ∷ ss) (omega (arith, states 0)) d,
      omega (arith, l),
    )

lanes_bytes : Lanes → List ℕ → List ℕ
lanes_bytes st stack =
    write_u32 st.s0 ++ (write_u32 st.s1 ++ (write_u32 st.s2 ++ (write_u32 st.s3 ++ stack)))

read_lanes-write :
    (st : Lanes) (stack : List ℕ)
    → st.s0 < 2 ^ 32
    → st.s1 < 2 ^ 32
    → st.s2 < 2 ^ 32
    → st.s3 < 2 ^ 32
    → read_lanes (lanes_bytes st stack) ≡ some st
unfolding read_lanes lanes_bytes write_u32
read_lanes-write st stack h0 h1 h2 h3 =
    rw (join_u32 st.s0 h0, join_u32 st.s1 h1, join_u32 st.s2 h2, join_u32 st.s3 h3)

initial_lanes-AllStates : AllStates four_states four_states_laws initial_lanes
unfolding read_lane
initial_lanes-AllStates j = ground arith

lanes_range :
    (st : Lanes)
    → AllStates four_states four_states_laws st
    → (st.s0 < 2 ^ 32) × (st.s1 < 2 ^ 32) × (st.s2 < 2 ^ 32) × (st.s3 < 2 ^ 32)
unfolding read_lane
lanes_range st h = omega (arith, h 0, h 1, h 2, h 3)

-- decodeInterleaved is the plain loop over the four states: unrolling changes nothing, whatever
-- the input and the table.
pub decode_interleaved_plain :
    (input : List ℕ) (slots : List RansDecodeEntry) (count : ℕ)
    → decode_interleaved input slots count ≡ (
        if ltb (length input) 16 || count == 0
        then rejected
        else finish
            do st ← read_lanes input; decode_loop four_states slots count 0 st (drop 16 input))
unfolding decode_interleaved
decode_interleaved_plain input slots count =
    let split : rounds (count / 4) (count % 4) ≡ count =
      rounds_lem (count / 4) (count % 4) ∙ omega arith in
    let quads = λ (st : Lanes) (p : List ℕ).
      quads-loop slots (count / 4) (count % 4) 0 (count - count % 4) st p (omega arith)
        (omega arith) in
    simp (quads, split)

decode_interleaved_written :
    (st : Lanes) (stack : List ℕ) (slots : List RansDecodeEntry) (n : ℕ) (syms : List ℕ)
    → (st.s0 < 2 ^ 32) × (st.s1 < 2 ^ 32) × (st.s2 < 2 ^ 32) × (st.s3 < 2 ^ 32)
    → decode_loop four_states slots (suc n) 0 st stack ≡ some syms
    → decode_interleaved (lanes_bytes st stack) slots (suc n) ≡ decoded syms
unfolding finish lanes_bytes write_u32
decode_interleaved_written st stack slots n syms (h0, h1, h2, h3) e =
    rw (decode_interleaved_plain, read_lanes-write st stack h0 h1 h2 h3, e) (ground arith)

-- The same for four interleaved states, with a header of sixteen bytes.
pub decode-encode_interleaved :
    (table : List RansSymbol) (s : ℕ) (ss : List ℕ)
    → Tiles 0 table
    → All (Occurs table) (s ∷ ss)
    → Restores
        (encode_interleaved (s ∷ ss) table)
        (λ out. decode_interleaved out (build_decode_table table) (length (s ∷ ss)))
        16
        (s ∷ ss)
unfolding encode_interleaved lanes_bytes
decode-encode_interleaved table s ss tiles occurs =
    let ((st, stack), trip) =
      decode-encode_loop four_states four_states_laws table (build_decode_table table) 0 (s ∷ ss)
        initial_lanes (build_decode_table-Decodes table tiles) initial_lanes-AllStates occurs in
    let (e, states, d, l) = trip in
    (
      lanes_bytes st stack,
      λ output. rw e,
      decode_interleaved_written st stack _ _ (s ∷ ss) (lanes_range st states) d,
      omega (arith, l),
    )
