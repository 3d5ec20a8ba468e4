-- ===== src/Rans/Loops.antt =====
-- The loops of RANSEncoder and RANSDecoder: decoding what was encoded, over one state or four.
use omnidesk.Prelude.{
  ℕ, ◌+◌, ◌*◌, ◌%◌, ◌^◌, ◌≤◌, ◌<◌, ◌≡◌, refl, ap, List, [], ◌∷◌, some, arith, length, All,
  get_elem?,
}
use omnidesk.Rans.Freq.{RansSymbol}
use omnidesk.Rans.Table.{RansDecodeEntry}
use omnidesk.Rans.{
  States, Lanes, one_state, four_states, read_lane, write_lane, put_symbol_fast, encode_symbol,
  encode_loop, get_symbol, decode_loop,
}
use omnidesk.Rans.Step.{IsState, IsCoded, advance-put}

-- What the loops need of the states they work on.
pub record StatesLaws {S : Type 0} (ops : States S) : Type 0 where
  pub read-write : (st : S) (i x : ℕ) → ops.read (ops.write st i x) i ≡ x
  pub write_back : (st : S) (i x : ℕ) → ops.write (ops.write st i x) i (ops.read st i) ≡ st
  pub write-IsState :
      (st : S) (i x j : ℕ)
      → IsState x
      → IsState (ops.read st j)
      → IsState (ops.read (ops.write st i x) j)

pub one_state_laws : StatesLaws one_state
one_state_laws = record {
  read-write = λ st i x. refl;
  write_back = λ st i x. refl;
  write-IsState = λ st i x j h h'. h;
}

read-write_lane : (st : Lanes) (i x : ℕ) → read_lane (write_lane st i x) i ≡ x
unfolding read_lane write_lane
read-write_lane st i x = ground arith

write_back_lane : (st : Lanes) (i x : ℕ) → write_lane (write_lane st i x) i (read_lane st i) ≡ st
unfolding read_lane write_lane
write_back_lane st i x = ground arith

write_lane-IsState :
    (st : Lanes) (i x j : ℕ)
    → IsState x
    → IsState (read_lane st j)
    → IsState (read_lane (write_lane st i x) j)
unfolding read_lane write_lane
write_lane-IsState st i x j h h' = ground arith

pub four_states_laws : StatesLaws four_states
four_states_laws = record {
  read-write = read-write_lane;
  write_back = write_back_lane;
  write-IsState = write_lane-IsState;
}

-- The decode table answers every slot of a symbol that occurs with that symbol.
pub record Decodes (table : List RansSymbol) (slots : List RansDecodeEntry) : Type 0 where
  pub coded : (s : ℕ) (sym : RansSymbol) → get_elem? table s ≡ some sym → 0 < sym.freq → IsCoded sym
  pub slot :
      (s : ℕ) (sym : RansSymbol) (i : ℕ)
      → s < 256
      → get_elem? table s ≡ some sym
      → sym.cum_freq ≤ i
      → i < sym.cum_freq + sym.freq
      → get_elem? slots i ≡ some (record { symbol = s; freq = sym.freq; cum_freq = sym.cum_freq })

abbrev pub Occurs : List RansSymbol → ℕ → Type 0
Occurs table s = (sym : RansSymbol) × (get_elem? table s ≡ some sym) × (0 < sym.freq) × (s < 256)

module _ {S : Type 0} (ops : States S) (laws : StatesLaws ops) where
  open ops use {read, write}

  abbrev pub AllStates : S → Type 0
  AllStates st = (j : ℕ) → IsState (read st j)

  -- What the encoder leaves after `syms`, and what the decoder makes of it.
  abbrev pub RoundTrip :
      List RansSymbol → List RansDecodeEntry → ℕ → List ℕ → S → S × List ℕ → Type 0
  RoundTrip table slots i syms init (st, stack) =
      (encode_loop ops table i syms init ≡ some (st, stack))
      × AllStates st
      × (decode_loop ops slots (length syms) i st stack ≡ some syms)
      × (length stack ≤ 2 * length syms)

  encode_symbol_coded :
      (i : ℕ) (sym : RansSymbol) (st : S) (stack : List ℕ)
      → 0 < sym.freq
      → encode_symbol ops i sym (st, stack) ≡ (
        write st i (put_symbol_fast (read st i) sym stack).0,
        (put_symbol_fast (read st i) sym stack).1,
      )
  unfolding encode_symbol
  encode_symbol_coded i sym st stack h = ground arith

  encode_symbol_step :
      (table : List RansSymbol) (slots : List RansDecodeEntry) (i s : ℕ) (syms : List ℕ) (init : S)
      (sym : RansSymbol) (st : S) (stack : List ℕ)
      → Decodes table slots
      → get_elem? table s ≡ some sym
      → 0 < sym.freq
      → s < 256
      → RoundTrip table slots (i + 1) syms init (st, stack)
      → RoundTrip table slots i (s ∷ syms) init (encode_symbol ops i sym (st, stack))
  unfolding encode_loop decode_loop get_symbol
  encode_symbol_step table slots i s syms init sym st stack d e pos byte (re, rs, rd, rl) =
      let entry : RansDecodeEntry = record {
        symbol = s;
        freq = sym.freq;
        cum_freq = sym.cum_freq;
      } in
      let step =
        advance-put (read st i) sym stack entry (rs i) (d.coded s sym e pos) (refl, refl) in
      let found = d.slot s sym _ byte e step.1 step.2 in
      let low : s % 2 ^ 8 ≡ s = omega arith in
      rw (encode_symbol_coded i sym st stack pos) (
        rw (e, re) (ap some (encode_symbol_coded i sym st stack pos)),
        λ j. laws.write-IsState st i _ j step.0 (rs j),
        rw (laws.read-write, found, step.3, laws.write_back, rd, low),
        omega (arith, step.4),
      )

  -- By induction on the symbols, for every table that fits and any states to begin with.
  pub decode-encode_loop :
      (table : List RansSymbol) (slots : List RansDecodeEntry) (i : ℕ) (syms : List ℕ) (init : S)
      → Decodes table slots
      → AllStates init
      → All (Occurs table) syms
      → (r : S × List ℕ) × RoundTrip table slots i syms init r
  unfolding encode_loop decode_loop
  decode-encode_loop table slots i [] init d h o = ((init, []), (refl, h, refl, omega arith))
  decode-encode_loop table slots i (s ∷ syms) init d h ((sym, e, pos, byte), o) =
      let (r, trip) = decode-encode_loop table slots (i + 1) syms init d h o in
      (
        encode_symbol ops i sym r,
        encode_symbol_step table slots i s syms init sym r.0 r.1 d e pos byte trip,
      )
