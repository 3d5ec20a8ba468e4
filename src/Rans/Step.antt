-- ===== src/Rans/Step.antt =====
-- One symbol: putSymbolFast of the encoder and advance of the decoder, which undoes it.
use native.Mathlib.Nat.{
  div-add-mod, div-add-mod', mod-lt, mul-le-mul_left, mul-le-mul_right, le-pred_of_lt,
  le-div_iff_mul-le, div-lt_iff_lt-mul, div-eq_of_lt-le,
}
use omnidesk.Prelude.{
  ℕ, zero, suc, ◌+◌, ◌-◌, ◌*◌, ◌/◌, ◌%◌, ◌^◌, ◌≤◌, ◌<◌, ◌≡◌, refl, ap, ◌∙◌, List, [], ◌∷◌, some,
  arith, length, leb, if◌then◌else◌,
}
use omnidesk.Rans.Freq.{RansSymbol, rans_scale, rans_l, reciprocal}
use omnidesk.Rans.Table.{RansDecodeEntry}
use omnidesk.Rans.{renormalize, code_symbol, put_symbol_fast, refill, advance}

-- A state between two symbols: [RANS_L, RANS_L << 8).
abbrev pub IsState : ℕ → Type 0
IsState s = (rans_l ≤ s) × (s < 2 ^ 31)

-- A table entry of a symbol that occurs.
pub record IsCoded (sym : RansSymbol) : Type 0 where
  pub occurs : 0 < sym.freq
  pub fits : sym.cum_freq + sym.freq ≤ 2 ^ 12
  pub inverse : sym.rcp_freq ≡ reciprocal sym.freq

pub refill_done : (s : ℕ) (bs : List ℕ) → rans_l ≤ s → refill s bs ≡ some (s, bs)
unfolding refill
refill_done s [] h = ground arith
refill_done s (b ∷ bs) h = ground arith

refill_shifted :
    (s : ℕ) (stack : List ℕ) → s < 2 ^ 31 → refill (s / 2 ^ 8) ((s % 256) ∷ stack) ≡ refill s stack
refill_shifted s stack h =
    let back : s / 2 ^ 8 * 2 ^ 8 + s % 256 ≡ s = omega arith in
    unfold refill in ground (arith, ap (λ (k : ℕ). refill k stack) back)

-- Reading back restores a state that renormalization has shifted out.
refill-renormalize :
    (fuel s x_max : ℕ) (stack : List ℕ)
    → s < 2 ^ 31
    → refill (renormalize fuel s x_max stack).0 (renormalize fuel s x_max stack).1 ≡ refill s stack
unfolding renormalize
refill-renormalize zero s x_max stack h = refl
refill-renormalize (suc fuel) s x_max stack h =
    ground (
      arith,
      refill-renormalize fuel (s / 2 ^ 8) x_max ((s % 256) ∷ stack),
      refill_shifted s stack h,
    )

renormalize_bounds :
    (s f : ℕ) (stack : List ℕ)
    → IsState s
    → 0 < f
    → f ≤ 2 ^ 12
    → (2 ^ 11 * f ≤ (renormalize 4 s (2 ^ 19 * f) stack).0)
      × ((renormalize 4 s (2 ^ 19 * f) stack).0 < 2 ^ 19 * f)
      × (length (renormalize 4 s (2 ^ 19 * f) stack).1 ≤ length stack + 2)
unfolding renormalize
renormalize_bounds s f stack h p q = ground arith

-- The quotient by the reciprocal is exact or one too small.
reciprocal_bounds : (f : ℕ) → 0 < f → (reciprocal f * f ≤ 2 ^ 32) × (2 ^ 32 ≤ reciprocal f * f + f)
unfolding reciprocal
reciprocal_bounds f h = grind (arith, div-add-mod (2 ^ 32) f, mod-lt (2 ^ 32) {m = f} h)

reciprocal_quotient :
    (x f R : ℕ)
    → x < 2 ^ 31
    → 0 < f
    → R * f ≤ 2 ^ 32
    → 2 ^ 32 ≤ R * f + f
    → (x * R / 2 ^ 32 * f ≤ x) × (x < x * R / 2 ^ 32 * f + 2 * f)
reciprocal_quotient x f R h k p q =
    let q0 : ℕ = x * R / 2 ^ 32 in
    let lower : q0 * 2 ^ 32 ≤ x * R = omega arith in
    let upper : x * R ≤ q0 * 2 ^ 32 + 2 ^ 32 = omega arith in
    omega (
      arith,
      mul-le-mul_right f lower,
      mul-le-mul_right f upper,
      mul-le-mul_left x p,
      mul-le-mul_left x q,
      mul-le-mul_right f (le-pred_of_lt h),
    )

-- What a coded symbol does to a renormalized state.
put_state : (x : ℕ) (sym : RansSymbol) → ℕ
put_state x sym = x / sym.freq * 2 ^ 12 + x % sym.freq + sym.cum_freq

div_mod_unique : (x f q r : ℕ) → r < f → x ≡ q * f + r → (x / f ≡ q) × (x % f ≡ r)
div_mod_unique x f q r h e =
    let quotient : x / f ≡ q = div-eq_of_lt-le f (omega arith) (omega arith) in
    (quotient, omega (arith, div-add-mod' x f, ap (λ (k : ℕ). k * f) quotient))

corrected :
    (x f cum q : ℕ)
    → 0 < f
    → cum + f ≤ 2 ^ 12
    → x < 2 ^ 31
    → x < 2 ^ 19 * f
    → q * f ≤ x
    → x < q * f + 2 * f
    → let r : ℕ = (x + 2 ^ 32 - q % 2 ^ 32 * f % 2 ^ 32) % 2 ^ 32 in
      ((if leb f r then (q % 2 ^ 32 + 1) % 2 ^ 32 else q % 2 ^ 32) * 2 ^ 12 % 2 ^ 32
          + (if leb f r then r - f else r)
          + cum)
        % 2 ^ 32
      ≡ x / f * 2 ^ 12 + x % f + cum
corrected x f cum q h fits hx hxf lo hi =
    let small : q ≤ q * f = grind arith in
    let quotient : q < 2 ^ 19 = grind arith in
    let word : q % 2 ^ 32 ≡ q = omega arith in
    let remainder : (x + 2 ^ 32 - q * f % 2 ^ 32) % 2 ^ 32 ≡ x - q * f = omega arith in
    rw (word, remainder)
      (ground (arith, div_mod_unique x f (q + 1) (x - q * f - f), div_mod_unique x f q (x - q * f)))

-- Multiplying by the reciprocal is dividing.
code_symbol_lem :
    (x : ℕ) (sym : RansSymbol)
    → IsCoded sym
    → x < 2 ^ 31
    → x < 2 ^ 19 * sym.freq
    → code_symbol x sym ≡ put_state x sym
unfolding code_symbol put_state
code_symbol_lem x sym c h h' =
    let r = reciprocal_bounds sym.freq c.occurs in
    let q = reciprocal_quotient x sym.freq (reciprocal sym.freq) h c.occurs r.0 r.1 in
    rw c.inverse (
      corrected x sym.freq sym.cum_freq (x * reciprocal sym.freq / 2 ^ 32) c.occurs c.fits h h' q.0
        q.1)

-- The parts of a coded state: the decoder finds the slot below and the quotient above.
put_state_parts :
    (x : ℕ) (sym : RansSymbol)
    → IsCoded sym
    → 2 ^ 11 * sym.freq ≤ x
    → x < 2 ^ 19 * sym.freq
    → IsState (put_state x sym)
      × (put_state x sym / 2 ^ 12 ≡ x / sym.freq)
      × (put_state x sym % 2 ^ 12 ≡ x % sym.freq + sym.cum_freq)
unfolding put_state
put_state_parts x sym c lo hi =
    let r : x % sym.freq < sym.freq = mod-lt x {m = sym.freq} c.occurs in
    let whole = div-add-mod x sym.freq in
    let below : 2 ^ 11 ≤ x / sym.freq = (le-div_iff_mul-le c.occurs).1 lo in
    let above : x / sym.freq < 2 ^ 19 = (div-lt_iff_lt-mul c.occurs).1 hi in omega (arith, c.fits)

-- The state before renormalization, as the decoder computes it.
advance_state :
    (x y f cum : ℕ)
    → 0 < f
    → x < 2 ^ 31
    → cum ≤ 2 ^ 12
    → y / 2 ^ 12 ≡ x / f
    → y % 2 ^ 12 ≡ x % f + cum
    → (f * (y / 2 ^ 12) % 2 ^ 32 + y % 2 ^ 12 + 2 ^ 32 - cum) % 2 ^ 32 ≡ x
advance_state x y f cum h hx hc e e' =
    rw (e, e') (omega (arith, div-add-mod x f, mod-lt x {m = f} h))

abbrev pub Agrees : RansDecodeEntry → RansSymbol → Type 0
Agrees entry sym = (entry.freq ≡ sym.freq) × (entry.cum_freq ≡ sym.cum_freq)

-- Decoding one symbol gives the state and the stream from before it was encoded, out of a state in
-- the same range whose slot is the symbol's; at most two bytes were pushed.
pub advance-put :
    (s : ℕ) (sym : RansSymbol) (stack : List ℕ) (entry : RansDecodeEntry)
    → IsState s
    → IsCoded sym
    → Agrees entry sym
    → IsState (put_symbol_fast s sym stack).0
      × (sym.cum_freq ≤ (put_symbol_fast s sym stack).0 % rans_scale)
      × ((put_symbol_fast s sym stack).0 % rans_scale < sym.cum_freq + sym.freq)
      × (advance (put_symbol_fast s sym stack).0 entry (put_symbol_fast s sym stack).1
          ≡ some (s, stack))
      × (length (put_symbol_fast s sym stack).1 ≤ length stack + 2)
unfolding put_symbol_fast advance
advance-put s sym stack entry h c a =
    let x_max : 2 ^ 19 * sym.freq % 2 ^ 32 ≡ 2 ^ 19 * sym.freq = omega (arith, c.fits) in
    let b = renormalize_bounds s sym.freq stack h c.occurs (omega (arith, c.fits)) in
    let x : ℕ = (renormalize 4 s (2 ^ 19 * sym.freq) stack).0 in
    let small : x < 2 ^ 31 = omega (arith, c.fits, b.1) in
    let parts = put_state_parts x sym c b.0 b.1 in
    let back =
      advance_state x (put_state x sym) sym.freq sym.cum_freq c.occurs small (omega (arith, c.fits))
        parts.1 parts.2 in
    let r : x % sym.freq < sym.freq = mod-lt x {m = sym.freq} c.occurs in
    rw (x_max, code_symbol_lem x sym c small b.1, a.0, a.1, back)
      (
        parts.0,
        omega (arith, parts.2),
        omega (arith, parts.2),
        refill-renormalize 4 s (2 ^ 19 * sym.freq) stack h.1 ∙ refill_done s stack h.0,
        b.2,
      )
