-- ===== src/TcpChannel/Header.antt =====
-- A header is read from any twelve bytes, and is what is written there.
use mathlib.Core.Path.{subst}
use omnidesk.Prelude.{
  ℕ, ◌+◌, ◌*◌, ◌/◌, ◌%◌, ◌^◌, ◌≤◌, ◌≡◌, refl, sym, ap, ◌∙◌, List, [], ◌∷◌, ◌++◌, some, arith,
  length, drop, All,
}
use omnidesk.Bytes.{IsByte, write_u16, write_u32, read_u16, read_u32}
use omnidesk.Wire.{ControlHeader, serialize_control, deserialize_control}

word :
    (a b c d : ℕ)
    → IsByte a
    → IsByte b
    → IsByte c
    → IsByte d
    → write_u32 (a * 2 ^ 24 + b * 2 ^ 16 + c * 2 ^ 8 + d) ≡ a ∷ b ∷ c ∷ d ∷ []
unfolding write_u32
word a b c d p q r s =
    let v : ℕ = a * 2 ^ 24 + b * 2 ^ 16 + c * 2 ^ 8 + d in
    let first : v / 2 ^ 24 % 256 ≡ a = omega arith in
    let second : v / 2 ^ 16 % 256 ≡ b = omega arith in
    let third : v / 2 ^ 8 % 256 ≡ c = omega arith in
    let fourth : v % 256 ≡ d = omega arith in rw (first, second, third, fourth) refl

half : (a b : ℕ) → IsByte a → IsByte b → write_u16 (a * 2 ^ 8 + b) ≡ a ∷ b ∷ []
unfolding write_u16
half a b p q =
    let first : (a * 2 ^ 8 + b) / 2 ^ 8 % 256 ≡ a = omega arith in
    let second : (a * 2 ^ 8 + b) % 256 ≡ b = omega arith in rw (first, second) refl

split4 :
    (xs : List ℕ)
    → 4 ≤ length xs
    → (a : ℕ) × (b : ℕ) × (c : ℕ) × (d : ℕ) × (rest : List ℕ) × (xs ≡ a ∷ b ∷ c ∷ d ∷ rest)
split4 [] h = absurd (omega arith)
split4 (a ∷ []) h = absurd (omega arith)
split4 (a ∷ b ∷ []) h = absurd (omega arith)
split4 (a ∷ b ∷ c ∷ []) h = absurd (omega arith)
split4 (a ∷ b ∷ c ∷ d ∷ rest) h = (a, b, c, d, rest, refl)

serialize_parts :
    (h : ControlHeader)
    → serialize_control h
      ≡ write_u32 h.magic ++ write_u16 h.version ++ write_u16 h.type ++ write_u32 h.length
unfolding serialize_control
serialize_parts h = refl

-- The header that a buffer of bytes starts with is read, and is what is written there.
abbrev pub Header : List ℕ → Type 0
Header xs =
    All IsByte xs
    → (h : ControlHeader) × (deserialize_control xs ≡ some h)
      × (serialize_control h ++ drop 12 xs ≡ xs)

Header-bytes :
    (a b c d e f g h i j k l : ℕ) (rest : List ℕ)
    → Header (a ∷ b ∷ c ∷ d ∷ e ∷ f ∷ g ∷ h ∷ i ∷ j ∷ k ∷ l ∷ rest)
unfolding deserialize_control read_u16 read_u32
Header-bytes a b c d e f g h i j k l rest
      (pa, (pb, (pc, (pd, (pe, (pf, (pg, (ph, (pi, (pj, (pk, (pl, _)))))))))))) =
    let hdr : ControlHeader = record {
      magic = a * 2 ^ 24 + b * 2 ^ 16 + c * 2 ^ 8 + d;
      version = e * 2 ^ 8 + f;
      type = g * 2 ^ 8 + h;
      length = i * 2 ^ 24 + j * 2 ^ 16 + k * 2 ^ 8 + l;
    } in
    let written : serialize_control hdr ≡ a ∷ b ∷ c ∷ d ∷ e ∷ f ∷ g ∷ h ∷ i ∷ j ∷ k ∷ l ∷ [] =
      serialize_parts hdr
      ∙ rw (word a b c d pa pb pc pd, half e f pe pf, half g h pg ph, word i j k l pi pj pk pl)
          refl in
    (hdr, refl, ap (λ (ws : List ℕ). ws ++ rest) written)

pub Header-read : (xs : List ℕ) → 12 ≤ length xs → Header xs
Header-read xs n =
    let (a, b, c, d, ys, e) = split4 xs (omega arith) in
    let (f, g, h, i, zs, e') = split4 ys (omega (arith, n, ap (λ (l : List ℕ). length l) e)) in
    let (j, k, l, m, rest, e'') =
      split4 zs
        (omega (arith, n, ap (λ (q : List ℕ). length q) e, ap (λ (q : List ℕ). length q) e')) in
    subst Header
      (sym (
        e
        ∙ ap (λ (q : List ℕ). a ∷ b ∷ c ∷ d ∷ q) (e' ∙ ap (λ (q : List ℕ). f ∷ g ∷ h ∷ i ∷ q) e'')))
      (Header-bytes a b c d f g h i j k l m rest)
