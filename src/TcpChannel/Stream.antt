-- ===== src/TcpChannel/Stream.antt =====
-- However the stream is cut into pieces, its messages come out whole and in order.

use mathlib.Core.List.{append_assoc}
use omnidesk.Prelude.{
  ℕ, ◌+◌, ◌≤◌, ◌<◌, ◌≡◌, refl, ap, ◌∙◌, ◌⊎◌, inl, inr, List, [], ◌∷◌, ◌++◌, some, true, false,
  Bool-cases, arith, ltb, length, length-append, length-take, length-drop, take-append-drop, take,
  drop, All,
}
use omnidesk.Bytes.{IsByte, IsU16, IsU32, write_u16, write_u32}
use omnidesk.Wire.{
  ControlHeader, protocol_magic, protocol_version, serialize_control, deserialize_control, valid,
}
use omnidesk.TcpChannel.Header.{Header-read}
use omnidesk.Wire.RoundTrip.{deserialize_control-serialize}
use omnidesk.TcpChannel.{RecvResult, ok, would_block, sock_error, TcpChannel, frame, extract}

take_all {ℓ} : {A : Type ℓ} (xs ys : List A) → take (length xs) (xs ++ ys) ≡ xs
take_all [] ys = refl
take_all (x ∷ xs) ys = ap (λ zs. x ∷ zs) (take_all xs ys)

drop_all {ℓ} : {A : Type ℓ} (xs ys : List A) → drop (length xs) (xs ++ ys) ≡ ys
drop_all [] ys = refl
drop_all (x ∷ xs) ys = drop_all xs ys

abbrev header : ℕ → List ℕ → ControlHeader
header type payload = record {
  magic = protocol_magic;
  version = protocol_version;
  type = type;
  length = length payload;
}

after_header :
    (h : ControlHeader) (xs : List ℕ)
    → (drop 12 (serialize_control h ++ xs) ≡ xs)
      × (length (serialize_control h ++ xs) ≡ 12 + length xs)
unfolding serialize_control write_u16 write_u32
after_header h xs = (refl, omega arith)

extract_ok :
    (ch : TcpChannel) (hdr : ControlHeader)
    → ltb (length ch.buf) 12 ≡ false
    → deserialize_control ch.buf ≡ some hdr
    → valid hdr ≡ true
    → ltb (length ch.buf) (12 + hdr.length) ≡ false
    → extract ch ≡ (
      ok hdr.type (take hdr.length (drop 12 ch.buf)),
      record ch { buf = drop hdr.length (drop 12 ch.buf) },
    )
unfolding extract
extract_ok ch hdr enough d v whole = rw (extract, enough, d, v, whole) refl

-- A buffer that starts with a whole message gives it, and keeps what follows it.
pub extract-frame :
    (ch : TcpChannel) (type : ℕ) (payload rest : List ℕ)
    → IsU16 type
    → IsU32 (length payload)
    → ch.buf ≡ frame type payload ++ rest
    → extract ch ≡ (ok type payload, record ch { buf = rest })
unfolding frame valid
extract-frame ch type payload rest t n e =
    let h : ControlHeader = header type payload in
    let split : ch.buf ≡ serialize_control h ++ (payload ++ rest) =
      e ∙ append_assoc (serialize_control h) payload rest in
    let body = after_header h (payload ++ rest) in
    let long : length ch.buf ≡ 12 + (length payload + length rest) =
      ap (λ (xs : List ℕ). length xs) split
      ∙ body.1
      ∙ ap (λ (i : ℕ). 12 + i) (length-append payload rest) in
    let after : drop 12 ch.buf ≡ payload ++ rest =
      ap (λ (xs : List ℕ). drop 12 xs) split ∙ body.0 in
    extract_ok ch h (ground (arith, long))
      (ap deserialize_control split
        ∙ deserialize_control-serialize h (payload ++ rest)
            (record { magic = omega arith; version = omega arith; type = t; length = n }))
      refl (ground (arith, long))
    ∙ rw (after, take_all payload rest, drop_all payload rest) refl

-- What a call leaves: it waits, with all bytes kept and room for more; it refuses the header; or it
-- gives a message, and the buffer is that message's bytes followed by what is left.
abbrev pub Extracted : List ℕ → TcpChannel → RecvResult × TcpChannel → Type 0
Extracted buf ch (r, ch') =
    ((r ≡ would_block) × (ch'.buf ≡ buf) × (12 ≤ ch.capacity → length buf < ch'.capacity))
    ⊎ ((r ≡ sock_error) × (ch'.buf ≡ buf))
    ⊎ ((type : ℕ) × (payload : List ℕ) × (r ≡ ok type payload)
        × (frame type payload ++ ch'.buf ≡ buf))

frame_parts :
    (h : ControlHeader) (xs : List ℕ)
    → valid h ≡ true
    → h.length ≤ length xs
    → frame h.type (take h.length xs) ++ drop h.length xs ≡ serialize_control h ++ xs
unfolding frame valid
frame_parts h xs v n =
    let counted : length (take h.length xs) ≡ h.length = omega (arith, length-take h.length xs) in
    let magic : h.magic ≡ protocol_magic = ground (arith, v) in
    let version : h.version ≡ protocol_version = ground (arith, v) in
    let same : header h.type (take h.length xs) ≡ h = rw (counted, magic, version) refl in
    append_assoc (serialize_control (header h.type (take h.length xs))) (take h.length xs)
      (drop h.length xs)
    ∙ ap (λ (zs : List ℕ). serialize_control (header h.type (take h.length xs)) ++ zs)
        (take-append-drop h.length xs)
    ∙ ap (λ (k : ControlHeader). serialize_control k ++ xs) same

extract-valid :
    (ch : TcpChannel) (h : ControlHeader)
    → ltb (length ch.buf) 12 ≡ false
    → deserialize_control ch.buf ≡ some h
    → serialize_control h ++ drop 12 ch.buf ≡ ch.buf
    → valid h ≡ true
    → Extracted ch.buf ch (extract ch)
unfolding extract
extract-valid ch h enough d e good = elim (Bool-cases (ltb (length ch.buf) (12 + h.length))) [
  | inl part ↦ inl (rw (extract, enough, d, good, part) (refl, refl, λ c. ground (arith, part)))
  | inr whole ↦ inr (
      inr (
        rw (extract_ok ch h enough d good whole) (
          h.type,
          take h.length (drop 12 ch.buf),
          refl,
          frame_parts h (drop 12 ch.buf) good (ground (arith, length-drop 12 ch.buf, whole)) ∙ e,
        )))
]

-- A call on a buffer of bytes loses none, gives only whole messages, and never waits with a full
-- buffer.
pub extract-Extracted : (ch : TcpChannel) → All IsByte ch.buf → Extracted ch.buf ch (extract ch)
unfolding extract
extract-Extracted ch b = elim (Bool-cases (ltb (length ch.buf) 12)) [
  | inl short ↦ inl (rw (extract, short) (refl, refl, λ c. ground (arith, short)))
  | inr enough ↦
      let (h, d, e) = Header-read ch.buf (ground (arith, enough)) b in
      elim (Bool-cases (valid h)) [
        | inl good ↦ extract-valid ch h enough d e good
        | inr bad ↦ inr (inl (rw (extract, enough, d, bad) (refl, refl)))
      ]
]
