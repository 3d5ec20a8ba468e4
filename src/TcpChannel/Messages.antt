-- ===== src/TcpChannel/Messages.antt =====
-- Many calls of recv: the messages are the stream's, in its order.
use mathlib.Core.List.{append_assoc, append-nil}
use mathlib.Core.Path.{subst}
use omnidesk.Prelude.{
  ℕ, ◌-◌, ◌≡◌, refl, sym, ap, ◌∙◌, inl, inr, List, [], ◌∷◌, ◌++◌, Option, none, some, Bool, true,
  false, ltb, not, if◌then◌else◌, length, All, All-append, All-right,
}
use omnidesk.Bytes.{IsByte, ◌>>=◌, bind-some}
use omnidesk.TcpChannel.{
  RawRecv, bytes, again, failed, closed, RecvResult, ok, would_block, disconnected, sock_error,
  TcpChannel, frame, extract, received, recv,
}
use omnidesk.TcpChannel.Stream.{extract-Extracted, Extracted}

-- The bytes that a read adds.
abbrev pub added : RawRecv → List ℕ
added (bytes c) = c
added again = []
added failed = []
added closed = []

abbrev pub GivesBytes : (ℕ → RawRecv) → Type 0
GivesBytes raw = (n : ℕ) → All IsByte (added (raw n))

-- The bytes that a call of recv reads from the socket.
abbrev pub arrived : (ℕ → RawRecv) → TcpChannel → List ℕ
arrived raw ch =
    if not ch.is_open
    then []
    else if ltb (length ch.buf) ch.capacity
    then added (raw (ch.capacity - length ch.buf))
    else []

-- A call loses no byte: what was there and what arrived is a message given and what is left, or is
-- all left.
abbrev pub Kept : List ℕ → RecvResult × TcpChannel → Type 0
Kept stream (ok type payload, ch') = frame type payload ++ ch'.buf ≡ stream
Kept stream (would_block, ch') = ch'.buf ≡ stream
Kept stream (disconnected, ch') = Unit {0}
Kept stream (sock_error, ch') = Unit {0}

Extracted-Kept :
    (buf : List ℕ) (ch : TcpChannel) (x : RecvResult × TcpChannel) → Extracted buf ch x → Kept buf x
Extracted-Kept buf ch (ok t p, ch') (inl (r, _, _)) = cc
Extracted-Kept buf ch (would_block, ch') (inl (r, k, _)) = k
Extracted-Kept buf ch (disconnected, ch') _ = tt
Extracted-Kept buf ch (sock_error, ch') _ = tt
Extracted-Kept buf ch (ok t p, ch') (inr (inl (r, _))) = cc
Extracted-Kept buf ch (would_block, ch') (inr (inl (r, _))) = cc
Extracted-Kept buf ch (ok t p, ch') (inr (inr (type, payload, r, k))) =
    let a : t ≡ type = cc in let b : p ≡ payload = cc in rw (a, b) k
Extracted-Kept buf ch (would_block, ch') (inr (inr (type, payload, r, k))) = cc

extract-Kept : (ch : TcpChannel) → All IsByte (ch.buf ++ []) → Kept (ch.buf ++ []) (extract ch)
extract-Kept ch b =
    subst (λ (xs : List ℕ). Kept xs (extract ch)) (sym (append-nil ch.buf))
      (Extracted-Kept ch.buf ch (extract ch)
        (extract-Extracted ch (subst (λ (xs : List ℕ). All IsByte xs) (append-nil ch.buf) b)))

received-Kept :
    (r : RawRecv) (ch : TcpChannel)
    → All IsByte (ch.buf ++ added r)
    → Kept (ch.buf ++ added r) (received r ch)
unfolding received
received-Kept (bytes c) ch b =
    Extracted-Kept (ch.buf ++ c) (record ch { buf = ch.buf ++ c })
      (extract (record ch { buf = ch.buf ++ c }))
      (extract-Extracted (record ch { buf = ch.buf ++ c }) b)
received-Kept again ch b = extract-Kept ch b
received-Kept failed ch b = tt
received-Kept closed ch b = tt

recv-Kept :
    (raw : ℕ → RawRecv) (ch : TcpChannel)
    → All IsByte (ch.buf ++ arrived raw ch)
    → Kept (ch.buf ++ arrived raw ch) (recv raw ch)
unfolding recv
recv-Kept raw ch b = go ch.is_open (ltb (length ch.buf) ch.capacity) b
  where
    go :
        (is_open room : Bool)
        → All IsByte (
            ch.buf
            ++ (if not is_open
                then []
                else if room
                then added (raw (ch.capacity - length ch.buf))
                else []))
        → Kept
            (ch.buf
              ++ (if not is_open
                  then []
                  else if room
                  then added (raw (ch.capacity - length ch.buf))
                  else []))
            (if not is_open
              then (sock_error, ch)
              else if room
              then received (raw (ch.capacity - length ch.buf)) ch
              else extract ch)
    go false room b = tt
    go true true b = received-Kept (raw (ch.capacity - length ch.buf)) ch b
    go true false b = extract-Kept ch b

abbrev message_of : RecvResult → Option (List (ℕ × List ℕ))
message_of (ok type payload) = some ((type, payload) ∷ [])
message_of would_block = some []
message_of disconnected = none
message_of sock_error = none

-- Calls of recv, one for each read, as long as none fails: the messages, all that arrived, and the
-- channel after them.
unfoldable pub recv_all :
    List (ℕ → RawRecv) → TcpChannel → Option (List (ℕ × List ℕ) × List ℕ × TcpChannel)
recv_all [] ch = some ([], [], ch)
recv_all (raw ∷ raws) ch = do
  given ← message_of (recv raw ch).0
  (messages, stream, ch') ← recv_all raws (recv raw ch).1
  some (given ++ messages, arrived raw ch ++ stream, ch')

-- What the messages are on the stream.
unfoldable pub frames : List (ℕ × List ℕ) → List ℕ
unfolding frame
frames [] = []
frames ((type, payload) ∷ ms) = frame type payload ++ frames ms

arrived-IsByte :
    (raw : ℕ → RawRecv) (ch : TcpChannel) → GivesBytes raw → All IsByte (arrived raw ch)
arrived-IsByte raw ch g = go ch.is_open (ltb (length ch.buf) ch.capacity)
  where
    go :
        (is_open room : Bool)
        → All IsByte (
            if not is_open
            then []
            else if room
            then added (raw (ch.capacity - length ch.buf))
            else [])
    go false room = tt
    go true true = g (ch.capacity - length ch.buf)
    go true false = tt

frames-append : (ms ns : List (ℕ × List ℕ)) → frames (ms ++ ns) ≡ frames ms ++ frames ns
unfolding frames
frames-append [] ns = refl
frames-append ((t, p) ∷ ms) ns =
    ap (λ (xs : List ℕ). frame t p ++ xs) (frames-append ms ns)
    ∙ sym (append_assoc (frame t p) (frames ms) (frames ns))

step-frames :
    (x : RecvResult × TcpChannel) (stream : List ℕ) (given : List (ℕ × List ℕ))
    → Kept stream x
    → message_of x.0 ≡ some given
    → frames given ++ x.1.buf ≡ stream
unfolding frames
step-frames (ok t p, ch) stream given k e =
    let same : given ≡ (t, p) ∷ [] = cc in rw (same, append-nil (frame t p)) k
step-frames (would_block, ch) stream given k e = let same : given ≡ [] = cc in rw same k
step-frames (disconnected, ch) stream given k e = cc
step-frames (sock_error, ch) stream given k e = cc

-- However the bytes arrive, as long as no call fails: the messages given, in order, and the bytes
-- still in the buffer are exactly the bytes that were there and those that arrived.
pub recv_all-frames :
    (raws : List (ℕ → RawRecv)) (ch ch' : TcpChannel) (messages : List (ℕ × List ℕ))
    (stream : List ℕ)
    → All GivesBytes raws
    → All IsByte ch.buf
    → recv_all raws ch ≡ some (messages, stream, ch')
    → frames messages ++ ch'.buf ≡ ch.buf ++ stream
unfolding recv_all frames
recv_all-frames [] ch ch' messages stream byte b e =
    let m : messages ≡ [] = cc in
    let n : stream ≡ [] = cc in let c : ch' ≡ ch = cc in rw (m, n, c, append-nil ch.buf) refl
recv_all-frames (raw ∷ raws) ch ch' messages stream byte b e =
    let (given, g, e1) = bind-some (message_of (recv raw ch).0) _ e in
    let (rest, r, e2) = bind-some (recv_all raws (recv raw ch).1) _ e1 in
    let m : messages ≡ given ++ rest.0 = cc in
    let n : stream ≡ arrived raw ch ++ rest.1 = cc in
    let c : ch' ≡ rest.2 = cc in
    let all_bytes = All-append IsByte ch.buf (arrived raw ch) b (arrived-IsByte raw ch byte.0) in
    let step =
      step-frames (recv raw ch) (ch.buf ++ arrived raw ch) given (recv-Kept raw ch all_bytes) g in
    let left =
      All-right IsByte (frames given) (recv raw ch).1.buf
        (subst (λ (xs : List ℕ). All IsByte xs) (sym step) all_bytes) in
    let later = recv_all-frames raws (recv raw ch).1 rest.2 rest.0 rest.1 byte.1 left r in
    rw (m, n, c)
      (ap (λ (xs : List ℕ). xs ++ rest.2.buf) (frames-append given rest.0)
        ∙ append_assoc (frames given) (frames rest.0) rest.2.buf
        ∙ ap (λ (xs : List ℕ). frames given ++ xs) later
        ∙ sym (append_assoc (frames given) (recv raw ch).1.buf rest.1)
        ∙ ap (λ (xs : List ℕ). xs ++ rest.1) step
        ∙ append_assoc ch.buf (arrived raw ch) rest.1)
