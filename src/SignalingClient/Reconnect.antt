-- ===== src/SignalingClient/Reconnect.antt =====
-- The ports that are tried, and the success of a reconnection.
use mathlib.Core.Path.{subst}
use omnidesk.Prelude.{
  ℕ, zero, suc, ◌≤◌, ◌<◌, ◌≡◌, ◌≢◌, refl, sym, ap, ◌∙◌, ◌⊎◌, inl, inr, List, [], ◌∷◌, ◌++◌, none,
  some, Bool, true, false, ◌==◌, ◌||◌, ◌&&◌, if◌then◌else◌, arith, length, Bool-cases, Option-cases,
  ℕ_discrete,
}
use omnidesk.SignalingClient.State.{SignalingClient, send_json, register_message}
use omnidesk.SignalingClient.Ports.{
  try_ports, has_port, with_port, first_ports, add_ports, reconnect_ports, max_reconnect_attempts,
  reopened, reconnect_loop, try_reconnect,
}

-- No port stands in the list twice.
abbrev pub Distinct : List ℕ → Type 0
Distinct [] = Unit
Distinct (p ∷ ps) = (has_port p ps ≡ false) × Distinct ps

has_port-append : (p : ℕ) (xs ys : List ℕ) → has_port p (xs ++ ys) ≡ has_port p xs || has_port p ys
unfolding has_port
has_port-append p [] ys = refl
has_port-append p (x ∷ xs) ys = ground (arith, has_port-append p xs ys)

Distinct-snoc :
    (p : ℕ) (xs : List ℕ) → Distinct xs → has_port p xs ≡ false → Distinct (xs ++ (p ∷ []))
unfolding has_port
Distinct-snoc p [] d h = (refl, tt)
Distinct-snoc p (x ∷ xs) (e, d) h =
    let differs : (x == p) ≡ false = ground (arith, h) in
    let rest : has_port p xs ≡ false = ground (arith, h) in
    let last : has_port x (p ∷ []) ≡ false = ground (arith, differs) in
    (has_port-append x xs (p ∷ []) ∙ rw (e, last) refl, Distinct-snoc p xs d rest)

if-Distinct :
    (b : Bool) (xs ys : List ℕ)
    → (b ≡ true → Distinct xs)
    → (b ≡ false → Distinct ys)
    → Distinct (if b then xs else ys)
if-Distinct true xs ys f g = f refl
if-Distinct false xs ys f g = g refl

add_ports-Distinct : (xs ps : List ℕ) → Distinct xs → Distinct (add_ports xs ps)
unfolding add_ports
add_ports-Distinct xs [] d = d
add_ports-Distinct xs (p ∷ ps) d =
    add_ports-Distinct (with_port xs p) ps
      (if-Distinct (has_port p xs) xs (xs ++ (p ∷ [])) (λ e. d) (λ e. Distinct-snoc p xs d e))

-- A list of ports keeps its ports, and takes in the new ones.
keeps :
    (q p : ℕ) (xs : List ℕ) → (has_port q xs ≡ true) ⊎ (p ≡ q) → has_port q (with_port xs p) ≡ true
unfolding has_port
keeps q p xs h = ground (arith, has_port-append q xs (p ∷ []), h)

add_ports_lem :
    (q : ℕ) (xs ps : List ℕ)
    → (has_port q xs ≡ true) ⊎ (has_port q ps ≡ true)
    → has_port q (add_ports xs ps) ≡ true
unfolding add_ports has_port
add_ports_lem q xs [] (inl e) = e
add_ports_lem q xs [] (inr e) = cc
add_ports_lem q xs (p ∷ ps) (inl e) =
    add_ports_lem q (with_port xs p) ps (inl (keeps q p xs (inl e)))
add_ports_lem q xs (p ∷ ps) (inr e) = elim (ℕ_discrete p q) [
  | yes same ↦ add_ports_lem q (with_port xs p) ps (inl (keeps q p xs (inr same)))
  | no other ↦ add_ports_lem q (with_port xs p) ps (inr (ground (arith, e, other)))
]

first_ports_lem :
    (a b : ℕ) → Distinct (first_ports a b) × (b ≢ 0 → has_port b (first_ports a b) ≡ true)
unfolding has_port
first_ports_lem a b = elim (Bool-cases (a == 0)) [
  | inl e ↦ elim (Bool-cases (b == a)) [
    | inl f ↦ rw (e, f) (tt, λ h. absurd (ground (arith, e, f, h)))
    | inr f ↦ rw (e, f) ((refl, tt), λ h. ground arith)
  ]
  | inr e ↦ elim (Bool-cases (b == a)) [
    | inl f ↦ rw (e, f) ((refl, tt), λ h. ground (arith, f))
    | inr f ↦ rw (e, f) ((ground (arith, f), (refl, tt)), λ h. ground arith)
  ]
]

-- Every configured port other than 0, the server's and the fallback ones, is tried, and no port is
-- tried twice in an attempt.
pub reconnect_ports_lem :
    (c : SignalingClient)
    → Distinct (reconnect_ports c)
      × ((q : ℕ)
          → q ≢ 0
          → has_port q (c.server_port ∷ c.fallback_ports) ≡ true
          → has_port q (reconnect_ports c) ≡ true)
unfolding reconnect_ports has_port
reconnect_ports_lem c =
    let (once, first) = first_ports_lem c.connected_port c.server_port in
    (
      add_ports-Distinct (first_ports c.connected_port c.server_port) c.fallback_ports once,
      λ q nonzero h.
          add_ports_lem q (first_ports c.connected_port c.server_port) c.fallback_ports
            (elim (ℕ_discrete c.server_port q) [
              | yes same ↦ inl (
                  subst (λ (k : ℕ). has_port k (first_ports c.connected_port c.server_port) ≡ true)
                    same (first (λ z. nonzero (sym same ∙ z))))
              | no other ↦ inr (ground (arith, h, other))
            ]),
    )

-- A port that the socket takes is found.
try_ports-found :
    (socket : ℕ → Bool) (q : ℕ) (ps : List ℕ)
    → has_port q ps ≡ true
    → socket q ≡ true
    → (p : ℕ) × (try_ports socket ps ≡ some p)
unfolding try_ports has_port
try_ports-found socket q [] h s = cc
try_ports-found socket q (p ∷ ps) h s = elim (Bool-cases (socket p)) [
  | inl e ↦ (p, rw e refl)
  | inr e ↦ elim (ℕ_discrete p q) [
    | yes same ↦ absurd (ground (arith, e, s, ap socket same))
    | no other ↦
        let (r, found) = try_ports-found socket q ps (ground (arith, h, other)) s in
        (r, rw (e, found) refl)
  ]
]

-- Connected again. The registration is sent if the id has eight characters and sending works: `sends`
-- is the result of TcpChannel::send.
abbrev pub Reconnected : Bool → SignalingClient → Bool × SignalingClient → Type 0
Reconnected sends c (done, c') =
    (done ≡ true)
    × (c'.connected ≡ true)
    × (c'.channel_open ≡ true)
    × (c'.sent ≡ (
        if sends && length c.user_id == 8
        then c.sent ++ (register_message c.user_id c.local_addr ∷ [])
        else c.sent))

reopened_lem :
    (sends : Bool) (now p : ℕ) (c : SignalingClient)
    → Reconnected sends c (true, reopened sends now p c)
unfolding reopened send_json
reopened_lem true now p c = elim (Bool-cases (length c.user_id == 8)) [
  | inl e ↦ rw e (refl, refl, refl, refl)
  | inr e ↦ rw e (refl, refl, refl, refl)
]
reopened_lem false now p c = elim (Bool-cases (length c.user_id == 8)) [
  | inl e ↦ rw e (refl, refl, refl, refl)
  | inr e ↦ rw e (refl, refl, refl, refl)
]

some-none : (p : ℕ) → some p ≡ none → ⊥
some-none p e = cc

-- An attempt that finds no port is not the one that would.
earlier :
    (socket : ℕ → ℕ → Bool) (ports : List ℕ) (q m n : ℕ)
    → has_port q ports ≡ true
    → socket n q ≡ true
    → try_ports (socket m) ports ≡ none
    → n < suc m
    → n < m
earlier socket ports q m n i s e h = elim (ℕ_discrete n m) [
  | yes same ↦
      let (p, found) =
        try_ports-found (socket m) q ports i (subst (λ (k : ℕ). socket k q ≡ true) same s) in
      absurd (some-none p (sym found ∙ e))
  | no other ↦ omega arith
]

loop-Reconnected :
    (socket : ℕ → ℕ → Bool) (stopped : ℕ → Bool) (sends : Bool) (now m n q : ℕ) (ports : List ℕ)
    (c : SignalingClient)
    → n < m
    → has_port q ports ≡ true
    → socket n q ≡ true
    → ((k : ℕ) → n ≤ k → k < m → stopped k ≡ false)
    → Reconnected sends c (reconnect_loop socket stopped sends now m ports c)
unfolding reconnect_loop
loop-Reconnected socket stopped sends now zero n q ports c h i s g = absurd (omega arith)
loop-Reconnected socket stopped sends now (suc m) n q ports c h i s g =
    let going : stopped m ≡ false = g m (omega arith) (omega arith) in
    elim (Option-cases (try_ports (socket m) ports)) [
      | inr (p, e) ↦ rw (going, e) (reopened_lem sends now p (record c { channel_open = false }))
      | inl e ↦
          rw (going, e)
            (loop-Reconnected socket stopped sends now m n q ports
              (record c { channel_open = false }) (earlier socket ports q m n i s e h) i s
              (λ k a b. g k a (omega arith)))
    ]

-- If in one of the ten attempts the socket takes a configured port other than 0, and the client is
-- not stopped up to then, tryReconnect succeeds: the client is connected over an open channel. It has
-- sent the registration of its id if that has eight characters and the channel sends, and nothing
-- otherwise; the result does not tell which.
pub try_reconnect-Reconnected :
    (socket : ℕ → ℕ → Bool) (stopped : ℕ → Bool) (sends : Bool) (now n q : ℕ) (c : SignalingClient)
    → n < max_reconnect_attempts
    → q ≢ 0
    → has_port q (c.server_port ∷ c.fallback_ports) ≡ true
    → socket n q ≡ true
    → ((k : ℕ) → n ≤ k → k < max_reconnect_attempts → stopped k ≡ false)
    → Reconnected sends c (try_reconnect socket stopped sends now c)
unfolding try_reconnect
try_reconnect-Reconnected socket stopped sends now n q c h z i s g =
    loop-Reconnected socket stopped sends now max_reconnect_attempts n q (reconnect_ports c) c h
      ((reconnect_ports_lem c).1 q z i) s g
