-- ===== src/Signaling/Invariant.antt =====
-- The registry stays in order in every run of the server.
use mathlib.Core.Path.{subst}
use omnidesk.Prelude.{
  ℕ, ◌≡◌, refl, sym, List, [], ◌∷◌, ◌++◌, Option, none, some, Bool, true, false, leb, if◌then◌else◌,
}
use omnidesk.Bytes.{◌>>=◌}
use omnidesk.Signaling.Registry.{Client, Server, is_open, close, drop_channel, purge, seconds_since}
use omnidesk.Signaling.{
  handle_client_message, client_turn, process_clients, server_round, Received, message, would_block,
  sock_error, disconnected,
}
use omnidesk.Signaling.Keys.{IsRegistry, erase-IsRegistry, keep-IsRegistry}
use omnidesk.Signaling.Relay.{
  handle_connect_request-users, handle_connect_accept-users, handle_connect_reject-users,
  handle_sdp-users, handle_heartbeat-IsRegistry, handle_register-IsRegistry,
}

abbrev itself : Server → Server
itself s = s

abbrev of_turn : Bool × Server → Server
of_turn r = r.1

abbrev of_pass : List Client × Server → Server
of_pass r = r.1

abbrev of_round : Server × ℕ → Server
of_round r = r.0

-- Whatever server comes out, if one does, has its registry in order.
abbrev Keeps {ℓ} : {A : Type ℓ} → (A → Server) → Option A → Type ℓ
Keeps {A} server o = (a : A) → o ≡ some a → IsRegistry (server a).users

some-Keeps {ℓ} :
    {A : Type ℓ} (server : A → Server) (a : A) → IsRegistry (server a).users → Keeps server (some a)
some-Keeps server a r b e = let same : a ≡ b = cc in rw (← same) r

if-Keeps {ℓ} :
    {A : Type ℓ} (server : A → Server) (b : Bool) (x y : Option A)
    → Keeps server x
    → Keeps server y
    → Keeps server (if b then x else y)
if-Keeps server true x y p q = p
if-Keeps server false x y p q = q

bind-Keeps {ℓ κ} :
    {A : Type ℓ} {B : Type κ} (before : A → Server) (after : B → Server) (x : Option A)
    (f : A → Option B)
    → Keeps before x
    → ((a : A) → IsRegistry (before a).users → Keeps after (f a))
    → Keeps after (x >>= f)
bind-Keeps before after none f p q b e = cc
bind-Keeps before after (some a) f p q b e = q a (p a refl) b e

same-Keeps : (s t : Server) → IsRegistry s.users → t.users ≡ s.users → Keeps itself (some t)
same-Keeps s t r e = some-Keeps itself t (subst IsRegistry (sym e) r)

-- Every message keeps the registry in order, whatever it holds.
handle_client_message-Keeps :
    (now : ℕ) (c : Client) (json : List ℕ) (s : Server)
    → IsRegistry s.users
    → Keeps itself (handle_client_message now c json s)
unfolding handle_client_message
handle_client_message-Keeps now c json s r =
    if-Keeps itself _ _ _ (λ s' e. handle_register-IsRegistry now c json s s' r e)
      (if-Keeps itself _ _ _ (same-Keeps s _ r (handle_connect_request-users c json s)) (
        if-Keeps itself _ _ _ (same-Keeps s _ r (handle_connect_accept-users json s)) (
          if-Keeps itself _ _ _ (same-Keeps s _ r (handle_connect_reject-users json s)) (
            if-Keeps itself _ _ _ (some-Keeps itself _ (handle_heartbeat-IsRegistry now c json s r))
              (if-Keeps itself _ _ _ (same-Keeps s _ r (handle_sdp-users c json s).0) (
                if-Keeps itself _ _ _ (same-Keeps s _ r (handle_sdp-users c json s).1) (
                  if-Keeps itself _ _ _ (same-Keeps s _ r (handle_sdp-users c json s).2)
                    (same-Keeps s s r refl))))))))

drop_channel-IsRegistry :
    (ch : ℕ) (s : Server) → IsRegistry s.users → IsRegistry (drop_channel ch s).users
unfolding drop_channel
drop_channel-IsRegistry ch s r = erase-IsRegistry ch s.users r

client_turn-Keeps :
    (now : ℕ) (c : Client) (m : Received) (s : Server)
    → IsRegistry s.users
    → Keeps of_turn (client_turn now c m s)
unfolding client_turn
client_turn-Keeps now c (message json) s r =
    bind-Keeps itself of_turn (handle_client_message now c json s) _
      (handle_client_message-Keeps now c json s r) (λ s' r'. some-Keeps of_turn _ r')
client_turn-Keeps now c would_block s r = some-Keeps of_turn _ r
client_turn-Keeps now c sock_error s r = some-Keeps of_turn _ r
client_turn-Keeps now c disconnected s r =
    some-Keeps of_turn _ (unfold close in drop_channel-IsRegistry c.id s r)

process_clients-Keeps :
    (now : ℕ) (recv : ℕ → Received) (cs : List Client) (s : Server)
    → IsRegistry s.users
    → Keeps of_pass (process_clients now recv cs s)
unfolding process_clients
process_clients-Keeps now recv [] s r = some-Keeps of_pass _ r
process_clients-Keeps now recv (c ∷ cs) s r =
    bind-Keeps of_turn of_pass _ _
      (if-Keeps of_turn (is_open c.id s) (client_turn now c (recv c.id) s)
        (some (false, drop_channel c.id s)) (client_turn-Keeps now c (recv c.id) s r)
        (some-Keeps of_turn _ (drop_channel-IsRegistry c.id s r)))
      λ x r'.
        bind-Keeps of_pass of_pass (process_clients now recv cs x.1) _
          (process_clients-Keeps now recv cs x.1 r') (λ y r''. some-Keeps of_pass _ r'')

purge-IsRegistry : (now : ℕ) (s : Server) → IsRegistry s.users → IsRegistry (purge now s).users
unfolding purge
purge-IsRegistry now s r = keep-IsRegistry now s.users r

due-IsRegistry :
    (b : Bool) (s : Server) (now last : ℕ)
    → IsRegistry s.users
    → IsRegistry (of_round (if b then (purge now s, now) else (s, last))).users
due-IsRegistry true s now last r = purge-IsRegistry now s r
due-IsRegistry false s now last r = r

-- Any round keeps the registry in order: whichever connection is accepted, whatever the clients
-- send, whoever disconnects, with or without a purge.
pub server_round-IsRegistry :
    (now : ℕ) (accepted : Option Client) (recv : ℕ → Received) (s s' : Server) (last last' : ℕ)
    → IsRegistry s.users
    → server_round now accepted recv (s, last) ≡ some (s', last')
    → IsRegistry s'.users
unfolding server_round
server_round-IsRegistry now accepted recv s s' last last' r =
    let clients : List Client = elim accepted [
      | none ↦ s.clients
      | some c ↦ s.clients ++ (c ∷ [])
    ] in
    bind-Keeps of_pass of_round (process_clients now recv clients s)
      (λ x. some (
        if leb 30 (seconds_since now last)
        then (purge now (record x.1 { clients = x.0 }), now)
        else (record x.1 { clients = x.0 }, last)))
      (process_clients-Keeps now recv clients s r)
      (λ x r'.
        some-Keeps of_round
          (if leb 30 (seconds_since now last)
            then (purge now (record x.1 { clients = x.0 }), now)
            else (record x.1 { clients = x.0 }, last))
          (due-IsRegistry (leb 30 (seconds_since now last)) (record x.1 { clients = x.0 }) now last
            r'))
      (s', last')
