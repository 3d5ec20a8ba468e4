-- ===== src/SignalingClient/Ports.antt =====
-- Connecting: connect and tryReconnect, over a socket that is asked for each port in turn.
use omnidesk.Prelude.{
  ℕ, zero, suc, List, [], ◌∷◌, ◌++◌, Option, none, some, Bool, true, false, ◌==◌, if◌then◌else◌,
  length,
}
use omnidesk.SignalingClient.State.{SignalingClient, send_json, disconnect, register_message}

-- Every fallback port but the primary one.
unfoldable pub without_port : ℕ → List ℕ → List ℕ
without_port p [] = []
without_port p (q ∷ qs) = if q == p then without_port p qs else q ∷ without_port p qs

unfoldable pub connect_ports : ℕ → List ℕ → List ℕ
connect_ports port fallback = port ∷ without_port port fallback

-- The first port that the socket takes.
unfoldable pub try_ports : (ℕ → Bool) → List ℕ → Option ℕ
try_ports socket [] = none
try_ports socket (p ∷ ps) = let rest = try_ports socket ps in if socket p then some p else rest

-- What a connection leaves, at time `now`.
unfoldable pub opened : ℕ → Option ℕ → SignalingClient → Bool × SignalingClient
opened now none c = (false, c)
opened now (some p) c = (
  true,
  record c {
    connected = true;
    running = true;
    channel_open = true;
    connected_port = p;
    last_heartbeat_sent = now;
  },
)

-- TcpChannel::connect closes what was open.
unfoldable pub connect : (ℕ → Bool) → ℕ → ℕ → List ℕ → SignalingClient → Bool × SignalingClient
connect socket now port fallback c =
    let c0 : SignalingClient = if c.connected then disconnect c else c in
    let c1 : SignalingClient = record c0 {
      server_port = port;
      fallback_ports = fallback;
      connected_port = 0;
      channel_open = false;
    } in
    opened now (try_ports socket (connect_ports port fallback)) c1

unfoldable pub has_port : ℕ → List ℕ → Bool
has_port p [] = false
has_port p (q ∷ qs) = if q == p then true else has_port p qs

abbrev pub with_port : List ℕ → ℕ → List ℕ
with_port ports p = if has_port p ports then ports else ports ++ (p ∷ [])

-- The loop over the fallback ports; `ports` is portsToTry.
unfoldable pub add_ports : List ℕ → List ℕ → List ℕ
add_ports ports [] = ports
add_ports ports (p ∷ ps) = add_ports (with_port ports p) ps

abbrev pub first_ports : ℕ → ℕ → List ℕ
first_ports connected_port server_port =
    (if connected_port == 0 then [] else connected_port ∷ [])
    ++ (if server_port == connected_port then [] else server_port ∷ [])

-- The port that worked last, the configured one, and the others.
unfoldable pub reconnect_ports : SignalingClient → List ℕ
reconnect_ports c = add_ports (first_ports c.connected_port c.server_port) c.fallback_ports

abbrev pub max_reconnect_attempts : ℕ
max_reconnect_attempts = 10

-- Back on port `p`: an id of eight characters is registered again.
unfoldable pub reopened : Bool → ℕ → ℕ → SignalingClient → SignalingClient
reopened ok now p c =
    let c1 : SignalingClient = record c {
      channel_open = true;
      connected_port = p;
      connected = true;
    } in
    let c2 : SignalingClient =
      if length c.user_id == 8
      then (send_json ok (register_message c.user_id c.local_addr) c1).1
      else c1 in
    record c2 { last_heartbeat_sent = now }

-- The attempts, each after its wait: `socket n` answers for the ports when `n` more are left, and
-- `stopped n` tells whether running_ was cleared by then, at the start or during the wait.
unfoldable pub reconnect_loop :
    (ℕ → ℕ → Bool) → (ℕ → Bool) → Bool → ℕ → ℕ → List ℕ → SignalingClient → Bool × SignalingClient
reconnect_loop socket stopped ok now zero ports c = (false, c)
reconnect_loop socket stopped ok now (suc n) ports c =
    let closed : SignalingClient = record c { channel_open = false } in
    let later = reconnect_loop socket stopped ok now n ports closed in
    let tried : Bool × SignalingClient = elim (try_ports (socket n) ports) [
      | none ↦ later
      | some p ↦ (true, reopened ok now p closed)
    ] in
    if stopped n then (false, record c { running = false }) else tried

unfoldable pub try_reconnect :
    (ℕ → ℕ → Bool) → (ℕ → Bool) → Bool → ℕ → SignalingClient → Bool × SignalingClient
try_reconnect socket stopped ok now c =
    reconnect_loop socket stopped ok now max_reconnect_attempts (reconnect_ports c) c
