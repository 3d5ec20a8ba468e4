-- ===== src/Signaling.antt =====
-- The signaling server: src/signaling/signaling_server.h and src/signaling/signaling_server.cpp.
-- A channel is known by an identity, with the address of its peer; closing it adds the identity to
-- `closed`. What is sent over an open channel is appended to `sent`. The time is an argument, in
-- nanoseconds. The handlers run one at a time, under the locks of the source.
pub mod Registry
pub mod Handlers
pub mod Keys
pub mod Relay
pub mod Invariant
pub mod Presence
pub mod Sessions
mod Examples
use omnidesk.Prelude.{
  ℕ, zero, suc, ◌+◌, ◌-◌, List, [], ◌∷◌, ◌++◌, Option, none, some, Bool, true, false, leb, ◌==◌,
  ◌||◌, if◌then◌else◌,
}
use omnidesk.Bytes.{◌>>=◌}
use omnidesk.Text.{codes, bytes_eq}
use omnidesk.Json.{json_get_string}
use omnidesk.Signaling.Registry.{
  Client, Server, is_open, close, drop_channel, find_user, send_json, purge, seconds_since,
}
use omnidesk.Signaling.Handlers.{
  handle_register, handle_connect_request, handle_connect_accept, handle_connect_reject,
  handle_heartbeat, handle_sdp_offer, handle_sdp_answer, handle_ice_candidate,
}

-- The type strings of namespace SignalingMsg, and the dispatch on them. `none` is an exception
-- that leaves the handler; an unknown type is ignored.
unfoldable pub handle_client_message : ℕ → Client → List ℕ → Server → Option Server
handle_client_message now client json s =
    let type : List ℕ = json_get_string json (codes "type") in
    if bytes_eq type (codes "register")
    then handle_register now client json s
    else if bytes_eq type (codes "connect_request")
    then some (handle_connect_request client json s)
    else if bytes_eq type (codes "connect_accept")
    then some (handle_connect_accept json s)
    else if bytes_eq type (codes "connect_reject")
    then some (handle_connect_reject json s)
    else if bytes_eq type (codes "heartbeat")
    then some (handle_heartbeat now client json s)
    else if bytes_eq type (codes "sdp_offer")
    then some (handle_sdp_offer client json s)
    else if bytes_eq type (codes "sdp_answer")
    then some (handle_sdp_answer client json s)
    else if bytes_eq type (codes "ice_candidate")
    then some (handle_ice_candidate client json s)
    else some s

-- What a client's socket gives in a round: TcpChannel::recv.
pub data Received : Type 0 where
  message : List ℕ → Received
  would_block sock_error disconnected : Received

-- One client's turn: whether it stays in `clients_`, and the server after it.
unfoldable pub client_turn : ℕ → Client → Received → Server → Option (Bool × Server)
client_turn now c (message json) s = do s' ← handle_client_message now c json s; some (true, s')
client_turn now c would_block s = some (true, s)
client_turn now c sock_error s = some (true, s)
client_turn now c disconnected s = some (false, close c.id (drop_channel c.id s))

-- The loop over the clients. One whose channel is closed loses its registration and its place.
unfoldable pub process_clients :
    ℕ → (ℕ → Received) → List Client → Server → Option (List Client × Server)
process_clients now recv [] s = some ([], s)
process_clients now recv (c ∷ cs) s = do
  (stays, s') ←
      if is_open c.id s then client_turn now c (recv c.id) s else some (false, drop_channel c.id s)
  (kept, s'') ← process_clients now recv cs s'
  some (if stays then c ∷ kept else kept, s'')

-- One round of serverLoop: an accepted connection, the clients' messages, and the purge, which
-- runs if 30 seconds have passed since the last. `none` is an exception that ends the thread.
unfoldable pub server_round : ℕ → Option Client → (ℕ → Received) → Server × ℕ → Option (Server × ℕ)
unfolding process_clients
server_round now accepted recv (s, last_purge) =
    let clients : List Client = elim accepted [
      | none ↦ s.clients
      | some c ↦ s.clients ++ (c ∷ [])
    ] in
    do
      (kept, s') ← process_clients now recv clients s
      let s'' = record s' { clients = kept }
      some (
          if leb 30 (seconds_since now last_purge) then (purge now s'', now) else (s'', last_purge))
