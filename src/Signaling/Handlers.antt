-- ===== src/Signaling/Handlers.antt =====
-- The message handlers of the signaling server.
use omnidesk.Prelude.{ℕ, List, [], ◌∷◌, Option, none, some, ◌==◌, ◌||◌, not, if◌then◌else◌, length}
use omnidesk.Bytes.{◌>>=◌}
use omnidesk.Text.{codes, is_empty, stoi_u16, to_string_u16}
use omnidesk.Json.{json_get_string, json_make_object}
use omnidesk.Signaling.Registry.{
  Client, RegisteredUser, Server, is_open, close, send_json, find_user, insert_user,
  find_user_by_channel,
}

abbrev pub register_fail : List ℕ
register_fail =
    json_make_object
      ((codes "type", codes "register_fail") ∷ (codes "reason", codes "invalid_user_id") ∷ [])

abbrev pub register_ok : List ℕ → List ℕ
register_ok user_id =
    json_make_object ((codes "type", codes "register_ok") ∷ (codes "user_id", user_id) ∷ [])

abbrev pub user_offline : List ℕ → List ℕ
user_offline target =
    json_make_object ((codes "type", codes "user_offline") ∷ (codes "target_id", target) ∷ [])

-- An absent port is 0; std::stoi throws on one that is no number, which is `none`.
unfoldable pub local_port : List ℕ → Option ℕ
local_port [] = some 0
local_port (c ∷ s) = stoi_u16 (c ∷ s)

unfoldable pub registered : ℕ → Client → List ℕ → List ℕ → ℕ → RegisteredUser
registered now client user_id host port = record {
  user_id = user_id;
  channel = client.id;
  public_addr = record { host = client.remote_host; port = client.remote_port };
  local_addr = record { host = host; port = port };
  last_heartbeat = now;
}

-- An earlier registration of the same id has its channel closed.
unfoldable pub close_previous : List ℕ → Server → Server
close_previous user_id s = elim (find_user user_id s.users) [
  | none ↦ s
  | some old ↦ close old.channel s
]

unfoldable pub handle_register : ℕ → Client → List ℕ → Server → Option Server
handle_register now client json s =
    let user_id : List ℕ = json_get_string json (codes "user_id") in
    let host : List ℕ = json_get_string json (codes "local_host") in
    let port : List ℕ = json_get_string json (codes "local_port") in
    if not (length user_id == 8) then some (send_json client.id register_fail s) else do
      p ← local_port port
      let s' = close_previous user_id s
      let u = registered now client user_id host p
      some (
          send_json client.id (register_ok user_id)
            (record s' { users = insert_user user_id u s'.users }))

-- The registered user whose channel is open; `it->second.channel` is never null, since only
-- handle_register fills the registry.
unfoldable pub reachable : List ℕ → Server → Option RegisteredUser
reachable target s = do u ← find_user target s.users; if is_open u.channel s then some u else none

-- The four address fields of a user, empty if there is none.
unfoldable pub address_fields :
    List ℕ → List ℕ → List ℕ → List ℕ → Option RegisteredUser → List (List ℕ × List ℕ)
address_fields public_host public_port local_host local_port none =
    (public_host, []) ∷ (public_port, []) ∷ (local_host, []) ∷ (local_port, []) ∷ []
address_fields public_host public_port local_host local_port (some u) =
    (public_host, u.public_addr.host)
    ∷ (public_port, to_string_u16 u.public_addr.port)
    ∷ (local_host, u.local_addr.host)
    ∷ (local_port, to_string_u16 u.local_addr.port)
    ∷ []

unfoldable pub handle_connect_request : Client → List ℕ → Server → Server
unfolding reachable
handle_connect_request client json s =
    let from : List ℕ = json_get_string json (codes "from_id") in
    let target : List ℕ = json_get_string json (codes "target_id") in
    if is_empty from || is_empty target then s else elim (reachable target s) [
      | none ↦ send_json client.id (user_offline target) s
      | some u ↦
          send_json u.channel
            (json_make_object (
              (codes "type", codes "connect_request")
              ∷ (codes "from_id", from)
              ∷ address_fields (codes "from_public_host") (codes "from_public_port")
                  (codes "from_local_host") (codes "from_local_port") (find_user from s.users)))
            s
    ]

unfoldable pub handle_connect_accept : List ℕ → Server → Server
unfolding reachable
handle_connect_accept json s =
    let from : List ℕ = json_get_string json (codes "from_id") in
    let target : List ℕ = json_get_string json (codes "target_id") in
    if is_empty from || is_empty target then s else elim (reachable target s) [
      | none ↦ s
      | some u ↦
          send_json u.channel
            (json_make_object (
              (codes "type", codes "connect_accept")
              ∷ (codes "from_id", from)
              ∷ address_fields (codes "peer_public_host") (codes "peer_public_port")
                  (codes "peer_local_host") (codes "peer_local_port") (find_user from s.users)))
            s
    ]

unfoldable pub handle_connect_reject : List ℕ → Server → Server
unfolding reachable
handle_connect_reject json s =
    let from : List ℕ = json_get_string json (codes "from_id") in
    let target : List ℕ = json_get_string json (codes "target_id") in
    let reason : List ℕ = json_get_string json (codes "reason") in
    if is_empty from || is_empty target then s else elim (reachable target s) [
      | none ↦ s
      | some u ↦
          send_json u.channel
            (json_make_object (
              (codes "type", codes "connect_reject")
              ∷ (codes "from_id", from)
              ∷ (codes "reason", reason)
              ∷ []))
            s
    ]

unfoldable pub touch : ℕ → List ℕ → List (List ℕ × RegisteredUser) → List (List ℕ × RegisteredUser)
touch now k m = elim (find_user k m) [
  | none ↦ m
  | some u ↦ insert_user k (record u { last_heartbeat = now }) m
]

unfoldable pub handle_heartbeat : ℕ → Client → List ℕ → Server → Server
handle_heartbeat now client json s =
    let user_id : List ℕ = json_get_string json (codes "user_id") in
    let s' : Server =
      if is_empty user_id then s else record s { users = touch now user_id s.users } in
    send_json client.id (json_make_object ((codes "type", codes "heartbeat_ack") ∷ [])) s'

-- What handleSdpOffer, handleSdpAnswer and handleIceCandidate share: the sender is the user that
-- the channel is registered for, and a target that cannot be reached is reported to the sender.
unfoldable pub relay : List ℕ → List (List ℕ × List ℕ) → Client → List ℕ → Server → Server
unfolding reachable
relay type payload client json s =
    let target : List ℕ = json_get_string json (codes "to") in
    let sender : List ℕ = find_user_by_channel client.id s in
    if is_empty target || not (length sender == 8) then s else elim (reachable target s) [
      | none ↦ send_json client.id (user_offline target) s
      | some u ↦
          send_json u.channel
            (json_make_object ((codes "type", type) ∷ (codes "from", sender) ∷ payload)) s
    ]

unfoldable pub handle_sdp_offer : Client → List ℕ → Server → Server
handle_sdp_offer client json =
    relay (codes "sdp_offer") ((codes "sdp", json_get_string json (codes "sdp")) ∷ []) client json

unfoldable pub handle_sdp_answer : Client → List ℕ → Server → Server
handle_sdp_answer client json =
    relay (codes "sdp_answer") ((codes "sdp", json_get_string json (codes "sdp")) ∷ []) client json

unfoldable pub handle_ice_candidate : Client → List ℕ → Server → Server
handle_ice_candidate client json =
    relay (codes "ice_candidate")
      ((codes "candidate", json_get_string json (codes "candidate"))
        ∷ (codes "sdpMid", json_get_string json (codes "sdpMid"))
        ∷ (codes "sdpMLineIndex", json_get_string json (codes "sdpMLineIndex"))
        ∷ [])
      client json
