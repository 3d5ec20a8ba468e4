-- ===== src/SignalingClient/State.antt =====
-- The client's state and its calls. A callback is an event in the list of those that were raised; a
-- callback that is not set does nothing with it. `ok` is the result of TcpChannel::send.
use omnidesk.Prelude.{
  ℕ, suc, ◌-◌, ◌^◌, List, [], ◌∷◌, ◌++◌, Option, none, some, Bool, true, false, leb, ltb, ◌==◌,
  ◌&&◌, if◌then◌else◌,
}
use omnidesk.Prelude.Int.{ℤ, pos, negsuc}
use omnidesk.Bytes.{◌>>=◌}
use omnidesk.Text.{
  codes, bytes_eq, skip_spaces, is_space, starts_with_digit, read_digits, digits, stoi_u16,
  to_string_u16,
}
use omnidesk.Json.{json_get_string, json_make_object}
use omnidesk.Signaling.Registry.{PeerAddress}
use omnidesk.SignalingClient.Escape.{json_escape, json_unescape}

pub record SdpMessage : Type 0 where
  pub from_id : List ℕ
  pub sdp : List ℕ
  pub kind : List ℕ

pub record IceCandidateMsg : Type 0 where
  pub from_id : List ℕ
  pub candidate : List ℕ
  pub sdp_mid : List ℕ
  pub sdp_mline_index : ℤ

pub data Event : Type 0 where
  user_registered : Bool → Event
  connection_request connection_accepted : List ℕ → PeerAddress → PeerAddress → Event
  connection_rejected : List ℕ → List ℕ → Event
  target_offline : List ℕ → Event
  sdp_offer sdp_answer : SdpMessage → Event
  ice_candidate : IceCandidateMsg → Event
  disconnected : Event

pub record SignalingClient : Type 0 where
  pub connected : Bool
  pub registered : Bool
  pub running : Bool
  pub auto_reconnect : Bool
  pub channel_open : Bool
  pub user_id : List ℕ
  pub local_addr : PeerAddress
  pub server_port : ℕ
  pub connected_port : ℕ
  pub fallback_ports : List ℕ
  pub last_heartbeat_sent : ℕ
  pub sent : List (List ℕ)
  pub events : List Event

unfoldable pub raise : Event → SignalingClient → SignalingClient
raise e c = record c { events = c.events ++ (e ∷ []) }

-- The result of sendJson, and the client with the message sent if it was.
unfoldable pub send_json : Bool → List ℕ → SignalingClient → Bool × SignalingClient
send_json ok json c = (ok, if ok then record c { sent = c.sent ++ (json ∷ []) } else c)

unfoldable pub disconnect : SignalingClient → SignalingClient
disconnect c = record c {
  running = false;
  connected = false;
  registered = false;
  channel_open = false;
}

abbrev pub register_message : List ℕ → PeerAddress → List ℕ
register_message user_id local = json_make_object (
    (codes "type", codes "register")
    ∷ (codes "user_id", user_id)
    ∷ (codes "local_host", local.host)
    ∷ (codes "local_port", to_string_u16 local.port)
    ∷ [])

unfoldable pub register_user :
    Bool → List ℕ → PeerAddress → SignalingClient → Bool × SignalingClient
unfolding send_json
register_user ok user_id local c =
    if c.connected
    then send_json ok (register_message user_id local)
        (record c { user_id = user_id; local_addr = local })
    else (false, c)

-- The guard of the calls that need a registration.
unfoldable pub when_registered : Bool → List ℕ → SignalingClient → Bool × SignalingClient
unfolding send_json
when_registered ok json c = if c.connected && c.registered then send_json ok json c else (false, c)

abbrev pub to_target : List ℕ → SignalingClient → List ℕ → List (List ℕ × List ℕ) → List ℕ
to_target type c target more =
    json_make_object
      ((codes "type", type) ∷ (codes "from_id", c.user_id) ∷ (codes "target_id", target) ∷ more)

unfoldable pub request_connection : Bool → List ℕ → SignalingClient → Bool × SignalingClient
unfolding when_registered
request_connection ok target c =
    when_registered ok (to_target (codes "connect_request") c target []) c

unfoldable pub accept_connection : Bool → List ℕ → SignalingClient → Bool × SignalingClient
unfolding when_registered
accept_connection ok from c = when_registered ok (to_target (codes "connect_accept") c from []) c

unfoldable pub reject_connection : Bool → List ℕ → List ℕ → SignalingClient → Bool × SignalingClient
unfolding when_registered
reject_connection ok from reason c =
    when_registered ok (to_target (codes "connect_reject") c from ((codes "reason", reason) ∷ [])) c

unfoldable pub is_connected : SignalingClient → Bool
is_connected c = c.connected && c.channel_open

abbrev pub sdp_message : List ℕ → List ℕ → List ℕ → List ℕ
sdp_message type target sdp =
    json_make_object
      ((codes "type", type) ∷ (codes "to", target) ∷ (codes "sdp", json_escape sdp) ∷ [])

unfoldable pub send_sdp_offer : Bool → List ℕ → List ℕ → SignalingClient → Bool × SignalingClient
unfolding when_registered
send_sdp_offer ok target sdp c = when_registered ok (sdp_message (codes "sdp_offer") target sdp) c

unfoldable pub send_sdp_answer : Bool → List ℕ → List ℕ → SignalingClient → Bool × SignalingClient
unfolding when_registered
send_sdp_answer ok target sdp c = when_registered ok (sdp_message (codes "sdp_answer") target sdp) c

-- std::to_string of an int, which has ten digits at most.
unfoldable pub to_string_int : ℤ → List ℕ
to_string_int (pos n) = digits 10 n []
to_string_int (negsuc n) = b'-' ∷ digits 10 (suc n) []

unfoldable pub send_ice_candidate :
    Bool → List ℕ → List ℕ → List ℕ → ℤ → SignalingClient → Bool × SignalingClient
unfolding when_registered
send_ice_candidate ok target candidate sdp_mid index c =
    when_registered ok
      (json_make_object (
        (codes "type", codes "ice_candidate")
        ∷ (codes "to", target)
        ∷ (codes "candidate", json_escape candidate)
        ∷ (codes "sdpMid", sdp_mid)
        ∷ (codes "sdpMLineIndex", to_string_int index)
        ∷ []))
      c

-- std::stoi; `none` where it throws.
unfoldable pub stoi_unsigned : Bool → List ℕ → Option ℤ
stoi_unsigned negative s =
    let n : ℕ = read_digits 0 s in
    if starts_with_digit s
    then (if negative
        then (if leb n (2 ^ 31) then some (if n == 0 then pos 0 else negsuc (n - 1)) else none)
        else (if ltb n (2 ^ 31) then some (pos n) else none))
    else none

unfoldable pub stoi_signed : List ℕ → Option ℤ
stoi_signed [] = none
stoi_signed (c ∷ s) =
    if c == b'-'
    then stoi_unsigned true s
    else (if c == b'+' then stoi_unsigned false s else stoi_unsigned false (c ∷ s))

unfoldable pub stoi : List ℕ → Option ℤ
stoi s = stoi_signed (skip_spaces is_space s)

-- A number that keeps its default if the text is empty.
unfoldable pub port_or_zero : List ℕ → Option ℕ
port_or_zero [] = some 0
port_or_zero (c ∷ s) = stoi_u16 (c ∷ s)

unfoldable pub index_or_zero : List ℕ → Option ℤ
index_or_zero [] = some (pos 0)
index_or_zero (c ∷ s) = stoi (c ∷ s)

unfoldable pub read_address : List ℕ → List ℕ → List ℕ → Option PeerAddress
read_address json host port = do
  p ← port_or_zero (json_get_string json port)
  some (record { host = json_get_string json host; port = p })

unfoldable pub read_sdp : List ℕ → List ℕ → SdpMessage
read_sdp kind json = record {
  from_id = json_get_string json (codes "from");
  sdp = json_unescape (json_get_string json (codes "sdp"));
  kind = kind;
}

unfoldable pub handle_connect_request : List ℕ → SignalingClient → Option SignalingClient
handle_connect_request json c = do
  public ← read_address json (codes "from_public_host") (codes "from_public_port")
  local ← read_address json (codes "from_local_host") (codes "from_local_port")
  some (raise (connection_request (json_get_string json (codes "from_id")) public local) c)

unfoldable pub handle_connect_accept : List ℕ → SignalingClient → Option SignalingClient
handle_connect_accept json c = do
  public ← read_address json (codes "peer_public_host") (codes "peer_public_port")
  local ← read_address json (codes "peer_local_host") (codes "peer_local_port")
  some (raise (connection_accepted (json_get_string json (codes "from_id")) public local) c)

unfoldable pub handle_ice_candidate : List ℕ → SignalingClient → Option SignalingClient
handle_ice_candidate json c = do
  index ← index_or_zero (json_get_string json (codes "sdpMLineIndex"))
  let msg : IceCandidateMsg = record {
    from_id = json_get_string json (codes "from");
    candidate = json_unescape (json_get_string json (codes "candidate"));
    sdp_mid = json_get_string json (codes "sdpMid");
    sdp_mline_index = index;
  }
  some (raise (ice_candidate msg) c)

-- `none` is an exception that leaves the receiving thread, which ends the process.
unfoldable pub handle_message : List ℕ → SignalingClient → Option SignalingClient
handle_message json c =
    let type : List ℕ = json_get_string json (codes "type") in
    let from : List ℕ = json_get_string json (codes "from_id") in
    if bytes_eq type (codes "register_ok")
    then some (raise (user_registered true) (record c { registered = true }))
    else if bytes_eq type (codes "register_fail")
    then some (raise (user_registered false) (record c { registered = false }))
    else if bytes_eq type (codes "connect_request")
    then handle_connect_request json c
    else if bytes_eq type (codes "connect_accept")
    then handle_connect_accept json c
    else if bytes_eq type (codes "connect_reject")
    then some (raise (connection_rejected from (json_get_string json (codes "reason"))) c)
    else if bytes_eq type (codes "user_offline")
    then some (raise (target_offline (json_get_string json (codes "target_id"))) c)
    else if bytes_eq type (codes "sdp_offer")
    then some (raise (sdp_offer (read_sdp (codes "offer") json)) c)
    else if bytes_eq type (codes "sdp_answer")
    then some (raise (sdp_answer (read_sdp (codes "answer") json)) c)
    else if bytes_eq type (codes "ice_candidate")
    then handle_ice_candidate json c
    else some c
