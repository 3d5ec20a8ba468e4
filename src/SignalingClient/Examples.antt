-- ===== src/SignalingClient/Examples.antt =====
-- Two clients, a server that knows both, and a reconnection.
use omnidesk.Prelude.{
  ℕ, ◌≡◌, ◌≢◌, refl, List, [], ◌∷◌, some, none, true, false, ◌==◌, if◌then◌else◌, arith,
}
use omnidesk.Text.{
  codes, bytes_eq, find_after, strip, skip_spaces, is_space, starts_with_digit, is_digit,
  read_digits,
}
use omnidesk.Signaling.Registry.{Client, PeerAddress, RegisteredUser, Server, find_user_by_channel}
use omnidesk.Signaling.{handle_client_message}
use omnidesk.Json.{
  json_get_string, json_make_object, json_find, json_field, json_fields, open_quote, until_quote,
  is_blank, quoted,
}
use omnidesk.SignalingClient.Escape.{json_escape, json_unescape, json_unescape-escape}
use omnidesk.SignalingClient.State.{
  SignalingClient, sdp_offer, raise, send_sdp_offer, handle_message, handle_ice_candidate,
  index_or_zero, stoi, stoi_signed, stoi_unsigned,
}
use omnidesk.SignalingClient.Ports.{try_reconnect, reconnect_ports, has_port}
use omnidesk.SignalingClient.Delivery.{sdp_offer-delivery}
use omnidesk.SignalingClient.Reconnect.{
  Distinct, reconnect_ports_lem, Reconnected, try_reconnect-Reconnected,
}

-- A line break, a backslash and a quote.
json_unescape-escape_example :
    json_unescape (json_escape (97 ∷ 10 ∷ 92 ∷ 34 ∷ [])) ≡ 97 ∷ 10 ∷ 92 ∷ 34 ∷ []
json_unescape-escape_example = json_unescape-escape (97 ∷ 10 ∷ 92 ∷ 34 ∷ [])

-- A text with a quote, escaped and put in an object, is cut at the quote when it is read.
quote_cut :
    json_unescape (
      json_get_string
        (json_make_object ((codes "sdp", json_escape (97 ∷ 34 ∷ 98 ∷ [])) ∷ []))
        (codes "sdp"))
    ≡ 97 ∷ 92 ∷ []
unfolding json_unescape json_get_string omnidesk.Json.json_find omnidesk.Text.find_after
    json_make_object omnidesk.Text.strip omnidesk.Json.json_field omnidesk.Json.open_quote
    omnidesk.Text.skip_spaces omnidesk.Json.until_quote json_escape
    omnidesk.SignalingClient.Escape.escape_char
quote_cut = refl

-- An index that is no number, which any peer can have the server relay, is an exception.
abbrev nobody : PeerAddress
nobody = record { host = []; port = 0 }

abbrev client : SignalingClient
client = record {
  connected = true;
  registered = true;
  running = true;
  auto_reconnect = true;
  channel_open = true;
  user_id = codes "AAAAAAAA";
  local_addr = nobody;
  server_port = 9000;
  connected_port = 443;
  fallback_ports = 443 ∷ 80 ∷ 9000 ∷ [];
  last_heartbeat_sent = 0;
  sent = [];
  events = [];
}

bad_index :
    handle_message
      (json_make_object
        ((codes "type", codes "ice_candidate") ∷ (codes "sdpMLineIndex", codes "x") ∷ []))
      client
    ≡ none
unfolding handle_message bytes_eq json_get_string json_find find_after json_make_object strip
    json_field open_quote skip_spaces until_quote handle_ice_candidate index_or_zero json_fields
    stoi stoi_signed is_space stoi_unsigned is_blank quoted starts_with_digit is_digit read_digits
bad_index = refl

abbrev user : List ℕ → ℕ → RegisteredUser
user id ch = record {
  user_id = id;
  channel = ch;
  public_addr = nobody;
  local_addr = nobody;
  last_heartbeat = 0;
}

abbrev server : Server
server = record {
  users =
      (codes "AAAAAAAA", user (codes "AAAAAAAA") 1)
      ∷ (codes "BBBBBBBB", user (codes "BBBBBBBB") 2)
      ∷ [];
  clients = [];
  closed = [];
  sent = [];
}

abbrev first : Client
first = record { id = 1; remote_host = []; remote_port = 0 }

sdp_offer-delivery_example :
    (m : List ℕ) × (m' : List ℕ) × ((send_sdp_offer true
        (codes "BBBBBBBB")
        (codes "v=0")
        client).1.sent
      ≡ m ∷ [])
    × (handle_client_message 5 first m server ≡ some (record server { sent = (2, m') ∷ [] }))
    × (handle_message m' client
        ≡ some (
            raise
              (sdp_offer (record {
                from_id = find_user_by_channel 1 server;
                sdp = codes "v=0";
                kind = codes "offer";
              }))
              client))
unfolding find_user_by_channel omnidesk.Signaling.Handlers.reachable
    omnidesk.Signaling.Registry.find_user omnidesk.Text.bytes_eq omnidesk.Signaling.Registry.is_open
sdp_offer-delivery_example =
    sdp_offer-delivery client client first 5 server (user (codes "BBBBBBBB") 2) (codes "BBBBBBBB")
      (codes "v=0") refl refl (record { eight = refl; plain = omega arith }) (omega arith)
      (record { eight = refl; plain = omega arith }) refl

reconnect_ports_lem_example :
    Distinct (reconnect_ports client)
    × ((q : ℕ)
        → q ≢ 0
        → has_port q (9000 ∷ 443 ∷ 80 ∷ 9000 ∷ []) ≡ true
        → has_port q (reconnect_ports client) ≡ true)
reconnect_ports_lem_example = reconnect_ports_lem client

-- Port 80 answers in the third attempt.
try_reconnect-Reconnected_example :
    Reconnected true client
      (try_reconnect (λ n p. if n == 7 then p == 80 else false) (λ n. false) true 6 client)
unfolding has_port
try_reconnect-Reconnected_example =
    try_reconnect-Reconnected (λ n p. if n == 7 then p == 80 else false) (λ n. false) true 6 7 80
      client (omega arith) (omega arith) refl refl (λ k a b. refl)
