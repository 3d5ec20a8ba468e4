-- ===== src/Signaling/Examples.antt =====
-- A server with two registered users, and what a few messages do to it.
use omnidesk.Prelude.{
  ℕ, ◌<◌, ◌≤◌, ◌≡◌, refl, length, ◌*◌, ◌^◌, ◌⊎◌, List, [], ◌∷◌, none, some, false, arith,
}
use omnidesk.Text.{codes, is_empty, bytes_lt}
use omnidesk.Json.{json_make_object, json_get_string}
use omnidesk.Signaling.Registry.{
  contains, Client, PeerAddress, RegisteredUser, Server, find_user, drop_channel, is_open, purge,
  seconds_since, insert_user, close, send_json,
}
use omnidesk.Signaling.Handlers.{
  touch, handle_register, handle_heartbeat, relay, registered, local_port, close_previous,
  register_ok,
}
use omnidesk.Signaling.{
  server_round, client_turn, handle_client_message, process_clients, Received, message,
}
use omnidesk.Signaling.Keys.{IsRegistry}
use omnidesk.Signaling.Invariant.{server_round-IsRegistry}
use omnidesk.Signaling.Presence.{relay-Delivery, Delivery}
use omnidesk.Signaling.Sessions.{
  purge-handle_heartbeat, purge-find_user, handle_register-reconnect, handle_register-again,
  user_id_in,
}

abbrev address : PeerAddress
address = record { host = codes "10.0.0.1"; port = 5000 }

abbrev alice : RegisteredUser
alice = record {
  user_id = codes "AAAA2222";
  channel = 1;
  public_addr = address;
  local_addr = address;
  last_heartbeat = 0;
}

abbrev bob : RegisteredUser
bob = record alice { user_id = codes "BBBB3333"; channel = 2 }

abbrev alice_client : Client
alice_client = record { id = 1; remote_host = codes "10.0.0.1"; remote_port = 5000 }

abbrev new_client : Client
new_client = record alice_client { id = 3 }

abbrev server : Server
server = record {
  users = (codes "AAAA2222", alice) ∷ (codes "BBBB3333", bob) ∷ [];
  clients = alice_client ∷ [];
  closed = [];
  sent = [];
}

abbrev offer : List ℕ
offer = json_make_object (
    (codes "type", codes "sdp_offer")
    ∷ (codes "to", codes "BBBB3333")
    ∷ (codes "sdp", codes "v=0")
    ∷ [])

abbrev register_alice : List ℕ
register_alice = json_make_object (
    (codes "type", codes "register")
    ∷ (codes "user_id", codes "AAAA2222")
    ∷ (codes "local_host", codes "10.0.0.9")
    ∷ (codes "local_port", codes "9000")
    ∷ [])

abbrev heartbeat : List ℕ
heartbeat =
    json_make_object ((codes "type", codes "heartbeat") ∷ (codes "user_id", codes "AAAA2222") ∷ [])

abbrev ack : List ℕ
ack = json_make_object ((codes "type", codes "heartbeat_ack") ∷ [])

-- In this round the first client sends its heartbeat.
abbrev sends_heartbeat : ℕ → Received
sends_heartbeat n = message heartbeat

-- The server after it, at two seconds.
abbrev after_heartbeat : Server
after_heartbeat = record server {
  users =
      (codes "AAAA2222", record alice { last_heartbeat = 2 * 10 ^ 9 })
      ∷ (codes "BBBB3333", bob)
      ∷ [];
  sent = (1, ack) ∷ [];
}

server-IsRegistry : IsRegistry server.users
unfolding bytes_lt
server-IsRegistry = (refl, refl, (refl, tt), (refl, refl, tt, tt))

one_round : server_round (2 * 10 ^ 9) none sends_heartbeat (server, 0) ≡ some (after_heartbeat, 0)
unfolding server_round process_clients client_turn handle_client_message handle_heartbeat touch
    find_user insert_user send_json is_open contains json_get_string json_make_object
    omnidesk.Text.bytes_eq omnidesk.Json.json_find omnidesk.Text.find_after omnidesk.Text.strip
    omnidesk.Json.json_field omnidesk.Json.open_quote omnidesk.Text.skip_spaces
    omnidesk.Json.until_quote omnidesk.Json.json_fields
one_round = refl

server_round-IsRegistry_example : IsRegistry after_heartbeat.users
server_round-IsRegistry_example =
    server_round-IsRegistry (2 * 10 ^ 9) none sends_heartbeat server after_heartbeat 0 0
      server-IsRegistry one_round

relay-Delivery_example :
    Delivery
      (codes "sdp_offer")
      ((codes "sdp", codes "v=0") ∷ [])
      alice_client
      (json_get_string offer (codes "to"))
      server
      (relay (codes "sdp_offer") ((codes "sdp", codes "v=0") ∷ []) alice_client offer server)
relay-Delivery_example =
    relay-Delivery (codes "sdp_offer") ((codes "sdp", codes "v=0") ∷ []) alice_client offer server
      server-IsRegistry

alice_found : find_user (json_get_string heartbeat (codes "user_id")) server.users ≡ some alice
unfolding find_user json_get_string json_make_object omnidesk.Text.bytes_eq omnidesk.Json.json_find
    omnidesk.Text.find_after omnidesk.Text.strip omnidesk.Json.json_field omnidesk.Json.json_fields
    omnidesk.Json.open_quote omnidesk.Text.skip_spaces omnidesk.Json.until_quote
alice_found = refl

alice_given : is_empty (json_get_string heartbeat (codes "user_id")) ≡ false
unfolding json_get_string json_make_object omnidesk.Json.json_find omnidesk.Text.find_after
    omnidesk.Text.strip omnidesk.Json.json_field omnidesk.Json.json_fields omnidesk.Json.open_quote
    omnidesk.Text.skip_spaces omnidesk.Json.until_quote
alice_given = refl

purge-handle_heartbeat_example :
    find_user
      (json_get_string heartbeat (codes "user_id"))
      (purge (100 * 10 ^ 9) (handle_heartbeat (20 * 10 ^ 9) alice_client heartbeat server)).users
    ≡ some (record alice { last_heartbeat = 20 * 10 ^ 9 })
purge-handle_heartbeat_example =
    purge-handle_heartbeat (100 * 10 ^ 9) (20 * 10 ^ 9) alice_client heartbeat server alice
      server-IsRegistry alice_given alice_found (omega arith)

bob_found : find_user (codes "BBBB3333") server.users ≡ some bob
unfolding find_user omnidesk.Text.bytes_eq
bob_found = refl

purge-find_user_example :
    ((90 ≤ seconds_since (90 * 10 ^ 9) bob.last_heartbeat)
      × (find_user (codes "BBBB3333") (purge (90 * 10 ^ 9) server).users ≡ none)
      × (is_open bob.channel (purge (90 * 10 ^ 9) server) ≡ false))
    ⊎ ((seconds_since (90 * 10 ^ 9) bob.last_heartbeat < 90)
        × (find_user (codes "BBBB3333") (purge (90 * 10 ^ 9) server).users ≡ some bob))
purge-find_user_example =
    purge-find_user (90 * 10 ^ 9) (codes "BBBB3333") bob server server-IsRegistry bob_found

-- What registering the first user again leaves, from the connection `c`.
abbrev registered_again : Client → Server
registered_again c = send_json c.id (register_ok (codes "AAAA2222")) (record (close 1 server) {
  users =
      insert_user (codes "AAAA2222") (registered 7 c (codes "AAAA2222") (codes "10.0.0.9") 9000)
        server.users;
})

alice_registers :
    (handle_register 7 new_client register_alice server ≡ some (registered_again new_client))
    × (handle_register 7 alice_client register_alice server ≡ some (registered_again alice_client))
unfolding handle_register close_previous find_user json_get_string json_make_object local_port close
    omnidesk.Json.json_find omnidesk.Text.find_after omnidesk.Text.strip omnidesk.Json.json_field
    omnidesk.Json.json_fields omnidesk.Json.open_quote omnidesk.Text.skip_spaces
    omnidesk.Json.until_quote omnidesk.Text.stoi_u16 omnidesk.Text.bytes_eq
alice_registers = (refl, refl)

alice_id :
    (length (user_id_in register_alice) ≡ 8)
    × (find_user (user_id_in register_alice) server.users ≡ some alice)
unfolding find_user json_get_string json_make_object omnidesk.Json.json_find
    omnidesk.Text.find_after omnidesk.Text.strip omnidesk.Json.json_field omnidesk.Json.json_fields
    omnidesk.Json.open_quote omnidesk.Text.skip_spaces omnidesk.Json.until_quote
    omnidesk.Text.bytes_eq
alice_id = (refl, refl)

handle_register-reconnect_example :
    (is_open 1 (registered_again new_client) ≡ false)
    × ((u : RegisteredUser) × (u.channel ≡ 3)
        × (find_user (user_id_in register_alice) (registered_again new_client).users ≡ some u)
        × (find_user
              (user_id_in register_alice)
              (drop_channel 1 (registered_again new_client)).users
            ≡ some u))
handle_register-reconnect_example =
    handle_register-reconnect 7 new_client register_alice server (registered_again new_client) alice
      alice_id.0 alice_registers.0 alice_id.1 (λ e. omega (arith, e))

handle_register-again_example :
    ((registered_again alice_client).sent ≡ server.sent)
    × (is_open 1 (registered_again alice_client) ≡ false)
    × (process_clients 7 sends_heartbeat (alice_client ∷ []) (registered_again alice_client)
        ≡ some ([], drop_channel 1 (registered_again alice_client)))
handle_register-again_example =
    handle_register-again 7 sends_heartbeat alice_client register_alice server
      (registered_again alice_client) alice alice_id.0 alice_registers.1 alice_id.1 refl

-- A port that is no number: std::stoi throws, and nothing in serverLoop catches it.
bad_port :
    handle_register 7 new_client
      (json_make_object
        ((codes "user_id", codes "CCCC4444") ∷ (codes "local_port", codes "x") ∷ []))
      server
    ≡ none
unfolding handle_register json_get_string json_make_object local_port omnidesk.Json.json_find
    omnidesk.Text.find_after omnidesk.Text.strip omnidesk.Json.json_field omnidesk.Json.open_quote
    omnidesk.Text.skip_spaces omnidesk.Json.until_quote omnidesk.Json.json_fields
    omnidesk.Text.stoi_u16
bad_port = refl
