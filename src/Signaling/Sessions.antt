-- ===== src/Signaling/Sessions.antt =====
-- How long a user stays registered: heartbeats, the purge, and registering again.

use omnidesk.Prelude.{
  ℕ, ◌<◌, ◌≤◌, ◌≡◌, ◌≢◌, refl, sym, ap, ◌∙◌, ◌⊎◌, inl, inr, List, [], ◌∷◌, ◌++◌, none, some, true,
  false, Bool-cases, Option-cases, arith, not, length,
}
use omnidesk.Text.{codes, is_empty}
use omnidesk.Text.Order.{bytes_eq_refl}
use omnidesk.Json.{json_get_string}
use omnidesk.Signaling.Registry.{
  Client, RegisteredUser, Server, contains, is_open, close, send_json, find_user, insert_user,
  drop_channel, purge, is_stale, seconds_since, stale_channels,
}
use omnidesk.Signaling.Handlers.{
  handle_register, handle_heartbeat, touch, local_port, registered, close_previous, register_ok,
}
use omnidesk.Signaling.{process_clients, Received}
use omnidesk.Signaling.Keys.{IsRegistry, find_user-insert, find_user-erase, find_user-keep, Users}
use omnidesk.Signaling.Relay.{
  handle_heartbeat-users, touch_cases, send_json-users, handle_heartbeat-IsRegistry,
}

send_json-closed : (ch : ℕ) (json : List ℕ) (s : Server) → (send_json ch json s).closed ≡ s.closed
unfolding send_json
send_json-closed ch json s = ground arith

pub find_user-touch :
    (t : ℕ) (k : List ℕ) (u : RegisteredUser) (m : Users)
    → find_user k m ≡ some u
    → find_user k (touch t k m) ≡ some (record u { last_heartbeat = t })
find_user-touch t k u m e = elim (touch_cases t k m) [
  | inl (_, n) ↦ cc
  | inr (w, f, g) ↦
      let same : w ≡ u = cc in
      rw (g, find_user-insert k k (record w { last_heartbeat = t }) m, bytes_eq_refl k, same) refl
]

-- A registered user that sends a heartbeat stays registered, with the time of that heartbeat,
-- through a purge less than 90 seconds later.
pub purge-handle_heartbeat :
    (now t : ℕ) (c : Client) (json : List ℕ) (s : Server) (u : RegisteredUser)
    → IsRegistry s.users
    → is_empty (json_get_string json (codes "user_id")) ≡ false
    → find_user (json_get_string json (codes "user_id")) s.users ≡ some u
    → seconds_since now t < 90
    → find_user
        (json_get_string json (codes "user_id"))
        (purge now (handle_heartbeat t c json s)).users
      ≡ some (record u { last_heartbeat = t })
unfolding purge
purge-handle_heartbeat now t c json s u r given e soon =
    let k : List ℕ = json_get_string json (codes "user_id") in
    let fresh : is_stale now (record u { last_heartbeat = t }) ≡ false = ground arith in
    find_user-keep now k (handle_heartbeat t c json s).users
      (handle_heartbeat-IsRegistry t c json s r)
    ∙ rw (handle_heartbeat-users t c json s, given, find_user-touch t k u s.users e, fresh) refl

contains_stale :
    (now : ℕ) (k : List ℕ) (u : RegisteredUser) (m : Users) (others : List ℕ)
    → find_user k m ≡ some u
    → is_stale now u ≡ true
    → contains (stale_channels now m ++ others) u.channel ≡ true
unfolding contains stale_channels find_user
contains_stale now k u [] others e h = cc
contains_stale now k u ((j, w) ∷ m) others e h = ground (arith, contains_stale now k u m others)

-- A purge removes a user without a heartbeat for 90 seconds and closes its channel, and keeps
-- every other user as it is.
pub purge-find_user :
    (now : ℕ) (k : List ℕ) (u : RegisteredUser) (s : Server)
    → IsRegistry s.users
    → find_user k s.users ≡ some u
    → ((90 ≤ seconds_since now u.last_heartbeat)
        × (find_user k (purge now s).users ≡ none)
        × (is_open u.channel (purge now s) ≡ false))
      ⊎ ((seconds_since now u.last_heartbeat < 90) × (find_user k (purge now s).users ≡ some u))
unfolding purge is_open
purge-find_user now k u s r e = elim (Bool-cases (is_stale now u)) [
  | inl stale ↦ inl (
    ground (arith, stale),
    find_user-keep now k s.users r ∙ rw (e, stale) refl,
    rw (contains_stale now k u s.users s.closed e stale) refl,
  )
  | inr fresh ↦ inr (ground (arith, fresh), find_user-keep now k s.users r ∙ rw (e, fresh) refl)
]

abbrev users_of : Server → Users
users_of s = s.users

abbrev closed_of : Server → List ℕ
closed_of s = s.closed

abbrev sent_of : Server → List (ℕ × List ℕ)
sent_of s = s.sent

send_json_shut :
    (ch : ℕ) (json : List ℕ) (s : Server)
    → is_open ch s ≡ false
    → (send_json ch json s).sent ≡ s.sent
unfolding send_json
send_json_shut ch json s h = rw (send_json, h) refl

contains_head : (x y : ℕ) (xs : List ℕ) → x ≡ y → not (contains (x ∷ xs) y) ≡ false
unfolding contains
contains_head x y xs e = ground (arith, e)

abbrev pub user_id_in : List ℕ → List ℕ
user_id_in json = json_get_string json (codes "user_id")

handle_register_ok :
    (now : ℕ) (c : Client) (json : List ℕ) (s s' : Server)
    → handle_register now c json s ≡ some s'
    → length (user_id_in json) ≡ 8
    → (p : ℕ) × (s'
        ≡ send_json c.id
            (register_ok (user_id_in json))
            (record (close_previous (user_id_in json) s) {
              users =
                  insert_user
                    (user_id_in json)
                    (registered now c
                      (user_id_in json)
                      (json_get_string json (codes "local_host"))
                      p)
                    (close_previous (user_id_in json) s).users;
            }))
unfolding handle_register
handle_register_ok now c json s s' e n =
    elim (Option-cases (local_port (json_get_string json (codes "local_port")))) [
      | inl f ↦ ground (arith, f, n)
      | inr (p, f) ↦ (p, ground (arith, f, n))
    ]

close_previous_found :
    (k : List ℕ) (s : Server) (old : RegisteredUser)
    → find_user k s.users ≡ some old
    → close_previous k s ≡ close old.channel s
unfolding close_previous
close_previous_found k s old f = rw (close_previous, f) refl

-- What a registration leaves: the user under its id, and the channel of an earlier one closed.
handle_register_left :
    (now : ℕ) (c : Client) (json : List ℕ) (s s' : Server) (old : RegisteredUser)
    → length (user_id_in json) ≡ 8
    → handle_register now c json s ≡ some s'
    → find_user (user_id_in json) s.users ≡ some old
    → (u : RegisteredUser) × (t : Server) × (t
        ≡ record (close old.channel s) { users = insert_user (user_id_in json) u s.users })
      × (u.channel ≡ c.id)
      × (s' ≡ send_json c.id (register_ok (user_id_in json)) t)
unfolding registered close
handle_register_left now c json s s' old n h f =
    let (p, left) = handle_register_ok now c json s s' h n in
    let k = user_id_in json in
    let u = registered now c k (json_get_string json (codes "local_host")) p in
    (
      u,
      record (close old.channel s) { users = insert_user k u s.users },
      refl,
      refl,
      left
          ∙ ap
              (λ (x : Server).
                send_json c.id (register_ok k) (record x { users = insert_user k u x.users }))
              (close_previous_found k s old f),
    )

-- Registering an id from another connection takes it over: the earlier connection is closed, the
-- id stands for the new one, and it still does once the server has dropped the earlier connection.
pub handle_register-reconnect :
    (now : ℕ) (c : Client) (json : List ℕ) (s s' : Server) (old : RegisteredUser)
    → length (user_id_in json) ≡ 8
    → handle_register now c json s ≡ some s'
    → find_user (user_id_in json) s.users ≡ some old
    → old.channel ≢ c.id
    → (is_open old.channel s' ≡ false)
      × ((u : RegisteredUser) × (u.channel ≡ c.id)
          × (find_user (user_id_in json) s'.users ≡ some u)
          × (find_user (user_id_in json) (drop_channel old.channel s').users ≡ some u))
unfolding drop_channel is_open contains close
handle_register-reconnect now c json s s' old n h f other =
    let k = user_id_in json in
    let (u, t, t_is, mine, s_is) = handle_register_left now c json s s' old n h f in
    let users : s'.users ≡ insert_user k u s.users =
      ap users_of s_is ∙ send_json-users c.id (register_ok k) t ∙ ap users_of t_is in
    let closed : s'.closed ≡ old.channel ∷ s.closed =
      ap closed_of s_is ∙ send_json-closed c.id (register_ok k) t ∙ ap closed_of t_is in
    let found : find_user k s'.users ≡ some u =
      ap (find_user k) users ∙ rw (find_user-insert k k u s.users, bytes_eq_refl k) refl in
    (
      ap (λ (xs : List ℕ). not (contains xs old.channel)) closed
          ∙ contains_head old.channel old.channel s.closed refl,
      (u, mine, found, find_user-erase old.channel k s'.users u (λ q. other (sym q ∙ mine)) found),
    )

-- Registering an id again from the same connection closes that connection: nothing is answered,
-- and in its next turn the server drops the client and erases a registration of its channel.
pub handle_register-again :
    (now : ℕ) (recv : ℕ → Received) (c : Client) (json : List ℕ) (s s' : Server)
    (old : RegisteredUser)
    → length (user_id_in json) ≡ 8
    → handle_register now c json s ≡ some s'
    → find_user (user_id_in json) s.users ≡ some old
    → old.channel ≡ c.id
    → (s'.sent ≡ s.sent)
      × (is_open c.id s' ≡ false)
      × (process_clients now recv (c ∷ []) s' ≡ some ([], drop_channel c.id s'))
unfolding is_open contains send_json process_clients close
handle_register-again now recv c json s s' old n h f same =
    let k = user_id_in json in
    let (u, t, t_is, mine, s_is) = handle_register_left now c json s s' old n h f in
    let closed : s'.closed ≡ old.channel ∷ s.closed =
      ap closed_of s_is ∙ send_json-closed c.id (register_ok k) t ∙ ap closed_of t_is in
    let shut : is_open c.id s' ≡ false =
      ap (λ (xs : List ℕ). not (contains xs c.id)) closed
      ∙ contains_head old.channel c.id s.closed same in
    (
      ap sent_of s_is
          ∙ send_json_shut c.id (register_ok k) t (
              ap (λ (x : Server). not (contains x.closed c.id)) t_is
              ∙ contains_head old.channel c.id s.closed same)
          ∙ ap sent_of t_is,
      shut,
      rw shut refl,
    )
