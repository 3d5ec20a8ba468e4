-- ===== src/Signaling/Relay.antt =====
-- Who a message reaches: the registry after every handler, and the relayed messages.
use mathlib.Core.Path.{subst}
use omnidesk.Prelude.{
  ℕ, ◌≡◌, refl, sym, ap, ◌∙◌, ◌⊎◌, inl, inr, List, none, some, Bool, true, false, Bool-cases,
  Option-cases, arith, ◌==◌, if◌then◌else◌, length,
}
use omnidesk.Text.{codes, is_empty}
use omnidesk.Json.{json_get_string}
use omnidesk.Signaling.Registry.{
  Client, RegisteredUser, Server, close, send_json, find_user, insert_user,
}
use omnidesk.Signaling.Handlers.{
  handle_register, handle_connect_request, handle_connect_accept, handle_connect_reject,
  handle_heartbeat, handle_sdp_offer, handle_sdp_answer, handle_ice_candidate, relay, touch,
  local_port, registered, close_previous, register_ok, register_fail,
}
use omnidesk.Signaling.Keys.{IsRegistry, insert-IsRegistry, Users, find_user-registered}

-- Sending changes neither the registry nor what is open.
pub send_json-users : (ch : ℕ) (json : List ℕ) (s : Server) → (send_json ch json s).users ≡ s.users
unfolding send_json
send_json-users ch json s = ground arith

-- The handlers other than handle_register and handle_heartbeat leave the registry as it is.
pub handle_connect_request-users :
    (c : Client) (json : List ℕ) (s : Server) → (handle_connect_request c json s).users ≡ s.users
unfolding handle_connect_request send_json
handle_connect_request-users c json s = ground arith

pub handle_connect_accept-users :
    (json : List ℕ) (s : Server) → (handle_connect_accept json s).users ≡ s.users
unfolding handle_connect_accept send_json
handle_connect_accept-users json s = ground arith

pub handle_connect_reject-users :
    (json : List ℕ) (s : Server) → (handle_connect_reject json s).users ≡ s.users
unfolding handle_connect_reject send_json
handle_connect_reject-users json s = ground arith

pub relay-users :
    (type : List ℕ) (payload : List (List ℕ × List ℕ)) (c : Client) (json : List ℕ) (s : Server)
    → (relay type payload c json s).users ≡ s.users
unfolding relay send_json
relay-users type payload c json s = ground arith

pub touch_cases :
    (now : ℕ) (k : List ℕ) (m : Users)
    → ((touch now k m ≡ m) × (find_user k m ≡ none))
      ⊎ ((u : RegisteredUser) × (find_user k m ≡ some u)
          × (touch now k m ≡ insert_user k (record u { last_heartbeat = now }) m))
unfolding touch
touch_cases now k m = elim (Option-cases (find_user k m)) [
  | inl e ↦ inl (rw (e, touch), e)
  | inr (u, e) ↦ inr (u, e, rw (e, touch))
]

if-IsRegistry :
    (b : Bool) (m n : Users) → IsRegistry m → IsRegistry n → IsRegistry (if b then m else n)
if-IsRegistry true m n p q = p
if-IsRegistry false m n p q = q

pub touch-IsRegistry :
    (now : ℕ) (k : List ℕ) (m : Users) → IsRegistry m → IsRegistry (touch now k m)
touch-IsRegistry now k m r = elim (touch_cases now k m) [
  | inl (e, _) ↦ subst IsRegistry (sym e) r
  | inr (u, f, e) ↦
      let q = find_user-registered k m u r f in
      subst IsRegistry (sym e) (insert-IsRegistry k (record u { last_heartbeat = now }) m q.1 q.0 r)
]

pub handle_heartbeat-users :
    (now : ℕ) (c : Client) (json : List ℕ) (s : Server)
    → (handle_heartbeat now c json s).users ≡ (
        if is_empty (json_get_string json (codes "user_id"))
        then s.users
        else touch now (json_get_string json (codes "user_id")) s.users)
unfolding handle_heartbeat send_json
handle_heartbeat-users now c json s = ground arith

pub handle_heartbeat-IsRegistry :
    (now : ℕ) (c : Client) (json : List ℕ) (s : Server)
    → IsRegistry s.users
    → IsRegistry (handle_heartbeat now c json s).users
handle_heartbeat-IsRegistry now c json s r =
    subst IsRegistry (sym (handle_heartbeat-users now c json s))
      (if-IsRegistry _ _ _ r (touch-IsRegistry now _ s.users r))

pub close_previous-users : (k : List ℕ) (s : Server) → (close_previous k s).users ≡ s.users
unfolding close_previous close
close_previous-users k s = ground arith

-- A registration either fails for the length of the id, or enters the client under it.
pub handle_register_cases :
    (now : ℕ) (c : Client) (json : List ℕ) (s s' : Server)
    → handle_register now c json s ≡ some s'
    → let k : List ℕ = json_get_string json (codes "user_id") in
      (s' ≡ send_json c.id register_fail s)
      ⊎ ((p : ℕ) × (length k ≡ 8)
          × (s'
              ≡ send_json c.id (register_ok k) (record (close_previous k s) {
                users =
                    insert_user k
                      (registered now c k (json_get_string json (codes "local_host")) p)
                      (close_previous k s).users;
              })))
unfolding handle_register
handle_register_cases now c json s s' e =
    elim (Option-cases (local_port (json_get_string json (codes "local_port")))) [
      | inl f ↦ inl (ground (arith, f))
      | inr (p, f) ↦ elim (Bool-cases (length (json_get_string json (codes "user_id")) == 8)) [
        | inl eight ↦ inr (p, ground (arith, eight), ground (arith, eight, f))
        | inr other ↦ inl (ground (arith, other))
      ]
    ]

pub handle_register-IsRegistry :
    (now : ℕ) (c : Client) (json : List ℕ) (s s' : Server)
    → IsRegistry s.users
    → handle_register now c json s ≡ some s'
    → IsRegistry s'.users
handle_register-IsRegistry now c json s s' r e = elim (handle_register_cases now c json s s' e) [
  | inl q ↦
      subst IsRegistry (sym (ap (λ (x : Server). x.users) q ∙ send_json-users c.id register_fail s))
        r
  | inr (p, n, q) ↦
      let k : List ℕ = json_get_string json (codes "user_id") in
      let u = registered now c k (json_get_string json (codes "local_host")) p in
      subst IsRegistry
        (sym (
          ap (λ (x : Server). x.users) q
          ∙ send_json-users c.id (register_ok k) _
          ∙ ap (insert_user k u) (close_previous-users k s)))
        (insert-IsRegistry k u s.users n (unfold registered in refl) r)
]

pub handle_sdp-users :
    (c : Client) (json : List ℕ) (s : Server)
    → ((handle_sdp_offer c json s).users ≡ s.users)
      × ((handle_sdp_answer c json s).users ≡ s.users)
      × ((handle_ice_candidate c json s).users ≡ s.users)
unfolding handle_sdp_offer handle_sdp_answer handle_ice_candidate
handle_sdp-users c json s =
    (relay-users _ _ c json s, relay-users _ _ c json s, relay-users _ _ c json s)
