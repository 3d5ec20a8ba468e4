-- ===== src/Signaling/Presence.antt =====
-- Who is registered and reachable: registration, reconnection, heartbeats and the purge.

use omnidesk.Prelude.{
  ℕ, ◌≡◌, refl, ap, ◌∙◌, ◌⊎◌, inl, inr, List, [], ◌∷◌, ◌++◌, none, some, true, false, Bool-cases,
  Option-cases, arith, ◌==◌, length,
}
use omnidesk.Text.{codes, is_empty}
use omnidesk.Json.{json_get_string, json_make_object}
use omnidesk.Signaling.Registry.{
  Client, RegisteredUser, Server, is_open, send_json, find_user, find_user_by_channel,
  find_by_channel,
}
use omnidesk.Signaling.Handlers.{relay, reachable, user_offline}
use omnidesk.Signaling.Keys.{IsRegistry, find_by_channel-registered, find_user-registered}

-- The user that the channel of a client is registered for.
abbrev pub Sender : Client → RegisteredUser → Server → Type 0
Sender c me s =
    (find_by_channel c.id s.users ≡ some me)
    × (find_user me.user_id s.users ≡ some me)
    × (me.channel ≡ c.id)

-- Not registered, or registered with a channel that is closed.
abbrev pub Missing : List ℕ → Server → Type 0
Missing target s =
    (find_user target s.users ≡ none)
    ⊎ ((u : RegisteredUser) × (find_user target s.users ≡ some u) × (is_open u.channel s ≡ false))

-- The cases of a relayed message, of which one holds: nothing for an empty target or a channel that
-- no user is registered for; otherwise a notice to the sender if the target is missing, and the
-- message to the target alone if it is not.
abbrev pub Delivery : List ℕ → List (List ℕ × List ℕ) → Client → List ℕ → Server → Server → Type 0
Delivery type payload c target s t =
    (((is_empty target ≡ true) ⊎ (find_by_channel c.id s.users ≡ none)) × (t ≡ s))
    ⊎ ((is_empty target ≡ false)
        × ((me : RegisteredUser) × Sender c me s)
        × Missing target s
        × (t ≡ send_json c.id (user_offline target) s))
    ⊎ ((is_empty target ≡ false)
        × ((me : RegisteredUser) × (u : RegisteredUser) × Sender c me s
            × (find_user target s.users ≡ some u)
            × (is_open u.channel s ≡ true)
            × (t ≡ record s {
              sent =
                  s.sent
                  ++ ((
                    u.channel,
                    json_make_object ((codes "type", type) ∷ (codes "from", me.user_id) ∷ payload),
                  )
                      ∷ []);
            })))

pub reachable_cases :
    (target : List ℕ) (s : Server)
    → ((reachable target s ≡ none) × Missing target s)
      ⊎ ((u : RegisteredUser) × (reachable target s ≡ some u)
          × (find_user target s.users ≡ some u)
          × (is_open u.channel s ≡ true))
unfolding reachable
reachable_cases target s = elim (Option-cases (find_user target s.users)) [
  | inl e ↦ inl (rw e, inl e)
  | inr (u, e) ↦ elim (Bool-cases (is_open u.channel s)) [
    | inl o ↦ inr (u, rw (e, o), e, o)
    | inr o ↦ inl (rw (e, o), inr (u, e, o))
  ]
]

sender_cases :
    (ch : ℕ) (s : Server)
    → IsRegistry s.users
    → ((find_by_channel ch s.users ≡ none) × ((length (find_user_by_channel ch s) == 8) ≡ false))
      ⊎ ((me : RegisteredUser) × (find_user_by_channel ch s ≡ me.user_id)
          × (find_by_channel ch s.users ≡ some me)
          × (find_user me.user_id s.users ≡ some me)
          × (me.channel ≡ ch))
unfolding find_user_by_channel
sender_cases ch s r = elim (Option-cases (find_by_channel ch s.users)) [
  | inl e ↦ inl (e, rw (length, find_user_by_channel, e) refl)
  | inr (me, e) ↦
      let q = find_by_channel-registered ch s.users me r e in
      inr (me, rw (find_user_by_channel, e) refl, e, q.0, q.1)
]

-- With a well-formed registry, what is relayed comes from the user that the channel is registered
-- for, whatever the message claims, and goes to the registered target alone; a target that is not
-- empty, and not registered or with its channel closed, is reported to the sender, if the sender's
-- own channel is open. Nothing happens for an empty target or a channel that no user is registered
-- for, and nothing else is sent or changes.
pub relay-Delivery :
    (type : List ℕ) (payload : List (List ℕ × List ℕ)) (c : Client) (json : List ℕ) (s : Server)
    → IsRegistry s.users
    → Delivery type payload c (json_get_string json (codes "to")) s (relay type payload c json s)
unfolding relay send_json json_make_object
relay-Delivery type payload c json s r = elim (sender_cases c.id s r) [
  | inl (nobody, short) ↦ inl (inr nobody, ground (arith, short))
  | inr (me, sender, held, found, mine) ↦
      let n : length (find_user_by_channel c.id s) == 8 ≡ true =
        ap (λ (k : List ℕ). length k == 8) sender
        ∙ ap (λ (i : ℕ). i == 8) (find_user-registered me.user_id s.users me r found).1 in
      elim (Bool-cases (is_empty (json_get_string json (codes "to")))) [
        | inl empty ↦ inl (inl empty, rw empty refl)
        | inr target ↦ elim (reachable_cases (json_get_string json (codes "to")) s) [
          | inl (none_there, missing) ↦
              inr
                (inl (target, (me, (held, found, mine)), missing, rw (target, n, none_there) refl))
          | inr (u, e, f, o) ↦ inr (
              inr (
                target,
                (me, u, (held, found, mine), f, o, rw (target, n, e, send_json, o, sender) refl),
              ))
        ]
      ]
]
