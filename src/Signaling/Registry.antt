-- ===== src/Signaling/Registry.antt =====
-- The registry of users and the channels: RegisteredUser, users_ (a std::map, so in the order of
-- its keys), clients_, findUserByChannel, purgeStaleUsers.
use omnidesk.Prelude.{
  ℕ, ◌-◌, ◌/◌, ◌^◌, List, [], ◌∷◌, ◌++◌, Option, none, some, Bool, true, false, leb, ◌==◌, not,
  if◌then◌else◌,
}
use omnidesk.Text.{bytes_eq, bytes_lt}

-- A TCP connection that the server has accepted, and the peer's address.
pub record Client : Type 0 where
  pub id : ℕ
  pub remote_host : List ℕ
  pub remote_port : ℕ

pub record PeerAddress : Type 0 where
  pub host : List ℕ
  pub port : ℕ

pub record RegisteredUser : Type 0 where
  pub user_id : List ℕ
  pub channel : ℕ
  pub public_addr : PeerAddress
  pub local_addr : PeerAddress
  pub last_heartbeat : ℕ

pub record Server : Type 0 where
  pub users : List (List ℕ × RegisteredUser)
  pub clients : List Client
  pub closed : List ℕ
  pub sent : List (ℕ × List ℕ)

unfoldable pub contains : List ℕ → ℕ → Bool
contains [] a = false
contains (x ∷ xs) a = if x == a then true else contains xs a

unfoldable pub is_open : ℕ → Server → Bool
unfolding contains
is_open ch s = not (contains s.closed ch)

unfoldable pub close : ℕ → Server → Server
close ch s = record s { closed = ch ∷ s.closed }

-- TcpChannel::send fails on a closed channel, and its result is ignored.
unfoldable pub send_json : ℕ → List ℕ → Server → Server
send_json ch json s = if is_open ch s then record s { sent = s.sent ++ ((ch, json) ∷ []) } else s

unfoldable pub find_user : List ℕ → List (List ℕ × RegisteredUser) → Option RegisteredUser
find_user k [] = none
find_user k ((j, u) ∷ m) = if bytes_eq j k then some u else find_user k m

-- `users_[k] = u`.
unfoldable pub insert_user :
    List ℕ → RegisteredUser → List (List ℕ × RegisteredUser) → List (List ℕ × RegisteredUser)
insert_user k u [] = (k, u) ∷ []
insert_user k u ((j, w) ∷ m) =
    let rest = insert_user k u m in
    if bytes_eq j k
    then (j, u) ∷ m
    else (if bytes_lt k j then (k, u) ∷ (j, w) ∷ m else (j, w) ∷ rest)

-- The first entry in key order whose channel this is; its key goes with it.
unfoldable pub find_by_channel : ℕ → List (List ℕ × RegisteredUser) → Option RegisteredUser
find_by_channel ch [] = none
find_by_channel ch ((j, u) ∷ m) = if u.channel == ch then some u else find_by_channel ch m

-- UserID{} if there is none.
unfoldable pub find_user_by_channel : ℕ → Server → List ℕ
unfolding find_by_channel
find_user_by_channel ch s = elim (find_by_channel ch s.users) [ none ↦ [] | some u ↦ u.user_id ]

unfoldable pub erase_channel : ℕ → List (List ℕ × RegisteredUser) → List (List ℕ × RegisteredUser)
erase_channel ch [] = []
erase_channel ch ((j, u) ∷ m) = if u.channel == ch then m else (j, u) ∷ erase_channel ch m

-- The loop that removes the first user of a channel and breaks.
unfoldable pub drop_channel : ℕ → Server → Server
unfolding erase_channel
drop_channel ch s = record s { users = erase_channel ch s.users }

abbrev pub heartbeat_timeout_sec : ℕ
heartbeat_timeout_sec = 90

-- The clock counts nanoseconds, and a duration is cast to whole seconds.
abbrev pub seconds_since : ℕ → ℕ → ℕ
seconds_since now t = (now - t) / 10 ^ 9

abbrev pub is_stale : ℕ → RegisteredUser → Bool
is_stale now u = leb heartbeat_timeout_sec (seconds_since now u.last_heartbeat)

unfoldable pub keep_fresh : ℕ → List (List ℕ × RegisteredUser) → List (List ℕ × RegisteredUser)
keep_fresh now [] = []
keep_fresh now ((j, u) ∷ m) = if is_stale now u then keep_fresh now m else (j, u) ∷ keep_fresh now m

unfoldable pub stale_channels : ℕ → List (List ℕ × RegisteredUser) → List ℕ
stale_channels now [] = []
stale_channels now ((j, u) ∷ m) =
    if is_stale now u then u.channel ∷ stale_channels now m else stale_channels now m

-- purgeStaleUsers: stale users go, and their channels are closed.
unfoldable pub purge : ℕ → Server → Server
unfolding keep_fresh stale_channels
purge now s = record s {
  users = keep_fresh now s.users;
  closed = stale_channels now s.users ++ s.closed;
}
