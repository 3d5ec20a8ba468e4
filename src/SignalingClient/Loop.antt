-- ===== src/SignalingClient/Loop.antt =====
-- The receiving thread: one round of receiveLoop.
use omnidesk.Prelude.{
  ℕ, ◌-◌, ◌/◌, ◌^◌, List, [], ◌∷◌, Option, some, Bool, true, false, leb, ◌&&◌, not, if◌then◌else◌,
}
use omnidesk.Bytes.{◌>>=◌}
use omnidesk.Text.{codes}
use omnidesk.Json.{json_make_object}
use omnidesk.SignalingClient.State.{SignalingClient, disconnected, raise, send_json, handle_message}

-- What the channel gives in this round: nothing yet, a message, the end of the connection, or an
-- error or a partial message, which the loop passes over.
pub data Arrival : Type 0 where
  nothing_yet ended passed_over : Arrival
  message : List ℕ → Arrival

abbrev pub heartbeat_interval_sec : ℕ
heartbeat_interval_sec = 30

unfoldable pub heartbeat : Bool → ℕ → SignalingClient → SignalingClient
heartbeat ok now c =
    let json : List ℕ =
      json_make_object ((codes "type", codes "heartbeat") ∷ (codes "user_id", c.user_id) ∷ []) in
    if leb heartbeat_interval_sec ((now - c.last_heartbeat_sent) / 10 ^ 9) && c.registered
    then record (send_json ok json c).1 { last_heartbeat_sent = now }
    else c

-- Whether the thread goes on, and the client. `again` is tryReconnect.
unfoldable pub lost :
    (SignalingClient → Bool × SignalingClient) → SignalingClient → Bool × SignalingClient
lost again c =
    let c1 : SignalingClient =
      raise disconnected (record c { connected = false; registered = false }) in
    if c1.auto_reconnect && c1.running then again c1 else (false, c1)

-- A round, while running_ is set; `none` is an exception.
unfoldable pub receive_round :
    Bool
    → ℕ
    → (SignalingClient → Bool × SignalingClient)
    → Arrival
    → SignalingClient
    → Option (Bool × SignalingClient)
receive_round ok now again arrival c =
    let c1 : SignalingClient = heartbeat ok now c in
    if not c1.channel_open then some (lost again c1) else elim arrival [
      | nothing_yet ↦ some (true, c1)
      | passed_over ↦ some (true, c1)
      | message json ↦ handle_message json c1 >>= λ c2. some (true, c2)
      | ended ↦ some (lost again c1)
    ]
