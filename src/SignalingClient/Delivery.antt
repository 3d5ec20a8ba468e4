-- ===== src/SignalingClient/Delivery.antt =====
-- An SDP offer from one client over the server to another.
use omnidesk.Prelude.{
  ℕ, ◌≡◌, ◌≢◌, ◌<◌, refl, sym, ap, ◌∙◌, List, [], ◌∷◌, ◌++◌, some, true, false, arith, length,
  get_or, ◌==◌, inl, inr,
}
use omnidesk.Text.{codes, is_empty, bytes_eq}
use omnidesk.Json.{json_get_string, json_make_object}
use omnidesk.Json.RoundTrip.{NoQuote, IsKey, json_get_string-make_object}
use omnidesk.Signaling.Registry.{
  Client, RegisteredUser, Server, is_open, find_user_by_channel, send_json,
}
use omnidesk.Signaling.Handlers.{reachable, relay, handle_sdp_offer}
use omnidesk.Signaling.{handle_client_message}
use omnidesk.Signaling.Presence.{reachable_cases}
use omnidesk.SignalingClient.Escape.{json_escape, json_unescape-escape, json_escape-NoQuote}
use omnidesk.SignalingClient.State.{
  SignalingClient, sdp_offer, raise, when_registered, sdp_message, send_sdp_offer, read_sdp,
  handle_message,
}

not_short : (s t : List ℕ) → length s ≡ 8 → length t ≢ 8 → s ≢ t
not_short s t e h same = h (sym (ap (λ (x : List ℕ). length x) same) ∙ e)

type_not_from : codes "type" ≢ codes "from"
type_not_from e = absurd (omega (arith, ap (λ (x : List ℕ). get_or x 0 0) e))

-- What the second field of a message holds, behind its type.
second_field :
    (type key value : List ℕ) (more : List (List ℕ × List ℕ))
    → NoQuote type
    → IsKey key
    → codes "type" ≢ key
    → type ≢ key
    → NoQuote value
    → json_get_string (json_make_object ((codes "type", type) ∷ (key, value) ∷ more)) key ≡ value
second_field type key value more a b c d e =
    json_get_string-make_object ((codes "type", type) ∷ []) more key value b
      ((omega arith, a, c, d), tt) e

third_field :
    (type key value key' value' : List ℕ)
    → NoQuote type
    → NoQuote key
    → NoQuote value
    → IsKey key'
    → codes "type" ≢ key'
    → type ≢ key'
    → key ≢ key'
    → value ≢ key'
    → NoQuote value'
    → json_get_string
        (json_make_object ((codes "type", type) ∷ (key, value) ∷ (key', value') ∷ []))
        key'
      ≡ value'
third_field type key value key' value' a b c d e f g h i =
    json_get_string-make_object ((codes "type", type) ∷ (key, value) ∷ []) [] key' value' d
      ((omega arith, a, e, f), ((b, c, g, h), tt)) i

by_length : (xs ys : List ℕ) → length xs ≢ length ys → xs ≢ ys
by_length xs ys h e = h (ap (λ (x : List ℕ). length x) e)

long_IsKey : (k : List ℕ) → NoQuote k → 1 < length k → IsKey k
long_IsKey k h n = record {
  plain = h;
  no_colon = by_length k (58 ∷ []) (omega arith);
  no_comma = by_length k (44 ∷ []) (omega arith);
}

type_field :
    (type : List ℕ) (more : List (List ℕ × List ℕ))
    → NoQuote type
    → json_get_string (json_make_object ((codes "type", type) ∷ more)) (codes "type") ≡ type
type_field type more h =
    json_get_string-make_object [] more (codes "type") type
      (long_IsKey (codes "type") (omega arith) (omega arith)) tt h

-- The message of the server.
abbrev relayed : List ℕ → List ℕ → List ℕ
relayed sender text =
    json_make_object
      ((codes "type", codes "sdp_offer") ∷ (codes "from", sender) ∷ (codes "sdp", text) ∷ [])

-- A user id, as the server requires it, without a quote.
pub record IsId (k : List ℕ) : Type 0 where
  pub eight : length k ≡ 8
  pub plain : NoQuote k

id_differs : (k : List ℕ) → IsId k → k ≢ codes "sdp"
id_differs k h = by_length k (codes "sdp") (omega (arith, h.eight))

offer_target :
    (target sdp : List ℕ)
    → IsId target
    → json_get_string (sdp_message (codes "sdp_offer") target sdp) (codes "to") ≡ target
offer_target target sdp h =
    second_field (codes "sdp_offer") (codes "to") target ((codes "sdp", json_escape sdp) ∷ [])
      (omega arith) (long_IsKey (codes "to") (omega arith) (omega arith))
      (by_length (codes "type") (codes "to") (omega arith))
      (by_length (codes "sdp_offer") (codes "to") (omega arith)) h.plain

sdp_field :
    (key sender text : List ℕ)
    → NoQuote key
    → key ≢ codes "sdp"
    → IsId sender
    → NoQuote text
    → json_get_string
        (json_make_object
          ((codes "type", codes "sdp_offer") ∷ (key, sender) ∷ (codes "sdp", text) ∷ []))
        (codes "sdp")
      ≡ text
sdp_field key sender text a n h k =
    third_field (codes "sdp_offer") key sender (codes "sdp") text (omega arith) a h.plain
      (long_IsKey (codes "sdp") (omega arith) (omega arith))
      (by_length (codes "type") (codes "sdp") (omega arith))
      (by_length (codes "sdp_offer") (codes "sdp") (omega arith)) n (id_differs sender h) k

-- The client's end.
handle_relayed :
    (sender sdp : List ℕ) (b : SignalingClient)
    → IsId sender
    → NoQuote sdp
    → handle_message (relayed sender (json_escape sdp)) b
      ≡ some (raise (sdp_offer (record { from_id = sender; sdp = sdp; kind = codes "offer" })) b)
unfolding handle_message read_sdp bytes_eq
handle_relayed sender sdp b h k =
    let from =
      second_field (codes "sdp_offer") (codes "from") sender ((codes "sdp", json_escape sdp) ∷ [])
        (omega arith) (long_IsKey (codes "from") (omega arith) (omega arith)) type_not_from
        (by_length (codes "sdp_offer") (codes "from") (omega arith)) h.plain in
    let text =
      sdp_field (codes "from") sender (json_escape sdp) (omega arith)
        (by_length (codes "from") (codes "sdp") (omega arith)) h (json_escape-NoQuote sdp k) in
    rw (type_field (codes "sdp_offer") _ (omega arith), from, text, json_unescape-escape sdp) refl

some_channel : (u v : RegisteredUser) → some u ≡ some v → u.channel ≡ v.channel
some_channel u v e = let same : u ≡ v = cc in ap (λ (x : RegisteredUser). x.channel) same

id_nonempty : (k : List ℕ) → IsId k → is_empty k ≡ false
id_nonempty [] h = absurd (omega (arith, h.eight))
id_nonempty (c ∷ k) h = refl

reachable-open :
    (target : List ℕ) (s : Server) (u : RegisteredUser)
    → reachable target s ≡ some u
    → is_open u.channel s ≡ true
reachable-open target s u e = elim (reachable_cases target s) [
  | inl (none_there, missing) ↦ cc
  | inr (v, e', found, o) ↦
      let same : some u ≡ some v = sym e ∙ e' in
      let channel : u.channel ≡ v.channel = some_channel u v same in
      ap (λ (ch : ℕ). is_open ch s) channel ∙ o
]

-- The server's part.
relay_offer :
    (client : Client) (now : ℕ) (s : Server) (u : RegisteredUser) (target sdp : List ℕ)
    → IsId target
    → NoQuote sdp
    → IsId (find_user_by_channel client.id s)
    → reachable target s ≡ some u
    → handle_client_message now client (sdp_message (codes "sdp_offer") target sdp) s
      ≡ some (record s {
        sent =
            s.sent
            ++ ((u.channel, relayed (find_user_by_channel client.id s) (json_escape sdp)) ∷ []);
      })
unfolding handle_client_message handle_sdp_offer relay send_json bytes_eq
relay_offer client now s u target sdp ht k hs e =
    let sender : List ℕ = find_user_by_channel client.id s in
    let text =
      sdp_field (codes "to") target (json_escape sdp) (omega arith)
        (by_length (codes "to") (codes "sdp") (omega arith)) ht (json_escape-NoQuote sdp k) in
    let eight : (length sender == 8) ≡ true = ground (arith, hs.eight) in
    rw
      (
        type_field (codes "sdp_offer") _ (omega arith),
        offer_target target sdp ht,
        id_nonempty target ht,
        eight,
        e,
        reachable-open target s u e,
        text,
      )
      refl

-- An offer without a quote that a registered client sends to an id goes to the server as one
-- message. If the sender's channel is registered for an id and the target is registered and its
-- channel open, the server sends one message on the target's channel, and the client there raises
-- the offer with the id that the server knows the sender by and with exactly the text that was
-- sent.
pub sdp_offer-delivery :
    (a b : SignalingClient) (client : Client) (now : ℕ) (s : Server) (u : RegisteredUser)
    (target sdp : List ℕ)
    → a.connected ≡ true
    → a.registered ≡ true
    → IsId target
    → NoQuote sdp
    → IsId (find_user_by_channel client.id s)
    → reachable target s ≡ some u
    → (m : List ℕ) × (m' : List ℕ) × ((send_sdp_offer true target sdp a).1.sent
        ≡ a.sent ++ (m ∷ []))
      × (handle_client_message now client m s
          ≡ some (record s { sent = s.sent ++ ((u.channel, m') ∷ []) }))
      × (handle_message m' b
          ≡ some (
              raise
                (sdp_offer (record {
                  from_id = find_user_by_channel client.id s;
                  sdp = sdp;
                  kind = codes "offer";
                }))
                b))
unfolding send_sdp_offer when_registered
sdp_offer-delivery a b client now s u target sdp on in_registry ht k hs e = (
  sdp_message (codes "sdp_offer") target sdp,
  relayed (find_user_by_channel client.id s) (json_escape sdp),
  rw (on, in_registry) refl,
  relay_offer client now s u target sdp ht k hs e,
  handle_relayed (find_user_by_channel client.id s) sdp b hs k,
)
