-- ===== src/Signaling/Keys.antt =====
-- The registry as a map: lookups after the operations, and the order of the keys.
use mathlib.Core.Bool.{false≢true}
use omnidesk.Prelude.{
  ℕ, ◌≡◌, ◌≢◌, refl, sym, ap, ◌∙◌, inl, inr, List, [], ◌∷◌, none, some, true, Bool-cases, arith,
  if◌then◌else◌, length,
}
use omnidesk.Text.{bytes_eq, bytes_lt}
use omnidesk.Text.Order.{
  bytes_eq_iff, bytes_eq_refl, bytes_eq-false, bytes_lt_trans, bytes_lt_total, ne_of_bytes_lt,
}
use omnidesk.Signaling.Registry.{
  RegisteredUser, find_user, insert_user, erase_channel, keep_fresh, is_stale, find_by_channel,
}

abbrev pub Users : Type 0
Users = List (List ℕ × RegisteredUser)

-- Every key of `m` comes after `k`.
abbrev pub Above : List ℕ → Users → Type 0
Above k [] = Unit {0}
Above k ((j, u) ∷ m) = (bytes_lt k j ≡ true) × Above k m

-- The keys ascend, have eight characters, and are the ids of their users.
abbrev pub IsRegistry : Users → Type 0
IsRegistry [] = Unit {0}
IsRegistry ((j, u) ∷ m) = (length j ≡ 8) × (u.user_id ≡ j) × Above j m × IsRegistry m

Above-trans : (k j : List ℕ) (m : Users) → bytes_lt k j ≡ true → Above j m → Above k m
Above-trans k j [] h a = tt
Above-trans k j ((i, u) ∷ m) h a = (bytes_lt_trans k j i h a.0, Above-trans k j m h a.1)

pub find_user-insert :
    (k j : List ℕ) (u : RegisteredUser) (m : Users)
    → find_user j (insert_user k u m) ≡ (if bytes_eq k j then some u else find_user j m)
unfolding find_user insert_user
find_user-insert k j u [] = refl
find_user-insert k j u ((i, w) ∷ m) =
    ground (arith, bytes_eq_iff k j, bytes_eq_iff i k, bytes_eq_iff i j, find_user-insert k j u m)

Above-insert :
    (i k : List ℕ) (u : RegisteredUser) (m : Users)
    → bytes_lt i k ≡ true
    → Above i m
    → Above i (insert_user k u m)
unfolding insert_user
Above-insert i k u [] h a = (h, tt)
Above-insert i k u ((j, w) ∷ m) h a = ground (arith, Above-insert i k u m h a.1)

pub insert-IsRegistry :
    (k : List ℕ) (u : RegisteredUser) (m : Users)
    → length k ≡ 8
    → u.user_id ≡ k
    → IsRegistry m
    → IsRegistry (insert_user k u m)
unfolding insert_user
insert-IsRegistry k u [] n e r = (n, e, tt, tt)
insert-IsRegistry k u ((j, w) ∷ m) n e r = elim (Bool-cases (bytes_eq j k)) [
  | inl same ↦ rw same (r.0, e ∙ sym ((bytes_eq_iff j k).0 same), r.2, r.3)
  | inr other ↦ elim (Bool-cases (bytes_lt k j)) [
    | inl first ↦ rw (other, first) (n, e, (first, Above-trans k j m first r.2), r)
    | inr later ↦
        let after : bytes_lt j k ≡ true =
          bytes_lt_total k j later
            (bytes_eq-false k j (λ q. false≢true (sym other ∙ rw q (bytes_eq_refl j)))) in
        rw (other, later)
          (r.0, r.1, Above-insert j k u m after r.2, insert-IsRegistry k u m n e r.3)
  ]
]

Above-erase : (k : List ℕ) (ch : ℕ) (m : Users) → Above k m → Above k (erase_channel ch m)
unfolding erase_channel
Above-erase k ch [] a = tt
Above-erase k ch ((j, u) ∷ m) a = ground (arith, Above-erase k ch m a.1)

pub erase-IsRegistry : (ch : ℕ) (m : Users) → IsRegistry m → IsRegistry (erase_channel ch m)
unfolding erase_channel
erase-IsRegistry ch [] r = tt
erase-IsRegistry ch ((j, u) ∷ m) r =
    ground (arith, Above-erase j ch m r.2, erase-IsRegistry ch m r.3)

Above-keep : (k : List ℕ) (now : ℕ) (m : Users) → Above k m → Above k (keep_fresh now m)
unfolding keep_fresh
Above-keep k now [] a = tt
Above-keep k now ((j, u) ∷ m) a = ground (arith, Above-keep k now m a.1)

pub keep-IsRegistry : (now : ℕ) (m : Users) → IsRegistry m → IsRegistry (keep_fresh now m)
unfolding keep_fresh
keep-IsRegistry now [] r = tt
keep-IsRegistry now ((j, u) ∷ m) r =
    ground (arith, Above-keep j now m r.2, keep-IsRegistry now m r.3)

-- Losing a channel's entry is nothing to a user with another channel.
pub find_user-erase :
    (ch : ℕ) (k : List ℕ) (m : Users) (u : RegisteredUser)
    → u.channel ≢ ch
    → find_user k m ≡ some u
    → find_user k (erase_channel ch m) ≡ some u
unfolding find_user erase_channel
find_user-erase ch k [] u h e = cc
find_user-erase ch k ((j, w) ∷ m) u h e = ground (arith, find_user-erase ch k m u h)

find_user-Above : (k : List ℕ) (m : Users) → Above k m → find_user k m ≡ none
unfolding find_user
find_user-Above k [] a = refl
find_user-Above k ((j, u) ∷ m) a =
    ground
      (arith, bytes_eq_iff j k, ne_of_bytes_lt k j a.0, find_user-Above k m a.1, bytes_eq_iff k j)

-- A purge removes exactly the stale users.
pub find_user-keep :
    (now : ℕ) (k : List ℕ) (m : Users)
    → IsRegistry m
    → find_user k (keep_fresh now m)
      ≡ elim (find_user k m) [ none ↦ none | some u ↦ if is_stale now u then none else some u ]
unfolding find_user keep_fresh
find_user-keep now k [] r = refl
find_user-keep now k ((j, u) ∷ m) r =
    ground (arith, bytes_eq_iff j k, find_user-keep now k m r.3, find_user-Above j m r.2)

-- The id that a channel's messages are relayed under is registered, for that channel.
pub find_by_channel-registered :
    (ch : ℕ) (m : Users) (u : RegisteredUser)
    → IsRegistry m
    → find_by_channel ch m ≡ some u
    → (find_user u.user_id m ≡ some u) × (u.channel ≡ ch)
unfolding find_by_channel find_user
find_by_channel-registered ch [] u r e = cc
find_by_channel-registered ch ((j, w) ∷ m) u r e = ground (
  arith,
  bytes_eq_iff j u.user_id,
  r.1,
  find_user-Above j m r.2,
  find_by_channel-registered ch m u r.3,
  λ (q : j ≡ u.user_id). ap (λ (k : List ℕ). find_user k m) q,
)

pub find_user-registered :
    (k : List ℕ) (m : Users) (u : RegisteredUser)
    → IsRegistry m
    → find_user k m ≡ some u
    → (u.user_id ≡ k) × (length k ≡ 8)
unfolding find_user
find_user-registered k [] u r e = cc
find_user-registered k ((j, w) ∷ m) u r e = ground (
  arith,
  bytes_eq_iff j k,
  find_user-registered k m u r.3,
  λ (q : j ≡ k). ap (λ (i : List ℕ). length i) q,
)
