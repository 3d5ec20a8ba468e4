-- ===== src/Text/Order.antt =====
-- Equality and order of byte strings.
use omnidesk.Prelude.{ℕ, ◌≡◌, ◌≢◌, ◌↔◌, refl, List, [], ◌∷◌, true, false, arith}
use omnidesk.Text.{bytes_eq, bytes_lt}

pub bytes_eq_iff : (xs ys : List ℕ) → (bytes_eq xs ys ≡ true) ↔ (xs ≡ ys)
unfolding bytes_eq
bytes_eq_iff [] [] = ((λ h. refl), (λ h. refl))
bytes_eq_iff [] (y ∷ ys) = ((λ h. cc), (λ h. cc))
bytes_eq_iff (x ∷ xs) [] = ((λ h. cc), (λ h. cc))
bytes_eq_iff (x ∷ xs) (y ∷ ys) = ground (arith, bytes_eq_iff xs ys)

pub bytes_eq_refl : (xs : List ℕ) → bytes_eq xs xs ≡ true
bytes_eq_refl xs = (bytes_eq_iff xs xs).1 refl

pub bytes_eq-false : (xs ys : List ℕ) → xs ≢ ys → bytes_eq xs ys ≡ false
bytes_eq-false xs ys h = ground (arith, bytes_eq_iff xs ys)

pub bytes_lt_trans :
    (xs ys zs : List ℕ) → bytes_lt xs ys ≡ true → bytes_lt ys zs ≡ true → bytes_lt xs zs ≡ true
unfolding bytes_lt
bytes_lt_trans [] [] zs h k = cc
bytes_lt_trans [] (y ∷ ys) [] h k = cc
bytes_lt_trans [] (y ∷ ys) (z ∷ zs) h k = refl
bytes_lt_trans (x ∷ xs) [] zs h k = cc
bytes_lt_trans (x ∷ xs) (y ∷ ys) [] h k = cc
bytes_lt_trans (x ∷ xs) (y ∷ ys) (z ∷ zs) h k = ground (arith, bytes_lt_trans xs ys zs)

pub bytes_lt_irrefl : (xs : List ℕ) → bytes_lt xs xs ≡ false
unfolding bytes_lt
bytes_lt_irrefl [] = refl
bytes_lt_irrefl (x ∷ xs) = ground (arith, bytes_lt_irrefl xs)

pub bytes_lt_total :
    (xs ys : List ℕ) → bytes_lt xs ys ≡ false → bytes_eq xs ys ≡ false → bytes_lt ys xs ≡ true
unfolding bytes_lt bytes_eq
bytes_lt_total [] [] h k = cc
bytes_lt_total [] (y ∷ ys) h k = cc
bytes_lt_total (x ∷ xs) [] h k = refl
bytes_lt_total (x ∷ xs) (y ∷ ys) h k = ground (arith, bytes_lt_total xs ys)

-- Of two keys in order, the first is not the second.
pub ne_of_bytes_lt : (xs ys : List ℕ) → bytes_lt xs ys ≡ true → bytes_eq xs ys ≡ false
unfolding bytes_lt bytes_eq
ne_of_bytes_lt [] [] h = cc
ne_of_bytes_lt [] (y ∷ ys) h = refl
ne_of_bytes_lt (x ∷ xs) [] h = refl
ne_of_bytes_lt (x ∷ xs) (y ∷ ys) h = ground (arith, ne_of_bytes_lt xs ys)
