-- ===== src/Json.antt =====
-- The JSON helpers of src/signaling/signaling_server.cpp, over the bytes of the text.
pub mod RoundTrip
mod Examples
use omnidesk.Prelude.{ℕ, List, [], ◌∷◌, ◌++◌, Option, none, some, ◌==◌, ◌||◌, Bool, if◌then◌else◌}
use omnidesk.Bytes.{◌>>=◌}
use omnidesk.Text.{find_after, skip_spaces}

-- `" \t\n\r"`.
unfoldable pub is_blank : ℕ → Bool
is_blank c = c == 32 || c == 9 || c == 10 || c == 13

-- The text up to the closing quote; `none` if there is none.
unfoldable pub until_quote : List ℕ → Option (List ℕ)
until_quote [] = none
until_quote (c ∷ s) =
    let rest = until_quote s >>= λ v. some (c ∷ v) in if c == b'"' then some [] else rest

unfoldable pub open_quote : List ℕ → Option (List ℕ)
open_quote [] = none
open_quote (c ∷ s) = if c == b'"' then some s else none

unfoldable pub quoted : List ℕ → List ℕ
quoted s = b'"' ∷ (s ++ (b'"' ∷ []))

unfoldable pub json_find : List ℕ → List ℕ → Option (List ℕ)
unfolding quoted is_blank
json_find json key = do
  after_key ← find_after (quoted key) json
  after_colon ← find_after (b':' ∷ []) after_key
  value ← open_quote (skip_spaces is_blank after_colon)
  until_quote value

-- Every failure is the empty string.
unfoldable pub json_get_string : List ℕ → List ℕ → List ℕ
json_get_string json key = elim (json_find json key) [ none ↦ [] | some v ↦ v ]

unfoldable pub json_field : List ℕ × List ℕ → List ℕ
unfolding quoted
json_field (k, v) = quoted k ++ (b':' ∷ quoted v)

unfoldable pub json_fields : List (List ℕ × List ℕ) → List ℕ
json_fields [] = []
json_fields (f ∷ fs) = b',' ∷ (json_field f ++ json_fields fs)

unfoldable pub json_make_object : List (List ℕ × List ℕ) → List ℕ
json_make_object [] = b'{' ∷ b'}' ∷ []
json_make_object (f ∷ fs) = b'{' ∷ (json_field f ++ (json_fields fs ++ (b'}' ∷ [])))
