-- ===== src/SignalingClient/Escape.antt =====
-- jsonEscape and jsonUnescape; jsonGetString and jsonMakeObject are those of the server.
use omnidesk.Prelude.{
  ℕ, ◌≡◌, ◌≢◌, refl, ap, ◌∙◌, List, [], ◌∷◌, ◌++◌, Option, none, some, false, ◌==◌, if◌then◌else◌,
  arith, All-append,
}
use omnidesk.Json.RoundTrip.{NoQuote}

unfoldable pub escape_char : ℕ → List ℕ
escape_char c =
    if c == b'\\'
    then b'\\' ∷ b'\\' ∷ []
    else (if c == b'"'
        then b'\\' ∷ b'"' ∷ []
        else (if c == 10
            then b'\\' ∷ b'n' ∷ []
            else (if c == 13
                then b'\\' ∷ b'r' ∷ []
                else (if c == 9 then b'\\' ∷ b't' ∷ [] else c ∷ []))))

unfoldable pub json_escape : List ℕ → List ℕ
json_escape [] = []
json_escape (c ∷ s) = escape_char c ++ json_escape s

-- The character that a backslash and this one stand for.
unfoldable pub escaped : ℕ → Option ℕ
escaped d =
    if d == b'\\'
    then some b'\\'
    else (if d == b'"'
        then some b'"'
        else (if d == b'n'
            then some 10
            else (if d == b'r' then some 13 else (if d == b't' then some 9 else none))))

-- A backslash before any other character, or at the end, stands for itself.
unfoldable pub json_unescape : List ℕ → List ℕ
json_unescape [] = []
json_unescape (c ∷ []) = c ∷ []
json_unescape (c ∷ d ∷ s) =
    let skipped = json_unescape s in
    let rest = json_unescape (d ∷ s) in
    if c == b'\\' then elim (escaped d) [ none ↦ c ∷ rest | some e ↦ e ∷ skipped ] else c ∷ rest

unescape_plain : (c : ℕ) (s : List ℕ) → c ≢ 92 → json_unescape (c ∷ s) ≡ c ∷ json_unescape s
unfolding json_unescape
unescape_plain c [] h = refl
unescape_plain c (d ∷ s) h = let b : (c == 92) ≡ false = ground (arith, h) in rw b refl

unescape-escape_char :
    (c : ℕ) (s : List ℕ) → json_unescape (escape_char c ++ s) ≡ c ∷ json_unescape s
unfolding escape_char json_unescape escaped
unescape-escape_char c s = ground (arith, unescape_plain c s)

-- jsonUnescape undoes jsonEscape, on every text.
pub json_unescape-escape : (s : List ℕ) → json_unescape (json_escape s) ≡ s
unfolding json_escape json_unescape
json_unescape-escape [] = refl
json_unescape-escape (c ∷ s) =
    unescape-escape_char c (json_escape s) ∙ ap (λ (t : List ℕ). c ∷ t) (json_unescape-escape s)

escape_char-NoQuote : (c : ℕ) → c ≢ 34 → NoQuote (escape_char c)
unfolding escape_char
escape_char-NoQuote c h = ground (arith, h)

pub json_escape-NoQuote : (s : List ℕ) → NoQuote s → NoQuote (json_escape s)
unfolding json_escape
json_escape-NoQuote [] h = tt
json_escape-NoQuote (c ∷ s) (h, a) =
    All-append (λ (d : ℕ). d ≢ 34) (escape_char c) (json_escape s) (escape_char-NoQuote c h)
      (json_escape-NoQuote s a)
