-- ===== src/Json/RoundTrip.antt =====
-- What jsonGetString finds in the text that jsonMakeObject writes.
use mathlib.Core.List.{append_assoc}
use omnidesk.Prelude.{ℕ, ◌≡◌, ◌≢◌, refl, ap, ◌∙◌, List, [], ◌∷◌, ◌++◌, none, some, arith, All}
use omnidesk.Bytes.{◌>>=◌}
use omnidesk.Text.{strip, find_after, skip_spaces}
use omnidesk.Json.{
  is_blank, until_quote, open_quote, quoted, json_find, json_get_string, json_field, json_fields,
  json_make_object,
}

abbrev pub NoQuote : List ℕ → Type 0
NoQuote = All λ c. c ≢ 34

strip_found : (k rest : List ℕ) → strip (k ++ (34 ∷ [])) (k ++ (34 ∷ rest)) ≡ some rest
unfolding strip
strip_found [] rest = refl
strip_found (c ∷ k) rest = ground (arith, strip_found k rest)

strip_other :
    (k t rest : List ℕ)
    → NoQuote k
    → NoQuote t
    → t ≢ k
    → strip (k ++ (34 ∷ [])) (t ++ (34 ∷ rest)) ≡ none
unfolding strip
strip_other [] [] rest hk ht ne = absurd (ne refl)
strip_other [] (d ∷ t) rest hk ht ne = ground (arith, ht.0)
strip_other (c ∷ k) [] rest hk ht ne = ground (arith, hk.0)
strip_other (c ∷ k) (d ∷ t) rest hk ht ne =
    ground (arith, strip_other k t rest hk.1 ht.1, λ (e : t ≡ k). e)

-- A token other than the key is passed over up to its closing quote.
skip_inside :
    (k t rest : List ℕ)
    → NoQuote t
    → find_after (quoted k) (t ++ (34 ∷ rest)) ≡ find_after (quoted k) (34 ∷ rest)
unfolding find_after strip quoted
skip_inside k [] rest ht = refl
skip_inside k (c ∷ t) rest ht = ground (arith, ht.0, skip_inside k t rest ht.1)

quoted-append : (t rest : List ℕ) → quoted t ++ rest ≡ 34 ∷ (t ++ (34 ∷ rest))
unfolding quoted
quoted-append t rest = ap (◌∷◌ 34) (append_assoc t (34 ∷ []) rest)

find_step : (n s : List ℕ) (c : ℕ) → strip n (c ∷ s) ≡ none → find_after n (c ∷ s) ≡ find_after n s
unfolding find_after
find_step n s c e = ground (arith, e)

find_hit : (n s r : List ℕ) (c : ℕ) → strip n (c ∷ s) ≡ some r → find_after n (c ∷ s) ≡ some r
unfolding find_after
find_hit n s r c e = ground (arith, e)

strip-quoted : (k s : List ℕ) → strip (quoted k) (34 ∷ s) ≡ strip (k ++ (34 ∷ [])) s
unfolding strip quoted
strip-quoted k s = refl

strip-quoted_other : (k s : List ℕ) (c : ℕ) → c ≢ 34 → strip (quoted k) (c ∷ s) ≡ none
unfolding strip quoted
strip-quoted_other k s c h = ground arith

skip_token :
    (k t rest : List ℕ)
    → NoQuote k
    → NoQuote t
    → t ≢ k
    → find_after (quoted k) (34 ∷ (t ++ (34 ∷ rest))) ≡ find_after (quoted k) (34 ∷ rest)
skip_token k t rest hk ht ne =
    find_step _ _ 34 (strip-quoted k _ ∙ strip_other k t rest hk ht ne) ∙ skip_inside k t rest ht

find_token : (k rest : List ℕ) → find_after (quoted k) (34 ∷ (k ++ (34 ∷ rest))) ≡ some rest
find_token k rest = find_hit _ _ rest 34 (strip-quoted k _ ∙ strip_found k rest)

strip_separator :
    (k rest : List ℕ) (sep : ℕ)
    → NoQuote k
    → sep ≢ 34
    → k ≢ sep ∷ []
    → strip (k ++ (34 ∷ [])) (sep ∷ 34 ∷ rest) ≡ none
unfolding strip
strip_separator [] rest sep hk hs ne = ground arith
strip_separator (c ∷ []) rest sep hk hs ne =
    ground (arith, λ (e : c ≡ sep). ne (ap (λ (x : ℕ). x ∷ []) e))
strip_separator (c ∷ d ∷ k) rest sep hk hs ne = ground (arith, hk.1.0)

-- From the closing quote of a token, over `:` or `,`, to the next token.
skip_separator :
    (k rest : List ℕ) (sep : ℕ)
    → NoQuote k
    → sep ≢ 34
    → k ≢ sep ∷ []
    → find_after (quoted k) (34 ∷ sep ∷ 34 ∷ rest) ≡ find_after (quoted k) (34 ∷ rest)
skip_separator k rest sep hk hs ne =
    find_step _ _ 34 (strip-quoted k _ ∙ strip_separator k rest sep hk hs ne)
    ∙ find_step _ _ sep (strip-quoted_other k _ sep hs)

-- The key and the texts of the fields before it, as far as the search can confuse them.
abbrev pub Before : List ℕ → List ℕ × List ℕ → Type 0
Before k (k', v') = NoQuote k' × NoQuote v' × (k' ≢ k) × (v' ≢ k)

pub record IsKey (k : List ℕ) : Type 0 where
  pub plain : NoQuote k
  pub no_colon : k ≢ 58 ∷ []
  pub no_comma : k ≢ 44 ∷ []

field-append :
    (k v rest : List ℕ)
    → json_field (k, v) ++ rest ≡ 34 ∷ (k ++ (34 ∷ 58 ∷ 34 ∷ (v ++ (34 ∷ rest))))
unfolding json_field
field-append k v rest = rw (append_assoc, quoted-append, quoted-append)

find_fields :
    (pre post : List (List ℕ × List ℕ)) (k v tail : List ℕ)
    → IsKey k
    → All (Before k) pre
    → find_after (quoted k) (34 ∷ (json_fields (pre ++ ((k, v) ∷ post)) ++ tail))
      ≡ some (58 ∷ 34 ∷ (v ++ (34 ∷ (json_fields post ++ tail))))
unfolding json_fields
find_fields [] post k v tail h b =
    rw (append_assoc, field-append)
      (skip_separator k _ 44 h.plain (omega arith) h.no_comma ∙ find_token k _)
find_fields ((k', v') ∷ pre) post k v tail h b =
    rw (append_assoc, field-append)
      (skip_separator k _ 44 h.plain (omega arith) h.no_comma
        ∙ skip_token k k' _ h.plain b.0.0 b.0.2
        ∙ skip_separator k _ 58 h.plain (omega arith) h.no_colon
        ∙ skip_token k v' _ h.plain b.0.1 b.0.3
        ∙ find_fields pre post k v tail h b.1)

until_quote-append : (v rest : List ℕ) → NoQuote v → until_quote (v ++ (34 ∷ rest)) ≡ some v
unfolding until_quote
until_quote-append [] rest h = refl
until_quote-append (c ∷ v) rest h = ground (arith, h.0, until_quote-append v rest h.1)

-- The search from the opening brace on.
find_object :
    (pre post : List (List ℕ × List ℕ)) (k v : List ℕ)
    → IsKey k
    → All (Before k) pre
    → find_after (quoted k) (json_make_object (pre ++ ((k, v) ∷ post)))
      ≡ some (58 ∷ 34 ∷ (v ++ (34 ∷ (json_fields post ++ (125 ∷ [])))))
unfolding json_make_object
find_object [] post k v h b =
    find_step _ _ 123 (strip-quoted_other k _ 123 (omega arith)) ∙ rw field-append (find_token k _)
find_object ((k', v') ∷ pre) post k v h b =
    find_step _ _ 123 (strip-quoted_other k _ 123 (omega arith))
    ∙ rw field-append (
        skip_token k k' _ h.plain b.0.0 b.0.2
        ∙ skip_separator k _ 58 h.plain (omega arith) h.no_colon
        ∙ skip_token k v' _ h.plain b.0.1 b.0.3
        ∙ find_fields pre post k v (125 ∷ []) h b.1)

read_value :
    (v rest : List ℕ)
    → NoQuote v
    → (do
      after_colon ← find_after (58 ∷ []) (58 ∷ 34 ∷ (v ++ (34 ∷ rest)))
      value ← open_quote (skip_spaces is_blank after_colon)
      until_quote value)
      ≡ some v
unfolding find_after strip open_quote skip_spaces is_blank
read_value v rest h = until_quote-append v rest h

json_find-make_object :
    (pre post : List (List ℕ × List ℕ)) (k v : List ℕ)
    → IsKey k
    → All (Before k) pre
    → NoQuote v
    → json_find (json_make_object (pre ++ ((k, v) ∷ post))) k ≡ some v
unfolding json_find
json_find-make_object pre post k v h b hv =
    rw (find_object pre post k v h b) (read_value v (json_fields post ++ (125 ∷ [])) hv)

pub json_get_string-make_object :
    (pre post : List (List ℕ × List ℕ)) (k v : List ℕ)
    → IsKey k
    → All (Before k) pre
    → NoQuote v
    → json_get_string (json_make_object (pre ++ ((k, v) ∷ post))) k ≡ v
unfolding json_get_string
json_get_string-make_object pre post k v h b hv =
    rw (json_find-make_object pre post k v h b hv, json_get_string)
