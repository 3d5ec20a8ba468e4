-- ===== src/Json/Examples.antt =====
-- Messages of the protocol through the JSON helpers.
use omnidesk.Prelude.{ℕ, ◌≡◌, refl, List, [], ◌∷◌}
use omnidesk.Text.{codes, find_after, strip, skip_spaces}
use omnidesk.Json.{
  json_get_string, json_make_object, json_find, json_field, json_fields, quoted, until_quote,
  open_quote, is_blank,
}

abbrev target_id : List ℕ
target_id = codes "target_id"

-- A value that is spelled like a later key: the search stops at it and takes the next field's
-- value.
confused :
    json_get_string
      (json_make_object (
        (codes "reason", codes "from_id")
        ∷ (codes "x", codes "1")
        ∷ (codes "from_id", codes "2")
        ∷ []))
      (codes "from_id")
    ≡ codes "1"
unfolding json_get_string json_find find_after strip skip_spaces json_make_object json_field
    json_fields quoted until_quote open_quote is_blank
confused = refl
