-- ===== src/Json.antt =====
-- The values of `encoding/json`, as `pkg/evidence/canonical.go` reads them with `UseNumber`, and
-- how `json.Marshal` writes them (Go 1.25, HTML characters escaped).
pub mod Bytes
use open_clause.Base.{
  ℕ, ◌/◌, ◌%◌, ◌+◌, Bool, ◌&&◌, ◌||◌, List, [], ◌∷◌, ◌++◌, Text, text, if◌then◌else◌, eqb, ltb,
}

mutual
  pub data Json : Type 0 where
    null : Json
    bool : Bool → Json
    -- A `json.Number`, by its literal.
    number : Text → Json
    str : Text → Json
    arr : Items → Json
    obj : Fields → Json

  pub data Items : Type 0 where
    nil : Items
    cons : Json → Items → Items

  -- The entries of a `map[string]any` in the order in which a range over it meets them.
  pub data Fields : Type 0 where
    end : Fields
    field : Text → Json → Fields → Fields

pub to_list : Fields → List (Text × Json)
to_list end = []
to_list (field k v fs) = (k, v) ∷ to_list fs

pub from_list : List (Text × Json) → Fields
from_list [] = end
from_list ((k, v) ∷ m) = field k v (from_list m)

abbrev hex_digit : ℕ → ℕ
hex_digit n = if ltb n 10 then b'0' + n else 87 + n

-- One byte of a string between quotes. A byte above 127 stands for itself.
escape_byte : ℕ → Text
unfolding text
escape_byte c =
    if eqb c b'"' || eqb c 92
    then 92 ∷ c ∷ []
    else if eqb c 8
    then text "\\b"
    else if eqb c 12
    then text "\\f"
    else if eqb c 10
    then text "\\n"
    else if eqb c 13
    then text "\\r"
    else if eqb c 9
    then text "\\t"
    else if ltb c 32 || eqb c b'<' || eqb c b'>' || eqb c b'&'
    then text "\\u00" ++ (hex_digit (c / 16) ∷ hex_digit (c % 16) ∷ [])
    else c ∷ []

-- The line separators U+2028 and U+2029 are escaped too.
escape : Text → Text
unfolding escape_byte
escape (a ∷ b ∷ c ∷ s) =
    let apart = escape_byte a ++ escape (b ∷ c ∷ s) in
    let joined = text "\\u202" ++ (hex_digit (c % 16) ∷ escape s) in
    if eqb a 226 && eqb b 128 && (eqb c 168 || eqb c 169) then joined else apart
escape (a ∷ b ∷ []) = escape_byte a ++ escape_byte b
escape (a ∷ []) = escape_byte a
escape [] = []

unfoldable pub quote : Text → Text
unfolding escape
quote s = b'"' ∷ (escape s ++ (b'"' ∷ []))
