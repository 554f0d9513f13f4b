-- ===== src/Http/Values.antt =====
-- JSON values as the client reads them (src/mirror/hub.rs).
use canvas_fuse.Prelude.{
  ℕ, ◌+◌, ◌*◌, ◌-◌, ◌^◌, Bool, ◌&&◌, Option, none, some, List, [], ◌∷◌, Text, codes, text_eq,
  nat_eq, ◌==◌, leb, ltb, get_or, or_else, if◌then◌else◌,
}
use canvas_fuse.Hub.{RemoteStat}

-- A number as `as_u64` and as `as_f64 as u64` read it.
mutual
  pub data Json : Type 0 where
    null : Json
    bool : Bool → Json
    number : Option ℕ → Option ℕ → Json
    text : Text → Json
    array : Items → Json
    object : Fields → Json

  pub data Items : Type 0 where
    end : Items
    item : Json → Items → Items

  pub data Fields : Type 0 where
    done : Fields
    entry : Text → Json → Fields → Fields

-- What other libraries compute: lower case, and the milliseconds of a time in the format of RFC 3339.
pub record Codecs : Type 0 where
  pub lowercase : Text → Text
  pub rfc3339 : Text → Option ℕ

-- `Value::get` of an object.
unfoldable pub find_field : Text → Fields → Option Json
find_field name done = none
find_field name (entry n v rest) = if n == name then some v else find_field name rest

unfoldable pub field : Text → Json → Option Json
unfolding find_field
field name (object fields) = find_field name fields
field name _ = none

abbrev pub as_text : Json → Option Text
as_text (text s) = some s
as_text _ = none

abbrev pub as_number : Json → Option ℕ
as_number (number n f) = n
as_number _ = none

abbrev pub as_bool : Json → Option Bool
as_bool (bool b) = some b
as_bool _ = none

-- The items of an array.
unfoldable pub items_of : Items → List Json
items_of end = []
items_of (item v rest) = v ∷ items_of rest

unfoldable pub elements : Json → List Json
unfolding items_of
elements (array items) = items_of items
elements _ = []

-- `v.get(name).and_then(Value::as_str)`, and so on.
unfoldable pub text_at : Text → Json → Option Text
text_at name v = elim (field name v) [ none ↦ none | some x ↦ as_text x ]

unfoldable pub number_at : Text → Json → ℕ
number_at name v = elim (field name v) [ none ↦ 0 | some x ↦ get_or (as_number x) 0 ]

-- The value of decimal digits behind `n`.
digits_from : ℕ → Text → Option ℕ
digits_from n [] = some n
digits_from n (d ∷ s) =
    let rest = digits_from (n * 10 + (d - 48)) s in if leb 48 d && leb d 57 then rest else none

-- `s.parse::<u64>()`: digits, at least one, with a plus sign or none, below 2^64.
unsigned : Text → Option ℕ
unfolding digits_from
unsigned [] = none
unsigned (d ∷ s) = elim (digits_from 0 (d ∷ s)) [
  | none ↦ none
  | some n ↦ if ltb n (2 ^ 64) then some n else none
]

unfoldable pub parse_u64 : Text → Option ℕ
unfolding unsigned
parse_u64 [] = none
parse_u64 (d ∷ s) = if d == b'+' then unsigned s else unsigned (d ∷ s)

module _ (c : Codecs) where
  -- A time in milliseconds, as a number or as a text.
  unfoldable pub parse_ms : Option Json → ℕ
  unfolding parse_u64
  parse_ms (some (number n f)) = get_or (or_else n f) 0
  parse_ms (some (text s)) = get_or (or_else (parse_u64 s) (c.rfc3339 s)) 0
  parse_ms _ = 0

  unfoldable pub parse_stat : Json → Option RemoteStat
  unfolding parse_ms
  parse_stat v = elim (text_at (codes "sha256") v) [
    | none ↦ none
    | some sha ↦ some (record {
      sha256 = c.lowercase sha;
      size = number_at (codes "size") v;
      mtime = parse_ms (field (codes "mtime") v);
    })
  ]
