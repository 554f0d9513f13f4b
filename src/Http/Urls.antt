-- ===== src/Http/Urls.antt =====
-- Percent encoding (src/mirror/hub.rs), and the decoding of it (src/render.rs).
pub mod RoundTrip
use canvas_fuse.Prelude.{
  ℕ, ◌+◌, ◌*◌, ◌-◌, ◌/◌, ◌%◌, Bool, true, false, ◌||◌, ◌&&◌, not, Option, none, some, List, [], ◌∷◌,
  ◌++◌, map, retain, is_empty, Text, codes, nat_eq, ◌==◌, leb, ltb, any, if◌then◌else◌,
}
use canvas_fuse.Paths.{slash, split, join}

-- The bytes of a character in UTF-8, and of a text.
unfoldable pub utf8_char : ℕ → List ℕ
utf8_char c =
    if ltb c 128
    then c ∷ []
    else if ltb c 2048
    then (192 + c / 64) ∷ (128 + c % 64) ∷ []
    else if ltb c 65536
    then (224 + c / 4096) ∷ (128 + c / 64 % 64) ∷ (128 + c % 64) ∷ []
    else (240 + c / 262144) ∷ (128 + c / 4096 % 64) ∷ (128 + c / 64 % 64) ∷ (128 + c % 64) ∷ []

unfoldable pub utf8 : Text → List ℕ
unfolding utf8_char
utf8 [] = []
utf8 (c ∷ s) = utf8_char c ++ utf8 s

-- `b'A'..=b'Z' | b'a'..=b'z' | b'0'..=b'9' | b'-' | b'_' | b'.' | b'~'`.
unfoldable pub is_plain : ℕ → Bool
is_plain b =
    leb 65 b && leb b 90
    || (leb 97 b && leb b 122
        || (leb 48 b && leb b 57 || any (λ x. b == x) (45 ∷ 95 ∷ 46 ∷ 126 ∷ [])))

-- A digit of `{b:02X}`.
unfoldable pub hex_digit : ℕ → ℕ
hex_digit d = if ltb d 10 then 48 + d else 55 + d

unfoldable pub encode_bytes : List ℕ → Text
unfolding is_plain hex_digit
encode_bytes [] = []
encode_bytes (b ∷ bs) =
    let rest = encode_bytes bs in
    if is_plain b then b ∷ rest else 37 ∷ hex_digit (b / 16) ∷ hex_digit (b % 16) ∷ rest

unfoldable pub encode_segment : Text → Text
unfolding encode_bytes utf8
encode_segment s = encode_bytes (utf8 s)

unfoldable pub encode_key : Text → Text
unfolding encode_segment split join
encode_key key =
    join (slash ∷ []) (map encode_segment (retain (λ s. not (is_empty s)) (split slash key)))

unfoldable pub hex_val : ℕ → Option ℕ
hex_val b =
    if leb 48 b && leb b 57
    then some (b - 48)
    else if leb 97 b && leb b 102
    then some (b - 97 + 10)
    else if leb 65 b && leb b 70
    then some (b - 65 + 10)
    else none

-- The byte that an escape stands for.
unfoldable pub escaped : ℕ → ℕ → ℕ → Option ℕ
unfolding hex_val
escaped b h l =
    if b == 37
    then elim (hex_val h) [
      | none ↦ none
      | some x ↦ elim (hex_val l) [ none ↦ none | some y ↦ some (x * 16 + y) ]
    ]
    else none

-- The loop of `percent_decode` over the bytes.
unfoldable pub percent_bytes : List ℕ → List ℕ
unfolding escaped
percent_bytes [] = []
percent_bytes (b ∷ []) = b ∷ []
percent_bytes (b ∷ h ∷ []) = b ∷ h ∷ []
percent_bytes (b ∷ h ∷ l ∷ bs) =
    let plain = percent_bytes (h ∷ l ∷ bs) in
    let rest = percent_bytes bs in elim (escaped b h l) [ some x ↦ x ∷ rest | none ↦ b ∷ plain ]
