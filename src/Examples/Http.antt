-- ===== src/Examples/Http.antt =====
-- The hub client at concrete inputs.
use canvas_fuse.Prelude.{◌≡◌, refl, not, [], ◌∷◌, map, retain, is_empty, Text, arith}
use canvas_fuse.Paths.{slash, split}
use canvas_fuse.Http.Urls.{utf8, encode_key, percent_bytes}
use canvas_fuse.Http.Urls.RoundTrip.{AreChars, encode_key-RoundTrip}

-- A key with a letter of two bytes.
abbrev key : Text
key = 97 ∷ 47 ∷ 233 ∷ []

key-AreChars : AreChars key
key-AreChars = (omega arith, (omega arith, (omega arith, tt)))

key-parts : retain (λ s. not (is_empty s)) (split slash key) ≡ (97 ∷ []) ∷ (233 ∷ []) ∷ []
unfolding retain split canvas_fuse.Paths.push_char
key-parts = refl

encode_key-RoundTrip_example :
    map percent_bytes (split slash (encode_key key)) ≡ map utf8 ((97 ∷ []) ∷ (233 ∷ []) ∷ [])
encode_key-RoundTrip_example =
    encode_key-RoundTrip key (97 ∷ []) ((233 ∷ []) ∷ []) key-AreChars key-parts
