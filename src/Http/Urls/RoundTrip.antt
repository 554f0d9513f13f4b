-- ===== src/Http/Urls/RoundTrip.antt =====
-- Percent encoding and decoding (src/mirror/hub.rs, `encode_segment` and `encode_key`; src/render.rs,
-- `percent_decode`).
use canvas_fuse.Prelude.{
  ℕ, ◌/◌, ◌%◌, ◌<◌, ◌≡◌, refl, ◌∙◌, ap, subst, true, false, not, Option, none, some, List, [], ◌∷◌,
  ◌++◌, map, All, All-retain, retain, is_empty, Text, arith, Bool-cases, inl, inr, nat_eq, ◌==◌,
}
use canvas_fuse.Paths.{slash, split, join, push_char}
use canvas_fuse.Http.Urls.{
  utf8, utf8_char, is_plain, hex_digit, encode_bytes, encode_segment, encode_key, hex_val, escaped,
  percent_bytes,
}

-- The values of a byte.
abbrev pub AreBytes : List ℕ → Type 0
AreBytes = All (λ b. b < 256)

hex_val-hex_digit : (d : ℕ) → d < 16 → hex_val (hex_digit d) ≡ some d
unfolding hex_val hex_digit
hex_val-hex_digit d h = ground (arith, h)

escaped-hex_digit :
    (b : ℕ) → b < 256 → escaped 37 (hex_digit (b / 16)) (hex_digit (b % 16)) ≡ some b
unfolding escaped
escaped-hex_digit b h =
    rw (hex_val-hex_digit (b / 16) (omega (arith, h)), hex_val-hex_digit (b % 16) (omega arith))
      (ap some (omega arith))

escaped-plain : (b h l : ℕ) → is_plain b ≡ true → escaped b h l ≡ none
unfolding escaped is_plain
escaped-plain b h l p = ground (arith, p)

percent_bytes-raw :
    (b h l : ℕ) (s : List ℕ)
    → escaped b h l ≡ none
    → percent_bytes (b ∷ h ∷ l ∷ s) ≡ b ∷ percent_bytes (h ∷ l ∷ s)
unfolding percent_bytes
percent_bytes-raw b h l s e = ap (step (percent_bytes s) (percent_bytes (h ∷ l ∷ s))) e
  where
    step : List ℕ → List ℕ → Option ℕ → List ℕ
    step rest plain o = elim o [ some x ↦ x ∷ rest | none ↦ b ∷ plain ]

percent_bytes-escape :
    (b h l x : ℕ) (s : List ℕ)
    → escaped b h l ≡ some x
    → percent_bytes (b ∷ h ∷ l ∷ s) ≡ x ∷ percent_bytes s
unfolding percent_bytes
percent_bytes-escape b h l x s e = ap (step (percent_bytes s) (percent_bytes (h ∷ l ∷ s))) e
  where
    step : List ℕ → List ℕ → Option ℕ → List ℕ
    step rest plain o = elim o [ some y ↦ y ∷ rest | none ↦ b ∷ plain ]

percent_bytes-plain :
    (b : ℕ) (s : List ℕ) → is_plain b ≡ true → percent_bytes (b ∷ s) ≡ b ∷ percent_bytes s
unfolding percent_bytes
percent_bytes-plain b [] p = refl
percent_bytes-plain b (x ∷ []) p = refl
percent_bytes-plain b (x ∷ y ∷ s) p = percent_bytes-raw b x y s (escaped-plain b x y p)

-- Decoding what was encoded gives the bytes back, whatever they are.
pub percent_bytes-encode_bytes : (bs : List ℕ) → AreBytes bs → percent_bytes (encode_bytes bs) ≡ bs
unfolding encode_bytes percent_bytes
percent_bytes-encode_bytes [] a = refl
percent_bytes-encode_bytes (b ∷ bs) a =
    let rest = ap (λ s. b ∷ s) (percent_bytes-encode_bytes bs a.1) in
    elim (Bool-cases (is_plain b)) [
      | inl plain ↦ rw plain (percent_bytes-plain b (encode_bytes bs) plain ∙ rest)
      | inr other ↦ rw other (
          percent_bytes-escape 37 (hex_digit (b / 16)) (hex_digit (b % 16)) b (encode_bytes bs)
            (escaped-hex_digit b a.0)
          ∙ rest)
    ]

-- The characters that a text can hold.
abbrev pub AreChars : Text → Type 0
AreChars = All (λ c. c < 1114112)

All-append : (P : ℕ → Type 0) (xs ys : List ℕ) → All P xs → All P ys → All P (xs ++ ys)
All-append P [] ys a b = b
All-append P (x ∷ xs) ys a b = (a.0, All-append P xs ys a.1 b)

utf8_char-AreBytes : (c : ℕ) → c < 1114112 → AreBytes (utf8_char c)
unfolding utf8_char
utf8_char-AreBytes c h = ground (arith, h)

utf8-AreBytes : (s : Text) → AreChars s → AreBytes (utf8 s)
unfolding utf8
utf8-AreBytes [] a = tt
utf8-AreBytes (c ∷ s) a =
    All-append (λ b. b < 256) (utf8_char c) (utf8 s) (utf8_char-AreBytes c a.0)
      (utf8-AreBytes s a.1)

-- No slash is left in an encoded segment.
abbrev NoSlash : Text → Type 0
NoSlash = All (λ c. (c == slash) ≡ false)

encode_bytes-NoSlash : (bs : List ℕ) → AreBytes bs → NoSlash (encode_bytes bs)
unfolding encode_bytes is_plain hex_digit
encode_bytes-NoSlash [] a = tt
encode_bytes-NoSlash (b ∷ bs) a = ground (arith, encode_bytes-NoSlash bs a.1, a.0)

-- A segment in front of the first slash of the rest.
split-append :
    (seg rest : Text) → NoSlash seg → split slash (seg ++ (slash ∷ rest)) ≡ seg ∷ split slash rest
unfolding split push_char
split-append [] rest n = refl
split-append (c ∷ seg) rest n = rw (n.0, split-append seg rest n.1)

split-one : (seg : Text) → NoSlash seg → split slash seg ≡ seg ∷ []
unfolding split push_char
split-one [] n = refl
split-one (c ∷ seg) n = rw (n.0, split-one seg n.1)

split-join :
    (seg : Text) (segs : List Text)
    → All NoSlash (seg ∷ segs)
    → split slash (join (slash ∷ []) (seg ∷ segs)) ≡ seg ∷ segs
unfolding join
split-join seg [] n = split-one seg n.0
split-join seg (seg' ∷ segs) n =
    split-append seg (join (slash ∷ []) (seg' ∷ segs)) n.0
    ∙ ap (λ ss. seg ∷ ss) (split-join seg' segs n.1)

encoded-NoSlash : (segs : List Text) → All AreChars segs → All NoSlash (map encode_segment segs)
unfolding encode_segment
encoded-NoSlash [] a = tt
encoded-NoSlash (s ∷ segs) a =
    (encode_bytes-NoSlash (utf8 s) (utf8-AreBytes s a.0), encoded-NoSlash segs a.1)

decoded :
    (segs : List Text)
    → All AreChars segs
    → map percent_bytes (map encode_segment segs) ≡ map utf8 segs
unfolding encode_segment
decoded [] a = refl
decoded (s ∷ segs) a =
    rw (percent_bytes-encode_bytes (utf8 s) (utf8-AreBytes s a.0))
      (ap (λ xs. utf8 s ∷ xs) (decoded segs a.1))

push_char-AreChars :
    (c : ℕ) (segs : List Text) → c < 1114112 → All AreChars segs → All AreChars (push_char c segs)
unfolding push_char
push_char-AreChars c [] h a = ((h, tt), tt)
push_char-AreChars c (seg ∷ segs) h a = ((h, a.0), a.1)

split-AreChars : (key : Text) → AreChars key → All AreChars (split slash key)
unfolding split push_char
split-AreChars [] a = (tt, tt)
split-AreChars (c ∷ key) a = elim (Bool-cases (c == slash)) [
  | inl stop ↦ rw stop (tt, split-AreChars key a.1)
  | inr plain ↦ rw plain (push_char-AreChars c (split slash key) a.0 (split-AreChars key a.1))
]

-- The segments of the path that a key has in a URL decode to the bytes of the key's own segments,
-- empty ones left out, if the key has one that is not empty.
pub encode_key-RoundTrip :
    (key seg : Text) (segs : List Text)
    → AreChars key
    → retain (λ s. not (is_empty s)) (split slash key) ≡ seg ∷ segs
    → map percent_bytes (split slash (encode_key key)) ≡ map utf8 (seg ∷ segs)
unfolding encode_key
encode_key-RoundTrip key seg segs a parts =
    let chars : All AreChars (seg ∷ segs) =
      subst (All AreChars) parts
        (All-retain AreChars (λ s. not (is_empty s)) (split slash key) (split-AreChars key a)) in
    rw parts (
      ap (map percent_bytes) (
        split-join (encode_segment seg) (map encode_segment segs)
          (encoded-NoSlash (seg ∷ segs) chars))
      ∙ decoded (seg ∷ segs) chars)
