-- ===== src/Render/Headers.antt =====
-- The message that an email is written as (src/render.rs, `render_email`): its lines.
use mathlib.Core.List.{append_assoc}
use canvas_fuse.Prelude.{
  ℕ, ◌+◌, ◌≡◌, refl, sym, ◌∙◌, Bool, true, false, ◌&&◌, ◌||◌, not, List, [], ◌∷◌, ◌++◌, Text,
  nat_eq, ◌==◌, map, codes, any, is_empty, All, arith, Bool-cases, inl, inr, if◌then◌else◌,
}
use canvas_fuse.Paths.{trim}
use canvas_fuse.Http.Values.{Json}
use canvas_fuse.Render.{Libraries}
use canvas_fuse.Render.Safe.{All-inside, All-append, trim-IsInside}
use canvas_fuse.Render.Content.{
  crlf, header_char, header_line, header_lines, mail_lines, unix_lines, email_headers, email_text,
  text_or,
}

-- How many line feeds a text has.
abbrev pub feeds : Text → ℕ
feeds [] = 0
feeds (c ∷ s) = (if c == 10 then 1 else 0) + feeds s

-- Each line feed stands behind a carriage return, if the one in front of the text is `prev`.
abbrev pub is_crlf : ℕ → Text → Bool
is_crlf prev [] = true
is_crlf prev (c ∷ s) = (not (c == 10) || prev == 13) && is_crlf c s

-- How many headers have a value that is not blank.
unfoldable pub written : List (Text × Text) → ℕ
unfolding trim
written [] = 0
written (h ∷ hs) = (if is_empty (trim h.1) then 0 else 1) + written hs

abbrev NoBreak : Text → Type 0
NoBreak s = All (λ c. (c == 10 || c == 13) ≡ false) s

feeds-append : (s t : Text) → feeds (s ++ t) ≡ feeds s + feeds t
feeds-append [] t = omega arith
feeds-append (c ∷ s) t = omega (arith, feeds-append s t)

feeds-NoBreak : (s : Text) → NoBreak s → feeds s ≡ 0
feeds-NoBreak [] all = refl
feeds-NoBreak (c ∷ s) (one, all) = ground (arith, one, feeds-NoBreak s all)

header_char-NoBreak : (s : Text) → NoBreak (map header_char s)
header_char-NoBreak [] = tt
header_char-NoBreak (c ∷ s) = (ground arith, header_char-NoBreak s)

value-NoBreak : (s : Text) → NoBreak (trim (map header_char s))
value-NoBreak s =
    All-inside (λ c. (c == 10 || c == 13) ≡ false) (trim (map header_char s)) (map header_char s)
      (trim-IsInside (map header_char s)) (header_char-NoBreak s)

-- A text without breaks keeps what follows it.
is_crlf-NoBreak :
    (prev : ℕ) (s t : Text)
    → NoBreak s
    → ((p : ℕ) → is_crlf p t ≡ true)
    → is_crlf prev (s ++ t) ≡ true
is_crlf-NoBreak prev [] t all rest = rest prev
is_crlf-NoBreak prev (c ∷ s) t (one, all) rest = ground (arith, one, is_crlf-NoBreak c s t all rest)

after_crlf : (t : Text) → ((p : ℕ) → is_crlf p t ≡ true) → (p : ℕ) → is_crlf p (crlf ++ t) ≡ true
after_crlf t rest p = ground (arith, rest 10)

module _ (key value : Text) (plain : NoBreak key) where
  front : Text
  front = key ++ (codes ": " ++ trim (map header_char (trim value)))

  front-NoBreak : NoBreak front
  unfolding front
  front-NoBreak =
      All-append (λ c. (c == 10 || c == 13) ≡ false) key
        (codes ": " ++ trim (map header_char (trim value))) plain
        (refl, (refl, value-NoBreak (trim value)))

  front-crlf : key ++ (codes ": " ++ (trim (map header_char (trim value)) ++ crlf)) ≡ front ++ crlf
  unfolding front
  front-crlf = sym (append_assoc key (codes ": " ++ trim (map header_char (trim value))) crlf)

  line-feeds : feeds (header_line (key, value)) ≡ (if is_empty (trim value) then 0 else 1)
  unfolding header_line
  line-feeds = elim (Bool-cases (is_empty (trim value))) [
    | inl blank ↦ rw blank refl
    | inr full ↦
        rw (full, front-crlf)
          (omega (arith, feeds-append front crlf, feeds-NoBreak front front-NoBreak))
  ]

  line-is_crlf :
      (t : Text)
      → ((p : ℕ) → is_crlf p t ≡ true)
      → (p : ℕ) → is_crlf p (header_line (key, value) ++ t) ≡ true
  unfolding header_line
  line-is_crlf t rest p = elim (Bool-cases (is_empty (trim value))) [
    | inl blank ↦ rw blank (rest p)
    | inr full ↦
        rw (full, front-crlf, append_assoc front crlf t)
          (is_crlf-NoBreak p front (crlf ++ t) front-NoBreak (after_crlf t rest))
  ]

abbrev AreKeys : List (Text × Text) → Type 0
AreKeys hs = All (λ h. NoBreak h.0) hs

lines-feeds : (hs : List (Text × Text)) → AreKeys hs → feeds (header_lines hs) ≡ written hs
unfolding header_lines written
lines-feeds [] all = refl
lines-feeds ((key, value) ∷ hs) (one, all) =
    feeds-append (header_line (key, value)) (header_lines hs)
    ∙ omega (arith, line-feeds key value one, lines-feeds hs all)

lines-is_crlf :
    (hs : List (Text × Text)) (t : Text)
    → AreKeys hs
    → ((p : ℕ) → is_crlf p t ≡ true)
    → (p : ℕ) → is_crlf p (header_lines hs ++ t) ≡ true
unfolding header_lines
lines-is_crlf [] t all rest p = rest p
lines-is_crlf ((key, value) ∷ hs) t (one, all) rest p =
    rw (append_assoc (header_line (key, value)) (header_lines hs) t)
      (line-is_crlf key value one (header_lines hs ++ t) (lines-is_crlf hs t all rest) p)

body-is_crlf :
    (s t : Text) → ((p : ℕ) → is_crlf p t ≡ true) → (p : ℕ) → is_crlf p (mail_lines s ++ t) ≡ true
unfolding mail_lines
body-is_crlf [] t rest p = rest p
body-is_crlf (c ∷ s) t rest p = ground (arith, body-is_crlf s t rest 10, body-is_crlf s t rest c)

plain_key : (s : Text) → any (λ c. c == 10 || c == 13) s ≡ false → NoBreak s
plain_key [] h = tt
plain_key (c ∷ s) h = (ground (arith, h), plain_key s (ground (arith, h)))

module _ (lib : Libraries) (v : Json) where
  keys_plain : AreKeys (email_headers lib v)
  unfolding email_headers
  keys_plain = (
    plain_key (codes "From") refl,
    (
      plain_key (codes "To") refl,
      (
        plain_key (codes "Cc") refl,
        (
          plain_key (codes "Subject") refl,
          (
            plain_key (codes "Date") refl,
            (
              plain_key (codes "Message-ID") refl,
              (
                plain_key (codes "In-Reply-To") refl,
                (
                  plain_key (codes "MIME-Version") refl,
                  (plain_key (codes "Content-Type") refl, tt),
                ),
              ),
            ),
          ),
        ),
      ),
    ),
  )

  -- A message has one line for each header whose value is not blank, whatever line breaks the values have, and
  -- each line feed in it stands behind a carriage return.
  pub email_text-IsMail :
      (feeds (header_lines (email_headers lib v)) ≡ written (email_headers lib v))
      × (is_crlf 0 (email_text lib v) ≡ true)
  unfolding email_text
  email_text-IsMail =
      let body =
        mail_lines
          (unix_lines (text_or v (codes "body" ∷ codes "bodyHtml" ∷ codes "bodyPreview" ∷ []))) in
      (
        lines-feeds (email_headers lib v) keys_plain,
        lines-is_crlf (email_headers lib v) (crlf ++ (body ++ crlf)) keys_plain
            (after_crlf (body ++ crlf) (
              body-is_crlf
                (unix_lines
                  (text_or v (codes "body" ∷ codes "bodyHtml" ∷ codes "bodyPreview" ∷ [])))
                crlf (λ p. ground arith)))
            0,
      )
