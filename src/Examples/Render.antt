-- ===== src/Examples/Render.antt =====
-- The rendering of documents at concrete inputs.
use canvas_fuse.Prelude.{
  ℕ, ◌≡◌, refl, Bool, true, false, ◌&&◌, ◌||◌, none, some, [], ◌∷◌, ◌++◌, Text, codes, leb, nat_eq,
  ◌==◌, All, arith,
}
use canvas_fuse.Paths.{slash, split, push_char, trim, trim_start, is_whitespace, rsplit_once}
use canvas_fuse.Http.Values.{Json, null, text, object, done, entry}
use canvas_fuse.Render.{Libraries, Document, schema_of, sanitize}
use canvas_fuse.Render.Names.{
  doc_name, located_name, name_bearing_basename, percent_decode, unless_blank,
}
use canvas_fuse.Render.{
  sort_texts, insert_text, has_scheme, first_bytes, is_stored, base_of, after_scheme, after_slash,
  until_query, looks_like_filename,
}
use canvas_fuse.Http.Urls.{utf8, utf8_char, percent_bytes, escaped, hex_val}
use canvas_fuse.Prelude.{strip_prefix, retain, text_beq}
use canvas_fuse.Render.Content.{header_lines, email_headers, email_text}
use canvas_fuse.Render.Safe.{IsFileName, sanitize-IsFileName}
use canvas_fuse.Render.Filed.{IsFiled}
use canvas_fuse.Render.Headers.{feeds, is_crlf, written, email_text-IsMail}
use canvas_fuse.Render.Answers.{IsPlain, doc_name-IsName}

abbrev is_letter : ℕ → Bool
is_letter c = leb b'a' c && leb c b'z' || leb b'0' c && leb c b'9'

abbrev lib : Libraries
lib = record {
  is_alphanumeric = is_letter;
  is_uppercase = λ c. false;
  lower = λ c. c ∷ [];
  upper = λ c. c ∷ [];
  lowercase = λ s. s;
  lossy = λ s. s;
  pretty = λ v. [];
  utc_date = λ s. none;
}

abbrev located : Text → Document
located url = record {
  id = 7;
  schema = schema_of (codes "file");
  json = null;
  updated_at = 0;
  locations = url ∷ [];
  display_name = none;
  linked_here = true;
  size = none;
  checksum = none;
  raw = none;
}

sanitize-IsFileName_example : IsFileName (sanitize (codes "../a:b"))
sanitize-IsFileName_example = sanitize-IsFileName (codes "../a:b")

lower_lem : (c : ℕ) → is_letter c ≡ true → All (λ d. (d == slash) ≡ false) (c ∷ [])
lower_lem c h = (ground (arith, h), tt)

doc_name-IsName_example :
    (All (λ u. IsPlain 9 u) (codes "s3://b/x.png" ∷ [])
      → (n : Text) × (doc_name lib (located (codes "s3://b/x.png")) ≡ some n))
    × ((n : Text) → doc_name lib (located (codes "s3://b/x.png")) ≡ some n → IsFiled n)
doc_name-IsName_example = doc_name-IsName lib (located (codes "s3://b/x.png")) lower_lem

-- The ninth byte of the location is the first of two that the letter has.
stops : doc_name lib (located (codes "file:///" ++ (233 ∷ codes ".png"))) ≡ none
unfolding doc_name located_name name_bearing_basename sort_texts insert_text has_scheme first_bytes
    utf8 utf8_char is_stored base_of after_scheme after_slash until_query split push_char
    strip_prefix retain percent_decode percent_bytes text_beq unless_blank trim trim_start
    is_whitespace looks_like_filename rsplit_once escaped hex_val
stops = refl

abbrev letter : Json
letter = object (
    entry (codes "subject") (text (codes "Hi\nBcc: x"))
      (entry (codes "body") (text (codes "a\nb")) done))

email_text-IsMail_example :
    (feeds (header_lines (email_headers lib letter)) ≡ written (email_headers lib letter))
    × (is_crlf 0 (email_text lib letter) ≡ true)
email_text-IsMail_example = email_text-IsMail lib letter
