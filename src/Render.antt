-- ===== src/Render.antt =====
-- What a document is as a file (src/render.rs): its name, its bytes, and its folder among the kinds. What the
-- language's library knows of characters, the writer of JSON and the one of dates are a parameter.
pub mod Names
pub mod Content
pub mod Safe
pub mod Filed
pub mod Headers
pub mod Answers
use canvas_fuse.Prelude.{
  ℕ, zero, suc, ◌+◌, ◌-◌, Bool, true, false, ◌&&◌, ◌||◌, not, Option, none, some, List, [], ◌∷◌,
  ◌++◌, map, Text, text_eq, nat_eq, ◌==◌, codes, any, is_empty, length, leb, ltb, get_or, nat_beq,
  retain, reverse, strip_prefix, if◌then◌else◌,
}
use canvas_fuse.Paths.{slash, split, trim, rsplit_once}
use canvas_fuse.Blobs.{Blob}
use canvas_fuse.Http.Values.{Json, null, text, array, object, Items, end, item, text_at, field}
use canvas_fuse.Http.Urls.{utf8, utf8_char, percent_bytes}
use canvas_fuse.Http.Messages.{decimal}
use canvas_fuse.Tree.Roots.{text_leb}

pub record Libraries : Type 0 where
  pub is_alphanumeric : ℕ → Bool
  pub is_uppercase : ℕ → Bool
  pub lower : ℕ → Text
  pub upper : ℕ → Text
  pub lowercase : Text → Text
  pub lossy : List ℕ → Text  -- `from_utf8_lossy`
  pub pretty : Json → Blob
  pub utc_date : Text → Option Text  -- of a date in the format of RFC 3339, in that of RFC 822

pub record Document : Type 0 where
  pub id : ℕ
  pub schema : Text
  pub json : Json
  pub updated_at : ℕ
  pub locations : List Text
  pub display_name : Option Text
  pub linked_here : Bool
  pub size : Option ℕ
  pub checksum : Option Text
  pub raw : Option Json

pub data RenderedContent : Type 0 where
  inline_bytes : Blob → RenderedContent
  remote_blob : (size : Option ℕ) → RenderedContent

pub record Rendered : Type 0 where
  pub dir : Text
  pub base_name : Text
  pub content : RenderedContent

abbrev pub data_prefix : Text
data_prefix = codes "data/schema/"

abbrev pub schema_of : Text → Text
schema_of kind = data_prefix ++ kind

-- The last of the segments.
unfoldable pub last_segment : Text → List Text → Text
last_segment d [] = d
last_segment d (seg ∷ segs) = last_segment seg segs

unfoldable pub short_schema : Text → Text
unfolding last_segment split
short_schema schema = last_segment [] (split slash schema)

-- `str_field`: the first of the keys that has a text that is not blank.
unfoldable pub str_field : Json → List Text → Option Text
unfolding text_at trim
str_field v [] = none
str_field v (k ∷ ks) =
    let rest = str_field v ks in
    elim (text_at k v) [ none ↦ rest | some s ↦ if is_empty (trim s) then rest else some s ]

abbrev pub is_control : ℕ → Bool
is_control c = ltb c 32 || leb 127 c && ltb c 160

abbrev pub is_forbidden : ℕ → Bool
is_forbidden c = any (λ x. c == x) (codes "/\\:*?\"<>|") || is_control c

unfoldable pub cleaned_char : ℕ → ℕ
cleaned_char c = if is_forbidden c then b'_' else c

unfoldable pub clean : ℕ → Text → Text
unfolding cleaned_char
clean zero s = []
clean (suc left) [] = []
clean (suc left) (c ∷ s) = cleaned_char c ∷ clean left s

-- `trim_start_matches(c)`, and `trim_matches(c)`.
unfoldable pub strip_char : ℕ → Text → Text
strip_char c [] = []
strip_char c (x ∷ s) = let rest = strip_char c s in if x == c then rest else x ∷ s

unfoldable pub trim_char : ℕ → Text → Text
unfolding strip_char
trim_char c s = reverse (strip_char c (reverse (strip_char c s)))

unfoldable pub sanitize : Text → Text
unfolding clean trim trim_char
sanitize name =
    let trimmed = trim_char b'.' (trim (clean 120 name)) in
    if is_empty trimmed then codes "unnamed" else trimmed

-- The first so many bytes of a text; `none` where they would end inside a character, on which the code stops.
unfoldable pub first_bytes : ℕ → Text → Option Text
unfolding utf8_char
first_bytes n [] = if nat_beq n 0 then some [] else none
first_bytes n (c ∷ s) =
    let w = length (utf8_char c) in
    let rest = first_bytes (n - w) s in
    if nat_beq n 0
    then some []
    else if ltb n w
    then none
    else elim rest [ none ↦ none | some t ↦ some (c ∷ t) ]

abbrev ascii_lower : ℕ → ℕ
ascii_lower c = if leb b'A' c && leb c b'Z' then c + 32 else c

-- `url.len() > scheme.len() && url[..scheme.len()].eq_ignore_ascii_case(scheme)` over the schemes.
unfoldable pub has_scheme : List Text → Text → Option Bool
unfolding first_bytes utf8
has_scheme [] url = some false
has_scheme (scheme ∷ schemes) url =
    let rest = has_scheme schemes url in
    if ltb (length (utf8 scheme)) (length (utf8 url))
    then elim (first_bytes (length (utf8 scheme)) url) [
      | none ↦ none
      | some t ↦ if map ascii_lower t == map ascii_lower scheme then some true else rest
    ]
    else rest

abbrev pub address_only_schemes : List Text
address_only_schemes =
    codes "imap:"
    ∷ codes "imaps:"
    ∷ codes "pop3:"
    ∷ codes "pop3s:"
    ∷ codes "mailto:"
    ∷ codes "graph:"
    ∷ codes "ews:"
    ∷ codes "news:"
    ∷ codes "nntp:"
    ∷ []

unfoldable pub is_stored : Text → Option Bool
unfolding first_bytes utf8
is_stored url =
    if leb 9 (length (utf8 url))
    then elim (first_bytes 9 url) [
      | none ↦ none
      | some t ↦ some (map ascii_lower t == codes "stored://")
    ]
    else some false

abbrev every : (ℕ → Bool) → Text → Bool
every p s = not (any (λ c. not (p c)) s)

abbrev is_ascii_digit : ℕ → Bool
is_ascii_digit c = leb b'0' c && leb c b'9'

abbrev is_ascii_alphanumeric : ℕ → Bool
is_ascii_alphanumeric c = is_ascii_digit c || (leb b'a' (ascii_lower c) && leb (ascii_lower c) b'z')

abbrev is_ascii_hexdigit : ℕ → Bool
is_ascii_hexdigit c = is_ascii_digit c || (leb b'a' (ascii_lower c) && leb (ascii_lower c) b'f')

unfoldable pub looks_like_filename : Text → Bool
unfolding rsplit_once utf8
looks_like_filename base = elim (rsplit_once b'.' base) [
  | none ↦ false
  | some (stem, ext) ↦
      not (is_empty ext || (ltb 12 (length (utf8 ext)) || not (every is_ascii_alphanumeric ext)))
      && not (leb 16 (length (utf8 stem)) && every is_ascii_hexdigit stem)
]

-- What follows the first `://` of a text, and what follows its first `/`.
unfoldable pub after_scheme : Text → Text
unfolding strip_prefix
after_scheme [] = []
after_scheme s = after_first s s
  where
    after_first : Text → Text → Text
    after_first whole [] = whole
    after_first whole (c ∷ t) =
        let rest = after_first whole t in
        elim (strip_prefix (codes "://") (c ∷ t)) [ none ↦ rest | some r ↦ r ]

unfoldable pub after_slash : Text → Option Text
after_slash [] = none
after_slash (c ∷ s) = let rest = after_slash s in if c == slash then some s else rest

unfoldable pub until_query : Text → Text
until_query [] = []
until_query (c ∷ s) = let rest = until_query s in if c == b'?' || c == b'#' then [] else c ∷ rest

-- The last segment that is not empty.
unfoldable pub base_of : Text → Option Text
unfolding split after_scheme after_slash until_query
base_of url =
    let rest = after_scheme url in
    elim (reverse (
      retain (λ s. not (is_empty s))
        (split slash (until_query (get_or (after_slash rest) rest))))) [
          | [] ↦ none
          | seg ∷ segs ↦ some seg
        ]

-- `slice::sort` of texts.
unfoldable pub insert_text : Text → List Text → List Text
unfolding text_leb
insert_text x [] = x ∷ []
insert_text x (y ∷ ys) =
    let rest = insert_text x ys in if text_leb x y then x ∷ y ∷ ys else y ∷ rest

unfoldable pub sort_texts : List Text → List Text
unfolding insert_text
sort_texts [] = []
sort_texts (x ∷ xs) = insert_text x (sort_texts xs)
