-- ===== src/Render/Names.antt =====
-- The name that a document is filed under (src/render.rs, `doc_name`). Where the code stops on a text that it
-- cuts inside a character, the answer is `none`.
use canvas_fuse.Prelude.{
  ℕ, ◌-◌, Bool, false, ◌&&◌, ◌||◌, not, Option, none, some, List, [], ◌∷◌, ◌++◌, Text, text_eq,
  nat_eq, ◌==◌, codes, is_empty, length, leb, get_or, if◌then◌else◌,
}
use canvas_fuse.Paths.{trim}
use canvas_fuse.Http.Values.{Json, text, array, object, Items, end, item, field}
use canvas_fuse.Http.Urls.{utf8, percent_bytes}
use canvas_fuse.Http.Messages.{decimal}
use canvas_fuse.Render.{
  Libraries, Document, schema_of, short_schema, str_field, sanitize, trim_char, has_scheme,
  address_only_schemes, is_stored, looks_like_filename, base_of, sort_texts,
}

-- First and last code point, and the letter of ASCII.
abbrev pub fold_ranges : List (ℕ × ℕ × ℕ)
fold_ranges =
    (192, 197, b'a')
    ∷ (224, 229, b'a')
    ∷ (256, 261, b'a')
    ∷ (199, 199, b'c')
    ∷ (231, 231, b'c')
    ∷ (262, 269, b'c')
    ∷ (270, 270, b'd')
    ∷ (271, 271, b'd')
    ∷ (272, 272, b'd')
    ∷ (273, 273, b'd')
    ∷ (200, 203, b'e')
    ∷ (232, 235, b'e')
    ∷ (274, 283, b'e')
    ∷ (284, 291, b'g')
    ∷ (292, 295, b'h')
    ∷ (204, 207, b'i')
    ∷ (236, 239, b'i')
    ∷ (296, 305, b'i')
    ∷ (308, 308, b'j')
    ∷ (309, 309, b'j')
    ∷ (310, 310, b'k')
    ∷ (311, 311, b'k')
    ∷ (313, 322, b'l')
    ∷ (209, 209, b'n')
    ∷ (241, 241, b'n')
    ∷ (323, 328, b'n')
    ∷ (210, 214, b'o')
    ∷ (216, 216, b'o')
    ∷ (242, 246, b'o')
    ∷ (248, 248, b'o')
    ∷ (332, 337, b'o')
    ∷ (340, 345, b'r')
    ∷ (346, 353, b's')
    ∷ (354, 359, b't')
    ∷ (217, 220, b'u')
    ∷ (249, 252, b'u')
    ∷ (360, 371, b'u')
    ∷ (372, 372, b'w')
    ∷ (373, 373, b'w')
    ∷ (221, 221, b'y')
    ∷ (253, 253, b'y')
    ∷ (255, 255, b'y')
    ∷ (374, 376, b'y')
    ∷ (377, 382, b'z')
    ∷ []

module _ (lib : Libraries) where
  -- `percent_decode`.
  unfoldable pub percent_decode : Text → Text
  unfolding percent_bytes utf8
  percent_decode s = lib.lossy (percent_bytes (utf8 s))

  unfoldable pub unless_blank : Text → Option Text
  unfolding trim
  unless_blank s = if is_empty (trim s) then none else some s

  unfoldable pub name_bearing_basename : Text → Option (Option Text)
  unfolding has_scheme is_stored base_of percent_decode looks_like_filename unless_blank
  name_bearing_basename url = elim (has_scheme address_only_schemes url) [
    | none ↦ none
    | some is_address ↦ if is_address then some none else elim (base_of url) [
      | none ↦ some none
      | some base ↦ elim (is_stored url) [
        | none ↦ none
        | some stored ↦
            if stored && not (looks_like_filename (percent_decode base))
            then some none
            else some (unless_blank (percent_decode base))
      ]
    ]
  ]

  -- The first name that the locations bear.
  unfoldable pub located_name : List Text → Option (Option Text)
  unfolding name_bearing_basename
  located_name [] = some none
  located_name (url ∷ urls) =
      let rest = located_name urls in
      elim (name_bearing_basename url) [
        | none ↦ none
        | some o ↦ elim o [ none ↦ rest | some name ↦ some (some name) ]
      ]

  unfoldable pub titled : Document → List Text → Text → Text
  unfolding str_field sanitize decimal
  titled doc keys kind = elim (str_field doc.json keys) [
    | none ↦ kind ++ (codes "-" ++ decimal doc.id)
    | some title ↦ sanitize title
  ]

  -- `fold`: the accented letters of two blocks become those of ASCII.
  unfoldable pub fold_base : ℕ → Option ℕ
  fold_base ch = letter ch fold_ranges
    where
      letter : ℕ → List (ℕ × ℕ × ℕ) → Option ℕ
      letter ch [] = none
      letter ch ((lo, hi, base) ∷ ranges) =
          let rest = letter ch ranges in if leb lo ch && leb ch hi then some base else rest

  unfoldable pub fold : ℕ → ℕ
  unfolding fold_base
  fold ch = elim (fold_base ch) [
    | none ↦ ch
    | some base ↦ if lib.is_uppercase ch then base - 32 else base
  ]

  -- The loop of `slugify`: what is written so far, and whether a dash was written last.
  unfoldable pub slug_chars : Text → Text → Bool → Text
  unfolding fold
  slug_chars [] out last_dash = out
  slug_chars (ch ∷ s) out last_dash =
      let folded = fold ch in
      let letters = out ++ lib.lower folded in
      let dashed = if last_dash || is_empty out then out else out ++ (b'-' ∷ []) in
      let after_letter = slug_chars s letters false in
      let after_dash = slug_chars s dashed (last_dash || not (is_empty out)) in
      if lib.is_alphanumeric folded
      then (if leb 80 (length letters) then letters else after_letter)
      else (if leb 80 (length dashed) then dashed else after_dash)

  unfoldable pub slugify : Text → Text
  unfolding slug_chars trim trim_char
  slugify input = trim_char b'-' (slug_chars (trim input) [] false)

  unfoldable pub address_of : Text → Option Text
  unfolding trim
  address_of s = let a = lib.lowercase (trim s) in if is_empty a then none else some a

  unfoldable mutual
    pub email_address : Json → Option Text
    email_address (text s) = address_of s
    email_address (array items) = first_address items
    email_address (object fields) =
        elim (str_field (object fields) (codes "address" ∷ codes "name" ∷ [])) [
          | none ↦ none
          | some s ↦ some (lib.lowercase (trim s))
        ]
    email_address _ = none

    pub first_address : Items → Option Text
    first_address end = none
    first_address (item v vs) =
        let rest = first_address vs in elim (email_address v) [ none ↦ rest | some a ↦ some a ]

  unfoldable pub subject_of : Document → Text
  unfolding str_field slugify
  subject_of doc = elim (str_field doc.json (codes "title" ∷ codes "subject" ∷ codes "name" ∷ [])) [
    | none ↦ codes "no-subject"
    | some s ↦ if is_empty (slugify s) then codes "no-subject" else slugify s
  ]

  unfoldable pub email_name : Document → Text
  unfolding email_address sanitize subject_of
  email_name doc =
      let from : Option Text = elim (field (codes "from") doc.json) [
        | none ↦ none
        | some v ↦ email_address v
      ] in
      sanitize (get_or from (codes "unknown")) ++ (codes "-" ++ (subject_of doc ++ codes ".eml"))

  -- The name that its schema derives.
  unfoldable pub schema_name : Document → Text
  unfolding email_name titled short_schema decimal
  schema_name doc =
      if doc.schema == schema_of (codes "message/email")
      then email_name doc
      else if doc.schema == schema_of (codes "note")
      then titled doc (codes "title" ∷ []) (codes "note") ++ codes ".note.md"
      else if doc.schema == schema_of (codes "task")
      then titled doc (codes "title" ∷ []) (codes "todo") ++ codes ".todo.json"
      else if doc.schema == schema_of (codes "tab") || doc.schema == schema_of (codes "link")
      then titled doc (codes "title" ∷ codes "label" ∷ codes "url" ∷ codes "uri" ∷ [])
          (codes "link")
        ++ codes ".url"
      else short_schema doc.schema ++ (codes "_" ++ (decimal doc.id ++ codes ".json"))

  unfoldable pub doc_name : Document → Option Text
  unfolding sanitize located_name sort_texts schema_name
  doc_name doc = elim doc.display_name [
    | some name ↦ some (sanitize name)
    | none ↦ elim (located_name (sort_texts doc.locations)) [
      | none ↦ none
      | some o ↦ elim o [ some name ↦ some (sanitize name) | none ↦ some (schema_name doc) ]
    ]
  ]
