-- ===== src/Render/Content.antt =====
-- The bytes of a document (src/render.rs, `content`, `render_email`), and `render` itself.
use canvas_fuse.Prelude.{
  ℕ, ◌&&◌, ◌||◌, not, Option, none, some, List, [], ◌∷◌, ◌++◌, map, Text, text_eq, nat_eq, ◌==◌,
  codes, is_empty, is_some, strip_prefix, get_or, if◌then◌else◌,
}
use canvas_fuse.Paths.{trim, join}
use canvas_fuse.Blobs.{Blob}
use canvas_fuse.Http.Values.{Json, null, text, array, Items, end, item, field}
use canvas_fuse.Http.Urls.{utf8}
use canvas_fuse.Render.{
  Libraries, Document, RenderedContent, inline_bytes, remote_blob, Rendered, schema_of, data_prefix,
  short_schema, str_field,
}
use canvas_fuse.Render.Names.{doc_name}

abbrev pub crlf : Text
crlf = 13 ∷ 10 ∷ []

abbrev pub header_char : ℕ → ℕ
header_char c = if c == 13 || c == 10 then 32 else c

-- A header and its line, or nothing, if the value is blank.
unfoldable pub header_line : Text × Text → Text
unfolding trim
header_line (key, value) =
    if is_empty (trim value)
    then []
    else key ++ (codes ": " ++ (trim (map header_char (trim value)) ++ crlf))

unfoldable pub header_lines : List (Text × Text) → Text
unfolding header_line
header_lines [] = []
header_lines (h ∷ hs) = header_line h ++ header_lines hs

-- `body.replace("\r\n", "\n")`, and `replace('\n', "\r\n")`.
unfoldable pub unix_lines : Text → Text
unix_lines [] = []
unix_lines (c ∷ []) = c ∷ []
unix_lines (c ∷ d ∷ s) =
    let rest = unix_lines (d ∷ s) in if c == 13 && d == 10 then rest else c ∷ rest

unfoldable pub mail_lines : Text → Text
mail_lines [] = []
mail_lines (c ∷ s) = let rest = mail_lines s in if c == 10 then 13 ∷ 10 ∷ rest else c ∷ rest

-- An address: its name and its mail, of which one may be missing.
unfoldable pub party_of : Json → Text
unfolding str_field trim
party_of v =
    let address = trim (get_or (str_field v (codes "address" ∷ [])) []) in
    let name = trim (get_or (str_field v (codes "name" ∷ [])) []) in
    if not (is_empty name) && not (name == address)
    then name ++ (codes " <" ++ (address ++ codes ">"))
    else if not (is_empty address)
    then address
    else name

unfoldable mutual
  unfolding party_of

  pub party : Json → Text
  party null = []
  party (text s) = s
  party (array items) = join (codes ", ") (parties items)
  party v = party_of v

  pub parties : Items → List Text
  parties end = []
  parties (item v vs) =
      let rest = parties vs in let one = party v in if is_empty (trim one) then rest else one ∷ rest

unfoldable pub email_content_type : Json → Text
unfolding str_field
email_content_type v =
    if is_some (str_field v (codes "bodyHtml" ∷ []))
      && not (is_some (str_field v (codes "body" ∷ [])))
    then codes "text/html; charset=utf-8"
    else codes "text/plain; charset=utf-8"

unfoldable pub text_or : Json → List Text → Text
unfolding str_field
text_or v keys = get_or (str_field v keys) []

module _ (lib : Libraries) where
  unfoldable pub header_date : Json → Text
  unfolding str_field
  header_date v = elim (str_field v (codes "date" ∷ codes "sentAt" ∷ codes "receivedAt" ∷ [])) [
    | none ↦ []
    | some raw ↦ get_or (lib.utc_date raw) []
  ]

  -- Of a field that may be missing, which counts as null.
  unfoldable pub email_headers : Json → List (Text × Text)
  unfolding party header_date email_content_type text_or
  email_headers v =
      (codes "From", party (get_or (field (codes "from") v) null))
      ∷ (codes "To", party (get_or (field (codes "to") v) null))
      ∷ (codes "Cc", party (get_or (field (codes "cc") v) null))
      ∷ (codes "Subject", text_or v (codes "subject" ∷ codes "title" ∷ []))
      ∷ (codes "Date", header_date v)
      ∷ (codes "Message-ID", text_or v (codes "messageId" ∷ []))
      ∷ (codes "In-Reply-To", text_or v (codes "inReplyTo" ∷ []))
      ∷ (codes "MIME-Version", codes "1.0")
      ∷ (codes "Content-Type", email_content_type v)
      ∷ []

  unfoldable pub email_text : Json → Text
  unfolding header_lines email_headers mail_lines unix_lines text_or
  email_text v =
      header_lines (email_headers v)
      ++ (crlf
          ++ (mail_lines (
                unix_lines (text_or v (codes "body" ∷ codes "bodyHtml" ∷ codes "bodyPreview" ∷ [])))
              ++ crlf))

  unfoldable pub render_email : Document → Blob
  unfolding email_text utf8
  render_email doc = utf8 (email_text doc.json)

  unfoldable pub content : Document → RenderedContent
  unfolding render_email text_or utf8
  content doc =
      if doc.schema == schema_of (codes "note")
      then inline_bytes (utf8 (text_or doc.json (codes "content" ∷ [])))
      else if doc.schema == schema_of (codes "tab") || doc.schema == schema_of (codes "link")
      then inline_bytes (
          utf8 (
            codes "[InternetShortcut]\nURL="
            ++ (text_or doc.json (codes "url" ∷ codes "uri" ∷ []) ++ (10 ∷ []))))
      else if doc.schema == schema_of (codes "task")
      then inline_bytes (lib.pretty doc.json)
      else if doc.schema == schema_of (codes "message/email")
      then inline_bytes (render_email doc)
      else if doc.schema == schema_of (codes "file")
      then remote_blob doc.size
      else inline_bytes (lib.pretty (get_or doc.raw doc.json))

  -- The last segment of the kind, with a capital, in the plural.
  unfoldable pub schema_folder : Text → Text
  unfolding strip_prefix short_schema
  schema_folder schema = elim (short_schema (get_or (strip_prefix data_prefix schema) schema)) [
    | [] ↦ codes "Docs"
    | c ∷ s ↦ lib.upper c ++ (s ++ codes "s")
  ]

  unfoldable pub render : Document → Option Rendered
  unfolding doc_name content schema_folder
  render doc = elim (doc_name lib doc) [
    | none ↦ none
    | some name ↦
        some (record { dir = schema_folder doc.schema; base_name = name; content = content doc })
  ]
