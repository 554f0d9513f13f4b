-- ===== src/Render/Filed.antt =====
-- The name that a document is filed under stands in one directory (src/render.rs, `doc_name`).
use canvas_fuse.Prelude.{
  ℕ, zero, suc, ◌+◌, ◌/◌, ◌%◌, ◌≡◌, refl, subst, Bool, true, false, ◌||◌, not, Option, none, some,
  List, [], ◌∷◌, ◌++◌, Text, text_eq, nat_eq, ◌==◌, codes, any, is_empty, length, leb, ltb, get_or,
  All, arith, Bool-cases, Option-cases, inl, inr, if◌then◌else◌,
}
use canvas_fuse.Paths.{slash, split, push_char, trim}
use canvas_fuse.Http.Messages.{decimal, digits}
use canvas_fuse.Render.{
  Libraries, Document, is_forbidden, short_schema, last_segment, str_field, sanitize, trim_char,
  sort_texts,
}
use canvas_fuse.Http.Values.{field}
use canvas_fuse.Render.Names.{
  email_address, titled, fold, slug_chars, slugify, subject_of, email_name, schema_name,
  located_name, doc_name,
}
use canvas_fuse.Render.Safe.{All-append, All-inside, trim_char-IsInside, sanitize-IsFileName}

abbrev NoSlash : Text → Type 0
NoSlash s = All (λ c. (c == slash) ≡ false) s

-- A name that is not empty and has no separator.
pub record IsFiled (s : Text) : Type 0 where
  pub one : NoSlash s
  pub there : is_empty s ≡ false

literal : (s : Text) → any (λ c. c == slash) s ≡ false → NoSlash s
literal [] h = tt
literal (c ∷ s) h = (ground (arith, h), literal s (ground (arith, h)))

both : (s t : Text) → NoSlash s → NoSlash t → NoSlash (s ++ t)
both s t a b = All-append (λ c. (c == slash) ≡ false) s t a b

allowed-NoSlash : (s : Text) → All (λ c. is_forbidden c ≡ false) s → NoSlash s
allowed-NoSlash [] all = tt
allowed-NoSlash (c ∷ s) (one, all) = (ground (arith, one), allowed-NoSlash s all)

sanitize-NoSlash : (s : Text) → NoSlash (sanitize s)
sanitize-NoSlash s = allowed-NoSlash (sanitize s) (sanitize-IsFileName s).allowed

digits-NoSlash : (left n : ℕ) (acc : Text) → NoSlash acc → NoSlash (digits left n acc)
unfolding digits
digits-NoSlash zero n acc all = all
digits-NoSlash (suc left) n acc all = elim (Bool-cases (ltb n 10)) [
  | inl small ↦ rw small (ground arith, all)
  | inr large ↦ rw large (digits-NoSlash left (n / 10) ((48 + n % 10) ∷ acc) (ground arith, all))
]

decimal-NoSlash : (n : ℕ) → NoSlash (decimal n)
unfolding decimal
decimal-NoSlash n = digits-NoSlash 20 n [] tt

push_char-NoSlash :
    (x : ℕ) (segs : List Text)
    → (x == slash) ≡ false
    → All NoSlash segs
    → All NoSlash (push_char x segs)
unfolding push_char
push_char-NoSlash x [] h all = ((h, tt), tt)
push_char-NoSlash x (seg ∷ segs) h (one, all) = ((h, one), all)

split-NoSlash : (s : Text) → All NoSlash (split slash s)
unfolding split
split-NoSlash [] = (tt, tt)
split-NoSlash (x ∷ s) = elim (Bool-cases (x == slash)) [
  | inl same ↦ rw same (tt, split-NoSlash s)
  | inr other ↦ rw other (push_char-NoSlash x (split slash s) other (split-NoSlash s))
]

last_segment-NoSlash :
    (d : Text) (segs : List Text) → NoSlash d → All NoSlash segs → NoSlash (last_segment d segs)
unfolding last_segment
last_segment-NoSlash d [] h all = h
last_segment-NoSlash d (seg ∷ segs) h (one, all) = last_segment-NoSlash seg segs one all

short_schema-NoSlash : (s : Text) → NoSlash (short_schema s)
unfolding short_schema
short_schema-NoSlash s = last_segment-NoSlash [] (split slash s) tt (split-NoSlash s)

not_empty : (s ext : Text) → is_empty ext ≡ false → is_empty (s ++ ext) ≡ false
not_empty [] ext h = h
not_empty (c ∷ s) ext h = refl

-- A name with an extension.
with_ext :
    (s ext : Text)
    → NoSlash s
    → any (λ c. c == slash) ext ≡ false
    → is_empty ext ≡ false
    → IsFiled (s ++ ext)
with_ext s ext a b full = record {
  one = both s ext a (literal ext b);
  there = not_empty s ext full;
}

either_one : (b : Bool) (s t : Text) → NoSlash s → NoSlash t → NoSlash (if b then s else t)
either_one true s t a c = a
either_one false s t a c = c

module _ (lib : Libraries)
    (lower_lem : (c : ℕ) → lib.is_alphanumeric c ≡ true → NoSlash (lib.lower c)) where
  titled-NoSlash :
      (doc : Document) (keys : List Text) (kind : Text)
      → any (λ c. c == slash) kind ≡ false
      → NoSlash (titled lib doc keys kind)
  unfolding titled
  titled-NoSlash doc keys kind h = elim (Option-cases (str_field doc.json keys)) [
    | inl eq ↦
        rw (titled, eq)
          (both kind (codes "-" ++ decimal doc.id) (literal kind h)
            (both (codes "-") (decimal doc.id) (refl, tt) (decimal-NoSlash doc.id)))
    | inr (title, eq) ↦ rw (titled, eq) (sanitize-NoSlash title)
  ]

  slug_chars-NoSlash :
      (s out : Text) (last_dash : Bool) → NoSlash out → NoSlash (slug_chars lib s out last_dash)
  unfolding slug_chars
  slug_chars-NoSlash [] out last_dash all = all
  slug_chars-NoSlash (ch ∷ s) out last_dash all =
      let folded = fold lib ch in
      let letters = out ++ lib.lower folded in
      let dashed = if last_dash || is_empty out then out else out ++ (b'-' ∷ []) in
      elim (Bool-cases (lib.is_alphanumeric folded)) [
        | inl letter ↦
            let now : NoSlash letters = both out (lib.lower folded) all (lower_lem folded letter) in
            rw letter (
              either_one (leb 80 (length letters)) letters (slug_chars lib s letters false) now
                (slug_chars-NoSlash s letters false now))
        | inr other ↦
            let now : NoSlash dashed =
              either_one (last_dash || is_empty out) out (out ++ (b'-' ∷ [])) all
                (both out (b'-' ∷ []) all (refl, tt)) in
            rw other (
              either_one (leb 80 (length dashed)) dashed
                (slug_chars lib s dashed (last_dash || not (is_empty out))) now
                (slug_chars-NoSlash s dashed (last_dash || not (is_empty out)) now))
      ]

  slugify-NoSlash : (s : Text) → NoSlash (slugify lib s)
  unfolding slugify
  slugify-NoSlash s =
      let whole = slug_chars lib (trim s) [] false in
      All-inside (λ c. (c == slash) ≡ false) (trim_char b'-' whole) whole
        (trim_char-IsInside b'-' whole) (slug_chars-NoSlash (trim s) [] false tt)

  subject_of-NoSlash : (doc : Document) → NoSlash (subject_of lib doc)
  unfolding subject_of
  subject_of-NoSlash doc =
      let keys = codes "title" ∷ codes "subject" ∷ codes "name" ∷ [] in
      elim (Option-cases (str_field doc.json keys)) [
        | inl eq ↦ rw (subject_of, eq) (literal (codes "no-subject") refl)
        | inr (s, eq) ↦
            rw (subject_of, eq)
              (either_one (is_empty (slugify lib s)) (codes "no-subject") (slugify lib s)
                (literal (codes "no-subject") refl) (slugify-NoSlash s))
      ]

  email_name-IsFiled : (doc : Document) → IsFiled (email_name lib doc)
  unfolding email_name
  email_name-IsFiled doc =
      let from : Option Text = elim (field (codes "from") doc.json) [
        | none ↦ none
        | some v ↦ email_address lib v
      ] in
      let name = sanitize (get_or from (codes "unknown")) in
      record {
        one =
            both name (codes "-" ++ (subject_of lib doc ++ codes ".eml"))
              (sanitize-NoSlash (get_or from (codes "unknown")))
              (both (codes "-") (subject_of lib doc ++ codes ".eml") (refl, tt)
                (both (subject_of lib doc) (codes ".eml") (subject_of-NoSlash doc)
                  (literal (codes ".eml") refl)));
        there = not_empty name (codes "-" ++ (subject_of lib doc ++ codes ".eml")) refl;
      }

  either-IsFiled : (b : Bool) (s t : Text) → IsFiled s → IsFiled t → IsFiled (if b then s else t)
  either-IsFiled true s t a c = a
  either-IsFiled false s t a c = c

  schema_name-IsFiled : (doc : Document) → IsFiled (schema_name lib doc)
  unfolding schema_name
  schema_name-IsFiled doc =
      let title = codes "title" in
      let keys = title ∷ codes "label" ∷ codes "url" ∷ codes "uri" ∷ [] in
      let note = titled lib doc (title ∷ []) (codes "note") in
      let todo = titled lib doc (title ∷ []) (codes "todo") in
      let link = titled lib doc keys (codes "link") in
      let short = short_schema doc.schema in
      let ext = codes "_" ++ (decimal doc.id ++ codes ".json") in
      let plain : IsFiled (short ++ ext) = record {
        one = both short ext (short_schema-NoSlash doc.schema) (
            both (codes "_") (decimal doc.id ++ codes ".json") (refl, tt)
              (both (decimal doc.id) (codes ".json") (decimal-NoSlash doc.id)
                (literal (codes ".json") refl)));
        there = not_empty short ext refl;
      } in
      let noted : IsFiled (note ++ codes ".note.md") =
        with_ext note (codes ".note.md") (titled-NoSlash doc (title ∷ []) (codes "note") refl) refl
          refl in
      let listed : IsFiled (todo ++ codes ".todo.json") =
        with_ext todo (codes ".todo.json") (titled-NoSlash doc (title ∷ []) (codes "todo") refl)
          refl refl in
      let linked : IsFiled (link ++ codes ".url") =
        with_ext link (codes ".url") (titled-NoSlash doc keys (codes "link") refl) refl refl in
      either-IsFiled _ _ _ (email_name-IsFiled doc) (
        either-IsFiled _ _ _ noted
          (either-IsFiled _ _ _ listed (either-IsFiled _ _ _ linked plain)))

  sanitize-IsFiled : (s : Text) → IsFiled (sanitize s)
  sanitize-IsFiled s = record { one = sanitize-NoSlash s; there = (sanitize-IsFileName s).there }

  IsFiled-name :
      (doc : Document) (o : Option (Option Text)) (n : Text)
      → located_name lib (sort_texts doc.locations) ≡ o
      → doc.display_name ≡ none
      → doc_name lib doc ≡ some n
      → IsFiled n
  unfolding doc_name
  IsFiled-name doc none n at_ none_ h = ground (arith, at_, none_, h)
  IsFiled-name doc (some none) n at_ none_ h =
      subst (λ s. IsFiled s) (ground (arith, at_, none_, h)) (schema_name-IsFiled doc)
  IsFiled-name doc (some (some name)) n at_ none_ h =
      subst (λ s. IsFiled s) (ground (arith, at_, none_, h)) (sanitize-IsFiled name)

  pub doc_name-IsFiled : (doc : Document) (n : Text) → doc_name lib doc ≡ some n → IsFiled n
  unfolding doc_name
  doc_name-IsFiled doc n h = elim (Option-cases doc.display_name) [
    | inl eq ↦ IsFiled-name doc (located_name lib (sort_texts doc.locations)) n refl eq h
    | inr (name, eq) ↦ subst (λ s. IsFiled s) (ground (arith, eq, h)) (sanitize-IsFiled name)
  ]
