-- ===== src/Render/Answers.antt =====
-- Every document has a name, if its locations begin with characters of one byte (src/render.rs, `doc_name`).
use canvas_fuse.Prelude.{
  ℕ, zero, suc, ◌-◌, ◌≤◌, ◌≡◌, refl, subst, true, false, Option, none, some, List, [], ◌∷◌, ◌++◌,
  Text, text_eq, nat_eq, ◌==◌, nat_beq, is_some, length, leb, ltb, All, arith, Bool-cases,
  Option-cases, inl, inr,
}
use canvas_fuse.Paths.{slash}
use canvas_fuse.Http.Urls.{utf8, utf8_char}
use canvas_fuse.Tree.Roots.{text_leb}
use canvas_fuse.Render.{
  Libraries, Document, first_bytes, has_scheme, is_stored, address_only_schemes, insert_text,
  sort_texts,
}
use canvas_fuse.Render.Names.{name_bearing_basename, located_name, doc_name}
use canvas_fuse.Render.Filed.{IsFiled, doc_name-IsFiled}

-- All of the text, or its first nine characters, have one byte each.
abbrev pub IsPlain : ℕ → Text → Type 0
IsPlain zero s = Unit
IsPlain (suc n) [] = Unit
IsPlain (suc n) (c ∷ s) = ltb c 128 ≡ true × IsPlain n s

one_byte : (c : ℕ) → ltb c 128 ≡ true → utf8_char c ≡ c ∷ []
unfolding utf8_char
one_byte c h = ground (arith, h)

some_cons :
    (c : ℕ) (o : Option Text)
    → is_some o ≡ true
    → is_some (elim o [ none ↦ none | some t ↦ some (c ∷ t) ]) ≡ true
some_cons c none h = h
some_cons c (some t) h = refl

first_bytes-some :
    (m n : ℕ) (s : Text)
    → n ≤ m
    → IsPlain m s
    → n ≤ length (utf8 s)
    → is_some (first_bytes n s) ≡ true
unfolding first_bytes utf8
first_bytes-some m zero [] le plain enough = refl
first_bytes-some m zero (c ∷ s) le plain enough = refl
first_bytes-some m (suc n) [] le plain enough = ground (arith, enough)
first_bytes-some zero (suc n) (c ∷ s) le plain enough = ground (arith, le)
first_bytes-some (suc m) (suc n) (c ∷ s) le (one, plain) enough =
    let w : utf8_char c ≡ c ∷ [] = one_byte c one in
    let rest : n ≤ length (utf8 s) =
      omega (arith, subst (λ u. suc n ≤ length (u ++ utf8 s)) w enough) in
    let a : nat_beq (suc n) 0 ≡ false = ground arith in
    let b : ltb (suc n) (length (c ∷ [])) ≡ false = ground arith in
    let d : suc n - length (c ∷ []) ≡ n = omega arith in
    rw (w, a, b, d)
      (some_cons c (first_bytes n s) (first_bytes-some m n s (omega (arith, le)) plain rest))

-- The scheme of a text is at most eight bytes long, if it is one of the list.
abbrev AreShort : List Text → Type 0
AreShort schemes = All (λ s. length (utf8 s) ≤ 9) schemes

has_scheme-some :
    (schemes : List Text) (url : Text)
    → AreShort schemes
    → IsPlain 9 url
    → is_some (has_scheme schemes url) ≡ true
unfolding has_scheme
has_scheme-some [] url short plain = refl
has_scheme-some (scheme ∷ schemes) url (one, short) plain =
    let n = length (utf8 scheme) in
    let rest = has_scheme-some schemes url short plain in
    elim (Option-cases (first_bytes n url)) [
      | inl stops ↦ elim (Bool-cases (ltb n (length (utf8 url)))) [
        | inl less ↦
            let cut = first_bytes-some 9 n url one plain (ground (arith, less)) in
            ground (arith, cut, stops)
        | inr more ↦ rw more rest
      ]
      | inr (t, eq) ↦ rw eq (ground (arith, rest))
    ]

is_stored-some : (url : Text) → IsPlain 9 url → is_some (is_stored url) ≡ true
unfolding is_stored
is_stored-some url plain = elim (Bool-cases (leb 9 (length (utf8 url)))) [
  | inl long ↦
      let cut = first_bytes-some 9 9 url (omega arith) plain (ground (arith, long)) in
      ground (arith, cut, long)
  | inr brief ↦ rw brief refl
]

short_schemes : AreShort address_only_schemes
unfolding utf8 utf8_char
short_schemes = (
  omega arith,
  (
    omega arith,
    (
      omega arith,
      (omega arith, (omega arith, (omega arith, (omega arith, (omega arith, (omega arith, tt)))))),
    ),
  ),
)

or_rest :
    (o r : Option (Option Text))
    → is_some o ≡ true
    → is_some r ≡ true
    → is_some (elim o [ none ↦ none | some p ↦ elim p [ none ↦ r | some name ↦ some (some name) ] ])
      ≡ true
or_rest none r h k = h
or_rest (some none) r h k = k
or_rest (some (some name)) r h k = refl

module _ (lib : Libraries) where
  name_bearing_basename-some :
      (url : Text) → IsPlain 9 url → is_some (name_bearing_basename lib url) ≡ true
  unfolding name_bearing_basename
  name_bearing_basename-some url plain =
      let scheme = has_scheme-some address_only_schemes url short_schemes plain in
      let stored = is_stored-some url plain in ground (arith, scheme, stored)

  located_name-some :
      (urls : List Text) → All (λ u. IsPlain 9 u) urls → is_some (located_name lib urls) ≡ true
  unfolding located_name
  located_name-some [] all = refl
  located_name-some (url ∷ urls) (one, all) =
      or_rest (name_bearing_basename lib url) (located_name lib urls)
        (name_bearing_basename-some url one) (located_name-some urls all)

  all_inserted :
      (x : Text) (ys : List Text)
      → IsPlain 9 x
      → All (λ u. IsPlain 9 u) ys
      → All (λ u. IsPlain 9 u) (insert_text x ys)
  unfolding insert_text
  all_inserted x [] one all = (one, tt)
  all_inserted x (y ∷ ys) one (first, all) = elim (Bool-cases (text_leb x y)) [
    | inl le ↦ rw le (one, (first, all))
    | inr gt ↦ rw gt (first, all_inserted x ys one all)
  ]

  all_sorted : (xs : List Text) → All (λ u. IsPlain 9 u) xs → All (λ u. IsPlain 9 u) (sort_texts xs)
  unfolding sort_texts
  all_sorted [] all = tt
  all_sorted (x ∷ xs) (one, all) = all_inserted x (sort_texts xs) one (all_sorted xs all)

  doc_name-some :
      (doc : Document) → All (λ u. IsPlain 9 u) doc.locations → is_some (doc_name lib doc) ≡ true
  unfolding doc_name
  doc_name-some doc all =
      ground (arith, located_name-some (sort_texts doc.locations) (all_sorted doc.locations all))

  given_name : (o : Option Text) → is_some o ≡ true → (n : Text) × (o ≡ some n)
  given_name none h = ground (arith, h)
  given_name (some n) h = (n, refl)

  -- A document whose locations have characters of one byte only among their first nine has a name, and the name
  -- of any document is not empty and has no separator of paths, if a letter or digit has none in lower case.
  pub doc_name-IsName :
      (doc : Document)
      → ((c : ℕ) → lib.is_alphanumeric c ≡ true → All (λ d. (d == slash) ≡ false) (lib.lower c))
      → (All (λ u. IsPlain 9 u) doc.locations → (n : Text) × (doc_name lib doc ≡ some n))
        × ((n : Text) → doc_name lib doc ≡ some n → IsFiled n)
  doc_name-IsName doc lower_lem = (
    λ all. given_name (doc_name lib doc) (doc_name-some doc all),
    doc_name-IsFiled lib lower_lem doc,
  )
