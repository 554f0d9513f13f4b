-- ===== src/Render/Safe.antt =====
-- The names of documents are names of files (src/render.rs, `sanitize`, `doc_name`).
use mathlib.Core.List.{reverse-append, reverse-reverse}
use canvas_fuse.Prelude.{
  ℕ, zero, suc, ◌≤◌, ◌≡◌, refl, sym, ap, subst, ◌∙◌, Bool, false, [], ◌∷◌, ◌++◌, Text, text_eq,
  nat_eq, ◌==◌, is_empty, length, length-append, All, reverse, arith, Bool-cases, inl, inr,
}
use canvas_fuse.Paths.{trim_start, is_whitespace, trim}
use canvas_fuse.Render.{is_forbidden, cleaned_char, clean, strip_char, trim_char, sanitize}

module _ (P : ℕ → Type 0) where
  pub All-append_left : (s t : Text) → All P (s ++ t) → All P s
  All-append_left [] t all = tt
  All-append_left (c ∷ s) t (one, all) = (one, All-append_left s t all)

  pub All-append_right : (s t : Text) → All P (s ++ t) → All P t
  All-append_right [] t all = all
  All-append_right (c ∷ s) t (one, all) = All-append_right s t all

  pub All-append : (s t : Text) → All P s → All P t → All P (s ++ t)
  All-append [] t a b = b
  All-append (c ∷ s) t (one, a) b = (one, All-append s t a b)

-- The one text is inside the other.
pub record IsInside (s t : Text) : Type 0 where
  pub before : Text
  pub behind : Text
  pub whole : t ≡ before ++ (s ++ behind)

pub All-inside : (P : ℕ → Type 0) (s t : Text) → IsInside s t → All P t → All P s
All-inside P s t i all =
    All-append_left P s i.behind
      (All-append_right P i.before (s ++ i.behind) (subst (λ u. All P u) i.whole all))

length-inside : (s t : Text) → IsInside s t → length s ≤ length t
length-inside s t i = omega (
  arith,
  ap (λ u. length u) i.whole,
  length-append i.before (s ++ i.behind),
  length-append s i.behind,
)

-- What a function that drops from the front leaves, when it is applied at both ends.
module _ (drop : Text → Text) (dropped : (s : Text) → (pre : Text) × (s ≡ pre ++ drop s)) where
  drop_end : (s : Text) → (post : Text) × (s ≡ reverse (drop (reverse s)) ++ post)
  drop_end s =
      let (pre, eq) = dropped (reverse s) in
      (
        reverse pre,
        sym (reverse-reverse s) ∙ (ap (λ u. reverse u) eq ∙ reverse-append pre (drop (reverse s))),
      )

  both-IsInside : (s : Text) → IsInside (reverse (drop (reverse (drop s)))) s
  both-IsInside s =
      let (pre, front) = dropped s in
      let (post, rear) = drop_end (drop s) in
      record { before = pre; behind = post; whole = front ∙ ap (λ u. pre ++ u) rear }

strip_dropped : (c : ℕ) (s : Text) → (pre : Text) × (s ≡ pre ++ strip_char c s)
unfolding strip_char
strip_dropped c [] = ([], refl)
strip_dropped c (x ∷ s) = elim (Bool-cases (x == c)) [
  | inl same ↦ let (pre, eq) = strip_dropped c s in (x ∷ pre, rw same (ap (λ u. x ∷ u) eq))
  | inr other ↦ ([], rw other refl)
]

trim_dropped : (s : Text) → (pre : Text) × (s ≡ pre ++ trim_start s)
unfolding trim_start
trim_dropped [] = ([], refl)
trim_dropped (x ∷ s) = elim (Bool-cases (is_whitespace x)) [
  | inl same ↦ let (pre, eq) = trim_dropped s in (x ∷ pre, rw same (ap (λ u. x ∷ u) eq))
  | inr other ↦ ([], rw other refl)
]

pub trim-IsInside : (s : Text) → IsInside (trim s) s
unfolding trim
trim-IsInside s = both-IsInside trim_start trim_dropped s

pub trim_char-IsInside : (c : ℕ) (s : Text) → IsInside (trim_char c s) s
unfolding trim_char
trim_char-IsInside c s = both-IsInside (strip_char c) (strip_dropped c) s

abbrev pub begins : ℕ → Text → Bool
begins c [] = false
begins c (x ∷ s) = x == c

strip_char-begins : (c : ℕ) (s : Text) → begins c (strip_char c s) ≡ false
unfolding strip_char
strip_char-begins c [] = refl
strip_char-begins c (x ∷ s) = ground (arith, strip_char-begins c s)

begins-prefix : (c : ℕ) (s t : Text) → begins c (s ++ t) ≡ false → begins c s ≡ false
begins-prefix c [] t h = refl
begins-prefix c (x ∷ s) t h = h

trim_char-begins : (c : ℕ) (s : Text) → begins c (trim_char c s) ≡ false
unfolding trim_char
trim_char-begins c s =
    let (post, eq) = drop_end (strip_char c) (strip_dropped c) (strip_char c s) in
    begins-prefix c (trim_char c s) post
      (subst (λ u. begins c u ≡ false) eq (strip_char-begins c s))

pub clean-allowed : (n : ℕ) (s : Text) → All (λ c. is_forbidden c ≡ false) (clean n s)
unfolding clean cleaned_char
clean-allowed zero s = tt
clean-allowed (suc n) [] = tt
clean-allowed (suc n) (c ∷ s) = (ground arith, clean-allowed n s)

clean-length : (n : ℕ) (s : Text) → length (clean n s) ≤ n
unfolding clean
clean-length zero s = omega arith
clean-length (suc n) [] = omega arith
clean-length (suc n) (c ∷ s) = omega (arith, clean-length n s)

-- A name that a directory can hold.
pub record IsFileName (s : Text) : Type 0 where
  pub allowed : All (λ c. is_forbidden c ≡ false) s
  pub short : length s ≤ 120
  pub there : is_empty s ≡ false
  pub shown : begins b'.' s ≡ false

-- Whatever a document is called, what becomes of it has 1 to 120 characters, no separator of paths nor another
-- character that a path cannot carry, and no dot in front.
pub sanitize-IsFileName : (name : Text) → IsFileName (sanitize name)
unfolding sanitize
sanitize-IsFileName name =
    let trimmed = trim (clean 120 name) in
    let s = trim_char b'.' trimmed in
    let inside = trim_char-IsInside b'.' trimmed in
    let kept = trim-IsInside (clean 120 name) in
    elim (Bool-cases (is_empty s)) [
      | inl blank ↦ rw blank (record {
        allowed = (refl, (refl, (refl, (refl, (refl, (refl, (refl, tt)))))));
        short = omega arith;
        there = refl;
        shown = refl;
      })
      | inr full ↦ rw full (record {
        allowed =
            All-inside (λ c. is_forbidden c ≡ false) s trimmed inside
              (All-inside (λ c. is_forbidden c ≡ false) trimmed (clean 120 name) kept
                (clean-allowed 120 name));
        short = omega (
          arith,
          length-inside s trimmed inside,
          length-inside trimmed (clean 120 name) kept,
          clean-length 120 name,
        );
        there = full;
        shown = trim_char-begins b'.' trimmed;
      })
    ]
