-- ===== src/Tree/Home/Keys.antt =====
-- The segments of a key (src/state.rs), and its last one.
use canvas_fuse.Prelude.{
  ℕ, ◌≡◌, refl, ap, ◌∙◌, Bool, true, false, not, none, some, List, [], ◌∷◌, ◌++◌, Text, text_eq,
  is_empty, is_nil, nat_beq, subst, retain, arith, Option-cases, inl, inr,
}
use canvas_fuse.Paths.{slash, push_char, split, rsplit_once}
use canvas_fuse.Tree.{Tree, lookup}
use canvas_fuse.Tree.Home.{segments, split_key, walk}

push_char-snoc :
    (x : ℕ) (l : List Text) (b : Text)
    → is_nil l ≡ false
    → push_char x (l ++ (b ∷ [])) ≡ push_char x l ++ (b ∷ [])
unfolding push_char
push_char-snoc x [] b h = ground (arith, h)
push_char-snoc x (y ∷ l) b h = refl

push_char_not_nil : (x : ℕ) (l : List Text) → is_nil (push_char x l) ≡ false
unfolding push_char
push_char_not_nil x [] = refl
push_char_not_nil x (y ∷ l) = refl

split_not_nil : (c : ℕ) (s : Text) → is_nil (split c s) ≡ false
unfolding split
split_not_nil c [] = refl
split_not_nil c (x ∷ s) = ground (arith, push_char_not_nil x (split c s))

split-cons :
    (c x : ℕ) (s a b : Text)
    → split c s ≡ split c a ++ (b ∷ [])
    → split c (x ∷ s) ≡ split c (x ∷ a) ++ (b ∷ [])
unfolding split
split-cons c x s a b h = ground (arith, h, push_char-snoc x (split c a) b (split_not_nil c a))

split-whole : (c : ℕ) (s : Text) → rsplit_once c s ≡ none → split c s ≡ s ∷ []
unfolding rsplit_once split push_char
split-whole c [] h = refl
split-whole c (x ∷ s) h = elim (Option-cases (rsplit_once c s)) [
  | inl eq ↦ ground (arith, h, eq, split-whole c s eq)
  | inr (y, eq) ↦ ground (arith, h, eq)
]

split-here :
    (c x : ℕ) (s : Text)
    → nat_beq x c ≡ true
    → rsplit_once c s ≡ none
    → split c (x ∷ s) ≡ split c [] ++ (s ∷ [])
unfolding split
split-here c x s same none_ = ground (arith, same, split-whole c s none_)

split-rsplit_once :
    (c : ℕ) (s : Text) (o : Text × Text)
    → rsplit_once c s ≡ some o
    → split c s ≡ split c o.0 ++ (o.1 ∷ [])
unfolding rsplit_once
split-rsplit_once c [] o h = ground (arith, h)
split-rsplit_once c (x ∷ s) o h = elim (Option-cases (rsplit_once c s)) [
  | inl eq ↦
      let parts : ([], s) ≡ o = ground (arith, h, eq) in
      subst (λ o'. split c (x ∷ s) ≡ split c o'.0 ++ (o'.1 ∷ [])) parts
        (split-here c x s (ground (arith, h, eq)) eq)
  | inr ((a, b), eq) ↦
      let parts : (x ∷ a, b) ≡ o = ground (arith, h, eq) in
      subst (λ o'. split c (x ∷ s) ≡ split c o'.0 ++ (o'.1 ∷ [])) parts
        (split-cons c x s a b (split-rsplit_once c s (a, b) eq))
]

retain-snoc :
    (p : Text → Bool) (xs : List Text) (b : Text)
    → p b ≡ true
    → retain p (xs ++ (b ∷ [])) ≡ retain p xs ++ (b ∷ [])
unfolding retain
retain-snoc p [] b h = ground (arith, h)
retain-snoc p (x ∷ xs) b h = ground (arith, retain-snoc p xs b h)

whole_segments :
    (key : Text)
    → rsplit_once slash key ≡ none
    → is_empty key ≡ false
    → segments key ≡ segments [] ++ (key ∷ [])
unfolding segments retain split
whole_segments key eq h = ground (arith, split-whole slash key eq, h)

parts_segments :
    (key : Text) (o : Text × Text)
    → rsplit_once slash key ≡ some o
    → is_empty o.1 ≡ false
    → segments key ≡ segments o.0 ++ (o.1 ∷ [])
unfolding segments
parts_segments key o eq h =
    ap (retain (λ s. not (is_empty s))) (split-rsplit_once slash key o eq)
    ∙ retain-snoc (λ s. not (is_empty s)) (split slash o.0) o.1 (ground (arith, h))

-- The segments of a key are those of its directory and its name.
pub segments-split_key :
    (key : Text)
    → is_empty (split_key key).1 ≡ false
    → segments key ≡ segments (split_key key).0 ++ ((split_key key).1 ∷ [])
segments-split_key key h = elim (Option-cases (rsplit_once slash key)) [
  | inl eq ↦ rw (split_key, eq) (whole_segments key eq (ground (arith, h, eq)))
  | inr (o, eq) ↦ rw (split_key, eq) (parts_segments key o eq (ground (arith, h, eq)))
]

pub walk-append :
    (segs : List Text) (name : Text) (ino c : ℕ) (t : Tree)
    → walk segs ino t ≡ some c
    → walk (segs ++ (name ∷ [])) ino t ≡ walk (name ∷ []) c t
unfolding walk
walk-append [] name ino c t h = ground (arith, h)
walk-append (seg ∷ segs) name ino c t h = elim (Option-cases (lookup ino seg t)) [
  | inl eq ↦ ground (arith, h, eq)
  | inr (x, eq) ↦ ground (arith, eq, walk-append segs name x.ino c t (ground (arith, h, eq)))
]
