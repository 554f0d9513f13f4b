-- ===== src/Paths/Under.antt =====
-- Which keys lie under a directory (src/mirror/store.rs, `under`).
use canvas_fuse.Prelude.{
  ◌↔◌, ◌≡◌, ap, ◌∙◌, ◌⊎◌, ◌↔◌, inl, inr, true, Bool-cases, Option-cases, none, some, Text, text_beq,
  text_eq, text_beq_iff, [], ◌∷◌, ◌++◌, strip_prefix, arith, strip_prefix-append,
  append-strip_prefix,
}
use canvas_fuse.Paths.{slash, under}

-- A key at the directory, or below it.
pub data Below (d : Text) : Text → Type 0 where
  itself : {k : Text} → k ≡ d → Below d k
  inside : {k : Text} (r : Text) → k ≡ d ++ (slash ∷ r) → Below d k

under-append : (d r : Text) → under (d ++ (slash ∷ r)) d ≡ true
unfolding under
under-append d r = rw strip_prefix-append (ground arith)

Below-under : {d k : Text} → Below d k → under k d ≡ true
unfolding under
Below-under {d} {k} (itself e) = ground (arith, text_beq_iff k d)
Below-under {d} {k} (inside r e) = rw e (unfold under in under-append d r)

inside_of :
    (d k : Text)
    → strip_prefix d k ≡ none ⊎ ((r : Text) × (strip_prefix d k ≡ some r))
    → under k d ≡ true
    → Below d k
unfolding under
inside_of d k (inl e) h = itself (ground (arith, text_beq_iff k d))
inside_of d k (inr ([], e)) h = itself (ground (arith, text_beq_iff k d))
inside_of d k (inr (c ∷ r, e)) h = elim (Bool-cases (text_beq k d)) [
  | inl same ↦ itself ((text_beq_iff k d).0 same)
  | inr other ↦
      let at_slash : c ≡ slash = ground arith in
      inside r (append-strip_prefix d k e ∙ ap (λ (x : _). d ++ (x ∷ r)) at_slash)
]

under-Below : (d k : Text) → under k d ≡ true → Below d k
under-Below d k h = inside_of d k (Option-cases (strip_prefix d k)) h

-- For all keys, `under` says yes exactly of a directory itself and of the paths that begin with it and a
-- slash: never of a name that only shares its beginning.
pub under_iff_Below : (d k : Text) → (under k d ≡ true) ↔ Below d k
under_iff_Below d k = (under-Below d k, Below-under)
