-- ===== src/Paths.antt =====
-- Hub keys (src/mirror/mod.rs and src/mirror/store.rs): relative paths whose segments are separated
-- by `/`, the directory tests on them, the rules of what is ignored, and the name of a conflict copy.
pub mod Under
use canvas_fuse.Prelude.{
  ℕ, Bool, true, false, ◌||◌, ◌==◌, nat_eq, text_eq, Text, codes, strip_prefix, is_some_and,
  is_empty, Option, none, some, List, [], ◌∷◌, ◌++◌, map, any, retain, not, if◌then◌else◌, get_or,
  leb, ◌&&◌, reverse,
}

abbrev pub slash : ℕ
slash = b'/'

-- `s.starts_with(c)` for a character.
unfoldable pub starts_with : ℕ → Text → Bool
starts_with c [] = false
starts_with c (x ∷ s) = x == c

unfoldable pub under : Text → Text → Bool
unfolding starts_with
under key dir = key == dir || is_some_and (strip_prefix dir key) (starts_with slash)

unfoldable pub overlaps : Text → Text → Bool
unfolding under
overlaps a b = under a b || under b a

-- `s.rsplit_once(c)`: what stands before and behind the last `c`.
unfoldable pub rsplit_once : ℕ → Text → Option (Text × Text)
rsplit_once c [] = none
rsplit_once c (x ∷ s) = elim (rsplit_once c s) [
  | some (a, b) ↦ some (x ∷ a, b)
  | none ↦ if x == c then some ([], s) else none
]

unfoldable pub parent_key : Text → Text
unfolding rsplit_once
parent_key key = elim (rsplit_once slash key) [ some (p, _) ↦ p | none ↦ [] ]

unfoldable pub leaf_of : Text → Text
unfolding rsplit_once
leaf_of key = elim (rsplit_once slash key) [ some (_, l) ↦ l | none ↦ key ]

-- `s.split(c)`: a segment in front of each `c`, and one behind the last.
unfoldable pub push_char : ℕ → List Text → List Text
push_char x [] = (x ∷ []) ∷ []
push_char x (seg ∷ segs) = (x ∷ seg) ∷ segs

unfoldable pub split : ℕ → Text → List Text
unfolding push_char
split c [] = [] ∷ []
split c (x ∷ s) = let rest = split c s in if x == c then [] ∷ rest else push_char x rest

unfoldable pub join : Text → List Text → Text
join sep [] = []
join sep (seg ∷ []) = seg
join sep (seg ∷ seg' ∷ segs) = seg ++ (sep ++ join sep (seg' ∷ segs))

-- `nfc` is the normalisation of the unicode library.
unfoldable pub normalize_key : (Text → Text) → Text → Text
unfolding split join
normalize_key nfc raw = join (slash ∷ []) (retain (λ s. not (is_empty s)) (split slash (nfc raw)))

-- A compiled pattern of the glob library is the test that it makes of a key.
pub record IgnoreRules : Type 0 where
  pub patterns : List (Text → Bool)

-- `char::is_whitespace`, and `str::trim`.
unfoldable pub is_whitespace : ℕ → Bool
is_whitespace c =
    leb 9 c && leb c 13
    || (leb 8192 c && leb c 8202
        || any (λ w. c == w) (32 ∷ 133 ∷ 160 ∷ 5760 ∷ 8232 ∷ 8233 ∷ 8239 ∷ 8287 ∷ 12288 ∷ []))

unfoldable pub trim_start : Text → Text
unfolding is_whitespace
trim_start [] = []
trim_start (c ∷ s) = let rest = trim_start s in if is_whitespace c then rest else c ∷ s

unfoldable pub trim : Text → Text
unfolding trim_start
trim s = reverse (trim_start (reverse (trim_start s)))

-- `IgnoreRules::new`; `glob` compiles a pattern, or finds it invalid.
unfoldable pub new_rules : (Text → Option (Text → Bool)) → List Text → List (Text → Bool)
unfolding trim
new_rules glob [] = []
new_rules glob (p ∷ ps) =
    let rest = new_rules glob ps in
    if is_empty (trim p) then rest else elim (glob (trim p)) [ none ↦ rest | some f ↦ f ∷ rest ]

unfoldable pub is_ignored : IgnoreRules → Text → Bool
unfolding split starts_with
is_ignored rules key =
    if any (starts_with b'.') (split slash key) then true else any (λ p. p key) rules.patterns

-- `Some((s, e)) if !s.is_empty()` of the file name, `(name, None)` otherwise.
stem_and_ext : Text → Text × Option Text
unfolding rsplit_once
stem_and_ext name = elim (rsplit_once b'.' name) [
  | some (s, e) ↦ if is_empty s then (name, none) else (s, some e)
  | none ↦ (name, none)
]

conflict_leaf : Text → Text → Text × Option Text → Text
conflict_leaf device stamp (stem, some e) =
    stem ++ (codes " (conflict from " ++ (device ++ (codes " " ++ (stamp ++ (codes ")." ++ e)))))
conflict_leaf device stamp (stem, none) =
    stem ++ (codes " (conflict from " ++ (device ++ (codes " " ++ (stamp ++ codes ")"))))

-- `device.replace(['/', '\\'], "_")`.
flatten_device : Text → Text
flatten_device = map (λ (c : ℕ). if c == slash || c == 92 then 95 else c)

-- `stamp` is the time as the calendar library formats it.
unfoldable pub conflict_copy_key : Text → Text → Text → Text
unfolding stem_and_ext conflict_leaf flatten_device rsplit_once
conflict_copy_key key device stamp =
    let leaf = λ (name : Text). conflict_leaf (flatten_device device) stamp (stem_and_ext name) in
    elim (rsplit_once slash key) [ some (dir, name) ↦ dir ++ (slash ∷ leaf name) | none ↦ leaf key ]
