-- ===== src/Tree/Alike.antt =====
-- Trees that differ in the content of one node at most (src/state.rs): what is in order in the one is in the
-- other.
use canvas_fuse.Prelude.{
  ℕ, ◌≡◌, refl, sym, ap, ◌≤◌, subst, ◌∙◌, Bool, true, false, Option, none, some, Bool-cases,
  text_beq_refl, Text, nat_beq, nat_beq_iff, arith, inl, inr, if◌then◌else◌,
}
use canvas_fuse.Tree.{Content, is_folder, Tree, root_ino, first_dynamic_ino, entry}
use canvas_fuse.Tree.Links.{Place, at}
use canvas_fuse.Tree.Linked.{IsLinked, is_at, is_folder_place}

-- The node with another content, if it is there.
abbrev pub renewed_place : Content → Option Place → Option Place
renewed_place c none = none
renewed_place c (some x) = some (record x { content = c })

pub record IsRenewed (ino : ℕ) (c : Content) (t' t : Tree) : Type 0 where
  pub nodes : (i : ℕ) → at i t' ≡ (if nat_beq i ino then renewed_place c (at i t) else at i t)
  pub names : (p : ℕ) (n : Text) → entry p n t' ≡ entry p n t
  pub next : t'.next_ino ≡ t.next_ino

before_renewed :
    (b : Bool) (c : Content) (o : Option Place) (y : Place)
    → (if b then renewed_place c o else o) ≡ some y
    → (d : Content) × (o ≡ some (record y { content = d }))
before_renewed b c none y h = ground (arith, h)
before_renewed true c (some x) y h = (x.content, ground (arith, h))
before_renewed false c (some x) y h = (y.content, ground (arith, h))

kind_renewed :
    (c : Content) (o : Option Place)
    → ((x : Place) → o ≡ some x → is_folder x.content ≡ is_folder c)
    → is_folder_place (renewed_place c o) ≡ is_folder_place o
kind_renewed c none alike = refl
kind_renewed c (some x) alike = sym (alike x refl)

module _ (ino : ℕ) (c : Content) (t' t : Tree) (r : IsRenewed ino c t' t) where
  before :
      (i : ℕ) (y : Place)
      → at i t' ≡ some y
      → (d : Content) × (at i t ≡ some (record y { content = d }))
  before i y h = before_renewed (nat_beq i ino) c (at i t) y (sym (r.nodes i) ∙ h)

  pub renewed-bears : (i : ℕ) (y : Place) → at i t' ≡ some y → is_at y.parent y.name (at i t) ≡ true
  renewed-bears i y h =
      let (d, old) = before i y h in
      ground (arith, old, nat_beq_iff y.parent y.parent, text_beq_refl y.name)

  module _ (alike : (x : Place) → at ino t ≡ some x → is_folder x.content ≡ is_folder c) where
    pub renewed-kinds : (i : ℕ) → is_folder_place (at i t') ≡ is_folder_place (at i t)
    renewed-kinds i = elim (Bool-cases (nat_beq i ino)) [
      | inl same ↦
          let here : i ≡ ino = (nat_beq_iff i ino).0 same in
          ground (
            arith,
            r.nodes i,
            same,
            kind_renewed c (at i t) (λ x h. alike x (subst (λ k. at k t ≡ some x) here h)),
          )
      | inr other ↦ ground (arith, r.nodes i, other)
    ]

    pub renewed-IsLinked : IsLinked t → IsLinked t'
    renewed-IsLinked o = record {
      named = λ p i n h. ground (arith, r.names p n, r.nodes i, h, o.named p i n);
      below = λ p i n h. ground (arith, r.names p n, h, o.below p i n);
      found = λ i y h nr.
          let (d, old) = before i y h in
          r.names y.parent y.name ∙ o.found i (record y { content = d }) old nr;
      numbered =
          λ i y h. let (d, old) = before i y h in o.numbered i (record y { content = d }) old;
      within = λ i y h.
          let (d, old) = before i y h in
          renewed-kinds y.parent ∙ o.within i (record y { content = d }) old;
      fresh = λ i le lt. ground (arith, r.nodes i, r.next, le, lt, o.fresh i);
      started = ground (arith, r.next, o.started);
      rooted = renewed-kinds root_ino ∙ o.rooted;
      top = λ y h. let (d, old) = before root_ino y h in o.top (record y { content = d }) old;
    }

-- Trees that show the same.
pub same-IsLinked :
    (t' t : Tree)
    → ((i : ℕ) → at i t' ≡ at i t)
    → ((p : ℕ) (n : Text) → entry p n t' ≡ entry p n t)
    → t'.next_ino ≡ t.next_ino
    → IsLinked t
    → IsLinked t'
same-IsLinked t' t nodes names next o = record {
  named = λ p i n h. ap (is_at p n) (nodes i) ∙ o.named p i n (sym (names p n) ∙ h);
  below = λ p i n h. o.below p i n (sym (names p n) ∙ h);
  found = λ i y h nr. names y.parent y.name ∙ o.found i y (sym (nodes i) ∙ h) nr;
  numbered = λ i y h. o.numbered i y (sym (nodes i) ∙ h);
  within = λ i y h. ap is_folder_place (nodes y.parent) ∙ o.within i y (sym (nodes i) ∙ h);
  fresh = λ i le lt. nodes i ∙ o.fresh i (subst (λ k. k ≤ i) next le) lt;
  started = subst (λ k. first_dynamic_ino ≤ k) (sym next) o.started;
  rooted = ap is_folder_place (nodes root_ino) ∙ o.rooted;
  top = λ y h. o.top y (sym (nodes root_ino) ∙ h);
}
