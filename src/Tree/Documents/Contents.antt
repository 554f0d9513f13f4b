-- ===== src/Tree/Documents/Contents.antt =====
-- A file of the tree gets new content (src/state.rs).
use canvas_fuse.Prelude.{
  ℕ, ◌≡◌, ◌∙◌, refl, sym, subst, false, none, some, Text, text_eq, nat_beq, nat_beq_iff, set, arith,
  Option-cases, inl, inr, if◌then◌else◌,
}
use canvas_fuse.Tree.{Content, is_folder, Tree, entry}
use canvas_fuse.Tree.Links.{Place, place_of, at}
use canvas_fuse.Tree.Linked.{IsLinked, is_folder_place}
use canvas_fuse.Tree.Documents.Views.{set_content}
use canvas_fuse.Tree.Alike.{IsRenewed, renewed-kinds, renewed-bears, renewed-IsLinked}
use canvas_fuse.Tree.Documents.Kept.{IsKept, IsKept-refl}

pub at-set_content :
    (i ino mtime : ℕ) (c : Content) (x : Place) (t : Tree)
    → at ino t ≡ some x
    → at i (set_content ino c mtime t)
      ≡ (if nat_beq i ino then some (record x { content = c }) else at i t)
unfolding set_content at set
at-set_content i ino mtime c x t there = elim (Option-cases (t.nodes ino)) [
  | inl eq ↦ ground (arith, eq, there)
  | inr (y, eq) ↦
      let same : place_of y ≡ x = cc (eq, there) in
      subst
        (λ z.
          at i (set_content ino c mtime t)
          ≡ (if nat_beq i ino then some (record z { content = c }) else at i t))
        same (rw (set_content, eq) (ground arith))
]

pub entry-set_content :
    (p ino mtime : ℕ) (n : Text) (c : Content) (t : Tree)
    → entry p n (set_content ino c mtime t) ≡ entry p n t
unfolding set_content entry
entry-set_content p ino mtime n c t = ground arith

next-set_content :
    (ino mtime : ℕ) (c : Content) (t : Tree) → (set_content ino c mtime t).next_ino ≡ t.next_ino
unfolding set_content
next-set_content ino mtime c t = ground arith

pub set_content-absent :
    (ino mtime : ℕ) (c : Content) (t : Tree) → at ino t ≡ none → set_content ino c mtime t ≡ t
unfolding set_content at
set_content-absent ino mtime c t gone = elim (Option-cases (t.nodes ino)) [
  | inl eq ↦ rw (set_content, eq) refl
  | inr (x, eq) ↦ ground (arith, eq, gone)
]

renewed :
    (ino mtime : ℕ) (c : Content) (x : Place) (t : Tree)
    → at ino t ≡ some x
    → IsRenewed ino c (set_content ino c mtime t) t
renewed ino mtime c x t there = record {
  nodes = λ i. ground (arith, at-set_content i ino mtime c x t there, there, nat_beq_iff i ino);
  names = λ p n. entry-set_content p ino mtime n c t;
  next = next-set_content ino mtime c t;
}

pub set_content-IsKept :
    (ino mtime : ℕ) (c : Content) (t : Tree)
    → is_folder_place (at ino t) ≡ false
    → is_folder c ≡ false
    → IsLinked t
    → IsKept (set_content ino c mtime t) t
set_content-IsKept ino mtime c t file plain o = elim (Option-cases (at ino t)) [
  | inl gone ↦
      subst (λ u. IsKept u t) (sym (set_content-absent ino mtime c t gone)) (IsKept-refl t o)
  | inr (x, there) ↦
      let r = renewed ino mtime c x t there in
      let t' = set_content ino c mtime t in
      let alike : (y : Place) → at ino t ≡ some y → is_folder y.content ≡ is_folder c =
        λ y h. ground (arith, h, file, plain) in
      record {
        kinds = renewed-kinds ino c t' t r alike;
        names_in = λ p i n h. sym (r.names p n) ∙ h;
        next_same = r.next;
        bears = renewed-bears ino c t' t r;
        linked = renewed-IsLinked ino c t' t r alike o;
      }
]
