-- ===== src/Tree/Routes.antt =====
-- The path of a node, and the way along a path (src/state.rs).
use canvas_fuse.Prelude.{
  ℕ, zero, suc, ◌+◌, ◌-◌, ◌≡◌, ◌<◌, ◌↔◌, refl, sym, ap, subst, ◌∙◌, false, some, List, [], ◌∷◌,
  ◌++◌, Text, nat_beq, nat_beq_iff, length, arith, Bool-cases, Option-cases, inl, inr,
}
use canvas_fuse.Tree.{Node, Tree, root_ino, entry, lookup, path_from, path_of}
use canvas_fuse.Tree.Links.{place_of, at}
use canvas_fuse.Tree.Linked.{IsLinked, is_at-some}
use canvas_fuse.Tree.Home.{walk}
use canvas_fuse.Tree.Home.Walk.{lookup-found}
use canvas_fuse.Tree.Home.Ensure.{walk-entry}

append_nil : (xs : List Text) → xs ++ [] ≡ xs
append_nil [] = refl
append_nil (x ∷ xs) = ap (λ ys. x ∷ ys) (append_nil xs)

at_node : (i : ℕ) (x : Node) (t : Tree) → t.nodes i ≡ some x → at i t ≡ some (place_of x)
unfolding at
at_node i x t there = ground (arith, there)

-- One link up from a node that stands below another.
path_from-up :
    (left i : ℕ) (x : Node) (parts : List Text) (t : Tree)
    → t.nodes i ≡ some x
    → nat_beq i root_ino ≡ false
    → path_from (suc left) i parts t ≡ path_from left x.parent (x.name ∷ parts) t
unfolding path_from
path_from-up left i x parts t there other = rw (path_from, other, there) refl

lookup-node :
    (p : ℕ) (n : Text) (x : Node) (t : Tree)
    → IsLinked t
    → lookup p n t ≡ some x
    → t.nodes x.ino ≡ some x
unfolding lookup at
lookup-node p n x t o h = elim (Option-cases (entry p n t)) [
  | inl eq ↦ ground (arith, eq, h)
  | inr (i, eq) ↦
      let there : t.nodes i ≡ some x = ground (arith, eq, h) in
      let number : x.ino ≡ i = o.numbered i (place_of x) (ground (arith, there)) in
      subst (λ k. t.nodes k ≡ some x) (sym number) there
]

top-path :
    (left : ℕ) (parts : List Text) (t : Tree) → path_from (suc left) root_ino parts t ≡ some parts
unfolding path_from
top-path left parts t = ground arith

path_from-walk :
    (segs parts : List Text) (left p i : ℕ) (t : Tree)
    → IsLinked t
    → walk segs p t ≡ some i
    → path_from (length segs + left) i parts t ≡ path_from left p (segs ++ parts) t
unfolding walk
path_from-walk [] parts left p i t o h =
    let one : p ≡ i = ground (arith, h) in
    let none_left : 0 + left ≡ left = omega arith in
    rw none_left (subst (λ k. path_from left k parts t ≡ path_from left p parts t) one refl)
path_from-walk (s ∷ ss) parts left p i t o h = elim (Option-cases (lookup p s t)) [
  | inl eq ↦ ground (arith, eq, h)
  | inr (x, eq) ↦
      let here = lookup-found p s x t o eq in
      let up = is_at-some p s (at x.ino t) (o.named p x.ino s here.0) in
      let parent : x.parent ≡ p = ground (arith, here.1, up.1, up.2) in
      let name : x.name ≡ s = ground (arith, here.1, up.1, up.3) in
      let count : length ss + suc left ≡ suc (length ss) + left = omega arith in
      subst (λ k. path_from k i parts t ≡ path_from left p (s ∷ (ss ++ parts)) t) count
        (path_from-walk ss parts (suc left) x.ino i t o (ground (arith, eq, h))
          ∙ (path_from-up left x.ino x (ss ++ parts) t (lookup-node p s x t o eq)
                (o.below p x.ino s here.0)
              ∙ (ap (λ k. path_from left k (x.name ∷ (ss ++ parts)) t) parent
                  ∙ ap (λ n. path_from left p (n ∷ (ss ++ parts)) t) name)))
]

walk-path_from :
    (left cur i : ℕ) (parts segs : List Text) (t : Tree)
    → IsLinked t
    → walk parts cur t ≡ some i
    → path_from left cur parts t ≡ some segs
    → walk segs root_ino t ≡ some i
unfolding path_from
walk-path_from zero cur i parts segs t o way h = ground (arith, h)
walk-path_from (suc left) cur i parts segs t o way h = elim (Bool-cases (nat_beq cur root_ino)) [
  | inl top ↦
      let one : cur ≡ root_ino = (nat_beq_iff cur root_ino).0 top in
      let same : parts ≡ segs = ground (arith, h, top) in
      subst (λ s. walk s root_ino t ≡ some i) same (subst (λ k. walk parts k t ≡ some i) one way)
  | inr other ↦ elim (Option-cases (t.nodes cur)) [
    | inl eq ↦ ground (arith, h, other, eq)
    | inr (x, eq) ↦
        walk-path_from left x.parent i (x.name ∷ parts) segs t o
          (walk-entry x.parent cur x.name parts t o
              (o.found cur (place_of x) (at_node cur x t eq) other)
            ∙ way)
          (ground (arith, h, other, eq))
  ]
]

-- A way of less than 256 links leads from the root to a node exactly if it is the path of the node.
pub path_of_iff_walk :
    (i : ℕ) (segs : List Text) (t : Tree)
    → IsLinked t
    → length segs < 256
    → (path_of i t ≡ some segs) ↔ (walk segs root_ino t ≡ some i)
unfolding path_of walk
path_of_iff_walk i segs t o short = (
  λ h. walk-path_from 256 i i [] segs t o refl h,
  λ way.
      let left = 255 - length segs in
      let count : length segs + suc left ≡ 256 = omega (arith, short) in
      subst (λ k. path_from k i [] t ≡ some segs) count
        (path_from-walk segs [] (suc left) root_ino i t o way
          ∙ (top-path left (segs ++ []) t ∙ ap some (append_nil segs))),
)
