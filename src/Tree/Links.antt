-- ===== src/Tree/Links.antt =====
-- The links between nodes and the names of directories (src/state.rs): what the basic operations do to them,
-- and that they stay in order.
use canvas_fuse.Prelude.{
  ℕ, ◌+◌, ◌≡◌, refl, subst, ◌∙◌, ◌&&◌, ◌||◌, not, Option, none, some, [], Text, text_eq, ◌==◌,
  nat_beq, set, get_or, arith, Option-cases, inl, inr, if◌then◌else◌,
}
use canvas_fuse.Prelude.Table.{Table, insert, remove, lookup-insert, lookup-remove}
use canvas_fuse.Prelude.Table
use canvas_fuse.Tree.{
  Content, Node, Tree, root_ino, named, listed, link, unlink, entry, touch_dir, opened, insert_node,
  unlisted, remove_node, add_node,
}

-- A node without its time.
pub record Place : Type 0 where
  pub number : ℕ
  pub parent : ℕ
  pub name : Text
  pub content : Content

abbrev pub place_of : Node → Place
place_of x = record { number = x.ino; parent = x.parent; name = x.name; content = x.content }

abbrev pub place : Option Node → Option Place
place none = none
place (some x) = some (place_of x)

unfoldable pub at : ℕ → Tree → Option Place
at i t = place (t.nodes i)

pub at-touch_dir : (i d : ℕ) (t : Tree) → at i (touch_dir d t) ≡ at i t
unfolding at touch_dir set
at-touch_dir i d t = elim (Option-cases (t.nodes d)) [
  | inl eq ↦ rw (touch_dir, eq) refl
  | inr (x, eq) ↦ ground (arith, eq)
]

pub entry-touch_dir : (p d : ℕ) (n : Text) (t : Tree) → entry p n (touch_dir d t) ≡ entry p n t
unfolding entry touch_dir
entry-touch_dir p d n t = ground arith

pub next-touch_dir : (d : ℕ) (t : Tree) → (touch_dir d t).next_ino ≡ t.next_ino
unfolding touch_dir
next-touch_dir d t = ground arith

at-link :
    (i : ℕ) (x : Node) (t : Tree)
    → at i (link x t) ≡ (if nat_beq i x.ino then some (place_of x) else at i t)
unfolding link at set
at-link i x t = ground arith

named-get_or : (o : Option (Table ℕ)) (n : Text) → named (some (get_or o [])) n ≡ named o n
unfolding Table.lookup
named-get_or none n = refl
named-get_or (some c) n = refl

named-opened :
    (i p : ℕ) (n : Text) (c : ℕ → Option (Table ℕ)) → named (opened i c p) n ≡ named (c p) n
unfolding set
named-opened i p n c = ground (arith, named-get_or (c i) n)

pub named-listed :
    (p i q : ℕ) (m n : Text) (c : ℕ → Option (Table ℕ))
    → named (listed p m i c q) n ≡ (if nat_beq q p && (m == n) then some i else named (c q) n)
unfolding set
named-listed p i q m n c =
    ground (arith, named-get_or (c p) n, lookup-insert m n i (get_or (c p) []))

pub named-unlisted :
    (p q : ℕ) (m n : Text) (c : ℕ → Option (Table ℕ))
    → named (unlisted p m c q) n ≡ (if nat_beq q p && (m == n) then none else named (c q) n)
unfolding set
named-unlisted p q m n c = elim (Option-cases (c p)) [
  | inl eq ↦ ground (arith, eq)
  | inr (s, eq) ↦ ground (arith, eq, lookup-remove m n s)
]

entry-link :
    (p : ℕ) (n : Text) (x : Node) (t : Tree)
    → entry p n (link x t) ≡ (
        if not (nat_beq x.ino root_ino) && (nat_beq p x.parent && (x.name == n))
        then some x.ino
        else entry p n t)
unfolding link entry
entry-link p n x t =
    let names =
      if nat_beq x.ino root_ino then t.children else listed x.parent x.name x.ino t.children in
    ground (arith, named-opened x.ino p n names, named-listed x.parent x.ino p x.name n t.children)

at-unlink :
    (i ino : ℕ) (x : Node) (t : Tree)
    → at i (unlink ino x t) ≡ (if nat_beq i ino then none else at i t)
unfolding unlink at set
at-unlink i ino x t = ground arith

entry-unlink :
    (p ino : ℕ) (n : Text) (x : Node) (t : Tree)
    → entry p n (unlink ino x t)
      ≡ (if nat_beq p ino || (nat_beq p x.parent && (x.name == n)) then none else entry p n t)
unfolding unlink entry set
entry-unlink p ino n x t = ground (arith, named-unlisted x.parent p x.name n t.children)

-- A new node stands where it was put, under its name, and nothing else moves.
pub at-insert_node :
    (i : ℕ) (x : Node) (t : Tree)
    → at i (insert_node x t) ≡ (if nat_beq i x.ino then some (place_of x) else at i t)
unfolding insert_node
at-insert_node i x t = at-touch_dir i x.parent (link x t) ∙ at-link i x t

pub entry-insert_node :
    (p : ℕ) (n : Text) (x : Node) (t : Tree)
    → entry p n (insert_node x t) ≡ (
        if not (nat_beq x.ino root_ino) && (nat_beq p x.parent && (x.name == n))
        then some x.ino
        else entry p n t)
unfolding insert_node
entry-insert_node p n x t = entry-touch_dir p x.parent n (link x t) ∙ entry-link p n x t

pub next-insert_node : (x : Node) (t : Tree) → (insert_node x t).next_ino ≡ t.next_ino
unfolding insert_node link
next-insert_node x t = next-touch_dir x.parent (link x t)

-- A removed node is gone with its listing and its name, and nothing else moves.
pub at-remove_node :
    (i ino : ℕ) (t : Tree) → at i (remove_node ino t).1 ≡ (if nat_beq i ino then none else at i t)
unfolding remove_node at
at-remove_node i ino t = elim (Option-cases (t.nodes ino)) [
  | inl eq ↦ rw (remove_node, eq) (ground (arith, eq))
  | inr (x, eq) ↦
      rw (remove_node, eq) (at-touch_dir i x.parent (unlink ino x t) ∙ at-unlink i ino x t)
]

pub entry-remove_node :
    (p ino : ℕ) (n : Text) (x : Place) (t : Tree)
    → at ino t ≡ some x
    → entry p n (remove_node ino t).1
      ≡ (if nat_beq p ino || (nat_beq p x.parent && (x.name == n)) then none else entry p n t)
unfolding remove_node at
entry-remove_node p ino n x t there = elim (Option-cases (t.nodes ino)) [
  | inl eq ↦ ground (arith, eq, there)
  | inr (y, eq) ↦
      let same : place_of y ≡ x = cc (eq, there) in
      subst
        (λ z.
          entry p n (remove_node ino t).1
          ≡ (if nat_beq p ino || (nat_beq p z.parent && (z.name == n)) then none else entry p n t))
        same
        (rw (remove_node, eq)
          (entry-touch_dir p y.parent n (unlink ino y t) ∙ entry-unlink p ino n y t))
]

pub next-remove_node : (ino : ℕ) (t : Tree) → (remove_node ino t).1.next_ino ≡ t.next_ino
unfolding remove_node
next-remove_node ino t = elim (Option-cases (t.nodes ino)) [
  | inl eq ↦ rw (remove_node, eq) refl
  | inr (x, eq) ↦ rw (remove_node, eq) (next-touch_dir x.parent (unlink ino x t))
]

pub ws-remove_node : (ino : ℕ) (t : Tree) → (remove_node ino t).1.ws ≡ t.ws
unfolding remove_node touch_dir unlink
ws-remove_node ino t = ground arith

pub ws-add_node :
    (parent mtime : ℕ) (name : Text) (content : Content) (t : Tree)
    → (add_node parent name mtime content t).1.ws ≡ t.ws
unfolding add_node insert_node touch_dir link
ws-add_node parent mtime name content t = ground arith

pub next-add_node :
    (parent mtime : ℕ) (name : Text) (content : Content) (t : Tree)
    → (add_node parent name mtime content t).1.next_ino ≡ t.next_ino + 1
unfolding add_node
next-add_node parent mtime name content t =
    next-insert_node
      (record { ino = t.next_ino; parent = parent; name = name; mtime = mtime; content = content })
      (record t { next_ino = t.next_ino + 1 })
