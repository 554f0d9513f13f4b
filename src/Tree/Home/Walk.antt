-- ===== src/Tree/Home/Walk.antt =====
-- The way along a key (src/state.rs): each directory of it is there once it was ensured.
use canvas_fuse.Prelude.{
  ℕ, ◌+◌, ◌≡◌, ◌≤◌, ◌<◌, refl, sym, subst, ◌∙◌, true, false, none, some, Text, text_eq, nat_beq,
  nat_beq_iff, text_beq_iff, arith, Option-cases, inl, inr, ◌⊎◌,
}
use canvas_fuse.Writes.{first_overlay_ino}
use canvas_fuse.Tree.{Content, Node, Tree, root_ino, entry, lookup, remove_node, add_node}
use canvas_fuse.Tree.Links.{
  Place, place_of, at, at-remove_node, entry-remove_node, next-remove_node, ws-remove_node,
  ws-add_node, next-add_node,
}
use canvas_fuse.Tree.Linked.{
  IsLinked, is_at-some, is_folder_place, add_node-IsLinked, at-add_node, entry-add_node,
  remove_node-IsLinked, remove_node-absent,
}

-- What a lookup finds bears its number, and a name that a lookup does not find is free.
pub lookup-found :
    (p : ℕ) (n : Text) (x : Node) (t : Tree)
    → IsLinked t
    → lookup p n t ≡ some x
    → (entry p n t ≡ some x.ino) × (at x.ino t ≡ some (place_of x))
unfolding lookup at
lookup-found p n x t o h = elim (Option-cases (entry p n t)) [
  | inl eq ↦ ground (arith, eq, h)
  | inr (i, eq) ↦
      let there : t.nodes i ≡ some x = ground (arith, eq, h) in
      let number : x.ino ≡ i = o.numbered i (place_of x) (ground (arith, there)) in
      subst (λ k. (entry p n t ≡ some k) × (at k t ≡ some (place_of x))) (sym number)
        (eq, ground (arith, there))
]

pub lookup-none :
    (p : ℕ) (n : Text) (t : Tree) → IsLinked t → lookup p n t ≡ none → entry p n t ≡ none
unfolding lookup at
lookup-none p n t o h = elim (Option-cases (entry p n t)) [
  | inl eq ↦ eq
  | inr (i, eq) ↦ ground (arith, eq, h, o.named p i n eq)
]

pub lookup-entry :
    (p i : ℕ) (n : Text) (t : Tree)
    → IsLinked t
    → entry p n t ≡ some i
    → (x : Node) × (lookup p n t ≡ some x) × (x.ino ≡ i)
unfolding lookup at
lookup-entry p i n t o h = elim (Option-cases (t.nodes i)) [
  | inl eq ↦ ground (arith, eq, o.named p i n h)
  | inr (x, eq) ↦ (x, ground (arith, h, eq), o.numbered i (place_of x) (ground (arith, eq)))
]

-- A file has nothing below.
pub file-bare :
    (i : ℕ) (n : Text) (t : Tree)
    → IsLinked t
    → is_folder_place (at i t) ≡ false
    → entry i n t ≡ none
file-bare i n t o file = elim (Option-cases (entry i n t)) [
  | inl eq ↦ eq
  | inr (c, eq) ↦
      let x = is_at-some i n (at c t) (o.named i c n eq) in
      let folder : is_folder_place (at i t) ≡ true =
        subst (λ k. is_folder_place (at k t) ≡ true) x.2 (o.within c x.0 x.1) in
      ground (arith, folder, file)
]

-- Directories stay where they are.
pub record Keeps (rooms : ℕ) (t t' : Tree) : Type 0 where
  pub linked : IsLinked t'
  pub folders : (i : ℕ) → is_folder_place (at i t) ≡ true → is_folder_place (at i t') ≡ true
  pub names :
      (p i : ℕ) (n : Text)
      → entry p n t ≡ some i
      → is_folder_place (at i t) ≡ true
      → entry p n t' ≡ some i
  pub rest : t'.next_ino ≤ t.next_ino + rooms
  pub ws_same : t'.ws ≡ t.ws

pub Keeps-refl : (m : ℕ) (t : Tree) → IsLinked t → Keeps m t t
Keeps-refl m t o = record {
  linked = o;
  folders = λ i h. h;
  names = λ p i n h folder. h;
  rest = omega arith;
  ws_same = refl;
}

pub Keeps-trans : (m n : ℕ) (a b c : Tree) → Keeps m a b → Keeps n b c → Keeps (m + n) a c
Keeps-trans m n a b c f g = record {
  linked = g.linked;
  folders = λ i h. g.folders i (f.folders i h);
  names = λ p i k h folder. g.names p i k (f.names p i k h folder) (f.folders i folder);
  rest = omega (arith, f.rest, g.rest);
  ws_same = g.ws_same ∙ f.ws_same;
}

removed_name :
    (i p j : ℕ) (n : Text) (t : Tree)
    → IsLinked t
    → is_folder_place (at i t) ≡ false
    → entry p n t ≡ some j
    → is_folder_place (at j t) ≡ true
    → (at i t ≡ none) ⊎ ((x : Place) × (at i t ≡ some x))
    → entry p n (remove_node i t).1 ≡ some j
removed_name i p j n t o file h folder (inl gone) =
    subst (λ u. entry p n u ≡ some j) (sym (remove_node-absent i t gone)) h
removed_name i p j n t o file h folder (inr (x, there)) = ground (
  arith,
  entry-remove_node p i n x t there,
  h,
  file-bare i n t o file,
  o.found i x there,
  o.rooted,
  nat_beq_iff i root_ino,
  nat_beq_iff p i,
  nat_beq_iff p x.parent,
  text_beq_iff x.name n,
  file,
  folder,
)

-- A file that is removed is in no one's way.
pub remove_file-Keeps :
    (i : ℕ) (t : Tree)
    → IsLinked t
    → is_folder_place (at i t) ≡ false
    → Keeps 0 t (remove_node i t).1
remove_file-Keeps i t o file =
    let other : nat_beq i root_ino ≡ false =
      ground (arith, nat_beq_iff i root_ino, o.rooted, file) in
    record {
      linked = remove_node-IsLinked i t other (λ n. file-bare i n t o file) o;
      folders = λ j h. ground (arith, at-remove_node j i t, nat_beq_iff j i, h, file);
      names = λ p j n h folder. removed_name i p j n t o file h folder (Option-cases (at i t));
      rest = omega (arith, next-remove_node i t);
      ws_same = ws-remove_node i t;
    }

pub add_node-Keeps :
    (parent mtime : ℕ) (name : Text) (content : Content) (t : Tree)
    → IsLinked t
    → is_folder_place (at parent t) ≡ true
    → entry parent name t ≡ none
    → t.next_ino < first_overlay_ino
    → Keeps 1 t (add_node parent name mtime content t).1
add_node-Keeps parent mtime name content t o folder free room =
    let other : nat_beq t.next_ino root_ino ≡ false = ground (arith, o.started) in
    let unused : at t.next_ino t ≡ none = o.fresh t.next_ino (omega arith) room in
    record {
      linked = add_node-IsLinked parent mtime name content t folder free room o;
      folders = λ j h.
          ground
            (arith, at-add_node j parent mtime name content t, nat_beq_iff j t.next_ino, h, unused);
      names = λ p j n h dir_. ground (
        arith,
        entry-add_node p parent mtime n name content t other,
        nat_beq_iff p parent,
        text_beq_iff name n,
        h,
        free,
      );
      rest = omega (arith, next-add_node parent mtime name content t);
      ws_same = ws-add_node parent mtime name content t;
    }
