-- ===== src/Tree/Home/Ensure.antt =====
-- The directories of a key are there after they were ensured (src/state.rs).
use canvas_fuse.Prelude.{
  ℕ, suc, ◌+◌, ◌≡◌, ◌≤◌, ◌<◌, refl, subst, ◌∙◌, true, false, Option, none, some, List, [], ◌∷◌,
  ◌++◌, Text, text_eq, nat_beq, text_beq_refl, length, arith, Bool-cases, inl, inr,
}
use canvas_fuse.Paths.{slash}
use canvas_fuse.Writes.{first_overlay_ino}
use canvas_fuse.Tree.{
  home_dir, Node, is_dir, Invalidation, Tree, root_ino, entry, lookup, remove_node, add_node,
}
use canvas_fuse.Tree.Links.{place_of, at, entry-remove_node, next-remove_node}
use canvas_fuse.Tree.Linked.{IsLinked, is_folder_place, at-add_node, entry-add_node}
use canvas_fuse.Tree.Home.{walk, ensure_at, ensure_from}
use canvas_fuse.Tree.Home.Walk.{
  lookup-found, lookup-none, lookup-entry, Keeps, Keeps-trans, Keeps-refl, remove_file-Keeps,
  add_node-Keeps,
}

-- A directory of that name is there, and the other ones stay.
pub record IsEnsured (ino : ℕ) (seg : Text) (t : Tree) (c : ℕ) (t' : Tree) : Type 0 where
  pub keeps : Keeps 1 t t'
  pub there : entry ino seg t' ≡ some c
  pub folder : is_folder_place (at c t') ≡ true

add_dir-IsEnsured :
    (ino : ℕ) (seg path : Text) (now : ℕ) (t : Tree)
    → IsLinked t
    → is_folder_place (at ino t) ≡ true
    → entry ino seg t ≡ none
    → t.next_ino < first_overlay_ino
    → IsEnsured ino seg t t.next_ino (add_node ino seg now (home_dir path true) t).1
add_dir-IsEnsured ino seg path now t o folder free room =
    let other : nat_beq t.next_ino root_ino ≡ false = ground (arith, o.started) in
    record {
      keeps = add_node-Keeps ino now seg (home_dir path true) t o folder free room;
      there = ground (
        arith,
        entry-add_node ino ino now seg seg (home_dir path true) t other,
        text_beq_refl seg,
      );
      folder = ground (arith, at-add_node t.next_ino ino now seg (home_dir path true) t);
    }

ensure_at-IsEnsured :
    (found : Option Node) (ino : ℕ) (seg path : Text) (t : Tree) (inv : Invalidation)
    → lookup ino seg t ≡ found
    → IsLinked t
    → is_folder_place (at ino t) ≡ true
    → t.next_ino < first_overlay_ino
    → IsEnsured ino seg t
        (ensure_at found ino seg path (t, inv)).0
        (ensure_at found ino seg path (t, inv)).1
unfolding ensure_at add_node
ensure_at-IsEnsured none ino seg path t inv h o folder room =
    add_dir-IsEnsured ino seg path t.now t o folder (lookup-none ino seg t o h) room
ensure_at-IsEnsured (some x) ino seg path t inv h o folder room =
    let here = lookup-found ino seg x t o h in
    elim (Bool-cases (is_dir x)) [
      | inl d ↦
          rw d (record {
            keeps = Keeps-refl 1 t o;
            there = here.0;
            folder = ground (arith, here.1, d);
          })
      | inr file ↦
          let no_folder : is_folder_place (at x.ino t) ≡ false = ground (arith, here.1, file) in
          let removed = remove_file-Keeps x.ino t o no_folder in
          let free : entry ino seg (remove_node x.ino t).1 ≡ none = ground (
            arith,
            entry-remove_node ino x.ino seg (place_of x) t here.1,
            o.named ino x.ino seg here.0,
            here.1,
          ) in
          let t1 = (remove_node x.ino t).1 in
          let added : IsEnsured ino seg t1 t1.next_ino
              (add_node ino seg t.now (home_dir path true) t1).1 =
            add_dir-IsEnsured ino seg path t.now t1 removed.linked (removed.folders ino folder) free
              (omega (arith, room, next-remove_node x.ino t)) in
          rw file (record {
            keeps =
                Keeps-trans 0 1 t t1 (add_node ino seg t.now (home_dir path true) t1).1 removed
                  added.keeps;
            there = added.there;
            folder = added.folder;
          })
    ]

pub walk-entry :
    (ino c : ℕ) (seg : Text) (segs : List Text) (t : Tree)
    → IsLinked t
    → entry ino seg t ≡ some c
    → walk (seg ∷ segs) ino t ≡ walk segs c t
unfolding walk
walk-entry ino c seg segs t o there =
    let seen = lookup-entry ino c seg t o there in rw (walk, seen.1, seen.2) refl

-- The way along the segments leads to a directory, and the other ones stay.
pub record IsWay (segs : List Text) (ino : ℕ) (t : Tree) (c : ℕ) (t' : Tree) : Type 0 where
  pub keeps : Keeps (length segs) t t'
  pub way : walk segs ino t' ≡ some c
  pub folder : is_folder_place (at c t') ≡ true

pub ensure_from-IsWay :
    (segs : List Text) (ino : ℕ) (path : Text) (x : Tree × Invalidation)
    → IsLinked x.0
    → is_folder_place (at ino x.0) ≡ true
    → x.0.next_ino + length segs ≤ first_overlay_ino
    → IsWay segs ino x.0 (ensure_from segs ino path x).0 (ensure_from segs ino path x).1
unfolding ensure_from walk
ensure_from-IsWay [] ino path x o folder room = record {
  keeps = Keeps-refl 0 x.0 o;
  way = refl;
  folder = folder;
}
ensure_from-IsWay (seg ∷ segs) ino path (t, inv) o folder room =
    let path' = path ++ (slash ∷ seg) in
    let next = ensure_at (lookup ino seg t) ino seg path' (t, inv) in
    let one : IsEnsured ino seg t next.0 next.1 =
      ensure_at-IsEnsured (lookup ino seg t) ino seg path' t inv refl o folder
        (omega (arith, room)) in
    let rest : IsWay segs next.0 next.1 (ensure_from segs next.0 path' (next.1, next.2)).0
        (ensure_from segs next.0 path' (next.1, next.2)).1 =
      ensure_from-IsWay segs next.0 path' (next.1, next.2) one.keeps.linked one.folder
        (omega (arith, room, one.keeps.rest)) in
    let done = (ensure_from segs next.0 path' (next.1, next.2)).1 in
    let count : 1 + length segs ≡ suc (length segs) = omega arith in
    record {
      keeps =
          subst (λ k. Keeps k t done) count
            (Keeps-trans 1 (length segs) t next.1 done one.keeps rest.keeps);
      way =
          walk-entry ino next.0 seg segs done rest.keeps.linked
            (rest.keeps.names ino next.0 seg one.there one.folder)
          ∙ rest.way;
      folder = rest.folder;
    }
