-- ===== src/Tree/Renames.antt =====
-- Moving a node of the drive, with the paths of what is below it (src/state.rs).
use canvas_fuse.Prelude.{
  ℕ, zero, suc, ◌≡◌, refl, subst, true, false, some, [], ◌∷◌, Text, text_eq, nat_beq, nat_beq_iff,
  set, get_or, arith, Option-cases, inl, inr, if◌then◌else◌,
}
use canvas_fuse.Prelude.Table.{Table}
use canvas_fuse.Tree.{
  Content, dir, inline, home_dir, home_file, remote, is_folder, Tree, root_ino, entry, touch_dir,
}
use canvas_fuse.Tree.Links.{Place, place_of, at, at-touch_dir, entry-touch_dir, next-touch_dir}
use canvas_fuse.Tree.Linked.{IsLinked, is_folder_place}
use canvas_fuse.Tree.Home.{home_path, join_home_path}
use canvas_fuse.Tree.Home.Moves.{
  move_entry, with_path, rekey_node, rekey_each, rekey_home_subtree, rename_home,
}
use canvas_fuse.Tree.Alike.{renewed-IsLinked, same-IsLinked}
use canvas_fuse.Tree.Moved.{move_entry-IsLinked}

folder-with_path : (path : Text) (c : Content) → is_folder (with_path path c) ≡ is_folder c
folder-with_path path dir = refl
folder-with_path path (inline b) = refl
folder-with_path path (home_dir p l) = refl
folder-with_path path (home_file p n) = refl
folder-with_path path (remote w d n c) = refl

at-rekey_node :
    (i ino : ℕ) (path : Text) (x : Place) (t : Tree)
    → at ino t ≡ some x
    → at i (rekey_node ino path t)
      ≡ (if nat_beq i ino then some (record x { content = with_path path x.content }) else at i t)
unfolding rekey_node at set
at-rekey_node i ino path x t there = elim (Option-cases (t.nodes ino)) [
  | inl eq ↦ ground (arith, eq, there)
  | inr (y, eq) ↦
      let same : place_of y ≡ x = cc (eq, there) in
      subst
        (λ z. at i (rekey_node ino path t) ≡ (
          if nat_beq i ino then some (record z { content = with_path path z.content }) else at i t))
        same (rw (rekey_node, eq) (ground arith))
]

entry-rekey_node :
    (p ino : ℕ) (n path : Text) (t : Tree) → entry p n (rekey_node ino path t) ≡ entry p n t
unfolding rekey_node entry
entry-rekey_node p ino n path t = ground arith

next-rekey_node : (ino : ℕ) (path : Text) (t : Tree) → (rekey_node ino path t).next_ino ≡ t.next_ino
unfolding rekey_node
next-rekey_node ino path t = ground arith

rekey_there :
    (ino : ℕ) (path : Text) (x : Place) (t : Tree)
    → at ino t ≡ some x
    → IsLinked t
    → IsLinked (rekey_node ino path t)
rekey_there ino path x t there =
    renewed-IsLinked ino (with_path path x.content) (rekey_node ino path t) t
      (record {
        nodes = λ i. ground (arith, at-rekey_node i ino path x t there, there, nat_beq_iff i ino);
        names = λ p n. entry-rekey_node p ino n path t;
        next = next-rekey_node ino path t;
      })
      (λ y h. ground (arith, folder-with_path path x.content, h, there))

rekey_node-IsLinked :
    (ino : ℕ) (path : Text) (t : Tree) → IsLinked t → IsLinked (rekey_node ino path t)
unfolding rekey_node at
rekey_node-IsLinked ino path t o = elim (Option-cases (t.nodes ino)) [
  | inl eq ↦ rw (rekey_node, eq) o
  | inr (x, eq) ↦ rekey_there ino path (place_of x) t (ground (arith, eq)) o
]

rekey_each-IsLinked :
    (below : ℕ → Text → Tree → Tree) (path : Text) (c : Table ℕ) (t : Tree)
    → ((i : ℕ) (p : Text) (u : Tree) → IsLinked u → IsLinked (below i p u))
    → IsLinked t
    → IsLinked (rekey_each below path c t)
unfolding rekey_each
rekey_each-IsLinked below path [] t keeps o = o
rekey_each-IsLinked below path ((name, child) ∷ c) t keeps o =
    rekey_each-IsLinked below path c (below child (join_home_path path name) t) keeps
      (keeps child (join_home_path path name) t o)

rekey_home_subtree-IsLinked :
    (levels ino : ℕ) (path : Text) (t : Tree)
    → IsLinked t
    → IsLinked (rekey_home_subtree levels ino path t)
unfolding rekey_home_subtree
rekey_home_subtree-IsLinked zero ino path t o = o
rekey_home_subtree-IsLinked (suc levels) ino path t o =
    rekey_each-IsLinked (rekey_home_subtree levels) path (get_or (t.children ino) [])
      (rekey_node ino path t) (rekey_home_subtree-IsLinked levels)
      (rekey_node-IsLinked ino path t o)

touch_dir-IsLinked : (d : ℕ) (t : Tree) → IsLinked t → IsLinked (touch_dir d t)
touch_dir-IsLinked d t o =
    same-IsLinked (touch_dir d t) t (λ i. at-touch_dir i d t) (λ p n. entry-touch_dir p d n t)
      (next-touch_dir d t) o

pub rename_home-IsLinked :
    (levels ino p : ℕ) (name : Text) (x : Place) (t : Tree)
    → at ino t ≡ some x
    → nat_beq ino root_ino ≡ false
    → is_folder_place (at p t) ≡ true
    → ((i : ℕ) → entry p name t ≡ some i → i ≡ ino)
    → IsLinked t
    → IsLinked (rename_home levels ino p name t)
unfolding rename_home
rename_home-IsLinked levels ino p name x t there other folder free o =
    elim (Option-cases (home_path p t)) [
      | inl eq ↦ rw (rename_home, eq) o
      | inr (path, eq) ↦
          rw (rename_home, eq)
            (let moved = move_entry-IsLinked ino p name x t there other folder free o in
              let to = join_home_path path.0 name in
              touch_dir-IsLinked p (rekey_home_subtree levels ino to (move_entry ino p name t))
                (rekey_home_subtree-IsLinked levels ino to (move_entry ino p name t) moved))
    ]
