-- ===== src/Tree/Home/Moves.antt =====
-- Removing and moving what is at a key, and listing a directory of the drive (src/state.rs).
use canvas_fuse.Prelude.{
  ℕ, zero, suc, Bool, true, false, ◌||◌, not, Option, none, some, List, [], ◌∷◌, Text, text_eq,
  ◌==◌, nat_beq, set, any, is_nil, get_or, if◌then◌else◌,
}
use canvas_fuse.Paths.{parent_key}
use canvas_fuse.Prelude.Table.{Table}
use canvas_fuse.Tree.{
  Content, dir, inline, home_dir, home_file, remote, Node, Invalidation, no_change, Tree, lookup,
  listed, unlisted, remove_node, remove_subtree, touch_dir, home_root_ino,
}
use canvas_fuse.Tree.Home.{
  trim_slashes, join_home_path, home_path, home_ino_for_key, dirty, gone, appeared,
  ensure_home_dirs, split_key,
}

-- `c.is_empty()`, also where there is no listing.
abbrev pub is_bare : ℕ → Tree → Bool
is_bare ino t = elim (t.children ino) [ none ↦ true | some c ↦ is_nil c ]

-- The empty directories above go too, unless the store holds them; one round for each.
unfoldable pub prune_up : ℕ → List Text → ℕ → Text → Tree × Invalidation → Tree × Invalidation
prune_up zero keep cur cur_key x = x
prune_up (suc rounds) keep cur cur_key (t, inv) = elim (nat_beq cur (home_root_ino t)) [
  | true ↦ (t, inv)
  | false ↦ elim (not (is_bare cur t) || any (λ k. k == cur_key) keep) [
    | true ↦ (t, inv)
    | false ↦ elim (t.nodes cur) [
      | none ↦ (t, inv)
      | some d ↦
          prune_up rounds keep d.parent (parent_key cur_key)
            ((remove_node cur t).1, dirty d.parent (gone d.parent cur d.name inv))
    ]
  ]
]

unfoldable pub remove_home_key : ℕ → ℕ → Text → List Text → Tree → Tree × Invalidation
unfolding prune_up
remove_home_key levels rounds raw keep t =
    let key = trim_slashes raw in
    elim (home_ino_for_key key t) [
      | none ↦ (t, no_change)
      | some ino ↦
          if nat_beq ino (home_root_ino t)
          then (t, no_change)
          else (let (t1, inv) = remove_subtree levels ino (t, no_change) in
              elim (t1.nodes ino) [
                | none ↦ (t1, inv)
                | some node ↦
                    prune_up rounds keep node.parent (parent_key key) (
                      (remove_node ino t1).1,
                      dirty node.parent (gone node.parent ino node.name inv),
                    )
              ])
    ]

-- Into another directory, under a new name.
unfoldable pub move_entry : ℕ → ℕ → Text → Tree → Tree
move_entry ino new_parent new_name t = elim (t.nodes ino) [
  | none ↦ t
  | some node ↦ record t {
    nodes = set ino (some (record node { parent = new_parent; name = new_name })) t.nodes;
    children = listed new_parent new_name ino (unlisted node.parent node.name t.children);
  }
]

abbrev pub with_path : Text → Content → Content
with_path path dir = dir
with_path path (inline bytes) = inline bytes
with_path path (home_dir _ loaded) = home_dir path loaded
with_path path (home_file _ size) = home_file path size
with_path path (remote w d size checksum) = remote w d size checksum

unfoldable pub rekey_node : ℕ → Text → Tree → Tree
rekey_node ino path t = elim (t.nodes ino) [
  | none ↦ t
  | some node ↦ record t {
    nodes = set ino (some (record node { content = with_path path node.content })) t.nodes;
  }
]

unfoldable pub rekey_each : (ℕ → Text → Tree → Tree) → Text → Table ℕ → Tree → Tree
rekey_each below path [] t = t
rekey_each below path ((name, child) ∷ c) t =
    rekey_each below path c (below child (join_home_path path name) t)

-- The paths of a node and of what is below it, for so many levels.
unfoldable pub rekey_home_subtree : ℕ → ℕ → Text → Tree → Tree
unfolding rekey_node rekey_each
rekey_home_subtree zero ino path t = t
rekey_home_subtree (suc levels) ino path t =
    rekey_each (rekey_home_subtree levels) path (get_or (t.children ino) []) (rekey_node ino path t)

unfoldable pub rename_home : ℕ → ℕ → ℕ → Text → Tree → Tree
unfolding move_entry rekey_home_subtree touch_dir
rename_home levels ino new_parent new_name t = elim (home_path new_parent t) [
  | none ↦ t
  | some p ↦ touch_dir new_parent (
      rekey_home_subtree levels ino (join_home_path p.0 new_name)
        (move_entry ino new_parent new_name t))
]

-- What stands at the destination of a rename goes, unless it is the node itself.
unfoldable pub make_way : ℕ → Option Node → ℕ → ℕ → Text → Tree × Invalidation → Tree × Invalidation
make_way levels none ino parent name x = x
make_way levels (some old) ino parent name x =
    if nat_beq old.ino ino
    then x
    else (let (t, inv) = remove_subtree levels old.ino x in
        ((remove_node old.ino t).1, gone parent old.ino name inv))

unfoldable pub rename_home_key : ℕ → Text → Text → Tree → Tree × Invalidation
unfolding make_way rename_home
rename_home_key levels from to t = elim (home_ino_for_key from t) [
  | none ↦ (t, no_change)
  | some ino ↦
      if nat_beq ino (home_root_ino t)
      then (t, no_change)
      else (let (dst_dir, dst_name) = split_key to in
          let done = ensure_home_dirs dst_dir (t, no_change) in
          let dst_parent = done.0 in
          let (t1, inv1) =
            make_way levels (lookup dst_parent dst_name done.1) ino dst_parent dst_name
              (done.1, done.2) in
          let old_parent : ℕ = elim (t1.nodes ino) [
            | none ↦ home_root_ino t1
            | some node ↦ node.parent
          ] in
          let old_name : Text = elim (t1.nodes ino) [ none ↦ [] | some node ↦ node.name ] in
          (
            rename_home levels ino dst_parent dst_name t1,
            appeared ino (dirty dst_parent (dirty old_parent (gone old_parent ino old_name inv1))),
          ))
]
