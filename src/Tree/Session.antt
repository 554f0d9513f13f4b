-- ===== src/Tree/Session.antt =====
-- The life of a tree from its mount on (src/state.rs), as a step relation.
use canvas_fuse.Prelude.{
  ℕ, ◌+◌, ◌≡◌, ◌≤◌, ◌<◌, refl, true, false, ◌||◌, ◌&&◌, not, Option, none, some, List, [], Text,
  text_eq, text_beq, nat_beq, codes, is_empty, is_nil, length, arith, Bool-cases, inl, inr,
  if◌then◌else◌,
}
use canvas_fuse.Writes.{first_overlay_ino}
use canvas_fuse.Tree.{
  Content, dir, home_dir, WorkspaceSelection, WsState, Invalidation, no_change, Tree, root_ino,
  home_ino, entry, lookup, remove_node, add_node, remove_subtree, home_root_ino, first_dynamic_ino,
}
use canvas_fuse.Tree.Links.{Place, at}
use canvas_fuse.Tree.Linked.{IsLinked, is_folder_place, add_node-IsLinked, remove_node-IsLinked}
use canvas_fuse.Tree.Alike.{same-IsLinked}
use canvas_fuse.Tree.Subtree.{IsTall, remove_subtree-IsCleared}
use canvas_fuse.Tree.Renames.{rename_home-IsLinked}
use canvas_fuse.Tree.Roots.{
  is_explicit, includes_home, single_tree, sort_dedup, trees_ino, trash_ino, bare, root_dir,
  workspace_selected, bare-IsLinked, IsNew, root_dir-IsNew, root_dir-IsLinked, root_home-IsLinked,
  at-bare, entry-bare, next-bare,
}
use canvas_fuse.Tree.Home.{
  segments, trim_slashes, split_key, ensure_home_dirs, ensure_home_dir_key, upsert_home_key,
}
use canvas_fuse.Tree.Home.Ensure.{ensure_from-IsWay}
use canvas_fuse.Tree.Home.Upsert.{is_folder_node}
use canvas_fuse.Tree.Home.Found.{upsert_home_key-IsFileAt}
use canvas_fuse.Tree.Home.Moves.{rename_home}
use canvas_fuse.Tree.Documents.{RenderedDoc, NameStore, Scope, name_documents}
use canvas_fuse.Tree.Documents.Views.{reconcile_doc_dir, take_tombstone, drop_tombstoned}
use canvas_fuse.Tree.Documents.Directory.{
  IsDocDir, name_documents-ArePlain, reconcile_doc_dir-IsLinked, take_tombstone-IsLinked,
}

bare-IsNew :
    (ino : ℕ) (name : Text) (now : ℕ)
    → nat_beq ino root_ino ≡ false
    → ino < first_dynamic_ino
    → IsNew ino name (bare now)
bare-IsNew ino name now other low = record {
  free = ground (arith, at-bare ino now, other);
  unnamed = entry-bare root_ino now name;
  low = ground (arith, next-bare now, low);
}

in_workspace : (w : Option WsState) (t : Tree) → IsLinked t → IsLinked (record t { ws = w })
unfolding at entry
in_workspace w t o = same-IsLinked (record t { ws = w }) t (λ i. refl) (λ p n. refl) refl o

-- The tree of a new mount is in order, whatever is selected.
workspace_selected-IsLinked :
    (ws_id ws_name : Text) (given : WorkspaceSelection) (now : ℕ)
    → IsLinked (workspace_selected ws_id ws_name given now)
unfolding workspace_selected text_beq
workspace_selected-IsLinked ws_id ws_name given now =
    let s : WorkspaceSelection = record given { trees = sort_dedup given.trees } in
    let c1 = not (is_explicit s) || (not (is_nil s.trees) && not (single_tree s)) in
    let c2 = not (is_explicit s) in
    let t1 = root_dir c1 trees_ino (codes "Trees") dir (bare now) in
    let t2 = root_dir c2 trash_ino (codes "Trash") dir t1 in
    let o1 : IsLinked t1 =
      root_dir-IsLinked c1 trees_ino (codes "Trees") dir (bare now) refl
        (bare-IsNew trees_ino (codes "Trees") now refl (omega arith)) (bare-IsLinked now) in
    let trash1 : IsNew trash_ino (codes "Trash") t1 =
      root_dir-IsNew c1 trees_ino trash_ino (codes "Trees") (codes "Trash") dir (bare now) refl refl
        (bare-IsNew trash_ino (codes "Trash") now refl (omega arith)) in
    let home1 : IsNew home_ino (codes "Home") t1 =
      root_dir-IsNew c1 trees_ino home_ino (codes "Trees") (codes "Home") dir (bare now) refl refl
        (bare-IsNew home_ino (codes "Home") now refl (omega arith)) in
    let o2 : IsLinked t2 = root_dir-IsLinked c2 trash_ino (codes "Trash") dir t1 refl trash1 o1 in
    let home2 : IsNew home_ino (codes "Home") t2 =
      root_dir-IsNew c2 trash_ino home_ino (codes "Trash") (codes "Home") dir t1 refl refl home1 in
    in_workspace
      (some (record {
        ws_id = ws_id;
        ws_name = ws_name;
        selection = s;
        trees = [];
        path_inos = [];
        file_docs = λ ino. none;
      }))
      (root_dir (includes_home s) (if s.home && is_nil s.trees then root_ino else home_ino)
        (if s.home && is_nil s.trees then [] else codes "Home") (home_dir (codes "/") false) t2)
      (elim (Bool-cases (s.home && is_nil s.trees)) [
        | inl only ↦
            rw only
              (root_home-IsLinked (includes_home s) [] (home_dir (codes "/") false) t2 refl o2)
        | inr beside ↦ rw beside (
            root_dir-IsLinked (includes_home s) home_ino (codes "Home") (home_dir (codes "/") false)
              t2 refl home2 o2)
      ])

module _ (levels : ℕ) where
  -- A call on the tree. The levels are those of the deepest directory.
  pub data Step : Tree → Tree → Type 0 where
    ensured :
        (key : Text) (t : Tree)
        → is_folder_place (at (home_root_ino t) t) ≡ true
        → t.next_ino + length (segments key) ≤ first_overlay_ino
        → Step t (ensure_home_dir_key key t).0
    upserted :
        (raw : Text) (size mtime : ℕ) (t : Tree)
        → is_folder_place (at (home_root_ino t) t) ≡ true
        → is_empty (split_key (trim_slashes raw)).1 ≡ false
        → (let done = ensure_home_dirs (split_key (trim_slashes raw)).0 (t, no_change) in
            is_folder_node (lookup done.0 (split_key (trim_slashes raw)).1 done.1) ≡ false)
        → t.next_ino + length (segments (split_key (trim_slashes raw)).0) < first_overlay_ino
        → Step t (upsert_home_key levels raw size mtime t).0
    added :
        (parent mtime : ℕ) (name : Text) (content : Content) (t : Tree)
        → is_folder_place (at parent t) ≡ true
        → entry parent name t ≡ none
        → t.next_ino < first_overlay_ino
        → Step t (add_node parent name mtime content t).1
    removed :
        (ino : ℕ) (inv : Invalidation) (t : Tree)
        → nat_beq ino root_ino ≡ false
        → IsTall levels ino t
        → Step t (remove_node ino (remove_subtree levels ino (t, inv)).0).1
    renamed :
        (ino p : ℕ) (name : Text) (x : Place) (t : Tree)
        → at ino t ≡ some x
        → nat_beq ino root_ino ≡ false
        → is_folder_place (at p t) ≡ true
        → ((i : ℕ) → entry p name t ≡ some i → i ≡ ino)
        → Step t (rename_home levels ino p name t)
    followed :
        (dir_ino : ℕ) (s : Scope) (docs : List RenderedDoc) (names : NameStore) (inv : Invalidation)
        (t : Tree)
        → IsDocDir dir_ino t
        → (let desired = (name_documents s docs names).desired in
            t.next_ino + length desired ≤ first_overlay_ino)
        → Step t
            (reconcile_doc_dir dir_ino s.ctx_id (name_documents s docs names).desired (t, inv)).tree
    collected :
        (parent ino : ℕ) (name : Text) (t : Tree)
        → (take_tombstone parent name t).0 ≡ some ino
        → is_folder_place (at ino t) ≡ false
        → Step t (drop_tombstoned ino (take_tombstone parent name t).1)

  pub data Reach (start : Tree) : Tree → Type 0 where
    begun : Reach start start
    stepped : (t t' : Tree) → Reach start t → Step t t' → Reach start t'

  step-IsLinked : (t t' : Tree) → Step t t' → IsLinked t → IsLinked t'
  unfolding ensure_home_dir_key ensure_home_dirs
  step-IsLinked _ _ (ensured key t root room) o =
      (ensure_from-IsWay (segments key) (home_root_ino t) [] (t, no_change) o root
        room).keeps.linked
  step-IsLinked _ _ (upserted raw size mtime t root has_name no_dir room) o =
      (upsert_home_key-IsFileAt levels raw size mtime t o root has_name no_dir room).0
  step-IsLinked _ _ (added parent mtime name content t folder free room) o =
      add_node-IsLinked parent mtime name content t folder free room o
  step-IsLinked _ _ (removed ino inv t other tall) o =
      let cleared = remove_subtree-IsCleared levels ino (t, inv) tall o in
      remove_node-IsLinked ino (remove_subtree levels ino (t, inv)).0 other cleared.bare
        cleared.linked
  step-IsLinked _ _ (renamed ino p name x t there other folder free) o =
      rename_home-IsLinked levels ino p name x t there other folder free o
  step-IsLinked _ _ (followed dir_ino s docs names inv t d room) o =
      reconcile_doc_dir-IsLinked dir_ino s.ctx_id (name_documents s docs names).desired t inv d
        (name_documents-ArePlain s docs names) room o
  step-IsLinked _ _ (collected parent ino name t taken file) o =
      take_tombstone-IsLinked parent ino name t taken file o

  -- From a new mount on, whatever is selected, the nodes and the names of directories agree, however files and
  -- directories are added, put at keys, moved to free names, and removed with what is below them, a directory
  -- of documents follows listings, and held documents are collected, as long as numbers below those of
  -- pending creates suffice and no file is put in the place of a directory.
  pub Reach-IsLinked :
      (ws_id ws_name : Text) (given : WorkspaceSelection) (now : ℕ) (t : Tree)
      → Reach (workspace_selected ws_id ws_name given now) t
      → IsLinked t
  Reach-IsLinked ws_id ws_name given now _ begun =
      workspace_selected-IsLinked ws_id ws_name given now
  Reach-IsLinked ws_id ws_name given now _ (stepped t t' before step) =
      step-IsLinked t t' step (Reach-IsLinked ws_id ws_name given now t before)
