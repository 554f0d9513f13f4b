-- ===== src/Tree/Home.antt =====
-- The drive of the workspace in the tree, addressed by keys (src/state.rs).
pub mod Moves
pub mod Walk
pub mod Ensure
pub mod Upsert
pub mod Found
pub mod Keys
use canvas_fuse.Prelude.{
  ℕ, zero, suc, ◌+◌, Bool, true, false, ◌&&◌, ◌||◌, not, Option, none, some, List, [], ◌∷◌, ◌++◌,
  Text, text_eq, text_beq, option_beq, nat_eq, bool_beq, ◌==◌, nat_beq, codes, set, any, is_empty,
  is_nil, retain, get_or, reverse, if◌then◌else◌,
}
use canvas_fuse.Paths.{slash, split, rsplit_once, parent_key}
use canvas_fuse.Prelude.Table.{Table, insert, remove}
use canvas_fuse.Tree.{
  Content, dir, inline, home_dir, home_file, remote, Node, is_dir, Invalidation, no_change, Tree,
  root_ino, entry, lookup, opened, unlisted, alloc_ino, insert_node, remove_node, drop_child,
  remove_subtree, add_node, touch_dir, home_root_ino,
}

unfoldable pub segments : Text → List Text
unfolding split
segments key = retain (λ s. not (is_empty s)) (split slash key)

-- The slashes at the start.
unfoldable pub trim_start : Text → Text
trim_start [] = []
trim_start (c ∷ s) = let rest = trim_start s in if nat_beq c slash then rest else c ∷ s

unfoldable pub trim_end : Text → Text
unfolding trim_start
trim_end s = reverse (trim_start (reverse s))

unfoldable pub trim_slashes : Text → Text
unfolding trim_start trim_end
trim_slashes s = trim_end (trim_start s)

unfoldable pub join_home_path : Text → Text → Text
unfolding trim_end
join_home_path d name =
    if text_beq d (codes "/") || is_empty d then slash ∷ name else trim_end d ++ (slash ∷ name)

abbrev pub path_in : Content → Option (Text × Bool)
path_in dir = none
path_in (inline bytes) = none
path_in (home_dir path loaded) = some (path, loaded)
path_in (home_file path size) = some (path, true)
path_in (remote w d size checksum) = none

unfoldable pub home_path : ℕ → Tree → Option (Text × Bool)
home_path ino t = elim (t.nodes ino) [ none ↦ none | some node ↦ path_in node.content ]

abbrev pub file_in : Content → Option (Text × ℕ)
file_in dir = none
file_in (inline bytes) = none
file_in (home_dir path loaded) = none
file_in (home_file path size) = some (path, size)
file_in (remote w d size checksum) = none

unfoldable pub home_file_of : ℕ → Tree → Option (Text × ℕ)
home_file_of ino t = elim (t.nodes ino) [ none ↦ none | some node ↦ file_in node.content ]

-- The store key of a node of the drive.
unfoldable pub home_key : ℕ → Tree → Option Text
home_key ino t = elim (home_path ino t) [ none ↦ none | some p ↦ some (trim_slashes p.0) ]

unfoldable pub walk : List Text → ℕ → Tree → Option ℕ
walk [] ino t = some ino
walk (seg ∷ segs) ino t = elim (lookup ino seg t) [ none ↦ none | some node ↦ walk segs node.ino t ]

unfoldable pub home_ino_for_key : Text → Tree → Option ℕ
home_ino_for_key key t = walk (segments key) (home_root_ino t) t

abbrev pub dirty : ℕ → Invalidation → Invalidation
dirty ino inv = record inv { dirty_dirs = inv.dirty_dirs ++ (ino ∷ []) }

abbrev pub gone : ℕ → ℕ → Text → Invalidation → Invalidation
gone parent ino name inv = record inv { removed = inv.removed ++ ((parent, ino, name) ∷ []) }

abbrev pub appeared : ℕ → Invalidation → Invalidation
appeared ino inv = record inv { added = inv.added ++ (ino ∷ []) }

-- One directory on the way, with its path; a file in its place is removed.
unfoldable pub ensure_at :
    Option Node → ℕ → Text → Text → Tree × Invalidation → ℕ × Tree × Invalidation
ensure_at none ino seg path (t, inv) =
    let (new, t') = add_node ino seg t.now (home_dir path true) t in
    (new, t', appeared new (dirty ino inv))
ensure_at (some node) ino seg path (t, inv) =
    if is_dir node
    then (node.ino, t, inv)
    else (let (new, t') = add_node ino seg t.now (home_dir path true) (remove_node node.ino t).1 in
        (new, t', dirty ino (gone ino node.ino seg inv)))

unfoldable pub ensure_from : List Text → ℕ → Text → Tree × Invalidation → ℕ × Tree × Invalidation
ensure_from [] ino path x = (ino, x.0, x.1)
ensure_from (seg ∷ segs) ino path x =
    let path' = path ++ (slash ∷ seg) in
    let next = ensure_at (lookup ino seg x.0) ino seg path' x in
    ensure_from segs next.0 path' (next.1, next.2)

unfoldable pub ensure_home_dirs : Text → Tree × Invalidation → ℕ × Tree × Invalidation
ensure_home_dirs key x = ensure_from (segments key) (home_root_ino x.0) [] x

unfoldable pub ensure_home_dir_key : Text → Tree → Tree × Invalidation
ensure_home_dir_key key t = let done = ensure_home_dirs key (t, no_change) in (done.1, done.2)

unfoldable pub content_beq : Content → Content → Bool
content_beq dir dir = true
content_beq (inline a) (inline b) = text_beq a b
content_beq (home_dir p l) (home_dir q m) = text_beq p q && bool_beq l m
content_beq (home_file p n) (home_file q m) = text_beq p q && nat_beq n m
content_beq (remote w d n c) (remote v e m b) =
    text_beq w v && (nat_beq d e && (option_beq n m && option_beq c b))
content_beq _ _ = false

unfoldable pub put_content : Node → Content → ℕ → Tree → Tree
put_content node content mtime t = record t {
  nodes = set node.ino (some (record node { content = content; mtime = mtime })) t.nodes;
}

-- The name in its directory: a file there is updated, a directory makes way with all that is below.
unfoldable pub upsert_at :
    ℕ → Option Node → ℕ → Text → Content → ℕ → Tree × Invalidation → Tree × Invalidation
unfolding content_beq put_content
upsert_at levels none parent name content mtime (t, inv) =
    let (new, t') = add_node parent name mtime content t in (t', dirty parent (appeared new inv))
upsert_at levels (some node) parent name content mtime (t, inv) =
    if is_dir node
    then (let (t1, inv1) = remove_subtree levels node.ino (t, inv) in
        let (new, t2) = add_node parent name mtime content (remove_node node.ino t1).1 in
        (t2, dirty parent (appeared new (gone parent node.ino name inv1))))
    else (if content_beq node.content content && nat_beq node.mtime mtime then (t, inv) else (
      put_content node content mtime t,
      record inv { changed = inv.changed ++ (node.ino ∷ []) },
    ))

-- The directory of a key, and its last segment.
abbrev pub split_key : Text → Text × Text
split_key key = elim (rsplit_once slash key) [ some (d, n) ↦ (d, n) | none ↦ ([], key) ]

unfoldable pub upsert_home_key : ℕ → Text → ℕ → ℕ → Tree → Tree × Invalidation
unfolding upsert_at ensure_home_dirs trim_slashes
upsert_home_key levels raw size mtime t =
    let key = trim_slashes raw in
    let (dir_key, name) = split_key key in
    if is_empty name
    then (t, no_change)
    else (let done = ensure_home_dirs dir_key (t, no_change) in
        upsert_at levels (lookup done.0 name done.1) done.0 name (home_file (slash ∷ key) size)
          mtime (done.1, done.2))
