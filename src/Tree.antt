-- ===== src/Tree.antt =====
-- The tree of nodes that the mount shows (src/state.rs): what a node is, and the operations that all others
-- are made of. A hash map keyed by numbers is a function; a directory's names are an association list.
pub mod Links
pub mod Linked
pub mod Alike
pub mod Subtree
pub mod Home
pub mod Routes
pub mod Roots
pub mod Session
pub mod Moved
pub mod Renames
pub mod Documents
use canvas_fuse.Prelude.{
  ℕ, zero, suc, ◌+◌, Bool, true, false, ◌&&◌, ◌||◌, not, is_nil, Option, none, some, List, [], ◌∷◌,
  ◌++◌, Text, text_eq, ◌==◌, nat_beq, set, is_some_and, length, get_or, map, reverse, if◌then◌else◌,
}
use canvas_fuse.Prelude.Table.{Table, insert, remove}
use canvas_fuse.Prelude.Table
use canvas_fuse.Blobs.{Blob}

pub data Content : Type 0 where
  dir : Content
  inline : Blob → Content
  home_dir : (path : Text) (loaded : Bool) → Content
  home_file : (path : Text) (size : ℕ) → Content
  remote : (workspace_id : Text) (doc_id : ℕ) (size : Option ℕ) (checksum : Option Text) → Content

pub record Node : Type 0 where
  pub ino : ℕ
  pub parent : ℕ
  pub name : Text
  pub mtime : ℕ
  pub content : Content

abbrev pub is_folder : Content → Bool
is_folder dir = true
is_folder (home_dir path loaded) = true
is_folder (inline bytes) = false
is_folder (home_file path size) = false
is_folder (remote w d size checksum) = false

abbrev pub is_dir : Node → Bool
is_dir node = is_folder node.content

unfoldable pub size : Content → ℕ
size dir = 0
size (inline bytes) = length bytes
size (home_dir path loaded) = 0
size (home_file path n) = n
size (remote w d n checksum) = get_or n 0

-- What the kernel is told of a change: (parent, child, name) for what is gone.
pub record Invalidation : Type 0 where
  pub removed : List (ℕ × ℕ × Text)
  pub changed : List ℕ
  pub dirty_dirs : List ℕ
  pub added : List ℕ
  pub vanished : List (ℕ × ℕ × Text)

abbrev pub no_change : Invalidation
no_change = record { removed = []; changed = []; dirty_dirs = []; added = []; vanished = [] }

pub record WorkspaceSelection : Type 0 where
  pub trees : List Text
  pub home : Bool
  pub include_backends : Bool

pub record WsTree : Type 0 where
  pub id : Text
  pub tree_type : Text
  pub root_ino : ℕ

pub record WsFile : Type 0 where
  pub tree_name : Text
  pub path : Text
  pub doc_id : ℕ

pub record WsState : Type 0 where
  pub ws_id : Text
  pub ws_name : Text
  pub selection : WorkspaceSelection
  pub trees : Table WsTree
  pub path_inos : List ((Text × Text) × ℕ)
  pub file_docs : ℕ → Option WsFile

-- `now` is what the clock says.
pub record Tree : Type 0 where
  pub nodes : ℕ → Option Node
  pub children : ℕ → Option (Table ℕ)
  pub next_ino : ℕ
  pub doc_inos : List ((Text × ℕ) × ℕ)
  pub tombstones : ℕ → Bool
  pub defer_removals : Bool
  pub ws : Option WsState
  pub home_mirrored : Bool
  pub now : ℕ

abbrev pub root_ino : ℕ
root_ino = 1

abbrev pub home_ino : ℕ
home_ino = 5

abbrev pub first_dynamic_ino : ℕ
first_dynamic_ino = 16

abbrev pub named : Option (Table ℕ) → Text → Option ℕ
named none name = none
named (some c) name = Table.lookup name c

-- The name of a directory's entry.
unfoldable pub entry : ℕ → Text → Tree → Option ℕ
entry parent name t = named (t.children parent) name

unfoldable pub lookup : ℕ → Text → Tree → Option Node
unfolding entry
lookup parent name t = elim (entry parent name t) [ none ↦ none | some ino ↦ t.nodes ino ]

unfoldable pub touch_dir : ℕ → Tree → Tree
touch_dir ino t = elim (t.nodes ino) [
  | none ↦ t
  | some d ↦
      if is_dir d
      then record t { nodes = set ino (some (record d { mtime = t.now })) t.nodes }
      else t
]

abbrev pub alloc_ino : Tree → ℕ × Tree
alloc_ino t = (t.next_ino, record t { next_ino = t.next_ino + 1 })

-- `children.entry(ino).or_default()`.
abbrev pub opened : ℕ → (ℕ → Option (Table ℕ)) → ℕ → Option (Table ℕ)
opened ino c = set ino (some (get_or (c ino) [])) c

abbrev pub listed : ℕ → Text → ℕ → (ℕ → Option (Table ℕ)) → ℕ → Option (Table ℕ)
listed parent name ino c = set parent (some (insert name ino (get_or (c parent) []))) c

-- `siblings.remove(name)`, where the directory has a listing.
abbrev pub unlisted : ℕ → Text → (ℕ → Option (Table ℕ)) → ℕ → Option (Table ℕ)
unlisted parent name c = elim (c parent) [
  | none ↦ c
  | some siblings ↦ set parent (some (remove name siblings)) c
]

unfoldable pub link : Node → Tree → Tree
link node t =
    let names =
      if nat_beq node.ino root_ino
      then t.children
      else listed node.parent node.name node.ino t.children in
    record t { children = opened node.ino names; nodes = set node.ino (some node) t.nodes }

unfoldable pub insert_node : Node → Tree → Tree
unfolding touch_dir link
insert_node node t = touch_dir node.parent (link node t)

unfoldable pub unlink : ℕ → Node → Tree → Tree
unlink ino node t = record t {
  nodes = set ino none t.nodes;
  children = set ino none (unlisted node.parent node.name t.children);
}

unfoldable pub remove_node : ℕ → Tree → Option Node × Tree
unfolding touch_dir unlink
remove_node ino t = elim (t.nodes ino) [
  | none ↦ (none, t)
  | some node ↦ (some node, touch_dir node.parent (unlink ino node t))
]

-- The numbers of a directory's entries; an entry counts if its name leads to it.
unfoldable pub shown : Table ℕ → Table ℕ → List ℕ
shown whole [] = []
shown whole ((name, ino) ∷ c) =
    let rest = shown whole c in
    if is_some_and (Table.lookup name whole) (λ i. nat_beq i ino) then ino ∷ rest else rest

unfoldable pub inos : Table ℕ → List ℕ
unfolding shown
inos c = shown c c

unfoldable pub drop_child : ℕ → Tree × Invalidation → Tree × Invalidation
drop_child child (t, inv) =
    let (gone, t') = remove_node child t in
    (
      t',
      elim gone [
        | none ↦ inv
        | some node ↦ record inv { removed = inv.removed ++ ((node.parent, child, node.name) ∷ []) }
      ],
    )

unfoldable pub remove_each :
    (ℕ → Tree × Invalidation → Tree × Invalidation)
    → List ℕ
    → Tree × Invalidation
    → Tree × Invalidation
remove_each below [] x = x
remove_each below (c ∷ cs) x = remove_each below cs (drop_child c (below c x))

-- Everything below a directory, for so many levels; one without a listing has nothing below.
unfoldable pub remove_subtree : ℕ → ℕ → Tree × Invalidation → Tree × Invalidation
unfolding remove_each inos
remove_subtree zero ino x = x
remove_subtree (suc levels) ino (t, inv) =
    remove_each (remove_subtree levels) (inos (get_or (t.children ino) [])) (t, inv)

-- A new node of the next free number.
unfoldable pub add_node : ℕ → Text → ℕ → Content → Tree → ℕ × Tree
unfolding insert_node
add_node parent name mtime content t =
    let (ino, t') = alloc_ino t in
    (
      ino,
      insert_node
          (record { ino = ino; parent = parent; name = name; mtime = mtime; content = content }) t',
    )

-- `path_of`: at most 256 links are followed.
unfoldable pub path_from : ℕ → ℕ → List Text → Tree → Option (List Text)
path_from zero cur parts t = none
path_from (suc left) cur parts t = if nat_beq cur root_ino then some parts else elim (t.nodes cur) [
  | none ↦ none
  | some node ↦ path_from left node.parent (node.name ∷ parts) t
]

unfoldable pub path_of : ℕ → Tree → Option (List Text)
unfolding path_from
path_of ino t = path_from 256 ino [] t

abbrev pub home_root_of : Option WsState → ℕ
home_root_of none = home_ino
home_root_of (some w) = if w.selection.home && is_nil w.selection.trees then root_ino else home_ino

unfoldable pub home_root_ino : Tree → ℕ
home_root_ino t = home_root_of t.ws
