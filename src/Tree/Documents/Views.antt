-- ===== src/Tree/Documents/Views.antt =====
-- The directory of a context in the tree (src/state.rs, `reconcile_doc_dir`), and the documents that are held
-- until the nudge has removed them.
use canvas_fuse.Prelude.{
  ℕ, Bool, true, false, ◌&&◌, ◌||◌, not, Option, none, some, [], ◌∷◌, ◌++◌, Text, text_eq, ◌==◌,
  nat_beq, nat_eq, option_eq, set, retain, find, is_some, is_some_and, codes, get_or, if◌then◌else◌,
}
use canvas_fuse.Prelude.Table.{Table, insert}
use canvas_fuse.Prelude.Table
use canvas_fuse.Blobs.{Blob}
use canvas_fuse.Tree.{
  Content, inline, Invalidation, WsState, Tree, entry, lookup, insert_node, remove_node, add_node,
}
use canvas_fuse.Tree.Home.{content_beq}
use canvas_fuse.Tree.Documents.{Desired}

abbrev pub context_meta_file : Text
context_meta_file = codes ".context.json"

abbrev pub by_schema_dir : Text
by_schema_dir = codes ".by-schema"

-- Whose inode it is.
unfoldable pub doc_for_ino : ℕ → Tree → Option (Text × ℕ)
unfolding find
doc_for_ino ino t = elim (find (λ e. nat_beq e.1 ino) t.doc_inos) [
  | none ↦ none
  | some e ↦ some e.0
]

unfoldable pub bind_doc : Text → ℕ → ℕ → Tree → Tree
unfolding retain
bind_doc ctx doc_id ino t = record t {
  doc_inos =
      ((ctx, doc_id), ino) ∷ retain (λ e. not (e.0.0 == ctx && nat_beq e.0.1 doc_id)) t.doc_inos;
}

unfoldable pub unbind_doc : Text → ℕ → Tree → Tree
unfolding retain
unbind_doc ctx doc_id t = record t {
  doc_inos = retain (λ e. not (e.0.0 == ctx && nat_beq e.0.1 doc_id)) t.doc_inos;
}

unfoldable pub forget_ino : ℕ → Tree → Tree
unfolding retain
forget_ino ino t = record t { doc_inos = retain (λ e. not (nat_beq e.1 ino)) t.doc_inos }

unfoldable pub remove_doc_node : ℕ → Tree → Tree
unfolding remove_node forget_ino
remove_doc_node ino t = forget_ino ino (remove_node ino t).1

unfoldable pub tombstone : ℕ → Tree → Tree
tombstone ino t = record t { tombstones = λ i. nat_beq i ino || t.tombstones i }

unfoldable pub clear_tombstone : ℕ → Tree → Tree
clear_tombstone ino t = record t { tombstones = λ i. not (nat_beq i ino) && t.tombstones i }

unfoldable pub take_tombstone : ℕ → Text → Tree → Option ℕ × Tree
unfolding entry clear_tombstone
take_tombstone parent name t = elim (entry parent name t) [
  | none ↦ (none, t)
  | some ino ↦ (if t.tombstones ino then some ino else none, clear_tombstone ino t)
]

unfoldable pub forget_file : ℕ → Option WsState → Option WsState
unfolding set
forget_file ino none = none
forget_file ino (some w) = some (record w { file_docs = set ino none w.file_docs })

unfoldable pub drop_tombstoned : ℕ → Tree → Tree
unfolding clear_tombstone remove_doc_node forget_file
drop_tombstoned ino t =
    let gone = remove_doc_node ino (clear_tombstone ino t) in
    record gone { ws = forget_file ino gone.ws }

unfoldable pub adopt_document : ℕ → Text → Text → ℕ → ℕ → Blob → Tree → Tree
unfolding bind_doc insert_node
adopt_document dir_ino name ctx_id doc_id ino content t =
    insert_node
      (record { ino = ino; parent = dir_ino; name = name; mtime = t.now; content = inline content })
      (bind_doc ctx_id doc_id ino t)

-- New content for a node; one that is not there stays so.
unfoldable pub set_content : ℕ → Content → ℕ → Tree → Tree
unfolding set
set_content ino content mtime t = elim (t.nodes ino) [
  | none ↦ t
  | some node ↦ record t {
    nodes = set ino (some (record node { content = content; mtime = mtime })) t.nodes;
  }
]

unfoldable pub set_inline_content : ℕ → Blob → Tree → Tree
unfolding set_content
set_inline_content ino content t = set_content ino (inline content) t.now t

-- The documents of a directory, the other entries left out; an entry counts if its name leads to it.
unfoldable pub doc_entries : Table ℕ → Table ℕ → Table ℕ
unfolding Table.lookup
doc_entries whole [] = []
doc_entries whole ((name, ino) ∷ c) =
    let rest = doc_entries whole c in
    if not (name == context_meta_file)
      && (not (name == by_schema_dir) && is_some_and (Table.lookup name whole) (λ i. nat_beq i ino))
    then (name, ino) ∷ rest
    else rest

-- The tree, what the kernel is to be told, and whether a name came or went.
pub record Pass : Type 0 where
  pub tree : Tree
  pub inv : Invalidation
  pub dirty : Bool

-- The node is the one of the document that is to have its name.
abbrev pub is_doc_of : ℕ → Option Desired → Tree → Bool
unfolding doc_for_ino
is_doc_of ino none t = false
is_doc_of ino (some d) t = is_some_and (doc_for_ino ino t) (λ o. nat_beq o.1 d.doc_id)

-- An entry without a node, on which the code stops, is left.
unfoldable pub refresh : ℕ → Desired → Pass → Pass
unfolding content_beq set_content
refresh ino d p =
    if is_some_and (p.tree.nodes ino) (λ n. not (content_beq n.content d.content))
    then record p {
      tree = set_content ino d.content d.mtime p.tree;
      inv = record p.inv { changed = p.inv.changed ++ (ino ∷ []) };
    }
    else p

unfoldable pub depart : ℕ → Text → ℕ → Pass → Pass
unfolding tombstone remove_doc_node
depart dir_ino name ino p =
    if p.tree.defer_removals
    then record {
      tree = tombstone ino p.tree;
      inv = record p.inv { vanished = p.inv.vanished ++ ((dir_ino, ino, name) ∷ []) };
      dirty = true;
    }
    else record {
      tree = remove_doc_node ino p.tree;
      inv = record p.inv { removed = p.inv.removed ++ ((dir_ino, ino, name) ∷ []) };
      dirty = true;
    }

unfoldable pub settle_entry : ℕ → Table Desired → Text → ℕ → Pass → Pass
unfolding refresh depart Table.lookup
settle_entry dir_ino desired name ino p = elim (Table.lookup name desired) [
  | none ↦ depart dir_ino name ino p
  | some d ↦ if is_doc_of ino (some d) p.tree then refresh ino d p else depart dir_ino name ino p
]

unfoldable pub settle_entries : ℕ → Table Desired → Table ℕ → Pass → Pass
unfolding settle_entry
settle_entries dir_ino desired [] p = p
settle_entries dir_ino desired ((name, ino) ∷ have) p =
    settle_entries dir_ino desired have (settle_entry dir_ino desired name ino p)

unfoldable pub add_doc : ℕ → Text → Text → Desired → Pass → Pass
unfolding lookup add_node bind_doc
add_doc dir_ino ctx_id name d p =
    if is_some (lookup dir_ino name p.tree)
    then p
    else let (ino, t) = add_node dir_ino name d.mtime d.content p.tree in
      record {
        tree = bind_doc ctx_id d.doc_id ino t;
        inv = record p.inv { added = p.inv.added ++ (ino ∷ []) };
        dirty = true;
      }

unfoldable pub add_docs : ℕ → Text → Table Desired → Pass → Pass
unfolding add_doc
add_docs dir_ino ctx_id [] p = p
add_docs dir_ino ctx_id ((name, d) ∷ ds) p =
    add_docs dir_ino ctx_id ds (add_doc dir_ino ctx_id name d p)

unfoldable pub reconcile_doc_dir : ℕ → Text → Table Desired → Tree × Invalidation → Pass
unfolding doc_entries settle_entries add_docs
reconcile_doc_dir dir_ino ctx_id desired (t, inv) =
    let whole = get_or (t.children dir_ino) [] in
    let settled =
      settle_entries dir_ino desired (doc_entries whole whole)
        (record { tree = t; inv = inv; dirty = false }) in
    let p = add_docs dir_ino ctx_id desired settled in
    if p.dirty
    then record p { inv = record p.inv { dirty_dirs = p.inv.dirty_dirs ++ (dir_ino ∷ []) } }
    else p
