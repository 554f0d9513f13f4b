-- ===== src/Tree/Documents/Groups.antt =====
-- The folders of a context by kinds of documents, and the whole view of a context (src/state.rs,
-- `rebuild_by_schema`, `apply_documents`).
use canvas_fuse.Prelude.{
  ℕ, Option, none, some, List, [], ◌∷◌, ◌++◌, Text, text_eq, nat_beq, nat_eq, option_eq,
  is_some_and, get_or, map, if◌then◌else◌,
}
use canvas_fuse.Prelude.Table.{Table, insert}
use canvas_fuse.Prelude.Table
use canvas_fuse.Tree.{dir, Invalidation, no_change, Tree, lookup, remove_subtree, add_node}
use canvas_fuse.Tree.Documents.{render_all, NameStore, Member, Scope, name_documents}
use canvas_fuse.Render.{Libraries, Document}
use canvas_fuse.Tree.Documents.Views.{by_schema_dir, reconcile_doc_dir}

unfoldable pub add_members : ℕ → List Member → Tree → Tree
unfolding add_node
add_members dir_ino [] t = t
add_members dir_ino (m ∷ ms) t =
    add_members dir_ino ms (add_node dir_ino m.name m.mtime m.content t).1

unfoldable pub add_groups : ℕ → Table (List Member) → Tree → Tree
unfolding add_node add_members
add_groups root [] t = t
add_groups root ((name, []) ∷ groups) t = add_groups root groups t
add_groups root ((name, m ∷ ms) ∷ groups) t =
    let (ino, t') = add_node root name t.now dir t in
    add_groups root groups (add_members ino (m ∷ ms) t')

unfoldable pub rebuild_by_schema :
    ℕ → ℕ → Table (List Member) → Tree × Invalidation → Tree × Invalidation
unfolding lookup remove_subtree add_groups
rebuild_by_schema levels ctx_ino grouped (t, inv) = elim (lookup ctx_ino by_schema_dir t) [
  | none ↦ (t, inv)
  | some root ↦
      let (t', inv') = remove_subtree levels root.ino (t, inv) in
      (
        add_groups root.ino grouped t',
        record inv' { dirty_dirs = inv'.dirty_dirs ++ (root.ino ∷ []) },
      )
]

-- What the tree keeps of the contexts.
pub record Contexts : Type 0 where
  pub ctx_inos : Table ℕ
  pub by_schema_sigs : Table ℕ
  pub ctx_workspaces : Table Text
  pub ctx_urls : Table Text

-- The standard library's hash of the folders and the names in them.
module _ (hash : List (Text × List Text) → ℕ) where
  unfoldable pub group_signature : Table (List Member) → ℕ
  group_signature grouped = hash (map (λ g. (g.0, map (λ m. m.name) g.1)) grouped)

  -- `none`, if the code stops in the rendering of a document.
  unfoldable pub apply_documents :
      Libraries
      → ℕ
      → Text
      → List Document
      → NameStore × (Contexts × Tree)
      → Option ((NameStore × (Contexts × Tree)) × Invalidation)
  unfolding Table.lookup group_signature name_documents reconcile_doc_dir rebuild_by_schema insert
      render_all
  apply_documents lib levels ctx_id docs (names, (c, t)) = elim (Table.lookup ctx_id c.ctx_inos) [
    | none ↦ some ((names, (c, t)), no_change)
    | some ctx_ino ↦ elim (render_all lib docs) [
      | none ↦ none
      | some rendered ↦
          let scope : Scope = record {
            ctx_id = ctx_id;
            workspace_id = Table.lookup ctx_id c.ctx_workspaces;
            name_key = get_or (Table.lookup ctx_id c.ctx_urls) [];
          } in
          let placed = name_documents scope rendered names in
          let pass = reconcile_doc_dir ctx_ino ctx_id placed.desired (t, no_change) in
          let signature = group_signature placed.grouped in
          let (t', inv) = rebuild_by_schema levels ctx_ino placed.grouped (pass.tree, pass.inv) in
          let c' = record c { by_schema_sigs = insert ctx_id signature c.by_schema_sigs } in
          if is_some_and (Table.lookup ctx_id c.by_schema_sigs) (λ s. nat_beq s signature)
          then some ((placed.names, (c, pass.tree)), pass.inv)
          else some ((placed.names, (c', t')), inv)
    ]
  ]
