-- ===== src/Tree/Documents/Directory.antt =====
-- A context's directory in the tree in order, before and after it follows a listing, and when a document that
-- was held is collected (src/state.rs).
use canvas_fuse.Prelude.{
  ℕ, ◌+◌, ◌≡◌, ◌≤◌, refl, sym, subst, ◌∙◌, Bool, true, false, ◌&&◌, not, Option, some, List, [],
  ◌∷◌, ◌++◌, Text, text_eq, ◌==◌, nat_beq, get_or, is_some_and, All, length, arith, Bool-cases, inl,
  inr, if◌then◌else◌,
}
use canvas_fuse.Prelude.Table.{Table}
use canvas_fuse.Prelude.Table
use canvas_fuse.Writes.{first_overlay_ino}
use canvas_fuse.Tree.{is_folder, Tree, Invalidation, root_ino, entry}
use canvas_fuse.Tree.Links.{at}
use canvas_fuse.Tree.Linked.{IsLinked, is_folder_place}
use canvas_fuse.Tree.Subtree.{is_some-nat, entry-get_or}
use canvas_fuse.Tree.Documents.{
  Desired, RenderedDoc, Scope, Placed, NameStore, doc_content, place_doc, place_docs, chosen_name,
  name_documents, by_placement,
}
use canvas_fuse.Tree.Documents.Sorted.{lookup-put_sorted}
use canvas_fuse.Tree.Documents.Naming.{desired_of}
use canvas_fuse.Tree.Documents.Views.{
  Pass, remove_doc_node, by_schema_dir, context_meta_file, doc_entries, settle_entries, add_docs,
  reconcile_doc_dir, clear_tombstone, take_tombstone, drop_tombstoned, forget_file,
}
use canvas_fuse.Tree.Documents.Kept.{IsKept, books-IsLinked, remove_doc_node-IsKept}
use canvas_fuse.Tree.Documents.Reconciled.{
  ArePlain, AreFiles, settle_entries-IsKept, IsGrown, add_docs-IsGrown,
}

-- The names that stand for documents.
abbrev pub is_doc_name : Text → Bool
is_doc_name name = not (name == context_meta_file) && not (name == by_schema_dir)

-- The directory is one, and what bears a document's name in it is a file.
pub record IsDocDir (dir_ino : ℕ) (t : Tree) : Type 0 where
  pub folder : is_folder_place (at dir_ino t) ≡ true
  pub files :
      (n : Text) (i : ℕ)
      → entry dir_ino n t ≡ some i
      → is_doc_name n ≡ true
      → is_folder_place (at i t) ≡ false

pub all_doc_entries :
    (P : Text → ℕ → Type 0) (whole c : Table ℕ)
    → ((n : Text) (i : ℕ) → Table.lookup n whole ≡ some i → is_doc_name n ≡ true → P n i)
    → All (λ e. P e.0 e.1) (doc_entries whole c)
unfolding doc_entries
all_doc_entries P whole [] h = tt
all_doc_entries P whole ((m, j) ∷ c) h =
    elim (Bool-cases (
      not (m == context_meta_file)
      && (not (m == by_schema_dir) && is_some_and (Table.lookup m whole) (λ i. nat_beq i j)))) [
        | inl yes_ ↦
            rw (doc_entries, yes_)
              (
                h m j (is_some-nat (Table.lookup m whole) j (ground (arith, yes_)))
                    (ground (arith, yes_)),
                all_doc_entries P whole c h,
              )
        | inr no_ ↦ rw (doc_entries, no_) (all_doc_entries P whole c h)
      ]

pub doc_entries-AreFiles :
    (dir_ino : ℕ) (t : Tree)
    → IsLinked t
    → IsDocDir dir_ino t
    → (let whole = get_or (t.children dir_ino) [] in AreFiles (doc_entries whole whole) t)
doc_entries-AreFiles dir_ino t o d =
    let whole = get_or (t.children dir_ino) [] in
    all_doc_entries (λ n i. is_folder_place (at i t) ≡ false × nat_beq i root_ino ≡ false) whole
      whole
      (λ n i h ours. (
        d.files n i (entry-get_or dir_ino n t ∙ h) ours,
        o.below dir_ino i n (entry-get_or dir_ino n t ∙ h),
      ))

pub dirtied-tree :
    (p : Pass) (inv : Invalidation) → (if p.dirty then record p { inv = inv } else p).tree ≡ p.tree
dirtied-tree p inv = elim (Bool-cases p.dirty) [
  | inl h ↦ ground (arith, h)
  | inr h ↦ ground (arith, h)
]

-- A directory follows a listing of files with the tree in order.
pub reconcile_doc_dir-IsLinked :
    (dir_ino : ℕ) (ctx_id : Text) (desired : Table Desired) (t : Tree) (inv : Invalidation)
    → IsDocDir dir_ino t
    → ArePlain desired
    → t.next_ino + length desired ≤ first_overlay_ino
    → IsLinked t
    → IsLinked (reconcile_doc_dir dir_ino ctx_id desired (t, inv)).tree
unfolding reconcile_doc_dir
reconcile_doc_dir-IsLinked dir_ino ctx_id desired t inv d plain room o =
    let whole = get_or (t.children dir_ino) [] in
    let begun : Pass = record { tree = t; inv = inv; dirty = false } in
    let settled = settle_entries dir_ino desired (doc_entries whole whole) begun in
    let k : IsKept settled.tree t =
      settle_entries-IsKept dir_ino desired (doc_entries whole whole) begun plain
        (doc_entries-AreFiles dir_ino t o d) o in
    let done = add_docs dir_ino ctx_id desired settled in
    let grown : IsGrown dir_ino (length desired) done.tree settled.tree =
      add_docs-IsGrown dir_ino ctx_id desired settled (k.kinds dir_ino ∙ d.folder)
        (omega (arith, room, k.next_same)) k.linked in
    subst (λ u. IsLinked u)
      (sym (
        dirtied-tree done (record done.inv { dirty_dirs = done.inv.dirty_dirs ++ (dir_ino ∷ []) })))
      grown.linked

pub drop_tombstoned-IsLinked :
    (ino : ℕ) (t : Tree)
    → nat_beq ino root_ino ≡ false
    → is_folder_place (at ino t) ≡ false
    → IsLinked t
    → IsLinked (drop_tombstoned ino t)
unfolding drop_tombstoned clear_tombstone at
drop_tombstoned-IsLinked ino t other file o =
    let u = clear_tombstone ino t in
    let gone = remove_doc_node ino u in
    let k : IsKept gone u =
      remove_doc_node-IsKept ino u (books-IsLinked t.doc_inos u.tombstones t.ws t o) other file in
    books-IsLinked gone.doc_inos gone.tombstones (forget_file ino gone.ws) gone k.linked

plain-doc_content : (ws : Option Text) (d : RenderedDoc) → is_folder (doc_content ws d) ≡ false
unfolding doc_content
plain-doc_content ws d = ground arith

place_docs-ArePlain :
    (s : Scope) (ds : List RenderedDoc) (p : Placed)
    → ArePlain p.desired
    → ArePlain (place_docs s ds p).desired
unfolding place_docs place_doc
place_docs-ArePlain s [] p plain = plain
place_docs-ArePlain s (d ∷ ds) p plain = place_docs-ArePlain s ds (place_doc s d p) (λ n v h.
    ground (
      arith,
      h,
      plain n v,
      plain-doc_content s.workspace_id d,
      lookup-put_sorted (chosen_name s d p).0 n (desired_of s d) p.desired,
    ))

pub name_documents-ArePlain :
    (s : Scope) (docs : List RenderedDoc) (names : NameStore)
    → ArePlain (name_documents s docs names).desired
unfolding name_documents Table.lookup
name_documents-ArePlain s docs names =
    place_docs-ArePlain s (by_placement docs)
      (record { names = names; desired = []; grouped = []; taken = [] })
      (λ n d h. ground (arith, h))

taken_entry :
    (parent ino : ℕ) (name : Text) (t : Tree)
    → (take_tombstone parent name t).0 ≡ some ino
    → entry parent name t ≡ some ino
unfolding take_tombstone
taken_entry parent ino name t taken = ground (arith, taken)

taken_tree :
    (parent ino : ℕ) (name : Text) (t : Tree)
    → entry parent name t ≡ some ino
    → (take_tombstone parent name t).1 ≡ clear_tombstone ino t
unfolding take_tombstone
taken_tree parent ino name t there = rw (take_tombstone, there) refl

-- A held document that is unlinked by name goes, with the tree in order.
pub take_tombstone-IsLinked :
    (parent ino : ℕ) (name : Text) (t : Tree)
    → (take_tombstone parent name t).0 ≡ some ino
    → is_folder_place (at ino t) ≡ false
    → IsLinked t
    → IsLinked (drop_tombstoned ino (take_tombstone parent name t).1)
unfolding clear_tombstone at
take_tombstone-IsLinked parent ino name t taken file o =
    let there : entry parent name t ≡ some ino = taken_entry parent ino name t taken in
    let rest : (take_tombstone parent name t).1 ≡ clear_tombstone ino t =
      taken_tree parent ino name t there in
    subst (λ u. IsLinked (drop_tombstoned ino u)) (sym rest)
      (drop_tombstoned-IsLinked ino (clear_tombstone ino t) (o.below parent ino name there) file
        (books-IsLinked t.doc_inos (clear_tombstone ino t).tombstones t.ws t o))
