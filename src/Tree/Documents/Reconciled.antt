-- ===== src/Tree/Documents/Reconciled.antt =====
-- The tree stays in order when a context's directory is brought in line with a listing (src/state.rs).
use canvas_fuse.Prelude.{
  ℕ, ◌+◌, ◌≡◌, ◌≤◌, ◌<◌, ◌∙◌, Bool, true, false, not, none, some, [], ◌∷◌, Text, text_eq, nat_beq,
  nat_beq_iff, is_some, is_some_and, All, length, arith, Bool-cases, Option-cases, inl, inr,
  if◌then◌else◌,
}
use canvas_fuse.Prelude.Table.{Table}
use canvas_fuse.Prelude.Table
use canvas_fuse.Writes.{first_overlay_ino}
use canvas_fuse.Tree.{Node, is_folder, Tree, root_ino, entry, lookup, add_node}
use canvas_fuse.Tree.Links.{next-insert_node, at}
use canvas_fuse.Tree.Linked.{IsLinked, is_at-some, is_folder_place, add_node-IsLinked, at-add_node}
use canvas_fuse.Tree.Documents.{Desired}
use canvas_fuse.Tree.Home.{content_beq}
use canvas_fuse.Tree.Documents.Views.{
  Pass, add_doc, add_docs, is_doc_of, depart, refresh, settle_entry, settle_entries, bind_doc,
}
use canvas_fuse.Tree.Documents.Kept.{
  IsKept, IsKept-refl, IsKept-trans, books-IsLinked, remove_doc_node-IsKept, tombstone-IsKept,
}
use canvas_fuse.Tree.Documents.Contents.{set_content-IsKept}

refresh-IsKept :
    (ino : ℕ) (d : Desired) (p : Pass)
    → is_folder_place (at ino p.tree) ≡ false
    → is_folder d.content ≡ false
    → IsLinked p.tree
    → IsKept (refresh ino d p).tree p.tree
unfolding refresh
refresh-IsKept ino d p file plain o =
    elim (Bool-cases
      (is_some_and (p.tree.nodes ino) (λ n. not (content_beq n.content d.content)))) [
        | inl new ↦ rw (refresh, new) (set_content-IsKept ino d.mtime d.content p.tree file plain o)
        | inr same ↦ rw (refresh, same) (IsKept-refl p.tree o)
      ]

either : (b : Bool) (P : Pass → Type 0) {x y : Pass} → P x → P y → P (if b then x else y)
either true P x y = x
either false P x y = y

depart-IsKept :
    (dir_ino ino : ℕ) (name : Text) (p : Pass)
    → is_folder_place (at ino p.tree) ≡ false
    → nat_beq ino root_ino ≡ false
    → IsLinked p.tree
    → IsKept (depart dir_ino name ino p).tree p.tree
unfolding depart
depart-IsKept dir_ino ino name p file other o =
    either p.tree.defer_removals (λ q. IsKept q.tree p.tree) (tombstone-IsKept ino p.tree o)
      (remove_doc_node-IsKept ino p.tree o other file)

-- The documents of a listing are files.
abbrev pub ArePlain : Table Desired → Type 0
ArePlain m = (n : Text) (d : Desired) → Table.lookup n m ≡ some d → is_folder d.content ≡ false

pub settle_entry-IsKept :
    (dir_ino ino : ℕ) (desired : Table Desired) (name : Text) (p : Pass)
    → ArePlain desired
    → is_folder_place (at ino p.tree) ≡ false
    → nat_beq ino root_ino ≡ false
    → IsLinked p.tree
    → IsKept (settle_entry dir_ino desired name ino p).tree p.tree
unfolding settle_entry
settle_entry-IsKept dir_ino ino desired name p plain file other o =
    elim (Option-cases (Table.lookup name desired)) [
      | inl eq ↦ rw (settle_entry, eq) (depart-IsKept dir_ino ino name p file other o)
      | inr (d, eq) ↦ elim (Bool-cases (is_doc_of ino (some d) p.tree)) [
        | inl its ↦ rw (settle_entry, eq, its) (refresh-IsKept ino d p file (plain name d eq) o)
        | inr others ↦ rw (settle_entry, eq, others) (depart-IsKept dir_ino ino name p file other o)
      ]
    ]

abbrev pub AreFiles : Table ℕ → Tree → Type 0
AreFiles have t = All (λ e. is_folder_place (at e.1 t) ≡ false × nat_beq e.1 root_ino ≡ false) have

pub files_kept : (have : Table ℕ) (t' t : Tree) → IsKept t' t → AreFiles have t → AreFiles have t'
files_kept [] t' t k all = tt
files_kept ((n, i) ∷ have) t' t k ((file, other), all) =
    ((k.kinds i ∙ file, other), files_kept have t' t k all)

pub settle_entries-IsKept :
    (dir_ino : ℕ) (desired : Table Desired) (have : Table ℕ) (p : Pass)
    → ArePlain desired
    → AreFiles have p.tree
    → IsLinked p.tree
    → IsKept (settle_entries dir_ino desired have p).tree p.tree
unfolding settle_entries
settle_entries-IsKept dir_ino desired [] p plain files o = IsKept-refl p.tree o
settle_entries-IsKept dir_ino desired ((n, i) ∷ have) p plain ((file, other), files) o =
    let q = settle_entry dir_ino desired n i p in
    let k = settle_entry-IsKept dir_ino i desired n p plain file other o in
    IsKept-trans (settle_entries dir_ino desired have q).tree q.tree p.tree
      (settle_entries-IsKept dir_ino desired have q plain (files_kept have q.tree p.tree k files)
        k.linked)
      k

-- A name that shows no node is free.
pub unshown-entry :
    (p : ℕ) (n : Text) (t : Tree) → IsLinked t → is_some (lookup p n t) ≡ false → entry p n t ≡ none
unfolding lookup at
unshown-entry p n t o h = elim (Option-cases (entry p n t)) [
  | inl eq ↦ eq
  | inr (i, eq) ↦
      let (x, there, parent, name) = is_at-some p n (at i t) (o.named p i n eq) in
      ground (arith, h, eq, there)
]

-- What adding keeps: the directory is one, and each document takes at most one number.
pub record IsGrown (dir_ino taken : ℕ) (t' t : Tree) : Type 0 where
  pub linked : IsLinked t'
  pub folder : is_folder_place (at dir_ino t') ≡ true
  pub next : t'.next_ino ≤ t.next_ino + taken

added_folder :
    (dir_ino : ℕ) (name : Text) (d : Desired) (t : Tree)
    → IsLinked t
    → t.next_ino < first_overlay_ino
    → is_folder_place (at dir_ino t) ≡ true
    → is_folder_place (at dir_ino (add_node dir_ino name d.mtime d.content t).1) ≡ true
added_folder dir_ino name d t o room folder =
    let free : at t.next_ino t ≡ none = o.fresh t.next_ino (omega arith) room in
    ground (
      arith,
      at-add_node dir_ino dir_ino d.mtime name d.content t,
      folder,
      free,
      nat_beq_iff dir_ino t.next_ino,
    )

added_next :
    (dir_ino : ℕ) (name : Text) (d : Desired) (t : Tree)
    → (add_node dir_ino name d.mtime d.content t).1.next_ino ≤ t.next_ino + 1
unfolding add_node
added_next dir_ino name d t =
    let x : Node = record {
      ino = t.next_ino;
      parent = dir_ino;
      name = name;
      mtime = d.mtime;
      content = d.content;
    } in
    omega (arith, next-insert_node x (record t { next_ino = t.next_ino + 1 }))

pub add_doc-IsGrown :
    (dir_ino : ℕ) (ctx_id name : Text) (d : Desired) (p : Pass)
    → is_folder_place (at dir_ino p.tree) ≡ true
    → p.tree.next_ino < first_overlay_ino
    → IsLinked p.tree
    → IsGrown dir_ino 1 (add_doc dir_ino ctx_id name d p).tree p.tree
unfolding add_doc bind_doc at entry
add_doc-IsGrown dir_ino ctx_id name d p folder room o =
    elim (Bool-cases (is_some (lookup dir_ino name p.tree))) [
      | inl there ↦ rw (add_doc, there) (record { linked = o; folder = folder; next = omega arith })
      | inr new ↦
          let free = unshown-entry dir_ino name p.tree o new in
          let u = (add_node dir_ino name d.mtime d.content p.tree).1 in
          let v = bind_doc ctx_id d.doc_id p.tree.next_ino u in
          rw (add_doc, new)
            (record {
              linked =
                  books-IsLinked v.doc_inos u.tombstones u.ws u
                    (add_node-IsLinked dir_ino d.mtime name d.content p.tree folder free room o);
              folder = added_folder dir_ino name d p.tree o room folder;
              next = added_next dir_ino name d p.tree;
            })
    ]

pub add_docs-IsGrown :
    (dir_ino : ℕ) (ctx_id : Text) (ds : Table Desired) (p : Pass)
    → is_folder_place (at dir_ino p.tree) ≡ true
    → p.tree.next_ino + length ds ≤ first_overlay_ino
    → IsLinked p.tree
    → IsGrown dir_ino (length ds) (add_docs dir_ino ctx_id ds p).tree p.tree
unfolding add_docs
add_docs-IsGrown dir_ino ctx_id [] p folder room o = record {
  linked = o;
  folder = folder;
  next = omega arith;
}
add_docs-IsGrown dir_ino ctx_id ((name, d) ∷ ds) p folder room o =
    let q = add_doc dir_ino ctx_id name d p in
    let one : IsGrown dir_ino 1 q.tree p.tree =
      add_doc-IsGrown dir_ino ctx_id name d p folder (omega (arith, room)) o in
    let rest : IsGrown dir_ino (length ds) (add_docs dir_ino ctx_id ds q).tree q.tree =
      add_docs-IsGrown dir_ino ctx_id ds q one.folder (omega (arith, room, one.next)) one.linked in
    record { linked = rest.linked; folder = rest.folder; next = omega (arith, rest.next, one.next) }
