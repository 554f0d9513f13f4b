-- ===== src/Tree/Documents/Shows.antt =====
-- A context's directory after a listing (src/state.rs): the names that are added, and what is there in the end.
use canvas_fuse.Prelude.{
  ℕ, ◌+◌, ◌≡◌, ◌≤◌, ◌<◌, refl, sym, subst, ◌∙◌, ◌⊎◌, true, false, ◌||◌, none, some, [], ◌∷◌, Text,
  text_eq, ◌==◌, nat_beq, nat_beq_iff, text_beq_iff, is_some, All, length, arith, Bool-cases, inl,
  inr, if◌then◌else◌,
}
use canvas_fuse.Prelude.Table.{Table}
use canvas_fuse.Prelude.Table
use canvas_fuse.Writes.{first_overlay_ino}
use canvas_fuse.Tree.{Tree, root_ino, entry, lookup}
use canvas_fuse.Tree.Links.{Place, at}
use canvas_fuse.Tree.Linked.{IsLinked, is_folder_place, at-add_node, entry-add_node}
use canvas_fuse.Tree.Documents.{Desired}
use canvas_fuse.Tree.Documents.Views.{Pass, add_doc, add_docs, bind_doc}
use canvas_fuse.Tree.Documents.Reconciled.{add_doc-IsGrown, IsGrown}
use canvas_fuse.Tree.Documents.Settled.{Fits}

-- Each entry of the list is what the map has under its name.
abbrev pub AreOf : Table Desired → Table Desired → Type 0
AreOf desired ds = All (λ e. Table.lookup e.0 desired ≡ some e.1) ds

-- A document is added to a directory that has none of its name.
record IsAdded (dir_ino : ℕ) (name : Text) (d : Desired) (t' t : Tree) : Type 0 where
  names :
      (n : Text) → entry dir_ino n t' ≡ (if name == n then some t.next_ino else entry dir_ino n t)
  nodes :
      (i : ℕ) (x : Place)
      → at i t' ≡ some x
      → (if nat_beq i t.next_ino then some x.content else none)
        ≡ (if nat_beq i t.next_ino then some d.content else none)
  others : (i : ℕ) → nat_beq i t.next_ino ≡ false → at i t' ≡ at i t

shown-entry :
    (p : ℕ) (n : Text) (t : Tree) → is_some (lookup p n t) ≡ true → is_some (entry p n t) ≡ true
unfolding lookup
shown-entry p n t h = ground (arith, h)

add_doc-cases :
    (dir_ino : ℕ) (ctx_id name : Text) (d : Desired) (p : Pass)
    → IsLinked p.tree
    → (is_some (entry dir_ino name p.tree) ≡ true × (add_doc dir_ino ctx_id name d p).tree ≡ p.tree)
      ⊎ (IsAdded dir_ino name d (add_doc dir_ino ctx_id name d p).tree p.tree)
unfolding add_doc bind_doc at entry
add_doc-cases dir_ino ctx_id name d p o = elim (Bool-cases (is_some (lookup dir_ino name p.tree))) [
  | inl there ↦ inl (shown-entry dir_ino name p.tree there, rw (add_doc, there) refl)
  | inr new ↦
      let other : nat_beq p.tree.next_ino root_ino ≡ false = ground (arith, o.started) in
      inr (
        rw (add_doc, new)
          (record {
            names = λ n. ground (
              arith,
              entry-add_node dir_ino dir_ino d.mtime n name d.content p.tree other,
              nat_beq_iff dir_ino dir_ino,
            );
            nodes = λ i x h. ground (arith, at-add_node i dir_ino d.mtime name d.content p.tree, h);
            others = λ i h. ground (arith, at-add_node i dir_ino d.mtime name d.content p.tree, h);
          }))
]

add_doc-Fits :
    (dir_ino : ℕ) (ctx_id name n : Text) (d : Desired) (desired : Table Desired) (p : Pass)
    → Table.lookup name desired ≡ some d
    → p.tree.next_ino < first_overlay_ino
    → IsLinked p.tree
    → Fits dir_ino desired n p.tree
    → Fits dir_ino desired n (add_doc dir_ino ctx_id name d p).tree
add_doc-Fits dir_ino ctx_id name n d desired p wanted room o f =
    elim (add_doc-cases dir_ino ctx_id name d p o) [
      | inl (there, same) ↦ subst (λ u. Fits dir_ino desired n u) (sym same) f
      | inr a ↦ λ i x h k. elim (Bool-cases (name == n)) [
        | inl same ↦ (
          d,
          subst (λ q. Table.lookup q desired ≡ some d) ((text_beq_iff name n).0 same) wanted,
          ground (arith, a.names n, a.nodes i x k, h, same, nat_beq_iff i p.tree.next_ino),
        )
        | inr other ↦
            let before : entry dir_ino n p.tree ≡ some i = ground (arith, a.names n, h, other) in
            let free : at p.tree.next_ino p.tree ≡ none =
              o.fresh p.tree.next_ino (omega arith) room in
            let old : nat_beq i p.tree.next_ino ≡ false =
              ground (arith, o.named dir_ino i n before, free, nat_beq_iff i p.tree.next_ino) in
            f i x before (sym (a.others i old) ∙ k)
      ]
    ]

-- A name that is there stays, and that of the document is there.
add_doc-keeps :
    (dir_ino : ℕ) (ctx_id name n : Text) (d : Desired) (p : Pass)
    → IsLinked p.tree
    → (is_some (entry dir_ino n p.tree) || (name == n)) ≡ true
    → is_some (entry dir_ino n (add_doc dir_ino ctx_id name d p).tree) ≡ true
add_doc-keeps dir_ino ctx_id name n d p o h = elim (add_doc-cases dir_ino ctx_id name d p o) [
  | inl (there, same) ↦
      subst (λ u. is_some (entry dir_ino n u) ≡ true) (sym same)
        (elim (Bool-cases (name == n)) [
          | inl eq ↦
              subst (λ q. is_some (entry dir_ino q p.tree) ≡ true) ((text_beq_iff name n).0 eq)
                there
          | inr other ↦ ground (arith, h, other)
        ])
  | inr a ↦ ground (arith, h, a.names n)
]

module _ (dir_ino : ℕ) (ctx_id : Text) where
  -- The directory takes so many documents.
  pub record CanTake (many : ℕ) (t : Tree) : Type 0 where
    pub folder : is_folder_place (at dir_ino t) ≡ true
    pub room : t.next_ino + many ≤ first_overlay_ino
    pub linked : IsLinked t

  take_one :
      (name : Text) (d : Desired) (ds : Table Desired) (p : Pass)
      → CanTake (length ((name, d) ∷ ds)) p.tree
      → CanTake (length ds) (add_doc dir_ino ctx_id name d p).tree
  take_one name d ds p c =
      let one : IsGrown dir_ino 1 (add_doc dir_ino ctx_id name d p).tree p.tree =
        add_doc-IsGrown dir_ino ctx_id name d p c.folder (omega (arith, c.room)) c.linked in
      record { folder = one.folder; room = omega (arith, c.room, one.next); linked = one.linked }

  pub add_docs-Fits :
      (n : Text) (desired ds : Table Desired) (p : Pass)
      → AreOf desired ds
      → CanTake (length ds) p.tree
      → Fits dir_ino desired n p.tree
      → Fits dir_ino desired n (add_docs dir_ino ctx_id ds p).tree
  unfolding add_docs
  add_docs-Fits n desired [] p of_ c f = f
  add_docs-Fits n desired ((name, d) ∷ ds) p (one, of_) c f =
      add_docs-Fits n desired ds (add_doc dir_ino ctx_id name d p) of_ (take_one name d ds p c)
        (add_doc-Fits dir_ino ctx_id name n d desired p one (omega (arith, c.room)) c.linked f)

  add_docs-keeps :
      (n : Text) (ds : Table Desired) (p : Pass)
      → CanTake (length ds) p.tree
      → is_some (entry dir_ino n p.tree) ≡ true
      → is_some (entry dir_ino n (add_docs dir_ino ctx_id ds p).tree) ≡ true
  unfolding add_docs
  add_docs-keeps n [] p c h = h
  add_docs-keeps n ((name, d) ∷ ds) p c h =
      add_docs-keeps n ds (add_doc dir_ino ctx_id name d p) (take_one name d ds p c)
        (add_doc-keeps dir_ino ctx_id name n d p c.linked (ground (arith, h)))

  pub add_docs-names :
      (n : Text) (d : Desired) (ds : Table Desired) (p : Pass)
      → CanTake (length ds) p.tree
      → Table.lookup n ds ≡ some d
      → is_some (entry dir_ino n (add_docs dir_ino ctx_id ds p).tree) ≡ true
  unfolding add_docs Table.lookup
  add_docs-names n d [] p c h = ground (arith, h)
  add_docs-names n d ((name, e) ∷ ds) p c h =
      let q = add_doc dir_ino ctx_id name e p in
      elim (Bool-cases (name == n)) [
        | inl same ↦
            add_docs-keeps n ds q (take_one name e ds p c)
              (add_doc-keeps dir_ino ctx_id name n e p c.linked (ground (arith, same)))
        | inr other ↦ add_docs-names n d ds q (take_one name e ds p c) (ground (arith, h, other))
      ]
