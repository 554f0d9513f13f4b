-- ===== src/Tree/Documents/Listing.antt =====
-- A context's directory after a listing is that listing (src/state.rs, `apply_documents` to its flat view).
use canvas_fuse.Prelude.{
  ℕ, ◌+◌, ◌≡◌, ◌≤◌, refl, sym, subst, ◌∙◌, Bool, true, false, none, some, List, [], ◌∷◌, ◌++◌, Text,
  text_eq, ◌==◌, get_or, is_some, All, length, arith, text_beq_iff, text_beq_refl, contains,
  Option-cases, inl, inr, if◌then◌else◌,
}
use canvas_fuse.Prelude.Table.{Table}
use canvas_fuse.Prelude.Table
use canvas_fuse.Writes.{first_overlay_ino}
use canvas_fuse.Tree.{Tree, Invalidation, entry}
use canvas_fuse.Tree.Roots.{text_leb}
use canvas_fuse.Tree.Links.{Place, at}
use canvas_fuse.Tree.Linked.{IsLinked, is_at-some}
use canvas_fuse.Tree.Subtree.{entry-get_or}
use canvas_fuse.Tree.Documents.{
  RenderedDoc, NameStore, Scope, Desired, Placed, by_placement, put_sorted, chosen_name, place_doc,
  place_docs, name_documents,
}
use canvas_fuse.Tree.Documents.Sorted.{lookup-put_sorted}
use canvas_fuse.Tree.Documents.Naming.{
  Apart, IsShown, desired_of, IsPlaced, place_doc-IsPlaced, place_doc-new, place_doc-desired,
  none_taken, name_documents-IsWhole,
}
use canvas_fuse.Tree.Documents.Views.{
  Pass, doc_entries, settle_entries, add_docs, reconcile_doc_dir,
}
use canvas_fuse.Tree.Documents.Kept.{IsKept}
use canvas_fuse.Tree.Documents.Reconciled.{ArePlain, settle_entries-IsKept}
use canvas_fuse.Tree.Documents.Settled.{Fits}
use canvas_fuse.Tree.Documents.Directory.{
  IsDocDir, is_doc_name, doc_entries-AreFiles, all_doc_entries, dirtied-tree,
  reconcile_doc_dir-IsLinked, name_documents-ArePlain,
}
use canvas_fuse.Tree.Documents.Follows.{settle_entries-Fits, doc_entries-found, AreNamed, IsAhead}
use canvas_fuse.Tree.Documents.Shows.{AreOf, CanTake, add_docs-Fits, add_docs-names}

-- A name is there exactly if the listing has it, and with its content.
pub record Shows (dir_ino : ℕ) (desired : Table Desired) (n : Text) (t : Tree) : Type 0 where
  pub there :
      (d : Desired)
      → Table.lookup n desired ≡ some d
      → (i : ℕ) × (x : Place) × (entry dir_ino n t ≡ some i)
        × (at i t ≡ some x)
        × (x.content ≡ d.content)
  pub absent : Table.lookup n desired ≡ none → entry dir_ino n t ≡ none

Shows-from :
    (dir_ino : ℕ) (desired : Table Desired) (n : Text) (t : Tree)
    → IsLinked t
    → Fits dir_ino desired n t
    → ((d : Desired) → Table.lookup n desired ≡ some d → is_some (entry dir_ino n t) ≡ true)
    → Shows dir_ino desired n t
Shows-from dir_ino desired n t o f names = elim (Option-cases (entry dir_ino n t)) [
  | inl none_there ↦ record {
    there = λ d h. ground (arith, none_there, names d h);
    absent = λ h. none_there;
  }
  | inr (i, eq) ↦
      let (x, at_i, parent, name) = is_at-some dir_ino n (at i t) (o.named dir_ino i n eq) in
      let (e, wanted, content) = f i x eq at_i in
      record {
        there = λ d h. (i, x, eq, at_i, ground (arith, h, wanted, content));
        absent = λ h. ground (arith, h, wanted);
      }
]

named_entries :
    (dir_ino : ℕ) (t : Tree)
    → IsLinked t
    → (let whole = get_or (t.children dir_ino) [] in AreNamed (doc_entries whole whole) t)
named_entries dir_ino t o =
    let whole = get_or (t.children dir_ino) [] in
    all_doc_entries (λ n i. (x : Place) → at i t ≡ some x → x.name ≡ n) whole whole
      (λ n i h ours x k.
        let (y, there, parent, name) =
          is_at-some dir_ino n (at i t) (o.named dir_ino i n (entry-get_or dir_ino n t ∙ h)) in
        ground (arith, k, there, name))

all-IsAhead :
    (dir_ino : ℕ) (desired : Table Desired) (n : Text) (t : Tree)
    → is_doc_name n ≡ true
    → (let whole = get_or (t.children dir_ino) [] in
        IsAhead dir_ino desired n (doc_entries whole whole) t)
all-IsAhead dir_ino desired n t ours =
    let whole = get_or (t.children dir_ino) [] in
    inl (λ i h.
      let there : Table.lookup n whole ≡ some i = sym (entry-get_or dir_ino n t) ∙ h in
      doc_entries-found whole whole n i ours there there)

-- A directory that follows a listing has the names of that listing.
pub reconcile_doc_dir-Shows :
    (dir_ino : ℕ) (ctx_id n : Text) (desired : Table Desired) (t : Tree) (inv : Invalidation)
    → IsDocDir dir_ino t
    → ArePlain desired
    → AreOf desired desired
    → t.defer_removals ≡ false
    → t.next_ino + length desired ≤ first_overlay_ino
    → IsLinked t
    → is_doc_name n ≡ true
    → Shows dir_ino desired n (reconcile_doc_dir dir_ino ctx_id desired (t, inv)).tree
unfolding reconcile_doc_dir
reconcile_doc_dir-Shows dir_ino ctx_id n desired t inv d plain own now room o ours =
    let whole = get_or (t.children dir_ino) [] in
    let begun : Pass = record { tree = t; inv = inv; dirty = false } in
    let files = doc_entries-AreFiles dir_ino t o d in
    let settled = settle_entries dir_ino desired (doc_entries whole whole) begun in
    let k : IsKept settled.tree t =
      settle_entries-IsKept dir_ino desired (doc_entries whole whole) begun plain files o in
    let fits : Fits dir_ino desired n settled.tree =
      settle_entries-Fits dir_ino desired n (doc_entries whole whole) begun plain files
        (named_entries dir_ino t o) now o (all-IsAhead dir_ino desired n t ours) in
    let c : CanTake dir_ino ctx_id (length desired) settled.tree = record {
      folder = k.kinds dir_ino ∙ d.folder;
      room = omega (arith, room, k.next_same);
      linked = k.linked;
    } in
    let done = add_docs dir_ino ctx_id desired settled in
    let linked = reconcile_doc_dir-IsLinked dir_ino ctx_id desired t inv d plain room o in
    let same : (reconcile_doc_dir dir_ino ctx_id desired (t, inv)).tree ≡ done.tree =
      dirtied-tree done (record done.inv { dirty_dirs = done.inv.dirty_dirs ++ (dir_ino ∷ []) }) in
    subst (λ u. Shows dir_ino desired n u) (sym same)
      (Shows-from dir_ino desired n done.tree (subst (λ u. IsLinked u) same linked)
        (add_docs-Fits dir_ino ctx_id n desired desired settled own c fits)
        (λ e h. add_docs-names dir_ino ctx_id n e desired settled c h))

either_all :
    (b : Bool) (P : Text × Desired → Type 0) (xs ys : Table Desired)
    → All P xs
    → All P ys
    → All P (if b then xs else ys)
either_all true P xs ys x y = x
either_all false P xs ys x y = y

All-put_sorted :
    (P : Text × Desired → Type 0) (k : Text) (v : Desired) (t : Table Desired)
    → P (k, v)
    → All P t
    → All P (put_sorted k v t)
unfolding put_sorted
All-put_sorted P k v [] one all = (one, tt)
All-put_sorted P k v ((j, w) ∷ t) one (first, all) =
    let rest = (j, w) ∷ put_sorted k v t in
    let inner = if text_leb k j then (k, v) ∷ (j, w) ∷ t else rest in
    either_all (j == k) P ((k, v) ∷ t) inner (one, all)
      (either_all (text_leb k j) P ((k, v) ∷ (j, w) ∷ t) rest (one, (first, all))
        (first, All-put_sorted P k v t one all))

still_own :
    (k : Text) (v : Desired) (m t : Table Desired)
    → Table.lookup k m ≡ none
    → AreOf m t
    → AreOf (put_sorted k v m) t
still_own k v m [] new own = tt
still_own k v m ((j, w) ∷ t) new (one, own) = (
  ground (arith, lookup-put_sorted k j v m, new, one, text_beq_iff k j),
  still_own k v m t new own,
)

-- Entries under new names leave the map one of its own entries.
own_put :
    (k : Text) (v : Desired) (m : Table Desired)
    → Table.lookup k m ≡ none
    → AreOf m m
    → AreOf (put_sorted k v m) (put_sorted k v m)
own_put k v m new own =
    All-put_sorted (λ e. Table.lookup e.0 (put_sorted k v m) ≡ some e.1) k v m
      (ground (arith, lookup-put_sorted k k v m, text_beq_refl k)) (still_own k v m m new own)

place_docs-own :
    (s : Scope) (ds : List RenderedDoc) (p : Placed)
    → Apart ds
    → IsPlaced p ds
    → AreOf p.desired p.desired
    → AreOf (place_docs s ds p).desired (place_docs s ds p).desired
unfolding place_docs
place_docs-own s [] p apart i own = own
place_docs-own s (d ∷ ds) p apart i own =
    let n = (chosen_name s d p).0 in
    let put : AreOf (put_sorted n (desired_of s d) p.desired)
        (put_sorted n (desired_of s d) p.desired) =
      own_put n (desired_of s d) p.desired (place_doc-new s d p ds i) own in
    place_docs-own s ds (place_doc s d p) apart.1 (place_doc-IsPlaced s d p ds apart i)
      (subst (λ m. AreOf m m) (sym (place_doc-desired s d p)) put)

name_documents-own :
    (s : Scope) (docs : List RenderedDoc) (names : NameStore)
    → Apart (by_placement docs)
    → AreOf (name_documents s docs names).desired (name_documents s docs names).desired
unfolding name_documents Table.lookup contains
name_documents-own s docs names apart =
    place_docs-own s (by_placement docs)
      (record { names = names; desired = []; grouped = []; taken = [] }) apart
      (record { known = λ n. refl; free = none_taken (by_placement docs) }) tt

-- Whatever names are stored and whatever the directory shows, if no document's name with its number is the
-- name, plain or with its number, of one placed before it, then after the directory has followed the
-- documents, those that are gone not being held, each document has one entry, under its name or that with its
-- number and with its content; the listing has as many entries as there are documents, and of the names that
-- stand for documents the directory has exactly those of the listing, as long as the numbers suffice.
pub follow-Shows :
    (dir_ino : ℕ) (s : Scope) (docs : List RenderedDoc) (names : NameStore) (t : Tree)
    (inv : Invalidation)
    → IsDocDir dir_ino t
    → Apart (by_placement docs)
    → t.defer_removals ≡ false
    → t.next_ino + length docs ≤ first_overlay_ino
    → IsLinked t
    → (let desired = (name_documents s docs names).desired in
        All (IsShown s desired) docs
        × (length desired ≡ length docs)
        × ((n : Text)
            → is_doc_name n ≡ true
            → Shows dir_ino desired n (reconcile_doc_dir dir_ino s.ctx_id desired (t, inv)).tree))
follow-Shows dir_ino s docs names t inv d apart now room o =
    let (shown, counts) = name_documents-IsWhole s docs names apart in
    (
      shown,
      counts,
      λ n ours.
          reconcile_doc_dir-Shows dir_ino s.ctx_id n (name_documents s docs names).desired t inv d
            (name_documents-ArePlain s docs names) (name_documents-own s docs names apart) now
            (omega (arith, room, counts)) o ours,
    )
