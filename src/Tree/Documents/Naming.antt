-- ===== src/Tree/Documents/Naming.antt =====
-- Which names the documents of a context have (src/state.rs, `apply_documents`).
use canvas_fuse.Prelude.{
  ◌≡◌, refl, sym, ◌∙◌, true, false, ◌||◌, Option, none, some, List, [], ◌∷◌, Text, text_eq, ◌==◌,
  contains, is_some, All, length, ◌+◌, text_beq_iff, text_beq_refl, arith,
}
use canvas_fuse.Prelude.Table.{Table}
use canvas_fuse.Prelude.Table
use canvas_fuse.Tree.Documents.{
  RenderedDoc, NameStore, Scope, Desired, Placed, put_sorted, pick_name, suffixed_name, chosen_name,
  doc_content, by_placement, place_doc, place_docs, name_documents, key_in, get_name,
}
use canvas_fuse.Tree.Documents.Sorted.{
  lookup-put_sorted, length-put_sorted, All-by_placement, length-by_placement,
}

-- No later document has an earlier one's name, plain or with its number, as its own name with its number.
abbrev pub Apart : List RenderedDoc → Type 0
Apart [] = Unit
Apart (d ∷ ds) =
    All
      (λ e.
        (d.rendered.base_name == suffixed_name e) ≡ false
        × (suffixed_name d == suffixed_name e) ≡ false)
      ds
    × Apart ds

abbrev pub desired_of : Scope → RenderedDoc → Desired
unfolding doc_content
desired_of s d = record {
  doc_id = d.id;
  content = doc_content s.workspace_id d;
  mtime = d.updated_at;
}

-- The document is in the view, under its name or that with its number.
pub IsShown : Scope → Table Desired → RenderedDoc → Type 0
unfolding Table.lookup
IsShown s m d =
    (n : Text) × (Table.lookup n m ≡ some (desired_of s d))
    × ((n == d.rendered.base_name) || (n == suffixed_name d)) ≡ true

pick_name-free :
    (base suffixed : Text) (taken : List Text) (persisted : Option Text)
    → contains taken suffixed ≡ false
    → contains taken (pick_name base suffixed taken persisted).0 ≡ false
unfolding pick_name
pick_name-free base suffixed taken none free = ground (arith, free)
pick_name-free base suffixed taken (some n) free = ground (arith, free)

pick_name-own :
    (base suffixed : Text) (taken : List Text) (persisted : Option Text)
    → (((pick_name base suffixed taken persisted).0 == base)
        || ((pick_name base suffixed taken persisted).0 == suffixed))
      ≡ true
unfolding pick_name
pick_name-own base suffixed taken none = ground (arith, text_beq_refl base, text_beq_refl suffixed)
pick_name-own base suffixed taken (some n) =
    ground (arith, text_beq_refl base, text_beq_refl suffixed)

chosen_name-own :
    (s : Scope) (d : RenderedDoc) (p : Placed)
    → (((chosen_name s d p).0 == d.rendered.base_name)
        || ((chosen_name s d p).0 == suffixed_name d))
      ≡ true
unfolding chosen_name
chosen_name-own s d p =
    pick_name-own d.rendered.base_name (suffixed_name d) p.taken (get_name (key_in s d.id) p.names)

chosen_name-free :
    (s : Scope) (d : RenderedDoc) (p : Placed)
    → contains p.taken (suffixed_name d) ≡ false
    → contains p.taken (chosen_name s d p).0 ≡ false
unfolding chosen_name
chosen_name-free s d p free =
    pick_name-free d.rendered.base_name (suffixed_name d) p.taken (get_name (key_in s d.id) p.names)
      free

-- The names that are taken are those of the view, and the documents to come have theirs.
pub record IsPlaced (p : Placed) (ds : List RenderedDoc) : Type 0 where
  pub known : (n : Text) → contains p.taken n ≡ is_some (Table.lookup n p.desired)
  pub free : All (λ e. contains p.taken (suffixed_name e) ≡ false) ds

still_free :
    (s : Scope) (d : RenderedDoc) (p : Placed) (ds : List RenderedDoc)
    → All
        (λ e.
          (d.rendered.base_name == suffixed_name e) ≡ false
          × (suffixed_name d == suffixed_name e) ≡ false)
        ds
    → All (λ e. contains p.taken (suffixed_name e) ≡ false) ds
    → All (λ e. contains (place_doc s d p).taken (suffixed_name e) ≡ false) ds
unfolding place_doc contains
still_free s d p [] apart free = tt
still_free s d p (e ∷ ds) ((base, suffixed), apart) (one, free) =
    let n = (chosen_name s d p).0 in
    (
      ground (
        arith,
        one,
        base,
        suffixed,
        chosen_name-own s d p,
        text_beq_iff n d.rendered.base_name,
        text_beq_iff n (suffixed_name d),
      ),
      still_free s d p ds apart free,
    )

pub place_doc-IsPlaced :
    (s : Scope) (d : RenderedDoc) (p : Placed) (ds : List RenderedDoc)
    → Apart (d ∷ ds)
    → IsPlaced p (d ∷ ds)
    → IsPlaced (place_doc s d p) ds
unfolding place_doc contains
place_doc-IsPlaced s d p ds (apart, _) i = record {
  known = λ n.
      ground
        (arith, i.known n, lookup-put_sorted (chosen_name s d p).0 n (desired_of s d) p.desired);
  free = still_free s d p ds apart i.free.1;
}

not_known : (o : Option Desired) → is_some o ≡ false → o ≡ none
not_known none h = refl
not_known (some v) h = ground (arith, h)

pub place_doc-new :
    (s : Scope) (d : RenderedDoc) (p : Placed) (ds : List RenderedDoc)
    → IsPlaced p (d ∷ ds)
    → Table.lookup (chosen_name s d p).0 p.desired ≡ none
place_doc-new s d p ds i =
    let n = (chosen_name s d p).0 in
    let free : contains p.taken n ≡ false = chosen_name-free s d p i.free.0 in
    not_known (Table.lookup n p.desired) (sym (i.known n) ∙ free)

pub place_doc-desired :
    (s : Scope) (d : RenderedDoc) (p : Placed)
    → (place_doc s d p).desired ≡ put_sorted (chosen_name s d p).0 (desired_of s d) p.desired
unfolding place_doc
place_doc-desired s d p = refl

pub none_taken : (ds : List RenderedDoc) → All (λ e. contains [] (suffixed_name e) ≡ false) ds
unfolding contains
none_taken [] = tt
none_taken (d ∷ ds) = (refl, none_taken ds)

-- What was in the view stays, and each document of the list is in it, one entry for each.
record AreShown (s : Scope) (ds : List RenderedDoc) (before after : Table Desired) : Type 0 where
  keeps : (n : Text) (v : Desired) → Table.lookup n before ≡ some v → Table.lookup n after ≡ some v
  shows : All (IsShown s after) ds
  counts : length after ≡ length before + length ds

place_docs-AreShown :
    (s : Scope) (ds : List RenderedDoc) (p : Placed)
    → Apart ds
    → IsPlaced p ds
    → AreShown s ds p.desired (place_docs s ds p).desired
unfolding place_docs IsShown chosen_name pick_name
place_docs-AreShown s [] p apart i = record { keeps = λ n v h. h; shows = tt; counts = omega arith }
place_docs-AreShown s (d ∷ ds) p apart i =
    let q = place_doc s d p in
    let n = (chosen_name s d p).0 in
    let new : Table.lookup n p.desired ≡ none = place_doc-new s d p ds i in
    let desired : q.desired ≡ put_sorted n (desired_of s d) p.desired = place_doc-desired s d p in
    let rest : AreShown s ds q.desired (place_docs s ds q).desired =
      place_docs-AreShown s ds q apart.1 (place_doc-IsPlaced s d p ds apart i) in
    record {
      keeps = λ m v h. rest.keeps m v (
          ground (
            arith,
            h,
            desired,
            new,
            text_beq_iff n m,
            lookup-put_sorted n m (desired_of s d) p.desired,
          ));
      shows = (
        (
          n,
          rest.keeps n (desired_of s d) (
              ground (
                arith,
                desired,
                text_beq_refl n,
                lookup-put_sorted n n (desired_of s d) p.desired,
              )),
          chosen_name-own s d p,
        ),
        rest.shows,
      );
      counts =
          ground (arith, rest.counts, desired, length-put_sorted n (desired_of s d) p.desired new);
    }

-- Whatever names are stored, a listing in which no document's name with its number is the name, plain or with
-- its number, of one placed before it is shown whole: each document is in the view with its content, under its
-- name or that with its number, and the view has as many entries as the listing has documents.
pub name_documents-IsWhole :
    (s : Scope) (docs : List RenderedDoc) (names : NameStore)
    → Apart (by_placement docs)
    → All (IsShown s (name_documents s docs names).desired) docs
      × (length (name_documents s docs names).desired ≡ length docs)
unfolding name_documents Table.lookup contains
name_documents-IsWhole s docs names apart =
    let whole : AreShown s (by_placement docs) [] (name_documents s docs names).desired =
      place_docs-AreShown s (by_placement docs)
        (record { names = names; desired = []; grouped = []; taken = [] }) apart
        (record { known = λ n. refl; free = none_taken (by_placement docs) }) in
    (
      All-by_placement (IsShown s (name_documents s docs names).desired) docs whole.shows,
      omega (arith, whole.counts, length-by_placement docs),
    )
