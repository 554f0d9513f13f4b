-- ===== src/Tree/Documents.antt =====
-- How the documents of a context get their file names (src/state.rs, `with_id_suffix` of src/render.rs and the
-- store of src/names.rs). A document stands here with what the renderer made of it.
pub mod Sorted
pub mod Naming
pub mod Views
pub mod Groups
pub mod Kept
pub mod Contents
pub mod Reconciled
pub mod Settled
pub mod Directory
pub mod Follows
pub mod Shows
pub mod Listing
use canvas_fuse.Prelude.{
  ℕ, Bool, true, false, ◌&&◌, ◌||◌, not, Option, none, some, List, [], ◌∷◌, ◌++◌, Text, text_eq,
  ◌==◌, contains, nat_beq, ltb, codes, is_empty, get_or, if◌then◌else◌,
}
use canvas_fuse.Prelude.Table.{Table, insert}
use canvas_fuse.Prelude.Table
use canvas_fuse.Paths.{rsplit_once}
use canvas_fuse.Http.Messages.{decimal}
use canvas_fuse.Blobs.{Blob}
use canvas_fuse.Render.{RenderedContent, inline_bytes, remote_blob, Rendered, Libraries, Document}
use canvas_fuse.Render.Content.{render}
use canvas_fuse.Tree.{Content, inline, remote}
use canvas_fuse.Tree.Roots.{text_leb}

-- A document that was rendered. `json` is the text of its data.
pub record RenderedDoc : Type 0 where
  pub id : ℕ
  pub linked_here : Bool
  pub updated_at : ℕ
  pub checksum : Option Text
  pub json : Blob
  pub rendered : Rendered

-- The code renders each document in the loop that names it; where that stops, nothing comes of the listing.
unfoldable pub render_all : Libraries → List Document → Option (List RenderedDoc)
unfolding render
render_all lib [] = some []
render_all lib (d ∷ ds) =
    let rest = render_all lib ds in
    elim (render lib d) [
      | none ↦ none
      | some r ↦ elim rest [
        | none ↦ none
        | some rs ↦ some (
            record {
              id = d.id;
              linked_here = d.linked_here;
              updated_at = d.updated_at;
              checksum = d.checksum;
              json = lib.pretty d.json;
              rendered = r;
            }
            ∷ rs)
      ]
    ]

-- The documents filed here come first, then those of smaller numbers.
unfoldable pub placed_before : RenderedDoc → RenderedDoc → Bool
placed_before d e =
    if d.linked_here then not e.linked_here || ltb d.id e.id else not e.linked_here && ltb d.id e.id

-- A stable sort.
unfoldable pub insert_placed : RenderedDoc → List RenderedDoc → List RenderedDoc
unfolding placed_before
insert_placed d [] = d ∷ []
insert_placed d (e ∷ es) =
    let rest = insert_placed d es in if placed_before e d then e ∷ rest else d ∷ e ∷ es

unfoldable pub by_placement : List RenderedDoc → List RenderedDoc
unfolding insert_placed
by_placement [] = []
by_placement (d ∷ ds) = insert_placed d (by_placement ds)

unfoldable pub with_id_suffix : Text → ℕ → Text
unfolding rsplit_once decimal
with_id_suffix base id = elim (rsplit_once 46 base) [
  | none ↦ base ++ (codes "_" ++ decimal id)
  | some (stem, ext) ↦
      if not (is_empty stem)
      then stem ++ (codes "_" ++ (decimal id ++ (codes "." ++ ext)))
      else base ++ (codes "_" ++ decimal id)
]

-- The table of names; whether a transaction on a key succeeds is up to the disk.
pub record NameStore : Type 0 where
  pub filenames : Table Text
  pub reads : Text → Bool
  pub writes : Text → Bool

unfoldable pub name_key : Text → Text → Text → ℕ → Text
unfolding decimal
name_key ctx ws folder id = ctx ++ (31 ∷ (ws ++ (31 ∷ (folder ++ (31 ∷ decimal id)))))

unfoldable pub get_name : Text → NameStore → Option Text
get_name key names = if names.reads key then Table.lookup key names.filenames else none

unfoldable pub put_name : Text → Text → NameStore → NameStore
put_name key name names =
    if names.writes key then record names { filenames = insert key name names.filenames } else names

-- A B-tree map keyed by text: an association list in the order of the keys.
unfoldable pub put_sorted {ℓ} : {V : Type ℓ} → Text → V → Table V → Table V
unfolding text_leb
put_sorted k v [] = (k, v) ∷ []
put_sorted k v ((j, w) ∷ t) =
    let rest = put_sorted k v t in
    if j == k then (k, v) ∷ t else if text_leb k j then (k, v) ∷ (j, w) ∷ t else (j, w) ∷ rest

pub record Desired : Type 0 where
  pub doc_id : ℕ
  pub content : Content
  pub mtime : ℕ

pub record Member : Type 0 where
  pub name : Text
  pub content : Content
  pub mtime : ℕ

-- Where the names of a listing are kept: the context, its workspace, if it is known, and its URL.
pub record Scope : Type 0 where
  pub ctx_id : Text
  pub workspace_id : Option Text
  pub name_key : Text

unfoldable pub key_in : Scope → ℕ → Text
unfolding name_key
key_in s id = name_key s.ctx_id (get_or s.workspace_id []) s.name_key id

-- Without a workspace a document of the content route is shown as its data.
unfoldable pub doc_content : Option Text → RenderedDoc → Content
doc_content ws d = elim d.rendered.content [
  | inline_bytes bytes ↦ inline bytes
  | remote_blob size ↦ elim ws [ some w ↦ remote w d.id size d.checksum | none ↦ inline d.json ]
]

pub record Placed : Type 0 where
  pub names : NameStore
  pub desired : Table Desired
  pub grouped : Table (List Member)
  pub taken : List Text

-- A stored name stands while it is still the document's name.
abbrev pub standing : Text → Text → Option Text → Option Text
standing base suffixed none = none
standing base suffixed (some n) = if (n == base) || (n == suffixed) then some n else none

-- The name, and whether it is a new one, to be stored.
unfoldable pub pick_name : Text → Text → List Text → Option Text → Text × Bool
unfolding contains
pick_name base suffixed taken persisted = elim (standing base suffixed persisted) [
  | none ↦ (if contains taken base then suffixed else base, true)
  | some n ↦
      if not (contains taken n)
      then (n, false)
      else (if contains taken base then suffixed else base, true)
]

unfoldable pub suffixed_name : RenderedDoc → Text
unfolding with_id_suffix
suffixed_name d = with_id_suffix d.rendered.base_name d.id

unfoldable pub chosen_name : Scope → RenderedDoc → Placed → Text × Bool
unfolding get_name pick_name suffixed_name key_in
chosen_name s d p =
    pick_name d.rendered.base_name (suffixed_name d) p.taken (get_name (key_in s d.id) p.names)

unfoldable pub place_doc : Scope → RenderedDoc → Placed → Placed
unfolding put_name put_sorted doc_content chosen_name key_in
place_doc s d p =
    let (name, is_new) = chosen_name s d p in
    let content = doc_content s.workspace_id d in
    let members = get_or (Table.lookup d.rendered.dir p.grouped) [] in
    let one : Member = record { name = name; content = content; mtime = d.updated_at } in
    record {
      names = if is_new then put_name (key_in s d.id) name p.names else p.names;
      desired =
          put_sorted name (record { doc_id = d.id; content = content; mtime = d.updated_at })
            p.desired;
      grouped = put_sorted d.rendered.dir (members ++ (one ∷ [])) p.grouped;
      taken = name ∷ p.taken;
    }

unfoldable pub place_docs : Scope → List RenderedDoc → Placed → Placed
unfolding place_doc
place_docs s [] p = p
place_docs s (d ∷ ds) p = place_docs s ds (place_doc s d p)

-- The names of the documents of a context.
unfoldable pub name_documents : Scope → List RenderedDoc → NameStore → Placed
unfolding by_placement place_docs
name_documents s docs names =
    place_docs s (by_placement docs)
      (record { names = names; desired = []; grouped = []; taken = [] })
