-- ===== src/Examples/Tree.antt =====
-- The tree of nodes at concrete inputs: the mount of a workspace, and a file put into its drive.
use canvas_fuse.Prelude.{
  ℕ, ◌≡◌, ◌↔◌, refl, subst, sym, Bool, true, false, Option, none, some, List, [], ◌∷◌, Text, codes,
  arith, text_beq, nat_beq, length,
}
use canvas_fuse.Prelude.{◌+◌, ◌<◌, set, retain, is_empty, if◌then◌else◌}
use canvas_fuse.Prelude.Table
use canvas_fuse.Prelude.Table.{insert, remove}
use canvas_fuse.Paths.{rsplit_once, push_char, split}
use canvas_fuse.Writes.{first_overlay_ino}
use canvas_fuse.Tree.{insert_node, home_root_ino, lookup, add_node, link, touch_dir}
use canvas_fuse.Tree.Links.{at}
use canvas_fuse.Tree.Linked.{is_folder_place}
use canvas_fuse.Tree.Home.{
  ensure_home_dirs, ensure_from, segments, ensure_at, trim_end, trim_start, split_key, upsert_at,
}
use canvas_fuse.Tree.Home.Upsert.{is_folder_node}
use canvas_fuse.Tree.Roots.{
  bare, includes_home, insert_sorted, is_explicit, root_dir, single_tree, sort_dedup, text_leb,
}
use canvas_fuse.Tree.{WorkspaceSelection, Tree, no_change, entry, path_of, remove_subtree}
use canvas_fuse.Tree.Linked.{IsLinked}
use canvas_fuse.Tree.Roots.{workspace_selected}
use canvas_fuse.Tree.Routes.{path_of_iff_walk}
use canvas_fuse.Tree.Home.{trim_slashes, walk, upsert_home_key}
use canvas_fuse.Tree.Home.Found.{IsFileAt, upsert_home_key-IsFileAt}
use canvas_fuse.Prelude.{map, All, contains}
use canvas_fuse.Http.Messages.{decimal, digits}
use canvas_fuse.Tree.Documents.{
  RenderedDoc, Scope, NameStore, name_documents, by_placement, insert_placed, placed_before,
  place_docs, place_doc, chosen_name, pick_name, suffixed_name, with_id_suffix, get_name, put_name,
  name_key, key_in, put_sorted, doc_content,
}
use canvas_fuse.Render.{inline_bytes}
use canvas_fuse.Tree.Documents.Naming.{Apart, IsShown}
use canvas_fuse.Tree.Documents.Views.{reconcile_doc_dir}
use canvas_fuse.Tree.Documents.Directory.{IsDocDir, is_doc_name}
use canvas_fuse.Tree.Documents.Listing.{Shows, follow-Shows}
use canvas_fuse.Tree.Session.{Reach, Reach-IsLinked, begun, stepped, upserted}

abbrev given : WorkspaceSelection
given = record { trees = []; home = false; include_backends = false }

start : Tree
start = workspace_selected (codes "w") (codes "Work") given 7

abbrev key : Text
key = codes "Docs/a.md"

root_there : is_folder_place (at (home_root_ino start) start) ≡ true
unfolding start workspace_selected insert_node set home_root_ino rsplit_once trim_slashes lookup
    ensure_home_dirs ensure_from segments retain ensure_at Table.lookup add_node push_char split
    insert remove text_beq trim_end trim_start bare includes_home insert_sorted is_explicit root_dir
    single_tree sort_dedup text_leb entry link touch_dir at
root_there = refl

room : start.next_ino + length (segments (split_key (trim_slashes key)).0) < first_overlay_ino
unfolding start workspace_selected insert_node set home_root_ino rsplit_once trim_slashes lookup
    ensure_home_dirs ensure_from segments retain ensure_at Table.lookup add_node push_char split
    insert remove text_beq trim_end trim_start bare includes_home insert_sorted is_explicit root_dir
    single_tree sort_dedup text_leb entry link touch_dir at
room = omega arith

has_name : is_empty (split_key (trim_slashes key)).1 ≡ false
unfolding start workspace_selected insert_node set home_root_ino rsplit_once trim_slashes lookup
    ensure_home_dirs ensure_from segments retain ensure_at Table.lookup add_node push_char split
    insert remove text_beq trim_end trim_start bare includes_home insert_sorted is_explicit root_dir
    single_tree sort_dedup text_leb entry link touch_dir at
has_name = refl

no_dir :
    (let done = ensure_home_dirs (split_key (trim_slashes key)).0 (start, no_change) in
      is_folder_node (lookup done.0 (split_key (trim_slashes key)).1 done.1) ≡ false)
unfolding start workspace_selected insert_node set home_root_ino rsplit_once trim_slashes lookup
    ensure_home_dirs ensure_from segments retain ensure_at Table.lookup add_node push_char split
    insert remove text_beq trim_end trim_start bare includes_home insert_sorted is_explicit root_dir
    single_tree sort_dedup text_leb entry link touch_dir at
no_dir = refl

abbrev filled : Tree
filled = (upsert_home_key 1 key 3 8 start).0

reached : Reach 1 start filled
reached = stepped start filled begun (upserted key 3 8 start root_there has_name no_dir room)

Reach-IsLinked_example : IsLinked filled
unfolding workspace_selected start
Reach-IsLinked_example = Reach-IsLinked 1 (codes "w") (codes "Work") given 7 filled reached

start-IsLinked : IsLinked start
unfolding workspace_selected start
start-IsLinked = Reach-IsLinked 1 (codes "w") (codes "Work") given 7 start begun

upsert_home_key-IsFileAt_example :
    IsLinked (upsert_home_key 1 key 3 8 start).0
    × IsFileAt key 3 (upsert_home_key 1 key 3 8 start).0
unfolding canvas_fuse.Tree.Links.at start workspace_selected canvas_fuse.Tree.insert_node
    canvas_fuse.Prelude.set canvas_fuse.Tree.home_root_ino canvas_fuse.Paths.rsplit_once
    trim_slashes canvas_fuse.Tree.lookup canvas_fuse.Tree.Home.ensure_home_dirs
    canvas_fuse.Tree.Home.ensure_from canvas_fuse.Tree.Home.segments canvas_fuse.Prelude.retain
    canvas_fuse.Tree.Home.ensure_at canvas_fuse.Prelude.Table.lookup canvas_fuse.Tree.add_node
upsert_home_key-IsFileAt_example =
    upsert_home_key-IsFileAt 1 key 3 8 start start-IsLinked root_there has_name no_dir room

abbrev route : List Text
route = codes "Home" ∷ codes "Docs" ∷ []

path_of_iff_walk_example : (path_of 16 filled ≡ some route) ↔ (walk route 1 filled ≡ some 16)
unfolding workspace_selected start
path_of_iff_walk_example =
    path_of_iff_walk 16 route filled
      (Reach-IsLinked 1 (codes "w") (codes "Work") given 7 filled reached) (omega arith)

abbrev note : ℕ → Text → Bool → RenderedDoc
note id name here = record {
  id = id;
  linked_here = here;
  updated_at = 5;
  checksum = none;
  json = [];
  rendered = record { dir = codes "Notes"; base_name = name; content = inline_bytes (id ∷ []) };
}

abbrev notes : List RenderedDoc
notes = note 1 (codes "a.md") false ∷ note 2 (codes "a.md") true ∷ []

abbrev no_names : NameStore
no_names = record { filenames = []; reads = λ k. true; writes = λ k. true }

abbrev scope : Scope
scope = record { ctx_id = codes "c"; workspace_id = none; name_key = [] }

-- The document that is filed here comes first and has the plain name.
names_of_notes :
    map (λ e. e.0) (name_documents scope notes no_names).desired
    ≡ codes "a.md" ∷ codes "a_1.md" ∷ []
unfolding name_documents by_placement insert_placed placed_before place_docs place_doc chosen_name
    pick_name suffixed_name with_id_suffix decimal digits rsplit_once get_name put_name name_key
    key_in put_sorted doc_content contains Table.lookup insert text_beq text_leb
names_of_notes = refl

-- A document whose name is that of another with its number is lost.
lost_note :
    map
      (λ e. e.1.doc_id)
      (name_documents scope
        (note 1 (codes "a_3.md") true
          ∷ note 2 (codes "a.md") true
          ∷ note 3 (codes "a.md") true
          ∷ [])
        no_names).desired
    ≡ 2 ∷ 3 ∷ []
unfolding name_documents by_placement insert_placed placed_before place_docs place_doc chosen_name
    pick_name suffixed_name with_id_suffix decimal digits rsplit_once get_name put_name name_key
    key_in put_sorted doc_content contains Table.lookup insert text_beq text_leb
lost_note = refl

apart : Apart (by_placement notes)
unfolding name_documents by_placement insert_placed placed_before place_docs place_doc chosen_name
    pick_name suffixed_name with_id_suffix decimal digits rsplit_once get_name put_name name_key
    key_in put_sorted doc_content contains Table.lookup insert text_beq text_leb
apart = (((refl, refl), tt), (tt, tt))

only_child : (b : Bool) (c : ℕ) → (if b then some 17 else none) ≡ some c → c ≡ 17
only_child true c h = ground (arith, h)
only_child false c h = ground (arith, h)

doc_dir : IsDocDir 16 filled
unfolding start workspace_selected insert_node set home_root_ino rsplit_once trim_slashes lookup
    ensure_home_dirs ensure_from segments retain ensure_at Table.lookup add_node push_char split
    insert remove text_beq trim_end trim_start bare includes_home insert_sorted is_explicit root_dir
    single_tree sort_dedup text_leb entry link touch_dir at upsert_home_key upsert_at
doc_dir = record {
  folder = refl;
  files = λ n i h ours.
      subst (λ k. is_folder_place (at k filled) ≡ false)
        (sym (only_child (text_beq (codes "a.md") n) i h)) refl;
}

follow-Shows_example :
    (let desired = (name_documents scope notes no_names).desired in
      All (IsShown scope desired) notes
      × (length desired ≡ length notes)
      × ((n : Text)
          → is_doc_name n ≡ true
          → Shows 16 desired n
              (reconcile_doc_dir 16 scope.ctx_id desired (filled, no_change)).tree))
unfolding start workspace_selected insert_node set home_root_ino rsplit_once trim_slashes lookup
    ensure_home_dirs ensure_from segments retain ensure_at Table.lookup add_node push_char split
    insert remove text_beq trim_end trim_start bare includes_home insert_sorted is_explicit root_dir
    single_tree sort_dedup text_leb entry link touch_dir at upsert_home_key upsert_at
follow-Shows_example =
    follow-Shows 16 scope notes no_names filled no_change doc_dir apart refl (omega arith)
      (Reach-IsLinked 1 (codes "w") (codes "Work") given 7 filled reached)
