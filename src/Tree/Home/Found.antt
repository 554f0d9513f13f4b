-- ===== src/Tree/Home/Found.antt =====
-- A file that was put at a key is found there (src/state.rs).
use canvas_fuse.Prelude.{
  ℕ, ◌+◌, ◌≡◌, ◌<◌, refl, sym, subst, ap, ◌∙◌, true, false, some, List, [], ◌∷◌, ◌++◌, Text,
  text_eq, is_empty, length, arith, Option-cases, inl, inr,
}
use canvas_fuse.Paths.{slash}
use canvas_fuse.Writes.{first_overlay_ino}
use canvas_fuse.Tree.{home_file, no_change, Tree, lookup, home_root_ino, home_root_of}
use canvas_fuse.Tree.Links.{Place, at}
use canvas_fuse.Tree.Linked.{IsLinked, is_at-some, is_folder_place}
use canvas_fuse.Tree.Home.{
  segments, trim_slashes, split_key, walk, home_ino_for_key, home_file_of, file_in, ensure_from,
  ensure_home_dirs, upsert_at, upsert_home_key,
}
use canvas_fuse.Tree.Home.Keys.{segments-split_key, walk-append}
use canvas_fuse.Tree.Home.Walk.{lookup-found, Keeps}
use canvas_fuse.Tree.Home.Ensure.{walk-entry, IsWay, ensure_from-IsWay}
use canvas_fuse.Tree.Home.Upsert.{IsPut, is_folder_node, upsert_at-IsPut}

-- Where a way leads to a directory, it begins at one.
walk-folder :
    (segs : List Text) (i c : ℕ) (t : Tree)
    → IsLinked t
    → walk segs i t ≡ some c
    → is_folder_place (at c t) ≡ true
    → is_folder_place (at i t) ≡ true
unfolding walk
walk-folder [] i c t o h folder =
    subst (λ k. is_folder_place (at k t) ≡ true) (ground (arith, h)) folder
walk-folder (seg ∷ segs) i c t o h folder = elim (Option-cases (lookup i seg t)) [
  | inl eq ↦ ground (arith, eq, h)
  | inr (x, eq) ↦
      let here = lookup-found i seg x t o eq in
      let up = is_at-some i seg (at x.ino t) (o.named i x.ino seg here.0) in
      subst (λ k. is_folder_place (at k t) ≡ true) up.2 (o.within x.ino up.0 up.1)
]

walk-Keeps :
    (segs : List Text) (m i c : ℕ) (t t' : Tree)
    → IsLinked t
    → Keeps m t t'
    → walk segs i t ≡ some c
    → is_folder_place (at c t) ≡ true
    → walk segs i t' ≡ some c
unfolding walk
walk-Keeps [] m i c t t' o k h folder = h
walk-Keeps (seg ∷ segs) m i c t t' o k h folder = elim (Option-cases (lookup i seg t)) [
  | inl eq ↦ ground (arith, eq, h)
  | inr (x, eq) ↦
      let here = lookup-found i seg x t o eq in
      let rest : walk segs x.ino t ≡ some c = ground (arith, eq, h) in
      walk-entry i x.ino seg segs t' k.linked
        (k.names i x.ino seg here.0 (walk-folder segs x.ino c t o rest folder))
      ∙ walk-Keeps segs m x.ino c t t' o k rest folder
]

-- The file of a key is found at the key, with its path and size.
pub record IsFileAt (key : Text) (size : ℕ) (t : Tree) : Type 0 where
  pub ino : ℕ
  pub found : home_ino_for_key key t ≡ some ino
  pub file : home_file_of ino t ≡ some (slash ∷ key, size)

home_file_of-at :
    (i : ℕ) (x : Place) (path : Text) (size : ℕ) (t : Tree)
    → at i t ≡ some x
    → x.content ≡ home_file path size
    → home_file_of i t ≡ some (path, size)
unfolding at home_file_of
home_file_of-at i x path size t here same = elim (Option-cases (t.nodes i)) [
  | inl eq ↦ ground (arith, eq, here)
  | inr (y, eq) ↦
      let content_ : y.content ≡ home_file path size = ground (arith, eq, here, same) in
      rw (home_file_of, eq) (ap file_in content_)
]

goes_on :
    (levels : ℕ) (raw : Text) (size mtime : ℕ) (t : Tree)
    → is_empty (split_key (trim_slashes raw)).1 ≡ false
    → (let key = trim_slashes raw in
        let done = ensure_home_dirs (split_key key).0 (t, no_change) in
        (upsert_home_key levels raw size mtime t).0
        ≡ (upsert_at levels
            (lookup done.0 (split_key key).1 done.1)
            done.0
            (split_key key).1
            (home_file (slash ∷ key) size)
            mtime
            (done.1, done.2)).0)
unfolding upsert_home_key
goes_on levels raw size mtime t has_name = rw has_name refl

root-ws : (t t' : Tree) → t'.ws ≡ t.ws → home_root_ino t' ≡ home_root_ino t
unfolding home_root_ino
root-ws t t' same = ap home_root_of same

found_at :
    (key : Text) (i r : ℕ) (t : Tree)
    → is_empty (split_key key).1 ≡ false
    → home_root_ino t ≡ r
    → walk (segments (split_key key).0 ++ ((split_key key).1 ∷ [])) r t ≡ some i
    → home_ino_for_key key t ≡ some i
unfolding home_ino_for_key
found_at key i r t has_name root way = rw (segments-split_key key has_name, root) way

-- After a file was put at a key, it is found at the key, with that path and size, and the tree is in order, if
-- it was before, the drive is a directory, the key has a last segment, no directory stands there once
-- those above are there, and the numbers suffice.
pub upsert_home_key-IsFileAt :
    (levels : ℕ) (raw : Text) (size mtime : ℕ) (t : Tree)
    → IsLinked t
    → is_folder_place (at (home_root_ino t) t) ≡ true
    → is_empty (split_key (trim_slashes raw)).1 ≡ false
    → (let done = ensure_home_dirs (split_key (trim_slashes raw)).0 (t, no_change) in
        is_folder_node (lookup done.0 (split_key (trim_slashes raw)).1 done.1) ≡ false)
    → t.next_ino + length (segments (split_key (trim_slashes raw)).0) < first_overlay_ino
    → IsLinked (upsert_home_key levels raw size mtime t).0
      × IsFileAt (trim_slashes raw) size (upsert_home_key levels raw size mtime t).0
unfolding ensure_home_dirs ensure_from walk
upsert_home_key-IsFileAt levels raw size mtime t o root has_name no_dir room =
    let key = trim_slashes raw in
    let name = (split_key key).1 in
    let segs = segments (split_key key).0 in
    let done = ensure_home_dirs (split_key key).0 (t, no_change) in
    let content = home_file (slash ∷ key) size in
    let after =
      (upsert_at levels (lookup done.0 name done.1) done.0 name content mtime (done.1, done.2)).0 in
    let goes : (upsert_home_key levels raw size mtime t).0 ≡ after =
      goes_on levels raw size mtime t has_name in
    let way : IsWay segs (home_root_ino t) t done.0 done.1 =
      ensure_from-IsWay segs (home_root_ino t) [] (t, no_change) o root (omega (arith, room)) in
    let put : IsPut done.0 name content done.1 after =
      upsert_at-IsPut levels (lookup done.0 name done.1) done.0 name (slash ∷ key) size mtime done.1
        done.2 refl no_dir way.keeps.linked way.folder (omega (arith, room, way.keeps.rest)) in
    let root_same : home_root_ino after ≡ home_root_ino t =
      root-ws t after (put.keeps.ws_same ∙ way.keeps.ws_same) in
    let there : walk (segs ++ (name ∷ [])) (home_root_ino t) after ≡ some put.ino =
      walk-append segs name (home_root_ino t) done.0 after (
        walk-Keeps segs 1 (home_root_ino t) done.0 done.1 after way.keeps.linked put.keeps way.way
          way.folder)
      ∙ walk-entry done.0 put.ino name [] after put.keeps.linked put.there in
    subst (λ u. IsLinked u × IsFileAt key size u) (sym goes)
      (
        put.keeps.linked,
        record {
          ino = put.ino;
          found = found_at key put.ino (home_root_ino t) after has_name root_same there;
          file = home_file_of-at put.ino put.place (slash ∷ key) size after put.holds put.same;
        },
      )
