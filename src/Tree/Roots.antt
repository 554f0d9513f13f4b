-- ===== src/Tree/Roots.antt =====
-- The tree of a new mount (src/state.rs), and what a workspace mount selects (src/lib.rs).
use canvas_fuse.Prelude.{
  ℕ, ◌≡◌, Bool, true, false, ◌&&◌, ◌||◌, not, none, some, List, [], ◌∷◌, Text, text_eq, ◌==◌,
  nat_beq, nat_beq_iff, ltb, codes, any, is_nil, length, arith, if◌then◌else◌,
}
use canvas_fuse.Tree.{
  Content, is_folder, dir, home_dir, Node, WorkspaceSelection, Tree, root_ino, home_ino,
  first_dynamic_ino, entry, insert_node,
}
use canvas_fuse.Tree.Links.{at, at-insert_node, entry-insert_node, next-insert_node}
use canvas_fuse.Tree.Linked.{IsLinked, insert_node-IsLinked}

unfoldable pub is_explicit : WorkspaceSelection → Bool
is_explicit s = s.home || not (is_nil s.trees)

unfoldable pub includes_home : WorkspaceSelection → Bool
unfolding is_explicit
includes_home s = not (is_explicit s) || s.home

unfoldable pub includes_tree : WorkspaceSelection → Text → Bool
unfolding is_explicit
includes_tree s name =
    if is_explicit s
    then any (λ t. t == name) s.trees
    else not (name == codes "backends") || s.include_backends

unfoldable pub single_tree : WorkspaceSelection → Bool
single_tree s = not s.home && nat_beq (length s.trees) 1

-- The order of strings: that of their code points.
unfoldable pub text_leb : Text → Text → Bool
text_leb [] t = true
text_leb (a ∷ s) [] = false
text_leb (a ∷ s) (b ∷ t) = ltb a b || (nat_beq a b && text_leb s t)

-- `sort` and `dedup`.
unfoldable pub insert_sorted : Text → List Text → List Text
unfolding text_leb
insert_sorted x [] = x ∷ []
insert_sorted x (y ∷ ys) =
    let rest = insert_sorted x ys in
    if x == y then y ∷ ys else if text_leb x y then x ∷ y ∷ ys else y ∷ rest

unfoldable pub sort_dedup : List Text → List Text
unfolding insert_sorted
sort_dedup [] = []
sort_dedup (x ∷ xs) = insert_sorted x (sort_dedup xs)

abbrev pub trees_ino : ℕ
trees_ino = 3

abbrev pub trash_ino : ℕ
trash_ino = 4

abbrev no_nodes : ℕ → Tree
no_nodes now = record {
  nodes = λ ino. none;
  children = λ ino. none;
  next_ino = first_dynamic_ino;
  doc_inos = [];
  tombstones = λ ino. false;
  defer_removals = false;
  ws = none;
  home_mirrored = false;
  now = now;
}

unfoldable pub bare : ℕ → Tree
bare now =
    insert_node
      (record { ino = root_ino; parent = root_ino; name = []; mtime = now; content = dir })
      (no_nodes now)

-- A directory below the root, unless it is not shown.
unfoldable pub root_dir : Bool → ℕ → Text → Content → Tree → Tree
root_dir false ino name content t = t
root_dir true ino name content t =
    insert_node
      (record { ino = ino; parent = root_ino; name = name; mtime = t.now; content = content }) t

unfoldable pub workspace_selected : Text → Text → WorkspaceSelection → ℕ → Tree
unfolding is_explicit includes_home single_tree sort_dedup bare root_dir
workspace_selected ws_id ws_name given now =
    let s : WorkspaceSelection = record given { trees = sort_dedup given.trees } in
    let t1 =
      root_dir (not (is_explicit s) || (not (is_nil s.trees) && not (single_tree s))) trees_ino
        (codes "Trees") dir (bare now) in
    let t2 = root_dir (not (is_explicit s)) trash_ino (codes "Trash") dir t1 in
    let home_only = s.home && is_nil s.trees in
    let t3 =
      root_dir (includes_home s) (if home_only then root_ino else home_ino)
        (if home_only then [] else codes "Home") (home_dir (codes "/") false) t2 in
    record t3 {
      ws = some (record {
        ws_id = ws_id;
        ws_name = ws_name;
        selection = s;
        trees = [];
        path_inos = [];
        file_docs = λ ino. none;
      });
    }

pub at-bare :
    (i now : ℕ)
    → at i (bare now) ≡ (
        if nat_beq i root_ino
        then some (record { number = root_ino; parent = root_ino; name = []; content = dir })
        else none)
unfolding bare at
at-bare i now =
    at-insert_node i
      (record { ino = root_ino; parent = root_ino; name = []; mtime = now; content = dir })
      (no_nodes now)

pub entry-bare : (p now : ℕ) (n : Text) → entry p n (bare now) ≡ none
unfolding bare entry
entry-bare p now n =
    entry-insert_node p n
      (record { ino = root_ino; parent = root_ino; name = []; mtime = now; content = dir })
      (no_nodes now)

pub next-bare : (now : ℕ) → (bare now).next_ino ≡ first_dynamic_ino
unfolding bare
next-bare now =
    next-insert_node
      (record { ino = root_ino; parent = root_ino; name = []; mtime = now; content = dir })
      (no_nodes now)

pub bare-IsLinked : (now : ℕ) → IsLinked (bare now)
bare-IsLinked now = record {
  named = λ p i n h. ground (arith, h, entry-bare p now n);
  below = λ p i n h. ground (arith, h, entry-bare p now n);
  found = λ i y h nr. ground (arith, h, nr, at-bare i now);
  numbered = λ i y h. ground (arith, h, at-bare i now);
  within = λ i y h. ground (arith, h, at-bare i now, at-bare y.parent now);
  fresh = λ i le lt. ground (arith, le, at-bare i now, next-bare now);
  started = omega (arith, next-bare now);
  rooted = ground (arith, at-bare root_ino now);
  top = λ y h. ground (arith, h, at-bare root_ino now);
}

-- A number and a name at the root that are not in use.
pub record IsNew (ino : ℕ) (name : Text) (t : Tree) : Type 0 where
  pub free : at ino t ≡ none
  pub unnamed : entry root_ino name t ≡ none
  pub low : ltb ino t.next_ino ≡ true

pub root_dir-IsNew :
    (shown : Bool) (ino j : ℕ) (name m : Text) (content : Content) (t : Tree)
    → nat_beq j ino ≡ false
    → (name == m) ≡ false
    → IsNew j m t
    → IsNew j m (root_dir shown ino name content t)
unfolding root_dir
root_dir-IsNew false ino j name m content t other differ new_ = new_
root_dir-IsNew true ino j name m content t other differ new_ =
    let x : Node = record {
      ino = ino;
      parent = root_ino;
      name = name;
      mtime = t.now;
      content = content;
    } in
    record {
      free = ground (arith, at-insert_node j x t, other, new_.free);
      unnamed = ground (arith, entry-insert_node root_ino m x t, differ, new_.unnamed);
      low = ground (arith, next-insert_node x t, new_.low);
    }

pub root_dir-IsLinked :
    (shown : Bool) (ino : ℕ) (name : Text) (content : Content) (t : Tree)
    → nat_beq ino root_ino ≡ false
    → IsNew ino name t
    → IsLinked t
    → IsLinked (root_dir shown ino name content t)
unfolding root_dir
root_dir-IsLinked false ino name content t other new_ o = o
root_dir-IsLinked true ino name content t other new_ o =
    insert_node-IsLinked
      (record { ino = ino; parent = root_ino; name = name; mtime = t.now; content = content }) t
      new_.free other o.rooted new_.unnamed (ground (arith, new_.low)) o

-- The root becomes another directory.
pub root_home-IsLinked :
    (shown : Bool) (name : Text) (content : Content) (t : Tree)
    → is_folder content ≡ true
    → IsLinked t
    → IsLinked (root_dir shown root_ino name content t)
unfolding root_dir
root_home-IsLinked false name content t folder o = o
root_home-IsLinked true name content t folder o =
    let x : Node = record {
      ino = root_ino;
      parent = root_ino;
      name = name;
      mtime = t.now;
      content = content;
    } in
    record {
      named = λ p i n h.
          ground (
            arith,
            entry-insert_node p n x t,
            at-insert_node i x t,
            h,
            o.named p i n,
            o.below p i n,
          );
      below = λ p i n h. ground (arith, entry-insert_node p n x t, h, o.below p i n);
      found = λ i y h nr.
          ground (
            arith,
            entry-insert_node y.parent y.name x t,
            at-insert_node i x t,
            h,
            nr,
            o.found i y,
          );
      numbered =
          λ i y h. ground (arith, at-insert_node i x t, h, o.numbered i y, nat_beq_iff i root_ino);
      within = λ i y h.
          ground
            (arith, at-insert_node i x t, at-insert_node y.parent x t, h, o.within i y, folder);
      fresh = λ i le lt.
          ground (arith, at-insert_node i x t, next-insert_node x t, le, lt, o.fresh i, o.started);
      started = ground (arith, next-insert_node x t, o.started);
      rooted = ground (arith, at-insert_node root_ino x t, folder);
      top = λ y h. ground (arith, at-insert_node root_ino x t, h);
    }
