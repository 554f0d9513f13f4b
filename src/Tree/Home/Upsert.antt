-- ===== src/Tree/Home/Upsert.antt =====
-- A name of a directory after a file was put there (src/state.rs).
use canvas_fuse.Prelude.{option_eq, nat_eq, option_beq_iff}
use canvas_fuse.Prelude.{
  ap, ℕ, ◌≡◌, ◌<◌, refl, Bool, true, false, ◌&&◌, Option, none, some, Text, text_eq, nat_beq, set,
  nat_beq_iff, text_beq_iff, text_beq_refl, arith, Bool-cases, inl, inr, if◌then◌else◌,
}
use canvas_fuse.Writes.{first_overlay_ino}
use canvas_fuse.Tree.{
  Content, dir, inline, home_dir, home_file, remote, is_folder, Node, is_dir, Invalidation, Tree,
  root_ino, entry, lookup,
}
use canvas_fuse.Tree.Links.{Place, place_of, at}
use canvas_fuse.Tree.Linked.{IsLinked, is_folder_place, at-add_node, entry-add_node}
use canvas_fuse.Tree.Alike.{renewed-IsLinked}
use canvas_fuse.Tree.Home.{content_beq, put_content, upsert_at}
use canvas_fuse.Tree.Home.Walk.{lookup-found, lookup-none, Keeps, Keeps-refl, add_node-Keeps}

-- Nodes with the same content.
pub content_beq-agrees : (c d : Content) → content_beq c d ≡ true → c ≡ d
unfolding content_beq
content_beq-agrees dir dir h = refl
content_beq-agrees (inline a) (inline b) h = ap (λ z. inline z) ((text_beq_iff a b).0 h)
content_beq-agrees (home_dir p l) (home_dir q m) h = ground (arith, h, text_beq_iff p q)
content_beq-agrees (home_file p n) (home_file q m) h =
    ground (arith, h, text_beq_iff p q, nat_beq_iff n m)
content_beq-agrees (remote w d n c) (remote v e m k) h =
    ground (arith, h, text_beq_iff w v, nat_beq_iff d e, option_beq_iff n m, option_beq_iff c k)
content_beq-agrees c d h = ground (arith, h)

at-put_content :
    (i : ℕ) (x : Node) (content : Content) (mtime : ℕ) (t : Tree)
    → at i (put_content x content mtime t) ≡ (
        if nat_beq i x.ino
        then some (record { number = x.ino; parent = x.parent; name = x.name; content = content })
        else at i t)
unfolding at put_content set
at-put_content i x content mtime t = ground arith

-- The content of a file changes, and nothing else.
put_content-Keeps :
    (x : Node) (content : Content) (mtime : ℕ) (t : Tree)
    → IsLinked t
    → at x.ino t ≡ some (place_of x)
    → is_dir x ≡ false
    → is_folder content ≡ false
    → Keeps 1 t (put_content x content mtime t)
unfolding entry put_content
put_content-Keeps x content mtime t o here file file' = record {
  linked =
      renewed-IsLinked x.ino content (put_content x content mtime t) t
        (record {
          nodes =
              λ i. ground (arith, at-put_content i x content mtime t, here, nat_beq_iff i x.ino);
          names = λ p n. refl;
          next = refl;
        })
        (λ y h. ground (arith, h, here, file, file')) o;
  folders =
      λ i h. ground (arith, at-put_content i x content mtime t, h, here, file, nat_beq_iff i x.ino);
  names = λ p i n h folder. h;
  rest = omega arith;
  ws_same = refl;
}

-- The file of that name is there with its content, and directories stay.
pub record IsPut (p : ℕ) (name : Text) (content : Content) (t t' : Tree) : Type 0 where
  pub ino : ℕ
  pub keeps : Keeps 1 t t'
  pub there : entry p name t' ≡ some ino
  pub place : Place
  pub holds : at ino t' ≡ some place
  pub same : place.content ≡ content

abbrev pub is_folder_node : Option Node → Bool
is_folder_node none = false
is_folder_node (some x) = is_dir x

pub upsert_at-IsPut :
    (levels : ℕ) (found : Option Node) (p : ℕ) (name path : Text) (size mtime : ℕ) (t : Tree)
    (inv : Invalidation)
    → lookup p name t ≡ found
    → is_folder_node found ≡ false
    → IsLinked t
    → is_folder_place (at p t) ≡ true
    → t.next_ino < first_overlay_ino
    → IsPut p name
        (home_file path size)
        t
        (upsert_at levels found p name (home_file path size) mtime (t, inv)).0
unfolding upsert_at entry
upsert_at-IsPut levels none p name path size mtime t inv h file o folder room =
    let content = home_file path size in
    let free = lookup-none p name t o h in
    let other : nat_beq t.next_ino root_ino ≡ false = ground (arith, o.started) in
    record {
      ino = t.next_ino;
      keeps = add_node-Keeps p mtime name content t o folder free room;
      there =
          ground (arith, entry-add_node p p mtime name name content t other, text_beq_refl name);
      place = record { number = t.next_ino; parent = p; name = name; content = content };
      holds = ground (arith, at-add_node t.next_ino p mtime name content t);
      same = refl;
    }
upsert_at-IsPut levels (some x) p name path size mtime t inv h file o folder room =
    let content = home_file path size in
    let here = lookup-found p name x t o h in
    elim (Bool-cases (content_beq x.content content && nat_beq x.mtime mtime)) [
      | inl equal ↦
          rw (file, equal)
            (record {
              ino = x.ino;
              keeps = Keeps-refl 1 t o;
              there = here.0;
              place = place_of x;
              holds = here.1;
              same = content_beq-agrees x.content content (ground (arith, equal));
            })
      | inr differs ↦
          rw (file, differs)
            (record {
              ino = x.ino;
              keeps = put_content-Keeps x content mtime t o here.1 file refl;
              there = here.0;
              place = record {
                number = x.ino;
                parent = x.parent;
                name = x.name;
                content = content;
              };
              holds = ground (arith, at-put_content x.ino x content mtime t);
              same = refl;
            })
    ]
