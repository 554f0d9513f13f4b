-- ===== src/Tree/Linked.antt =====
-- The nodes of the tree and the names of its directories agree (src/state.rs).
use canvas_fuse.Prelude.{
  ℕ, ◌+◌, ◌≡◌, ◌≤◌, ◌<◌, refl, sym, subst, ◌∙◌, Bool, true, false, ◌&&◌, ◌||◌, not, Option, none,
  some, Text, text_eq, ◌==◌, nat_beq, ltb, leb, nat_beq_iff, text_beq_iff, text_beq_refl, arith,
  Option-cases, inl, inr, if◌then◌else◌,
}
use canvas_fuse.Writes.{first_overlay_ino}
use canvas_fuse.Tree.{
  Content, is_folder, Node, Tree, root_ino, first_dynamic_ino, entry, insert_node, remove_node,
  add_node,
}
use canvas_fuse.Tree.Links.{
  Place, at, at-insert_node, entry-insert_node, next-insert_node, at-remove_node, entry-remove_node,
  next-remove_node,
}

-- The node stands in this directory under this name.
abbrev pub is_at : ℕ → Text → Option Place → Bool
is_at p n none = false
is_at p n (some x) = nat_beq x.parent p && (x.name == n)

abbrev pub is_folder_place : Option Place → Bool
is_folder_place none = false
is_folder_place (some x) = is_folder x.content

abbrev pub is_file_place : Option Place → Bool
is_file_place none = false
is_file_place (some x) = not (is_folder x.content)

-- Names lead to the nodes that bear them, each node but the root has its name in its directory, directories
-- are there, and the numbers to come, below those of pending creates, are free.
pub record IsLinked (t : Tree) : Type 0 where
  pub named : (p i : ℕ) (n : Text) → entry p n t ≡ some i → is_at p n (at i t) ≡ true
  pub below : (p i : ℕ) (n : Text) → entry p n t ≡ some i → nat_beq i root_ino ≡ false
  pub found :
      (i : ℕ) (x : Place)
      → at i t ≡ some x
      → nat_beq i root_ino ≡ false
      → entry x.parent x.name t ≡ some i
  pub numbered : (i : ℕ) (x : Place) → at i t ≡ some x → x.number ≡ i
  pub within : (i : ℕ) (x : Place) → at i t ≡ some x → is_folder_place (at x.parent t) ≡ true
  pub fresh : (i : ℕ) → t.next_ino ≤ i → i < first_overlay_ino → at i t ≡ none
  pub started : first_dynamic_ino ≤ t.next_ino
  pub rooted : is_folder_place (at root_ino t) ≡ true
  pub top : (x : Place) → at root_ino t ≡ some x → x.parent ≡ root_ino

pub is_at-some :
    (p : ℕ) (n : Text) (o : Option Place)
    → is_at p n o ≡ true
    → (x : Place) × (o ≡ some x) × (x.parent ≡ p) × (x.name ≡ n)
is_at-some p n none h = ground (arith, h)
is_at-some p n (some x) h =
    (x, refl, ground (arith, h, nat_beq_iff x.parent p), ground (arith, h, text_beq_iff x.name n))

pub insert_node-IsLinked :
    (x : Node) (t : Tree)
    → at x.ino t ≡ none
    → nat_beq x.ino root_ino ≡ false
    → is_folder_place (at x.parent t) ≡ true
    → entry x.parent x.name t ≡ none
    → (ltb x.ino t.next_ino || leb first_overlay_ino x.ino) ≡ true
    → IsLinked t
    → IsLinked (insert_node x t)
insert_node-IsLinked x t free other folder unnamed low o = record {
  named = λ p i n h. ground (
    arith,
    at-insert_node i x t,
    entry-insert_node p n x t,
    h,
    o.named p i n,
    other,
    free,
    text_beq_iff x.name n,
    text_beq_refl n,
  );
  below = λ p i n h. ground (arith, entry-insert_node p n x t, h, o.below p i n, other);
  found = λ i y h nr. ground (
    arith,
    at-insert_node i x t,
    entry-insert_node y.parent y.name x t,
    h,
    nr,
    o.found i y,
    other,
    unnamed,
    text_beq_iff x.name y.name,
    text_beq_refl x.name,
  );
  numbered = λ i y h. ground (arith, at-insert_node i x t, h, o.numbered i y);
  within = λ i y h.
      ground
        (arith, at-insert_node i x t, at-insert_node y.parent x t, h, o.within i y, folder, free);
  fresh =
      λ i le lt. ground (arith, at-insert_node i x t, next-insert_node x t, le, lt, o.fresh i, low);
  started = ground (arith, next-insert_node x t, o.started);
  rooted = ground (arith, at-insert_node root_ino x t, o.rooted, free, other);
  top = λ y h. ground (arith, at-insert_node root_ino x t, h, o.top y, other);
}

-- A new node of the next number.
pub add_node-IsLinked :
    (parent mtime : ℕ) (name : Text) (content : Content) (t : Tree)
    → is_folder_place (at parent t) ≡ true
    → entry parent name t ≡ none
    → t.next_ino < first_overlay_ino
    → IsLinked t
    → IsLinked (add_node parent name mtime content t).1
unfolding add_node at entry
add_node-IsLinked parent mtime name content t folder unnamed room o =
    let x : Node = record {
      ino = t.next_ino;
      parent = parent;
      name = name;
      mtime = mtime;
      content = content;
    } in
    let t' : Tree = record t { next_ino = t.next_ino + 1 } in
    let free : at t.next_ino t ≡ none = o.fresh t.next_ino (omega arith) room in
    insert_node-IsLinked x t' free (ground (arith, o.started)) folder unnamed (ground arith)
      (record {
        named = o.named;
        below = o.below;
        found = o.found;
        numbered = o.numbered;
        within = o.within;
        fresh = λ i le lt. o.fresh i (omega (arith, le)) lt;
        started = omega (arith, o.started);
        rooted = o.rooted;
        top = o.top;
      })

pub remove_node-absent : (ino : ℕ) (t : Tree) → at ino t ≡ none → (remove_node ino t).1 ≡ t
unfolding remove_node at
remove_node-absent ino t gone = elim (Option-cases (t.nodes ino)) [
  | inl eq ↦ rw (remove_node, eq) refl
  | inr (x, eq) ↦ ground (arith, eq, gone)
]

remove_node-there :
    (ino : ℕ) (x : Place) (t : Tree)
    → at ino t ≡ some x
    → nat_beq ino root_ino ≡ false
    → ((n : Text) → entry ino n t ≡ none)
    → IsLinked t
    → IsLinked (remove_node ino t).1
remove_node-there ino x t there other leaf o = record {
  named = λ p i n h. ground (
    arith,
    at-remove_node i ino t,
    entry-remove_node p ino n x t there,
    h,
    o.named p i n,
    there,
    text_beq_iff x.name n,
  );
  below = λ p i n h. ground (arith, entry-remove_node p ino n x t there, h, o.below p i n);
  found = λ i y h nr. ground (
    arith,
    at-remove_node i ino t,
    entry-remove_node y.parent ino y.name x t there,
    h,
    nr,
    o.found i y,
    o.found ino x there other,
    leaf y.name,
    text_beq_iff x.name y.name,
  );
  numbered = λ i y h. ground (arith, at-remove_node i ino t, h, o.numbered i y);
  within = λ i y h. ground (
    arith,
    at-remove_node i ino t,
    at-remove_node y.parent ino t,
    h,
    o.within i y,
    o.found i y,
    o.top y,
    nat_beq_iff i root_ino,
    leaf y.name,
    other,
  );
  fresh =
      λ i le lt. ground (arith, at-remove_node i ino t, next-remove_node ino t, le, lt, o.fresh i);
  started = ground (arith, next-remove_node ino t, o.started);
  rooted = ground (arith, at-remove_node root_ino ino t, o.rooted, other);
  top = λ y h. ground (arith, at-remove_node root_ino ino t, h, o.top y, other);
}

pub remove_node-IsLinked :
    (ino : ℕ) (t : Tree)
    → nat_beq ino root_ino ≡ false
    → ((n : Text) → entry ino n t ≡ none)
    → IsLinked t
    → IsLinked (remove_node ino t).1
remove_node-IsLinked ino t other leaf o = elim (Option-cases (at ino t)) [
  | inl gone ↦ subst (λ u. IsLinked u) (sym (remove_node-absent ino t gone)) o
  | inr (x, there) ↦ remove_node-there ino x t there other leaf o
]

pub at-add_node :
    (i parent mtime : ℕ) (name : Text) (content : Content) (t : Tree)
    → at i (add_node parent name mtime content t).1 ≡ (
        if nat_beq i t.next_ino
        then some (record { number = t.next_ino; parent = parent; name = name; content = content })
        else at i t)
unfolding add_node at
at-add_node i parent mtime name content t =
    at-insert_node i
      (record { ino = t.next_ino; parent = parent; name = name; mtime = mtime; content = content })
      (record t { next_ino = t.next_ino + 1 })

pub entry-add_node :
    (p parent mtime : ℕ) (n name : Text) (content : Content) (t : Tree)
    → nat_beq t.next_ino root_ino ≡ false
    → entry p n (add_node parent name mtime content t).1
      ≡ (if nat_beq p parent && (name == n) then some t.next_ino else entry p n t)
unfolding add_node entry
entry-add_node p parent mtime n name content t other =
    let x : Node = record {
      ino = t.next_ino;
      parent = parent;
      name = name;
      mtime = mtime;
      content = content;
    } in
    entry-insert_node p n x (record t { next_ino = t.next_ino + 1 }) ∙ ground (arith, other)
