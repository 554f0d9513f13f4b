-- ===== src/Tree/Moved.antt =====
-- A node that moves to a directory or a name (src/state.rs, `move_entry`).
use canvas_fuse.Prelude.{
  ℕ, ◌≡◌, subst, ◌∙◌, true, false, ◌&&◌, none, some, Text, text_eq, ◌==◌, nat_beq, nat_beq_iff,
  text_beq_iff, text_beq_refl, set, arith, Option-cases, inl, inr, if◌then◌else◌,
}
use canvas_fuse.Tree.{Tree, root_ino, unlisted, entry}
use canvas_fuse.Tree.Links.{Place, place_of, at, named-listed, named-unlisted}
use canvas_fuse.Tree.Linked.{IsLinked, is_folder_place}
use canvas_fuse.Tree.Home.Moves.{move_entry}

at-move_entry :
    (i ino p : ℕ) (name : Text) (x : Place) (t : Tree)
    → at ino t ≡ some x
    → at i (move_entry ino p name t)
      ≡ (if nat_beq i ino then some (record x { parent = p; name = name }) else at i t)
unfolding move_entry at set
at-move_entry i ino p name x t there = elim (Option-cases (t.nodes ino)) [
  | inl eq ↦ ground (arith, eq, there)
  | inr (y, eq) ↦
      let same : place_of y ≡ x = cc (eq, there) in
      subst
        (λ z.
          at i (move_entry ino p name t)
          ≡ (if nat_beq i ino then some (record z { parent = p; name = name }) else at i t))
        same (rw (move_entry, eq) (ground arith))
]

entry-move_entry :
    (q ino p : ℕ) (n name : Text) (x : Place) (t : Tree)
    → at ino t ≡ some x
    → entry q n (move_entry ino p name t) ≡ (
        if nat_beq q p && (name == n)
        then some ino
        else if nat_beq q x.parent && (x.name == n)
        then none
        else entry q n t)
unfolding move_entry at entry
entry-move_entry q ino p n name x t there = elim (Option-cases (t.nodes ino)) [
  | inl eq ↦ ground (arith, eq, there)
  | inr (y, eq) ↦
      let parent : y.parent ≡ x.parent = ground (arith, eq, there) in
      let old : y.name ≡ x.name = ground (arith, eq, there) in
      rw (move_entry, eq)
        (named-listed p ino q name n (unlisted y.parent y.name t.children)
          ∙ ground (arith, named-unlisted y.parent q y.name n t.children, parent, old))
]

next-move_entry :
    (ino p : ℕ) (name : Text) (t : Tree) → (move_entry ino p name t).next_ino ≡ t.next_ino
unfolding move_entry
next-move_entry ino p name t = ground arith

-- A node that moves to a directory, under a name that is free there or its own.
pub move_entry-IsLinked :
    (ino p : ℕ) (name : Text) (x : Place) (t : Tree)
    → at ino t ≡ some x
    → nat_beq ino root_ino ≡ false
    → is_folder_place (at p t) ≡ true
    → ((i : ℕ) → entry p name t ≡ some i → i ≡ ino)
    → IsLinked t
    → IsLinked (move_entry ino p name t)
move_entry-IsLinked ino p name x t there other folder free o = record {
  named = λ q i n h. ground (
    arith,
    entry-move_entry q ino p n name x t there,
    at-move_entry i ino p name x t there,
    h,
    o.named q i n,
    there,
    nat_beq_iff i ino,
    nat_beq_iff q p,
    text_beq_iff name n,
    nat_beq_iff x.parent q,
    nat_beq_iff q x.parent,
    text_beq_iff x.name n,
    text_beq_refl n,
  );
  below =
      λ q i n h. ground (arith, entry-move_entry q ino p n name x t there, h, o.below q i n, other);
  found = λ i y h nr. ground (
    arith,
    entry-move_entry y.parent ino p y.name name x t there,
    at-move_entry i ino p name x t there,
    h,
    nr,
    o.found i y,
    o.found ino x there other,
    free i,
    nat_beq_iff i ino,
    nat_beq_iff y.parent p,
    text_beq_iff name y.name,
    text_beq_refl name,
    nat_beq_iff y.parent x.parent,
    text_beq_iff x.name y.name,
  );
  numbered = λ i y h. ground (
    arith,
    at-move_entry i ino p name x t there,
    h,
    o.numbered i y,
    o.numbered ino x there,
    nat_beq_iff i ino,
  );
  within = λ i y h. ground (
    arith,
    at-move_entry i ino p name x t there,
    at-move_entry y.parent ino p name x t there,
    h,
    o.within i y,
    folder,
    there,
    nat_beq_iff y.parent ino,
    nat_beq_iff i ino,
  );
  fresh = λ i le lt. ground (
    arith,
    at-move_entry i ino p name x t there,
    next-move_entry ino p name t,
    le,
    o.fresh i,
    lt,
    there,
    nat_beq_iff i ino,
  );
  started = ground (arith, next-move_entry ino p name t, o.started);
  rooted = ground (
    arith,
    at-move_entry root_ino ino p name x t there,
    o.rooted,
    other,
    nat_beq_iff root_ino ino,
    nat_beq_iff ino root_ino,
  );
  top = λ y h. ground (
    arith,
    at-move_entry root_ino ino p name x t there,
    h,
    o.top y,
    other,
    nat_beq_iff root_ino ino,
    nat_beq_iff ino root_ino,
  );
}
