-- ===== src/Tree/Subtree.antt =====
-- The removal of all that is below a directory (src/state.rs).
use canvas_fuse.Prelude.{
  ℕ, zero, suc, ◌≡◌, refl, sym, subst, ◌∙◌, Bool, true, false, Option, none, some, List, [], ◌∷◌,
  Text, text_eq, ◌==◌, All, text_beq_iff, nat_beq, nat_beq_iff, is_some_and, get_or, arith,
  Bool-cases, Option-cases, inl, inr, if◌then◌else◌,
}
use canvas_fuse.Prelude.Table.{Table}
use canvas_fuse.Prelude.Table
use canvas_fuse.Tree.{
  Tree, Invalidation, root_ino, named, entry, shown, inos, remove_node, drop_child, remove_each,
  remove_subtree,
}
use canvas_fuse.Tree.Links.{Place, at, at-remove_node, entry-remove_node, next-remove_node}
use canvas_fuse.Tree.Linked.{IsLinked, remove_node-IsLinked, remove_node-absent}

-- All that is in the one tree is in the other.
pub record IsPart (t' t : Tree) : Type 0 where
  pub nodes_in : (i : ℕ) (x : Place) → at i t' ≡ some x → at i t ≡ some x
  pub names_in : (p i : ℕ) (n : Text) → entry p n t' ≡ some i → entry p n t ≡ some i
  pub next_same : t'.next_ino ≡ t.next_ino

pub IsPart-refl : (t : Tree) → IsPart t t
IsPart-refl t = record { nodes_in = λ i x h. h; names_in = λ p i n h. h; next_same = refl }

pub IsPart-trans : (a b c : Tree) → IsPart a b → IsPart b c → IsPart a c
IsPart-trans a b c f g = record {
  nodes_in = λ i x h. g.nodes_in i x (f.nodes_in i x h);
  names_in = λ p i n h. g.names_in p i n (f.names_in p i n h);
  next_same = f.next_same ∙ g.next_same;
}

pub remove_node-IsPart : (ino : ℕ) (t : Tree) → IsPart (remove_node ino t).1 t
remove_node-IsPart ino t = elim (Option-cases (at ino t)) [
  | inl gone ↦ subst (λ u. IsPart u t) (sym (remove_node-absent ino t gone)) (IsPart-refl t)
  | inr (x, there) ↦ record {
    nodes_in = λ i y h. ground (arith, at-remove_node i ino t, h);
    names_in = λ p i n h. ground (arith, entry-remove_node p ino n x t there, h);
    next_same = next-remove_node ino t;
  }
]

-- At most so many levels are below a node.
abbrev pub IsTall : ℕ → ℕ → Tree → Type 0
IsTall zero i t = (n : Text) → entry i n t ≡ none
IsTall (suc levels) i t = (n : Text) (c : ℕ) → entry i n t ≡ some c → IsTall levels c t

IsTall-part : (levels i : ℕ) (t' t : Tree) → IsPart t' t → IsTall levels i t → IsTall levels i t'
IsTall-part zero i t' t part tall = λ n. elim (Option-cases (entry i n t')) [
  | inl eq ↦ eq
  | inr (c, eq) ↦ ground (arith, tall n, part.names_in i c n eq)
]
IsTall-part (suc levels) i t' t part tall =
    λ n c h. IsTall-part levels c t' t part (tall n c (part.names_in i c n h))

-- A part of the tree in which nothing is below the node.
pub record IsCleared (i : ℕ) (t' t : Tree) : Type 0 where
  pub linked : IsLinked t'
  pub part : IsPart t' t
  pub bare : (n : Text) → entry i n t' ≡ none

drop_child-tree : (c : ℕ) (x : Tree × Invalidation) → (drop_child c x).0 ≡ (remove_node c x.0).1
unfolding drop_child
drop_child-tree c (t, inv) = refl

-- Who is shown is what a name leads to, and conversely.
pub is_some-nat : (o : Option ℕ) (j : ℕ) → is_some_and o (λ i. nat_beq i j) ≡ true → o ≡ some j
is_some-nat none j h = ground (arith, h)
is_some-nat (some i) j h = ground (arith, h, nat_beq_iff i j)

all_shown :
    (P : ℕ → Type 0) (whole c : Table ℕ)
    → ((n : Text) (i : ℕ) → Table.lookup n whole ≡ some i → P i)
    → All P (shown whole c)
unfolding shown
all_shown P whole [] h = tt
all_shown P whole ((m, j) ∷ c) h =
    elim (Bool-cases (is_some_and (Table.lookup m whole) (λ i. nat_beq i j))) [
      | inl yes_ ↦
          rw yes_ (h m j (is_some-nat (Table.lookup m whole) j yes_), all_shown P whole c h)
      | inr no_ ↦ rw no_ (all_shown P whole c h)
    ]

tail_of :
    (P : ℕ → Type 0) (b : Bool) (j : ℕ) (rest : List ℕ)
    → All P (if b then j ∷ rest else rest)
    → All P rest
tail_of P true j rest (first, all) = all
tail_of P false j rest all = all

head_of :
    (P : ℕ → Type 0) (b : Bool) (j : ℕ) (rest : List ℕ)
    → All P (if b then j ∷ rest else rest)
    → b ≡ true
    → P j
head_of P true j rest (first, all) e = first
head_of P false j rest all e = ground (arith, e)

shown_all :
    (P : ℕ → Type 0) (whole c : Table ℕ) (n : Text) (i : ℕ)
    → All P (shown whole c)
    → Table.lookup n c ≡ some i
    → Table.lookup n whole ≡ some i
    → P i
unfolding shown Table.lookup
shown_all P whole [] n i all h w = ground (arith, h)
shown_all P whole ((m, j) ∷ c) n i all h w =
    let b = is_some_and (Table.lookup m whole) (λ k. nat_beq k j) in
    elim (Bool-cases (m == n)) [
      | inl same ↦
          let one : j ≡ i = ground (arith, h, same) in
          let keys : n ≡ m = sym ((text_beq_iff m n).0 same) in
          let there : Table.lookup m whole ≡ some i =
            subst (λ k. Table.lookup k whole ≡ some i) keys w in
          subst P one
            (head_of P b j (shown whole c) all (rw there (ground (arith, one, nat_beq_iff i j))))
      | inr other ↦
          shown_all P whole c n i (tail_of P b j (shown whole c) all) (ground (arith, h, other)) w
    ]

-- After each node of a list was cleared and removed, none of them is there.
record AreGone (cs : List ℕ) (t' t : Tree) : Type 0 where
  linked : IsLinked t'
  part : IsPart t' t
  gone : All (λ c. at c t' ≡ none) cs

gone-part : (c : ℕ) (t' t : Tree) → IsPart t' t → at c t ≡ none → at c t' ≡ none
gone-part c t' t part gone = elim (Option-cases (at c t')) [
  | inl eq ↦ eq
  | inr (x, eq) ↦ ground (arith, gone, part.nodes_in c x eq)
]

talls_part :
    (levels : ℕ) (t' t : Tree) (cs : List ℕ)
    → IsPart t' t
    → All (λ c. IsTall levels c t) cs
    → All (λ c. IsTall levels c t') cs
talls_part levels t' t [] part all = tt
talls_part levels t' t (c ∷ cs) part (tall, talls) =
    (IsTall-part levels c t' t part tall, talls_part levels t' t cs part talls)

remove_each-AreGone :
    (levels : ℕ) (below : ℕ → Tree × Invalidation → Tree × Invalidation) (cs : List ℕ)
    (x : Tree × Invalidation)
    → ((c : ℕ) (y : Tree × Invalidation)
        → IsTall levels c y.0
        → IsLinked y.0
        → IsCleared c (below c y).0 y.0)
    → All (λ c. IsTall levels c x.0) cs
    → All (λ c. nat_beq c root_ino ≡ false) cs
    → IsLinked x.0
    → AreGone cs (remove_each below cs x).0 x.0
unfolding remove_each
remove_each-AreGone levels below [] x clear tall others o = record {
  linked = o;
  part = IsPart-refl x.0;
  gone = tt;
}
remove_each-AreGone levels below (c ∷ cs) x clear (tall, talls) (other, others) o =
    let y = below c x in
    let one : IsCleared c y.0 x.0 = clear c x tall o in
    let z = drop_child c y in
    let z_is : z.0 ≡ (remove_node c y.0).1 = drop_child-tree c y in
    let z_part : IsPart z.0 x.0 =
      subst (λ u. IsPart u x.0) (sym z_is)
        (IsPart-trans (remove_node c y.0).1 y.0 x.0 (remove_node-IsPart c y.0) one.part) in
    let z_linked : IsLinked z.0 =
      subst (λ u. IsLinked u) (sym z_is) (remove_node-IsLinked c y.0 other one.bare one.linked) in
    let rest : AreGone cs (remove_each below cs z).0 z.0 =
      remove_each-AreGone levels below cs z clear (talls_part levels z.0 x.0 cs z_part talls) others
        z_linked in
    record {
      linked = rest.linked;
      part = IsPart-trans (remove_each below cs z).0 z.0 x.0 rest.part z_part;
      gone = (
        gone-part c (remove_each below cs z).0 z.0 rest.part
            (rw (z_is, at-remove_node c c y.0) (ground arith)),
        rest.gone,
      );
    }

named-option : (o : Option (Table ℕ)) (n : Text) → named o n ≡ Table.lookup n (get_or o [])
unfolding Table.lookup
named-option none n = refl
named-option (some c) n = refl

pub entry-get_or :
    (i : ℕ) (n : Text) (t : Tree) → entry i n t ≡ Table.lookup n (get_or (t.children i) [])
unfolding entry Table.lookup
entry-get_or i n t = named-option (t.children i) n

-- Removing what is below a node, with as many levels as there are, leaves the tree in order, a part of what it
-- was, with nothing below the node.
pub remove_subtree-IsCleared :
    (levels ino : ℕ) (x : Tree × Invalidation)
    → IsTall levels ino x.0
    → IsLinked x.0
    → IsCleared ino (remove_subtree levels ino x).0 x.0
unfolding remove_subtree inos
remove_subtree-IsCleared zero ino x tall o = record {
  linked = o;
  part = IsPart-refl x.0;
  bare = tall;
}
remove_subtree-IsCleared (suc levels) ino (t, inv) tall o =
    let whole = get_or (t.children ino) [] in
    let all : AreGone (inos whole) (remove_subtree (suc levels) ino (t, inv)).0 t =
      remove_each-AreGone levels (remove_subtree levels) (inos whole) (t, inv)
        (λ c y. remove_subtree-IsCleared levels c y)
        (all_shown (λ c. IsTall levels c t) whole whole
          (λ n c h. tall n c (entry-get_or ino n t ∙ h)))
        (all_shown (λ c. nat_beq c root_ino ≡ false) whole whole
          (λ n c h. o.below ino c n (entry-get_or ino n t ∙ h)))
        o in
    record {
      linked = all.linked;
      part = all.part;
      bare = λ n. elim (Option-cases (entry ino n (remove_subtree (suc levels) ino (t, inv)).0)) [
        | inl eq ↦ eq
        | inr (c, eq) ↦
            let before : Table.lookup n whole ≡ some c =
              sym (entry-get_or ino n t) ∙ all.part.names_in ino c n eq in
            let gone : at c (remove_subtree (suc levels) ino (t, inv)).0 ≡ none =
              shown_all (λ k. at k (remove_subtree (suc levels) ino (t, inv)).0 ≡ none) whole whole
                n c all.gone before before in
            ground (arith, gone, all.linked.named ino c n eq)
      ];
    }
