-- ===== src/Tree/Documents/Kept.antt =====
-- What may happen to the files of a directory with the tree still in order (src/state.rs): one goes, one
-- gets new content.
use canvas_fuse.Prelude.{
  ℕ, ◌≡◌, refl, sym, subst, ◌∙◌, Bool, true, false, Option, none, some, List, Text, text_eq,
  nat_beq, nat_beq_iff, text_beq_refl, arith, Option-cases, inl, inr,
}
use canvas_fuse.Tree.{Tree, WsState, root_ino, entry, remove_node}
use canvas_fuse.Tree.Links.{Place, at, at-remove_node, entry-remove_node, next-remove_node}
use canvas_fuse.Tree.Linked.{
  IsLinked, is_at, is_at-some, is_folder_place, remove_node-IsLinked, remove_node-absent,
}
use canvas_fuse.Tree.Alike.{same-IsLinked}
use canvas_fuse.Tree.Documents.Views.{remove_doc_node, forget_ino, tombstone}

-- What is kept beside the nodes does not matter.
pub books-IsLinked :
    (docs : List ((Text × ℕ) × ℕ)) (stones : ℕ → Bool) (w : Option WsState) (t : Tree)
    → IsLinked t
    → IsLinked (record t { doc_inos = docs; tombstones = stones; ws = w })
unfolding at entry
books-IsLinked docs stones w t o =
    same-IsLinked (record t { doc_inos = docs; tombstones = stones; ws = w }) t (λ i. refl)
      (λ p n. refl) refl o

-- Nothing is below a file.
pub leaf_file :
    (ino : ℕ) (n : Text) (t : Tree)
    → IsLinked t
    → is_folder_place (at ino t) ≡ false
    → entry ino n t ≡ none
leaf_file ino n t o file = elim (Option-cases (entry ino n t)) [
  | inl eq ↦ eq
  | inr (i, eq) ↦
      let (x, there, parent, name) = is_at-some ino n (at i t) (o.named ino i n eq) in
      ground (arith, o.within i x there, parent, file)
]

-- Names may have gone; what is a folder still is one, and what is not did not become one.
pub record IsKept (t' t : Tree) : Type 0 where
  pub kinds : (i : ℕ) → is_folder_place (at i t') ≡ is_folder_place (at i t)
  pub names_in : (p i : ℕ) (n : Text) → entry p n t' ≡ some i → entry p n t ≡ some i
  pub next_same : t'.next_ino ≡ t.next_ino
  pub bears : (i : ℕ) (x : Place) → at i t' ≡ some x → is_at x.parent x.name (at i t) ≡ true
  pub linked : IsLinked t'

pub IsKept-refl : (t : Tree) → IsLinked t → IsKept t t
IsKept-refl t o = record {
  kinds = λ i. refl;
  names_in = λ p i n h. h;
  next_same = refl;
  bears = λ i x h. ground (arith, h, nat_beq_iff x.parent x.parent, text_beq_refl x.name);
  linked = o;
}

pub IsKept-trans : (a b c : Tree) → IsKept a b → IsKept b c → IsKept a c
IsKept-trans a b c f g = record {
  kinds = λ i. f.kinds i ∙ g.kinds i;
  names_in = λ p i n h. g.names_in p i n (f.names_in p i n h);
  next_same = f.next_same ∙ g.next_same;
  bears = λ i x h.
      let (y, there, parent, name) = is_at-some x.parent x.name (at i b) (f.bears i x h) in
      subst (λ n. is_at x.parent n (at i c) ≡ true) name
        (subst (λ q. is_at q y.name (at i c) ≡ true) parent (g.bears i y there));
  linked = f.linked;
}

pub remove_node-IsKept :
    (ino : ℕ) (t : Tree)
    → IsLinked t
    → nat_beq ino root_ino ≡ false
    → is_folder_place (at ino t) ≡ false
    → IsKept (remove_node ino t).1 t
remove_node-IsKept ino t o other file =
    let linked = remove_node-IsLinked ino t other (λ n. leaf_file ino n t o file) o in
    elim (Option-cases (at ino t)) [
      | inl gone ↦ subst (λ u. IsKept u t) (sym (remove_node-absent ino t gone)) (IsKept-refl t o)
      | inr (x, there) ↦ record {
        kinds = λ i. ground (arith, at-remove_node i ino t, file, nat_beq_iff i ino);
        names_in = λ p i n h. ground (arith, entry-remove_node p ino n x t there, h);
        next_same = next-remove_node ino t;
        bears = λ i y h.
            ground (
              arith,
              at-remove_node i ino t,
              h,
              nat_beq_iff y.parent y.parent,
              text_beq_refl y.name,
            );
        linked = linked;
      }
    ]

pub remove_doc_node-IsKept :
    (ino : ℕ) (t : Tree)
    → IsLinked t
    → nat_beq ino root_ino ≡ false
    → is_folder_place (at ino t) ≡ false
    → IsKept (remove_doc_node ino t) t
unfolding remove_doc_node forget_ino at entry
remove_doc_node-IsKept ino t o other file =
    let k = remove_node-IsKept ino t o other file in
    let u = (remove_node ino t).1 in
    record {
      kinds = k.kinds;
      names_in = k.names_in;
      next_same = k.next_same;
      bears = k.bears;
      linked = books-IsLinked (forget_ino ino u).doc_inos u.tombstones u.ws u k.linked;
    }

pub tombstone-IsKept : (ino : ℕ) (t : Tree) → IsLinked t → IsKept (tombstone ino t) t
unfolding tombstone at entry
tombstone-IsKept ino t o = record {
  kinds = λ i. refl;
  names_in = λ p i n h. h;
  next_same = refl;
  bears = λ i x h. ground (arith, h, nat_beq_iff x.parent x.parent, text_beq_refl x.name);
  linked = books-IsLinked t.doc_inos (tombstone ino t).tombstones t.ws t o;
}
