-- ===== src/Tree/Documents/Sorted.antt =====
-- The order in which documents are placed, and maps in the order of their keys (src/state.rs, `by_placement`).
use canvas_fuse.Prelude.{
  ◌≡◌, refl, Bool, true, false, none, some, List, [], ◌∷◌, Text, text_eq, ◌==◌, All, length, suc,
  text_beq_iff, arith, Bool-cases, inl, inr, if◌then◌else◌,
}
use canvas_fuse.Prelude.Table.{Table}
use canvas_fuse.Prelude.Table
use canvas_fuse.Tree.Documents.{RenderedDoc, put_sorted, placed_before, insert_placed, by_placement}

pub lookup-put_sorted {ℓ} :
    {V : Type ℓ} (k j : Text) (v : V) (t : Table V)
    → Table.lookup j (put_sorted k v t) ≡ (if k == j then some v else Table.lookup j t)
unfolding put_sorted Table.lookup
lookup-put_sorted k j v [] = refl
lookup-put_sorted k j v ((i, w) ∷ t) =
    ground (arith, text_beq_iff k j, text_beq_iff i k, text_beq_iff i j, lookup-put_sorted k j v t)

pub length-put_sorted {ℓ} :
    {V : Type ℓ} (k : Text) (v : V) (t : Table V)
    → Table.lookup k t ≡ none
    → length (put_sorted k v t) ≡ suc (length t)
unfolding put_sorted Table.lookup
length-put_sorted k v [] h = refl
length-put_sorted k v ((i, w) ∷ t) h = elim (Bool-cases (i == k)) [
  | inl same ↦ ground (arith, h, same)
  | inr other ↦
      let rest : length (put_sorted k v t) ≡ suc (length t) =
        length-put_sorted k v t (ground (arith, h, other)) in
      ground (arith, rest, other)
]

split_on :
    (b : Bool) (P : RenderedDoc → Type 0) (d e : RenderedDoc) (es rest : List RenderedDoc)
    → All P (if b then e ∷ rest else d ∷ e ∷ es)
    → (All P rest → P d × All P es)
    → P d × All P (e ∷ es)
split_on true P d e es rest (one, all) f = ((f all).0, (one, (f all).1))
split_on false P d e es rest (one, all) f = (one, all)

All-insert_placed :
    (P : RenderedDoc → Type 0) (d : RenderedDoc) (es : List RenderedDoc)
    → All P (insert_placed d es)
    → P d × All P es
unfolding insert_placed
All-insert_placed P d [] all = all
All-insert_placed P d (e ∷ es) all =
    split_on (placed_before e d) P d e es (insert_placed d es) all (λ h. All-insert_placed P d es h)

pub All-by_placement :
    (P : RenderedDoc → Type 0) (ds : List RenderedDoc) → All P (by_placement ds) → All P ds
unfolding by_placement
All-by_placement P [] all = tt
All-by_placement P (d ∷ ds) all =
    let (one, rest) = All-insert_placed P d (by_placement ds) all in
    (one, All-by_placement P ds rest)

length-insert_placed :
    (d : RenderedDoc) (es : List RenderedDoc) → length (insert_placed d es) ≡ suc (length es)
unfolding insert_placed
length-insert_placed d [] = refl
length-insert_placed d (e ∷ es) = ground (arith, length-insert_placed d es)

pub length-by_placement : (ds : List RenderedDoc) → length (by_placement ds) ≡ length ds
unfolding by_placement
length-by_placement [] = refl
length-by_placement (d ∷ ds) =
    ground (arith, length-insert_placed d (by_placement ds), length-by_placement ds)
