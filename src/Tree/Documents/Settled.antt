-- ===== src/Tree/Documents/Settled.antt =====
-- What one entry of a context's directory becomes when it is brought in line with a listing (src/state.rs).
use canvas_fuse.Prelude.{
  ℕ, ◌≡◌, refl, sym, subst, ap, ◌∙◌, true, false, not, some, Text, text_eq, nat_beq, nat_beq_iff,
  text_beq_iff, is_some_and, arith, Bool-cases, Option-cases, inl, inr,
}
use canvas_fuse.Prelude.{option_eq, nat_eq}
use canvas_fuse.Prelude.Table.{Table}
use canvas_fuse.Prelude.Table
use canvas_fuse.Tree.{Content, Tree, entry, remove_node, touch_dir, unlink}
use canvas_fuse.Tree.Links.{Place, at, at-remove_node, entry-remove_node}
use canvas_fuse.Tree.Linked.{IsLinked, is_at-some}
use canvas_fuse.Tree.Documents.{Desired}
use canvas_fuse.Tree.Home.{content_beq}
use canvas_fuse.Tree.Home.Upsert.{content_beq-agrees}
use canvas_fuse.Tree.Documents.Views.{
  Pass, is_doc_of, remove_doc_node, forget_ino, set_content, depart, refresh, settle_entry,
}
use canvas_fuse.Tree.Documents.Kept.{IsKept}
use canvas_fuse.Tree.Documents.Contents.{at-set_content, entry-set_content, set_content-absent}

-- What became of an entry: its node went, or has the content of the listing.
pub data Outcome (m : Text) (j : ℕ) (desired : Table Desired) (t t' : Tree) : Type 0 where
  gone : t' ≡ remove_doc_node j t → Outcome m j desired t t'
  renewed :
      (d : Desired)
      → Table.lookup m desired ≡ some d
      → t' ≡ set_content j d.content d.mtime t
      → Outcome m j desired t t'
  stayed :
      (d : Desired)
      → Table.lookup m desired ≡ some d
      → t' ≡ t
      → ((x : Place) → at j t ≡ some x → x.content ≡ d.content)
      → Outcome m j desired t t'

depart-gone :
    (dir_ino j : ℕ) (m : Text) (p : Pass)
    → p.tree.defer_removals ≡ false
    → (depart dir_ino m j p).tree ≡ remove_doc_node j p.tree
unfolding depart
depart-gone dir_ino j m p now = ground (arith, now)

same_content :
    (j : ℕ) (d : Desired) (t : Tree)
    → is_some_and (t.nodes j) (λ n. not (content_beq n.content d.content)) ≡ false
    → (x : Place) → at j t ≡ some x
    → x.content ≡ d.content
unfolding at
same_content j d t same x there = elim (Option-cases (t.nodes j)) [
  | inl eq ↦ ground (arith, eq, there)
  | inr (y, eq) ↦
      let content : y.content ≡ x.content = ground (arith, eq, there) in
      let one : content_beq y.content d.content ≡ true = ground (arith, same, eq) in
      sym content ∙ content_beq-agrees y.content d.content one
]

refresh-outcome :
    (j : ℕ) (m : Text) (d : Desired) (desired : Table Desired) (p : Pass)
    → Table.lookup m desired ≡ some d
    → Outcome m j desired p.tree (refresh j d p).tree
unfolding refresh
refresh-outcome j m d desired p wanted =
    elim (Bool-cases (is_some_and (p.tree.nodes j) (λ n. not (content_beq n.content d.content)))) [
      | inl new ↦ renewed d wanted (rw (refresh, new) refl)
      | inr same ↦ stayed d wanted (rw (refresh, same) refl) (same_content j d p.tree same)
    ]

pub settle_entry-outcome :
    (dir_ino j : ℕ) (m : Text) (desired : Table Desired) (p : Pass)
    → p.tree.defer_removals ≡ false
    → Outcome m j desired p.tree (settle_entry dir_ino desired m j p).tree
unfolding settle_entry
settle_entry-outcome dir_ino j m desired p now = elim (Option-cases (Table.lookup m desired)) [
  | inl eq ↦ gone (rw (settle_entry, eq) (depart-gone dir_ino j m p now))
  | inr (d, eq) ↦ elim (Bool-cases (is_doc_of j (some d) p.tree)) [
    | inl its ↦ rw (settle_entry, eq, its) (refresh-outcome j m d desired p eq)
    | inr others ↦ gone (rw (settle_entry, eq, others) (depart-gone dir_ino j m p now))
  ]
]

-- What bears the name has the content that the listing gives it.
abbrev pub Fits : ℕ → Table Desired → Text → Tree → Type 0
Fits dir_ino desired n t =
    (i : ℕ) (x : Place)
    → entry dir_ino n t ≡ some i
    → at i t ≡ some x
    → (d : Desired) × (Table.lookup n desired ≡ some d) × (x.content ≡ d.content)

at-remove_doc_node : (i j : ℕ) (t : Tree) → at i (remove_doc_node j t) ≡ at i (remove_node j t).1
unfolding remove_doc_node forget_ino at
at-remove_doc_node i j t = refl

entry-remove_doc_node :
    (p j : ℕ) (n : Text) (t : Tree)
    → entry p n (remove_doc_node j t) ≡ entry p n (remove_node j t).1
unfolding remove_doc_node forget_ino entry
entry-remove_doc_node p j n t = refl

defer-remove_doc_node : (j : ℕ) (t : Tree) → (remove_doc_node j t).defer_removals ≡ t.defer_removals
unfolding remove_doc_node forget_ino remove_node touch_dir unlink
defer-remove_doc_node j t = ground arith

defer-set_content :
    (j mtime : ℕ) (c : Content) (t : Tree)
    → (set_content j c mtime t).defer_removals ≡ t.defer_removals
unfolding set_content
defer-set_content j mtime c t = ground arith

-- The entry that was looked at fits.
pub own-Fits :
    (dir_ino j : ℕ) (m : Text) (desired : Table Desired) (t t' : Tree)
    → IsLinked t
    → entry dir_ino m t ≡ some j
    → Outcome m j desired t t'
    → Fits dir_ino desired m t'
own-Fits dir_ino j m desired t t' o bound (gone eq) =
    let (y, there, parent, name) = is_at-some dir_ino m (at j t) (o.named dir_ino j m bound) in
    λ i x h k. ground (
      arith,
      subst (λ u. entry dir_ino m u ≡ some i) eq h,
      entry-remove_doc_node dir_ino j m t,
      entry-remove_node dir_ino j m y t there,
      parent,
      name,
      nat_beq_iff dir_ino y.parent,
      text_beq_iff y.name m,
    )
own-Fits dir_ino j m desired t t' o bound (renewed d wanted eq) =
    let (y, there, parent, name) = is_at-some dir_ino m (at j t) (o.named dir_ino j m bound) in
    λ i x h k. (
      d,
      wanted,
      ground (
        arith,
        subst (λ u. entry dir_ino m u ≡ some i) eq h,
        subst (λ u. at i u ≡ some x) eq k,
        bound,
        entry-set_content dir_ino j d.mtime m d.content t,
        at-set_content i j d.mtime d.content y t there,
        nat_beq_iff i j,
      ),
    )
own-Fits dir_ino j m desired t t' o bound (stayed d wanted eq same) = λ i x h k. (
  d,
  wanted,
  ground (
    arith,
    subst (λ u. entry dir_ino m u ≡ some i) eq h,
    subst (λ u. at i u ≡ some x) eq k,
    bound,
    same x,
  ),
)

-- An entry that fits still does when any was looked at.
pub kept-Fits :
    (dir_ino j : ℕ) (m n : Text) (desired : Table Desired) (t t' : Tree)
    → IsLinked t
    → IsKept t' t
    → ((x : Place) → at j t ≡ some x → x.name ≡ m)
    → Outcome m j desired t t'
    → Fits dir_ino desired n t
    → Fits dir_ino desired n t'
kept-Fits dir_ino j m n desired t t' o kept bears (gone eq) f = λ i x h k.
    f i x (kept.names_in dir_ino i n h) (
      ground
        (arith, subst (λ u. at i u ≡ some x) eq k, at-remove_doc_node i j t, at-remove_node i j t))
kept-Fits dir_ino j m n desired t t' o kept bears (renewed d wanted eq) f =
    elim (Option-cases (at j t)) [
      | inl none_there ↦
          subst (λ u. Fits dir_ino desired n u)
            (sym (eq ∙ set_content-absent j d.mtime d.content t none_there)) f
      | inr (y, there) ↦ λ i x h k.
          let before : entry dir_ino n t ≡ some i = kept.names_in dir_ino i n h in
          let now : at i (set_content j d.content d.mtime t) ≡ some x =
            subst (λ u. at i u ≡ some x) eq k in
          elim (Bool-cases (nat_beq i j)) [
            | inl same ↦
                let name : m ≡ n = ground (
                  arith,
                  there,
                  sym (bears y there),
                  o.named dir_ino i n before,
                  same,
                  nat_beq_iff i j,
                  text_beq_iff y.name n,
                ) in
                (
                  d,
                  subst (λ q. Table.lookup q desired ≡ some d) name wanted,
                  ground (arith, now, at-set_content i j d.mtime d.content y t there, same),
                )
            | inr other ↦
                f i x before
                  (ground (arith, now, at-set_content i j d.mtime d.content y t there, other))
          ]
    ]
kept-Fits dir_ino j m n desired t t' o kept bears (stayed d wanted eq same) f =
    subst (λ u. Fits dir_ino desired n u) (sym eq) f

pub outcome-defer :
    (m : Text) (j : ℕ) (desired : Table Desired) (t t' : Tree)
    → Outcome m j desired t t'
    → t'.defer_removals ≡ t.defer_removals
outcome-defer m j desired t t' (gone eq) = ap (λ u. u.defer_removals) eq ∙ defer-remove_doc_node j t
outcome-defer m j desired t t' (renewed d wanted eq) =
    ap (λ u. u.defer_removals) eq ∙ defer-set_content j d.mtime d.content t
outcome-defer m j desired t t' (stayed d wanted eq same) = ap (λ u. u.defer_removals) eq
