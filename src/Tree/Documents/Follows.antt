-- ===== src/Tree/Documents/Follows.antt =====
-- A context's directory shows what the listing names, and nothing else (src/state.rs, `reconcile_doc_dir`).
use canvas_fuse.Prelude.{
  ℕ, ◌≡◌, sym, subst, ◌∙◌, ◌⊎◌, true, false, none, some, [], ◌∷◌, Text, text_eq, ◌==◌, nat_beq_iff,
  text_beq_iff, All, arith, Bool-cases, Option-cases, inl, inr,
}
use canvas_fuse.Prelude.Table.{Table}
use canvas_fuse.Prelude.Table
use canvas_fuse.Tree.{Tree, entry}
use canvas_fuse.Tree.Links.{Place, at}
use canvas_fuse.Tree.Linked.{IsLinked, is_at-some}
use canvas_fuse.Tree.Documents.{Desired}
use canvas_fuse.Tree.Documents.Views.{Pass, doc_entries, settle_entry, settle_entries}
use canvas_fuse.Tree.Documents.Kept.{IsKept}
use canvas_fuse.Tree.Documents.Reconciled.{ArePlain, AreFiles, files_kept, settle_entry-IsKept}
use canvas_fuse.Tree.Documents.Settled.{
  Outcome, settle_entry-outcome, Fits, own-Fits, kept-Fits, outcome-defer,
}
use canvas_fuse.Tree.Documents.Directory.{is_doc_name}

-- The nodes of the entries bear their names.
abbrev pub AreNamed : Table ℕ → Tree → Type 0
AreNamed have t = All (λ e. (x : Place) → at e.1 t ≡ some x → x.name ≡ e.0) have

named_kept : (have : Table ℕ) (t' t : Tree) → IsKept t' t → AreNamed have t → AreNamed have t'
named_kept [] t' t k all = tt
named_kept ((n, i) ∷ have) t' t k (one, all) = (
  λ x h.
      let (y, there, parent, name) = is_at-some x.parent x.name (at i t) (k.bears i x h) in
      sym name ∙ one y there,
  named_kept have t' t k all,
)

-- The name is among the entries to come, or it fits.
abbrev pub IsAhead : ℕ → Table Desired → Text → Table ℕ → Tree → Type 0
IsAhead dir_ino desired n have t =
    ((i : ℕ) → entry dir_ino n t ≡ some i → Table.lookup n have ≡ some i) ⊎ Fits dir_ino desired n t

module _ (dir_ino : ℕ) (desired : Table Desired) where
  unnamed-Fits : (n : Text) (t : Tree) → entry dir_ino n t ≡ none → Fits dir_ino desired n t
  unnamed-Fits n t h i x k l = ground (arith, h, k)

  same_name :
      (j : ℕ) (m : Text) (t t' : Tree)
      → IsLinked t
      → IsKept t' t
      → Outcome m j desired t t'
      → ((i : ℕ) → entry dir_ino m t ≡ some i → i ≡ j)
      → Fits dir_ino desired m t'
  same_name j m t t' o kept out only = elim (Option-cases (entry dir_ino m t)) [
    | inl free ↦ elim (Option-cases (entry dir_ino m t')) [
      | inl eq ↦ unnamed-Fits m t' eq
      | inr (i, eq) ↦ ground (arith, free, kept.names_in dir_ino i m eq)
    ]
    | inr (i, eq) ↦
        own-Fits dir_ino j m desired t t' o (subst (λ k. entry dir_ino m t ≡ some k) (only i eq) eq)
          out
  ]

  ahead :
      (j : ℕ) (m n : Text) (have : Table ℕ) (t t' : Tree)
      → IsLinked t
      → IsKept t' t
      → Outcome m j desired t t'
      → ((x : Place) → at j t ≡ some x → x.name ≡ m)
      → IsAhead dir_ino desired n ((m, j) ∷ have) t
      → IsAhead dir_ino desired n have t'
  unfolding Table.lookup
  ahead j m n have t t' o kept out bears (inl due) = elim (Bool-cases (m == n)) [
    | inl same ↦
        let names : m ≡ n = (text_beq_iff m n).0 same in
        inr (
          subst (λ k. Fits dir_ino desired k t') names
            (same_name j m t t' o kept out (λ i h.
              ground (arith, due i (subst (λ k. entry dir_ino k t ≡ some i) names h), same))))
    | inr other ↦ inl (λ i h. ground (arith, due i (kept.names_in dir_ino i n h), other))
  ]
  ahead j m n have t t' o kept out bears (inr f) =
      inr (kept-Fits dir_ino j m n desired t t' o kept bears out f)

  done_Fits : (n : Text) (t : Tree) → IsAhead dir_ino desired n [] t → Fits dir_ino desired n t
  unfolding Table.lookup
  done_Fits n t (inl due) = λ i x h k. ground (arith, due i h)
  done_Fits n t (inr f) = f

  -- After all entries, every name that was among them fits.
  pub settle_entries-Fits :
      (n : Text) (have : Table ℕ) (p : Pass)
      → ArePlain desired
      → AreFiles have p.tree
      → AreNamed have p.tree
      → p.tree.defer_removals ≡ false
      → IsLinked p.tree
      → IsAhead dir_ino desired n have p.tree
      → Fits dir_ino desired n (settle_entries dir_ino desired have p).tree
  unfolding settle_entries
  settle_entries-Fits n [] p plain files named now o f = done_Fits n p.tree f
  settle_entries-Fits n ((m, j) ∷ have) p plain ((file, other), files) (bears, named) now o f =
      let q = settle_entry dir_ino desired m j p in
      let k : IsKept q.tree p.tree = settle_entry-IsKept dir_ino j desired m p plain file other o in
      let out : Outcome m j desired p.tree q.tree =
        settle_entry-outcome dir_ino j m desired p now in
      settle_entries-Fits n have q plain (files_kept have q.tree p.tree k files)
        (named_kept have q.tree p.tree k named) (outcome-defer m j desired p.tree q.tree out ∙ now)
        k.linked (ahead j m n have p.tree q.tree o k out bears f)

-- The entries of the directory are looked at under every name of a document.
pub doc_entries-found :
    (whole c : Table ℕ) (n : Text) (i : ℕ)
    → is_doc_name n ≡ true
    → Table.lookup n whole ≡ some i
    → Table.lookup n c ≡ some i
    → Table.lookup n (doc_entries whole c) ≡ some i
unfolding doc_entries Table.lookup
doc_entries-found whole [] n i ours w h = ground (arith, h)
doc_entries-found whole ((m, j) ∷ c) n i ours w h = elim (Bool-cases (m == n)) [
  | inl same ↦
      let names : n ≡ m = sym ((text_beq_iff m n).0 same) in
      let there : Table.lookup m whole ≡ some i =
        subst (λ k. Table.lookup k whole ≡ some i) names w in
      let mine : is_doc_name m ≡ true = subst (λ k. is_doc_name k ≡ true) names ours in
      ground (arith, h, same, there, mine, nat_beq_iff i j)
  | inr other ↦
      let rest : Table.lookup n (doc_entries whole c) ≡ some i =
        doc_entries-found whole c n i ours w (ground (arith, h, other)) in
      ground (arith, rest, other)
]
