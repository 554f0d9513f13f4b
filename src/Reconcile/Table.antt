-- ===== src/Reconcile/Table.antt =====
-- The decision and the table of the sync protocol, in the comment of src/mirror/reconcile.rs.
use canvas_fuse.Prelude.{
  text_eq, ◌≡◌, ◌≢◌, ◌↔◌, inl, inr, true, false, Option, none, some, Text, text_beq_iff, arith,
  text_beq, Bool-cases, ap, option_beq_iff,
}
use canvas_fuse.Reconcile.{
  Action, nothing, push, delete_remote, pull, trash_local, adopt, conflict, by_change, decide,
}

-- The rows of the table, as a relation between the three digests and the action.
pub data Row : Option Text → Option Text → Option Text → Action → Type 0 where
  same : {l b r : Option Text} → l ≡ b → r ≡ b → Row l b r nothing
  edit : {b r : Option Text} (l : Text) → some l ≢ b → r ≡ b → Row (some l) b r (push b)
  local_delete : {r : Option Text} (b : Text) → r ≡ some b → Row none (some b) r (delete_remote b)
  remote_edit : {l b : Option Text} (r : Text) → l ≡ b → some r ≢ b → Row l b (some r) (pull r)
  remote_delete : {b : Option Text} (l : Text) → some l ≡ b → Row (some l) b none trash_local
  agree : {l b r : Option Text} → l ≢ b → l ≡ r → Row l b r adopt
  both_edit :
      {b : Option Text} (l r : Text)
      → some l ≢ b
      → some r ≢ b
      → l ≢ r
      → Row (some l) b (some r) (conflict r)
  edit_beats_delete : (b r : Text) → r ≢ b → Row none (some b) (some r) (pull r)
  push_as_new : (l b : Text) → l ≢ b → Row (some l) (some b) none (push none)

ruleset rows = (
  same, edit, local_delete, remote_edit, remote_delete, agree, both_edit, edit_beats_delete,
  push_as_new,
)

some-ne : (s t : Text) → text_beq s t ≡ false → some s ≢ some t
some-ne s t h e = ground (arith, text_beq_iff s t)

text-ne : (s t : Text) → text_beq s t ≡ false → s ≢ t
text-ne s t h e = ground (arith, text_beq_iff s t)

text-eq : (s t : Text) → text_beq s t ≡ true → s ≡ t
text-eq s t = (text_beq_iff s t).0

-- All three sides are there.
three : (l b r : Text) → Row (some l) (some b) (some r) (decide (some l) (some b) (some r))
unfolding decide
three l b r = elim (Bool-cases (text_beq l b)) [
  | inl p ↦ elim (Bool-cases (text_beq r b)) [
    | inl q ↦ rw (p, q) (same (ap some (text-eq l b p)) (ap some (text-eq r b q)))
    | inr q ↦ rw (p, q) (remote_edit r (ap some (text-eq l b p)) (some-ne r b q))
  ]
  | inr p ↦ elim (Bool-cases (text_beq r b)) [
    | inl q ↦ rw (p, q) (edit l (some-ne l b p) (ap some (text-eq r b q)))
    | inr q ↦ elim (Bool-cases (text_beq l r)) [
      | inl e ↦ rw (p, q) (rw (e, by_change) (agree (some-ne l b p) (ap some (text-eq l r e))))
      | inr e ↦
          rw (p, q)
            (rw (e, by_change) (both_edit l r (some-ne l b p) (some-ne r b q) (text-ne l r e)))
    ]
  ]
]

pub decide-Row : (l b r : Option Text) → Row l b r (decide l b r)
unfolding decide
decide-Row none none none = grind (arith, rows)
decide-Row none none (some r) = grind (arith, rows)
decide-Row none (some b) none = grind (arith, rows)
decide-Row none (some b) (some r) = grind (arith, rows, text_beq_iff r b)
decide-Row (some l) none none = grind (arith, rows)
decide-Row (some l) none (some r) = grind (arith, rows, text_beq_iff l r)
decide-Row (some l) (some b) none = grind (arith, rows, text_beq_iff l b)
decide-Row (some l) (some b) (some r) = three l b r

-- The digests fix the row.
pub Row-decide : {l b r : Option Text} {a : Action} → Row l b r a → decide l b r ≡ a
unfolding decide
Row-decide {l} {b} {r} (same p q) = ground (arith, option_beq_iff l b, option_beq_iff r b)
Row-decide {b = b} {r = r} (edit l p q) =
    ground (arith, option_beq_iff (some l) b, option_beq_iff r b)
Row-decide {r = r} (local_delete b p) = ground (arith, option_beq_iff r (some b))
Row-decide {l = l} {b = b} (remote_edit r p q) =
    ground (arith, option_beq_iff l b, option_beq_iff (some r) b)
Row-decide {b = b} (remote_delete l p) = ground (arith, option_beq_iff (some l) b)
Row-decide {l} {b} {r} (agree p q) =
    ground (arith, option_beq_iff l b, option_beq_iff r b, option_beq_iff l r)
Row-decide {b = b} (both_edit l r p q d) =
    ground (
      arith,
      option_beq_iff (some l) b,
      option_beq_iff (some r) b,
      option_beq_iff (some l) (some r),
    )
Row-decide (edit_beats_delete b r p) = ground (arith, text_beq_iff r b)
Row-decide (push_as_new l b p) = ground (arith, text_beq_iff l b)

-- For all digests, the code decides on an action exactly when the protocol's table has the row.
pub decide_iff_Row : (l b r : Option Text) (a : Action) → (decide l b r ≡ a) ↔ Row l b r a
decide_iff_Row l b r a = (λ e. rw e at (decide-Row l b r), Row-decide)
