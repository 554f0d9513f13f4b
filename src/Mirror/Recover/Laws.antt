-- ===== src/Mirror/Recover/Laws.antt =====
-- One pass of `recover_jobs` (src/mirror/sync.rs), row by row.
use canvas_fuse.Prelude.{
  ◌≡◌, refl, ◌∙◌, ap, sym, true, false, none, some, Option, List, [], ◌∷◌, Text, text_beq,
  text_beq_iff, arith, Bool-cases, inl, inr, contains, text_eq, subst,
}
use canvas_fuse.Paths
use canvas_fuse.Prelude.Table.{Table, lookup}
use canvas_fuse.Store.{Entry, dirty, tombstone, push, delete, JobKind, discovered, dedupe_id}
use canvas_fuse.Store.Queue
use canvas_fuse.Store.Queue.Order.{ids, IsQueue, enqueue_with_priority-IsQueue}
use canvas_fuse.Store.Queue.Pending.{pending, pending-enqueue_with_priority}
use canvas_fuse.Mirror.{Mirror, is_ignored}
use canvas_fuse.Mirror.Accounted.{IsAccounted}
use canvas_fuse.Mirror.Recover.{awaits_upload, wanted, recover_one, recover_rows, recover_jobs}

-- The pass changes the queue, and no row of a table that it reads.
pub record SameRows {D : Type 0} (m m' : Mirror D) : Type 0 where
  pub entries : m'.store.entries ≡ m.store.entries
  pub conflicts : m'.store.conflicts ≡ m.store.conflicts
  pub skipped : m'.skipped ≡ m.skipped
  pub ignore : m'.ignore ≡ m.ignore

module _ {D : Type 0} where
  recover_one-SameRows :
      (have : List Text) (o : Option JobKind) (m : Mirror D) → SameRows m (recover_one have o m)
  unfolding recover_one Queue.enqueue_with_priority
  recover_one-SameRows have none m = record {
    entries = refl;
    conflicts = refl;
    skipped = refl;
    ignore = refl;
  }
  recover_one-SameRows have (some kind) m = elim (Bool-cases (contains have (dedupe_id kind))) [
    | inl there ↦
        rw (there, recover_one)
          (record { entries = refl; conflicts = refl; skipped = refl; ignore = refl })
    | inr gone ↦
        rw (gone, recover_one)
          (record { entries = refl; conflicts = refl; skipped = refl; ignore = refl })
  ]

  recover_one-IsQueue :
      (have : List Text) (o : Option JobKind) (m : Mirror D)
      → IsQueue m.store
      → IsQueue (recover_one have o m).store
  unfolding recover_one
  recover_one-IsQueue have none m q = q
  recover_one-IsQueue have (some kind) m q = elim (Bool-cases (contains have (dedupe_id kind))) [
    | inl there ↦ rw (there, recover_one) q
    | inr gone ↦
        rw (gone, recover_one) (enqueue_with_priority-IsQueue m.now kind discovered m.store q)
  ]

  -- What is pending stays, and what is wanted is pending afterwards.
  recover_one-keeps :
      (have : List Text) (o : Option JobKind) (m : Mirror D) (t : Text)
      → IsQueue m.store
      → pending t m.store ≡ true
      → pending t (recover_one have o m).store ≡ true
  unfolding recover_one
  recover_one-keeps have none m t q p = p
  recover_one-keeps have (some kind) m t q p =
      ground (arith, pending-enqueue_with_priority m.now kind discovered m.store t q)

  recover_one-queues :
      (have : List Text) (kind : JobKind) (m : Mirror D)
      → IsQueue m.store
      → (contains have (dedupe_id kind) ≡ true → pending (dedupe_id kind) m.store ≡ true)
      → pending (dedupe_id kind) (recover_one have (some kind) m).store ≡ true
  unfolding recover_one
  recover_one-queues have kind m q old = ground (
    arith,
    old,
    pending-enqueue_with_priority m.now kind discovered m.store (dedupe_id kind) q,
    text_beq_iff (dedupe_id kind) (dedupe_id kind),
  )

  SameRows-trans : (m m' m'' : Mirror D) → SameRows m m' → SameRows m' m'' → SameRows m m''
  SameRows-trans m m' m'' a b = record {
    entries = b.entries ∙ a.entries;
    conflicts = b.conflicts ∙ a.conflicts;
    skipped = b.skipped ∙ a.skipped;
    ignore = b.ignore ∙ a.ignore;
  }

  wanted-SameRows :
      (m m' : Mirror D) (key : Text) (e : Entry) → SameRows m m' → wanted m' key e ≡ wanted m key e
  unfolding wanted awaits_upload is_ignored
  wanted-SameRows m m' key e s = ground (
    arith,
    ap (lookup key) s.conflicts,
    ap (lookup key) s.skipped,
    ap (λ r. Paths.is_ignored r key) s.ignore,
  )

  wanted-dirty :
      (m : Mirror D) (key : Text) (e : Entry)
      → e.state ≡ dirty
      → is_ignored m key ≡ false
      → lookup key m.skipped ≡ none
      → awaits_upload m key ≡ false
      → wanted m key e ≡ some (push key)
  unfolding wanted
  wanted-dirty m key e s k l a = ground arith

  wanted-tombstone :
      (m : Mirror D) (key : Text) (e : Entry)
      → e.state ≡ tombstone
      → is_ignored m key ≡ false
      → lookup key m.skipped ≡ none
      → wanted m key e ≡ some (delete key none)
  unfolding wanted
  wanted-tombstone m key e s k l = ground arith

  recover_rows-SameRows :
      (have : List Text) (rows : Table Entry) (m : Mirror D) → SameRows m (recover_rows have rows m)
  unfolding recover_rows
  recover_rows-SameRows have [] m = record {
    entries = refl;
    conflicts = refl;
    skipped = refl;
    ignore = refl;
  }
  recover_rows-SameRows have ((key, e) ∷ rows) m =
      let m' = recover_one have (wanted m key e) m in
      SameRows-trans m m' (recover_rows have rows m') (recover_one-SameRows have (wanted m key e) m)
        (recover_rows-SameRows have rows m')

  recover_rows-IsQueue :
      (have : List Text) (rows : Table Entry) (m : Mirror D)
      → IsQueue m.store
      → IsQueue (recover_rows have rows m).store
  unfolding recover_rows
  recover_rows-IsQueue have [] m q = q
  recover_rows-IsQueue have ((key, e) ∷ rows) m q =
      recover_rows-IsQueue have rows (recover_one have (wanted m key e) m)
        (recover_one-IsQueue have (wanted m key e) m q)

  recover_rows-keeps :
      (have : List Text) (rows : Table Entry) (m : Mirror D) (t : Text)
      → IsQueue m.store
      → pending t m.store ≡ true
      → pending t (recover_rows have rows m).store ≡ true
  unfolding recover_rows
  recover_rows-keeps have [] m t q p = p
  recover_rows-keeps have ((key, e) ∷ rows) m t q p =
      let m' = recover_one have (wanted m key e) m in
      recover_rows-keeps have rows m' t (recover_one-IsQueue have (wanted m key e) m q)
        (recover_one-keeps have (wanted m key e) m t q p)

  -- Every row's wanted job is pending after the loop.
  recover_rows-queues :
      (have : List Text) (rows : Table Entry) (m : Mirror D) (key : Text) (e : Entry)
      (kind : JobKind)
      → IsQueue m.store
      → ((t : Text) → contains have t ≡ true → pending t m.store ≡ true)
      → lookup key rows ≡ some e
      → wanted m key e ≡ some kind
      → pending (dedupe_id kind) (recover_rows have rows m).store ≡ true
  unfolding recover_rows lookup
  recover_rows-queues have [] m key e kind q old there w = cc
  recover_rows-queues have ((j, f) ∷ rows) m key e kind q old there w =
      elim (Bool-cases (text_beq j key)) [
        | inl same ↦
            let found : f ≡ e = ground arith in
            let here : wanted m j f ≡ some kind = rw ((text_beq_iff j key).0 same, found) w in
            recover_rows-keeps have rows m' (dedupe_id kind) q' (
              subst (λ o. pending (dedupe_id kind) (recover_one have o m).store ≡ true) (sym here)
                (recover_one-queues have kind m q (old (dedupe_id kind))))
        | inr other ↦
            recover_rows-queues have rows m' key e kind q'
              (λ t h. recover_one-keeps have (wanted m j f) m t q (old t h)) (ground arith)
              (wanted-SameRows m m' key e (recover_one-SameRows have (wanted m j f) m) ∙ w)
      ]
    where
      m' : Mirror D
      m' = recover_one have (wanted m j f) m

      q' : IsQueue m'.store
      q' = recover_one-IsQueue have (wanted m j f) m q

  -- From a queue in order, whatever entries have lost their jobs, `recover_jobs` leaves no work
  -- forgotten: every dirty entry and every tombstone that is neither ignored nor skipped has its
  -- push or delete in the queue, or waits for the upload of a conflict.
  pub recover_jobs-IsAccounted : (m : Mirror D) → IsQueue m.store → IsAccounted (recover_jobs m)
  unfolding recover_jobs
  recover_jobs-IsAccounted m q = record {
    queue = recover_rows-IsQueue have m.store.entries m q;
    at = λ key. record {
      pushed = λ e there state kept listed. elim (Bool-cases (awaits_upload m' key)) [
        | inl waits ↦ ground (arith, waits)
        | inr free ↦
            ground
              (arith, queued key e (push key) there (wanted-dirty m' key e state kept listed free))
      ];
      deleted = λ e there state kept listed.
          queued key e (delete key none) there (wanted-tombstone m' key e state kept listed);
    };
  }
    where
      have : List Text
      have = ids m.store.jobs

      m' : Mirror D
      m' = recover_rows have m.store.entries m

      rows : SameRows m m'
      rows = recover_rows-SameRows have m.store.entries m

      queued :
          (key : Text) (e : Entry) (kind : JobKind)
          → lookup key m'.store.entries ≡ some e
          → wanted m' key e ≡ some kind
          → pending (dedupe_id kind) m'.store ≡ true
      queued key e kind there w =
          recover_rows-queues have m.store.entries m key e kind q (λ t h. h)
            (sym (ap (lookup key) rows.entries) ∙ there) (sym (wanted-SameRows m m' key e rows) ∙ w)
