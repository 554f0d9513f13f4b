-- ===== src/Mirror/Moves/Files.antt =====
-- The move of a file that the hub knows (src/mirror/sync.rs, `rename_local` and `rekey_entry`).
use canvas_fuse.Prelude.{
  ℕ, zero, suc, is_empty, length, ◌+◌, ◌≡◌, refl, ◌∙◌, ap, true, false, none, some, Text, arith,
  Bool-cases, Option-cases, inl, inr, List, [], ◌∷◌, ◌||◌, text_beq, text_beq_refl, text_beq_iff,
  is_some, text_eq, contains,
}
use canvas_fuse.Prelude.Table.{Table, lookup, insert, remove, lookup-insert, lookup-remove}
use canvas_fuse.Paths
use canvas_fuse.Paths.{parent_key}
use canvas_fuse.Hub.{Result, ok}
use canvas_fuse.Local.{Local}
use canvas_fuse.Store.{Store, Job, JobKind, rename, dedupe_id, key_of}
use canvas_fuse.Store.Ledger.{
  rekey, put_conflict, remove_conflict, record_blocked, remove_trashed, add_dir, has_dir,
}
use canvas_fuse.Store.Queue
use canvas_fuse.Store.Queue.Order.{IsQueue, remove_jobs_for-IsQueue}
use canvas_fuse.Store.Queue.Pending.{pending, pending-enqueue}
use canvas_fuse.Mirror.{
  Mirror, ◌>>=◌, ◌>>◌, wake, is_ignored, record_dirs_for, record_dirs_from, block_action, enqueue,
  on_store, clear_obsolete_trash,
}
use canvas_fuse.Mirror.Quiet.{record_dirs_for-SameWork}
use canvas_fuse.Mirror.Grows.{Grows, Grows-refl, Grows-trans, enqueue-Grows}
use canvas_fuse.Mirror.Writes.{on_disk}
use canvas_fuse.Mirror.Moves.{
  rekeyed_kind, move_handle, requeue_one, requeue, tell_moved, move_conflict, settle_moved,
  rekey_rows, rekey_entry, clear_target, rename_local,
}

module _ {V : Type 0} (from to : Text) (t : Table V) where
  -- A row that moves to a free name.
  pub moved_there :
      text_beq from to ≡ false
      → lookup to t ≡ none
      → lookup to (elim (lookup from t) [ none ↦ t | some v ↦ insert to v (remove from t) ])
        ≡ lookup from t
  moved_there apart free = elim (Option-cases (lookup from t)) [
    | inl gone ↦ rw gone free
    | inr (v, here) ↦ rw here (rw lookup-insert (rw text_beq_refl))
  ]

  pub moved_away :
      text_beq from to ≡ false
      → lookup from (elim (lookup from t) [ none ↦ t | some v ↦ insert to v (remove from t) ])
        ≡ none
  moved_away apart = elim (Option-cases (lookup from t)) [
    | inl gone ↦ rw gone gone
    | inr (v, here) ↦ rw here (
        ground (
          arith,
          lookup-insert to from v (remove from t),
          lookup-remove from from t,
          text_beq_refl from,
          text_beq_iff to from,
          text_beq_iff from to,
        ))
  ]

record_dirs_from-bases :
    (rounds : ℕ) (p : Text) (s : Store) → (record_dirs_from rounds p s).bases ≡ s.bases
unfolding record_dirs_from add_dir
record_dirs_from-bases zero p s = refl
record_dirs_from-bases (suc rounds) p s = elim (Bool-cases (is_empty p || has_dir p s)) [
  | inl done ↦ rw done
  | inr more ↦ rw more (record_dirs_from-bases rounds (parent_key p) (add_dir p s))
]

module _ {D : Type 0} where
  requeue_one-Grows : (kind : JobKind) (m : Mirror D) → Grows m (requeue_one kind m)
  unfolding requeue_one
  requeue_one-Grows kind m = elim (Bool-cases (is_ignored m (key_of kind))) [
    | inl out ↦ rw out (Grows-refl m)
    | inr kept ↦ rw kept (enqueue-Grows kind m)
  ]

  requeue-Grows : (from to : Text) (js : List Job) (m : Mirror D) → Grows m (requeue from to js m)
  unfolding requeue
  requeue-Grows from to [] m = Grows-refl m
  requeue-Grows from to (j ∷ js) m =
      let m' = requeue_one (rekeyed_kind from to j.kind) m in
      Grows-trans m m' _ (requeue_one-Grows (rekeyed_kind from to j.kind) m)
        (requeue-Grows from to js m')

  requeue_one-bases :
      (kind : JobKind) (m : Mirror D) → (requeue_one kind m).store.bases ≡ m.store.bases
  unfolding requeue_one enqueue Queue.enqueue Queue.enqueue_with_priority
  requeue_one-bases kind m = ground arith

  requeue-bases :
      (from to : Text) (js : List Job) (m : Mirror D)
      → (requeue from to js m).store.bases ≡ m.store.bases
  unfolding requeue
  requeue-bases from to [] m = refl
  requeue-bases from to (j ∷ js) m =
      requeue-bases from to js _ ∙ requeue_one-bases (rekeyed_kind from to j.kind) m

  -- The rows have moved: what the rest of the move reads.
  record Moved (from to : Text) (m m' : Mirror D) : Type 0 where
    there : lookup to m'.store.entries ≡ lookup from m.store.entries
    away : lookup from m'.store.entries ≡ none
    base : lookup to m'.store.bases ≡ lookup from m.store.bases
    queue : IsQueue m'.store
    ignore : m'.ignore ≡ m.ignore

  -- The steps after the rows have moved leave them alone.
  record SameRows (m m' : Mirror D) : Type 0 where
    entries : m'.store.entries ≡ m.store.entries
    bases : m'.store.bases ≡ m.store.bases
    jobs : m'.store.jobs ≡ m.store.jobs
    numbers : m'.store.numbers ≡ m.store.numbers
    ignore : m'.ignore ≡ m.ignore

  SameRows-trans : (m m' m'' : Mirror D) → SameRows m m' → SameRows m' m'' → SameRows m m''
  SameRows-trans m m' m'' f g = record {
    entries = g.entries ∙ f.entries;
    bases = g.bases ∙ f.bases;
    jobs = g.jobs ∙ f.jobs;
    numbers = g.numbers ∙ f.numbers;
    ignore = g.ignore ∙ f.ignore;
  }

  move_conflict-SameRows : (from to : Text) (m : Mirror D) → SameRows m (move_conflict from to m)
  unfolding move_conflict on_store put_conflict remove_conflict
  move_conflict-SameRows from to m = record {
    entries = ground arith;
    bases = ground arith;
    jobs = ground arith;
    numbers = ground arith;
    ignore = ground arith;
  }

  clear_trash-SameRows :
      (local : Local D) (key : Text) (m : Mirror D) → SameRows m (clear_obsolete_trash local key m)
  unfolding clear_obsolete_trash block_action record_blocked remove_trashed
  clear_trash-SameRows local key m = record {
    entries = ground arith;
    bases = ground arith;
    jobs = ground arith;
    numbers = ground arith;
    ignore = ground arith;
  }

  dirs-SameRows : (key : Text) (m : Mirror D) → SameRows m (on_store (λ s. record_dirs_for key s) m)
  unfolding on_store record_dirs_for
  dirs-SameRows key m =
      let w = record_dirs_for-SameWork key m.store in
      record {
        entries = w.entries;
        bases = record_dirs_from-bases (length key) (parent_key key) m.store;
        jobs = w.jobs;
        numbers = w.numbers;
        ignore = refl;
      }

  -- The rows under their new name, before the steps that leave them alone.
  moved_rows : Text → Text → Mirror D → Mirror D
  moved_rows from to m = on_store (λ s. rekey from to (Queue.remove_jobs_for from s).1) m

  -- The rows have moved, and the rename is queued.
  record Told (from to : Text) (m m' : Mirror D) : Type 0 where
    rows : Moved from to m m'
    job : pending (dedupe_id (rename from to)) m'.store ≡ true

  Moved-Grows :
      (from to : Text) (m x y : Mirror D)
      → Moved from to m x
      → Grows x y
      → y.store.bases ≡ x.store.bases
      → Moved from to m y
  Moved-Grows from to m x y mv g b = record {
    there = ap (lookup to) g.entries ∙ mv.there;
    away = ap (lookup from) g.entries ∙ mv.away;
    base = ap (lookup to) b ∙ mv.base;
    queue = g.queue mv.queue;
    ignore = g.ignore ∙ mv.ignore;
  }

  Told-Grows :
      (from to : Text) (m x y : Mirror D)
      → Told from to m x
      → Grows x y
      → y.store.bases ≡ x.store.bases
      → Told from to m y
  Told-Grows from to m x y t g b = record {
    rows = Moved-Grows from to m x y t.rows g b;
    job = g.jobs (dedupe_id (rename from to)) t.rows.queue t.job;
  }

  ignored_alike :
      (m m' : Mirror D) (key : Text) → m'.ignore ≡ m.ignore → is_ignored m' key ≡ is_ignored m key
  unfolding is_ignored
  ignored_alike m m' key e = ap (λ rules. Paths.is_ignored rules key) e

  told :
      (from to : Text) (m x : Mirror D)
      → Moved from to m x
      → is_ignored m from ≡ false
      → is_ignored m to ≡ false
      → Told from to m (tell_moved from to true x)
  unfolding tell_moved enqueue Queue.enqueue Queue.enqueue_with_priority
  told from to m x mv kept kept' =
      rw (ignored_alike m x from mv.ignore ∙ kept, ignored_alike m x to mv.ignore ∙ kept')
        (record {
          rows = Moved-Grows from to m x _ mv (enqueue-Grows (rename from to) x) refl;
          job =
              rw
                (pending-enqueue x.now (rename from to) x.store (dedupe_id (rename from to))
                  mv.queue)
                (rw text_beq_refl);
        })

  move_handle-Grows : (from to : Text) (m : Mirror D) → Grows m (move_handle from to m)
  unfolding move_handle
  move_handle-Grows from to m = elim (Bool-cases (contains m.open_writes from)) [
    | inl opened ↦ rw opened (record {
      queue = λ q. q;
      entries = refl;
      conflicts = refl;
      skipped = refl;
      ignore = refl;
      jobs = λ t q p. p;
    })
    | inr closed ↦ rw closed (Grows-refl m)
  ]

  move_handle-bases :
      (from to : Text) (m : Mirror D) → (move_handle from to m).store.bases ≡ m.store.bases
  unfolding move_handle
  move_handle-bases from to m = ground arith

  settle_moved-same :
      (to : Text) (m : Mirror D) → is_ignored m to ≡ false → settle_moved to true m ≡ m
  unfolding settle_moved
  settle_moved-same to m kept = elim (Option-cases (lookup to m.store.entries)) [
    | inl gone ↦ rw (settle_moved, gone)
    | inr (e, here) ↦ rw (settle_moved, here, kept)
  ]

  module _ (local : Local D) where
    rekey_rows-SameRows :
        (from to : Text) (m : Mirror D)
        → SameRows (moved_rows from to m) (rekey_rows local from to m)
    unfolding rekey_rows moved_rows on_store
    rekey_rows-SameRows from to m =
        let m1 = moved_rows from to m in
        let m2 = on_store (λ s. record_dirs_for to s) m1 in
        SameRows-trans m1 m2 _ (dirs-SameRows to m1) (
          SameRows-trans m2 (move_conflict from to m2) _ (move_conflict-SameRows from to m2)
            (clear_trash-SameRows local to (move_conflict from to m2)))

    rekey_rows-Moved :
        (from to : Text) (m : Mirror D)
        → IsQueue m.store
        → text_beq from to ≡ false
        → lookup to m.store.entries ≡ none
        → lookup to m.store.bases ≡ none
        → Moved from to m (rekey_rows local from to m)
    unfolding moved_rows on_store rekey Queue.last_seq Queue.remove_jobs_for
    rekey_rows-Moved from to m q apart free fresh =
        let w = rekey_rows-SameRows from to m in
        let q' = remove_jobs_for-IsQueue from m.store q in
        record {
          there = ap (lookup to) w.entries ∙ moved_there from to m.store.entries apart free;
          away = ap (lookup from) w.entries ∙ moved_away from to m.store.entries apart;
          base = ap (lookup to) w.bases ∙ moved_there from to m.store.bases apart fresh;
          queue = record {
            ascending = rw w.jobs q'.ascending;
            handed_out = rw (w.jobs, w.numbers) q'.handed_out;
            distinct = rw w.jobs q'.distinct;
          };
          ignore = w.ignore;
        }

    -- What the hub is told of a file that it knows.
    rekey_entry-TellsHub :
        (from to : Text) (m : Mirror D)
        → IsQueue m.store
        → text_beq from to ≡ false
        → lookup to m.store.entries ≡ none
        → lookup to m.store.bases ≡ none
        → is_some (lookup from m.store.bases) ≡ true
        → is_ignored m from ≡ false
        → is_ignored m to ≡ false
        → Told from to m (rekey_entry local from to m)
    unfolding rekey_entry
    rekey_entry-TellsHub from to m q apart free fresh known kept kept' =
        let r = rekey_rows local from to m in
        let mv = rekey_rows-Moved from to m q apart free fresh in
        let t = tell_moved from to true r in
        let js = (Queue.remove_jobs_for from m.store).0 in
        let u = requeue from to js t in
        let base : is_some (lookup to r.store.bases) ≡ true = rw mv.base known in
        let done : Told from to m u =
          Told-Grows from to m t u (told from to m r mv kept kept') (requeue-Grows from to js t)
            (requeue-bases from to js t) in
        rw base (
          rw (settle_moved-same to u (ignored_alike m u to done.rows.ignore ∙ kept')) (
            Told-Grows from to m u _ done (move_handle-Grows from to u)
              (move_handle-bases from to u)))

    clear_free :
        (to : Text) (m : Mirror D)
        → lookup to m.store.entries ≡ none
        → clear_target local to m ≡ (ok tt, m)
    unfolding clear_target
    clear_free to m free = rw (clear_target, free)

    renamed :
        (from to : Text) (m : Mirror D) (d : D)
        → text_beq from to ≡ false
        → lookup to m.store.entries ≡ none
        → is_some (lookup from m.store.bases) ≡ true
        → local.rename from to m.disk ≡ (ok tt, d)
        → rename_local local from to m ≡ (
          ok tt,
          wake (
              rekey_entry local from to
                (record m { directory_epoch = m.directory_epoch + 1; disk = d })),
        )
    unfolding rename_local on_disk
    renamed from to m d apart free known done =
        rw (rename_local, apart, known)
          (ap then_move (clear_free to (record m { directory_epoch = m.directory_epoch + 1 }) free)
            ∙ ap then_rekey done)
      where
        then_rekey : Result (Unit {0}) × D → Result (Unit {0}) × Mirror D
        then_rekey x =
            ◌>>=◌ (λ m'. (x.0, record m' { disk = x.1 }))
              (λ _ m'. (ok tt, wake (rekey_entry local from to m')))
              (record m { directory_epoch = m.directory_epoch + 1 })

        then_move : Result (Unit {0}) × Mirror D → Result (Unit {0}) × Mirror D
        then_move x =
            ◌>>=◌ (λ _. x)
              (λ _. on_disk (local.rename from to) >> λ m'.
                (ok tt, wake (rekey_entry local from to m')))
              m

    -- If a file that the hub knows is moved on the disk from one path to another, of which no rule
    -- excludes either, where the ledger has nothing at the new path and the queue is in order: the
    -- call succeeds, the entry and the base are under the new path and the entry is no longer under
    -- the old one, and the rename is queued for the hub.
    pub rename_local-TellsHub :
        (from to : Text) (m : Mirror D) (d : D)
        → IsQueue m.store
        → text_beq from to ≡ false
        → lookup to m.store.entries ≡ none
        → lookup to m.store.bases ≡ none
        → is_some (lookup from m.store.bases) ≡ true
        → is_ignored m from ≡ false
        → is_ignored m to ≡ false
        → local.rename from to m.disk ≡ (ok tt, d)
        → ((rename_local local from to m).0 ≡ ok tt)
          × (lookup to (rename_local local from to m).1.store.entries ≡ lookup from m.store.entries)
          × (lookup from (rename_local local from to m).1.store.entries ≡ none)
          × (lookup to (rename_local local from to m).1.store.bases ≡ lookup from m.store.bases)
          × (pending (dedupe_id (rename from to)) (rename_local local from to m).1.store ≡ true)
    unfolding wake is_ignored
    rename_local-TellsHub from to m d q apart free fresh known kept kept' done =
        let m' : Mirror D = record m { directory_epoch = m.directory_epoch + 1; disk = d } in
        let t = rekey_entry-TellsHub from to m' q apart free fresh known kept kept' in
        rw (renamed from to m d apart free known done)
          (refl, t.rows.there, t.rows.away, t.rows.base, t.job)
