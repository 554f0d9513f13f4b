-- ===== src/Engine/Reconcile/Protected.antt =====
-- Protected mode in the decision for one key (src/mirror/sync.rs, `reconcile_key`).
use canvas_fuse.Prelude.{
  ℕ, ◌≡◌, refl, ◌∙◌, ap, Bool, true, false, ◌||◌, ◌&&◌, Option, none, some, Text, text_beq_iff,
  arith, Bool-cases, Option-cases, is_some, not, any, is_empty, inl, inr, text_eq,
}
use canvas_fuse.Prelude.Table.{Table, lookup, lookup-insert, lookup-remove}
use canvas_fuse.Hub.{RemoteStat}
use canvas_fuse.Local.{Local}
use canvas_fuse.Reconcile.{Action, nothing, push, delete_remote, pull, trash_local, adopt, conflict}
use canvas_fuse.Store.{Entry, dirty, clean, JobKind, dedupe_id}
use canvas_fuse.Store.Queue
use canvas_fuse.Store.Ledger.{put_entry, remove_base, remove_entry, put_base, record_blocked}
use canvas_fuse.Mirror.{
  Mirror, on_store, defer, block_action, ensure_job, is_ignored, pending_directory_move,
  is_open_for_write,
}
use canvas_fuse.Mirror.Quiet.{block_action-SameWork}
use canvas_fuse.Engine.{Client}
use canvas_fuse.Engine.Reconcile.{
  decided, blocked_by, stopped_by, do_push, void_base, do_adopt, renames, act, act_unless_blocked,
  reconcile_key,
}

-- The digest of the bytes here that the store knows.
abbrev sha_at : {D : Type 0} → Text → Mirror D → Option Text
sha_at key m = elim (lookup key m.store.entries) [ none ↦ none | some e ↦ some e.sha256 ]

abbrev rows_sha : Text → Table Entry → Option Text
rows_sha key rows = elim (lookup key rows) [ none ↦ none | some e ↦ some e.sha256 ]

abbrev pub is_pull : Action → Bool
is_pull (pull _) = true
is_pull _ = false

-- The bytes of the folder and of the trash are left as they are, and so is what is known of them.
pub record KeepsBytes {D : Type 0} (m m' : Mirror D) : Type 0 where
  pub disk : m'.disk ≡ m.disk
  pub trash : m'.store.trash ≡ m.store.trash
  pub known : (key : Text) → sha_at key m' ≡ sha_at key m

module _ {D : Type 0} where
  KeepsBytes-refl : (m : Mirror D) → KeepsBytes m m
  KeepsBytes-refl m = record { disk = refl; trash = refl; known = λ j. refl }

  block_action-KeepsBytes :
      (action key : Text) (to remote : Option Text) (m : Mirror D)
      → KeepsBytes m (block_action action key to remote m)
  unfolding block_action record_blocked
  block_action-KeepsBytes action key to remote m = record {
    disk = refl;
    trash = ground arith;
    known = λ j. ap (rows_sha j) (block_action-SameWork action key to remote m).entries;
  }

  -- A pending job changes the queue alone.
  ensure_job-KeepsBytes : (kind : JobKind) (m : Mirror D) → KeepsBytes m (ensure_job kind m)
  unfolding ensure_job Queue.ensure_job Queue.enqueue_with_priority
  ensure_job-KeepsBytes kind m = elim (Bool-cases (Queue.has_id (dedupe_id kind) m.store.jobs)) [
    | inl there ↦ rw (there, Queue.ensure_job) (KeepsBytes-refl m)
    | inr new ↦ rw (new, Queue.ensure_job) (record { disk = refl; trash = refl; known = λ j. refl })
  ]

  KeepsBytes-trans : (m m' m'' : Mirror D) → KeepsBytes m m' → KeepsBytes m' m'' → KeepsBytes m m''
  KeepsBytes-trans m m' m'' a b = record {
    disk = b.disk ∙ a.disk;
    trash = b.trash ∙ a.trash;
    known = λ j. b.known j ∙ a.known j;
  }

  -- An entry is written again with its digest.
  restate-KeepsBytes :
      (key : Text) (e e' : Entry) (m : Mirror D)
      → lookup key m.store.entries ≡ some e
      → e'.sha256 ≡ e.sha256
      → KeepsBytes m (on_store (put_entry key e') m)
  unfolding on_store put_entry
  restate-KeepsBytes key e e' m there same = record {
    disk = refl;
    trash = refl;
    known = λ j. ground (
      arith,
      lookup-insert key j e' m.store.entries,
      text_beq_iff key j,
      λ (p : key ≡ j). ap (λ k. lookup k m.store.entries) p,
    );
  }

  void_base-KeepsBytes :
      (local : Local D) (key : Text) (o : Option Text) (m : Mirror D)
      → KeepsBytes m (void_base local key o m)
        × ((void_base local key o m).store.entries ≡ m.store.entries)
  unfolding void_base on_store remove_base
  void_base-KeepsBytes local key o m =
      elim (Bool-cases (not (is_some o) && is_some (lookup key m.store.bases))) [
        | inl void ↦
            rw (void, void_base) (record { disk = refl; trash = refl; known = λ j. refl }, refl)
        | inr kept ↦ rw (kept, void_base) (KeepsBytes-refl m, refl)
      ]

  do_push-KeepsBytes :
      (local : Local D) (key : Text) (o : Option Text) (m : Mirror D)
      → KeepsBytes m (do_push local key o m)
  unfolding do_push
  do_push-KeepsBytes local key o m =
      let (kept, rows) = void_base-KeepsBytes local key o m in
      elim (Option-cases (lookup key m.store.entries)) [
        | inl absent ↦
            rw (absent, do_push)
              (KeepsBytes-trans m (void_base local key o m) _ kept
                (ensure_job-KeepsBytes (JobKind.push key) (void_base local key o m)))
        | inr (e, there) ↦
            let m' =
              on_store (put_entry key (record e { state = dirty })) (void_base local key o m) in
            rw (there, do_push)
              (KeepsBytes-trans m m' _
                (KeepsBytes-trans m (void_base local key o m) m' kept (
                  restate-KeepsBytes key e (record e { state = dirty }) (void_base local key o m)
                    (ap (lookup key) rows ∙ there) refl))
                (ensure_job-KeepsBytes (JobKind.push key) m'))
      ]

  do_adopt-KeepsBytes :
      (local : Local D) (key : Text) (o : Option RemoteStat) (seq : ℕ) (m : Mirror D)
      → KeepsBytes m (do_adopt local key o seq m)
  unfolding do_adopt on_store remove_base remove_entry put_entry put_base Queue.remove_jobs_for
  do_adopt-KeepsBytes local key o seq m = elim (Option-cases (lookup key m.store.entries)) [
    | inl absent ↦
        rw (absent, do_adopt)
          (record {
            disk = refl;
            trash = refl;
            known = λ j. ground (
              arith,
              lookup-remove key j m.store.entries,
              text_beq_iff key j,
              λ (p : key ≡ j). ap (λ k. lookup k m.store.entries) p,
            );
          })
    | inr (e, there) ↦
        rw (there, do_adopt)
          (record {
            disk = refl;
            trash = refl;
            known = (restate-KeepsBytes key e (record e { state = clean }) m there refl).known;
          })
  ]

  module _ (local : Local D) (client : Client D) where
    act-KeepsBytes :
        (key : Text) (remote : Option RemoteStat) (seq : ℕ) (action : Action) (m : Mirror D)
        → is_pull action ≡ false
        → blocked_by local key action m ≡ none
        → KeepsBytes m (act local client key remote seq action m).1
    unfolding act blocked_by
    act-KeepsBytes key remote seq nothing m h free = KeepsBytes-refl m
    act-KeepsBytes key remote seq (push o) m h free = do_push-KeepsBytes local key o m
    act-KeepsBytes key remote seq (delete_remote _) m h free = absurd (ground arith)
    act-KeepsBytes key remote seq (pull _) m h free = absurd (ground arith)
    act-KeepsBytes key remote seq trash_local m h free = absurd (ground arith)
    act-KeepsBytes key remote seq adopt m h free = do_adopt-KeepsBytes local key remote seq m
    act-KeepsBytes key remote seq (conflict _) m h free = absurd (ground arith)

    unstopped :
        (key : Text) (action : Action) (m : Mirror D)
        → m.opts.protected ≡ true
        → stopped_by local client key action m ≡ none
        → blocked_by local key action m ≡ none
    unfolding stopped_by
    unstopped key action m p free = ground arith

    unless_blocked :
        (key : Text) (remote : Option RemoteStat) (seq : ℕ) (m : Mirror D)
        → m.opts.protected ≡ true
        → is_pull (decided local key remote m) ≡ false
        → KeepsBytes m
            (act_unless_blocked local client key remote seq (decided local key remote m) m).1
    unfolding act_unless_blocked
    unless_blocked key remote seq m p h =
        elim (Option-cases (stopped_by local client key (decided local key remote m) m)) [
          | inl free ↦
              rw (free, act_unless_blocked)
                (act-KeepsBytes key remote seq (decided local key remote m) m h
                  (unstopped key (decided local key remote m) m p free))
          | inr (words, stopped) ↦
              rw (stopped, act_unless_blocked) (block_action-KeepsBytes words key none _ m)
        ]

    -- In protected mode, the reconciliation of a key for which the hub's bytes are not due changes no
    -- byte of the folder or of the trash, and forgets none: each file keeps the digest that the store
    -- knows of it.
    pub reconcile_key-KeepsBytes :
        (key : Text) (remote : Option RemoteStat) (seq : ℕ) (m : Mirror D)
        → m.opts.protected ≡ true
        → is_pull (decided local key remote m) ≡ false
        → KeepsBytes m (reconcile_key local client key remote seq m).1
    unfolding reconcile_key act_unless_blocked defer
    reconcile_key-KeepsBytes key remote seq m p h =
        elim (Bool-cases (is_empty key || (is_ignored m key || pending_directory_move m key))) [
          | inl out ↦ rw (out, reconcile_key) (KeepsBytes-refl m)
          | inr live ↦
              elim (Bool-cases
                (is_open_for_write m key || any (λ j. renames key j.kind) m.store.jobs)) [
                  | inl busy ↦
                      rw (live, reconcile_key, busy)
                        (record { disk = refl; trash = refl; known = λ j. refl })
                  | inr free ↦ rw (live, reconcile_key, free) (unless_blocked key remote seq m p h)
                ]
        ]
