-- ===== src/Engine/Reconcile.antt =====
-- The decision for one key, carried out (src/mirror/sync.rs, `reconcile_key` and its callers).
pub mod Protected
pub mod Trashed
pub mod Deferred
pub mod Absent
use canvas_fuse.Prelude.{
  ℕ, Bool, true, false, ◌&&◌, ◌||◌, not, Option, none, some, List, [], ◌∷◌, Text, codes, text_eq,
  nat_eq, option_eq, ◌==◌, is_some, is_some_and, any, is_empty, get_or, if◌then◌else◌,
}
use canvas_fuse.Prelude.Table.{lookup}
use canvas_fuse.Paths.{normalize_key}
use canvas_fuse.Reconcile.{
  Action, nothing, push, delete_remote, pull, trash_local, adopt, conflict, decide,
}
use canvas_fuse.Hub.{RemoteStat, Result, ok, err, other, propagate, keep, Change, ChangeOp, rename}
use canvas_fuse.Local
use canvas_fuse.Local.{Local}
use canvas_fuse.Store
use canvas_fuse.Store.{Store, Entry, clean, dirty, tombstone, Base, JobKind}
use canvas_fuse.Store.Ledger.{put_entry, remove_entry, put_base, remove_base, put_trashed, rekey}
use canvas_fuse.Store.Queue
use canvas_fuse.Mirror.{
  Mirror, Op, ◌>>=◌, on_store, show, view_remove, view_rename, defer, is_ignored, is_open_for_write,
  pending_directory_move, block_action, protected_download_allowed, ensure_job, enqueue,
  record_dirs_for,
}
use canvas_fuse.Mirror.Writes.{on_disk}
use canvas_fuse.Engine.{Client}
use canvas_fuse.Engine.Scan.{live}
use canvas_fuse.Engine.Pull.{pull_key, record_conflict}

-- A queued rename from or to the key.
abbrev pub renames : Text → JobKind → Bool
renames key (JobKind.rename from to) = from == key || to == key
renames key _ = false

module _ {D : Type 0} (local : Local D) where
  -- `decide` on what is here.
  unfoldable pub decided : Text → Option RemoteStat → Mirror D → Action
  decided key remote m =
      decide (elim (live (lookup key m.store.entries)) [ none ↦ none | some e ↦ some e.sha256 ])
        (elim (lookup key m.store.bases) [ none ↦ none | some b ↦ some b.sha256 ])
        (elim remote [ none ↦ none | some r ↦ some r.sha256 ])

  -- `let blocked = match &action`: what protected mode stops.
  unfoldable pub blocked_by : Text → Action → Mirror D → Option Text
  blocked_by key trash_local m = some (codes "trash local file")
  blocked_by key (pull _) m =
      if protected_download_allowed local key m.disk
      then none
      else some (codes "replace local file")
  blocked_by key (conflict _) m = some (codes "resolve conflict and replace local file")
  blocked_by key (delete_remote _) m = some (codes "delete upstream file")
  blocked_by key (push (some _)) m = some (codes "replace upstream file")
  blocked_by key _ m = none

  -- The hub deleted the object under us: the agreed version is void.
  unfoldable pub void_base : Text → Option Text → Mirror D → Mirror D
  void_base key if_match m =
      if not (is_some if_match) && is_some (lookup key m.store.bases)
      then record (on_store (remove_base key) m) { protected_jobs = [] }
      else m

  -- `Action::Push`.
  unfoldable pub do_push : Text → Option Text → Mirror D → Mirror D
  do_push key if_match m =
      let m' = void_base key if_match m in
      ensure_job (JobKind.push key) (elim (lookup key m.store.entries) [
        | none ↦ m'
        | some e ↦ on_store (put_entry key (record e { state = dirty })) m'
      ])

  -- `Action::DeleteRemote`.
  unfoldable pub do_delete : Text → Mirror D → Mirror D
  do_delete key m = elim m.opts.deletes [
    | propagate ↦ ensure_job (JobKind.delete key none) m
    | keep ↦ on_store (λ s. remove_base key (remove_entry key s)) m
  ]

  unfoldable pub forget : Text → Mirror D → Mirror D
  forget key m =
      show (view_remove key)
        (on_store (λ s. remove_base key (remove_entry key (Queue.remove_jobs_for key s).1)) m)

  -- `match self.local.trash_put(key)`: the bytes are kept, or nothing is forgotten.
  unfoldable pub settle_trash : Text → Entry → Result (Unit {0}) → Op D (Unit {0})
  settle_trash key e (err _) m = (err other, m)
  settle_trash key e (ok _) m =
      let t : Store.Trashed = record { sha256 = e.sha256; size = e.size; ts = m.now } in
      (ok tt, forget key (on_store (put_trashed key t) m))

  -- `Action::TrashLocal`.
  unfoldable pub do_trash : Text → Op D (Unit {0})
  do_trash key m = elim (lookup key m.store.entries) [
    | none ↦ (ok tt, forget key m)
    | some e ↦ let (kept, m') = on_disk (local.trash_put key) m in settle_trash key e kept m'
  ]

  -- `Action::Adopt`.
  unfoldable pub do_adopt : Text → Option RemoteStat → ℕ → Mirror D → Mirror D
  do_adopt key remote seq m = elim (lookup key m.store.entries) [
    | none ↦ on_store (λ s. (Queue.remove_jobs_for key (remove_base key (remove_entry key s))).1) m
    | some e ↦
        let b : Base = record {
          sha256 = e.sha256;
          size = e.size;
          mtime = elim remote [ none ↦ e.mtime | some r ↦ r.mtime ];
          remote_seq = seq;
        } in
        on_store
          (λ s.
            (Queue.remove_jobs_for key
              (put_entry key (record e { state = clean }) (put_base key b s))).1)
          m
  ]

  module _ (client : Client D) where
    -- `match action`.
    unfoldable pub act : Text → Option RemoteStat → ℕ → Action → Op D (Unit {0})
    act key remote seq nothing m = (ok tt, m)
    act key remote seq (push if_match) m = (ok tt, do_push key if_match m)
    act key remote seq (delete_remote _) m = (ok tt, do_delete key m)
    act key remote seq (pull _) m = elim remote [
      | none ↦ (ok tt, m)
      | some r ↦ pull_key local client key r seq (lookup key m.store.entries) m
    ]
    act key remote seq trash_local m = do_trash key m
    act key remote seq adopt m = (ok tt, do_adopt key remote seq m)
    act key remote seq (conflict r) m = elim (lookup key m.store.entries) [
      | none ↦ (ok tt, m)
      | some e ↦
          let base : Option Text = elim (lookup key m.store.bases) [
            | none ↦ none
            | some b ↦ some b.sha256
          ] in
          (ok tt, record_conflict local client key e base r m)
    ]

    -- `if self.opts.protected`: the words for what is stopped.
    unfoldable pub stopped_by : Text → Action → Mirror D → Option Text
    stopped_by key action m = if m.opts.protected then blocked_by key action m else none

    -- Protected mode records what it stops, and does nothing else.
    unfoldable pub act_unless_blocked : Text → Option RemoteStat → ℕ → Action → Op D (Unit {0})
    act_unless_blocked key remote seq action m = elim (stopped_by key action m) [
      | some words ↦
          let sha : Option Text = elim remote [ none ↦ none | some r ↦ some r.sha256 ] in
          (ok tt, block_action words key none sha m)
      | none ↦ act key remote seq action m
    ]

    unfoldable pub reconcile_key : Text → Option RemoteStat → ℕ → Op D (Unit {0})
    reconcile_key key remote seq m =
        if is_empty key || (is_ignored m key || pending_directory_move m key)
        then (ok tt, m)
        else if is_open_for_write m key || any (λ j. renames key j.kind) m.store.jobs
        then (ok tt, defer key m)
        else act_unless_blocked key remote seq (decided key remote m) m

    -- The loop over the drained keys. An error leaves the keys after it undone, and lost.
    unfoldable pub recheck_each : List Text → Op D (Unit {0})
    recheck_each [] m = (ok tt, m)
    recheck_each (key ∷ keys) m =
        if pending_directory_move m key
        then recheck_each keys m
        else if is_open_for_write m key
        then recheck_each keys (defer key m)
        else let (asked, m') = client.head_object key m in
          elim asked [
            | err e ↦ (err e, m')
            | ok stat ↦
                let (done, m'') = reconcile_key key stat 0 m' in
                elim done [ err e ↦ (err e, m'') | ok _ ↦ recheck_each keys m'' ]
          ]

    -- `recheck` is emptied before the loop.
    unfoldable pub recheck_deferred : Op D (Unit {0})
    recheck_deferred m = recheck_each m.recheck (record m { recheck = [] })
