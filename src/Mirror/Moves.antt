-- ===== src/Mirror/Moves.antt =====
-- Moves on the session thread (src/mirror/sync.rs): `mv` of a file and of a directory, and the
-- recovery of directory moves that a crash has interrupted.
pub mod Failed
pub mod Files
use canvas_fuse.Prelude.{
  ℕ, ◌+◌, Bool, true, false, ◌&&◌, ◌||◌, not, Option, none, some, List, [], ◌∷◌, ◌++◌, Text, codes,
  text_eq, nat_eq, ◌==◌, is_some, is_some_and, any, contains, put, without, if◌then◌else◌,
}
use canvas_fuse.Prelude.Table.{Table, lookup}
use canvas_fuse.Paths.{slash, under, overlaps}
use canvas_fuse.Hub.{Result, ok, err, other}
use canvas_fuse.Local
use canvas_fuse.Local.{Local}
use canvas_fuse.Store.{
  Store, Entry, Base, clean, dirty, Job, JobKind, push, delete, rename, rename_dir, conflict, mkdir,
  rmdir, DirMove, key_of, state_beq,
}
use canvas_fuse.Store.Ledger.{
  put_entry, remove_base, rekey, get_meta, upload_key, put_conflict, remove_conflict, bases_with,
  dir_has_children,
}
use canvas_fuse.Store.Queue
use canvas_fuse.Store.Queue.{job_at, remove_job}
use canvas_fuse.Store.Move.{mapped, apply_directory_rename}
use canvas_fuse.Mirror.{
  Mirror, Op, ◌>>=◌, ◌>>◌, pure, on_store, wake, enqueue, skip, excluded, is_ignored, block_action,
  record_dirs_for, clear_obsolete_trash,
}
use canvas_fuse.Mirror.Writes.{on_disk, delete_local}

-- The device of the folder when it was marked, and its device now.
pub record Devices : Type 0 where
  pub marked : ℕ
  pub current : ℕ

unfoldable pub matches_legacy_device : Devices → ℕ → ℕ → Bool
matches_legacy_device ds recorded found =
    recorded == found || (recorded == ds.marked && found == ds.current)

-- `match job.kind` in the loop over the dropped jobs.
unfoldable pub rekeyed_kind : Text → Text → JobKind → JobKind
rekeyed_kind from to (push _) = push to
rekeyed_kind from to (conflict _ l b) = conflict to l b
rekeyed_kind from to (rename f t) = if f == from then rename f to else rename f t
rekeyed_kind from to (delete key m) = delete key m
rekeyed_kind from to (rename_dir d) = rename_dir d
rekeyed_kind from to (mkdir key) = mkdir key
rekeyed_kind from to (rmdir key) = rmdir key

-- The open handles of a moved directory.
unfoldable pub moved_handles : Text → Text → List Text → List Text
moved_handles from to [] = []
moved_handles from to (key ∷ keys) =
    put (if under key from then mapped from to key else key) (moved_handles from to keys)

module _ {D : Type 0} where
  unfoldable pub agreed_sha : Text → Mirror D → Option Text
  agreed_sha key m = elim (lookup key m.store.bases) [ none ↦ none | some b ↦ some b.sha256 ]

  -- `if writes.remove(from) { writes.insert(to) }`
  unfoldable pub move_handle : Text → Text → Mirror D → Mirror D
  move_handle from to m =
      if contains m.open_writes from
      then record m { open_writes = put to (without from m.open_writes) }
      else m

  -- A round of the loop over the dropped jobs, and the loop.
  unfoldable pub requeue_one : JobKind → Mirror D → Mirror D
  requeue_one kind m = if is_ignored m (key_of kind) then m else enqueue kind m

  unfoldable pub requeue : Text → Text → List Job → Mirror D → Mirror D
  requeue from to [] m = m
  requeue from to (j ∷ js) m = requeue from to js (requeue_one (rekeyed_kind from to j.kind) m)

  -- A file that the hub may have is renamed there; into an excluded name, it is deleted there.
  unfoldable pub tell_moved : Text → Text → Bool → Mirror D → Mirror D
  tell_moved from to has_base m =
      if (has_base || is_some (get_meta (upload_key from) m.store)) && not (is_ignored m from)
      then if is_ignored m to
        then enqueue (delete from (agreed_sha to m)) (on_store (remove_base to) m)
        else enqueue (rename from to) m
      else m

  unfoldable pub move_conflict : Text → Text → Mirror D → Mirror D
  move_conflict from to m = elim (lookup from m.store.conflicts) [
    | none ↦ m
    | some c ↦ on_store (λ s. put_conflict (record c { key = to }) (remove_conflict from s)) m
  ]

  -- `if let Some(mut e) = self.store.entry(to)`.
  unfoldable pub settle_moved : Text → Bool → Mirror D → Mirror D
  settle_moved to has_base m = elim (lookup to m.store.entries) [
    | none ↦ m
    | some e ↦
        if is_ignored m to
        then skip to excluded m
        else if not has_base && state_beq e.state clean
        then enqueue (push to) (on_store (put_entry to (record e { state = dirty })) m)
        else m
  ]

  unfoldable pub mark_dirty : Text → Mirror D → Mirror D
  mark_dirty key m = elim (lookup key m.store.entries) [
    | none ↦ m
    | some e ↦ on_store (put_entry key (record e { state = dirty })) m
  ]

  module _ (local : Local D) where
    -- The rows of the ledger, up to the obsolete trash.
    unfoldable pub rekey_rows : Text → Text → Mirror D → Mirror D
    rekey_rows from to m = clear_obsolete_trash local to (
        move_conflict from to
          (on_store (λ s. record_dirs_for to (rekey from to (Queue.remove_jobs_for from s).1)) m))

    unfoldable pub rekey_entry : Text → Text → Mirror D → Mirror D
    rekey_entry from to m =
        let dropped = (Queue.remove_jobs_for from m.store).0 in
        let m' = rekey_rows from to m in
        let has_base = is_some (lookup to m'.store.bases) in
        move_handle from to
          (settle_moved to has_base (requeue from to dropped (tell_moved from to has_base m')))

    -- A new file was saved over another one: the ledger's side.
    unfoldable pub save_over : Text → Text → Mirror D → Mirror D
    save_over from to m =
        let m1 = on_store (λ s. (Queue.remove_jobs_for from s).1) m in
        let m2 =
          if is_some (get_meta (upload_key from) m1.store)
          then enqueue (delete from none) m1
          else m1 in
        let m3 =
          move_handle from to (on_store (λ s. rekey from to (Queue.remove_jobs_for to s).1) m2) in
        let m4 = mark_dirty to m3 in
        let m5 = if is_ignored m4 to then m4 else enqueue (push to) m4 in
        wake (on_store (record_dirs_for to) m5)

    -- `if let Some(base) = destination_base { enqueue(Delete) }`.
    unfoldable pub delete_there : Text → Option Base → Mirror D → Mirror D
    delete_there to none m = m
    delete_there to (some b) m = enqueue (delete to (some b.sha256)) m

    -- The destination goes first.
    unfoldable pub clear_target : Text → Op D (Unit {0})
    clear_target to m =
        if is_some (lookup to m.store.entries)
        then (delete_local local to >>= λ existed m'.
              (ok tt, delete_there to (lookup to m.store.bases) m'))
            m
        else (ok tt, m)

    unfoldable pub rename_local : Text → Text → Op D (Unit {0})
    rename_local from to m =
        let m' = record m { directory_epoch = m.directory_epoch + 1 } in
        if from == to
        then (ok tt, m)
        else if not (is_some (lookup from m.store.bases)) && is_some (lookup to m.store.entries)
        then (on_disk (local.rename from to) >> λ x. (ok tt, save_over from to x)) m'
        else (clear_target to
              >> (on_disk (local.rename from to) >> λ x. (ok tt, wake (rekey_entry from to x))))
            m'

module _ {D : Type 0} (local : Local D) (devices : Devices) where
  -- The closure `is_original`.
  unfoldable pub is_original : DirMove → Text → D → Bool
  is_original d key disk = elim (local.own_directory key disk) [
    | none ↦ false
    | some (dev, ino) ↦ ino == d.ino && elim d.directory_identity [
      | some id ↦ is_some_and (local.directory_identity key disk) (λ x. x == id)
      | none ↦ matches_legacy_device devices d.dev dev
    ]
  ]

  -- The ledger follows the directory.
  unfoldable pub commit_move : Job → DirMove → Mirror D → Mirror D
  commit_move job d m =
      record (on_store (λ s. record_dirs_for d.to (apply_directory_rename job s)) m) {
        open_writes = moved_handles d.from d.to m.open_writes;
      }

  unfoldable pub move_on_disk : DirMove → Op D (Unit {0})
  move_on_disk d m =
      if is_original d d.from m.disk then on_disk (local.rename d.from d.to) m else (ok tt, m)

  unfoldable pub commit_if_moved : Job → DirMove → Op D (Unit {0})
  commit_if_moved job d m =
      if is_original d d.to m.disk then (ok tt, commit_move job d m) else (err other, m)

  unfoldable pub finish_directory_move : Job → Op D (Unit {0})
  finish_directory_move job m = elim job.kind [
    | rename_dir d ↦
        if d.local_applied then (ok tt, m) else (move_on_disk d >> commit_if_moved job d) m
    | _ ↦ (ok tt, m)
  ]

  -- What protected mode holds back: the directory has not moved yet.
  unfoldable pub held_move : Job → Mirror D → Option DirMove
  held_move job m =
      if m.opts.protected
      then elim job.kind [
        | rename_dir d ↦
            if not d.local_applied && Local.is_dir local d.from m.disk then some d else none
        | _ ↦ none
      ]
      else none

  unfoldable pub recover_each : List Job → Op D (Unit {0})
  recover_each [] m = (ok tt, m)
  recover_each (job ∷ jobs) m = elim (held_move job m) [
    | some d ↦
        recover_each jobs
          (block_action (codes "complete pending local directory rename") d.from (some d.to) none m)
    | none ↦ (finish_directory_move job >> recover_each jobs) m
  ]

  unfoldable pub recover_directory_moves : Op D (Unit {0})
  recover_directory_moves m = recover_each m.store.jobs m

  -- Nothing in the directory is known to the hub.
  unfoldable pub is_local_only : Text → Text → Mirror D → Bool
  is_local_only from to m =
      is_ignored m from && is_ignored m to || elim (bases_with (from ++ (slash ∷ [])) m.store) [
        | [] ↦ any (λ j. elim j.kind [ mkdir key ↦ key == from | _ ↦ false ]) m.store.jobs
        | _ ∷ _ ↦ false
      ]

  -- The destination excludes a file that is synchronised.
  unfoldable pub excludes_synced : Text → Text → Mirror D → Bool
  excludes_synced from to m =
      any (λ row. is_ignored m (mapped from to row.0)) (bases_with (from ++ (slash ∷ [])) m.store)

  -- The checks before a directory moves.
  unfoldable pub may_move : Text → Text → Mirror D → Bool
  may_move from to m =
      not (overlaps from to)
      && (not (dir_has_children to m.store)
          && not (is_some (lookup to m.store.entries))
          && ((is_local_only from to m || (not (is_ignored m from) && not (is_ignored m to)))
              && not (excludes_synced from to m)))

  -- The intent; `fresh` is the random operation id.
  unfoldable pub move_intent : Text → Text → Option Text → Mirror D → Option DirMove
  move_intent from to fresh m = do
    (dev, ino) ← local.metadata from m.disk
    operation_id ← fresh
    identity ← local.directory_identity from m.disk
    some (record {
      from = from;
      to = to;
      operation_id = operation_id;
      dev = dev;
      ino = ino;
      directory_identity = some identity;
      local_applied = false;
      remote = not (is_local_only from to m);
    })
    where
      infixl 10 ◌>>=◌
      ◌>>=◌ : {A B : Type 0} → Option A → (A → Option B) → Option B
      none >>= k = none
      some a >>= k = k a

  -- What follows the intent: it is cancelled only if the directory is still there.
  unfoldable pub settle_move : ℕ → Text → Result (Unit {0}) → Op D (Unit {0})
  settle_move seq from (ok _) m = (ok tt, wake m)
  settle_move seq from (err e) m =
      (err e, if Local.is_dir local from m.disk then on_store (remove_job seq) m else m)

  unfoldable pub run_move : Text → DirMove → Op D (Unit {0})
  run_move from d m =
      let (seq, s) = Queue.enqueue m.now (rename_dir d) m.store in
      let queued = record m { store = s } in
      elim (job_at seq s.jobs) [
        | none ↦ (err other, queued)
        | some job ↦ let (r, m') = finish_directory_move job queued in settle_move seq from r m'
      ]

  unfoldable pub rename_dir_local : Text → Text → Option Text → Op D (Unit {0})
  rename_dir_local from to fresh m =
      let m' = record m { directory_epoch = m.directory_epoch + 1 } in
      if from == to
      then (ok tt, m)
      else if not (may_move from to m')
      then (err other, m')
      else elim (move_intent from to fresh m') [
        | none ↦ (err other, m')
        | some d ↦ run_move from d m'
      ]
