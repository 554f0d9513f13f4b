-- ===== src/Mirror/Calls.antt =====
-- Each call of the session thread (src/mirror/sync.rs) and the account of the work that the hub is owed.
pub mod Restored
use canvas_fuse.Prelude.{
  ◌≡◌, refl, ◌∙◌, ap, Bool, true, false, none, some, Option, Text, text_beq, text_beq_refl, arith,
  Bool-cases, Option-cases, inl, inr, is_some, if◌then◌else◌,
}
use canvas_fuse.Prelude.Table.{lookup, lookup-insert}
use canvas_fuse.Hub.{Result, ok, err, other}
use canvas_fuse.Local.{Local, exists, removed, not_empty, failed, Removal, Hashed}
use canvas_fuse.Store.{Store, Entry, tombstone, push, mkdir, rmdir, dedupe_id}
use canvas_fuse.Store.Ledger.{
  put_entry, remove_base, remove_trashed, remove_dir, add_dir, dir_has_children,
}
use canvas_fuse.Store.Queue
use canvas_fuse.Store.Queue.Order.{IsQueue}
use canvas_fuse.Store.Queue.Pending.{pending-enqueue}
use canvas_fuse.Mirror.{
  view_upsert, Mirror, on_store, wake, show, enqueue, is_ignored, record_dirs_for, pure,
  note_open_write, note_close_write, ◌>>=◌, Op,
}
use canvas_fuse.Mirror.Frame.{
  Frame, Frame-store, Frame-refl, Frame-wake, Frame-show, Frame-enqueue, Frame-remove_jobs_for,
}
use canvas_fuse.Mirror.Grows.{Grows-IsAccounted, enqueue-Grows, IsQuiet-IsAccounted}
use canvas_fuse.Mirror.Quiet.{
  SameWork, SameWork-refl, SameWork-trans, record_dirs_for-SameWork, add_dir-SameWork, IsQuiet,
  Frame-IsQuiet,
}
use canvas_fuse.Mirror.Recover.{recover_jobs}
use canvas_fuse.Mirror.Recover.Laws.{recover_jobs-IsAccounted}
use canvas_fuse.Mirror.Accounted.{IsAccountedAt, IsAccounted, Frame-IsAccounted}
use canvas_fuse.Mirror.Writes.{
  dirty_entry, on_disk, commit_local_file, commit_write, note_written, delete_local,
  note_local_gone, mkdir_local, note_dir_gone, rmdir_local, trash_restore,
}
use canvas_fuse.Mirror.Writes.Owed.{
  note_local_gone-IsAccounted, note_written-IsAccounted, push_or_skip-IsAccounted,
}

module _ {D : Type 0} where
  on_disk-IsQuiet : {A : Type 0} (f : D → Result A × D) (m : Mirror D) → IsQuiet m (on_disk f m).1
  unfolding on_disk
  on_disk-IsQuiet f m = record { work = SameWork-refl m.store; ignore = refl; skipped = refl }

  wake-IsQuiet : (m : Mirror D) → IsQuiet m (wake m)
  unfolding wake
  wake-IsQuiet m = record { work = SameWork-refl m.store; ignore = refl; skipped = refl }

  wake-IsAccounted : (m : Mirror D) → IsAccounted m → IsAccounted (wake m)
  wake-IsAccounted m = IsQuiet-IsAccounted m (wake m) (wake-IsQuiet m)

  moved_disk : (m : Mirror D) (d : D) → IsAccounted m → IsAccounted (record m { disk = d })
  moved_disk m d =
      IsQuiet-IsAccounted m _
        (record { work = SameWork-refl m.store; ignore = refl; skipped = refl })

  -- An operation of the folder, and what follows it where it succeeds.
  pub after_disk :
      {A B : Type 0} (f : D → Result A × D) (k : A → Op D B) (m : Mirror D)
      → ((a : A) (m' : Mirror D) → IsAccounted m' → IsAccounted (k a m').1)
      → IsAccounted m
      → IsAccounted ((on_disk f >>= k) m).1
  after_disk f k m h a = go (on_disk f m) (IsQuiet-IsAccounted m _ (on_disk-IsQuiet f m) a)
    where
      go : (x : Result _ × Mirror D) → IsAccounted x.1 → IsAccounted (◌>>=◌ (λ _. x) k m).1
      go (ok b, m') a' = h b m' a'
      go (err e, m') a' = a'

  module _ (local : Local D) where
    pub commit_local_file-IsAccounted :
        (key : Text) (m : Mirror D) → IsAccounted m → IsAccounted (commit_local_file local key m).1
    unfolding commit_local_file
    commit_local_file-IsAccounted key m a = elim (Option-cases (local.stat key m.disk)) [
      | inl absent ↦ rw (absent, commit_local_file) a
      | inr (st, there) ↦
          rw (there, commit_local_file)
            (push_or_skip-IsAccounted key m _ _
              (record { work = SameWork-refl _; ignore = refl; skipped = refl }) refl a)
    ]

    pub commit_write-IsAccounted :
        (key bytes : Text) (m : Mirror D)
        → IsAccounted m
        → IsAccounted (commit_write local key bytes m).1
    unfolding commit_write
    commit_write-IsAccounted key bytes m =
        after_disk (local.write_atomic key bytes)
          (λ h m'. (ok (dirty_entry h), note_written local key (dirty_entry h) m')) m
          (λ h m' a. note_written-IsAccounted key m' (dirty_entry h) local refl a)

    pub delete_local-IsAccounted :
        (key : Text) (m : Mirror D) → IsAccounted m → IsAccounted (delete_local local key m).1
    unfolding delete_local pure
    delete_local-IsAccounted key m a = elim (Option-cases (lookup key m.store.entries)) [
      | inl absent ↦
          rw (absent, delete_local)
            (after_disk (local.remove_file key) (λ x m'. (ok (exists local key m.disk), m')) m
              (λ h m' a'. a') a)
      | inr (e, there) ↦
          rw (there, delete_local)
            (after_disk (local.remove_file key) (λ x m'. (ok true, wake (note_local_gone key m'))) m
              (λ h m' a'. wake-IsAccounted _ (note_local_gone-IsAccounted key m' a')) a)
    ]

    -- A directory was made: its records, and a job unless it is ignored.
    made_dir : Text → Mirror D → Mirror D
    made_dir key m = on_store (λ s. add_dir key (record_dirs_for key s)) m

    made_dir-IsQuiet : (key : Text) (m : Mirror D) → IsQuiet m (made_dir key m)
    unfolding made_dir on_store
    made_dir-IsQuiet key m = record {
      work =
          SameWork-trans m.store (record_dirs_for key m.store) _
            (record_dirs_for-SameWork key m.store)
            (add_dir-SameWork key (record_dirs_for key m.store));
      ignore = refl;
      skipped = refl;
    }

    pub mkdir_local-IsAccounted :
        (key : Text) (m : Mirror D) → IsAccounted m → IsAccounted (mkdir_local local key m).1
    unfolding mkdir_local made_dir
    mkdir_local-IsAccounted key m =
        after_disk (local.mkdir key)
          (λ x m'. (
            ok tt,
            wake (
                if is_ignored (made_dir key m') key
                then made_dir key m'
                else enqueue (mkdir key) (made_dir key m')),
          ))
          m
          (λ x m' a.
            wake-IsAccounted _
              (unless_ignored m' (IsQuiet-IsAccounted m' _ (made_dir-IsQuiet key m') a)))
      where
        unless_ignored :
            (m' : Mirror D)
            → IsAccounted (made_dir key m')
            → IsAccounted (
                if is_ignored (made_dir key m') key
                then made_dir key m'
                else enqueue (mkdir key) (made_dir key m'))
        unless_ignored m' a = elim (Bool-cases (is_ignored (made_dir key m') key)) [
          | inl out ↦ rw out a
          | inr kept ↦
              rw kept (Grows-IsAccounted _ _ (enqueue-Grows (mkdir key) (made_dir key m')) a)
        ]

    -- A directory has no entry of its own.
    note_dir_gone-IsAccounted :
        (key : Text) (m : Mirror D)
        → lookup key m.store.entries ≡ none
        → IsAccounted m
        → IsAccounted (note_dir_gone local key m)
    unfolding note_dir_gone on_store remove_dir Queue.remove_jobs_for
    note_dir_gone-IsAccounted key m bare a =
        wake-IsAccounted _ (elim (Bool-cases (is_ignored gone key)) [
          | inl out ↦ rw out after
          | inr kept ↦ rw kept (Grows-IsAccounted gone _ (enqueue-Grows (rmdir key) gone) after)
        ])
      where
        gone : Mirror D
        gone = on_store (λ s. (Queue.remove_jobs_for key (remove_dir key s)).1) m

        after : IsAccounted gone
        after =
            Frame-IsAccounted key m gone
              (Frame-remove_jobs_for (on_store (remove_dir key) m) (
                Frame-IsQuiet m (on_store (remove_dir key) m)
                  (record {
                    work = record { entries = refl; jobs = refl; numbers = refl; conflicts = refl };
                    ignore = refl;
                    skipped = refl;
                  })
                  (Frame-refl a.queue)))
              a
              (record {
                pushed = λ e there state kept listed. cc;
                deleted = λ e there state kept listed. cc;
              })

    pub rmdir_local-IsAccounted :
        (key : Text) (m : Mirror D)
        → lookup key m.store.entries ≡ none
        → IsAccounted m
        → IsAccounted (rmdir_local local key m).1
    unfolding rmdir_local
    rmdir_local-IsAccounted key m bare a = elim (Bool-cases (dir_has_children key m.store)) [
      | inl full ↦ rw full a
      | inr empty ↦ rw empty (go (local.rmdir key m.disk))
    ]
      where
        go :
            (x : Removal × D)
            → IsAccounted
                (elim x.0 as (λ _. Result Bool × Mirror D) [
                  | removed ↦ (ok true, note_dir_gone local key (record m { disk = x.1 }))
                  | not_empty ↦ (ok false, record m { disk = x.1 })
                  | failed ↦ (err other, record m { disk = x.1 })
                ]).1
        go (removed, d) = note_dir_gone-IsAccounted key _ bare (moved_disk m d a)
        go (not_empty, d) = moved_disk m d a
        go (failed, d) = moved_disk m d a
