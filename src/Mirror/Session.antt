-- ===== src/Mirror/Session.antt =====
-- The calls of the session thread (src/mirror/sync.rs) as steps, in any order, and the account of the
-- work that the hub is owed.
use canvas_fuse.Prelude.{◌≡◌, refl, none, Text}
use canvas_fuse.Prelude.Table.{lookup}
use canvas_fuse.Local.{Local}
use canvas_fuse.Mirror.{Mirror, note_open_write, note_close_write}
use canvas_fuse.Mirror.Grows.{IsQuiet-IsAccounted}
use canvas_fuse.Mirror.Quiet.{SameWork-refl, IsQuiet}
use canvas_fuse.Mirror.Recover.{recover_jobs}
use canvas_fuse.Mirror.Recover.Laws.{recover_jobs-IsAccounted}
use canvas_fuse.Mirror.Accounted.{IsAccounted}
use canvas_fuse.Mirror.Writes.{
  commit_local_file, commit_write, delete_local, mkdir_local, rmdir_local, trash_restore,
}
use canvas_fuse.Mirror.Calls.{
  commit_local_file-IsAccounted, commit_write-IsAccounted, delete_local-IsAccounted,
  mkdir_local-IsAccounted, rmdir_local-IsAccounted,
}
use canvas_fuse.Mirror.Calls.Restored.{trash_restore-IsAccounted}

module _ {D : Type 0} where
  module _ (local : Local D) where
    -- A call of the session thread: the file system layer makes them one at a time. A directory is removed
    -- only at a path without an entry, which is a restriction: where a file was deleted and a directory
    -- made in its place, the tombstone is still there, and `rmdir_local` drops its pending delete,
    -- which is queued again by the next pass of `recover_jobs`.
    pub data Step : Mirror D → Mirror D → Type 0 where
      committed : (key : Text) (m : Mirror D) → Step m (commit_local_file local key m).1
      flushed : (key bytes : Text) (m : Mirror D) → Step m (commit_write local key bytes m).1
      deleted_file : (key : Text) (m : Mirror D) → Step m (delete_local local key m).1
      made : (key : Text) (m : Mirror D) → Step m (mkdir_local local key m).1
      unmade :
          (key : Text) (m : Mirror D)
          → lookup key m.store.entries ≡ none
          → Step m (rmdir_local local key m).1
      brought_back : (key : Text) (m : Mirror D) → Step m (trash_restore local key m).1
      opened : (key : Text) (m : Mirror D) → Step m (note_open_write key m)
      closed : (key : Text) (m : Mirror D) → Step m (note_close_write key m)
      -- The engine thread looks for lost jobs.
      looked : (m : Mirror D) → Step m (recover_jobs m)

    pub data Reach : Mirror D → Mirror D → Type 0 where
      here : (m : Mirror D) → Reach m m
      then_step : (m m' m'' : Mirror D) → Reach m m' → Step m' m'' → Reach m m''

    opened-IsQuiet : (key : Text) (m : Mirror D) → IsQuiet m (note_open_write key m)
    unfolding note_open_write
    opened-IsQuiet key m = record { work = SameWork-refl m.store; ignore = refl; skipped = refl }

    closed-IsQuiet : (key : Text) (m : Mirror D) → IsQuiet m (note_close_write key m)
    unfolding note_close_write
    closed-IsQuiet key m = record { work = SameWork-refl m.store; ignore = refl; skipped = refl }

    -- Each call of the session thread, with its errors, keeps the account of the work that the hub is
    -- owed: a dirty entry or a tombstone that is neither ignored nor skipped has its push or delete
    -- in the queue, or waits for the upload of a conflict.
    pub Step-IsAccounted : (m m' : Mirror D) → Step m m' → IsAccounted m → IsAccounted m'
    Step-IsAccounted m m' (committed key _) a = commit_local_file-IsAccounted local key m a
    Step-IsAccounted m m' (flushed key bytes _) a = commit_write-IsAccounted local key bytes m a
    Step-IsAccounted m m' (deleted_file key _) a = delete_local-IsAccounted local key m a
    Step-IsAccounted m m' (made key _) a = mkdir_local-IsAccounted local key m a
    Step-IsAccounted m m' (unmade key _ bare) a = rmdir_local-IsAccounted local key m bare a
    Step-IsAccounted m m' (brought_back key _) a = trash_restore-IsAccounted local key m a
    Step-IsAccounted m m' (opened key _) a = IsQuiet-IsAccounted m _ (opened-IsQuiet key m) a
    Step-IsAccounted m m' (closed key _) a = IsQuiet-IsAccounted m _ (closed-IsQuiet key m) a
    Step-IsAccounted m m' (looked _) a = recover_jobs-IsAccounted m a.queue

    -- From an accounted state, no sequence of calls of the session thread and of passes of
    -- `recover_jobs` forgets work, where a directory is removed only at a path without an entry: in
    -- every state that they reach, each dirty entry and each tombstone that is neither ignored nor
    -- skipped has its push or delete in the queue, or waits for the upload of a conflict.
    pub Reach-IsAccounted : (m m' : Mirror D) → Reach m m' → IsAccounted m → IsAccounted m'
    Reach-IsAccounted m m' (here _) a = a
    Reach-IsAccounted m m' (then_step _ m₁ _ r s) a =
        Step-IsAccounted m₁ m' s (Reach-IsAccounted m m₁ r a)
