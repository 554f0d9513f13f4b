-- ===== src/Examples/Session.antt =====
-- The calls of the session thread, the queue and the paths at concrete inputs.
use canvas_fuse.Prelude.{
  ◌≡◌, refl, true, false, ◌||◌, none, some, [], ◌∷◌, codes, arith, text_beq, contains, ◌++◌, ◌↔◌,
}
use canvas_fuse.Prelude.Table.{lookup}
use canvas_fuse.Reconcile.{decide, pull}
use canvas_fuse.Reconcile.Table.{Row, decide_iff_Row}
use canvas_fuse.Reconcile.Edits.{KeepsLocal, KeepsRemote, decide-KeepsLocal, decide-KeepsRemote}
use canvas_fuse.Paths.{under}
use canvas_fuse.Paths.Under.{Below, under_iff_Below}
use canvas_fuse.Store.{Store, empty, dirty, tombstone, JobKind, interactive, background, dedupe_id}
use canvas_fuse.Store.Queue.{enqueue_with_priority, last_seq}
use canvas_fuse.Store.Queue.Order.{IsQueue, enqueue_with_priority-IsQueue}
use canvas_fuse.Store.Queue.Pending.{pending, pending-enqueue_with_priority, rename_id_collides}
use canvas_fuse.Mirror.{Mirror}
use canvas_fuse.Mirror.Accounted.{IsAccounted}
use canvas_fuse.Mirror.Recover.{recover_jobs}
use canvas_fuse.Mirror.Recover.Laws.{recover_jobs-IsAccounted}
use canvas_fuse.Mirror.Session.{here, then_step, flushed, deleted_file, Reach-IsAccounted}
use canvas_fuse.Mirror.Writes.{commit_write, delete_local}
use canvas_fuse.Examples.{Files, a, b, bytes, folder, mirror, entry_of, job_of}

decide_iff_Row_example :
    (decide (some bytes) none (some a) ≡ pull a) ↔ Row (some bytes) none (some a) (pull a)
decide_iff_Row_example = decide_iff_Row (some bytes) none (some a) (pull a)

decide-KeepsLocal_example : KeepsLocal bytes none (some a) (decide (some bytes) none (some a))
decide-KeepsLocal_example = decide-KeepsLocal bytes none (some a) (λ e. ground arith)

decide-KeepsRemote_example : KeepsRemote bytes none (some a) (decide (some a) none (some bytes))
decide-KeepsRemote_example = decide-KeepsRemote bytes (some a) none (λ e. ground arith)

under_iff_Below_example : (under a (codes "notes") ≡ true) ↔ Below (codes "notes") a
under_iff_Below_example = under_iff_Below (codes "notes") a

-- Two jobs on overlapping paths.
abbrev queued : Store
queued = record empty {
  numbers = (codes "job_seq", 2) ∷ [];
  jobs = job_of 1 background (JobKind.rename b a) ∷ job_of 2 interactive (JobKind.push a) ∷ [];
}

queued-IsQueue : IsQueue queued
unfolding last_seq dedupe_id lookup text_beq contains
queued-IsQueue = record {
  ascending = (omega arith, (omega arith, tt));
  handed_out = (omega arith, (omega arith, tt));
  distinct = (refl, (refl, tt));
}

enqueue_with_priority-IsQueue_example :
    IsQueue (enqueue_with_priority 9 (JobKind.push a) background queued).1
enqueue_with_priority-IsQueue_example =
    enqueue_with_priority-IsQueue 9 (JobKind.push a) background queued queued-IsQueue

pending-enqueue_with_priority_example :
    pending
      (dedupe_id (JobKind.push b))
      (enqueue_with_priority 9 (JobKind.push b) background queued).1
    ≡ (text_beq (dedupe_id (JobKind.push b)) (dedupe_id (JobKind.push b))
        || pending (dedupe_id (JobKind.push b)) queued)
pending-enqueue_with_priority_example =
    pending-enqueue_with_priority 9 (JobKind.push b) background queued (dedupe_id (JobKind.push b))
      queued-IsQueue

rename_id_collides_example :
    dedupe_id (JobKind.rename (a ++ (codes "|" ++ b)) a)
    ≡ dedupe_id (JobKind.rename a (b ++ (codes "|" ++ a)))
rename_id_collides_example = rename_id_collides a b a

-- A mirror that has just been opened owes nothing.
abbrev opened : Mirror Files
opened = mirror false empty

opened-IsQueue : IsQueue empty
unfolding last_seq
opened-IsQueue = record { ascending = tt; handed_out = tt; distinct = tt }

opened-IsAccounted : IsAccounted opened
unfolding lookup
opened-IsAccounted = record {
  queue = opened-IsQueue;
  at = λ key. record {
    pushed = λ e there state kept listed. absurd (ground arith);
    deleted = λ e there state kept listed. absurd (ground arith);
  };
}

abbrev written : Mirror Files
written = (commit_write folder a bytes opened).1

abbrev erased : Mirror Files
erased = (delete_local folder a written).1

Reach-IsAccounted_example : IsAccounted erased
Reach-IsAccounted_example =
    Reach-IsAccounted folder opened erased
      (then_step opened written erased
        (then_step opened opened written (here opened) (flushed a bytes opened))
        (deleted_file a written))
      opened-IsAccounted

-- A crash after the entries, before their jobs.
abbrev crashed : Mirror Files
crashed =
    mirror false (record empty { entries = (a, entry_of dirty) ∷ (b, entry_of tombstone) ∷ [] })

crashed-IsQueue : IsQueue crashed.store
unfolding last_seq
crashed-IsQueue = record { ascending = tt; handed_out = tt; distinct = tt }

recover_jobs-IsAccounted_example : IsAccounted (recover_jobs crashed)
recover_jobs-IsAccounted_example = recover_jobs-IsAccounted crashed crashed-IsQueue
