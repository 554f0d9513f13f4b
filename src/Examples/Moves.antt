-- ===== src/Examples/Moves.antt =====
-- A directory move at a concrete ledger.
use canvas_fuse.Prelude.{◌≤◌, true, false, none, [], ◌∷◌, codes, arith, text_beq}
use canvas_fuse.Prelude.Table.{lookup}
use canvas_fuse.Store.{Store, empty, dirty, Job, JobKind, DirMove, interactive}
use canvas_fuse.Store.Queue.{last_seq}
use canvas_fuse.Store.Queue.Order.{AtMost}
use canvas_fuse.Store.Move.{apply_directory_rename}
use canvas_fuse.Store.Move.Order.{InOrder, apply_directory_rename-InOrder}
use canvas_fuse.Examples.{a, entry_of, job_of}

-- The directory of the file gets a new name while its push waits.
abbrev renaming : DirMove
renaming = record {
  from = codes "notes";
  to = codes "docs";
  operation_id = codes "1";
  dev = 1;
  ino = 2;
  directory_identity = none;
  local_applied = false;
  remote = true;
}

abbrev move_job : Job
move_job = job_of 2 interactive (JobKind.rename_dir renaming)

abbrev moving : Store
moving = record empty {
  entries = (a, entry_of dirty) ∷ [];
  numbers = (codes "job_seq", 2) ∷ [];
  jobs = job_of 1 interactive (JobKind.push a) ∷ move_job ∷ [];
}

moving_known : 2 ≤ last_seq moving
unfolding last_seq lookup text_beq
moving_known = omega arith

moving-AtMost : AtMost (last_seq moving) moving.jobs
unfolding last_seq lookup text_beq
moving-AtMost = (omega arith, (omega arith, tt))

apply_directory_rename-InOrder_example : InOrder (
  (apply_directory_rename move_job moving).jobs,
  last_seq (apply_directory_rename move_job moving),
)
apply_directory_rename-InOrder_example =
    apply_directory_rename-InOrder move_job moving (omega arith) moving_known
      (omega arith, (omega arith, tt)) moving-AtMost
