-- ===== src/Store/Move/Order.antt =====
-- The queue through a directory move (src/mirror/store.rs, `apply_directory_rename`).
use canvas_fuse.Prelude.{
  ℕ, ◌+◌, ◌≤◌, ◌<◌, ◌≡◌, refl, true, List, [], ◌∷◌, text_beq_refl, nat_eq, arith, All-retain,
  Bool-cases, Option-cases, inl, inr,
}
use canvas_fuse.Prelude.Table.{lookup-insert}
use canvas_fuse.Store.{
  Store, Job, JobKind, DirMove, push, delete, rename, rename_dir, conflict, mkdir, rmdir,
}
use canvas_fuse.Store.Queue.{insert_job, drop_seq, last_seq}
use canvas_fuse.Store.Queue.Order.{
  Ascends, AtMost, Ascends-insert_job, AtMost-insert_job, AtMost-weaken, Ascends-retain,
}
use canvas_fuse.Store.Move.{job_moves, move_jobs, apply_move, apply_kind, apply_directory_rename}

-- The numbers of the jobs ascend, and none is above `n`.
abbrev pub InOrder : List Job × ℕ → Type 0
InOrder (js, n) = Ascends 0 js × AtMost n js

-- A job that is queued anew, under the next number.
requeued :
    (j : Job) (old next : ℕ) (table : List Job)
    → j.seq ≡ next + 1
    → Ascends 0 table
    → AtMost next table
    → InOrder (insert_job j (drop_seq old table), next + 1)
unfolding drop_seq
requeued j old next table n a h = (
  Ascends-insert_job j 0 rest (omega arith) (Ascends-retain _ 0 table a),
  AtMost-insert_job j (next + 1) rest (omega arith)
      (AtMost-weaken next (next + 1) rest (omega arith) (All-retain (λ x. x.seq ≤ next) _ table h)),
)
  where
    rest : List Job
    rest = drop_seq old table

move_jobs-InOrder :
    (d : DirMove) (seq : ℕ) (js table : List Job) (next : ℕ)
    → InOrder (table, next)
    → InOrder (move_jobs d seq js (table, next)) × (next ≤ (move_jobs d seq js (table, next)).1)
unfolding move_jobs
move_jobs-InOrder d seq [] table next (a, h) = ((a, h), omega arith)
move_jobs-InOrder d seq (j ∷ js) table next (a, h) = elim (Option-cases (job_moves d seq j)) [
  | inl stays ↦ rw (stays, move_jobs) (move_jobs-InOrder d seq js table next (a, h))
  | inr (kind, moves) ↦
      let j' : Job = record j { kind = kind; seq = next + 1 } in
      let (inner, more) =
        move_jobs-InOrder d seq js (insert_job j' (drop_seq j.seq table)) (next + 1)
          (requeued j' j.seq next table refl a h) in
      rw (moves, move_jobs) (inner, omega (arith, more))
]

apply_move-InOrder :
    (d : DirMove) (job : Job) (s : Store)
    → 0 < job.seq
    → job.seq ≤ last_seq s
    → Ascends 0 s.jobs
    → AtMost (last_seq s) s.jobs
    → InOrder ((apply_move d job s).jobs, last_seq (apply_move d job s))
unfolding apply_move last_seq
apply_move-InOrder d job s some_seq known a h =
    let (moved, more) = move_jobs-InOrder d job.seq s.jobs s.jobs (last_seq s) (a, h) in
    let (jobs, next) = move_jobs d job.seq s.jobs (s.jobs, last_seq s) in
    let applied : Job = record job { kind = rename_dir (record d { local_applied = true }) } in
    rw lookup-insert (
      rw text_beq_refl (
        Ascends-insert_job applied 0 jobs some_seq moved.0,
        AtMost-insert_job applied next jobs (omega (arith, known, more)) moved.1,
      ))

-- If the numbers of a queue ascend and were all handed out, that of the move among them, then they still do
-- after a directory move has taken the jobs along: those that follow the files get new numbers.
pub apply_directory_rename-InOrder :
    (job : Job) (s : Store)
    → 0 < job.seq
    → job.seq ≤ last_seq s
    → Ascends 0 s.jobs
    → AtMost (last_seq s) s.jobs
    → InOrder ((apply_directory_rename job s).jobs, last_seq (apply_directory_rename job s))
unfolding apply_directory_rename apply_kind job_moves
apply_directory_rename-InOrder job s some_seq known a h = go job.kind
  where
    go : (kind : JobKind) → InOrder ((apply_kind kind job s).jobs, last_seq (apply_kind kind job s))
    go (rename_dir d) = elim (Bool-cases d.local_applied) [
      | inl done ↦ rw (done, apply_kind) (a, h)
      | inr fresh ↦ rw (fresh, apply_kind) (apply_move-InOrder d job s some_seq known a h)
    ]
    go (push _) = (a, h)
    go (delete _ _) = (a, h)
    go (rename _ _) = (a, h)
    go (conflict _ _ _) = (a, h)
    go (mkdir _) = (a, h)
    go (rmdir _) = (a, h)
