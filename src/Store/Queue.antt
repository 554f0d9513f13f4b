-- ===== src/Store/Queue.antt =====
-- The durable write-back queue (src/mirror/store.rs, "jobs").
pub mod Order
pub mod Pending
use canvas_fuse.Prelude.{
  ℕ, ◌+◌, Bool, true, false, not, Option, none, some, List, [], ◌∷◌, Text, text_eq, nat_eq, ◌==◌,
  any, retain, get_or, ltb, if◌then◌else◌,
}
use canvas_fuse.Prelude.Table.{lookup, insert}
use canvas_fuse.Store.{Store, Job, JobKind, JobPriority, interactive, key_of, dedupe_id}
use canvas_fuse.Store.Ledger.{job_seq_key}

-- `t.insert(job.seq, job)` into the table in ascending order.
unfoldable pub insert_job : Job → List Job → List Job
insert_job j [] = j ∷ []
insert_job j (x ∷ xs) =
    if ltb j.seq x.seq then j ∷ x ∷ xs else if j.seq == x.seq then j ∷ xs else x ∷ insert_job j xs

-- `t.remove(seq)`.
unfoldable pub drop_seq : ℕ → List Job → List Job
drop_seq seq js = retain (λ j. not (j.seq == seq)) js

-- Whether a pending job has the identity.
unfoldable pub has_id : Text → List Job → Bool
has_id id js = any (λ j. dedupe_id j.kind == id) js

-- The row of a sequence number.
unfoldable pub job_at : ℕ → List Job → Option Job
job_at seq [] = none
job_at seq (j ∷ js) = if j.seq == seq then some j else job_at seq js

unfoldable pub last_seq : Store → ℕ
last_seq s = get_or (lookup job_seq_key s.numbers) 0

abbrev pub new_job : ℕ → JobKind → JobPriority → ℕ → Job
new_job now kind priority seq = record {
  seq = seq;
  kind = kind;
  priority = priority;
  attempts = 0;
  not_before = 0;
  last_error = none;
  created = now;
}

-- The new job's number and the store; `now` is the clock.
unfoldable pub enqueue_with_priority : ℕ → JobKind → JobPriority → Store → ℕ × Store
enqueue_with_priority now kind priority s =
    let next = last_seq s + 1 in
    let others = retain (λ j. not (dedupe_id j.kind == dedupe_id kind)) s.jobs in
    (
      next,
      record s {
        numbers = insert job_seq_key next s.numbers;
        jobs = insert_job (new_job now kind priority next) others;
      },
    )

unfoldable pub enqueue : ℕ → JobKind → Store → ℕ × Store
enqueue now kind s = enqueue_with_priority now kind interactive s

-- A job that is no longer queued is not written back.
unfoldable pub update_job : Job → Store → Store
update_job job s = elim (job_at job.seq s.jobs) [
  | none ↦ s
  | some _ ↦ record s { jobs = insert_job job s.jobs }
]

unfoldable pub remove_job : ℕ → Store → Store
remove_job seq s = record s { jobs = drop_seq seq s.jobs }

-- The dropped jobs, and the store without them.
unfoldable pub remove_jobs_for : Text → Store → List Job × Store
remove_jobs_for key s = (
  retain (λ j. key_of j.kind == key) s.jobs,
  record s { jobs = retain (λ j. not (key_of j.kind == key)) s.jobs },
)

-- `ensure_job` of the engine (src/mirror/sync.rs): queue the job unless it is pending.
unfoldable pub ensure_job : ℕ → JobKind → Store → Store
ensure_job now kind s =
    if has_id (dedupe_id kind) s.jobs
    then s
    else (enqueue_with_priority now kind JobPriority.background s).1
