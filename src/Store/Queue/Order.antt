-- ===== src/Store/Queue/Order.antt =====
-- The invariant of the queue (src/mirror/store.rs): sequence numbers ascend and were all handed out, and
-- no two pending jobs have one identity.
use canvas_fuse.Prelude.{
  ℕ, ◌+◌, ◌≤◌, ◌<◌, ◌≡◌, refl, ◌||◌, not, Bool, false, none, some, List, [], ◌∷◌, ◌++◌, map, Text,
  text_eq, nat_beq_iff, text_beq, text_beq_iff, text_beq_refl, arith, All, All-retain, retain,
  contains, Bool-cases, Option-cases, inl, inr,
}
use canvas_fuse.Prelude.Table.{lookup-insert}
use canvas_fuse.Store.{Store, Job, JobKind, JobPriority, background, dedupe_id}
use canvas_fuse.Store.Queue.{
  new_job, insert_job, drop_seq, has_id, job_at, last_seq, enqueue_with_priority, update_job,
  remove_job, remove_jobs_for, ensure_job,
}

abbrev pub Ascends : ℕ → List Job → Type 0
Ascends lo [] = Unit
Ascends lo (j ∷ js) = (lo < j.seq) × Ascends j.seq js

abbrev pub AtMost : ℕ → List Job → Type 0
AtMost n = All (λ j. j.seq ≤ n)

abbrev pub ids : List Job → List Text
ids = map (λ j. dedupe_id j.kind)

abbrev pub Distinct : List Text → Type 0
Distinct [] = Unit
Distinct (t ∷ ts) = (contains ts t ≡ false) × Distinct ts

pub record IsQueue (s : Store) : Type 0 where
  pub ascending : Ascends 0 s.jobs
  pub handed_out : AtMost (last_seq s) s.jobs
  pub distinct : Distinct (ids s.jobs)

pub Ascends-weaken : (lo lo' : ℕ) (js : List Job) → lo' ≤ lo → Ascends lo js → Ascends lo' js
Ascends-weaken lo lo' [] h a = tt
Ascends-weaken lo lo' (j ∷ js) h a = (omega arith, a.1)

pub Ascends-retain :
    (p : Job → Bool) (lo : ℕ) (js : List Job) → Ascends lo js → Ascends lo (retain p js)
unfolding retain
Ascends-retain p lo [] a = tt
Ascends-retain p lo (j ∷ js) a =
    let rest = Ascends-retain p j.seq js a.1 in
    ground (arith, rest, Ascends-weaken j.seq lo (retain p js) (omega arith) rest)

pub Ascends-insert_job :
    (j : Job) (lo : ℕ) (js : List Job) → lo < j.seq → Ascends lo js → Ascends lo (insert_job j js)
unfolding insert_job
Ascends-insert_job j lo [] h a = (h, tt)
Ascends-insert_job j lo (x ∷ xs) h a = ground (
  arith,
  λ (p : x.seq < j.seq). Ascends-insert_job j x.seq xs p a.1,
  λ (p : x.seq ≡ j.seq). Ascends-weaken x.seq j.seq xs (omega arith) a.1,
)

pub AtMost-insert_job :
    (j : Job) (n : ℕ) (js : List Job) → j.seq ≤ n → AtMost n js → AtMost n (insert_job j js)
unfolding insert_job
AtMost-insert_job j n [] h a = (h, tt)
AtMost-insert_job j n (x ∷ xs) h a = ground (arith, AtMost-insert_job j n xs h a.1)

pub AtMost-weaken : (m n : ℕ) (js : List Job) → m ≤ n → AtMost m js → AtMost n js
AtMost-weaken m n [] h a = tt
AtMost-weaken m n (j ∷ js) h a = (omega arith, AtMost-weaken m n js h a.1)

-- A job numbered above all others goes to the end.
pub ids-insert_job_last :
    (j : Job) (n : ℕ) (js : List Job)
    → AtMost n js
    → n < j.seq
    → ids (insert_job j js) ≡ ids js ++ (dedupe_id j.kind ∷ [])
unfolding insert_job
ids-insert_job_last j n [] a h = refl
ids-insert_job_last j n (x ∷ xs) a h = ground (arith, ids-insert_job_last j n xs a.1 h)

pub job_at-insert_job : (j : Job) (js : List Job) → job_at j.seq (insert_job j js) ≡ some j
unfolding job_at insert_job
job_at-insert_job j [] = ground (arith, nat_beq_iff j.seq j.seq)
job_at-insert_job j (x ∷ js) = ground (
  arith,
  nat_beq_iff j.seq j.seq,
  nat_beq_iff j.seq x.seq,
  nat_beq_iff x.seq j.seq,
  job_at-insert_job j js,
)

-- Below the first number there is no row.
job_at-none : (seq lo : ℕ) (js : List Job) → seq ≤ lo → Ascends lo js → job_at seq js ≡ none
unfolding job_at
job_at-none seq lo [] h a = refl
job_at-none seq lo (y ∷ ys) h a = ground (arith, job_at-none seq y.seq ys (omega arith) a.1)

-- A row written back under its number with its kind keeps the identities.
ids-insert_job_same :
    (j x : Job) (lo : ℕ) (js : List Job)
    → Ascends lo js
    → job_at j.seq js ≡ some x
    → x.kind ≡ j.kind
    → ids (insert_job j js) ≡ ids js
unfolding insert_job job_at
ids-insert_job_same j x lo [] a h e = cc
ids-insert_job_same j x lo (y ∷ ys) a h e = ground (
  arith,
  ids-insert_job_same j x y.seq ys a.1,
  λ (p : j.seq ≤ y.seq). job_at-none j.seq y.seq ys p a.1,
)

contains-retain :
    (p : Job → Bool) (t : Text) (js : List Job)
    → contains (ids js) t ≡ false
    → contains (ids (retain p js)) t ≡ false
unfolding retain contains
contains-retain p t [] h = refl
contains-retain p t (j ∷ js) h = ground (arith, contains-retain p t js)

Distinct-retain :
    (p : Job → Bool) (js : List Job) → Distinct (ids js) → Distinct (ids (retain p js))
unfolding retain
Distinct-retain p [] d = tt
Distinct-retain p (j ∷ js) d =
    ground (arith, Distinct-retain p js d.1, contains-retain p (dedupe_id j.kind) js d.0)

-- After the jobs of an identity are dropped it is free.
contains-others :
    (t : Text) (js : List Job)
    → contains (ids (retain (λ j. not (text_beq (dedupe_id j.kind) t)) js)) t ≡ false
unfolding retain contains
contains-others t [] = refl
contains-others t (j ∷ js) = ground (arith, contains-others t js)

pub contains-append_one :
    (ts : List Text) (t u : Text) → contains (ts ++ (t ∷ [])) u ≡ (contains ts u || text_beq t u)
unfolding contains
contains-append_one [] t u = ground arith
contains-append_one (x ∷ ts) t u = ground (arith, contains-append_one ts t u)

Distinct-append_one :
    (ts : List Text) (t : Text) → Distinct ts → contains ts t ≡ false → Distinct (ts ++ (t ∷ []))
unfolding contains
Distinct-append_one [] t d h = (refl, tt)
Distinct-append_one (x ∷ ts) t d h = ground (
  arith,
  contains-append_one ts t x,
  Distinct-append_one ts t d.1,
  text_beq_iff t x,
  text_beq_iff x t,
)

module _ (now : ℕ) (kind : JobKind) (priority : JobPriority) (s : Store) where
  abbrev others : List Job
  others = retain (λ j. not (text_beq (dedupe_id j.kind) (dedupe_id kind))) s.jobs

  -- Queueing a job of any kind and priority keeps the invariant of the queue: the numbers ascend and were
  -- all handed out, and no two pending jobs have one identity.
  pub enqueue_with_priority-IsQueue :
      IsQueue s → IsQueue (enqueue_with_priority now kind priority s).1
  unfolding enqueue_with_priority last_seq
  enqueue_with_priority-IsQueue q = record {
    ascending =
        Ascends-insert_job (new_job now kind priority (last_seq s + 1)) 0 others (omega arith)
          (Ascends-retain _ 0 s.jobs q.ascending);
    handed_out = rw lookup-insert (
        rw text_beq_refl (
          AtMost-insert_job (new_job now kind priority (last_seq s + 1)) (last_seq s + 1) others
            (omega arith) (AtMost-weaken (last_seq s) (last_seq s + 1) others (omega arith) old)));
    distinct =
        rw
          (ids-insert_job_last (new_job now kind priority (last_seq s + 1)) (last_seq s) others old
            (omega arith))
          (Distinct-append_one (ids others) (dedupe_id kind) (Distinct-retain _ s.jobs q.distinct)
            (contains-others (dedupe_id kind) s.jobs));
  }
    where
      old : AtMost (last_seq s) others
      old = All-retain (λ j. j.seq ≤ last_seq s) _ s.jobs q.handed_out

pub ensure_job-IsQueue :
    (now : ℕ) (kind : JobKind) (s : Store) → IsQueue s → IsQueue (ensure_job now kind s)
unfolding ensure_job
ensure_job-IsQueue now kind s q = elim (Bool-cases (has_id (dedupe_id kind) s.jobs)) [
  | inl pending ↦ rw pending q
  | inr fresh ↦ rw fresh (enqueue_with_priority-IsQueue now kind background s q)
]

module _ (p : Job → Bool) (s : Store) where
  -- Dropping rows keeps the invariant.
  drop-IsQueue : IsQueue s → IsQueue (record s { jobs = retain p s.jobs })
  unfolding last_seq
  drop-IsQueue q = record {
    ascending = Ascends-retain p 0 s.jobs q.ascending;
    handed_out = All-retain (λ j. j.seq ≤ last_seq s) p s.jobs q.handed_out;
    distinct = Distinct-retain p s.jobs q.distinct;
  }

pub remove_job-IsQueue : (seq : ℕ) (s : Store) → IsQueue s → IsQueue (remove_job seq s)
unfolding remove_job drop_seq
remove_job-IsQueue seq s = drop-IsQueue _ s

pub remove_jobs_for-IsQueue :
    (key : Text) (s : Store) → IsQueue s → IsQueue (remove_jobs_for key s).1
unfolding remove_jobs_for
remove_jobs_for-IsQueue key s = drop-IsQueue _ s

AtMost-job_at :
    (seq n : ℕ) (x : Job) (js : List Job) → AtMost n js → job_at seq js ≡ some x → seq ≤ n
unfolding job_at
AtMost-job_at seq n x [] a h = cc
AtMost-job_at seq n x (j ∷ js) a h = ground (arith, AtMost-job_at seq n x js a.1)

Ascends-job_at :
    (seq lo : ℕ) (x : Job) (js : List Job) → Ascends lo js → job_at seq js ≡ some x → lo < seq
unfolding job_at
Ascends-job_at seq lo x [] a h = cc
Ascends-job_at seq lo x (j ∷ js) a h =
    ground (arith, λ (p : job_at seq js ≡ some x). Ascends-job_at seq j.seq x js a.1 p)

-- Writing a job back keeps the invariant of the queue, if its kind is that of each row with its number.
pub update_job-IsQueue :
    (job : Job) (s : Store)
    → ((x : Job) → job_at job.seq s.jobs ≡ some x → x.kind ≡ job.kind)
    → IsQueue s
    → IsQueue (update_job job s)
unfolding update_job last_seq
update_job-IsQueue job s same q = elim (Option-cases (job_at job.seq s.jobs)) [
  | inl gone ↦ rw (gone, update_job) q
  | inr (x, there) ↦
      rw (there, update_job)
        (record {
          ascending = Ascends-insert_job job 0 s.jobs (positive x there) q.ascending;
          handed_out =
              AtMost-insert_job job (last_seq s) s.jobs
                (AtMost-job_at job.seq (last_seq s) x s.jobs q.handed_out there) q.handed_out;
          distinct =
              rw (ids-insert_job_same job x 0 s.jobs q.ascending there (same x there)) q.distinct;
        })
]
  where
    positive : (x : Job) → job_at job.seq s.jobs ≡ some x → 0 < job.seq
    positive x there = Ascends-job_at job.seq 0 x s.jobs q.ascending there
