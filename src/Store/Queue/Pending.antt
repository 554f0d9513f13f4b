-- ===== src/Store/Queue/Pending.antt =====
-- Which identities are pending after an operation of the queue, and what an identity tells apart
-- (src/mirror/store.rs, `dedupe_id`).
use mathlib.Core.List.{append_assoc}
use canvas_fuse.Prelude.{
  ℕ, ◌+◌, ◌≤◌, ◌≡◌, ◌≢◌, refl, ◌||◌, not, Bool, false, List, [], ◌∷◌, ◌++◌, Text, text_eq, text_beq,
  text_beq_iff, arith, All-retain, retain, contains, Bool-cases, inl, inr, codes, if◌then◌else◌,
  Option, ap,
}
use canvas_fuse.Store.{
  Store, Job, JobKind, push, delete, rename, JobPriority, background, key_of, dedupe_id,
}
use canvas_fuse.Store.Queue.{
  new_job, has_id, last_seq, enqueue_with_priority, enqueue, remove_jobs_for, ensure_job,
}
use canvas_fuse.Store.Queue.Order.{ids, IsQueue, AtMost, ids-insert_job_last, contains-append_one}

-- Whether a job of the identity is queued.
abbrev pub pending : Text → Store → Bool
pending t s = contains (ids s.jobs) t

pub has_id-ids : (t : Text) (js : List Job) → has_id t js ≡ contains (ids js) t
unfolding has_id contains
has_id-ids t [] = refl
has_id-ids t (j ∷ js) = ground (arith, has_id-ids t js)

contains-others_if :
    (t u : Text) (js : List Job)
    → contains (ids (retain (λ j. not (text_beq (dedupe_id j.kind) t)) js)) u
      ≡ (if text_beq t u then false else contains (ids js) u)
unfolding retain contains
contains-others_if t u [] = ground arith
contains-others_if t u (j ∷ js) = ground (
  arith,
  contains-others_if t u js,
  text_beq_iff t u,
  text_beq_iff (dedupe_id j.kind) t,
  text_beq_iff (dedupe_id j.kind) u,
)

-- In a queue in order, the identities that are pending after a job is queued are that of the job and
-- those that were pending before.
pub pending-enqueue_with_priority :
    (now : ℕ) (kind : JobKind) (priority : JobPriority) (s : Store) (t : Text)
    → IsQueue s
    → pending t (enqueue_with_priority now kind priority s).1
      ≡ (text_beq (dedupe_id kind) t || pending t s)
unfolding enqueue_with_priority
pending-enqueue_with_priority now kind priority s t q =
    let id = dedupe_id kind in
    let others = retain (λ (j : Job). not (text_beq (dedupe_id j.kind) id)) s.jobs in
    let old : AtMost (last_seq s) others =
      All-retain (λ j. j.seq ≤ last_seq s) (λ j. not (text_beq (dedupe_id j.kind) id)) s.jobs
        q.handed_out in
    rw
      (ids-insert_job_last (new_job now kind priority (last_seq s + 1)) (last_seq s) others old
        (omega arith))
      (ground (arith, contains-append_one (ids others) id t, contains-others_if id t s.jobs))

pub pending-enqueue :
    (now : ℕ) (kind : JobKind) (s : Store) (t : Text)
    → IsQueue s
    → pending t (enqueue now kind s).1 ≡ (text_beq (dedupe_id kind) t || pending t s)
unfolding enqueue
pending-enqueue now kind s t q = pending-enqueue_with_priority now kind _ s t q

pub pending-ensure_job :
    (now : ℕ) (kind : JobKind) (s : Store) (t : Text)
    → IsQueue s
    → pending t (ensure_job now kind s) ≡ (text_beq (dedupe_id kind) t || pending t s)
unfolding ensure_job
pending-ensure_job now kind s t q = elim (Bool-cases (has_id (dedupe_id kind) s.jobs)) [
  | inl there ↦
      rw there (ground (arith, has_id-ids (dedupe_id kind) s.jobs, text_beq_iff (dedupe_id kind) t))
  | inr fresh ↦ rw fresh (pending-enqueue_with_priority now kind background s t q)
]

-- Dropping the jobs of a key keeps every identity that no job of the key has.
contains-other_keys :
    (key t : Text) (js : List Job)
    → ((kind : JobKind) → key_of kind ≡ key → text_beq (dedupe_id kind) t ≡ false)
    → contains (ids (retain (λ j. not (text_beq (key_of j.kind) key)) js)) t ≡ contains (ids js) t
unfolding retain contains
contains-other_keys key t [] h = refl
contains-other_keys key t (j ∷ js) h =
    ground (arith, contains-other_keys key t js h, h j.kind, text_beq_iff (key_of j.kind) key)

pub pending-remove_jobs_for :
    (key t : Text) (s : Store)
    → ((kind : JobKind) → key_of kind ≡ key → text_beq (dedupe_id kind) t ≡ false)
    → pending t (remove_jobs_for key s).1 ≡ pending t s
unfolding remove_jobs_for
pending-remove_jobs_for key t s h = contains-other_keys key t s.jobs h

-- A push is known by its key.
pub push_id : (k j : Text) → text_beq (dedupe_id (push k)) (dedupe_id (push j)) ≡ text_beq k j
unfolding dedupe_id text_beq
push_id k j = refl

pub delete_id :
    (k j : Text) (m n : Option Text)
    → text_beq (dedupe_id (delete k m)) (dedupe_id (delete j n)) ≡ text_beq k j
unfolding dedupe_id text_beq
delete_id k j m n = refl

pub push_delete_id :
    (k j : Text) (n : Option Text) → text_beq (dedupe_id (push k)) (dedupe_id (delete j n)) ≡ false
unfolding dedupe_id text_beq
push_delete_id k j n = refl

pub delete_push_id :
    (k j : Text) (n : Option Text) → text_beq (dedupe_id (delete k n)) (dedupe_id (push j)) ≡ false
unfolding dedupe_id text_beq
delete_push_id k j n = refl

-- Only a push of the key has the identity of its push.
pub only_push :
    (j : Text) (kind : JobKind)
    → key_of kind ≢ j
    → text_beq (dedupe_id kind) (dedupe_id (push j)) ≡ false
unfolding dedupe_id text_beq key_of
only_push j (push key) h = ground (arith, text_beq_iff key j)
only_push j _ h = refl

pub only_delete :
    (j : Text) (n : Option Text) (kind : JobKind)
    → key_of kind ≢ j
    → text_beq (dedupe_id kind) (dedupe_id (delete j n)) ≡ false
unfolding dedupe_id text_beq key_of
only_delete j n (delete key m) h = ground (arith, text_beq_iff key j)
only_delete j n _ h = refl

-- A key may hold the separator `|`: for all a, b and c, the rename of `a|b` to `c` and that of `a` to
-- `b|c` have one identity.
pub rename_id_collides :
    (a b c : Text)
    → dedupe_id (rename (a ++ (codes "|" ++ b)) c) ≡ dedupe_id (rename a (b ++ (codes "|" ++ c)))
unfolding dedupe_id
rename_id_collides a b c =
    ap (λ s. codes "rename|" ++ s) (append_assoc a (codes "|" ++ b) (codes "|" ++ c))
