-- ===== src/Engine/Run/Outcome.antt =====
-- A job that failed, and an upload that went through (src/mirror/sync.rs, `run_one` and `run_push`).
use canvas_fuse.Prelude.{
  ℕ, suc, zero, ◌+◌, ◌*◌, ◌^◌, ◌≤◌, ◌≡◌, refl, ap, true, false, ◌&&◌, not, none, some, List, [],
  ◌∷◌, Text, text_beq_refl, nat_eq, ◌==◌, arith, Bool-cases, Option-cases, text_beq_iff, any,
  retain, is_empty, if◌then◌else◌, ltb, min, inl, inr, ◌⊎◌,
}
use canvas_fuse.Prelude.Table.{lookup, lookup-insert}
use canvas_fuse.Hub.{
  HubError, is_permanent, is_offline, PutResult, Result, ok, err, protected, local_changed,
  unauthorized, offline, unsafe_mirror, precondition_failed, cursor_too_old, not_found,
  target_exists, refused, retryable,
}
use canvas_fuse.Local.{Local}
use canvas_fuse.Store.{Job, Base, Entry, clean, key_of}
use canvas_fuse.Store.Ledger.{put_entry, put_base, remove_meta}
use canvas_fuse.Store.Queue.{job_at, update_job, remove_job, drop_seq}
use canvas_fuse.Store.Queue.Order.{job_at-insert_job}
use canvas_fuse.Mirror.{Mirror, ◌>>◌, backoff_ms, skip, on_store, refused_by_hub, protect_job}
use canvas_fuse.Engine.{Client}
use canvas_fuse.Engine.Requests.{base_sha, mark_clean, note_pushed}
use canvas_fuse.Engine.Run.{
  settle_failure, retry_later, is_dir_move, is_unchanged, kind_beq, settle_job, run_job,
  waits_for_move, run_current,
}

power_pos : (n : ℕ) → 1 ≤ 2 ^ n
power_pos zero = omega arith
power_pos (suc n) = omega (arith, power_pos n)

-- The delay doubles with each attempt, and stops at an hour.
backoff_ms-doubles : (n : ℕ) → backoff_ms n ≡ min (60000 * 2 ^ n) 3600000
unfolding backoff_ms
backoff_ms-doubles zero = refl
backoff_ms-doubles (suc zero) = refl
backoff_ms-doubles (suc (suc zero)) = refl
backoff_ms-doubles (suc (suc (suc zero))) = refl
backoff_ms-doubles (suc (suc (suc (suc zero)))) = refl
backoff_ms-doubles (suc (suc (suc (suc (suc zero))))) = refl
backoff_ms-doubles (suc (suc (suc (suc (suc (suc n)))))) =
    let six : min (suc (suc (suc (suc (suc (suc n)))))) 6 ≡ 6 = omega arith in
    let some_power = power_pos n in rw six (omega (arith, some_power))

job_at-drop_seq : (seq : ℕ) (js : List Job) → job_at seq (drop_seq seq js) ≡ none
unfolding job_at drop_seq retain
job_at-drop_seq seq [] = refl
job_at-drop_seq seq (j ∷ js) = ground (arith, job_at-drop_seq seq js)

-- The job is put off: it has one attempt more, the error, and the time from which it is tried again,
-- which is twice as far away with each attempt, up to one hour.
pub record IsPutOff {D : Type 0} (job : Job) (e : HubError) (m m' : Mirror D) : Type 0 where
  pub again : (is_permanent e && not (is_dir_move job.kind)) ≡ false
  pub row : Job
  pub there : job_at job.seq m'.store.jobs ≡ some row
  pub kind : row.kind ≡ job.kind
  pub attempts : row.attempts ≡ job.attempts + 1
  pub due : row.not_before ≡ m.now + min (60000 * 2 ^ (job.attempts + 1)) 3600000
  pub reason : row.last_error ≡ some e

-- The job is given up: the hub has refused it for good, it moves no directory, and its key is marked.
pub record IsGivenUp {D : Type 0} (job : Job) (e : HubError) (m' : Mirror D) : Type 0 where
  pub permanent : is_permanent e ≡ true
  pub no_move : is_dir_move job.kind ≡ false
  pub gone : job_at job.seq m'.store.jobs ≡ none
  pub marked : lookup (key_of job.kind) m'.skipped ≡ some (refused_by_hub e)

abbrev IsSettled : {D : Type 0} → Job → HubError → Mirror D → Result (Unit {0}) × Mirror D → Type 0
IsSettled job e m x = (x.0 ≡ ok tt) × (IsPutOff job e m x.1 ⊎ IsGivenUp job e x.1)

-- What becomes of a failed job, by the kind of its failure.
abbrev pub Settles :
    {D : Type 0} → Job → HubError → Mirror D → Result (Unit {0}) × Mirror D → Type 0
Settles job (protected _) m x =
    x ≡ (ok tt, record m { protected_jobs = job.seq ∷ m.protected_jobs })
Settles job (local_changed _) m x = x ≡ (ok tt, m)
Settles job unauthorized m x = x ≡ (err unauthorized, m)
Settles job offline m x = x ≡ (err offline, m)
Settles job e m x = IsSettled job e m x

module _ {D : Type 0} where
  settle_failure-lem :
      (job : Job) (e : HubError) (m : Mirror D) (j : Job)
      → job_at job.seq m.store.jobs ≡ some j
      → IsSettled job e m (ok tt, settle_failure job e m)
  unfolding settle_failure retry_later on_store update_job remove_job skip
  settle_failure-lem job e m j there =
      elim (Bool-cases (is_permanent e && not (is_dir_move job.kind))) [
        | inl final ↦ (
          refl,
          inr (record {
            permanent = ground arith;
            no_move = ground arith;
            gone = rw (final, settle_failure) (job_at-drop_seq job.seq m.store.jobs);
            marked = rw (final, settle_failure) (rw lookup-insert (rw text_beq_refl refl));
          }),
        )
        | inr again ↦ (
          refl,
          inl (record {
            again = again;
            row = put_off;
            there =
                rw (again, settle_failure)
                  (rw (there, update_job) (job_at-insert_job put_off m.store.jobs));
            kind = refl;
            attempts = refl;
            due = ap (λ d. m.now + d) (backoff_ms-doubles (job.attempts + 1));
            reason = refl;
          }),
        )
      ]
    where
      put_off : Job
      put_off = record job {
        attempts = job.attempts + 1;
        not_before = m.now + backoff_ms (job.attempts + 1);
        last_error = some e;
      }

  is_unchanged-job_at :
      (job : Job) (m : Mirror D)
      → is_unchanged job m ≡ true
      → (j : Job) × (job_at job.seq m.store.jobs ≡ some j)
  unfolding is_unchanged job_at
  is_unchanged-job_at job m h = go m.store.jobs h
    where
      go :
          (js : List Job)
          → any (λ j. j.seq == job.seq && kind_beq j.kind job.kind) js ≡ true
          → (j : Job) × (job_at job.seq js ≡ some j)
      go [] h = absurd (ground (arith, h))
      go (x ∷ js) h = elim (Bool-cases (x.seq == job.seq)) [
        | inl same ↦ (x, rw (same, job_at) refl)
        | inr other ↦ rw (other, job_at) (go js (ground (arith, h, other)))
      ]

  module _ (local : Local D) (client : Client D) where
    settle_job-Settles :
        (job : Job) (e : HubError) (m : Mirror D) (j : Job)
        → job_at job.seq m.store.jobs ≡ some j
        → Settles job e m (settle_job local client job (err e) m)
    unfolding settle_job is_offline
    settle_job-Settles job (protected _) m j there = refl
    settle_job-Settles job (local_changed _) m j there = refl
    settle_job-Settles job unauthorized m j there = refl
    settle_job-Settles job offline m j there = refl
    settle_job-Settles job unsafe_mirror m j there = settle_failure-lem job _ m j there
    settle_job-Settles job (precondition_failed _) m j there = settle_failure-lem job _ m j there
    settle_job-Settles job (cursor_too_old _ _) m j there = settle_failure-lem job _ m j there
    settle_job-Settles job not_found m j there = settle_failure-lem job _ m j there
    settle_job-Settles job target_exists m j there = settle_failure-lem job _ m j there
    settle_job-Settles job (refused _) m j there = settle_failure-lem job _ m j there
    settle_job-Settles job (retryable _) m j there = settle_failure-lem job _ m j there
    settle_job-Settles job HubError.other m j there = settle_failure-lem job _ m j there

    -- A job that waits for no directory move, whose request fails, and that is then still in the queue
    -- as it was: in protected mode it is set aside until the mode ends; for a change of the file during
    -- the upload nothing is changed; without a connection or an authorisation the pass ends with that
    -- error and nothing is changed; for any other failure either it stays queued with one attempt
    -- more, the error, and a delay that doubles with each attempt up to one hour, or, exactly where the
    -- hub has refused it for good and it moves no directory, it leaves the queue and its key is marked.
    pub run_current-KeepsWork :
        (job : Job) (e : HubError) (m m' : Mirror D)
        → waits_for_move job m ≡ false
        → (protect_job job >> run_job local client job.kind) m ≡ (err e, m')
        → is_unchanged job m' ≡ true
        → Settles job e m' (run_current local client job m)
    unfolding run_current
    run_current-KeepsWork job e m m' free fails same =
        let (j, there) = is_unchanged-job_at job m' same in
        rw (free, fails, same, run_current) (settle_job-Settles job e m' j there)

module _ {D : Type 0} (m : Mirror D) where
  -- An upload marks an entry as clean only if the version that the hub has agreed to is the entry's.
  pub note_pushed-IsHonest :
      (key landed : Text) (e f : Entry) (res : PutResult)
      → lookup landed (note_pushed key landed e res m).store.entries ≡ some f
      → f.state ≡ clean
      → (lookup landed m.store.entries ≡ some f)
        ⊎ (base_sha landed (note_pushed key landed e res m) ≡ some f.sha256)
  unfolding note_pushed base_sha mark_clean on_store put_base put_entry remove_meta
  note_pushed-IsHonest key landed e f res there state =
      elim (Option-cases (lookup landed m.store.entries)) [
        | inl absent ↦ ground (arith, absent)
        | inr (x, found) ↦ ground (
          arith,
          found,
          lookup-insert landed landed (record x { state = clean }) m.store.entries,
          lookup-insert landed landed agreed m.store.bases,
          text_beq_refl landed,
          text_beq_iff x.sha256 sha,
        )
      ]
    where
      sha : Text
      sha = if is_empty res.sha256 then e.sha256 else res.sha256

      agreed : Base
      agreed = record {
        sha256 = sha;
        size = e.size;
        mtime = if ltb 0 res.mtime then res.mtime else e.mtime;
        remote_seq = res.seq;
      }
