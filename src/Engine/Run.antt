-- ===== src/Engine/Run.antt =====
-- Running the queue (src/mirror/sync.rs): one job, what becomes of it, and the pass over the queue.
pub mod Conflicts
pub mod Outcome
use canvas_fuse.Prelude.{
  ℕ, zero, suc, ◌+◌, Bool, true, false, ◌&&◌, ◌||◌, not, Option, none, some, List, [], ◌∷◌, ◌++◌,
  Text, codes, text_eq, nat_eq, option_eq, ◌==◌, any, ltb, put, if◌then◌else◌,
}
use canvas_fuse.Paths.{slash, under}
use canvas_fuse.Hub.{
  Result, ok, err, other, not_found, refused, HubError, protected, unauthorized, local_changed,
  is_offline, is_permanent,
}
use canvas_fuse.Local.{Local}
use canvas_fuse.Store.{
  Store, Job, JobKind, push, delete, rename, rename_dir, conflict, mkdir, rmdir, DirMove, keys_of,
  key_of, move_beq, interactive,
}
use canvas_fuse.Store.Ledger.{bases_with, set_meta}
use canvas_fuse.Store.Queue.{job_at, update_job, remove_job}
use canvas_fuse.Mirror.{
  Mirror, Op, ◌>>=◌, ◌>>◌, on_store, skip, refused_by_hub, backoff_ms, protect_job,
}
use canvas_fuse.Engine.{Client}
use canvas_fuse.Engine.Select.{select}
use canvas_fuse.Engine.Scan.{scan_paths, process_local_events}
use canvas_fuse.Engine.Requests.{run_push, run_delete, run_rename}
use canvas_fuse.Engine.Run.Conflicts.{run_conflict}

-- The derived equality of job kinds.
unfoldable pub kind_beq : JobKind → JobKind → Bool
kind_beq (push a) (push b) = a == b
kind_beq (delete a f) (delete b g) = a == b && f == g
kind_beq (rename a b) (rename c d) = a == c && b == d
kind_beq (rename_dir a) (rename_dir b) = move_beq a b
kind_beq (conflict a l x) (conflict b r y) = a == b && (l == r && x == y)
kind_beq (mkdir a) (mkdir b) = a == b
kind_beq (rmdir a) (rmdir b) = a == b
kind_beq _ _ = false

abbrev pub is_dir_move : JobKind → Bool
is_dir_move (rename_dir _) = true
is_dir_move _ = false

-- `JobKind::Mkdir { .. } | JobKind::Rmdir { .. }`.
abbrev pub is_dir_only : JobKind → Bool
is_dir_only (mkdir _) = true
is_dir_only (rmdir _) = true
is_dir_only _ = false

abbrev pub refresh_key : Text
refresh_key = codes "directory-refresh"

module _ {D : Type 0} where
  -- An earlier directory move that the job's paths lie under.
  unfoldable pub waits_for_move : Job → Mirror D → Bool
  waits_for_move job m =
      not (is_dir_move job.kind)
      && any
          (λ p. ltb p.seq job.seq && elim p.kind [
            | rename_dir d ↦ any (λ key. under key d.from || under key d.to) (keys_of job.kind)
            | _ ↦ false
          ])
          m.store.jobs

  -- The job is as it was when it was taken up.
  unfoldable pub is_unchanged : Job → Mirror D → Bool
  is_unchanged job m = any (λ j. j.seq == job.seq && kind_beq j.kind job.kind) m.store.jobs

  -- A failed attempt is put off.
  unfoldable pub retry_later : Job → HubError → Mirror D → Mirror D
  retry_later job e m =
      on_store
        (update_job (record job {
          attempts = job.attempts + 1;
          not_before = m.now + backoff_ms (job.attempts + 1);
          last_error = some e;
        }))
        m

  -- The last three arms: refused for good, or to be tried again.
  unfoldable pub settle_failure : Job → HubError → Mirror D → Mirror D
  settle_failure job e m =
      if is_permanent e && not (is_dir_move job.kind)
      then on_store (remove_job job.seq) (skip (key_of job.kind) (refused_by_hub e) m)
      else retry_later job e m

  module _ (local : Local D) (client : Client D) where
    -- The request of a directory move.
    unfoldable pub run_rename_dir : DirMove → Op D (Unit {0})
    run_rename_dir d m =
        if not d.local_applied
        then (err other, m)
        else (moved >> λ m'. (
          ok tt,
          record (on_store (set_meta refresh_key (codes "1")) m') {
            directory_epoch = m'.directory_epoch + 1;
          },
        ))
            m
      where
        moved : Op D (Unit {0})
        moved m =
            if d.remote
            then (let (r, m') = client.rename_directory d.from d.to d.operation_id m in
                elim r [
                  | err not_found ↦ elim (bases_with (d.to ++ (slash ∷ [])) m'.store) [
                    | [] ↦ client.mkdir d.to m'
                    | _ ∷ _ ↦ (err not_found, m')
                  ]
                  | r' ↦ (r', m')
                ])
            else (ok tt, m)

    -- A folder that the hub has already is made.
    unfoldable pub run_mkdir : Text → Op D (Unit {0})
    run_mkdir key m =
        let (r, m') = client.mkdir key m in
        elim r [
          | err (refused status) ↦ if status == 409 then (ok tt, m') else (err (refused status), m')
          | r' ↦ (r', m')
        ]

    unfoldable pub run_job : JobKind → Op D (Unit {0})
    run_job (push key) = run_push local client key
    run_job (delete key if_match) = run_delete local client key if_match
    run_job (rename from to) = run_rename local client from to
    run_job (rename_dir d) = run_rename_dir d
    run_job (conflict key local_sha base_sha) = run_conflict local client key local_sha base_sha
    run_job (mkdir key) = run_mkdir key
    run_job (rmdir key) = client.rmdir key

    -- The job is done.
    unfoldable pub settle_done : Job → Mirror D → Mirror D
    settle_done job m =
        let m' = on_store (remove_job job.seq) m in
        elim job.kind [
          | rename_dir d ↦ (scan_paths local client interactive (d.from ∷ d.to ∷ []) m').1
          | _ ↦ m'
        ]

    -- `match result`, of a job that is still in the queue.
    unfoldable pub settle_job : Job → Result (Unit {0}) → Op D (Unit {0})
    settle_job job (ok _) m = (ok tt, settle_done job m)
    settle_job job (err (protected _)) m =
        (ok tt, record m { protected_jobs = job.seq ∷ m.protected_jobs })
    settle_job job (err (local_changed _)) m = (ok tt, m)
    settle_job job (err unauthorized) m = (err unauthorized, m)
    settle_job job (err e) m = if is_offline e then (err e, m) else (ok tt, settle_failure job e m)

    -- From the job as the queue has it.
    unfoldable pub run_current : Job → Op D (Unit {0})
    run_current job m =
        if waits_for_move job m
        then (ok tt, m)
        else let (result, m') = (protect_job job >> run_job job.kind) m in
          if is_unchanged job m' then settle_job job result m' else (result, m')

    unfoldable pub run_one : Job → Op D (Unit {0})
    run_one job = client.verify_destination >> λ m. elim (job_at job.seq m.store.jobs) [
      | none ↦ (ok tt, m)
      | some current ↦ run_current current m
    ]

    -- What the pass has changed at the hub.
    unfoldable pub touch : Job → List Text → Mirror D → List Text
    touch job touched m =
        if any (λ n. n == job.seq) m.protected_jobs || is_dir_only job.kind
        then touched
        else keys_of job.kind ++ touched

    -- The `for` loop, on the budget left; `sort` is that of the library, of paths.
    unfoldable pub drain_jobs : (List Text → List Text) → ℕ → List Text → Op D (List Text)
    drain_jobs sort zero touched m = (ok touched, m)
    drain_jobs sort (suc budget) touched m =
        let m' = process_local_events local client sort m in
        elim (select m') [
          | none ↦ (ok touched, m')
          | some job ↦
              let (done, m'') = run_one job m' in
              elim done [
                | err e ↦ (err e, m'')
                | ok _ ↦ drain_jobs sort budget (touch job touched m'') m''
              ]
        ]
