-- ===== src/Mirror/Moves/Failed.antt =====
-- A directory move that fails (src/mirror/sync.rs, `rename_dir_local`).
use canvas_fuse.Prelude.{
  Bool, ℕ, ◌+◌, ◌≡◌, refl, ap, true, false, Option, none, some, Text, arith, Bool-cases, inl, inr,
  ◌<◌, List, [], ◌∷◌, retain, not, ◌==◌, nat_eq, text_eq, if◌then◌else◌,
}
use canvas_fuse.Prelude.Table.{Table}
use canvas_fuse.Hub.{Result, ok, err, HubError, other}
use canvas_fuse.Local
use canvas_fuse.Local.{Local}
use canvas_fuse.Store.{
  Store, Job, JobKind, rename_dir, DirMove, interactive, push, delete, rename, conflict, mkdir,
  rmdir,
}
use canvas_fuse.Store.Queue
use canvas_fuse.Store.Queue.{job_at, drop_seq, remove_job, last_seq}
use canvas_fuse.Store.Queue.Order.{IsQueue, AtMost, job_at-insert_job}
use canvas_fuse.Mirror.{Mirror, ◌>>=◌, on_store}
use canvas_fuse.Mirror.Writes.{on_disk}
use canvas_fuse.Mirror.Moves.{
  Devices, is_original, move_on_disk, commit_if_moved, finish_directory_move, settle_move, run_move,
  rename_dir_local, may_move, move_intent,
}

-- What the ledger says of files, conflicts, directories and trash.
pub record SameLedger (s s' : Store) : Type 0 where
  pub entries : s'.entries ≡ s.entries
  pub bases : s'.bases ≡ s.bases
  pub meta : s'.meta ≡ s.meta
  pub conflicts : s'.conflicts ≡ s.conflicts
  pub trash : s'.trash ≡ s.trash
  pub dirs : s'.dirs ≡ s.dirs

SameLedger-of : (s s' : Store) → s' ≡ s → SameLedger s s'
SameLedger-of s s' e = record {
  entries = ap (λ (x : Store). x.entries) e;
  bases = ap (λ (x : Store). x.bases) e;
  meta = ap (λ (x : Store). x.meta) e;
  conflicts = ap (λ (x : Store). x.conflicts) e;
  trash = ap (λ (x : Store). x.trash) e;
  dirs = ap (λ (x : Store). x.dirs) e;
}

-- The queue is not part of it.
SameLedger-queue :
    (s s' : Store) (js : List Job) (ns : Table ℕ)
    → SameLedger s s'
    → SameLedger s (record s' { jobs = js; numbers = ns })
SameLedger-queue s s' js ns w = record {
  entries = w.entries;
  bases = w.bases;
  meta = w.meta;
  conflicts = w.conflicts;
  trash = w.trash;
  dirs = w.dirs;
}

SameLedger-queued :
    (s s' : Store) (js : List Job) (ns : Table ℕ)
    → SameLedger (record s { jobs = js; numbers = ns }) s'
    → SameLedger s s'
SameLedger-queued s s' js ns w = record {
  entries = w.entries;
  bases = w.bases;
  meta = w.meta;
  conflicts = w.conflicts;
  trash = w.trash;
  dirs = w.dirs;
}

job_at-above : (seq n : ℕ) (js : List Job) → AtMost n js → n < seq → job_at seq js ≡ none
unfolding job_at
job_at-above seq n [] a h = refl
job_at-above seq n (j ∷ js) a h = ground (arith, job_at-above seq n js a.1 h)

job_at-drop_seq : (seq : ℕ) (js : List Job) → job_at seq (drop_seq seq js) ≡ none
unfolding job_at drop_seq retain
job_at-drop_seq seq [] = refl
job_at-drop_seq seq (j ∷ js) = ground (arith, job_at-drop_seq seq js)

module _ {D : Type 0} (local : Local D) (devices : Devices) where
  on_disk-store :
      {A : Type 0} (f : D → Result A × D) (m : Mirror D) → (on_disk f m).1.store ≡ m.store
  unfolding on_disk
  on_disk-store f m = refl

  move_on_disk-store :
      (d : DirMove) (m : Mirror D) → (move_on_disk local devices d m).1.store ≡ m.store
  unfolding move_on_disk
  move_on_disk-store d m = elim (Bool-cases (is_original local devices d d.from m.disk)) [
    | inl there ↦ rw there (on_disk-store (local.rename d.from d.to) m)
    | inr gone ↦ rw gone
  ]

  commit_failed :
      (job : Job) (d : DirMove) (m₀ : Mirror D) (e : HubError) (x : Result (Unit {0}) × Mirror D)
      → x.1.store ≡ m₀.store
      → (◌>>=◌ (λ _. x) (λ _. commit_if_moved local devices job d) m₀).0 ≡ err e
      → (◌>>=◌ (λ _. x) (λ _. commit_if_moved local devices job d) m₀).1.store ≡ m₀.store
  unfolding commit_if_moved
  commit_failed job d m₀ e (ok u, m) same h = ground arith
  commit_failed job d m₀ e (err e', m) same h = same

  finish_failed :
      (job : Job) (m : Mirror D) (e : HubError)
      → (finish_directory_move local devices job m).0 ≡ err e
      → (finish_directory_move local devices job m).1.store ≡ m.store
  unfolding finish_directory_move
  finish_failed job m e h = go job.kind h
    where
      moved : DirMove → Result (Unit {0}) × Mirror D
      moved d = ◌>>=◌ (move_on_disk local devices d) (λ _. commit_if_moved local devices job d) m

      run : JobKind → Result (Unit {0}) × Mirror D
      run kind = elim kind [
        | rename_dir d ↦ if d.local_applied then (ok tt, m) else moved d
        | _ ↦ (ok tt, m)
      ]

      unless :
          (d : DirMove) (b : Bool)
          → (if b then (ok tt, m) else moved d).0 ≡ err e
          → (if b then (ok tt, m) else moved d).1.store ≡ m.store
      unless d true h' = refl
      unless d false h' =
          commit_failed job d m e (move_on_disk local devices d m) (move_on_disk-store d m) h'

      go : (kind : JobKind) → (run kind).0 ≡ err e → (run kind).1.store ≡ m.store
      go (rename_dir d) h' = unless d d.local_applied h'
      go (push _) h' = refl
      go (delete _ _) h' = refl
      go (rename _ _) h' = refl
      go (conflict _ _ _) h' = refl
      go (mkdir _) h' = refl
      go (rmdir _) h' = refl

-- The move has failed: the ledger is as it was, and a job with the number is left only if the
-- directory has gone from its place.
pub record IsCancelled {D : Type 0} (local : Local D) (from : Text) (m m' : Mirror D) : Type 0 where
  pub ledger : SameLedger m.store m'.store
  pub job :
      Local.is_dir local from m'.disk ≡ true → job_at (last_seq m.store + 1) m'.store.jobs ≡ none

module _ {D : Type 0} (local : Local D) (devices : Devices) where
  settle_failed :
      (seq : ℕ) (from : Text) (s : Store) (m : Mirror D)
      → m.store ≡ s
      → (b : Bool) → (Local.is_dir local from m.disk ≡ b)
      → SameLedger s (if b then on_store (remove_job seq) m else m).store
        × (Local.is_dir local from (if b then on_store (remove_job seq) m else m).disk ≡ true
            → job_at seq (if b then on_store (remove_job seq) m else m).store.jobs ≡ none)
  unfolding remove_job on_store
  settle_failed seq from s m same true there = (
    SameLedger-queue s m.store _ m.store.numbers (SameLedger-of s m.store same),
    λ p. job_at-drop_seq seq m.store.jobs,
  )
  settle_failed seq from s m same false gone = (SameLedger-of s m.store same, λ p. ground arith)

  settled :
      (seq : ℕ) (from : Text) (s : Store) (e : HubError) (x : Result (Unit {0}) × Mirror D)
      → (x.0 ≡ err e → x.1.store ≡ s)
      → (settle_move local devices seq from x.0 x.1).0 ≡ err e
      → SameLedger s (settle_move local devices seq from x.0 x.1).1.store
        × (Local.is_dir local from (settle_move local devices seq from x.0 x.1).1.disk ≡ true
            → job_at seq (settle_move local devices seq from x.0 x.1).1.store.jobs ≡ none)
  unfolding settle_move
  settled seq from s e (ok u, m) same h = ground arith
  settled seq from s e (err e', m) same h =
      settle_failed seq from s m (same h) (Local.is_dir local from m.disk) refl

  run_failed :
      (from : Text) (d : DirMove) (m : Mirror D) (e : HubError)
      → (run_move local devices from d m).0 ≡ err e
      → IsCancelled local from m (run_move local devices from d m).1
  unfolding run_move Queue.enqueue Queue.enqueue_with_priority
  run_failed from d m e h =
      let w =
        settled (last_seq m.store + 1) from queued.store e
          (finish_directory_move local devices job queued)
          (finish_failed local devices job queued e) (rw (run_move, found) at h) in
      rw (run_move, found) (record { ledger = SameLedger-queued m.store _ _ _ w.0; job = w.1 })
    where
      job : Job
      job = Queue.new_job m.now (rename_dir d) interactive (last_seq m.store + 1)

      queued : Mirror D
      queued = record m { store = (Queue.enqueue m.now (rename_dir d) m.store).1 }

      found : job_at (last_seq m.store + 1) queued.store.jobs ≡ some job
      found = job_at-insert_job job _

  untouched :
      (from : Text) (m : Mirror D)
      → IsQueue m.store
      → IsCancelled local from m (record m { directory_epoch = m.directory_epoch + 1 })
  untouched from m q = record {
    ledger = SameLedger-of m.store m.store refl;
    job = λ p.
        job_at-above (last_seq m.store + 1) (last_seq m.store) m.store.jobs q.handed_out
          (omega arith);
  }

  -- If the move of a directory fails, the entries, the bases, the conflicts, the trash, the
  -- directories and the named texts are as they were, in a state whose queue is in order; and if
  -- the directory is still in its place, no job of the move is left in the queue.
  pub rename_dir_local-IsCancelled :
      (from to : Text) (fresh : Option Text) (m : Mirror D) (e : HubError)
      → IsQueue m.store
      → (rename_dir_local local devices from to fresh m).0 ≡ err e
      → IsCancelled local from m (rename_dir_local local devices from to fresh m).1
  unfolding rename_dir_local
  rename_dir_local-IsCancelled from to fresh m e q h =
      go (from == to) (may_move local devices from to m')
        (move_intent local devices from to fresh m') h
    where
      m' : Mirror D
      m' = record m { directory_epoch = m.directory_epoch + 1 }

      run : Bool → Bool → Option DirMove → Result (Unit {0}) × Mirror D
      run same may intent =
          if same
          then (ok tt, m)
          else if not may
          then (err other, m')
          else elim intent [ none ↦ (err other, m') | some d ↦ run_move local devices from d m' ]

      go :
          (same may : Bool) (intent : Option DirMove)
          → (run same may intent).0 ≡ err e
          → IsCancelled local from m (run same may intent).1
      go true may intent h' = ground arith
      go false false intent h' = untouched from m q
      go false true none h' = untouched from m q
      go false true (some d) h' =
          let c = run_failed from d m' e h' in record { ledger = c.ledger; job = c.job }
