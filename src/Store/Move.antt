-- ===== src/Store/Move.antt =====
-- The ledger's side of a directory move: `apply_directory_rename` (src/mirror/store.rs). Everything
-- recorded under `from` moves to `to` in one transaction.
pub mod Order
use canvas_fuse.Prelude.{
  ℕ, zero, suc, ◌+◌, Bool, true, false, ◌&&◌, ◌||◌, not, Option, none, some, List, [], ◌∷◌, ◌++◌,
  Text, codes, text_eq, nat_eq, ◌==◌, is_some_and, retain, put, without, strip_prefix, length, ltb,
  if◌then◌else◌,
}
use canvas_fuse.Prelude.Table.{Table, insert, remove}
use canvas_fuse.Paths.{under}
use canvas_fuse.Store.{
  Store, Conflict, DirMove, Job, JobKind, push, delete, rename, rename_dir, conflict, mkdir, rmdir,
  key_of,
}
use canvas_fuse.Store.Ledger.{job_seq_key}
use canvas_fuse.Store.Queue.{insert_job, drop_seq, last_seq}

unfoldable pub drop {ℓ} : {A : Type ℓ} → ℕ → List A → List A
drop zero xs = xs
drop (suc n) [] = []
drop (suc n) (x ∷ xs) = drop n xs

-- `format!("{to}{}", &key[from.len()..])`.
unfoldable pub mapped : Text → Text → Text → Text
unfolding drop
mapped from to key = to ++ drop (length from) key

-- The file stamps of both paths are stale.
unfoldable pub keep_stamp : Text → Text → Text → Bool
keep_stamp from to name =
    not (
      is_some_and (strip_prefix (codes "local-stamp:") name)
        (λ key. under key from || under key to))

module _ {ℓ} {V : Type ℓ} (from to : Text) (moved : V → V) where
  -- One round for each row that was under `from`.
  unfoldable pub move_rows : Table V → Table V → Table V
  move_rows [] t = t
  move_rows ((key, v) ∷ rows) t =
      move_rows rows (insert (mapped from to key) (moved v) (remove key t))

  unfoldable pub move_table : Table V → Table V
  unfolding move_rows
  move_table t = move_rows (retain (λ row. under row.0 from) t) t

-- A conflict record names its key, and may name its copy.
unfoldable pub moved_conflict : Text → Text → Conflict → Conflict
moved_conflict from to c = record c {
  key = mapped from to c.key;
  copy_key = elim c.copy_key [
    | none ↦ none
    | some key ↦ some (if under key from then mapped from to key else key)
  ];
}

move_each_dir : Text → Text → List Text → List Text → List Text
move_each_dir from to [] dirs = dirs
move_each_dir from to (key ∷ keys) dirs =
    move_each_dir from to keys (put (mapped from to key) (without key dirs))

unfoldable pub move_dirs : Text → Text → List Text → List Text
unfolding move_each_dir
move_dirs from to dirs = put to (move_each_dir from to (retain (λ key. under key from) dirs) dirs)

-- The kind under its new key; a rename or another directory move is left alone.
unfoldable pub moved_kind : Text → Text → JobKind → Option JobKind
moved_kind from to (push key) = some (push (mapped from to key))
moved_kind from to (delete key m) = some (delete (mapped from to key) m)
moved_kind from to (conflict key l b) = some (conflict (mapped from to key) l b)
moved_kind from to (mkdir key) = some (mkdir (mapped from to key))
moved_kind from to (rmdir key) = some (rmdir (mapped from to key))
moved_kind from to (rename _ _) = none
moved_kind from to (rename_dir _) = none

-- `Delete | Mkdir | Rmdir`.
unfoldable pub is_structural : JobKind → Bool
is_structural (delete _ _) = true
is_structural (mkdir _) = true
is_structural (rmdir _) = true
is_structural _ = false

-- What the loop does about one pending job: its new kind, or `continue`.
unfoldable pub job_moves : DirMove → ℕ → Job → Option JobKind
unfolding moved_kind is_structural
job_moves d seq j =
    if j.seq == seq || not (under (key_of j.kind) d.from)
    then none
    else if d.remote && (ltb j.seq seq && is_structural j.kind)
    then none
    else moved_kind d.from d.to j.kind

-- The loop over the pending jobs, in order: a moved job is queued anew, behind all others.
unfoldable pub move_jobs : DirMove → ℕ → List Job → List Job × ℕ → List Job × ℕ
move_jobs d seq [] acc = acc
move_jobs d seq (j ∷ js) (table, next) = move_jobs d seq js (elim (job_moves d seq j) [
  | none ↦ (table, next)
  | some kind ↦
      (insert_job (record j { kind = kind; seq = next + 1 }) (drop_seq j.seq table), next + 1)
])

apply_move : DirMove → Job → Store → Store
unfolding move_table moved_conflict move_dirs keep_stamp move_jobs
apply_move d job s =
    let (jobs, next) = move_jobs d job.seq s.jobs (s.jobs, last_seq s) in
    let applied = record job { kind = rename_dir (record d { local_applied = true }) } in
    record s {
      meta = retain (λ row. keep_stamp d.from d.to row.0) s.meta;
      entries = move_table d.from d.to (λ e. e) s.entries;
      bases = move_table d.from d.to (λ b. b) s.bases;
      conflicts = move_table d.from d.to (moved_conflict d.from d.to) s.conflicts;
      dirs = move_dirs d.from d.to s.dirs;
      jobs = insert_job applied jobs;
      numbers = insert job_seq_key next s.numbers;
    }

-- Only an intent that is not applied yet does anything.
apply_kind : JobKind → Job → Store → Store
unfolding apply_move
apply_kind (rename_dir d) job s = if d.local_applied then s else apply_move d job s
apply_kind _ job s = s

unfoldable pub apply_directory_rename : Job → Store → Store
unfolding apply_kind
apply_directory_rename job s = apply_kind job.kind job s
