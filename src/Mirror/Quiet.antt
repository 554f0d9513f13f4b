-- ===== src/Mirror/Quiet.antt =====
-- Steps on the store that touch neither the entries, nor the queue, nor the conflicts: directories,
-- the audit, the trash, bases, names and numbers.
use canvas_fuse.Prelude.{
  ℕ, zero, suc, ◌≡◌, refl, ◌∙◌, ap, ◌||◌, none, Option, Text, arith, Bool-cases, inl, inr, is_empty,
  length, codes,
}
use canvas_fuse.Prelude.Table.{lookup}
use canvas_fuse.Paths.{parent_key}
use canvas_fuse.Protection.{BlockedAction}
use canvas_fuse.Local.{Local}
use canvas_fuse.Store.{Store}
use canvas_fuse.Store.Ledger.{has_dir, add_dir, record_blocked, remove_trashed}
use canvas_fuse.Mirror.{
  Mirror, on_store, block_action, record_dirs_from, record_dirs_for, clear_obsolete_trash,
}
use canvas_fuse.Store.Queue.{last_seq}
use canvas_fuse.Store.Queue.Order.{IsQueue}
use canvas_fuse.Mirror.Frame.{Frame, Frame-store}

pub record SameWork (s s' : Store) : Type 0 where
  pub entries : s'.entries ≡ s.entries
  pub jobs : s'.jobs ≡ s.jobs
  pub numbers : s'.numbers ≡ s.numbers
  pub conflicts : s'.conflicts ≡ s.conflicts

pub SameWork-refl : (s : Store) → SameWork s s
SameWork-refl s = record { entries = refl; jobs = refl; numbers = refl; conflicts = refl }

pub SameWork-trans : (s s' s'' : Store) → SameWork s s' → SameWork s' s'' → SameWork s s''
SameWork-trans s s' s'' a b = record {
  entries = b.entries ∙ a.entries;
  jobs = b.jobs ∙ a.jobs;
  numbers = b.numbers ∙ a.numbers;
  conflicts = b.conflicts ∙ a.conflicts;
}

pub add_dir-SameWork : (key : Text) (s : Store) → SameWork s (add_dir key s)
unfolding add_dir
add_dir-SameWork key s = record { entries = refl; jobs = refl; numbers = refl; conflicts = refl }

record_dirs_from-SameWork :
    (rounds : ℕ) (p : Text) (s : Store) → SameWork s (record_dirs_from rounds p s)
unfolding record_dirs_from
record_dirs_from-SameWork zero p s = SameWork-refl s
record_dirs_from-SameWork (suc rounds) p s = elim (Bool-cases (is_empty p || has_dir p s)) [
  | inl done ↦ rw done (SameWork-refl s)
  | inr more ↦ rw more (
      SameWork-trans s (add_dir p s) _ (add_dir-SameWork p s)
        (record_dirs_from-SameWork rounds (parent_key p) (add_dir p s)))
]

pub record_dirs_for-SameWork : (key : Text) (s : Store) → SameWork s (record_dirs_for key s)
unfolding record_dirs_for
record_dirs_for-SameWork key s = record_dirs_from-SameWork (length key) (parent_key key) s

pub record_blocked-SameWork :
    (f : Text × Text × Option Text → Text) (a : BlockedAction) (s : Store)
    → SameWork s (record_blocked f a s).1
unfolding record_blocked
record_blocked-SameWork f a s = ground arith

module _ {D : Type 0} where
  pub block_action-SameWork :
      (action key : Text) (to remote : Option Text) (m : Mirror D)
      → SameWork m.store (block_action action key to remote m).store
  unfolding block_action
  block_action-SameWork action key to remote m = record_blocked-SameWork _ _ m.store

  pub clear_obsolete_trash-SameWork :
      (local : Local D) (key : Text) (m : Mirror D)
      → SameWork m.store (clear_obsolete_trash local key m).store
  unfolding clear_obsolete_trash remove_trashed
  clear_obsolete_trash-SameWork local key m =
      ground (arith, block_action-SameWork (codes "discard retained trash copy") key none none m)

  -- The steps keep the frame of any key.
  pub Frame-SameWork :
      {key : Text} {m₀ : Mirror D} (m : Mirror D) (g : Store → Store)
      → SameWork m.store (g m.store)
      → Frame key m₀ m
      → Frame key m₀ (on_store g m)
  Frame-SameWork m g w f =
      Frame-store m f g w.jobs w.numbers w.conflicts (λ j h. ap (lookup j) w.entries)

pub IsQueue-SameWork : (s s' : Store) → SameWork s s' → IsQueue s → IsQueue s'
unfolding last_seq
IsQueue-SameWork s s' w q = record {
  ascending = rw w.jobs q.ascending;
  handed_out = rw (w.jobs, w.numbers) q.handed_out;
  distinct = rw w.jobs q.distinct;
}

-- A step that changes no entry, no job, no conflict and no mark of a key.
pub record IsQuiet {D : Type 0} (m m' : Mirror D) : Type 0 where
  pub work : SameWork m.store m'.store
  pub ignore : m'.ignore ≡ m.ignore
  pub skipped : m'.skipped ≡ m.skipped

module _ {D : Type 0} where
  pub block_action-IsQuiet :
      (action key : Text) (to remote : Option Text) (m : Mirror D)
      → IsQuiet m (block_action action key to remote m)
  unfolding block_action
  block_action-IsQuiet action key to remote m = record {
    work = record_blocked-SameWork _ _ m.store;
    ignore = refl;
    skipped = refl;
  }

  pub clear_obsolete_trash-IsQuiet :
      (local : Local D) (key : Text) (m : Mirror D) → IsQuiet m (clear_obsolete_trash local key m)
  unfolding clear_obsolete_trash block_action
  clear_obsolete_trash-IsQuiet local key m = record {
    work = clear_obsolete_trash-SameWork local key m;
    ignore = ground arith;
    skipped = ground arith;
  }

  pub Frame-IsQuiet :
      {key : Text} {m₀ : Mirror D} (m m' : Mirror D)
      → IsQuiet m m'
      → Frame key m₀ m
      → Frame key m₀ m'
  Frame-IsQuiet m m' w f = record {
    queue = IsQueue-SameWork m.store m'.store w.work f.queue;
    rules = w.ignore ∙ f.rules;
    entries = λ j h. ap (lookup j) w.work.entries ∙ f.entries j h;
    skips = λ j h. ap (lookup j) w.skipped ∙ f.skips j h;
    conflicts = w.work.conflicts ∙ f.conflicts;
    jobs = λ j kind o h p. rw w.work.jobs (f.jobs j kind o h p);
  }
