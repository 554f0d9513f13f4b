-- ===== src/Mirror/Grows.antt =====
-- Steps that change no row and lose no job, and the account of the work that the hub is owed.
use canvas_fuse.Prelude.{◌≡◌, refl, ◌∙◌, ap, sym, true, none, Text, arith}
use canvas_fuse.Prelude.Table.{lookup}
use canvas_fuse.Store.{push, delete, JobKind, dedupe_id}
use canvas_fuse.Store.Queue
use canvas_fuse.Store.Queue.Order.{IsQueue, enqueue_with_priority-IsQueue, ensure_job-IsQueue}
use canvas_fuse.Store.Queue.Pending.{pending, pending-enqueue, pending-ensure_job}
use canvas_fuse.Mirror.{Mirror, enqueue, ensure_job, is_ignored}
use canvas_fuse.Mirror.Quiet.{IsQuiet, IsQueue-SameWork}
use canvas_fuse.Mirror.Recover.{awaits_upload}
use canvas_fuse.Mirror.Accounted.{IsAccounted}

pub record Grows {D : Type 0} (m m' : Mirror D) : Type 0 where
  pub queue : IsQueue m.store → IsQueue m'.store
  pub entries : m'.store.entries ≡ m.store.entries
  pub conflicts : m'.store.conflicts ≡ m.store.conflicts
  pub skipped : m'.skipped ≡ m.skipped
  pub ignore : m'.ignore ≡ m.ignore
  pub jobs : (t : Text) → IsQueue m.store → pending t m.store ≡ true → pending t m'.store ≡ true

module _ {D : Type 0} where
  pub Grows-refl : (m : Mirror D) → Grows m m
  Grows-refl m = record {
    queue = λ q. q;
    entries = refl;
    conflicts = refl;
    skipped = refl;
    ignore = refl;
    jobs = λ t q p. p;
  }

  pub Grows-trans : (m m' m'' : Mirror D) → Grows m m' → Grows m' m'' → Grows m m''
  Grows-trans m m' m'' f g = record {
    queue = λ q. g.queue (f.queue q);
    entries = g.entries ∙ f.entries;
    conflicts = g.conflicts ∙ f.conflicts;
    skipped = g.skipped ∙ f.skipped;
    ignore = g.ignore ∙ f.ignore;
    jobs = λ t q p. g.jobs t (f.queue q) (f.jobs t q p);
  }

  pub IsQuiet-Grows : (m m' : Mirror D) → IsQuiet m m' → Grows m m'
  IsQuiet-Grows m m' w = record {
    queue = IsQueue-SameWork m.store m'.store w.work;
    entries = w.work.entries;
    conflicts = w.work.conflicts;
    skipped = w.skipped;
    ignore = w.ignore;
    jobs = λ t q p. rw w.work.jobs p;
  }

  pub enqueue-Grows : (kind : JobKind) (m : Mirror D) → Grows m (enqueue kind m)
  unfolding enqueue Queue.enqueue Queue.enqueue_with_priority
  enqueue-Grows kind m = record {
    queue = enqueue_with_priority-IsQueue m.now kind _ m.store;
    entries = refl;
    conflicts = refl;
    skipped = refl;
    ignore = refl;
    jobs = λ t q p. rw (pending-enqueue m.now kind m.store t q) (ground arith);
  }

  pub ensure_job-Grows : (kind : JobKind) (m : Mirror D) → Grows m (ensure_job kind m)
  unfolding ensure_job Queue.ensure_job Queue.enqueue_with_priority
  ensure_job-Grows kind m = record {
    queue = ensure_job-IsQueue m.now kind m.store;
    entries = ground arith;
    conflicts = ground arith;
    skipped = refl;
    ignore = refl;
    jobs = λ t q p. rw (pending-ensure_job m.now kind m.store t q) (ground arith);
  }

  pub Grows-IsAccounted : (m m' : Mirror D) → Grows m m' → IsAccounted m → IsAccounted m'
  unfolding is_ignored awaits_upload
  Grows-IsAccounted m m' g a = record {
    queue = g.queue a.queue;
    at = λ key. record {
      pushed = λ e there state kept listed.
          let old =
            (a.at key).pushed e (sym (ap (lookup key) g.entries) ∙ there) state
              (rw g.ignore at kept) (sym (ap (lookup key) g.skipped) ∙ listed) in
          ground (
            arith,
            old,
            λ (p : pending (dedupe_id (push key)) m.store ≡ true).
                g.jobs (dedupe_id (push key)) a.queue p,
            ap (lookup key) g.conflicts,
          );
      deleted = λ e there state kept listed. g.jobs (dedupe_id (delete key none)) a.queue (
          (a.at key).deleted e (sym (ap (lookup key) g.entries) ∙ there) state (rw g.ignore at kept)
            (sym (ap (lookup key) g.skipped) ∙ listed));
    };
  }

  -- Also by a quiet step.
  pub IsQuiet-IsAccounted : (m m' : Mirror D) → IsQuiet m m' → IsAccounted m → IsAccounted m'
  IsQuiet-IsAccounted m m' w = Grows-IsAccounted m m' (IsQuiet-Grows m m' w)
