-- ===== src/Mirror/Frame.antt =====
-- What an operation on one key leaves alone: the rows, the marks and the queued work of every other
-- key. Each small step keeps the frame, so that of an operation is their composition.
use canvas_fuse.Prelude.{◌≡◌, refl, ◌∙◌, true, false, none, Text, text_beq, text_beq_iff, arith}
use canvas_fuse.Prelude.Table.{lookup, lookup-insert, lookup-remove}
use canvas_fuse.Store.{Store, Entry, JobKind, push, delete, key_of, dedupe_id}
use canvas_fuse.Store.Ledger.{put_entry, remove_entry}
use canvas_fuse.Store.Queue
use canvas_fuse.Store.Queue.Order.{IsQueue, enqueue_with_priority-IsQueue, remove_jobs_for-IsQueue}
use canvas_fuse.Store.Queue.Pending.{
  pending, pending-enqueue, pending-remove_jobs_for, only_push, only_delete,
}
use canvas_fuse.Mirror.{Mirror, SkipReason, ViewCall, on_store, wake, show, enqueue, skip, unskip}

-- The work that an entry of the key can be owed: a push, or a delete with no fixed precondition.
pub data IsOwn (j : Text) : JobKind → Type 0 where
  own_push : IsOwn j (push j)
  own_delete : IsOwn j (delete j none)

own_of_key :
    (key j : Text) (own kind : JobKind)
    → IsOwn j own
    → text_beq key j ≡ false
    → key_of kind ≡ key
    → text_beq (dedupe_id kind) (dedupe_id own) ≡ false
own_of_key key j own kind own_push h e = only_push j kind (λ p. ground (arith, text_beq_iff key j))
own_of_key key j own kind own_delete h e =
    only_delete j none kind (λ p. ground (arith, text_beq_iff key j))

pub record Frame {D : Type 0} (key : Text) (m₀ m : Mirror D) : Type 0 where
  pub queue : IsQueue m.store
  pub rules : m.ignore ≡ m₀.ignore
  pub entries :
      (j : Text) → text_beq key j ≡ false → lookup j m.store.entries ≡ lookup j m₀.store.entries
  pub skips : (j : Text) → text_beq key j ≡ false → lookup j m.skipped ≡ lookup j m₀.skipped
  pub conflicts : m.store.conflicts ≡ m₀.store.conflicts
  pub jobs :
      (j : Text) (kind : JobKind)
      → IsOwn j kind
      → text_beq key j ≡ false
      → pending (dedupe_id kind) m₀.store ≡ true
      → pending (dedupe_id kind) m.store ≡ true

module _ {D : Type 0} {key : Text} {m₀ : Mirror D} where
  pub Frame-refl : IsQueue m₀.store → Frame key m₀ m₀
  Frame-refl q = record {
    queue = q;
    rules = refl;
    entries = λ j h. refl;
    skips = λ j h. refl;
    conflicts = refl;
    jobs = λ j kind o h p. p;
  }

module _ {D : Type 0} {key : Text} {m₀ : Mirror D} (m : Mirror D) (f : Frame key m₀ m) where
  pub Frame-wake : Frame key m₀ (wake m)
  unfolding wake
  Frame-wake = record {
    queue = f.queue;
    rules = f.rules;
    entries = f.entries;
    skips = f.skips;
    conflicts = f.conflicts;
    jobs = f.jobs;
  }

  pub Frame-show : (call : ViewCall) → Frame key m₀ (show call m)
  unfolding show
  Frame-show call = record {
    queue = f.queue;
    rules = f.rules;
    entries = f.entries;
    skips = f.skips;
    conflicts = f.conflicts;
    jobs = f.jobs;
  }

  pub Frame-disk : (d : D) → Frame key m₀ (record m { disk = d })
  Frame-disk d = record {
    queue = f.queue;
    rules = f.rules;
    entries = f.entries;
    skips = f.skips;
    conflicts = f.conflicts;
    jobs = f.jobs;
  }

  pub Frame-skip : (reason : SkipReason) → Frame key m₀ (skip key reason m)
  unfolding skip
  Frame-skip reason = record {
    queue = f.queue;
    rules = f.rules;
    entries = f.entries;
    skips = λ j h. rw lookup-insert (rw h (f.skips j h));
    conflicts = f.conflicts;
    jobs = f.jobs;
  }

  pub Frame-unskip : Frame key m₀ (unskip key m)
  unfolding unskip
  Frame-unskip = record {
    queue = f.queue;
    rules = f.rules;
    entries = f.entries;
    skips = λ j h. rw lookup-remove (rw h (f.skips j h));
    conflicts = f.conflicts;
    jobs = f.jobs;
  }

  -- A step on the store that leaves the queue and the other entries alone.
  pub Frame-store :
      (g : Store → Store)
      → (g m.store).jobs ≡ m.store.jobs
      → (g m.store).numbers ≡ m.store.numbers
      → (g m.store).conflicts ≡ m.store.conflicts
      → ((j : Text)
          → text_beq key j ≡ false
          → lookup j (g m.store).entries ≡ lookup j m.store.entries)
      → Frame key m₀ (on_store g m)
  unfolding on_store Queue.last_seq
  Frame-store g js ns cs es = record {
    queue = record {
      ascending = rw js f.queue.ascending;
      handed_out = rw (js, ns) f.queue.handed_out;
      distinct = rw js f.queue.distinct;
    };
    rules = f.rules;
    entries = λ j h. es j h ∙ f.entries j h;
    skips = f.skips;
    conflicts = cs ∙ f.conflicts;
    jobs = λ j kind o h p. rw js (f.jobs j kind o h p);
  }

  pub Frame-put_entry : (e : Entry) → Frame key m₀ (on_store (put_entry key e) m)
  unfolding put_entry
  Frame-put_entry e = Frame-store (put_entry key e) refl refl refl (λ j h. rw lookup-insert (rw h))

  pub Frame-remove_entry : Frame key m₀ (on_store (remove_entry key) m)
  unfolding remove_entry
  Frame-remove_entry =
      Frame-store (remove_entry key) refl refl refl (λ j h. rw lookup-remove (rw h))

  pub Frame-enqueue : (kind : JobKind) → Frame key m₀ (enqueue kind m)
  unfolding enqueue Queue.enqueue Queue.enqueue_with_priority
  Frame-enqueue kind = record {
    queue = enqueue_with_priority-IsQueue m.now kind _ m.store f.queue;
    rules = f.rules;
    entries = f.entries;
    skips = f.skips;
    conflicts = f.conflicts;
    jobs = λ j own o h p.
        rw (pending-enqueue m.now kind m.store (dedupe_id own) f.queue)
          (ground (arith, f.jobs j own o h p));
  }

  pub Frame-remove_jobs_for : Frame key m₀ (on_store (λ s. (Queue.remove_jobs_for key s).1) m)
  unfolding on_store Queue.remove_jobs_for
  Frame-remove_jobs_for = record {
    queue = remove_jobs_for-IsQueue key m.store f.queue;
    rules = f.rules;
    entries = f.entries;
    skips = f.skips;
    conflicts = f.conflicts;
    jobs = λ j own o h p.
        rw
          (pending-remove_jobs_for key (dedupe_id own) m.store
            (λ kind e. own_of_key key j own kind o h e))
          (f.jobs j own o h p);
  }
