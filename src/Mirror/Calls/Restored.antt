-- ===== src/Mirror/Calls/Restored.antt =====
-- The return of a file from the trash (src/mirror/sync.rs, `trash_restore`) and the account of the work
-- that the hub is owed.
use canvas_fuse.Prelude.{
  ◌≡◌, ◌∙◌, ap, some, Option, Text, text_beq, text_beq_refl, arith, Bool-cases, Option-cases, inl,
  inr, is_some, if◌then◌else◌,
}
use canvas_fuse.Prelude.Table.{lookup, lookup-insert}
use canvas_fuse.Hub.{ok}
use canvas_fuse.Local.{Local, Hashed}
use canvas_fuse.Store.{Store, Entry, tombstone, push, dedupe_id}
use canvas_fuse.Store.Ledger.{put_entry, remove_base, remove_trashed}
use canvas_fuse.Store.Queue
use canvas_fuse.Store.Queue.Order.{IsQueue}
use canvas_fuse.Store.Queue.Pending.{pending-enqueue}
use canvas_fuse.Mirror.{view_upsert, Mirror, on_store, wake, show, enqueue, record_dirs_for}
use canvas_fuse.Mirror.Frame.{Frame, Frame-store, Frame-refl, Frame-wake, Frame-show, Frame-enqueue}
use canvas_fuse.Mirror.Quiet.{SameWork, record_dirs_for-SameWork}
use canvas_fuse.Mirror.Accounted.{IsAccountedAt, IsAccounted, Frame-IsAccounted}
use canvas_fuse.Mirror.Writes.{dirty_entry, trash_restore}
use canvas_fuse.Mirror.Calls.{after_disk}

dirty_not_tombstone :
    {o : Option Entry} (h : Hashed) (e : Entry)
    → e.state ≡ tombstone
    → o ≡ some (dirty_entry h)
    → o ≡ some e
    → ⊥
dirty_not_tombstone h e s p q = ground arith

module _ {D : Type 0} where
  -- The entry is dirty and its push was queued.
  pushed_at :
      (key : Text) (h : Hashed) (m : Mirror D)
      → lookup key m.store.entries ≡ some (dirty_entry h)
      → IsQueue m.store
      → IsAccountedAt (wake (show (view_upsert key h.size h.mtime) (enqueue (push key) m))) key
  unfolding wake show enqueue Queue.enqueue Queue.enqueue_with_priority
  pushed_at key h m there q = record {
    pushed = λ e t s k l. ground (
      arith,
      pending-enqueue m.now (push key) m.store (dedupe_id (push key)) q,
      text_beq_refl (dedupe_id (push key)),
    );
    deleted = λ e t s k l. absurd (dirty_not_tombstone h e s there t);
  }

  module _ (local : Local D) where
    -- What follows the return of the bytes from the trash.
    restored : Text → Hashed → Mirror D → Mirror D
    restored key h m =
        let s = put_entry key (dirty_entry h) (remove_base key m.store) in
        record m { store = remove_trashed key (record_dirs_for key s) }

    restored-entries :
        (key j : Text) (h : Hashed) (m : Mirror D)
        → lookup j (restored key h m).store.entries
          ≡ (if text_beq key j then some (dirty_entry h) else lookup j m.store.entries)
    unfolding restored remove_trashed put_entry remove_base
    restored-entries key j h m =
        ap (lookup j)
          (record_dirs_for-SameWork key
            (put_entry key (dirty_entry h) (remove_base key m.store))).entries
        ∙ lookup-insert key j (dirty_entry h) m.store.entries

    restored-Frame :
        (key : Text) (h : Hashed) (m : Mirror D) → IsQueue m.store → Frame key m (restored key h m)
    unfolding restored remove_trashed put_entry remove_base on_store
    restored-Frame key h m q =
        Frame-store m (Frame-refl q)
          (λ s.
            remove_trashed key
              (record_dirs_for key (put_entry key (dirty_entry h) (remove_base key s))))
          w.jobs w.numbers w.conflicts (λ j other. restored-entries key j h m ∙ (rw other))
      where
        s' : Store
        s' = put_entry key (dirty_entry h) (remove_base key m.store)

        w : SameWork s' (record_dirs_for key s')
        w = record_dirs_for-SameWork key s'

    restored-IsAccounted :
        (key : Text) (h : Hashed) (m : Mirror D)
        → IsAccounted m
        → IsAccounted
            (wake (show (view_upsert key h.size h.mtime) (enqueue (push key) (restored key h m))))
    restored-IsAccounted key h m a =
        Frame-IsAccounted key m
          (wake (show (view_upsert key h.size h.mtime) (enqueue (push key) (restored key h m))))
          (Frame-wake _ (Frame-show _ (Frame-enqueue _ f (push key)) _)) a
          (pushed_at key h (restored key h m)
            (restored-entries key key h m ∙ (rw (text_beq_refl key))) f.queue)
      where
        f : Frame key m (restored key h m)
        f = restored-Frame key h m a.queue

    pub trash_restore-IsAccounted :
        (key : Text) (m : Mirror D) → IsAccounted m → IsAccounted (trash_restore local key m).1
    unfolding trash_restore restored
    trash_restore-IsAccounted key m a = elim (Option-cases (lookup key m.store.trash)) [
      | inl nothing ↦ rw (nothing, trash_restore) a
      | inr (t, there) ↦ elim (Bool-cases (is_some (lookup key m.store.entries))) [
        | inl taken ↦ rw (there, trash_restore, taken) a
        | inr free ↦
            rw (there, trash_restore, free)
              (after_disk (local.trash_restore key)
                (λ h m'. (
                  ok tt,
                  wake (
                      show (view_upsert key h.size h.mtime)
                        (enqueue (push key) (restored key h m'))),
                ))
                m (λ h m' a'. restored-IsAccounted key h m' a') a)
      ]
    ]
