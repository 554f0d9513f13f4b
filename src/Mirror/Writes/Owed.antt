-- ===== src/Mirror/Writes/Owed.antt =====
-- The local operations (src/mirror/sync.rs) and the account of the work that the hub is owed.
use canvas_fuse.Prelude.{
  ◌≡◌, refl, ◌∙◌, ap, true, false, none, some, Option, Text, text_beq_refl, arith, Bool-cases,
  Option-cases, inl, inr,
}
use canvas_fuse.Prelude.Table.{lookup, lookup-insert, lookup-remove}
use canvas_fuse.Local.{Local}
use canvas_fuse.Store.{Entry, dirty, tombstone, push, delete, dedupe_id}
use canvas_fuse.Store.Ledger.{put_entry, remove_entry, remove_base}
use canvas_fuse.Store.Queue
use canvas_fuse.Store.Queue.Order.{IsQueue}
use canvas_fuse.Store.Queue.Pending.{pending, pending-enqueue}
use canvas_fuse.Mirror.{
  Mirror, excluded, on_store, wake, is_ignored, enqueue, skip, unskip, record_dirs_for,
  clear_obsolete_trash,
}
use canvas_fuse.Mirror.Frame.{
  Frame, Frame-refl, Frame-wake, Frame-skip, Frame-unskip, Frame-enqueue, Frame-put_entry,
  Frame-remove_jobs_for, Frame-store,
}
use canvas_fuse.Mirror.Quiet.{
  SameWork, record_dirs_for-SameWork, IsQuiet, Frame-IsQuiet, clear_obsolete_trash-IsQuiet,
}
use canvas_fuse.Mirror.Accounted.{IsAccountedAt, IsAccounted, Frame-IsAccounted}
use canvas_fuse.Mirror.Writes.{push_or_skip, tells_hub, settle_gone, note_local_gone, note_written}

not_both :
    {o : Option Entry} (e e' : Entry)
    → e'.state ≡ dirty
    → o ≡ some (record e { state = tombstone })
    → o ≡ some e'
    → ⊥
not_both e e' s p q = ground arith

module _ {D : Type 0} (key : Text) where
  -- An entry that was just written is pushed, unless it is ignored.
  push_or_skip-pending :
      (m : Mirror D)
      → IsQueue m.store
      → is_ignored m key ≡ false
      → pending (dedupe_id (push key)) (push_or_skip key m).store ≡ true
  unfolding push_or_skip enqueue unskip
  push_or_skip-pending m q kept = rw kept (
      ground (
        arith,
        pending-enqueue m.now (push key) m.store (dedupe_id (push key)) q,
        text_beq_refl (dedupe_id (push key)),
      ))

  push_or_skip-entries :
      (m : Mirror D)
      → ((push_or_skip key m).store.entries ≡ m.store.entries)
        × ((push_or_skip key m).ignore ≡ m.ignore)
  unfolding push_or_skip enqueue unskip skip Queue.enqueue Queue.enqueue_with_priority
  push_or_skip-entries m = ground arith

  push_or_skip-at :
      (m : Mirror D) (e : Entry)
      → IsQueue m.store
      → lookup key m.store.entries ≡ some e
      → e.state ≡ dirty
      → IsAccountedAt (wake (push_or_skip key m)) key
  unfolding wake is_ignored
  push_or_skip-at m e q there state =
      let same = push_or_skip-entries m in
      record {
        pushed = λ e' t s k l. ground (arith, push_or_skip-pending m q (rw same.1 at k));
        deleted = λ e' t s k l.
            let x : e' ≡ e = ground (arith, ap (lookup key) same.0) in
            absurd (ground (arith, ap (λ (y : Entry). y.state) x));
      }

  pub Frame-push_or_skip :
      {m₀ : Mirror D} (m : Mirror D) → Frame key m₀ m → Frame key m₀ (push_or_skip key m)
  unfolding push_or_skip
  Frame-push_or_skip m f = elim (Bool-cases (is_ignored m key)) [
    | inl out ↦ rw (out, push_or_skip) (Frame-skip m f excluded)
    | inr kept ↦
        rw (kept, push_or_skip) (Frame-enqueue (unskip key m) (Frame-unskip m f) (push key))
  ]

  settle_gone-pending :
      (m : Mirror D) (e : Entry)
      → IsQueue m.store
      → tells_hub key m ≡ true
      → pending (dedupe_id (delete key none)) (settle_gone key e m).store ≡ true
  unfolding settle_gone enqueue on_store
  settle_gone-pending m e q h = rw h (
      ground (
        arith,
        pending-enqueue m.now (delete key none)
            (put_entry key (record e { state = tombstone }) m.store) (dedupe_id (delete key none))
            (Frame-put_entry m (Frame-refl q) (record e { state = tombstone })).queue,
        text_beq_refl (dedupe_id (delete key none)),
      ))

  settle_gone-tombstone :
      (m : Mirror D) (e : Entry)
      → tells_hub key m ≡ true
      → lookup key (settle_gone key e m).store.entries ≡ some (record e { state = tombstone })
  unfolding settle_gone enqueue on_store Queue.enqueue Queue.enqueue_with_priority put_entry
  settle_gone-tombstone m e h = rw h (rw lookup-insert (rw (text_beq_refl key)))

  settle_gone-forgets :
      (m : Mirror D) (e : Entry)
      → tells_hub key m ≡ false
      → lookup key (settle_gone key e m).store.entries ≡ none
  unfolding settle_gone on_store remove_entry remove_base
  settle_gone-forgets m e h = rw h (rw lookup-remove (rw (text_beq_refl key)))

  Frame-settle_gone :
      {m₀ : Mirror D} (m : Mirror D) (e : Entry)
      → Frame key m₀ m
      → Frame key m₀ (settle_gone key e m)
  unfolding settle_gone remove_base remove_entry
  Frame-settle_gone m e f = elim (Bool-cases (tells_hub key m)) [
    | inl told ↦ rw (told, settle_gone) (Frame-enqueue _ (Frame-put_entry m f _) (delete key none))
    | inr quiet ↦
        rw (quiet, settle_gone)
          (Frame-store m f (λ s. remove_base key (remove_entry key s)) refl refl refl
            (λ j h. rw lookup-remove (rw h)))
  ]

  settle_gone-at :
      (m : Mirror D) (e : Entry)
      → IsQueue m.store
      → IsAccountedAt (unskip key (settle_gone key e m)) key
  unfolding unskip
  settle_gone-at m e q = elim (Bool-cases (tells_hub key m)) [
    | inl told ↦ record {
      pushed = λ e' t s k l. absurd (not_both e e' s (settle_gone-tombstone m e told) t);
      deleted = λ e' t s k l. settle_gone-pending m e q told;
    }
    | inr quiet ↦ record {
      pushed = λ e' t s k l. cc (settle_gone-forgets m e quiet);
      deleted = λ e' t s k l. cc (settle_gone-forgets m e quiet);
    }
  ]

  -- What remains after the tombstone: the mark of the key is dropped, the engine is woken.
  pub note_local_gone-IsAccounted :
      (m : Mirror D) → IsAccounted m → IsAccounted (note_local_gone key m)
  unfolding note_local_gone
  note_local_gone-IsAccounted m a = elim (Option-cases (lookup key m.store.entries)) [
    | inl absent ↦ rw (absent, note_local_gone) a
    | inr (e, there) ↦
        let m' = on_store (λ s. (Queue.remove_jobs_for key s).1) m in
        let f : Frame key m m' = Frame-remove_jobs_for m (Frame-refl a.queue) in
        rw (there, note_local_gone)
          (Frame-IsAccounted key m (unskip key (settle_gone key e m'))
            (Frame-unskip (settle_gone key e m') (Frame-settle_gone m' e f)) a
            (settle_gone-at m' e f.queue))
  ]

  module _ (m : Mirror D) (e : Entry) where
    abbrev recorded : Mirror D
    recorded = on_store (λ s. record_dirs_for key (put_entry key e s)) m

    recorded-Frame : IsQueue m.store → Frame key m recorded
    unfolding put_entry
    recorded-Frame q =
        Frame-store m (Frame-refl q) (λ s. record_dirs_for key (put_entry key e s)) w.jobs w.numbers
          w.conflicts (λ j h. ap (lookup j) w.entries ∙ (rw lookup-insert (rw h)))
      where
        w : SameWork (put_entry key e m.store) (record_dirs_for key (put_entry key e m.store))
        w = record_dirs_for-SameWork key (put_entry key e m.store)

    recorded-there : lookup key recorded.store.entries ≡ some e
    unfolding on_store put_entry
    recorded-there =
        ap (lookup key) (record_dirs_for-SameWork key (put_entry key e m.store)).entries
        ∙ (rw lookup-insert (rw (text_beq_refl key)))

    -- The push of an entry that was recorded, from any quiet step after it.
    pub push_or_skip-IsAccounted :
        (m' : Mirror D)
        → IsQuiet recorded m'
        → e.state ≡ dirty
        → IsAccounted m
        → IsAccounted (wake (push_or_skip key m'))
    push_or_skip-IsAccounted m' quiet state a =
        Frame-IsAccounted key m (wake (push_or_skip key m'))
          (Frame-wake (push_or_skip key m') (Frame-push_or_skip m' f)) a
          (push_or_skip-at m' e f.queue (ap (lookup key) quiet.work.entries ∙ recorded-there) state)
      where
        f : Frame key m m'
        f = Frame-IsQuiet recorded m' quiet (recorded-Frame a.queue)

    -- `e` was written to the folder.
    pub note_written-IsAccounted :
        (local : Local D)
        → e.state ≡ dirty
        → IsAccounted m
        → IsAccounted (note_written local key e m)
    unfolding note_written
    note_written-IsAccounted local state a =
        push_or_skip-IsAccounted (clear_obsolete_trash local key recorded)
          (clear_obsolete_trash-IsQuiet local key recorded) state a
