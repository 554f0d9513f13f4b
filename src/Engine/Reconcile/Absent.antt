-- ===== src/Engine/Reconcile/Absent.antt =====
-- A key that both sides have deleted (src/mirror/sync.rs, the arm `Action::Adopt`).
use canvas_fuse.Prelude.{
  ℕ, ◌≡◌, refl, false, ◌||◌, none, some, Text, text_beq_refl, is_empty, any, arith,
}
use canvas_fuse.Prelude.Table.{lookup, lookup-insert}
use canvas_fuse.Hub.{ok}
use canvas_fuse.Local.{Local}
use canvas_fuse.Reconcile.{decide, adopt}
use canvas_fuse.Store.{Entry, clean, tombstone, Base}
use canvas_fuse.Store.Ledger.{put_entry, put_base}
use canvas_fuse.Store.Queue
use canvas_fuse.Mirror.{Mirror, on_store, is_ignored, pending_directory_move, is_open_for_write}
use canvas_fuse.Engine.{Client}
use canvas_fuse.Engine.Scan.{live}
use canvas_fuse.Engine.Reconcile.{
  renames, decided, blocked_by, stopped_by, do_adopt, act, act_unless_blocked, reconcile_key,
}

module _ {D : Type 0} (local : Local D) (client : Client D) (key : Text) (e : Entry) (b : Base)
    (m : Mirror D) where
  decided-Absent :
      lookup key m.store.entries ≡ some e
      → e.state ≡ tombstone
      → lookup key m.store.bases ≡ some b
      → decided local key none m ≡ adopt
  unfolding decided live decide
  decided-Absent there gone agreed = ground arith

  do_adopt-Absent :
      (seq : ℕ)
      → lookup key m.store.entries ≡ some e
      → lookup key (do_adopt local key none seq m).store.entries ≡ some (record e { state = clean })
  unfolding do_adopt on_store put_entry put_base Queue.remove_jobs_for
  do_adopt-Absent seq there = rw (there, do_adopt) (rw lookup-insert (rw text_beq_refl refl))

  unless_blocked-Absent :
      (seq : ℕ)
      → act_unless_blocked local client key none seq adopt m
        ≡ (ok tt, do_adopt local key none seq m)
  unfolding act_unless_blocked stopped_by blocked_by act
  unless_blocked-Absent seq = ground arith

  -- A file was deleted here, which left a tombstone beside the agreed version, and now the hub says that it
  -- has no such object either. If the key is not empty, ignored, open for writing or part of a queued
  -- move, the reconciliation brings the entry back as clean: a file that exists on neither side.
  pub reconcile_key-Resurrects :
      (seq : ℕ)
      → lookup key m.store.entries ≡ some e
      → e.state ≡ tombstone
      → lookup key m.store.bases ≡ some b
      → (is_empty key || (is_ignored m key || pending_directory_move m key)) ≡ false
      → (is_open_for_write m key || any (λ j. renames key j.kind) m.store.jobs) ≡ false
      → lookup key (reconcile_key local client key none seq m).1.store.entries
        ≡ some (record e { state = clean })
  unfolding reconcile_key
  reconcile_key-Resurrects seq there gone agreed live idle =
      rw (live, reconcile_key, idle, decided-Absent there gone agreed, unless_blocked-Absent seq)
        (do_adopt-Absent seq there)
