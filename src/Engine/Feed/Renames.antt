-- ===== src/Engine/Feed/Renames.antt =====
-- Renames at the hub and local changes (src/mirror/sync.rs, `apply_remote_rename`).
use canvas_fuse.Prelude.{ℕ, ◌≡◌, not, ◌||◌, true, some, none, Text, arith, Option, codes}
use canvas_fuse.Prelude.Table.{lookup}
use canvas_fuse.Local.{Local}
use canvas_fuse.Store.{Entry}
use canvas_fuse.Store.Queue
use canvas_fuse.Mirror.{Mirror, on_store, enqueue, block_action, is_open_for_write}
use canvas_fuse.Engine.Feed.{is_agreed, keep_source, apply_remote_rename}

module _ {D : Type 0} (local : Local D) where
  audit-keeps :
      (action key : Text) (to sha : Option Text) (m : Mirror D)
      → ((block_action action key to sha m).disk ≡ m.disk)
        × ((block_action action key to sha m).store.entries ≡ m.store.entries)
  unfolding block_action canvas_fuse.Store.Ledger.record_blocked
  audit-keeps action key to sha m = ground arith

  source-keeps :
      (from : Text) (e : Entry) (m : Mirror D)
      → ((keep_source from e m).disk ≡ m.disk)
        × ((keep_source from e m).store.entries ≡ m.store.entries)
  unfolding keep_source on_store enqueue Queue.enqueue Queue.enqueue_with_priority
      canvas_fuse.Store.Ledger.remove_base
  source-keeps from e m = ground arith

  -- `apply_remote_rename` alone, before the target is reconciled, changes neither the folder nor the entries,
  -- if the entry of the source differs from the version that was agreed, or the source is open for
  -- writing.
  pub apply_remote_rename-KeepsEdits :
      (from to : Text) (seq : ℕ) (e : Entry) (m : Mirror D)
      → lookup from m.store.entries ≡ some e
      → (not (is_agreed e (lookup from m.store.bases)) || is_open_for_write m from) ≡ true
      → ((apply_remote_rename local from to seq m).disk ≡ m.disk)
        × ((apply_remote_rename local from to seq m).store.entries ≡ m.store.entries)
  unfolding apply_remote_rename
  apply_remote_rename-KeepsEdits from to seq e m there edited =
      rw (there, edited)
        (ground (
          arith,
          audit-keeps (codes "rename local file") from (some to) none m,
          source-keeps from e m,
        ))
