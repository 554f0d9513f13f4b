-- ===== src/Engine.antt =====
-- The engine thread (src/mirror/sync.rs). While it waits for the hub, or reads the bytes of a file,
-- the lock of the mirror is free and the session thread works on: such a step is an operation of the
-- interface `Client` below, which answers with a result and with the state as the engine finds it
-- again. What is between two such steps happens under the lock.
pub mod Select
pub mod Scan
pub mod Pull
pub mod Reconcile
pub mod Requests
pub mod Run
pub mod Feed
pub mod Cycle
pub mod Pass
use canvas_fuse.Prelude.{
  ℕ, Bool, true, false, Option, none, some, List, [], ◌∷◌, ◌++◌, Text, text_eq, ◌==◌, if◌then◌else◌,
}
use canvas_fuse.Paths.{under}
use canvas_fuse.Hub.{RemoteStat, PutOptions, PutResult}
use canvas_fuse.Local.{Hashed}
use canvas_fuse.Store.{Job, JobKind, rename, rename_dir, DirMove}
use canvas_fuse.Store.Move.{mapped}
use canvas_fuse.Mirror.{Mirror, Op}

-- A staged copy of a file: its path, its digest and stamps, and what the file was when it was read.
pub record Snapshot : Type 0 where
  pub path : Text
  pub hashed : Hashed
  pub fingerprint : Text

pub record Client (D : Type 0) : Type 0 where
  pub head_object : Text → Op D (Option RemoteStat)
  pub put_object : Text → Text → PutOptions → Op D PutResult
  pub delete_object : Text → Option Text → Op D (Unit {0})
  pub rename_object : Text → Text → Option Text → Op D (Unit {0})
  pub rename_directory : Text → Text → Text → Op D (Unit {0})
  pub mkdir : Text → Op D (Unit {0})
  pub rmdir : Text → Op D (Unit {0})
  -- Reading the folder without the lock: the copy of a file to upload, the verified download of an
  -- object beside its name, the hash of a file.
  pub upload_snapshot : Text → Op D Snapshot
  pub download : Text → Text → ℕ → Op D Hashed
  pub hash : Text → Op D Hashed
  pub conflict_snapshot : Text → Op D Text
  -- Whether the folder is still the one that was mounted.
  pub verify_destination : Op D (Unit {0})

-- The `match` in the loop of `local_result_key`.
unfoldable pub moved_key : Text → JobKind → Text
moved_key key (rename from to) = if key == from then to else key
moved_key key (rename_dir d) =
    if d.local_applied then if under key d.from then mapped d.from d.to key else key else key
moved_key key _ = key

unfoldable pub moved_through : Text → List Job → Text
moved_through key [] = key
moved_through key (j ∷ js) = moved_through (moved_key key j.kind) js

unfoldable pub local_result_key : {D : Type 0} → Mirror D → Text → Text
local_result_key m key = moved_through key m.store.jobs
