-- ===== src/Local.antt =====
-- The mirrored folder (src/mirror/local.rs) as the engine sees it: what it asks of the folder, and
-- what it does to it. The file system below is not modelled: `D` is its state, and an operation
-- answers with a result and the state that it leaves.
use canvas_fuse.Prelude.{
  ℕ, Bool, false, ◌&&◌, ◌||◌, not, Option, List, Text, codes, text_eq, nat_eq, ◌==◌, bool_beq,
  is_some, is_some_and, is_empty, any, [], ◌∷◌,
}
use canvas_fuse.Hub.{Result}
use canvas_fuse.Paths.{slash, split}

pub record LocalStat : Type 0 where
  pub size : ℕ
  pub mtime : ℕ
  pub is_dir : Bool
  pub fingerprint : Text

pub record Hashed : Type 0 where
  pub sha256 : Text
  pub size : ℕ
  pub mtime : ℕ

-- What `symlink_metadata` says of a path.
pub data Probe : Type 0 where
  directory something missing unreadable : Probe

pub data Removal : Type 0 where
  removed not_empty failed : Removal

pub record Local (D : Type 0) : Type 0 where
  pub stat : Text → D → Option LocalStat
  pub probe : Text → D → Probe
  pub walk_from : Text → D → List (Text × LocalStat)
  pub hash : Text → D → Result Hashed
  pub write_atomic : Text → Text → D → Result Hashed × D
  pub remove_file : Text → D → Result (Unit {0}) × D
  pub mkdir : Text → D → Result (Unit {0}) × D
  pub rmdir : Text → D → Removal × D
  pub rename : Text → Text → D → Result (Unit {0}) × D
  pub create_dir : Text → D → Result (Unit {0}) × D
  pub trash_put : Text → D → Result (Unit {0}) × D
  pub trash_restore : Text → D → Result Hashed × D
  pub trash_remove : Text → D → D
  pub conflict_remove : Text → D → D
  -- The last step of `fetch`: a verified download takes its name.
  pub land : Text → Hashed → D → Result (Unit {0}) × D
  pub preserve_conflict : Text → D → Result (Unit {0}) × D
  pub conflict_path : Text → Text
  pub has_conflict_bytes : Text → D → Bool
  -- The names in the folder of conflict snapshots, with the time of their last change.
  pub conflict_files : D → Option (List (Text × Option ℕ))
  -- The directory identity (inode and file system) of a path, if it is a directory.
  pub directory_identity : Text → D → Option Text
  -- Device and inode, as `metadata` gives them of a path and as `symlink_metadata` gives them of a
  -- path that is a directory.
  pub metadata : Text → D → Option (ℕ × ℕ)
  pub own_directory : Text → D → Option (ℕ × ℕ)

-- The derived equality of `LocalStat`.
unfoldable pub stat_beq : LocalStat → LocalStat → Bool
stat_beq a b =
    a.size == b.size
    && (a.mtime == b.mtime && (bool_beq a.is_dir b.is_dir && a.fingerprint == b.fingerprint))

module _ {D : Type 0} (local : Local D) where
  unfoldable pub exists : Text → D → Bool
  exists key d = is_some (local.stat key d)

  unfoldable pub is_file : Text → D → Bool
  is_file key d = is_some_and (local.stat key d) (λ s. not s.is_dir)

  unfoldable pub is_dir : Text → D → Bool
  is_dir key d = is_some_and (local.stat key d) (λ s. s.is_dir)

-- `key.split('/').next() != Some(MARKER)`.
is_marker : List Text → Bool
is_marker [] = false
is_marker (seg ∷ segs) = seg == codes ".workspace.json"

-- A key that the file system can hold; the marker file's name is reserved.
unfoldable pub check_key : Text → Bool
unfolding is_marker
check_key key =
    not (is_empty key)
    && (not (is_marker (split slash key))
        && not (
            any (λ seg. is_empty seg || (seg == codes "." || seg == codes "..")) (split slash key)))
