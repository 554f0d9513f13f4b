-- ===== src/Store.antt =====
-- The mirror's persistent state (src/mirror/store.rs): one table per concern. A table keyed by text
-- is a `Table`, in the order of insertion, where the database has the order of keys; the queue of jobs is the list of its rows in ascending sequence number. A
-- transaction of the database that fails is not modelled, so operations return no error.
pub mod Ledger
pub mod Queue
pub mod Move
use canvas_fuse.Prelude.{
  ℕ, Bool, true, false, ◌&&◌, Option, none, some, List, [], ◌∷◌, ◌++◌, Text, codes, text_eq, nat_eq,
  option_eq, ◌==◌, bool_beq,
}
use canvas_fuse.Prelude.Table.{Table}
use canvas_fuse.Hub.{HubError, ConflictMode}
use canvas_fuse.Protection.{BlockedAction}

pub data EntryState : Type 0 where
  clean dirty tombstone : EntryState

pub record Entry : Type 0 where
  pub sha256 : Text
  pub size : ℕ
  pub mtime : ℕ
  pub state : EntryState

pub record Base : Type 0 where
  pub sha256 : Text
  pub size : ℕ
  pub mtime : ℕ
  pub remote_seq : ℕ

-- The fields of `JobKind::RenameDir`.
pub record DirMove : Type 0 where
  pub from : Text
  pub to : Text
  pub operation_id : Text
  pub dev : ℕ
  pub ino : ℕ
  pub directory_identity : Option Text
  pub local_applied : Bool
  pub remote : Bool

pub data JobKind : Type 0 where
  push : Text → JobKind
  delete : Text → Option Text → JobKind  -- key, if_match
  rename : Text → Text → JobKind  -- from, to
  rename_dir : DirMove → JobKind
  conflict : Text → Text → Option Text → JobKind  -- key, local_sha256, base_sha256
  mkdir : Text → JobKind
  rmdir : Text → JobKind

-- `JobKind::key`.
unfoldable pub key_of : JobKind → Text
key_of (push key) = key
key_of (delete key _) = key
key_of (rename from _) = from
key_of (rename_dir d) = d.from
key_of (conflict key _ _) = key
key_of (mkdir key) = key
key_of (rmdir key) = key

-- `JobKind::keys`.
unfoldable pub keys_of : JobKind → List Text
unfolding key_of
keys_of (rename from to) = from ∷ to ∷ []
keys_of (rename_dir d) = d.from ∷ d.to ∷ []
keys_of kind = key_of kind ∷ []

unfoldable pub dedupe_id : JobKind → Text
dedupe_id (push key) = codes "push|" ++ key
dedupe_id (delete key _) = codes "delete|" ++ key
dedupe_id (rename from to) = codes "rename|" ++ (from ++ (codes "|" ++ to))
dedupe_id (rename_dir d) = codes "rename_dir|" ++ d.operation_id
dedupe_id (conflict key _ _) = codes "conflict|" ++ key
dedupe_id (mkdir key) = codes "mkdir|" ++ key
dedupe_id (rmdir key) = codes "rmdir|" ++ key

pub data JobPriority : Type 0 where
  background discovered interactive : JobPriority

-- The derived order of `JobPriority`.
abbrev pub rank : JobPriority → ℕ
rank background = 0
rank discovered = 1
rank interactive = 2

pub record Job : Type 0 where
  pub seq : ℕ
  pub kind : JobKind
  pub priority : JobPriority
  pub attempts : ℕ
  pub not_before : ℕ
  pub last_error : Option HubError
  pub created : ℕ

pub record Conflict : Type 0 where
  pub key : Text
  pub local_sha256 : Text
  pub hub_sha256 : Option Text
  pub base_sha256 : Option Text
  pub ts : ℕ
  pub mode : ConflictMode
  pub uploaded : Bool
  pub inbox_doc_id : Option ℕ
  pub copy_key : Option Text
  pub resolved : Bool

pub record Trashed : Type 0 where
  pub sha256 : Text
  pub size : ℕ
  pub ts : ℕ

pub record Store : Type 0 where
  pub entries : Table Entry
  pub bases : Table Base
  pub numbers : Table ℕ  -- the table `cursor_v2`
  pub meta : Table Text
  pub blocked : Table BlockedAction
  pub jobs : List Job
  pub conflicts : Table Conflict
  pub trash : Table Trashed
  pub dirs : List Text

abbrev pub empty : Store
empty = record {
  entries = [];
  bases = [];
  numbers = [];
  meta = [];
  blocked = [];
  jobs = [];
  conflicts = [];
  trash = [];
  dirs = [];
}

abbrev pub state_beq : EntryState → EntryState → Bool
state_beq clean clean = true
state_beq dirty dirty = true
state_beq tombstone tombstone = true
state_beq _ _ = false

-- The derived equality of entries.
unfoldable pub entry_beq : Entry → Entry → Bool
entry_beq a b =
    a.sha256 == b.sha256 && (a.size == b.size && (a.mtime == b.mtime && state_beq a.state b.state))

abbrev pub move_beq : DirMove → DirMove → Bool
move_beq a b =
    a.from == b.from
    && (a.to == b.to
        && (a.operation_id == b.operation_id
            && (a.dev == b.dev
                && (a.ino == b.ino
                    && (a.directory_identity == b.directory_identity
                        && (bool_beq a.local_applied b.local_applied
                            && bool_beq a.remote b.remote))))))
