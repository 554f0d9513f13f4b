-- ===== src/Examples.antt =====
-- A folder, a hub and mirrors to run the model on: concrete values of the interfaces. The folder's
-- state is the list of the files in it; a file's digest is its text.
pub mod Session
pub mod Moves
pub mod Engine
pub mod Feed
pub mod Http
pub mod Blobs
pub mod Writes
pub mod Render
pub mod Tree
use canvas_fuse.Prelude.{
  ℕ, Bool, true, false, Option, none, some, List, [], ◌∷◌, Text, text_eq, codes, contains, put,
  without, map, if◌then◌else◌,
}
use canvas_fuse.Hub.{Result, ok, err, HubError, offline, prompt, propagate, PutResult}
use canvas_fuse.Local.{Local, LocalStat, Hashed, removed, missing, something}
use canvas_fuse.Store.{
  Store, empty, Entry, EntryState, dirty, clean, tombstone, Base, Job, JobKind, push, rename,
  interactive, background, JobPriority,
}
use canvas_fuse.Mirror.{Mirror, idle, LocalChanges}
use canvas_fuse.Engine.{Client, Snapshot}

abbrev pub Files : Type 0
Files = List Text

abbrev pub a : Text
a = codes "notes/a.txt"

abbrev pub b : Text
b = codes "notes/b.txt"

abbrev pub bytes : Text
bytes = codes "x"

abbrev pub stamped : LocalStat
stamped = record { size = 1; mtime = 5; is_dir = false; fingerprint = codes "f" }

abbrev pub hashed : Hashed
hashed = record { sha256 = bytes; size = 1; mtime = 5 }

abbrev pub folder : Local Files
folder = record {
  stat = λ key d. if contains d key then some stamped else none;
  probe = λ key d. if contains d key then something else missing;
  walk_from = λ key d. map (λ k. (k, stamped)) d;
  hash = λ key d. ok hashed;
  write_atomic = λ key text d. (ok (record { sha256 = text; size = 1; mtime = 5 }), put key d);
  remove_file = λ key d. (ok tt, without key d);
  mkdir = λ key d. (ok tt, d);
  rmdir = λ key d. (removed, d);
  rename = λ from to d. (ok tt, put to (without from d));
  create_dir = λ key d. (ok tt, d);
  trash_put = λ key d. (ok tt, without key d);
  trash_restore = λ key d. (ok hashed, put key d);
  trash_remove = λ key d. d;
  conflict_remove = λ sha d. d;
  land = λ key h d. (ok tt, put key d);
  preserve_conflict = λ sha d. (ok tt, d);
  conflict_path = λ sha. sha;
  has_conflict_bytes = λ sha d. true;
  conflict_files = λ d. some [];
  directory_identity = λ key d. none;
  metadata = λ key d. if contains d key then some (1, 2) else none;
  own_directory = λ key d. if contains d key then some (1, 2) else none;
}

-- A hub that takes every request and has no object.
abbrev pub hub : Client Files
hub = record {
  head_object = λ key m. (ok none, m);
  put_object =
      λ key path opts m. (ok (record { sha256 = bytes; mtime = 5; seq = 1; doc_id = none }), m);
  delete_object = λ key sha m. (ok tt, m);
  rename_object = λ from to sha m. (ok tt, m);
  rename_directory = λ from to id m. (ok tt, m);
  mkdir = λ key m. (ok tt, m);
  rmdir = λ key m. (ok tt, m);
  upload_snapshot =
      λ key m. (ok (record { path = key; hashed = hashed; fingerprint = codes "f" }), m);
  download = λ key sha mtime m. (ok hashed, m);
  hash = λ key m. (ok hashed, m);
  conflict_snapshot = λ key m. (ok bytes, m);
  verify_destination = λ m. (ok tt, m);
}

-- A hub that cannot be reached.
abbrev pub unreachable : Client Files
unreachable = record hub { head_object = λ key m. (err offline, m) }

abbrev pub mirror : Bool → Store → Mirror Files
mirror protected s = record {
  store = s;
  disk = [];
  opts = record { protected = protected; conflicts = prompt; deletes = propagate; ignore = [] };
  externals = record {
    action_id = λ x. x.0;
    nfc = λ s. s;
    stamp = λ t. [];
    device_name = codes "desk";
    glob = λ p. none;
  };
  ignore = record { patterns = [] };
  now = 1000;
  state = idle;
  last_error = none;
  last_sync = none;
  last_full = none;
  last_report = none;
  skipped = [];
  recheck = [];
  local_changes = record { rescan = false; paths = [] };
  protected_jobs = [];
  open_writes = [];
  directory_epoch = 0;
  wakes = 0;
  view = [];
}

abbrev pub entry_of : EntryState → Entry
entry_of state = record { sha256 = bytes; size = 1; mtime = 5; state = state }

abbrev pub job_of : ℕ → JobPriority → JobKind → Job
job_of seq priority kind = record {
  seq = seq;
  kind = kind;
  priority = priority;
  attempts = 0;
  not_before = 0;
  last_error = none;
  created = 0;
}
