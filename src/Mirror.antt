-- ===== src/Mirror.antt =====
-- The state of a mirror (src/mirror/sync.rs, `Mirror` and its `Runtime`) and its small operations.
-- An operation returns its result and the state that it leaves, also beside an error.
pub mod Frame
pub mod Quiet
pub mod Recover
pub mod Accounted
pub mod Grows
pub mod Calls
pub mod Session
pub mod Writes
pub mod Moves
use canvas_fuse.Prelude.{
  ℕ, zero, suc, ◌+◌, ◌*◌, ◌^◌, Bool, true, false, ◌||◌, ◌&&◌, not, Option, none, some, List, [],
  ◌∷◌, ◌++◌, Text, codes, text_eq, ◌==◌, is_some, is_some_and, any, contains, put, without, length,
  is_empty, min, if◌then◌else◌,
}
use canvas_fuse.Prelude.Table.{Table, lookup, insert, remove}
use canvas_fuse.Paths
use canvas_fuse.Paths.{IgnoreRules, parent_key, under, overlaps}
use canvas_fuse.Hub.{HubError, ConflictMode, DeleteMode, Result, ok, err, protected}
use canvas_fuse.Local
use canvas_fuse.Local.{Local, Probe, missing, directory}
use canvas_fuse.Protection.{BlockedAction}
use canvas_fuse.Store.{
  Store, Entry, EntryState, tombstone, Job, JobKind, delete, rename, rename_dir, conflict, rmdir,
  keys_of, state_beq,
}
use canvas_fuse.Store.Ledger.{has_dir, add_dir, record_blocked, remove_trashed}
use canvas_fuse.Store.Queue

pub data SyncState : Type 0 where
  idle syncing offline paused : SyncState

-- Why a file is not synchronised: an exclusion rule here, or a refusal of the hub.
pub data SkipReason : Type 0 where
  excluded : SkipReason
  refused_by_hub : HubError → SkipReason

pub record MirrorOptions : Type 0 where
  pub protected : Bool
  pub conflicts : ConflictMode
  pub deletes : DeleteMode
  pub ignore : List Text

-- What other libraries compute: the JSON text of an identity, Unicode normalisation, the time as a
-- conflict copy names it, a compiled glob pattern; and the name of this device.
pub record Externals : Type 0 where
  pub action_id : Text × Text × Option Text → Text
  pub nfc : Text → Text
  pub stamp : ℕ → Text
  pub device_name : Text
  pub glob : Text → Option (Text → Bool)

-- What the engine tells the view of the mount.
pub data ViewCall : Type 0 where
  view_upsert : Text → ℕ → ℕ → ViewCall
  view_remove : Text → ViewCall
  view_rename : Text → Text → ViewCall
  view_ensure_dir : Text → ViewCall

-- What the watcher of the folder has seen since the engine last looked.
pub record LocalChanges : Type 0 where
  pub rescan : Bool
  pub paths : List Text

pub record Mirror (D : Type 0) : Type 0 where
  pub store : Store
  pub disk : D
  pub opts : MirrorOptions
  pub externals : Externals
  pub ignore : IgnoreRules
  pub now : ℕ  -- the clock, in milliseconds
  pub state : SyncState
  pub last_error : Option HubError
  pub last_sync : Option ℕ
  pub last_full : Option ℕ
  pub last_report : Option ℕ
  pub skipped : Table SkipReason
  pub recheck : List Text
  pub local_changes : LocalChanges
  pub protected_jobs : List ℕ
  pub open_writes : List Text
  pub directory_epoch : ℕ
  pub wakes : ℕ  -- messages sent to the engine
  pub view : List ViewCall  -- oldest last

-- A fallible operation on the mirror.
abbrev pub Op : Type 0 → Type 0 → Type 0
Op D A = Mirror D → Result A × Mirror D

infixl 10 ◌>>=◌ ◌>>◌
abbrev pub ◌>>=◌ : {D A B : Type 0} → Op D A → (A → Op D B) → Op D B
◌>>=◌ f k m = let (r, m') = f m in elim r [ ok a ↦ k a m' | err e ↦ (err e, m') ]

abbrev pub ◌>>◌ : {D B : Type 0} → Op D (Unit {0}) → Op D B → Op D B
f >> k = f >>= λ _. k

unfoldable pub pure : {D A : Type 0} → A → Op D A
pure a m = (ok a, m)

unfoldable pub backoff_ms : ℕ → ℕ
backoff_ms attempts = min (60000 * 2 ^ min attempts 6) 3600000

-- `matches!(kind, JobKind::Rename { .. } | JobKind::RenameDir { .. })`.
abbrev moves_path : JobKind → Bool
moves_path (rename _ _) = true
moves_path (rename_dir _) = true
moves_path _ = false

-- The destructive kinds, with the words and the paths of their audit.
unfoldable pub protected_action : JobKind → Option (Text × Text × Option Text)
protected_action (delete key _) = some (codes "delete upstream file", key, none)
protected_action (rmdir key) = some (codes "remove upstream directory", key, none)
protected_action (rename from to) = some (codes "rename upstream file", from, some to)
protected_action (rename_dir d) =
    if d.remote then some (codes "rename upstream directory", d.from, some d.to) else none
protected_action (conflict key _ _) =
    some (codes "resolve conflict and replace local file", key, none)
protected_action _ = none

-- The `while` loop of `record_dirs_for`, on the rounds left.
unfoldable pub record_dirs_from : ℕ → Text → Store → Store
record_dirs_from zero p s = s
record_dirs_from (suc rounds) p s =
    let rest = record_dirs_from rounds (parent_key p) (add_dir p s) in
    if is_empty p || has_dir p s then s else rest

-- A parent is shorter than its key, so the key's length is rounds enough.
unfoldable pub record_dirs_for : Text → Store → Store
record_dirs_for key s = record_dirs_from (length key) (parent_key key) s

module _ {D : Type 0} where
  -- A change of the store alone.
  unfoldable pub on_store : (Store → Store) → Mirror D → Mirror D
  on_store f m = record m { store = f m.store }

  unfoldable pub wake : Mirror D → Mirror D
  wake m = record m { wakes = m.wakes + 1 }

  unfoldable pub show : ViewCall → Mirror D → Mirror D
  show call m = record m { view = call ∷ m.view }

  unfoldable pub is_ignored : Mirror D → Text → Bool
  is_ignored m key = Paths.is_ignored m.ignore key

  unfoldable pub is_open_for_write : Mirror D → Text → Bool
  is_open_for_write m key = contains m.open_writes key

  unfoldable pub note_open_write : Text → Mirror D → Mirror D
  note_open_write key m = record m { open_writes = put key m.open_writes }

  unfoldable pub note_close_write : Text → Mirror D → Mirror D
  unfolding wake
  note_close_write key m = wake (record m { open_writes = without key m.open_writes })

  -- `store.enqueue` at the current time.
  unfoldable pub enqueue : JobKind → Mirror D → Mirror D
  enqueue kind m = record m { store = (Queue.enqueue m.now kind m.store).1 }

  unfoldable pub ensure_job : JobKind → Mirror D → Mirror D
  ensure_job kind m = record m { store = Queue.ensure_job m.now kind m.store }

  unfoldable pub skip : Text → SkipReason → Mirror D → Mirror D
  skip key reason m = record m { skipped = insert key reason m.skipped }

  unfoldable pub unskip : Text → Mirror D → Mirror D
  unskip key m = record m { skipped = remove key m.skipped }

  unfoldable pub defer : Text → Mirror D → Mirror D
  defer key m = record m { recheck = put key m.recheck }

  -- `Mirror::entry`: what is there for a reader.
  unfoldable pub entry : Mirror D → Text → Option Entry
  entry m key = elim (lookup key m.store.entries) [
    | none ↦ none
    | some e ↦ if state_beq e.state tombstone then none else some e
  ]

  unfoldable pub block_action : Text → Text → Option Text → Option Text → Mirror D → Mirror D
  block_action action key to remote m = record m {
    store =
        (record_blocked m.externals.action_id
          (record {
            action = action;
            key = key;
            destination = to;
            local_sha256 = elim (lookup key m.store.entries) [
              | none ↦ none
              | some e ↦ some e.sha256
            ];
            remote_sha256 = remote;
            observed_at = m.now;
          })
          m.store).1;
  }

  unfoldable pub protect_job : Job → Op D (Unit {0})
  protect_job job m =
      if m.opts.protected
      then elim (protected_action job.kind) [
        | none ↦ (ok tt, m)
        | some (action, key, to) ↦ (err (protected key), block_action action key to none m)
      ]
      else (ok tt, m)

  unfoldable pub pending_path_move : Mirror D → Text → Bool
  pending_path_move m key =
      any (λ j. moves_path j.kind && any (overlaps key) (keys_of j.kind)) m.store.jobs

  unfoldable pub pending_directory_move : Mirror D → Text → Bool
  pending_directory_move m key =
      any (λ j. elim j.kind [ rename_dir d ↦ under key d.from || under key d.to | _ ↦ false ])
        m.store.jobs

  module _ (local : Local D) where
    unfoldable pub clear_obsolete_trash : Text → Mirror D → Mirror D
    clear_obsolete_trash key m = elim (lookup key m.store.trash) [
      | none ↦ m
      | some _ ↦
          if m.opts.protected
          then block_action (codes "discard retained trash copy") key none none m
          else record m { store = remove_trashed key m.store; disk = local.trash_remove key m.disk }
    ]

    -- The parents of a key, each a directory or missing, on the rounds left.
    unfoldable pub parents_allow : ℕ → Text → D → Bool
    parents_allow zero p d = is_empty p
    parents_allow (suc rounds) p d =
        let rest = parents_allow rounds (parent_key p) d in
        if is_empty p
        then true
        else elim (local.probe p d) [ directory ↦ rest | missing ↦ rest | _ ↦ false ]

    unfoldable pub protected_download_allowed : Text → D → Bool
    protected_download_allowed key d =
        if Local.check_key key
        then elim (local.probe key d) [
          | missing ↦ parents_allow (length key) (parent_key key) d
          | _ ↦ false
        ]
        else false
