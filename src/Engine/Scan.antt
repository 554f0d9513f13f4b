-- ===== src/Engine/Scan.antt =====
-- The folder scan (src/mirror/sync.rs, `scan_paths_reporting` and its callers): files that were
-- edited, added or removed behind the mirror's back become pushes and deletes.
use canvas_fuse.Prelude.{
  ℕ, ◌+◌, Bool, true, false, ◌&&◌, ◌||◌, not, Option, none, some, List, [], ◌∷◌, ◌++◌, Text,
  text_eq, option_eq, ◌==◌, is_some_and, is_empty, any, contains, put, nat_eq, if◌then◌else◌,
}
use canvas_fuse.Prelude.Table.{Table, lookup}
use canvas_fuse.Paths.{under}
use canvas_fuse.Hub.{ok, err}
use canvas_fuse.Local
use canvas_fuse.Local.{Local, LocalStat, Hashed, Probe, missing, stat_beq}
use canvas_fuse.Store.{
  Entry, dirty, tombstone, JobKind, push, mkdir, rmdir, JobPriority, interactive, discovered,
  state_beq, entry_beq,
}
use canvas_fuse.Store.Ledger.{
  has_dir, add_dir, remove_dir, get_meta, set_meta, stamp_key, put_entry,
}
use canvas_fuse.Store.Queue
use canvas_fuse.Mirror.{
  Mirror, paused, on_store, show, wake, view_upsert, view_remove, view_ensure_dir, is_ignored,
  is_open_for_write, pending_directory_move, clear_obsolete_trash, skip, unskip, excluded,
}
use canvas_fuse.Mirror.Writes.{note_local_gone}
use canvas_fuse.Engine.{Client}

pub record ScanReport : Type 0 where
  pub changed : ℕ
  pub added : ℕ
  pub removed : ℕ

abbrev pub nothing_found : ScanReport
nothing_found = record { changed = 0; added = 0; removed = 0 }

-- The equality of two optional entries.
abbrev pub same_entry : Option Entry → Option Entry → Bool
same_entry none none = true
same_entry (some a) (some b) = entry_beq a b
same_entry _ _ = false

abbrev pub same_stat : Option LocalStat → Option LocalStat → Bool
same_stat none none = true
same_stat (some a) (some b) = stat_beq a b
same_stat _ _ = false

-- What the loop over the files carries: `none` for the state once a directory move has been seen.
pub record Scan (D : Type 0) : Type 0 where
  pub mirror : Mirror D
  pub report : ScanReport
  pub seen_files : List Text
  pub seen_dirs : List Text
  pub stopped : Bool

unfoldable pub affected : List Text → Text → Bool
affected paths key = any (λ p. is_empty p || under key p) paths

-- `entry.as_ref().filter(|e| e.state != EntryState::Tombstone)`.
unfoldable pub live : Option Entry → Option Entry
live none = none
live (some e) = if state_beq e.state tombstone then none else some e

abbrev is_interactive : JobPriority → Bool
is_interactive interactive = true
is_interactive _ = false

module _ {D : Type 0} (local : Local D) (client : Client D) (priority : JobPriority) where
  -- `enqueue_with_priority` of the store at the current time.
  unfoldable pub enqueue_at : JobKind → Mirror D → Mirror D
  enqueue_at kind m = record m {
    store = (Queue.enqueue_with_priority m.now kind priority m.store).1;
  }

  -- The case of a directory.
  unfoldable pub scan_dir : Text → Mirror D → Mirror D
  scan_dir key m =
      if has_dir key m.store
      then m
      else let m' = show (view_ensure_dir key) (on_store (add_dir key) m) in
        if is_ignored m' key then m' else enqueue_at (mkdir key) m'

  -- The file is new or was changed: it is recorded as dirty and queued.
  unfoldable pub note_change : Text → Hashed → Mirror D → Mirror D
  note_change key h m =
      let e : Entry = record { sha256 = h.sha256; size = h.size; mtime = h.mtime; state = dirty } in
      let m' = clear_obsolete_trash local key (on_store (put_entry key e) m) in
      show (view_upsert key h.size h.mtime)
        (if is_ignored m' key then skip key excluded m' else enqueue_at (push key) (unskip key m'))

  -- What the hash of the file says against its live entry.
  unfoldable pub settle_file :
      Text → Hashed → Option Entry → ScanReport → Mirror D → ScanReport × Mirror D
  settle_file key h none report m =
      (record report { added = report.added + 1 }, note_change key h m)
  settle_file key h (some e) report m =
      if e.sha256 == h.sha256
      then (report, on_store (put_entry key (record e { size = h.size; mtime = h.mtime })) m)
      else (record report { changed = report.changed + 1 }, note_change key h m)

  -- The file has the size and time of its entry, and the fingerprint noted at the last look.
  unfoldable pub is_known : List Text → Text → LocalStat → Mirror D → Bool
  is_known paths key st m =
      not (is_interactive priority && contains paths key)
      && (is_some_and (live (lookup key m.store.entries))
            (λ e. e.size == st.size && e.mtime == st.mtime)
          && is_some_and (get_meta (stamp_key key) m.store) (λ f. f == st.fingerprint))

  -- From the hash on: it is void if the file, the entry or the directories changed meanwhile.
  unfoldable pub hashed_file : ℕ → Text → LocalStat → Option Entry → Scan D → Scan D
  hashed_file epoch key st entry s =
      let (r, m) = client.hash key s.mirror in
      let s' = record s { mirror = m } in
      elim r [
        | err _ ↦ s'
        | ok h ↦
            if not (m.directory_epoch == epoch)
            then record s' { stopped = true }
            else if is_open_for_write m key
                || (not (same_stat (local.stat key m.disk) (some st))
                    || not (same_entry (lookup key m.store.entries) entry))
            then s'
            else let (report, m') =
                settle_file key h (live entry) s.report
                  (on_store (set_meta (stamp_key key) st.fingerprint) m) in
              record s' { mirror = m'; report = report }
      ]

  unfoldable pub scan_file : List Text → ℕ → Text → LocalStat → Scan D → Scan D
  scan_file paths epoch key st s =
      let m = s.mirror in
      let s' = record s { seen_files = put key s.seen_files } in
      if pending_directory_move m key || (is_open_for_write m key || is_known paths key st m)
      then s'
      else hashed_file epoch key st (lookup key m.store.entries) s'

  -- One round of the loop over what the walk found.
  unfoldable pub scan_one : List Text → ℕ → Text × LocalStat → Scan D → Scan D
  scan_one paths epoch (key, st) s =
      if s.stopped
      then s
      else if not (s.mirror.directory_epoch == epoch)
      then record s { stopped = true }
      else if st.is_dir
      then record s { mirror = scan_dir key s.mirror; seen_dirs = put key s.seen_dirs }
      else scan_file paths epoch key st s

  unfoldable pub scan_found : List Text → ℕ → List (Text × LocalStat) → Scan D → Scan D
  scan_found paths epoch [] s = s
  scan_found paths epoch (x ∷ xs) s = scan_found paths epoch xs (scan_one paths epoch x s)

  -- The lazy walks, one path after the other: each begins when the one before is used up.
  unfoldable pub scan_each : List Text → ℕ → List Text → Scan D → Scan D
  scan_each paths epoch [] s = s
  scan_each paths epoch (p ∷ ps) s =
      scan_each paths epoch ps (scan_found paths epoch (local.walk_from p s.mirror.disk) s)

  abbrev is_missing : Text → D → Bool
  is_missing key d = elim (local.probe key d) [ missing ↦ true | _ ↦ false ]

  -- Recorded files that are no longer there.
  unfoldable pub gone_entries : List Text → Table Entry → Scan D → Scan D
  gone_entries paths [] s = s
  gone_entries paths ((key, e) ∷ rows) s =
      let m = s.mirror in
      let stays =
        not (affected paths key)
        || (state_beq e.state tombstone
            || (contains s.seen_files key
                || (pending_directory_move m key
                    || (Local.is_file local key m.disk
                        || (is_open_for_write m key || not (is_missing key m.disk)))))) in
      gone_entries paths rows (
        if stays then s else record s {
          report = record s.report { removed = s.report.removed + 1 };
          mirror = show (view_remove key) (note_local_gone key m);
        })

  -- Recorded directories that are no longer there.
  unfoldable pub gone_dirs : List Text → List Text → Scan D → Scan D
  gone_dirs paths [] s = s
  gone_dirs paths (d ∷ ds) s =
      let m = s.mirror in
      let stays =
        not (affected paths d)
        || (contains s.seen_dirs d || (pending_directory_move m d || not (is_missing d m.disk))) in
      let m' = on_store (λ t. (Queue.remove_jobs_for d (remove_dir d t)).1) m in
      gone_dirs paths ds (
        if stays then s else record s {
          mirror = show (view_remove d) (if is_ignored m' d then m' else enqueue_at (rmdir d) m');
        })

  abbrev is_nothing : ScanReport → Bool
  is_nothing r = r.changed == 0 && (r.added == 0 && r.removed == 0)

  unfoldable pub finish_scan : List Text → ℕ → Scan D → ScanReport × Mirror D
  finish_scan paths epoch s =
      if s.stopped || not (s.mirror.directory_epoch == epoch)
      then (s.report, s.mirror)
      else let s' = gone_entries paths s.mirror.store.entries s in
        let s'' = gone_dirs paths s'.mirror.store.dirs s' in
        (s''.report, if is_nothing s''.report then s''.mirror else wake s''.mirror)

  unfoldable pub scan_paths : List Text → Mirror D → ScanReport × Mirror D
  scan_paths paths m =
      let (r, m') = client.verify_destination m in
      elim r [
        | err e ↦ (nothing_found, record m' { last_error = some e; state = paused })
        | ok _ ↦
            let start : Scan D = record {
              mirror = m';
              report = nothing_found;
              seen_files = [];
              seen_dirs = [];
              stopped = false;
            } in
            finish_scan paths m'.directory_epoch (scan_each paths m'.directory_epoch paths start)
      ]

-- The paths under no other one of the list, in order.
unfoldable pub roots_of : List Text → List Text → List Text
roots_of roots [] = roots
roots_of roots (p ∷ ps) =
    roots_of (if any (λ root. under p root) roots then roots else roots ++ (p ∷ [])) ps

module _ {D : Type 0} (local : Local D) (client : Client D) where
  unfoldable pub scan_local : Mirror D → ScanReport × Mirror D
  scan_local m = scan_paths local client discovered ([] ∷ []) m

  -- `paths.sort()` is the library's sort.
  unfoldable pub process_local_events : (List Text → List Text) → Mirror D → Mirror D
  process_local_events sort m =
      let taken = record m { local_changes = record { rescan = false; paths = [] } } in
      if m.local_changes.rescan then (scan_local taken).1 else elim m.local_changes.paths [
        | [] ↦ taken
        | _ ∷ _ ↦
            (scan_paths local client interactive (roots_of [] (sort m.local_changes.paths)) taken).1
      ]
