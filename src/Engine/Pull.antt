-- ===== src/Engine/Pull.antt =====
-- Taking the hub's version of a key, and recording a conflict (src/mirror/sync.rs, `pull_key` and
-- `record_conflict`).
pub mod Landing
use canvas_fuse.Prelude.{
  ℕ, Bool, true, false, ◌&&◌, ◌||◌, not, Option, none, some, List, [], ◌∷◌, Text, codes, text_eq,
  nat_eq, ◌==◌, is_some_and, if◌then◌else◌,
}
use canvas_fuse.Prelude.Table.{lookup}
use canvas_fuse.Hub.{RemoteStat, Result, ok, err, not_found, local_changed}
use canvas_fuse.Local.{Local, Hashed, LocalStat}
use canvas_fuse.Store.{
  Store, Entry, clean, dirty, Base, JobKind, conflict, interactive, entry_beq, Conflict,
}
use canvas_fuse.Store.Ledger.{put_entry, put_base, put_conflict}
use canvas_fuse.Store.Queue
use canvas_fuse.Mirror.{
  Mirror, Op, ◌>>=◌, ◌>>◌, pure, on_store, show, view_upsert, defer, is_open_for_write,
  pending_path_move, block_action, protected_download_allowed, record_dirs_for,
  clear_obsolete_trash, ensure_job,
}
use canvas_fuse.Mirror.Writes.{on_disk}
use canvas_fuse.Engine.{Client, Snapshot, local_result_key}
use canvas_fuse.Engine.Scan.{scan_paths, same_entry, same_stat}

module _ {D : Type 0} (local : Local D) (client : Client D) where
  -- The key is not as the caller saw it, or is in use.
  unfoldable pub is_stale : Text → Option Entry → Mirror D → Bool
  is_stale key expected m =
      not (same_entry (lookup key m.store.entries) expected)
      || (is_open_for_write m key || pending_path_move m key)

  -- The closure `landing`: whether the download may still take its name.
  unfoldable pub may_land : Text → ℕ → Option LocalStat → Option Entry → Mirror D → Bool
  may_land key epoch stamp expected m =
      m.directory_epoch == epoch
      && (same_stat (local.stat key m.disk) stamp
          && (not (is_stale key expected m)
              && not (m.opts.protected && not (protected_download_allowed local key m.disk))))

  -- The scan and the mark that follow a local change during the download.
  unfoldable pub yield_to_local : Text → Op D (Unit {0})
  yield_to_local key m = (ok tt, defer key (scan_paths local client interactive (key ∷ []) m).1)

  -- The records of bytes that have landed.
  unfoldable pub record_pulled : Text → RemoteStat → ℕ → Hashed → Mirror D → Mirror D
  record_pulled key r seq h m =
      let e : Entry = record { sha256 = h.sha256; size = h.size; mtime = h.mtime; state = clean } in
      let b : Base = record {
        sha256 = h.sha256;
        size = h.size;
        mtime = r.mtime;
        remote_seq = seq;
      } in
      let m' =
        clear_obsolete_trash local key
          (on_store (λ s. record_dirs_for key (put_base key b (put_entry key e s))) m) in
      show (view_upsert key h.size h.mtime) (on_store (λ s. (Queue.remove_jobs_for key s).1) m')

  -- The end of `fetch`: the download is verified, and lands if nothing changed here meanwhile.
  unfoldable pub land_fetched : Text → Option Entry → ℕ → Option LocalStat → Hashed → Op D Hashed
  land_fetched key expected epoch stamp h m =
      if may_land key epoch stamp expected m
      then (on_disk (local.land key h) >> pure h) m
      else (err (local_changed key), m)

  unfoldable pub fetch : Text → RemoteStat → Option Entry → ℕ → Option LocalStat → Op D Hashed
  fetch key r expected epoch stamp =
      client.download key r.sha256 r.mtime >>= land_fetched key expected epoch stamp

  -- The match on the result of `fetch`.
  unfoldable pub settle_pull : Text → RemoteStat → ℕ → Result Hashed → Op D (Unit {0})
  settle_pull key r seq (ok h) m = (ok tt, record_pulled key r seq h m)
  settle_pull key r seq (err not_found) m = (ok tt, m)
  settle_pull key r seq (err (local_changed _)) m = yield_to_local key m
  settle_pull key r seq (err e) m = (err e, m)

  unfoldable pub pull_key : Text → RemoteStat → ℕ → Option Entry → Op D (Unit {0})
  pull_key key r seq expected m =
      if is_stale key expected m
      then (ok tt, defer key m)
      else if m.opts.protected && not (protected_download_allowed local key m.disk)
      then (ok tt, block_action (codes "replace local file") key none (some r.sha256) m)
      else let (fetched, m') = fetch key r expected m.directory_epoch (local.stat key m.disk) m in
        settle_pull key r seq fetched m'

  -- The conflict record; `uploaded` and the fields of the answer are still empty.
  unfoldable pub new_conflict : Text → Text → Text → Option Text → Mirror D → Conflict
  new_conflict key local_sha remote_sha base_sha m = record {
    key = key;
    local_sha256 = local_sha;
    hub_sha256 = some remote_sha;
    base_sha256 = base_sha;
    ts = m.now;
    mode = m.opts.conflicts;
    uploaded = false;
    inbox_doc_id = none;
    copy_key = none;
    resolved = false;
  }

  -- From the preserved snapshot on.
  unfoldable pub put_aside : Text → Entry → Option Text → Text → Hashed → Mirror D → Mirror D
  put_aside key e base_sha remote_sha h m =
      let kind = conflict key h.sha256 base_sha in
      let new : Entry = record {
        sha256 = h.sha256;
        size = h.size;
        mtime = h.mtime;
        state = dirty;
      } in
      let m' = if h.sha256 == e.sha256 then m else on_store (put_entry key new) m in
      if is_some_and (lookup key m'.store.conflicts)
        (λ c. c.local_sha256 == h.sha256 && not c.uploaded)
      then ensure_job kind m'
      else ensure_job kind (
          on_store
            (λ s.
              (Queue.remove_jobs_for key
                (put_conflict (new_conflict key h.sha256 remote_sha base_sha m') s)).1)
            m')

  -- The snapshot is taken without the lock; errors are logged only.
  unfoldable pub record_conflict : Text → Entry → Option Text → Text → Mirror D → Mirror D
  record_conflict key e base_sha remote_sha m =
      let (taken, m') = client.upload_snapshot key m in
      elim taken [
        | err _ ↦ m'
        | ok snap ↦
            if is_stale key (some e) m'
              || not (is_some_and (local.stat key m'.disk) (λ s. s.fingerprint == snap.fingerprint))
            then defer (local_result_key m' key) m'
            else let (kept, m'') = on_disk (local.preserve_conflict snap.hashed.sha256) m' in
              elim kept [ err _ ↦ m'' | ok _ ↦ put_aside key e base_sha remote_sha snap.hashed m'' ]
      ]
