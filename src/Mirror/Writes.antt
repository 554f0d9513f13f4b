-- ===== src/Mirror/Writes.antt =====
-- Local writes, deletes and directories (src/mirror/sync.rs): what the file system layer calls on
-- the session thread. None of it talks to the hub.
pub mod Owed
use canvas_fuse.Prelude.{
  Bool, true, false, ◌||◌, ◌&&◌, not, Option, none, some, List, [], ◌∷◌, Text, codes, is_some,
  if◌then◌else◌,
}
use canvas_fuse.Prelude.Table.{lookup}
use canvas_fuse.Hub.{Result, ok, err, other, propagate, keep, DeleteMode}
use canvas_fuse.Local
use canvas_fuse.Local.{Local, Hashed, removed, not_empty, failed}
use canvas_fuse.Store.{Store, Entry, dirty, tombstone, push, delete, mkdir, rmdir, Base}
use canvas_fuse.Store.Ledger.{
  put_entry, remove_entry, remove_base, add_dir, remove_dir, get_meta, upload_key, dir_has_children,
  remove_trashed, put_base,
}
use canvas_fuse.Store.Queue
use canvas_fuse.Mirror.{
  Mirror, Op, ◌>>=◌, ◌>>◌, pure, on_store, wake, show, view_upsert, is_ignored, enqueue, skip,
  unskip, excluded, record_dirs_for, clear_obsolete_trash,
}

abbrev pub dirty_entry : Hashed → Entry
dirty_entry h = record { sha256 = h.sha256; size = h.size; mtime = h.mtime; state = dirty }

module _ {D : Type 0} where
  -- `if self.is_ignored(key) { skipped.insert } else { skipped.remove; enqueue(Push) }`
  unfoldable pub push_or_skip : Text → Mirror D → Mirror D
  push_or_skip key m =
      if is_ignored m key then skip key excluded m else enqueue (push key) (unskip key m)

  -- The match of `note_local_gone`: whether the hub has to be told.
  unfoldable pub tells_hub : Text → Mirror D → Bool
  tells_hub key m =
      (elim m.opts.deletes [ propagate ↦ true | keep ↦ false ])
      && ((is_some (lookup key m.store.bases) || is_some (get_meta (upload_key key) m.store))
          && not (is_ignored m key))

  -- A tombstone and a delete job, or nothing at all to remember.
  unfoldable pub settle_gone : Text → Entry → Mirror D → Mirror D
  settle_gone key e m =
      if tells_hub key m
      then enqueue (delete key none) (on_store (put_entry key (record e { state = tombstone })) m)
      else on_store (λ s. remove_base key (remove_entry key s)) m

  unfoldable pub note_local_gone : Text → Mirror D → Mirror D
  note_local_gone key m = elim (lookup key m.store.entries) [
    | none ↦ m
    | some e ↦ unskip key (settle_gone key e (on_store (λ s. (Queue.remove_jobs_for key s).1) m))
  ]

  -- An operation of the folder, as an operation of the mirror.
  unfoldable pub on_disk : {A : Type 0} → (D → Result A × D) → Op D A
  on_disk f m = let (r, d) = f m.disk in (r, record m { disk = d })

  module _ (local : Local D) where
    unfoldable pub commit_local_file : Text → Op D (Unit {0})
    commit_local_file key m = elim (local.stat key m.disk) [
      | none ↦ (err other, m)
      | some st ↦
          let e : Entry = record { sha256 = []; size = st.size; mtime = st.mtime; state = dirty } in
          (
            ok tt,
            wake (push_or_skip key (on_store (λ s. record_dirs_for key (put_entry key e s)) m)),
          )
    ]

    -- What follows the bytes of a flushed write.
    unfoldable pub note_written : Text → Entry → Mirror D → Mirror D
    note_written key e m = wake (
        push_or_skip key (
          clear_obsolete_trash local key
            (on_store (λ s. record_dirs_for key (put_entry key e s)) m)))

    unfoldable pub commit_write : Text → Text → Op D Entry
    commit_write key bytes = do
      h ← on_disk (local.write_atomic key bytes)
      λ m. (ok (dirty_entry h), note_written key (dirty_entry h) m)

    -- The result says whether there was a file.
    unfoldable pub delete_local : Text → Op D Bool
    delete_local key m = elim (lookup key m.store.entries) [
      | none ↦
          let existed = Local.exists local key m.disk in
          (on_disk (local.remove_file key) >> pure existed) m
      | some _ ↦
          (on_disk (local.remove_file key) >> λ m'. (ok true, wake (note_local_gone key m'))) m
    ]

    unfoldable pub mkdir_local : Text → Op D (Unit {0})
    mkdir_local key = do
      on_disk (local.mkdir key)
      λ m.
          let made = on_store (λ s. add_dir key (record_dirs_for key s)) m in
          (ok tt, wake (if is_ignored made key then made else enqueue (mkdir key) made))

    -- What follows the removal of a directory.
    unfoldable pub note_dir_gone : Text → Mirror D → Mirror D
    note_dir_gone key m =
        let gone = on_store (λ s. (Queue.remove_jobs_for key (remove_dir key s)).1) m in
        wake (if is_ignored gone key then gone else enqueue (rmdir key) gone)

    -- `ok false`: the directory is not empty.
    unfoldable pub rmdir_local : Text → Op D Bool
    rmdir_local key m =
        if dir_has_children key m.store
        then (ok false, m)
        else let (r, d) = local.rmdir key m.disk in
          let m' = record m { disk = d } in
          elim r [
            | removed ↦ (ok true, note_dir_gone key m')
            | not_empty ↦ (ok false, m')
            | failed ↦ (err other, m')
          ]

    -- Bring a file that the hub deleted back from the trash: a new push.
    unfoldable pub trash_restore : Text → Op D (Unit {0})
    trash_restore key m = elim (lookup key m.store.trash) [
      | none ↦ (err other, m)
      | some _ ↦
          if is_some (lookup key m.store.entries)
          then (err other, m)
          else (on_disk (local.trash_restore key) >>= λ h m'.
                let s = put_entry key (dirty_entry h) (remove_base key m'.store) in
                let m'' = record m' { store = remove_trashed key (record_dirs_for key s) } in
                (ok tt, wake (show (view_upsert key h.size h.mtime) (enqueue (push key) m''))))
              m
    ]
