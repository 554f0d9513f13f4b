-- ===== src/Engine/Requests.antt =====
-- The requests of the jobs (src/mirror/sync.rs): pushing, deleting, renaming a file at the hub.
use canvas_fuse.Prelude.{
  ℕ, Bool, ◌&&◌, ◌||◌, not, Option, none, some, Text, codes, text_eq, nat_eq, ◌==◌, is_some,
  is_some_and, is_empty, or_else, ltb, if◌then◌else◌,
}
use canvas_fuse.Prelude.Table.{lookup}
use canvas_fuse.Hub.{
  PutOptions, put_defaults, PutResult, Result, ok, err, not_found, target_exists,
  precondition_failed, protected, local_changed,
}
use canvas_fuse.Local
use canvas_fuse.Local.{Local, Hashed}
use canvas_fuse.Store.{Entry, clean, dirty, tombstone, Base, push, state_beq}
use canvas_fuse.Store.Ledger.{
  put_entry, remove_entry, put_base, remove_base, get_meta, set_meta, remove_meta, upload_key,
}
use canvas_fuse.Mirror.{
  Mirror, Op, ◌>>=◌, on_store, show, view_remove, is_open_for_write, pending_directory_move,
  block_action, ensure_job,
}
use canvas_fuse.Engine.{Client, Snapshot, local_result_key}
use canvas_fuse.Engine.Scan.{same_entry}
use canvas_fuse.Engine.Reconcile.{reconcile_key}

-- The precondition of an upload: the agreed version, or that there is none.
unfoldable pub push_options : Option Text → Entry → PutOptions
push_options agreed e = record put_defaults {
  if_match = agreed;
  if_none_match_any = not (is_some agreed);
  sha256 = some e.sha256;
  mtime = some e.mtime;
}

module _ {D : Type 0} where
  -- The agreed digest of a key.
  unfoldable pub base_sha : Text → Mirror D → Option Text
  base_sha key m = elim (lookup key m.store.bases) [ none ↦ none | some b ↦ some b.sha256 ]

  -- Protected mode does not replace what the hub has by other bytes.
  unfoldable pub would_replace : Option Text → Text → Mirror D → Bool
  would_replace agreed sha m = m.opts.protected && is_some_and agreed (λ b. not (b == sha))

  unfoldable pub refuse_replace : Text → Option Text → Op D (Unit {0})
  refuse_replace key sha m =
      (err (protected key), block_action (codes "replace upstream file") key none sha m)

  -- The uploaded entry is clean, unless it has changed meanwhile.
  unfoldable pub mark_clean : Text → Text → Mirror D → Mirror D
  mark_clean key sha m = elim (lookup key m.store.entries) [
    | none ↦ m
    | some e ↦
        if e.sha256 == sha && (state_beq e.state dirty && not (is_open_for_write m key))
        then on_store (put_entry key (record e { state = clean })) m
        else m
  ]

  -- The upload went through; the file may have moved to `landed` meanwhile.
  unfoldable pub note_pushed : Text → Text → Entry → PutResult → Mirror D → Mirror D
  note_pushed key landed e res m =
      let sha = if is_empty res.sha256 then e.sha256 else res.sha256 in
      let b : Base = record {
        sha256 = sha;
        size = e.size;
        mtime = if ltb 0 res.mtime then res.mtime else e.mtime;
        remote_seq = res.seq;
      } in
      on_store (remove_meta (upload_key key))
        (mark_clean landed sha (on_store (put_base landed b) m))

  module _ (local : Local D) (client : Client D) where
    -- `match result` of the upload.
    unfoldable pub settle_push : Text → Entry → Result PutResult → Op D (Unit {0})
    settle_push key e (ok res) m = (ok tt, note_pushed key (local_result_key m key) e res m)
    settle_push key e (err (precondition_failed current)) m =
        let sha : Option Text = elim current [ none ↦ none | some r ↦ some r.sha256 ] in
        if would_replace sha e.sha256 m
        then refuse_replace key sha m
        else if not (local_result_key m key == key)
        then (err (precondition_failed current), m)
        else reconcile_key local client key current 0 m
    settle_push key e (err failure) m = (err failure, m)

    -- From the snapshot on: it is void if the file, its entry or the directories changed meanwhile.
    unfoldable pub upload : Text → Option Text → ℕ → Entry → Snapshot → Op D (Unit {0})
    upload key agreed epoch entry snap m =
        if not (m.directory_epoch == epoch)
          || (is_open_for_write m key
              || (not (same_entry (lookup key m.store.entries) (some entry))
                  || not (
                      is_some_and (local.stat key m.disk)
                        (λ s. s.fingerprint == snap.fingerprint))))
        then (err (local_changed key), m)
        else let h = snap.hashed in
          let e : Entry = record {
            sha256 = h.sha256;
            size = h.size;
            mtime = h.mtime;
            state = dirty;
          } in
          if would_replace agreed e.sha256 m
          then refuse_replace key agreed m
          else let (result, m') =
              client.put_object key snap.path (push_options agreed e)
                (on_store (λ s. set_meta (upload_key key) e.sha256 (put_entry key e s)) m) in
            settle_push key e result m'

    unfoldable pub push_entry : Text → Entry → Op D (Unit {0})
    push_entry key e m =
        if not (state_beq e.state dirty)
          || (is_open_for_write m key || pending_directory_move m key)
        then (ok tt, m)
        else let agreed = base_sha key m in
          if would_replace agreed e.sha256 m
          then refuse_replace key agreed m
          else (client.upload_snapshot key >>= upload key agreed m.directory_epoch e) m

    unfoldable pub run_push : Text → Op D (Unit {0})
    run_push key m = elim (lookup key m.store.entries) [
      | none ↦ (ok tt, m)
      | some e ↦ push_entry key e m
    ]

    -- `if entry.is_some_and(|e| e.state == Tombstone) { remove_entry }`.
    unfoldable pub drop_tombstone : Text → Mirror D → Mirror D
    drop_tombstone key m =
        if is_some_and (lookup key m.store.entries) (λ e. state_beq e.state tombstone)
        then on_store (remove_entry key) m
        else m

    -- The hub no longer has the object.
    unfoldable pub note_deleted : Text → Option Text → Mirror D → Mirror D
    note_deleted key fixed m =
        let here = local_result_key m key in
        let m' = if is_some fixed then m else on_store (remove_base here) (drop_tombstone here m) in
        on_store (remove_meta (upload_key key)) m'

    unfoldable pub settle_delete : Text → Option Text → Result (Unit {0}) → Op D (Unit {0})
    settle_delete key fixed (ok _) m = (ok tt, note_deleted key fixed m)
    settle_delete key fixed (err not_found) m = (ok tt, note_deleted key fixed m)
    settle_delete key fixed (err (precondition_failed current)) m =
        if is_some fixed || not (local_result_key m key == key)
        then (err (precondition_failed current), m)
        else reconcile_key local client key current 0 m
    settle_delete key fixed (err e) m = (err e, m)

    -- Which version the deletion is for.
    unfoldable pub delete_match : Text → Option Text → Mirror D → Option Text
    delete_match key fixed m =
        or_else fixed
          (or_else (base_sha (local_result_key m key) m) (get_meta (upload_key key) m.store))

    unfoldable pub run_delete : Text → Option Text → Op D (Unit {0})
    run_delete key fixed m = elim (delete_match key fixed m) [
      | none ↦ (ok tt, drop_tombstone (local_result_key m key) m)
      | some sha ↦
          let (result, m') = client.delete_object key (some sha) m in
          settle_delete key fixed result m'
    ]

    -- The hub has no source: our bytes are a new file.
    unfoldable pub push_as_new : Text → Mirror D → Mirror D
    push_as_new key m = elim (lookup key m.store.entries) [
      | none ↦ m
      | some e ↦
          if Local.is_file local key m.disk
          then ensure_job (push key) (on_store (put_entry key (record e { state = dirty })) m)
          else show (view_remove key) (on_store (remove_entry key) m)
    ]

    -- The hub changed the source: our moved bytes are a new file.
    unfoldable pub push_moved : Text → Mirror D → Mirror D
    push_moved key m = elim (lookup key m.store.entries) [
      | none ↦ m
      | some e ↦ ensure_job (push key) (on_store (put_entry key (record e { state = dirty })) m)
    ]

    unfoldable pub settle_rename : Text → Text → Result (Unit {0}) → Op D (Unit {0})
    settle_rename from to (ok _) m = (ok tt, m)
    settle_rename from to (err not_found) m =
        let here = local_result_key m to in
        (ok tt, push_as_new here (on_store (remove_base here) m))
    settle_rename from to (err target_exists) m =
        let here = local_result_key m to in
        (client.head_object to >>= λ stat m'.
        if not (local_result_key m' to == to)
        then (err target_exists, m')
        else reconcile_key local client to stat 0 (on_store (remove_base here) m'))
          m
    settle_rename from to (err (precondition_failed current)) m =
        let here = local_result_key m to in
        reconcile_key local client from current 0 (push_moved here (on_store (remove_base here) m))
    settle_rename from to (err e) m = (err e, m)

    unfoldable pub run_rename : Text → Text → Op D (Unit {0})
    run_rename from to m =
        let expected =
          or_else (base_sha (local_result_key m to) m) (get_meta (upload_key from) m.store) in
        let (result, m') = client.rename_object from to expected m in
        settle_rename from to result m'
