-- ===== src/Engine/Run/Conflicts.antt =====
-- The upload of a conflict (src/mirror/sync.rs, `run_conflict`), and its resolution.
use canvas_fuse.Prelude.{
  Bool, true, false, ◌||◌, not, Option, none, some, [], ◌∷◌, ◌++◌, Text, codes, text_eq, ◌==◌,
  is_some_and, get_or, if◌then◌else◌,
}
use canvas_fuse.Prelude.Table.{lookup}
use canvas_fuse.Paths.{conflict_copy_key}
use canvas_fuse.Hub.{
  RemoteStat, PutOptions, put_defaults, PutResult, Result, ok, err, prompt, rename_copy,
}
use canvas_fuse.Local.{Local}
use canvas_fuse.Store.{dirty, Conflict, push, interactive}
use canvas_fuse.Store.Ledger.{put_entry, remove_base, put_conflict, remove_conflict}
use canvas_fuse.Mirror.{
  Mirror, Op, ◌>>=◌, pure, on_store, defer, wake, is_open_for_write, block_action, ensure_job,
}
use canvas_fuse.Engine.{Client, local_result_key}
use canvas_fuse.Engine.Scan.{scan_paths}
use canvas_fuse.Engine.Pull.{pull_key}

abbrev has_bytes : Text → Option RemoteStat → Bool
has_bytes sha stat = is_some_and stat (λ r. r.sha256 == sha)

module _ {D : Type 0} where
  -- The record of the conflict, or a new one.
  unfoldable pub conflict_record : Text → Text → Option Text → Mirror D → Conflict
  conflict_record key local_sha base_sha m = get_or (lookup key m.store.conflicts) (record {
    key = key;
    local_sha256 = local_sha;
    hub_sha256 = none;
    base_sha256 = base_sha;
    ts = m.now;
    mode = m.opts.conflicts;
    uploaded = false;
    inbox_doc_id = none;
    copy_key = none;
    resolved = false;
  })

  unfoldable pub conflict_options : Text → Text → Option Text → Mirror D → PutOptions
  conflict_options key local_sha base_sha m = record put_defaults {
    sha256 = some local_sha;
    mtime = some (elim (lookup key m.store.entries) [ none ↦ 0 | some e ↦ e.mtime ]);
    conflict_of = some key;
    conflict_mode = some m.opts.conflicts;
    base_sha256 = base_sha;
  }

  -- The first choice of the copy's name, and the one that the digest makes unique.
  unfoldable pub copy_name : Text → Conflict → Mirror D → Text
  copy_name key c m = conflict_copy_key key m.externals.device_name (m.externals.stamp c.ts)

  unfoldable pub unique_name : Text → Text → Conflict → Mirror D → Text
  unique_name key local_sha c m =
      conflict_copy_key key (m.externals.device_name ++ (codes " " ++ local_sha))
        (m.externals.stamp c.ts)

  -- The record, with its paths taken through the moves of the meantime.
  unfoldable pub put_record : Text → Option Text → Conflict → Mirror D → Conflict × Mirror D
  put_record key copy c m =
      let c' = record c {
        key = local_result_key m key;
        copy_key = elim copy [ none ↦ none | some p ↦ some (local_result_key m p) ];
      } in
      (c', on_store (put_conflict c') m)

  module _ (local : Local D) (client : Client D) where
    -- Where the copy goes, and what the hub has there.
    unfoldable pub copy_target : Text → Text → Conflict → Op D (Text × Option RemoteStat)
    copy_target key local_sha c m =
        let wished = get_or c.copy_key (copy_name key c m) in
        (client.head_object wished >>= λ stat m'.
        if is_some_and stat (λ r. not (r.sha256 == local_sha))
        then (let target = unique_name key local_sha c m in
            (client.head_object target >>= λ stat' m''. (ok (target, stat'), m'')) m')
        else (ok (wished, stat), m'))
          m

    -- The upload, unless an earlier one whose answer was lost did it.
    unfoldable pub upload_copy :
        Text → Text → PutOptions → Option RemoteStat → Op D (Option PutResult)
    upload_copy target local_sha opts existing =
        if has_bytes local_sha existing
        then pure none
        else (client.put_object target (local.conflict_path local_sha) opts >>= λ res m.
            (ok (some res), m))

    -- The hub's version takes the name, unless there is none.
    unfoldable pub take_hub_version : Text → Op D (Unit {0})
    take_hub_version key m =
        let expected = lookup key m.store.entries in
        (client.head_object key >>= λ stat m'. elim stat [
          | some r ↦ pull_key local client key r 0 expected m'
          | none ↦
              let m'' = on_store (remove_base key) m' in
              (
                ok tt,
                ensure_job (push key) (elim (lookup key m''.store.entries) [
                  | none ↦ m''
                  | some e ↦ on_store (put_entry key (record e { state = dirty })) m''
                ]),
              )
        ])
          m

    -- A save newer than the snapshot is looked at again; otherwise the hub's version is taken.
    unfoldable pub after_upload : Text → Text → Op D (Unit {0})
    after_upload key local_sha m =
        let (hashed, m') = client.hash key m in
        if (elim hashed [ ok h ↦ not (h.sha256 == local_sha) | err _ ↦ false ])
          || is_open_for_write m' key
        then (ok tt, defer key (scan_paths local client interactive (key ∷ []) m').1)
        else take_hub_version key m'

    -- The upload went through.
    unfoldable pub note_uploaded :
        Text → Text → Option Text → Conflict → Option PutResult → Op D (Unit {0})
    note_uploaded key local_sha copy c res m =
        let c' : Conflict = record c {
          uploaded = true;
          inbox_doc_id = elim res [ none ↦ c.inbox_doc_id | some r ↦ r.doc_id ];
        } in
        let (c'', m') = put_record key copy c' m in
        if c''.key == key then after_upload key local_sha m' else (ok tt, m')

    -- With the mode `prompt`, the hub keeps the bytes beside the key.
    unfoldable pub conflict_to_inbox : Text → Text → Conflict → PutOptions → Op D (Unit {0})
    conflict_to_inbox key local_sha c opts =
        upload_copy key local_sha opts none >>= note_uploaded key local_sha c.copy_key c

    -- With the mode `rename`, they are a file of another name.
    unfoldable pub conflict_to_copy : Text → Text → Conflict → PutOptions → Op D (Unit {0})
    conflict_to_copy key local_sha c opts = copy_target key local_sha c >>= λ found m.
        let target = found.0 in
        let (c', m') = put_record key (some target) c m in
        (upload_copy target local_sha opts found.1 >>= note_uploaded key local_sha (some target) c')
          m'

    unfoldable pub upload_conflict : Text → Text → Option Text → Op D (Unit {0})
    upload_conflict key local_sha base_sha m =
        let c = conflict_record key local_sha base_sha m in
        let opts = conflict_options key local_sha base_sha m in
        elim m.opts.conflicts as (λ _. Result (Unit {0}) × Mirror D) [
          | prompt ↦ conflict_to_inbox key local_sha c opts m
          | rename_copy ↦ conflict_to_copy key local_sha c opts m
        ]

    -- Bytes that are gone cannot be uploaded.
    unfoldable pub run_conflict : Text → Text → Option Text → Op D (Unit {0})
    run_conflict key local_sha base_sha m =
        if local.has_conflict_bytes local_sha m.disk
        then upload_conflict key local_sha base_sha m
        else let (taken, m') = client.conflict_snapshot key m in
          if (elim taken [ ok sha ↦ sha == local_sha | err _ ↦ false ])
          then upload_conflict key local_sha base_sha m'
          else (ok tt, m')

    -- The hub says that the conflict was resolved.
    unfoldable pub conflict_resolved : Text → Mirror D → Mirror D
    conflict_resolved key m = elim (lookup key m.store.conflicts) [
      | none ↦ wake m
      | some c ↦
          if m.opts.protected
          then block_action (codes "discard resolved conflict snapshot") key none none m
          else wake (record m {
            store = remove_conflict key m.store;
            disk = local.conflict_remove c.local_sha256 m.disk;
          })
    ]
