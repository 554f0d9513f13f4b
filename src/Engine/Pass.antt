-- ===== src/Engine/Pass.antt =====
-- One pass of the engine and its outcome (src/mirror/sync.rs): `cycle`, the housekeeping and the report
-- that follow it, and the loop over the messages.
pub mod Answers
pub mod Protected
use canvas_fuse.Prelude.{
  ℕ, ◌-◌, Bool, true, false, ◌&&◌, ◌||◌, not, Option, none, some, List, [], ◌∷◌, ◌++◌, map, Text,
  codes, text_eq, is_some, contains, ltb, get_or, strip_prefix, reverse, if◌then◌else◌,
}
use canvas_fuse.Prelude.Table.{Table, lookup}
use canvas_fuse.Hub.{Result, ok, err, HubError, offline, unauthorized, unsafe_mirror}
use canvas_fuse.Local.{Local}
use canvas_fuse.Store.{Store, Trashed, Conflict}
use canvas_fuse.Store.Ledger.{
  cursor, set_number, head_key, get_meta, remove_meta, listed_key, recheck_key, remove_trashed,
}
use canvas_fuse.Mirror.{Mirror, SyncState, Op, on_store, block_action}
use canvas_fuse.Mirror.Moves.{Devices, recover_directory_moves}
use canvas_fuse.Mirror.Recover.{recover_jobs}
use canvas_fuse.Engine.{Client}
use canvas_fuse.Engine.Scan.{scan_local, process_local_events}
use canvas_fuse.Engine.Reconcile.{recheck_deferred}
use canvas_fuse.Engine.Run.{drain_jobs}
use canvas_fuse.Engine.Feed.{Feed, refresh_hub_rules}
use canvas_fuse.Engine.Cycle.{
  full_pass_every, trash_ttl_ms, Run, ◌>>=◌, ◌>>◌, run, change, needs_refresh, rebuild_from_listing,
  catch_up,
}

-- A message to the engine; the sender of a `sync_now` may wait for its answer.
pub data EngineMsg : Type 0 where
  wake reconnect stop : EngineMsg
  sync_now : Option ℕ → EngineMsg

-- A burst of messages: whether a full pass is asked for, and who waits.
pub record Batch : Type 0 where
  pub full : Bool
  pub dones : List ℕ

abbrev is_offline_state : SyncState → Bool
is_offline_state SyncState.offline = true
is_offline_state _ = false

abbrev is_paused_state : SyncState → Bool
is_paused_state SyncState.paused = true
is_paused_state _ = false

abbrev is_part : Text → Bool
is_part name = is_some (strip_prefix (reverse (codes ".part")) (reverse name))

module _ {D : Type 0} where
  -- `set_state` and `set_error`; the status file is not modelled.
  unfoldable pub conclude : Option HubError → SyncState → Mirror D → Mirror D
  conclude e state m = record m { last_error = e; state = state }

  -- The match on the result of the pass, and whether the pass goes on to report.
  unfoldable pub settle_cycle : Result (Unit {0}) → Mirror D → Bool × Mirror D
  settle_cycle (ok _) m = (true, conclude none SyncState.idle (record m { last_sync = some m.now }))
  settle_cycle (err offline) m = (true, conclude (some offline) SyncState.offline m)
  settle_cycle (err unauthorized) m = (false, conclude (some unauthorized) SyncState.paused m)
  settle_cycle (err unsafe_mirror) m = (false, conclude (some unsafe_mirror) SyncState.paused m)
  settle_cycle (err e) m = (true, conclude (some e) SyncState.idle m)

  -- `EngineMsg::Reconnect`.
  unfoldable pub leave_offline : Mirror D → Mirror D
  leave_offline m = if is_offline_state m.state then record m { state = SyncState.idle } else m

  -- The inner loop: `none` when a stop is among the messages.
  unfoldable pub coalesce : List EngineMsg → Batch → Mirror D → Option (Batch × Mirror D)
  coalesce [] b m = some (b, m)
  coalesce (stop ∷ msgs) b m = none
  coalesce (wake ∷ msgs) b m = coalesce msgs b m
  coalesce (reconnect ∷ msgs) b m = coalesce msgs b (leave_offline m)
  coalesce (sync_now none ∷ msgs) b m = coalesce msgs (record b { full = true }) m
  coalesce (sync_now (some d) ∷ msgs) b m =
      coalesce msgs (record { full = true; dones = b.dones ++ (d ∷ []) }) m

  unfoldable pub is_due : Mirror D → Bool
  is_due m = elim m.last_full [ none ↦ true | some t ↦ ltb full_pass_every (m.now - t) ]

  module _ (local : Local D) where
    -- The loop over the trash, and a round of it.
    unfoldable pub expire_one : Text → Trashed → Mirror D → Mirror D
    expire_one key t m =
        if not (ltb trash_ttl_ms (m.now - t.ts))
        then m
        else if m.opts.protected
        then block_action (codes "expire local trash copy") key none none m
        else record m { store = remove_trashed key m.store; disk = local.trash_remove key m.disk }

    unfoldable pub expire_trash : Table Trashed → Mirror D → Mirror D
    expire_trash [] m = m
    expire_trash ((key, t) ∷ rows) m = expire_trash rows (expire_one key t m)

    -- The loop over the conflict snapshots, and a round of it.
    unfoldable pub expire_snapshot : List Text → Text → Option ℕ → Mirror D → Mirror D
    expire_snapshot referenced name modified m =
        if is_part name
          || (contains referenced name
              || not (ltb trash_ttl_ms (elim modified [ none ↦ 0 | some t ↦ m.now - t ])))
        then m
        else if m.opts.protected
        then block_action (codes "expire conflict snapshot") name none none m
        else record m { disk = local.conflict_remove name m.disk }

    unfoldable pub expire_snapshots : List Text → List (Text × Option ℕ) → Mirror D → Mirror D
    expire_snapshots referenced [] m = m
    expire_snapshots referenced ((name, modified) ∷ files) m =
        expire_snapshots referenced files (expire_snapshot referenced name modified m)

    abbrev digests : Table Conflict → List Text
    digests = map (λ row. row.1.local_sha256)

    unfoldable pub housekeeping : Mirror D → Mirror D
    housekeeping m =
        let m' = expire_trash m.store.trash m in
        elim (local.conflict_files m'.disk) [
          | none ↦ m'
          | some files ↦ expire_snapshots (digests m'.store.conflicts) files m'
        ]

    module _ (client : Client D) (feed : Feed D) (devices : Devices)
        (sort : List Text → List Text) where
      unfoldable pub settle_report : Result ℕ → Mirror D → Mirror D
      settle_report (ok head) m = record (on_store (set_number head_key head) m) {
        last_report = some m.now;
      }
      settle_report (err _) m = m

      unfoldable pub report_to_hub : Bool → Mirror D → Mirror D
      report_to_hub force m =
          if is_offline_state m.state || is_paused_state m.state || elim m.last_report [
            | none ↦ false
            | some t ↦ ltb (m.now - t) (if force then 5000 else 60000)
          ]
          then m
          else let (r, m') = feed.report_status m in settle_report r m'

      unfoldable pub resumes : Mirror D → Bool
      resumes m = not m.opts.protected && is_some (get_meta recheck_key m.store)

      -- `drain_jobs(64)`, whose keys are not needed.
      abbrev drain_all : Run D (Unit {0})
      drain_all = run (drain_jobs local client sort 64 []) >>= λ _. change (λ m. m)

      -- The first half of a pass: the folder, the rules of the hub, the queue.
      unfoldable pub look_here : Bool → Run D (Unit {0})
      look_here full =
          run client.verify_destination
          >> run (recover_directory_moves local devices)
          >> change (λ m. if full then (scan_local local client m).1 else m)
          >> change (process_local_events local client sort)
          >> run (refresh_hub_rules feed)
          >> change recover_jobs
          >> drain_all

      unfoldable pub lists_all : Bool → Mirror D → Bool
      lists_all full m =
          full
          || (needs_refresh m
              || (not (is_some (cursor m.store)) || not (is_some (get_meta listed_key m.store))))

      unfoldable pub follow_hub : ℕ → Bool → Run D (Unit {0})
      follow_hub rounds full m =
          if lists_all full m
          then (rebuild_from_listing local client feed sort rounds
                >> change (λ m'. record m' { last_full = some m'.now }))
              m
          else catch_up local client feed sort rounds m

      unfoldable pub refresh_if_moved : ℕ → Run D (Unit {0})
      refresh_if_moved rounds m =
          if needs_refresh m
          then rebuild_from_listing local client feed sort rounds m
          else some (ok tt, m)

      unfoldable pub cycle_inner : ℕ → Bool → Run D (Unit {0})
      cycle_inner rounds asked m =
          let resume = resumes m in
          let full = asked || resume in
          (look_here full
              >> follow_hub rounds full
              >> run (recheck_deferred local client)
              >> change recover_jobs
              >> drain_all
              >> refresh_if_moved rounds
              >> change (λ m'. if resume then on_store (remove_meta recheck_key) m' else m'))
            m

      -- What follows a pass that was carried out.
      unfoldable pub after_cycle : Bool → Bool × Mirror D → Mirror D
      after_cycle full (true, m) = report_to_hub full (housekeeping m)
      after_cycle full (false, m) = m

      -- One pass; a paused mirror waits for a full one.
      unfoldable pub cycle : ℕ → Bool → Mirror D → Option (Mirror D)
      cycle rounds full m =
          let m' = record m { protected_jobs = [] } in
          if is_paused_state m.state && not full
          then some m'
          else elim (cycle_inner rounds full (record m' { state = SyncState.syncing })) [
            | none ↦ none
            | some (r, m'') ↦ some (after_cycle full (settle_cycle r m''))
          ]

      -- One round of the engine's loop, on the messages that are there: who is answered, and the state;
      -- or the engine has stopped.
      unfoldable pub round : ℕ → List EngineMsg → Mirror D → Option (Option (List ℕ × Mirror D))
      round rounds msgs m = elim (coalesce msgs (record { full = false; dones = [] }) m) [
        | none ↦ some none
        | some (b, m') ↦ elim (cycle rounds (b.full || is_due m') m') [
          | none ↦ none
          | some m'' ↦ some (some (b.dones, m''))
        ]
      ]
