-- ===== src/Engine/Feed.antt =====
-- What comes from the hub (src/mirror/sync.rs): a change of the feed, a rename at the hub, the rules
-- that the hub has, and the directories of a listing.
pub mod Renames
use canvas_fuse.Prelude.{
  ℕ, zero, suc, Bool, true, false, ◌&&◌, ◌||◌, not, Option, none, some, List, [], ◌∷◌, ◌++◌, map,
  Text, codes, text_eq, nat_eq, option_eq, ◌==◌, is_some, is_some_and, is_empty, any, contains, put,
  length, if◌then◌else◌,
}
use canvas_fuse.Prelude.Table.{Table, lookup}
use canvas_fuse.Paths.{parent_key, under, normalize_key, new_rules, join}
use canvas_fuse.Hub.{
  RemoteStat, Listing, Changes, Change, ChangeOp, rename, Result, ok, err, other, unsafe_mirror,
  unauthorized, is_offline, HubError,
}
use canvas_fuse.Local
use canvas_fuse.Local.{Local, directory, missing}
use canvas_fuse.Store.{Store, Entry, clean, dirty, tombstone, Base, push, rmdir, state_beq}
use canvas_fuse.Store.Ledger.{
  remove_entry, put_base, remove_base, rekey, get_meta, set_meta, instance_key, exclusions_key,
  has_dir, add_dir,
}
use canvas_fuse.Mirror.{
  Mirror, Op, ◌>>=◌, ◌>>◌, on_store, show, view_remove, view_rename, view_ensure_dir, enqueue,
  is_ignored, is_open_for_write, pending_directory_move, pending_path_move, block_action,
  record_dirs_for,
}
use canvas_fuse.Engine.{Client}
use canvas_fuse.Engine.Reconcile.{reconcile_key}

-- The requests that only the cycle makes.
pub record Feed (D : Type 0) : Type 0 where
  pub list_objects : Option Text → Op D Listing
  pub changes : ℕ → Op D Changes
  pub instance_id : Op D (Option Text)
  pub exclusions : Op D (List Text)
  pub report_status : Op D ℕ

abbrev pub is_rename : ChangeOp → Bool
is_rename rename = true
is_rename _ = false

abbrev pub mirror_ignore_defaults : List Text
mirror_ignore_defaults =
    codes "**/.*" ∷ codes "**/.*/**" ∷ codes ".workspace" ∷ codes ".workspace/**" ∷ []

-- The `while` loop over the parents of a key, on the rounds left.
unfoldable pub parents_from : ℕ → Text → List Text → List Text
parents_from zero p dirs = dirs
parents_from (suc rounds) p dirs =
    let rest = parents_from rounds (parent_key p) (put p dirs) in if is_empty p then dirs else rest

-- The local copy is the version that was agreed.
unfoldable pub is_agreed : Entry → Option Base → Bool
is_agreed e base = state_beq e.state clean && is_some_and base (λ b. b.sha256 == e.sha256)

-- The base under the new key has the number of the change.
unfoldable pub number_base : Text → ℕ → Store → Store
number_base key seq s = elim (lookup key s.bases) [
  | none ↦ s
  | some b ↦ put_base key (record b { remote_seq = seq }) s
]

module _ {D : Type 0} where
  -- Our copy has changed: it stays and is pushed as new.
  unfoldable pub keep_source : Text → Entry → Mirror D → Mirror D
  keep_source from e m =
      let m' = on_store (remove_base from) m in
      if state_beq e.state dirty && not (is_ignored m' from) then enqueue (push from) m' else m'

  unfoldable pub forget_source : Text → Mirror D → Mirror D
  forget_source from m =
      show (view_remove from) (on_store (λ s. remove_base from (remove_entry from s)) m)

  unfoldable pub follow_rename : Text → Text → ℕ → Mirror D → Mirror D
  follow_rename from to seq m =
      show (view_rename from to)
        (on_store (λ s. number_base to seq (record_dirs_for to (rekey from to s))) m)

  module _ (local : Local D) where
    -- From `self.local.rename` on.
    unfoldable pub settle_remote_rename : Text → Text → ℕ → Result (Unit {0}) → Mirror D → Mirror D
    settle_remote_rename from to seq (ok _) m = follow_rename from to seq m
    settle_remote_rename from to seq (err _) m = forget_source from m

    unfoldable pub move_clean : Text → Text → ℕ → Mirror D → Mirror D
    move_clean from to seq m =
        if is_some (lookup to m.store.entries)
        then forget_source from (record m { disk = (local.remove_file from m.disk).1 })
        else let (r, d) = local.rename from to m.disk in
          settle_remote_rename from to seq r (record m { disk = d })

    -- It never fails.
    unfoldable pub apply_remote_rename : Text → Text → ℕ → Mirror D → Mirror D
    apply_remote_rename from to seq m =
        if m.opts.protected
          && (Local.exists local from m.disk || is_some (lookup from m.store.entries))
        then block_action (codes "rename local file") from (some to) none m
        else if pending_directory_move m from || pending_directory_move m to
        then m
        else elim (lookup from m.store.entries) [
          | none ↦ m
          | some e ↦
              if not (is_agreed e (lookup from m.store.bases)) || is_open_for_write m from
              then keep_source from e m
              else move_clean from to seq m
        ]

    module _ (client : Client D) where
      -- The advertised move is still current.
      unfoldable pub is_current_move : Change → Option RemoteStat → Option RemoteStat → Bool
      is_current_move change source stat =
          not (is_some source)
          && elim stat [ none ↦ false | some r ↦ some r.sha256 == change.sha256 ]

      -- From the state of the source on; it ends the change if a directory has moved meanwhile.
      unfoldable pub settle_source :
          Text → Text → ℕ → Change → Option RemoteStat → Option RemoteStat → Op D (Unit {0})
      settle_source from key epoch change stat source m =
          if not (m.directory_epoch == epoch)
          then (ok tt, m)
          else if is_current_move change source stat
          then reconcile_key local client key stat change.seq
              (apply_remote_rename from key change.seq m)
          else (reconcile_key local client from source change.seq
                >> reconcile_key local client key stat change.seq)
              m

      unfoldable pub settle_head : Text → ℕ → Change → Option RemoteStat → Op D (Unit {0})
      settle_head key epoch change stat m =
          if not (m.directory_epoch == epoch) || pending_directory_move m key
          then (ok tt, m)
          else if is_rename change.op
          then elim change.from [
            | none ↦ reconcile_key local client key stat change.seq m
            | some raw ↦
                let from = normalize_key m.externals.nfc raw in
                (client.head_object from >>= settle_source from key epoch change stat) m
          ]
          else reconcile_key local client key stat change.seq m

      unfoldable pub apply_change : Change → Op D (Unit {0})
      apply_change change m =
          let key = normalize_key m.externals.nfc change.key in
          if pending_directory_move m key
            || is_some_and change.from (λ from. pending_directory_move m from)
          then (ok tt, m)
          else (client.head_object key >>= settle_head key m.directory_epoch change) m

    -- A key whose parents a listing has to make.
    unfoldable pub needs_parents : List Text → Mirror D → Text → Bool
    needs_parents touched m key = not (
        is_ignored m key
        || (not (Local.check_key key)
            || (any (λ path. under key path) touched
                || is_some_and (lookup key m.store.entries) (λ e. state_beq e.state tombstone))))

    unfoldable pub wanted_dirs : List Text → Mirror D → Table RemoteStat → List Text
    wanted_dirs touched m [] = []
    wanted_dirs touched m ((key, r) ∷ rows) =
        let rest = wanted_dirs touched m rows in
        if needs_parents touched m key
        then parents_from (length key) (parent_key key) rest
        else rest

    unfoldable pub is_held_dir : List Text → Text → Mirror D → Bool
    is_held_dir blocked dir m =
        is_ignored m dir
        || (contains blocked (parent_key dir)
            || (pending_path_move m dir
                || any (λ j. elim j.kind [ rmdir key ↦ under dir key | _ ↦ false ]) m.store.jobs))

    -- The closure that makes one directory.
    unfoldable pub make_dir : Text → Op D (Unit {0})
    make_dir dir m = elim (local.probe dir m.disk) [
      | directory ↦ (ok tt, note_dir m)
      | missing ↦
          let (r, d) = local.create_dir dir m.disk in
          let m' = record m { disk = d } in
          elim r [ ok _ ↦ (ok tt, note_dir m') | err e ↦ (err e, m') ]
      | _ ↦ (err other, m)
    ]
      where
        note_dir : Mirror D → Mirror D
        note_dir m =
            show (view_ensure_dir dir) (if has_dir dir m.store then m else on_store (add_dir dir) m)

    -- The loop over the directories, with those that are blocked and whether there was an error.
    unfoldable pub make_dirs : ℕ → List Text → List Text → Bool → Op D (Unit {0})
    make_dirs epoch [] blocked failed m = (if failed then err other else ok tt, m)
    make_dirs epoch (dir ∷ dirs) blocked failed m =
        if not (m.directory_epoch == epoch)
        then (if failed then err other else ok tt, m)
        else if is_held_dir blocked dir m
        then make_dirs epoch dirs (put dir blocked) failed m
        else let (r, m') = make_dir dir m in
          elim r [
            | ok _ ↦ make_dirs epoch dirs blocked failed m'
            | err _ ↦ make_dirs epoch dirs (put dir blocked) true m'
          ]

    -- `sort` is that of the library's ordered set.
    unfoldable pub prepare_listing_directories :
        (List Text → List Text) → Table RemoteStat → List Text → ℕ → Op D (Unit {0})
    prepare_listing_directories sort remote touched epoch m =
        make_dirs epoch (sort (wanted_dirs touched m remote)) [] false m

module _ {D : Type 0} (feed : Feed D) where
  -- The hub must be the one that this replica was made for.
  unfoldable pub check_instance : Option Text → Op D (Unit {0})
  check_instance instance_id m = elim (get_meta instance_key m.store) [
    | some previous ↦ if instance_id == some previous then (ok tt, m) else (err unsafe_mirror, m)
    | none ↦ elim instance_id [
      | some id ↦ (ok tt, on_store (set_meta instance_key id) m)
      | none ↦ (ok tt, m)
    ]
  ]

  unfoldable pub take_exclusions : List Text → Mirror D → Mirror D
  take_exclusions list m = record (on_store (set_meta exclusions_key (join (10 ∷ []) list)) m) {
    ignore = record {
      patterns = new_rules m.externals.glob (mirror_ignore_defaults ++ (list ++ m.opts.ignore));
    };
  }

  abbrev stops : HubError → Bool
  stops unauthorized = true
  stops e = is_offline e

  -- `match self.hub.exclusions()`.
  unfoldable pub settle_exclusions : Result (List Text) → Op D (Unit {0})
  settle_exclusions (ok list) m = (ok tt, take_exclusions list m)
  settle_exclusions (err e) m = if stops e then (err e, m) else (ok tt, m)

  unfoldable pub refresh_exclusions : Op D (Unit {0})
  refresh_exclusions m =
      if not (is_some (get_meta exclusions_key m.store)) || not (is_some m.last_full)
      then (let (r, m') = feed.exclusions m in settle_exclusions r m')
      else (ok tt, m)

  unfoldable pub refresh_hub_rules : Op D (Unit {0})
  refresh_hub_rules = feed.instance_id >>= λ id. check_instance id >> refresh_exclusions
