-- ===== src/Engine/Pass/Protected.antt =====
-- The housekeeping (src/mirror/sync.rs, `housekeeping`) and what must not be lost.
use canvas_fuse.Prelude.{
  ℕ, ◌≡◌, refl, ◌∙◌, ap, map, Bool, true, false, Option, none, some, List, [], ◌∷◌, Text, codes,
  arith, if◌then◌else◌,
}
use canvas_fuse.Prelude.Table.{Table}
use canvas_fuse.Local.{Local}
use canvas_fuse.Store.{Trashed}
use canvas_fuse.Mirror.{Mirror, MirrorOptions, block_action}
use canvas_fuse.Engine.Pass.{
  expire_trash, expire_one, expire_snapshot, expire_snapshots, housekeeping,
}

-- The folder and the trash are as they were.
pub record NothingLost {D : Type 0} (m m' : Mirror D) : Type 0 where
  pub disk : m'.disk ≡ m.disk
  pub trash : m'.store.trash ≡ m.store.trash
  pub opts : m'.opts ≡ m.opts

module _ {D : Type 0} where
  refl_lost : (m : Mirror D) → NothingLost m m
  refl_lost m = record { disk = refl; trash = refl; opts = refl }

  trans_lost : (m m' m'' : Mirror D) → NothingLost m m' → NothingLost m' m'' → NothingLost m m''
  trans_lost m m' m'' a b = record {
    disk = b.disk ∙ a.disk;
    trash = b.trash ∙ a.trash;
    opts = b.opts ∙ a.opts;
  }

  audit_lost :
      (action key : Text) (to sha : Option Text) (m : Mirror D)
      → NothingLost m (block_action action key to sha m)
  unfolding block_action canvas_fuse.Store.Ledger.record_blocked
  audit_lost action key to sha m = record { disk = refl; trash = ground arith; opts = refl }

  -- A step that protected mode holds back.
  held_lost :
      (skipped held : Bool) (m m1 m2 : Mirror D)
      → held ≡ true
      → NothingLost m m1
      → NothingLost m (if skipped then m else if held then m1 else m2)
  held_lost true held m m1 m2 h a = refl_lost m
  held_lost false true m m1 m2 h a = a
  held_lost false false m m1 m2 h a = absurd (ground (arith, h))

  still : (m m' : Mirror D) → NothingLost m m' → m.opts.protected ≡ true → m'.opts.protected ≡ true
  still m m' w p = ap (λ (o : MirrorOptions). o.protected) w.opts ∙ p

  module _ (local : Local D) where
    trash_lost :
        (rows : Table Trashed) (m : Mirror D)
        → m.opts.protected ≡ true
        → NothingLost m (expire_trash local rows m)
    unfolding expire_trash expire_one
    trash_lost [] m p = refl_lost m
    trash_lost ((key, t) ∷ rows) m p =
        let m' = expire_one local key t m in
        let w : NothingLost m m' =
          held_lost _ m.opts.protected m _ _ p
            (audit_lost (codes "expire local trash copy") key none none m) in
        trans_lost m m' _ w (trash_lost rows m' (still m m' w p))

    files_lost :
        (referenced : List Text) (files : List (Text × Option ℕ)) (m : Mirror D)
        → m.opts.protected ≡ true
        → NothingLost m (expire_snapshots local referenced files m)
    unfolding expire_snapshots expire_snapshot
    files_lost referenced [] m p = refl_lost m
    files_lost referenced ((name, modified) ∷ files) m p =
        let m' = expire_snapshot local referenced name modified m in
        let w : NothingLost m m' =
          held_lost _ m.opts.protected m _ _ p
            (audit_lost (codes "expire conflict snapshot") name none none m) in
        trans_lost m m' _ w (files_lost referenced files m' (still m m' w p))

    -- In protected mode the housekeeping removes nothing: the folder with its trash and its conflict
    -- snapshots, and the records of the trash, are as they were.
    pub housekeeping-NothingLost :
        (m : Mirror D) → m.opts.protected ≡ true → NothingLost m (housekeeping local m)
    unfolding housekeeping
    housekeeping-NothingLost m p = go (local.conflict_files m'.disk)
      where
        m' : Mirror D
        m' = expire_trash local m.store.trash m

        w : NothingLost m m'
        w = trash_lost m.store.trash m p

        go :
            (found : Option (List (Text × Option ℕ)))
            → NothingLost m (elim found [
              | none ↦ m'
              | some files ↦
                  expire_snapshots local
                    (map (λ row. row.1.local_sha256) m'.store.conflicts)
                    files
                    m'
            ])
        go none = w
        go (some files) = trans_lost m m' _ w (files_lost _ files m' (still m m' w p))
