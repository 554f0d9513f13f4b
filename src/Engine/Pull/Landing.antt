-- ===== src/Engine/Pull/Landing.antt =====
-- What becomes of a download (src/mirror/sync.rs, `pull_key` and its closure `landing`).
use canvas_fuse.Prelude.{
  ℕ, ◌≡◌, refl, true, false, Option, Text, arith, nat_beq_iff, Bool-cases, inl, inr, ◌⊎◌,
}
use canvas_fuse.Prelude.Table.{lookup}
use canvas_fuse.Hub.{RemoteStat, Result, ok, err, local_changed}
use canvas_fuse.Local.{Local, Hashed, LocalStat}
use canvas_fuse.Store.{Entry}
use canvas_fuse.Mirror.{
  Mirror, is_open_for_write, pending_path_move, protected_download_allowed, pure, ◌>>◌,
}
use canvas_fuse.Mirror.Writes.{on_disk}
use canvas_fuse.Engine.{Client}
use canvas_fuse.Engine.Scan.{same_entry, same_stat}
use canvas_fuse.Engine.Pull.{is_stale, may_land, land_fetched, fetch}

module _ {D : Type 0} (local : Local D) (client : Client D) (key : Text) (expected : Option Entry)
    (epoch : ℕ) (stamp : Option LocalStat) where
  -- Nothing of what the engine decided on has changed.
  pub record IsUntouched (m : Mirror D) : Type 0 where
    pub entry : same_entry (lookup key m.store.entries) expected ≡ true
    pub closed : is_open_for_write m key ≡ false
    pub unmoved : pending_path_move m key ≡ false
    pub file : same_stat (local.stat key m.disk) stamp ≡ true
    pub directories : m.directory_epoch ≡ epoch
    pub allowed : (m.opts.protected ≡ false) ⊎ (protected_download_allowed local key m.disk ≡ true)

  -- The folder has tried to take the bytes: nothing but the folder changes, and its error is the result.
  abbrev pub Lands : Hashed → Mirror D → Result (Unit {0}) × D → Result Hashed × Mirror D → Type 0
  Lands h m (ok _, d) x = x ≡ (ok h, record m { disk = d })
  Lands h m (err e, d) x = x ≡ (err e, record m { disk = d })

  -- The whole of what becomes of an answer of the hub, in the state that the request leaves.
  abbrev pub IsKept : Result Hashed → Mirror D → Result Hashed × Mirror D → Type 0
  IsKept (err e) m x = x ≡ (err e, m)
  IsKept (ok h) m x =
      (IsUntouched m × Lands h m (local.land key h m.disk) x)
      ⊎ ((¬ (IsUntouched m)) × (x ≡ (err (local_changed key), m)))

  may_land-IsUntouched :
      (m : Mirror D) → may_land local client key epoch stamp expected m ≡ true → IsUntouched m
  unfolding may_land is_stale
  may_land-IsUntouched m may = record {
    entry = ground arith;
    closed = ground arith;
    unmoved = ground arith;
    file = ground arith;
    directories = ground (arith, nat_beq_iff m.directory_epoch epoch);
    allowed = elim (Bool-cases m.opts.protected) [
      | inl protected ↦ inr (ground arith)
      | inr free ↦ inl free
    ];
  }

  IsUntouched-may_land :
      (m : Mirror D) → IsUntouched m → may_land local client key epoch stamp expected m ≡ true
  unfolding may_land is_stale
  IsUntouched-may_land m u = elim u.allowed [
    | inl free ↦
        ground (arith, nat_beq_iff m.directory_epoch epoch, u.entry, u.closed, u.unmoved, u.file)
    | inr allowed ↦
        ground (arith, nat_beq_iff m.directory_epoch epoch, u.entry, u.closed, u.unmoved, u.file)
  ]

  lands :
      (h : Hashed) (m : Mirror D)
      → Lands h m (local.land key h m.disk) ((on_disk (local.land key h) >> pure h) m)
  unfolding on_disk pure
  lands h m = go (local.land key h m.disk)
    where
      go :
          (x : Result (Unit {0}) × D)
          → Lands h m x (elim x.0 as (λ _. Result Hashed × Mirror D) [
            | ok _ ↦ (ok h, record m { disk = x.1 })
            | err e ↦ (err e, record m { disk = x.1 })
          ])
      go (ok u, d) = refl
      go (err failure, d) = refl

  land_fetched-IsKept :
      (h : Hashed) (m : Mirror D)
      → IsKept (ok h) m (land_fetched local client key expected epoch stamp h m)
  unfolding land_fetched
  land_fetched-IsKept h m = elim (Bool-cases (may_land local client key epoch stamp expected m)) [
    | inl may ↦ inl (may_land-IsUntouched m may, rw (may, land_fetched) (lands h m))
    | inr stale ↦ inr (
      λ u. absurd (ground (arith, stale, IsUntouched-may_land m u)),
      rw (stale, land_fetched) refl,
    )
  ]

  -- When a download is complete, whatever other threads did while it ran, either nothing of what the
  -- engine decided on has changed: the entry, the file in the folder, the handles, the queued moves and
  -- the directory epoch, and protected mode allows it; then the folder takes the bytes, and the result is
  -- the folder's. Or something of it has changed: then the folder and everything else is left as it is,
  -- and the result says so. A download that fails changes nothing but what the request itself does.
  pub fetch-LandsUntouched :
      (r : RemoteStat) (m : Mirror D)
      → IsKept
          (client.download key r.sha256 r.mtime m).0
          (client.download key r.sha256 r.mtime m).1
          (fetch local client key r expected epoch stamp m)
  unfolding fetch
  fetch-LandsUntouched r m = go (client.download key r.sha256 r.mtime m)
    where
      go :
          (x : Result Hashed × Mirror D)
          → IsKept x.0 x.1 (elim x.0 as (λ _. Result Hashed × Mirror D) [
            | ok a ↦ land_fetched local client key expected epoch stamp a x.1
            | err e ↦ (err e, x.1)
          ])
      go (ok h, m') = land_fetched-IsKept h m'
      go (err e, m') = refl
