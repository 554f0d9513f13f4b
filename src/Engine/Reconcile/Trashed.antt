-- ===== src/Engine/Reconcile/Trashed.antt =====
-- The file that the hub has deleted goes to the trash (src/mirror/sync.rs, `reconcile_key`).
use canvas_fuse.Prelude.{
  ◌≡◌, refl, false, not, none, some, any, retain, List, [], ◌∷◌, Text, text_eq, ◌==◌, text_beq_refl,
  arith,
}
use canvas_fuse.Prelude.Table.{lookup, lookup-insert, lookup-remove}
use canvas_fuse.Hub.{Result, ok, err, other}
use canvas_fuse.Local.{Local}
use canvas_fuse.Store.{Entry, Job, key_of}
use canvas_fuse.Store.Queue
use canvas_fuse.Store.Ledger.{remove_base, remove_entry, put_trashed}
use canvas_fuse.Mirror.{Mirror, on_store, show}
use canvas_fuse.Mirror.Writes.{on_disk}
use canvas_fuse.Engine.Reconcile.{settle_trash, forget, do_trash}

none_left :
    (key : Text) (js : List Job)
    → any (λ j. key_of j.kind == key) (retain (λ j. not (key_of j.kind == key)) js) ≡ false
unfolding retain
none_left key [] = refl
none_left key (j ∷ js) = ground (arith, none_left key js)

module _ {D : Type 0} where
  -- The deletion of a file is done: the store has the trashed copy, with the digest and the size of its
  -- entry, and neither an entry nor a base nor a job of the key is left.
  pub record IsTrashed (key : Text) (e : Entry) (m m' : Mirror D) : Type 0 where
    pub kept :
        lookup key m'.store.trash ≡ some (record { sha256 = e.sha256; size = e.size; ts = m.now })
    pub entry : lookup key m'.store.entries ≡ none
    pub base : lookup key m'.store.bases ≡ none
    pub jobs : any (λ j. key_of j.kind == key) m'.store.jobs ≡ false

  -- By the answer of the folder, which was asked to move the bytes to its trash.
  abbrev pub Trashes :
      Text → Entry → Mirror D → Result (Unit {0}) × D → Result (Unit {0}) × Mirror D → Type 0
  Trashes key e m (ok _, d) x = (x.0 ≡ ok tt) × (x.1.disk ≡ d) × IsTrashed key e m x.1
  Trashes key e m (err _, d) x = x ≡ (err other, record m { disk = d })

  settle_trash-Trashes :
      (local : Local D) (key : Text) (e : Entry) (m : Mirror D) (x : Result (Unit {0}) × D)
      → Trashes key e m x (settle_trash local key e x.0 (record m { disk = x.1 }))
  unfolding settle_trash forget on_store show put_trashed remove_base remove_entry
      Queue.remove_jobs_for
  settle_trash-Trashes local key e m (err _, d) = refl
  settle_trash-Trashes local key e m (ok _, d) = (
    refl,
    refl,
    record {
      kept = rw lookup-insert (rw text_beq_refl refl);
      entry = rw lookup-remove (rw text_beq_refl refl);
      base = rw lookup-remove (rw text_beq_refl refl);
      jobs = none_left key m.store.jobs;
    },
  )

  -- Where the hub's deletion reaches a file with an entry, its bytes are kept: if the folder moves them
  -- to its trash, then the store has the trashed copy, with the digest and the size of the entry, and
  -- forgets the entry, the base and the jobs of the key; if the folder cannot move them, then the result
  -- is an error, and the store forgets nothing and records nothing as trashed.
  pub do_trash-KeepsBytes :
      (local : Local D) (key : Text) (e : Entry) (m : Mirror D)
      → lookup key m.store.entries ≡ some e
      → Trashes key e m (local.trash_put key m.disk) (do_trash local key m)
  unfolding do_trash on_disk
  do_trash-KeepsBytes local key e m there =
      rw (there, do_trash) (settle_trash-Trashes local key e m (local.trash_put key m.disk))
