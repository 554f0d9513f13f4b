-- ===== src/Mirror/Recover.antt =====
-- `recover_jobs` (src/mirror/sync.rs): dirty entries and tombstones that lost their job get one back.
pub mod Laws
use canvas_fuse.Prelude.{
  Bool, true, false, ◌||◌, not, Option, none, some, List, [], ◌∷◌, Text, is_some, is_some_and,
  contains, text_eq, if◌then◌else◌,
}
use canvas_fuse.Prelude.Table.{Table, lookup}
use canvas_fuse.Store.{
  Entry, EntryState, clean, dirty, tombstone, JobKind, push, delete, discovered, dedupe_id,
}
use canvas_fuse.Store.Queue
use canvas_fuse.Store.Queue.Order.{ids}
use canvas_fuse.Mirror.{Mirror, is_ignored}

module _ {D : Type 0} where
  -- Our version of the key is yet to be uploaded as a conflict.
  unfoldable pub awaits_upload : Mirror D → Text → Bool
  awaits_upload m key = is_some_and (lookup key m.store.conflicts) (λ c. not c.uploaded)

  -- `wanted`, or `continue`.
  unfoldable pub wanted : Mirror D → Text → Entry → Option JobKind
  wanted m key e =
      if is_ignored m key || is_some (lookup key m.skipped) then none else elim e.state [
        | clean ↦ none
        | dirty ↦ if awaits_upload m key then none else some (push key)
        | tombstone ↦ some (delete key none)
      ]

  -- `have` holds the identities that were pending before the loop.
  unfoldable pub recover_one : List Text → Option JobKind → Mirror D → Mirror D
  recover_one have none m = m
  recover_one have (some kind) m =
      if contains have (dedupe_id kind)
      then m
      else record m { store = (Queue.enqueue_with_priority m.now kind discovered m.store).1 }

  unfoldable pub recover_rows : List Text → Table Entry → Mirror D → Mirror D
  recover_rows have [] m = m
  recover_rows have ((key, e) ∷ rows) m =
      recover_rows have rows (recover_one have (wanted m key e) m)

  unfoldable pub recover_jobs : Mirror D → Mirror D
  recover_jobs m = recover_rows (ids m.store.jobs) m.store.entries m
