-- ===== src/Engine/Cycle.antt =====
-- The cycle of the engine (src/mirror/sync.rs): the listing, the change feed, one pass, its outcome,
-- and the loop over the messages. A loop that ends when the hub says so runs for a number of rounds;
-- `none` says that the rounds did not do.
pub mod Ends
pub mod Follows
pub mod Since
use canvas_fuse.Prelude.{
  ℕ, zero, suc, ◌+◌, ◌*◌, ◌-◌, Bool, true, false, ◌&&◌, ◌||◌, not, Option, none, some, List, [],
  ◌∷◌, ◌++◌, map, Text, codes, text_eq, nat_eq, option_eq, ◌==◌, is_some, is_some_and, any,
  contains, put, length, ltb, max, get_or, if◌then◌else◌,
}
use canvas_fuse.Prelude.Table.{Table, lookup, insert}
use canvas_fuse.Paths.{under, normalize_key}
use canvas_fuse.Hub.{
  RemoteStat, ListedObject, Listing, Changes, Change, Result, ok, err, HubError, cursor_too_old,
  offline, unauthorized, unsafe_mirror, is_offline,
}
use canvas_fuse.Local.{Local}
use canvas_fuse.Store.{Store, Entry, Base, Trashed}
use canvas_fuse.Store.Ledger.{
  cursor, set_cursor, set_number, head_key, get_meta, set_meta, remove_meta, listed_key,
  recheck_key, remove_trashed,
}
use canvas_fuse.Mirror.{Mirror, SyncState, idle, syncing, paused, Op, on_store, block_action}
use canvas_fuse.Mirror.Moves.{Devices, recover_directory_moves}
use canvas_fuse.Mirror.Recover.{recover_jobs}
use canvas_fuse.Engine.{Client}
use canvas_fuse.Engine.Scan.{scan_local, process_local_events}
use canvas_fuse.Engine.Reconcile.{reconcile_key, recheck_deferred}
use canvas_fuse.Engine.Run.{drain_jobs, refresh_key}
use canvas_fuse.Engine.Feed.{Feed, apply_change, prepare_listing_directories, refresh_hub_rules}

abbrev pub changes_page : ℕ
changes_page = 1000

abbrev pub full_pass_every : ℕ
full_pass_every = 3600000

abbrev pub trash_ttl_ms : ℕ
trash_ttl_ms = 30 * 24 * 3600 * 1000

-- An operation that may run out of rounds.
abbrev pub Run : Type 0 → Type 0 → Type 0
Run D A = Mirror D → Option (Result A × Mirror D)

infixl 10 ◌>>=◌ ◌>>◌
abbrev pub ◌>>=◌ : {D A B : Type 0} → Run D A → (A → Run D B) → Run D B
◌>>=◌ f k m = elim (f m) [
  | none ↦ none
  | some (r, m') ↦ elim r [ ok a ↦ k a m' | err e ↦ some (err e, m') ]
]

abbrev pub ◌>>◌ : {D B : Type 0} → Run D (Unit {0}) → Run D B → Run D B
f >> k = f >>= λ _. k

abbrev pub run : {D A : Type 0} → Op D A → Run D A
run f m = some (f m)

abbrev pub change : {D : Type 0} → (Mirror D → Mirror D) → Run D (Unit {0})
change f m = some (ok tt, f m)

-- The objects of a page, under normal keys.
unfoldable pub add_objects : (Text → Text) → List ListedObject → Table RemoteStat → Table RemoteStat
add_objects nfc [] t = t
add_objects nfc (o ∷ os) t = add_objects nfc os (insert (normalize_key nfc o.key) o.stat t)

-- What the loop over the pages has gathered.
pub record Pages : Type 0 where
  pub remote : Table RemoteStat
  pub touched : List Text
  pub head : ℕ

-- The keys of three tables, each once.
unfoldable pub add_keys {ℓ} : {V : Type ℓ} → Table V → List Text → List Text
add_keys [] keys = keys
add_keys ((key, v) ∷ rows) keys = add_keys rows (put key keys)

-- `last.max(change.seq)`.
unfoldable pub last_of : ℕ → List Change → ℕ
last_of last [] = last
last_of last (c ∷ cs) = last_of (max last c.seq) cs

module _ {D : Type 0} where
  unfoldable pub needs_refresh : Mirror D → Bool
  needs_refresh m = get_meta refresh_key m.store == some (codes "1")

  -- The end of a listing pass: the feed is followed from the head of the listing.
  unfoldable pub finish_listing : ℕ → ℕ → Mirror D → Mirror D
  finish_listing head epoch m =
      let moved = not (m.directory_epoch == epoch) in
      on_store
        (λ s.
          set_meta refresh_key (if moved then codes "1" else codes "0")
            (set_meta listed_key (codes "1") (set_number head_key head (set_cursor head s))))
        m

  module _ (local : Local D) (client : Client D) (feed : Feed D)
      (sort : List Text → List Text) where
    abbrev drain : ℕ → Op D (List Text)
    drain budget = drain_jobs local client sort budget []

    abbrev step_page : Option Text → Pages → Listing → List Text → Mirror D → Pages
    step_page at pages page touched m = record {
      remote = add_objects m.externals.nfc page.objects pages.remote;
      touched = touched ++ pages.touched;
      head = if is_some at then pages.head else page.head;
    }

    -- What follows a page: the next one, if there is one.
    unfoldable pub settle_page :
        (Option Text → Pages → Run D Pages)
        → Option Text
        → Pages
        → Listing
        → List Text
        → Run D Pages
    settle_page rest at pages page touched m =
        let pages' = step_page at pages page touched m in
        elim page.cursor [ some c ↦ rest (some c) pages' m | none ↦ some (ok pages', m) ]

    -- The loop over the pages of the listing.
    unfoldable pub list_pages : ℕ → Option Text → Pages → Run D Pages
    list_pages zero at pages = λ m. none
    list_pages (suc rounds) at pages =
        let rest = list_pages rounds in
        run (feed.list_objects at) >>= λ page. run (drain 16) >>= settle_page rest at pages page

    -- A key that a job has touched since is left to the feed.
    unfoldable pub reconcile_one : Table RemoteStat → List Text → Text → Op D (Unit {0})
    reconcile_one remote touched key m =
        if any (λ path. under key path) touched
        then (ok tt, m)
        else reconcile_key local client key (lookup key remote) 0 m

    -- The loop over the keys of the listing and of the ledger.
    unfoldable pub reconcile_listed : Table RemoteStat → List Text → List Text → Run D (Unit {0})
    reconcile_listed remote touched [] = λ m. some (ok tt, m)
    reconcile_listed remote touched (key ∷ keys) = run (drain 16) >>= λ more.
        run (reconcile_one remote (more ++ touched) key)
        >> reconcile_listed remote (more ++ touched) keys

    -- Everything that the listing or the ledger names.
    unfoldable pub all_keys : Table RemoteStat → Mirror D → List Text
    all_keys remote m =
        sort (add_keys m.store.bases (add_keys m.store.entries (add_keys remote [])))

    -- The keys are those of the state in which the directories are there.
    unfoldable pub reconcile_all : Pages → Run D (Unit {0})
    reconcile_all pages m = reconcile_listed pages.remote pages.touched (all_keys pages.remote m) m

    unfoldable pub settle_listing : ℕ → Pages → Run D (Unit {0})
    settle_listing epoch pages =
        run (prepare_listing_directories local sort pages.remote pages.touched epoch)
        >> reconcile_all pages
        >> change (finish_listing pages.head epoch)

    unfoldable pub rebuild_from_listing : ℕ → Run D (Unit {0})
    rebuild_from_listing rounds m =
        let epoch = m.directory_epoch in
        (list_pages rounds none (record { remote = []; touched = []; head = 0 })
            >>= settle_listing epoch)
          m

    -- One change: `ok true` when a directory move calls for a listing instead.
    unfoldable pub apply_unless_moved : Change → Op D Bool
    apply_unless_moved c m =
        if needs_refresh m
        then (ok true, m)
        else let (r, m') = apply_change local client c m in
          elim r [ ok _ ↦ (ok false, m') | err e ↦ (err e, m') ]

    -- The changes of a page.
    unfoldable pub apply_changes : List Change → Run D Bool
    apply_changes [] = λ m. some (ok false, m)
    apply_changes (c ∷ cs) =
        let rest = apply_changes cs in
        run (drain 16) >>= λ _.
        run (apply_unless_moved c) >>= λ moved. if moved then (λ m. some (ok true, m)) else rest

    -- Where the feed is followed from after a page.
    unfoldable pub next_since : ℕ → Changes → ℕ
    next_since since page = elim page.changes [
      | [] ↦ max page.head since
      | _ ∷ _ ↦ last_of since page.changes
    ]

    -- `match self.hub.changes(since, CHANGES_PAGE)`: `none` when the log no longer goes back so far.
    unfoldable pub settle_changes : Result Changes → Mirror D → Result (Option Changes) × Mirror D
    settle_changes (ok page) m = (ok (some page), on_store (set_number head_key page.head) m)
    settle_changes (err (cursor_too_old oldest head)) m = (ok none, m)
    settle_changes (err e) m = (err e, m)

    unfoldable pub fetch_changes : ℕ → Op D (Option Changes)
    fetch_changes since m = let (r, m') = feed.changes since m in settle_changes r m'

    -- After the changes of a page: the cursor moves, and a full page is followed by the next.
    unfoldable pub settle_feed_page : (ℕ → Run D (Unit {0})) → ℕ → Changes → Run D (Unit {0})
    settle_feed_page rest since page m =
        let m' = on_store (set_cursor (next_since since page)) m in
        if ltb (length page.changes) changes_page
        then some (ok tt, m')
        else rest (next_since since page) m'

    -- `listing` is the number of rounds for a listing.
    unfoldable pub follow_page : ℕ → (ℕ → Run D (Unit {0})) → ℕ → Option Changes → Run D (Unit {0})
    follow_page listing rest since none = rebuild_from_listing listing
    follow_page listing rest since (some page) = apply_changes page.changes >>= λ stale.
        if stale then rebuild_from_listing listing else settle_feed_page rest since page

    -- The loop over the pages of the feed.
    unfoldable pub catch_up_from : ℕ → ℕ → ℕ → Run D (Unit {0})
    catch_up_from listing zero since = λ m. none
    catch_up_from listing (suc rounds) since =
        run (fetch_changes since) >>= follow_page listing (catch_up_from listing rounds) since

    unfoldable pub catch_up : ℕ → Run D (Unit {0})
    catch_up rounds m = catch_up_from rounds rounds (get_or (cursor m.store) 0) m
