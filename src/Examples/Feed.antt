-- ===== src/Examples/Feed.antt =====
-- The feed, the listing, the cycle and the moves at concrete inputs.
use canvas_fuse.Prelude.{
  ℕ, ◌≡◌, ◌≢◌, ◌≤◌, refl, ◌||◌, not, Bool, true, false, Option, none, some, List, [], ◌∷◌, Text,
  codes, arith, text_beq, is_some, ltb, length, ◌⊎◌, ◌<◌, ◌-◌, zero, suc, All, subst, ap,
}
use canvas_fuse.Prelude.Table.{lookup}
use canvas_fuse.Hub.{Listing, Changes, Change, ChangeOp, ok, err, other}
use canvas_fuse.Local
use canvas_fuse.Store.{Store, empty, Base, dirty, clean, rename, dedupe_id}
use canvas_fuse.Store.Ledger.{set_cursor, set_number, head_key}
use canvas_fuse.Store.Queue.Order.{IsQueue}
use canvas_fuse.Store.Queue.Pending.{pending}
use canvas_fuse.Mirror.{Mirror, on_store, is_ignored, is_open_for_write}
use canvas_fuse.Mirror.Moves.{Devices, rename_local, rename_dir_local}
use canvas_fuse.Mirror.Moves.Files.{rename_local-TellsHub}
use canvas_fuse.Mirror.Moves.Failed.{IsCancelled, rename_dir_local-IsCancelled}
use canvas_fuse.Engine.Feed.{Feed, is_agreed, apply_remote_rename}
use canvas_fuse.Engine.Feed.Renames.{apply_remote_rename-KeepsEdits}
use canvas_fuse.Engine.Cycle.{rebuild_from_listing, catch_up_from, changes_page, next_since}
use canvas_fuse.Engine.Cycle.Ends.{
  Ended, EndsListing, EndsFeed, rebuild_from_listing-Ended, catch_up_from-Ended,
}
use canvas_fuse.Engine.Cycle.Follows.{IsFollowed, catch_up_from-IsFollowed}
use canvas_fuse.Engine.Pass.{
  EngineMsg, wake, reconnect, sync_now, round, cycle, is_due, housekeeping,
}
use canvas_fuse.Engine.Pass.Answers.{waiting, asks_full, stops, reconnected, round-Answers}
use canvas_fuse.Engine.Pass.Protected.{NothingLost, housekeeping-NothingLost}
use canvas_fuse.Examples.{Files, a, b, bytes, folder, hub, mirror, entry_of}

-- A listing of two pages, and a feed without changes.
abbrev page_of : Option Text → Listing
page_of none = record { objects = []; cursor = some bytes; head = 7 }
page_of (some at) = record { objects = []; cursor = none; head = 7 }

abbrev quiet : Changes
quiet = record { changes = []; head = 7; oldest = 0 }

abbrev feed : Feed Files
feed = record {
  list_objects = λ at m. (ok (page_of at), m);
  changes = λ since m. (ok quiet, m);
  instance_id = λ m. (ok none, m);
  exclusions = λ m. (ok [], m);
  report_status = λ m. (ok 7, m);
}

abbrev sort : List Text → List Text
sort keys = keys

abbrev pages_left : Option Text → ℕ
pages_left none = 1
pages_left (some at) = 0

feed-EndsListing : EndsListing folder hub feed sort pages_left
feed-EndsListing none m m' page c got next = omega arith
feed-EndsListing (some at) m m' page c got next = absurd (ground (arith, got, next))

rebuild_from_listing-Ended_example :
    Ended (rebuild_from_listing folder hub feed sort 2 (mirror false empty))
rebuild_from_listing-Ended_example =
    rebuild_from_listing-Ended folder hub feed sort pages_left feed-EndsListing 2
      (mirror false empty) (omega arith)

-- A feed whose first page is full.
abbrev a_change : Change
a_change = record { seq = 5; op = ChangeOp.put; key = a; from = none; sha256 = some bytes }

abbrev copies : ℕ → Change → List Change
copies zero c = []
copies (suc n) c = c ∷ copies n c

length-copies : (n : ℕ) (c : Change) → length (copies n c) ≡ n
length-copies zero c = refl
length-copies (suc n) c = omega (arith, length-copies n c)

copies-All : (n : ℕ) → All (λ (c : Change). (0 < c.seq) × (c.seq ≤ 7)) (copies n a_change)
copies-All zero = tt
copies-All (suc n) = ((omega arith, omega arith), copies-All n)

abbrev a_thousand : List Change
a_thousand = copies 1000 a_change

abbrev busy_page : ℕ → Changes
busy_page zero = record { changes = a_thousand; head = 7; oldest = 0 }
busy_page (suc since) = quiet

abbrev busy_feed : Feed Files
busy_feed = record feed { changes = λ since m. (ok (busy_page since), m) }

-- The first page is full, so that a second one is asked for.
busy_page-IsFull : ltb (length (busy_page 0).changes) changes_page ≡ false
busy_page-IsFull = ap (λ n. ltb n changes_page) (length-copies 1000 a_change)

busy_page-EndsFeed :
    (since : ℕ) → All (λ (c : Change). (since < c.seq) × (c.seq ≤ 7)) (busy_page since).changes
busy_page-EndsFeed zero = copies-All 1000
busy_page-EndsFeed (suc since) = tt

busy_feed-EndsFeed : EndsFeed folder hub busy_feed sort 7
busy_feed-EndsFeed since m m' page got =
    let same : busy_page since ≡ page = cc in
    subst (λ (p : Changes). All (λ (c : Change). (since < c.seq) × (c.seq ≤ 7)) p.changes) same
      (busy_page-EndsFeed since)

busy_feed-EndsListing : EndsListing folder hub busy_feed sort pages_left
busy_feed-EndsListing none m m' page c got next = omega arith
busy_feed-EndsListing (some at) m m' page c got next = absurd (ground (arith, got, next))

catch_up_from-Ended_example :
    Ended (catch_up_from folder hub busy_feed sort 2 8 0 (mirror false empty))
catch_up_from-Ended_example =
    catch_up_from-Ended folder hub busy_feed sort pages_left busy_feed-EndsListing 2 (omega arith) 7
      busy_feed-EndsFeed 8 0 (mirror false empty) (omega arith)

-- The state after the empty page.
abbrev caught_up : Mirror Files
caught_up = on_store (set_cursor 7) (on_store (set_number head_key 7) (mirror false empty))

feed-followed :
    catch_up_from folder hub feed sort 2 8 0 (mirror false empty) ≡ some (ok tt, caught_up)
unfolding catch_up_from canvas_fuse.Engine.Cycle.fetch_changes
    canvas_fuse.Engine.Cycle.settle_changes canvas_fuse.Engine.Cycle.follow_page
    canvas_fuse.Engine.Cycle.apply_changes canvas_fuse.Engine.Cycle.settle_feed_page next_since
feed-followed = refl

catch_up_from-IsFollowed_example : IsFollowed folder hub feed sort 2 0 caught_up
catch_up_from-IsFollowed_example =
    catch_up_from-IsFollowed folder hub feed sort 2 8 0 (mirror false empty) caught_up tt
      feed-followed

-- An edited file whose name changes at the hub.
abbrev edited : Mirror Files
edited = mirror false (record empty { entries = (a, entry_of dirty) ∷ [] })

edited-there : lookup a edited.store.entries ≡ some (entry_of dirty)
unfolding lookup text_beq
edited-there = refl

edited-differs :
    (not (is_agreed (entry_of dirty) (lookup a edited.store.bases)) || is_open_for_write edited a)
    ≡ true
unfolding is_agreed lookup
edited-differs = refl

apply_remote_rename-KeepsEdits_example :
    ((apply_remote_rename folder a b 3 edited).disk ≡ edited.disk)
    × ((apply_remote_rename folder a b 3 edited).store.entries ≡ edited.store.entries)
apply_remote_rename-KeepsEdits_example =
    apply_remote_rename-KeepsEdits folder a b 3 (entry_of dirty) edited edited-there edited-differs

abbrev devices : Devices
devices = record { marked = 1; current = 1 }

abbrev burst : List EngineMsg
burst = wake ∷ sync_now (some 5) ∷ reconnect ∷ []

round-Answers_example :
    ((stops burst ≡ true)
      × (round folder hub feed devices sort 2 burst (mirror false empty) ≡ some none))
    ⊎ ((stops burst ≡ false)
        × (round folder hub feed devices sort 2 burst (mirror false empty)
            ≡ (elim (cycle folder hub feed devices sort 2
                (asks_full burst || is_due (reconnected burst (mirror false empty)))
                (reconnected burst (mirror false empty))) [
                  | none ↦ none
                  | some m' ↦ some (some (waiting burst, m'))
                ])))
round-Answers_example = round-Answers folder hub feed devices sort 2 burst (mirror false empty)

-- An old copy in the trash of a protected mirror.
abbrev trashed : Mirror Files
trashed =
    record (mirror true
      (record empty { trash = (a, record { sha256 = bytes; size = 1; ts = 0 }) ∷ [] })) {
        now = 3000000000;
      }

housekeeping-NothingLost_example : NothingLost trashed (housekeeping folder trashed)
housekeeping-NothingLost_example = housekeeping-NothingLost folder trashed refl

-- A file that the hub knows.
abbrev agreed : Base
agreed = record { sha256 = bytes; size = 1; mtime = 5; remote_seq = 1 }

abbrev known : Mirror Files
known =
    record (mirror false
      (record empty { entries = (a, entry_of clean) ∷ []; bases = (a, agreed) ∷ [] })) {
        disk = a ∷ [];
      }

known-IsQueue : IsQueue known.store
known-IsQueue = record { ascending = tt; handed_out = tt; distinct = tt }

apart : text_beq a b ≡ false
unfolding text_beq
apart = refl

b-free : lookup b known.store.entries ≡ none
unfolding lookup text_beq
b-free = refl

b-fresh : lookup b known.store.bases ≡ none
unfolding lookup text_beq
b-fresh = refl

a-known : is_some (lookup a known.store.bases) ≡ true
unfolding lookup text_beq
a-known = refl

a-kept : is_ignored known a ≡ false
unfolding is_ignored canvas_fuse.Paths.is_ignored
a-kept = refl

b-kept : is_ignored known b ≡ false
unfolding is_ignored canvas_fuse.Paths.is_ignored
b-kept = refl

rename_local-TellsHub_example :
    ((rename_local folder a b known).0 ≡ ok tt)
    × (lookup b (rename_local folder a b known).1.store.entries ≡ lookup a known.store.entries)
    × (lookup a (rename_local folder a b known).1.store.entries ≡ none)
    × (lookup b (rename_local folder a b known).1.store.bases ≡ lookup a known.store.bases)
    × (pending (dedupe_id (rename a b)) (rename_local folder a b known).1.store ≡ true)
rename_local-TellsHub_example =
    rename_local-TellsHub folder a b known _ known-IsQueue apart b-free b-fresh a-known a-kept
      b-kept refl

-- A folder with the directory, which it cannot move.
abbrev stuck : Local.Local Files
stuck = record folder {
  metadata = λ key d. some (1, 2);
  own_directory = λ key d. some (1, 2);
  directory_identity = λ key d. some bytes;
  rename = λ from to d. (err other, d);
}

abbrev notes : Text
notes = codes "notes"

abbrev docs : Text
docs = codes "docs"

failed : (rename_dir_local stuck devices notes docs (some bytes) known).0 ≡ err other
unfolding rename_dir_local text_beq canvas_fuse.Mirror.Moves.may_move canvas_fuse.Paths.overlaps
    canvas_fuse.Prelude.strip_prefix canvas_fuse.Store.Ledger.dir_has_children
    canvas_fuse.Prelude.retain lookup canvas_fuse.Mirror.Moves.is_local_only is_ignored
    canvas_fuse.Paths.is_ignored canvas_fuse.Store.Ledger.bases_with
    canvas_fuse.Mirror.Moves.excludes_synced canvas_fuse.Store.Move.mapped
    canvas_fuse.Mirror.Moves.move_intent canvas_fuse.Mirror.Moves.run_move
    canvas_fuse.Store.Queue.job_at canvas_fuse.Store.Queue.enqueue
    canvas_fuse.Store.Queue.enqueue_with_priority canvas_fuse.Store.Queue.insert_job
    canvas_fuse.Store.Queue.last_seq canvas_fuse.Mirror.Moves.finish_directory_move
    canvas_fuse.Mirror.Moves.is_original canvas_fuse.Mirror.Moves.move_on_disk
    canvas_fuse.Mirror.Writes.on_disk canvas_fuse.Mirror.Moves.settle_move
    canvas_fuse.Mirror.Moves.commit_if_moved
failed = refl

rename_dir_local-IsCancelled_example :
    IsCancelled stuck notes known (rename_dir_local stuck devices notes docs (some bytes) known).1
rename_dir_local-IsCancelled_example =
    rename_dir_local-IsCancelled stuck devices notes docs (some bytes) known other known-IsQueue
      failed
