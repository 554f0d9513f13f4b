-- ===== src/Examples/Engine.antt =====
-- The engine thread at concrete inputs.
use canvas_fuse.Prelude.{
  any, is_empty, ◌||◌, ℕ, ◌≤◌, ◌+◌, ◌⊎◌, ◌≡◌, refl, Bool, true, false, ◌||◌, ◌&&◌, Option, none,
  some, List, [], ◌∷◌, Text, codes, arith, inl, inr, ap, contains, without, text_eq,
}
use canvas_fuse.Prelude.Table.{lookup}
use canvas_fuse.Hub.{ok, err, RemoteStat, PutResult, offline, retryable}
use canvas_fuse.Store
use canvas_fuse.Store.{
  Store, empty, Entry, dirty, clean, Job, JobKind, key_of, interactive, background, Base, tombstone,
}
use canvas_fuse.Mirror.{
  Mirror, ◌>>◌, protect_job, pending_directory_move, is_open_for_write, is_ignored,
}
use canvas_fuse.Engine.Select.{select, held_back}
use canvas_fuse.Engine.Select.Laws.{In, IsFirst, select-IsReady, select-IsExhaustive}
use canvas_fuse.Engine.Pull.{fetch}
use canvas_fuse.Engine.Pull.Landing.{IsKept, fetch-LandsUntouched}
use canvas_fuse.Engine.Reconcile.{renames, decided, do_trash, reconcile_key, recheck_deferred}
use canvas_fuse.Engine.Reconcile.Protected.{KeepsBytes, is_pull, reconcile_key-KeepsBytes}
use canvas_fuse.Engine.Reconcile.Trashed.{IsTrashed, do_trash-KeepsBytes}
use canvas_fuse.Engine.Reconcile.Absent.{reconcile_key-Resurrects}
use canvas_fuse.Engine.Reconcile.Deferred.{AllHeld, is_put_off, recheck_deferred-Loses}
use canvas_fuse.Engine.Requests.{base_sha, note_pushed}
use canvas_fuse.Engine.Run.{run_job, waits_for_move, is_unchanged, run_current}
use canvas_fuse.Engine.Run.Outcome.{Settles, run_current-KeepsWork, note_pushed-IsHonest}
use canvas_fuse.Engine.{Client}
use canvas_fuse.Examples.{
  Files, a, b, bytes, hashed, folder, hub, unreachable, mirror, entry_of, job_of,
}

-- A push that waits for an older, less urgent rename to the same name.
abbrev earlier : Job
earlier = job_of 1 background (JobKind.rename b a)

abbrev urgent : Job
urgent = job_of 2 interactive (JobKind.push a)

abbrev busy : Mirror Files
busy = mirror false (record empty { jobs = earlier ∷ urgent ∷ [] })

busy-selects : select busy ≡ some earlier
unfolding select canvas_fuse.Engine.Select.select_from canvas_fuse.Engine.Select.sort_jobs
    canvas_fuse.Engine.Select.place held_back canvas_fuse.Engine.Select.inherit
    canvas_fuse.Engine.Select.inherit_from canvas_fuse.Engine.Select.prior
    canvas_fuse.Engine.Select.earliest canvas_fuse.Prelude.retain canvas_fuse.Engine.Select.before
    canvas_fuse.Engine.Select.jobs_overlap Store.keys_of canvas_fuse.Paths.overlaps
    canvas_fuse.Prelude.text_beq canvas_fuse.Prelude.strip_prefix is_open_for_write
    canvas_fuse.Paths.starts_with canvas_fuse.Paths.under contains key_of
busy-selects = refl

select-IsReady_example :
    In earlier busy.store.jobs × (held_back busy earlier ≡ false) × IsFirst busy.store.jobs earlier
select-IsReady_example = select-IsReady busy earlier busy-selects

-- The only job is not due.
abbrev waiting : Job
waiting = record urgent { not_before = 2000 }

abbrev idle : Mirror Files
idle = mirror false (record empty { jobs = waiting ∷ [] })

idle-selects : select idle ≡ none
unfolding select canvas_fuse.Engine.Select.select_from canvas_fuse.Engine.Select.sort_jobs
    canvas_fuse.Engine.Select.place held_back canvas_fuse.Engine.Select.inherit
    canvas_fuse.Engine.Select.inherit_from canvas_fuse.Engine.Select.prior
    canvas_fuse.Engine.Select.earliest canvas_fuse.Prelude.retain
idle-selects = refl

select-IsExhaustive_example : held_back idle waiting ≡ true
select-IsExhaustive_example =
    select-IsExhaustive idle waiting idle-selects (inl refl) (λ i there before. elim there [
      | inl same ↦ absurd (omega (arith, before, ap (λ (j : Job). j.seq) same))
      | inr none_left ↦ elim none_left [ ]
    ])

-- A folder waits to be made, and the hub is busy.
abbrev overloaded : Client Files
overloaded = record hub { mkdir = λ key m. (err (retryable 503), m) }

abbrev making : Job
making = job_of 2 interactive (JobKind.mkdir a)

abbrev to_make : Mirror Files
to_make = mirror false (record empty { jobs = making ∷ [] })

making-fails :
    (protect_job making >> run_job folder overloaded (JobKind.mkdir a)) to_make
    ≡ (err (retryable 503), to_make)
unfolding protect_job run_job canvas_fuse.Engine.Run.run_mkdir
making-fails = refl

making-waits : waits_for_move making to_make ≡ false
unfolding waits_for_move
making-waits = refl

making-same : is_unchanged making to_make ≡ true
unfolding is_unchanged canvas_fuse.Engine.Run.kind_beq canvas_fuse.Prelude.text_beq
making-same = refl

run_current-KeepsWork_example :
    Settles making (retryable 503) to_make (run_current folder overloaded making to_make)
run_current-KeepsWork_example =
    run_current-KeepsWork folder overloaded making (retryable 503) to_make to_make making-waits
      making-fails making-same

-- The hub has an object that is not here.
abbrev remote : RemoteStat
remote = record { sha256 = bytes; size = 1; mtime = 5 }

fetch-LandsUntouched_example :
    IsKept folder hub a none 0 none
      (ok hashed)
      (mirror false empty)
      (fetch folder hub a remote none 0 none (mirror false empty))
fetch-LandsUntouched_example =
    fetch-LandsUntouched folder hub a none 0 none remote (mirror false empty)

abbrev agreed : Base
agreed = record { sha256 = bytes; size = 1; mtime = 5; remote_seq = 1 }

-- A file that the hub has deleted, and that nobody has changed here.
abbrev deleted : Bool → Mirror Files
deleted protected =
    record (mirror protected
      (record empty { entries = (a, entry_of clean) ∷ []; bases = (a, agreed) ∷ [] })) {
        disk = a ∷ [];
      }

trash_decided : is_pull (decided folder a none (deleted true)) ≡ false
unfolding decided canvas_fuse.Reconcile.decide canvas_fuse.Engine.Scan.live lookup
    canvas_fuse.Prelude.text_beq
trash_decided = refl

reconcile_key-KeepsBytes_example :
    KeepsBytes (deleted true) (reconcile_key folder hub a none 2 (deleted true)).1
reconcile_key-KeepsBytes_example =
    reconcile_key-KeepsBytes folder hub a none 2 (deleted true) refl trash_decided

entry_there : lookup a (deleted false).store.entries ≡ some (entry_of clean)
unfolding lookup canvas_fuse.Prelude.text_beq
entry_there = refl

do_trash-KeepsBytes_example :
    ((do_trash folder a (deleted false)).0 ≡ ok tt)
    × ((do_trash folder a (deleted false)).1.disk ≡ without a (a ∷ []))
    × IsTrashed a (entry_of clean) (deleted false) (do_trash folder a (deleted false)).1
do_trash-KeepsBytes_example =
    do_trash-KeepsBytes folder a (entry_of clean) (deleted false) entry_there

-- Three keys were put off, the first is still open, and the hub is gone.
abbrev c : Text
c = codes "notes/c.txt"

abbrev deferred : Mirror Files
deferred = record (mirror false empty) { recheck = b ∷ a ∷ c ∷ []; open_writes = b ∷ [] }

b_held : AllHeld deferred (b ∷ [])
unfolding pending_directory_move is_open_for_write contains canvas_fuse.Prelude.text_beq
b_held = (refl, tt)

no_move : pending_directory_move deferred a ≡ false
unfolding pending_directory_move
no_move = refl

no_handle : is_open_for_write deferred a ≡ false
unfolding is_open_for_write contains canvas_fuse.Prelude.text_beq
no_handle = refl

recheck_deferred-Loses_example :
    ((recheck_deferred folder unreachable deferred).0 ≡ err offline)
    × ((k : Text)
        → contains (recheck_deferred folder unreachable deferred).1.recheck k
          ≡ (contains (b ∷ []) k && is_put_off deferred k))
recheck_deferred-Loses_example =
    recheck_deferred-Loses folder unreachable a (c ∷ []) offline (λ m. refl) (b ∷ []) deferred refl
      b_held no_move no_handle

-- The upload of a dirty file.
abbrev uploading : Mirror Files
uploading = mirror false (record empty { entries = (a, entry_of dirty) ∷ [] })

abbrev answer : PutResult
answer = record { sha256 = bytes; mtime = 5; seq = 1; doc_id = none }

marked :
    lookup a (note_pushed a a (entry_of dirty) answer uploading).store.entries
    ≡ some (entry_of clean)
unfolding note_pushed canvas_fuse.Engine.Requests.mark_clean canvas_fuse.Mirror.on_store
    canvas_fuse.Store.Ledger.put_base canvas_fuse.Store.Ledger.put_entry
    canvas_fuse.Store.Ledger.remove_meta canvas_fuse.Prelude.Table.insert lookup
    canvas_fuse.Prelude.text_beq is_open_for_write contains
marked = refl

note_pushed-IsHonest_example :
    (lookup a uploading.store.entries ≡ some (entry_of clean))
    ⊎ (base_sha a (note_pushed a a (entry_of dirty) answer uploading) ≡ some bytes)
note_pushed-IsHonest_example =
    note_pushed-IsHonest uploading a a (entry_of dirty) (entry_of clean) answer marked refl

-- A file that was deleted here, and that the hub has deleted too.
abbrev erased : Mirror Files
erased =
    mirror false (record empty { entries = (a, entry_of tombstone) ∷ []; bases = (a, agreed) ∷ [] })

erased_entry : lookup a erased.store.entries ≡ some (entry_of tombstone)
unfolding lookup canvas_fuse.Prelude.text_beq
erased_entry = refl

erased_base : lookup a erased.store.bases ≡ some agreed
unfolding lookup canvas_fuse.Prelude.text_beq
erased_base = refl

erased_live : (is_empty a || (is_ignored erased a || pending_directory_move erased a)) ≡ false
unfolding is_ignored pending_directory_move canvas_fuse.Paths.is_ignored
erased_live = refl

erased_idle : (is_open_for_write erased a || any (λ j. renames a j.kind) erased.store.jobs) ≡ false
unfolding is_open_for_write contains
erased_idle = refl

reconcile_key-Resurrects_example :
    lookup a (reconcile_key folder hub a none 2 erased).1.store.entries ≡ some (entry_of clean)
reconcile_key-Resurrects_example =
    reconcile_key-Resurrects folder hub a (entry_of tombstone) agreed erased 2 erased_entry refl
      erased_base erased_live erased_idle
