-- ===== src/Reconcile.antt =====
-- The three-way decision per key (src/mirror/reconcile.rs): the digests of the local bytes, of the
-- last version agreed with the hub and of what the hub has now, and the action to take.
pub mod Table
pub mod Edits
use canvas_fuse.Prelude.{Bool, true, false, Option, none, some, Text, text_eq, option_eq, ◌==◌, not}

pub data Action : Type 0 where
  nothing : Action
  push : Option Text → Action  -- if_match
  delete_remote : Text → Action  -- if_match
  pull : Text → Action  -- sha256
  trash_local : Action
  adopt : Action
  conflict : Text → Action  -- remote

-- `match local` of the arm in which only the local side changed.
push_or_delete : Option Text → Option Text → Action
push_or_delete (some l) base = push base
push_or_delete none (some b) = delete_remote b
push_or_delete none none = nothing

-- `match remote` of the arm in which only the hub changed.
pull_or_trash : Option Text → Option Text → Action
pull_or_trash local (some r) = pull r
pull_or_trash (some l) none = trash_local
pull_or_trash none none = nothing

-- `match (local, remote)` of the arm in which both changed, differently.
both_differ : Option Text → Option Text → Action
both_differ none (some r) = pull r
both_differ (some l) none = push none
both_differ (some l) (some r) = conflict r
both_differ none none = adopt

-- `match (local_changed, remote_changed)`.
by_change : Bool → Bool → Option Text → Option Text → Option Text → Action
unfolding push_or_delete pull_or_trash both_differ
by_change false false local base remote = nothing
by_change true false local base remote = push_or_delete local base
by_change false true local base remote = pull_or_trash local remote
by_change true true local base remote = elim (local == remote) [
  | true ↦ adopt
  | false ↦ both_differ local remote
]

unfoldable pub decide : Option Text → Option Text → Option Text → Action
unfolding by_change
decide local base remote = by_change (not (local == base)) (not (remote == base)) local base remote
