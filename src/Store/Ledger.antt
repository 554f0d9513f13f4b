-- ===== src/Store/Ledger.antt =====
-- Entries, bases, named numbers and texts, the protected audit, conflicts, trash and explicit
-- directories (src/mirror/store.rs, `impl Store`).
use canvas_fuse.Prelude.{
  ℕ, Bool, true, false, ◌&&◌, not, Option, none, some, List, [], ◌∷◌, ◌++◌, Text, codes, text_eq,
  ◌==◌, is_some, is_some_and, any, retain, put, without, contains, strip_prefix, if◌then◌else◌,
}
use canvas_fuse.Prelude.Table.{Table, lookup, insert, remove}
use canvas_fuse.Paths.{slash}
use canvas_fuse.Protection.{BlockedAction, id, same_observation}
use canvas_fuse.Store.{Store, Entry, Base, Conflict, Trashed}

abbrev pub cursor_key : Text
cursor_key = codes "cursor"

abbrev pub head_key : Text
head_key = codes "head"

abbrev pub job_seq_key : Text
job_seq_key = codes "job_seq"

abbrev pub listed_key : Text
listed_key = codes "listed"

abbrev pub instance_key : Text
instance_key = codes "instance_id"

abbrev pub exclusions_key : Text
exclusions_key = codes "exclusions"

abbrev pub recheck_key : Text
recheck_key = codes "protected-recheck"

abbrev pub stamp_key : Text → Text
stamp_key key = codes "local-stamp:" ++ key

abbrev pub upload_key : Text → Text
upload_key key = codes "upload-pending:" ++ key

unfoldable pub put_entry : Text → Entry → Store → Store
put_entry key e s = record s { entries = insert key e s.entries }

unfoldable pub remove_entry : Text → Store → Store
remove_entry key s = record s {
  entries = remove key s.entries;
  meta = remove (stamp_key key) s.meta;
}

-- Entries whose key starts with `prefix`.
unfoldable pub entries_with : Text → Store → Table Entry
entries_with prefix s = retain (λ row. is_some (strip_prefix prefix row.0)) s.entries

unfoldable pub entries_under : Text → Store → Table Entry
unfolding entries_with
entries_under [] s = entries_with [] s
entries_under (c ∷ dir) s = entries_with ((c ∷ dir) ++ (slash ∷ [])) s

-- `if let Some(v) = v { t.remove(from); t.insert(to, v) }`
move_row {ℓ} : {V : Type ℓ} → Text → Text → Table V → Table V
move_row from to t = elim (lookup from t) [ none ↦ t | some v ↦ insert to v (remove from t) ]

unfoldable pub rekey : Text → Text → Store → Store
unfolding move_row
rekey from to s = record s {
  meta = remove (stamp_key to) (remove (stamp_key from) s.meta);
  entries = move_row from to s.entries;
  bases = move_row from to s.bases;
}

unfoldable pub put_base : Text → Base → Store → Store
put_base key b s = record s { bases = insert key b s.bases }

unfoldable pub remove_base : Text → Store → Store
remove_base key s = record s { bases = remove key s.bases }

unfoldable pub bases_with : Text → Store → Table Base
bases_with prefix s = retain (λ row. is_some (strip_prefix prefix row.0)) s.bases

unfoldable pub number : Text → Store → Option ℕ
number name s = lookup name s.numbers

unfoldable pub set_number : Text → ℕ → Store → Store
set_number name value s = record s { numbers = insert name value s.numbers }

unfoldable pub cursor : Store → Option ℕ
unfolding number
cursor s = number cursor_key s

unfoldable pub set_cursor : ℕ → Store → Store
unfolding set_number
set_cursor seq s = set_number cursor_key seq s

unfoldable pub clear_cursor : Store → Store
clear_cursor s = record s { numbers = remove cursor_key s.numbers }

unfoldable pub get_meta : Text → Store → Option Text
get_meta name s = lookup name s.meta

unfoldable pub set_meta : Text → Text → Store → Store
set_meta name value s = record s { meta = insert name value s.meta }

unfoldable pub remove_meta : Text → Store → Store
remove_meta name s = record s { meta = remove name s.meta }

-- Whether the observation is new or changed, and the store with it. `to_string` is the JSON
-- library's rendering of the identity of a record.
unfoldable pub record_blocked :
    (Text × Text × Option Text → Text) → BlockedAction → Store → Bool × Store
unfolding id same_observation
record_blocked to_string a s =
    let same = is_some_and (lookup (id to_string a) s.blocked) (λ p. same_observation p a) in
    if same && is_some (lookup recheck_key s.meta) then (false, s) else (
      not same,
      record s {
        blocked = insert (id to_string a) a s.blocked;
        meta = insert recheck_key (codes "1") s.meta;
      },
    )

unfoldable pub remove_blocked_for : Text → Store → Store
remove_blocked_for key s = record s { blocked = retain (λ row. not (row.1.key == key)) s.blocked }

unfoldable pub put_conflict : Conflict → Store → Store
put_conflict c s = record s { conflicts = insert c.key c s.conflicts }

unfoldable pub remove_conflict : Text → Store → Store
remove_conflict key s = record s { conflicts = remove key s.conflicts }

unfoldable pub put_trashed : Text → Trashed → Store → Store
put_trashed key t s = record s { trash = insert key t s.trash }

unfoldable pub remove_trashed : Text → Store → Store
remove_trashed key s = record s { trash = remove key s.trash }

unfoldable pub has_dir : Text → Store → Bool
has_dir key s = contains s.dirs key

unfoldable pub add_dir : Text → Store → Store
add_dir key s = record s { dirs = put key s.dirs }

unfoldable pub remove_dir : Text → Store → Store
remove_dir key s = record s { dirs = without key s.dirs }

-- The loop of `rekey_dirs` over the directories listed before it.
rekey_each : Text → Text → List Text → List Text → List Text
rekey_each from to [] dirs = dirs
rekey_each from to (d ∷ ds) dirs = rekey_each from to ds (
    if d == from then put to (without d dirs) else elim (strip_prefix (from ++ (slash ∷ [])) d) [
      | some rest ↦ put (to ++ (slash ∷ rest)) (without d dirs)
      | none ↦ dirs
    ])

unfoldable pub rekey_dirs : Text → Text → Store → Store
unfolding rekey_each
rekey_dirs from to s = record s { dirs = rekey_each from to s.dirs s.dirs }

unfoldable pub dir_has_children : Text → Store → Bool
unfolding entries_with
dir_has_children dir s =
    let prefix = dir ++ (slash ∷ []) in
    elim (entries_with prefix s) [
      | [] ↦ any (λ d. is_some (strip_prefix prefix d)) s.dirs
      | _ ∷ _ ↦ true
    ]

unfoldable pub clear_bases : Store → Store
clear_bases s = record s { bases = [] }
