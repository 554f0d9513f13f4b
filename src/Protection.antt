-- ===== src/Protection.antt =====
-- The audit of actions that protected mode suppresses, and the report of a recovery push or pull
-- (src/mirror/protection.rs).
use canvas_fuse.Prelude.{
  ℕ, ◌+◌, Bool, ◌&&◌, Option, List, [], ◌∷◌, ◌++◌, Text, codes, text_eq, option_eq, ◌==◌,
  if◌then◌else◌,
}

pub record BlockedAction : Type 0 where
  pub action : Text
  pub key : Text
  pub destination : Option Text
  pub local_sha256 : Option Text
  pub remote_sha256 : Option Text
  pub observed_at : ℕ

-- `to_string` is the JSON library's, of a tuple of texts.
unfoldable pub id : (Text × Text × Option Text → Text) → BlockedAction → Text
id to_string a = to_string (a.action, a.key, a.destination)

unfoldable pub same_observation : BlockedAction → BlockedAction → Bool
same_observation a b =
    a.action == b.action
    && (a.key == b.key
        && (a.destination == b.destination
            && (a.local_sha256 == b.local_sha256 && a.remote_sha256 == b.remote_sha256)))

pub record PushItem : Type 0 where
  pub key : Text
  pub action : Text
  pub size : ℕ
  pub detail : Option Text

pub record PushReport : Type 0 where
  pub dry_run : Bool
  pub created : ℕ
  pub replaced : ℕ
  pub unchanged : ℕ
  pub skipped : ℕ
  pub failed : ℕ
  pub downloaded : ℕ
  pub kept : ℕ
  pub items : List PushItem

-- The `match` of `record`, which counts the item.
count_item : Text → PushReport → PushReport
count_item action r =
    if action == codes "create"
    then record r { created = r.created + 1 }
    else if action == codes "replace"
    then record r { replaced = r.replaced + 1 }
    else if action == codes "unchanged"
    then record r { unchanged = r.unchanged + 1 }
    else if action == codes "download"
    then record r { downloaded = r.downloaded + 1 }
    else if action == codes "kept"
    then record r { kept = r.kept + 1 }
    else if action == codes "skipped"
    then record r { skipped = r.skipped + 1 }
    else record r { failed = r.failed + 1 }

-- `PushReport::record`.
unfoldable pub record_item : PushReport → PushItem → PushReport
unfolding count_item
record_item r item =
    let r' = count_item item.action r in record r' { items = r'.items ++ (item ∷ []) }
