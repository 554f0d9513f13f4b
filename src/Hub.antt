-- ===== src/Hub.antt =====
-- What the hub says (src/mirror/hub.rs): the state of an object, the entries of the change feed,
-- the options of an upload and the errors. The HTTP client itself is the interface `Engine.Client`.
use canvas_fuse.Prelude.{ℕ, Bool, true, false, Option, none, List, Text}

pub record RemoteStat : Type 0 where
  pub sha256 : Text
  pub size : ℕ
  pub mtime : ℕ

pub data ChangeOp : Type 0 where
  put delete rename : ChangeOp

-- The fields `size`, `mtime` and `origin` are not read by the engine.
pub record Change : Type 0 where
  pub seq : ℕ
  pub op : ChangeOp
  pub key : Text
  pub from : Option Text
  pub sha256 : Option Text

pub record ListedObject : Type 0 where
  pub key : Text
  pub stat : RemoteStat

pub record Listing : Type 0 where
  pub objects : List ListedObject
  pub cursor : Option Text
  pub head : ℕ

pub record Changes : Type 0 where
  pub changes : List Change
  pub head : ℕ
  pub oldest : ℕ

pub data ConflictMode : Type 0 where
  prompt rename_copy : ConflictMode

pub data DeleteMode : Type 0 where
  propagate keep : DeleteMode

pub record PutOptions : Type 0 where
  pub if_match : Option Text
  pub if_none_match_any : Bool
  pub sha256 : Option Text
  pub mtime : Option ℕ
  pub conflict_of : Option Text
  pub conflict_mode : Option ConflictMode
  pub base_sha256 : Option Text

-- `PutOptions::default()`.
abbrev pub put_defaults : PutOptions
put_defaults = record {
  if_match = none;
  if_none_match_any = false;
  sha256 = none;
  mtime = none;
  conflict_of = none;
  conflict_mode = none;
  base_sha256 = none;
}

pub record PutResult : Type 0 where
  pub sha256 : Text
  pub mtime : ℕ
  pub seq : ℕ
  pub doc_id : Option ℕ

-- Messages are kept where the code tells errors apart by them: nowhere, so they are dropped.
pub data HubError : Type 0 where
  offline unauthorized unsafe_mirror : HubError
  precondition_failed : Option RemoteStat → HubError
  cursor_too_old : ℕ → ℕ → HubError
  not_found target_exists : HubError
  refused : ℕ → HubError  -- status
  retryable : ℕ → HubError  -- status
  other : HubError
  local_changed : Text → HubError
  protected : Text → HubError

unfoldable pub is_offline : HubError → Bool
is_offline offline = true
is_offline _ = false

unfoldable pub is_permanent : HubError → Bool
is_permanent (refused _) = true
is_permanent not_found = true
is_permanent target_exists = true
is_permanent _ = false

pub data Result {ℓ} (A : Type ℓ) : Type ℓ where
  ok : A → Result A
  err : HubError → Result A
