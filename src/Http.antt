-- ===== src/Http.antt =====
-- The HTTP side of the hub client (src/mirror/hub.rs): JSON values, requests and responses, the errors
-- that a response stands for, and the retries. The HTTP library is the interface `Transport`.
pub mod Values
pub mod Urls
pub mod Messages
pub mod Calls
pub mod Retries
use canvas_fuse.Prelude.{
  ℕ, zero, suc, ◌+◌, ◌*◌, Bool, true, false, ◌||◌, ◌&&◌, not, Option, none, some, List, [], ◌∷◌,
  ◌++◌, Text, codes, text_eq, nat_eq, option_eq, ◌==◌, leb, ltb, get_or, is_some, if◌then◌else◌,
}
use canvas_fuse.Prelude.Table.{Table, lookup}
use canvas_fuse.Hub.{
  HubError, unauthorized, not_found, target_exists, cursor_too_old, precondition_failed, retryable,
  refused, other, offline, Result, ok, err,
}
use canvas_fuse.Http.Values.{Json, null, field, as_text, as_number, Codecs, parse_stat}

pub data Method : Type 0 where
  get head put post delete : Method

pub data Body : Type 0 where
  empty : Body
  json_body : Json → Body
  bytes_body : List ℕ → Body
  file_body : Text → ℕ → Body  -- path, length

pub record Request : Type 0 where
  pub method : Method
  pub url : Text
  pub timeout : Option ℕ  -- in seconds
  pub headers : List (Text × Text)  -- in the order of their setting
  pub body : Body

-- `json` is the body, if it is one; the names of headers are in lower case.
pub record Response : Type 0 where
  pub status : ℕ
  pub headers : Table Text
  pub json : Option Json

-- `none`: the request did not go through.
pub record Transport (N : Type 0) : Type 0 where
  pub send : Request → N → Option Response × N
  pub sleep : ℕ → N → N  -- milliseconds
  -- The length of a file that can be opened.
  pub open_file : Text → N → Option ℕ

-- `status.is_success()`.
unfoldable pub is_success : ℕ → Bool
is_success s = leb 200 s && ltb s 300

-- `429 | 500..=599`.
unfoldable pub is_busy : ℕ → Bool
is_busy s = s == 429 || (leb 500 s && leb s 599)

unfoldable pub member : Text → Option Json → Json
member name body = get_or (field name (get_or body null)) null

-- `body.get("payload").cloned().unwrap_or(Value::Null)`.
unfoldable pub payload : Json → Json
payload body = get_or (field (codes "payload") body) null

abbrev number_or_zero : Option Json → ℕ
number_or_zero none = 0
number_or_zero (some v) = get_or (as_number v) 0

abbrev is_target_exists : Json → Bool
is_target_exists body = elim (field (codes "code") body) [
  | none ↦ false
  | some v ↦ as_text v == some (codes "TARGET_EXISTS")
]

unfoldable pub classify : Codecs → Response → HubError
classify c resp =
    let body = get_or resp.json null in
    let s = resp.status in
    if s == 401
    then unauthorized
    else if s == 404
    then not_found
    else if s == 409 && is_target_exists body
    then target_exists
    else if s == 410
    then cursor_too_old (number_or_zero (field (codes "oldest") (payload body)))
        (number_or_zero (field (codes "head") (payload body)))
    else if s == 412
    then precondition_failed
        (elim (field (codes "current") (payload body)) [ none ↦ none | some v ↦ parse_stat c v ])
    else if is_busy s
    then retryable s
    else refused s

abbrev pub attempts : ℕ
attempts = 3

module _ {N : Type 0} (t : Transport N) (c : Codecs) (token : Text) where
  -- What follows an answer; `again` is the rest of the loop, and `left` the attempts that it has.
  unfoldable pub settle_answer :
      ℕ
      → ℕ
      → (Option HubError → N → Result Response × N)
      → Option Response × N
      → Result Response × N
  settle_answer left delay again (none, n) = (err offline, n)
  settle_answer left delay again (some resp, n) =
      if is_busy resp.status
      then again (some (classify c resp)) (if ltb 0 left then t.sleep delay n else n)
      else (ok resp, n)

  abbrev pub bearer : Request → Request
  bearer req = record req {
    headers = req.headers ++ ((codes "Authorization", codes "Bearer " ++ token) ∷ []);
  }

  unfoldable pub settle_build :
      ℕ → ℕ → (Option HubError → N → Result Response × N) → Result Request → N → Result Response × N
  settle_build left delay again (err e) n = (err e, n)
  settle_build left delay again (ok req) n = settle_answer left delay again (t.send (bearer req) n)

  -- The loop over the attempts that are left; `last` is the answer of the one before.
  unfoldable pub retry_from :
      ℕ → ℕ → Option HubError → (N → Result Request) → N → Result Response × N
  retry_from zero delay last build n = (err (get_or last other), n)
  retry_from (suc left) delay last build n =
      settle_build left delay (λ e. retry_from left (delay * 2) e build) (build n) n

  unfoldable pub with_retries : (N → Result Request) → N → Result Response × N
  with_retries build n = retry_from attempts 500 none build n

  unfoldable pub json_ok : Response → Result Json
  json_ok resp =
      if not (is_success resp.status)
      then err (classify c resp)
      else elim resp.json [ none ↦ err other | some v ↦ ok v ]
