-- ===== src/Http/Calls.antt =====
-- The calls of the hub client (src/mirror/hub.rs, `HubClient`): the request of each, and what it makes of
-- the response.
use canvas_fuse.Prelude.{
  ℕ, true, not, Option, none, some, List, [], ◌∷◌, ◌++◌, Text, codes, text_eq, nat_eq, ◌==◌,
  if◌then◌else◌,
}
use canvas_fuse.Hub.{
  RemoteStat, Listing, Changes, PutOptions, PutResult, not_found, other, Result, ok, err,
}
use canvas_fuse.Http.{
  Method, get, head, put, post, Request, Response, Body, json_body, bytes_body, file_body,
  Transport, is_success, payload, classify, with_retries, json_ok,
}
use canvas_fuse.Http.Urls.{encode_segment}
use canvas_fuse.Http.Values.{Json, bool, text, object, field, text_at, number_at, Codecs}
use canvas_fuse.Http.Messages.{
  HubClient, PutBody, bytes, file, decimal, quoted, etag_of, stat_from_headers, put_headers,
  parse_listing, parse_changes, parse_put, parse_exclusions, is_acknowledged, object_of,
  backend_url, object_url,
}

abbrev pub request : Method → Text → Option ℕ → List (Text × Text) → Body → Request
request method url timeout headers body = record {
  method = method;
  url = url;
  timeout = timeout;
  headers = headers;
  body = body;
}

-- `JSON_TIMEOUT`.
abbrev short : Option ℕ
short = some 30

abbrev get_json : Text → Request
get_json url = request get url short [] Body.empty

abbrev post_json : Text → List (Text × Text) → List (Text × Json) → Request
post_json url headers fields =
    request post url short headers (json_body (object (object_of fields)))

module _ {N : Type 0} (t : Transport N) (c : Codecs) (h : HubClient) where
  -- A request whose answer is a JSON value, read by `f`.
  unfoldable pub answer_of : {A : Type 0} → (Json → Result A) → Result Response → Result A
  answer_of f (err e) = err e
  answer_of f (ok resp) = elim (json_ok t c h.token resp) [ err e ↦ err e | ok v ↦ f v ]

  unfoldable pub ask : {A : Type 0} → (N → Result Request) → (Json → Result A) → N → Result A × N
  ask build f n = let (r, n') = with_retries t c h.token build n in (answer_of f r, n')

  abbrev done_with : Json → Result (Unit {0})
  done_with v = ok tt

  unfoldable pub instance_id : N → Result (Option Text) × N
  instance_id =
      ask (λ n. ok (get_json (h.base ++ codes "/rest/v2/ping")))
        (λ v. ok (text_at (codes "instanceId") (payload v)))

  unfoldable pub exclusions : N → Result (List Text) × N
  exclusions = ask (λ n. ok (get_json (backend_url h))) (λ v. ok (parse_exclusions (payload v)))

  unfoldable pub list_objects : Text → Option Text → ℕ → N → Result Listing × N
  list_objects prefix cursor limit =
      let url =
        backend_url h
        ++ (codes "/objects?prefix="
            ++ (encode_segment prefix ++ (codes "&limit=" ++ decimal limit))) in
      let more : Text = elim cursor [
        | none ↦ []
        | some at ↦ codes "&cursor=" ++ encode_segment at
      ] in
      ask (λ n. ok (get_json (url ++ more))) (λ v. ok (parse_listing c (payload v)))

  unfoldable pub changes : ℕ → ℕ → N → Result Changes × N
  changes since limit =
      ask
        (λ n. ok (
          get_json (
            backend_url h
            ++ (codes "/changes?since=" ++ (decimal since ++ (codes "&limit=" ++ decimal limit))))))
        (λ v. ok (parse_changes c (payload v)))

  -- What `head_object` makes of the response.
  unfoldable pub settle_head : Result Response → Result (Option RemoteStat)
  settle_head (err e) = err e
  settle_head (ok resp) =
      if resp.status == 404
      then ok none
      else if not (is_success resp.status)
      then err (classify c resp)
      else ok (stat_from_headers c resp.headers)

  unfoldable pub head_object : Text → N → Result (Option RemoteStat) × N
  head_object key n =
      let (r, n') =
        with_retries t c h.token (λ n. ok (request head (object_url h key) short [] Body.empty))
          n in
      (settle_head r, n')

  -- The response to read from, with the digest that it names.
  unfoldable pub settle_get : Result Response → Result (Response × Option Text)
  settle_get (err e) = err e
  settle_get (ok resp) =
      if not (is_success resp.status)
      then err (classify c resp)
      else ok (resp, etag_of c resp.headers)

  unfoldable pub get_object : Text → Option ℕ → N → Result (Response × Option Text) × N
  get_object key from n =
      let range : List (Text × Text) = elim from [
        | none ↦ []
        | some at ↦ (codes "range", codes "bytes=" ++ (decimal at ++ codes "-")) ∷ []
      ] in
      let (r, n') =
        with_retries t c h.token (λ n. ok (request get (object_url h key) none range Body.empty))
          n in
      (settle_get r, n')

  -- The request of an upload; a file is opened anew for each attempt.
  unfoldable pub put_request : Text → PutBody → PutOptions → N → Result Request
  put_request key (bytes b) opts n =
      ok (request put (object_url h key) none (put_headers h opts) (bytes_body b))
  put_request key (file path) opts n = elim (t.open_file path n) [
    | none ↦ err other
    | some len ↦ ok (request put (object_url h key) none (put_headers h opts) (file_body path len))
  ]

  unfoldable pub put_object : Text → PutBody → PutOptions → N → Result PutResult × N
  put_object key body opts = ask (put_request key body opts) (λ v. ok (parse_put c (payload v)))

  abbrev origin : Text × Text
  origin = (codes "X-Canvas-Origin", h.device_id)

  unfoldable pub delete_object : Text → Option Text → N → Result (Unit {0}) × N
  delete_object key if_match =
      let matches : List (Text × Text) = elim if_match [
        | none ↦ []
        | some m ↦ (codes "if-match", quoted m) ∷ []
      ] in
      ask (λ n. ok (request Method.delete (object_url h key) short (origin ∷ matches) Body.empty))
        done_with

  unfoldable pub rename_object : Text → Text → Option Text → N → Result (Unit {0}) × N
  rename_object from to if_match =
      let matches : List (Text × Json) = elim if_match [
        | none ↦ []
        | some m ↦ (codes "ifMatch", text m) ∷ []
      ] in
      ask
        (λ n. ok (
          post_json (backend_url h ++ codes "/objects/rename") (origin ∷ []) (
            (codes "from", text from)
            ∷ (codes "to", text to)
            ∷ (codes "origin", text h.device_id)
            ∷ matches)))
        done_with

  unfoldable pub rename_directory : Text → Text → Text → N → Result (Unit {0}) × N
  rename_directory from to operation_id =
      ask
        (λ n. ok (
          post_json (backend_url h ++ codes "/objects/rename") [] (
            (codes "from", text from)
            ∷ (codes "to", text to)
            ∷ (codes "directory", bool true)
            ∷ (codes "operationId", text operation_id)
            ∷ (codes "origin", text h.device_id)
            ∷ [])))
        (λ v. if is_acknowledged v then ok tt else err other)

  -- `/home/mkdir` and `/home/rmdir` of the workspace.
  abbrev home_url : Text → Text
  home_url call =
      h.base ++ (codes "/rest/v2/workspaces/" ++ (encode_segment h.ws ++ (codes "/home/" ++ call)))

  unfoldable pub mkdir : Text → N → Result (Unit {0}) × N
  mkdir key =
      ask (λ n. ok (post_json (home_url (codes "mkdir")) [] ((codes "path", text key) ∷ [])))
        done_with

  -- A hub without the call answers with `not_found`, which must not count as done.
  unfoldable pub settle_rmdir : Result (Unit {0}) → Result (Unit {0})
  settle_rmdir (ok u) = ok u
  settle_rmdir (err not_found) = err other
  settle_rmdir (err e) = err e

  unfoldable pub settle_rmdir_answer : Result Response → Result (Unit {0})
  settle_rmdir_answer (err e) = err e
  settle_rmdir_answer (ok resp) = settle_rmdir (answer_of done_with (ok resp))

  unfoldable pub rmdir : Text → N → Result (Unit {0}) × N
  rmdir key n =
      let (r, n') =
        with_retries t c h.token
          (λ n. ok (post_json (home_url (codes "rmdir")) [] ((codes "path", text key) ∷ []))) n in
      (settle_rmdir_answer r, n')

  unfoldable pub report_status : Json → N → Result ℕ × N
  report_status status =
      ask
        (λ n. ok (
          request post
            (h.base
              ++ (codes "/rest/v2/workspaces/"
                  ++ (encode_segment h.ws
                      ++ (codes "/mirrors/" ++ (encode_segment h.device_id ++ codes "/status")))))
            short [] (json_body status)))
        (λ v.
          ok (elim (field (codes "payload") v) [ none ↦ 0 | some p ↦ number_at (codes "head") p ]))
