-- ===== src/Http/Messages.antt =====
-- What the hub client writes into a request, and reads in a response (src/mirror/hub.rs).
use canvas_fuse.Prelude.{
  ℕ, zero, suc, ◌+◌, ◌/◌, ◌%◌, Bool, false, Option, none, some, List, [], ◌∷◌, ◌++◌, Text, codes,
  text_eq, nat_eq, option_eq, ◌==◌, get_or, or_else, is_empty, ltb, length, strip_prefix, reverse,
  if◌then◌else◌,
}
use canvas_fuse.Prelude.Table.{Table, lookup}
use canvas_fuse.Hub.{
  RemoteStat, ListedObject, Listing, Change, ChangeOp, Changes, ConflictMode, prompt, rename_copy,
  PutOptions, PutResult,
}
use canvas_fuse.Http.Urls.{encode_segment, encode_key}
use canvas_fuse.Http.Values.{
  Json, Fields, done, entry, as_text, as_number, as_bool, field, elements, text_at, number_at,
  parse_u64, Codecs, parse_ms,
}

pub record HubClient : Type 0 where
  pub base : Text  -- without slashes at its end
  pub token : Text
  pub ws : Text
  pub backend : Text
  pub device_id : Text
  pub device_name : Text

pub data PutBody : Type 0 where
  bytes : List ℕ → PutBody
  file : Text → PutBody

-- `s.trim_start_matches("W/")`, on the characters left.
trim_weak : ℕ → Text → Text
trim_weak zero s = s
trim_weak (suc left) s = elim (strip_prefix (codes "W/") s) [
  | none ↦ s
  | some rest ↦ trim_weak left rest
]

drop_quotes : Text → Text
drop_quotes [] = []
drop_quotes (x ∷ s) = let rest = drop_quotes s in if x == 34 then rest else x ∷ s

-- `s.trim_matches('"')`.
unquoted : Text → Text
unfolding drop_quotes
unquoted s = reverse (drop_quotes (reverse (drop_quotes s)))

abbrev json_timeout : Option ℕ
json_timeout = some 30

-- The decimal digits of a number, on the digits left.
unfoldable pub digits : ℕ → ℕ → Text → Text
digits zero n acc = acc
digits (suc left) n acc =
    let rest = digits left (n / 10) ((48 + n % 10) ∷ acc) in
    if ltb n 10 then (48 + n) ∷ acc else rest

-- `n.to_string()` of a 64-bit number, which has at most 20 digits.
unfoldable pub decimal : ℕ → Text
unfolding digits
decimal n = digits 20 n []

abbrev pub quoted : Text → Text
quoted s = 34 ∷ (s ++ (34 ∷ []))

abbrev header_of : Option Text → Text → List (Text × Text)
header_of none name = []
header_of (some v) name = (name, v) ∷ []

unfoldable pub etag_of : Codecs → Table Text → Option Text
unfolding trim_weak unquoted
etag_of c headers =
    or_else
      (elim (lookup (codes "x-canvas-sha256") headers) [
        | none ↦ none
        | some s ↦ if is_empty s then none else some (c.lowercase s)
      ])
      (elim (lookup (codes "etag") headers) [
        | none ↦ none
        | some s ↦ some (c.lowercase (unquoted (trim_weak (length s) s)))
      ])

number_in : Text → Table Text → Option ℕ
number_in name headers = elim (lookup name headers) [ none ↦ none | some s ↦ parse_u64 s ]

unfoldable pub stat_from_headers : Codecs → Table Text → Option RemoteStat
unfolding etag_of number_in
stat_from_headers c headers = elim (etag_of c headers) [
  | none ↦ none
  | some sha ↦ some (record {
    sha256 = sha;
    size =
        get_or
          (or_else (number_in (codes "x-canvas-size") headers)
            (number_in (codes "content-length") headers))
          0;
    mtime = get_or (number_in (codes "x-canvas-mtime") headers) 0;
  })
]

-- The value of `X-Canvas-Conflict-Mode`.
abbrev mode_text : ConflictMode → Text
mode_text prompt = codes "inbox"
mode_text rename_copy = codes "rename"

-- The headers of a conflict.
conflict_headers : Text → PutOptions → List (Text × Text)
conflict_headers device opts = elim opts.conflict_of [
  | none ↦ []
  | some key ↦
      (codes "X-Canvas-Conflict-Of", key)
      ∷ (codes "X-Canvas-Device-Name", device)
      ∷ (elim opts.conflict_mode [
        | none ↦ []
        | some mode ↦ (codes "X-Canvas-Conflict-Mode", mode_text mode) ∷ []
      ]
          ++ header_of opts.base_sha256 (codes "X-Canvas-Base-Sha256"))
]

-- The engine sets no content type.
unfoldable pub put_headers : HubClient → PutOptions → List (Text × Text)
unfolding conflict_headers decimal
put_headers h opts =
    ((codes "X-Canvas-Origin", h.device_id) ∷ [])
    ++ (elim opts.if_match [ none ↦ [] | some m ↦ (codes "if-match", quoted m) ∷ [] ]
        ++ ((if opts.if_none_match_any then (codes "if-none-match", codes "*") ∷ [] else [])
            ++ (header_of opts.sha256 (codes "X-Canvas-Sha256")
                ++ (elim opts.mtime [
                  | none ↦ []
                  | some t ↦ (codes "X-Canvas-Mtime", decimal t) ∷ []
                ]
                    ++ (conflict_headers h.device_name opts
                        ++ ((codes "content-type", codes "application/octet-stream") ∷ []))))))

-- The items of a list that can be read.
unfoldable pub filter_map {ℓ κ} : {A : Type ℓ} {B : Type κ} → (A → Option B) → List A → List B
filter_map f [] = []
filter_map f (x ∷ xs) = let rest = filter_map f xs in elim (f x) [ none ↦ rest | some y ↦ y ∷ rest ]

unfoldable pub parse_object : Codecs → Json → Option ListedObject
parse_object c o = elim (text_at (codes "key") o) [
  | none ↦ none
  | some key ↦ some (record {
    key = key;
    stat = record {
      sha256 = c.lowercase (get_or (text_at (codes "sha256") o) []);
      size = number_at (codes "size") o;
      mtime = parse_ms c (field (codes "mtime") o);
    };
  })
]

unfoldable pub parse_op : Text → Option ChangeOp
parse_op s =
    if s == codes "put"
    then some ChangeOp.put
    else if s == codes "delete"
    then some ChangeOp.delete
    else if s == codes "rename"
    then some ChangeOp.rename
    else none

abbrev number_field : Text → Json → Option ℕ
number_field name v = elim (field name v) [ none ↦ none | some x ↦ as_number x ]

unfoldable pub parse_change : Codecs → Json → Option Change
unfolding parse_op
parse_change c v = elim (text_at (codes "op") v) [
  | none ↦ none
  | some op ↦ elim (parse_op op) [
    | none ↦ none
    | some o ↦ elim (number_field (codes "seq") v) [
      | none ↦ none
      | some seq ↦ elim (text_at (codes "key") v) [
        | none ↦ none
        | some key ↦ some (record {
          seq = seq;
          op = o;
          key = key;
          from = text_at (codes "from") v;
          sha256 = elim (text_at (codes "sha256") v) [
            | none ↦ none
            | some s ↦ if is_empty s then none else some (c.lowercase s)
          ];
        })
      ]
    ]
  ]
]

-- The value of a field of the payload that is there, an array or not.
abbrev elements_at : Text → Json → List Json
elements_at name v = elim (field name v) [ none ↦ [] | some x ↦ elements x ]

unfoldable pub parse_listing : Codecs → Json → Listing
unfolding parse_object filter_map
parse_listing c v = record {
  objects = filter_map (parse_object c) (elements_at (codes "objects") v);
  cursor = elim (text_at (codes "cursor") v) [
    | none ↦ none
    | some s ↦ if is_empty s then none else some s
  ];
  head = number_at (codes "head") v;
}

unfoldable pub parse_changes : Codecs → Json → Changes
unfolding parse_change filter_map
parse_changes c v = record {
  changes = filter_map (parse_change c) (elements_at (codes "changes") v);
  head = number_at (codes "head") v;
  oldest = number_at (codes "oldest") v;
}

unfoldable pub parse_put : Codecs → Json → PutResult
parse_put c v = record {
  sha256 = c.lowercase (get_or (text_at (codes "sha256") v) []);
  mtime = parse_ms c (field (codes "mtime") v);
  seq = number_at (codes "seq") v;
  doc_id = number_field (codes "docId") v;
}

-- `.or_else` of the two places of the patterns.
unfoldable pub parse_exclusions : Json → List Text
unfolding filter_map
parse_exclusions v =
    let inner = get_or (field (codes "backend") v) v in
    let nested : Option Json = elim (field (codes "config") inner) [
      | none ↦ none
      | some cfg ↦ field (codes "effectiveExclusions") cfg
    ] in
    elim (or_else nested (field (codes "effectiveExclusions") inner)) [
      | none ↦ []
      | some list ↦ filter_map as_text (elements list)
    ]

-- The field `directory` of the payload, or of the answer itself.
abbrev pub is_acknowledged : Json → Bool
is_acknowledged v = elim (field (codes "directory") (get_or (field (codes "payload") v) v)) [
  | none ↦ false
  | some x ↦ elim (as_bool x) [ none ↦ false | some b ↦ b ]
]

-- `json!({ … })`.
abbrev pub object_of : List (Text × Json) → Fields
object_of [] = done
object_of ((n, v) ∷ rest) = entry n v (object_of rest)

unfoldable pub backend_url : HubClient → Text
backend_url h =
    h.base
    ++ (codes "/rest/v2/workspaces/"
        ++ (encode_segment h.ws ++ (codes "/backends/file/" ++ encode_segment h.backend)))

unfoldable pub object_url : HubClient → Text → Text
unfolding backend_url
object_url h key = backend_url h ++ (codes "/objects/" ++ encode_key key)
