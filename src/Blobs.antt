-- ===== src/Blobs.antt =====
-- The cache of document contents and the downloads under way (src/blobs.rs). `read` takes two locks in turn
-- and is two functions here, `look` and `enlist`; so is `run_fetch`.
pub mod Served
pub mod Threads
pub mod Waiting
use canvas_fuse.Prelude.{
  ℕ, zero, suc, ◌+◌, ◌-◌, Bool, true, false, ◌&&◌, not, Option, none, some, List, [], ◌∷◌, ◌++◌,
  Text, text_eq, ◌==◌, is_some, length, ltb, min, max, ◌*◌, contains, get_or, if◌then◌else◌,
}
use canvas_fuse.Prelude.Table.{Table, lookup, insert, remove}
use canvas_fuse.Store.Move.{drop}

abbrev pub Blob : Type 0
Blob = List ℕ

-- `order` has the keys, the least recently used first.
pub record Lru : Type 0 where
  pub map : Table Blob
  pub order : List Text
  pub used : ℕ
  pub budget : ℕ

-- `order.remove(pos)` at the first position of the key.
unfoldable pub remove_first : Text → List Text → List Text
remove_first key [] = []
remove_first key (k ∷ ks) = let rest = remove_first key ks in if k == key then ks else k ∷ rest

unfoldable pub bump : Text → List Text → List Text
unfolding remove_first
bump key order = if contains order key then remove_first key order ++ (key ∷ []) else order

unfoldable pub get : Text → Lru → Option Blob × Lru
get key c = elim (lookup key c.map) [
  | none ↦ (none, c)
  | some b ↦ (some b, record c { order = bump key c.order })
]

-- The bytes that leave with a key.
abbrev pub size_of : Option Blob → ℕ
size_of none = 0
size_of (some b) = length b

-- The `while` loop: the oldest goes while there is too much, and more than one.
unfoldable pub evict : ℕ → List Text → Table Blob → ℕ → Lru
evict budget [] map used = record { map = map; order = []; used = used; budget = budget }
evict budget (k ∷ []) map used = record { map = map; order = k ∷ []; used = used; budget = budget }
evict budget (k ∷ k' ∷ ks) map used =
    let rest = evict budget (k' ∷ ks) (remove k map) (used - size_of (lookup k map)) in
    if ltb budget used
    then rest
    else record { map = map; order = k ∷ k' ∷ ks; used = used; budget = budget }

unfoldable pub put : Text → Blob → Lru → Lru
unfolding evict
put key b c =
    if is_some (lookup key c.map)
    then c
    else evict c.budget (c.order ++ (key ∷ [])) (insert key b c.map) (c.used + length b)

unfoldable pub take {ℓ} : {A : Type ℓ} → ℕ → List A → List A
take zero xs = []
take (suc n) [] = []
take (suc n) (x ∷ xs) = x ∷ take n xs

-- What `reply_slice` sends; a negative offset of the kernel counts as 0.
unfoldable pub slice : ℕ → ℕ → Blob → Blob
slice offset size blob =
    let start = min offset (length blob) in
    take (min (start + size) (length blob) - start) (drop start blob)

-- A read of the kernel.
pub record Read : Type 0 where
  pub key : Text
  pub offset : ℕ
  pub size : ℕ
  pub id : ℕ

pub data Reply : Type 0 where
  data_reply : Read → Blob → Reply
  error_reply : Read → Reply

pub record FetchJob : Type 0 where
  pub key : Text
  pub workspace_id : Text
  pub doc_id : ℕ

-- `jobs` are those sent to the workers; `replies` were sent to the kernel, the latest first.
pub record BlobStore : Type 0 where
  pub cache : Lru
  pub in_flight : Table (List Read)
  pub jobs : List FetchJob
  pub replies : List Reply

-- At least 8 MiB are kept.
unfoldable pub new : ℕ → BlobStore
new budget_bytes = record {
  cache = record { map = []; order = []; used = 0; budget = max budget_bytes (8 * 1024 * 1024) };
  in_flight = [];
  jobs = [];
  replies = [];
}

unfoldable pub reply_slice : Read → Blob → BlobStore → BlobStore
reply_slice r blob s = record s { replies = data_reply r (slice r.offset r.size blob) ∷ s.replies }

-- `read`, under the lock of the cache: whether the read is answered.
unfoldable pub look : Read → BlobStore → Bool × BlobStore
look r s =
    let (hit, cache) = get r.key s.cache in
    elim hit [
      | some blob ↦ (true, reply_slice r blob (record s { cache = cache }))
      | none ↦ (false, record s { cache = cache })
    ]

-- `read`, under the lock of the downloads: a read joins the download under way, or begins one.
unfoldable pub enlist : Read → Text → ℕ → BlobStore → BlobStore
enlist r workspace_id doc_id s = elim (lookup r.key s.in_flight) [
  | some waiters ↦ record s { in_flight = insert r.key (waiters ++ (r ∷ [])) s.in_flight }
  | none ↦ record s {
    in_flight = insert r.key (r ∷ []) s.in_flight;
    jobs = s.jobs ++ ((record { key = r.key; workspace_id = workspace_id; doc_id = doc_id }) ∷ []);
  }
]

unfoldable pub answer_all : List Read → Option Blob → BlobStore → BlobStore
answer_all [] result s = s
answer_all (r ∷ rs) (some blob) s = answer_all rs (some blob) (reply_slice r blob s)
answer_all (r ∷ rs) none s = answer_all rs none (record s { replies = error_reply r ∷ s.replies })

-- `run_fetch` in its two steps: the thread takes those who wait, under the lock of the downloads; then it
-- stores the bytes, under the lock of the cache, and answers.
unfoldable pub claim : FetchJob → BlobStore → List Read × BlobStore
claim job s =
    (get_or (lookup job.key s.in_flight) [], record s { in_flight = remove job.key s.in_flight })

unfoldable pub finish : FetchJob → Option Blob → List Read → BlobStore → BlobStore
finish job (some blob) waiters s =
    answer_all waiters (some blob) (record s { cache = put job.key blob s.cache })
finish job none waiters s = answer_all waiters none s

-- A download has ended, with the bytes or not.
unfoldable pub run_fetch : FetchJob → Option Blob → BlobStore → BlobStore
unfolding claim finish
run_fetch job result s = let (waiters, s') = claim job s in finish job result waiters s'

-- `resolve_size`, with the answer of the API; a failure counts as an empty document.
unfoldable pub resolve_size : Text → Option Blob → BlobStore → ℕ × BlobStore
resolve_size key fetched s =
    let (hit, cache) = get key s.cache in
    elim hit [
      | some blob ↦ (length blob, record s { cache = cache })
      | none ↦ elim fetched [
        | some blob ↦ (length blob, record s { cache = put key blob cache })
        | none ↦ (0, record s { cache = cache })
      ]
    ]
