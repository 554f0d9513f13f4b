-- ===== src/Blobs/Waiting.antt =====
-- The reads that wait for a download (src/blobs.rs).
use canvas_fuse.Prelude.{
  text_eq, get_or, ◌≡◌, refl, subst, ◌==◌, Option, none, some, List, [], ◌∷◌, ◌++◌, Text,
  text_beq_iff, arith, Bool-cases, Option-cases, inl, inr, All, ◌⊎◌,
}
use canvas_fuse.Prelude.Table.{Table, lookup, insert, remove, lookup-insert, lookup-remove}
use canvas_fuse.Blobs.{
  Blob, Read, Reply, data_reply, error_reply, FetchJob, put, BlobStore, reply_slice, answer_all,
  claim, finish, run_fetch,
}

-- Who waits for a download waits for that of the right document.
abbrev pub AreWaiting : Table (List Read) → Type 0
AreWaiting t = (k : Text) (rs : List Read) → lookup k t ≡ some rs → All (λ r. r.key ≡ k) rs

pub snoc_waiting :
    (k : Text) (r : Read) (rs : List Read)
    → r.key ≡ k
    → All (λ r. r.key ≡ k) rs
    → All (λ r. r.key ≡ k) (rs ++ (r ∷ []))
snoc_waiting k r [] same right = (same, tt)
snoc_waiting k r (x ∷ xs) same (first, right) = (first, snoc_waiting k r xs same right)

same_waiting :
    (key k : Text) (new rs : List Read)
    → key ≡ k
    → new ≡ rs
    → All (λ r. r.key ≡ key) new
    → All (λ r. r.key ≡ k) rs
same_waiting key k new rs same_key same_list right =
    subst (λ k'. All (λ r. r.key ≡ k') rs) same_key
      (subst (λ rs'. All (λ r. r.key ≡ key) rs') same_list right)

pub waiting-insert :
    (key : Text) (new : List Read) (t : Table (List Read))
    → All (λ r. r.key ≡ key) new
    → AreWaiting t
    → AreWaiting (insert key new t)
waiting-insert key new t right w k rs there = elim (Bool-cases (key == k)) [
  | inl same ↦
      same_waiting key k new rs ((text_beq_iff key k).0 same)
        (ground (arith, same, there, lookup-insert key k new t)) right
  | inr other ↦ w k rs (ground (arith, other, there, lookup-insert key k new t))
]

pub waiting-remove : (key : Text) (t : Table (List Read)) → AreWaiting t → AreWaiting (remove key t)
waiting-remove key t w k rs there = w k rs (ground (arith, there, lookup-remove key k t))

pub waiters-right :
    (key : Text) (t : Table (List Read))
    → AreWaiting t
    → All (λ r. r.key ≡ key) (get_or (lookup key t) [])
waiters-right key t w = elim (Option-cases (lookup key t)) [
  | inl eq ↦ rw eq tt
  | inr (rs, eq) ↦ rw eq (w key rs eq)
]

removed : (key : Text) (t : Table (List Read)) → lookup key (remove key t) ≡ none
removed key t = ground (arith, text_beq_iff key key, lookup-remove key key t)

abbrev reader : Reply → Read
reader (data_reply r bytes) = r
reader (error_reply r) = r

-- The read got an answer.
abbrev pub IsAnswered : Read → List Reply → Type 0
IsAnswered r [] = ⊥
IsAnswered r (x ∷ xs) = (reader x ≡ r) ⊎ IsAnswered r xs

-- Answers to further reads take no answer away.
answer_all-keeps :
    (r : Read) (rs : List Read) (result : Option Blob) (s : BlobStore)
    → IsAnswered r s.replies
    → IsAnswered r (answer_all rs result s).replies
unfolding answer_all reply_slice
answer_all-keeps r [] result s already = already
answer_all-keeps r (x ∷ rs) (some blob) s already =
    answer_all-keeps r rs (some blob) (reply_slice x blob s) (inr already)
answer_all-keeps r (x ∷ rs) none s already =
    answer_all-keeps r rs none (record s { replies = error_reply x ∷ s.replies }) (inr already)

answer_all-AnswersAll :
    (rs : List Read) (result : Option Blob) (s : BlobStore)
    → All (λ r. IsAnswered r (answer_all rs result s).replies) rs
unfolding answer_all reply_slice
answer_all-AnswersAll [] result s = tt
answer_all-AnswersAll (x ∷ rs) (some blob) s = (
  answer_all-keeps x rs (some blob) (reply_slice x blob s) (inl refl),
  answer_all-AnswersAll rs (some blob) (reply_slice x blob s),
)
answer_all-AnswersAll (x ∷ rs) none s =
    let s' : BlobStore = record s { replies = error_reply x ∷ s.replies } in
    (answer_all-keeps x rs none s' (inl refl), answer_all-AnswersAll rs none s')

answer_all-in_flight :
    (rs : List Read) (result : Option Blob) (s : BlobStore)
    → (answer_all rs result s).in_flight ≡ s.in_flight
unfolding answer_all reply_slice
answer_all-in_flight [] result s = refl
answer_all-in_flight (x ∷ rs) (some blob) s =
    answer_all-in_flight rs (some blob) (reply_slice x blob s)
answer_all-in_flight (x ∷ rs) none s =
    answer_all-in_flight rs none (record s { replies = error_reply x ∷ s.replies })

-- When a download ends, with the bytes or with an error, each read that waits for it gets an answer and the
-- download is no longer under way, so that the next read of the document begins one.
pub run_fetch-AnswersAll :
    (job : FetchJob) (result : Option Blob) (s : BlobStore)
    → All
        (λ r. IsAnswered r (run_fetch job result s).replies)
        (get_or (lookup job.key s.in_flight) [])
      × (lookup job.key (run_fetch job result s).in_flight ≡ none)
unfolding run_fetch claim finish
run_fetch-AnswersAll job none s =
    let waiters = get_or (lookup job.key s.in_flight) [] in
    let s' : BlobStore = record s { in_flight = remove job.key s.in_flight } in
    (
      answer_all-AnswersAll waiters none s',
      rw (answer_all-in_flight waiters none s') (removed job.key s.in_flight),
    )
run_fetch-AnswersAll job (some b) s =
    let waiters = get_or (lookup job.key s.in_flight) [] in
    let s' : BlobStore = record s {
      in_flight = remove job.key s.in_flight;
      cache = put job.key b s.cache;
    } in
    (
      answer_all-AnswersAll waiters (some b) s',
      rw (answer_all-in_flight waiters (some b) s') (removed job.key s.in_flight),
    )
