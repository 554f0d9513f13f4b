-- ===== src/Blobs/Served.antt =====
-- What the reads of the kernel are answered (src/blobs.rs), against the contents of the documents.
use canvas_fuse.Prelude.{
  text_eq, ℕ, ◌+◌, ◌-◌, ◌≡◌, refl, sym, ap, Option, none, some, List, [], ◌∷◌, ◌++◌, Text,
  text_beq_iff, arith, Bool-cases, Option-cases, inl, inr, All, is_some, length, ltb,
}
use canvas_fuse.Prelude.Table.{Table, lookup, insert, remove, lookup-insert, lookup-remove}
use canvas_fuse.Blobs.Waiting.{AreWaiting, snoc_waiting, waiting-insert, waiting-remove}
use canvas_fuse.Blobs.{
  Blob, Lru, get, size_of, evict, put, slice, Read, Reply, data_reply, error_reply, FetchJob,
  BlobStore, new, reply_slice, look, enlist, answer_all, claim, finish, resolve_size,
}

-- The cache holds the contents of documents.
abbrev pub IsFaithful : (Text → Blob) → Table Blob → Type 0
IsFaithful content map = (k : Text) (b : Blob) → lookup k map ≡ some b → b ≡ content k

module _ (content : Text → Blob) where
  -- A read is answered by the bytes that its document has there, or by an error.
  abbrev pub IsRight : Reply → Type 0
  IsRight (data_reply r bytes) = bytes ≡ slice r.offset r.size (content r.key)
  IsRight (error_reply r) = Unit

  pub record IsServed (s : BlobStore) : Type 0 where
    pub cached : IsFaithful content s.cache.map
    pub answered : All IsRight s.replies
    pub waiting : AreWaiting s.in_flight

  evict-map :
      (budget : ℕ) (order : List Text) (map : Table Blob) (used : ℕ)
      → IsFaithful content map
      → IsFaithful content (evict budget order map used).map
  unfolding evict
  evict-map budget [] map used f = f
  evict-map budget (k ∷ []) map used f = f
  evict-map budget (k ∷ k' ∷ ks) map used f = elim (Bool-cases (ltb budget used)) [
    | inl more ↦ rw more (
        evict-map budget (k' ∷ ks) (remove k map) (used - size_of (lookup k map))
          (λ j b there. f j b (ground (arith, there, lookup-remove k j map))))
    | inr done ↦ rw done f
  ]

  insert-IsFaithful :
      (key : Text) (map : Table Blob)
      → IsFaithful content map
      → IsFaithful content (insert key (content key) map)
  insert-IsFaithful key map f j b there =
      ground (arith, text_beq_iff key j, there, lookup-insert key j (content key) map, f j b)

  put-map :
      (key : Text) (c : Lru)
      → IsFaithful content c.map
      → IsFaithful content (put key (content key) c).map
  unfolding put
  put-map key c f = elim (Bool-cases (is_some (lookup key c.map))) [
    | inl kept ↦ rw kept f
    | inr new ↦ rw new (
        evict-map c.budget (c.order ++ (key ∷ [])) (insert key (content key) c.map)
          (c.used + length (content key)) (insert-IsFaithful key c.map f))
  ]

  get-map : (key : Text) (c : Lru) → (get key c).1.map ≡ c.map
  unfolding get
  get-map key c = elim (Option-cases (lookup key c.map)) [
    | inl eq ↦ rw (get, eq) refl
    | inr (b, eq) ↦ rw (get, eq) refl
  ]

  get-IsServed :
      (key : Text) (s : BlobStore)
      → IsServed s
      → IsServed (record s { cache = (get key s.cache).1 })
  get-IsServed key s ok = record {
    cached = λ k b there. ok.cached k b (rw (sym (get-map key s.cache)) there);
    answered = ok.answered;
    waiting = ok.waiting;
  }

  answer_all-IsServed :
      (rs : List Read) (key : Text) (s : BlobStore)
      → All (λ r. r.key ≡ key) rs
      → IsServed s
      → IsServed (answer_all rs (some (content key)) s)
  unfolding answer_all reply_slice
  answer_all-IsServed [] key s right ok = ok
  answer_all-IsServed (r ∷ rs) key s (same, right) ok =
      answer_all-IsServed rs key (reply_slice r (content key) s) right (record {
        cached = ok.cached;
        answered = (ap (λ k. slice r.offset r.size (content k)) (sym same), ok.answered);
        waiting = ok.waiting;
      })

  answer_all-IsServed_failed :
      (rs : List Read) (s : BlobStore) → IsServed s → IsServed (answer_all rs none s)
  unfolding answer_all
  answer_all-IsServed_failed [] s ok = ok
  answer_all-IsServed_failed (r ∷ rs) s ok =
      answer_all-IsServed_failed rs (record s { replies = error_reply r ∷ s.replies })
        (record { cached = ok.cached; answered = (tt, ok.answered); waiting = ok.waiting })

  pub look-IsServed : (r : Read) (s : BlobStore) → IsServed s → IsServed (look r s).1
  unfolding look get reply_slice
  look-IsServed r s ok = elim (Option-cases (lookup r.key s.cache.map)) [
    | inl eq ↦ rw (look, get, eq) (get-IsServed r.key s ok)
    | inr (b, eq) ↦
        rw (look, get, eq)
          (record {
            cached = (get-IsServed r.key s ok).cached;
            answered = (ap (slice r.offset r.size) (ok.cached r.key b eq), ok.answered);
            waiting = ok.waiting;
          })
  ]

  pub enlist-IsServed :
      (r : Read) (workspace_id : Text) (doc_id : ℕ) (s : BlobStore)
      → IsServed s
      → IsServed (enlist r workspace_id doc_id s)
  unfolding enlist
  enlist-IsServed r workspace_id doc_id s ok = elim (Option-cases (lookup r.key s.in_flight)) [
    | inl eq ↦
        rw (enlist, eq)
          (record {
            cached = ok.cached;
            answered = ok.answered;
            waiting = waiting-insert r.key (r ∷ []) s.in_flight (refl, tt) ok.waiting;
          })
    | inr (waiters, eq) ↦
        rw (enlist, eq)
          (record {
            cached = ok.cached;
            answered = ok.answered;
            waiting =
                waiting-insert r.key (waiters ++ (r ∷ [])) s.in_flight
                  (snoc_waiting r.key r waiters refl (ok.waiting r.key waiters eq)) ok.waiting;
          })
  ]

  pub claim-IsServed : (job : FetchJob) (s : BlobStore) → IsServed s → IsServed (claim job s).1
  unfolding claim
  claim-IsServed job s ok = record {
    cached = ok.cached;
    answered = ok.answered;
    waiting = waiting-remove job.key s.in_flight ok.waiting;
  }

  pub put-IsServed :
      (key : Text) (s : BlobStore)
      → IsServed s
      → IsServed (record s { cache = put key (content key) s.cache })
  put-IsServed key s ok = record {
    cached = put-map key s.cache ok.cached;
    answered = ok.answered;
    waiting = ok.waiting;
  }

  pub finish-IsServed :
      (job : FetchJob) (result : Option Blob) (waiters : List Read) (s : BlobStore)
      → ((b : Blob) → result ≡ some b → b ≡ content job.key)
      → All (λ r. r.key ≡ job.key) waiters
      → IsServed s
      → IsServed (finish job result waiters s)
  unfolding finish
  finish-IsServed job none waiters s true_bytes right ok = answer_all-IsServed_failed waiters s ok
  finish-IsServed job (some b) waiters s true_bytes right ok = rw (true_bytes b refl) (
      answer_all-IsServed waiters job.key
        (record s { cache = put job.key (content job.key) s.cache }) right
        (put-IsServed job.key s ok))

  pub resolve_size-IsServed :
      (key : Text) (fetched : Option Blob) (s : BlobStore)
      → ((b : Blob) → fetched ≡ some b → b ≡ content key)
      → IsServed s
      → IsServed (resolve_size key fetched s).1
  unfolding resolve_size get
  resolve_size-IsServed key fetched s true_bytes ok = elim (Option-cases (lookup key s.cache.map)) [
    | inl eq ↦ elim (Option-cases fetched) [
      | inl failed ↦ rw (resolve_size, get, eq, failed) (get-IsServed key s ok)
      | inr (b, got) ↦
          rw (resolve_size, get, eq, got, true_bytes b got)
            (record {
              cached = put-map key (get key s.cache).1 (get-IsServed key s ok).cached;
              answered = ok.answered;
              waiting = ok.waiting;
            })
    ]
    | inr (b, eq) ↦ rw (resolve_size, get, eq) (get-IsServed key s ok)
  ]
