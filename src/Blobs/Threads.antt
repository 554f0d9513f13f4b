-- ===== src/Blobs/Threads.antt =====
-- The threads that serve the reads of the kernel (src/blobs.rs), as a step relation.
use canvas_fuse.Prelude.{ℕ, ◌≡◌, Option, some, List, [], ◌∷◌, ◌++◌, Text, All, arith}
use canvas_fuse.Prelude.Table.{lookup}
use canvas_fuse.Blobs.{
  Blob, Read, FetchJob, BlobStore, new, look, enlist, claim, finish, put, resolve_size,
}
use canvas_fuse.Blobs.Waiting.{waiters-right}
use canvas_fuse.Blobs.Served.{
  IsServed, look-IsServed, enlist-IsServed, claim-IsServed, finish-IsServed, resolve_size-IsServed,
  put-IsServed,
}

-- The reads that waited for a download that ended, in hand of its thread.
pub record Claim : Type 0 where
  pub job : FetchJob
  pub waiters : List Read

abbrev pub AreRight : Claim → Type 0
AreRight c = All (λ r. r.key ≡ c.job.key) c.waiters

pick :
    (c : Claim) (before after : List Claim)
    → All AreRight (before ++ (c ∷ after))
    → AreRight c × All AreRight (before ++ after)
pick c [] after right = right
pick c (x ∷ xs) after (first, right) = let rest = pick c xs after right in (rest.0, (first, rest.1))

module _ (content : Text → Blob) where
  -- A step of a thread, on the store and the ended downloads whose waiting reads a thread has in hand. A
  -- download gives the bytes of its document or fails. What `resolve_size` stores may come later.
  pub data Step : List Claim × BlobStore → List Claim × BlobStore → Type 0 where
    looked : (r : Read) (held : List Claim) (s : BlobStore) → Step (held, s) (held, (look r s).1)
    enlisted :
        (r : Read) (workspace_id : Text) (doc_id : ℕ) (held : List Claim) (s : BlobStore)
        → Step (held, s) (held, enlist r workspace_id doc_id s)
    claimed :
        (job : FetchJob) (held : List Claim) (s : BlobStore)
        → Step (held, s) (record { job = job; waiters = (claim job s).0 } ∷ held, (claim job s).1)
    finished :
        (c : Claim) (result : Option Blob) (before after : List Claim) (s : BlobStore)
        → ((b : Blob) → result ≡ some b → b ≡ content c.job.key)
        → Step (before ++ (c ∷ after), s) (before ++ after, finish c.job result c.waiters s)
    resolved :
        (key : Text) (result : Option Blob) (held : List Claim) (s : BlobStore)
        → ((b : Blob) → result ≡ some b → b ≡ content key)
        → Step (held, s) (held, (resolve_size key result s).1)
    stored :
        (key : Text) (held : List Claim) (s : BlobStore)
        → Step (held, s) (held, record s { cache = put key (content key) s.cache })

  pub data Reach (budget : ℕ) : List Claim × BlobStore → Type 0 where
    begun : Reach budget ([], new budget)
    stepped : (x y : List Claim × BlobStore) → Reach budget x → Step x y → Reach budget y

  step-IsServed :
      (x y : List Claim × BlobStore)
      → Step x y
      → All AreRight x.0 × IsServed content x.1
      → All AreRight y.0 × IsServed content y.1
  unfolding claim
  step-IsServed _ _ (looked r held s) (hs, ok) = (hs, look-IsServed content r s ok)
  step-IsServed _ _ (enlisted r workspace_id doc_id held s) (hs, ok) =
      (hs, enlist-IsServed content r workspace_id doc_id s ok)
  step-IsServed _ _ (claimed job held s) (hs, ok) =
      ((waiters-right job.key s.in_flight ok.waiting, hs), claim-IsServed content job s ok)
  step-IsServed _ _ (finished c result before after s right) (hs, ok) =
      let one = pick c before after hs in
      (one.1, finish-IsServed content c.job result c.waiters s right one.0 ok)
  step-IsServed _ _ (resolved key result held s right) (hs, ok) =
      (hs, resolve_size-IsServed content key result s right ok)
  step-IsServed _ _ (stored key held s) (hs, ok) = (hs, put-IsServed content key s ok)

  -- Whatever reads come in, whatever is evicted and however the steps of the threads interleave: if each
  -- download gives the bytes of its document or fails, then in every state that the store reaches each
  -- answer is the bytes that the document has at that offset, or an error; the cache holds contents of
  -- documents only; and who waits for a download, or is in hand of a thread whose download has ended, asked
  -- for its document.
  pub Reach-IsServed :
      (budget : ℕ) (x : List Claim × BlobStore)
      → Reach budget x
      → All AreRight x.0 × IsServed content x.1
  unfolding new lookup
  Reach-IsServed budget _ begun = (
    tt,
    record {
      cached = λ k b there. ground (arith, there);
      answered = tt;
      waiting = λ k rs there. ground (arith, there);
    },
  )
  Reach-IsServed budget _ (stepped x y before step) =
      step-IsServed x y step (Reach-IsServed budget x before)
