-- ===== src/Examples/Blobs.antt =====
-- The cache of blobs at concrete inputs.
use canvas_fuse.Prelude.{◌≡◌, arith, none, some, [], ◌∷◌, Text, codes, All, get_or}
use canvas_fuse.Prelude.Table.{lookup}
use canvas_fuse.Blobs.{Blob, Read, BlobStore, FetchJob, new, look, enlist, claim, finish, run_fetch}
use canvas_fuse.Blobs.Served.{IsServed}
use canvas_fuse.Blobs.Threads.{
  AreRight, Claim, Reach-IsServed, begun, stepped, looked, enlisted, claimed, finished,
}
use canvas_fuse.Blobs.Waiting.{IsAnswered, run_fetch-AnswersAll}

abbrev content : Text → Blob
content k = 7 ∷ 8 ∷ 9 ∷ []

abbrev read : Read
read = record { key = codes "k"; offset = 1; size = 5; id = 1 }

abbrev job : FetchJob
job = record { key = codes "k"; workspace_id = codes "w"; doc_id = 4 }

abbrev asked : BlobStore
asked = enlist read (codes "w") 4 (look read (new 0)).1

abbrev held : Claim
held = record { job = job; waiters = (claim job asked).0 }

abbrev done : BlobStore
done = finish job (some (content (codes "k"))) held.waiters (claim job asked).1

true_bytes : (b : Blob) → some (content (codes "k")) ≡ some b → b ≡ content (codes "k")
true_bytes b got = ground (arith, got)

Reach-IsServed_example : All AreRight [] × IsServed content done
Reach-IsServed_example =
    Reach-IsServed content 0 ([], done)
      (stepped (held ∷ [], (claim job asked).1) ([], done)
        (stepped ([], asked) (held ∷ [], (claim job asked).1)
          (stepped ([], (look read (new 0)).1) ([], asked)
            (stepped ([], new 0) ([], (look read (new 0)).1) begun (looked read [] (new 0)))
            (enlisted read (codes "w") 4 [] (look read (new 0)).1))
          (claimed job [] asked))
        (finished held (some (content (codes "k"))) [] [] (claim job asked).1 true_bytes))

run_fetch-AnswersAll_example :
    All
      (λ r. IsAnswered r (run_fetch job none asked).replies)
      (get_or (lookup job.key asked.in_flight) [])
    × (lookup job.key (run_fetch job none asked).in_flight ≡ none)
run_fetch-AnswersAll_example = run_fetch-AnswersAll job none asked
