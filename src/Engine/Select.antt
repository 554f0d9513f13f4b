-- ===== src/Engine/Select.antt =====
-- Which job runs next: the selection in `drain_jobs` (src/mirror/sync.rs).
pub mod Laws
use canvas_fuse.Prelude.{
  ℕ, zero, suc, Bool, true, false, ◌&&◌, ◌||◌, not, Option, none, some, List, [], ◌∷◌, Text, nat_eq,
  ◌==◌, ltb, leb, any, retain, if◌then◌else◌,
}
use canvas_fuse.Paths.{overlaps}
use canvas_fuse.Store.{Job, JobPriority, interactive, discovered, background, rank, keys_of}
use canvas_fuse.Mirror.{Mirror, is_open_for_write}

-- The comparison of `jobs.sort_by`: `a` stands in front of `b`.
unfoldable pub before : Job → Job → Bool
before a b =
    if ltb (rank b.priority) (rank a.priority)
    then true
    else if ltb (rank a.priority) (rank b.priority)
    then false
    else elim a.priority [ interactive ↦ ltb b.seq a.seq | _ ↦ ltb a.seq b.seq ]

unfoldable pub place : Job → List Job → List Job
place j [] = j ∷ []
place j (x ∷ xs) = if before x j then x ∷ place j xs else j ∷ x ∷ xs

-- The library's sort, which the comparison determines: sequence numbers differ.
unfoldable pub sort_jobs : List Job → List Job
sort_jobs [] = []
sort_jobs (j ∷ js) = place j (sort_jobs js)

-- The closure `overlaps`.
unfoldable pub jobs_overlap : Job → Job → Bool
jobs_overlap a b = any (λ x. any (overlaps x) (keys_of b.kind)) (keys_of a.kind)

-- `min_by_key(|j| j.seq)`.
unfoldable pub earliest : List Job → Option Job
earliest [] = none
earliest (j ∷ js) = elim (earliest js) [
  | none ↦ some j
  | some k ↦ if leb j.seq k.seq then some j else some k
]

unfoldable pub prior : List Job → Job → Option Job
prior jobs job = earliest (retain (λ j. ltb j.seq job.seq && jobs_overlap j job) jobs)

-- The `while let` loop on the rounds left. Each round has a smaller sequence number, so that of the
-- candidate is rounds enough.
unfoldable pub inherit_from : ℕ → List Job → Job → Job
inherit_from zero jobs job = job
inherit_from (suc rounds) jobs job = elim (prior jobs job) [
  | none ↦ job
  | some p ↦ inherit_from rounds jobs p
]

unfoldable pub inherit : List Job → Job → Job
inherit jobs job = inherit_from job.seq jobs job

module _ {D : Type 0} where
  -- `if … { continue; }`
  unfoldable pub held_back : Mirror D → Job → Bool
  held_back m job =
      ltb m.now job.not_before
      || (any (λ n. n == job.seq) m.protected_jobs || any (is_open_for_write m) (keys_of job.kind))

  -- The `for` loop over the candidates.
  unfoldable pub select_from : Mirror D → List Job → List Job → Option Job
  select_from m jobs [] = none
  select_from m jobs (c ∷ cs) =
      if held_back m (inherit jobs c) then select_from m jobs cs else some (inherit jobs c)

  unfoldable pub select : Mirror D → Option Job
  select m = select_from m (sort_jobs m.store.jobs) (sort_jobs m.store.jobs)
