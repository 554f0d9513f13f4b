-- ===== src/Engine/Select/Laws.antt =====
-- The choice of the next job (src/mirror/sync.rs, `drain_jobs`): dependencies, urgency and what is held back.
use canvas_fuse.Prelude.{
  ℕ, zero, suc, ◌≤◌, ◌<◌, ◌≡◌, refl, ◌∙◌, ap, sym, Bool, true, false, ◌&&◌, none, some, List, [],
  ◌∷◌, arith, Bool-cases, Option-cases, ◌⊎◌, inl, inr, ltb, leb, retain, ltb→lt, subst,
}
use canvas_fuse.Store.{Job}
use canvas_fuse.Mirror.{Mirror}
use canvas_fuse.Engine.Select.{
  before, place, sort_jobs, jobs_overlap, earliest, prior, inherit_from, inherit, held_back,
  select_from, select,
}

-- A job is among the jobs.
abbrev pub In : Job → List Job → Type 0
In j [] = ⊥
In j (x ∷ js) = (x ≡ j) ⊎ In j js

In-place : (j x : Job) (js : List Job) → In j (x ∷ js) → In j (place x js)
unfolding place
In-place j x [] i = i
In-place j x (y ∷ js) i = elim (Bool-cases (before y x)) [
  | inl front ↦ rw front (ground (arith, λ (h : In j (x ∷ js)). In-place j x js h))
  | inr back ↦ rw back i
]

place-In : (j x : Job) (js : List Job) → In j (place x js) → In j (x ∷ js)
unfolding place
place-In j x [] i = i
place-In j x (y ∷ js) i = elim (Bool-cases (before y x)) [
  | inl front ↦
      let i' : In j (y ∷ place x js) = rw front at i in
      ground (arith, λ (h : In j (place x js)). place-In j x js h)
  | inr back ↦ rw back at i
]

pub In-sort_jobs : (j : Job) (js : List Job) → In j js → In j (sort_jobs js)
unfolding sort_jobs
In-sort_jobs j [] i = elim i [ ]
In-sort_jobs j (x ∷ js) (inl same) = In-place j x (sort_jobs js) (inl same)
In-sort_jobs j (x ∷ js) (inr i) = In-place j x (sort_jobs js) (inr (In-sort_jobs j js i))

pub sort_jobs-In : (j : Job) (js : List Job) → In j (sort_jobs js) → In j js
unfolding sort_jobs
sort_jobs-In j [] i = elim i [ ]
sort_jobs-In j (x ∷ js) i = elim (place-In j x (sort_jobs js) i) [
  | inl same ↦ inl same
  | inr k ↦ inr (sort_jobs-In j js k)
]

earliest-In : (js : List Job) (k : Job) → earliest js ≡ some k → In k js
unfolding earliest
earliest-In [] k h = absurd (ground arith)
earliest-In (j ∷ js) k h = elim (Option-cases (earliest js)) [
  | inl nothing ↦ inl (ground arith)
  | inr (x, found) ↦ elim (Bool-cases (leb j.seq x.seq)) [
    | inl front ↦ inl (ground arith)
    | inr back ↦ let same : x ≡ k = ground arith in inr (earliest-In js k (found ∙ ap some same))
  ]
]

retain-In : (p : Job → Bool) (js : List Job) (k : Job) → In k (retain p js) → In k js × (p k ≡ true)
unfolding retain
retain-In p [] k i = elim i [ ]
retain-In p (j ∷ js) k i = elim (Bool-cases (p j)) [
  | inl keeps ↦ elim (rw keeps at i) as (λ _. In k (j ∷ js) × (p k ≡ true)) [
    | inl same ↦ (inl same, ap p (sym same) ∙ keeps)
    | inr b ↦ (inr (retain-In p js k b).0, (retain-In p js k b).1)
  ]
  | inr drops ↦
      let h : In k (retain p js) = rw drops at i in
      (inr (retain-In p js k h).0, (retain-In p js k h).1)
]

-- A search that fails has nothing that passes.
earliest-finds :
    (p : Job → Bool) (js : List Job) (j : Job)
    → In j js
    → earliest (retain p js) ≡ none
    → p j ≡ false
unfolding earliest retain
earliest-finds p [] j i h = elim i [ ]
earliest-finds p (x ∷ js) j (inl same) h = ground arith
earliest-finds p (x ∷ js) j (inr i) h = earliest-finds p js j i (ground arith)

prior-earlier :
    (jobs : List Job) (job p : Job)
    → prior jobs job ≡ some p
    → In p jobs × (p.seq < job.seq) × (jobs_overlap p job ≡ true)
unfolding prior
prior-earlier jobs job p h =
    let (there, test) =
      retain-In (λ j. ltb j.seq job.seq && jobs_overlap j job) jobs p
        (earliest-In (retain (λ j. ltb j.seq job.seq && jobs_overlap j job) jobs) p h) in
    (there, ltb→lt p.seq job.seq (ground arith), ground arith)

-- With as many rounds as its number, the candidate's chain of earlier jobs is followed to its end.
inherit_from-done :
    (rounds : ℕ) (jobs : List Job) (job : Job)
    → job.seq ≤ rounds
    → prior jobs (inherit_from rounds jobs job) ≡ none
unfolding inherit_from
inherit_from-done zero jobs job h = elim (Option-cases (prior jobs job)) [
  | inl last ↦ last
  | inr (p, found) ↦ ground (arith, (prior-earlier jobs job p found).1)
]
inherit_from-done (suc rounds) jobs job h = elim (Option-cases (prior jobs job)) [
  | inl last ↦ rw (last, inherit_from) last
  | inr (p, found) ↦
      rw (found, inherit_from)
        (inherit_from-done rounds jobs p (ground (arith, (prior-earlier jobs job p found).1)))
]

inherit_from-In :
    (rounds : ℕ) (jobs : List Job) (job : Job)
    → In job jobs
    → In (inherit_from rounds jobs job) jobs
unfolding inherit_from
inherit_from-In zero jobs job i = i
inherit_from-In (suc rounds) jobs job i = elim (Option-cases (prior jobs job)) [
  | inl last ↦ rw (last, inherit_from) i
  | inr (p, found) ↦
      rw (found, inherit_from) (inherit_from-In rounds jobs p (prior-earlier jobs job p found).0)
]

-- No earlier job of the list touches a path of the job.
abbrev pub IsFirst : List Job → Job → Type 0
IsFirst jobs job = (i : Job) → In i jobs → i.seq < job.seq → jobs_overlap i job ≡ false

prior-IsFirst : (jobs : List Job) (job : Job) → prior jobs job ≡ none → IsFirst jobs job
unfolding prior
prior-IsFirst jobs job h i there earlier =
    ground (arith, earliest-finds (λ j. ltb j.seq job.seq && jobs_overlap j job) jobs i there h)

-- A job that no earlier one blocks is its own last dependency.
IsFirst-prior : (jobs : List Job) (job : Job) → IsFirst jobs job → prior jobs job ≡ none
IsFirst-prior jobs job f = elim (Option-cases (prior jobs job)) [
  | inl last ↦ last
  | inr (p, found) ↦
      let (there, earlier, touches) = prior-earlier jobs job p found in
      absurd (ground (arith, f p there earlier))
]

inherit_from-IsFirst :
    (rounds : ℕ) (jobs : List Job) (job : Job)
    → prior jobs job ≡ none
    → inherit_from rounds jobs job ≡ job
unfolding inherit_from
inherit_from-IsFirst zero jobs job h = refl
inherit_from-IsFirst (suc rounds) jobs job h = rw (h, inherit_from) refl

module _ {D : Type 0} (m : Mirror D) where
  select_from_sound :
      (jobs cs : List Job) (job : Job)
      → ((c : Job) → In c cs → In c jobs)
      → select_from m jobs cs ≡ some job
      → In job jobs × (prior jobs job ≡ none) × (held_back m job ≡ false)
  unfolding select_from inherit
  select_from_sound jobs [] job sub h = absurd (ground arith)
  select_from_sound jobs (c ∷ cs) job sub h = elim (Bool-cases (held_back m (inherit jobs c))) [
    | inl held ↦ select_from_sound jobs cs job (λ d i. sub d (inr i)) (ground arith)
    | inr free ↦
        let same : inherit jobs c ≡ job = ground arith in
        subst (λ j. In j jobs × (prior jobs j ≡ none) × (held_back m j ≡ false)) same
          (
            inherit_from-In c.seq jobs c (sub c (inl refl)),
            inherit_from-done c.seq jobs c (omega arith),
            free,
          )
  ]

  select_from_complete :
      (jobs cs : List Job) (job : Job)
      → In job cs
      → prior jobs job ≡ none
      → select_from m jobs cs ≡ none
      → held_back m job ≡ true
  unfolding select_from inherit
  select_from_complete jobs [] job i f h = elim i [ ]
  select_from_complete jobs (c ∷ cs) job (inl same) f h = elim (Bool-cases (held_back m job)) [
    | inl held ↦ held
    | inr free ↦ absurd (ground (arith, inherit_from-IsFirst job.seq jobs job f))
  ]
  select_from_complete jobs (c ∷ cs) job (inr i) f h =
      select_from_complete jobs cs job i f (ground arith)

  -- The job that the engine runs next is in the queue, is due, has no path open for writing and is not
  -- one that protected mode has stopped; and no earlier job of the queue touches one of its paths.
  pub select-IsReady :
      (job : Job)
      → select m ≡ some job
      → In job m.store.jobs × (held_back m job ≡ false) × IsFirst m.store.jobs job
  unfolding select
  select-IsReady job h =
      let (there, last, free) =
        select_from_sound (sort_jobs m.store.jobs) (sort_jobs m.store.jobs) job (λ c i. i) h in
      (
        sort_jobs-In job m.store.jobs there,
        free,
        λ i k earlier.
            prior-IsFirst (sort_jobs m.store.jobs) job last i (In-sort_jobs i m.store.jobs k)
              earlier,
      )

  -- Where the engine finds no job to run, each job of the queue that no earlier one blocks is held
  -- back itself: it is not due, a path of it is open for writing, or protected mode has stopped it.
  pub select-IsExhaustive :
      (job : Job)
      → select m ≡ none
      → In job m.store.jobs
      → IsFirst m.store.jobs job
      → held_back m job ≡ true
  unfolding select
  select-IsExhaustive job h i f =
      select_from_complete (sort_jobs m.store.jobs) (sort_jobs m.store.jobs) job
        (In-sort_jobs job m.store.jobs i)
        (IsFirst-prior (sort_jobs m.store.jobs) job
          (λ k there. f k (sort_jobs-In k m.store.jobs there)))
        h
