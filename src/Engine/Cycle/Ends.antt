-- ===== src/Engine/Cycle/Ends.antt =====
-- The loops that end when the hub says so (src/mirror/sync.rs, `rebuild_from_listing` and `catch_up`).
use canvas_fuse.Prelude.{
  ap, ℕ, zero, suc, ◌-◌, ◌<◌, ◌≡◌, refl, ◌∙◌, Bool, true, false, Option, none, some, List, [], ◌∷◌,
  ◌++◌, Text, arith, Bool-cases, Option-cases, inl, inr, ltb, length, All, if◌then◌else◌,
}
use canvas_fuse.Prelude.Table.{Table}
use canvas_fuse.Hub.{RemoteStat, Listing, Changes, Change, Result, ok, err}
use canvas_fuse.Local.{Local}
use canvas_fuse.Mirror.{Mirror}
use canvas_fuse.Engine.{Client}
use canvas_fuse.Engine.Run.{drain_jobs}
use canvas_fuse.Engine.Feed.{Feed, prepare_listing_directories}
use canvas_fuse.Engine.Cycle.{
  Run, ◌>>=◌, ◌>>◌, run, change, changes_page, Pages, list_pages, reconcile_listed,
  rebuild_from_listing, apply_changes, catch_up_from, next_since, fetch_changes, settle_changes,
  settle_page, reconcile_one, settle_listing, reconcile_all, finish_listing, apply_unless_moved,
  settle_feed_page, follow_page,
}
use canvas_fuse.Engine.Cycle.Since.{IsAhead, next_since-bounds}

-- The rounds did.
abbrev pub Ended : {A : Type 0} → Option A → Type 0
Ended {A} o = (x : A) × (o ≡ some x)

some_inj : {A : Type 0} {a b : A} → some a ≡ some b → a ≡ b
some_inj e = cc

module _ {D A B : Type 0} where
  -- A sequence ends if its parts do.
  bind-Ended :
      (f : Run D A) (k : A → Run D B) (m : Mirror D)
      → Ended (f m)
      → ((a : A) (m' : Mirror D) → f m ≡ some (ok a, m') → Ended (k a m'))
      → Ended ((f >>= k) m)
  bind-Ended f k m (x, e) h = go x e
    where
      go : (y : Result A × Mirror D) → f m ≡ some y → Ended ((f >>= k) m)
      go (ok a, m') e' = rw (◌>>=◌, e') (h a m' e')
      go (err failure, m') e' = rw (◌>>=◌, e') ((err failure, m'), refl)

module _ {D : Type 0} (local : Local D) (client : Client D) (feed : Feed D)
    (sort : List Text → List Text) where
  -- The hub ends its listing: each cursor that a page gives is nearer to the end.
  abbrev pub EndsListing : (Option Text → ℕ) → Type 0
  EndsListing left =
      (at : Option Text) (m m' : Mirror D) (page : Listing) (c : Text)
      → feed.list_objects at m ≡ (ok page, m')
      → page.cursor ≡ some c
      → left (some c) < left at

  settle_page-Ended :
      (rest : Option Text → Pages → Run D Pages) (at : Option Text) (pages : Pages) (page : Listing)
      (touched : List Text) (m : Mirror D)
      → ((c : Text) (pages' : Pages) → page.cursor ≡ some c → Ended (rest (some c) pages' m))
      → Ended (settle_page local client feed sort rest at pages page touched m)
  unfolding settle_page
  settle_page-Ended rest at pages page touched m h = elim (Option-cases page.cursor) [
    | inl last ↦ rw (settle_page, last) (_, refl)
    | inr (c, next) ↦ rw (settle_page, next) (h c _ next)
  ]

  list_pages-Ended :
      (left : Option Text → ℕ)
      → EndsListing left
      → (rounds : ℕ) (at : Option Text) (pages : Pages) (m : Mirror D) → left at < rounds
      → Ended (list_pages local client feed sort rounds at pages m)
  unfolding list_pages
  list_pages-Ended left ends zero at pages m h = absurd (omega (arith, h))
  list_pages-Ended left ends (suc rounds) at pages m h =
      let rest = list_pages local client feed sort rounds in
      let more = run (drain_jobs local client sort 16 []) in
      bind-Ended (run (feed.list_objects at))
        (λ page. more >>= settle_page local client feed sort rest at pages page) m (_, refl)
        (λ page m1 e1.
          bind-Ended more (settle_page local client feed sort rest at pages page) m1 (_, refl)
            (λ touched m2 e2. settle_page-Ended rest at pages page touched m2 (λ c pages' next.
              list_pages-Ended left ends rounds (some c) pages' m2
                (omega (arith, h, ends at m m1 page c (some_inj e1) next)))))

  reconcile_listed-Ended :
      (remote : Table RemoteStat) (touched keys : List Text) (m : Mirror D)
      → Ended (reconcile_listed local client feed sort remote touched keys m)
  unfolding reconcile_listed
  reconcile_listed-Ended remote touched [] m = (_, refl)
  reconcile_listed-Ended remote touched (key ∷ keys) m =
      let one = λ (ts : List Text). run (reconcile_one local client feed sort remote ts key) in
      let rest = λ (ts : List Text). reconcile_listed local client feed sort remote ts keys in
      bind-Ended (run (drain_jobs local client sort 16 []))
        (λ more. one (more ++ touched) >> rest (more ++ touched)) m (_, refl)
        (λ more m1 e1.
          bind-Ended (one (more ++ touched)) (λ _. rest (more ++ touched)) m1 (_, refl)
            (λ u m2 e2. reconcile_listed-Ended remote (more ++ touched) keys m2))

  settle_listing-Ended :
      (epoch : ℕ) (pages : Pages) (m : Mirror D)
      → Ended (settle_listing local client feed sort epoch pages m)
  unfolding settle_listing reconcile_all
  settle_listing-Ended epoch pages m =
      let dirs = run (prepare_listing_directories local sort pages.remote pages.touched epoch) in
      let all = reconcile_all local client feed sort pages in
      bind-Ended (dirs >> all) (λ _. change (finish_listing pages.head epoch)) m
        (bind-Ended dirs (λ _. all) m (_, refl)
          (λ u m1 e1. reconcile_listed-Ended pages.remote pages.touched _ m1))
        (λ u m1 e1. (_, refl))

  -- A listing pass ends with a result, be it an error, after more rounds than the measure of its start, if
  -- the hub's cursors come nearer to the end of the listing by that measure with each page.
  pub rebuild_from_listing-Ended :
      (left : Option Text → ℕ)
      → EndsListing left
      → (rounds : ℕ) (m : Mirror D) → left none < rounds
      → Ended (rebuild_from_listing local client feed sort rounds m)
  unfolding rebuild_from_listing
  rebuild_from_listing-Ended left ends rounds m h =
      bind-Ended (list_pages local client feed sort rounds none _)
        (settle_listing local client feed sort m.directory_epoch) m
        (list_pages-Ended left ends rounds none _ m h)
        (λ pages m1 e1. settle_listing-Ended m.directory_epoch pages m1)

  apply_changes-Ended :
      (cs : List Change) (m : Mirror D) → Ended (apply_changes local client feed sort cs m)
  unfolding apply_changes
  apply_changes-Ended [] m = (_, refl)
  apply_changes-Ended (c ∷ cs) m =
      let rest = apply_changes local client feed sort cs in
      let one = run (apply_unless_moved local client feed sort c) in
      let then_rest =
        λ (moved : Bool). if moved then (λ (m' : Mirror D). some (ok true, m')) else rest in
      bind-Ended (run (drain_jobs local client sort 16 [])) (λ _. one >>= then_rest) m (_, refl)
        (λ more m1 e1.
          bind-Ended one then_rest m1 (_, refl)
            (λ moved m2 e2. go moved m2 (apply_changes-Ended cs m2)))
    where
      go :
          (moved : Bool) (m' : Mirror D)
          → Ended (apply_changes local client feed sort cs m')
          → Ended (
              (if moved
                  then (λ (x : Mirror D). some (ok true, x))
                  else apply_changes local client feed sort cs)
                m')
      go true m' e = (_, refl)
      go false m' e = e

  -- What the hub promises of its feed, whose log ends at the bound: each change that it answers with has
  -- a number above the one that it was asked for, and not above the bound.
  abbrev pub EndsFeed : ℕ → Type 0
  EndsFeed bound =
      (since : ℕ) (m m' : Mirror D) (page : Changes)
      → feed.changes since m ≡ (ok page, m')
      → All (IsAhead since bound) page.changes

  fetched_of :
      (m' : Mirror D) (page : Changes) (x : Result Changes × Mirror D)
      → settle_changes local client feed sort x.0 x.1 ≡ (ok (some page), m')
      → (m1 : Mirror D) × (x ≡ (ok page, m1))
  unfolding settle_changes
  fetched_of m' page (ok p, m1) e = (m1, ground (arith, e))
  fetched_of m' page (err failure, m1) e = absurd (ground (arith, e))

  fetched :
      (since : ℕ) (m m' : Mirror D) (page : Changes)
      → fetch_changes local client feed sort since m ≡ (ok (some page), m')
      → (m1 : Mirror D) × (feed.changes since m ≡ (ok page, m1))
  unfolding fetch_changes
  fetched since m m' page e = fetched_of m' page (feed.changes since m) e

  settle_feed_page-Ended :
      (rest : ℕ → Run D (Unit {0})) (since : ℕ) (page : Changes) (m : Mirror D)
      → (ltb (length page.changes) changes_page ≡ false
          → (m' : Mirror D) → Ended (rest (next_since local client feed sort since page) m'))
      → Ended (settle_feed_page local client feed sort rest since page m)
  unfolding settle_feed_page
  settle_feed_page-Ended rest since page m h =
      elim (Bool-cases (ltb (length page.changes) changes_page)) [
        | inl short ↦ rw (settle_feed_page, short) (_, refl)
        | inr full ↦ rw (settle_feed_page, full) (h full _)
      ]

  module _ (left : Option Text → ℕ) (ends : EndsListing left) (listing : ℕ)
      (enough : left none < listing) where
    after_page :
        (rest : ℕ → Run D (Unit {0})) (since : ℕ) (page : Changes) (stale : Bool) (m : Mirror D)
        → Ended (settle_feed_page local client feed sort rest since page m)
        → Ended (
            (if stale
                then rebuild_from_listing local client feed sort listing
                else settle_feed_page local client feed sort rest since page)
              m)
    after_page rest since page true m e = rebuild_from_listing-Ended left ends listing m enough
    after_page rest since page false m e = e

    follow_page-Ended :
        (rest : ℕ → Run D (Unit {0})) (since : ℕ) (found : Option Changes) (m : Mirror D)
        → ((page : Changes)
            → found ≡ some page
            → ltb (length page.changes) changes_page ≡ false
            → (m' : Mirror D) → Ended (rest (next_since local client feed sort since page) m'))
        → Ended (follow_page local client feed sort listing rest since found m)
    unfolding follow_page
    follow_page-Ended rest since none m h = rebuild_from_listing-Ended left ends listing m enough
    follow_page-Ended rest since (some page) m h =
        bind-Ended (apply_changes local client feed sort page.changes) _ m
          (apply_changes-Ended page.changes m)
          (λ stale m1 e1.
            after_page rest since page stale m1
              (settle_feed_page-Ended rest since page m1 (h page refl)))

    -- Following the feed ends with a result, be it an error, after more rounds than there are numbers left
    -- below a bound, if the hub answers only with changes whose numbers are above the one that it was
    -- asked for and not above the bound, and a listing, which the feed may call for, has the rounds
    -- that it needs.
    pub catch_up_from-Ended :
        (bound : ℕ)
        → EndsFeed bound
        → (rounds since : ℕ) (m : Mirror D) → bound - since < rounds
        → Ended (catch_up_from local client feed sort listing rounds since m)
    unfolding catch_up_from
    catch_up_from-Ended bound feeds zero since m h = absurd (omega (arith, h))
    catch_up_from-Ended bound feeds (suc rounds) since m h =
        let rest = catch_up_from local client feed sort listing rounds in
        bind-Ended (run (fetch_changes local client feed sort since))
          (follow_page local client feed sort listing rest since) m (_, refl)
          (λ found m1 e1. follow_page-Ended rest since found m1 (λ page got full m2.
            let (m', e) = fetched since m m1 page (some_inj e1 ∙ ap (λ f. (ok f, m1)) got) in
            let (above, below) =
              next_since-bounds local client feed sort bound since page (feeds since m m' page e)
                full in
            catch_up_from-Ended bound feeds rounds _ m2 (omega (arith, h, above, below))))
