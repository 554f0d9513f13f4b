-- ===== src/Engine/Cycle/Follows.antt =====
-- Where the feed is followed from after a pass that succeeds (src/mirror/sync.rs, `catch_up`).
use canvas_fuse.Prelude.{
  ℕ, zero, suc, ◌≤◌, ◌≡◌, refl, subst, Bool, true, false, Option, none, some, List, [], Text, codes,
  arith, Bool-cases, inl, inr, ltb, length, text_beq, if◌then◌else◌,
}
use canvas_fuse.Prelude.Table.{lookup, lookup-insert}
use canvas_fuse.Engine.Cycle.Since.{next_since-above}
use canvas_fuse.Hub.{Changes, Result, ok, err}
use canvas_fuse.Local.{Local}
use canvas_fuse.Store.Ledger.{
  cursor, head_key, set_cursor, number, set_number, set_meta, get_meta, listed_key,
}
use canvas_fuse.Mirror.{Mirror, on_store}
use canvas_fuse.Engine.{Client}
use canvas_fuse.Engine.Feed.{Feed, prepare_listing_directories}
use canvas_fuse.Engine.Cycle.{
  Pages, Run, ◌>>=◌, ◌>>◌, run, change, changes_page, rebuild_from_listing, list_pages,
  settle_listing, finish_listing, reconcile_all, apply_changes, catch_up_from, next_since,
  fetch_changes, follow_page, settle_feed_page,
}

module _ {D A B : Type 0} where
  -- A sequence that succeeds went through its first part.
  bind-ok :
      (f : Run D A) (k : A → Run D B) (m m'' : Mirror D) (b : B)
      → (f >>= k) m ≡ some (ok b, m'')
      → (a : A) × (m' : Mirror D) × (f m ≡ some (ok a, m')) × (k a m' ≡ some (ok b, m''))
  bind-ok f k m m'' b e = go (f m) refl e
    where
      step : Option (Result A × Mirror D) → Option (Result B × Mirror D)
      step o = elim o [
        | none ↦ none
        | some (r, m') ↦ elim r [ ok a ↦ k a m' | err e' ↦ some (err e', m') ]
      ]

      go :
          (o : Option (Result A × Mirror D))
          → f m ≡ o
          → step o ≡ some (ok b, m'')
          → (a : A) × (m' : Mirror D) × (f m ≡ some (ok a, m')) × (k a m' ≡ some (ok b, m''))
      go none same h = absurd (ground (arith, h))
      go (some (ok a, m')) same h = (a, m', same, h)
      go (some (err e', m')) same h = absurd (ground (arith, h))

-- The state of a result.
ended :
    {D : Type 0} {u v : Unit {0}} {m m' : Mirror D}
    → ◌≡◌ {A = Option (Result (Unit {0}) × Mirror D)} (some (ok u, m)) (some (ok v, m'))
    → m ≡ m'
ended e = cc

module _ {D : Type 0} (local : Local D) (client : Client D) (feed : Feed D)
    (sort : List Text → List Text) where
  -- A listing pass is complete: after its pages, the directories and the keys of the listing, the number
  -- from which the feed is followed is the head that the first page named, and the listing is
  -- recorded.
  pub record IsListed (listing : ℕ) (m' : Mirror D) : Type 0 where
    pub start : Mirror D
    pub listed : Mirror D
    pub reconciled : Mirror D
    pub pages : Pages
    pub every_page :
        list_pages local client feed sort listing none
          (record { remote = []; touched = []; head = 0 })
          start
        ≡ some (ok pages, listed)
    pub every_key :
        (run (
              prepare_listing_directories local sort pages.remote pages.touched
                start.directory_epoch)
            >> reconcile_all local client feed sort pages)
          listed
        ≡ some (ok tt, reconciled)
    pub from_head : cursor m'.store ≡ some pages.head
    pub known_head : lookup head_key m'.store.numbers ≡ some pages.head
    pub recorded : get_meta listed_key m'.store ≡ some (codes "1")
    pub disk : m'.disk ≡ reconciled.disk
    pub entries : m'.store.entries ≡ reconciled.store.entries

  -- The feed is followed from a number that is not below the bound, or from the head of a listing that
  -- has been run to its end.
  pub data IsFollowed (listing since : ℕ) (m : Mirror D) : Type 0 where
    by_feed : (c : ℕ) → cursor m.store ≡ some c → since ≤ c → IsFollowed listing since m
    by_listing : IsListed listing m → IsFollowed listing since m

  rebuild-IsListed :
      (listing : ℕ) (m m' : Mirror D) (u : Unit {0})
      → rebuild_from_listing local client feed sort listing m ≡ some (ok u, m')
      → IsListed listing m'
  unfolding rebuild_from_listing settle_listing finish_listing on_store cursor number set_cursor
      set_number set_meta get_meta text_beq
  rebuild-IsListed listing m m' u e =
      let (pages, m1, e0, e1) =
        bind-ok (list_pages local client feed sort listing none _)
          (settle_listing local client feed sort m.directory_epoch) m m' u e in
      let (v, m2, e2, e3) =
        bind-ok
          (run (prepare_listing_directories local sort pages.remote pages.touched m.directory_epoch)
            >> reconcile_all local client feed sort pages)
          (λ _. change (finish_listing pages.head m.directory_epoch)) m1 m' u e1 in
      subst (IsListed listing) (ended e3) (record {
        start = m;
        listed = m1;
        reconciled = m2;
        pages = pages;
        every_page = e0;
        every_key = e2;
        from_head = rw (lookup-insert, lookup-insert) refl;
        known_head = rw lookup-insert refl;
        recorded = rw (lookup-insert, lookup-insert) refl;
        disk = refl;
        entries = refl;
      })

  module _ (listing : ℕ) where
    set_cursor-IsFollowed :
        (since c : ℕ) (m : Mirror D)
        → since ≤ c
        → IsFollowed listing since (on_store (set_cursor c) m)
    unfolding on_store cursor number set_cursor set_number text_beq
    set_cursor-IsFollowed since c m h = by_feed c (rw lookup-insert refl) h

    weaken :
        (since since' : ℕ) (m : Mirror D)
        → since ≤ since'
        → IsFollowed listing since' m
        → IsFollowed listing since m
    weaken since since' m h (by_feed c e above) = by_feed c e (omega (arith, h, above))
    weaken since since' m h (by_listing l) = by_listing l

    -- What the rest of the loop does.
    abbrev Follows : (ℕ → Run D (Unit {0})) → Type 0
    Follows rest =
        (since : ℕ) (m m' : Mirror D) (u : Unit {0})
        → rest since m ≡ some (ok u, m')
        → IsFollowed listing since m'

    page-IsFollowed :
        (rest : ℕ → Run D (Unit {0})) (since : ℕ) (page : Changes) (m m' : Mirror D) (u : Unit {0})
        → Follows rest
        → settle_feed_page local client feed sort rest since page m ≡ some (ok u, m')
        → IsFollowed listing since m'
    unfolding settle_feed_page
    page-IsFollowed rest since page m m' u h e =
        elim (Bool-cases (ltb (length page.changes) changes_page)) [
          | inl short ↦
              subst (IsFollowed listing since) (ended (rw (settle_feed_page, short) at e)) (
                set_cursor-IsFollowed since next m
                  (next_since-above local client feed sort since page))
          | inr full ↦
              weaken since next m' (next_since-above local client feed sort since page)
                (h next _ m' u (rw (settle_feed_page, full) at e))
        ]
      where
        next : ℕ
        next = next_since local client feed sort since page

    after_page :
        (rest : ℕ → Run D (Unit {0})) (since : ℕ) (page : Changes) (m m' : Mirror D) (u : Unit {0})
        (stale : Bool)
        → Follows rest
        → (if stale
              then rebuild_from_listing local client feed sort listing
              else settle_feed_page local client feed sort rest since page)
            m
          ≡ some (ok u, m')
        → IsFollowed listing since m'
    after_page rest since page m m' u true h e = by_listing (rebuild-IsListed listing m m' u e)
    after_page rest since page m m' u false h e = page-IsFollowed rest since page m m' u h e

    found-IsFollowed :
        (rest : ℕ → Run D (Unit {0})) (since : ℕ) (found : Option Changes) (m m' : Mirror D)
        (u : Unit {0})
        → Follows rest
        → follow_page local client feed sort listing rest since found m ≡ some (ok u, m')
        → IsFollowed listing since m'
    unfolding follow_page
    found-IsFollowed rest since none m m' u h e = by_listing (rebuild-IsListed listing m m' u e)
    found-IsFollowed rest since (some page) m m' u h e =
        let (stale, m1, e0, e1) =
          bind-ok (apply_changes local client feed sort page.changes)
            (λ stale.
              if stale
              then rebuild_from_listing local client feed sort listing
              else settle_feed_page local client feed sort rest since page)
            m m' u e in
        after_page rest since page m1 m' u stale h e1

    -- Following the feed, where it succeeds, leaves a number from which the feed is followed next that is
    -- not below the one at the start; or a listing was run to its end instead: all its pages were read
    -- and all keys of the listing and the ledger were reconciled without an error, the listing is recorded,
    -- and the feed is followed from the head that belongs to its pages.
    pub catch_up_from-IsFollowed :
        (rounds since : ℕ) (m m' : Mirror D) (u : Unit {0})
        → catch_up_from local client feed sort listing rounds since m ≡ some (ok u, m')
        → IsFollowed listing since m'
    unfolding catch_up_from
    catch_up_from-IsFollowed zero since m m' u e = absurd (ground (arith, e))
    catch_up_from-IsFollowed (suc rounds) since m m' u e =
        let rest = catch_up_from local client feed sort listing rounds in
        let (found, m1, e0, e1) =
          bind-ok (run (fetch_changes local client feed sort since))
            (follow_page local client feed sort listing rest since) m m' u e in
        found-IsFollowed rest since found m1 m' u (catch_up_from-IsFollowed rounds) e1
