-- ===== src/Engine/Cycle/Since.antt =====
-- The number that the feed is asked for next (src/mirror/sync.rs, `catch_up`).
use canvas_fuse.Prelude.{ℕ, ◌≤◌, ◌<◌, ◌≡◌, false, List, [], ◌∷◌, Text, arith, ltb, length, max, All}
use canvas_fuse.Hub.{Changes, Change}
use canvas_fuse.Local.{Local}
use canvas_fuse.Engine.{Client}
use canvas_fuse.Engine.Feed.{Feed}
use canvas_fuse.Engine.Cycle.{changes_page, last_of, next_since}

-- A change with a number above the one asked for, and not above the bound.
abbrev pub IsAhead : ℕ → ℕ → Change → Type 0
IsAhead since bound c = (since < c.seq) × (c.seq ≤ bound)

last_of-above : (last : ℕ) (cs : List Change) → last ≤ last_of last cs
unfolding last_of
last_of-above last [] = omega arith
last_of-above last (c ∷ cs) = omega (arith, last_of-above (max last c.seq) cs)

last_of-bounds :
    (since bound : ℕ) (cs : List Change) (last : ℕ)
    → last ≤ bound
    → All (IsAhead since bound) cs
    → (last ≤ last_of last cs) × (last_of last cs ≤ bound)
unfolding last_of
last_of-bounds since bound [] last h all = (omega arith, h)
last_of-bounds since bound (c ∷ cs) last h all =
    let (above, below) =
      last_of-bounds since bound cs (max last c.seq) (omega (arith, h, all.0.1)) all.1 in
    (omega (arith, above), below)

module _ {D : Type 0} (local : Local D) (client : Client D) (feed : Feed D)
    (sort : List Text → List Text) where
  pub next_since-above :
      (since : ℕ) (page : Changes) → since ≤ next_since local client feed sort since page
  unfolding next_since
  next_since-above since page = ground (arith, last_of-above since page.changes)

  -- A full page is followed by one that starts behind it.
  pub next_since-bounds :
      (bound since : ℕ) (page : Changes)
      → All (IsAhead since bound) page.changes
      → ltb (length page.changes) changes_page ≡ false
      → (since < next_since local client feed sort since page)
        × (next_since local client feed sort since page ≤ bound)
  unfolding next_since last_of
  next_since-bounds bound since page all full = go page.changes all full
    where
      go :
          (cs : List Change)
          → All (IsAhead since bound) cs
          → ltb (length cs) changes_page ≡ false
          → (since < (elim cs as (λ _. ℕ) [ [] ↦ max page.head since | _ ∷ _ ↦ last_of since cs ]))
            × ((elim cs as (λ _. ℕ) [ [] ↦ max page.head since | _ ∷ _ ↦ last_of since cs ])
                ≤ bound)
      go [] all full = absurd (ground (arith, full))
      go (c ∷ cs) all full =
          let (above, below) =
            last_of-bounds since bound cs (max since c.seq) (omega (arith, all.0.0, all.0.1))
              all.1 in
          (omega (arith, above, all.0.0), below)
