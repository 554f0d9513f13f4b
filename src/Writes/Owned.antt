-- ===== src/Writes/Owned.antt =====
-- The names of the files that are created and have no document yet (src/writes.rs).
use canvas_fuse.Prelude.{
  set, ℕ, ◌+◌, ◌-◌, not, ◌≡◌, ◌<◌, refl, Bool, true, false, ◌&&◌, Option, none, some, Text, text_eq,
  ◌==◌, nat_beq, length, text_beq_iff, is_some, arith, Bool-cases, Option-cases, inl, inr,
}
use canvas_fuse.Blobs.{Blob}
use canvas_fuse.Writes.{
  WResult, ok, err, FlushTarget, existing, create, ws_existing, home_file, ws_create, Disk,
  OpenWrite, Pending, Inner, new, resized, write_at, resize_at, write_in, resize, settle_io,
  put_state, open_overlay, write, add_pending, unless_is, note_close, forget, release,
}

abbrev is_at : ℕ → Text → Option Pending → Bool
is_at d n none = false
is_at d n (some p) = nat_beq p.dir_ino d && (p.name == n)

module _ {F D : Type 0} (disk : Disk F D) where
  pub record IsOwned (inner : Inner F D) : Type 0 where
    -- A name leads to a pending create of that name in that directory, with a write state.
    pub named :
        (d : ℕ) (n : Text) (ino : ℕ)
        → inner.overlay_names d n ≡ some ino
        → is_at d n (inner.overlay ino) ≡ true
    pub held : (ino : ℕ) → is_some (inner.overlay ino) ≡ true → is_some (inner.states ino) ≡ true
    pub below : (ino : ℕ) → is_some (inner.overlay ino) ≡ true → ino < inner.next_overlay_ino

  put_state-IsOwned :
      (ino : ℕ) (state : OpenWrite F) (inner : Inner F D)
      → IsOwned inner
      → IsOwned (put_state disk ino (some state) inner)
  unfolding put_state set
  put_state-IsOwned ino state inner o = record {
    named = o.named;
    held = λ i there. ground (arith, o.held i there);
    below = o.below;
  }

  settle_io-IsOwned :
      {A : Type 0} (ino : ℕ) (state : OpenWrite F) (value : A) (r : Bool × D) (inner : Inner F D)
      → IsOwned inner
      → IsOwned (settle_io disk ino state value r inner).1
  unfolding settle_io
  settle_io-IsOwned ino state value (true, files) inner o =
      put_state-IsOwned ino (record state { dirty = true }) (record inner { files = files })
        (record { named = o.named; held = o.held; below = o.below })
  settle_io-IsOwned ino state value (false, files) inner o =
      put_state-IsOwned ino state (record inner { files = files })
        (record { named = o.named; held = o.held; below = o.below })

  resize_at-IsOwned :
      (h : Option F) (ino : ℕ) (state : OpenWrite F) (n : ℕ) (inner : Inner F D)
      → IsOwned inner
      → IsOwned (resize_at disk h ino state n inner).1
  unfolding resize_at
  resize_at-IsOwned (some f) ino state n inner o =
      settle_io-IsOwned ino state tt (disk.set_len f n inner.files) inner o
  resize_at-IsOwned none ino state n inner o =
      put_state-IsOwned ino (record state { buffer = resized n state.buffer; dirty = true }) inner o

  opened-IsOwned :
      (ino : ℕ) (truncate : Bool) (state : Option (OpenWrite F)) (inner : Inner F D)
      → inner.states ino ≡ state
      → IsOwned inner
      → IsOwned (open_overlay disk ino truncate inner).1
  unfolding open_overlay resize
  opened-IsOwned ino truncate none inner eq o = rw (open_overlay, eq) o
  opened-IsOwned ino true (some state) inner eq o =
      rw (open_overlay, eq)
        (resize_at-IsOwned state.disk ino (record state { refs = state.refs + 1 }) 0 inner o)
  opened-IsOwned ino false (some state) inner eq o =
      rw (open_overlay, eq) (put_state-IsOwned ino (record state { refs = state.refs + 1 }) inner o)

  write_in-IsOwned :
      (h : Option F) (ino offset : ℕ) (written : Blob) (state : OpenWrite F) (inner : Inner F D)
      → IsOwned inner
      → IsOwned (write_in disk h ino offset written state inner).1
  unfolding write_in
  write_in-IsOwned (some f) ino offset written state inner o =
      settle_io-IsOwned ino state (length written) (disk.write_all_at f written offset inner.files)
        inner o
  write_in-IsOwned none ino offset written state inner o =
      put_state-IsOwned ino
        (record state { buffer = write_at offset written state.buffer; dirty = true }) inner o

  write-IsOwned :
      (ino offset : ℕ) (written : Blob) (inner : Inner F D)
      → IsOwned inner
      → IsOwned (write disk ino offset written inner).1
  unfolding write
  write-IsOwned ino offset written inner o = elim (Option-cases (inner.states ino)) [
    | inl eq ↦ rw (write, eq) o
    | inr (state, eq) ↦
        rw (write, eq) (write_in-IsOwned state.disk ino offset written state inner o)
  ]

  -- What is at a place is somewhere.
  is_at-some : (d : ℕ) (n : Text) (p : Option Pending) → is_at d n p ≡ true → is_some p ≡ true
  is_at-some d n none there = ground (arith, there)
  is_at-some d n (some p) there = refl

  add_pending-IsOwned :
      (dir_ino : ℕ) (name : Text) (target : FlushTarget) (opened : WResult (Option F)) (now : ℕ)
      (inner : Inner F D)
      → IsOwned inner
      → IsOwned (add_pending disk dir_ino name target opened now inner).1
  unfolding add_pending set
  add_pending-IsOwned dir_ino name target (err e) now inner o =
      elim (Bool-cases (is_some (inner.overlay_names dir_ino name))) [
        | inl taken ↦ rw taken o
        | inr free ↦ rw free o
      ]
  add_pending-IsOwned dir_ino name target (ok handle) now inner o =
      elim (Bool-cases (is_some (inner.overlay_names dir_ino name))) [
        | inl taken ↦ rw taken o
        | inr free ↦ rw free (record {
          named = λ d n i there. ground (
            arith,
            o.named d n i,
            there,
            o.below i,
            is_at-some d n (inner.overlay i),
            text_beq_iff n name,
            text_beq_iff name n,
          );
          held = λ i there. ground (arith, o.held i, there);
          below = λ i there. ground (arith, o.below i, there);
        })
      ]

  note_close-IsOwned :
      (t : FlushTarget) (state : OpenWrite F) (inner : Inner F D)
      → IsOwned inner
      → IsOwned (note_close disk t state inner)
  unfolding note_close
  note_close-IsOwned (home_file path d n) state inner o =
      elim (Bool-cases (inner.mirrored && not state.unlinked)) [
        | inl told ↦ rw told (record { named = o.named; held = o.held; below = o.below })
        | inr other ↦ rw other o
      ]
  note_close-IsOwned (existing _ _) state inner o = o
  note_close-IsOwned (create _ _ _ _) state inner o = o
  note_close-IsOwned (ws_existing _ _ _ _ _) state inner o = o
  note_close-IsOwned (ws_create _ _ _ _ _ _) state inner o = o

  unless_is-other :
      (ino i : ℕ) (x : Option ℕ)
      → unless_is disk ino x ≡ some i
      → (x ≡ some i) × (nat_beq i ino ≡ false)
  unfolding unless_is
  unless_is-other ino i none there = ground (arith, there)
  unless_is-other ino i (some j) there = ground (arith, there)

  forget-IsOwned : (ino : ℕ) (inner : Inner F D) → IsOwned inner → IsOwned (forget disk ino inner)
  unfolding forget set
  forget-IsOwned ino inner o = record {
    named = λ d n i there.
        let kept = unless_is-other ino i (inner.overlay_names d n) there in
        rw (kept.1) (o.named d n i kept.0);
    held = λ i there. ground (arith, o.held i, there);
    below = λ i there. ground (arith, o.below i, there);
  }

  release-IsOwned : (ino : ℕ) (inner : Inner F D) → IsOwned inner → IsOwned (release disk ino inner)
  unfolding release
  release-IsOwned ino inner o = elim (Option-cases (inner.states ino)) [
    | inl eq ↦ rw (release, eq) o
    | inr (state, eq) ↦ elim (Bool-cases (nat_beq (state.refs - 1) 0)) [
      | inl last ↦
          rw (release, eq, last)
            (forget-IsOwned ino (note_close disk state.target state inner)
              (note_close-IsOwned state.target state inner o))
      | inr held ↦
          rw (release, eq, held)
            (put_state-IsOwned ino (record state { refs = state.refs - 1 }) inner o)
    ]
  ]

  -- A call of the file system layer on open files and pending creates.
  pub data Step : Inner F D → Inner F D → Type 0 where
    opened :
        (ino : ℕ) (truncate : Bool) (inner : Inner F D)
        → Step inner (open_overlay disk ino truncate inner).1
    wrote :
        (ino offset : ℕ) (written : Blob) (inner : Inner F D)
        → Step inner (write disk ino offset written inner).1
    sized :
        (ino : ℕ) (state : OpenWrite F) (n : ℕ) (inner : Inner F D)
        → inner.states ino ≡ some state
        → Step inner (resize disk ino state n inner).1
    added :
        (dir_ino : ℕ) (name : Text) (target : FlushTarget) (handle : WResult (Option F)) (now : ℕ)
        (inner : Inner F D)
        → Step inner (add_pending disk dir_ino name target handle now inner).1
    released : (ino : ℕ) (inner : Inner F D) → Step inner (release disk ino inner)

  pub data Reach (files : D) (mirrored : Bool) : Inner F D → Type 0 where
    begun : Reach files mirrored (new files mirrored)
    stepped :
        (inner inner' : Inner F D)
        → Reach files mirrored inner
        → Step inner inner'
        → Reach files mirrored inner'

  step-IsOwned : (inner inner' : Inner F D) → Step inner inner' → IsOwned inner → IsOwned inner'
  unfolding resize
  step-IsOwned _ _ (opened ino truncate inner) o =
      opened-IsOwned ino truncate (inner.states ino) inner refl o
  step-IsOwned _ _ (wrote ino offset written inner) o = write-IsOwned ino offset written inner o
  step-IsOwned _ _ (sized ino state n inner there) o =
      resize_at-IsOwned state.disk ino state n inner o
  step-IsOwned _ _ (added dir_ino name target handle now inner) o =
      add_pending-IsOwned dir_ino name target handle now inner o
  step-IsOwned _ _ (released ino inner) o = release-IsOwned ino inner o

  -- However files are created, opened, written, truncated and released: a name of a pending create leads to the
  -- create of that name in that directory, each pending create has a write state, and the number of the next
  -- one is above those of all.
  pub Reach-IsOwned :
      (files : D) (mirrored : Bool) (inner : Inner F D) → Reach files mirrored inner → IsOwned inner
  unfolding new
  Reach-IsOwned files mirrored _ begun = record {
    named = λ d n ino there. ground (arith, there);
    held = λ ino there. ground (arith, there);
    below = λ ino there. ground (arith, there);
  }
  Reach-IsOwned files mirrored _ (stepped inner inner' before step) =
      step-IsOwned inner inner' step (Reach-IsOwned files mirrored inner before)
