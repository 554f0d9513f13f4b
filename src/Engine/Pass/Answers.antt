-- ===== src/Engine/Pass/Answers.antt =====
-- A round of the engine's loop and those who wait for it (src/mirror/sync.rs, `run`).
use canvas_fuse.Prelude.{
  ℕ, ◌≡◌, refl, Bool, true, false, none, some, List, [], ◌∷◌, ◌++◌, arith, Text, inl, inr, ◌||◌,
  ◌⊎◌, Bool-cases,
}
use mathlib.Core.List.{append_assoc, append-nil}
use canvas_fuse.Local.{Local}
use canvas_fuse.Mirror.{Mirror}
use canvas_fuse.Mirror.Moves.{Devices}
use canvas_fuse.Engine.{Client}
use canvas_fuse.Engine.Feed.{Feed}
use canvas_fuse.Engine.Pass.{
  EngineMsg, wake, reconnect, stop, sync_now, Batch, coalesce, cycle, round, is_due, leave_offline,
}

-- Who waits for an answer, in order of arrival.
abbrev pub waiting : List EngineMsg → List ℕ
waiting [] = []
waiting (sync_now (some d) ∷ msgs) = d ∷ waiting msgs
waiting (_ ∷ msgs) = waiting msgs

-- Somebody asks for a full pass.
abbrev pub asks_full : List EngineMsg → Bool
asks_full [] = false
asks_full (sync_now _ ∷ msgs) = true
asks_full (_ ∷ msgs) = asks_full msgs

abbrev pub stops : List EngineMsg → Bool
stops [] = false
stops (stop ∷ msgs) = true
stops (_ ∷ msgs) = stops msgs

or_false : (b : Bool) → (b || false) ≡ b
or_false b = ground arith

or_true : (b : Bool) → (b || true) ≡ true
or_true b = ground arith

module _ {D : Type 0} where
  -- The state after the reconnections among the messages.
  abbrev pub reconnected : List EngineMsg → Mirror D → Mirror D
  reconnected [] m = m
  reconnected (reconnect ∷ msgs) m = reconnected msgs (leave_offline m)
  reconnected (_ ∷ msgs) m = reconnected msgs m

  coalesce-waiting :
      (msgs : List EngineMsg) (b : Batch) (m : Mirror D)
      → stops msgs ≡ false
      → coalesce msgs b m
        ≡ some (
          record { full = b.full || asks_full msgs; dones = b.dones ++ waiting msgs },
          reconnected msgs m,
        )
  unfolding coalesce
  coalesce-waiting [] b m h = rw (or_false, append-nil)
  coalesce-waiting (wake ∷ msgs) b m h = coalesce-waiting msgs b m h
  coalesce-waiting (reconnect ∷ msgs) b m h = coalesce-waiting msgs b (leave_offline m) h
  coalesce-waiting (stop ∷ msgs) b m h = ground arith
  coalesce-waiting (sync_now none ∷ msgs) b m h =
      rw or_true (coalesce-waiting msgs (record b { full = true }) m h)
  coalesce-waiting (sync_now (some d) ∷ msgs) b m h =
      rw (or_true, ← append_assoc b.dones (d ∷ []) (waiting msgs))
        (coalesce-waiting msgs (record { full = true; dones = b.dones ++ (d ∷ []) }) m h)

  coalesce-stops :
      (msgs : List EngineMsg) (b : Batch) (m : Mirror D)
      → stops msgs ≡ true
      → coalesce msgs b m ≡ none
  unfolding coalesce
  coalesce-stops [] b m h = ground arith
  coalesce-stops (wake ∷ msgs) b m h = coalesce-stops msgs b m h
  coalesce-stops (reconnect ∷ msgs) b m h = coalesce-stops msgs b (leave_offline m) h
  coalesce-stops (stop ∷ msgs) b m h = refl
  coalesce-stops (sync_now none ∷ msgs) b m h = coalesce-stops msgs _ m h
  coalesce-stops (sync_now (some d) ∷ msgs) b m h = coalesce-stops msgs _ m h

  module _ (local : Local D) (client : Client D) (feed : Feed D) where
    -- A round of the engine stops, without a pass, exactly if a stop is among its messages. Otherwise it
    -- is one pass, from the state after the reconnections, which is full if a full pass is asked for or
    -- due; and when the pass ends, exactly those who wait are answered, in the order of arrival.
    pub round-Answers :
        (devices : Devices) (sort : List Text → List Text) (rounds : ℕ) (msgs : List EngineMsg)
        (m : Mirror D)
        → ((stops msgs ≡ true) × (round local client feed devices sort rounds msgs m ≡ some none))
          ⊎ ((stops msgs ≡ false)
              × (round local client feed devices sort rounds msgs m
                  ≡ (elim (cycle local client feed devices sort rounds
                      (asks_full msgs || is_due (reconnected msgs m))
                      (reconnected msgs m)) [
                        | none ↦ none
                        | some m' ↦ some (some (waiting msgs, m'))
                      ])))
    unfolding round
    round-Answers devices sort rounds msgs m = elim (Bool-cases (stops msgs)) [
      | inl stopped ↦ inl (stopped, rw (round, coalesce-stops msgs _ m stopped))
      | inr goes_on ↦ inr (goes_on, rw (round, coalesce-waiting msgs _ m goes_on))
    ]
