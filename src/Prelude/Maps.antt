-- ===== src/Prelude/Maps.antt =====
-- A hash map keyed by numbers: a function.
use Prim.Native.Nat.{ℕ}
use mathlib.Core.Option.{Option}
use canvas_fuse.Prelude.Tests.{nat_beq, if◌then◌else◌}

unfoldable pub set {ℓ} : {A : Type ℓ} → ℕ → Option A → (ℕ → Option A) → ℕ → Option A
set ino v f i = if nat_beq i ino then v else f i
