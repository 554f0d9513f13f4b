-- ===== src/Prelude/Sets.antt =====
-- A hash set of texts, as a list: only membership is observed.
use mathlib.Core.Bool.{Bool, false, ◌||◌}
use mathlib.Core.List.{List, [], ◌∷◌}
use mathlib.Core.Path.{◌≡◌}
use native.Mathlib.Omega.{arith}
use canvas_fuse.Prelude.Tests.{PartialEq, if◌then◌else◌}

module _ {ℓ} {A : Type ℓ} ⦃e : PartialEq A⦄ where
  unfoldable pub contains : List A → A → Bool
  contains [] a = false
  contains (x ∷ xs) a = e.test x a || contains xs a

  pub put : A → List A → List A
  unfolding contains
  put a xs = if contains xs a then xs else a ∷ xs

  pub without : A → List A → List A
  without a [] = []
  without a (x ∷ xs) = let rest = without a xs in if e.test x a then rest else x ∷ rest

  pub contains-put : (a b : A) (xs : List A) → contains (put a xs) b ≡ (e.test a b || contains xs b)
  unfolding put
  contains-put a b xs = ground (arith, e.agrees a b)

  pub contains-without :
      (a b : A) (xs : List A)
      → contains (without a xs) b ≡ (if e.test a b then false else contains xs b)
  unfolding contains without
  contains-without a b [] = ground arith
  contains-without a b (x ∷ xs) =
      ground (arith, contains-without a b xs, e.agrees a b, e.agrees x a, e.agrees x b)
