-- ===== src/Prelude/Sums.antt =====
-- Sums of a measure over a list, and what one entry contributes.
use Prim.Native.Nat.{ℕ, zero, suc, ◌+◌, ◌≤◌}
use mathlib.Core.Path.{◌≡◌, refl, ap}
use mathlib.Core.Logic.{◌≢◌}
use mathlib.Core.List.{List, [], ◌∷◌}
use mathlib.Core.Option.{some}
use native.Mathlib.Omega.{arith}
use qwswayland.Prelude.Tests.{some-inj}
use qwswayland.Prelude.Lists.{get_elem?, set}

module _ {ℓ} {A : Type ℓ} (f : A → ℕ) where
  abbrev pub sum : List A → ℕ
  sum [] = 0
  sum (x ∷ xs) = f x + sum xs

module _ {ℓ} {A : Type ℓ} where
  pub sum-set :
      (f : A → ℕ) (xs : List A) (i : ℕ) (old new : A)
      → get_elem? xs i ≡ some old
      → sum f (set xs i new) + f old ≡ sum f xs + f new
  sum-set f [] i old new e = cc
  sum-set f (x ∷ xs) zero old new e = omega (arith, ap f (some-inj e))
  sum-set f (x ∷ xs) (suc i) old new e = omega (arith, sum-set f xs i old new e)

  pub le-sum : (f : A → ℕ) (xs : List A) (i : ℕ) (a : A) → get_elem? xs i ≡ some a → f a ≤ sum f xs
  le-sum f [] i a e = cc
  le-sum f (x ∷ xs) zero a e = omega (arith, ap f (some-inj e))
  le-sum f (x ∷ xs) (suc i) a e = omega (arith, le-sum f xs i a e)

  pub two_le-sum :
      (f : A → ℕ) (xs : List A) (i j : ℕ) (a b : A)
      → get_elem? xs i ≡ some a
      → get_elem? xs j ≡ some b
      → i ≢ j
      → f a + f b ≤ sum f xs
  two_le-sum f [] i j a b e d n = cc
  two_le-sum f (x ∷ xs) zero zero a b e d n = absurd (n refl)
  two_le-sum f (x ∷ xs) zero (suc j) a b e d n = omega (arith, ap f (some-inj e), le-sum f xs j b d)
  two_le-sum f (x ∷ xs) (suc i) zero a b e d n = omega (arith, ap f (some-inj d), le-sum f xs i a e)
  two_le-sum f (x ∷ xs) (suc i) (suc j) a b e d n =
      omega (arith, two_le-sum f xs i j a b e d (λ q. n (ap suc q)))
