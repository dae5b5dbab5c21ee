-- ===== src/Base/Sums.antt =====
-- Sums of a measure over a list, and what one write does to them.
use Prim.Native.Nat.{ℕ, zero, suc, ◌+◌, ◌≤◌, max}
use mathlib.Core.List.{List, [], ◌∷◌, ◌++◌}
use mathlib.Core.Option.{some}
use mathlib.Core.Path.{◌≡◌}
use native.Mathlib.Omega.{arith}
use forwardproxy.Base.Lists.{get_elem?, set}

module _ {ℓ} {A : Type ℓ} (f : A → ℕ) where
  abbrev pub sum_by : List A → ℕ
  sum_by [] = 0
  sum_by (x ∷ xs) = f x + sum_by xs

  pub sum_by-append : (xs ys : List A) → sum_by (xs ++ ys) ≡ sum_by xs + sum_by ys
  sum_by-append [] ys = omega arith
  sum_by-append (x ∷ xs) ys = omega (arith, sum_by-append xs ys)

  -- Writing `v` over `x` takes the measure of `x` out and puts that of `v` in.
  pub sum_by-set :
      (xs : List A) (i : ℕ) (x v : A)
      → get_elem? xs i ≡ some x
      → sum_by (set xs i v) + f x ≡ sum_by xs + f v
  sum_by-set [] i x v e = ground arith
  sum_by-set (y ∷ ys) zero x v e = ground arith
  sum_by-set (y ∷ ys) (suc i) x v e = omega (arith, sum_by-set ys i x v e)

  pub le-sum_by : (xs : List A) (i : ℕ) (x : A) → get_elem? xs i ≡ some x → f x ≤ sum_by xs
  le-sum_by [] i x e = ground arith
  le-sum_by (y ∷ ys) zero x e = ground arith
  le-sum_by (y ∷ ys) (suc i) x e = omega (arith, le-sum_by ys i x e)

module _ {ℓ} {A : Type ℓ} (f : A → ℕ) where
  -- The largest measure, 0 for no element.
  abbrev pub max_by : List A → ℕ
  max_by [] = 0
  max_by (x ∷ xs) = max (f x) (max_by xs)

  pub max_by-append : (xs ys : List A) → max_by (xs ++ ys) ≡ max (max_by xs) (max_by ys)
  max_by-append [] ys = omega arith
  max_by-append (x ∷ xs) ys = omega (arith, max_by-append xs ys)

  pub max_by-set :
      (xs : List A) (i : ℕ) (x v : A)
      → get_elem? xs i ≡ some x
      → f x ≤ f v
      → max_by (set xs i v) ≡ max (max_by xs) (f v)
  max_by-set [] i x v e h = ground arith
  max_by-set (y ∷ ys) zero x v e h = ground arith
  max_by-set (y ∷ ys) (suc i) x v e h = omega (arith, max_by-set ys i x v e h)

  pub le-max_by : (xs : List A) (i : ℕ) (x : A) → get_elem? xs i ≡ some x → f x ≤ max_by xs
  le-max_by [] i x e = ground arith
  le-max_by (y ∷ ys) zero x e = ground arith
  le-max_by (y ∷ ys) (suc i) x e = omega (arith, le-max_by ys i x e)
