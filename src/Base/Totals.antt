-- ===== src/Base/Totals.antt =====
-- Weighted sums over a list, and how a write changes them.
use Prim.Native.Nat.{ℕ, zero, suc, ◌+◌, ◌≤◌, ◌<◌}
use mathlib.Core.Path.{◌≡◌, refl, ap}
use mathlib.Core.Logic.{◌≢◌, ◌⊎◌, inl, inr}
use mathlib.Core.Option.{some}
use mathlib.Core.List.{List, [], ◌∷◌}
use native.Mathlib.Omega.{arith}
use jinux.Base.Lists.{length, get_elem?, set, replicate}

module _ {A : Type 0} (w : A → ℕ) where
  abbrev pub total : List A → ℕ
  total [] = 0
  total (x ∷ xs) = w x + total xs

  pub total-set :
      (xs : List A) (i : ℕ) (x v : A)
      → get_elem? xs i ≡ some x
      → total (set xs i v) + w x ≡ total xs + w v
  total-set [] i x v h = ground arith
  total-set (y ∷ ys) zero x v h = ground arith
  total-set (y ∷ ys) (suc i) x v h = omega (arith, total-set ys i x v h)

  pub total-replicate : (n : ℕ) (a : A) → w a ≡ 0 → total (replicate n a) ≡ 0
  total-replicate zero a h = refl
  total-replicate (suc n) a h = omega (arith, total-replicate n a h)

  pub total-le : ((a : A) → w a ≤ 1) → (xs : List A) → total xs ≤ length xs
  total-le small [] = omega arith
  total-le small (x ∷ xs) = omega (arith, small x, total-le small xs)

  -- A member's weight is part of the sum, and so are those of two members at different indices.
  pub le-total : (xs : List A) (i : ℕ) (x : A) → get_elem? xs i ≡ some x → w x ≤ total xs
  le-total [] i x h = ground arith
  le-total (y ∷ ys) zero x h = ground arith
  le-total (y ∷ ys) (suc i) x h = omega (arith, le-total ys i x h)

  pub add-le-total :
      (xs : List A) (i j : ℕ) (x y : A)
      → i ≢ j
      → get_elem? xs i ≡ some x
      → get_elem? xs j ≡ some y
      → w x + w y ≤ total xs
  add-le-total [] i j x y ne h k = ground arith
  add-le-total (z ∷ zs) zero zero x y ne h k = absurd (ne refl)
  add-le-total (z ∷ zs) zero (suc j) x y ne h k = ground (arith, le-total zs j y k)
  add-le-total (z ∷ zs) (suc i) zero x y ne h k = ground (arith, le-total zs i x h)
  add-le-total (z ∷ zs) (suc i) (suc j) x y ne h k =
      omega (arith, add-le-total zs i j x y (λ e. ne (ap suc e)) h k)

  -- A positive sum has a member of positive weight.
  pub total-pos :
      (xs : List A) → 0 < total xs → (i : ℕ) × (x : A) × (get_elem? xs i ≡ some x) × (0 < w x)
  total-pos [] h = absurd (omega arith)
  total-pos (x ∷ xs) h = elim (w-cases (w x) refl) [
    | inl z ↦ let (i, y, e, p) = total-pos xs (omega arith) in (suc i, y, e, p)
    | inr p ↦ (0, x, refl, p)
  ]
    where
      w-cases : (n : ℕ) → w x ≡ n → (w x ≡ 0) ⊎ (0 < w x)
      w-cases n e = omega arith
