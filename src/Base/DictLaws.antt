-- ===== src/Base/DictLaws.antt =====
-- The laws of the ordered association list, for values in the lowest universe.
use Prim.Native.Nat.{ℕ, suc, ◌+◌, ◌<◌}
use mathlib.Core.Path.{◌≡◌, refl}
use mathlib.Core.Option.{none, some}
use mathlib.Core.List.{[], ◌∷◌}
use native.Mathlib.Omega.{arith}
use jinux.Base.Tests.{◌==◌, if◌then◌else◌, is_some}
use jinux.Base.Lists.{length}
use jinux.Base.Dict.{Dict, lookup, insert, erase, Above, IsSorted}

module _ {V : Type 0} where
  Above-trans : (j k : ℕ) (d : Dict V) → j < k → Above k d → Above j d
  Above-trans j k [] lt h = tt
  Above-trans j k ((i, w) ∷ d) lt h = (omega arith, Above-trans j k d lt h.1)

  pub lookup-Above : (j k : ℕ) (d : Dict V) → j < suc k → Above k d → lookup j d ≡ none
  lookup-Above j k [] lt h = refl
  lookup-Above j k ((i, w) ∷ d) lt h = ground (arith, lookup-Above j k d lt h.1)

  Above-insert : (j k : ℕ) (v : V) (d : Dict V) → j < k → Above j d → Above j (insert k v d)
  Above-insert j k v [] lt h = (lt, tt)
  Above-insert j k v ((i, w) ∷ d) lt h = ground (arith, Above-insert j k v d lt h.1)

  pub insert-IsSorted : (k : ℕ) (v : V) (d : Dict V) → IsSorted d → IsSorted (insert k v d)
  insert-IsSorted k v [] h = (tt, tt)
  insert-IsSorted k v ((j, w) ∷ d) h =
      ground (arith, insert-IsSorted k v d h.1, Above-insert j k v d, Above-trans k j d)

  Above-erase : (j k : ℕ) (d : Dict V) → Above j d → Above j (erase k d)
  Above-erase j k [] h = tt
  Above-erase j k ((i, w) ∷ d) h = ground (arith, Above-erase j k d h.1)

  pub erase-IsSorted : (k : ℕ) (d : Dict V) → IsSorted d → IsSorted (erase k d)
  erase-IsSorted k [] h = tt
  erase-IsSorted k ((j, w) ∷ d) h = ground (arith, erase-IsSorted k d h.1, Above-erase j k d)

  pub lookup-insert :
      (j k : ℕ) (v : V) (d : Dict V)
      → lookup j (insert k v d) ≡ (if k == j then some v else lookup j d)
  lookup-insert j k v [] = ground arith
  lookup-insert j k v ((i, w) ∷ d) = ground (arith, lookup-insert j k v d)

  pub lookup-erase :
      (j k : ℕ) (d : Dict V)
      → IsSorted d
      → lookup j (erase k d) ≡ (if k == j then none else lookup j d)
  lookup-erase j k [] h = ground arith
  lookup-erase j k ((i, w) ∷ d) h = ground (arith, lookup-erase j k d h.1, lookup-Above j i d)

  pub length-insert :
      (k : ℕ) (v : V) (d : Dict V)
      → IsSorted d
      → length (insert k v d) ≡ length d + (if is_some (lookup k d) then 0 else 1)
  length-insert k v [] h = omega arith
  length-insert k v ((j, w) ∷ d) h = ground (arith, length-insert k v d h.1, lookup-Above k j d)

  pub length-erase :
      (k : ℕ) (d : Dict V) → length (erase k d) + (if is_some (lookup k d) then 1 else 0) ≡ length d
  length-erase k [] = omega arith
  length-erase k ((j, w) ∷ d) = ground (arith, length-erase k d)
