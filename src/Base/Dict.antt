-- ===== src/Base/Dict.antt =====
-- `BTreeMap` as an association list in the order of its keys.
use Prim.Native.Nat.{ℕ, ◌<◌}
use mathlib.Core.Option.{Option, none, some}
use mathlib.Core.List.{List, [], ◌∷◌}
use jinux.Base.Tests.{ltb, ◌==◌, if◌then◌else◌}

abbrev pub Dict {ℓ} : Type ℓ → Type ℓ
Dict V = List (ℕ × V)

module _ {ℓ} {V : Type ℓ} where
  abbrev pub erase : ℕ → Dict V → Dict V
  erase key [] = []
  erase key ((other, value) ∷ rest) = if key == other then rest else (other, value) ∷ erase key rest

  abbrev pub lookup : ℕ → Dict V → Option V
  lookup key [] = none
  lookup key ((other, value) ∷ rest) = if key == other then some value else lookup key rest

  abbrev pub insert : ℕ → V → Dict V → Dict V
  insert key value [] = (key, value) ∷ []
  insert key value ((other, old) ∷ rest) =
      if key == other
      then (key, value) ∷ rest
      else if ltb key other
      then (key, value) ∷ (other, old) ∷ rest
      else (other, old) ∷ insert key value rest

  -- Every key is greater than `k`.
  abbrev pub Above : ℕ → Dict V → Type 0
  Above k [] = Unit
  Above k ((j, v) ∷ d) = (k < j) × Above k d

  abbrev pub IsSorted : Dict V → Type 0
  IsSorted [] = Unit
  IsSorted ((k, v) ∷ d) = Above k d × IsSorted d
