-- ===== src/Prelude/OrderedMap.antt =====
-- `std::map` over doubles: a list of entries in the order of the map's comparison, `before`.
use collections.Prelude.Int.{ℤ}
use collections.Prelude.Tests.{if◌then◌else◌}
use mathlib.Core.Bool.{Bool}
use mathlib.Core.Option.{Option, none, some}
use mathlib.Core.List.{List, [], ◌∷◌}

abbrev pub OrderedMap {ℓ} : Type ℓ → Type ℓ
OrderedMap V = List (ℤ × V)

module _ {ℓ} {V : Type ℓ} (before : ℤ → ℤ → Bool) where
  -- `m[k] = v`
  unfoldable pub assign : ℤ → V → OrderedMap V → OrderedMap V
  assign k v [] = (k, v) ∷ []
  assign k v ((j, w) ∷ m) =
      if before k j
      then (k, v) ∷ (j, w) ∷ m
      else if before j k
      then (j, w) ∷ assign k v m
      else (j, v) ∷ m

  -- `m.find(k)`
  unfoldable pub find : ℤ → OrderedMap V → Option V
  find k [] = none
  find k ((j, w) ∷ m) = if before j k then find k m else if before k j then none else some w

  -- `m.erase(k)`
  unfoldable pub erase_key : ℤ → OrderedMap V → OrderedMap V
  erase_key k [] = []
  erase_key k ((j, w) ∷ m) =
      if before j k then (j, w) ∷ erase_key k m else if before k j then (j, w) ∷ m else m
