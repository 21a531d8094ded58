-- ===== src/Prelude/Dict.antt =====
-- A Python dict as the list of its entries in insertion order, over a Boolean equality of keys.

use mathlib.Core.Path.{◌≡◌, refl}
use mathlib.Core.Logic.{◌↔◌}
use mathlib.Core.Bool.{Bool, true}
use mathlib.Core.Option.{Option, none, some}
use mathlib.Core.List.{List, [], ◌∷◌}
use native.Mathlib.Omega.{arith}
use deaddit.Prelude.Tests.{if◌then◌else◌}

module _ {K V : Type 0} (eq : K → K → Bool) where
  abbrev pub lookup : K → List (K × V) → Option V
  lookup k [] = none
  lookup k ((j, v) ∷ d) = if eq j k then some v else lookup k d

  -- `d[k] = v`
  abbrev pub insert : K → V → List (K × V) → List (K × V)
  insert k v [] = (k, v) ∷ []
  insert k v ((j, w) ∷ d) = let rest = insert k v d in if eq j k then (k, v) ∷ d else (j, w) ∷ rest

  pub lookup-insert :
      ((a b : K) → (eq a b ≡ true) ↔ (a ≡ b))
      → (k j : K) (v : V) (d : List (K × V))
      → lookup j (insert k v d) ≡ (if eq k j then some v else lookup j d)
  lookup-insert h k j v [] = refl
  lookup-insert h k j v ((i, w) ∷ d) = ground (arith, h k j, h i k, h i j, lookup-insert h k j v d)

-- `d.get(k, default)`
abbrev pub get_or : {V : Type 0} → Option V → V → V
get_or none d = d
get_or (some v) d = v
