-- ===== src/Prelude/IntDict.antt =====
-- Python's `dict` with integer keys: an association list in insertion order.
use mathlib.Core.Path.{◌≡◌, refl}
use mathlib.Core.Option.{Option, none, some}
use mathlib.Core.List.{List, [], ◌∷◌}
use native.Mathlib.Omega.{arith}
use aioproxmox.Prelude.Tests.{if◌then◌else◌}
use aioproxmox.Prelude.Int.{ℤ, eq_ℤ, eq_ℤ_iff}

abbrev pub IntDict {ℓ} : Type ℓ → Type ℓ
IntDict V = List (ℤ × V)

module _ {ℓ} {V : Type ℓ} where
  -- d.get(k)
  unfoldable pub lookup : ℤ → IntDict V → Option V
  lookup k [] = none
  lookup k ((j, v) ∷ d) = if eq_ℤ j k then some v else lookup k d

  -- d[k] = v
  unfoldable pub insert : ℤ → V → IntDict V → IntDict V
  insert k v [] = (k, v) ∷ []
  insert k v ((j, w) ∷ d) = if eq_ℤ j k then (j, v) ∷ d else (j, w) ∷ insert k v d

  pub lookup-insert :
      (k j : ℤ) (v : V) (d : IntDict V)
      → lookup j (insert k v d) ≡ (if eq_ℤ k j then some v else lookup j d)
  unfolding lookup insert
  lookup-insert k j v [] = refl
  lookup-insert k j v ((i, w) ∷ d) =
      ground (arith, eq_ℤ_iff k j, eq_ℤ_iff i k, eq_ℤ_iff i j, lookup-insert k j v d)
