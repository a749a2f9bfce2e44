-- ===== src/Prelude/Dict.antt =====
-- Python's `dict` with text keys: an association list in insertion order.
use Prim.Native.String.{String}
use mathlib.Core.Path.{◌≡◌, refl, subst, sym, ap, ◌∙◌}
use mathlib.Core.Logic.{inl, inr}
use mathlib.Core.Bool.{Bool, true, false, not, ◌&&◌}
use mathlib.Core.Option.{Option, none, some}
use mathlib.Core.List.{List, [], ◌∷◌, map}
use native.Mathlib.Omega.{arith}
use text.Mathlib.Text.{◌==◌}
use text.Mathlib.TextEquality.{eq_iff}
use aioproxmox.Prelude.Tests.{if◌then◌else◌, is_some, Bool-cases}
use aioproxmox.Prelude.Lists.{All, filter}
use aioproxmox.Prelude.Sorting.{lt_text, lt_text_irrefl, sorted_by, filter-sort_with, precedes}

abbrev pub Dict {ℓ} : Type ℓ → Type ℓ
Dict V = List (String × V)

module _ {ℓ} {V : Type ℓ} where
  -- d.get(k)
  unfoldable pub lookup : String → Dict V → Option V
  lookup k [] = none
  lookup k ((j, v) ∷ d) = if j == k then some v else lookup k d

  -- k in d
  abbrev pub has_key : String → Dict V → Bool
  has_key k d = is_some (lookup k d)

  -- d[k] = v: a key that is there keeps its place.
  unfoldable pub insert : String → V → Dict V → Dict V
  insert k v [] = (k, v) ∷ []
  insert k v ((j, w) ∷ d) = if j == k then (j, v) ∷ d else (j, w) ∷ insert k v d

  -- {**d, **e}
  unfoldable pub merge : Dict V → Dict V → Dict V
  merge d [] = d
  merge d ((k, v) ∷ e) = merge (insert k v d) e

  pub lookup-insert :
      (k j : String) (v : V) (d : Dict V)
      → lookup j (insert k v d) ≡ (if k == j then some v else lookup j d)
  unfolding lookup insert
  lookup-insert k j v [] = refl
  lookup-insert k j v ((i, w) ∷ d) =
      ground (arith, eq_iff k j, eq_iff i k, eq_iff i j, lookup-insert k j v d)

  -- The last value that a list of entries gives for a key.
  unfoldable pub last : String → Dict V → Option V
  last k [] = none
  last k ((j, v) ∷ d) = elim (last k d) [ some w ↦ some w | none ↦ if j == k then some v else none ]

  pub lookup-merge :
      (k : String) (d e : Dict V)
      → lookup k (merge d e) ≡ elim (last k e) [ some v ↦ some v | none ↦ lookup k d ]
  unfolding merge last
  lookup-merge k d [] = refl
  lookup-merge k d ((j, v) ∷ e) =
      ground (arith, lookup-merge k (insert j v d) e, lookup-insert j k v d)

  -- A dictionary has each of its keys once.
  abbrev pub distinct_keys : Dict V → Bool
  distinct_keys [] = true
  distinct_keys ((k, v) ∷ d) = not (has_key k d) && distinct_keys d

  pub insert-distinct_keys :
      (k : String) (v : V) (d : Dict V)
      → distinct_keys d ≡ true
      → distinct_keys (insert k v d) ≡ true
  unfolding lookup insert
  insert-distinct_keys k v [] h = refl
  insert-distinct_keys k v ((j, w) ∷ d) h =
      ground (arith, eq_iff j k, eq_iff k j, insert-distinct_keys k v d, lookup-insert k j v d)

  pub merge-distinct_keys :
      (d e : Dict V) → distinct_keys d ≡ true → distinct_keys (merge d e) ≡ true
  unfolding merge
  merge-distinct_keys d [] h = h
  merge-distinct_keys d ((k, v) ∷ e) h =
      merge-distinct_keys (insert k v d) e (insert-distinct_keys k v d h)

  -- With distinct keys the last value for a key is the only one.
  pub last-distinct_keys :
      (k : String) (d : Dict V) → distinct_keys d ≡ true → last k d ≡ lookup k d
  unfolding lookup last
  last-distinct_keys k [] h = refl
  last-distinct_keys k ((j, v) ∷ d) h = ground (arith, eq_iff j k, last-distinct_keys k d)

  abbrev first : Dict V → Option V
  first [] = none
  first ((k, v) ∷ d) = some v

  lookup-filter : (k : String) (d : Dict V) → lookup k d ≡ first (filter (λ p. p.0 == k) d)
  unfolding lookup filter
  lookup-filter k [] = refl
  lookup-filter k ((j, v) ∷ d) = ground (arith, lookup-filter k d)

  tied :
      (k : String) (x y : String × V) → x.0 == k ≡ true → y.0 == k ≡ true → lt_text x.0 y.0 ≡ false
  tied k x y p q =
      let same : x.0 ≡ y.0 = (eq_iff x.0 k).0 p ∙ sym ((eq_iff y.0 k).0 q) in
      rw same (lt_text_irrefl y.0)

  -- Sorting by the keys changes no value.
  pub lookup-sorted_by : (k : String) (d : Dict V) → lookup k (sorted_by (λ p. p.0) d) ≡ lookup k d
  unfolding sorted_by
  lookup-sorted_by k d =
      lookup-filter k _
      ∙ ap first (filter-sort_with (precedes (λ p. p.0)) (λ p. p.0 == k) (tied k) d)
      ∙ sym (lookup-filter k d)

-- What every value of a dictionary has, the one under a key has.
pub lookup-All {ℓ κ} :
    {V : Type ℓ} (P : V → Type κ) (k : String) {v : V} (d : Dict V)
    → All (λ p. P p.1) d
    → lookup k d ≡ some v
    → P v
unfolding lookup
lookup-All P k [] all e = absurd (cc)
lookup-All {V = V} P k {v} ((j, w) ∷ d) all e = elim (Bool-cases (j == k)) [
  | inl here ↦ let same : w ≡ v = let found = rw here at e in cc in subst P same all.0
  | inr other ↦ lookup-All P k d all.1 (rw other at e)
]

module _ {ℓ κ} {V : Type ℓ} {U : Type κ} (f : V → U) where
  pub lookup-map :
      (k : String) (d : Dict V)
      → lookup k (map (λ p. (p.0, f p.1)) d)
        ≡ elim (lookup k d) [ none ↦ none | some v ↦ some (f v) ]
  unfolding lookup
  lookup-map k [] = refl
  lookup-map k ((j, v) ∷ d) = ground (arith, lookup-map k d)
