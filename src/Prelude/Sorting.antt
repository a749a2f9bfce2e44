-- ===== src/Prelude/Sorting.antt =====
-- Python's `sorted` and `list.sort`, and a set of texts without its order.
use Prim.Native.Char.{code}
use Prim.Native.String.{String, [], ◌∷◌}
use Prim.Native.Nat.{◌+◌}
use mathlib.Core.Path.{◌≡◌, refl}
use mathlib.Core.Bool.{Bool, true, false, not, ◌&&◌, ◌||◌}
use mathlib.Core.List.{List}
use native.Mathlib.Omega.{arith}
use text.Mathlib.Text.{◌==◌ as str_eq}
use text.Mathlib.TextEquality.{eq_iff}
use aioproxmox.Prelude.Tests.{ltb, ◌==◌, if◌then◌else◌}
use aioproxmox.Prelude.Lists.{any, filter, length}

-- Texts compare by their code points, from the front.
unfoldable pub lt_text : String → String → Bool
lt_text s [] = false
lt_text [] (d ∷ t) = true
lt_text (c ∷ s) (d ∷ t) = ltb (code c) (code d) || (code c == code d && lt_text s t)

pub lt_text_asym : (s t : String) → lt_text s t ≡ true → lt_text t s ≡ false
unfolding lt_text
lt_text_asym [] [] h = refl
lt_text_asym [] (d ∷ t) h = refl
lt_text_asym (c ∷ s) [] h = ground arith
lt_text_asym (c ∷ s) (d ∷ t) h = ground (arith, lt_text_asym s t)

pub lt_text_irrefl : (s : String) → lt_text s s ≡ false
unfolding lt_text
lt_text_irrefl [] = refl
lt_text_irrefl (c ∷ s) = ground (arith, lt_text_irrefl s)

-- The order of a sort, as a test: whether the first stands before the second for certain.
module _ {ℓ} {A : Type ℓ} (below : A → A → Bool) where
  insert_with : A → List A → List A
  insert_with x List.[] = List.◌∷◌ x List.[]
  insert_with x (List.◌∷◌ y ys) =
      let rest = insert_with x ys in
      if below y x then List.◌∷◌ y rest else List.◌∷◌ x (List.◌∷◌ y ys)

  -- An insertion sort: stable, as `sorted` and `list.sort` are, with `reverse=True` too.
  unfoldable pub sort_with : List A → List A
  unfolding insert_with
  sort_with List.[] = List.[]
  sort_with (List.◌∷◌ x xs) = insert_with x (sort_with xs)

  any-insert_with :
      (p : A → Bool) (x : A) (ys : List A) → any p (insert_with x ys) ≡ p x || any p ys
  unfolding insert_with any
  any-insert_with p x List.[] = refl
  any-insert_with p x (List.◌∷◌ y ys) = ground (arith, any-insert_with p x ys)

  -- Sorting keeps the elements.
  pub any-sort_with : (p : A → Bool) (xs : List A) → any p (sort_with xs) ≡ any p xs
  unfolding sort_with any
  any-sort_with p List.[] = refl
  any-sort_with p (List.◌∷◌ x xs) = rw (any-insert_with p x (sort_with xs), any-sort_with p xs)

  length-insert_with : (x : A) (ys : List A) → length (insert_with x ys) ≡ length ys + 1
  unfolding insert_with any
  length-insert_with x List.[] = omega arith
  length-insert_with x (List.◌∷◌ y ys) = ground (arith, length-insert_with x ys)

  pub length-sort_with : (xs : List A) → length (sort_with xs) ≡ length xs
  unfolding sort_with
  length-sort_with List.[] = refl
  length-sort_with (List.◌∷◌ x xs) =
      omega (arith, length-insert_with x (sort_with xs), length-sort_with xs)

  -- The sort is stable: elements that none of each other belongs before keep their order.
  module _ (p : A → Bool) (tied : (x y : A) → p x ≡ true → p y ≡ true → below x y ≡ false) where
    filter-insert_with :
        (x : A) (ys : List A) → filter p (insert_with x ys) ≡ filter p (List.◌∷◌ x ys)
    unfolding insert_with filter
    filter-insert_with x List.[] = refl
    filter-insert_with x (List.◌∷◌ y ys) = ground (arith, filter-insert_with x ys, tied y x)

    pub filter-sort_with : (xs : List A) → filter p (sort_with xs) ≡ filter p xs
    unfolding sort_with filter
    filter-sort_with List.[] = refl
    filter-sort_with (List.◌∷◌ x xs) = rw (filter-insert_with x (sort_with xs), filter-sort_with xs)

  -- No element stands before one that belongs before it.
  abbrev pub starts_at : A → List A → Bool
  starts_at x List.[] = true
  starts_at x (List.◌∷◌ y ys) = not (below y x)

  unfoldable pub in_order : List A → Bool
  in_order List.[] = true
  in_order (List.◌∷◌ x xs) = starts_at x xs && in_order xs

  module _ (asym : (x y : A) → below x y ≡ true → below y x ≡ false) where
    starts_at-insert_with :
        (y x : A) (ys : List A)
        → starts_at y ys ≡ true
        → below y x ≡ true
        → starts_at y (insert_with x ys) ≡ true
    unfolding insert_with
    starts_at-insert_with y x List.[] h l = ground (arith, asym y x l)
    starts_at-insert_with y x (List.◌∷◌ z zs) h l = ground (arith, asym y x l)

    in_order-insert_with :
        (x : A) (ys : List A) → in_order ys ≡ true → in_order (insert_with x ys) ≡ true
    unfolding insert_with in_order
    in_order-insert_with x List.[] h = refl
    in_order-insert_with x (List.◌∷◌ y ys) h =
        ground (arith, in_order-insert_with x ys, starts_at-insert_with y x ys)

    pub sort_with-in_order : (xs : List A) → in_order (sort_with xs) ≡ true
    unfolding sort_with in_order
    sort_with-in_order List.[] = refl
    sort_with-in_order (List.◌∷◌ x xs) =
        in_order-insert_with x (sort_with xs) (sort_with-in_order xs)

-- `sorted(xs, key=key)` with a text as the key.
module _ {ℓ} {A : Type ℓ} (key : A → String) where
  abbrev pub precedes : A → A → Bool
  precedes x y = lt_text (key x) (key y)

  unfoldable pub sorted_by : List A → List A
  unfolding sort_with lt_text
  sorted_by xs = sort_with precedes xs

  unfoldable pub is_sorted : List A → Bool
  unfolding in_order lt_text
  is_sorted xs = in_order precedes xs

  pub any-sorted_by : (p : A → Bool) (xs : List A) → any p (sorted_by xs) ≡ any p xs
  unfolding sorted_by
  any-sorted_by p xs = any-sort_with precedes p xs

  pub length-sorted_by : (xs : List A) → length (sorted_by xs) ≡ length xs
  unfolding sorted_by
  length-sorted_by xs = length-sort_with precedes xs

  pub sorted_by-sorted : (xs : List A) → is_sorted (sorted_by xs) ≡ true
  unfolding sorted_by is_sorted
  sorted_by-sorted xs = sort_with-in_order precedes (λ x y. lt_text_asym (key x) (key y)) xs

-- `{x for x in xs}`, its elements once each.
unfoldable pub set_of : List String → List String
unfolding any
set_of List.[] = List.[]
set_of (List.◌∷◌ x xs) =
    let rest = set_of xs in if any (str_eq x) rest then rest else List.◌∷◌ x rest

pub any-set_of : (x : String) (xs : List String) → any (str_eq x) (set_of xs) ≡ any (str_eq x) xs
unfolding set_of any
any-set_of x List.[] = refl
any-set_of x (List.◌∷◌ y ys) = ground (arith, eq_iff x y, any-set_of x ys, any-set_of y ys)
