-- ===== src/Schema/Rounds.antt =====
-- A round of `flatten` of script/refresh_pve_api.py over a node: its routes have each path once.
use aioproxmox.Prelude.{
  ◌≡◌, refl, subst, Bool, true, false, [], ◌∷◌, str_eq, nonempty, Bool-cases, inl, inr,
  if◌then◌else◌,
}
use aioproxmox.Prelude.Dict
use aioproxmox.Prelude.Dict.{Dict, distinct_keys, insert-distinct_keys, merge-distinct_keys}
use aioproxmox.Errors.{Error, Result, ok, err, >>=-eq-ok}
use aioproxmox.Value.{
  Value, Items, Fields, null, bool, int, float, str, arr, obj, nil, cons, end, field, truthy,
}
use aioproxmox.Schema.Flatten.{
  entry_of, Routes, set_method, path_of, methods_of_node, add_methods, add_node, flatten_from,
  flatten_children, flatten_under, flatten_or_empty,
}

-- The parts of a round over a node that succeeds.
pub round :
    (node : Value) (nodes : Items) (r r' : Routes)
    → flatten_from (cons node nodes) r ≡ ok r'
    → (own : Routes) × (found : Routes) × (add_node node r ≡ ok own)
      × (flatten_children node ≡ ok found)
      × (flatten_from nodes (Dict.merge own found) ≡ ok r')
unfolding flatten_from
round node nodes r r' h = parts (add_node node r) (flatten_children node) refl refl h
  where
    parts :
        (p q : Result Routes)
        → add_node node r ≡ p
        → flatten_children node ≡ q
        → elim p as (λ _. Result Routes) [
          | err e ↦ err e
          | ok own ↦ elim q as (λ _. Result Routes) [
            | err e ↦ err e
            | ok found ↦ flatten_from nodes (Dict.merge own found)
          ]
        ]
          ≡ ok r'
        → (own : Routes) × (found : Routes) × (add_node node r ≡ ok own)
          × (flatten_children node ≡ ok found)
          × (flatten_from nodes (Dict.merge own found) ≡ ok r')
    parts (ok own) (ok found) p q h = (own, found, p, q, h)
    parts (ok own) (err e) p q h = absurd (cc)
    parts (err e) q p q' h = absurd (cc)

moved : (r r' : Routes) → ok r ≡ ok r' → distinct_keys r ≡ true → distinct_keys r' ≡ true
moved r r' h u = let same : r ≡ r' = cc in subst (λ q. distinct_keys q ≡ true) same u

-- What holds no node leaves no route, where it is not refused.
pub no_nodes :
    (b : Bool) (e : Error) (r : Routes)
    → (if b then err e else ok []) ≡ ok r
    → (◌≡◌ {A = Result Routes} (ok []) (ok r))
no_nodes true e r h = absurd (cc)
no_nodes false e r h = h

add_methods-distinct_keys :
    (node : Value) (d : Dict Value) (r r' : Routes)
    → add_methods node d r ≡ ok r'
    → distinct_keys r ≡ true
    → distinct_keys r' ≡ true
unfolding add_methods set_method
add_methods-distinct_keys node [] r r' h u = moved r r' h u
add_methods-distinct_keys node ((m, info) ∷ d) r r' h u =
    let (e, made, h1) = >>=-eq-ok (entry_of info) _ h in
    let (p, here, h2) = >>=-eq-ok (path_of node) _ h1 in
    add_methods-distinct_keys node d (set_method p m e r) r' h2 (insert-distinct_keys p _ r u)

flatten_from-distinct_keys :
    (nodes : Items) (r r' : Routes)
    → flatten_from nodes r ≡ ok r'
    → distinct_keys r ≡ true
    → distinct_keys r' ≡ true
unfolding flatten_from add_node
flatten_from-distinct_keys nil r r' h u = moved r r' h u
flatten_from-distinct_keys (cons node nodes) r r' h u =
    let (own, found, a, c, rest) = round node nodes r r' h in
    let (d, info, h1) = >>=-eq-ok (methods_of_node node) _ a in
    flatten_from-distinct_keys nodes (Dict.merge own found) r' rest
      (merge-distinct_keys own found (add_methods-distinct_keys node d r own h1 u))

-- The routes under a node have each path once.
flatten_or_empty-distinct_keys :
    (v : Value) (r : Routes) → flatten_or_empty v ≡ ok r → distinct_keys r ≡ true
unfolding flatten_from truthy
flatten_or_empty-distinct_keys (arr vs) r h = flatten_from-distinct_keys vs [] r h refl
flatten_or_empty-distinct_keys (obj fs) r h = moved [] r (no_nodes (truthy (obj fs)) _ r h) refl
flatten_or_empty-distinct_keys (str s) r h = moved [] r (no_nodes (nonempty s) _ r h) refl
flatten_or_empty-distinct_keys null r h = moved [] r h refl
flatten_or_empty-distinct_keys (bool b) r h = moved [] r (no_nodes b _ r h) refl
flatten_or_empty-distinct_keys (int n) r h = moved [] r (no_nodes (truthy (int n)) _ r h) refl
flatten_or_empty-distinct_keys (float f) r h = moved [] r (no_nodes (truthy (float f)) _ r h) refl

flatten_under-distinct_keys :
    (fs : Fields) (r : Routes) → flatten_under fs ≡ ok r → distinct_keys r ≡ true
unfolding flatten_from
flatten_under-distinct_keys end r h = moved [] r h refl
flatten_under-distinct_keys (field k v fs) r h = elim (Bool-cases (str_eq k "children")) [
  | inl here ↦ flatten_or_empty-distinct_keys v r (rw (flatten_under, here) at h)
  | inr other ↦ flatten_under-distinct_keys fs r (rw (flatten_under, other) at h)
]

pub flatten_children-distinct_keys :
    (node : Value) (r : Routes) → flatten_children node ≡ ok r → distinct_keys r ≡ true
unfolding flatten_from
flatten_children-distinct_keys (obj fs) r h = flatten_under-distinct_keys fs r h
flatten_children-distinct_keys null r h = absurd (cc)
flatten_children-distinct_keys (bool b) r h = absurd (cc)
flatten_children-distinct_keys (int n) r h = absurd (cc)
flatten_children-distinct_keys (float f) r h = absurd (cc)
flatten_children-distinct_keys (str s) r h = absurd (cc)
flatten_children-distinct_keys (arr vs) r h = absurd (cc)
