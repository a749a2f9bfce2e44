-- ===== src/Routes/Walk.antt =====
-- The walk over a syntax tree ends, and passes over none of its nodes.
use aioproxmox.Prelude.{◌≡◌, refl, ℕ, zero, suc, ◌+◌, ◌≤◌, some, List, [], ◌∷◌, ◌++◌, arith}
use aioproxmox.Routes.Syntax.{
  Node, Nodes, constant, joined_str, formatted_value, attribute, name, call, keyword, assign, dict,
  other, nil, cons, nodes, children, walk, total, totals, size,
}

unfoldable pub sum : (Node → ℕ) → List Node → ℕ
sum w [] = 0
sum w (n ∷ ns) = w n + sum w ns

unfoldable total_sum : (Node → ℕ) → List Node → ℕ
unfolding total
total_sum w [] = 0
total_sum w (n ∷ ns) = total w n + total_sum w ns

total_sum-append :
    (w : Node → ℕ) (ms ns : List Node) → total_sum w (ms ++ ns) ≡ total_sum w ms + total_sum w ns
unfolding total_sum
total_sum-append w [] ns = omega arith
total_sum-append w (m ∷ ms) ns = omega (arith, total_sum-append w ms ns)

total_sum-nodes : (w : Node → ℕ) (ns : Nodes) → total_sum w (nodes ns) ≡ totals w ns
unfolding total_sum nodes total
total_sum-nodes w nil = refl
total_sum-nodes w (cons n ns) = omega (arith, total_sum-nodes w ns)

-- A tree's sum is that of its root and those of its children.
total-children : (w : Node → ℕ) (n : Node) → w n + total_sum w (children n) ≡ total w n
unfolding children total total_sum
total-children w (constant c) = omega arith
total-children w (joined_str values) = omega (arith, total_sum-nodes w values)
total-children w (formatted_value value format) = omega (arith, total_sum-nodes w format)
total-children w (attribute value attr) = omega arith
total-children w (name id) = omega arith
total-children w (call func args keywords line) = omega (
  arith,
  total_sum-append w (nodes args) (nodes keywords),
  total_sum-nodes w args,
  total_sum-nodes w keywords,
)
total-children w (keyword arg value) = omega arith
total-children w (assign targets value line) =
    omega (arith, total_sum-append w (nodes targets) (value ∷ []), total_sum-nodes w targets)
total-children w (dict keys values) = omega (
  arith,
  total_sum-append w (nodes keys) (nodes values),
  total_sum-nodes w keys,
  total_sum-nodes w values,
)
total-children w (other below) = omega (arith, total_sum-nodes w below)

walk_ends :
    (fuel : ℕ) (todo : List Node)
    → total_sum (λ _. 1) todo ≤ fuel
    → (ns : List Node) × (walk fuel todo ≡ some ns) × ((w : Node → ℕ) → sum w ns ≡ total_sum w todo)
unfolding walk sum total_sum
walk_ends fuel [] h = ([], refl, λ w. refl)
walk_ends zero (n ∷ todo) h = absurd (omega (arith, total-children (λ _. 1) n))
walk_ends (suc fuel) (n ∷ todo) h =
    let queued = λ (w : Node → ℕ). total_sum-append w todo (children n) in
    let (ns, e, same) =
      walk_ends fuel (todo ++ children n)
        (omega (arith, queued (λ _. 1), total-children (λ _. 1) n)) in
    (n ∷ ns, rw (walk, e) refl, λ w. omega (arith, same w, queued w, total-children w n))

-- The breadth-first walk over a syntax tree ends within as many steps as the tree has nodes, and yields every
-- node exactly as often as it stands in the tree: whatever is summed up over what it yields is the sum over
-- the tree by its structure.
pub walk-total :
    (tree : Node)
    → (ns : List Node) × (walk (size tree) (tree ∷ []) ≡ some ns)
      × ((w : Node → ℕ) → sum w ns ≡ total w tree)
unfolding total_sum
walk-total tree =
    let (ns, e, same) = walk_ends (size tree) (tree ∷ []) (omega arith) in
    (ns, e, λ w. omega (arith, same w))
