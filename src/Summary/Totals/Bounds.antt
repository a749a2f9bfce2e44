-- ===== src/Summary/Totals/Bounds.antt =====
-- The figures of ClusterSummary of aioproxmox/model/summary.py hang together.
use aioproxmox.Prelude.{
  ◌+◌, ◌≤◌, ℤ, pos, String, ◌≡◌, refl, inl, inr, Bool-cases, Bool, true, false, not, ◌||◌, Option,
  none, some, List, [], ◌∷◌, map, filter, any, length, length-filter, length-map, arith,
  if◌then◌else◌,
}
use aioproxmox.Prelude.Int.{eq_ℤ, ltb_ℤ, ◌+ℤ◌, +ℤ_parts}
use aioproxmox.Prelude.Sorting.{is_sorted, sorted_by-sorted, length-sorted_by}
use aioproxmox.Model.Resources.{ClusterNodeResource, ClusterResourcesCollection}
use aioproxmox.Summary.Totals.{
  FloatOps, nodes_of, qemu_of, lxc_of, running_status, is_online, no_template, Totals, no_totals,
  add_node, add_nodes, from_resources,
}

-- A node that says it uses more memory than it has.
abbrev pub overfull : ClusterNodeResource → Bool
overfull n = ltb_ℤ n.maxmem n.mem

-- Both figures are there, the first not above the second, or neither is.
abbrev pub within : Option ℤ → Option ℤ → Bool
within none none = true
within (some used) (some total) = not (ltb_ℤ total used)
within _ _ = false

add_le : (a b c d : ℤ) → ltb_ℤ b a ≡ false → ltb_ℤ d c ≡ false → ltb_ℤ (b +ℤ d) (a +ℤ c) ≡ false
add_le a b c d h k = ground (arith, +ℤ_parts a c, +ℤ_parts b d)

module _ (floats : FloatOps) where
  add_nodes-within :
      (nodes : List ClusterNodeResource) (t : Totals)
      → any overfull nodes ≡ false
      → ltb_ℤ t.memory_total t.memory_used ≡ false
      → ltb_ℤ (add_nodes floats nodes t).memory_total (add_nodes floats nodes t).memory_used ≡ false
  unfolding add_nodes add_node any
  add_nodes-within [] t h k = k
  add_nodes-within (n ∷ rest) t h k =
      add_nodes-within rest (add_node floats n t) (ground arith)
        (add_le t.memory_used t.memory_total n.mem n.maxmem k (ground arith))

any-filter-false :
    (p q : ClusterNodeResource → Bool) (nodes : List ClusterNodeResource)
    → any p nodes ≡ false
    → any p (filter q nodes) ≡ false
unfolding any filter
any-filter-false p q [] h = refl
any-filter-false p q (n ∷ nodes) h = ground (arith, any-filter-false p q nodes)

length-filter-le : {A : Type 0} (p : A → Bool) (xs : List A) → length (filter p xs) ≤ length xs
length-filter-le p xs = omega (arith, length-filter p xs)

if_within :
    (b : Bool) (used total : ℤ)
    → ltb_ℤ total used ≡ false
    → within (if b then none else some used) (if b then none else some total) ≡ true
if_within true used total h = refl
if_within false used total h = ground arith

memory_within :
    (floats : FloatOps) (nodes : List ClusterNodeResource)
    → any overfull nodes
        || within
            (if eq_ℤ (add_nodes floats (filter is_online nodes) no_totals).memory_total (pos 0)
              then none
              else some (add_nodes floats (filter is_online nodes) no_totals).memory_used)
            (if eq_ℤ (add_nodes floats (filter is_online nodes) no_totals).memory_total (pos 0)
              then none
              else some (add_nodes floats (filter is_online nodes) no_totals).memory_total)
      ≡ true
memory_within floats nodes = elim (Bool-cases (any overfull nodes)) [
  | inl full ↦ rw (full)
  | inr room ↦
      let t = add_nodes floats (filter is_online nodes) no_totals in
      rw (
        room,
        if_within (eq_ℤ t.memory_total (pos 0)) t.memory_used t.memory_total (
            add_nodes-within floats (filter is_online nodes) no_totals
              (any-filter-false overfull is_online nodes room) refl),
      )
]

-- The nodes online and those listed as offline are all the nodes, and the offline ones are sorted by name; no
-- more guests of either kind run than there are; and where no node says that it uses more memory than it
-- has, the cluster uses no more than it has.
pub from_resources_bounds :
    (floats : FloatOps) (collection : ClusterResourcesCollection)
    → ((from_resources floats collection).nodes_online
          + length (from_resources floats collection).nodes_offline
        ≡ (from_resources floats collection).nodes_total)
      × (is_sorted (λ s. s) (from_resources floats collection).nodes_offline ≡ true)
      × ((from_resources floats collection).qemu_running
          ≤ (from_resources floats collection).qemu_total)
      × ((from_resources floats collection).lxc_running
          ≤ (from_resources floats collection).lxc_total)
      × (any overfull (nodes_of collection.resources)
            || within
                (from_resources floats collection).memory_used
                (from_resources floats collection).memory_total
          ≡ true)
unfolding from_resources
from_resources_bounds floats collection =
    let nodes = nodes_of collection.resources in
    let offline = filter (λ n. not (is_online n)) nodes in
    (
      omega (
        arith,
        length-filter is_online nodes,
        length-map (λ (n : ClusterNodeResource). n.node) offline,
        length-sorted_by (λ (s : String). s) (map (λ n. n.node) offline),
      ),
      sorted_by-sorted (λ s. s) (map (λ n. n.node) offline),
      length-filter-le (λ r. running_status r.status)
          (filter (λ r. no_template r.template) (qemu_of collection.resources)),
      length-filter-le (λ r. running_status r.status)
          (filter (λ r. no_template r.template) (lxc_of collection.resources)),
      memory_within floats nodes,
    )
