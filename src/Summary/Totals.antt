-- ===== src/Summary/Totals.antt =====
-- ClusterSummary of aioproxmox/model/summary.py.
pub mod Bounds
use aioproxmox.Prelude.{
  ℕ, ℤ, pos, String, Bool, true, false, not, Option, none, some, List, [], ◌∷◌, map, filter, length,
  if◌then◌else◌,
}
use aioproxmox.Prelude.Int.{eq_ℤ, ltb_ℤ, ◌+ℤ◌}
use aioproxmox.Prelude.Sorting.{sorted_by}
use aioproxmox.Value.{Float}
use aioproxmox.Model.Enums.{OperationalStatus}
use aioproxmox.Model.Resources.{
  ClusterNodeResource, ClusterQemuResource, ClusterContainerResource, Resource, node_row, qemu_row,
  lxc_row, ClusterResourcesCollection,
}

-- Arithmetic of floats, which rounds: a parameter.
pub record FloatOps : Type 0 where
  pub add : Float → Float → Float
  pub times_int : Float → ℤ → Float
  pub over_int : Float → ℤ → Float

pub record ClusterSummary : Type 0 where
  pub nodes_total : ℕ
  pub nodes_online : ℕ
  pub nodes_offline : List String
  pub qemu_total : ℕ
  pub qemu_running : ℕ
  pub lxc_total : ℕ
  pub lxc_running : ℕ
  pub cpu : Option Float
  pub memory_used : Option ℤ
  pub memory_total : Option ℤ

-- The rows of a class.
unfoldable pub nodes_of : List Resource → List ClusterNodeResource
nodes_of [] = []
nodes_of (node_row r ∷ rest) = r ∷ nodes_of rest
nodes_of (_ ∷ rest) = nodes_of rest

unfoldable pub qemu_of : List Resource → List ClusterQemuResource
qemu_of [] = []
qemu_of (qemu_row r ∷ rest) = r ∷ qemu_of rest
qemu_of (_ ∷ rest) = qemu_of rest

unfoldable pub lxc_of : List Resource → List ClusterContainerResource
lxc_of [] = []
lxc_of (lxc_row r ∷ rest) = r ∷ lxc_of rest
lxc_of (_ ∷ rest) = lxc_of rest

abbrev pub online_status : OperationalStatus → Bool
online_status OperationalStatus.online = true
online_status _ = false

abbrev pub running_status : OperationalStatus → Bool
running_status OperationalStatus.running = true
running_status _ = false

abbrev pub is_online : ClusterNodeResource → Bool
is_online n = online_status n.status

-- `not getattr(r, "template", 0)`
abbrev pub no_template : ℤ → Bool
no_template template = eq_ℤ template (pos 0)

-- The totals of the loop over the online nodes.
pub record Totals : Type 0 where
  pub weighted_cpu : Float
  pub total_cpus : ℤ
  pub memory_total : ℤ
  pub memory_used : ℤ

abbrev pub no_totals : Totals
no_totals = record {
  weighted_cpu = record { mantissa = pos 0; scale = 0 };
  total_cpus = pos 0;
  memory_total = pos 0;
  memory_used = pos 0;
}

module _ (floats : FloatOps) where
  -- One round: `if cpus > 0` for the cores; the memory always.
  unfoldable pub add_node : ClusterNodeResource → Totals → Totals
  unfolding ◌+ℤ◌
  add_node n t =
      let counts = ltb_ℤ (pos 0) n.maxcpu in
      record {
        weighted_cpu =
            if counts
            then floats.add t.weighted_cpu (floats.times_int n.cpu n.maxcpu)
            else t.weighted_cpu;
        total_cpus = if counts then t.total_cpus +ℤ n.maxcpu else t.total_cpus;
        memory_total = t.memory_total +ℤ n.maxmem;
        memory_used = t.memory_used +ℤ n.mem;
      }

  unfoldable pub add_nodes : List ClusterNodeResource → Totals → Totals
  unfolding add_node
  add_nodes [] t = t
  add_nodes (n ∷ rest) t = add_nodes rest (add_node n t)

  -- A node that equals an online one is online itself, so `n not in online` is that it is not online.
  unfoldable pub from_resources : ClusterResourcesCollection → ClusterSummary
  unfolding nodes_of qemu_of lxc_of filter sorted_by add_nodes
  from_resources collection =
      let nodes = nodes_of collection.resources in
      let online = filter is_online nodes in
      let qemu = filter (λ r. no_template r.template) (qemu_of collection.resources) in
      let lxc = filter (λ r. no_template r.template) (lxc_of collection.resources) in
      let totals = add_nodes online no_totals in
      record {
        nodes_total = length nodes;
        nodes_online = length online;
        nodes_offline =
            sorted_by (λ s. s) (map (λ n. n.node) (filter (λ n. not (is_online n)) nodes));
        qemu_total = length qemu;
        qemu_running = length (filter (λ r. running_status r.status) qemu);
        lxc_total = length lxc;
        lxc_running = length (filter (λ r. running_status r.status) lxc);
        cpu =
            if eq_ℤ totals.total_cpus (pos 0)
            then none
            else some (floats.over_int totals.weighted_cpu totals.total_cpus);
        memory_used = if eq_ℤ totals.memory_total (pos 0) then none else some totals.memory_used;
        memory_total = if eq_ℤ totals.memory_total (pos 0) then none else some totals.memory_total;
      }
