-- ===== src/Cluster/Cache.antt =====
-- aioproxmox/helpers.py: where a guest is, and the index over the rows.
pub mod Lookups
use aioproxmox.Prelude.{ℤ, String, Option, none, some, List, [], ◌∷◌, if◌then◌else◌}
use aioproxmox.Prelude.Int.{eq_ℤ}
use aioproxmox.Prelude.Text.{◌+++◌}
use aioproxmox.Prelude.Dict
use aioproxmox.Prelude.IntDict
use aioproxmox.Model.Resources.{
  Resource, node_row, qemu_row, lxc_row, storage_row, network_row, ClusterResourcesCollection,
  ClusterCache, ClusterStorageResource, empty_cache,
}

-- Whether the row is a guest with this id, and the node that it is on.
unfoldable pub guest_node : ℤ → Resource → Option String
guest_node vmid (qemu_row r) = if eq_ℤ r.vmid vmid then some r.node else none
guest_node vmid (lxc_row r) = if eq_ℤ r.vmid vmid then some r.node else none
guest_node vmid _ = none

-- The loop: the first such row answers.
unfoldable pub find_node : ℤ → List Resource → Option String
unfolding guest_node
find_node vmid [] = none
find_node vmid (row ∷ rest) = elim (guest_node vmid row) [
  | some node ↦ some node
  | none ↦ find_node vmid rest
]

unfoldable pub pve_find_node_in_cache : Option ClusterResourcesCollection → ℤ → Option String
unfolding find_node
pve_find_node_in_cache none vmid = none
pve_find_node_in_cache (some cluster_resources) vmid = find_node vmid cluster_resources.resources

-- f"{res.node}:{res.storage}"
abbrev pub storage_key : ClusterStorageResource → String
storage_key r = r.node +++ ":" +++ r.storage

-- One round of the loop; a network row matches no case.
unfoldable pub index_row : Resource → ClusterCache → ClusterCache
unfolding Dict.insert IntDict.insert
index_row (node_row r) c = record c { nodes = Dict.insert r.node r c.nodes }
index_row (qemu_row r) c = record c { qemu = IntDict.insert r.vmid r c.qemu }
index_row (lxc_row r) c = record c { lxc = IntDict.insert r.vmid r c.lxc }
index_row (storage_row r) c = record c { storage = Dict.insert (storage_key r) r c.storage }
index_row (network_row r) c = c

unfoldable pub index_rows : List Resource → ClusterCache → ClusterCache
unfolding index_row
index_rows [] c = c
index_rows (row ∷ rest) c = index_rows rest (index_row row c)

unfoldable pub pve_cluster_cache : Option ClusterResourcesCollection → ClusterCache
unfolding index_rows
pve_cluster_cache none = empty_cache
pve_cluster_cache (some cluster_resources) = index_rows cluster_resources.resources empty_cache
