-- ===== src/Cluster/Cache/Lookups.antt =====
-- What the index of aioproxmox/helpers.py answers.
use aioproxmox.Prelude.{
  ℤ, String, ◌≡◌, refl, true, ◌||◌, Option, none, some, List, [], ◌∷◌, if◌then◌else◌, arith, str_eq,
  is_some, Option-cases, inl, inr,
}
use aioproxmox.Prelude.Int.{eq_ℤ}
use aioproxmox.Prelude.Dict
use aioproxmox.Prelude.IntDict
use aioproxmox.Model.Resources.{
  Resource, node_row, qemu_row, lxc_row, storage_row, network_row, ClusterResourcesCollection,
  ClusterCache, ClusterNodeResource, ClusterQemuResource, ClusterContainerResource,
  ClusterStorageResource, empty_cache,
}
use aioproxmox.Cluster.Cache.{
  guest_node, find_node, pve_find_node_in_cache, storage_key, index_row, index_rows,
  pve_cluster_cache,
}

-- The last row of a list that a reading accepts, `before` where there is none.
abbrev pub last_row {ℓ} : {A : Type ℓ} → (Resource → Option A) → List Resource → Option A → Option A
last_row read [] before = before
last_row read (row ∷ rest) before =
    last_row read rest (elim (read row) [ some r ↦ some r | none ↦ before ])

abbrev pub as_node : String → Resource → Option ClusterNodeResource
as_node name (node_row r) = if str_eq r.node name then some r else none
as_node name _ = none

abbrev pub as_qemu : ℤ → Resource → Option ClusterQemuResource
as_qemu vmid (qemu_row r) = if eq_ℤ r.vmid vmid then some r else none
as_qemu vmid _ = none

abbrev pub as_lxc : ℤ → Resource → Option ClusterContainerResource
as_lxc vmid (lxc_row r) = if eq_ℤ r.vmid vmid then some r else none
as_lxc vmid _ = none

abbrev pub as_storage : String → Resource → Option ClusterStorageResource
as_storage key (storage_row r) = if str_eq (storage_key r) key then some r else none
as_storage key _ = none

-- What one row does to a lookup.
qemu-index_row :
    (row : Resource) (v : ℤ) (c : ClusterCache)
    → IntDict.lookup v (index_row row c).qemu
      ≡ elim (as_qemu v row) [ some r ↦ some r | none ↦ IntDict.lookup v c.qemu ]
unfolding index_row
qemu-index_row (qemu_row r) v c = ground (arith, IntDict.lookup-insert r.vmid v r c.qemu)
qemu-index_row (node_row r) v c = refl
qemu-index_row (lxc_row r) v c = refl
qemu-index_row (storage_row r) v c = refl
qemu-index_row (network_row r) v c = refl

qemu-index_rows :
    (rows : List Resource) (v : ℤ) (c : ClusterCache)
    → IntDict.lookup v (index_rows rows c).qemu
      ≡ last_row (as_qemu v) rows (IntDict.lookup v c.qemu)
unfolding index_rows
qemu-index_rows [] v c = refl
qemu-index_rows (row ∷ rest) v c =
    rw (qemu-index_rows rest v (index_row row c), qemu-index_row row v c)

lxc-index_row :
    (row : Resource) (v : ℤ) (c : ClusterCache)
    → IntDict.lookup v (index_row row c).lxc
      ≡ elim (as_lxc v row) [ some r ↦ some r | none ↦ IntDict.lookup v c.lxc ]
unfolding index_row
lxc-index_row (lxc_row r) v c = ground (arith, IntDict.lookup-insert r.vmid v r c.lxc)
lxc-index_row (node_row r) v c = refl
lxc-index_row (qemu_row r) v c = refl
lxc-index_row (storage_row r) v c = refl
lxc-index_row (network_row r) v c = refl

lxc-index_rows :
    (rows : List Resource) (v : ℤ) (c : ClusterCache)
    → IntDict.lookup v (index_rows rows c).lxc ≡ last_row (as_lxc v) rows (IntDict.lookup v c.lxc)
unfolding index_rows
lxc-index_rows [] v c = refl
lxc-index_rows (row ∷ rest) v c =
    rw (lxc-index_rows rest v (index_row row c), lxc-index_row row v c)

nodes-index_row :
    (row : Resource) (name : String) (c : ClusterCache)
    → Dict.lookup name (index_row row c).nodes
      ≡ elim (as_node name row) [ some r ↦ some r | none ↦ Dict.lookup name c.nodes ]
unfolding index_row
nodes-index_row (node_row r) name c = ground (arith, Dict.lookup-insert r.node name r c.nodes)
nodes-index_row (lxc_row r) name c = refl
nodes-index_row (qemu_row r) name c = refl
nodes-index_row (storage_row r) name c = refl
nodes-index_row (network_row r) name c = refl

nodes-index_rows :
    (rows : List Resource) (name : String) (c : ClusterCache)
    → Dict.lookup name (index_rows rows c).nodes
      ≡ last_row (as_node name) rows (Dict.lookup name c.nodes)
unfolding index_rows
nodes-index_rows [] name c = refl
nodes-index_rows (row ∷ rest) name c =
    rw (nodes-index_rows rest name (index_row row c), nodes-index_row row name c)

storage-index_row :
    (row : Resource) (key : String) (c : ClusterCache)
    → Dict.lookup key (index_row row c).storage
      ≡ elim (as_storage key row) [ some r ↦ some r | none ↦ Dict.lookup key c.storage ]
unfolding index_row
storage-index_row (storage_row r) key c =
    ground (arith, Dict.lookup-insert (storage_key r) key r c.storage)
storage-index_row (lxc_row r) key c = refl
storage-index_row (qemu_row r) key c = refl
storage-index_row (node_row r) key c = refl
storage-index_row (network_row r) key c = refl

storage-index_rows :
    (rows : List Resource) (key : String) (c : ClusterCache)
    → Dict.lookup key (index_rows rows c).storage
      ≡ last_row (as_storage key) rows (Dict.lookup key c.storage)
unfolding index_rows
storage-index_rows [] key c = refl
storage-index_rows (row ∷ rest) key c =
    rw (storage-index_rows rest key (index_row row c), storage-index_row row key c)

-- Under each id and each name the index holds the last row of the list that has it, and nothing
-- where no row has it, in each of its four dictionaries.
pub cluster_cache_lem :
    (collection : ClusterResourcesCollection) (vmid : ℤ) (key : String)
    → (IntDict.lookup vmid (pve_cluster_cache (some collection)).qemu
        ≡ last_row (as_qemu vmid) collection.resources none)
      × (IntDict.lookup vmid (pve_cluster_cache (some collection)).lxc
          ≡ last_row (as_lxc vmid) collection.resources none)
      × (Dict.lookup key (pve_cluster_cache (some collection)).nodes
          ≡ last_row (as_node key) collection.resources none)
      × (Dict.lookup key (pve_cluster_cache (some collection)).storage
          ≡ last_row (as_storage key) collection.resources none)
unfolding pve_cluster_cache IntDict.lookup Dict.lookup
cluster_cache_lem collection vmid key = (
  qemu-index_rows collection.resources vmid empty_cache,
  lxc-index_rows collection.resources vmid empty_cache,
  nodes-index_rows collection.resources key empty_cache,
  storage-index_rows collection.resources key empty_cache,
)

some-last_row {ℓ} :
    {A : Type ℓ} (read : Resource → Option A) (rows : List Resource) (r : A)
    → is_some (last_row read rows (some r)) ≡ true
some-last_row read [] r = refl
some-last_row read (row ∷ rest) r = elim (Option-cases (read row)) [
  | inl e ↦ rw (e, some-last_row read rest r)
  | inr (q, e) ↦ rw (e, some-last_row read rest q)
]

found_in :
    (vmid : ℤ) (rows : List Resource)
    → is_some (find_node vmid rows)
      ≡ is_some (last_row (as_qemu vmid) rows none) || is_some (last_row (as_lxc vmid) rows none)
unfolding find_node guest_node
found_in vmid [] = refl
found_in vmid (qemu_row r ∷ rest) =
    ground (arith, some-last_row (as_qemu vmid) rest r, found_in vmid rest)
found_in vmid (lxc_row r ∷ rest) =
    ground (arith, some-last_row (as_lxc vmid) rest r, found_in vmid rest)
found_in vmid (node_row r ∷ rest) = found_in vmid rest
found_in vmid (storage_row r ∷ rest) = found_in vmid rest
found_in vmid (network_row r ∷ rest) = found_in vmid rest

-- A guest's node is found in the rows exactly when the index over the same rows holds the guest.
pub find_node-cluster_cache :
    (cluster_resources : Option ClusterResourcesCollection) (vmid : ℤ)
    → is_some (pve_find_node_in_cache cluster_resources vmid)
      ≡ is_some (IntDict.lookup vmid (pve_cluster_cache cluster_resources).qemu)
        || is_some (IntDict.lookup vmid (pve_cluster_cache cluster_resources).lxc)
unfolding pve_find_node_in_cache pve_cluster_cache IntDict.lookup
find_node-cluster_cache none vmid = refl
find_node-cluster_cache (some collection) vmid = rw (
  qemu-index_rows collection.resources vmid empty_cache,
  lxc-index_rows collection.resources vmid empty_cache,
  found_in vmid collection.resources,
)
