-- ===== src/Tests/Cluster.antt =====
-- The rows of a cluster at work: the index, the storages, the privileges.
use aioproxmox.Prelude.{
  ℤ, pos, String, ◌≡◌, refl, Bool, false, ◌||◌, ◌&&◌, none, some, List, [], ◌∷◌, any, is_some,
  str_eq,
}
use aioproxmox.Prelude.Text
use aioproxmox.Prelude.Dict
use aioproxmox.Prelude.IntDict
use aioproxmox.Value.{Value, Float, null, str, arr, nil, cons, obj, field, end, items}
use aioproxmox.Model.Enums.{OperationalStatus, ResourceType, StoragePluginType}
use aioproxmox.Model.Resources.{
  ClusterQemuResource, ClusterStorageResource, qemu_row, storage_row, ClusterResourcesCollection,
}
use aioproxmox.Model.Decode.{Decoder, parse_item, deserialize_resource_list}
use aioproxmox.Model.Decode.Rows.{
  select, reads, items_in, as_node_row, as_qemu_row, as_lxc_row, as_storage_row, as_network_row,
  deserialize_resource_list_lem,
}
use aioproxmox.Cluster.Cache.{pve_cluster_cache, pve_find_node_in_cache}
use aioproxmox.Cluster.Cache.Lookups.{
  last_row, as_qemu, as_lxc, as_node, as_storage, cluster_cache_lem, find_node-cluster_cache,
}
use aioproxmox.Cluster.Storage.{
  SharedStorage, storage_rows, is_available, is_candidate, shared_storage,
}
use aioproxmox.Cluster.Storage.Shared.{shared_storage_lem}
use aioproxmox.Privileges.Entries.{Route, lookup, entries, entry_text}
use aioproxmox.Privileges.Entries.Stated.{Says, entries-grants}
use aioproxmox.Privileges.{privileges_for, strip_slashes}
use aioproxmox.Errors.{ok}
use aioproxmox.Privileges.Generator.{SchemaAlternative, shape_of, leaf, alternatives}
use aioproxmox.Privileges.Checks.{checks}
use aioproxmox.Privileges.Matching.{asked_of, answers_of, privileges_for_lem}
use aioproxmox.Tests.Net.{no_decoder}

abbrev zero_float : Float
zero_float = record { mantissa = pos 0; scale = 0 }

abbrev guest : ℤ → String → ClusterQemuResource
guest vmid node = record {
  id = "qemu";
  vmid = vmid;
  name = "vm";
  node = node;
  status = OperationalStatus.running;
  template = pos 0;
  maxcpu = pos 2;
  maxmem = pos 2;
  maxdisk = pos 2;
  resource_type = ResourceType.qemu;
  cpu = zero_float;
  mem = pos 0;
  memhost = pos 0;
  disk = pos 0;
  diskread = pos 0;
  diskwrite = pos 0;
  netin = pos 0;
  netout = pos 0;
  uptime = pos 0;
  tags = [];
}

abbrev pool : String → OperationalStatus → ClusterStorageResource
pool node status = record {
  id = "storage";
  storage = "nfs";
  node = node;
  status = status;
  plugintype = StoragePluginType.nfs;
  shared = pos 1;
  content = "iso,backup";
  resource_type = ResourceType.storage;
  disk = pos 0;
  maxdisk = pos 9;
}

abbrev pub cluster : ClusterResourcesCollection
cluster = record {
  resources =
      qemu_row (guest (pos 101) "a")
      ∷ storage_row (pool "b" OperationalStatus.available)
      ∷ storage_row (pool "a" OperationalStatus.unknown)
      ∷ qemu_row (guest (pos 101) "b")
      ∷ [];
}

abbrev seen : SharedStorage
seen = record { name = "nfs"; row = pool "b" OperationalStatus.available; nodes = "b" ∷ [] }

pub found : pve_find_node_in_cache (some cluster) (pos 101) ≡ some "a"
unfolding pve_find_node_in_cache
found = refl

shared : shared_storage cluster "nfs" ≡ some seen
unfolding shared_storage
shared = refl

cluster_cache_lem_example :
    (IntDict.lookup (pos 101) (pve_cluster_cache (some cluster)).qemu
      ≡ last_row (as_qemu (pos 101)) cluster.resources none)
    × (IntDict.lookup (pos 101) (pve_cluster_cache (some cluster)).lxc
        ≡ last_row (as_lxc (pos 101)) cluster.resources none)
    × (Dict.lookup "b:nfs" (pve_cluster_cache (some cluster)).nodes
        ≡ last_row (as_node "b:nfs") cluster.resources none)
    × (Dict.lookup "b:nfs" (pve_cluster_cache (some cluster)).storage
        ≡ last_row (as_storage "b:nfs") cluster.resources none)
cluster_cache_lem_example = cluster_cache_lem cluster (pos 101) "b:nfs"

find_node-cluster_cache_example :
    is_some (pve_find_node_in_cache (some cluster) (pos 101))
    ≡ is_some (IntDict.lookup (pos 101) (pve_cluster_cache (some cluster)).qemu)
      || is_some (IntDict.lookup (pos 101) (pve_cluster_cache (some cluster)).lxc)
find_node-cluster_cache_example = find_node-cluster_cache (some cluster) (pos 101)

shared_storage_lem_example :
    (is_available seen.row
      ≡ any (λ row. is_candidate "nfs" row && is_available row) (storage_rows cluster))
    × (any (str_eq "b") seen.nodes
        ≡ any
            (λ row. is_candidate "nfs" row && (is_available row && str_eq "b" row.node))
            (storage_rows cluster))
shared_storage_lem_example = shared_storage_lem cluster "nfs" "b" seen shared

abbrev acl : Dict.Dict (Dict.Dict ℤ)
acl =
    ("/vms", ("VM.Audit", pos 1) ∷ ("VM.Backup", pos 0) ∷ [])
    ∷ ("/", ("Sys.Audit", pos 1) ∷ [])
    ∷ []

abbrev raw : Value
raw = arr (cons null (cons (obj (field "type" (str "qemu") end)) nil))

-- A decoder that reads every virtual machine as one guest.
abbrev pub any_guest : Decoder
any_guest = record no_decoder { qemu = λ d. ok (guest (pos 101) "a") }

one_row : deserialize_resource_list any_guest raw ≡ qemu_row (guest (pos 101) "a") ∷ []
unfolding deserialize_resource_list items parse_item
one_row = refl

deserialize_resource_list_lem_example :
    (select as_node_row (deserialize_resource_list any_guest raw)
      ≡ select (reads "node" any_guest.node) (items_in raw))
    × (select as_qemu_row (deserialize_resource_list any_guest raw)
        ≡ select (reads "qemu" any_guest.qemu) (items_in raw))
    × (select as_lxc_row (deserialize_resource_list any_guest raw)
        ≡ select (reads "lxc" any_guest.lxc) (items_in raw))
    × (select as_storage_row (deserialize_resource_list any_guest raw)
        ≡ select (reads "storage" any_guest.storage) (items_in raw))
    × (select as_network_row (deserialize_resource_list any_guest raw)
        ≡ select (reads "network" any_guest.network) (items_in raw))
deserialize_resource_list_lem_example = deserialize_resource_list_lem any_guest raw

privileges_for_lem_example :
    asked_of (privileges_for "get" "/nodes/pve/apt/update" [])
    ≡ answers_of checks "get" (Text.split b'/' (strip_slashes "/nodes/pve/apt/update"))
privileges_for_lem_example = privileges_for_lem "get" "/nodes/pve/apt/update" []

-- `["or", ["perm", "/", ["Sys.Audit"]], ["or", ["perm", "/vms/{vmid}", ["VM.Audit"]]]]`
abbrev perm_at : String → String → Value
perm_at path privilege =
    arr (cons (str "perm") (cons (str path) (cons (arr (cons (str privilege) nil)) nil)))

abbrev nested : Value
nested = arr (
    cons (str "or") (
      cons (perm_at "/" "Sys.Audit")
        (cons (arr (cons (str "or") (cons (perm_at "/vms/{vmid}" "VM.Audit") nil))) nil)))

abbrev flat : String → String → SchemaAlternative
flat path privilege = record { path = str path; privileges = str privilege ∷ []; any_of = false }

flattened : alternatives nested ≡ ok (flat "/" "Sys.Audit" ∷ flat "/vms/{vmid}" "VM.Audit" ∷ [])
unfolding alternatives shape_of leaf
flattened = refl

abbrev takes_any : SchemaAlternative → Bool
takes_any a = a.any_of

abbrev nodes : Route
nodes = record { method = "GET"; path = "nodes" }

abbrev version : Route
version = record { method = "GET"; path = "version" }

-- The schema states a check for the first route and none for the second.
abbrev schema : Value
schema = obj (
    field "/nodes" (obj (field "GET" (obj (field "check" nested end)) end))
      (field "/version" (obj (field "GET" (obj end) end)) end))

abbrev both : List SchemaAlternative
both = flat "/" "Sys.Audit" ∷ flat "/vms/{vmid}" "VM.Audit" ∷ []

written : entries schema (nodes ∷ version ∷ []) ≡ ok ((nodes, both) ∷ [])
unfolding entries alternatives shape_of leaf
written = refl

text :
    entry_text (λ v. "") (nodes, flat "/" "Sys.Audit" ∷ [])
    ≡ "    (\"GET\", \"nodes\"): (\n        (\"/\", (\"Sys.Audit\",), False),\n    ),\n"
unfolding entry_text
text = refl

entries-grants_example : Says takes_any schema nodes (some both)
unfolding lookup any
entries-grants_example =
    entries-grants takes_any schema (nodes ∷ version ∷ []) ((nodes, both) ∷ []) nodes written refl
