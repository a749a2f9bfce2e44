-- ===== src/Tests/Summary.antt =====
-- The cluster at a glance and a node's ports at work.
use aioproxmox.Prelude.{
  str_eq, ◌+◌, ◌≤◌, pos, ◌≡◌, refl, true, ◌||◌, String, none, some, List, [], ◌∷◌, any, length,
}
use aioproxmox.Prelude.Sorting.{is_sorted}
use aioproxmox.Model.Enums.{OperationalStatus, ResourceType}
use aioproxmox.Model.Resources.{ClusterNodeResource, ClusterResourcesCollection, node_row}
use aioproxmox.Model.Health.{NodeInterface}
use aioproxmox.Value.{Float}
use aioproxmox.Summary.Totals.{FloatOps, nodes_of, from_resources}
use aioproxmox.Summary.Totals.Bounds.{overfull, within, from_resources_bounds}
use aioproxmox.Summary.Ports.{is_eth, mac, node_mac_addresses}
use aioproxmox.Summary.Ports.Addresses.{names, mac-names, once, is_mac, node_mac_addresses_lem}

abbrev zero_float : Float
zero_float = record { mantissa = pos 0; scale = 0 }

abbrev floats : FloatOps
floats = record { add = λ a b. b; times_int = λ a n. a; over_int = λ a n. a }

abbrev node : String → OperationalStatus → ClusterNodeResource
node name status = record {
  id = name;
  node = name;
  status = status;
  cpu = zero_float;
  maxcpu = pos 4;
  mem = pos 3;
  maxmem = pos 8;
  disk = pos 0;
  maxdisk = pos 0;
  uptime = pos 0;
  resource_type = ResourceType.node;
}

abbrev cluster : ClusterResourcesCollection
cluster = record {
  resources =
      node_row (node "b" OperationalStatus.offline)
      ∷ node_row (node "c" OperationalStatus.online)
      ∷ node_row (node "a" OperationalStatus.offline)
      ∷ [];
}

offline : (from_resources floats cluster).nodes_offline ≡ "a" ∷ "b" ∷ []
unfolding from_resources
offline = refl

from_resources_bounds_example :
    ((from_resources floats cluster).nodes_online
        + length (from_resources floats cluster).nodes_offline
      ≡ (from_resources floats cluster).nodes_total)
    × (is_sorted (λ s. s) (from_resources floats cluster).nodes_offline ≡ true)
    × ((from_resources floats cluster).qemu_running ≤ (from_resources floats cluster).qemu_total)
    × ((from_resources floats cluster).lxc_running ≤ (from_resources floats cluster).lxc_total)
    × (any overfull (nodes_of cluster.resources)
          || within
              (from_resources floats cluster).memory_used
              (from_resources floats cluster).memory_total
        ≡ true)
from_resources_bounds_example = from_resources_bounds floats cluster

abbrev interface : String → List String → NodeInterface
interface type altnames = record {
  iface = "nic0";
  type = some type;
  active = none;
  address = none;
  cidr = none;
  gateway = none;
  method = none;
  altnames = altnames;
}

abbrev port : NodeInterface
port = interface "eth" ("enp3s0" ∷ "enxbc2411aa00ff" ∷ [])

abbrev ports : List NodeInterface
ports = interface "bridge" ("enx000000000000" ∷ []) ∷ port ∷ port ∷ []

port_mac : mac port ≡ some "bc:24:11:aa:00:ff"
unfolding mac
port_mac = refl

mac-names_example :
    (is_eth (some "eth") ≡ true) × (any (names "bc:24:11:aa:00:ff") port.altnames ≡ true)
mac-names_example = mac-names port "bc:24:11:aa:00:ff" port_mac

-- Each of the two ports gives the same address, and the bridge none.
node_mac_addresses_lem_example :
    (once (node_mac_addresses ports) ≡ true)
    × (any (str_eq "bc:24:11:aa:00:ff") (node_mac_addresses ports)
        ≡ any (λ i. is_mac "bc:24:11:aa:00:ff" (mac i)) ports)
node_mac_addresses_lem_example = node_mac_addresses_lem ports "bc:24:11:aa:00:ff"
