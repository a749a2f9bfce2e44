-- ===== src/Model/Resources.antt =====
-- The rows of `cluster/resources` and the collections over them (aioproxmox/model/pve.py).
use aioproxmox.Prelude.{ℤ, String, List, []}
use aioproxmox.Prelude.Dict.{Dict}
use aioproxmox.Value.{Float}
use aioproxmox.Model.Enums.{OperationalStatus, ResourceType, StoragePluginType}

pub record ClusterNodeResource : Type 0 where
  pub id : String
  pub node : String
  pub status : OperationalStatus
  pub cpu : Float
  pub maxcpu : ℤ
  pub mem : ℤ
  pub maxmem : ℤ
  pub disk : ℤ
  pub maxdisk : ℤ
  pub uptime : ℤ
  pub resource_type : ResourceType

pub record ClusterQemuResource : Type 0 where
  pub id : String
  pub vmid : ℤ
  pub name : String
  pub node : String
  pub status : OperationalStatus
  pub template : ℤ
  pub maxcpu : ℤ
  pub maxmem : ℤ
  pub maxdisk : ℤ
  pub resource_type : ResourceType
  pub cpu : Float
  pub mem : ℤ
  pub memhost : ℤ
  pub disk : ℤ
  pub diskread : ℤ
  pub diskwrite : ℤ
  pub netin : ℤ
  pub netout : ℤ
  pub uptime : ℤ
  pub tags : List String

pub record ClusterContainerResource : Type 0 where
  pub id : String
  pub vmid : ℤ
  pub name : String
  pub node : String
  pub status : OperationalStatus
  pub template : ℤ
  pub maxcpu : ℤ
  pub maxmem : ℤ
  pub maxdisk : ℤ
  pub resource_type : ResourceType
  pub cpu : Float
  pub mem : ℤ
  pub memhost : ℤ
  pub disk : ℤ
  pub diskread : ℤ
  pub diskwrite : ℤ
  pub netin : ℤ
  pub netout : ℤ
  pub uptime : ℤ
  pub tags : List String

pub record ClusterStorageResource : Type 0 where
  pub id : String
  pub storage : String
  pub node : String
  pub status : OperationalStatus
  pub plugintype : StoragePluginType
  pub shared : ℤ
  pub content : String
  pub resource_type : ResourceType
  pub disk : ℤ
  pub maxdisk : ℤ

pub record ClusterNetworkResource : Type 0 where
  pub id : String
  pub node : String
  pub resource_type : ResourceType
  pub status : String

-- A row of the list: which dataclass it is an instance of.
pub data Resource : Type 0 where
  node_row : ClusterNodeResource → Resource
  qemu_row : ClusterQemuResource → Resource
  lxc_row : ClusterContainerResource → Resource
  storage_row : ClusterStorageResource → Resource
  network_row : ClusterNetworkResource → Resource

-- The dataclass defines no `__len__` and no `__bool__`, so each of its values is truthy.
pub record ClusterResourcesCollection : Type 0 where
  pub resources : List Resource

-- Dictionaries with integer keys hold their pairs in insertion order too.
pub record ClusterCache : Type 0 where
  pub nodes : Dict ClusterNodeResource
  pub qemu : List (ℤ × ClusterQemuResource)
  pub lxc : List (ℤ × ClusterContainerResource)
  pub storage : Dict ClusterStorageResource

abbrev pub empty_cache : ClusterCache
empty_cache = record { nodes = []; qemu = []; lxc = []; storage = [] }
