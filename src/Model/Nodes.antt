-- ===== src/Model/Nodes.antt =====
-- The dataclasses of one node in aioproxmox/model/pve.py: status, version, updates, storage, tasks.
use aioproxmox.Prelude.{ℤ, String, Bool, Option, List}
use aioproxmox.Value.{Float}
use aioproxmox.Model.Enums.{StoragePluginType, AptArchType}

pub record ResourceMemoryStats : Type 0 where
  pub total : ℤ
  pub used : ℤ
  pub free : ℤ
  pub available : Option ℤ

pub record ResourceDiskStats : Type 0 where
  pub total : ℤ
  pub used : ℤ
  pub free : ℤ
  pub avail : Option ℤ

pub record NodeSwapStats : Type 0 where
  pub total : ℤ
  pub free : ℤ
  pub used : ℤ

pub record NodeCpuInfo : Type 0 where
  pub cpus : ℤ
  pub cores : ℤ
  pub sockets : ℤ
  pub model : String
  pub vendor : String
  pub mhz : Option String

pub record NodeStatus : Type 0 where
  pub uptime : ℤ
  pub cpu : Float
  pub idle : Float
  pub memory : ResourceMemoryStats
  pub swap : NodeSwapStats
  pub rootfs : ResourceDiskStats
  pub cpuinfo : NodeCpuInfo
  pub pveversion : String
  pub loadavg : List String
  pub wait : Option Float

pub record NodeVersion : Type 0 where
  pub release : String
  pub repoid : String
  pub version : String

pub record NodeAptUpdateProperty : Type 0 where
  pub description : String
  pub arch : AptArchType
  pub package_name : String
  pub priority : String
  pub section : String
  pub title : String
  pub version : String
  pub notify_status : String
  pub old_version : String

pub record NodeAptUpdate : Type 0 where
  pub items : List NodeAptUpdateProperty

pub record NodeStorageResource : Type 0 where
  pub enabled : Bool
  pub shared : Bool
  pub active : Bool
  pub storage : String
  pub resource_type : StoragePluginType
  pub total : ℤ
  pub avail : ℤ
  pub used : ℤ
  pub used_fraction : Float

pub record NodeStorageResources : Type 0 where
  pub storages : List NodeStorageResource

pub record NodeTask : Type 0 where
  pub id : String
  pub node : String
  pub pid : ℤ
  pub pstart : ℤ
  pub starttime : ℤ
  pub task_type : String
  pub upid : String
  pub user : String
  pub endtime : Option ℤ
  pub status : Option String

pub record NodeTasks : Type 0 where
  pub tasks : List NodeTask
