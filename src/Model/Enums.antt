-- ===== src/Model/Enums.antt =====
-- The string enumerations of aioproxmox/model/pve.py. A text that is no member goes to `_missing_`,
-- which answers `unknown`; `QmpStatus` has no `_missing_` and raises.
use aioproxmox.Prelude.{String, Bool, true, false, str_eq, if◌then◌else◌}
use aioproxmox.Errors.{Result, ok, err, value_error}

pub data OperationalStatus : Type 0 where
  online offline running stopped available unknown okay : OperationalStatus

pub data ResourceType : Type 0 where
  node qemu lxc storage network unknown : ResourceType

pub data AptArchType : Type 0 where
  armhf arm64 amd64 ppc64el riscv64 s390x unknown all : AptArchType

pub data QmpStatus : Type 0 where
  running stopped frozen paused prelaunch postmigrate : QmpStatus

pub data StoragePluginType : Type 0 where
  dir lvmthin lvm nfs pbs cephfs rbd unknown : StoragePluginType

unfoldable pub operational_status : String → OperationalStatus
operational_status s =
    if str_eq s "online"
    then OperationalStatus.online
    else if str_eq s "offline"
    then OperationalStatus.offline
    else if str_eq s "running"
    then OperationalStatus.running
    else if str_eq s "stopped"
    then OperationalStatus.stopped
    else if str_eq s "available"
    then OperationalStatus.available
    else if str_eq s "ok"
    then OperationalStatus.okay
    else OperationalStatus.unknown

unfoldable pub resource_type : String → ResourceType
resource_type s =
    if str_eq s "node"
    then ResourceType.node
    else if str_eq s "qemu"
    then ResourceType.qemu
    else if str_eq s "lxc"
    then ResourceType.lxc
    else if str_eq s "storage"
    then ResourceType.storage
    else if str_eq s "network"
    then ResourceType.network
    else ResourceType.unknown

unfoldable pub apt_arch_type : String → AptArchType
apt_arch_type s =
    if str_eq s "armhf"
    then AptArchType.armhf
    else if str_eq s "arm64"
    then AptArchType.arm64
    else if str_eq s "amd64"
    then AptArchType.amd64
    else if str_eq s "ppc64el"
    then AptArchType.ppc64el
    else if str_eq s "riscv64"
    then AptArchType.riscv64
    else if str_eq s "s390x"
    then AptArchType.s390x
    else if str_eq s "all"
    then AptArchType.all
    else AptArchType.unknown

unfoldable pub qmp_status : String → Result QmpStatus
qmp_status s =
    if str_eq s "running"
    then ok QmpStatus.running
    else if str_eq s "stopped"
    then ok QmpStatus.stopped
    else if str_eq s "frozen"
    then ok QmpStatus.frozen
    else if str_eq s "paused"
    then ok QmpStatus.paused
    else if str_eq s "prelaunch"
    then ok QmpStatus.prelaunch
    else if str_eq s "postmigrate"
    then ok QmpStatus.postmigrate
    else err value_error

unfoldable pub storage_plugin_type : String → StoragePluginType
storage_plugin_type s =
    if str_eq s "dir"
    then StoragePluginType.dir
    else if str_eq s "lvmthin"
    then StoragePluginType.lvmthin
    else if str_eq s "lvm"
    then StoragePluginType.lvm
    else if str_eq s "nfs"
    then StoragePluginType.nfs
    else if str_eq s "pbs"
    then StoragePluginType.pbs
    else if str_eq s "cephfs"
    then StoragePluginType.cephfs
    else if str_eq s "rbd"
    then StoragePluginType.rbd
    else StoragePluginType.unknown

-- `status == OperationalStatus.X` for the members that the code compares with.
abbrev pub is_available : OperationalStatus → Bool
is_available OperationalStatus.available = true
is_available _ = false

abbrev pub is_online : OperationalStatus → Bool
is_online OperationalStatus.online = true
is_online _ = false

abbrev pub is_running : OperationalStatus → Bool
is_running OperationalStatus.running = true
is_running _ = false
