-- ===== src/Privileges/Checks.antt =====
-- aioproxmox/_privilege_data.py: what Proxmox checks for each route.
use aioproxmox.Prelude.{String, Bool, true, false, List, [], ◌∷◌, ◌++◌}

-- The path, the privileges, and whether one of them is enough.
pub record Alternative : Type 0 where
  pub path : String
  pub privileges : List String
  pub any_of : Bool

pub record Entry : Type 0 where
  pub method : String
  pub template : String
  pub alternatives : List Alternative

abbrev all_of : String → List String → Alternative
all_of path privileges = record { path = path; privileges = privileges; any_of = false }

abbrev one_of : String → List String → Alternative
one_of path privileges = record { path = path; privileges = privileges; any_of = true }

abbrev entry : String → String → List Alternative → Entry
entry method template alternatives = record {
  method = method;
  template = template;
  alternatives = alternatives;
}

abbrev first_checks : List Entry
first_checks =
    entry "GET" "cluster/backup-info/not-backed-up" (all_of "/" ("Sys.Audit" ∷ []) ∷ [])
    ∷ entry "GET" "cluster/ceph/status" (one_of "/" ("Sys.Audit" ∷ "Datastore.Audit" ∷ []) ∷ [])
    ∷ entry "GET" "cluster/ha/status/current" (all_of "/" ("Sys.Audit" ∷ []) ∷ [])
    ∷ entry "GET" "cluster/status" (all_of "/" ("Sys.Audit" ∷ []) ∷ [])
    ∷ entry "GET" "nodes/{node}/apt/update" (all_of "/nodes/{node}" ("Sys.Modify" ∷ []) ∷ [])
    ∷ entry "GET" "nodes/{node}/disks/list"
        (all_of "/" ("Sys.Audit" ∷ []) ∷ all_of "/nodes/{node}" ("Sys.Audit" ∷ []) ∷ [])
    ∷ entry "GET" "nodes/{node}/disks/smart" (all_of "/" ("Sys.Audit" ∷ []) ∷ [])
    ∷ entry "GET" "nodes/{node}/disks/zfs" (all_of "/" ("Sys.Audit" ∷ []) ∷ [])
    ∷ entry "GET" "nodes/{node}/lxc/{vmid}/interfaces" (all_of "/vms/{vmid}" ("VM.Audit" ∷ []) ∷ [])
    ∷ entry "GET" "nodes/{node}/lxc/{vmid}/snapshot" (all_of "/vms/{vmid}" ("VM.Audit" ∷ []) ∷ [])
    ∷ entry "GET" "nodes/{node}/lxc/{vmid}/status/current"
        (all_of "/vms/{vmid}" ("VM.Audit" ∷ []) ∷ [])
    ∷ entry "GET" "nodes/{node}/qemu/{vmid}/agent/get-fsinfo"
        (one_of "/vms/{vmid}" ("VM.GuestAgent.Audit" ∷ "VM.GuestAgent.Unrestricted" ∷ []) ∷ [])
    ∷ entry "GET" "nodes/{node}/qemu/{vmid}/agent/network-get-interfaces"
        (one_of "/vms/{vmid}" ("VM.GuestAgent.Audit" ∷ "VM.GuestAgent.Unrestricted" ∷ []) ∷ [])
    ∷ []

abbrev middle_checks : List Entry
middle_checks =
    entry "GET" "nodes/{node}/qemu/{vmid}/snapshot" (all_of "/vms/{vmid}" ("VM.Audit" ∷ []) ∷ [])
    ∷ entry "GET" "nodes/{node}/qemu/{vmid}/status/current"
        (all_of "/vms/{vmid}" ("VM.Audit" ∷ []) ∷ [])
    ∷ entry "GET" "nodes/{node}/status" (all_of "/nodes/{node}" ("Sys.Audit" ∷ []) ∷ [])
    ∷ entry "POST" "cluster/ha/status/arm-ha" (all_of "/" ("Sys.Console" ∷ []) ∷ [])
    ∷ entry "POST" "cluster/ha/status/disarm-ha" (all_of "/" ("Sys.Console" ∷ []) ∷ [])
    ∷ entry "POST" "nodes/{node}/lxc/{vmid}/snapshot"
        (all_of "/vms/{vmid}" ("VM.Snapshot" ∷ []) ∷ [])
    ∷ entry "POST" "nodes/{node}/lxc/{vmid}/status/reboot"
        (all_of "/vms/{vmid}" ("VM.PowerMgmt" ∷ []) ∷ [])
    ∷ entry "POST" "nodes/{node}/lxc/{vmid}/status/resume"
        (all_of "/vms/{vmid}" ("VM.PowerMgmt" ∷ []) ∷ [])
    ∷ entry "POST" "nodes/{node}/lxc/{vmid}/status/shutdown"
        (all_of "/vms/{vmid}" ("VM.PowerMgmt" ∷ []) ∷ [])
    ∷ entry "POST" "nodes/{node}/lxc/{vmid}/status/start"
        (all_of "/vms/{vmid}" ("VM.PowerMgmt" ∷ []) ∷ [])
    ∷ entry "POST" "nodes/{node}/lxc/{vmid}/status/stop"
        (all_of "/vms/{vmid}" ("VM.PowerMgmt" ∷ []) ∷ [])
    ∷ entry "POST" "nodes/{node}/lxc/{vmid}/status/suspend"
        (all_of "/vms/{vmid}" ("VM.PowerMgmt" ∷ []) ∷ [])
    ∷ entry "POST" "nodes/{node}/qemu/{vmid}/agent/ping"
        (one_of "/vms/{vmid}" ("VM.GuestAgent.Audit" ∷ "VM.GuestAgent.Unrestricted" ∷ []) ∷ [])
    ∷ []

abbrev last_checks : List Entry
last_checks =
    entry "POST" "nodes/{node}/qemu/{vmid}/snapshot"
      (all_of "/vms/{vmid}" ("VM.Snapshot" ∷ []) ∷ [])
    ∷ entry "POST" "nodes/{node}/qemu/{vmid}/status/reboot"
        (all_of "/vms/{vmid}" ("VM.PowerMgmt" ∷ []) ∷ [])
    ∷ entry "POST" "nodes/{node}/qemu/{vmid}/status/reset"
        (all_of "/vms/{vmid}" ("VM.PowerMgmt" ∷ []) ∷ [])
    ∷ entry "POST" "nodes/{node}/qemu/{vmid}/status/resume"
        (all_of "/vms/{vmid}" ("VM.PowerMgmt" ∷ []) ∷ [])
    ∷ entry "POST" "nodes/{node}/qemu/{vmid}/status/shutdown"
        (all_of "/vms/{vmid}" ("VM.PowerMgmt" ∷ []) ∷ [])
    ∷ entry "POST" "nodes/{node}/qemu/{vmid}/status/start"
        (all_of "/vms/{vmid}" ("VM.PowerMgmt" ∷ []) ∷ [])
    ∷ entry "POST" "nodes/{node}/qemu/{vmid}/status/stop"
        (all_of "/vms/{vmid}" ("VM.PowerMgmt" ∷ []) ∷ [])
    ∷ entry "POST" "nodes/{node}/qemu/{vmid}/status/suspend"
        (all_of "/vms/{vmid}" ("VM.PowerMgmt" ∷ []) ∷ [])
    ∷ entry "POST" "nodes/{node}/status" (all_of "/nodes/{node}" ("Sys.PowerMgmt" ∷ []) ∷ [])
    ∷ entry "POST" "nodes/{node}/wakeonlan" (all_of "/nodes/{node}" ("Sys.PowerMgmt" ∷ []) ∷ [])
    ∷ entry "PUT" "nodes/{node}/lxc/{vmid}/config" (
        one_of "/vms/{vmid}" (
          "VM.Config.Disk" ∷ "VM.Config.CPU" ∷ "VM.Config.Memory" ∷ "VM.Config.Network"
          ∷ "VM.Config.Options" ∷ [])
        ∷ [])
    ∷ entry "PUT" "nodes/{node}/qemu/{vmid}/config" (
        one_of "/vms/{vmid}" (
          "VM.Config.Disk" ∷ "VM.Config.CDROM" ∷ "VM.Config.CPU" ∷ "VM.Config.Memory"
          ∷ "VM.Config.Network" ∷ "VM.Config.HWType" ∷ "VM.Config.Options" ∷ "VM.Config.Cloudinit"
          ∷ [])
        ∷ [])
    ∷ []

-- In the order of the file, which is the order of the dictionary.
abbrev pub checks : List Entry
checks = first_checks ++ middle_checks ++ last_checks
