-- ===== src/Endpoints/Objects.antt =====
-- The endpoint objects of aioproxmox/endpoints.py, which keep the node and the guest that they are made
-- for, and the actions that their classes declare. The client that they keep too is the machine.
use aioproxmox.Prelude.{ℤ, String, Option, none, some, [], ◌∷◌}
use aioproxmox.Prelude.Dict
use aioproxmox.Prelude.Dict.{Dict}
use aioproxmox.Errors.{type_error}
use aioproxmox.Value.{Value}
use aioproxmox.Exec.{raise}
use aioproxmox.Client.Env.{Env, Run}
use aioproxmox.Endpoints.Calls.{node_action, node_status_command, qemu_action, lxc_action}

-- QemuStatusEndpoint, QemuAgentEndpoint and QemuEndpoint
pub record QemuStatusEndpoint : Type 0 where
  pub node : String
  pub vmid : ℤ

pub record QemuAgentEndpoint : Type 0 where
  pub node : String
  pub vmid : ℤ

pub record QemuEndpoint : Type 0 where
  pub node : String
  pub vmid : ℤ
  pub status : QemuStatusEndpoint
  pub agent : QemuAgentEndpoint

pub record LxcStatusEndpoint : Type 0 where
  pub node : String
  pub vmid : ℤ

pub record LxcEndpoint : Type 0 where
  pub node : String
  pub vmid : ℤ
  pub status : LxcStatusEndpoint

pub record NodeAptEndpoint : Type 0 where
  pub node : String

pub record NodeDisksEndpoint : Type 0 where
  pub node : String

pub record NodeEndpoint : Type 0 where
  pub node : String

-- The constructors.
unfoldable pub qemu_endpoint : String → ℤ → QemuEndpoint
qemu_endpoint node vmid = record {
  node = node;
  vmid = vmid;
  status = record { node = node; vmid = vmid };
  agent = record { node = node; vmid = vmid };
}

unfoldable pub lxc_endpoint : String → ℤ → LxcEndpoint
lxc_endpoint node vmid = record {
  node = node;
  vmid = vmid;
  status = record { node = node; vmid = vmid };
}

-- `nodes` of the client, and the methods of a node that make endpoints.
unfoldable pub nodes : String → NodeEndpoint
nodes node = record { node = node }

unfoldable pub qemu : NodeEndpoint → ℤ → QemuEndpoint
unfolding qemu_endpoint
qemu e vmid = qemu_endpoint e.node vmid

unfoldable pub lxc : NodeEndpoint → ℤ → LxcEndpoint
unfolding lxc_endpoint
lxc e vmid = lxc_endpoint e.node vmid

unfoldable pub apt : NodeEndpoint → NodeAptEndpoint
apt e = record { node = e.node }

unfoldable pub disks : NodeEndpoint → NodeDisksEndpoint
disks e = record { node = e.node }

-- The attributes that a class declares by a factory, with the action of each.
abbrev pub qemu_actions : Dict String
qemu_actions =
    ("start", "start")
    ∷ ("stop", "stop")
    ∷ ("reboot", "reboot")
    ∷ ("restart", "reboot")
    ∷ ("suspend", "suspend")
    ∷ ("resume", "resume")
    ∷ ("reset", "reset")
    ∷ ("shutdown", "shutdown")
    ∷ []

abbrev pub lxc_actions : Dict String
lxc_actions =
    ("start", "start")
    ∷ ("reboot", "reboot")
    ∷ ("restart", "reboot")
    ∷ ("stop", "stop")
    ∷ ("shutdown", "shutdown")
    ∷ ("suspend", "suspend")
    ∷ ("resume", "resume")
    ∷ []

-- NodeStatusCommand, or what `node_action` declares.
pub data NodeAction : Type 0 where
  status_command action : String → NodeAction

abbrev pub node_actions : Dict NodeAction
node_actions =
    ("reboot", status_command "reboot")
    ∷ ("shutdown", status_command "shutdown")
    ∷ ("wakeonlan", action "wakeonlan")
    ∷ ("suspendall", action "suspendall")
    ∷ ("stopall", action "stopall")
    ∷ ("startall", action "startall")
    ∷ []

module _ {W : Type 0} (env : Env W) where
  -- What an attribute that a factory declares is bound to on an endpoint: a call with keyword arguments. None
  -- where no factory declares it.
  unfoldable pub qemu_bound : QemuStatusEndpoint → String → Option (Dict Value → Run W Value)
  unfolding qemu_action Dict.lookup
  qemu_bound e name = elim (Dict.lookup name qemu_actions) [
    | none ↦ none
    | some endpoint ↦ some (λ kwargs. qemu_action env endpoint e.node e.vmid kwargs)
  ]

  unfoldable pub lxc_bound : LxcStatusEndpoint → String → Option (Dict Value → Run W Value)
  unfolding lxc_action Dict.lookup
  lxc_bound e name = elim (Dict.lookup name lxc_actions) [
    | none ↦ none
    | some endpoint ↦ some (λ kwargs. lxc_action env endpoint e.node e.vmid kwargs)
  ]

  -- The command of NodeStatusCommand takes no argument.
  unfoldable pub node_call : NodeAction → String → Dict Value → Run W Value
  unfolding node_action node_status_command
  node_call (status_command command) node [] = node_status_command env command node
  node_call (status_command command) node (kwarg ∷ kwargs) = raise type_error
  node_call (action endpoint) node kwargs = node_action env endpoint node kwargs

  unfoldable pub node_bound : NodeEndpoint → String → Option (Dict Value → Run W Value)
  unfolding node_call Dict.lookup
  node_bound e name = elim (Dict.lookup name node_actions) [
    | none ↦ none
    | some found ↦ some (λ kwargs. node_call found e.node kwargs)
  ]
