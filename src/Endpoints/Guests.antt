-- ===== src/Endpoints/Guests.antt =====
-- The endpoints of single guests in aioproxmox/endpoints.py. A method whose two classes differ in
-- the route only takes the class's name in it, `qemu` or `lxc`.
use aioproxmox.Prelude.{
  ℤ, pos, String, Bool, true, false, Option, none, some, List, [], ◌∷◌, nonempty, if◌then◌else◌,
}
use aioproxmox.Prelude.Text
use aioproxmox.Prelude.Text.{◌+++◌}
use aioproxmox.Prelude.Dict.{Dict}
use aioproxmox.Errors.{
  Result, ok, err, resource_not_found, attribute_error, not_implemented, type_error, is_api_error,
}
use aioproxmox.Value.{Value, int, str}
use aioproxmox.Model.Guests.{QemuStatus, LxcStatus, GuestFilesystem, GuestInterface, Snapshot}
use aioproxmox.Exec.{pure, raise, handle, lift, ◌>>=◌, ◌>>◌}
use aioproxmox.Client.State.{Client}
use aioproxmox.Client.Env.{Env, Run, reading}
use aioproxmox.Client.Request.{request}
use aioproxmox.Cluster.Cache.{pve_find_node_in_cache}
use aioproxmox.Endpoints.Calls.{
  call, guest_path, read_dict, agent_result, list_or_empty, command, fetch_as, fetch_list,
}
use aioproxmox.Endpoints.Cluster.{resources}

-- `pve_find_node_in_cache(self.client.cluster_resources, self.vmid)`: the attribute may not be there.
unfoldable pub cached_node : ℤ → Client → Result (Option String)
unfolding pve_find_node_in_cache
cached_node vmid c = elim c.cluster_resources [
  | none ↦ err (attribute_error "cluster_resources")
  | some collection ↦ ok (pve_find_node_in_cache (some collection) vmid)
]

-- `if not node`: None and the empty text
abbrev pub given : Option String → Option String
given none = none
given (some node) = if nonempty node then some node else none

-- The payload of a snapshot.
unfoldable pub snapshot_payload : Value → Option String → Bool → Dict Value
snapshot_payload name description state =
    let base = ("snapname", name) ∷ ("vmstate", int (pos (if state then 1 else 0))) ∷ [] in
    elim (given description) [
      | none ↦ base
      | some text ↦
          ("snapname", name)
          ∷ ("vmstate", int (pos (if state then 1 else 0)))
          ∷ ("description", str text)
          ∷ []
    ]

module _ {W : Type 0} (env : Env W) where
  -- `status` of the status and agent endpoints.
  unfoldable pub unimplemented : Run W (Unit {0})
  unimplemented = raise not_implemented

  unfoldable pub ping : String → ℤ → Run W Bool
  ping node vmid =
      handle (do request env (call "POST" (guest_path "qemu" node vmid "agent/ping") []); pure true)
        (λ e. if is_api_error e then pure false else raise e)

  unfoldable pub fsinfo :
      (Value → Result GuestFilesystem) → String → ℤ → Run W (List GuestFilesystem)
  fsinfo from_dict node vmid =
      fetch_as env agent_result from_dict (guest_path "qemu" node vmid "agent/get-fsinfo")

  unfoldable pub network_interfaces :
      (Value → Result GuestInterface) → String → ℤ → Run W (List GuestInterface)
  network_interfaces from_dict node vmid =
      fetch_as env agent_result from_dict
        (guest_path "qemu" node vmid "agent/network-get-interfaces")

  -- The fallback: `except Exception` turns every error into one.
  unfoldable pub fetch_node : ℤ → Run W (Option String)
  fetch_node vmid =
      handle (do resources env; reading (cached_node vmid))
        (λ e. raise (
          resource_not_found
            ("Failed to fetch resource map while tracking VMID " +++ Text.str_ℤ vmid)))

  -- The second `if not node`.
  unfoldable pub located : String → ℤ → Option String → Run W String
  located kind vmid none = raise (
      resource_not_found (
        "Target "
        +++ kind
        +++ " VMID "
        +++ Text.str_ℤ vmid
        +++ " could not be located anywhere in the cluster."))
  located kind vmid (some node) = pure node

  unfoldable pub locate : String → ℤ → Option String → Run W String
  unfolding located
  locate kind vmid (some node) = pure node
  locate kind vmid none = do node ← fetch_node vmid; located kind vmid (given node)

  -- The common body: `kind` in the route, and what the messages call a guest and an answer. The node that the
  -- endpoint was made for is not read.
  module _ {A : Type 0} where
    unfoldable pub current :
        String → String → String → (Dict Value → Result A) → String → ℤ → Run W A
    current kind guest answer from_dict own_node vmid = do
      cached ← reading (cached_node vmid)
      node ← locate guest vmid (given cached)
      raw ← request env (call "GET" (guest_path kind node vmid "status/current") [])
      lift (read_dict answer from_dict raw)

  unfoldable pub qemu_current : (Dict Value → Result QemuStatus) → String → ℤ → Run W QemuStatus
  qemu_current = current "qemu" "QEMU" "qemu VM status"

  unfoldable pub lxc_current : (Dict Value → Result LxcStatus) → String → ℤ → Run W LxcStatus
  lxc_current = current "lxc" "container" "LCX status"

  unfoldable pub hibernate : String → ℤ → Run W String
  hibernate node vmid =
      command env
        (call "POST" (guest_path "qemu" node vmid "status/suspend") (("todisk", int (pos 1)) ∷ []))

  -- QEMU refuses to edit a locked guest's config without `skiplock`; a container takes none.
  unfoldable pub qemu_unlock : String → ℤ → Run W String
  qemu_unlock node vmid = command env (
      call "PUT" (guest_path "qemu" node vmid "config")
        (("delete", str "lock") ∷ ("skiplock", int (pos 1)) ∷ []))

  unfoldable pub lxc_unlock : String → ℤ → Run W String
  lxc_unlock node vmid =
      command env (call "PUT" (guest_path "lxc" node vmid "config") (("delete", str "lock") ∷ []))

  -- `request` has no parameter `data`, under which the payload is passed: the call is a TypeError.
  request_with_data : String → String → Dict Value → Run W String
  request_with_data method path payload = raise type_error

  unfoldable pub qemu_snapshot : String → ℤ → String → Option String → Bool → Run W String
  unfolding request_with_data snapshot_payload
  qemu_snapshot node vmid name description state =
      request_with_data "POST" (guest_path "qemu" node vmid "snapshot")
        (snapshot_payload (str name) description state)

  unfoldable pub lxc_snapshot : String → ℤ → Value → Option String → Bool → Run W String
  unfolding request_with_data snapshot_payload
  lxc_snapshot node vmid name description state =
      request_with_data "POST" (guest_path "lxc" node vmid "snapshot")
        (snapshot_payload name description state)

  unfoldable pub snapshots : String → (Value → Result Snapshot) → String → ℤ → Run W (List Snapshot)
  snapshots kind from_dict node vmid =
      fetch_list env from_dict (guest_path kind node vmid "snapshot")

  unfoldable pub interfaces :
      (Value → Result GuestInterface) → String → ℤ → Run W (List GuestInterface)
  interfaces from_dict node vmid =
      fetch_as env list_or_empty from_dict (guest_path "lxc" node vmid "interfaces")
