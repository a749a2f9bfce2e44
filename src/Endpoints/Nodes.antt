-- ===== src/Endpoints/Nodes.antt =====
-- The endpoints of single nodes in aioproxmox/endpoints.py, with their disks and updates.
use aioproxmox.Prelude.{
  ℤ, pos, String, Bool, true, false, Option, none, some, List, [], ◌∷◌, map, nonempty,
  if◌then◌else◌,
}
use aioproxmox.Prelude.Text
use aioproxmox.Prelude.Dict
use aioproxmox.Prelude.Dict.{Dict}
use aioproxmox.Errors.{Result, ok, err, proxmox_error}
use aioproxmox.Value.{Value, int, str}
use aioproxmox.Model.Nodes.{
  NodeStatus, NodeVersion, NodeAptUpdate, NodeAptUpdateProperty, NodeStorageResource,
  NodeStorageResources, NodeTask, NodeTasks,
}
use aioproxmox.Model.Guests.{QemuResource, ContainerResource}
use aioproxmox.Model.Disks.{NodeDisk, DiskSmart, ZfsPool}
use aioproxmox.Model.Health.{Certificate, Subscription, ReplicationJob, NodeInterface}
use aioproxmox.Model.Decode.{list_from_api}
use aioproxmox.Exec.{pure, lift, ◌>>=◌}
use aioproxmox.Client.Env.{Env, Run}
use aioproxmox.Client.Request.{request}
use aioproxmox.Endpoints.Calls.{
  call, node_path, read_dict, dict_or_empty, iterate_or_empty, command, fetch_list, fetch_all,
  fetch_one,
}

-- `if value: payload[key] = value`
unfoldable pub with_text : String → Option String → Dict Value → Dict Value
unfolding Dict.insert
with_text key none payload = payload
with_text key (some text) payload =
    if nonempty text then Dict.insert key (str text) payload else payload

-- `if value is not None: payload[key] = value`
unfoldable pub with_some : String → Option Value → Dict Value → Dict Value
unfolding Dict.insert
with_some key none payload = payload
with_some key (some value) payload = Dict.insert key value payload

unfoldable pub task_params : Option String → Option ℤ → Option String → Dict Value
unfolding with_text with_some
task_params typefilter limit source = with_text "source" source (
    with_some "limit" (elim limit [ none ↦ none | some n ↦ some (int n) ])
      (with_text "typefilter" typefilter []))

-- The argument `vmid`: None, one id or a list of them.
pub data Guests : Type 0 where
  unnamed : Guests
  one : ℤ → Guests
  many : List ℤ → Guests

-- `ids = vmid if isinstance(vmid, list) else [vmid]`
unfoldable pub ids_of : Guests → List ℤ
ids_of unnamed = []
ids_of (one vmid) = vmid ∷ []
ids_of (many vmids) = vmids

abbrev no_guests : Result (Dict Value)
no_guests = err (proxmox_error "vzdump: name at least one guest or take all")

-- What is to be backed up.
unfoldable pub guests_payload : Bool → List ℤ → Dict Value → Result (Dict Value)
unfolding Dict.insert Text.join Text.str_ℤ
guests_payload true ids payload = ok (Dict.insert "all" (int (pos 1)) payload)
guests_payload false [] payload = no_guests
guests_payload false (vmid ∷ ids) payload =
    ok (Dict.insert "vmid" (str (Text.join "," (map Text.str_ℤ (vmid ∷ ids)))) payload)

abbrev pub is_given : Option String → Bool
is_given none = false
is_given (some s) = nonempty s

-- `if notes_template: …`
unfoldable pub notes_payload : Option String → Option String → Dict Value → Result (Dict Value)
unfolding with_text
notes_payload notes_template storage payload =
    if is_given notes_template
    then (if is_given storage
        then ok (with_text "notes-template" notes_template payload)
        else err (proxmox_error "vzdump: a notes template needs a storage"))
    else ok payload

-- The arguments of `vzdump` after `vmid` and `all_guests`; `extra` are the further keywords.
pub record Backup : Type 0 where
  pub storage : Option String
  pub mode : Option String
  pub compress : Option String
  pub notes_template : Option String
  pub extra : Dict Value

unfoldable pub vzdump_payload : Guests → Bool → Backup → Result (Dict Value)
unfolding guests_payload ids_of with_text with_some notes_payload
vzdump_payload guests all_guests b = elim (guests_payload all_guests (ids_of guests) b.extra) [
  | err e ↦ err e
  | ok payload ↦ notes_payload b.notes_template b.storage (
      with_some "compress" (elim b.compress [ none ↦ none | some c ↦ some (str c) ])
        (with_text "mode" b.mode (with_text "storage" b.storage payload)))
]

module _ {W : Type 0} (env : Env W) (node : String) where
  unfoldable pub apt_update : (Value → Result NodeAptUpdateProperty) → Run W NodeAptUpdate
  apt_update from_dict = do
    items ← fetch_list env from_dict (node_path node "apt/update")
    pure (record { items = items })

  unfoldable pub all_disks : (Value → Result NodeDisk) → Run W (List NodeDisk)
  all_disks from_dict = fetch_list env from_dict (node_path node "disks/list")

  unfoldable pub smart : (Dict Value → Result DiskSmart) → String → Run W DiskSmart
  smart from_dict devpath = do
    raw ← request env (record {
      method = "GET";
      path = node_path node "disks/smart";
      json_data = [];
      params = ("disk", str devpath) ∷ [];
    })
    lift (read_dict "disks/smart" from_dict raw)

  unfoldable pub zfs : (Value → Result ZfsPool) → Run W (List ZfsPool)
  zfs from_dict = fetch_list env from_dict (node_path node "disks/zfs")

  unfoldable pub qemu_all : (Value → Result QemuResource) → Run W (List QemuResource)
  qemu_all from_dict = fetch_all env from_dict (node_path node "qemu")

  unfoldable pub lxc_all : (Value → Result ContainerResource) → Run W (List ContainerResource)
  lxc_all from_dict = fetch_all env from_dict (node_path node "lxc")

  unfoldable pub node_status : (Value → Result NodeStatus) → Run W NodeStatus
  node_status from_dict = fetch_one env from_dict (node_path node "status")

  unfoldable pub node_tasks :
      (Value → Result NodeTask) → Option String → Option ℤ → Option String → Run W NodeTasks
  unfolding task_params
  node_tasks from_dict typefilter limit source = do
    raw ← request env (record {
      method = "GET";
      path = node_path node "tasks";
      json_data = [];
      params = task_params typefilter limit source;
    })
    vs ← lift (iterate_or_empty raw)
    tasks ← lift (list_from_api from_dict vs)
    pure (record { tasks = tasks })

  unfoldable pub node_storage : (Value → Result NodeStorageResource) → Run W NodeStorageResources
  node_storage from_dict = do
    storages ← fetch_list env from_dict (node_path node "storage")
    pure (record { storages = storages })

  unfoldable pub node_version : (Value → Result NodeVersion) → Run W NodeVersion
  node_version from_dict = fetch_one env from_dict (node_path node "version")

  unfoldable pub certificates : (Value → Result Certificate) → Run W (List Certificate)
  certificates from_dict = fetch_list env from_dict (node_path node "certificates/info")

  -- `Subscription.from_dict(raw if isinstance(raw, dict) else {})`
  unfoldable pub subscription : (Dict Value → Result Subscription) → Run W Subscription
  subscription from_dict =
      fetch_one env (λ raw. from_dict (dict_or_empty raw)) (node_path node "subscription")

  unfoldable pub replication : (Value → Result ReplicationJob) → Run W (List ReplicationJob)
  replication from_dict = fetch_list env from_dict (node_path node "replication")

  unfoldable pub node_network : (Value → Result NodeInterface) → Run W (List NodeInterface)
  node_network from_dict = fetch_list env from_dict (node_path node "network")

  unfoldable pub vzdump : Guests → Bool → Backup → Run W String
  unfolding vzdump_payload
  vzdump guests all_guests b = do
    payload ← lift (vzdump_payload guests all_guests b)
    command env (call "POST" (node_path node "vzdump") payload)
