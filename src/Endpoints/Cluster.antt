-- ===== src/Endpoints/Cluster.antt =====
-- ClusterEndpoint of aioproxmox/endpoints.py, and the methods of ProxmoxVE that
-- call them.
use aioproxmox.Prelude.{
  String, Bool, false, not, ◌&&◌, ◌||◌, none, some, List, [], ◌∷◌, map, filter, str_eq,
  if◌then◌else◌,
}
use aioproxmox.Prelude.Text.{◌+++◌}
use aioproxmox.Prelude.Dict.{Dict}
use aioproxmox.Errors.{Result, ok, err, proxmox_error, is_proxmox_error}
use aioproxmox.Value.{Value, str, as_dict, as_list, as_str, get, truthy}
use aioproxmox.Model.Resources.{ClusterResourcesCollection}
use aioproxmox.Model.Decode.{resources_from_dict}
use aioproxmox.Model.Health.{GuestWithoutBackup}
use aioproxmox.Health.Time.{FloatTime}
use aioproxmox.Health.Ceph.{CephStatus, ceph_from_api}
use aioproxmox.Health.Ha.{HaStatus, ha_from_api}
use aioproxmox.Exec.{lift, pure, raise, ◌>>=◌, ◌>>◌}
use aioproxmox.Client.State.{Client, Auth, ticket, api_token}
use aioproxmox.Client.Env.{Env, Run, reading, calling, str_Value}
use aioproxmox.Client.Hosts.{learn_hosts}
use aioproxmox.Client.Auth.{relogin}
use aioproxmox.Client.Request.{request}
use aioproxmox.Cluster.Cache.{pve_cluster_cache}
use aioproxmox.Endpoints.Calls.{call, command, fetch_list, dict_or_empty, list_or_empty}

-- `[entry for entry in raw if isinstance(entry, dict)]`
unfoldable pub dicts_of : List Value → List (Dict Value)
unfolding as_dict
dicts_of [] = []
dicts_of (v ∷ vs) = elim (as_dict v) [ none ↦ dicts_of vs | some d ↦ d ∷ dicts_of vs ]

unfoldable pub entries_of : Value → List (Dict Value)
unfolding as_list dicts_of
entries_of raw = elim (as_list raw) [ none ↦ [] | some vs ↦ dicts_of vs ]

-- `entry.get("type") == "node"`
unfoldable pub is_node_entry : Dict Value → Bool
unfolding get
is_node_entry entry = elim (as_str (get "type" entry)) [ none ↦ false | some s ↦ str_eq s "node" ]

-- The condition on an entry: another node, with an address.
unfoldable pub is_other_node : Dict Value → Bool
unfolding is_node_entry truthy get
is_other_node entry =
    is_node_entry entry && (truthy (get "ip" entry) && not (truthy (get "local" entry)))

unfoldable pub addresses_of : (Value → String) → List (Dict Value) → List String
unfolding is_other_node get str_Value filter
addresses_of repr entries =
    map (λ entry. str_Value repr (get "ip" entry)) (filter is_other_node entries)

-- The assignments of `resources`.
unfoldable pub store_resources : ClusterResourcesCollection → Client → Result (Unit {0}) × Client
unfolding pve_cluster_cache
store_resources collection c = (
  ok tt,
  record c {
    cluster_resources = some collection;
    cluster_cache = pve_cluster_cache (some collection);
  },
)

-- `learn_hosts` as a method that changes the client or raises.
unfoldable pub learning : List String → Client → Result (Unit {0}) × Client
unfolding learn_hosts
learning hosts c = elim (learn_hosts hosts false c) [ ok c' ↦ (ok tt, c') | err e ↦ (err e, c) ]

module _ {W : Type 0} (env : Env W) where
  unfoldable pub status : Run W (List (Dict Value))
  unfolding entries_of
  status = do raw ← request env (call "GET" "cluster/status" []); pure (entries_of raw)

  unfoldable pub resources : Run W ClusterResourcesCollection
  unfolding resources_from_dict
  resources = do
    raw ← request env (call "GET" "cluster/resources" [])
    let collection = resources_from_dict env.decoder raw
    calling (store_resources collection)
    pure collection

  unfoldable pub arm_ha : Run W String
  arm_ha = command env (call "POST" "cluster/ha/status/arm-ha" [])

  unfoldable pub ceph_status : Run W CephStatus
  unfolding ceph_from_api dict_or_empty
  ceph_status = do
    raw ← request env (call "GET" "cluster/ceph/status" [])
    pure (ceph_from_api (dict_or_empty raw))

  unfoldable pub ha_status : FloatTime → Run W HaStatus
  unfolding ha_from_api list_or_empty
  ha_status float_time = do
    raw ← request env (call "GET" "cluster/ha/status/current" [])
    lift (ha_from_api float_time env.repr (list_or_empty raw))

  -- `repr` is the text of the mode as the message shows it.
  unfoldable pub disarm_ha : String → Run W String
  disarm_ha resource_mode =
      if str_eq resource_mode "freeze" || str_eq resource_mode "ignore"
      then command env
          (call "POST" "cluster/ha/status/disarm-ha" (("resource-mode", str resource_mode) ∷ []))
      else raise (
          proxmox_error
            ("resource_mode must be 'freeze' or 'ignore', not " +++ env.repr (str resource_mode)))

  unfoldable pub not_backed_up :
      (Value → Result GuestWithoutBackup) → Run W (List GuestWithoutBackup)
  not_backed_up from_dict = fetch_list env from_dict "cluster/backup-info/not-backed-up"

  -- `hasattr(self.auth, "async_init")`: a ticket login has it, and logs in as `relogin` does.
  unfoldable pub async_init : Auth → Run W (Unit {0})
  async_init (ticket t) = relogin env
  async_init (api_token t) = pure tt

  unfoldable pub connect : Run W ClusterResourcesCollection
  connect = do auth ← reading (λ c. ok c.auth); async_init auth; resources

  -- What becomes of the status; `except ProxmoxError` leaves the hosts as they are.
  unfoldable pub learn_found : Result (List (Dict Value)) → Run W (Unit {0})
  unfolding addresses_of learning
  learn_found (ok entries) = calling (learning (addresses_of env.repr entries))
  learn_found (err e) = if is_proxmox_error e then pure tt else raise e

  unfoldable pub learn_hosts_from_cluster : Run W (Unit {0})
  unfolding learn_found
  learn_hosts_from_cluster m = let (found, after) = status m in learn_found found after
