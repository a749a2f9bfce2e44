-- ===== src/Tests/Endpoints.antt =====
-- The endpoints at work.
use aioproxmox.Prelude.{
  any, true, ℕ, ◌||◌, pos, String, ◌≡◌, refl, true, false, none, some, [], ◌∷◌,
}
use aioproxmox.Prelude.Dict.{Dict}
use aioproxmox.Errors.{Result, ok, err, type_error, attribute_error}
use aioproxmox.Value.{
  Value, int, as_dict, as_list, get, truthy, str, arr, obj, null, nil, cons, field, end,
}
use aioproxmox.Exec.{◌>>=◌, lift, pure, handle, raise}
use aioproxmox.Client.State.{Client}
use aioproxmox.Client.Env.{Env, Machine, reading, send, str_Value}
use aioproxmox.Client.Hosts.{at, current_host}
use aioproxmox.Client.Request.{request, prepare}
use aioproxmox.Client.Auth.{check_and_refresh, refresh}
use aioproxmox.Client.Once.{request_once, build_request, read_response, get_headers, unwrap}
use aioproxmox.Client.State.{token_separator}
use aioproxmox.Model.Guests.{QemuStatus}
use aioproxmox.Endpoints.Calls.{call, guest_path}
use aioproxmox.Endpoints.Guests.{current}
use aioproxmox.Endpoints.Nodes.{one, Backup}
use aioproxmox.Endpoints.Answers.{current-init}
use aioproxmox.Endpoints.Learned.{Heard, names_peer, learn_hosts_from_cluster-Heard}
use aioproxmox.Endpoints.Backups.{Answered, acceptable, vzdump-Answered}
use aioproxmox.Endpoints.Objects.{nodes, status_command, node_call, node_bound}
use aioproxmox.Endpoints.Privileged.{machine, bound, power_of, bound-privileges}
use aioproxmox.Privileges.{privileges_for}
use aioproxmox.Prelude.Text
use aioproxmox.Prelude.Text.{◌+++◌}
use aioproxmox.Prelude.Dict
use aioproxmox.Model.Permissions.{PvePermissions, has_permission}
use aioproxmox.Endpoints.Access.{permissions}
use aioproxmox.Endpoints.Permitted.{says, permissions-has_permission}
use aioproxmox.Tests.Net.{net, respond, start, on_hosts, token}
use aioproxmox.Endpoints.Followed.{node_in, fallback, current-fallback}
use aioproxmox.Cluster.Cache.{pve_find_node_in_cache}
use aioproxmox.Tests.Cluster.{any_guest}
use aioproxmox.Tests.Logins.{options, built, built_with}

-- The cluster names one other node.
abbrev other : Value
other = obj (field "type" (str "node") (field "ip" (str "b") end))

abbrev granting : Env ℕ
granting = net (λ req w. ok (respond 200 (obj (field "data" (arr (cons other nil)) end))))

abbrev alone : Client
alone = on_hosts token ("a" ∷ [])

-- Its address is named by the answer, and no other one is.
named :
    (names_peer granting.repr (arr (cons other nil)) "b" ≡ true)
    × (names_peer granting.repr (arr (cons other nil)) "c" ≡ false)
unfolding as_list as_dict get truthy any str_Value
named = (refl, refl)

abbrev asked : Result Value × Machine ℕ
asked = request granting (call "GET" "cluster/status" []) (start alone)

stays : current_host asked.1.client ≡ ok "a"
unfolding request prepare handle check_and_refresh refresh pure current_host at request_once ◌>>=◌
    reading send build_request get_headers token_separator read_response unwrap lift
stays = refl

learn_hosts_from_cluster-Heard_example : Heard granting (start alone) asked.1 "a" asked.0
learn_hosts_from_cluster-Heard_example =
    learn_hosts_from_cluster-Heard granting (start alone) asked.1 "a" asked.0 refl stays

abbrev silent : Env ℕ
silent = net (λ req w. ok (respond 500 null))

abbrev no_status : Dict Value → Result QemuStatus
no_status d = err type_error

abbrev nightly : Backup
nightly = record {
  storage = some "nfs";
  mode = some "snapshot";
  compress = none;
  notes_template = some "nightly";
  extra = [];
}

vzdump-Answered_example :
    Answered silent "pve"
      (one (pos 101))
      false
      nightly
      (start alone)
      (acceptable (one (pos 101)) false nightly)
vzdump-Answered_example = vzdump-Answered silent "pve" (one (pos 101)) false nightly (start alone)

current-init_example :
    current silent "qemu" "QEMU" "qemu VM status" no_status "a" (pos 101) (start built)
    ≡ (err (attribute_error "cluster_resources"), start built)
current-init_example =
    current-init silent 0 "qemu" "QEMU" "qemu VM status" no_status "a" (pos 101) "pve:443"
      (record options { otp = some "123456" }) built (built_with "123456" refl)

-- A cluster whose rows have come to name a virtual machine, and a client that holds none.
abbrev listing : Env ℕ
listing =
    record (net (λ req w. ok (
      respond 200
        (obj (field "data" (arr (cons (obj (field "type" (str "qemu") end)) nil)) end))))) {
          decoder = any_guest;
        }

abbrev unaware : Client
unaware = record alone { cluster_resources = some (record { resources = [] }) }

abbrev rows : Result Value × Machine ℕ
rows = request listing (call "GET" "cluster/resources" []) (start unaware)

-- The guest is on the node `a`, and not on `z`.
followed_to :
    node_in any_guest (pos 101) (arr (cons null (cons (obj (field "type" (str "qemu") end)) nil)))
    ≡ some "a"
unfolding as_list as_dict get
followed_to = refl

current-fallback_example :
    current listing "qemu" "QEMU" "qemu VM status" no_status "z" (pos 101) (start unaware)
    ≡ fallback listing "qemu" "QEMU" "qemu VM status" no_status (pos 101) rows.1 rows.0
unfolding pve_find_node_in_cache
current-fallback_example =
    current-fallback listing "qemu" "QEMU" "qemu VM status" no_status "z" (pos 101) (start unaware)
      rows.1 (record { resources = [] }) rows.0 refl refl refl

-- `client.nodes("pve").qemu(101).status.restart(timeout=60)`
bound-privileges_example :
    (bound granting machine "pve" (pos 101) "restart"
      ≡ some (λ kwargs.
        request granting
          (call "POST" (guest_path "qemu" "pve" (pos 101) ("status/" +++ "reboot")) kwargs)))
    × (privileges_for "POST" (guest_path "qemu" "pve" (pos 101) ("status/" +++ "reboot")) []
        ≡ some (power_of (pos 101)))
unfolding Dict.lookup Text.has_char
bound-privileges_example =
    bound-privileges granting machine "pve" (pos 101) "restart" "reboot" refl refl

-- A command of a node takes no argument, and a node has no action `start`.
node_calls :
    (node_call granting (status_command "reboot") "pve" (("timeout", null) ∷ []) ≡ raise type_error)
    × (node_bound granting (nodes "pve") "start" ≡ none)
unfolding node_call node_bound Dict.lookup
node_calls = (refl, refl)

-- The permissions of a session that audits the guests.
abbrev guest_acl : Dict Value
guest_acl = ("/vms", obj (field "VM.Audit" (int (pos 1)) end)) ∷ []

abbrev acl_answer : Value
acl_answer = obj (field "/vms" (obj (field "VM.Audit" (int (pos 1)) end)) end)

abbrev auditing : Env ℕ
auditing = net (λ req w. ok (respond 200 (obj (field "data" acl_answer end))))

abbrev answered : Machine ℕ
answered = record { client = alone; world = 1 }

asked_acl :
    request auditing (call "GET" "access/permissions" []) (start alone) ≡ (ok acl_answer, answered)
unfolding request prepare handle check_and_refresh refresh pure current_host at request_once ◌>>=◌
    reading send build_request get_headers token_separator read_response unwrap lift
asked_acl = refl

permissions-has_permission_example :
    (perms : PvePermissions) × (permissions auditing (start alone)
      ≡ (ok perms, record answered { client = record alone { permissions = perms } }))
    × ((path privilege : String)
        → has_permission perms path privilege
          ≡ says guest_acl privilege path
            || (says guest_acl privilege (Text.before_last_slash path)
                || says guest_acl privilege "/"))
unfolding as_dict Dict.lookup
permissions-has_permission_example =
    permissions-has_permission auditing (start alone) answered acl_answer guest_acl asked_acl refl
      refl refl
