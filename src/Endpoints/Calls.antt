-- ===== src/Endpoints/Calls.antt =====
-- What the endpoints of aioproxmox/endpoints.py share: the commands and how answers are read.
use aioproxmox.Prelude.{ℤ, String, none, some, List, [], ◌∷◌, map, if◌then◌else◌}
use aioproxmox.Prelude.Text
use aioproxmox.Prelude.Text.{◌+++◌}
use aioproxmox.Prelude.Dict.{Dict}
use aioproxmox.Errors.{Result, ok, err, type_error, proxmox_error}
use aioproxmox.Value.{
  Value, null, bool, int, float, str, arr, obj, as_dict, as_list, fields, items, get, truthy,
}
use aioproxmox.Model.Decode.{list_from_api}
use aioproxmox.Exec.{lift, pure, ◌>>=◌}
use aioproxmox.Client.Env.{Env, Run, str_Value}
use aioproxmox.Client.Once.{Call}
use aioproxmox.Client.Request.{request}

-- `request(method, path)` and with a body
abbrev pub call : String → String → Dict Value → Call
call method path json_data = record {
  method = method;
  path = path;
  json_data = json_data;
  params = [];
}

abbrev pub node_path : String → String → String
node_path node rest = "nodes/" +++ node +++ "/" +++ rest

-- f"nodes/{node}/qemu/{vmid}/…" and the same for lxc
unfoldable pub guest_path : String → String → ℤ → String → String
unfolding Text.str_ℤ
guest_path kind node vmid rest = node_path node (kind +++ "/" +++ Text.str_ℤ vmid +++ "/" +++ rest)

-- Iterating over a value: a list gives its items, a dict its keys, a text its characters.
unfoldable pub chars : String → List Value
chars String.[] = []
chars (String.◌∷◌ c s) = str (String.◌∷◌ c "") ∷ chars s

unfoldable pub iterate : Value → Result (List Value)
unfolding chars fields items
iterate (arr vs) = ok (items vs)
iterate (obj fs) = ok (map (λ p. str p.0) (fields fs))
iterate (str s) = ok (chars s)
iterate _ = err type_error

-- `for item in raw or []`
unfoldable pub iterate_or_empty : Value → Result (List Value)
unfolding truthy iterate
iterate_or_empty raw = if truthy raw then iterate raw else ok []

-- `raw if isinstance(raw, dict) else {}` and the same for lists
unfoldable pub dict_or_empty : Value → Dict Value
unfolding as_dict
dict_or_empty raw = elim (as_dict raw) [ none ↦ [] | some d ↦ d ]

unfoldable pub list_or_empty : Value → List Value
unfolding as_list
list_or_empty raw = elim (as_list raw) [ none ↦ [] | some vs ↦ vs ]

-- `_agent_result`
unfoldable pub agent_result : Value → List Value
unfolding list_or_empty as_dict get
agent_result raw = elim (as_dict raw) [
  | none ↦ list_or_empty raw
  | some d ↦ list_or_empty (get "result" d)
]

-- f"{type(raw)}"
unfoldable pub type_text : Value → String
type_text null = "<class 'NoneType'>"
type_text (bool b) = "<class 'bool'>"
type_text (int n) = "<class 'int'>"
type_text (float f) = "<class 'float'>"
type_text (str s) = "<class 'str'>"
type_text (arr vs) = "<class 'list'>"
type_text (obj fs) = "<class 'dict'>"

-- `if not isinstance(raw, dict): raise ProxmoxError(…)`, then `from_dict(raw)`
unfoldable pub read_dict {ℓ} : {A : Type ℓ} → String → (Dict Value → Result A) → Value → Result A
unfolding as_dict type_text
read_dict what from_dict raw = elim (as_dict raw) [
  | none ↦
      err (proxmox_error ("Expected dict response from " +++ what +++ ", got " +++ type_text raw))
  | some d ↦ from_dict d
]

module _ {W : Type 0} (env : Env W) where
  -- `return str(await self.client.request(…))`
  unfoldable pub command : Call → Run W String
  command c = do raw ← request env c; pure (str_Value env.repr raw)

  -- PostAction.__call__
  unfoldable pub post_action : String → Dict Value → Run W Value
  post_action path kwargs = request env (call "POST" path kwargs)

  -- What `node_action`, `qemu_action` and `lxc_action` bind.
  unfoldable pub node_action : String → String → Dict Value → Run W Value
  unfolding post_action
  node_action endpoint node kwargs = post_action (node_path node endpoint) kwargs

  unfoldable pub qemu_action : String → String → ℤ → Dict Value → Run W Value
  unfolding post_action guest_path
  qemu_action endpoint node vmid kwargs =
      post_action (guest_path "qemu" node vmid ("status/" +++ endpoint)) kwargs

  unfoldable pub lxc_action : String → String → ℤ → Dict Value → Run W Value
  unfolding post_action guest_path
  lxc_action endpoint node vmid kwargs =
      post_action (guest_path "lxc" node vmid ("status/" +++ endpoint)) kwargs

  -- NodeStatusCommand
  unfoldable pub node_status_command : String → String → Run W Value
  node_status_command command node =
      request env (call "POST" (node_path node "status") (("command", str command) ∷ []))

  module _ {A : Type 0} where
    -- `X.list_from_api(raw)` of a GET, with `for item in raw or []`
    unfoldable pub fetch_list : (Value → Result A) → String → Run W (List A)
    fetch_list from_dict path = do
      raw ← request env (call "GET" path [])
      vs ← lift (iterate_or_empty raw)
      lift (list_from_api from_dict vs)

    -- `[X.from_dict(item) for item in raw]`
    unfoldable pub fetch_all : (Value → Result A) → String → Run W (List A)
    fetch_all from_dict path = do
      raw ← request env (call "GET" path [])
      vs ← lift (iterate raw)
      lift (list_from_api from_dict vs)

    -- `X.from_dict(raw)`
    unfoldable pub fetch_one : (Value → Result A) → String → Run W A
    fetch_one from_dict path = do raw ← request env (call "GET" path []); lift (from_dict raw)

    -- a reading of the raw answer
    unfoldable pub fetch_as : (Value → List Value) → (Value → Result A) → String → Run W (List A)
    fetch_as entries from_dict path = do
      raw ← request env (call "GET" path [])
      lift (list_from_api from_dict (entries raw))
