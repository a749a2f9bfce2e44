-- ===== src/Model/Permissions.antt =====
-- aioproxmox/model/__init__.py: the session's capabilities and its ACL permissions.
pub mod Granted
use aioproxmox.Prelude.{
  ℤ, pos, String, Bool, true, false, none, some, List, [], ◌∷◌, str_eq, if◌then◌else◌, any,
}
use aioproxmox.Prelude.Text
use aioproxmox.Prelude.Text.{◌+++◌}
use aioproxmox.Prelude.Int.{eq_ℤ}
use aioproxmox.Prelude.Dict
use aioproxmox.Prelude.Dict.{Dict}
use aioproxmox.Errors.{Result, ok, err, type_error, attribute_error, ◌>>=◌}
use aioproxmox.Value.{Value, obj, end, as_dict, truthy}

-- Each field holds what the server sent under its name, unvalidated; `{}` is the default.
pub record PveCapabilities : Type 0 where
  pub nodes : Value
  pub sdn : Value
  pub storage : Value
  pub vms : Value
  pub access : Value
  pub dc : Value
  pub mapping : Value

abbrev pub no_capabilities : PveCapabilities
no_capabilities = record {
  nodes = obj end;
  sdn = obj end;
  storage = obj end;
  vms = obj end;
  access = obj end;
  dc = obj end;
  mapping = obj end;
}

-- One keyword argument of the constructor; an unknown one is a TypeError.
set_capability : String → Value → PveCapabilities → Result PveCapabilities
set_capability key value c =
    if str_eq key "nodes"
    then ok (record c { nodes = value })
    else if str_eq key "sdn"
    then ok (record c { sdn = value })
    else if str_eq key "storage"
    then ok (record c { storage = value })
    else if str_eq key "vms"
    then ok (record c { vms = value })
    else if str_eq key "access"
    then ok (record c { access = value })
    else if str_eq key "dc"
    then ok (record c { dc = value })
    else if str_eq key "mapping"
    then ok (record c { mapping = value })
    else err type_error

set_capabilities : Dict Value → PveCapabilities → Result PveCapabilities
unfolding set_capability
set_capabilities [] c = ok c
set_capabilities ((key, value) ∷ rest) c = do
  c' ← set_capability key value c
  set_capabilities rest c'

-- `PveCapabilities(**cap)`
unfoldable pub capabilities_from : Value → Result PveCapabilities
unfolding set_capabilities as_dict
capabilities_from cap = elim (as_dict cap) [
  | none ↦ err type_error
  | some d ↦ set_capabilities d no_capabilities
]

-- `bool(d.get(perm, 0))`
unfoldable pub has_flag : Value → String → Result Bool
unfolding Dict.lookup as_dict truthy
has_flag value perm = elim (as_dict value) [
  | none ↦ err (attribute_error "get")
  | some d ↦ elim (Dict.lookup perm d) [ none ↦ ok false | some v ↦ ok (truthy v) ]
]

unfoldable pub has_vm_capability : PveCapabilities → String → Result Bool
unfolding has_flag
has_vm_capability c perm = has_flag c.vms perm

unfoldable pub has_node_capability : PveCapabilities → String → Result Bool
unfolding has_flag
has_node_capability c perm = has_flag c.nodes perm

-- The set of privileges on each path.
pub record PvePermissions : Type 0 where
  pub perm_map : Dict (List String)

abbrev pub no_permissions : PvePermissions
no_permissions = record { perm_map = [] }

-- {priv for priv, val in priv_dict.items() if val == 1}
unfoldable pub allowed_privs : Dict ℤ → List String
allowed_privs [] = []
allowed_privs ((priv, val) ∷ rest) =
    let others = allowed_privs rest in if eq_ℤ val (pos 1) then priv ∷ others else others

abbrev is_empty : List String → Bool
is_empty [] = true
is_empty (p ∷ ps) = false

-- `if allowed_privs: compiled[path] = allowed_privs`
compile_entry : String → List String → Dict (List String) → Dict (List String)
unfolding Dict.insert
compile_entry path privs compiled =
    if is_empty privs then compiled else Dict.insert path privs compiled

compile : Dict (List String) → Dict (Dict ℤ) → Dict (List String)
unfolding allowed_privs compile_entry
compile compiled [] = compiled
compile compiled ((path, privs) ∷ rest) =
    compile (compile_entry path (allowed_privs privs) compiled) rest

unfoldable pub from_api_response : Dict (Dict ℤ) → PvePermissions
unfolding compile
from_api_response response = record { perm_map = compile [] response }

-- `privs and privilege in privs` at one path of the list
unfoldable pub granted_at : PvePermissions → String → String → Bool
unfolding Dict.lookup any
granted_at perms privilege path = elim (Dict.lookup path perms.perm_map) [
  | none ↦ false
  | some privs ↦ any (λ p. str_eq p privilege) privs
]

unfoldable pub has_permission : PvePermissions → String → String → Bool
unfolding granted_at any Text.before_last_slash
has_permission perms path privilege =
    any (granted_at perms privilege) (path ∷ Text.before_last_slash path ∷ "/" ∷ [])

-- The id is given as it is formatted: `str(vmid)` of a number, or a text.
unfoldable pub has_vm_permission : PvePermissions → String → String → Bool
unfolding has_permission
has_vm_permission perms vmid privilege = has_permission perms ("/vms/" +++ vmid) privilege

unfoldable pub has_storage_permission : PvePermissions → String → String → Bool
unfolding has_permission
has_storage_permission perms storage_id privilege =
    has_permission perms ("/storage/" +++ storage_id) privilege

unfoldable pub has_node_permission : PvePermissions → String → String → Bool
unfolding has_permission
has_node_permission perms node privilege = has_permission perms ("/nodes/" +++ node) privilege
