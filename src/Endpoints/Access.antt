-- ===== src/Endpoints/Access.antt =====
-- AccessEndpoint of aioproxmox/endpoints.py.
use aioproxmox.Prelude.{◌^◌, ℤ, pos, true, none, some, [], ◌∷◌, if◌then◌else◌}
use aioproxmox.Prelude.Int.{eq_ℤ}
use aioproxmox.Prelude.Dict.{Dict}
use aioproxmox.Errors.{Result, ok, err, attribute_error, ◌>>=◌}
use aioproxmox.Value.{Value, bool, int, float, as_dict}
use aioproxmox.Model.Permissions.{PvePermissions, from_api_response}
use aioproxmox.Exec
use aioproxmox.Client.State.{Client}
use aioproxmox.Client.Env.{Env, Run, calling}
use aioproxmox.Client.Request.{request}
use aioproxmox.Endpoints.Calls.{call}

-- What the comparison `val == 1` sees of a value.
unfoldable pub flag : Value → ℤ
flag (int n) = n
flag (bool true) = pos 1
flag (float f) = if eq_ℤ f.mantissa (pos (2 ^ f.scale)) then pos 1 else pos 0
flag _ = pos 0

unfoldable pub flags : Dict Value → Dict ℤ
unfolding flag
flags [] = []
flags ((priv, val) ∷ rest) = (priv, flag val) ∷ flags rest

-- `value.items()`
unfoldable pub items_of : Value → Result (Dict Value)
unfolding as_dict
items_of value = elim (as_dict value) [ none ↦ err (attribute_error "items") | some d ↦ ok d ]

unfoldable pub acl_entries : Dict Value → Result (Dict (Dict ℤ))
unfolding items_of flags
acl_entries [] = ok []
acl_entries ((path, privs) ∷ rest) = do
  d ← items_of privs
  others ← acl_entries rest
  ok ((path, flags d) ∷ others)

-- `PVEPermissions.from_api_response(raw)` of what the server sent.
unfoldable pub permissions_of : Value → Result PvePermissions
unfolding acl_entries items_of from_api_response
permissions_of raw = do d ← items_of raw; entries ← acl_entries d; ok (from_api_response entries)

unfoldable pub store_permissions : Value → Client → Result PvePermissions × Client
unfolding permissions_of
store_permissions raw c = elim (permissions_of raw) [
  | err e ↦ (err e, c)
  | ok perms ↦ (ok perms, record c { permissions = perms })
]

module _ {W : Type 0} (env : Env W) where
  unfoldable pub permissions : Run W PvePermissions
  unfolding store_permissions
  permissions =
      Exec.◌>>=◌ (request env (call "GET" "access/permissions" []))
        (λ raw. calling (store_permissions raw))
