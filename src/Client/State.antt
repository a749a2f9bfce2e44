-- ===== src/Client/State.antt =====
-- The objects of aioproxmox/__init__.py: the authentication classes and `ProxmoxVE`.
use aioproxmox.Prelude.{
  ℕ, String, Bool, false, not, ◌&&◌, Option, none, some, List, [], ◌∷◌, ◌==◌, str_eq, if◌then◌else◌,
  nonempty,
}
use aioproxmox.Prelude.Text
use aioproxmox.Prelude.Text.{◌+++◌}
use aioproxmox.Errors.{Result, ok, err, auth_error, key_error, ◌>>=◌}
use aioproxmox.Value.{Value, str}
use aioproxmox.Model.Permissions.{PveCapabilities, PvePermissions, no_permissions}
use aioproxmox.Model.Resources.{ClusterResourcesCollection, ClusterCache, empty_cache}

-- `verify_ssl`: False, True, or an SSL context, told apart by a number.
pub data Verify : Type 0 where
  unverified verified : Verify
  context : ℕ → Verify

-- ProxmoxHTTPAuth. Times are in nanoseconds. The server's texts are stored unvalidated.
pub record TicketAuth : Type 0 where
  pub timeout : ℕ
  pub service : String
  pub verify_ssl : Verify
  pub base_url : String
  pub capabilities : Option PveCapabilities
  pub username : String
  pub password : String
  pub otp : Option Bool
  pub otptype : String
  pub pve_auth_ticket : Value
  pub csrf_prevention_token : Value
  pub birth_time : ℕ

-- ProxmoxHTTPApiTokenAuth
pub record ApiTokenAuth : Type 0 where
  pub timeout : ℕ
  pub service : String
  pub verify_ssl : Verify
  pub base_url : String
  pub username : String
  pub token_name : String
  pub token_value : String

pub data Auth : Type 0 where
  ticket : TicketAuth → Auth
  api_token : ApiTokenAuth → Auth

-- ProxmoxVE. `cluster_resources` is only annotated in the constructor: until it is assigned, reading
-- it is an AttributeError.
pub record Client : Type 0 where
  pub base_url : String
  pub hosts : List String
  pub host_index : ℕ
  pub port : ℕ
  pub verify_ssl : Verify
  pub timeout : ℕ
  pub auth : Auth
  pub permissions : PvePermissions
  pub cluster_resources : Option ClusterResourcesCollection
  pub cluster_cache : ClusterCache

abbrev pub second : ℕ
second = 1000000000

abbrev pub default_pve_port : ℕ
default_pve_port = 8006

abbrev pub probe_timeout : ℕ
probe_timeout = 10000000000

abbrev pub renew_age : ℕ
renew_age = 3600000000000

-- SERVICES[service]["default_port"] and SERVICES[service]["token_separator"]
unfoldable pub service_port : String → Result ℕ
service_port service = if str_eq service "PVE" then ok default_pve_port else err (key_error service)

unfoldable pub token_separator : String → Result String
token_separator service = if str_eq service "PVE" then ok "=" else err (key_error service)

-- f"https://{host}:{port}/api2/json"
unfoldable pub url_of : String → ℕ → String
unfolding Text.str_ℕ
url_of host port = "https://" +++ host +++ ":" +++ Text.str_ℕ port +++ "/api2/json"

-- str(value) of an optional text
abbrev str_option : Option String → String
str_option none = "None"
str_option (some s) = s

-- bool(value) of an optional text
abbrev pub truthy_option : Option String → Bool
truthy_option none = false
truthy_option (some s) = nonempty s

unfoldable pub clean_host : String → String
unfolding Text.has_char Text.before Text.starts_bracket
clean_host host =
    if Text.has_char b':' host && not (Text.starts_bracket host)
    then Text.before b':' host
    else host

-- The constructor's arguments after the session and the host.
pub record Options : Type 0 where
  pub user : Option String
  pub password : Option String
  pub otp : Option String
  pub port : Option ℕ
  pub verify_ssl : Verify
  pub timeout : ℕ
  pub token_name : Option String
  pub token_value : Option String
  pub service : String

-- `if not port: port = int(SERVICES[service]["default_port"])`
unfoldable pub port_or_default : Option ℕ → String → Result ℕ
unfolding service_port
port_or_default none service = service_port service
port_or_default (some port) service = if port == 0 then service_port service else ok port

-- ProxmoxHTTPApiTokenAuth(str(user), token_name, str(token_value), …)
unfoldable pub new_api_token : Options → String → ApiTokenAuth
new_api_token o token_name = record {
  timeout = o.timeout;
  service = o.service;
  verify_ssl = o.verify_ssl;
  base_url = "";
  username = str_option o.user;
  token_name = token_name;
  token_value = str_option o.token_value;
}

-- ProxmoxHTTPAuth(str(user), password, bool(otp), base_url=…)
unfoldable pub new_ticket : Options → String → String → Bool → TicketAuth
new_ticket o base_url password otp = record {
  timeout = o.timeout;
  service = o.service;
  verify_ssl = o.verify_ssl;
  base_url = base_url;
  capabilities = none;
  username = str_option o.user;
  password = password;
  otp = some otp;
  otptype = "totp";
  pve_auth_ticket = str "";
  csrf_prevention_token = str "";
  birth_time = 0;
}

unfoldable pub choose_auth : Options → String → Option String → Option String → Result Auth
unfolding new_api_token new_ticket
choose_auth o base_url (some token_name) password = ok (api_token (new_api_token o token_name))
choose_auth o base_url none (some password) =
    ok (ticket (new_ticket o base_url password (truthy_option o.otp)))
choose_auth o base_url none none =
    err (auth_error "No valid authentication credentials were supplied")

unfoldable pub auth_of : Options → String → Result Auth
unfolding choose_auth
auth_of o base_url = choose_auth o base_url o.token_name o.password

unfoldable pub new_client : Options → String → ℕ → Auth → Client
unfolding url_of
new_client o host port auth = record {
  base_url = url_of host port;
  hosts = host ∷ [];
  host_index = 0;
  port = port;
  verify_ssl = o.verify_ssl;
  timeout = o.timeout;
  auth = auth;
  permissions = no_permissions;
  cluster_resources = none;
  cluster_cache = empty_cache;
}

-- ProxmoxVE.__init__
unfoldable pub init : String → Options → Result Client
init given o = do
  port ← port_or_default o.port o.service
  auth ← auth_of o (url_of (clean_host given) port)
  ok (new_client o (clean_host given) port auth)
