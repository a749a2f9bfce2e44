-- ===== src/Tests/Net.antt =====
-- Concrete networks and clients.
use aioproxmox.Prelude.{ℕ, ◌+◌, ◌*◌, String, false, none, some, List, [], ◌∷◌}
use aioproxmox.Errors.{Result, ok, err, connection_error, type_error}
use aioproxmox.Value.{Value, null, str}
use aioproxmox.Model.Permissions.{no_permissions}
use aioproxmox.Model.Resources.{empty_cache}
use aioproxmox.Model.Decode.{Decoder}
use aioproxmox.Client.State.{Client, Auth, TicketAuth, api_token, verified, second}
use aioproxmox.Client.Env.{Env, HttpRequest, Response, Machine}

abbrev pub no_decoder : Decoder
no_decoder = record {
  node = λ d. err type_error;
  qemu = λ d. err type_error;
  lxc = λ d. err type_error;
  storage = λ d. err type_error;
  network = λ d. err type_error;
}

-- A network whose every answer is computed from the request and the number of requests before it.
abbrev pub net : (HttpRequest → ℕ → Result Response) → Env ℕ
net answer = record {
  send = λ req c w. (answer req w, c, w + 1);
  now = λ w. 4000 * second + w;
  repr = λ v. "";
  decoder = no_decoder;
}

abbrev pub respond : ℕ → Value → Response
respond status payload = record { status = status; reason = none; text = ok ""; json = ok payload }

abbrev pub all_up : Env ℕ
all_up = net (λ req w. ok (respond 401 null))

abbrev pub all_down : Env ℕ
all_down = net (λ req w. err connection_error)

abbrev pub token : Auth
token = api_token (record {
  timeout = 5;
  service = "PVE";
  verify_ssl = verified;
  base_url = "";
  username = "root@pam";
  token_name = "t";
  token_value = "v";
})

abbrev pub old_ticket : TicketAuth
old_ticket = record {
  timeout = 5;
  service = "PVE";
  verify_ssl = verified;
  base_url = "https://a:8006/api2/json";
  capabilities = none;
  username = "root@pam";
  password = "secret";
  otp = some false;
  otptype = "totp";
  pve_auth_ticket = str "old";
  csrf_prevention_token = str "old";
  birth_time = 0;
}

abbrev pub on_hosts : Auth → List String → Client
on_hosts auth hosts = record {
  base_url = "https://a:8006/api2/json";
  hosts = hosts;
  host_index = 0;
  port = 8006;
  verify_ssl = verified;
  timeout = 5;
  auth = auth;
  permissions = no_permissions;
  cluster_resources = none;
  cluster_cache = empty_cache;
}

abbrev pub three : Client
three = on_hosts token ("a" ∷ "b" ∷ "c" ∷ [])

abbrev pub start : Client → Machine ℕ
start c = record { client = c; world = 0 }
