-- ===== src/Tests/Logins.antt =====
-- Logins at work.
use aioproxmox.Prelude.{ℕ, zero, suc, ◌*◌, String, ◌≡◌, refl, true, none, some, [], ◌∷◌, nonempty}
use aioproxmox.Prelude.Dict
use aioproxmox.Errors.{Result, ok, err, api_error}
use aioproxmox.Exec.{handle, pure, ◌>>=◌}
use aioproxmox.Value.{Value, null, str, obj, end, field, as_dict, fields, subscript, get}
use aioproxmox.Model.Permissions.{capabilities_from, no_capabilities}
use aioproxmox.Client.State.{
  Client, TicketAuth, Options, init, second, verified, url_of, ticket, auth_of, choose_auth,
  new_client, new_ticket, clean_host, port_or_default, service_port,
}
use aioproxmox.Client.Env.{Env, Response, reading, send}
use aioproxmox.Client.Hosts.{at, current_host}
use aioproxmox.Client.Once.{
  Call, request_once, build_request, get_headers, read_response, error_message, says_nothing,
}
use aioproxmox.Client.Request.{prepare, request}
use aioproxmox.Client.Request.Recovery.{Fails}
use aioproxmox.Client.Request.Relogin.{ending, request_expired}
use aioproxmox.Client.Auth.{check_and_refresh, refresh, refused, needs_second_factor, otp_password}
use aioproxmox.Client.Auth.Tokens.{Grants, holding, logged_in}
use aioproxmox.Client.Auth.Renewal.{renewal_refused, renewal_refused_twice}
use aioproxmox.Client.Coherence.{IsCoherent}
use aioproxmox.Client.Construction.{init-IsCoherent, init-otp}
use aioproxmox.Tests.Net.{net, three, old_ticket, respond}

abbrev answer : Value
answer = obj (
    field "ticket" (str "new")
      (field "CSRFPreventionToken" (str "csrf") (field "cap" (obj end) end)))

abbrev granted : Response
granted = respond 200 (obj (field "data" answer end))

grants : Grants granted (str "new") (str "csrf") no_capabilities
unfolding subscript fields Dict.lookup as_dict capabilities_from needs_second_factor get
grants = record {
  status = refl;
  answer = answer;
  payload = obj (field "data" answer end);
  entries = _;
  cap = obj end;
  json = refl;
  wrapped = refl;
  ticket_key = refl;
  token_key = refl;
  is_dict = refl;
  cap_key = refl;
  capabilities = refl;
  one_step = refl;
}

-- The first login is refused, and each later one granted.
abbrev first_refused : ℕ → Result Response
first_refused zero = ok (respond 401 null)
first_refused (suc n) = ok granted

abbrev picky : Env ℕ
picky = net (λ req w. first_refused w)

abbrev never : Env ℕ
never = net (λ req w. ok (respond 401 null))

renewal_refused_example :
    check_and_refresh picky (record { client = holding three old_ticket; world = 0 }) ≡ (
      ok tt,
      record {
        client = logged_in three old_ticket (str "new") (str "csrf") no_capabilities (picky.now 2);
        world = 2;
      },
    )
renewal_refused_example =
    renewal_refused picky three old_ticket 0 (respond 401 null) granted (str "new") (str "csrf")
      no_capabilities (record { still = λ req c w. refl }) refl refl refl refl grants

renewal_refused_twice_example :
    check_and_refresh never (record { client = holding three old_ticket; world = 0 })
    ≡ (err (refused old_ticket 401), record { client = holding three old_ticket; world = 2 })
renewal_refused_twice_example =
    renewal_refused_twice never three old_ticket 0 (respond 401 null) (respond 401 null)
      (record { still = λ req c w. refl }) refl refl refl refl refl

abbrev pub options : Options
options = record {
  user = some "root@pam";
  password = some "secret";
  otp = none;
  port = none;
  verify_ssl = verified;
  timeout = 5;
  token_name = none;
  token_value = none;
  service = "PVE";
}

abbrev pub built : Client
built =
    new_client options "pve" 8006 (ticket (new_ticket options (url_of "pve" 8006) "secret" true))

pub built_with :
    (code : String)
    → nonempty code ≡ true
    → init "pve:443" (record options { otp = some code }) ≡ ok built
unfolding init auth_of choose_auth new_client new_ticket clean_host port_or_default service_port
built_with code e = rw e

init-IsCoherent_example : IsCoherent (clean_host "pve:443" ∷ []) built
init-IsCoherent_example =
    init-IsCoherent "pve:443" (record options { otp = some "123456" }) built
      (built_with "123456" refl)

init-otp_example :
    (init "pve:443" (record options { otp = some "654321" }) ≡ ok built)
    × ((t : TicketAuth) × (built.auth ≡ ticket t)
        × (otp_password (some t.otptype) t.otp ≡ "totp:True"))
init-otp_example =
    init-otp "pve:443" options "secret" "123456" "654321" built refl refl refl refl
      (built_with "123456" refl)

-- A ticket that is not yet to be renewed, but that the server no longer takes.
abbrev young : TicketAuth
young = record old_ticket { birth_time = 4000 * second }

abbrev read_version : Call
read_version = record { method = "GET"; path = "version"; json_data = []; params = [] }

young-Fails :
    Fails picky read_version
      (record { client = holding three young; world = 0 })
      (record { client = holding three young; world = 0 })
      (record { client = holding three young; world = 1 })
      "a"
      (api_error 401 "" "version")
unfolding prepare handle check_and_refresh refresh pure current_host at request_once ◌>>=◌ reading
    send build_request get_headers read_response error_message says_nothing
young-Fails = record { prepared = refl; on = refl; first = refl }

request_expired_example :
    request picky read_version (record { client = holding three young; world = 0 })
    ≡ ending picky read_version three young 1 granted
        (some (str "new", str "csrf", no_capabilities))
request_expired_example =
    request_expired picky read_version (record { client = holding three young; world = 0 })
      (record { client = holding three young; world = 0 }) "a" three young 1 "" "version" granted
      (some (str "new", str "csrf", no_capabilities)) (record { still = λ req c w. refl })
      young-Fails refl grants
