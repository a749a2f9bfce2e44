-- ===== src/Client/Auth.antt =====
-- Authentication: ProxmoxHTTPAuth and ProxmoxHTTPApiTokenAuth of aioproxmox/__init__.py.
pub mod Tokens
pub mod Renewal
use aioproxmox.Prelude.{
  ℕ, ◌-◌, String, Bool, true, false, Option, none, some, [], ◌∷◌, ◌==◌, leb, nonempty,
  if◌then◌else◌,
}
use aioproxmox.Prelude.Text
use aioproxmox.Prelude.Text.{◌+++◌}
use aioproxmox.Prelude.Dict
use aioproxmox.Prelude.Dict.{Dict}
use aioproxmox.Errors.{Error, Result, ok, err, auth_error, attribute_error, is_auth_error}
use aioproxmox.Value.{Value, null, str, as_dict, get, subscript, truthy}
use aioproxmox.Model.Permissions.{capabilities_from}
use aioproxmox.Exec.{pure, raise, lift, handle, ◌>>=◌, ◌>>◌}
use aioproxmox.Client.State.{Client, TicketAuth, ticket, api_token, renew_age, Auth}
use aioproxmox.Client.Env.{Env, Run, HttpRequest, send, reading, calling}

-- `self` of a ProxmoxHTTPAuth method.
unfoldable pub ticket_of : Client → Result TicketAuth
ticket_of c = elim c.auth [ ticket t ↦ ok t | api_token t ↦ err (attribute_error "relogin") ]

-- Assignments to attributes of `self`.
unfoldable pub assign : (TicketAuth → TicketAuth) → Auth → Result (Unit {0}) × Auth
assign f (ticket t) = (ok tt, ticket (f t))
assign f (api_token t) = (err (attribute_error "relogin"), api_token t)

unfoldable pub update_ticket : (TicketAuth → TicketAuth) → Client → Result (Unit {0}) × Client
unfolding assign
update_ticket f c = let (r, auth) = assign f c.auth in (r, record c { auth = auth })

abbrev pub str_flag : Option Bool → String
str_flag none = "None"
str_flag (some b) = Text.str_Bool b

abbrev pub str_type : Option String → String
str_type none = "None"
str_type (some s) = s

-- f"{otptype}:{otp}"
unfoldable pub otp_password : Option String → Option Bool → String
unfolding Text.str_Bool
otp_password otptype otp = str_type otptype +++ ":" +++ str_flag otp

-- `password or self.pve_auth_ticket`
unfoldable pub target_password : Option String → TicketAuth → Value
target_password none t = t.pve_auth_ticket
target_password (some p) t = if nonempty p then str p else t.pve_auth_ticket

-- The POST to `access/ticket`; neither call passes headers.
unfoldable pub ticket_post : TicketAuth → Dict Value → HttpRequest
ticket_post t form = record {
  method = "POST";
  url = t.base_url +++ "/access/ticket";
  headers = [];
  timeout = t.timeout;
  ssl = t.verify_ssl;
  form = form;
  params = [];
  json = [];
}

unfoldable pub login_form : TicketAuth → Value → Dict Value
login_form t password = ("username", str t.username) ∷ ("password", password) ∷ []

unfoldable pub otp_form : TicketAuth → String → Dict Value
otp_form t password =
    ("username", str t.username)
    ∷ ("tfa-challenge", t.pve_auth_ticket)
    ∷ ("password", str password)
    ∷ []

unfoldable pub refused : TicketAuth → ℕ → Error
refused t status = auth_error (
    "Couldn't authenticate user "
    +++ t.username
    +++ " to "
    +++ t.base_url
    +++ "/access/ticket: Code "
    +++ Text.str_ℕ status)

-- `otp_json.get("data")`
unfoldable pub data_of : Value → Result Value
unfolding as_dict get
data_of payload = elim (as_dict payload) [
  | none ↦ err (attribute_error "get")
  | some d ↦ ok (get "data" d)
]

-- `response_data.get("NeedTFA") is not None`
unfoldable pub needs_second_factor : Value → Bool
unfolding as_dict get
needs_second_factor answer = elim (as_dict answer) [
  | none ↦ false
  | some d ↦ elim (get "NeedTFA" d) [ null ↦ false | _ ↦ true ]
]

-- `if time_diff >= self.renew_age`
abbrev pub is_due : TicketAuth → ℕ → Bool
is_due t now = leb renew_age (now - t.birth_time)

module _ {W : Type 0} (env : Env W) where
  unfoldable pub stamp : Run W (Unit {0})
  stamp m = calling (update_ticket (λ t. record t { birth_time = env.now m.world })) m

  -- The three assignments; a key that is missing raises between them.
  unfoldable pub store_tokens : Value → Run W (Unit {0})
  store_tokens answer = do
    stamp
    value ← lift (subscript answer "ticket")
    calling (update_ticket (λ t. record t { pve_auth_ticket = value }))
    token ← lift (subscript answer "CSRFPreventionToken")
    calling (update_ticket (λ t. record t { csrf_prevention_token = token }))

  unfoldable pub store_cap : Option Value → Run W (Unit {0})
  store_cap none = pure tt
  store_cap (some cap) = do
    caps ← lift (capabilities_from cap)
    calling (update_ticket (λ t. record t { capabilities = some caps }))

  -- `if "cap" in response_data`; a subscript has succeeded before, so the answer is a dict.
  unfoldable pub store_capabilities : Value → Run W (Unit {0})
  store_capabilities answer = elim (as_dict answer) [
    | none ↦ pure tt
    | some d ↦ store_cap (Dict.lookup "cap" d)
  ]

  -- The second step. Its answer's status is not looked at.
  unfoldable pub second_factor : Option Bool → Option String → Run W (Unit {0})
  second_factor otp otptype = do
    t ← reading ticket_of
    response ← send env (ticket_post t (otp_form t (otp_password otptype otp)))
    payload ← lift response.json
    answer ← lift (data_of payload)
    if truthy answer
        then store_tokens answer
        else raise
            (auth_error "Couldn't authenticate user: missing Two Factor Authentication (TFA)")

  unfoldable pub get_new_tokens : Option String → Option Bool → Option String → Run W (Unit {0})
  get_new_tokens password otp otptype = do
    t ← reading ticket_of
    response ← send env (ticket_post t (login_form t (target_password password t)))
    t' ← reading ticket_of
    if response.status == 200
        then (do
          payload ← lift response.json
          answer ← lift (subscript payload "data")
          store_tokens answer
          store_capabilities answer
          if needs_second_factor answer then second_factor otp otptype else pure tt)
        else raise (refused t' response.status)

  unfoldable pub relogin : Run W (Unit {0})
  relogin = do t ← reading ticket_of; get_new_tokens (some t.password) t.otp (some t.otptype)

  -- The base class refreshes nothing.
  unfoldable pub refresh : Auth → Run W (Unit {0})
  refresh (api_token t) m = pure tt m
  refresh (ticket t) m =
      (if is_due t (env.now m.world)
          then handle (get_new_tokens none none none)
              (λ e. if is_auth_error e then relogin else raise e)
          else pure tt)
        m

  unfoldable pub check_and_refresh : Run W (Unit {0})
  unfolding refresh
  check_and_refresh m = refresh m.client.auth m
