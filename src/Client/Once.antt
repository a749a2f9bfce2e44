-- ===== src/Client/Once.antt =====
-- `_request_once` of aioproxmox/__init__.py: one attempt against the current host.
pub mod Sent
use aioproxmox.Prelude.{
  ℕ, pos, String, Bool, true, false, not, ◌&&◌, ◌||◌, Option, none, some, [], ◌∷◌, map, ◌==◌,
  nonempty, str_eq, if◌then◌else◌,
}
use aioproxmox.Prelude.Text
use aioproxmox.Prelude.Text.{◌+++◌}
use aioproxmox.Prelude.Dict
use aioproxmox.Prelude.Dict.{Dict}
use aioproxmox.Errors.{Result, ok, err, api_error}
use aioproxmox.Value.{Value, bool, int, str, as_dict, get}
use aioproxmox.Exec.{lift, ◌>>=◌}
use aioproxmox.Client.State.{Client, Auth, ticket, api_token, token_separator}
use aioproxmox.Client.Env.{Env, Run, HttpRequest, Response, send, reading, str_Value}

-- Whether an error body is Proxmox's empty `{"data":null}` or blank.
unfoldable pub says_nothing : String → Bool
unfolding Text.remove_char
says_nothing body =
    let rest = Text.remove_char 10 (Text.remove_char b' ' body) in
    str_eq rest "" || str_eq rest "{\"data\":null}"

-- get_headers
unfoldable pub get_headers : Auth → Result (Dict Value)
unfolding token_separator
get_headers (ticket t) = ok (("CSRFPreventionToken", t.csrf_prevention_token) ∷ [])
get_headers (api_token t) = elim (token_separator t.service) [
  | err e ↦ err e
  | ok sep ↦ ok (
      (
        "Authorization",
        str (
            t.service +++ "APIToken=" +++ t.username +++ "!" +++ t.token_name +++ sep
            +++ t.token_value),
      )
      ∷ [])
]

-- get_cookies
unfoldable pub get_cookies : Auth → Dict Value
get_cookies (ticket t) = (t.service +++ "AuthCookie", t.pve_auth_ticket) ∷ []
get_cookies (api_token t) = []

-- "; ".join([f"{k}={v}" for k, v in cookies.items()])
unfoldable pub cookie_text : (Value → String) → Dict Value → String
unfolding str_Value
cookie_text repr [] = ""
cookie_text repr ((k, v) ∷ []) = k +++ "=" +++ str_Value repr v
cookie_text repr ((k, v) ∷ rest) = k +++ "=" +++ str_Value repr v +++ "; " +++ cookie_text repr rest

abbrev is_empty : Dict Value → Bool
is_empty [] = true
is_empty (p ∷ ps) = false

-- `{"Accept": …, "Connection": …, **headers}`, and the Cookie header where there are cookies
unfoldable pub all_headers : (Value → String) → Dict Value → Dict Value → Dict Value
unfolding cookie_text Dict.merge Dict.insert
all_headers repr headers cookies =
    let base =
      Dict.merge (("Accept", str "application/json") ∷ ("Connection", str "keep-alive") ∷ [])
        headers in
    if is_empty cookies then base else Dict.insert "Cookie" (str (cookie_text repr cookies)) base

-- `int(v) if isinstance(v, bool) else str(v)`
unfoldable pub query_value : (Value → String) → Value → Value
unfolding str_Value
query_value repr (bool true) = int (pos 1)
query_value repr (bool false) = int (pos 0)
query_value repr v = str (str_Value repr v)

-- `method.upper() in ("GET", "DELETE")`
unfoldable pub sends_query : String → Bool
unfolding Text.eq_upper
sends_query method = Text.eq_upper method "GET" || Text.eq_upper method "DELETE"

-- The call's arguments; `None` and `{}` are alike to every test on them.
pub record Call : Type 0 where
  pub method : String
  pub path : String
  pub json_data : Dict Value
  pub params : Dict Value

unfoldable pub query_of : (Value → String) → Call → Dict Value
unfolding query_value sends_query Dict.merge
query_of repr call =
    if sends_query call.method
    then map (λ p. (p.0, query_value repr p.1)) (Dict.merge call.params call.json_data)
    else []

unfoldable pub body_of : Call → Dict Value
unfolding sends_query
body_of call = if sends_query call.method then [] else call.json_data

-- `timeout or self.timeout`
abbrev timeout_or : Option ℕ → ℕ → ℕ
timeout_or none d = d
timeout_or (some t) d = if t == 0 then d else t

-- f"{self.base_url.rstrip('/')}/{path.lstrip('/')}"
unfoldable pub join_url : String → String → String
unfolding Text.rstrip Text.lstrip
join_url base path = Text.rstrip Text.is_slash base +++ "/" +++ Text.lstrip Text.is_slash path

-- The request, given what `get_headers` returned.
unfoldable pub request_for : (Value → String) → Call → Option ℕ → Client → Dict Value → HttpRequest
request_for repr call timeout c headers = record {
  method = call.method;
  url = join_url c.base_url call.path;
  headers = all_headers repr headers (get_cookies c.auth);
  timeout = timeout_or timeout c.timeout;
  ssl = c.verify_ssl;
  form = [];
  params = query_of repr call;
  json = body_of call;
}

unfoldable pub build_request : (Value → String) → Call → Option ℕ → Client → Result HttpRequest
build_request repr call timeout c = elim (get_headers c.auth) [
  | err e ↦ err e
  | ok headers ↦ ok (request_for repr call timeout c headers)
]

abbrev text_of : Option String → String
text_of none = ""
text_of (some s) = s

-- The message of a ProxmoxAPIError, from the reason phrase and the body. `took_text` is the code's
-- `message is text`.
unfoldable pub error_message : String → String → String
unfolding says_nothing Text.strip Text.has_text
error_message reason text =
    let took_reason = nonempty reason && says_nothing text in
    let message = if took_reason then reason else text in
    let full =
      if nonempty reason && not took_reason && not (Text.has_text text reason)
      then reason +++ ": " +++ text
      else message in
    Text.strip full

-- `payload.get("data") if isinstance(payload, dict) else payload`
unfoldable pub unwrap : Value → Value
unfolding as_dict get
unwrap payload = elim (as_dict payload) [ none ↦ payload | some d ↦ get "data" d ]

-- What is made of a response.
unfoldable pub read_response : String → Response → Result Value
read_response path r =
    if r.status == 200 || r.status == 201
    then elim r.json [ err e ↦ err e | ok payload ↦ ok (unwrap payload) ]
    else elim r.text [
      | err e ↦ err e
      | ok text ↦ err (api_error r.status (error_message (text_of r.reason) text) path)
    ]

unfoldable pub request_once : {W : Type 0} → Env W → Call → Option ℕ → Run W Value
request_once env call timeout = do
  req ← reading (build_request env.repr call timeout)
  response ← send env req
  lift (read_response call.path response)
