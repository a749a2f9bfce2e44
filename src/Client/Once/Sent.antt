-- ===== src/Client/Once/Sent.antt =====
-- What `_request_once` of aioproxmox/__init__.py sends.
use aioproxmox.Prelude.{
  ℕ, String, ◌≡◌, refl, subst, Option, none, some, [], ◌∷◌, str_eq, arith, if◌then◌else◌, inl, inr,
  Bool-cases,
}
use aioproxmox.Prelude.Text.{◌+++◌}
use aioproxmox.Prelude.Dict
use aioproxmox.Prelude.Dict.{Dict}
use aioproxmox.Errors.{Result, ok, err}
use aioproxmox.Value.{Value, str}
use aioproxmox.Client.State.{Client, Auth, ApiTokenAuth, ticket, api_token, token_separator}
use aioproxmox.Client.Env.{HttpRequest, str_Value}
use aioproxmox.Client.Once.{
  Call, sends_query, query_value, query_of, body_of, get_headers, get_cookies, cookie_text,
  all_headers, request_for, build_request,
}

-- `PVEAPIToken=USER!NAME=VALUE`
abbrev pub token_text : ApiTokenAuth → Value
token_text t =
    str
      (t.service +++ "APIToken=" +++ t.username +++ "!" +++ t.token_name +++ "=" +++ t.token_value)

-- The headers prove who asks: a ticket with its token against forgery, or an API token and no cookie.
abbrev pub Proves : (Value → String) → Auth → Dict Value → Type 0
Proves repr (ticket t) headers =
    (Dict.lookup "CSRFPreventionToken" headers ≡ some t.csrf_prevention_token)
    × (Dict.lookup "Cookie" headers
        ≡ some (str ((t.service +++ "AuthCookie") +++ "=" +++ str_Value repr t.pve_auth_ticket)))
Proves repr (api_token t) headers =
    (Dict.lookup "Cookie" headers ≡ none)
    × (Dict.lookup "Authorization" headers ≡ some (token_text t))

-- What a call gives for a parameter of the query: its `json_data` goes over its `params`.
abbrev pub given : String → Call → Option Value
given k call = elim (Dict.last k call.json_data) [
  | some v ↦ some v
  | none ↦ Dict.lookup k call.params
]

proves :
    (repr : Value → String) (a : Auth) (headers : Dict Value)
    → get_headers a ≡ ok headers
    → Proves repr a (all_headers repr headers (get_cookies a))
unfolding get_headers token_separator get_cookies all_headers cookie_text Dict.merge Dict.insert
    Dict.lookup
proves repr (ticket t) headers e =
    let same : ("CSRFPreventionToken", t.csrf_prevention_token) ∷ [] ≡ headers = cc in
    subst (λ hs. Proves repr (ticket t) (all_headers repr hs (get_cookies (ticket t)))) same
      (refl, refl)
proves repr (api_token t) headers e = elim (Bool-cases (str_eq t.service "PVE")) [
  | inr other ↦ absurd (ground arith)
  | inl pve ↦
      let same : ("Authorization", token_text t) ∷ [] ≡ headers = ground arith in
      subst (λ hs. Proves repr (api_token t) (all_headers repr hs [])) same (refl, refl)
]

lookup-query_of :
    (repr : Value → String) (call : Call) (k : String)
    → Dict.lookup k (query_of repr call) ≡ (
        if sends_query call.method
        then elim (given k call) [ none ↦ none | some v ↦ some (query_value repr v) ]
        else none)
unfolding query_of Dict.lookup
lookup-query_of repr call k = ground (
  arith,
  Dict.lookup-map (query_value repr) k (Dict.merge call.params call.json_data),
  Dict.lookup-merge k call.params call.json_data,
)

module _ (repr : Value → String) (call : Call) (timeout : Option ℕ) (c : Client) where
  abbrev Sent : String → HttpRequest → Type 0
  Sent k req =
      Proves repr c.auth req.headers
      × (Dict.lookup k req.params ≡ (
          if sends_query call.method
          then elim (given k call) [ none ↦ none | some v ↦ some (query_value repr v) ]
          else none))
      × (req.json ≡ (if sends_query call.method then [] else call.json_data))

  request_for-Sent :
      (k : String) (headers : Dict Value) (req : HttpRequest)
      → get_headers c.auth ≡ ok headers
      → request_for repr call timeout c headers ≡ req
      → Sent k req
  unfolding request_for body_of
  request_for-Sent k headers req e same =
      subst (Sent k) same (proves repr c.auth headers e, lookup-query_of repr call k, refl)

  built :
      (r : Result (Dict Value)) (req : HttpRequest)
      → elim r [ err e ↦ err e | ok headers ↦ ok (request_for repr call timeout c headers) ]
        ≡ ok req
      → (headers : Dict Value) × (r ≡ ok headers) × (request_for repr call timeout c headers ≡ req)
  built (ok headers) req e = (headers, refl, cc)
  built (err x) req e = absurd (cc)

  build_request-Sent :
      (k : String) (req : HttpRequest) → build_request repr call timeout c ≡ ok req → Sent k req
  unfolding build_request
  build_request-Sent k req e =
      let (headers, found, same) = built (get_headers c.auth) req e in
      request_for-Sent k headers req found same

-- Every request that is sent proves who asks: with a ticket, its headers hold the token against forgery and,
-- as the cookie of the service, the text of the ticket; with an API token, they hold no cookie, and the name of
-- the service, the user, and the name and the value of the token as the authorization. A GET or DELETE has no body, and in its query stands, under
-- each key, what the call's data or else its parameters give, as a text or with 1 or 0 for a truth value; any
-- other request has the call's data as its body and no query.
pub build_request_lem :
    (repr : Value → String) (call : Call) (timeout : Option ℕ) (c : Client) (req : HttpRequest)
    (k : String)
    → build_request repr call timeout c ≡ ok req
    → Proves repr c.auth req.headers
      × (Dict.lookup k req.params ≡ (
          if sends_query call.method
          then elim (given k call) [ none ↦ none | some v ↦ some (query_value repr v) ]
          else none))
      × (req.json ≡ (if sends_query call.method then [] else call.json_data))
build_request_lem repr call timeout c req k e = build_request-Sent repr call timeout c k req e
