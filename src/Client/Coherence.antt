-- ===== src/Client/Coherence.antt =====
-- The URL invariant of the client: requests and logins go to the host in use.
pub mod Requests
use aioproxmox.Client.Once.{Call, request_once}
use aioproxmox.Client.Failover.{if_up, answers, walk, report}
use aioproxmox.Model.Permissions.{PveCapabilities}
use aioproxmox.Prelude.Dict
use aioproxmox.Prelude.Dict.{Dict}
use aioproxmox.Client.Failover.Walk.{use_host-point_at, at-lt}
use aioproxmox.Value.{Value, as_dict, subscript}
use aioproxmox.Prelude.{
  ℕ, zero, suc, ◌+◌, ◌%◌, ◌<◌, String, ◌≡◌, refl, ap, ◌∙◌, inl, inr, Bool, true, false, Option,
  none, some, List, arith, length, if◌then◌else◌, Option-cases,
}
use aioproxmox.Errors.{ok, is_auth_error}
use aioproxmox.Exec.{◌>>=◌, pure, raise, lift, handle, ◌>>◌}
use aioproxmox.Client.State.{Client, Auth, ticket, api_token, url_of, TicketAuth}
use aioproxmox.Client.Env.{Env, Run, HttpRequest, reading, calling, send}
use aioproxmox.Client.Hosts.{at, set_auth_url, point_at, use_host}
use aioproxmox.Client.Keeps.{
  Keeps, Relies, Keeps-calling, keeps_rules, Keeps-send, Keeps-bind, Keeps-lift, Keeps-pure,
  Keeps-reading,
}
use aioproxmox.Client.Auth.{
  update_ticket, stamp, store_tokens, store_capabilities, second_factor, get_new_tokens, relogin,
  check_and_refresh, assign, store_cap, refresh, is_due,
}

-- The URL of a ticket login is `url`; a token's login makes no request of its own.
abbrev pub LogsInAt : String → Auth → Type 0
LogsInAt url (ticket t) = t.base_url ≡ url
LogsInAt url (api_token t) = Unit

-- The client knows the hosts `hosts`, is on one of them, and all its URLs are that host's.
pub record IsCoherent (hosts : List String) (c : Client) : Type 0 where
  pub known : c.hosts ≡ hosts
  pub host : String
  pub in_use : at c.hosts c.host_index ≡ ok host
  pub url : c.base_url ≡ url_of host c.port
  pub login : LogsInAt c.base_url c.auth

LogsInAt-assign :
    (url : String) (f : TicketAuth → TicketAuth)
    → ((t : TicketAuth) → (f t).base_url ≡ t.base_url)
    → (a : Auth) → LogsInAt url a
    → LogsInAt url (assign f a).1
unfolding assign
LogsInAt-assign url f same (ticket t) h = same t ∙ h
LogsInAt-assign url f same (api_token t) h = tt

LogsInAt-set_auth_url : (url : String) (a : Auth) → LogsInAt url (set_auth_url url a)
unfolding set_auth_url
LogsInAt-set_auth_url url (ticket t) = refl
LogsInAt-set_auth_url url (api_token t) = tt

update_ticket-IsCoherent :
    (hosts : List String) (f : TicketAuth → TicketAuth)
    → ((t : TicketAuth) → (f t).base_url ≡ t.base_url)
    → (c : Client) → IsCoherent hosts c
    → IsCoherent hosts (update_ticket f c).1
unfolding update_ticket
update_ticket-IsCoherent hosts f same c h = record {
  known = h.known;
  host = h.host;
  in_use = h.in_use;
  url = h.url;
  login = LogsInAt-assign c.base_url f same c.auth h.login;
}

point_at-IsCoherent :
    (hosts : List String) (i : ℕ) (h : String) (c : Client)
    → at hosts i ≡ ok h
    → c.hosts ≡ hosts
    → IsCoherent hosts (point_at i h c)
unfolding point_at
point_at-IsCoherent hosts i h c e known = record {
  known = known;
  host = h;
  in_use = rw known e;
  url = refl;
  login = LogsInAt-set_auth_url (url_of h c.port) c.auth;
}

use_host-IsCoherent :
    (hosts : List String) (i : ℕ)
    → i < length hosts
    → (c : Client) → IsCoherent hosts c
    → IsCoherent hosts (use_host i c).1
use_host-IsCoherent hosts i inside c h =
    let (x, e) = at-lt hosts i inside in
    let step : use_host i c ≡ (ok tt, point_at i x c) = use_host-point_at i x c (rw h.known e) in
    rw step (point_at-IsCoherent hosts i x c e h.known)

module _ {W : Type 0} (env : Env W) (hosts : List String)
    (rely : Relies (IsCoherent hosts) env) where
  Keeps-update :
      (f : TicketAuth → TicketAuth)
      → ((t : TicketAuth) → (f t).base_url ≡ t.base_url)
      → Keeps {W = W} (IsCoherent hosts) (calling (update_ticket f))
  Keeps-update f same = Keeps-calling (update_ticket f) (update_ticket-IsCoherent hosts f same)

  stamp-IsCoherent : Keeps (IsCoherent hosts) (stamp env)
  unfolding stamp
  stamp-IsCoherent = record {
    at = λ s. (Keeps-update (λ t. record t { birth_time = env.now s.world }) (λ t. refl)).at s;
  }

  set_ticket-IsCoherent :
      (v : Value)
      → Keeps {W = W}
          (IsCoherent hosts)
          (calling (update_ticket (λ t. record t { pve_auth_ticket = v })))
  set_ticket-IsCoherent v = Keeps-update (λ t. record t { pve_auth_ticket = v }) (λ t. refl)

  set_token-IsCoherent :
      (v : Value)
      → Keeps {W = W}
          (IsCoherent hosts)
          (calling (update_ticket (λ t. record t { csrf_prevention_token = v })))
  set_token-IsCoherent v = Keeps-update (λ t. record t { csrf_prevention_token = v }) (λ t. refl)

  set_capabilities-IsCoherent :
      (v : PveCapabilities)
      → Keeps {W = W}
          (IsCoherent hosts)
          (calling (update_ticket (λ t. record t { capabilities = some v })))
  set_capabilities-IsCoherent v = Keeps-update (λ t. record t { capabilities = some v }) (λ t. refl)

  send-IsCoherent : (req : HttpRequest) → Keeps (IsCoherent hosts) (send env req)
  send-IsCoherent req = Keeps-send env req rely

  store_tokens-IsCoherent : (v : Value) → Keeps (IsCoherent hosts) (store_tokens env v)
  unfolding store_tokens
  store_tokens-IsCoherent v = Keeps-bind (stamp env) _ stamp-IsCoherent λ _.
      Keeps-bind (lift (subscript v "ticket")) _ (Keeps-lift (subscript v "ticket")) λ x.
        Keeps-bind _ _ (set_ticket-IsCoherent x) λ _. (search (keeps_rules, set_token-IsCoherent))

  store_cap-IsCoherent : (found : Option Value) → Keeps (IsCoherent hosts) (store_cap env found)
  unfolding store_cap
  store_cap-IsCoherent none = search keeps_rules
  store_cap-IsCoherent (some cap) = search (keeps_rules, set_capabilities-IsCoherent)

  store_capabilities-IsCoherent : (v : Value) → Keeps (IsCoherent hosts) (store_capabilities env v)
  unfolding store_capabilities
  store_capabilities-IsCoherent v = elim (Option-cases (as_dict v)) [
    | inl e ↦ rw (e, store_capabilities) (Keeps-pure tt)
    | inr (d, e) ↦ rw (e, store_capabilities) (store_cap-IsCoherent (Dict.lookup "cap" d))
  ]

  second_factor-IsCoherent :
      (otp : Option Bool) (otptype : Option String)
      → Keeps (IsCoherent hosts) (second_factor env otp otptype)
  unfolding second_factor
  second_factor-IsCoherent otp otptype =
      search (keeps_rules, send-IsCoherent, store_tokens-IsCoherent) depth 12

  get_new_tokens-IsCoherent :
      (password : Option String) (otp : Option Bool) (otptype : Option String)
      → Keeps (IsCoherent hosts) (get_new_tokens env password otp otptype)
  unfolding get_new_tokens
  get_new_tokens-IsCoherent password otp otptype =
      search
        (
          keeps_rules, send-IsCoherent, store_tokens-IsCoherent, store_capabilities-IsCoherent,
          second_factor-IsCoherent,
        )
        depth 16

  pub relogin-IsCoherent : Keeps (IsCoherent hosts) (relogin env)
  unfolding relogin
  relogin-IsCoherent = search (keeps_rules, get_new_tokens-IsCoherent)

  refresh-IsCoherent : (a : Auth) → Keeps (IsCoherent hosts) (refresh env a)
  unfolding refresh
  refresh-IsCoherent (api_token t) = Keeps-pure tt
  refresh-IsCoherent (ticket t) = record { at = λ s. (due (is_due t (env.now s.world))).at s }
    where
      due :
          (b : Bool)
          → Keeps (IsCoherent hosts) (
              if b
              then handle
                  (get_new_tokens env none none none)
                  (λ e. if is_auth_error e then relogin env else raise e)
              else pure tt)
      due b = search (keeps_rules, get_new_tokens-IsCoherent, relogin-IsCoherent)

  pub check_and_refresh-IsCoherent : Keeps (IsCoherent hosts) (check_and_refresh env)
  unfolding check_and_refresh
  check_and_refresh-IsCoherent = record { at = λ s. (refresh-IsCoherent s.client.auth).at s }

  pub request_once-IsCoherent :
      (call : Call) (timeout : Option ℕ) → Keeps (IsCoherent hosts) (request_once env call timeout)
  unfolding request_once
  request_once-IsCoherent call timeout = search (keeps_rules, send-IsCoherent)

  pub answers-IsCoherent : Keeps (IsCoherent hosts) (answers env)
  unfolding answers
  answers-IsCoherent = search (keeps_rules, request_once-IsCoherent) depth 10

  report-IsCoherent : (start : ℕ) → Keeps (IsCoherent hosts) (report env start)
  unfolding report
  report-IsCoherent start =
      Keeps-bind _ _ (Keeps-reading _) λ _. Keeps-bind _ _ (Keeps-reading _) λ _. Keeps-pure true

  Keeps-if_up :
      (b : Bool) (m n : Run W Bool)
      → Keeps (IsCoherent hosts) m
      → Keeps (IsCoherent hosts) n
      → Keeps (IsCoherent hosts) (if_up b m n)
  Keeps-if_up true m n h k = h
  Keeps-if_up false m n h k = k

  use-IsCoherent :
      (i : ℕ) → i < length hosts → Keeps {W = W} (IsCoherent hosts) (calling (use_host i))
  use-IsCoherent i inside = Keeps-calling (use_host i) (use_host-IsCoherent hosts i inside)

  pub walk-IsCoherent :
      (start count offset : ℕ)
      → start < length hosts
      → Keeps (IsCoherent hosts) (walk env start count offset)
  unfolding walk reading ◌>>=◌
  walk-IsCoherent start zero offset inside =
      Keeps-bind _ _ (use-IsCoherent start inside) λ _. Keeps-pure false
  walk-IsCoherent start (suc count) offset inside =
      let next = walk-IsCoherent start count (offset + 1) inside in
      record { at = λ s p. (go next (length s.client.hosts) (ap length p.known)).at s p }
    where
      go :
          Keeps (IsCoherent hosts) (walk env start count (offset + 1))
          → (n : ℕ) → n ≡ length hosts
          → Keeps (IsCoherent hosts) (do
            calling (use_host ((start + offset) % n))
            up ← answers env
            if_up up (report env start) (walk env start count (offset + 1)))
      go next n e = Keeps-bind _ _ (use-IsCoherent ((start + offset) % n) (grind arith)) λ _.
          Keeps-bind (answers env) _ answers-IsCoherent
            λ up. Keeps-if_up up _ _ (report-IsCoherent start) next
