-- ===== src/Client/Request/Relogin.antt =====
-- What `request` of aioproxmox/__init__.py does when the server no longer takes the ticket.
use aioproxmox.Prelude.{String, ◌≡◌, refl, ◌∙◌, false, Option, none, some, ◌==◌}
use aioproxmox.Errors.{Result, ok, err, api_error}
use aioproxmox.Exec.{◌>>=◌, ◌>>◌}
use aioproxmox.Value.{Value}
use aioproxmox.Model.Permissions.{PveCapabilities}
use aioproxmox.Client.State.{Client, TicketAuth}
use aioproxmox.Client.Env.{Env, Machine, Response, reading}
use aioproxmox.Client.Network.{IsQuiet}
use aioproxmox.Client.Once.{Call, request_once}
use aioproxmox.Client.Auth.{ticket_of, refused, relogin}
use aioproxmox.Client.Auth.Tokens.{
  Grants, holding, logged_in, login_post, world_after, get_new_tokens-refused,
  get_new_tokens-granted,
}
use aioproxmox.Client.Request.{request}
use aioproxmox.Client.Request.Recovery.{Fails, request_refused}

-- What a login grants: a ticket, a token against forgery and the capabilities.
abbrev pub Grant : Type 0
Grant = Value × Value × PveCapabilities

-- The response is no success, or it grants this with no second factor asked for.
abbrev pub Decides : Response → Option Grant → Type 0
Decides r none = (r.status == 200) ≡ false
Decides r (some (new_ticket, new_token, caps)) = Grants r new_ticket new_token caps

module _ {W : Type 0} (env : Env W) (call : Call) (c : Client) (t : TicketAuth) (w : W) where
  abbrev pub world_logged : W
  world_logged = world_after env c t w (login_post t (some t.password))

  -- How the request ends after a login that the server refused or granted.
  abbrev pub ending : Response → Option Grant → Result Value × Machine W
  ending r none = (err (refused t r.status), record { client = holding c t; world = world_logged })
  ending r (some (new_ticket, new_token, caps)) = request_once env call none (record {
    client = logged_in c t new_ticket new_token caps (env.now world_logged);
    world = world_logged;
  })

  repeated :
      (r : Response) (grant : Option Grant)
      → IsQuiet env
      → (env.send (login_post t (some t.password)) (holding c t) w).0 ≡ ok r
      → Decides r grant
      → (do relogin env; request_once env call none) (record { client = holding c t; world = w })
        ≡ ending r grant
  unfolding relogin ◌>>=◌ reading ticket_of
  repeated r none quiet sent bad =
      rw
        (get_new_tokens-refused env quiet c t w (some t.password) t.otp (some t.otptype) r sent bad)
        refl
  repeated r (some (new_ticket, new_token, caps)) quiet sent g =
      rw
        (get_new_tokens-granted env quiet c t w (some t.password) t.otp (some t.otptype) r
          new_ticket new_token caps sent g)
        refl

-- Where no other task changes the client meanwhile, and the first attempt of a request that holds the ticket `t`
-- is answered by 401, the client logs in with its password, or with the ticket where that is empty. Where the
-- server refuses this, the request raises the refusal and the client is as it was; where it grants it with no
-- second factor asked for, the request is made once more, and not again, by the client that holds the new
-- ticket, token and capabilities, their age counted from then.
pub request_expired :
    {W : Type 0} (env : Env W) (call : Call) (m m₁ : Machine W) (h : String) (c : Client)
    (t : TicketAuth) (w : W) (message endpoint : String) (r : Response) (grant : Option Grant)
    → IsQuiet env
    → Fails env call m m₁
        (record { client = holding c t; world = w })
        h
        (api_error 401 message endpoint)
    → (env.send (login_post t (some t.password)) (holding c t) w).0 ≡ ok r
    → Decides r grant
    → request env call m ≡ ending env call c t w r grant
request_expired env call m m₁ h c t w message endpoint r grant quiet fails sent decides =
    request_refused env call m m₁ (record { client = holding c t; world = w }) h 401 message
      endpoint fails
    ∙ repeated env call c t w r grant quiet sent decides
