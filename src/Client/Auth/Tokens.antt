-- ===== src/Client/Auth/Tokens.antt =====
-- What a login or a renewal of aioproxmox/__init__.py does to the client.
use mathlib.Core.Path.{ap₂}
use aioproxmox.Prelude.{ℕ, String, ◌≡◌, Bool, false, Option, some, ◌==◌}
use aioproxmox.Prelude.Dict
use aioproxmox.Prelude.Dict.{Dict}
use aioproxmox.Errors.{Result, ok, err}
use aioproxmox.Exec.{◌>>=◌}
use aioproxmox.Value.{Value, as_dict, subscript}
use aioproxmox.Model.Permissions.{PveCapabilities, capabilities_from}
use aioproxmox.Client.State.{Client, TicketAuth, ticket}
use aioproxmox.Client.Env.{Env, HttpRequest, Response, reading, calling, send}
use aioproxmox.Client.Network.{IsQuiet}
use aioproxmox.Client.Auth.{
  ticket_of, update_ticket, assign, ticket_post, login_form, target_password, refused, stamp,
  store_tokens, store_cap, store_capabilities, needs_second_factor, get_new_tokens,
}

-- A response to a login: a ticket, a CSRF token and the capabilities, with no second factor asked for.
pub record Grants (r : Response) (new_ticket new_token : Value) (caps : PveCapabilities)
    : Type 0 where
  pub status : r.status ≡ 200
  pub answer : Value
  pub payload : Value
  pub entries : Dict Value
  pub cap : Value
  pub json : r.json ≡ ok payload
  pub wrapped : subscript payload "data" ≡ ok answer
  pub ticket_key : subscript answer "ticket" ≡ ok new_ticket
  pub token_key : subscript answer "CSRFPreventionToken" ≡ ok new_token
  pub is_dict : as_dict answer ≡ some entries
  pub cap_key : Dict.lookup "cap" entries ≡ some cap
  pub capabilities : capabilities_from cap ≡ ok caps
  pub one_step : needs_second_factor answer ≡ false

-- The client with what a login stores.
abbrev pub logged_in : Client → TicketAuth → Value → Value → PveCapabilities → ℕ → Client
logged_in c t new_ticket new_token caps now = record c {
  auth = ticket (record t {
    capabilities = some caps;
    pve_auth_ticket = new_ticket;
    csrf_prevention_token = new_token;
    birth_time = now;
  });
}

-- A client whose credentials are the ticket `t`.
abbrev pub holding : Client → TicketAuth → Client
holding c t = record c { auth = ticket t }

store_capabilities-caps :
    {W : Type 0} (env : Env W) (r : Response) (new_ticket new_token : Value)
    (caps : PveCapabilities) (g : Grants r new_ticket new_token caps) (c : Client) (t : TicketAuth)
    (w : W)
    → store_capabilities env g.answer (record { client = holding c t; world = w })
      ≡ (ok tt, record { client = holding c (record t { capabilities = some caps }); world = w })
unfolding store_cap calling update_ticket assign ◌>>=◌ store_capabilities
store_capabilities-caps env r new_ticket new_token caps g c t w =
    rw (g.is_dict, store_capabilities) (rw (g.cap_key, store_cap) (rw g.capabilities))

-- The request for a ticket, with a password or with the ticket held.
abbrev pub login_post : TicketAuth → Option String → HttpRequest
login_post t password = ticket_post t (login_form t (target_password password t))

-- The world after a request by a client that holds the ticket `t`.
abbrev pub world_after : {W : Type 0} → Env W → Client → TicketAuth → W → HttpRequest → W
world_after env c t w req = (env.send req (holding c t) w).2

module _ {W : Type 0} (env : Env W) (quiet : IsQuiet env) (c : Client) (t : TicketAuth)
    (w : W) where
  send-quiet :
      (req : HttpRequest) (r : Response)
      → (env.send req (holding c t) w).0 ≡ ok r
      → send env req (record { client = holding c t; world = w })
        ≡ (ok r, record { client = holding c t; world = world_after env c t w req })
  unfolding send
  send-quiet req r e =
      ap₂
        (λ (x : Result Response) (c' : Client).
          (x, record { client = c'; world = world_after env c t w req }))
        e (quiet.still req (holding c t) w)

  pub get_new_tokens-refused :
      (password : Option String) (otp : Option Bool) (otptype : Option String) (r : Response)
      → (env.send (login_post t password) (holding c t) w).0 ≡ ok r
      → (r.status == 200) ≡ false
      → get_new_tokens env password otp otptype (record { client = holding c t; world = w }) ≡ (
        err (refused t r.status),
        record { client = holding c t; world = world_after env c t w (login_post t password) },
      )
  unfolding get_new_tokens ◌>>=◌ reading ticket_of
  get_new_tokens-refused password otp otptype r e bad =
      rw (send-quiet (login_post t password) r e, bad)

  pub get_new_tokens-granted :
      (password : Option String) (otp : Option Bool) (otptype : Option String) (r : Response)
      (new_ticket new_token : Value) (caps : PveCapabilities)
      → (env.send (login_post t password) (holding c t) w).0 ≡ ok r
      → Grants r new_ticket new_token caps
      → get_new_tokens env password otp otptype (record { client = holding c t; world = w }) ≡ (
        ok tt,
        record {
          client =
              logged_in c t new_ticket new_token caps
                (env.now (world_after env c t w (login_post t password)));
          world = world_after env c t w (login_post t password);
        },
      )
  unfolding get_new_tokens store_tokens stamp calling update_ticket assign ◌>>=◌ reading ticket_of
  get_new_tokens-granted password otp otptype r new_ticket new_token caps e g = rw (
    send-quiet (login_post t password) r e,
    g.status,
    g.json,
    g.wrapped,
    g.ticket_key,
    g.token_key,
    store_capabilities-caps env r new_ticket new_token caps g c,
    g.one_step,
  )
