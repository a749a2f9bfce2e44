-- ===== src/Client/Auth/Renewal.antt =====
-- `check_and_refresh` of aioproxmox/__init__.py: when a ticket is renewed, and what a refusal leads to.
use aioproxmox.Prelude.{◌≡◌, ◌∙◌, true, false, none, some, ◌==◌}
use aioproxmox.Errors.{ok, err}
use aioproxmox.Exec.{◌>>=◌, handle}
use aioproxmox.Value.{Value}
use aioproxmox.Model.Permissions.{PveCapabilities}
use aioproxmox.Client.State.{Client, TicketAuth}
use aioproxmox.Client.Env.{Env, Response, reading}
use aioproxmox.Client.Network.{IsQuiet}
use aioproxmox.Client.Auth.{
  ticket_of, refused, get_new_tokens, relogin, is_due, refresh, check_and_refresh,
}
use aioproxmox.Client.Auth.Tokens.{
  Grants, holding, logged_in, login_post, world_after, get_new_tokens-refused,
  get_new_tokens-granted,
}

module _ {W : Type 0} (env : Env W) (c : Client) (t : TicketAuth) (w : W) where
  -- The worlds after the renewal with the ticket, and after the login with the password.
  abbrev pub renewed : W
  renewed = world_after env c t w (login_post t none)

  abbrev pub logged : W
  logged = world_after env c t renewed (login_post t (some t.password))

module _ {W : Type 0} (env : Env W) (quiet : IsQuiet env) (c : Client) (t : TicketAuth) (w : W)
    (r : Response) (due : is_due t (env.now w) ≡ true)
    (sent : (env.send (login_post t none) (holding c t) w).0 ≡ ok r)
    (bad : (r.status == 200) ≡ false) where
  refresh-refused :
      check_and_refresh env (record { client = holding c t; world = w })
      ≡ get_new_tokens env
          (some t.password)
          t.otp
          (some t.otptype)
          (record { client = holding c t; world = renewed env c t w })
  unfolding check_and_refresh refresh handle refused relogin ◌>>=◌ reading ticket_of
  refresh-refused = rw (due, get_new_tokens-refused env quiet c t w none none none r sent bad)

-- Where no other task changes the client meanwhile: a ticket that is at least an hour old is renewed with
-- the ticket itself for a password. Where the server refuses that, the client logs in with the stored
-- password, for which the ticket stands again where it is empty, and where this is granted with no second
-- factor asked for, it goes on with the new ticket, token and capabilities, its age counted from then;
-- nothing else of it changes.
pub renewal_refused :
    {W : Type 0} (env : Env W) (c : Client) (t : TicketAuth) (w : W) (r r' : Response)
    (new_ticket new_token : Value) (caps : PveCapabilities)
    → IsQuiet env
    → is_due t (env.now w) ≡ true
    → (env.send (login_post t none) (holding c t) w).0 ≡ ok r
    → (r.status == 200) ≡ false
    → (env.send (login_post t (some t.password)) (holding c t) (renewed env c t w)).0 ≡ ok r'
    → Grants r' new_ticket new_token caps
    → check_and_refresh env (record { client = holding c t; world = w }) ≡ (
      ok tt,
      record {
        client = logged_in c t new_ticket new_token caps (env.now (logged env c t w));
        world = logged env c t w;
      },
    )
renewal_refused env c t w r r' new_ticket new_token caps quiet due sent bad sent' g =
    refresh-refused env quiet c t w r due sent bad
    ∙ get_new_tokens-granted env quiet c t (renewed env c t w) (some t.password) t.otp
        (some t.otptype) r' new_ticket new_token caps sent' g

-- Where no other task changes the client meanwhile, and the server refuses the ticket and then the
-- password too, the error is the refusal of the password, and the client is as it was, its old ticket
-- included.
pub renewal_refused_twice :
    {W : Type 0} (env : Env W) (c : Client) (t : TicketAuth) (w : W) (r r' : Response)
    → IsQuiet env
    → is_due t (env.now w) ≡ true
    → (env.send (login_post t none) (holding c t) w).0 ≡ ok r
    → (r.status == 200) ≡ false
    → (env.send (login_post t (some t.password)) (holding c t) (renewed env c t w)).0 ≡ ok r'
    → (r'.status == 200) ≡ false
    → check_and_refresh env (record { client = holding c t; world = w })
      ≡ (err (refused t r'.status), record { client = holding c t; world = logged env c t w })
renewal_refused_twice env c t w r r' quiet due sent bad sent' bad' =
    refresh-refused env quiet c t w r due sent bad
    ∙ get_new_tokens-refused env quiet c t (renewed env c t w) (some t.password) t.otp
        (some t.otptype) r' sent' bad'
