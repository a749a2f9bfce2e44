-- ===== src/Client/Construction.antt =====
-- What `ProxmoxVE.__init__` builds.
use mathlib.Core.Path.{fun_ext}
use aioproxmox.Prelude.{
  ℕ, String, ◌≡◌, refl, sym, ap, ◌∙◌, subst, true, Option, none, some, [], ◌∷◌, nonempty,
}
use aioproxmox.Errors.{Result, ok, ◌>>=◌, >>=-eq-ok}
use aioproxmox.Client.State.{
  Client, Auth, TicketAuth, Options, ticket, api_token, init, auth_of, port_or_default, clean_host,
  url_of, truthy_option, choose_auth, new_client, new_ticket, new_api_token,
}
use aioproxmox.Client.Hosts.{at}
use aioproxmox.Client.Auth.{otp_password}
use aioproxmox.Client.Coherence.{IsCoherent, LogsInAt}

choose_auth-LogsInAt :
    (o : Options) (url : String) (name password : Option String) (a : Auth)
    → choose_auth o url name password ≡ ok a
    → LogsInAt url a
unfolding choose_auth
choose_auth-LogsInAt o url (some name) password a e =
    let same : api_token (new_api_token o name) ≡ a = cc in subst (LogsInAt url) same tt
choose_auth-LogsInAt o url none (some password) a e =
    let same : ticket (new_ticket o url password (truthy_option o.otp)) ≡ a = cc in
    subst (LogsInAt url) same refl
choose_auth-LogsInAt o url none none a e = absurd (cc)

new_client-IsCoherent :
    (o : Options) (host : String) (port : ℕ) (auth : Auth)
    → LogsInAt (url_of host port) auth
    → IsCoherent (host ∷ []) (new_client o host port auth)
unfolding new_client at
new_client-IsCoherent o host port auth l = record {
  known = refl;
  host = host;
  in_use = refl;
  url = refl;
  login = l;
}

-- A client that is built knows one host, the cleaned text that it was given, is on it, and its URL is
-- that of this host, to which a ticket login goes too; an API token has no URL of its own to go to.
pub init-IsCoherent :
    (host : String) (o : Options) (c : Client)
    → init host o ≡ ok c
    → IsCoherent (clean_host host ∷ []) c
unfolding init
init-IsCoherent host o c e =
    let (port, _, e') = >>=-eq-ok (port_or_default o.port o.service) _ e in
    let (auth, login, same) = >>=-eq-ok (auth_of o (url_of (clean_host host) port)) _ e' in
    let is : new_client o (clean_host host) port auth ≡ c = cc in
    subst (IsCoherent (clean_host host ∷ [])) is (
      new_client-IsCoherent o (clean_host host) port auth (
        choose_auth-LogsInAt o (url_of (clean_host host) port) o.token_name o.password auth
          (unfold auth_of in login)))

choose_auth-ticket :
    (o : Options) (url p : String) (name password : Option String)
    → name ≡ none
    → password ≡ some p
    → choose_auth o url name password ≡ ok (ticket (new_ticket o url p (truthy_option o.otp)))
unfolding choose_auth
choose_auth-ticket o url p (some name) password n e = absurd (cc)
choose_auth-ticket o url p none none n e = absurd (cc)
choose_auth-ticket o url p none (some q) n e =
    let same : q ≡ p = cc in ap (λ r. ok (ticket (new_ticket o url r (truthy_option o.otp)))) same

-- The client that a password gives, with whatever one-time password.
abbrev ticket_client : String → Options → String → ℕ → Client
ticket_client host o p port =
    new_client o host port (ticket (new_ticket o (url_of host port) p true))

init-ticket :
    (given : String) (o : Options) (p code : String)
    → o.token_name ≡ none
    → o.password ≡ some p
    → nonempty code ≡ true
    → init given (record o { otp = some code })
      ≡ (do port ← port_or_default o.port o.service; ok (ticket_client (clean_host given) o p port))
unfolding init auth_of new_client new_ticket
init-ticket given o p code n e x =
    ap (λ (k : ℕ → Result Client). do port ← port_or_default o.port o.service; k port)
      (fun_ext λ port.
        rw
          (choose_auth-ticket (record o { otp = some code }) (url_of (clean_host given) port) p
            o.token_name o.password n e)
          (rw x))

-- The one-time password that the caller passes never reaches the server: whatever two texts that are
-- not empty are passed, the clients built are equal, and with a password for the login the text sent for
-- the second step is `totp:True`.
pub init-otp :
    (host : String) (o : Options) (password code code' : String) (c : Client)
    → o.token_name ≡ none
    → o.password ≡ some password
    → nonempty code ≡ true
    → nonempty code' ≡ true
    → init host (record o { otp = some code }) ≡ ok c
    → (init host (record o { otp = some code' }) ≡ ok c)
      × ((t : TicketAuth) × (c.auth ≡ ticket t)
          × (otp_password (some t.otptype) t.otp ≡ "totp:True"))
unfolding new_client new_ticket otp_password
init-otp host o password code code' c tn pw x y e =
    let first = init-ticket host o password code tn pw x in
    let (port, found, same) = >>=-eq-ok (port_or_default o.port o.service) _ (sym first ∙ e) in
    let is : ticket_client (clean_host host) o password port ≡ c = cc in
    (
      init-ticket host o password code' tn pw y ∙ sym first ∙ e,
      (
        new_ticket o (url_of (clean_host host) port) password true,
        ap (λ (d : Client). d.auth) (sym is),
        refl,
      ),
    )
