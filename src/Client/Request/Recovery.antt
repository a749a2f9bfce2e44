-- ===== src/Client/Request/Recovery.antt =====
-- What `request` of aioproxmox/__init__.py does once its first attempt has failed.
use aioproxmox.Prelude.{
  ℕ, String, ◌≡◌, ◌∙◌, ◌⊎◌, inl, inr, Bool, true, false, ◌&&◌, none, some, arith, str_eq, length,
  ltb, ◌==◌, if◌then◌else◌, Bool-cases,
}
use aioproxmox.Errors.{Error, ok, err, api_error, is_api_error, is_unreachable}
use aioproxmox.Exec.{◌>>=◌, ◌>>◌}
use aioproxmox.Client.State.{Client}
use aioproxmox.Client.Env.{Env, Machine, reading}
use aioproxmox.Client.Hosts.{current_host, point_at}
use aioproxmox.Client.Network.{Reaches, OnHost}
use aioproxmox.Client.Once.{Call, request_once}
use aioproxmox.Client.Auth.{relogin}
use aioproxmox.Client.Failover.{failover}
use aioproxmox.Client.Failover.Probe.{machine}
use aioproxmox.Client.Failover.Walk.{Found, Silent}
use aioproxmox.Client.Failover.Choice.{
  failover_stays, failover_elsewhere, failover_lem, Chosen, same_host,
}
use aioproxmox.Client.Request.{stranded, prepare, recover, request, can_relogin}

module _ {W : Type 0} (env : Env W) (call : Call) (m m₁ m₂ : Machine W) (h : String) where
  -- The ticket is in order, the client is on the host `h`, and the first attempt raises `e`.
  pub record Fails (e : Error) : Type 0 where
    pub prepared : prepare env m ≡ (ok tt, m₁)
    pub on : current_host m₁.client ≡ ok h
    pub first : request_once env call none m₁ ≡ (err e, m₂)

  request-recover : (e : Error) → Fails e → request env call m ≡ recover env call h e m₂
  unfolding request ◌>>=◌ reading
  request-recover e f = rw (f.prepared, f.on, f.first)

  recover-moved :
      (e : Error) (m₃ : Machine W)
      → is_api_error e ≡ false
      → is_unreachable e ≡ true
      → ltb (length m₂.client.hosts) 2 ≡ false
      → failover env (some h) true m₂ ≡ (ok true, m₃)
      → recover env call h e m₂ ≡ request_once env call none m₃
  unfolding recover stranded ◌>>=◌ reading
  recover-moved e m₃ a u two f = rw (a, u, two, f)

  recover-stayed :
      (e : Error) (m₃ : Machine W)
      → is_api_error e ≡ false
      → is_unreachable e ≡ true
      → ltb (length m₂.client.hosts) 2 ≡ false
      → failover env (some h) true m₂ ≡ (ok false, m₃)
      → recover env call h e m₂ ≡ (err e, m₃)
  unfolding recover stranded ◌>>=◌ reading
  recover-stayed e m₃ a u two f = rw (a, u, two, f)

  recover-alone :
      (e : Error)
      → is_api_error e ≡ false
      → is_unreachable e ≡ true
      → ltb (length m₂.client.hosts) 2 ≡ true
      → recover env call h e m₂ ≡ (err e, m₂)
  unfolding recover stranded ◌>>=◌ reading
  recover-alone e a u one = rw (a, u, one)

recover-refused :
    {W : Type 0} (env : Env W) (call : Call) (m : Machine W) (h : String) (status : ℕ)
    (message endpoint : String)
    → recover env call h (api_error status message endpoint) m ≡ (
        if status == 401 && can_relogin m.client
        then (do relogin env; request_once env call none) m
        else (err (api_error status message endpoint), m))
unfolding recover ◌>>=◌ reading
recover-refused env call m h status message endpoint =
    elim (Bool-cases (status == 401 && can_relogin m.client)) [
      | inl yes' ↦ rw yes'
      | inr no' ↦ rw no'
    ]

not-api_error : (e : Error) → is_unreachable e ≡ true → is_api_error e ≡ false
not-api_error e u = ground arith

-- Where the ticket is in order, a request whose first attempt is refused with a status is raised as it
-- is, and nothing is asked again, unless the status is 401 and the client has a password: then it logs
-- in with that and makes the request once more, and what comes of this is the result.
pub request_refused :
    {W : Type 0} (env : Env W) (call : Call) (m m₁ m₂ : Machine W) (h : String) (status : ℕ)
    (message endpoint : String)
    → Fails env call m m₁ m₂ h (api_error status message endpoint)
    → request env call m ≡ (
        if status == 401 && can_relogin m₂.client
        then (do relogin env; request_once env call none) m₂
        else (err (api_error status message endpoint), m₂))
request_refused env call m m₁ m₂ h status message endpoint f =
    request-recover env call m m₁ m₂ h (api_error status message endpoint) f
    ∙ recover-refused env call m₂ h status message endpoint

-- A client that knows no second host raises the error of its first attempt, and asks nobody.
pub request_alone :
    {W : Type 0} (env : Env W) (call : Call) (m m₁ m₂ : Machine W) (h : String) (e : Error)
    → Fails env call m m₁ m₂ h e
    → is_unreachable e ≡ true
    → ltb (length m₂.client.hosts) 2 ≡ true
    → request env call m ≡ (err e, m₂)
request_alone env call m m₁ m₂ h e f u one =
    request-recover env call m m₁ m₂ h e f
    ∙ recover-alone env call m m₁ m₂ h e (not-api_error e u) u one

-- A request that failed on a host which the client has left meanwhile is made once more on the host
-- now in use, with no probe.
pub request_left :
    {W : Type 0} (env : Env W) (call : Call) (m m₁ m₂ : Machine W) (h now : String) (e : Error)
    → Fails env call m m₁ m₂ h e
    → is_unreachable e ≡ true
    → ltb (length m₂.client.hosts) 2 ≡ false
    → current_host m₂.client ≡ ok now
    → str_eq h now ≡ false
    → request env call m ≡ request_once env call none m₂
request_left env call m m₁ m₂ h now e f u two on left =
    request-recover env call m m₁ m₂ h e f
    ∙ recover-moved env call m m₁ m₂ h e m₂ (not-api_error e u) u two
        (failover_elsewhere env h true m₂ now on left)

-- Against a network in which each host answers or is silent as `alive` says, a request that cannot
-- reach the host in use ends so. Where the host answers after all, the error is raised and the client
-- stays as it is. Where it is silent, either the client moves to the first host alive after it and the
-- request is made once more there, or no other host is alive, the error is raised and the client is
-- back on the host it was on.
pub request_unreachable :
    {W : Type 0} (env : Env W) (alive : String → Bool) (call : Call) (m m₁ m₂ : Machine W)
    (h : String) (e : Error)
    → Fails env call m m₁ m₂ h e
    → is_unreachable e ≡ true
    → ltb (length m₂.client.hosts) 2 ≡ false
    → Reaches env alive
    → OnHost m₂.client h
    → current_host m₂.client ≡ ok h
    → (alive h ≡ true → (w : W) × (request env call m ≡ (err e, machine m₂.client w)))
      × (alive h ≡ false
          → ((c : Client) × (w : W) × (request env call m
                ≡ request_once env call none (machine c w))
              × Found alive m₂.client m₂.client.host_index 1 (length m₂.client.hosts) c)
            ⊎ ((w : W) × (request env call m
                  ≡ (err e, machine (point_at m₂.client.host_index h m₂.client) w))
                × Silent alive m₂.client m₂.client.host_index 1 (length m₂.client.hosts)))
request_unreachable {W = W} env alive call m m₁ m₂ h e f u two reaches on here = (
  λ up.
      let (w, s) = failover_stays env alive (some h) m₂ h reaches on here (same_host h) up in
      (
        w,
        begin
            ∙ recover-stayed env call m m₁ m₂ h e (machine m₂.client w) (not-api_error e u) u two s,
      ),
  λ down. go (failover_lem env alive (some h) true m₂ h reaches on here (same_host h) down),
)
  where
    begin : request env call m ≡ recover env call h e m₂
    begin = request-recover env call m m₁ m₂ h e f

    go :
        Chosen env alive (some h) true m₂ h
        → ((c : Client) × (w : W) × (request env call m ≡ request_once env call none (machine c w))
            × Found alive m₂.client m₂.client.host_index 1 (length m₂.client.hosts) c)
          ⊎ ((w : W) × (request env call m
                ≡ (err e, machine (point_at m₂.client.host_index h m₂.client) w))
              × Silent alive m₂.client m₂.client.host_index 1 (length m₂.client.hosts))
    go (inl (c, w, s, found)) = inl (
      c,
      w,
      begin ∙ recover-moved env call m m₁ m₂ h e (machine c w) (not-api_error e u) u two s,
      found,
    )
    go (inr (w, s, silent)) = inr (
      w,
      begin
          ∙ recover-stayed env call m m₁ m₂ h e
              (machine (point_at m₂.client.host_index h m₂.client) w) (not-api_error e u) u two s,
      silent,
    )
