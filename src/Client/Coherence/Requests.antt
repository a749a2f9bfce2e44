-- ===== src/Client/Coherence/Requests.antt =====
-- `failover` and `request` of aioproxmox/__init__.py keep the URLs on the host in use.
use aioproxmox.Prelude.{
  ℕ, ◌-◌, ◌<◌, String, ◌≡◌, subst, inl, inr, Bool, true, false, ◌&&◌, Option, none, some, List,
  arith, length, get_elem?, get_elem?-lt, if◌then◌else◌, Option-cases,
}
use aioproxmox.Errors.{Error, ok, is_api_error, is_unreachable}
use aioproxmox.Exec.{◌>>=◌, ◌>>◌, pure, raise}
use aioproxmox.Client.Env.{Env, Machine, Run, reading}
use aioproxmox.Client.Hosts.{at, current_host}
use aioproxmox.Client.Keeps.{
  Keeps, Relies, Keeps-bind, Keeps-pure, Keeps-reading, keeps_rules, Keeps-if, Keeps-handle,
  Keeps-raise,
}
use aioproxmox.Client.Once.{Call, request_once}
use aioproxmox.Client.Auth.{relogin, check_and_refresh}
use aioproxmox.Client.Failover.{walk, moved_already, still_there, failover}
use aioproxmox.Client.Request.{stranded, prepare, recover, request, can_relogin, is_401}
use aioproxmox.Client.Coherence.{
  IsCoherent, relogin-IsCoherent, check_and_refresh-IsCoherent, answers-IsCoherent, walk-IsCoherent,
  request_once-IsCoherent,
}

at-in : (hosts : List String) (i : ℕ) {h : String} → at hosts i ≡ ok h → i < length hosts
unfolding at
at-in hosts i e = elim (Option-cases (get_elem? hosts i)) [
  | inl out ↦ absurd (ground arith)
  | inr (x, found) ↦ get_elem?-lt hosts i found
]

module _ {W : Type 0} (env : Env W) (hosts : List String)
    (rely : Relies (IsCoherent hosts) env) where
  moved_already-IsCoherent :
      (from : Option String) → Keeps (IsCoherent hosts) (moved_already env from)
  unfolding moved_already
  moved_already-IsCoherent none = search keeps_rules
  moved_already-IsCoherent (some h) = search keeps_rules

  still_there-IsCoherent : (b : Bool) → Keeps (IsCoherent hosts) (still_there env b)
  unfolding still_there
  still_there-IsCoherent true = answers-IsCoherent env hosts rely
  still_there-IsCoherent false = Keeps-pure false

  walking :
      (start : ℕ)
      → start < length hosts
      → Keeps
          (IsCoherent hosts)
          (do known ← reading (λ c. ok c.hosts); walk env start (length known - 1) 1)
  walking start inside =
      Keeps-bind (reading (λ c. ok c.hosts)) (λ known. walk env start (length known - 1) 1)
        (Keeps-reading (λ c. ok c.hosts))
        λ known. walk-IsCoherent env hosts rely start (length known - 1) 1 inside

  answered : (b : Bool) → Keeps {W = W} (IsCoherent hosts) (do reading current_host; pure b)
  answered b = Keeps-bind (reading current_host) _ (Keeps-reading current_host) λ _. Keeps-pure b

  -- The walk starts at an index that is in the list, since the client was on it.
  failover-IsCoherent :
      (from : Option String) (v : Bool) → Keeps (IsCoherent hosts) (failover env from v)
  unfolding failover reading ◌>>=◌
  failover-IsCoherent from v = record {
    at = λ s p.
        (go s.client.host_index (
            subst (λ hs. s.client.host_index < length hs) p.known
              (at-in s.client.hosts s.client.host_index p.in_use))).at
          s p;
  }
    where
      go :
          (start : ℕ)
          → start < length hosts
          → Keeps (IsCoherent hosts) (do
            moved ← moved_already env from
            if moved then (do reading current_host; pure true) else (do
              there ← still_there env v
              if there
                  then (do reading current_host; pure false)
                  else (do known ← reading (λ c. ok c.hosts); walk env start (length known - 1) 1)))
      go start inside =
          Keeps-bind (moved_already env from) _ (moved_already-IsCoherent from) λ moved.
            Keeps-if moved _ _ (answered true) (
              Keeps-bind (still_there env v) _ (still_there-IsCoherent v)
                λ there. Keeps-if there _ _ (answered false) (walking start inside))

  stranded-IsCoherent :
      (from : Option String) (v : Bool) → Keeps (IsCoherent hosts) (stranded env from v)
  unfolding stranded
  stranded-IsCoherent from v = search (keeps_rules, failover-IsCoherent) depth 10

  -- After an unreachable host: raise again, or go on with `next` on another host.
  elsewhere :
      {A : Type 0} (from : Option String) (v : Bool) (e : Error) (next : Run W A)
      → Keeps (IsCoherent hosts) next
      → Keeps (IsCoherent hosts) (do lost ← stranded env from v; if lost then raise e else next)
  elsewhere from v e next h =
      Keeps-bind (stranded env from v) _ (stranded-IsCoherent from v)
        λ lost. Keeps-if lost _ _ (Keeps-raise e) h

  prepare-IsCoherent : Keeps (IsCoherent hosts) (prepare env)
  unfolding prepare
  prepare-IsCoherent =
      let check = check_and_refresh-IsCoherent env hosts rely in
      Keeps-handle (check_and_refresh env) _ check λ e.
        Keeps-if (is_unreachable e) _ _ (elsewhere none false e (check_and_refresh env) check)
          (Keeps-raise e)

  login_again :
      (call : Call) → Keeps (IsCoherent hosts) (do relogin env; request_once env call none)
  login_again call =
      Keeps-bind (relogin env) _ (relogin-IsCoherent env hosts rely)
        λ _. request_once-IsCoherent env hosts rely call none

  recover-IsCoherent :
      (call : Call) (h : String) (e : Error) → Keeps (IsCoherent hosts) (recover env call h e)
  unfolding recover
  recover-IsCoherent call h e =
      let once = request_once-IsCoherent env hosts rely call none in
      Keeps-if (is_api_error e) _ _
        (Keeps-bind _ _ (Keeps-reading (λ c. ok (can_relogin c)))
          λ able. Keeps-if (is_401 e && able) _ _ (login_again call) (Keeps-raise e))
        (Keeps-if (is_unreachable e) _ _
          (elsewhere (some h) true e (request_once env call none) once) (Keeps-raise e))

  request-Keeps : (call : Call) → Keeps (IsCoherent hosts) (request env call)
  unfolding request
  request-Keeps call = Keeps-bind (prepare env) _ prepare-IsCoherent λ _.
      Keeps-bind (reading current_host) _ (Keeps-reading current_host) λ h.
        Keeps-handle (request_once env call none) (recover env call h)
          (request_once-IsCoherent env hosts rely call none) (recover-IsCoherent call h)

-- As long as what other tasks do while one waits keeps it so and leaves the list of hosts alone, a request
-- leaves the client coherent, whether it returns or raises, and wherever it failed over: the host in use is one of the hosts known,
-- the client's URL is that host's, and a ticket login goes to the same URL.
pub request-IsCoherent :
    {W : Type 0} (env : Env W) (hosts : List String) (call : Call) (m : Machine W)
    → Relies (IsCoherent hosts) env
    → IsCoherent hosts m.client
    → IsCoherent hosts (request env call m).1.client
request-IsCoherent env hosts call m rely h = (request-Keeps env hosts rely call).at m h
