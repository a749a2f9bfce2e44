-- ===== src/Client/Request.antt =====
-- `request`, `learn_hosts_from_cluster` and `connect` of aioproxmox/__init__.py.
pub mod Recovery
pub mod Relogin
use aioproxmox.Prelude.{
  String, Bool, true, false, not, ◌&&◌, Option, none, some, length, ltb, ◌==◌, if◌then◌else◌,
}
use aioproxmox.Errors.{Error, ok, api_error, is_api_error, is_unreachable}
use aioproxmox.Value.{Value}
use aioproxmox.Exec.{pure, raise, handle, ◌>>=◌, ◌>>◌}
use aioproxmox.Client.State.{Client, ticket, api_token}
use aioproxmox.Client.Env.{Env, Run, reading}
use aioproxmox.Client.Hosts.{current_host}
use aioproxmox.Client.Auth.{check_and_refresh, relogin}
use aioproxmox.Client.Once.{Call, request_once}
use aioproxmox.Client.Failover.{failover}

-- `hasattr(self.auth, "relogin")`
abbrev pub can_relogin : Client → Bool
can_relogin c = elim c.auth [ ticket t ↦ true | api_token t ↦ false ]

-- `err.status != 401`, of a ProxmoxAPIError
abbrev pub is_401 : Error → Bool
is_401 (api_error status message endpoint) = status == 401
is_401 _ = false

module _ {W : Type 0} (env : Env W) where
  -- `len(self._hosts) < 2 or not await self.failover(…)`: whether the error is raised again
  unfoldable pub stranded : Option String → Bool → Run W Bool
  stranded from_host verify_current = do
    hosts ← reading (λ c. ok c.hosts)
    if ltb (length hosts) 2
        then pure true
        else (do moved ← failover env from_host verify_current; pure (not moved))

  -- The first `try`: the ticket is renewed, on another host if this one is gone.
  unfoldable pub prepare : Run W (Unit {0})
  prepare = handle (check_and_refresh env) (λ e.
      if is_unreachable e
      then (do lost ← stranded none false; if lost then raise e else check_and_refresh env)
      else raise e)

  -- The `except` clauses of the second `try`.
  unfoldable pub recover : Call → String → Error → Run W Value
  recover call host_before e =
      if is_api_error e
      then (do
        able ← reading (λ c. ok (can_relogin c))
        if is_401 e && able then (do relogin env; request_once env call none) else raise e)
      else if is_unreachable e
      then (do
        lost ← stranded (some host_before) true
        if lost then raise e else request_once env call none)
      else raise e

  unfoldable pub request : Call → Run W Value
  request call = do
    prepare
    host_before ← reading current_host
    handle (request_once env call none) (recover call host_before)
