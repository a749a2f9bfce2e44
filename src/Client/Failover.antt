-- ===== src/Client/Failover.antt =====
-- `_answers` and `failover` of aioproxmox/__init__.py.
pub mod Probe
pub mod Walk
pub mod Choice
pub mod Rotation
use aioproxmox.Prelude.{
  ℕ, zero, suc, ◌+◌, ◌-◌, ◌%◌, String, Bool, true, false, not, Option, none, some, [], length,
  str_eq, if◌then◌else◌,
}
use aioproxmox.Errors.{ok, is_api_error, is_silence}
use aioproxmox.Exec.{pure, raise, handle, ◌>>=◌, ◌>>◌}
use aioproxmox.Client.State.{probe_timeout}
use aioproxmox.Client.Env.{Env, Run, reading, calling}
use aioproxmox.Client.Hosts.{at, current_host, use_host}
use aioproxmox.Client.Once.{Call, request_once}

abbrev pub probe : Call
probe = record { method = "GET"; path = "version"; json_data = []; params = [] }

-- `if not await self._answers(): continue`
abbrev pub if_up {ℓ} : {A : Type ℓ} → Bool → A → A → A
if_up true found rest = found
if_up false found rest = rest

module _ {W : Type 0} (env : Env W) where
  -- The log lines read the property `host`.
  unfoldable pub answers : Run W Bool
  answers =
      handle (do request_once env probe (some probe_timeout); pure true)
        (λ e.
          if is_api_error e
          then (do reading current_host; pure true)
          else if is_silence e
          then (do reading current_host; pure false)
          else raise e)

  -- The warning that names the host left and the host in use.
  unfoldable pub report : ℕ → Run W Bool
  report start = do reading (λ c. at c.hosts start); reading current_host; pure true

  -- The loop over the offsets, and what stands behind it: `count` offsets are left, from `offset`.
  unfoldable pub walk : ℕ → ℕ → ℕ → Run W Bool
  walk start zero offset = do calling (use_host start); pure false
  walk start (suc count) offset = do
    hosts ← reading (λ c. ok c.hosts)
    calling (use_host ((start + offset) % length hosts))
    up ← answers
    if_up up (report start) (walk start count (offset + 1))

  -- `from_host is not None and from_host != self.host`
  unfoldable pub moved_already : Option String → Run W Bool
  moved_already none = pure false
  moved_already (some h) = do host ← reading current_host; pure (not (str_eq h host))

  -- `verify_current and await self._answers()`
  unfoldable pub still_there : Bool → Run W Bool
  still_there true = answers
  still_there false = pure false

  -- The body under the lock.
  unfoldable pub failover : Option String → Bool → Run W Bool
  failover from_host verify_current = do
    start ← reading (λ c. ok c.host_index)
    moved ← moved_already from_host
    if moved then (do reading current_host; pure true) else (do
      there ← still_there verify_current
      if there
          then (do reading current_host; pure false)
          else (do hosts ← reading (λ c. ok c.hosts); walk start (length hosts - 1) 1))
