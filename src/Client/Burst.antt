-- ===== src/Client/Burst.antt =====
-- The lock in `failover` of aioproxmox/__init__.py, and the requests that wait for it at once.
pub mod Settled
pub mod Served
use aioproxmox.Prelude.{ℕ, suc, String, ◌≡◌, true, some, List, [], ◌∷◌, ◌++◌}
use aioproxmox.Errors.{ok}
use aioproxmox.Client.Env.{Env, Machine}
use aioproxmox.Client.Hosts.{current_host}
use aioproxmox.Client.Failover.{failover}
use aioproxmox.Client.Failover.Probe.{machine}

-- The client, and for each request that waits for the lock the host that it failed on.
pub record Line (W : Type 0) : Type 0 where
  pub now : Machine W
  pub waiting : List String

-- `self.failover(from_host=host_before)` of `request` under the lock: the body runs to its end before
-- another one starts. Which of the requests gets the lock is left open. A run is one step, so a request that
-- begins while it asks a candidate, and reads that one as its host, is not among those that ask here.
pub data Step {W : Type 0} (env : Env W) : Line W → Line W → Type 0 where
  -- a request that could not reach the host in use asks for the lock
  asks :
      (m : Machine W) (waiting : List String) (h : String)
      → current_host m.client ≡ ok h
      → Step env
          (record { now = m; waiting = waiting })
          (record { now = m; waiting = waiting ++ h ∷ [] })
  -- one of the requests gets the lock, and its `failover` runs
  switches :
      (m : Machine W) (before after : List String) (h : String)
      → Step env
          (record { now = m; waiting = before ++ h ∷ after })
          (record { now = (failover env (some h) true m).1; waiting = before ++ after })
  -- time passes, and answers to other requests come in
  passes :
      (m : Machine W) (waiting : List String) (w : W)
      → Step env
          (record { now = m; waiting = waiting })
          (record { now = machine m.client w; waiting = waiting })

pub data Steps {W : Type 0} (env : Env W) (first : Line W) : Line W → Type 0 where
  none_yet : Steps env first first
  further : (l l' : Line W) → Steps env first l → Step env l l' → Steps env first l'

-- Turns of the lock among the requests that wait: in each, one of them gets it, whichever.
pub data Turns {W : Type 0} (env : Env W) (first : Line W) : ℕ → Line W → Type 0 where
  no_turn : Turns env first 0 first
  turn :
      (n : ℕ) (m : Machine W) (before after : List String) (h : String)
      → Turns env first n (record { now = m; waiting = before ++ h ∷ after })
      → Turns env first
          (suc n)
          (record { now = (failover env (some h) true m).1; waiting = before ++ after })
