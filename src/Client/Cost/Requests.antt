-- ===== src/Client/Cost/Requests.antt =====
-- How many exchanges `failover` and `request` of aioproxmox/__init__.py take.
use aioproxmox.Prelude.{
  ℕ, zero, suc, ◌+◌, ◌*◌, ◌-◌, ◌≤◌, String, ◌≡◌, refl, inl, inr, Bool, true, false, not, Option,
  none, some, length, ltb, arith, Bool-cases, if◌then◌else◌,
}
use aioproxmox.Errors.{Error}
use aioproxmox.Exec.{◌>>=◌, ◌>>◌, raise}
use aioproxmox.Client.State.{Client}
use aioproxmox.Client.Env.{Env, Machine, Run, calling}
use aioproxmox.Client.Hosts.{point_at, use_host}
use aioproxmox.Client.Auth.{relogin, check_and_refresh}
use aioproxmox.Client.Once.{Call, request_once}
use aioproxmox.Client.Failover.{
  probe, if_up, answers, report, walk, moved_already, still_there, failover,
}
use aioproxmox.Client.Request.{stranded, prepare, recover, request}
use aioproxmox.Client.Cost.{
  IsCounted, Spends, Spends-weaken, Spends-pure, Spends-raise, Spends-calling, Spends-bind,
  Spends-after, Spends-before, Spends-handle, Spends-if, Spends-hosts, free_rules,
}
use aioproxmox.Client.Cost.Logins.{Spends-relogin, Spends-check_and_refresh, Spends-request_once}

use_host-hosts : (i : ℕ) (c : Client) → (use_host i c).1.hosts ≡ c.hosts
unfolding use_host point_at
use_host-hosts i c = ground arith

module _ {W : Type 0} (env : Env W) (count : W → ℕ) (n : ℕ) (counted : IsCounted env count n) where
  once : (call : Call) (timeout : Option ℕ) → Spends count n 1 (request_once env call timeout)
  once = Spends-request_once env count n counted

  login : Spends count n 2 (relogin env)
  login = Spends-relogin env count n counted

  check : Spends count n 4 (check_and_refresh env)
  check = Spends-check_and_refresh env count n counted

  Spends-use : (i : ℕ) → Spends {W = W} count n 0 (calling (use_host i))
  Spends-use i = Spends-calling (use_host i) (use_host-hosts i)

  Spends-answers : Spends count n 1 (answers env)
  unfolding answers
  Spends-answers =
      Spends-handle {k = 0} _ _ (Spends-before _ _ (once probe _) λ v. Spends-pure true)
        λ e. (search free_rules depth 12)

  Spends-if_up :
      {k : ℕ} (b : Bool) (m m' : Run W Bool)
      → Spends count n 0 m
      → Spends count n k m'
      → Spends count n k (if_up b m m')
  Spends-if_up true m m' h h' = Spends-weaken (omega arith) h
  Spends-if_up false m m' h h' = h'

  Spends-report : (start : ℕ) → Spends count n 0 (report env start)
  unfolding report
  Spends-report start = search free_rules

  Spends-walk : (start left offset : ℕ) → Spends count n left (walk env start left offset)
  unfolding walk
  Spends-walk start zero offset = Spends-after _ _ (Spends-use start) λ _. Spends-pure false
  Spends-walk start (suc left) offset = Spends-after _ _ (search free_rules) λ hosts.
      Spends-after _ _ (Spends-use _) λ _. Spends-weaken (omega arith) (
        Spends-bind {j = 1} {k = left} _ _ Spends-answers
          λ up. Spends-if_up up _ _ (Spends-report start) (Spends-walk start left (offset + 1)))

  Spends-moved : (from : Option String) → Spends count n 0 (moved_already env from)
  unfolding moved_already
  Spends-moved none = search free_rules
  Spends-moved (some h) = search free_rules

  Spends-still_there : (b : Bool) → Spends count n 1 (still_there env b)
  unfolding still_there
  Spends-still_there true = Spends-answers
  Spends-still_there false = Spends-pure false

  Spends-failover :
      (from : Option String) (v : Bool) → Spends count n (1 + (n - 1)) (failover env from v)
  unfolding failover
  Spends-failover from v = Spends-after _ _ (search free_rules) λ start.
      Spends-after _ _ (Spends-moved from) λ moved. Spends-if moved _ _ (search free_rules) (
        Spends-bind _ _ (Spends-still_there v) λ there. Spends-if there _ _ (search free_rules) (
          Spends-hosts _
            λ hosts e. Spends-weaken (omega (arith, e)) (Spends-walk start (length hosts - 1) 1)))

  Spends-stranded : (from : Option String) (v : Bool) → Spends count n n (stranded env from v)
  unfolding stranded
  Spends-stranded from v = Spends-hosts _ λ hosts e. elim (Bool-cases (ltb (length hosts) 2)) [
    | inl few ↦ rw few (Spends-pure true)
    | inr many ↦ rw many (
        Spends-before _ _ (Spends-weaken (ground (arith, many, e)) (Spends-failover from v))
          λ moved. Spends-pure (not moved))
  ]

  elsewhere :
      {A : Type 0} {k : ℕ} (from : Option String) (v : Bool) (e : Error) (next : Run W A)
      → Spends count n k next
      → Spends count n (n + k) (do lost ← stranded env from v; if lost then raise e else next)
  elsewhere from v e next h =
      Spends-bind _ _ (Spends-stranded from v) λ lost. Spends-if lost _ _ (Spends-raise e) h

  Spends-prepare : Spends count n (4 + (n + 4)) (prepare env)
  unfolding prepare
  Spends-prepare =
      Spends-handle _ _ check
        λ e. Spends-if _ _ _ (elsewhere none false e (check_and_refresh env) check) (Spends-raise e)

  login_again : (call : Call) → Spends count n (n + 3) (do relogin env; request_once env call none)
  login_again call = Spends-weaken {j = 3} (omega arith) (Spends-bind _ _ login λ _. once call none)

  Spends-recover :
      (call : Call) (h : String) (e : Error) → Spends count n (n + 3) (recover env call h e)
  unfolding recover
  Spends-recover call h e =
      Spends-if _ _ _
        (Spends-after _ _ (search free_rules)
          λ able. Spends-if _ _ _ (login_again call) (Spends-raise e))
        (Spends-if _ _ _
          (Spends-weaken (omega arith)
            (elsewhere (some h) true e (request_once env call none) (once call none)))
          (Spends-raise e))

  Spends-request : (call : Call) → Spends count n (2 * n + 12) (request env call)
  unfolding request
  Spends-request call = Spends-weaken {j = (4 + (n + 4)) + (1 + (n + 3))} (omega arith) (
      Spends-bind _ _ Spends-prepare λ _.
        Spends-after _ _ (search free_rules)
          λ h. Spends-handle _ _ (once call none) (Spends-recover call h))

-- Where other tasks leave the number of hosts alone, a request awaits at most twice as many exchanges as
-- the client knows hosts, and twelve more, whatever is answered: no login, probe or repetition goes on for
-- ever.
pub request_exchanges :
    {W : Type 0} (env : Env W) (count : W → ℕ) (call : Call) (m : Machine W)
    → IsCounted env count (length m.client.hosts)
    → count (request env call m).1.world ≤ count m.world + (2 * length m.client.hosts + 12)
request_exchanges env count call m counted =
    ((Spends-request env count (length m.client.hosts) counted call).at m refl).1
