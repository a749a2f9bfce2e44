-- ===== src/Health/Replication.antt =====
-- ReplicationJob and ReplicationHealth of aioproxmox/model/health.py.
pub mod Oldest
use aioproxmox.Prelude.{
  ℕ, ℤ, pos, Bool, true, false, not, ◌&&◌, Option, none, some, List, [], ◌∷◌, filter, length,
  if◌then◌else◌,
}
use aioproxmox.Prelude.Int.{eq_ℤ, ltb_ℤ}
use aioproxmox.Model.Health.{ReplicationJob}
use aioproxmox.Health.Time.{utc_field}

-- `bool(value)` of an optional integer
abbrev pub truthy_int : Option ℤ → Bool
truthy_int none = false
truthy_int (some n) = not (eq_ℤ n (pos 0))

unfoldable pub disabled : ReplicationJob → Bool
disabled job = truthy_int job.disable

unfoldable pub failing : ReplicationJob → Bool
unfolding disabled
failing job = not (disabled job) && truthy_int job.fail_count

unfoldable pub last_synced : ReplicationJob → Option ℤ
unfolding utc_field
last_synced job = utc_field job.last_sync

pub record ReplicationHealth : Type 0 where
  pub jobs : ℕ
  pub failing_jobs : List ReplicationJob
  pub oldest_sync : Option ℤ

-- `[job.last_synced for job in active if job.last_synced is not None]`
unfoldable pub syncs_of : List ReplicationJob → List ℤ
unfolding last_synced
syncs_of [] = []
syncs_of (job ∷ rest) = elim (last_synced job) [ none ↦ syncs_of rest | some t ↦ t ∷ syncs_of rest ]

-- `min(syncs) if syncs else None`
unfoldable pub least : ℤ → List ℤ → ℤ
least m [] = m
least m (t ∷ ts) = least (if ltb_ℤ t m then t else m) ts

unfoldable pub oldest_of : List ℤ → Option ℤ
unfolding least
oldest_of [] = none
oldest_of (t ∷ ts) = some (least t ts)

unfoldable pub active_jobs : List ReplicationJob → List ReplicationJob
unfolding filter disabled
active_jobs jobs = filter (λ job. not (disabled job)) jobs

unfoldable pub from_jobs : List ReplicationJob → ReplicationHealth
unfolding filter failing active_jobs syncs_of oldest_of
from_jobs jobs = record {
  jobs = length jobs;
  failing_jobs = filter failing (active_jobs jobs);
  oldest_sync = oldest_of (syncs_of (active_jobs jobs));
}

-- `ReplicationHealth.failing`
unfoldable pub health_failing : ReplicationHealth → Bool
health_failing h = elim h.failing_jobs [ [] ↦ false | job ∷ rest ↦ true ]
