-- ===== src/Health/Replication/Oldest.antt =====
-- What `ReplicationHealth.from_jobs` of aioproxmox/model/health.py answers.
use aioproxmox.Prelude.{
  ℤ, ◌≡◌, refl, sym, ◌∙◌, Bool, true, false, not, ◌&&◌, ◌||◌, Option, none, some, List, [], ◌∷◌,
  filter, any, any-filter, any-congr, arith, if◌then◌else◌,
}
use aioproxmox.Prelude.Int.{eq_ℤ, ltb_ℤ, eq_ℤ_iff}
use aioproxmox.Model.Health.{ReplicationJob}
use aioproxmox.Health.Replication.{
  disabled, failing, last_synced, syncs_of, least, oldest_of, active_jobs, from_jobs,
  health_failing,
}

-- A job that is not switched off, whose last sync a test accepts.
abbrev pub synced : (ℤ → Bool) → ReplicationJob → Bool
synced p job = not (disabled job) && elim (last_synced job) [ none ↦ false | some t ↦ p t ]

least-first : (m : ℤ) (ts : List ℤ) → ltb_ℤ m (least m ts) ≡ false
unfolding least
least-first m [] = ground arith
least-first m (t ∷ ts) = ground (arith, least-first (if ltb_ℤ t m then t else m) ts)

least-none_before : (m : ℤ) (ts : List ℤ) → any (λ t. ltb_ℤ t (least m ts)) ts ≡ false
unfolding least any
least-none_before m [] = refl
least-none_before m (t ∷ ts) = ground (
  arith,
  least-none_before (if ltb_ℤ t m then t else m) ts,
  least-first (if ltb_ℤ t m then t else m) ts,
)

least-attained : (m : ℤ) (ts : List ℤ) → eq_ℤ (least m ts) m || any (eq_ℤ (least m ts)) ts ≡ true
unfolding least any
least-attained m [] = ground (arith, eq_ℤ_iff m m)
least-attained m (t ∷ ts) = ground (arith, least-attained (if ltb_ℤ t m then t else m) ts)

any-syncs_of :
    (p : ℤ → Bool) (jobs : List ReplicationJob)
    → any p (syncs_of jobs)
      ≡ any (λ job. elim (last_synced job) [ none ↦ false | some t ↦ p t ]) jobs
unfolding syncs_of any
any-syncs_of p [] = refl
any-syncs_of p (job ∷ jobs) = ground (arith, any-syncs_of p jobs)

any-synced :
    (p : ℤ → Bool) (jobs : List ReplicationJob)
    → any p (syncs_of (active_jobs jobs)) ≡ any (synced p) jobs
unfolding active_jobs
any-synced p jobs =
    any-syncs_of p (active_jobs jobs) ∙ any-filter _ (λ job. not (disabled job)) jobs

-- What the oldest sync says of the jobs.
abbrev pub Oldest : List ReplicationJob → Option ℤ → Type 0
Oldest jobs none = any (synced (λ t. true)) jobs ≡ false
Oldest jobs (some m) =
    (any (synced (eq_ℤ m)) jobs ≡ true) × (any (synced (λ t. ltb_ℤ t m)) jobs ≡ false)

oldest_of-Oldest :
    (jobs : List ReplicationJob) (ts : List ℤ)
    → ((p : ℤ → Bool) → any p ts ≡ any (synced p) jobs)
    → Oldest jobs (oldest_of ts)
unfolding oldest_of any
oldest_of-Oldest jobs [] h = sym (h (λ t. true))
oldest_of-Oldest jobs (t ∷ ts) h = (
  sym (h (eq_ℤ (least t ts))) ∙ least-attained t ts,
  sym (h (λ u. ltb_ℤ u (least t ts))) ∙ ground (arith, least-first t ts, least-none_before t ts),
)

nonempty-filter :
    (p : ReplicationJob → Bool) (jobs : List ReplicationJob)
    → elim (filter p jobs) [ [] ↦ false | job ∷ rest ↦ true ] ≡ any p jobs
unfolding filter any
nonempty-filter p [] = refl
nonempty-filter p (job ∷ jobs) = ground (arith, nonempty-filter p jobs)

still_failing : (job : ReplicationJob) → not (disabled job) && failing job ≡ failing job
unfolding failing
still_failing job = ground arith

-- A node's replication is failing exactly when some job of it is. Its oldest sync is the last sync of
-- some job that is not switched off, and no such job was last synced before it; there is none exactly when no
-- such job has synced.
pub from_jobs-Oldest :
    (jobs : List ReplicationJob)
    → (health_failing (from_jobs jobs) ≡ any failing jobs)
      × Oldest jobs (from_jobs jobs).oldest_sync
unfolding from_jobs health_failing active_jobs
from_jobs-Oldest jobs = (
  nonempty-filter failing (active_jobs jobs)
      ∙ any-filter failing (λ job. not (disabled job)) jobs
      ∙ any-congr _ failing still_failing jobs,
  oldest_of-Oldest jobs (syncs_of (active_jobs jobs)) (λ p. any-synced p jobs),
)
