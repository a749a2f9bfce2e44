-- ===== src/Tests/Ha.antt =====
-- The HA stack's answer and a node's replication jobs at work.
use aioproxmox.Prelude.{ℤ, pos, ◌≡◌, refl, true, String, Option, none, some, List, [], ◌∷◌, any}
use aioproxmox.Errors.{ok}
use aioproxmox.Value.{Value, Fields, str, int, obj, null, end, field}
use aioproxmox.Model.Health.{ReplicationJob}
use aioproxmox.Health.Time.{FloatTime}
use aioproxmox.Health.Ha.{HaStatus, ha_from_api}
use aioproxmox.Health.Ha.Sound.{IsSound, services, ha_from_api-IsSound}
use aioproxmox.Health.Replication.{failing, from_jobs, health_failing}
use aioproxmox.Health.Replication.Oldest.{Oldest, from_jobs-Oldest}

abbrev float_time : FloatTime
float_time f = none

abbrev shown : Value → String
shown v = "?"

abbrev typed : String → Fields → Value
typed s fs = obj (field "type" (str s) fs)

abbrev entries : List Value
entries =
    typed "quorum" (field "quorate" (int (pos 1)) end)
    ∷ null
    ∷ typed "fencing" (field "armed-state" (str "armed") (field "resource_mode" (str "?") end))
    ∷ typed "service" (field "sid" (str "vm:101") (field "crm_state" (str "fence") end))
    ∷ typed "service" (field "sid" (str "vm:102") (field "crm_state" (str "started") end))
    ∷ []

abbrev seen : HaStatus
seen = record {
  quorate = some true;
  crm_master = none;
  crm_master_last_seen = none;
  armed_state = some "armed";
  resource_mode = none;
  resources_total = 2;
  resources_error = record { sid = "vm:101"; node = ""; crm_state = "fence" } ∷ [];
}

seen_of : ha_from_api float_time shown entries ≡ ok seen
unfolding ha_from_api
seen_of = refl

ha_from_api-IsSound_example : IsSound seen × (seen.resources_total ≡ services entries)
ha_from_api-IsSound_example = ha_from_api-IsSound float_time shown entries seen seen_of

abbrev job : String → Option ℤ → Option ℤ → Option ℤ → ReplicationJob
job id disable fail_count last_sync = record {
  id = id;
  guest = none;
  vmtype = none;
  target = none;
  source = none;
  schedule = none;
  disable = disable;
  fail_count = fail_count;
  error = none;
  last_sync = last_sync;
  last_try = none;
  next_sync = none;
  duration = none;
}

abbrev jobs : List ReplicationJob
jobs =
    job "101-0" none (some (pos 0)) (some (pos 300))
    ∷ job "102-0" (some (pos 1)) (some (pos 3)) (some (pos 100))
    ∷ job "103-0" none none (some (pos 200))
    ∷ []

from_jobs-Oldest_example :
    (health_failing (from_jobs jobs) ≡ any failing jobs) × Oldest jobs (from_jobs jobs).oldest_sync
from_jobs-Oldest_example = from_jobs-Oldest jobs
