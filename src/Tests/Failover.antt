-- ===== src/Tests/Failover.antt =====
-- `failover` at work.
use aioproxmox.Prelude.{
  ℕ, ◌+◌, ◌≤◌, arith, length, String, ◌≡◌, refl, ◌⊎◌, true, false, none, some, List, [], ◌∷◌,
}
use aioproxmox.Errors.{ok}
use aioproxmox.Client.State.{Client, url_of, token_separator}
use aioproxmox.Client.Hosts.{at, current_host, point_at, use_host}
use aioproxmox.Client.Network.{Reaches, OnHost, verdict}
use aioproxmox.Client.Once.{get_headers, read_response, request_once, build_request}
use aioproxmox.Client.Failover.{failover, moved_already, still_there, walk, answers, report}
use aioproxmox.Client.Failover.Probe.{machine}
use aioproxmox.Client.Failover.Walk.{Found, Silent, alive_at}
use aioproxmox.Client.Failover.Choice.{failover_elsewhere, failover_lem}
use aioproxmox.Exec.{◌>>=◌}
use aioproxmox.Client.Env.{reading, calling, send}
use aioproxmox.Client.Failover.Rotation.{Asking, pointer, turns, failovers, failovers-refines}
use aioproxmox.Client.Burst.Served.{burst-IsServed}
use aioproxmox.Tests.Mixed.{is_b, only_b, Reaches-only_b}
use aioproxmox.Client.Burst.{Turns, Line, asks, switches, Steps, none_yet, further}
use aioproxmox.Client.Burst.Settled.{burst-IsSettled}
use aioproxmox.Tests.Net.{all_up, all_down, three, start, token, on_hosts}

pub Reaches-up : Reaches all_up (λ h. true)
unfolding verdict read_response
Reaches-up = record {
  quiet = record { still = λ req c w. refl };
  probed = λ req c w host port e. refl;
}

pub Reaches-down : Reaches all_down (λ h. false)
unfolding verdict read_response
Reaches-down = record {
  quiet = record { still = λ req c w. refl };
  probed = λ req c w host port e. refl;
}

pub on_a : (hosts : List String) → OnHost (on_hosts token hosts) "a"
unfolding url_of get_headers token_separator
on_a hosts = record { url = refl; headers = (_, refl) }

failover_elsewhere_example :
    failover all_down (some "z") true (start three) ≡ (ok true, start three)
unfolding current_host at
failover_elsewhere_example = failover_elsewhere all_down "z" true (start three) "a" refl refl

failover_lem_example :
    ((c : Client) × (w : ℕ) × (failover only_b none true (start three) ≡ (ok true, machine c w))
      × Found is_b three 0 1 3 c)
    ⊎ ((w : ℕ) × (failover only_b none true (start three)
          ≡ (ok false, machine (point_at 0 "a" three) w))
        × Silent is_b three 0 1 3)
unfolding current_host at
failover_lem_example =
    failover_lem only_b is_b none true (start three) "a" Reaches-only_b
      (on_a ("a" ∷ "b" ∷ "c" ∷ [])) refl refl refl

-- Two requests that failed on the host in use; one of them has had the lock.
abbrev nobody : Line ℕ
nobody = record { now = start three; waiting = [] }

abbrev one : Line ℕ
one = record { now = start three; waiting = "a" ∷ [] }

abbrev two : Line ℕ
two = record { now = start three; waiting = "a" ∷ "a" ∷ [] }

abbrev served : Line ℕ
served = record { now = (failover all_down (some "a") true (start three)).1; waiting = "a" ∷ [] }

burst : Steps all_down nobody served
unfolding current_host at
burst =
    further two served
      (further one two (further nobody one none_yet (asks (start three) [] "a" refl))
        (asks (start three) ("a" ∷ []) "a" refl))
      (switches (start three) [] ("a" ∷ []) "a")

burst-IsSettled_example :
    ((served.now.client ≡ three) ⊎ (served.now.client ≡ point_at 0 "a" three))
    ⊎ Found (λ h. false) three 0 1 3 served.now.client
unfolding current_host at
burst-IsSettled_example =
    burst-IsSettled all_down (λ h. false) (start three) "a" served Reaches-down
      (on_a ("a" ∷ "b" ∷ "c" ∷ [])) refl burst

waiting_two : Steps only_b nobody two
unfolding current_host at
waiting_two =
    further one two (further nobody one none_yet (asks (start three) [] "a" refl))
      (asks (start three) ("a" ∷ []) "a" refl)

burst-IsServed_example :
    ((l' : Line ℕ) × Turns only_b two 2 l')
    × ((n : ℕ) (l' : Line ℕ)
        → Turns only_b two n l'
        → (n + length l'.waiting ≡ 2) × (1 ≤ n → Found is_b three 0 1 3 l'.now.client))
unfolding current_host at alive_at
burst-IsServed_example =
    burst-IsServed only_b is_b (start three) "a" two 1 Reaches-only_b (on_a ("a" ∷ "b" ∷ "c" ∷ []))
      refl refl (omega arith) (omega arith) refl waiting_two

-- Two renewals that failed on one host: neither names the host that it failed on, and the second takes the
-- client on from a host that answers.
renewals :
    ((failover all_up none false (start three)).1.client.host_index ≡ 1)
    × ((failover all_up none false (failover all_up none false (start three)).1).1.client.host_index
        ≡ 2)
unfolding failover ◌>>=◌ reading moved_already still_there walk calling use_host answers
    request_once build_request get_headers send read_response current_host report
renewals = (refl, refl)

-- From the first host to the second, where a late caller that failed on the first and one that asks first leave
-- the client, and on to the third.
abbrev callers : List Asking
callers = (none, false) ∷ (some "a", true) ∷ (none, true) ∷ (some "b", false) ∷ []

turned : (turns (λ h. true) callers (pointer three)).index ≡ 2
unfolding turns at
turned = refl

failovers-refines_example :
    pointer (failovers all_up callers (start three)).client
    ≡ turns (λ h. true) callers (pointer three)
unfolding current_host at
failovers-refines_example =
    failovers-refines all_up (λ h. true) callers (start three) "a" Reaches-up
      (on_a ("a" ∷ "b" ∷ "c" ∷ [])) refl
