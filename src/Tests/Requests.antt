-- ===== src/Tests/Requests.antt =====
-- `request` at work.
use aioproxmox.Prelude.{
  ℕ, ◌+◌, ◌*◌, ◌≤◌, arith, String, ◌≡◌, refl, ◌⊎◌, Bool, true, false, none, some, List, [], ◌∷◌,
  pos, if◌then◌else◌,
}
use aioproxmox.Prelude.Dict
use aioproxmox.Value.{bool, int, str}
use aioproxmox.Exec.{◌>>=◌, pure, handle}
use aioproxmox.Errors.{err, connection_error}
use aioproxmox.Client.State.{Client, url_of, token_separator}
use aioproxmox.Client.Env.{Env, HttpRequest, Machine, reading, send}
use aioproxmox.Client.Hosts.{at, current_host, point_at}
use aioproxmox.Client.Coherence.{IsCoherent}
use aioproxmox.Client.Coherence.Requests.{request-IsCoherent}
use aioproxmox.Client.Once.{
  Call, get_headers, request_once, build_request, sends_query, query_value, query_of, request_for,
}
use aioproxmox.Client.Once.Sent.{Proves, given, build_request_lem}
use aioproxmox.Client.Auth.{check_and_refresh, refresh}
use aioproxmox.Client.Failover.Probe.{machine}
use aioproxmox.Client.Failover.Walk.{Found, Silent}
use aioproxmox.Client.Request.{prepare, request}
use aioproxmox.Client.Request.Recovery.{Fails, request_unreachable}
use aioproxmox.Client.Cost.{IsCounted}
use aioproxmox.Client.Cost.Requests.{request_exchanges}
use aioproxmox.Tests.Net.{all_down, three, start, token, on_hosts}
use aioproxmox.Tests.Failover.{Reaches-down, on_a}

abbrev read_version : Call
read_version = record { method = "GET"; path = "version"; json_data = []; params = [] }

abbrev one : Client
one = on_hosts token ("a" ∷ [])

-- A network with no host alive.
abbrev Dead : Client → ℕ → Machine ℕ
Dead c w = record { client = c; world = w }

dead-Fails :
    (hosts : List String)
    → Fails all_down read_version
        (start (on_hosts token ("a" ∷ hosts)))
        (start (on_hosts token ("a" ∷ hosts)))
        (Dead (on_hosts token ("a" ∷ hosts)) 1)
        "a"
        connection_error
unfolding prepare handle check_and_refresh refresh pure current_host at request_once ◌>>=◌ reading
    send build_request get_headers token_separator
dead-Fails hosts = record { prepared = refl; on = refl; first = refl }

request_unreachable_example :
    (◌≡◌ {A = Bool} false true
      → (w : ℕ) × (request all_down read_version (start three)
          ≡ (err connection_error, machine three w)))
    × (◌≡◌ {A = Bool} false false
        → ((c : Client) × (w : ℕ) × (request all_down read_version (start three)
              ≡ request_once all_down read_version none (machine c w))
            × Found (λ h. false) three 0 1 3 c)
          ⊎ ((w : ℕ) × (request all_down read_version (start three)
                ≡ (err connection_error, machine (point_at 0 "a" three) w))
              × Silent (λ h. false) three 0 1 3))
unfolding current_host at
request_unreachable_example =
    request_unreachable all_down (λ h. false) read_version (start three) (start three)
      (Dead three 1) "a" connection_error (dead-Fails ("b" ∷ "c" ∷ [])) refl refl Reaches-down
      (on_a ("a" ∷ "b" ∷ "c" ∷ [])) refl

-- Another task moves the client while the first attempt is awaited.
abbrev moved : Client
moved = record three { host_index = 1 }

abbrev moving : Env ℕ
moving = record all_down { send = λ req c w. (err connection_error, moved, w + 1) }

moving-Fails :
    Fails moving read_version (start three) (start three) (Dead moved 1) "a" connection_error
unfolding prepare handle check_and_refresh refresh pure current_host at request_once ◌>>=◌ reading
    send build_request get_headers token_separator
moving-Fails = record { prepared = refl; on = refl; first = refl }

coherent : IsCoherent ("a" ∷ "b" ∷ "c" ∷ []) three
unfolding at url_of
coherent = record { known = refl; host = "a"; in_use = refl; url = refl; login = tt }

request-IsCoherent_example :
    IsCoherent ("a" ∷ "b" ∷ "c" ∷ []) (request all_down read_version (start three)).1.client
request-IsCoherent_example =
    request-IsCoherent all_down ("a" ∷ "b" ∷ "c" ∷ []) read_version (start three)
      (record { others = λ req c w h. h }) coherent

counted : IsCounted all_down (λ w. w) 3
counted = record { step = λ req c w e. (e, omega arith) }

request_exchanges_example : (request all_down read_version (start three)).1.world ≤ 0 + (2 * 3 + 12)
request_exchanges_example = request_exchanges all_down (λ w. w) read_version (start three) counted

-- A GET whose parameters are a truth value that the data repeats.
abbrev listing : Call
listing = record {
  method = "get";
  path = "/nodes";
  json_data = ("full", bool true) ∷ [];
  params = ("full", bool false) ∷ ("type", str "node") ∷ [];
}

abbrev listed : HttpRequest
listed =
    request_for (λ v. "") listing none three
      (("Authorization", str "PVEAPIToken=root@pam!t=v") ∷ [])

query : listed.params ≡ ("full", int (pos 1)) ∷ ("type", str "node") ∷ []
unfolding request_for query_of Dict.insert
query = refl

build_request_lem_example :
    Proves (λ v. "") three.auth listed.headers
    × (Dict.lookup "full" listed.params ≡ (
        if sends_query "get"
        then elim (given "full" listing) [ none ↦ none | some v ↦ some (query_value (λ v. "") v) ]
        else none))
    × (listed.json ≡ (if sends_query "get" then [] else listing.json_data))
unfolding build_request get_headers token_separator
build_request_lem_example = build_request_lem (λ v. "") listing none three listed "full" refl
