-- ===== src/Client/Failover/Probe.antt =====
-- What a probe by `_answers` finds out.
use aioproxmox.Client.Network.{verdict, Reaches, OnHost}
use aioproxmox.Client.Hosts.{current_host}
use aioproxmox.Prelude.{◌≡◌, some, arith, String, ap, ◌∙◌, Bool}
use aioproxmox.Errors.{Result, ok, ◌>>=◌ as bind}
use aioproxmox.Value.{Value}
use aioproxmox.Exec.{◌>>=◌}
use aioproxmox.Client.State.{probe_timeout, Client}
use aioproxmox.Client.Env.{Env, HttpRequest, Machine, reading, send}
use aioproxmox.Client.Once.{read_response, build_request, request_once, request_for}
use aioproxmox.Client.Failover.{probe, answers}

abbrev pub machine : {W : Type 0} → Client → W → Machine W
machine c w = record { client = c; world = w }

module _ {W : Type 0} (env : Env W) where
  -- The attempt's result, whatever the environment does.
  outcome : HttpRequest → Machine W → Result Value
  outcome req m = bind (env.send req m.client m.world).0 (read_response "version")

  request_once-outcome :
      (m : Machine W) (req : HttpRequest)
      → build_request env.repr probe (some probe_timeout) m.client ≡ ok req
      → request_once env probe (some probe_timeout) m ≡ (
        outcome req m,
        record {
          client = (env.send req m.client m.world).1;
          world = (env.send req m.client m.world).2;
        },
      )
  unfolding request_once outcome reading send ◌>>=◌
  request_once-outcome m req e = rw e (ground arith)

  after : HttpRequest → Machine W → Machine W
  after req m = record {
    client = (env.send req m.client m.world).1;
    world = (env.send req m.client m.world).2;
  }

  -- A probe reports the verdict on its reply; a refusal counts as an answer.
  answers-verdict :
      (m : Machine W) (req : HttpRequest) (b : Bool) (host : String)
      → build_request env.repr probe (some probe_timeout) m.client ≡ ok req
      → verdict (env.send req m.client m.world).0 ≡ some b
      → current_host (after req m).client ≡ ok host
      → answers env m ≡ (ok b, after req m)
  unfolding answers verdict outcome after ◌>>=◌ reading
  answers-verdict m req b host e v h = rw (request_once-outcome m req e) (ground arith)

  -- On a host that is as the network says, a probe tells whether the host is alive, and leaves the
  -- client as it is.
  pub answers-alive :
      (alive : String → Bool) (m : Machine W) (host : String)
      → Reaches env alive
      → OnHost m.client host
      → current_host m.client ≡ ok host
      → (w : W) × (answers env m ≡ (ok (alive host), record { client = m.client; world = w }))
  unfolding build_request after request_for
  answers-alive alive m host reaches on h =
      let (headers, e) = on.headers in
      let req : HttpRequest = request_for env.repr probe (some probe_timeout) m.client headers in
      let same = reaches.quiet.still req m.client m.world in
      (
        (env.send req m.client m.world).2,
        answers-verdict m req (alive host) host (rw (e, build_request))
              (reaches.probed req m.client m.world host m.client.port (rw on.url)) (rw same h)
            ∙ ap (λ (c : Client). (ok (alive host), machine c (env.send req m.client m.world).2))
                same,
      )
