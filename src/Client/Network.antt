-- ===== src/Client/Network.antt =====
-- Documented behaviour of what the client calls, as hypotheses, and how a response is judged.
use aioproxmox.Prelude.Dict.{Dict}
use aioproxmox.Prelude.{ℕ, String, ◌≡◌, Bool, true, false, Option, none, some, if◌then◌else◌}
use aioproxmox.Errors.{Result, ok, err, ◌>>=◌, is_api_error, is_silence}
use aioproxmox.Value.{Value}
use aioproxmox.Client.State.{Client, url_of}
use aioproxmox.Client.Env.{Env, HttpRequest, Response}
use aioproxmox.Client.Once.{join_url, read_response, get_headers}

-- While the client awaits an answer, no other task writes to it.
pub record IsQuiet {W : Type 0} (env : Env W) : Type 0 where
  pub still : (req : HttpRequest) (c : Client) (w : W) → (env.send req c w).1 ≡ c

-- What `except` makes of a probe's end: an answer, silence, or an error that is raised again.
abbrev pub verdict_of : Result Value → Option Bool
verdict_of (ok v) = some true
verdict_of (err e) = if is_api_error e then some true else if is_silence e then some false else none

-- The verdict on the reply to a request for `version`.
unfoldable pub verdict : Result Response → Option Bool
verdict reply = verdict_of (do response ← reply; read_response "version" response)

-- A host answers, or is silent, as `alive` says, at whatever time it is asked.
pub record Reaches {W : Type 0} (env : Env W) (alive : String → Bool) : Type 0 where
  pub quiet : IsQuiet env
  pub probed :
      (req : HttpRequest) (c : Client) (w : W) (host : String) (port : ℕ)
      → req.url ≡ join_url (url_of host port) "version"
      → verdict (env.send req c w).0 ≡ some (alive host)

-- The client's URL is that of the host in use, and its credentials can be put into headers.
pub record OnHost (c : Client) (host : String) : Type 0 where
  pub url : c.base_url ≡ url_of host c.port
  pub headers : (h : Dict Value) × (get_headers c.auth ≡ ok h)
