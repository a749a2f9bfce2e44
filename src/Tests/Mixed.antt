-- ===== src/Tests/Mixed.antt =====
-- A network in which one host answers and the others are silent.
use text.Mathlib.TextLemmas.{nil-append, cons-append, append_assoc}
use Prim.Native.Char.{code}
use Prim.Native.String.{String, [], ◌∷◌}
use aioproxmox.Prelude.{
  ℕ, ◌≡◌, refl, ap, ◌∙◌, Bool, true, false, ◌==◌, nonempty, some, if◌then◌else◌,
}
use aioproxmox.Prelude.Text
use aioproxmox.Prelude.Text.{◌+++◌}
use aioproxmox.Prelude.Text.Joined.{nonempty-append, rstrip-append, drop-append}
use aioproxmox.Errors.{ok, err, connection_error}
use aioproxmox.Value.{null}
use aioproxmox.Client.State.{url_of}
use aioproxmox.Client.Env.{Env}
use aioproxmox.Client.Once.{join_url, read_response}
use aioproxmox.Client.Network.{Reaches, verdict}
use aioproxmox.Tests.Net.{net, respond}

-- Whether a text starts with the letter b.
abbrev pub is_b : String → Bool
is_b [] = false
is_b (c ∷ s) = code c == b'b'

-- The host whose name starts so answers.
abbrev pub only_b : Env ℕ
only_b =
    net
      (λ req w. if is_b (Text.drop 8 req.url) then ok (respond 401 null) else err connection_error)

is_b-append : (host t : String) → is_b t ≡ false → is_b (host +++ t) ≡ is_b host
is_b-append [] t e = ap is_b (nil-append t) ∙ e
is_b-append (c ∷ s) t e = ap is_b (cons-append c s t)

abbrev behind_host : ℕ → String
behind_host port = ":" +++ Text.str_ℕ port +++ "/api2/json"

url_of-nonempty : (host : String) (port : ℕ) → nonempty (host +++ behind_host port) ≡ true
url_of-nonempty host port =
    nonempty-append host _
      (nonempty-append ":" _ (nonempty-append (Text.str_ℕ port) "/api2/json" refl))

rstrip-url_of :
    (host : String) (port : ℕ) → Text.rstrip Text.is_slash (url_of host port) ≡ url_of host port
unfolding url_of Text.rstrip
rstrip-url_of host port =
    let tail_there = nonempty-append (Text.str_ℕ port) "/api2/json" refl in
    rstrip-append Text.is_slash "https://" (host +++ behind_host port) (url_of-nonempty host port) (
      rstrip-append Text.is_slash host (behind_host port) (nonempty-append ":" _ tail_there) (
        rstrip-append Text.is_slash ":" (Text.str_ℕ port +++ "/api2/json") tail_there
          (rstrip-append Text.is_slash (Text.str_ℕ port) "/api2/json" refl refl)))

-- The URL that a probe of a host asks tells whether the host is the one.
probe_lem :
    (host : String) (port : ℕ)
    → is_b (Text.drop 8 (join_url (url_of host port) "version")) ≡ is_b host
unfolding join_url url_of Text.lstrip Text.size
probe_lem host port =
    let tail = "/" +++ Text.lstrip Text.is_slash "version" in
    let rest = host +++ behind_host port in
    ap (λ u. is_b (Text.drop 8 (u +++ tail))) (rstrip-url_of host port)
    ∙ ap (λ u. is_b (Text.drop 8 u)) (append_assoc "https://" rest tail)
    ∙ ap is_b (drop-append "https://" (rest +++ tail))
    ∙ ap is_b (append_assoc host (behind_host port) tail)
    ∙ is_b-append host (behind_host port +++ tail) (
        ap is_b (append_assoc ":" (Text.str_ℕ port +++ "/api2/json") tail)
        ∙ ap is_b (cons-append ":" "" ((Text.str_ℕ port +++ "/api2/json") +++ tail)))

answered : (b : Bool) → verdict (if b then ok (respond 401 null) else err connection_error) ≡ some b
unfolding verdict read_response
answered true = refl
answered false = refl

pub Reaches-only_b : Reaches only_b is_b
Reaches-only_b = record {
  quiet = record { still = λ req c w. refl };
  probed = λ req c w host port e.
      answered (is_b (Text.drop 8 req.url))
      ∙ ap some (ap (λ u. is_b (Text.drop 8 u)) e ∙ probe_lem host port);
}
