-- ===== src/Model/Serving.antt =====
-- `serving_certificate` of aioproxmox/model/health.py.
use aioproxmox.Prelude.{
  String, ◌≡◌, refl, Option, none, some, List, [], ◌∷◌, str_eq, arith, if◌then◌else◌,
}
use aioproxmox.Prelude.Dict
use aioproxmox.Prelude.Dict.{Dict}
use aioproxmox.Model.Health.{Certificate}

-- CERTIFICATE_PREFERENCE
abbrev pub certificate_preference : List String
certificate_preference = "pveproxy-ssl.pem" ∷ "pve-ssl.pem" ∷ []

-- `{certificate.filename: certificate for certificate in certificates}`
unfoldable pub by_filename : List Certificate → Dict Certificate → Dict Certificate
unfolding Dict.insert
by_filename [] found = found
by_filename (c ∷ rest) found = by_filename rest (Dict.insert c.filename c found)

-- The loop over the preferred names.
unfoldable pub preferred : List String → Dict Certificate → Option Certificate
unfolding Dict.lookup
preferred [] found = none
preferred (filename ∷ rest) found = elim (Dict.lookup filename found) [
  | some c ↦ some c
  | none ↦ preferred rest found
]

unfoldable pub serving_certificate : List Certificate → Option Certificate
unfolding by_filename preferred
serving_certificate certificates = preferred certificate_preference (by_filename certificates [])

-- The last certificate of a name, `before` where there is none.
abbrev pub last_named : String → List Certificate → Option Certificate → Option Certificate
last_named name [] before = before
last_named name (c ∷ rest) before =
    last_named name rest (if str_eq c.filename name then some c else before)

lookup-by_filename :
    (name : String) (certificates : List Certificate) (found : Dict Certificate)
    → Dict.lookup name (by_filename certificates found)
      ≡ last_named name certificates (Dict.lookup name found)
unfolding by_filename
lookup-by_filename name [] found = refl
lookup-by_filename name (c ∷ rest) found = rw (
  lookup-by_filename name rest (Dict.insert c.filename c found),
  Dict.lookup-insert c.filename name c found,
)

-- The certificate that serves the API is the last in the list that is named pveproxy-ssl.pem, or else the
-- last that is named pve-ssl.pem; where there is neither there is none.
pub serving_certificate_lem :
    (certificates : List Certificate)
    → serving_certificate certificates ≡ elim (last_named "pveproxy-ssl.pem" certificates none) [
      | some c ↦ some c
      | none ↦ last_named "pve-ssl.pem" certificates none
    ]
unfolding serving_certificate preferred Dict.lookup
serving_certificate_lem certificates = ground (
  arith,
  lookup-by_filename "pveproxy-ssl.pem" certificates [],
  lookup-by_filename "pve-ssl.pem" certificates [],
)
