-- ===== src/Tests/Health.antt =====
-- The certificates of a node at work.
use aioproxmox.Prelude.{String, ◌≡◌, refl, none, some, List, [], ◌∷◌}
use aioproxmox.Prelude.Dict
use aioproxmox.Model.Health.{Certificate}
use aioproxmox.Model.Serving.{serving_certificate, by_filename, preferred}

abbrev named : String → Certificate
named filename = record {
  filename = filename;
  subject = none;
  issuer = none;
  notafter = none;
  notbefore = none;
  fingerprint = none;
  san = [];
}

abbrev listed : List Certificate
listed = named "pve-root-ca.pem" ∷ named "pve-ssl.pem" ∷ []

served : serving_certificate listed ≡ some (named "pve-ssl.pem")
unfolding serving_certificate by_filename preferred Dict.lookup Dict.insert
served = refl
