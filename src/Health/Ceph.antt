-- ===== src/Health/Ceph.antt =====
-- CephStatus of aioproxmox/model/health.py.
use aioproxmox.Prelude.{
  ◌/◌, ◌^◌, ℤ, pos, negsuc, String, Option, none, some, List, [], ◌∷◌, str_eq, ◌==◌, if◌then◌else◌,
}
use aioproxmox.Prelude.Dict.{Dict}
use aioproxmox.Value.{Value, int, float, str, as_dict, as_str, get}

pub data CephHealth : Type 0 where
  healthy warn error unknown : CephHealth

-- `CephHealth(status)`: a value that is no member goes to `_missing_`.
unfoldable pub ceph_health : Value → CephHealth
ceph_health (str s) =
    if str_eq s "HEALTH_OK"
    then CephHealth.healthy
    else if str_eq s "HEALTH_WARN"
    then CephHealth.warn
    else if str_eq s "HEALTH_ERR"
    then CephHealth.error
    else CephHealth.unknown
ceph_health _ = CephHealth.unknown

pub record CephCheck : Type 0 where
  pub check : String
  pub severity : Option String
  pub message : Option String

pub record CephStatus : Type 0 where
  pub health : CephHealth
  pub checks : List CephCheck
  pub bytes_used : Option ℤ
  pub bytes_total : Option ℤ

-- `_positive`; `int(value)` of a float cuts off what stands behind the point.
unfoldable pub positive : Value → Option ℤ
positive (int (pos n)) = if n == 0 then none else some (pos n)
positive (float f) = elim f.mantissa [
  | pos n ↦ if n == 0 then none else some (pos (n / 2 ^ f.scale))
  | negsuc n ↦ none
]
positive _ = none

-- `value if isinstance(value, dict) else {}`
abbrev pub block : Value → Dict Value
block value = elim (as_dict value) [ none ↦ [] | some d ↦ d ]

-- What one check of the block appends.
unfoldable pub ceph_check : String → Dict Value → CephCheck
unfolding as_dict get
ceph_check name check = record {
  check = name;
  severity = as_str (get "severity" check);
  message = as_str (get "message" (block (get "summary" check)));
}

unfoldable pub ceph_checks : Dict Value → List CephCheck
unfolding ceph_check as_dict
ceph_checks [] = []
ceph_checks ((name, check) ∷ rest) = elim (as_dict check) [
  | none ↦ ceph_checks rest
  | some d ↦ ceph_check name d ∷ ceph_checks rest
]

unfoldable pub ceph_from_api : Dict Value → CephStatus
unfolding get as_dict ceph_health ceph_checks positive
ceph_from_api raw =
    let health = block (get "health" raw) in
    let pgmap = block (get "pgmap" raw) in
    record {
      health = ceph_health (get "status" health);
      checks = ceph_checks (block (get "checks" health));
      bytes_used = positive (get "bytes_used" pgmap);
      bytes_total = positive (get "bytes_total" pgmap);
    }
