-- ===== src/Health/Time.antt =====
-- `_utc` of aioproxmox/model/health.py. An aware UTC datetime is its microseconds since the epoch.
use aioproxmox.Prelude.{ℕ, ◌+◌, ◌*◌, ℤ, pos, negsuc, Option, none, some, ltb, leb, if◌then◌else◌}
use aioproxmox.Value.{Value, Float, int, float}

-- `datetime.fromtimestamp(value, tz=UTC)` of a float rounds in floating point: a parameter, with
-- none where it raises.
abbrev pub FloatTime : Type 0
FloatTime = Float → Option ℤ

-- The last second of the year 9999 and the seconds before the epoch from the year 1.
abbrev last_second : ℕ
last_second = 253402300799

abbrev first_seconds : ℕ
first_seconds = 62135596800

-- `datetime.fromtimestamp(n, tz=UTC)` of an int, none where it raises.
unfoldable pub from_timestamp : ℤ → Option ℤ
from_timestamp (pos n) = if leb n last_second then some (pos (n * 1000000)) else none
from_timestamp (negsuc n) =
    if ltb n first_seconds then some (negsuc (n * 1000000 + 999999)) else none

unfoldable pub utc : FloatTime → Value → Option ℤ
unfolding from_timestamp
utc float_time (int n) = from_timestamp n
utc float_time (float f) = float_time f
utc float_time _ = none

-- `_utc` of an optional integer field
unfoldable pub utc_field : Option ℤ → Option ℤ
unfolding from_timestamp
utc_field none = none
utc_field (some n) = from_timestamp n
