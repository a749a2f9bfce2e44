-- ===== src/Tests/Disks.antt =====
-- SMART readings at work.
use aioproxmox.Prelude.{pos, ◌≡◌, refl, true, false, String, none, some, List, [], ◌∷◌, map}
use aioproxmox.Errors.{ok}
use aioproxmox.Value.{Value, str, int, obj, null, end, field, as_dict}
use aioproxmox.Model.Disks.{SmartSummary, DiskSmart}
use aioproxmox.Disks.Numbers.{Unicode, wearout_of, leading_int}
use aioproxmox.Disks.Smart.{Key, getattr, no_readings, from_attributes}
use aioproxmox.Disks.Log.{summary}
use aioproxmox.Disks.Readings.{readable, last_reading, from_attributes-last_reading}

abbrev unicode : Unicode
unicode = record { decimal = λ n. none; is_digit = λ n. false }

readings :
    (leading_int unicode (str " 3,728h+12m") ≡ ok (some (pos 3728)))
    × (leading_int unicode (str "-") ≡ ok none)
    × (wearout_of unicode (str " 97 ") ≡ ok (some (pos 97)))
    × (wearout_of unicode (str "N/A") ≡ ok none)
unfolding leading_int wearout_of
readings = (refl, refl, refl, refl)

abbrev attribute : Value → String → Value
attribute id raw = obj (field "id" id (field "value" (str "100") (field "raw" (str raw) end)))

abbrev attributes : List Value
attributes =
    attribute (str "194") "36 (Min/Max 20/45)"
    ∷ null
    ∷ attribute (int (pos 231)) "7"
    ∷ attribute (int (pos 194)) "38"
    ∷ attribute (str "194") "-"
    ∷ attribute (int (pos 5)) "1"
    ∷ []

can_read : readable unicode (map as_dict attributes) ≡ true
unfolding readable as_dict
can_read = refl

from_attributes-last_reading_example :
    (s : SmartSummary) × (from_attributes unicode attributes ≡ ok s)
    × (getattr Key.temperature s ≡ last_reading unicode Key.temperature (map as_dict attributes))
from_attributes-last_reading_example =
    from_attributes-last_reading unicode Key.temperature attributes can_read

last_two :
    (last_reading unicode Key.temperature (map as_dict attributes) ≡ some (pos 38))
    × (last_reading unicode Key.life_left (map as_dict attributes) ≡ some (pos 100))
unfolding last_reading as_dict
last_two = (refl, refl)

abbrev sas : DiskSmart
sas = record {
  health = none;
  type = none;
  attributes = [];
  text =
      some
        "Current Drive Temperature:     31 C\nTemperature Sensor 1: 40\n\nAccumulated power on time, hours:minutes 1,024:17\n";
}

abbrev sas_summary : SmartSummary
sas_summary = record no_readings { temperature = some (pos 31); power_hours = some (pos 1024) }

from_text : summary unicode sas ≡ ok sas_summary
unfolding summary
from_text = refl
