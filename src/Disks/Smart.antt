-- ===== src/Disks/Smart.antt =====
-- SmartSummary of aioproxmox/model/disks.py.
use aioproxmox.Prelude.{ℤ, pos, String, Option, none, some, List, [], ◌∷◌, map, if◌then◌else◌}
use aioproxmox.Prelude.Int.{eq_ℤ}
use aioproxmox.Prelude.Dict.{Dict}
use aioproxmox.Errors.{Result, ok, ◌>>=◌}
use aioproxmox.Value.{Value, as_dict, get}
use aioproxmox.Model.Disks.{SmartSummary}
use aioproxmox.Disks.Numbers.{Unicode, leading_int}

abbrev pub smart_power_hours : ℤ
smart_power_hours = pos 9

abbrev pub smart_power_cycles : ℤ
smart_power_cycles = pos 12

abbrev pub smart_power_loss : ℤ
smart_power_loss = pos 174

abbrev pub smart_temperature_air : ℤ
smart_temperature_air = pos 190

abbrev pub smart_temperature : ℤ
smart_temperature = pos 194

abbrev pub smart_life_left : ℤ
smart_life_left = pos 231

-- The fields of the summary, which `wanted` names.
pub data Key : Type 0 where
  power_cycles temperature temperature_air power_hours life_left power_loss : Key

-- `wanted`: the key of an id.
unfoldable pub wanted : ℤ → Option Key
wanted id =
    if eq_ℤ id smart_power_cycles
    then some Key.power_cycles
    else if eq_ℤ id smart_temperature
    then some Key.temperature
    else if eq_ℤ id smart_temperature_air
    then some Key.temperature_air
    else if eq_ℤ id smart_power_hours
    then some Key.power_hours
    else if eq_ℤ id smart_life_left
    then some Key.life_left
    else if eq_ℤ id smart_power_loss
    then some Key.power_loss
    else none

-- The field of the attribute that holds the reading.
abbrev pub source : Key → String
source Key.life_left = "value"
source _ = "raw"

-- getattr(summary, key) and setattr(summary, key, reading)
unfoldable pub getattr : Key → SmartSummary → Option ℤ
getattr Key.power_cycles s = s.power_cycles
getattr Key.temperature s = s.temperature
getattr Key.temperature_air s = s.temperature_air
getattr Key.power_hours s = s.power_hours
getattr Key.life_left s = s.life_left
getattr Key.power_loss s = s.power_loss

unfoldable pub setattr : Key → ℤ → SmartSummary → SmartSummary
setattr Key.power_cycles n s = record s { power_cycles = some n }
setattr Key.temperature n s = record s { temperature = some n }
setattr Key.temperature_air n s = record s { temperature_air = some n }
setattr Key.power_hours n s = record s { power_hours = some n }
setattr Key.life_left n s = record s { life_left = some n }
setattr Key.power_loss n s = record s { power_loss = some n }

abbrev pub no_readings : SmartSummary
no_readings = record {
  temperature = none;
  temperature_air = none;
  power_hours = none;
  power_cycles = none;
  life_left = none;
  power_loss = none;
}

-- The key of `number`, where there is a number and it is wanted.
unfoldable pub key_of : Option ℤ → Option Key
unfolding wanted
key_of none = none
key_of (some id) = wanted id

-- `if (reading := …) is not None: setattr(summary, key, reading)`
unfoldable pub store : Key → Option ℤ → SmartSummary → SmartSummary
unfolding setattr
store key none s = s
store key (some n) s = setattr key n s

module _ (unicode : Unicode) where
  unfoldable pub read_key : Option Key → Dict Value → SmartSummary → Result SmartSummary
  unfolding leading_int get store
  read_key none attribute s = ok s
  read_key (some key) attribute s = do
    reading ← leading_int unicode (get (source key) attribute)
    ok (store key reading s)

  -- One round of the loop; what is no dictionary is skipped.
  unfoldable pub read_attribute : Option (Dict Value) → SmartSummary → Result SmartSummary
  unfolding leading_int get key_of read_key
  read_attribute none s = ok s
  read_attribute (some attribute) s = do
    id ← leading_int unicode (get "id" attribute)
    read_key (key_of id) attribute s

  unfoldable pub read_attributes : List (Option (Dict Value)) → SmartSummary → Result SmartSummary
  unfolding read_attribute
  read_attributes [] s = ok s
  read_attributes (attribute ∷ rest) s = do s' ← read_attribute attribute s; read_attributes rest s'

  unfoldable pub from_attributes : List Value → Result SmartSummary
  unfolding read_attributes as_dict
  from_attributes attributes = read_attributes (map as_dict attributes) no_readings
