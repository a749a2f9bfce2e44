-- ===== src/Disks/Readings.antt =====
-- What `SmartSummary.from_attributes` of aioproxmox/model/disks.py answers.
use aioproxmox.Prelude.{
  ℤ, String, ◌≡◌, ap, ◌∙◌, ◌↔◌, refl, Bool, true, false, not, ◌&&◌, Option, none, some, List, [],
  ◌∷◌, map, arith, if◌then◌else◌,
}
use aioproxmox.Prelude.Int.{eq_ℤ, eq_ℤ_iff}
use aioproxmox.Prelude.Dict.{Dict}
use aioproxmox.Errors.{Result, ok, err}
use aioproxmox.Value.{Value, as_dict, get}
use aioproxmox.Model.Disks.{SmartSummary}
use aioproxmox.Disks.Numbers.{Unicode, leading_int}
use aioproxmox.Disks.Smart.{
  Key, smart_power_hours, smart_power_cycles, smart_power_loss, smart_temperature_air,
  smart_temperature, smart_life_left, wanted, source, getattr, setattr, no_readings, key_of, store,
  read_key, read_attribute, read_attributes, from_attributes,
}

-- The id of the attribute that a field of the summary is about.
abbrev pub id_of : Key → ℤ
id_of Key.power_cycles = smart_power_cycles
id_of Key.temperature = smart_temperature
id_of Key.temperature_air = smart_temperature_air
id_of Key.power_hours = smart_power_hours
id_of Key.life_left = smart_life_left
id_of Key.power_loss = smart_power_loss

abbrev pub has_id : Option ℤ → Key → Bool
has_id none key = false
has_id (some id) key = eq_ℤ id (id_of key)

abbrev pub or_else : Option ℤ → Option ℤ → Option ℤ
or_else none o = o
or_else (some n) o = some n

abbrev value_of : Result (Option ℤ) → Option ℤ
value_of (ok o) = o
value_of (err e) = none

abbrev raises : Result (Option ℤ) → Bool
raises (ok o) = false
raises (err e) = true

abbrev raises_at : Option Key → (Key → Result (Option ℤ)) → Bool
raises_at none value = false
raises_at (some key) value = raises (value key)

module _ (unicode : Unicode) where
  -- The number in a field of an attribute.
  abbrev pub number_in : Dict Value → String → Result (Option ℤ)
  unfolding leading_int get
  number_in attribute field = leading_int unicode (get field attribute)

  -- The id of an attribute and the value read for it are numbers or no numbers, but not too long.
  unfoldable pub readable : List (Option (Dict Value)) → Bool
  unfolding key_of leading_int get
  readable [] = true
  readable (none ∷ rest) = readable rest
  readable (some a ∷ rest) =
      not (raises (number_in a "id"))
      && (not (raises_at (key_of (value_of (number_in a "id"))) (λ key. number_in a (source key)))
          && readable rest)

  -- The reading of the last attribute with the key's id that has one.
  unfoldable pub last_reading : Key → List (Option (Dict Value)) → Option ℤ
  unfolding leading_int get
  last_reading key [] = none
  last_reading key (none ∷ rest) = last_reading key rest
  last_reading key (some a ∷ rest) = or_else (last_reading key rest) (
      if has_id (value_of (number_in a "id")) key
      then value_of (number_in a (source key))
      else none)

-- What storing a reading for a key does to every field.
abbrev stored : Option Key → (Key → Option ℤ) → SmartSummary → SmartSummary
unfolding store
stored none value s = s
stored (some key) value s = store key (value key) s

-- The id's tests are exclusive.
ids :
    (id : ℤ)
    → ((eq_ℤ id smart_power_cycles ≡ true) ↔ (id ≡ smart_power_cycles))
      × ((eq_ℤ id smart_temperature ≡ true) ↔ (id ≡ smart_temperature))
      × ((eq_ℤ id smart_temperature_air ≡ true) ↔ (id ≡ smart_temperature_air))
      × ((eq_ℤ id smart_power_hours ≡ true) ↔ (id ≡ smart_power_hours))
      × ((eq_ℤ id smart_life_left ≡ true) ↔ (id ≡ smart_life_left))
      × ((eq_ℤ id smart_power_loss ≡ true) ↔ (id ≡ smart_power_loss))
ids id = (
  eq_ℤ_iff id smart_power_cycles,
  eq_ℤ_iff id smart_temperature,
  eq_ℤ_iff id smart_temperature_air,
  eq_ℤ_iff id smart_power_hours,
  eq_ℤ_iff id smart_life_left,
  eq_ℤ_iff id smart_power_loss,
)

getattr-stored_id :
    (key : Key) (id : ℤ) (value : Key → Option ℤ) (s : SmartSummary)
    → getattr key (stored (wanted id) value s)
      ≡ or_else (if eq_ℤ id (id_of key) then value key else none) (getattr key s)
unfolding wanted getattr setattr store
getattr-stored_id Key.power_cycles id value s = ground (arith, ids id)
getattr-stored_id Key.temperature id value s = ground (arith, ids id)
getattr-stored_id Key.temperature_air id value s = ground (arith, ids id)
getattr-stored_id Key.power_hours id value s = ground (arith, ids id)
getattr-stored_id Key.life_left id value s = ground (arith, ids id)
getattr-stored_id Key.power_loss id value s = ground (arith, ids id)

getattr-stored :
    (key : Key) (id : Option ℤ) (value : Key → Option ℤ) (s : SmartSummary)
    → getattr key (stored (key_of id) value s)
      ≡ or_else (if has_id id key then value key else none) (getattr key s)
unfolding key_of stored
getattr-stored key none value s = refl
getattr-stored key (some id) value s = getattr-stored_id key id value s

not_raised : (r : Result (Option ℤ)) → raises r ≡ false → r ≡ ok (value_of r)
not_raised (ok o) h = refl
not_raised (err e) h = absurd (cc)

or_else_none : (o : Option ℤ) (key : Key) → or_else o (getattr key no_readings) ≡ o
unfolding getattr
or_else_none (some n) key = refl
or_else_none none Key.power_cycles = refl
or_else_none none Key.temperature = refl
or_else_none none Key.temperature_air = refl
or_else_none none Key.power_hours = refl
or_else_none none Key.life_left = refl
or_else_none none Key.power_loss = refl

module _ (unicode : Unicode) where
  value_at : Dict Value → Key → Option ℤ
  unfolding leading_int get
  value_at a key = value_of (number_in unicode a (source key))

  read_key-ok :
      (o : Option Key) (a : Dict Value) (s : SmartSummary)
      → raises_at o (λ key. number_in unicode a (source key)) ≡ false
      → read_key unicode o a s ≡ ok (stored o (value_at a) s)
  unfolding read_key value_at stored
  read_key-ok none a s h = refl
  read_key-ok (some key) a s h = rw (not_raised (number_in unicode a (source key)) h)

  read_attribute-ok :
      (a : Dict Value) (rest : List (Option (Dict Value))) (s : SmartSummary)
      → readable unicode (some a ∷ rest) ≡ true
      → read_attribute unicode (some a) s
        ≡ ok (stored (key_of (value_of (number_in unicode a "id"))) (value_at a) s)
  unfolding read_attribute readable
  read_attribute-ok a rest s h =
      let id_reads : raises (number_in unicode a "id") ≡ false = ground arith in
      let value_reads : raises_at (key_of (value_of (number_in unicode a "id")))
            (λ key. number_in unicode a (source key))
          ≡ false =
        ground arith in
      rw (
        not_raised (number_in unicode a "id") id_reads,
        read_key-ok (key_of (value_of (number_in unicode a "id"))) a s value_reads,
      )

  or_else_assoc : (a b c : Option ℤ) → or_else a (or_else b c) ≡ or_else (or_else a b) c
  or_else_assoc none b c = refl
  or_else_assoc (some n) b c = refl

  read_attributes-last_reading :
      (key : Key) (attributes : List (Option (Dict Value))) (s : SmartSummary)
      → readable unicode attributes ≡ true
      → (s' : SmartSummary) × (read_attributes unicode attributes s ≡ ok s')
        × (getattr key s' ≡ or_else (last_reading unicode key attributes) (getattr key s))
  unfolding read_attributes value_at readable last_reading
  read_attributes-last_reading key [] s h = (s, refl, refl)
  read_attributes-last_reading key (none ∷ rest) s h = read_attributes-last_reading key rest s h
  read_attributes-last_reading key (some a ∷ rest) s h =
      let after = stored (key_of (value_of (number_in unicode a "id"))) (value_at a) s in
      let (s', e, k) = read_attributes-last_reading key rest after (ground arith) in
      (
        s',
        rw (read_attribute-ok a rest s h, e),
        k
            ∙ ap (or_else (last_reading unicode key rest))
                (getattr-stored key (value_of (number_in unicode a "id")) (value_at a) s)
            ∙ or_else_assoc (last_reading unicode key rest) _ (getattr key s),
      )

  -- Where the numbers are not too long to convert, the summary is read, and each of its fields is the
  -- reading of the last attribute with the field's id that has one.
  pub from_attributes-last_reading :
      (key : Key) (attributes : List Value)
      → readable unicode (map as_dict attributes) ≡ true
      → (s : SmartSummary) × (from_attributes unicode attributes ≡ ok s)
        × (getattr key s ≡ last_reading unicode key (map as_dict attributes))
  unfolding from_attributes
  from_attributes-last_reading key attributes h =
      let (s, e, k) = read_attributes-last_reading key (map as_dict attributes) no_readings h in
      (s, e, k ∙ or_else_none _ key)
