-- ===== src/Disks/Log.antt =====
-- `smart_text_attributes` and `DiskSmart.summary` of aioproxmox/model/disks.py.
use aioproxmox.Prelude.{ℤ, String, Option, none, some, List, [], ◌∷◌, map}
use aioproxmox.Prelude.{nonempty, if◌then◌else◌}
use aioproxmox.Prelude.Text
use aioproxmox.Prelude.Dict
use aioproxmox.Prelude.Dict.{Dict}
use aioproxmox.Errors.{Result}
use aioproxmox.Value.{Value, int, str}
use aioproxmox.Model.Disks.{SmartSummary, DiskSmart}
use aioproxmox.Disks.Numbers.{Unicode}
use aioproxmox.Disks.Smart.{
  smart_temperature, smart_power_cycles, smart_power_hours, no_readings, read_attributes,
}

abbrev pub smart_text_labels : Dict ℤ
smart_text_labels =
    ("Temperature", smart_temperature)
    ∷ ("Power Cycles", smart_power_cycles)
    ∷ ("Power On Hours", smart_power_hours)
    ∷ ("Current Drive Temperature", smart_temperature)
    ∷ ("Accumulated start-stop cycles", smart_power_cycles)
    ∷ ("Accumulated power on time, hours:minutes", smart_power_hours)
    ∷ []

-- The first label with a colon of its own that the line starts with, and what stands behind it.
unfoldable pub known_label : Dict ℤ → String → Option (String × String)
unfolding Text.has_char Text.behind
known_label [] line = none
known_label ((known, id) ∷ rest) line =
    let other = known_label rest line in
    if Text.has_char b':' known
    then elim (Text.behind known line) [ none ↦ other | some value ↦ some (known, value) ]
    else other

-- The label of a line and its value.
unfoldable pub label_of : String → Option (String × String)
unfolding known_label Text.has_char Text.before Text.after Text.strip
label_of line = elim (known_label smart_text_labels line) [
  | some found ↦ some found
  | none ↦
      if Text.has_char b':' line
      then some (Text.strip (Text.before b':' line), Text.after b':' line)
      else none
]

unfoldable pub attribute_of : String → String → ℤ → Dict Value
unfolding Text.strip Text.remove_char
attribute_of label value id =
    ("name", str label)
    ∷ ("raw", str (Text.remove_char b',' (Text.strip value)))
    ∷ ("id", int id)
    ∷ []

-- The attribute of a stripped line; none where the loop goes on with the next line.
unfoldable pub labelled : Option (String × String) → Option (Dict Value)
unfolding Dict.lookup attribute_of
labelled none = none
labelled (some (label, value)) = elim (Dict.lookup label smart_text_labels) [
  | none ↦ none
  | some id ↦ some (attribute_of label value id)
]

unfoldable pub line_attribute : String → Option (Dict Value)
unfolding label_of labelled
line_attribute line = if nonempty line then labelled (label_of line) else none

unfoldable pub line_attributes : List String → List (Dict Value)
unfolding line_attribute Text.strip
line_attributes [] = []
line_attributes (line ∷ rest) = elim (line_attribute (Text.strip line)) [
  | none ↦ line_attributes rest
  | some attribute ↦ attribute ∷ line_attributes rest
]

unfoldable pub smart_text_attributes : String → List (Dict Value)
unfolding line_attributes Text.split
smart_text_attributes text = line_attributes (Text.split b'\n' text)

-- `smart_text_attributes(self.text) if self.text else []`
unfoldable pub text_attributes : Option String → List (Dict Value)
unfolding smart_text_attributes
text_attributes none = []
text_attributes (some text) = if nonempty text then smart_text_attributes text else []

-- `self.attributes or (…)`
unfoldable pub attributes_of : DiskSmart → List (Dict Value)
unfolding text_attributes
attributes_of disk = elim disk.attributes [ [] ↦ text_attributes disk.text | a ∷ rest ↦ a ∷ rest ]

unfoldable pub summary : Unicode → DiskSmart → Result SmartSummary
unfolding attributes_of read_attributes
summary unicode disk = read_attributes unicode (map (λ a. some a) (attributes_of disk)) no_readings
