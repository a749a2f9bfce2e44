-- ===== src/Guests/Usage.antt =====
-- `GuestFilesystem.device` and `guest_disk_usage` of aioproxmox/model/guest.py.
pub mod Fits
use aioproxmox.Prelude.{
  ℤ, pos, String, Bool, true, false, ◌&&◌, Option, none, some, List, [], ◌∷◌, if◌then◌else◌,
}
use aioproxmox.Prelude.Int.{ltb_ℤ, ◌+ℤ◌}
use aioproxmox.Prelude.Dict
use aioproxmox.Prelude.Dict.{Dict, has_key}
use aioproxmox.Value.{Value, get, truthy}
use aioproxmox.Model.Guests.{GuestFilesystem}
use aioproxmox.Client.Env.{str_Value}

-- `repr` is str() of a float, a list or a dictionary.
unfoldable pub device : (Value → String) → GuestFilesystem → String
unfolding get truthy str_Value
device repr filesystem = elim filesystem.disk [
  | [] ↦ filesystem.name
  | d ∷ rest ↦ if truthy (get "dev" d) then str_Value repr (get "dev" d) else filesystem.name
]

abbrev pub max_ℤ : ℤ → ℤ → ℤ
max_ℤ a b = if ltb_ℤ a b then b else a

-- `d.get(key, 0)`
abbrev pub or_zero : Option ℤ → ℤ
or_zero none = pos 0
or_zero (some n) = n

-- `d[device] = max(d.get(device, 0), n)`
unfoldable pub raise_to : String → ℤ → Dict ℤ → Dict ℤ
unfolding Dict.insert Dict.lookup
raise_to key n d = Dict.insert key (max_ℤ (or_zero (Dict.lookup key d)) n) d

-- `if n is not None: …`
unfoldable pub raise_known : String → Option ℤ → Dict ℤ → Dict ℤ
unfolding raise_to
raise_known key none d = d
raise_known key (some n) d = raise_to key n d

-- `used_by_device` and `total_by_device`
pub record Usage : Type 0 where
  pub used : Dict ℤ
  pub total : Dict ℤ

abbrev pub no_usage : Usage
no_usage = record { used = []; total = [] }

-- `not filesystem.disk`
abbrev pub no_disk : GuestFilesystem → Bool
no_disk filesystem = elim filesystem.disk [ [] ↦ true | d ∷ rest ↦ false ]

unfoldable pub count_used : String → Option ℤ → Option ℤ → Usage → Usage
unfolding raise_to raise_known
count_used key none total u = u
count_used key (some used) total u = record {
  used = raise_to key used u.used;
  total = raise_known key total u.total;
}

unfoldable pub sum : Dict ℤ → ℤ
unfolding ◌+ℤ◌
sum [] = pos 0
sum ((key, n) ∷ d) = n +ℤ sum d

unfoldable pub keys_in : Dict ℤ → Dict ℤ → Bool
unfolding Dict.lookup
keys_in [] e = true
keys_in ((key, n) ∷ d) e = has_key key e && keys_in d e

-- What the loop has gathered, as the two figures.
unfoldable pub figures : Usage → Option ℤ × Option ℤ
unfolding sum keys_in
figures u = elim u.used [
  | [] ↦ (none, none)
  | entry ∷ rest ↦ (
    some (sum u.used),
    if keys_in u.total u.used && keys_in u.used u.total then some (sum u.total) else none,
  )
]

module _ (repr : Value → String) where
  unfoldable pub count : GuestFilesystem → Usage → Usage
  unfolding device count_used
  count filesystem u =
      if no_disk filesystem
      then u
      else count_used (device repr filesystem) filesystem.used_bytes filesystem.total_bytes u

  unfoldable pub count_all : List GuestFilesystem → Usage → Usage
  unfolding count
  count_all [] u = u
  count_all (filesystem ∷ rest) u = count_all rest (count filesystem u)

  unfoldable pub guest_disk_usage : List GuestFilesystem → Option ℤ × Option ℤ
  unfolding count_all figures
  guest_disk_usage filesystems = figures (count_all filesystems no_usage)
