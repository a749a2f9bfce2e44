-- ===== src/Guests/Addresses.antt =====
-- The addresses of a guest in aioproxmox/model/guest.py.
pub mod Listed
pub mod Primary
use aioproxmox.Prelude.{
  ℕ, String, Bool, false, not, ◌||◌, Option, none, some, List, [], ◌∷◌, ◌++◌, map, filter, nonempty,
  ◌==◌, if◌then◌else◌,
}
use aioproxmox.Prelude.Text
use aioproxmox.Prelude.Dict
use aioproxmox.Prelude.Dict.{Dict}
use aioproxmox.Errors.{Result, ok, err, value_error, ◌>>=◌}
use aioproxmox.Model.Guests.{GuestInterface}

-- What Python's ipaddress says of an address that it can read.
pub record IpAddress : Type 0 where
  pub version : ℕ
  pub is_loopback : Bool
  pub is_link_local : Bool
  pub is_unspecified : Bool

-- `self.hardware_address or self.hwaddr`
unfoldable pub mac : GuestInterface → Option String
mac interface = elim interface.hardware_address [
  | none ↦ interface.hwaddr
  | some s ↦ if nonempty s then some s else interface.hwaddr
]

-- `raw.split("/", 1)[0] for raw in (…) if raw`
unfoldable pub without_prefix : Option String → List String
unfolding Text.before
without_prefix none = []
without_prefix (some raw) = if nonempty raw then Text.before b'/' raw ∷ [] else []

unfoldable pub addresses : GuestInterface → List String
unfolding without_prefix
addresses interface =
    map (λ item. item.ip_address) interface.ip_addresses
    ++ without_prefix interface.inet
    ++ without_prefix interface.inet6

-- The addresses of a dictionary's values, one after another.
unfoldable pub values : Dict (List String) → List String
values [] = []
values ((name, shown) ∷ rest) = shown ++ values rest

-- `if shown: result[interface.name] = shown`
unfoldable pub add_shown : String → List String → Dict (List String) → Dict (List String)
unfolding Dict.insert
add_shown name [] result = result
add_shown name (a ∷ rest) result = Dict.insert name (a ∷ rest) result

-- ipaddress.ip_address, with none where it raises ValueError: a parameter.
module _ (ip_address : String → Option IpAddress) where
  -- `_shown`
  unfoldable pub is_shown : String → Bool
  is_shown address = elim (ip_address address) [
    | none ↦ false
    | some parsed ↦ not (parsed.is_loopback || parsed.is_link_local || parsed.is_unspecified)
  ]

  unfoldable pub gather : List GuestInterface → Dict (List String) → Dict (List String)
  unfolding addresses is_shown filter add_shown
  gather [] result = result
  gather (interface ∷ rest) result =
      gather rest (add_shown interface.name (filter is_shown (addresses interface)) result)

  unfoldable pub guest_addresses : List GuestInterface → Dict (List String)
  unfolding gather
  guest_addresses interfaces = gather interfaces []

  -- `ipaddress.ip_address(a).version == 4`, which raises where the address cannot be read
  unfoldable pub is_v4 : String → Result Bool
  is_v4 a = elim (ip_address a) [ none ↦ err value_error | some parsed ↦ ok (parsed.version == 4) ]

  -- `next((a for a in found if …), default)`
  unfoldable pub first_v4 : String → List String → Result String
  unfolding is_v4
  first_v4 default [] = ok default
  first_v4 default (a ∷ found) = do v4 ← is_v4 a; if v4 then ok a else first_v4 default found

  unfoldable pub first_address : List String → Result (Option String)
  unfolding first_v4
  first_address [] = ok none
  first_address (a ∷ found) = do chosen ← first_v4 a (a ∷ found); ok (some chosen)

  unfoldable pub primary_address : List GuestInterface → Result (Option String)
  unfolding guest_addresses values first_address
  primary_address interfaces = first_address (values (guest_addresses interfaces))
