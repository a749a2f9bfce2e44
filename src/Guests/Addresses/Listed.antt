-- ===== src/Guests/Addresses/Listed.antt =====
-- What `guest_addresses` of aioproxmox/model/guest.py lists.
use aioproxmox.Prelude.{
  String, ◌≡◌, refl, Bool, true, false, ◌&&◌, Option, none, some, List, [], ◌∷◌, filter, any,
  str_eq, arith, if◌then◌else◌,
}
use aioproxmox.Prelude.Dict
use aioproxmox.Prelude.Dict.{Dict}
use aioproxmox.Model.Guests.{GuestInterface}
use aioproxmox.Guests.Addresses.{IpAddress, addresses, add_shown, is_shown, gather, guest_addresses}

abbrev pub is_cons : List String → Bool
is_cons [] = false
is_cons (a ∷ rest) = true

pub is_cons-filter : (p : String → Bool) (xs : List String) → is_cons (filter p xs) ≡ any p xs
unfolding filter any
is_cons-filter p [] = refl
is_cons-filter p (x ∷ xs) = ground (arith, is_cons-filter p xs)

lookup-add_shown :
    (name j : String) (found : List String) (d : Dict (List String))
    → Dict.lookup name (add_shown j found d)
      ≡ (if is_cons found && str_eq j name then some found else Dict.lookup name d)
unfolding add_shown
lookup-add_shown name j [] d = refl
lookup-add_shown name j (a ∷ rest) d = Dict.lookup-insert j name (a ∷ rest) d

module _ (ip_address : String → Option IpAddress) where
  abbrev pub shows : GuestInterface → Bool
  unfolding is_shown addresses any
  shows interface = any (is_shown ip_address) (addresses interface)

  -- The shown addresses of the last interface with the name that has some.
  abbrev pub last_shown : String → List GuestInterface → Option (List String)
  unfolding is_shown addresses filter any
  last_shown name [] = none
  last_shown name (interface ∷ rest) = elim (last_shown name rest) [
    | some found ↦ some found
    | none ↦
        if shows interface && str_eq interface.name name
        then some (filter (is_shown ip_address) (addresses interface))
        else none
  ]

  lookup-gather :
      (name : String) (interfaces : List GuestInterface) (result : Dict (List String))
      → Dict.lookup name (gather ip_address interfaces result) ≡ elim (last_shown name interfaces) [
        | some found ↦ some found
        | none ↦ Dict.lookup name result
      ]
  unfolding gather last_shown
  lookup-gather name [] result = refl
  lookup-gather name (interface ∷ rest) result = ground (
    arith,
    lookup-gather name rest
        (add_shown interface.name (filter (is_shown ip_address) (addresses interface)) result),
    lookup-add_shown name interface.name (filter (is_shown ip_address) (addresses interface))
        result,
    is_cons-filter (is_shown ip_address) (addresses interface),
  )

  -- Under the name of an interface stand the shown addresses of the last interface with this name that
  -- has some, and under any other name nothing.
  pub lookup-guest_addresses :
      (name : String) (interfaces : List GuestInterface)
      → Dict.lookup name (guest_addresses ip_address interfaces) ≡ last_shown name interfaces
  unfolding guest_addresses Dict.lookup
  lookup-guest_addresses name interfaces = ground (arith, lookup-gather name interfaces [])
