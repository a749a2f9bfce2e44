-- ===== src/Guests/Addresses/Primary.antt =====
-- What `primary_address` of aioproxmox/model/guest.py answer.
use aioproxmox.Prelude.{
  String, ◌≡◌, refl, ◌∙◌, Bool, true, false, not, ◌||◌, Option, none, some, List, [], ◌∷◌, ◌++◌,
  filter, any, any-append, ◌==◌, is_some, arith, Option-cases, inl, inr,
}
use aioproxmox.Prelude.Dict
use aioproxmox.Prelude.Dict.{Dict}
use aioproxmox.Errors.{ok}
use aioproxmox.Model.Guests.{GuestInterface}
use aioproxmox.Guests.Addresses.Listed.{is_cons, is_cons-filter, shows}
use aioproxmox.Guests.Addresses.{
  IpAddress, addresses, values, add_shown, is_shown, gather, guest_addresses, is_v4, first_v4,
  first_address, primary_address,
}

abbrev head_or : String → List String → String
head_or default [] = default
head_or default (a ∷ rest) = a

-- The first of a list.
abbrev pub head : List String → Option String
head [] = none
head (a ∷ rest) = some a

head_or-head :
    (a : String) (found front : List String) → some (head_or a front) ≡ head (front ++ a ∷ found)
head_or-head a found [] = refl
head_or-head a found (b ∷ front) = refl

any-values-insert :
    (p : String → Bool) (name : String) (found : List String) (d : Dict (List String))
    → any p found ≡ false
    → any p (values d) ≡ false
    → any p (values (Dict.insert name found d)) ≡ false
unfolding any values Dict.insert
any-values-insert p name found [] h k = ground (arith, any-append p found [])
any-values-insert p name found ((j, old) ∷ d) h k = ground (
  arith,
  any-append p found (values d),
  any-append p old (values d),
  any-append p old (values (Dict.insert name found d)),
  any-values-insert p name found d,
)

some-values-insert :
    (p : String → Bool) (name : String) (found : List String) (d : Dict (List String))
    → any p found ≡ true
    → any p (values (Dict.insert name found d)) ≡ true
unfolding any values Dict.insert
some-values-insert p name found [] h = ground (arith, any-append p found [])
some-values-insert p name found ((j, old) ∷ d) h = ground (
  arith,
  any-append p found (values d),
  any-append p old (values (Dict.insert name found d)),
  some-values-insert p name found d,
)

module _ (ip_address : String → Option IpAddress) where
  not_shown : String → Bool
  unfolding is_shown
  not_shown a = not (is_shown ip_address a)

  any-add_shown :
      (name : String) (found : List String) (d : Dict (List String))
      → any not_shown found ≡ false
      → any not_shown (values d) ≡ false
      → any not_shown (values (add_shown name found d)) ≡ false
  unfolding add_shown
  any-add_shown name [] d h k = k
  any-add_shown name (a ∷ rest) d h k = any-values-insert not_shown name (a ∷ rest) d h k

  none_hidden : (xs : List String) → any not_shown (filter (is_shown ip_address) xs) ≡ false
  unfolding any filter not_shown
  none_hidden [] = refl
  none_hidden (x ∷ xs) = ground (arith, none_hidden xs)

  all_shown-gather :
      (interfaces : List GuestInterface) (result : Dict (List String))
      → any not_shown (values result) ≡ false
      → any not_shown (values (gather ip_address interfaces result)) ≡ false
  unfolding gather
  all_shown-gather [] result h = h
  all_shown-gather (i ∷ rest) result h =
      all_shown-gather rest (add_shown i.name (filter (is_shown ip_address) (addresses i)) result) (
        any-add_shown i.name (filter (is_shown ip_address) (addresses i)) result
          (none_hidden (addresses i)) h)

  always : String → Bool
  always a = true

  some-add_shown :
      (name : String) (found : List String) (d : Dict (List String))
      → any always (values (add_shown name found d)) ≡ is_cons found || any always (values d)
  unfolding add_shown always any
  some-add_shown name [] d = refl
  some-add_shown name (a ∷ rest) d = some-values-insert always name (a ∷ rest) d refl

  some-gather :
      (interfaces : List GuestInterface) (result : Dict (List String))
      → any always (values (gather ip_address interfaces result))
        ≡ any (shows ip_address) interfaces || any always (values result)
  unfolding gather any
  some-gather [] result = refl
  some-gather (i ∷ rest) result =
      let found = filter (is_shown ip_address) (addresses i) in
      ground (
        arith,
        some-gather rest (add_shown i.name found result),
        some-add_shown i.name found result,
        is_cons-filter (is_shown ip_address) (addresses i),
      )

  -- Whether an address is an IPv4 address.
  abbrev pub v4 : String → Bool
  v4 a = elim (ip_address a) [ none ↦ false | some parsed ↦ parsed.version == 4 ]

  is_v4-ok : (a : String) → not_shown a ≡ false → is_v4 ip_address a ≡ ok (v4 a)
  unfolding is_v4 not_shown is_shown
  is_v4-ok a h = elim (Option-cases (ip_address a)) [
    | inl e ↦ absurd (ground arith)
    | inr (parsed, e) ↦ ground (arith)
  ]

  first_v4-ok :
      (default : String) (found : List String)
      → any not_shown found ≡ false
      → first_v4 ip_address default found ≡ ok (head_or default (filter v4 found))
  unfolding first_v4 any filter
  first_v4-ok default [] h = refl
  first_v4-ok default (a ∷ found) h = ground (arith, is_v4-ok a, first_v4-ok default found)

  first_address-ok :
      (found : List String)
      → any not_shown found ≡ false
      → first_address ip_address found ≡ ok (head (filter v4 found ++ found))
  unfolding first_address filter
  first_address-ok [] h = refl
  first_address-ok (a ∷ found) h =
      rw (first_v4-ok a (a ∷ found) h, head_or-head a found (filter v4 (a ∷ found)))

  is_some-head :
      (front found : List String) → is_some (head (front ++ found)) ≡ any always (front ++ found)
  unfolding any always
  is_some-head [] [] = refl
  is_some-head [] (a ∷ found) = refl
  is_some-head (b ∷ front) found = refl

  any-front :
      (p : String → Bool) (found : List String)
      → any always (filter p found ++ found) ≡ any always found
  unfolding any filter always
  any-front p [] = refl
  any-front p (a ∷ found) = ground (arith, any-append always (filter p (a ∷ found)) (a ∷ found))

  -- The primary address is always found out: it is the first of the shown addresses that is IPv4, or else
  -- the first of them, and there is none exactly when no interface shows an address.
  pub primary_address_lem :
      (interfaces : List GuestInterface)
      → let shown = values (guest_addresses ip_address interfaces) in
        (primary_address ip_address interfaces ≡ ok (head (filter v4 shown ++ shown)))
        × (is_some (head (filter v4 shown ++ shown)) ≡ any (shows ip_address) interfaces)
  unfolding primary_address guest_addresses any values
  primary_address_lem interfaces =
      let shown = values (gather ip_address interfaces []) in
      (
        first_address-ok shown (all_shown-gather interfaces [] refl),
        is_some-head (filter v4 shown) shown
            ∙ any-front v4 shown
            ∙ ground (arith, some-gather interfaces []),
      )
