-- ===== src/Summary/Ports.antt =====
-- `NodeInterface.mac` and `node_mac_addresses` of aioproxmox/model/summary.py.
pub mod Addresses
use Prim.Native.Char.{code}
use Prim.Native.String
use aioproxmox.Prelude.{
  ℕ, zero, suc, String, Bool, true, false, ◌&&◌, ◌||◌, Option, none, some, List, [], ◌∷◌, ◌++◌, any,
  leb, str_eq, if◌then◌else◌,
}
use aioproxmox.Prelude.Text
use aioproxmox.Model.Health.{NodeInterface}

-- `[0-9a-f]`
abbrev pub is_hex : ℕ → Bool
is_hex n = (leb b'0' n && leb n b'9') || (leb b'a' n && leb n b'f')

-- `([0-9a-f]{n})$`: the digits, where they end the text or stand before its last line break.
unfoldable pub digits : ℕ → String → Option String
digits zero s = if str_eq s "" || str_eq s "\n" then some "" else none
digits (suc n) String.[] = none
digits (suc n) (String.◌∷◌ c s) = elim (is_hex (code c)) [
  | false ↦ none
  | true ↦ elim (digits n s) [ none ↦ none | some ds ↦ some (String.◌∷◌ c ds) ]
]

-- `":".join(digits[i : i + 2] for i in range(0, 12, 2))`
unfoldable pub pairs : String → String
pairs (String.◌∷◌ c (String.◌∷◌ d (String.◌∷◌ e s))) =
    String.◌∷◌ c (String.◌∷◌ d (String.◌∷◌ ":" (pairs (String.◌∷◌ e s))))
pairs s = s

-- MAC_ALTNAME.match(altname)
unfoldable pub mac_digits : String → Option String
unfolding Text.behind digits
mac_digits altname = elim (Text.behind "enx" altname) [ none ↦ none | some s ↦ digits 12 s ]

-- The loop over the alternative names.
unfoldable pub mac_of : List String → Option String
unfolding mac_digits pairs
mac_of [] = none
mac_of (altname ∷ rest) = elim (mac_digits altname) [
  | some ds ↦ some (pairs ds)
  | none ↦ mac_of rest
]

-- `self.type != "eth"`
unfoldable pub is_eth : Option String → Bool
is_eth none = false
is_eth (some s) = str_eq s "eth"

unfoldable pub mac : NodeInterface → Option String
unfolding is_eth mac_of
mac interface = if is_eth interface.type then mac_of interface.altnames else none

-- `if (mac := interface.mac) and mac not in found: found.append(mac)`
unfoldable pub add_mac : Option String → List String → List String
unfolding any
add_mac none found = found
add_mac (some m) found = if any (str_eq m) found then found else found ++ m ∷ []

unfoldable pub add_macs : List NodeInterface → List String → List String
unfolding mac add_mac
add_macs [] found = found
add_macs (interface ∷ rest) found = add_macs rest (add_mac (mac interface) found)

unfoldable pub node_mac_addresses : List NodeInterface → List String
unfolding add_macs
node_mac_addresses interfaces = add_macs interfaces []
