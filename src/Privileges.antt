-- ===== src/Privileges.antt =====
-- aioproxmox/privileges.py: what Proxmox requires before it answers a route.
pub mod Checks
pub mod Matching
pub mod Generator
pub mod Entries
use aioproxmox.Prelude.{
  String, Bool, true, false, ◌&&◌, Option, none, some, List, [], ◌∷◌, map, str_eq, if◌then◌else◌,
}
use aioproxmox.Prelude.Text
use aioproxmox.Prelude.Text.{◌+++◌}
use aioproxmox.Prelude.Dict
use aioproxmox.Prelude.Dict.{Dict}
use aioproxmox.Privileges.Checks.{Alternative, Entry, checks}

pub record Privileges : Type 0 where
  pub path : String
  pub privileges : List String
  pub any_of : Bool

pub record Check : Type 0 where
  pub alternatives : List Privileges

-- `['perm','/vms/101',['VM.PowerMgmt']]`
unfoldable pub render_privileges : Privileges → String
unfolding Text.join
render_privileges p =
    let privileges = Text.join "," (map (λ privilege. "'" +++ privilege +++ "'") p.privileges) in
    let tail = if p.any_of then ",'any',1" else "" in
    "['perm','" +++ p.path +++ "',[" +++ privileges +++ "]" +++ tail +++ "]"

unfoldable pub render : Check → String
unfolding Text.join render_privileges
render c = Text.join " or " (map render_privileges c.alternatives)

-- `for name, value in values.items(): path = path.replace(f"{{{name}}}", str(value))`, the values as
-- they are formatted
unfoldable pub fill : Dict String → String → String
unfolding Text.replace
fill [] path = path
fill ((name, value) ∷ values) path = fill values (Text.replace ("{" +++ name +++ "}") value path)

unfoldable pub substitute_path : Dict String → Privileges → Privileges
unfolding fill
substitute_path values p = record p { path = fill values p.path }

unfoldable pub substitute : Dict String → Check → Check
unfolding substitute_path
substitute values c = record { alternatives = map (substitute_path values) c.alternatives }

-- `_check`
unfoldable pub check_of : List Alternative → Check
check_of entry = record {
  alternatives =
      map (λ a. record { path = a.path; privileges = a.privileges; any_of = a.any_of }) entry;
}

-- `_check(entry) if entry else None`: an entry that is empty is none.
abbrev pub check_if : List Alternative → Option Check
unfolding check_of
check_if [] = none
check_if (a ∷ rest) = some (check_of (a ∷ rest))

-- `CHECKS.get((method.upper(), path))`
unfoldable pub find_entry : List Entry → String → String → Option Entry
unfolding Text.eq_upper
find_entry [] method path = none
find_entry (e ∷ rest) method path =
    if Text.eq_upper method e.method && str_eq path e.template
    then some e
    else find_entry rest method path

-- `path.strip("/")`
abbrev pub strip_slashes : String → String
strip_slashes path = Text.rstrip Text.is_slash (Text.lstrip Text.is_slash path)

unfoldable pub required_privileges : String → String → Option Check
unfolding find_entry check_of Text.rstrip Text.lstrip
required_privileges method path = elim (find_entry checks method (strip_slashes path)) [
  | none ↦ none
  | some e ↦ check_if e.alternatives
]

-- The `for` over the segments and the parts, of which there are equally many: the values filled in,
-- none where it breaks.
unfoldable pub match_segments : List String → List String → Dict String → Option (Dict String)
unfolding Text.placeholder Dict.insert
match_segments [] [] filled = some filled
match_segments [] (part ∷ parts) filled = none
match_segments (segment ∷ segments) [] filled = none
match_segments (segment ∷ segments) (part ∷ parts) filled = elim (Text.placeholder segment) [
  | some name ↦ match_segments segments parts (Dict.insert name part filled)
  | none ↦ elim (str_eq segment part) [ true ↦ match_segments segments parts filled | false ↦ none ]
]

-- The loop over the entries.
unfoldable pub search_entries : List Entry → String → List String → Dict String → Option Check
unfolding Text.eq_upper Text.split match_segments check_of substitute
search_entries [] method parts values = none
search_entries (e ∷ rest) method parts values = elim (Text.eq_upper method e.method) [
  | false ↦ search_entries rest method parts values
  | true ↦ elim (match_segments (Text.split b'/' e.template) parts values) [
    | none ↦ search_entries rest method parts values
    | some filled ↦ some (substitute filled (check_of e.alternatives))
  ]
]

unfoldable pub privileges_for : String → String → Dict String → Option Check
unfolding Text.rstrip Text.lstrip Text.split search_entries
privileges_for method path values =
    search_entries checks method (Text.split b'/' (strip_slashes path)) values
