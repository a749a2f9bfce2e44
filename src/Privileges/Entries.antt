-- ===== src/Privileges/Entries.antt =====
-- `entries` and `render` of script/generate_privileges.py: the table out of the schema.
pub mod Stated
use aioproxmox.Prelude.{
  String, Bool, true, false, ◌&&◌, ◌||◌, Option, none, some, List, [], ◌∷◌, map, str_eq,
  if◌then◌else◌,
}
use aioproxmox.Prelude.Text
use aioproxmox.Prelude.Text.{◌+++◌}
use aioproxmox.Prelude.Dict
use aioproxmox.Prelude.Sorting.{lt_text, sort_with}
use aioproxmox.Errors.{Result, ok, err, attribute_error, ◌>>=◌}
use aioproxmox.Value.{Value, null, obj, end, as_dict, get_of, truthy}
use aioproxmox.Client.Env.{str_Value}
use aioproxmox.Privileges.Generator.{SchemaAlternative, alternatives}

-- A route that the library calls, as script/routes.py finds it.
pub record Route : Type 0 where
  pub method : String
  pub path : String

abbrev pub eq_Route : Route → Route → Bool
eq_Route r s = str_eq r.method s.method && str_eq r.path s.path

-- `api.get(f"/{route.path}", {})`
unfoldable pub methods_of : Value → String → Result Value
unfolding as_dict Dict.lookup
methods_of api path = elim (as_dict api) [
  | none ↦ err (attribute_error "get")
  | some d ↦ ok (elim (Dict.lookup ("/" +++ path) d) [ none ↦ obj end | some v ↦ v ])
]

-- `check := info.get("check")`, where there is an info and the check is not empty
unfoldable pub check_in : Value → Result (Option Value)
unfolding get_of truthy
check_in null = ok none
check_in info = do check ← get_of info "check"; ok (if truthy check then some check else none)

unfoldable pub stated_check : Value → Route → Result (Option Value)
unfolding methods_of get_of check_in
stated_check api route = do
  methods ← methods_of api route.path
  info ← get_of methods route.method
  check_in info

abbrev pub Table : Type 0
Table = List (Route × List SchemaAlternative)

-- found[route] and found[route] = alternatives(check)
unfoldable pub lookup : Route → Table → Option (List SchemaAlternative)
lookup r [] = none
lookup r ((s, found) ∷ rest) = if eq_Route s r then some found else lookup r rest

unfoldable pub insert : Route → List SchemaAlternative → Table → Table
insert r found [] = (r, found) ∷ []
insert r found ((s, old) ∷ rest) =
    if eq_Route s r then (s, found) ∷ rest else (s, old) ∷ insert r found rest

-- What one round of the loop makes of the table.
unfoldable pub add_check : Route → Option Value → Table → Result Table
unfolding alternatives insert
add_check route none table = ok table
add_check route (some check) table = do found ← alternatives check; ok (insert route found table)

unfoldable pub add_routes : Value → List Route → Table → Result Table
unfolding stated_check add_check
add_routes api [] table = ok table
add_routes api (route ∷ routes) table = do
  check ← stated_check api route
  table' ← add_check route check table
  add_routes api routes table'

unfoldable pub entries : Value → List Route → Result Table
unfolding add_routes
entries api routes = add_routes api routes []

-- The order of `sorted(entries().items())`: no two entries have one key.
unfoldable pub precedes : Route × List SchemaAlternative → Route × List SchemaAlternative → Bool
unfolding lt_text
precedes (r, a) (s, b) =
    lt_text r.method s.method || (str_eq r.method s.method && lt_text r.path s.path)

abbrev one_name : List Value → Bool
one_name (name ∷ []) = true
one_name _ = false

module _ (repr : Value → String) where
  -- `", ".join(f'"{privilege}"' for privilege in privileges)` and the comma of a single one
  unfoldable pub names_text : List Value → String
  unfolding str_Value Text.join
  names_text privileges =
      Text.join ", " (map (λ p. "\"" +++ str_Value repr p +++ "\"") privileges)
      +++ (if one_name privileges then "," else "")

  unfoldable pub alternative_text : SchemaAlternative → String
  unfolding str_Value names_text Text.str_Bool
  alternative_text a =
      "        (\""
      +++ str_Value repr a.path
      +++ "\", ("
      +++ names_text a.privileges
      +++ "), "
      +++ Text.str_Bool a.any_of
      +++ "),\n"

  unfoldable pub entry_text : Route × List SchemaAlternative → String
  unfolding alternative_text Text.join
  entry_text (route, found) =
      "    (\""
      +++ route.method
      +++ "\", \""
      +++ route.path
      +++ "\"): (\n"
      +++ Text.join "" (map alternative_text found)
      +++ "    ),\n"

  -- `header` is the constant text in front of the table.
  unfoldable pub render_table : String → Table → String
  unfolding entry_text sort_with precedes Text.join
  render_table header table =
      header +++ Text.join "" (map entry_text (sort_with precedes table)) +++ "}\n"
