-- ===== src/Schema/Flatten.antt =====
-- `fetch` and `flatten` of script/refresh_pve_api.py: the routes out of Proxmox's API schema.
use aioproxmox.Prelude.{
  ◌+◌, ℕ, String, Bool, true, false, Option, none, some, List, [], ◌∷◌, map, str_eq, nonempty,
  length, if◌then◌else◌,
}
use aioproxmox.Prelude.Text
use aioproxmox.Prelude.Text.{◌+++◌}
use aioproxmox.Prelude.Dict
use aioproxmox.Prelude.Dict.{Dict}
use aioproxmox.Prelude.Sorting.{sorted_by}
use aioproxmox.Errors.{Result, ok, err, attribute_error, type_error, value_error, ◌>>=◌}
use aioproxmox.Value.{
  Value, Items, Fields, str, arr, obj, nil, cons, end, field, items, fields, as_dict, as_str,
  get_of, subscript, truthy,
}
use aioproxmox.Endpoints.Calls.{chars, iterate}

-- `text.index(part)`
unfoldable pub index_of : String → String → Result ℕ
unfolding Text.index
index_of part s = elim (Text.index part s) [ none ↦ err value_error | some i ↦ ok i ]

-- `fetch` from the text that the page answers; `loads` is `json.loads`.
unfoldable pub fetch : (String → Result Value) → String → Result Value
unfolding index_of Text.take Text.drop
fetch loads page = do
  begins ← index_of "[" page
  ends ← index_of "\n]\n;" page
  loads (Text.drop begins (Text.take (ends + 2) page))

-- `value or {}`
unfoldable pub or_empty : Value → Value
unfolding truthy
or_empty value = if truthy value then value else obj end

unfoldable pub all_texts : List Value → Bool
all_texts [] = true
all_texts (str s ∷ vs) = all_texts vs
all_texts (v ∷ vs) = false

abbrev pub text_of : Value → String
text_of (str s) = s
text_of _ = ""

-- `sorted` of a list: of texts, or of one item at most. Other items are taken to have no order, as
-- None and dictionaries do not.
unfoldable pub sorted_list : List Value → Result (List Value)
unfolding all_texts sorted_by
sorted_list [] = ok []
sorted_list (v ∷ []) = ok (v ∷ [])
sorted_list (v ∷ w ∷ vs) =
    if all_texts (v ∷ w ∷ vs) then ok (sorted_by text_of (v ∷ w ∷ vs)) else err type_error

-- `sorted(properties)`: the keys of a dictionary.
unfoldable pub sorted_names : Value → Result (List Value)
unfolding sorted_by fields items sorted_list chars
sorted_names (obj fs) = ok (map (λ p. str p.0) (sorted_by (λ p. p.0) (fields fs)))
sorted_names (arr vs) = sorted_list (items vs)
sorted_names (str s) = ok (sorted_by text_of (chars s))
sorted_names _ = err type_error

-- What is kept of a method: its parameters' names, and its check where it states one.
pub record Entry : Type 0 where
  pub parameters : List Value
  pub check : Option Value

unfoldable pub entry_of : Value → Result Entry
unfolding get_of or_empty sorted_names truthy
entry_of info = do
  parameters ← get_of info "parameters"
  properties ← get_of (or_empty parameters) "properties"
  names ← sorted_names (or_empty properties)
  permissions ← get_of info "permissions"
  check ← get_of (or_empty permissions) "check"
  ok (record { parameters = names; check = if truthy check then some check else none })

abbrev pub Methods : Type 0
Methods = Dict Entry

abbrev pub Routes : Type 0
Routes = Dict Methods

-- `routes.setdefault(path, {})[method] = entry`
unfoldable pub set_method : String → String → Entry → Routes → Routes
unfolding Dict.lookup Dict.insert
set_method path method entry routes =
    let methods : Methods = elim (Dict.lookup path routes) [ none ↦ [] | some found ↦ found ] in
    Dict.insert path (Dict.insert method entry methods) routes

-- `node["path"]`, the key of a dictionary whose keys are texts: anything else is refused.
unfoldable pub path_of : Value → Result String
unfolding subscript
path_of node = do
  path ← subscript node "path"
  elim (as_str path) [ none ↦ err type_error | some s ↦ ok s ]

-- `(node.get("info") or {}).items()`
unfoldable pub methods_of_node : Value → Result (Dict Value)
unfolding get_of or_empty as_dict
methods_of_node node = do
  info ← get_of node "info"
  elim (as_dict (or_empty info)) [ none ↦ err (attribute_error "items") | some d ↦ ok d ]

-- The loop over the methods of a node.
unfoldable pub add_methods : Value → Dict Value → Routes → Result Routes
unfolding entry_of path_of set_method
add_methods node [] routes = ok routes
add_methods node ((method, info) ∷ rest) routes = do
  entry ← entry_of info
  path ← path_of node
  add_methods node rest (set_method path method entry routes)

unfoldable pub add_node : Value → Routes → Result Routes
unfolding methods_of_node add_methods
add_node node routes = do methods ← methods_of_node node; add_methods node methods routes

unfoldable mutual
  -- The loop over the nodes.
  pub flatten_from : Items → Routes → Result Routes
  flatten_from nil routes = ok routes
  flatten_from (cons node nodes) routes = elim (add_node node routes) [
    | err e ↦ err e
    | ok own ↦ elim (flatten_children node) [
      | err e ↦ err e
      | ok found ↦ flatten_from nodes (Dict.merge own found)
    ]
  ]

  -- `flatten(node.get("children") or [])`
  pub flatten_children : Value → Result Routes
  flatten_children (obj fs) = flatten_under fs
  flatten_children _ = err (attribute_error "get")

  pub flatten_under : Fields → Result Routes
  flatten_under end = ok []
  flatten_under (field k v fs) = elim (str_eq k "children") [
    | true ↦ flatten_or_empty v
    | false ↦ flatten_under fs
  ]

  -- `flatten(value or [])`: the keys of a dictionary and the characters of a text are texts, which
  -- have no `get`.
  pub flatten_or_empty : Value → Result Routes
  flatten_or_empty (arr vs) = flatten_from vs []
  flatten_or_empty (obj fs) = if truthy (obj fs) then err (attribute_error "get") else ok []
  flatten_or_empty (str s) = if nonempty s then err (attribute_error "get") else ok []
  flatten_or_empty v = if truthy v then err type_error else ok []

-- `flatten(nodes)`, where an empty text or dictionary is no node and what is no sequence is refused.
unfoldable pub flatten : Value → Result Routes
unfolding truthy iterate flatten_from
flatten nodes =
    if truthy nodes then flatten_or_empty nodes else (do none_there ← iterate nodes; ok [])

-- The lengths that `main` prints.
unfoldable pub pairs : Routes → ℕ
pairs [] = 0
pairs ((path, methods) ∷ rest) = length methods + pairs rest

unfoldable pub summary : String → Routes → String
unfolding pairs Text.str_ℕ
summary target routes =
    target
    +++ ": "
    +++ Text.str_ℕ (length routes)
    +++ " paths, "
    +++ Text.str_ℕ (pairs routes)
    +++ " method and path pairs"

-- `main` up to what it writes: the routes.
unfoldable pub refresh : (String → Result Value) → String → Result Routes
unfolding fetch flatten
refresh loads page = do nodes ← fetch loads page; flatten nodes
