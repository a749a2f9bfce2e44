-- ===== src/Routes/Reading.antt =====
-- script/routes.py: the routes that the library calls, read out of the syntax tree of endpoints.py.
use mathlib.Core.Option.{map as map_some}
use aioproxmox.Prelude.{
  ℕ, String, Bool, false, ◌||◌, Option, none, some, List, [], ◌∷◌, ◌++◌, any, str_eq, if◌then◌else◌,
}
use aioproxmox.Prelude.Text
use aioproxmox.Prelude.Text.{◌+++◌}
use aioproxmox.Prelude.Dict
use aioproxmox.Prelude.Dict.{Dict}
use aioproxmox.Routes.Syntax.{
  Constant, text, literal, Node, Nodes, constant, joined_str, formatted_value, attribute, name,
  call, keyword, assign, dict, nil, cons, walk, size,
}

abbrev pub action : String
action = "\0"

abbrev pub factories : Dict String
factories =
    ("node_action", "nodes/{node}/" +++ action)
    ∷ ("qemu_action", "nodes/{node}/qemu/{vmid}/status/" +++ action)
    ∷ ("lxc_action", "nodes/{node}/lxc/{vmid}/status/" +++ action)
    ∷ []

abbrev pub placeholders : Dict String
placeholders = ("node", "{node}") ∷ ("vmid", "{vmid}") ∷ ("storage", "{storage}") ∷ []

-- `str(value)` of a constant
unfoldable pub str_Constant : Constant → String
str_Constant (text s) = s
str_Constant (literal s) = s

-- The placeholder for what an f-string formats: an attribute or a plain name.
unfoldable pub placeholder_of : Node → Option String
unfolding Dict.lookup
placeholder_of (attribute value attr) = Dict.lookup attr placeholders
placeholder_of (name id) = Dict.lookup id placeholders
placeholder_of _ = none

unfoldable pub part_of : Node → Option String
unfolding placeholder_of str_Constant
part_of (constant c) = some (str_Constant c)
part_of (formatted_value value format) = placeholder_of value
part_of _ = none

-- The loop over the values of an f-string.
unfoldable pub parts_of : Nodes → Option (List String)
unfolding part_of
parts_of nil = some []
parts_of (cons value values) = elim (part_of value) [
  | none ↦ none
  | some part ↦ map_some (λ parts. part ∷ parts) (parts_of values)
]

unfoldable pub template_of : Node → Option String
unfolding parts_of Text.join
template_of (constant (text s)) = some s
template_of (joined_str values) = map_some (Text.join "") (parts_of values)
template_of _ = none

-- `names.add(name)` on a set
unfoldable pub add : String → List String → List String
unfolding any
add x xs = if any (str_eq x) xs then xs else xs ++ x ∷ []

-- The loop over the keys of a dictionary that is spelled out.
unfoldable pub add_keys : Nodes → List String → List String
unfolding add
add_keys nil names = names
add_keys (cons (constant (text s)) keys) names = add_keys keys (add s names)
add_keys (cons key keys) names = add_keys keys names

abbrev pub carries_parameters : Option String → Bool
carries_parameters none = false
carries_parameters (some arg) = str_eq arg "json_data" || str_eq arg "params"

unfoldable pub add_parameters : Nodes → List String → List String
unfolding add_keys
add_parameters nil names = names
add_parameters (cons (keyword arg (dict keys values)) keywords) names =
    add_parameters keywords (if carries_parameters arg then add_keys keys names else names)
add_parameters (cons n keywords) names = add_parameters keywords names

unfoldable pub parameters_of : Nodes → List String
unfolding add_parameters
parameters_of keywords = add_parameters keywords []

-- One call that the library makes.
pub record Route : Type 0 where
  pub method : String
  pub path : String
  pub parameters : List String
  pub line : ℕ

-- `__repr__`
unfoldable pub repr : Route → String
unfolding Text.str_ℕ
repr r = r.method +++ " " +++ r.path +++ " (endpoints.py:" +++ Text.str_ℕ r.line +++ ")"

-- What the reader makes of a node: a route, a path that is built elsewhere, or nothing.
pub data Found : Type 0 where
  route : Route → Found
  indirect : Node → Found
  nothing : Found

-- A call of `request`, by its first two arguments.
unfoldable pub request_found : Constant → Node → Nodes → ℕ → Found
unfolding template_of parameters_of str_Constant
request_found method path keywords line = elim (template_of path) [
  | none ↦ indirect path
  | some p ↦ route (record {
    method = str_Constant method;
    path = p;
    parameters = parameters_of keywords;
    line = line;
  })
]

abbrev post : String → List String → ℕ → Found
post path parameters line =
    route (record { method = "POST"; path = path; parameters = parameters; line = line })

-- An assignment of what a factory makes of an action.
unfoldable pub factory_found : String → Constant → ℕ → Found
unfolding Dict.lookup Text.replace str_Constant
factory_found factory value line = elim (Dict.lookup factory factories) [
  | some template ↦ post (Text.replace action (str_Constant value) template) [] line
  | none ↦
      if str_eq factory "NodeStatusCommand"
      then post "nodes/{node}/status" ("command" ∷ []) line
      else nothing
]

-- The body of the loop over the nodes.
unfoldable pub read : Node → Found
unfolding request_found factory_found
read (call (attribute value attr) (cons (constant method) (cons path args)) keywords line) =
    if str_eq attr "request" then request_found method path keywords line else nothing
read (assign targets (call (name factory) (cons (constant value) args) keywords at) line) =
    factory_found factory value line
read _ = nothing

-- What `collect` returns.
pub record Collected : Type 0 where
  pub routes : List Route
  pub indirect : List String

-- `unparse` is `ast.unparse`, the source text of a node.
module _ (unparse : Node → String) where
  unfoldable pub record_found : Found → Collected → Collected
  unfolding add
  record_found (route r) c = record c { routes = c.routes ++ r ∷ [] }
  record_found (indirect n) c = record c { indirect = add (unparse n) c.indirect }
  record_found nothing c = c

  unfoldable pub collect_from : List Node → Collected → Collected
  unfolding record_found read
  collect_from [] c = c
  collect_from (n ∷ ns) c = collect_from ns (record_found (read n) c)

  -- The loop over the walk, whose fuel is the number of nodes.
  unfoldable pub collect : Node → Option Collected
  unfolding walk collect_from
  collect tree = elim (walk (size tree) (tree ∷ [])) [
    | none ↦ none
    | some ns ↦ some (collect_from ns (record { routes = []; indirect = [] }))
  ]
