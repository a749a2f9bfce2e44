-- ===== src/Tests/Schema.antt =====
-- The generators on a small syntax tree and a small schema.
use aioproxmox.Prelude.{
  ◌≡◌, refl, String, some, [], ◌∷◌, arith, length, filter, any, str_eq, ltb, Bool, false,
}
use aioproxmox.Errors.{ok, err, value_error, attribute_error, key_error}
use aioproxmox.Value.{Value, Items, str, arr, obj, int, nil, cons, end, field}
use aioproxmox.Prelude.{pos}
use aioproxmox.Prelude.Dict
use aioproxmox.Routes.Syntax
use aioproxmox.Routes.Syntax.{Node, total, children}
use aioproxmox.Routes.Reading
use aioproxmox.Routes.Reading.{template_of, read, collect, Collected}
use aioproxmox.Routes.Pieces.{path_values}
use aioproxmox.Routes.Templates.{plain, evaluate, fill-template_of}
use aioproxmox.Privileges.{fill}
use aioproxmox.Prelude.Text
use aioproxmox.Prelude.{if◌then◌else◌}
use aioproxmox.Routes.Found.{spelled, built_elsewhere, collect_complete}
use aioproxmox.Schema.Flatten.{Entry, Routes, flatten, fetch, add_node, path_of}
use aioproxmox.Schema.Described.{all_nodes, times, described, kept}
use aioproxmox.Schema.Kept.{flatten-described}
use aioproxmox.Schema.Written.{written, sort_keys, check_of_entry}
use aioproxmox.Schema.Generated.{entries_of, entries_of-described}
use aioproxmox.Privileges.Generator.{SchemaAlternative, grants, shape_of, leaf}
use aioproxmox.Privileges.Entries.{Route, Table, lookup}
use mathlib.Core.Option.{map as map_some}

abbrev lit : String → Node
lit s = Syntax.constant (Syntax.text s)

abbrev self_node : Node
self_node = Syntax.attribute (Syntax.name "self") "node"

abbrev status_path : Node
status_path = Syntax.joined_str (
    Syntax.cons (lit "nodes/") (
      Syntax.cons (Syntax.formatted_value self_node Syntax.nil)
        (Syntax.cons (lit "/status") Syntax.nil)))

-- `self.client.request("GET", f"nodes/{self.node}/status", params={"full": 1})`
abbrev status_call : Node
status_call =
    Syntax.call (Syntax.attribute (Syntax.attribute (Syntax.name "self") "client") "request")
      (Syntax.cons (lit "GET") (Syntax.cons status_path Syntax.nil))
      (Syntax.cons
        (Syntax.keyword (some "params") (
          Syntax.dict (Syntax.cons (lit "full") Syntax.nil)
            (Syntax.cons (Syntax.constant (Syntax.literal "1")) Syntax.nil)))
        Syntax.nil)
      12

-- `start = qemu_action("start")`
abbrev start_assign : Node
start_assign =
    Syntax.assign (Syntax.cons (Syntax.name "start") Syntax.nil)
      (Syntax.call (Syntax.name "qemu_action") (Syntax.cons (lit "start") Syntax.nil) Syntax.nil 20)
      20

-- `client.request("POST", self.path)`
abbrev indirect_call : Node
indirect_call =
    Syntax.call (Syntax.attribute (Syntax.name "client") "request")
      (Syntax.cons (lit "POST")
        (Syntax.cons (Syntax.attribute (Syntax.name "self") "path") Syntax.nil))
      Syntax.nil 30

abbrev module_tree : Node
module_tree = Syntax.other (
    Syntax.cons
      (Syntax.other (Syntax.cons (Syntax.other (Syntax.cons status_call Syntax.nil)) Syntax.nil))
      (Syntax.cons start_assign (Syntax.cons indirect_call Syntax.nil)))

status_template : template_of status_path ≡ some "nodes/{node}/status"
unfolding template_of Reading.placeholder_of
status_template = refl

abbrev as_self_path : Node → String
as_self_path _ = "self.path"

abbrev found_routes : Collected
found_routes = record {
  routes =
      record {
        method = "POST";
        path = "nodes/{node}/qemu/{vmid}/status/start";
        parameters = [];
        line = 20;
      }
      ∷ record { method = "GET"; path = "nodes/{node}/status"; parameters = "full" ∷ []; line = 12 }
      ∷ [];
  indirect = "self.path" ∷ [];
}

collected : collect as_self_path module_tree ≡ some found_routes
unfolding collect total
collected = refl

collect_complete_example :
    (c : Collected) × (collect as_self_path module_tree ≡ some c)
    × ((p : Reading.Route → Bool)
        → length (filter p c.routes) ≡ total (λ n. spelled p (read n)) module_tree)
    × ((x : String)
        → any (str_eq x) c.indirect
          ≡ ltb 0 (total (λ n. built_elsewhere as_self_path x (read n)) module_tree))
collect_complete_example = collect_complete as_self_path module_tree

abbrev audit : Value
audit =
    arr
      (cons (str "perm") (cons (str "/nodes/{node}") (cons (arr (cons (str "Sys.Audit") nil)) nil)))

-- What the schema says of a method.
abbrev status_info : Value
status_info = obj (
    field "parameters"
      (obj (field "properties" (obj (field "node" (obj end) (field "full" (obj end) end))) end))
      (field "permissions" (obj (field "check" audit end)) end))

-- `/nodes` without methods, and `/nodes/{node}/status` under it.
abbrev status_schema : Value
status_schema = obj (
    field "path" (str "/nodes/{node}/status")
      (field "info" (obj (field "GET" status_info end)) end))

abbrev nodes_schema : Items
nodes_schema =
    cons (obj (field "path" (str "/nodes") (field "children" (arr (cons status_schema nil)) end)))
      nil

abbrev status_entry : Entry
status_entry = record { parameters = str "full" ∷ str "node" ∷ []; check = some audit }

abbrev flat_routes : Routes
flat_routes = ("/nodes/{node}/status", ("GET", status_entry) ∷ []) ∷ []

flattened : flatten (arr nodes_schema) ≡ ok flat_routes
unfolding flatten add_node Dict.merge
flattened = refl

fetched :
    (fetch (λ s. ok (str s)) "const apiSchema = [\n 1\n]\n;\nlet x;" ≡ ok (str "[\n 1\n]"))
    × (fetch (λ s. ok (str s)) "const apiSchema = {}" ≡ err value_error)
unfolding fetch
fetched = (refl, refl)

refused_schemas :
    (flatten (arr (cons (str "a") nil)) ≡ err (attribute_error "get"))
    × (flatten (arr (cons (obj (field "info" (obj (field "GET" (obj end) end)) end)) nil))
        ≡ err (key_error "path"))
    × (flatten (arr (cons (obj (field "children" (int (pos 0)) end)) nil)) ≡ ok [])
unfolding flatten add_node Dict.merge
refused_schemas = (refl, refl, refl)

flatten-described_example :
    kept "/nodes/{node}/status" "GET" flat_routes
    ≡ described "/nodes/{node}/status" "GET" (all_nodes nodes_schema)
unfolding times all_nodes path_of
flatten-described_example =
    flatten-described nodes_schema flat_routes "/nodes/{node}/status" "GET" flattened (omega arith)

abbrev status_route : Route
status_route = record { method = "GET"; path = "nodes/{node}/status" }

abbrev alternative : SchemaAlternative
alternative = record {
  path = str "/nodes/{node}";
  privileges = str "Sys.Audit" ∷ [];
  any_of = false;
}

abbrev table : Table
table = (status_route, alternative ∷ []) ∷ []

generated : entries_of as_self_path (written flat_routes) module_tree ≡ some (ok table)
unfolding entries_of total written shape_of leaf
generated = refl

entries_of-described_example :
    map_some (any (λ a. a.any_of)) (lookup status_route table)
    ≡ map_some
        (λ check. grants (λ a. a.any_of) (sort_keys check))
        (check_of_entry (described "/nodes/{node}/status" "GET" (all_nodes nodes_schema)))
unfolding total times all_nodes path_of spelled read
entries_of-described_example =
    entries_of-described (λ a. a.any_of) as_self_path module_tree nodes_schema flat_routes table
      status_route flattened generated (omega arith) (omega arith)

abbrev on_pve : String → String
on_pve k = if str_eq k "node" then "pve" else "101"

fill-template_of_example :
    fill (path_values on_pve) "nodes/{node}/status" ≡ evaluate on_pve status_path
unfolding Text.has_char plain Reading.str_Constant
fill-template_of_example =
    fill-template_of on_pve status_path "nodes/{node}/status" status_template refl refl

evaluated : evaluate on_pve status_path ≡ "nodes/pve/status"
unfolding evaluate Reading.str_Constant
evaluated = refl
