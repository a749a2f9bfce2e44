-- ===== src/Schema/Generated.antt =====
-- The refreshed schema, the routes of endpoints.py and the table of privileges, one after the other.
use mathlib.Core.Option.{map as map_some}
use aioproxmox.Prelude.{
  ◌≡◌, refl, sym, ap, ◌∙◌, subst, ◌≤◌, String, Bool, true, Option, none, some, List, [], ◌∷◌, map,
  any, any-map, any-of-filter, arith, Bool-cases, inl, inr, if◌then◌else◌,
}
use aioproxmox.Prelude.Text.{◌+++◌}
use aioproxmox.Prelude.Dict
use aioproxmox.Errors.{Result, ok, err, >>=-eq-ok}
use aioproxmox.Value.{Value, Items, arr, get_of, truthy}
use aioproxmox.Schema.Flatten.{
  Entry, Routes, entry_of, or_empty, sorted_names, methods_of_node, flatten,
}
use aioproxmox.Schema.Described.{all_nodes, times, stands_at, own_entry, described}
use aioproxmox.Schema.Kept.{flatten-described}
use aioproxmox.Schema.Written.{sort_keys, written, check_of_entry, Truthy, stated_check-written}
use aioproxmox.Routes.Syntax.{Node, total}
use aioproxmox.Routes.Reading
use aioproxmox.Routes.Reading.{read, collect}
use aioproxmox.Routes.Found.{spelled, collect_complete}
use aioproxmox.Privileges.Generator.{SchemaAlternative, grants}
use aioproxmox.Privileges.Entries.{Route, eq_Route, stated_check, Table, lookup, entries}
use aioproxmox.Privileges.Entries.Stated.{Says, entries-grants}

-- The key that a route has in the table.
abbrev pub route_key : Reading.Route → Route
route_key r = record { method = r.method; path = r.path }

-- `entries` with the routes that `collect` finds.
unfoldable pub entries_of : (Node → String) → Value → Node → Option (Result Table)
unfolding entries collect
entries_of unparse api tree =
    map_some (λ c. entries api (map route_key c.routes)) (collect unparse tree)

stated_check-truthy :
    (k check : Value) → (if truthy k then some k else none) ≡ some check → truthy check ≡ true
stated_check-truthy k check h = elim (Bool-cases (truthy k)) [
  | inl there ↦
      let same : some k ≡ some check = rw there at h in
      let found : k ≡ check = cc in subst (λ v. truthy v ≡ true) found there
  | inr not_there ↦ let same : none ≡ some check = rw not_there at h in absurd (cc)
]

entry_of-Truthy : (info : Value) (e : Entry) → entry_of info ≡ ok e → Truthy (some e)
unfolding entry_of
entry_of-Truthy info e h check there =
    let (p, a, h1) = >>=-eq-ok (get_of info "parameters") _ h in
    let (q, b, h2) = >>=-eq-ok (get_of (or_empty p) "properties") _ h1 in
    let (names, c, h3) = >>=-eq-ok (sorted_names (or_empty q)) _ h2 in
    let (s, d, h4) = >>=-eq-ok (get_of info "permissions") _ h3 in
    let (k, f, h5) = >>=-eq-ok (get_of (or_empty s) "check") _ h4 in
    let stored : (if truthy k then some k else none) ≡ e.check = cc in
    stated_check-truthy k check (stored ∙ there)

read_entry-Truthy :
    (o : Option Value)
    → Truthy (elim o as (λ _. Option Entry) [
      | none ↦ none
      | some info ↦ elim (entry_of info) as (λ _. Option Entry) [
        | ok entry ↦ some entry
        | err e ↦ none
      ]
    ])
read_entry-Truthy none check there = absurd (cc)
read_entry-Truthy (some info) check there = entry (entry_of info) refl there
  where
    entry :
        (o : Result Entry)
        → entry_of info ≡ o
        → check_of_entry (elim o as (λ _. Option Entry) [ ok entry ↦ some entry | err e ↦ none ])
          ≡ some check
        → truthy check ≡ true
    entry (ok e) made there = entry_of-Truthy info e made check there
    entry (err e) made there = absurd (cc)

own_entry-Truthy : (path method : String) (node : Value) → Truthy (own_entry path method node)
unfolding own_entry
own_entry-Truthy path method node = own (methods_of_node node)
  where
    own :
        (o : Result (Dict.Dict Value))
        → Truthy (elim o as (λ _. Option Entry) [
          | err e ↦ none
          | ok methods ↦ elim (Dict.last method methods) as (λ _. Option Entry) [
            | none ↦ none
            | some info ↦ elim (entry_of info) as (λ _. Option Entry) [
              | ok entry ↦ some entry
              | err e ↦ none
            ]
          ]
        ])
    own (err e) check there = absurd (cc)
    own (ok methods) check there = read_entry-Truthy (Dict.last method methods) check there

described-Truthy :
    (path method : String) (nodes : List Value) → Truthy (described path method nodes)
unfolding described
described-Truthy path method [] check there = absurd (cc)
described-Truthy path method (node ∷ nodes) check there = elim (Bool-cases (stands_at path node)) [
  | inl here ↦ own_entry-Truthy path method node check (rw (described, here) at there)
  | inr other ↦ described-Truthy path method nodes check (rw (described, other) at there)
]

-- Where the schema is flattened, written and read back, and one node of its tree at most states a route's
-- path, generate_privileges finds for the route's method the check that this node states, and none
-- where it states none or no node states the path.
pub stated_check-described :
    (nodes : Items) (routes : Routes) (r : Route)
    → flatten (arr nodes) ≡ ok routes
    → times ("/" +++ r.path) (all_nodes nodes) ≤ 1
    → stated_check (written routes) r
      ≡ ok (
          map_some sort_keys
            (check_of_entry (described ("/" +++ r.path) r.method (all_nodes nodes))))
stated_check-described nodes routes r h once =
    let kept_is = flatten-described nodes routes ("/" +++ r.path) r.method h once in
    let there = described-Truthy ("/" +++ r.path) r.method (all_nodes nodes) in
    stated_check-written routes r (subst Truthy (sym kept_is) there)
    ∙ ap (λ o. ok (map_some sort_keys (check_of_entry o))) kept_is

module _ (allows : SchemaAlternative → Bool) where
  -- What the table says of a route is what the check stated for it says.
  Says-equal :
      (api : Value) (r : Route) (o : Option Value) (t : Option (List SchemaAlternative))
      → stated_check api r ≡ ok o
      → Says allows api r t
      → map_some (any allows) t ≡ map_some (grants allows) o
  Says-equal api r o none stated says =
      let same : none ≡ o = cc in ap (map_some (grants allows)) same
  Says-equal api r o (some found) stated (check, e, agree) =
      let same : some check ≡ o = cc in ap some agree ∙ ap (map_some (grants allows)) same

  map_some-sort_keys :
      (o : Option Value)
      → map_some (grants allows) (map_some sort_keys o)
        ≡ map_some (λ check. grants allows (sort_keys check)) o
  map_some-sort_keys none = refl
  map_some-sort_keys (some check) = refl

-- The run of both generators, one after the other: where the schema is flattened, written and read back, and
-- the table is written from it for the routes that the reader finds, a route that some node of the syntax
-- tree spells out, and whose path one node of the schema at most states, has alternatives in the table exactly
-- where the schema states a check for it, and some of them is allowed exactly when that check is granted.
pub entries_of-described :
    (allows : SchemaAlternative → Bool) (unparse : Node → String) (tree : Node) (nodes : Items)
    (routes : Routes) (table : Table) (r : Route)
    → flatten (arr nodes) ≡ ok routes
    → entries_of unparse (written routes) tree ≡ some (ok table)
    → 1 ≤ total (λ n. spelled (λ q. eq_Route (route_key q) r) (read n)) tree
    → times ("/" +++ r.path) (all_nodes nodes) ≤ 1
    → map_some (any allows) (lookup r table)
      ≡ map_some
          (λ check. grants allows (sort_keys check))
          (check_of_entry (described ("/" +++ r.path) r.method (all_nodes nodes)))
unfolding entries_of
entries_of-described allows unparse tree nodes routes table r flat made spelt once =
    let (c, e, count, rest) = collect_complete unparse tree in
    let found = rw e at made in
    let run : entries (written routes) (map route_key c.routes) ≡ ok table = cc in
    let there =
      any-map (λ q. eq_Route q r) route_key c.routes
      ∙ any-of-filter (λ q. eq_Route (route_key q) r) c.routes
          (omega (arith, count (λ q. eq_Route (route_key q) r), spelt)) in
    let says = entries-grants allows (written routes) (map route_key c.routes) table r run there in
    Says-equal allows (written routes) r _ (lookup r table)
      (stated_check-described nodes routes r flat once) says
    ∙ map_some-sort_keys allows _
