-- ===== src/Schema/Written.antt =====
-- What `main` of script/refresh_pve_api.py writes, as it is read back.
use mathlib.Core.Option.{map as map_some}
use aioproxmox.Prelude.{
  ◌≡◌, refl, ap, ◌∙◌, String, true, Option, none, some, ltb, length, List, [], ◌∷◌, map, arith,
  if◌then◌else◌,
}
use aioproxmox.Prelude.Text.{◌+++◌}
use aioproxmox.Prelude.Dict
use aioproxmox.Prelude.Dict.{Dict, lookup-map, lookup-sorted_by}
use aioproxmox.Prelude.Sorting.{lt_text, sorted_by, length-sorted_by}
use aioproxmox.Errors.{ok}
use aioproxmox.Value.{
  Value, Items, Fields, null, bool, int, float, str, arr, obj, nil, cons, end, field, fields,
  as_dict, get, get_of, truthy,
}
use aioproxmox.Schema.Flatten.{Entry, Methods, Routes}
use aioproxmox.Schema.Described.{kept, method_in}
use aioproxmox.Privileges.Entries.{Route, methods_of, check_in, stated_check}

abbrev pub of_dict : Dict Value → Fields
of_dict [] = end
of_dict ((k, v) ∷ d) = field k v (of_dict d)

abbrev pub of_list : List Value → Items
of_list [] = nil
of_list (v ∷ vs) = cons v (of_list vs)

-- A dictionary as `sort_keys=True` writes it.
unfoldable pub sorted_dict : Dict Value → Value
unfolding sorted_by lt_text
sorted_dict d = obj (of_dict (sorted_by (λ p. p.0) d))

unfoldable mutual
  -- A value as `json.dumps` with `sort_keys=True` writes it and `json.loads` reads it back.
  pub sort_keys : Value → Value
  sort_keys (obj fs) = sorted_dict (sort_fields fs)
  sort_keys (arr vs) = arr (sort_items vs)
  sort_keys v = v

  pub sort_fields : Fields → Dict Value
  sort_fields end = []
  sort_fields (field k v fs) = (k, sort_keys v) ∷ sort_fields fs

  pub sort_items : Items → Items
  sort_items nil = nil
  sort_items (cons v vs) = cons (sort_keys v) (sort_items vs)

-- The entry of a method: `check` is there only where the schema states one.
unfoldable pub entry_dict : List Value → Option Value → Dict Value
unfolding sort_keys
entry_dict names none = ("parameters", sort_keys (arr (of_list names))) ∷ []
entry_dict names (some check) =
    ("check", sort_keys check) ∷ ("parameters", sort_keys (arr (of_list names))) ∷ []

unfoldable pub entry_value : Entry → Value
unfolding sorted_dict entry_dict
entry_value e = sorted_dict (entry_dict e.parameters e.check)

unfoldable pub methods_value : Methods → Value
unfolding sorted_dict entry_value
methods_value methods = sorted_dict (map (λ p. (p.0, entry_value p.1)) methods)

unfoldable pub written : Routes → Value
unfolding sorted_dict methods_value
written routes = sorted_dict (map (λ p. (p.0, methods_value p.1)) routes)

fields-of_dict : (d : Dict Value) → fields (of_dict d) ≡ d
unfolding fields
fields-of_dict [] = refl
fields-of_dict ((k, v) ∷ d) = ap (λ q. (k, v) ∷ q) (fields-of_dict d)

as_dict-sorted_dict : (d : Dict Value) → as_dict (sorted_dict d) ≡ some (sorted_by (λ p. p.0) d)
unfolding sorted_dict as_dict
as_dict-sorted_dict d = ap some (fields-of_dict _)

get_of-some :
    (v : Value) (d : Dict Value) (k : String) → as_dict v ≡ some d → get_of v k ≡ ok (get k d)
unfolding get_of
get_of-some v d k e = rw (get_of, e) refl

get-sorted_by : (k : String) (d : Dict Value) → get k (sorted_by (λ p. p.0) d) ≡ get k d
unfolding get
get-sorted_by k d = rw (get, lookup-sorted_by k d) refl

get_of-sorted_dict : (d : Dict Value) (k : String) → get_of (sorted_dict d) k ≡ ok (get k d)
get_of-sorted_dict d k = get_of-some _ _ k (as_dict-sorted_dict d) ∙ ap ok (get-sorted_by k d)

-- An entry as it is read, or what stands for a missing one.
abbrev entry_or_null : Option Entry → Value
entry_or_null none = null
entry_or_null (some e) = entry_value e

abbrev methods_or_empty : Option Methods → Value
methods_or_empty none = obj end
methods_or_empty (some methods) = methods_value methods

methods_of-some :
    (v : Value) (d : Dict Value) (path : String)
    → as_dict v ≡ some d
    → methods_of v path
      ≡ ok (elim (Dict.lookup ("/" +++ path) d) as (λ _. Value) [ none ↦ obj end | some v ↦ v ])
unfolding methods_of
methods_of-some v d path e = rw (methods_of, e) refl

methods_or_empty-map :
    (o : Option Methods)
    → elim (elim o as (λ _. Option Value) [ none ↦ none | some m ↦ some (methods_value m) ])
        as (λ _. Value) [ none ↦ obj end | some v ↦ v ]
      ≡ methods_or_empty o
methods_or_empty-map none = refl
methods_or_empty-map (some methods) = refl

methods_of-written :
    (routes : Routes) (path : String)
    → methods_of (written routes) path ≡ ok (methods_or_empty (Dict.lookup ("/" +++ path) routes))
unfolding written
methods_of-written routes path =
    let d = map (λ p. (p.0, methods_value p.1)) routes in
    methods_of-some (sorted_dict d) _ path (as_dict-sorted_dict d)
    ∙ rw (lookup-sorted_by ("/" +++ path) d, lookup-map methods_value ("/" +++ path) routes)
        (ap ok (methods_or_empty-map (Dict.lookup ("/" +++ path) routes)))

entry_or_null-map :
    (o : Option Entry)
    → elim (elim o as (λ _. Option Value) [ none ↦ none | some e ↦ some (entry_value e) ])
        as (λ _. Value) [ none ↦ null | some v ↦ v ]
      ≡ entry_or_null o
entry_or_null-map none = refl
entry_or_null-map (some e) = refl

get_of-methods_or_empty :
    (o : Option Methods) (path method : String)
    → get_of (methods_or_empty o) method ≡ ok (entry_or_null (method_in path method o))
unfolding methods_value get get_of as_dict fields Dict.lookup
get_of-methods_or_empty none path method = refl
get_of-methods_or_empty (some methods) path method =
    get_of-sorted_dict (map (λ p. (p.0, entry_value p.1)) methods) method
    ∙ rw (get, lookup-map entry_value method methods)
        (ap ok (entry_or_null-map (Dict.lookup method methods)))

truthy-of_dict : (d : Dict Value) → truthy (obj (of_dict d)) ≡ ltb 0 (length d)
unfolding truthy
truthy-of_dict [] = refl
truthy-of_dict ((k, v) ∷ d) = ground arith

truthy-sorted_dict : (d : Dict Value) → truthy (sorted_dict d) ≡ ltb 0 (length d)
unfolding sorted_dict
truthy-sorted_dict d = truthy-of_dict _ ∙ ap (ltb 0) (length-sorted_by (λ p. p.0) d)

truthy-sort_keys : (v : Value) → truthy (sort_keys v) ≡ truthy v
unfolding truthy sort_keys
truthy-sort_keys (obj end) = truthy-sorted_dict []
truthy-sort_keys (obj (field k v fs)) =
    truthy-sorted_dict ((k, sort_keys v) ∷ sort_fields fs) ∙ ground arith
truthy-sort_keys (arr nil) = refl
truthy-sort_keys (arr (cons v vs)) = refl
truthy-sort_keys (str s) = refl
truthy-sort_keys null = refl
truthy-sort_keys (bool b) = refl
truthy-sort_keys (int n) = refl
truthy-sort_keys (float f) = refl

-- The check of an entry, or none.
abbrev pub check_of_entry : Option Entry → Option Value
check_of_entry none = none
check_of_entry (some e) = e.check

-- Every check that is kept is there.
abbrev pub Truthy : Option Entry → Type 0
Truthy o = (check : Value) → check_of_entry o ≡ some check → truthy check ≡ true

-- `check_in` of what is a dictionary
check_in-dict :
    (fs : Fields) (c : Value)
    → get "check" (fields fs) ≡ c
    → check_in (obj fs) ≡ ok (if truthy c then some c else none)
unfolding check_in get_of as_dict
check_in-dict fs c e = ap (λ v. ok (if truthy v then some v else none)) e

check_in-sorted_dict :
    (d : Dict Value)
    → check_in (sorted_dict d) ≡ ok (if truthy (get "check" d) then some (get "check" d) else none)
unfolding sorted_dict
check_in-sorted_dict d =
    check_in-dict _ _ (ap (get "check") (fields-of_dict _) ∙ get-sorted_by "check" d)

check_in-stated :
    (d : Dict Value) (c : Value)
    → get "check" d ≡ c
    → truthy c ≡ true
    → check_in (sorted_dict d) ≡ ok (some c)
check_in-stated d c e t = check_in-sorted_dict d ∙ rw (e, t) refl

check_in-entry :
    (names : List Value) (o : Option Value)
    → ((check : Value) → o ≡ some check → truthy check ≡ true)
    → check_in (entry_value (record { parameters = names; check = o })) ≡ ok (map_some sort_keys o)
unfolding entry_value entry_dict get Dict.lookup truthy
check_in-entry names none t = check_in-sorted_dict (entry_dict names none)
check_in-entry names (some c) t =
    check_in-stated (entry_dict names (some c)) (sort_keys c) refl (truthy-sort_keys c ∙ t c refl)

check_in-entry_or_null :
    (o : Option Entry)
    → Truthy o
    → check_in (entry_or_null o) ≡ ok (map_some sort_keys (check_of_entry o))
unfolding check_in entry_value get
check_in-entry_or_null none t = refl
check_in-entry_or_null (some e) t = check_in-entry e.parameters e.check t

-- Where the routes are written with their keys sorted and read back, the check that generate_privileges
-- finds stated for a method and a path is the one that stands in the routes.
pub stated_check-written :
    (routes : Routes) (r : Route)
    → Truthy (kept ("/" +++ r.path) r.method routes)
    → stated_check (written routes) r
      ≡ ok (map_some sort_keys (check_of_entry (kept ("/" +++ r.path) r.method routes)))
unfolding stated_check
stated_check-written routes r t = rw (methods_of-written routes r.path) (
    rw (get_of-methods_or_empty (Dict.lookup ("/" +++ r.path) routes) ("/" +++ r.path) r.method)
      (check_in-entry_or_null (kept ("/" +++ r.path) r.method routes) t))
