-- ===== src/Schema/Kept.antt =====
-- What `flatten` of script/refresh_pve_api.py keeps of the schema.
use aioproxmox.Prelude.{
  ◌≡◌, refl, sym, ap, ◌∙◌, subst, ◌≤◌, String, true, none, some, List, [], ◌∷◌, ◌++◌, str_eq,
  nonempty, Bool-cases, inl, inr, arith,
}
use aioproxmox.Prelude.Dict
use aioproxmox.Prelude.Dict.{Dict, distinct_keys, lookup-merge, last-distinct_keys}
use aioproxmox.Errors.{ok}
use aioproxmox.Value.{
  Value, Items, Fields, null, bool, int, float, str, arr, obj, nil, cons, end, field, truthy,
}
use aioproxmox.Schema.Flatten.{
  Routes, add_node, flatten_from, flatten, flatten_children, flatten_under, flatten_or_empty,
}
use aioproxmox.Schema.Described.{
  all_nodes, nodes_in, nodes_under, nodes_of, stands_at, times, times-append, described, kept,
  described-passed, described-met, add_node-here, add_node-other, stands_at-true,
}
use aioproxmox.Schema.Rounds.{round, no_nodes, flatten_children-distinct_keys}

module _ (path method : String) where
  -- What a run over nodes leaves at the path: nothing new where none stands there, and where one does,
  -- what that one says.
  record Leaves (nodes : List Value) (r r' : Routes) : Type 0 where
    passed : times path nodes ≡ 0 → Dict.lookup path r' ≡ Dict.lookup path r
    met :
        times path nodes ≤ 1
        → Dict.lookup path r ≡ none
        → kept path method r' ≡ described path method nodes

  -- `routes.update(found)`: the routes found under a node have each path once.
  lookup-update :
      (own found : Routes)
      → distinct_keys found ≡ true
      → Dict.lookup path (Dict.merge own found)
        ≡ elim (Dict.lookup path found) [ some d ↦ some d | none ↦ Dict.lookup path own ]
  lookup-update own found u =
      lookup-merge path own found ∙ rw (last-distinct_keys path found u) refl

  round-Leaves :
      (node : Value) (below rest : List Value) (r own found r' : Routes)
      → add_node node r ≡ ok own
      → distinct_keys found ≡ true
      → Leaves below [] found
      → Leaves rest (Dict.merge own found) r'
      → Leaves (node ∷ below ++ rest) r r'
  unfolding times described Dict.lookup
  round-Leaves node below rest r own found r' a u under after =
      let all = times-append path below rest in
      let updated = lookup-update own found u in
      elim (Bool-cases (stands_at path node)) [
        | inl here ↦
            let own_says = add_node-here path method node r own (stands_at-true path node here) in
            record {
              passed = λ none_there. absurd (ground (arith, here, none_there));
              met = λ once new.
                  ground
                    (arith, here, once, all, under.passed, after.passed, updated, own_says new a);
            }
        | inr other ↦
            let own_same = add_node-other path node r own other a in
            let skipped = described-passed path method below rest in
            let found_there = described-met path method below rest in
            record {
              passed = λ none_there.
                  ground
                    (arith, other, none_there, all, under.passed, after.passed, updated, own_same);
              met = λ once new. ground (
                arith, other, once, new, all, under.passed, under.met, after.passed, after.met,
                updated, own_same, skipped, found_there,
              );
            }
      ]

  none-Leaves : (r r' : Routes) → ok r ≡ ok r' → Leaves [] r r'
  unfolding times described Dict.lookup
  none-Leaves r r' h =
      let same : r ≡ r' = cc in
      record {
        passed = λ none_there. ap (Dict.lookup path) (sym same);
        met = λ once new. subst (λ q. kept path method q ≡ none) same (rw (kept, new) refl);
      }

  mutual
    unfolding flatten_from all_nodes

    flatten_from-Leaves :
        (nodes : Items) (r r' : Routes)
        → flatten_from nodes r ≡ ok r'
        → Leaves (all_nodes nodes) r r'
    flatten_from-Leaves nil r r' h = none-Leaves r r' h
    flatten_from-Leaves (cons node nodes) r r' h =
        let (own, found, a, c, rest) = round node nodes r r' h in
        round-Leaves node (nodes_in node) (all_nodes nodes) r own found r' a
          (flatten_children-distinct_keys node found c) (flatten_children-Leaves node found c)
          (flatten_from-Leaves nodes (Dict.merge own found) r' rest)

    flatten_children-Leaves :
        (node : Value) (r : Routes) → flatten_children node ≡ ok r → Leaves (nodes_in node) [] r
    flatten_children-Leaves (obj fs) r h = flatten_under-Leaves fs r h
    flatten_children-Leaves (arr vs) r h = absurd (cc)
    flatten_children-Leaves (str s) r h = absurd (cc)
    flatten_children-Leaves null r h = absurd (cc)
    flatten_children-Leaves (bool b) r h = absurd (cc)
    flatten_children-Leaves (int n) r h = absurd (cc)
    flatten_children-Leaves (float f) r h = absurd (cc)

    flatten_under-Leaves :
        (fs : Fields) (r : Routes) → flatten_under fs ≡ ok r → Leaves (nodes_under fs) [] r
    flatten_under-Leaves end r h = none-Leaves [] r h
    flatten_under-Leaves (field k v fs) r h = elim (Bool-cases (str_eq k "children")) [
      | inl here ↦
          rw (nodes_under, here) (flatten_or_empty-Leaves v r (rw (flatten_under, here) at h))
      | inr other ↦
          rw (nodes_under, other) (flatten_under-Leaves fs r (rw (flatten_under, other) at h))
    ]

    flatten_or_empty-Leaves :
        (v : Value) (r : Routes) → flatten_or_empty v ≡ ok r → Leaves (nodes_of v) [] r
    flatten_or_empty-Leaves (arr vs) r h = flatten_from-Leaves vs [] r h
    flatten_or_empty-Leaves (obj fs) r h = none-Leaves [] r (no_nodes (truthy (obj fs)) _ r h)
    flatten_or_empty-Leaves (str s) r h = none-Leaves [] r (no_nodes (nonempty s) _ r h)
    flatten_or_empty-Leaves null r h = none-Leaves [] r (no_nodes (truthy null) _ r h)
    flatten_or_empty-Leaves (bool b) r h = none-Leaves [] r (no_nodes (truthy (bool b)) _ r h)
    flatten_or_empty-Leaves (int n) r h = none-Leaves [] r (no_nodes (truthy (int n)) _ r h)
    flatten_or_empty-Leaves (float f) r h = none-Leaves [] r (no_nodes (truthy (float f)) _ r h)

-- Where the schema is flattened, and one node of its tree at most states a path as its own, at whatever
-- depth, the routes hold for each method under that path exactly the entry that this node's info gives
-- for it: its parameters in order and its check. Under a path that no node states there is none.
pub flatten-described :
    (nodes : Items) (routes : Routes) (path method : String)
    → flatten (arr nodes) ≡ ok routes
    → times path (all_nodes nodes) ≤ 1
    → kept path method routes ≡ described path method (all_nodes nodes)
unfolding flatten truthy all_nodes Dict.lookup
flatten-described nil routes path method h once =
    (none-Leaves path method [] routes (cc)).met once refl
flatten-described (cons node nodes) routes path method h once =
    (flatten_from-Leaves path method (cons node nodes) [] routes h).met once refl
