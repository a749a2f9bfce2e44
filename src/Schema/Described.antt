-- ===== src/Schema/Described.antt =====
-- What a tree of nodes says of a path, and what `flatten` of script/refresh_pve_api.py takes from one
-- node.
use aioproxmox.Prelude.{
  ◌≡◌, refl, ◌∙◌, subst, ℕ, ◌+◌, ◌≤◌, String, Bool, true, false, Option, none, some, List, [], ◌∷◌,
  ◌++◌, str_eq, eq_iff, Option-cases, inl, inr, arith, if◌then◌else◌,
}
use aioproxmox.Prelude.Dict
use aioproxmox.Prelude.Dict.{Dict, last, lookup-insert}
use aioproxmox.Errors.{Result, ok, err, >>=-eq-ok}
use aioproxmox.Value.{Value, Items, Fields, arr, obj, nil, cons, end, field}
use aioproxmox.Schema.Flatten.{
  Entry, entry_of, Methods, Routes, set_method, path_of, methods_of_node, add_methods, add_node,
}

-- The nodes of a tree, each before those under it.
unfoldable mutual
  pub all_nodes : Items → List Value
  all_nodes nil = []
  all_nodes (cons node nodes) = node ∷ nodes_in node ++ all_nodes nodes

  pub nodes_in : Value → List Value
  nodes_in (obj fs) = nodes_under fs
  nodes_in _ = []

  pub nodes_under : Fields → List Value
  nodes_under end = []
  nodes_under (field k v fs) = elim (str_eq k "children") [
    | true ↦ nodes_of v
    | false ↦ nodes_under fs
  ]

  pub nodes_of : Value → List Value
  nodes_of (arr vs) = all_nodes vs
  nodes_of _ = []

module _ (path : String) where
  -- Whether a node states the path as its own.
  unfoldable pub stands_at : Value → Bool
  stands_at node = elim (path_of node) [ ok p ↦ str_eq p path | err e ↦ false ]

  unfoldable pub times : List Value → ℕ
  unfolding stands_at
  times [] = 0
  times (node ∷ nodes) = (if stands_at node then 1 else 0) + times nodes

  pub times-append : (xs ys : List Value) → times (xs ++ ys) ≡ times xs + times ys
  unfolding times
  times-append [] ys = omega arith
  times-append (x ∷ xs) ys = omega (arith, times-append xs ys)

  -- What stands under a path, after all that was written there.
  module _ (method : String) where
    -- What the node itself says of a method: the last entry of its info under that name.
    unfoldable pub own_entry : Value → Option Entry
    unfolding last
    own_entry node = elim (methods_of_node node) [
      | err e ↦ none
      | ok methods ↦ elim (last method methods) [
        | none ↦ none
        | some info ↦ elim (entry_of info) [ ok entry ↦ some entry | err e ↦ none ]
      ]
    ]

    -- What the tree says of it, by the first node at the path.
    unfoldable pub described : List Value → Option Entry
    unfolding own_entry stands_at
    described [] = none
    described (node ∷ nodes) = if stands_at node then own_entry node else described nodes

    abbrev pub method_in : Option Methods → Option Entry
    method_in none = none
    method_in (some methods) = Dict.lookup method methods

    abbrev pub kept : Routes → Option Entry
    kept routes = method_in (Dict.lookup path routes)

    pub described-passed : (xs ys : List Value) → times xs ≡ 0 → described (xs ++ ys) ≡ described ys
    unfolding described times
    described-passed [] ys h = refl
    described-passed (x ∷ xs) ys h = ground (arith, described-passed xs ys)

    pub described-met : (xs ys : List Value) → 1 ≤ times xs → described (xs ++ ys) ≡ described xs
    unfolding described times
    described-met [] ys h = absurd (omega arith)
    described-met (x ∷ xs) ys h = ground (arith, described-met xs ys)

    kept-set_method :
        (p m : String) (e : Entry) (r : Routes)
        → p ≡ path
        → kept (set_method p m e r) ≡ (if str_eq m method then some e else kept r)
    unfolding set_method Dict.lookup Dict.insert
    kept-set_method p m e r here = elim (Option-cases (Dict.lookup p r)) [
      | inl new ↦
          rw new
            (ground (arith, new, lookup-insert p path (Dict.insert m e []) r, eq_iff p path, here))
      | inr (d, there) ↦ rw there (
          ground (
            arith,
            there,
            here,
            lookup-insert p path (Dict.insert m e d) r,
            eq_iff p path,
            lookup-insert m method e d,
          ))
    ]

    -- What a node's loop over its methods leaves, where it stands at the path.
    add_methods-here :
        (node : Value) (d : Dict Value) (r r' : Routes)
        → path_of node ≡ ok path
        → add_methods node d r ≡ ok r'
        → kept r' ≡ (elim (last method d) [
          | none ↦ kept r
          | some info ↦ elim (entry_of info) [ ok entry ↦ some entry | err e ↦ none ]
        ])
    unfolding add_methods last
    add_methods-here node [] r r' at h = cc
    add_methods-here node ((m, info) ∷ d) r r' at h =
        let (e, made, h1) = >>=-eq-ok (entry_of info) _ h in
        let (p, here, h2) = >>=-eq-ok (path_of node) _ h1 in
        let same : p ≡ path = cc in
        let after = add_methods-here node d (set_method p m e r) r' at h2 in
        let now = kept-set_method p m e r same in ground (arith, after, now, made)

    pub add_node-here :
        (node : Value) (r own : Routes)
        → path_of node ≡ ok path
        → Dict.lookup path r ≡ none
        → add_node node r ≡ ok own
        → kept own ≡ own_entry node
    unfolding add_node own_entry
    add_node-here node r own at new h =
        let (d, info, h1) = >>=-eq-ok (methods_of_node node) _ h in
        let after = add_methods-here node d r own at h1 in
        let unset : kept r ≡ none = rw (kept, new) refl in ground (arith, after, info, unset)

  set_method-other :
      (p m : String) (e : Entry) (r : Routes)
      → str_eq p path ≡ false
      → Dict.lookup path (set_method p m e r) ≡ Dict.lookup path r
  unfolding set_method
  set_method-other p m e r other = lookup-insert p path _ r ∙ rw other refl

  stands_at-false :
      (node : Value) (p : String)
      → path_of node ≡ ok p
      → stands_at node ≡ false
      → str_eq p path ≡ false
  unfolding stands_at
  stands_at-false node p here at = cc

  add_methods-other :
      (node : Value) (d : Dict Value) (r r' : Routes)
      → stands_at node ≡ false
      → add_methods node d r ≡ ok r'
      → Dict.lookup path r' ≡ Dict.lookup path r
  unfolding add_methods
  add_methods-other node [] r r' at h = cc
  add_methods-other node ((m, info) ∷ d) r r' at h =
      let (e, made, h1) = >>=-eq-ok (entry_of info) _ h in
      let (p, here, h2) = >>=-eq-ok (path_of node) _ h1 in
      add_methods-other node d (set_method p m e r) r' at h2
      ∙ set_method-other p m e r (stands_at-false node p here at)

  pub add_node-other :
      (node : Value) (r own : Routes)
      → stands_at node ≡ false
      → add_node node r ≡ ok own
      → Dict.lookup path own ≡ Dict.lookup path r
  unfolding add_node
  add_node-other node r own at h =
      let (d, info, h1) = >>=-eq-ok (methods_of_node node) _ h in
      add_methods-other node d r own at h1

  pub stands_at-true : (node : Value) → stands_at node ≡ true → path_of node ≡ ok path
  unfolding stands_at
  stands_at-true node at = own (path_of node) refl at
    where
      own :
          (o : Result String)
          → path_of node ≡ o
          → elim o as (λ _. Bool) [ ok p ↦ str_eq p path | err e ↦ false ] ≡ true
          → path_of node ≡ ok path
      own (ok p) e at = subst (λ q. path_of node ≡ ok q) ((eq_iff p path).0 at) e
      own (err x) e at = absurd (cc)
