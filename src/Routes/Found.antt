-- ===== src/Routes/Found.antt =====
-- What `collect` of script/routes.py finds in a syntax tree.
use aioproxmox.Prelude.{
  ◌≡◌, refl, ap, ◌∙◌, ℕ, ◌+◌, ltb, String, Bool, ◌||◌, some, List, [], ◌∷◌, ◌++◌, any, filter,
  length, any-append, str_eq, eq_iff, arith, if◌then◌else◌,
}
use aioproxmox.Routes.Syntax.{Node, total}
use aioproxmox.Routes.Walk.{sum, walk-total}
use aioproxmox.Routes.Reading.{
  Route, Found, route, indirect, nothing, read, Collected, add, record_found, collect_from, collect,
}

-- How many routes with a property a node spells out: one at most.
unfoldable pub spelled : (Route → Bool) → Found → ℕ
spelled p (route r) = if p r then 1 else 0
spelled p _ = 0

module _ (unparse : Node → String) where
  -- Whether a node's path is built elsewhere, by a given text.
  unfoldable pub built_elsewhere : String → Found → ℕ
  built_elsewhere x (indirect n) = if str_eq x (unparse n) then 1 else 0
  built_elsewhere x _ = 0

  count-append :
      (p : Route → Bool) (rs : List Route) (r : Route)
      → length (filter p (rs ++ r ∷ [])) ≡ length (filter p rs) + (if p r then 1 else 0)
  unfolding filter
  count-append p [] r = ground arith
  count-append p (q ∷ rs) r = ground (arith, count-append p rs r)

  record_found-routes :
      (p : Route → Bool) (f : Found) (c : Collected)
      → length (filter p (record_found unparse f c).routes)
        ≡ length (filter p c.routes) + spelled p f
  unfolding record_found spelled
  record_found-routes p (route r) c = count-append p c.routes r
  record_found-routes p (indirect n) c = omega arith
  record_found-routes p nothing c = omega arith

  collect_from-routes :
      (p : Route → Bool) (ns : List Node) (c : Collected)
      → length (filter p (collect_from unparse ns c).routes)
        ≡ length (filter p c.routes) + sum (λ n. spelled p (read n)) ns
  unfolding collect_from sum
  collect_from-routes p [] c = omega arith
  collect_from-routes p (n ∷ ns) c = omega (
    arith,
    collect_from-routes p ns (record_found unparse (read n) c),
    record_found-routes p (read n) c,
  )

  any-add :
      (x y : String) (xs : List String)
      → any (str_eq x) (add y xs) ≡ any (str_eq x) xs || str_eq x y
  unfolding add any
  any-add x y xs = ground (arith, any-append (str_eq x) xs (y ∷ []), eq_iff x y)

  record_found-indirect :
      (x : String) (f : Found) (c : Collected)
      → any (str_eq x) (record_found unparse f c).indirect
        ≡ any (str_eq x) c.indirect || ltb 0 (built_elsewhere x f)
  unfolding record_found built_elsewhere
  record_found-indirect x (route r) c = ground arith
  record_found-indirect x (indirect n) c = ground (arith, any-add x (unparse n) c.indirect)
  record_found-indirect x nothing c = ground arith

  collect_from-indirect :
      (x : String) (ns : List Node) (c : Collected)
      → any (str_eq x) (collect_from unparse ns c).indirect
        ≡ any (str_eq x) c.indirect || ltb 0 (sum (λ n. built_elsewhere x (read n)) ns)
  unfolding collect_from sum
  collect_from-indirect x [] c = ground arith
  collect_from-indirect x (n ∷ ns) c = ground (
    arith,
    collect_from-indirect x ns (record_found unparse (read n) c),
    record_found-indirect x (read n) c,
  )

  -- The reader returns, whatever the syntax tree. Its routes with any property are as many as the nodes
  -- that spell such a route out, at whatever depth of the tree they stand, and a text is among its
  -- indirect paths exactly where some node builds its path elsewhere and reads as that text.
  pub collect_complete :
      (tree : Node)
      → (c : Collected) × (collect unparse tree ≡ some c)
        × ((p : Route → Bool) → length (filter p c.routes) ≡ total (λ n. spelled p (read n)) tree)
        × ((x : String)
            → any (str_eq x) c.indirect ≡ ltb 0 (total (λ n. built_elsewhere x (read n)) tree))
  unfolding collect filter any
  collect_complete tree =
      let (ns, e, same) = walk-total tree in
      let none_found : Collected = record { routes = []; indirect = [] } in
      (
        collect_from unparse ns none_found,
        rw (collect, e) refl,
        λ p. omega (arith, collect_from-routes p ns none_found, same (λ n. spelled p (read n))),
        λ x.
            collect_from-indirect x ns none_found
            ∙ ap (ltb 0) (same (λ n. built_elsewhere x (read n))),
      )
