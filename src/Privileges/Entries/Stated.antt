-- ===== src/Privileges/Entries/Stated.antt =====
-- What `entries` of script/generate_privileges.py writes for a route.
use aioproxmox.Prelude.{
  ◌≡◌, refl, sym, subst, ◌⊎◌, inl, inr, Bool, true, ◌||◌, Option, none, some, is_some, List, [],
  ◌∷◌, any, eq_iff, Bool-cases, arith, if◌then◌else◌,
}
use aioproxmox.Errors.{ok, >>=-eq-ok}
use aioproxmox.Value.{Value}
use aioproxmox.Privileges.Generator.{SchemaAlternative, alternatives, grants, alternatives-grants}
use aioproxmox.Privileges.Entries.{
  Route, eq_Route, stated_check, Table, lookup, insert, add_check, add_routes, entries,
}

eq_Route-same : (r s : Route) → eq_Route r s ≡ true → r ≡ s
eq_Route-same r s e =
    let m : r.method ≡ s.method = (eq_iff r.method s.method).0 (ground arith) in
    let p : r.path ≡ s.path = (eq_iff r.path s.path).0 (ground arith) in cc

eq_Route-refl : (r : Route) → eq_Route r r ≡ true
eq_Route-refl r = ground (arith, eq_iff r.method r.method, eq_iff r.path r.path)

lookup-insert :
    (r s : Route) (found : List SchemaAlternative) (t : Table)
    → lookup s (insert r found t) ≡ (if eq_Route r s then some found else lookup s t)
unfolding lookup insert
lookup-insert r s found [] = refl
lookup-insert r s found ((q, old) ∷ t) = ground (
  arith,
  lookup-insert r s found t,
  eq_iff q.method r.method,
  eq_iff q.path r.path,
  eq_iff q.method s.method,
  eq_iff q.path s.path,
  eq_iff r.method s.method,
  eq_iff r.path s.path,
)

module _ (api : Value) (s : Route) where
  -- What stands for a route is the check that the schema states for it, flattened.
  abbrev Fits : Option (List SchemaAlternative) → Type 0
  Fits none = Unit
  Fits (some found) =
      (check : Value) × (stated_check api s ≡ ok (some check)) × (alternatives check ≡ ok found)

  -- The route has been looked at.
  abbrev Seen : Option (List SchemaAlternative) → Type 0
  Seen o = (stated_check api s ≡ ok none) ⊎ (is_some o ≡ true)

  Fits-inserted :
      (r : Route) (check : Value) (found : List SchemaAlternative)
      (o : Option (List SchemaAlternative))
      → stated_check api r ≡ ok (some check)
      → alternatives check ≡ ok found
      → Fits o
      → Fits (if eq_Route r s then some found else o)
  Fits-inserted r check found o e a f = elim (Bool-cases (eq_Route r s)) [
    | inl same ↦
        rw same
          (check, subst (λ q. stated_check api q ≡ ok (some check)) (eq_Route-same r s same) e, a)
    | inr other ↦ rw other f
  ]

  add_check-Fits :
      (r : Route) (o : Option Value) (t t' : Table)
      → stated_check api r ≡ ok o
      → add_check r o t ≡ ok t'
      → Fits (lookup s t)
      → Fits (lookup s t')
  unfolding add_check
  add_check-Fits r none t t' e h f = subst (λ u. Fits (lookup s u)) (cc) f
  add_check-Fits r (some check) t t' e h f =
      let (found, a, same) = >>=-eq-ok (alternatives check) _ h in
      let kept : insert r found t ≡ t' = cc in
      subst (λ u. Fits (lookup s u)) kept
        (subst Fits (sym (lookup-insert r s found t))
          (Fits-inserted r check found (lookup s t) e a f))

  add_check-Seen :
      (r : Route) (o : Option Value) (t t' : Table)
      → add_check r o t ≡ ok t'
      → Seen (lookup s t)
      → Seen (lookup s t')
  unfolding add_check
  add_check-Seen r none t t' h seen = subst (λ u. Seen (lookup s u)) (cc) seen
  add_check-Seen r (some check) t t' h (inl e) = inl e
  add_check-Seen r (some check) t t' h (inr e) =
      let (found, a, same) = >>=-eq-ok (alternatives check) _ h in
      let kept : insert r found t ≡ t' = cc in
      inr (
        subst (λ u. is_some (lookup s u) ≡ true) kept
          (ground (arith, lookup-insert r s found t, e)))

  -- A round for the route itself has looked at it.
  add_check-itself :
      (o : Option Value) (t t' : Table)
      → stated_check api s ≡ ok o
      → add_check s o t ≡ ok t'
      → Seen (lookup s t')
  unfolding add_check
  add_check-itself none t t' e h = inl e
  add_check-itself (some check) t t' e h =
      let (found, a, same) = >>=-eq-ok (alternatives check) _ h in
      let kept : insert s found t ≡ t' = cc in
      inr (
        subst (λ u. is_some (lookup s u) ≡ true) kept
          (ground (arith, lookup-insert s s found t, eq_Route-refl s)))

  Seen-add_check :
      (r : Route) (o : Option Value) (t t' : Table) (routes : List Route)
      → stated_check api r ≡ ok o
      → add_check r o t ≡ ok t'
      → Seen (lookup s t) ⊎ (eq_Route r s || any (λ q. eq_Route q s) routes ≡ true)
      → Seen (lookup s t') ⊎ (any (λ q. eq_Route q s) routes ≡ true)
  Seen-add_check r o t t' routes e a (inl seen) = inl (add_check-Seen r o t t' a seen)
  Seen-add_check r o t t' routes e a (inr there) = elim (Bool-cases (eq_Route r s)) [
    | inr other ↦ inr (ground (arith, there, other))
    | inl same ↦
        let is_s = eq_Route-same r s same in
        inl (
          add_check-itself o t t' (subst (λ q. stated_check api q ≡ ok o) is_s e)
            (subst (λ q. add_check q o t ≡ ok t') is_s a))
  ]

  add_routes-Seen :
      (routes : List Route) (t t' : Table)
      → add_routes api routes t ≡ ok t'
      → Fits (lookup s t)
      → Seen (lookup s t) ⊎ (any (λ r. eq_Route r s) routes ≡ true)
      → Fits (lookup s t') × Seen (lookup s t')
  unfolding add_routes any
  add_routes-Seen [] t t' h f (inl seen) =
      let same : t ≡ t' = cc in subst (λ u. Fits (lookup s u) × Seen (lookup s u)) same (f, seen)
  add_routes-Seen [] t t' h f (inr e) = absurd (cc)
  add_routes-Seen (r ∷ routes) t t' h f seen =
      let (o, e, h1) = >>=-eq-ok (stated_check api r) _ h in
      let (t1, a, h2) = >>=-eq-ok (add_check r o t) _ h1 in
      add_routes-Seen routes t1 t' h2 (add_check-Fits r o t t1 e a f)
        (Seen-add_check r o t t1 routes e a seen)

-- What the table says of a route: nothing where the schema states no check, and else alternatives of which
-- one is allowed exactly when the check is granted.
abbrev pub Says :
    (SchemaAlternative → Bool) → Value → Route → Option (List SchemaAlternative) → Type 0
Says allows api s none = stated_check api s ≡ ok none
Says allows api s (some found) =
    (check : Value) × (stated_check api s ≡ ok (some check))
    × (any allows found ≡ grants allows check)

said :
    (allows : SchemaAlternative → Bool) (api : Value) (s : Route)
    (o : Option (List SchemaAlternative))
    → Fits api s o
    → Seen api s o
    → Says allows api s o
said allows api s none f (inl e) = e
said allows api s none f (inr e) = absurd (cc)
said allows api s (some found) (check, e, a) seen =
    (check, e, alternatives-grants allows check found a)

-- Where the table is written, it has for each route that the library calls nothing if the schema states no
-- check for it, and else the check's alternatives: some of them is allowed exactly when the check as the
-- schema means it, with `or` nested to any depth, is granted.
pub entries-grants :
    (allows : SchemaAlternative → Bool) (api : Value) (routes : List Route) (table : Table)
    (s : Route)
    → entries api routes ≡ ok table
    → any (λ r. eq_Route r s) routes ≡ true
    → Says allows api s (lookup s table)
unfolding entries lookup
entries-grants allows api routes table s e there =
    let (f, seen) = add_routes-Seen api s routes [] table e tt (inr there) in
    said allows api s (lookup s table) f seen
