-- ===== src/Privileges/Generator.antt =====
-- script/generate_privileges.py: the ways in which one check of the schema can be satisfied.
use aioproxmox.Prelude.{
  any-append, ◌≡◌, refl, ◌∙◌, subst, Bool, false, ◌||◌, List, [], ◌∷◌, ◌++◌, any, str_eq, arith,
  if◌then◌else◌,
}
use aioproxmox.Errors.{
  Error, Result, ok, err, unsupported_check, index_error, key_error, type_error, ◌>>=◌,
}
use aioproxmox.Value.{Value, Items, null, bool, int, float, str, arr, obj, nil, cons, truthy}
use aioproxmox.Endpoints.Calls.{iterate}

-- The path and the privileges as the schema writes them.
pub record SchemaAlternative : Type 0 where
  pub path : Value
  pub privileges : List Value
  pub any_of : Bool

-- `"any" in check[3:]`
unfoldable pub names_any : Items → Bool
names_any nil = false
names_any (cons (str s) rest) = str_eq s "any" || names_any rest
names_any (cons v rest) = names_any rest

-- A leaf, without its first item: `check[1]`, `tuple(check[2])` and the rest.
unfoldable pub leaf : Items → Result SchemaAlternative
unfolding iterate names_any
leaf (cons path (cons privileges rest)) = do
  names ← iterate privileges
  ok (record { path = path; privileges = names; any_of = names_any rest })
leaf _ = err index_error

-- Which shape the first item names.
pub data Shape : Type 0 where
  perm either unknown : Shape

unfoldable pub shape_of : Value → Shape
shape_of (str s) =
    if str_eq s "perm" then Shape.perm else if str_eq s "or" then Shape.either else Shape.unknown
shape_of _ = Shape.unknown

-- A check that is no list: an empty one, a text or a dictionary, and what cannot be indexed.
unfoldable pub not_a_list : Value → Error
unfolding truthy
not_a_list (obj fs) = if truthy (obj fs) then key_error "0" else unsupported_check
not_a_list (str s) = unsupported_check
not_a_list v = if truthy v then type_error else unsupported_check

unfoldable mutual
  pub alternatives : Value → Result (List SchemaAlternative)
  alternatives (arr nil) = err unsupported_check
  alternatives (arr (cons kind rest)) = elim (shape_of kind) [
    | Shape.perm ↦ elim (leaf rest) [ ok a ↦ ok (a ∷ []) | err e ↦ err e ]
    | Shape.either ↦ alternatives_of rest
    | Shape.unknown ↦ err unsupported_check
  ]
  alternatives v = err (not_a_list v)

  -- `found += alternatives(part)` over the parts
  pub alternatives_of : Items → Result (List SchemaAlternative)
  alternatives_of nil = ok []
  alternatives_of (cons part rest) = elim (alternatives part) [
    | err e ↦ err e
    | ok found ↦ elim (alternatives_of rest) [ err e ↦ err e | ok others ↦ ok (found ++ others) ]
  ]

appended :
    (p q : Result (List SchemaAlternative)) (found : List SchemaAlternative)
    → elim p [ err e ↦ err e | ok xs ↦ elim q [ err e ↦ err e | ok ys ↦ ok (xs ++ ys) ] ] ≡ ok found
    → (xs : List SchemaAlternative) × (ys : List SchemaAlternative) × (p ≡ ok xs)
      × (q ≡ ok ys)
      × (xs ++ ys ≡ found)
appended (ok xs) (ok ys) found h = (xs, ys, refl, refl, cc)
appended (ok xs) (err e) found h = absurd (cc)
appended (err e) q found h = absurd (cc)

module _ (allows : SchemaAlternative → Bool) where
  unfoldable mutual
    -- How the schema means a check: a leaf by itself, `or` where one part is granted.
    pub grants : Value → Bool
    grants (arr nil) = false
    grants (arr (cons kind rest)) = elim (shape_of kind) [
      | Shape.perm ↦ elim (leaf rest) [ ok a ↦ allows a | err e ↦ false ]
      | Shape.either ↦ grants_one rest
      | Shape.unknown ↦ false
    ]
    grants v = false

    pub grants_one : Items → Bool
    grants_one nil = false
    grants_one (cons part rest) = grants part || grants_one rest

  mutual
    unfolding alternatives grants any

    alternatives-granted :
        (check : Value) (found : List SchemaAlternative)
        → alternatives check ≡ ok found
        → any allows found ≡ grants check
    alternatives-granted (arr nil) found h = absurd (cc)
    alternatives-granted (arr (cons kind rest)) found h =
        ground (arith, alternatives_of-granted rest found)
    alternatives-granted null found h = absurd (cc)
    alternatives-granted (bool b) found h = absurd (cc)
    alternatives-granted (int n) found h = absurd (cc)
    alternatives-granted (float f) found h = absurd (cc)
    alternatives-granted (str s) found h = absurd (cc)
    alternatives-granted (obj fs) found h = absurd (cc)

    alternatives_of-granted :
        (parts : Items) (found : List SchemaAlternative)
        → alternatives_of parts ≡ ok found
        → any allows found ≡ grants_one parts
    alternatives_of-granted nil found h = ground arith
    alternatives_of-granted (cons part rest) found h =
        let (xs, ys, p, q, same) = appended (alternatives part) (alternatives_of rest) found h in
        subst (λ zs. any allows zs ≡ grants part || grants_one rest) same
          (any-append allows xs ys
            ∙ rw (alternatives-granted part xs p, alternatives_of-granted rest ys q))

  -- Where a check is flattened into alternatives, some alternative is allowed exactly when the check as
  -- the schema means it is granted.
  pub alternatives-grants :
      (check : Value) (found : List SchemaAlternative)
      → alternatives check ≡ ok found
      → any allows found ≡ grants check
  alternatives-grants check found h = alternatives-granted check found h
