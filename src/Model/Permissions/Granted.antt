-- ===== src/Model/Permissions/Granted.antt =====
-- What `has_permission` of aioproxmox/model/__init__.py answers from the response it was built of.
use aioproxmox.Prelude.{
  ℤ, pos, String, ◌≡◌, refl, ap, ◌∙◌, Bool, true, false, not, ◌&&◌, ◌||◌, Option, none, some, List,
  [], ◌∷◌, any, str_eq, if◌then◌else◌, arith, eq_iff,
}
use aioproxmox.Prelude.Int.{eq_ℤ}
use aioproxmox.Prelude.Text
use aioproxmox.Prelude.Dict.{Dict, lookup, has_key, lookup-insert, distinct_keys}
use aioproxmox.Model.Permissions.{
  PvePermissions, allowed_privs, is_empty, compile_entry, compile, from_api_response, granted_at,
  has_permission,
}

-- The response and the dictionaries in it are dictionaries.
abbrev pub distinct_response : Dict (Dict ℤ) → Bool
distinct_response [] = true
distinct_response ((path, privs) ∷ rest) =
    not (has_key path rest) && (distinct_keys privs && distinct_response rest)

-- The response says 1 for a privilege.
abbrev pub is_one : Option ℤ → Bool
is_one none = false
is_one (some v) = eq_ℤ v (pos 1)

-- What the response itself says of a privilege on a path.
abbrev pub states : Dict (Dict ℤ) → String → String → Bool
states response privilege path = elim (lookup path response) [
  | none ↦ false
  | some privs ↦ is_one (lookup privilege privs)
]

allowed_privs-none :
    (privs : Dict ℤ) (p : String)
    → has_key p privs ≡ false
    → any (λ q. str_eq q p) (allowed_privs privs) ≡ false
unfolding any allowed_privs lookup
allowed_privs-none [] p h = refl
allowed_privs-none ((q, v) ∷ rest) p h = ground (arith, eq_iff q p, allowed_privs-none rest p)

allowed_privs_lem :
    (privs : Dict ℤ) (p : String)
    → distinct_keys privs ≡ true
    → any (λ q. str_eq q p) (allowed_privs privs) ≡ is_one (lookup p privs)
unfolding any allowed_privs lookup
allowed_privs_lem [] p d = refl
allowed_privs_lem ((q, v) ∷ rest) p d =
    ground (arith, eq_iff q p, allowed_privs_lem rest p, allowed_privs-none rest p)

-- What the privileges of one path leave of the set that was there.
abbrev entry_or : Option (Dict ℤ) → Option (List String) → Option (List String)
entry_or none before = before
entry_or (some privs) before =
    if is_empty (allowed_privs privs) then before else some (allowed_privs privs)

lookup-compile_entry :
    (path k : String) (privs : List String) (compiled : Dict (List String))
    → lookup path (compile_entry k privs compiled) ≡ (
        if str_eq k path
        then (if is_empty privs then lookup path compiled else some privs)
        else lookup path compiled)
unfolding compile_entry
lookup-compile_entry path k privs compiled = ground (arith, lookup-insert k path privs compiled)

lookup-compile :
    (path : String) (response : Dict (Dict ℤ)) (compiled : Dict (List String))
    → distinct_response response ≡ true
    → lookup path (compile compiled response)
      ≡ entry_or (lookup path response) (lookup path compiled)
unfolding compile lookup
lookup-compile path [] compiled d = refl
lookup-compile path ((k, privs) ∷ rest) compiled d = ground (
  arith,
  eq_iff k path,
  lookup-compile path rest (compile_entry k (allowed_privs privs) compiled),
  lookup-compile_entry path k (allowed_privs privs) compiled,
)

-- Whether a set that may be missing has a privilege.
abbrev held : String → Option (List String) → Bool
held privilege none = false
held privilege (some privs) = any (λ p. str_eq p privilege) privs

held-kept :
    (privilege : String) (privs : List String)
    → held privilege (if is_empty privs then none else some privs)
      ≡ any (λ p. str_eq p privilege) privs
unfolding any
held-kept privilege [] = refl
held-kept privilege (p ∷ privs) = refl

held-entry_or :
    (privilege : String) (o : Option (Dict ℤ))
    → ((privs : Dict ℤ) → o ≡ some privs → distinct_keys privs ≡ true)
    → held privilege (entry_or o none)
      ≡ elim o [ none ↦ false | some privs ↦ is_one (lookup privilege privs) ]
held-entry_or privilege none d = refl
held-entry_or privilege (some privs) d =
    held-kept privilege (allowed_privs privs) ∙ allowed_privs_lem privs privilege (d privs refl)

distinct-lookup :
    (response : Dict (Dict ℤ)) (path : String) (privs : Dict ℤ)
    → distinct_response response ≡ true
    → lookup path response ≡ some privs
    → distinct_keys privs ≡ true
unfolding lookup
distinct-lookup [] path privs d e = absurd (cc)
distinct-lookup ((k, held) ∷ rest) path privs d e = ground (arith, distinct-lookup rest path privs)

granted_at-held :
    (perms : PvePermissions) (privilege path : String)
    → granted_at perms privilege path ≡ held privilege (lookup path perms.perm_map)
unfolding granted_at
granted_at-held perms privilege path = ground arith

granted_at_lem :
    (response : Dict (Dict ℤ)) (privilege path : String)
    → distinct_response response ≡ true
    → granted_at (from_api_response response) privilege path ≡ states response privilege path
unfolding from_api_response lookup
granted_at_lem response privilege path d =
    granted_at-held (from_api_response response) privilege path
    ∙ ap (held privilege) (lookup-compile path response [] d)
    ∙ held-entry_or privilege (lookup path response)
        (λ privs. distinct-lookup response path privs d)

-- Where the response and the dictionaries in it have each key once, a privilege is granted on a path
-- exactly when the response says 1 for it on this path, on what stands before the path's last slash, or
-- on the root.
pub has_permission_lem :
    (response : Dict (Dict ℤ)) (path privilege : String)
    → distinct_response response ≡ true
    → has_permission (from_api_response response) path privilege
      ≡ states response privilege path
        || (states response privilege (Text.before_last_slash path)
            || states response privilege "/")
unfolding has_permission any
has_permission_lem response path privilege d = ground (
  arith,
  granted_at_lem response privilege path d,
  granted_at_lem response privilege (Text.before_last_slash path) d,
  granted_at_lem response privilege "/" d,
)
