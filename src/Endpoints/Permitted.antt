-- ===== src/Endpoints/Permitted.antt =====
-- What the client holds of the session's permissions once they are read.
use aioproxmox.Prelude.{
  ℤ, pos, String, ◌≡◌, refl, ◌∙◌, subst, Bool, true, false, not, ◌&&◌, ◌||◌, none, some, [], ◌∷◌,
  Option-cases, is_some, inl, inr, arith,
}
use aioproxmox.Prelude.Int.{eq_ℤ}
use aioproxmox.Prelude.Text
use aioproxmox.Prelude.Dict.{Dict, lookup, has_key, distinct_keys}
use aioproxmox.Errors.{ok, >>=-eq-ok}
use aioproxmox.Value.{Value, as_dict}
use aioproxmox.Exec
use aioproxmox.Model.Permissions.{PvePermissions, from_api_response, has_permission}
use aioproxmox.Model.Permissions.Granted.{distinct_response, is_one, states, has_permission_lem}
use aioproxmox.Client.State.{Client}
use aioproxmox.Client.Env.{Env, Machine, calling}
use aioproxmox.Client.Request.{request}
use aioproxmox.Endpoints.Calls.{call}
use aioproxmox.Endpoints.Access.{
  flag, flags, items_of, acl_entries, permissions_of, store_permissions, permissions,
}

-- The dictionary itself and those in it have each key once, as JSON objects do.
abbrev pub distinct_privs : Value → Bool
distinct_privs privs = elim (as_dict privs) [ none ↦ true | some d ↦ distinct_keys d ]

abbrev pub distinct_acl : Dict Value → Bool
distinct_acl [] = true
distinct_acl ((path, privs) ∷ rest) =
    not (has_key path rest) && (distinct_privs privs && distinct_acl rest)

-- What the answer says for a privilege on a path: 1, 1.0 or true.
abbrev pub says_one : String → Value → Bool
says_one privilege privs = elim (as_dict privs) [
  | none ↦ false
  | some d ↦ elim (lookup privilege d) [ none ↦ false | some v ↦ eq_ℤ (flag v) (pos 1) ]
]

abbrev pub says : Dict Value → String → String → Bool
says acl privilege path = elim (lookup path acl) [
  | none ↦ false
  | some privs ↦ says_one privilege privs
]

lookup-flags :
    (k : String) (d : Dict Value)
    → lookup k (flags d) ≡ elim (lookup k d) [ none ↦ none | some v ↦ some (flag v) ]
unfolding lookup flags
lookup-flags k [] = refl
lookup-flags k ((j, v) ∷ d) = ground (arith, lookup-flags k d)

flags-distinct_keys : (d : Dict Value) → distinct_keys (flags d) ≡ distinct_keys d
unfolding flags
flags-distinct_keys [] = refl
flags-distinct_keys ((j, v) ∷ d) = ground (arith, flags-distinct_keys d, lookup-flags j d)

as_dict-items_of : (v : Value) (d : Dict Value) → items_of v ≡ ok d → as_dict v ≡ some d
unfolding items_of
as_dict-items_of v d h = elim (Option-cases (as_dict v)) [
  | inl not_there ↦ absurd (let refused = rw (items_of, not_there) at h in cc)
  | inr (d', there) ↦ let found = rw (items_of, there) at h in cc
]

is_one-flags :
    (privilege : String) (privs : Value) (d : Dict Value)
    → as_dict privs ≡ some d
    → is_one (lookup privilege (flags d)) ≡ says_one privilege privs
is_one-flags privilege privs d e =
    let read = lookup-flags privilege d in
    elim (Option-cases (lookup privilege d)) [
      | inl none_there ↦ ground (arith, read, none_there, e)
      | inr (v, there) ↦ ground (arith, read, there, e)
    ]

-- The flags that are read of an answer say what the answer says, and its paths are the same.
record Reads (acl : Dict Value) (entries : Dict (Dict ℤ)) : Type 0 where
  keys : (path : String) → has_key path entries ≡ has_key path acl
  said : (privilege path : String) → states entries privilege path ≡ says acl privilege path
  once : distinct_response entries ≡ distinct_acl acl

none-Reads : Reads [] []
unfolding lookup
none-Reads = record { keys = λ path. refl; said = λ privilege path. refl; once = refl }

more-Reads :
    (path : String) (privs : Value) (d : Dict Value) (acl : Dict Value) (others : Dict (Dict ℤ))
    → as_dict privs ≡ some d
    → Reads acl others
    → Reads ((path, privs) ∷ acl) ((path, flags d) ∷ others)
unfolding lookup
more-Reads path privs d acl others e r = record {
  keys = λ at. ground (arith, r.keys at);
  said = λ privilege at. ground (arith, r.said privilege at, is_one-flags privilege privs d e);
  once = ground (arith, r.once, r.keys path, flags-distinct_keys d, e);
}

acl_entries-Reads :
    (acl : Dict Value) (entries : Dict (Dict ℤ)) → acl_entries acl ≡ ok entries → Reads acl entries
unfolding acl_entries
acl_entries-Reads [] entries h = let same : [] ≡ entries = cc in subst (Reads []) same none-Reads
acl_entries-Reads ((path, privs) ∷ acl) entries h =
    let (d, e, h1) = >>=-eq-ok (items_of privs) _ h in
    let (others, e', h2) = >>=-eq-ok (acl_entries acl) _ h1 in
    let same : (path, flags d) ∷ others ≡ entries = cc in
    subst (Reads ((path, privs) ∷ acl)) same (
      more-Reads path privs d acl others (as_dict-items_of privs d e)
        (acl_entries-Reads acl others e'))

-- Every path of the answer has an object.
abbrev pub all_objects : Dict Value → Bool
all_objects [] = true
all_objects ((path, privs) ∷ acl) = is_some (as_dict privs) && all_objects acl

items_of-as_dict : (v : Value) (d : Dict Value) → as_dict v ≡ some d → items_of v ≡ ok d
unfolding items_of
items_of-as_dict v d e = rw (items_of, e) refl

acl_entries-total :
    (acl : Dict Value)
    → all_objects acl ≡ true
    → (entries : Dict (Dict ℤ)) × (acl_entries acl ≡ ok entries)
unfolding acl_entries
acl_entries-total [] h = ([], refl)
acl_entries-total ((path, privs) ∷ acl) h = elim (Option-cases (as_dict privs)) [
  | inl not_there ↦ absurd (ground (arith, h, not_there))
  | inr (d, there) ↦
      let (entries, e) = acl_entries-total acl (ground (arith, h, there)) in
      ((path, flags d) ∷ entries, rw (items_of-as_dict privs d there, e) refl)
]

stored :
    (raw : Value) (perms : PvePermissions) (c : Client)
    → permissions_of raw ≡ ok perms
    → store_permissions raw c ≡ (ok perms, record c { permissions = perms })
unfolding store_permissions
stored raw perms c read = rw (store_permissions, read) refl

-- What an answer to the request makes of the client.
permissions-stored :
    {W : Type 0} (env : Env W) (m m' : Machine W) (raw : Value) (perms : PvePermissions)
    → request env (call "GET" "access/permissions" []) m ≡ (ok raw, m')
    → permissions_of raw ≡ ok perms
    → permissions env m
      ≡ (ok perms, record m' { client = record m'.client { permissions = perms } })
unfolding permissions Exec.◌>>=◌ calling
permissions-stored env m m' raw perms sent read =
    rw sent (rw (stored raw perms m'.client read) refl)

-- Where the session's permissions are answered by an object that has an object for every path, each with its
-- keys once, the client holds what is returned, and nothing else of it changes; and a privilege is then held
-- on a path exactly where the answer says 1 for it on this path, on what stands before the path's last
-- slash, or on the root.
pub permissions-has_permission :
    {W : Type 0} (env : Env W) (m m' : Machine W) (raw : Value) (acl : Dict Value)
    → request env (call "GET" "access/permissions" []) m ≡ (ok raw, m')
    → as_dict raw ≡ some acl
    → all_objects acl ≡ true
    → distinct_acl acl ≡ true
    → (perms : PvePermissions) × (permissions env m
        ≡ (ok perms, record m' { client = record m'.client { permissions = perms } }))
      × ((path privilege : String)
          → has_permission perms path privilege
            ≡ says acl privilege path
              || (says acl privilege (Text.before_last_slash path) || says acl privilege "/"))
unfolding permissions_of
permissions-has_permission env m m' raw acl sent is_acl objects once =
    let (entries, e) = acl_entries-total acl objects in
    let r = acl_entries-Reads acl entries e in
    let read : permissions_of raw ≡ ok (from_api_response entries) =
      rw (items_of-as_dict raw acl is_acl, e) refl in
    (
      from_api_response entries,
      permissions-stored env m m' raw (from_api_response entries) sent read,
      λ path privilege. ground (
        arith,
        has_permission_lem entries path privilege (r.once ∙ once),
        r.said privilege path,
        r.said privilege (Text.before_last_slash path),
        r.said privilege "/",
      ),
    )
