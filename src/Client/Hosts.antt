-- ===== src/Client/Hosts.antt =====
-- The list of hosts in aioproxmox/__init__.py: `host`, `learn_hosts`, `_use_host`.
pub mod Lists
pub mod Learning
use aioproxmox.Prelude.{
  ℕ, suc, String, Bool, true, false, not, ◌&&◌, none, some, List, [], ◌∷◌, ◌++◌, get_elem?, any,
  str_eq, nonempty, if◌then◌else◌,
}
use aioproxmox.Errors.{Result, ok, err, index_error, ◌>>=◌}
use aioproxmox.Client.State.{Client, Auth, ticket, api_token, url_of}

-- `xs[i]` at an index that is not negative
unfoldable pub at : List String → ℕ → Result String
at xs i = elim (get_elem? xs i) [ none ↦ err index_error | some x ↦ ok x ]

-- `host in kept`
unfoldable pub contains : List String → String → Bool
unfolding any
contains kept host = any (λ x. str_eq x host) kept

-- `kept.index(host)`, the length where it is missing
unfoldable pub index_of : List String → String → ℕ
index_of [] host = 0
index_of (x ∷ xs) host = if str_eq x host then 0 else suc (index_of xs host)

-- The property `host`.
unfoldable pub current_host : Client → Result String
unfolding at
current_host c = at c.hosts c.host_index

-- The loop of `learn_hosts`: each text that is not empty and not there yet goes to the end.
unfoldable pub learn : List String → List String → List String
unfolding contains
learn kept [] = kept
learn kept (host ∷ hosts) =
    learn (if nonempty host && not (contains kept host) then kept ++ host ∷ [] else kept) hosts

-- `if current not in kept: kept.append(current)`
unfoldable pub keep_current : List String → String → List String
unfolding contains
keep_current kept current = if contains kept current then kept else kept ++ current ∷ []

-- `[self._hosts[0]] if replace else list(self._hosts)`
unfoldable pub kept_hosts : Client → Bool → Result (List String)
unfolding at
kept_hosts c true = do first ← at c.hosts 0; ok (first ∷ [])
kept_hosts c false = ok c.hosts

unfoldable pub learn_hosts : List String → Bool → Client → Result Client
learn_hosts hosts replace c = do
  current ← current_host c
  kept ← kept_hosts c replace
  let all = keep_current (learn kept hosts) current
  ok (record c { hosts = all; host_index = index_of all current })

-- `self.auth.base_url = …`
unfoldable pub set_auth_url : String → Auth → Auth
set_auth_url url (ticket t) = ticket (record t { base_url = url })
set_auth_url url (api_token t) = api_token (record t { base_url = url })

-- The client on the host at an index, whose text is `host`.
unfoldable pub point_at : ℕ → String → Client → Client
unfolding set_auth_url url_of
point_at index host c = record c {
  host_index = index;
  base_url = url_of host c.port;
  auth = set_auth_url (url_of host c.port) c.auth;
}

-- `_use_host`: the index is written before the list is read at it.
unfoldable pub use_host : ℕ → Client → Result (Unit {0}) × Client
unfolding at point_at
use_host index c = elim (at c.hosts index) [
  | ok host ↦ (ok tt, point_at index host c)
  | err e ↦ (err e, record c { host_index = index })
]
