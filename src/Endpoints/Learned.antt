-- ===== src/Endpoints/Learned.antt =====
-- `learn_hosts_from_cluster` of aioproxmox/__init__.py, from the answer of the cluster to the list of hosts.
use aioproxmox.Prelude.{
  String, ◌≡◌, refl, ap, ◌∙◌, Bool, false, not, ◌&&◌, ◌||◌, none, some, List, [], ◌∷◌, nonempty,
  arith, str_eq, any, any-map, any-filter, any-congr, filter, Option-cases, inl, inr, if◌then◌else◌,
}
use aioproxmox.Prelude.Dict.{Dict}
use aioproxmox.Errors.{Error, Result, ok, err, is_proxmox_error}
use aioproxmox.Value.{
  Value, null, bool, int, float, str, obj, arr, as_dict, as_list, as_str, get, truthy,
}
use aioproxmox.Exec.{pure, raise, ◌>>=◌}
use aioproxmox.Client.State.{Client}
use aioproxmox.Client.Env.{Env, Machine, calling, str_Value}
use aioproxmox.Client.Request.{request}
use aioproxmox.Client.Hosts.{at, contains, current_host}
use aioproxmox.Client.Hosts.Learning.{learn_hosts-Learned}
use aioproxmox.Endpoints.Calls.{call}
use aioproxmox.Endpoints.Cluster.{
  status, learning, dicts_of, entries_of, is_node_entry, is_other_node, addresses_of,
  learn_hosts_from_cluster, learn_found,
}

-- The value is just the text `node`.
abbrev is_node : Value → Bool
is_node (str s) = str_eq s "node"
is_node _ = false

-- The item of the answer is a node of the cluster, not the one that answers, with this address.
abbrev pub is_peer_at : (Value → String) → String → Value → Bool
is_peer_at repr host item = elim (as_dict item) [
  | none ↦ false
  | some entry ↦
      is_node (get "type" entry)
      && truthy (get "ip" entry)
      && not (truthy (get "local" entry))
      && str_eq (str_Value repr (get "ip" entry)) host
]

-- The answer is a list that has such an item.
abbrev pub names_peer : (Value → String) → Value → String → Bool
names_peer repr answer host = elim (as_list answer) [
  | none ↦ false
  | some items ↦ any (is_peer_at repr host) items
]

is_node-as_str :
    (v : Value) → elim (as_str v) [ none ↦ false | some s ↦ str_eq s "node" ] ≡ is_node v
is_node-as_str (str s) = refl
is_node-as_str null = refl
is_node-as_str (bool b) = refl
is_node-as_str (int n) = refl
is_node-as_str (float x) = refl
is_node-as_str (obj fs) = refl
is_node-as_str (arr vs) = refl

-- A test on the entries of an answer, as one on its items.
abbrev on_entry : (Dict Value → Bool) → Value → Bool
on_entry p item = elim (as_dict item) [ none ↦ false | some entry ↦ p entry ]

any-dicts_of :
    (p : Dict Value → Bool) (items : List Value) → any p (dicts_of items) ≡ any (on_entry p) items
unfolding dicts_of any
any-dicts_of p [] = refl
any-dicts_of p (item ∷ items) = ground (arith, any-dicts_of p items)

module _ (repr : Value → String) (host : String) where
  abbrev is_other_at : Dict Value → Bool
  is_other_at entry = is_other_node entry && str_eq (str_Value repr (get "ip" entry)) host

  contains-addresses_of :
      (entries : List (Dict Value))
      → contains (addresses_of repr entries) host ≡ any is_other_at entries
  unfolding contains addresses_of
  contains-addresses_of entries =
      any-map (λ x. str_eq x host) (λ entry. str_Value repr (get "ip" entry))
        (filter is_other_node entries)
      ∙ any-filter (λ entry. str_eq (str_Value repr (get "ip" entry)) host) is_other_node entries

  is_other_at-item : (item : Value) → on_entry is_other_at item ≡ is_peer_at repr host item
  unfolding is_other_node is_node_entry
  is_other_at-item item = elim (Option-cases (as_dict item)) [
    | inl no_entry ↦ rw (no_entry, on_entry, is_peer_at) refl
    | inr (entry, found) ↦
        rw (found, on_entry, is_peer_at) (ground (arith, is_node-as_str (get "type" entry)))
  ]

  contains-answer :
      (answer : Value)
      → contains (addresses_of repr (entries_of answer)) host ≡ names_peer repr answer host
  unfolding entries_of dicts_of any
  contains-answer answer =
      contains-addresses_of (entries_of answer) ∙ (elim (Option-cases (as_list answer)) [
        | inl no_list ↦ rw (no_list, entries_of, names_peer) refl
        | inr (items, found) ↦
            rw (found, entries_of, names_peer)
              (any-dicts_of is_other_at items
                ∙ any-congr (on_entry is_other_at) (is_peer_at repr host) is_other_at-item items)
      ])

-- What the client is like that has learned the answer: still on the host `host`, its list still led by
-- `first`, and the list holding exactly the hosts that it held, the addresses of the answer's other nodes that
-- are not empty, and `host`; nothing but the list and the index is another.
pub record Knows (repr : Value → String) (answer : Value) (c : Client) (host : String) (c' : Client)
    : Type 0 where
  pub in_use : current_host c' ≡ ok host
  pub configured : (first : String) × (at c.hosts 0 ≡ ok first) × (at c'.hosts 0 ≡ ok first)
  pub members :
      (x : String)
      → contains c'.hosts x
        ≡ (contains c.hosts x || (nonempty x && names_peer repr answer x) || str_eq host x)
  pub frame : c' ≡ record c { hosts = c'.hosts; host_index = c'.host_index }

learn_hosts-Knows :
    (repr : Value → String) (answer : Value) (c : Client) (host : String)
    → current_host c ≡ ok host
    → (c' : Client) × (learning (addresses_of repr (entries_of answer)) c ≡ (ok tt, c'))
      × Knows repr answer c host c'
unfolding learning
learn_hosts-Knows repr answer c host here =
    let (first, c', was, done, learned) =
      learn_hosts-Learned (addresses_of repr (entries_of answer)) false c host here in
    (
      c',
      rw (done, learning) refl,
      record {
        in_use = learned.in_use;
        configured = (first, was, learned.configured);
        members = λ x.
            learned.members x
            ∙ ap (λ b. contains c.hosts x || (nonempty x && b) || str_eq host x)
                (contains-answer repr x answer);
        frame = learned.frame;
      },
    )

module _ {W : Type 0} (env : Env W) (m m' : Machine W) where
  -- What comes of the request for the cluster's status.
  abbrev pub Heard : String → Result Value → Type 0
  Heard host (ok answer) =
      (c : Client) × (learn_hosts_from_cluster env m ≡ (ok tt, record m' { client = c }))
      × Knows env.repr answer m'.client host c
  Heard host (err e) =
      learn_hosts_from_cluster env m ≡ (if is_proxmox_error e then (ok tt, m') else (err e, m'))

  quietly :
      (e : Error)
      → (if is_proxmox_error e then pure tt else raise e) m'
        ≡ (if is_proxmox_error e then (ok tt, m') else (err e, m'))
  unfolding pure raise
  quietly e = ground arith

  -- A client that is on a host once the cluster has answered for its status learns from the answer: it stays on
  -- this host, its configured host stays first, and its list then holds exactly the hosts that it held, each
  -- text that is not empty and that some item of the answer has as its address, where the item is of the type
  -- node and is not the node that answers, and the host in use; nothing else of the client changes. Where the
  -- request raises an error of the library, nothing is learned and nothing raised; any other error is raised.
  pub learn_hosts_from_cluster-Heard :
      (host : String) (r : Result Value)
      → request env (call "GET" "cluster/status" []) m ≡ (r, m')
      → current_host m'.client ≡ ok host
      → Heard host r
  unfolding learn_hosts_from_cluster learn_found status ◌>>=◌ pure calling
  learn_hosts_from_cluster-Heard host (ok answer) asked here =
      let (c, done, knows) = learn_hosts-Knows env.repr answer m'.client host here in
      (c, rw (asked, done) refl, knows)
  learn_hosts_from_cluster-Heard host (err e) asked here = rw asked (quietly e)
