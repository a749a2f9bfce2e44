-- ===== src/Endpoints/Followed.antt =====
-- `current` of the guests' status endpoints in aioproxmox/endpoints.py, where the rows that the client holds do
-- not name the guest.
use aioproxmox.Prelude.{
  ℤ, String, ◌≡◌, refl, Option, none, some, List, [], ◌∷◌, ◌++◌, arith, Option-cases, inl, inr,
  if◌then◌else◌,
}
use aioproxmox.Prelude.Int.{eq_ℤ}
use aioproxmox.Prelude.Text
use aioproxmox.Prelude.Text.{◌+++◌}
use aioproxmox.Prelude.Dict.{Dict}
use aioproxmox.Errors.{Result, ok, err, resource_not_found}
use aioproxmox.Value.{Value, as_dict, as_list, get}
use aioproxmox.Exec.{pure, raise, handle, lift, ◌>>=◌}
use aioproxmox.Model.Resources.{Resource, ClusterResourcesCollection}
use aioproxmox.Model.Decode.{
  Decoder, kind_of, from_dict, parse_item, parse_items, deserialize_resource_list,
  resources_from_dict,
}
use aioproxmox.Model.Decode.Rows.{
  Tag, is_node, is_qemu, is_lxc, is_storage, is_network, is_unknown, tag_of, reads, items_in,
}
use aioproxmox.Client.State.{Client}
use aioproxmox.Client.Env.{Env, Machine, reading, calling}
use aioproxmox.Client.Request.{request}
use aioproxmox.Cluster.Cache.{guest_node, find_node, pve_find_node_in_cache, pve_cluster_cache}
use aioproxmox.Endpoints.Calls.{call, guest_path, read_dict}
use aioproxmox.Endpoints.Cluster.{resources, store_resources}
use aioproxmox.Endpoints.Guests.{cached_node, given, fetch_node, located, locate, current}

-- The first that a reading gives of a list.
abbrev pub first {ℓ κ} : {A : Type ℓ} {B : Type κ} → (A → Option B) → List A → Option B
first f [] = none
first f (x ∷ xs) = elim (f x) [ some y ↦ some y | none ↦ first f xs ]

find_node-append :
    (vmid : ℤ) (xs ys : List Resource)
    → find_node vmid (xs ++ ys)
      ≡ elim (find_node vmid xs) [ some n ↦ some n | none ↦ find_node vmid ys ]
unfolding find_node
find_node-append vmid [] ys = refl
find_node-append vmid (x ∷ xs) ys = ground (arith, find_node-append vmid xs ys)

module _ (decoder : Decoder) (vmid : ℤ) where
  -- The node of an item that reads as a virtual machine or a container with the id.
  abbrev pub guest_at : Value → Option String
  guest_at item = elim (reads "qemu" decoder.qemu item) [
    | some r ↦ if eq_ℤ r.vmid vmid then some r.node else none
    | none ↦ elim (reads "lxc" decoder.lxc item) [
      | some r ↦ if eq_ℤ r.vmid vmid then some r.node else none
      | none ↦ none
    ]
  ]

  -- The node of the first such item of an answer.
  abbrev pub node_in : Value → Option String
  node_in answer = first guest_at (items_in answer)

  found_by :
      (item : Value) (d : Dict Value)
      → as_dict item ≡ some d
      → Tag (get "type" d)
      → find_node vmid (parse_item decoder item) ≡ guest_at item
  unfolding find_node guest_node parse_item kind_of from_dict
  found_by item d e (is_node t) = rw (e, t, parse_item, guest_at, reads) (ground arith)
  found_by item d e (is_qemu t) = rw (e, t, parse_item, guest_at, reads) (ground arith)
  found_by item d e (is_lxc t) = rw (e, t, parse_item, guest_at, reads) (ground arith)
  found_by item d e (is_storage t) = rw (e, t, parse_item, guest_at, reads) (ground arith)
  found_by item d e (is_network t) = rw (e, t, parse_item, guest_at, reads) (ground arith)
  found_by item d e (is_unknown k n q l s w) =
      rw (e, k, q, parse_item, guest_at, reads) (rw (e, l, reads) refl)

  find_node-parse_item : (item : Value) → find_node vmid (parse_item decoder item) ≡ guest_at item
  unfolding parse_item find_node
  find_node-parse_item item = elim (Option-cases (as_dict item)) [
    | inl no_dict ↦ rw (no_dict, parse_item, guest_at, reads) (rw (no_dict, reads) refl)
    | inr (d, found) ↦ found_by item d found (tag_of (get "type" d))
  ]

  find_node-parse_items :
      (raw : List Value) (parsed : List Resource)
      → find_node vmid (parse_items decoder raw parsed)
        ≡ elim (find_node vmid parsed) [ some n ↦ some n | none ↦ first guest_at raw ]
  unfolding parse_items
  find_node-parse_items [] parsed = ground arith
  find_node-parse_items (item ∷ rest) parsed = ground (
    arith,
    find_node-parse_items rest (parsed ++ parse_item decoder item),
    find_node-append vmid parsed (parse_item decoder item),
    find_node-parse_item item,
  )

  find_node-resources :
      (answer : Value)
      → pve_find_node_in_cache (some (resources_from_dict decoder answer)) vmid ≡ node_in answer
  unfolding pve_find_node_in_cache resources_from_dict deserialize_resource_list find_node
  find_node-resources answer = elim (Option-cases (as_list answer)) [
    | inl no_list ↦ rw (no_list, deserialize_resource_list, node_in, items_in) refl
    | inr (raw, found) ↦
        rw (found, deserialize_resource_list, node_in, items_in) (find_node-parse_items raw [])
  ]

-- What the client holds once it has read the rows.
abbrev pub stored : Decoder → Value → Client → Client
stored decoder answer c = record c {
  cluster_resources = some (resources_from_dict decoder answer);
  cluster_cache = pve_cluster_cache (some (resources_from_dict decoder answer));
}

module _ {W A : Type 0} (env : Env W) (kind guest what : String) (from_dict : Dict Value → Result A)
    (vmid : ℤ) (m' : Machine W) where
  -- The guest is asked for on this node, if any, by the client that holds the rows of the answer.
  abbrev pub follow : Value → Option String → Result A × Machine W
  follow answer none = (
    err (
        resource_not_found (
          "Target "
          +++ guest
          +++ " VMID "
          +++ Text.str_ℤ vmid
          +++ " could not be located anywhere in the cluster.")),
    record m' { client = stored env.decoder answer m'.client },
  )
  follow answer (some node) =
      (do
        raw ← request env (call "GET" (guest_path kind node vmid "status/current") [])
        lift (read_dict what from_dict raw))
        (record m' { client = stored env.decoder answer m'.client })

  -- What comes of the one request for the rows.
  abbrev pub fallback : Result Value → Result A × Machine W
  fallback (ok answer) = follow answer (given (node_in env.decoder vmid answer))
  fallback (err e) = (
    err (
        resource_not_found
          ("Failed to fetch resource map while tracking VMID " +++ Text.str_ℤ vmid)),
    m',
  )

  -- What the fallback makes of the request.
  abbrev fetched : Result Value → Result (Option String) × Machine W
  fetched (ok answer) = (
    ok (node_in env.decoder vmid answer),
    record m' { client = stored env.decoder answer m'.client },
  )
  fetched (err e) = (
    err (
        resource_not_found
          ("Failed to fetch resource map while tracking VMID " +++ Text.str_ℤ vmid)),
    m',
  )

  fetch_node-fetched :
      (m : Machine W) (r : Result Value)
      → request env (call "GET" "cluster/resources" []) m ≡ (r, m')
      → fetch_node env vmid m ≡ fetched r
  unfolding fetch_node ◌>>=◌ reading cached_node handle resources calling store_resources raise pure
  fetch_node-fetched m (ok answer) asked =
      rw (asked, find_node-resources env.decoder vmid answer) refl
  fetch_node-fetched m (err e) asked = rw asked refl

  unnamed :
      (c : Client) (collection : ClusterResourcesCollection)
      → c.cluster_resources ≡ some collection
      → pve_find_node_in_cache (some collection) vmid ≡ none
      → cached_node vmid c ≡ ok none
  unfolding cached_node
  unnamed c collection held unknown = rw (held, cached_node) (rw unknown refl)

  followed :
      (own_node : String) (m : Machine W) (r : Result Value)
      → cached_node vmid m.client ≡ ok none
      → fetch_node env vmid m ≡ fetched r
      → current env kind guest what from_dict own_node vmid m ≡ fallback r
  unfolding current ◌>>=◌ reading locate located raise pure
  followed own_node m (ok answer) unknown asked =
      elim (Option-cases (given (node_in env.decoder vmid answer))) [
        | inl nowhere ↦ rw (unknown, asked, nowhere) refl
        | inr (node, there) ↦ rw (unknown, asked, there) refl
      ]
  followed own_node m (err e) unknown asked = rw (unknown, asked) refl

-- Where the rows that the client holds name no node for the guest, asking for its status asks for the rows of
-- the cluster once. Where these are answered, the client holds them and the index over them, and the guest is
-- asked for on the node of the first item of the answer that reads as a virtual machine or a container with its
-- id, whatever node the endpoint was made for; where there is no such item, or its node is the empty text,
-- ResourceNotFoundError is raised and nothing more is asked. Where the request for the rows raises,
-- ResourceNotFoundError is raised too, and the client is as this request left it.
pub current-fallback :
    {W A : Type 0} (env : Env W) (kind guest what : String) (from_dict : Dict Value → Result A)
    (own_node : String) (vmid : ℤ) (m m' : Machine W) (collection : ClusterResourcesCollection)
    (r : Result Value)
    → m.client.cluster_resources ≡ some collection
    → pve_find_node_in_cache (some collection) vmid ≡ none
    → request env (call "GET" "cluster/resources" []) m ≡ (r, m')
    → current env kind guest what from_dict own_node vmid m
      ≡ fallback env kind guest what from_dict vmid m' r
current-fallback env kind guest what from_dict own_node vmid m m' collection r held unknown asked =
    followed env kind guest what from_dict vmid m' own_node m r
      (unnamed env kind guest what from_dict vmid m' m.client collection held unknown)
      (fetch_node-fetched env kind guest what from_dict vmid m' m r asked)
