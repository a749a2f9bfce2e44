-- ===== src/Model/Decode.antt =====
-- Reading raw rows into dataclasses: `deserialize_resource_list`, `route_pve_resource`,
-- `deserialize_tags` and the base class of aioproxmox/model/pve.py.
--
-- `from_dict` is generated by mashumaro, which is not part of the repository: it is the parameter
-- `Decoder`. An error stands for whatever exception it raises.
pub mod Rows
use aioproxmox.Prelude.{
  String, Option, none, some, List, [], ◌∷◌, ◌++◌, map, str_eq, if◌then◌else◌, nonempty, filter,
}
use aioproxmox.Prelude.Text
use aioproxmox.Prelude.Dict.{Dict}
use aioproxmox.Errors.{Result, ok, err, value_error, ◌>>=◌}
use aioproxmox.Value.{Value, str, as_dict, as_list, get, truthy}
use aioproxmox.Model.Resources.{
  ClusterNodeResource, ClusterQemuResource, ClusterContainerResource, ClusterStorageResource,
  ClusterNetworkResource, Resource, node_row, qemu_row, lxc_row, storage_row, network_row,
  ClusterResourcesCollection,
}

pub record Decoder : Type 0 where
  pub node : Dict Value → Result ClusterNodeResource
  pub qemu : Dict Value → Result ClusterQemuResource
  pub lxc : Dict Value → Result ClusterContainerResource
  pub storage : Dict Value → Result ClusterStorageResource
  pub network : Dict Value → Result ClusterNetworkResource

pub data Kind : Type 0 where
  node qemu lxc storage network : Kind

-- The cases of the `match` on the type tag, which a tag that is no text never meets.
unfoldable pub kind_of : Value → Option Kind
kind_of (str s) =
    if str_eq s "node"
    then some node
    else if str_eq s "qemu"
    then some qemu
    else if str_eq s "lxc"
    then some lxc
    else if str_eq s "storage"
    then some storage
    else if str_eq s "network"
    then some network
    else none
kind_of _ = none

-- `data` is the decoded value; an untagged or unknown one raises.
unfoldable pub route_pve_resource : Value → Result Kind
unfolding as_dict get kind_of truthy
route_pve_resource value = elim (as_dict value) [
  | none ↦ err value_error
  | some d ↦
      if truthy (get "type" d)
      then elim (kind_of (get "type" d)) [ none ↦ err value_error | some k ↦ ok k ]
      else err value_error
]

-- `[cls.from_dict(item) for item in raw or []]`: the first failing item raises.
unfoldable pub list_from_api {ℓ} : {A : Type ℓ} → (Value → Result A) → List Value → Result (List A)
list_from_api f [] = ok []
list_from_api f (v ∷ vs) = do ok ((← f v) ∷ (← list_from_api f vs))

-- A tag list comes as one text or as a list; `texts` is `[str(tag) for tag in value]`.
unfoldable pub deserialize_tags : (Value → String) → Value → List String
unfolding Text.strip Text.split filter
deserialize_tags text (str s) = filter nonempty (map Text.strip (Text.split b';' s))
deserialize_tags text value = elim (as_list value) [
  | none ↦ []
  | some tags ↦ filter nonempty (map (λ tag. Text.strip (text tag)) tags)
]

module _ (decoder : Decoder) where
  -- The `from_dict` of the row's class, wrapped as a row.
  unfoldable pub from_dict : Kind → Dict Value → Result Resource
  from_dict node item = do ok (node_row (← decoder.node item))
  from_dict qemu item = do ok (qemu_row (← decoder.qemu item))
  from_dict lxc item = do ok (lxc_row (← decoder.lxc item))
  from_dict storage item = do ok (storage_row (← decoder.storage item))
  from_dict network item = do ok (network_row (← decoder.network item))

  -- One round of the loop: what the item appends. `except Exception` logs and goes on.
  unfoldable pub parse_item : Value → List Resource
  unfolding as_dict get kind_of from_dict
  parse_item item = elim (as_dict item) [
    | none ↦ []
    | some d ↦ elim (kind_of (get "type" d)) [
      | none ↦ []
      | some k ↦ elim (from_dict k d) [ ok row ↦ row ∷ [] | err e ↦ [] ]
    ]
  ]

  unfoldable pub parse_items : List Value → List Resource → List Resource
  unfolding parse_item
  parse_items [] parsed = parsed
  parse_items (item ∷ rest) parsed = parse_items rest (parsed ++ parse_item item)

  unfoldable pub deserialize_resource_list : Value → List Resource
  unfolding as_list parse_items
  deserialize_resource_list value = elim (as_list value) [
    | none ↦ []
    | some raw ↦ parse_items raw []
  ]

  -- `ClusterResourcesCollection.from_dict({"resources": raw})`: the field's `deserialize` hook.
  unfoldable pub resources_from_dict : Value → ClusterResourcesCollection
  unfolding deserialize_resource_list
  resources_from_dict raw = record { resources = deserialize_resource_list raw }
