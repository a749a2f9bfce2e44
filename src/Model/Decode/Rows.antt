-- ===== src/Model/Decode/Rows.antt =====
-- The list that `deserialize_resource_list` of aioproxmox/model/pve.py returns.
use aioproxmox.Prelude.{
  String, ◌≡◌, refl, ap, ◌∙◌, Bool, false, Option, none, some, List, [], ◌∷◌, ◌++◌, arith, str_eq,
  eq_iff, if◌then◌else◌, Bool-cases, inl, inr, Option-cases, sym,
}
use aioproxmox.Prelude.Dict.{Dict}
use aioproxmox.Errors.{Result, ok, err}
use aioproxmox.Value.{Value, null, bool, int, float, str, obj, arr, as_list, as_dict, get}
use aioproxmox.Model.Resources.{
  Resource, ClusterNodeResource, ClusterQemuResource, ClusterContainerResource,
  ClusterStorageResource, ClusterNetworkResource, node_row, qemu_row, lxc_row, storage_row,
  network_row,
}
use aioproxmox.Model.Decode.{
  Decoder, Kind, kind_of, from_dict, parse_item, parse_items, deserialize_resource_list,
}

-- What `f` reads of the entries of a list, in order.
abbrev pub select {ℓ κ} : {A : Type ℓ} {B : Type κ} → (A → Option B) → List A → List B
select f [] = []
select f (x ∷ xs) = elim (f x) [ none ↦ select f xs | some y ↦ y ∷ select f xs ]

select-append {ℓ κ} :
    {A : Type ℓ} {B : Type κ} (f : A → Option B) (xs ys : List A)
    → select f (xs ++ ys) ≡ select f xs ++ select f ys
select-append f [] ys = refl
select-append f (x ∷ xs) ys = ground (arith, select-append f xs ys)

++-nil {ℓ} : {A : Type ℓ} (xs : List A) → xs ++ [] ≡ xs
++-nil [] = refl
++-nil (x ∷ xs) = ap (λ r. x ∷ r) (++-nil xs)

++-assoc {ℓ} : {A : Type ℓ} (xs ys zs : List A) → xs ++ ys ++ zs ≡ xs ++ (ys ++ zs)
++-assoc [] ys zs = refl
++-assoc (x ∷ xs) ys zs = ap (λ r. x ∷ r) (++-assoc xs ys zs)

-- What a list holds; anything else holds nothing.
abbrev pub items_in : Value → List Value
items_in value = elim (as_list value) [ none ↦ [] | some raw ↦ raw ]

-- The value is just this text.
abbrev pub is_text : String → Value → Bool
is_text t (str s) = str_eq s t
is_text t _ = false

-- What an item that is a dictionary with this text as its type reads as, where it can be read.
abbrev pub reads : {A : Type 0} → String → (Dict Value → Result A) → Value → Option A
reads tag decode item = elim (as_dict item) [
  | none ↦ none
  | some d ↦
      if is_text tag (get "type" d)
      then elim (decode d) [ ok row ↦ some row | err e ↦ none ]
      else none
]

abbrev pub as_node_row : Resource → Option ClusterNodeResource
as_node_row (node_row r) = some r
as_node_row _ = none

abbrev pub as_qemu_row : Resource → Option ClusterQemuResource
as_qemu_row (qemu_row r) = some r
as_qemu_row _ = none

abbrev pub as_lxc_row : Resource → Option ClusterContainerResource
as_lxc_row (lxc_row r) = some r
as_lxc_row _ = none

abbrev pub as_storage_row : Resource → Option ClusterStorageResource
as_storage_row (storage_row r) = some r
as_storage_row _ = none

abbrev pub as_network_row : Resource → Option ClusterNetworkResource
as_network_row (network_row r) = some r
as_network_row _ = none

-- What is under `type`: one of the five texts, or nothing that the code knows.
pub data Tag (v : Value) : Type 0 where
  is_node : v ≡ str "node" → Tag v
  is_qemu : v ≡ str "qemu" → Tag v
  is_lxc : v ≡ str "lxc" → Tag v
  is_storage : v ≡ str "storage" → Tag v
  is_network : v ≡ str "network" → Tag v
  is_unknown :
      kind_of v ≡ none
      → is_text "node" v ≡ false
      → is_text "qemu" v ≡ false
      → is_text "lxc" v ≡ false
      → is_text "storage" v ≡ false
      → is_text "network" v ≡ false
      → Tag v

tag_of_text : (s : String) → Tag (str s)
unfolding kind_of
tag_of_text s = elim (Bool-cases (str_eq s "node")) [
  | inl e ↦ is_node (ap str ((eq_iff s "node").0 e))
  | inr n ↦ elim (Bool-cases (str_eq s "qemu")) [
    | inl e ↦ is_qemu (ap str ((eq_iff s "qemu").0 e))
    | inr q ↦ elim (Bool-cases (str_eq s "lxc")) [
      | inl e ↦ is_lxc (ap str ((eq_iff s "lxc").0 e))
      | inr l ↦ elim (Bool-cases (str_eq s "storage")) [
        | inl e ↦ is_storage (ap str ((eq_iff s "storage").0 e))
        | inr t ↦ elim (Bool-cases (str_eq s "network")) [
          | inl e ↦ is_network (ap str ((eq_iff s "network").0 e))
          | inr w ↦ is_unknown (ground arith) n q l t w
        ]
      ]
    ]
  ]
]

pub tag_of : (v : Value) → Tag v
unfolding kind_of
tag_of (str s) = tag_of_text s
tag_of null = is_unknown refl refl refl refl refl refl
tag_of (bool b) = is_unknown refl refl refl refl refl refl
tag_of (int n) = is_unknown refl refl refl refl refl refl
tag_of (float x) = is_unknown refl refl refl refl refl refl
tag_of (obj fs) = is_unknown refl refl refl refl refl refl
tag_of (arr vs) = is_unknown refl refl refl refl refl refl

module _ (decoder : Decoder) where
  -- What a dictionary of a kind, or of none, appends.
  abbrev appended : Option Kind → Dict Value → List Resource
  appended none d = []
  appended (some k) d = elim (from_dict decoder k d) [ ok row ↦ row ∷ [] | err e ↦ [] ]

  -- The rows of one class among those that an item with the type `v` appends.
  abbrev Only :
      {A : Type 0}
      → (Resource → Option A)
      → String
      → (Dict Value → Result A)
      → Value
      → Dict Value
      → Type 0
  Only pick tag decode v d =
      select pick (appended (kind_of v) d)
      ≡ (if is_text tag v then elim (decode d) [ ok row ↦ row ∷ [] | err e ↦ [] ] else [])

  abbrev Sorted : Value → Dict Value → Type 0
  Sorted v d =
      Only as_node_row "node" decoder.node v d
      × Only as_qemu_row "qemu" decoder.qemu v d
      × Only as_lxc_row "lxc" decoder.lxc v d
      × Only as_storage_row "storage" decoder.storage v d
      × Only as_network_row "network" decoder.network v d

  appended-Sorted : (v : Value) (d : Dict Value) → Tag v → Sorted v d
  unfolding kind_of from_dict
  appended-Sorted v d (is_node e) = rw e (ground arith)
  appended-Sorted v d (is_qemu e) = rw e (ground arith)
  appended-Sorted v d (is_lxc e) = rw e (ground arith)
  appended-Sorted v d (is_storage e) = rw e (ground arith)
  appended-Sorted v d (is_network e) = rw e (ground arith)
  appended-Sorted v d (is_unknown k n q l t w) =
      rw (k, n, q, l, t, w) (refl, refl, refl, refl, refl)

  -- A class that the loop knows: its rows, the text of its type, and how it is decoded.
  module _ {A : Type 0} (pick : Resource → Option A) (tag : String) (decode : Dict Value → Result A)
      (only : (v : Value) (d : Dict Value) → Only pick tag decode v d) where
    select-parse_item :
        (item : Value)
        → select pick (parse_item decoder item) ≡ select (reads tag decode) (item ∷ [])
    unfolding parse_item
    select-parse_item item = elim (Option-cases (as_dict item)) [
      | inl none' ↦ rw (none', select, parse_item) refl
      | inr (d, some') ↦ rw (some', select, parse_item) (ground (arith, only (get "type" d) d))
    ]

    select-parse_items :
        (raw : List Value) (parsed : List Resource)
        → select pick (parse_items decoder raw parsed)
          ≡ select pick parsed ++ select (reads tag decode) raw
    unfolding parse_items
    select-parse_items [] parsed = sym (++-nil (select pick parsed))
    select-parse_items (item ∷ rest) parsed =
        select-parse_items rest (parsed ++ parse_item decoder item)
        ∙ ap (λ xs. xs ++ select (reads tag decode) rest)
            (select-append pick parsed (parse_item decoder item))
        ∙ ++-assoc (select pick parsed) _ (select (reads tag decode) rest)
        ∙ ap (λ xs. select pick parsed ++ xs)
            (ap (λ xs. xs ++ select (reads tag decode) rest) (select-parse_item item)
              ∙ sym (select-append (reads tag decode) (item ∷ []) rest))

    select-resource_list :
        (value : Value)
        → select pick (deserialize_resource_list decoder value)
          ≡ select (reads tag decode) (items_in value)
    unfolding deserialize_resource_list
    select-resource_list value = elim (Option-cases (as_list value)) [
      | inl no_list ↦ rw (no_list, deserialize_resource_list, items_in) refl
      | inr (raw, found) ↦
          rw (found, deserialize_resource_list, items_in) (select-parse_items raw [])
    ]

-- In the rows of a list, those of each of the five classes are, in order, what is read of just the items that
-- are dictionaries with the text of this class as their type: an item that is no dictionary, has another type
-- or cannot be read gives none and changes nothing for the others. Anything but a list gives no row.
pub deserialize_resource_list_lem :
    (decoder : Decoder) (value : Value)
    → let rows = deserialize_resource_list decoder value in
      let raw = items_in value in
      (select as_node_row rows ≡ select (reads "node" decoder.node) raw)
      × (select as_qemu_row rows ≡ select (reads "qemu" decoder.qemu) raw)
      × (select as_lxc_row rows ≡ select (reads "lxc" decoder.lxc) raw)
      × (select as_storage_row rows ≡ select (reads "storage" decoder.storage) raw)
      × (select as_network_row rows ≡ select (reads "network" decoder.network) raw)
deserialize_resource_list_lem decoder value =
    let sorted : (v : Value) (d : Dict Value) → Sorted decoder v d =
      λ v d. appended-Sorted decoder v d (tag_of v) in
    (
      select-resource_list decoder as_node_row "node" decoder.node (λ v d. (sorted v d).0) value,
      select-resource_list decoder as_qemu_row "qemu" decoder.qemu (λ v d. (sorted v d).1) value,
      select-resource_list decoder as_lxc_row "lxc" decoder.lxc (λ v d. (sorted v d).2) value,
      select-resource_list decoder as_storage_row "storage" decoder.storage (λ v d. (sorted v d).3)
          value,
      select-resource_list decoder as_network_row "network" decoder.network (λ v d. (sorted v d).4)
          value,
    )
