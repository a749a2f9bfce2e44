-- ===== src/Cluster/Storage/Shared.antt =====
-- What the helpers of aioproxmox/model/storage.py answer.
use aioproxmox.Prelude.{
  any-filter, any-map, any-congr, String, ◌≡◌, refl, sym, ◌∙◌, subst, Bool, true, ◌&&◌, some, List,
  [], ◌∷◌, map, filter, any, str_eq, if◌then◌else◌, arith, eq_iff, is_some,
}
use aioproxmox.Prelude.Sorting.{any-sorted_by, set_of, any-set_of, is_sorted, sorted_by-sorted}
use aioproxmox.Model.Resources.{ClusterResourcesCollection, ClusterStorageResource}
use aioproxmox.Cluster.Storage.{
  storage_rows, is_shared, shared_storage_names, SharedStorage, is_available, is_candidate,
  candidates_of, first_or, collapse, shared_storage, takes_backups, backup_storages,
}

-- A row that names one of the nodes of a shared storage.
abbrev sees : String → String → ClusterStorageResource → Bool
sees name node row = is_candidate name row && (is_available row && str_eq node row.node)

first-filter :
    (c : ClusterStorageResource) (rows : List ClusterStorageResource)
    → is_available (first_or c (filter is_available rows))
      ≡ (if any is_available rows then true else is_available c)
unfolding any filter
first-filter c [] = refl
first-filter c (row ∷ rows) = ground (arith, first-filter c rows)

-- What the candidates give: the figures and the nodes.
abbrev Sees : String → ClusterStorageResource → List ClusterStorageResource → SharedStorage → Type 0
Sees node c rows s =
    (is_available s.row ≡ any is_available (c ∷ rows))
    × (any (str_eq node) s.nodes ≡ any (λ row. is_available row && str_eq node row.node) (c ∷ rows))

first-candidate :
    (c : ClusterStorageResource) (rows : List ClusterStorageResource)
    → is_available (first_or c (filter is_available (c ∷ rows))) ≡ any is_available (c ∷ rows)
unfolding any
first-candidate c rows = ground (arith, first-filter c (c ∷ rows))

collapse-Sees :
    (name node : String) (c : ClusterStorageResource) (rows : List ClusterStorageResource)
    (s : SharedStorage)
    → collapse name (c ∷ rows) (filter is_available (c ∷ rows)) ≡ some s
    → Sees node c rows s
collapse-Sees name node c rows s h =
    let same : record {
      name = name;
      row = first_or c (filter is_available (c ∷ rows));
      nodes = map (λ row. row.node) (filter is_available (c ∷ rows));
    }
        ≡ s =
      cc in
    subst (Sees node c rows) same (
      first-candidate c rows,
      any-map (str_eq node) (λ row. row.node) (filter is_available (c ∷ rows))
          ∙ any-filter (λ row. str_eq node row.node) is_available (c ∷ rows),
    )

abbrev names_taking : ClusterResourcesCollection → List String
names_taking collection = map (λ row. row.storage) (filter takes_backups (storage_rows collection))

-- The names of the storages that take backups are sorted, and a name is among them exactly when some
-- row of a storage with this name has backup among its content types.
pub backup_storages_lem :
    (collection : ClusterResourcesCollection) (name : String)
    → (is_sorted (λ n. n) (backup_storages collection) ≡ true)
      × (any (str_eq name) (backup_storages collection)
          ≡ any (λ row. takes_backups row && str_eq name row.storage) (storage_rows collection))
unfolding backup_storages
backup_storages_lem collection name =
    let names = names_taking collection in
    (
      sorted_by-sorted (λ n. n) (set_of names),
      any-sorted_by (λ n. n) (str_eq name) (set_of names)
          ∙ any-set_of name names
          ∙ any-map (str_eq name) (λ row. row.storage)
              (filter takes_backups (storage_rows collection))
          ∙ any-filter (λ row. str_eq name row.storage) takes_backups (storage_rows collection),
    )

collapsed :
    (name node : String) (rows : List ClusterStorageResource) (s : SharedStorage)
    → collapse name rows (filter is_available rows) ≡ some s
    → (is_available s.row ≡ any is_available rows)
      × (any (str_eq node) s.nodes ≡ any (λ row. is_available row && str_eq node row.node) rows)
collapsed name node [] s h = absurd (cc)
collapsed name node (c ∷ rows) s h = collapse-Sees name node c rows s h

any-candidates :
    (p : ClusterStorageResource → Bool) (collection : ClusterResourcesCollection) (name : String)
    → any p (candidates_of collection name)
      ≡ any (λ row. is_candidate name row && p row) (storage_rows collection)
unfolding candidates_of
any-candidates p collection name =
    any-sorted_by (λ row. row.node) p (filter (is_candidate name) (storage_rows collection))
    ∙ any-filter p (is_candidate name) (storage_rows collection)

-- Where a shared storage is found under a name, its figures are of an available row exactly when some
-- shared row of this name is available, and a node is among its nodes exactly when an available
-- shared row of this name is on it.
pub shared_storage_lem :
    (collection : ClusterResourcesCollection) (name node : String) (s : SharedStorage)
    → shared_storage collection name ≡ some s
    → (is_available s.row
        ≡ any (λ row. is_candidate name row && is_available row) (storage_rows collection))
      × (any (str_eq node) s.nodes
          ≡ any
              (λ row. is_candidate name row && (is_available row && str_eq node row.node))
              (storage_rows collection))
unfolding shared_storage
shared_storage_lem collection name node s h =
    let (figures, nodes) = collapsed name node (candidates_of collection name) s h in
    (
      figures ∙ any-candidates is_available collection name,
      nodes ∙ any-candidates (λ row. is_available row && str_eq node row.node) collection name,
    )

found-collapse :
    (name : String) (rows available : List ClusterStorageResource)
    → is_some (collapse name rows available) ≡ any (λ row. true) rows
unfolding any
found-collapse name [] available = refl
found-collapse name (c ∷ rows) available = refl

-- A shared storage is found under a name exactly when the name is among the names of the shared
-- storages.
pub shared_storage-names :
    (collection : ClusterResourcesCollection) (name : String)
    → is_some (shared_storage collection name) ≡ any (str_eq name) (shared_storage_names collection)
unfolding shared_storage shared_storage_names
shared_storage-names collection name =
    found-collapse name (candidates_of collection name)
      (filter is_available (candidates_of collection name))
    ∙ any-candidates (λ row. true) collection name
    ∙ any-congr _ (λ row. is_shared row && str_eq name row.storage)
        (λ row. ground (arith, eq_iff name row.storage, eq_iff row.storage name))
        (storage_rows collection)
    ∙ sym (any-filter (λ row. str_eq name row.storage) is_shared (storage_rows collection))
    ∙ sym (any-map (str_eq name) (λ row. row.storage) (filter is_shared (storage_rows collection)))
    ∙ sym (any-set_of name (map (λ row. row.storage) (filter is_shared (storage_rows collection))))
