-- ===== src/Cluster/Storage.antt =====
-- aioproxmox/model/storage.py: storage as the cluster lists it.
pub mod Shared
use aioproxmox.Prelude.{
  String, Bool, true, false, not, ◌&&◌, Option, none, some, List, [], ◌∷◌, map, filter, any, str_eq,
  pos,
}
use aioproxmox.Prelude.Int.{eq_ℤ}
use aioproxmox.Prelude.Text
use aioproxmox.Prelude.Sorting.{sorted_by, set_of}
use aioproxmox.Model.Enums.{OperationalStatus}
use aioproxmox.Model.Resources.{
  Resource, storage_row, ClusterResourcesCollection, ClusterStorageResource,
}

-- `[r for r in resources if isinstance(r, ClusterStorageResource)]`
unfoldable pub rows_of : List Resource → List ClusterStorageResource
rows_of [] = []
rows_of (storage_row r ∷ rest) = r ∷ rows_of rest
rows_of (_ ∷ rest) = rows_of rest

unfoldable pub storage_rows : ClusterResourcesCollection → List ClusterStorageResource
unfolding rows_of
storage_rows collection = rows_of collection.resources

-- `row.shared`, an integer, as a condition
abbrev pub is_shared : ClusterStorageResource → Bool
is_shared row = not (eq_ℤ row.shared (pos 0))

unfoldable pub shared_storage_names : ClusterResourcesCollection → List String
unfolding storage_rows filter set_of
shared_storage_names collection =
    set_of (map (λ row. row.storage) (filter is_shared (storage_rows collection)))

pub record SharedStorage : Type 0 where
  pub name : String
  pub row : ClusterStorageResource
  pub nodes : List String

-- `row.status == OperationalStatus.AVAILABLE`
abbrev pub available_status : OperationalStatus → Bool
available_status OperationalStatus.available = true
available_status _ = false

abbrev pub is_available : ClusterStorageResource → Bool
is_available row = available_status row.status

-- `row.storage == name and row.shared`
abbrev pub is_candidate : String → ClusterStorageResource → Bool
is_candidate name row = str_eq row.storage name && is_shared row

unfoldable pub candidates_of : ClusterResourcesCollection → String → List ClusterStorageResource
unfolding storage_rows filter sorted_by
candidates_of collection name =
    sorted_by (λ row. row.node) (filter (is_candidate name) (storage_rows collection))

-- `available[0] if available else candidates[0]`
abbrev pub first_or : ClusterStorageResource → List ClusterStorageResource → ClusterStorageResource
first_or candidate [] = candidate
first_or candidate (row ∷ rows) = row

-- What is built of the candidates and of those available.
abbrev pub collapse :
    String → List ClusterStorageResource → List ClusterStorageResource → Option SharedStorage
collapse name [] available = none
collapse name (candidate ∷ rest) available = some record {
  name = name;
  row = first_or candidate available;
  nodes = map (λ row. row.node) available;
}

unfoldable pub shared_storage : ClusterResourcesCollection → String → Option SharedStorage
unfolding candidates_of filter
shared_storage collection name =
    let candidates = candidates_of collection name in
    collapse name candidates (filter is_available candidates)

-- `"backup" in row.content.split(",")`
unfoldable pub takes_backups : ClusterStorageResource → Bool
unfolding any Text.split
takes_backups row = any (str_eq "backup") (Text.split b',' row.content)

unfoldable pub backup_storages : ClusterResourcesCollection → List String
unfolding storage_rows filter takes_backups set_of sorted_by
backup_storages collection =
    sorted_by (λ name. name)
      (set_of (map (λ row. row.storage) (filter takes_backups (storage_rows collection))))
