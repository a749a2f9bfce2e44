-- ===== src/Guests/Snapshots.antt =====
-- The snapshots of a guest in aioproxmox/model/guest.py.
use aioproxmox.Prelude.{
  Option, ℤ, pos, ◌≡◌, ◌∙◌, Bool, true, false, not, ◌&&◌, none, some, List, filter, filter-filter,
  str_eq, arith,
}
use aioproxmox.Prelude.Int.{eq_ℤ, ltb_ℤ, eq_ℤ_iff}
use aioproxmox.Prelude.Sorting.{sort_with, in_order, filter-sort_with, sort_with-in_order}
use aioproxmox.Errors.{Result}
use aioproxmox.Model.Guests.{Snapshot}
use aioproxmox.Summary.Backups.{utc_or_none}

unfoldable pub is_current : Snapshot → Bool
is_current entry = str_eq entry.name "current"

-- `entry.snaptime or 0`
unfoldable pub snap_key : Snapshot → ℤ
snap_key entry = elim entry.snaptime [ none ↦ pos 0 | some t ↦ t ]

unfoldable pub taken_at : Snapshot → Result (Option ℤ)
unfolding utc_or_none
taken_at entry = utc_or_none entry.snaptime

-- The order of the sort, which is reversed.
unfoldable pub newer : Snapshot → Snapshot → Bool
unfolding snap_key
newer x y = ltb_ℤ (snap_key y) (snap_key x)

unfoldable pub snapshots_taken : List Snapshot → List Snapshot
unfolding filter sort_with newer is_current
snapshots_taken entries = sort_with newer (filter (λ entry. not (is_current entry)) entries)

-- One snapshot has a later time than another.
abbrev pub later : Snapshot → Snapshot → Bool
unfolding snap_key
later x y = ltb_ℤ (snap_key y) (snap_key x)

newer_asym : (x y : Snapshot) → newer x y ≡ true → newer y x ≡ false
unfolding newer
newer_asym x y h = ground arith

tied :
    (t : ℤ) (x y : Snapshot)
    → eq_ℤ (snap_key x) t ≡ true
    → eq_ℤ (snap_key y) t ≡ true
    → newer x y ≡ false
unfolding newer
tied t x y h k = ground (arith, eq_ℤ_iff (snap_key x) t, eq_ℤ_iff (snap_key y) t)

-- The snapshots come newest first, and those of one time are the entries of that time that are not the
-- live state, in the order of the list.
pub snapshots_taken_lem :
    (entries : List Snapshot) (t : ℤ)
    → (in_order later (snapshots_taken entries) ≡ true)
      × (filter (λ entry. eq_ℤ (snap_key entry) t) (snapshots_taken entries)
          ≡ filter (λ entry. not (is_current entry) && eq_ℤ (snap_key entry) t) entries)
unfolding snapshots_taken newer
snapshots_taken_lem entries t =
    let taken = filter (λ entry. not (is_current entry)) entries in
    (
      sort_with-in_order newer newer_asym taken,
      filter-sort_with newer (λ entry. eq_ℤ (snap_key entry) t) (tied t) taken
          ∙ filter-filter (λ entry. eq_ℤ (snap_key entry) t) (λ entry. not (is_current entry))
              entries,
    )
