-- ===== src/Tests/Guests.antt =====
-- What a guest reports, at work.
use aioproxmox.Prelude.{
  ℤ, pos, ◌≡◌, refl, true, false, not, ◌&&◌, String, Option, none, some, is_some, List, [], ◌∷◌,
  ◌++◌, filter, any, str_eq, if◌then◌else◌,
}
use aioproxmox.Prelude.Int.{eq_ℤ, ltb_ℤ}
use aioproxmox.Prelude.Sorting.{in_order}
use aioproxmox.Errors.{ok}
use aioproxmox.Value.{Value, str}
use aioproxmox.Model.Guests.{GuestFilesystem, GuestInterface, Snapshot}
use aioproxmox.Guests.Usage.{guest_disk_usage}
use aioproxmox.Guests.Usage.Fits.{all_fit, guest_disk_usage-all_fit}
use aioproxmox.Guests.Addresses.{IpAddress, values, guest_addresses, primary_address}
use aioproxmox.Guests.Addresses.Primary.{head, v4, primary_address_lem}
use aioproxmox.Guests.Addresses.Listed.{shows}
use aioproxmox.Guests.Snapshots.{is_current, snap_key, later, snapshots_taken, snapshots_taken_lem}

abbrev shown : Value → String
shown v = "?"

abbrev filesystem : String → ℤ → Option ℤ → GuestFilesystem
filesystem dev used total = record {
  name = dev;
  mountpoint = none;
  type = none;
  used_bytes = some used;
  total_bytes = total;
  disk = (("dev", str dev) ∷ []) ∷ [];
}

abbrev filesystems : List GuestFilesystem
filesystems =
    filesystem "sda1" (pos 3) (some (pos 10))
    ∷ filesystem "sdb1" (pos 4) (some (pos 5))
    ∷ filesystem "sda1" (pos 2) (some (pos 10))
    ∷ []

usage : guest_disk_usage shown filesystems ≡ (some (pos 7), some (pos 15))
unfolding guest_disk_usage
usage = refl

fit : all_fit filesystems ≡ true
fit = refl

guest_disk_usage-all_fit_example : (n : ℤ) × (some (pos 15) ≡ some n) × (ltb_ℤ n (pos 7) ≡ false)
guest_disk_usage-all_fit_example =
    guest_disk_usage-all_fit shown filesystems (pos 7) (some (pos 15)) fit usage

-- A filesystem that gives no total counts, and the total is that of another one on its device.
without_total :
    guest_disk_usage shown
      (filesystem "sda1" (pos 100) none ∷ filesystem "sda1" (pos 1) (some (pos 10)) ∷ [])
    ≡ (some (pos 100), some (pos 10))
unfolding guest_disk_usage
without_total = refl

abbrev ip_address : String → Option IpAddress
ip_address s =
    if str_eq s "10.0.0.5"
    then some
        record { version = 4; is_loopback = false; is_link_local = false; is_unspecified = false }
    else if str_eq s "2001:db8::5"
    then some
        record { version = 6; is_loopback = false; is_link_local = false; is_unspecified = false }
    else if str_eq s "127.0.0.1"
    then some
        record { version = 4; is_loopback = true; is_link_local = false; is_unspecified = false }
    else none

abbrev interface : String → String → String → GuestInterface
interface name inet inet6 = record {
  name = name;
  hardware_address = none;
  hwaddr = none;
  ip_addresses = [];
  inet = some inet;
  inet6 = some inet6;
}

abbrev interfaces : List GuestInterface
interfaces =
    interface "lo" "127.0.0.1/8" ""
    ∷ interface "eth0" "" "2001:db8::5/64"
    ∷ interface "eth1" "10.0.0.5/24" ""
    ∷ []

primary : primary_address ip_address interfaces ≡ ok (some "10.0.0.5")
unfolding primary_address
primary = refl

primary_address_lem_example :
    (primary_address ip_address interfaces
      ≡ ok (
          head (
            filter (v4 ip_address) (values (guest_addresses ip_address interfaces))
            ++ values (guest_addresses ip_address interfaces))))
    × (is_some (
          head (
            filter (v4 ip_address) (values (guest_addresses ip_address interfaces))
            ++ values (guest_addresses ip_address interfaces)))
        ≡ any (shows ip_address) interfaces)
primary_address_lem_example = primary_address_lem ip_address interfaces

abbrev snapshot : String → Option ℤ → Snapshot
snapshot name snaptime = record {
  name = name;
  snaptime = snaptime;
  description = none;
  parent = none;
  vmstate = none;
  running = none;
}

abbrev entries : List Snapshot
entries =
    snapshot "a" (some (pos 5))
    ∷ snapshot "b" (some (pos 9))
    ∷ snapshot "c" (some (pos 5))
    ∷ snapshot "current" none
    ∷ []

taken :
    snapshots_taken entries
    ≡ snapshot "b" (some (pos 9)) ∷ snapshot "a" (some (pos 5)) ∷ snapshot "c" (some (pos 5)) ∷ []
unfolding snapshots_taken
taken = refl

snapshots_taken_lem_example :
    (in_order later (snapshots_taken entries) ≡ true)
    × (filter (λ entry. eq_ℤ (snap_key entry) (pos 5)) (snapshots_taken entries)
        ≡ filter (λ entry. not (is_current entry) && eq_ℤ (snap_key entry) (pos 5)) entries)
snapshots_taken_lem_example = snapshots_taken_lem entries (pos 5)
