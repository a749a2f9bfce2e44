-- ===== src/Model/Guests.antt =====
-- The dataclasses of one guest in aioproxmox/model/pve.py and aioproxmox/model/guest.py.
use aioproxmox.Prelude.{ℤ, String, Option, List}
use aioproxmox.Prelude.Dict.{Dict}
use aioproxmox.Value.{Value, Float}
use aioproxmox.Model.Enums.{OperationalStatus, QmpStatus}

pub record QemuResource : Type 0 where
  pub vmid : ℤ
  pub name : String
  pub status : OperationalStatus
  pub cpus : ℤ
  pub cpu : Float
  pub mem : ℤ
  pub maxmem : ℤ
  pub disk : ℤ
  pub maxdisk : ℤ
  pub memhost : ℤ
  pub netin : ℤ
  pub netout : ℤ
  pub uptime : ℤ
  pub pid : Option ℤ
  pub template : ℤ

pub record QemuStatus : Type 0 where
  pub vmid : ℤ
  pub status : OperationalStatus
  pub qmpstatus : QmpStatus
  pub name : String
  pub cpus : ℤ
  pub cpu : Float
  pub mem : ℤ
  pub maxmem : ℤ
  pub disk : ℤ
  pub maxdisk : ℤ
  pub uptime : ℤ
  pub netin : ℤ
  pub netout : ℤ
  pub agent : Option ℤ

pub record ContainerResource : Type 0 where
  pub vmid : ℤ
  pub name : String
  pub status : OperationalStatus
  pub cpus : ℤ
  pub cpu : Float
  pub mem : ℤ
  pub maxmem : ℤ
  pub disk : ℤ
  pub maxdisk : ℤ
  pub netin : ℤ
  pub netout : ℤ
  pub swap : ℤ
  pub maxswap : ℤ
  pub uptime : ℤ
  pub pid : Option ℤ
  pub template : ℤ

pub record LxcStatus : Type 0 where
  pub vmid : ℤ
  pub status : String
  pub name : String
  pub cpus : ℤ
  pub cpu : Float
  pub mem : ℤ
  pub maxmem : ℤ
  pub swap : ℤ
  pub maxswap : ℤ
  pub disk : ℤ
  pub maxdisk : ℤ
  pub diskread : ℤ
  pub diskwrite : ℤ
  pub netin : ℤ
  pub netout : ℤ
  pub uptime : ℤ
  pub pid : Option ℤ

pub record GuestFilesystem : Type 0 where
  pub name : String
  pub mountpoint : Option String
  pub type : Option String
  pub used_bytes : Option ℤ
  pub total_bytes : Option ℤ
  pub disk : List (Dict Value)

pub record GuestAddress : Type 0 where
  pub ip_address : String
  pub ip_address_type : Option String
  pub prefix : Option ℤ

pub record GuestInterface : Type 0 where
  pub name : String
  pub hardware_address : Option String
  pub hwaddr : Option String
  pub ip_addresses : List GuestAddress
  pub inet : Option String
  pub inet6 : Option String

pub record Snapshot : Type 0 where
  pub name : String
  pub snaptime : Option ℤ
  pub description : Option String
  pub parent : Option String
  pub vmstate : Option ℤ
  pub running : Option ℤ
