-- ===== src/Model/Disks.antt =====
-- The dataclasses of aioproxmox/model/disks.py.
use aioproxmox.Prelude.{ℤ, String, Option, List, str_eq, if◌then◌else◌}
use aioproxmox.Prelude.Dict.{Dict}
use aioproxmox.Value.{Value, Float}

pub data DiskType : Type 0 where
  hdd ssd nvme unknown : DiskType

unfoldable pub disk_type : String → DiskType
disk_type s =
    if str_eq s "hdd"
    then DiskType.hdd
    else if str_eq s "ssd"
    then DiskType.ssd
    else if str_eq s "nvme"
    then DiskType.nvme
    else DiskType.unknown

pub record NodeDisk : Type 0 where
  pub devpath : String
  pub size : ℤ
  pub type : DiskType
  pub model : Option String
  pub serial : Option String
  pub vendor : Option String
  pub wwn : Option String
  pub by_id_link : Option String
  pub health : Option String
  pub used : Option String
  pub rpm : Option ℤ
  pub gpt : Option ℤ
  pub osdid : Option ℤ
  pub wearout : Option ℤ

pub record SmartSummary : Type 0 where
  pub temperature : Option ℤ
  pub temperature_air : Option ℤ
  pub power_hours : Option ℤ
  pub power_cycles : Option ℤ
  pub life_left : Option ℤ
  pub power_loss : Option ℤ

pub record DiskSmart : Type 0 where
  pub health : Option String
  pub type : Option String
  pub attributes : List (Dict Value)
  pub text : Option String

pub record ZfsPool : Type 0 where
  pub name : String
  pub health : String
  pub size : ℤ
  pub alloc : ℤ
  pub free : ℤ
  pub frag : Option ℤ
  pub dedup : Option Float
