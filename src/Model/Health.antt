-- ===== src/Model/Health.antt =====
-- The dataclasses of aioproxmox/model/health.py that single routes answer with, and a node's interface
-- of aioproxmox/model/summary.py.
use aioproxmox.Prelude.{ℤ, String, Option, List, str_eq, if◌then◌else◌}
use aioproxmox.Value.{Float}

pub data SubscriptionStatus : Type 0 where
  new notfound active invalid expired suspended unknown : SubscriptionStatus

unfoldable pub subscription_status : String → SubscriptionStatus
subscription_status s =
    if str_eq s "new"
    then SubscriptionStatus.new
    else if str_eq s "notfound"
    then SubscriptionStatus.notfound
    else if str_eq s "active"
    then SubscriptionStatus.active
    else if str_eq s "invalid"
    then SubscriptionStatus.invalid
    else if str_eq s "expired"
    then SubscriptionStatus.expired
    else if str_eq s "suspended"
    then SubscriptionStatus.suspended
    else SubscriptionStatus.unknown

pub record Certificate : Type 0 where
  pub filename : String
  pub subject : Option String
  pub issuer : Option String
  pub notafter : Option ℤ
  pub notbefore : Option ℤ
  pub fingerprint : Option String
  pub san : List String

pub record Subscription : Type 0 where
  pub status : SubscriptionStatus
  pub level : Option String
  pub productname : Option String
  pub nextduedate : Option String
  pub message : Option String

pub record ReplicationJob : Type 0 where
  pub id : String
  pub guest : Option ℤ
  pub vmtype : Option String
  pub target : Option String
  pub source : Option String
  pub schedule : Option String
  pub disable : Option ℤ
  pub fail_count : Option ℤ
  pub error : Option String
  pub last_sync : Option ℤ
  pub last_try : Option ℤ
  pub next_sync : Option ℤ
  pub duration : Option Float

pub record GuestWithoutBackup : Type 0 where
  pub vmid : ℤ
  pub type : Option String
  pub name : Option String

pub record NodeInterface : Type 0 where
  pub iface : String
  pub type : Option String
  pub active : Option ℤ
  pub address : Option String
  pub cidr : Option String
  pub gateway : Option String
  pub method : Option String
  pub altnames : List String
