-- ===== src/Health/Ha.antt =====
-- HAStatus of aioproxmox/model/health.py.
pub mod Sound
use aioproxmox.Prelude.{
  ℕ, ◌+◌, ◌^◌, ℤ, pos, negsuc, String, Bool, false, Option, none, some, List, [], ◌∷◌, ◌++◌, str_eq,
  ◌==◌, any, if◌then◌else◌,
}
use aioproxmox.Prelude.Int.{ltb_ℤ, ◌+ℤ◌}
use aioproxmox.Prelude.Dict
use aioproxmox.Prelude.Dict.{Dict}
use aioproxmox.Errors.{Result, ok, err, type_error, ◌>>=◌}
use aioproxmox.Value.{Value, null, bool, int, float, str, arr, obj, as_dict, get}
use aioproxmox.Client.Env.{str_Value}
use aioproxmox.Health.Time.{FloatTime, utc}

-- HA_ARMED_STATES, HA_RESOURCE_MODES and HA_SERVICE_ERROR_STATES
abbrev pub ha_armed_states : List String
ha_armed_states = "armed" ∷ "standby" ∷ "disarming" ∷ "disarmed" ∷ []

abbrev pub ha_resource_modes : List String
ha_resource_modes = "freeze" ∷ "ignore" ∷ []

abbrev pub ha_service_error_states : List String
ha_service_error_states = "error" ∷ "fence" ∷ "recovery" ∷ []

pub record HaServiceProblem : Type 0 where
  pub sid : String
  pub node : String
  pub crm_state : String

pub record HaStatus : Type 0 where
  pub quorate : Option Bool
  pub crm_master : Option String
  pub crm_master_last_seen : Option ℤ
  pub armed_state : Option String
  pub resource_mode : Option String
  pub resources_total : ℕ
  pub resources_error : List HaServiceProblem

abbrev pub no_status : HaStatus
no_status = record {
  quorate = none;
  crm_master = none;
  crm_master_last_seen = none;
  armed_state = none;
  resource_mode = none;
  resources_total = 0;
  resources_error = [];
}

-- `value in allowed` of a set of texts: a list or a dictionary has no hash.
unfoldable pub in_set : List String → Value → Result Bool
unfolding any
in_set allowed (str s) = ok (any (str_eq s) allowed)
in_set allowed (arr vs) = err type_error
in_set allowed (obj fs) = err type_error
in_set allowed _ = ok false

-- `_allowed`
unfoldable pub allowed :
    (Value → String) → Dict Value → String → List String → Result (Option String)
unfolding in_set get str_Value
allowed repr entry key states = do
  known ← in_set states (get key entry)
  ok (if known then some (str_Value repr (get key entry)) else none)

-- `value in (True, 1, "1")`
unfoldable pub is_one : Value → Bool
is_one (bool b) = b
is_one (int (pos n)) = n == 1
is_one (float f) = elim f.mantissa [ pos n ↦ n == 2 ^ f.scale | negsuc n ↦ false ]
is_one (str s) = str_eq s "1"
is_one _ = false

-- `entry.get(key, "")` as a text
unfoldable pub text_or_empty : (Value → String) → Dict Value → String → String
unfolding Dict.lookup str_Value
text_or_empty repr entry key = elim (Dict.lookup key entry) [
  | none ↦ ""
  | some v ↦ str_Value repr v
]

-- The cases of the `match` on the type of an entry.
pub data Kind : Type 0 where
  quorum master fencing service other : Kind

unfoldable pub kind_of : Value → Kind
kind_of (str s) =
    if str_eq s "quorum"
    then Kind.quorum
    else if str_eq s "master"
    then Kind.master
    else if str_eq s "fencing"
    then Kind.fencing
    else if str_eq s "service"
    then Kind.service
    else Kind.other
kind_of _ = Kind.other

-- `if (value := entry.get("quorate")) is not None: …` and the same for the node
unfoldable pub read_quorate : Value → Option Bool → Option Bool
unfolding is_one
read_quorate null before = before
read_quorate value before = some (is_one value)

unfoldable pub read_node : (Value → String) → Value → Option String → Option String
unfolding str_Value
read_node repr null before = before
read_node repr node before = some (str_Value repr node)

module _ (float_time : FloatTime) (repr : Value → String) where
  unfoldable pub read_service : Dict Value → HaStatus → Result HaStatus
  unfolding in_set get text_or_empty str_Value
  read_service entry s = do
    problem ← in_set ha_service_error_states (get "crm_state" entry)
    ok (record s {
      resources_total = s.resources_total + 1;
      resources_error =
          if problem
          then s.resources_error
            ++ record {
              sid = text_or_empty repr entry "sid";
              node = text_or_empty repr entry "node";
              crm_state = str_Value repr (get "crm_state" entry);
            }
              ∷ []
          else s.resources_error;
    })

  unfoldable pub read_fencing : Dict Value → HaStatus → Result HaStatus
  unfolding allowed
  read_fencing entry s = do
    armed ← allowed repr entry "armed-state" ha_armed_states
    mode ← allowed repr entry "resource_mode" ha_resource_modes
    ok (record s { armed_state = armed; resource_mode = mode })

  -- One round of the loop, on an entry that is a dictionary.
  unfoldable pub read_entry : Kind → Dict Value → HaStatus → Result HaStatus
  unfolding read_service read_fencing read_quorate read_node utc get
  read_entry Kind.quorum entry s =
      ok (record s { quorate = read_quorate (get "quorate" entry) s.quorate })
  read_entry Kind.master entry s = ok (record s {
    crm_master = read_node repr (get "node" entry) s.crm_master;
    crm_master_last_seen = utc float_time (get "timestamp" entry);
  })
  read_entry Kind.fencing entry s = read_fencing entry s
  read_entry Kind.service entry s = read_service entry s
  read_entry Kind.other entry s = ok s

  -- What is no dictionary is skipped.
  unfoldable pub read_value : Option (Dict Value) → HaStatus → Result HaStatus
  unfolding read_entry kind_of get
  read_value none s = ok s
  read_value (some entry) s = read_entry (kind_of (get "type" entry)) entry s

  unfoldable pub read_entries : List Value → HaStatus → Result HaStatus
  unfolding read_value as_dict
  read_entries [] s = ok s
  read_entries (v ∷ vs) s = do s' ← read_value (as_dict v) s; read_entries vs s'

  unfoldable pub ha_from_api : List Value → Result HaStatus
  unfolding read_entries
  ha_from_api entries = read_entries entries no_status

-- `now - last_seen > timedelta(seconds=30)`
unfoldable pub crm_master_stale : ℤ → HaStatus → Option Bool
unfolding ◌+ℤ◌
crm_master_stale now s = elim s.crm_master_last_seen [
  | none ↦ none
  | some seen ↦ some (ltb_ℤ (seen +ℤ pos 30000000) now)
]
