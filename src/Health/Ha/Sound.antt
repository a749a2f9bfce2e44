-- ===== src/Health/Ha/Sound.antt =====
-- What `HAStatus.from_api` of aioproxmox/model/health.py can answer.
use aioproxmox.Prelude.{
  ℕ, ◌+◌, ◌≤◌, String, ◌≡◌, refl, ap, ◌∙◌, subst, Bool, true, false, ◌&&◌, Option, none, some, List,
  [], ◌∷◌, ◌++◌, str_eq, any, length, length-append, arith, if◌then◌else◌,
}
use aioproxmox.Prelude.Dict.{Dict}
use aioproxmox.Errors.{ok, >>=-eq-ok}
use aioproxmox.Value.{Value, null, bool, int, float, str, arr, obj, as_dict, get}
use aioproxmox.Client.Env.{str_Value}
use aioproxmox.Health.Time.{FloatTime, utc}
use aioproxmox.Health.Ha.{
  HaServiceProblem, HaStatus, no_status, ha_armed_states, ha_resource_modes,
  ha_service_error_states, in_set, allowed, Kind, kind_of, read_service, read_fencing,
  text_or_empty, read_entry, read_value, read_quorate, read_node, read_entries, ha_from_api,
}

-- A field that is unset or one of the texts.
abbrev pub unset_or : List String → Option String → Bool
unset_or states none = true
unset_or states (some s) = any (str_eq s) states

abbrev pub is_problem : HaServiceProblem → Bool
is_problem p = any (str_eq p.crm_state) ha_service_error_states

abbrev pub all_problems : List HaServiceProblem → Bool
all_problems [] = true
all_problems (p ∷ ps) = is_problem p && all_problems ps

-- The number of entries of the type `service`.
abbrev pub is_service : Kind → ℕ
is_service Kind.service = 1
is_service _ = 0

abbrev pub serves : Option (Dict Value) → ℕ
serves none = 0
serves (some entry) = is_service (kind_of (get "type" entry))

abbrev pub services : List Value → ℕ
services [] = 0
services (v ∷ vs) = serves (as_dict v) + services vs

pub record IsSound (s : HaStatus) : Type 0 where
  pub armed : unset_or ha_armed_states s.armed_state ≡ true
  pub mode : unset_or ha_resource_modes s.resource_mode ≡ true
  pub problems : all_problems s.resources_error ≡ true
  pub few : length s.resources_error ≤ s.resources_total

all_problems-append :
    (ps : List HaServiceProblem) (p : HaServiceProblem)
    → all_problems ps ≡ true
    → is_problem p ≡ true
    → all_problems (ps ++ p ∷ []) ≡ true
all_problems-append [] p h k = ground arith
all_problems-append (q ∷ ps) p h k = ground (arith, all_problems-append ps p)

-- A value in a set of texts is a text, and its text is in the set.
in_set-text :
    (repr : Value → String) (states : List String) (v : Value)
    → in_set states v ≡ ok true
    → any (str_eq (str_Value repr v)) states ≡ true
unfolding in_set str_Value
in_set-text repr states (str s) h = ground arith
in_set-text repr states null h = cc
in_set-text repr states (bool b) h = cc
in_set-text repr states (int n) h = cc
in_set-text repr states (float f) h = cc
in_set-text repr states (arr vs) h = cc
in_set-text repr states (obj fs) h = cc

found-unset_or :
    (repr : Value → String) (states : List String) (v : Value) (known : Bool)
    (found : Option String)
    → in_set states v ≡ ok known
    → (if known then some (str_Value repr v) else none) ≡ found
    → unset_or states found ≡ true
found-unset_or repr states v true none e h = cc
found-unset_or repr states v true (some s) e h =
    let same : str_Value repr v ≡ s = cc in rw (← same) (in_set-text repr states v e)
found-unset_or repr states v false none e h = refl
found-unset_or repr states v false (some s) e h = absurd (cc)

allowed-unset_or :
    (repr : Value → String) (entry : Dict Value) (key : String) (states : List String)
    (found : Option String)
    → allowed repr entry key states ≡ ok found
    → unset_or states found ≡ true
unfolding allowed
allowed-unset_or repr entry key states found h =
    let (known, e, e') = >>=-eq-ok (in_set states (get key entry)) _ h in
    found-unset_or repr states (get key entry) known found e (cc)

module _ (float_time : FloatTime) (repr : Value → String) where
  read_fencing-IsSound :
      (entry : Dict Value) (s s' : HaStatus)
      → read_fencing float_time repr entry s ≡ ok s'
      → IsSound s
      → IsSound s' × (s'.resources_total ≡ s.resources_total)
  unfolding read_fencing
  read_fencing-IsSound entry s s' h i =
      let (armed, e, h') = >>=-eq-ok (allowed repr entry "armed-state" ha_armed_states) _ h in
      let (mode, e', h'') = >>=-eq-ok (allowed repr entry "resource_mode" ha_resource_modes) _ h' in
      let same : record s { armed_state = armed; resource_mode = mode } ≡ s' = cc in
      subst (λ t. IsSound t × (t.resources_total ≡ s.resources_total)) same
        (
          record {
            armed = allowed-unset_or repr entry "armed-state" ha_armed_states armed e;
            mode = allowed-unset_or repr entry "resource_mode" ha_resource_modes mode e';
            problems = i.problems;
            few = i.few;
          },
          refl,
        )

  service-IsSound :
      (sid node : String) (v : Value) (problem : Bool) (s s' : HaStatus)
      → in_set ha_service_error_states v ≡ ok problem
      → IsSound s
      → record s {
        resources_total = s.resources_total + 1;
        resources_error =
            if problem
            then s.resources_error
              ++ record { sid = sid; node = node; crm_state = str_Value repr v } ∷ []
            else s.resources_error;
      }
        ≡ s'
      → IsSound s' × (s'.resources_total ≡ s.resources_total + 1)
  service-IsSound sid node v true s s' e i same =
      subst (λ t. IsSound t × (t.resources_total ≡ s.resources_total + 1)) same
        (
          record {
            armed = i.armed;
            mode = i.mode;
            problems =
                all_problems-append s.resources_error
                  (record { sid = sid; node = node; crm_state = str_Value repr v }) i.problems
                  (in_set-text repr ha_service_error_states v e);
            few = omega (
              arith,
              i.few,
              length-append s.resources_error
                  (record { sid = sid; node = node; crm_state = str_Value repr v } ∷ []),
            );
          },
          refl,
        )
  service-IsSound sid node v false s s' e i same =
      subst (λ t. IsSound t × (t.resources_total ≡ s.resources_total + 1)) same
        (
          record {
            armed = i.armed;
            mode = i.mode;
            problems = i.problems;
            few = omega (arith, i.few);
          },
          refl,
        )

  read_service-IsSound :
      (entry : Dict Value) (s s' : HaStatus)
      → read_service float_time repr entry s ≡ ok s'
      → IsSound s
      → IsSound s' × (s'.resources_total ≡ s.resources_total + 1)
  unfolding read_service
  read_service-IsSound entry s s' h i =
      let (problem, e, h') =
        >>=-eq-ok (in_set ha_service_error_states (get "crm_state" entry)) _ h in
      service-IsSound (text_or_empty repr entry "sid") (text_or_empty repr entry "node")
        (get "crm_state" entry) problem s s' e i (cc)

  -- A round that leaves these four fields alone.
  kept :
      (s s' t : HaStatus)
      → t ≡ s'
      → t.armed_state ≡ s.armed_state
      → t.resource_mode ≡ s.resource_mode
      → t.resources_error ≡ s.resources_error
      → t.resources_total ≡ s.resources_total
      → IsSound s
      → IsSound s' × (s'.resources_total ≡ s.resources_total + 0)
  kept s s' t same a m p n i =
      subst (λ u. IsSound u × (u.resources_total ≡ s.resources_total + 0)) same
        (
          record {
            armed = ap (unset_or ha_armed_states) a ∙ i.armed;
            mode = ap (unset_or ha_resource_modes) m ∙ i.mode;
            problems = ap all_problems p ∙ i.problems;
            few = omega (arith, i.few, n, ap length p);
          },
          omega (arith, n),
        )

  read_entry-IsSound :
      (k : Kind) (entry : Dict Value) (s s' : HaStatus)
      → read_entry float_time repr k entry s ≡ ok s'
      → IsSound s
      → IsSound s' × (s'.resources_total ≡ s.resources_total + is_service k)
  unfolding read_entry
  read_entry-IsSound Kind.quorum entry s s' h i =
      kept s s' (record s { quorate = read_quorate (get "quorate" entry) s.quorate }) (cc) refl refl
        refl refl i
  read_entry-IsSound Kind.master entry s s' h i =
      kept s s'
        (record s {
          crm_master = read_node repr (get "node" entry) s.crm_master;
          crm_master_last_seen = utc float_time (get "timestamp" entry);
        })
        (cc) refl refl refl refl i
  read_entry-IsSound Kind.fencing entry s s' h i =
      let (j, e) = read_fencing-IsSound entry s s' h i in (j, omega (arith, e))
  read_entry-IsSound Kind.service entry s s' h i = read_service-IsSound entry s s' h i
  read_entry-IsSound Kind.other entry s s' h i = kept s s' s (cc) refl refl refl refl i

  read_value-IsSound :
      (o : Option (Dict Value)) (s s' : HaStatus)
      → read_value float_time repr o s ≡ ok s'
      → IsSound s
      → IsSound s' × (s'.resources_total ≡ s.resources_total + serves o)
  unfolding read_value
  read_value-IsSound none s s' h i = kept s s' s (cc) refl refl refl refl i
  read_value-IsSound (some entry) s s' h i =
      read_entry-IsSound (kind_of (get "type" entry)) entry s s' h i

  read_entries-IsSound :
      (vs : List Value) (s s' : HaStatus)
      → read_entries float_time repr vs s ≡ ok s'
      → IsSound s
      → IsSound s' × (s'.resources_total ≡ s.resources_total + services vs)
  unfolding read_entries
  read_entries-IsSound [] s s' h i = kept s s' s (cc) refl refl refl refl i
  read_entries-IsSound (v ∷ vs) s s' h i =
      let (t, e, h') = >>=-eq-ok (read_value float_time repr (as_dict v) s) _ h in
      let (j, n) = read_value-IsSound (as_dict v) s t e i in
      let (k, n') = read_entries-IsSound vs t s' h' j in (k, omega (arith, n, n'))

  -- What is read of the entries is sound: the armed state and the resource mode are unset or one of the
  -- documented texts, every problem is in one of the error states, and there are no more problems than
  -- resources, of which there are as many as entries of the type service.
  pub ha_from_api-IsSound :
      (entries : List Value) (s : HaStatus)
      → ha_from_api float_time repr entries ≡ ok s
      → IsSound s × (s.resources_total ≡ services entries)
  unfolding ha_from_api
  ha_from_api-IsSound entries s h =
      let (i, n) =
        read_entries-IsSound entries no_status s h
          (record { armed = refl; mode = refl; problems = refl; few = omega arith }) in
      (i, omega (arith, n))
