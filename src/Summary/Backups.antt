-- ===== src/Summary/Backups.antt =====
-- LastBackup, RunningBackup, `_utc` and `load_average` of aioproxmox/model/summary.py.
use aioproxmox.Prelude.{
  ℕ, ◌+◌, ◌-◌, ◌/◌, ℤ, pos, String, Bool, Option, none, some, List, [], ◌∷◌, filter, str_eq,
  nonempty, if◌then◌else◌,
}
use aioproxmox.Prelude.Int.{eq_ℤ, ltb_ℤ, pos_part, neg_part}
use aioproxmox.Errors.{Error, Result, ok, err, value_error, type_error, ◌>>=◌}
use aioproxmox.Value.{Value, Float, as_list}
use aioproxmox.Model.Nodes.{NodeTask}
use aioproxmox.Health.Time.{from_timestamp}

-- `datetime.fromtimestamp(value, tz=UTC) if value else None`: a time out of range raises.
unfoldable pub utc_or_none : Option ℤ → Result (Option ℤ)
unfolding from_timestamp
utc_or_none none = ok none
utc_or_none (some n) =
    if eq_ℤ n (pos 0)
    then ok none
    else elim (from_timestamp n) [ none ↦ err value_error | some t ↦ ok (some t) ]

-- `text or None`
abbrev pub text_or_none : String → Option String
text_or_none s = if nonempty s then some s else none

pub record LastBackup : Type 0 where
  pub started : Option ℤ
  pub finished : Option ℤ
  pub status : Option String
  pub guests : Option String
  pub user : Option String

-- The seconds between two times, of which the second is not before the first.
abbrev seconds_between : ℤ → ℤ → ℕ
seconds_between a b = ((pos_part b + neg_part a) - (pos_part a + neg_part b)) / 1000000

-- LastBackup.duration
unfoldable pub duration : LastBackup → Option ℕ
duration b = elim b.started [
  | none ↦ none
  | some started ↦ elim b.finished [
    | none ↦ none
    | some finished ↦
        if ltb_ℤ finished started then none else some (seconds_between started finished)
  ]
]

-- LastBackup.ok
unfoldable pub verdict_ok : LastBackup → Option Bool
verdict_ok b = elim b.status [ none ↦ none | some s ↦ some (str_eq s "OK") ]

-- `task.task_type == "vzdump"`
abbrev pub is_vzdump : NodeTask → Bool
is_vzdump task = str_eq task.task_type "vzdump"

-- What is read of the first run, if there is one.
unfoldable pub last_of : List NodeTask → Result (Option LastBackup)
unfolding utc_or_none
last_of [] = ok none
last_of (task ∷ runs) = do
  started ← utc_or_none (some task.starttime)
  finished ← utc_or_none task.endtime
  ok (
      some record {
        started = started;
        finished = finished;
        status = task.status;
        guests = text_or_none task.id;
        user = text_or_none task.user;
      })

-- LastBackup.from_tasks
unfoldable pub last_backup : List NodeTask → Result (Option LastBackup)
unfolding filter last_of
last_backup tasks = last_of (filter is_vzdump tasks)

pub record RunningBackup : Type 0 where
  pub since : Option ℤ
  pub guests : Option String

unfoldable pub running_of : List NodeTask → Result (Option RunningBackup)
unfolding utc_or_none
running_of [] = ok none
running_of (task ∷ runs) = do
  since ← utc_or_none (some task.starttime)
  ok (some record { since = since; guests = text_or_none task.id })

-- RunningBackup.from_tasks
unfoldable pub running_backup : List NodeTask → Result (Option RunningBackup)
unfolding filter running_of
running_backup tasks = running_of (filter is_vzdump tasks)

-- `except TypeError, ValueError: return None`; `to_float` is Python's `float`.
abbrev caught : Error → Result (Option (Float × Float × Float))
caught type_error = ok none
caught value_error = ok none
caught e = err e

-- The three floats of the generator.
abbrev three_floats :
    (Value → Result Float) → Value → Value → Value → Result (Float × Float × Float)
three_floats to_float one five fifteen = do
  a ← to_float one
  b ← to_float five
  c ← to_float fifteen
  ok (a, b, c)

abbrev or_none : Result (Float × Float × Float) → Result (Option (Float × Float × Float))
or_none (ok loads) = ok (some loads)
or_none (err e) = caught e

abbrev load_of : (Value → Result Float) → List Value → Result (Option (Float × Float × Float))
load_of to_float (one ∷ five ∷ fifteen ∷ []) = or_none (three_floats to_float one five fifteen)
load_of to_float _ = ok none

unfoldable pub load_average :
    (Value → Result Float) → Value → Result (Option (Float × Float × Float))
unfolding as_list
load_average to_float value = elim (as_list value) [
  | none ↦ ok none
  | some vs ↦ load_of to_float vs
]
