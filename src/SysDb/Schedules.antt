-- ===== src/SysDb/Schedules.antt =====
-- The statements on `workflow_schedules`: `createSchedule`, `listSchedules`, `getSchedule`,
-- `deleteSchedule`, `setScheduleStatus`, `updateSchedule`, `updateLastFiredAt` and `applySchedules`.
pub mod Applied
use dbos_transact_ts.Common.{
  String, Bool, true, false, not, ◌&&◌, ◌||◌, Option, none, some, List, [], ◌∷◌, ◌++◌, same,
  if◌then◌else◌, is_some, or_else, first, select, update, delete, order_by, any_of,
}
use dbos_transact_ts.SysDb.Result.{
  Result, ok, err, unique_violation, not_null_violation, schedule_exists, schedule_not_found,
  bad_request,
}

-- A row of `workflow_schedules`, with the key `schedule_id` and the unique `schedule_name`.
pub record Schedule : Type 0 where
  pub schedule_id : String
  pub schedule_name : String
  pub workflow_name : String
  pub workflow_class_name : String
  pub schedule : String
  pub status : String
  pub context : String
  pub last_fired_at : Option String
  pub automatic_backfill : Bool
  pub cron_timezone : Option String
  pub queue_name : Option String

abbrev pub has_schedule_name : String → Schedule → Bool
has_schedule_name name r = same r.schedule_name name

-- `getSchedule`
unfoldable pub get_schedule : String → List Schedule → Option Schedule
get_schedule name t = first (has_schedule_name name) t

-- The `INSERT`.
unfoldable pub insert_schedule : Schedule → List Schedule → Result (List Schedule)
unfolding get_schedule
insert_schedule s t =
    if is_some (first (λ r. same r.schedule_id s.schedule_id) t)
      || is_some (get_schedule s.schedule_name t)
    then err unique_violation
    else ok (t ++ s ∷ [])

-- `catch`: a broken unique constraint is conflict_named under the name of the schedule.
abbrev pub conflict_named :
    String → List Schedule → Result (List Schedule) → Result (Unit {0}) × List Schedule
conflict_named name t (ok t') = (ok tt, t')
conflict_named name t (err unique_violation) = (err (schedule_exists name), t)
conflict_named name t (err e) = (err e, t)

unfoldable pub create_schedule : Schedule → List Schedule → Result (Unit {0}) × List Schedule
unfolding insert_schedule
create_schedule s t = conflict_named s.schedule_name t (insert_schedule s t)

unfoldable pub delete_schedule : String → List Schedule → List Schedule
delete_schedule name t = delete (has_schedule_name name) t

unfoldable pub set_schedule_status : String → String → List Schedule → List Schedule
set_schedule_status name status t =
    update (has_schedule_name name) (λ r. record r { status = status }) t

unfoldable pub update_last_fired_at : String → String → List Schedule → List Schedule
update_last_fired_at name last_fired_at t =
    update (has_schedule_name name) (λ r. record r { last_fired_at = some last_fired_at }) t

-- `updates`: a key that is there has a value, or `none` for `null` and `undefined`.
pub record ScheduleUpdate : Type 0 where
  pub schedule : Option (Option String)
  pub context : Option (Option String)
  pub automatic_backfill : Option (Option Bool)
  pub cron_timezone : Option (Option String)
  pub queue_name : Option (Option String)

-- `setClauses.length === 0`
abbrev pub is_empty : ScheduleUpdate → Bool
is_empty u = not (
    is_some u.schedule
    || is_some u.context
    || is_some u.automatic_backfill
    || is_some u.cron_timezone
    || is_some u.queue_name)

-- A clause that sets a column to `NULL`.
abbrev pub is_null {ℓ} : {A : Type ℓ} → Option (Option A) → Bool
is_null (some none) = true
is_null (some (some a)) = false
is_null none = false

-- The columns that are `NOT NULL`.
abbrev pub violates_not_null : ScheduleUpdate → Bool
violates_not_null u = is_null u.schedule || is_null u.context || is_null u.automatic_backfill

abbrev pub set_column {ℓ} : {A : Type ℓ} → Option (Option A) → A → A
set_column (some (some a)) old = a
set_column (some none) old = old
set_column none old = old

abbrev pub updated : ScheduleUpdate → Schedule → Schedule
updated u r = record r {
  schedule = set_column u.schedule r.schedule;
  context = set_column u.context r.context;
  automatic_backfill = set_column u.automatic_backfill r.automatic_backfill;
  cron_timezone = or_else u.cron_timezone r.cron_timezone;
  queue_name = or_else u.queue_name r.queue_name;
}

unfoldable pub update_schedule :
    String → ScheduleUpdate → List Schedule → Result (Unit {0}) × List Schedule
unfolding get_schedule
update_schedule name u t =
    if not (is_some (get_schedule name t))
    then (err (schedule_not_found name), t)
    else (if is_empty u
        then (ok tt, t)
        else (if violates_not_null u
            then (err not_null_violation, t)
            else (ok tt, update (has_schedule_name name) (updated u) t)))

-- `ON CONFLICT (schedule_name) DO UPDATE SET`
abbrev pub redefined : Schedule → Schedule → Schedule
redefined s r = record r {
  workflow_name = s.workflow_name;
  workflow_class_name = s.workflow_class_name;
  schedule = s.schedule;
  context = s.context;
  automatic_backfill = s.automatic_backfill;
  cron_timezone = s.cron_timezone;
  queue_name = s.queue_name;
}

unfoldable pub upsert_schedule : Schedule → List Schedule → Result (List Schedule)
unfolding get_schedule insert_schedule
upsert_schedule s t =
    if is_some (get_schedule s.schedule_name t)
    then ok (update (has_schedule_name s.schedule_name) (redefined s) t)
    else insert_schedule s t

unfoldable pub apply_each : List Schedule → List Schedule → Result (List Schedule)
unfolding upsert_schedule
apply_each [] t = ok t
apply_each (s ∷ ss) t = elim (upsert_schedule s t) [ err e ↦ err e | ok t' ↦ apply_each ss t' ]

-- `applySchedules`, rolled back where a statement fails.
unfoldable pub apply_schedules : List Schedule → List Schedule → Result (Unit {0}) × List Schedule
unfolding apply_each
apply_schedules ss t = elim (apply_each ss t) [ err e ↦ (err e, t) | ok t' ↦ (ok tt, t') ]

-- A filter of `listSchedules`: a name, or an array of names.
pub data Names : Type 0 where
  any : Names
  one : String → Names
  several : List String → Names

-- An empty string is no filter; `IN ()` is no expression.
abbrev pub wanted : Names → Result (Option (List String))
wanted any = ok none
wanted (one s) = if same s "" then ok none else ok (some (s ∷ []))
wanted (several []) = err bad_request
wanted (several (s ∷ ss)) = ok (some (s ∷ ss))

pub record ScheduleFilters : Type 0 where
  pub status : Names
  pub workflow_name : Names
  pub schedule_name_prefix : Names

-- One of the conditions: no filter, or a column that meets one of the wanted values.
abbrev pub meets : (String → String → Bool) → Option (List String) → String → Bool
meets test none column = true
meets test (some values) column = is_some (first (λ v. test v column) values)

-- The database's comparisons: `starts p c` is `c LIKE p || '%'`, and `le` its order on names.
module _ (starts : String → String → Bool) (le : String → String → Bool) where
  abbrev pub listed :
      Option (List String)
      → Option (List String)
      → Option (List String)
      → List Schedule
      → List Schedule
  listed status workflow prefix t =
      order_by (λ r r'. le r.schedule_name r'.schedule_name)
        (select
          (λ r.
            meets same status r.status
            && meets same workflow r.workflow_name
            && meets starts prefix r.schedule_name)
          t)

  unfoldable pub list_schedules : ScheduleFilters → List Schedule → Result (List Schedule)
  list_schedules f t = elim (wanted f.status) [
    | err e ↦ err e
    | ok status ↦ elim (wanted f.workflow_name) [
      | err e ↦ err e
      | ok workflow ↦ elim (wanted f.schedule_name_prefix) [
        | err e ↦ err e
        | ok prefix ↦ ok (listed status workflow prefix t)
      ]
    ]
  ]
