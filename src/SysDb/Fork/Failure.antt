-- ===== src/SysDb/Fork/Failure.antt =====
-- `forkFromFailure`: forks from the last step that failed, from the last step, from a given step or
-- from the last step of a name.
pub mod Restart
use dbos_transact_ts.Common.{
  ℕ, zero, suc, ◌+◌, String, Bool, true, false, ◌&&◌, ◌==◌, Option, none, some, List, [], ◌∷◌, map,
  max, same, is_some, column_is, if◌then◌else◌,
}
use dbos_transact_ts.SysDb.Schema.{Db, OperationOutput}
use dbos_transact_ts.SysDb.Result.{Result, ok, err, bad_request}
use dbos_transact_ts.SysDb.Fork.{ForkOptions, bulk_fork_workflows}

pub record FailureOptions : Type 0 where
  pub application_version : Option String
  pub queue_name : Option String
  pub queue_partition_key : Option String
  pub from_last_failure : Bool
  pub from_last_step : Bool
  pub from_step : Option ℕ
  pub from_step_name : Option String

-- `modes`
abbrev pub modes : FailureOptions → ℕ
modes o =
    (if o.from_last_failure then 1 else 0)
    + (if o.from_last_step then 1 else 0)
    + (if is_some o.from_step then 1 else 0)
    + (if is_some o.from_step_name then 1 else 0)

-- `MAX(function_id) FILTER (WHERE ...)`
unfoldable pub max_step : (OperationOutput → Bool) → List OperationOutput → Option ℕ
max_step p [] = none
max_step p (r ∷ t) =
    let rest = max_step p t in
    if p r then some (elim rest [ none ↦ r.function_id | some m ↦ max r.function_id m ]) else rest

abbrev pub is_step_of : String → OperationOutput → Bool
is_step_of id r = same r.workflow_uuid id

abbrev pub is_failed_step_of : String → OperationOutput → Bool
is_failed_step_of id r = same r.workflow_uuid id && is_some r.error

abbrev pub is_step_named : String → String → OperationOutput → Bool
is_step_named id name r = same r.workflow_uuid id && column_is r.function_name name

-- `start_step` of the row of one workflow; there is none where the query has no row for it.
unfoldable pub start_step_of : FailureOptions → String → List OperationOutput → Option ℕ
unfolding max_step
start_step_of o id t =
    if o.from_last_failure
    then elim (max_step (is_failed_step_of id) t) [
      | some m ↦ some m
      | none ↦ max_step (is_step_of id) t
    ]
    else (if o.from_last_step
        then max_step (is_step_of id) t
        else elim o.from_step_name [ none ↦ none | some name ↦ max_step (is_step_named id name) t ])

unfoldable pub start_each : FailureOptions → List String → List OperationOutput → Result (List ℕ)
unfolding start_step_of
start_each o [] t = ok []
start_each o (id ∷ ids) t =
    let rest = start_each o ids t in
    elim (start_step_of o id t) [
      | none ↦ err bad_request
      | some s ↦ elim rest [ err e ↦ err e | ok ss ↦ ok (s ∷ ss) ]
    ]

-- `startSteps`
abbrev pub start_steps : FailureOptions → List String → List OperationOutput → Result (List ℕ)
start_steps o ids t = elim o.from_step [
  | some s ↦ ok (map (λ (id : String). s) ids)
  | none ↦ start_each o ids t
]

abbrev pub fork_options : FailureOptions → ForkOptions
fork_options o = record {
  application_version = o.application_version;
  timeout_ms = none;
  queue_name = o.queue_name;
  queue_partition_key = o.queue_partition_key;
  replacement_children = [];
}

-- `new_ids` are what `randomUUID` yields, and `others` is what other transactions do between the query
-- and the transaction of the forks.
unfoldable pub fork_from_failure :
    ℕ → List String → List String → FailureOptions → (Db → Db) → Db → Result (List String) × Db
unfolding start_each bulk_fork_workflows
fork_from_failure now ids new_ids o others db =
    if modes o == 1
    then elim (start_steps o ids db.operation_outputs) [
      | err e ↦ (err e, db)
      | ok ss ↦ bulk_fork_workflows now ids new_ids ss (fork_options o) (others db)
    ]
    else (err bad_request, db)
