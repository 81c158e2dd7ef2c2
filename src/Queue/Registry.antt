-- ===== src/Queue/Registry.antt =====
-- The registration of queues: `upsertQueue`, `deleteQueue` and `listQueues` of the system database,
-- and `registerQueue` and `retrieveQueue` of the process (src/dbos.ts) and of the client
-- (src/client.ts).
pub mod Registration
use mathlib.Core.Option
use dbos_transact_ts.Common.{
  String, Bool, true, false, not, Option, none, some, List, [], ◌∷◌, ◌++◌, same, if◌then◌else◌,
  is_some, update, delete,
}
use dbos_transact_ts.SysDb.Result.{
  Result, ok, err, bad_request, queue_not_found, no_application_versions,
}
use dbos_transact_ts.SysDb.Dequeue.{VersionInfo, latest_version}
use dbos_transact_ts.Queue.Params.{
  QueueParameters, QueueRecord, WorkflowQueue, validate_queue_params, record_from_params,
  from_record, named, get_queue,
}

-- Whether a new row was inserted, and the table.
unfoldable pub upsert_queue : QueueRecord → Bool → List QueueRecord → Bool × List QueueRecord
unfolding get_queue
upsert_queue r update_existing t =
    if is_some (get_queue r.name t)
    then (false, if update_existing then update (named r.name) (λ old. r) t else t)
    else (true, t ++ r ∷ [])

unfoldable pub delete_queue : String → List QueueRecord → List QueueRecord
delete_queue name t = delete (named name) t

unfoldable pub retrieve_queue : String → List QueueRecord → Option WorkflowQueue
unfolding get_queue from_record
retrieve_queue name t = Option.map from_record (get_queue name t)

pub data OnConflict : Type 0 where
  update_if_latest_version always_update never_update : OnConflict

-- `updateExisting`; `getLatestApplicationVersion` throws where there is no version.
unfoldable pub updates_existing : OnConflict → String → List VersionInfo → Result Bool
unfolding latest_version
updates_existing always_update app_version versions = ok true
updates_existing never_update app_version versions = ok false
updates_existing update_if_latest_version app_version versions = elim (latest_version versions) [
  | none ↦ err no_application_versions
  | some v ↦ ok (same v app_version)
]

-- The queue of the row that is there after the statement.
unfoldable pub persist :
    QueueRecord → Bool → List QueueRecord → Result WorkflowQueue × List QueueRecord
unfolding upsert_queue retrieve_queue
persist r update_existing t =
    let t' = (upsert_queue r update_existing t).1 in
    elim (retrieve_queue r.name t') [
      | none ↦ (err (queue_not_found r.name), t')
      | some q ↦ (ok q, t')
    ]

-- `DBOS.registerQueue`
unfoldable pub register_queue :
    OnConflict
    → String
    → List VersionInfo
    → String
    → QueueParameters
    → List QueueRecord
    → Result WorkflowQueue × List QueueRecord
unfolding validate_queue_params updates_existing persist
register_queue conflict app_version versions name params t = elim (validate_queue_params params) [
  | err e ↦ (err e, t)
  | ok _ ↦ elim (updates_existing conflict app_version versions) [
    | err e ↦ (err e, t)
    | ok u ↦ persist (record_from_params name params) u t
  ]
]

-- `DBOSClient.registerQueue`, which has no version of its own.
abbrev pub client_register_queue :
    OnConflict
    → String
    → QueueParameters
    → List QueueRecord
    → Result WorkflowQueue × List QueueRecord
client_register_queue update_if_latest_version name params t = (err bad_request, t)
client_register_queue always_update name params t = register_queue always_update "" [] name params t
client_register_queue never_update name params t = register_queue never_update "" [] name params t
