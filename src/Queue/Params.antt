-- ===== src/Queue/Params.antt =====
-- The configuration of a queue: `QueueParameters`, `WorkflowQueue`, the row of the `queues` table
-- (`QueueRecord`), and the methods that check, store, load and change it. Numbers are natural, so
-- that `<= 0` is `== 0`. The row keeps its polling interval in milliseconds here, where the source
-- divides by 1000 on the way in and multiplies on the way out.
pub mod Changes
use dbos_transact_ts.Common.{
  ℕ, String, Bool, true, false, not, ◌&&◌, ◌||◌, Option, none, some, List, if◌then◌else◌, or_else,
  ltb, ◌==◌, is_some, update, first, same,
}
use dbos_transact_ts.SysDb.Result.{
  Result, ok, err, invalid_queue_parameters, not_database_backed, queue_not_found,
}

pub record QueueRateLimit : Type 0 where
  pub limit_per_period : ℕ
  pub period_sec : ℕ

-- The rate limit that a caller passes, of which either half may be undefined.
pub record RateLimitArg : Type 0 where
  pub limit_per_period : Option ℕ
  pub period_sec : Option ℕ

pub record QueueParameters : Type 0 where
  pub worker_concurrency : Option ℕ
  pub concurrency : Option ℕ
  pub rate_limit : Option RateLimitArg
  pub priority_enabled : Option Bool
  pub partition_queue : Option Bool
  pub min_polling_interval_ms : Option ℕ

pub record WorkflowQueue : Type 0 where
  pub name : String
  pub concurrency : Option ℕ
  pub rate_limit : Option QueueRateLimit
  pub worker_concurrency : Option ℕ
  pub priority_enabled : Bool
  pub partition_queue : Bool
  pub min_polling_interval_ms : Option ℕ
  pub database_backed : Bool

pub record QueueRecord : Type 0 where
  pub name : String
  pub concurrency : Option ℕ
  pub worker_concurrency : Option ℕ
  pub rate_limit_max : Option ℕ
  pub rate_limit_period_sec : Option ℕ
  pub priority_enabled : Bool
  pub partition_queue : Bool
  pub polling_interval_ms : ℕ

-- `workerConcurrency !== undefined && concurrency !== undefined && workerConcurrency > concurrency`
abbrev pub exceeds : Option ℕ → Option ℕ → Bool
exceeds none c = false
exceeds (some w) none = false
exceeds (some w) (some c) = ltb c w

abbrev pub is_zero : Option ℕ → Bool
is_zero none = false
is_zero (some n) = n == 0

-- `rateLimit !== undefined && (rateLimit.limitPerPeriod === undefined || ...)`
abbrev pub half_given : Option RateLimitArg → Bool
half_given none = false
half_given (some l) = not (is_some l.limit_per_period) || not (is_some l.period_sec)

unfoldable pub validate_queue_params : QueueParameters → Result (Unit {0})
validate_queue_params p =
    if exceeds p.worker_concurrency p.concurrency
    then err invalid_queue_parameters
    else (if is_zero p.min_polling_interval_ms
        then err invalid_queue_parameters
        else (if half_given p.rate_limit then err invalid_queue_parameters else ok tt))

abbrev pub arg_limit : Option RateLimitArg → Option ℕ
arg_limit none = none
arg_limit (some l) = l.limit_per_period

abbrev pub arg_period : Option RateLimitArg → Option ℕ
arg_period none = none
arg_period (some l) = l.period_sec

unfoldable pub record_from_params : String → QueueParameters → QueueRecord
record_from_params name p = record {
  name = name;
  concurrency = p.concurrency;
  worker_concurrency = p.worker_concurrency;
  rate_limit_max = arg_limit p.rate_limit;
  rate_limit_period_sec = arg_period p.rate_limit;
  priority_enabled = or_else p.priority_enabled false;
  partition_queue = or_else p.partition_queue false;
  polling_interval_ms = or_else p.min_polling_interval_ms 1000;
}

-- Both halves of a rate limit, or none.
abbrev pub rate_limit_of : Option ℕ → Option ℕ → Option QueueRateLimit
rate_limit_of none period = none
rate_limit_of (some n) none = none
rate_limit_of (some n) (some s) = some (record { limit_per_period = n; period_sec = s })

unfoldable pub from_record : QueueRecord → WorkflowQueue
from_record r = record {
  name = r.name;
  concurrency = r.concurrency;
  rate_limit = rate_limit_of r.rate_limit_max r.rate_limit_period_sec;
  worker_concurrency = r.worker_concurrency;
  priority_enabled = r.priority_enabled;
  partition_queue = r.partition_queue;
  min_polling_interval_ms = some r.polling_interval_ms;
  database_backed = true;
}

-- `WHERE name = $1`
abbrev pub named : String → QueueRecord → Bool
named name r = same r.name name

unfoldable pub get_queue : String → List QueueRecord → Option QueueRecord
get_queue name t = first (named name) t

-- The cached fields, taken from a row.
abbrev pub loaded : WorkflowQueue → QueueRecord → WorkflowQueue
loaded q r = record q {
  concurrency = r.concurrency;
  worker_concurrency = r.worker_concurrency;
  rate_limit = rate_limit_of r.rate_limit_max r.rate_limit_period_sec;
  priority_enabled = r.priority_enabled;
  partition_queue = r.partition_queue;
  min_polling_interval_ms = some r.polling_interval_ms;
}

-- `refreshFromDb`
unfoldable pub refresh_from_db : WorkflowQueue → List QueueRecord → Result WorkflowQueue
unfolding get_queue
refresh_from_db q t = if not q.database_backed then ok q else (elim (get_queue q.name t) [
  | none ↦ err (queue_not_found q.name)
  | some r ↦ ok (loaded q r)
])

-- `updateQueue`: an `UPDATE` of one row.
unfoldable pub update_queue :
    String → (QueueRecord → QueueRecord) → List QueueRecord → List QueueRecord
update_queue name f t = update (named name) f t

-- The order of a setter: the check, the row, the cached field.
unfoldable pub set_if :
    WorkflowQueue
    → Bool
    → (QueueRecord → QueueRecord)
    → WorkflowQueue
    → List QueueRecord
    → Result WorkflowQueue × List QueueRecord
unfolding update_queue
set_if q invalid f q' t =
    if not q.database_backed
    then (err (not_database_backed q.name), t)
    else (if invalid then (err invalid_queue_parameters, t) else (ok q', update_queue q.name f t))

unfoldable pub set_concurrency :
    Option ℕ → WorkflowQueue → List QueueRecord → Result WorkflowQueue × List QueueRecord
unfolding set_if
set_concurrency value q t =
    set_if q (exceeds q.worker_concurrency value) (λ r. record r { concurrency = value })
      (record q { concurrency = value }) t

unfoldable pub set_worker_concurrency :
    Option ℕ → WorkflowQueue → List QueueRecord → Result WorkflowQueue × List QueueRecord
unfolding set_if
set_worker_concurrency value q t =
    set_if q (exceeds value q.concurrency) (λ r. record r { worker_concurrency = value })
      (record q { worker_concurrency = value }) t

unfoldable pub set_rate_limit :
    Option RateLimitArg → WorkflowQueue → List QueueRecord → Result WorkflowQueue × List QueueRecord
unfolding set_if
set_rate_limit value q t =
    set_if q (half_given value)
      (λ r. record r { rate_limit_max = arg_limit value; rate_limit_period_sec = arg_period value })
      (record q { rate_limit = rate_limit_of (arg_limit value) (arg_period value) }) t

unfoldable pub set_priority_enabled :
    Bool → WorkflowQueue → List QueueRecord → Result WorkflowQueue × List QueueRecord
unfolding set_if
set_priority_enabled value q t =
    set_if q false (λ r. record r { priority_enabled = value })
      (record q { priority_enabled = value }) t

unfoldable pub set_partition_queue :
    Bool → WorkflowQueue → List QueueRecord → Result WorkflowQueue × List QueueRecord
unfolding set_if
set_partition_queue value q t =
    set_if q false (λ r. record r { partition_queue = value })
      (record q { partition_queue = value }) t

unfoldable pub set_min_polling_interval_ms :
    ℕ → WorkflowQueue → List QueueRecord → Result WorkflowQueue × List QueueRecord
unfolding set_if
set_min_polling_interval_ms value q t =
    set_if q (value == 0) (λ r. record r { polling_interval_ms = value })
      (record q { min_polling_interval_ms = some value }) t
