-- ===== src/Queue/Params/Changes.antt =====
-- Storing a configuration and changing it.
use mathlib.Core.Option
use dbos_transact_ts.Common.{
  ℕ, String, Bool, true, false, Option, none, some, List, ◌≡◌, refl, arith, ap, or_else, same,
  first, first-update, Option-cases, inl, inr, first_sound,
}
use dbos_transact_ts.SysDb.Result.{Result, ok}
use dbos_transact_ts.Queue.Params.{
  QueueParameters, QueueRateLimit, RateLimitArg, QueueRecord, WorkflowQueue, exceeds, is_zero,
  half_given, arg_limit, arg_period, rate_limit_of, validate_queue_params, record_from_params,
  from_record, refresh_from_db, named, loaded, set_if, set_concurrency, set_worker_concurrency,
  set_rate_limit, set_priority_enabled, set_partition_queue, set_min_polling_interval_ms,
}

-- The parameters that a queue has.
abbrev pub arg_of : QueueRateLimit → RateLimitArg
arg_of l = record { limit_per_period = some l.limit_per_period; period_sec = some l.period_sec }

rate_limit_round_trip :
    (l : Option RateLimitArg)
    → half_given l ≡ false
    → Option.map arg_of (rate_limit_of (arg_limit l) (arg_period l)) ≡ l
rate_limit_round_trip none h = refl
rate_limit_round_trip (some l) h = elim (Option-cases l.limit_per_period) [
  | inl e ↦ absurd (ground (arith, e, h))
  | inr (n, e) ↦ elim (Option-cases l.period_sec) [
    | inl e' ↦ absurd (ground (arith, e', e, h))
    | inr (s, e') ↦ ground (arith, e, e', h)
  ]
]

-- A registration that passes the checks is stored and loaded as it was given, with the defaults of
-- what was left out.
pub from_record-record_from_params :
    (name : String) (p : QueueParameters)
    → validate_queue_params p ≡ ok tt
    → let q = from_record (record_from_params name p) in
      (q.name ≡ name)
      × (q.concurrency ≡ p.concurrency)
      × (q.worker_concurrency ≡ p.worker_concurrency)
      × (Option.map arg_of q.rate_limit ≡ p.rate_limit)
      × (q.priority_enabled ≡ or_else p.priority_enabled false)
      × (q.partition_queue ≡ or_else p.partition_queue false)
      × (q.min_polling_interval_ms ≡ some (or_else p.min_polling_interval_ms 1000))
      × (q.database_backed ≡ true)
unfolding from_record record_from_params validate_queue_params
from_record-record_from_params name p valid = (
  refl,
  refl,
  refl,
  rate_limit_round_trip p.rate_limit (ground (arith, valid)),
  refl,
  refl,
  refl,
  refl,
)

-- A call of one of the setters.
pub data Setting : Type 0 where
  concurrency worker_concurrency : Option ℕ → Setting
  rate_limit : Option RateLimitArg → Setting
  priority_enabled partition_queue : Bool → Setting
  min_polling_interval_ms : ℕ → Setting

abbrev pub configure :
    Setting → WorkflowQueue → List QueueRecord → Result WorkflowQueue × List QueueRecord
configure (Setting.concurrency v) q t = set_concurrency v q t
configure (Setting.worker_concurrency v) q t = set_worker_concurrency v q t
configure (Setting.rate_limit v) q t = set_rate_limit v q t
configure (Setting.priority_enabled v) q t = set_priority_enabled v q t
configure (Setting.partition_queue v) q t = set_partition_queue v q t
configure (Setting.min_polling_interval_ms v) q t = set_min_polling_interval_ms v q t

-- The limits of a queue that the checks let through.
abbrev pub IsValid : WorkflowQueue → Type 0
IsValid q =
    (exceeds q.worker_concurrency q.concurrency ≡ false)
    × (is_zero q.min_polling_interval_ms ≡ false)

-- The cached fields of the queue are those of its row.
abbrev pub InSync : WorkflowQueue → List QueueRecord → Type 0
InSync q t = refresh_from_db q t ≡ ok q

-- A setter that succeeds keeps the limits of the queue valid.
pub configure-IsValid :
    (s : Setting) (q : WorkflowQueue) (t : List QueueRecord) (q' : WorkflowQueue)
    → IsValid q
    → (configure s q t).0 ≡ ok q'
    → IsValid q'
unfolding set_concurrency set_worker_concurrency set_rate_limit set_priority_enabled
    set_partition_queue set_min_polling_interval_ms
configure-IsValid (Setting.concurrency v) q t q' valid h = ground (arith, valid, h)
configure-IsValid (Setting.worker_concurrency v) q t q' valid h = ground (arith, valid, h)
configure-IsValid (Setting.rate_limit v) q t q' valid h = ground (arith, valid, h)
configure-IsValid (Setting.priority_enabled v) q t q' valid h = ground (arith, valid, h)
configure-IsValid (Setting.partition_queue v) q t q' valid h = ground (arith, valid, h)
configure-IsValid (Setting.min_polling_interval_ms v) q t q' valid h = ground (arith, valid, h)

-- What a setter does: the change of the row and the change of the cached fields agree.
set_if-InSync :
    (f : QueueRecord → QueueRecord) (g : WorkflowQueue → WorkflowQueue) (invalid : Bool)
    (q : WorkflowQueue) (t : List QueueRecord) (q' : WorkflowQueue)
    → ((r : QueueRecord) → (f r).name ≡ r.name)
    → ((r : QueueRecord) → loaded (g q) (f r) ≡ g (loaded q r))
    → ((g q).name ≡ q.name)
    → ((g q).database_backed ≡ q.database_backed)
    → InSync q t
    → (set_if q invalid f (g q) t).0 ≡ ok q'
    → InSync q' (set_if q invalid f (g q) t).1
unfolding set_if refresh_from_db
set_if-InSync f g invalid q t q' keeps agree name backed sync h =
    elim (Option-cases (first (named q.name) t)) [
      | inl e ↦ absurd (ground (arith, e, sync, h))
      | inr (r, e) ↦
          let same_fields : loaded q r ≡ q = ground (arith, e, sync, h) in
          ground (
            arith,
            e,
            h,
            name,
            backed,
            agree r,
            ap g same_fields,
            first-update (named q.name) (named q.name) f
                (λ r. ap (λ (k : String). same k q.name) (keeps r)) t,
            first_sound (named q.name) t r e,
          )
    ]

-- A setter that succeeds on a queue whose cached fields are those of its row leaves them so.
pub configure-InSync :
    (s : Setting) (q : WorkflowQueue) (t : List QueueRecord) (q' : WorkflowQueue)
    → InSync q t
    → (configure s q t).0 ≡ ok q'
    → InSync q' (configure s q t).1
unfolding set_concurrency set_worker_concurrency set_rate_limit set_priority_enabled
    set_partition_queue set_min_polling_interval_ms
configure-InSync (Setting.concurrency v) q t q' sync h =
    set_if-InSync (λ r. record r { concurrency = v }) (λ x. record x { concurrency = v }) _ q t q'
      (λ _. refl) (λ _. refl) refl refl sync h
configure-InSync (Setting.worker_concurrency v) q t q' sync h =
    set_if-InSync (λ r. record r { worker_concurrency = v })
      (λ x. record x { worker_concurrency = v }) _ q t q' (λ _. refl) (λ _. refl) refl refl sync h
configure-InSync (Setting.rate_limit v) q t q' sync h =
    set_if-InSync
      (λ r. record r { rate_limit_max = arg_limit v; rate_limit_period_sec = arg_period v })
      (λ x. record x { rate_limit = rate_limit_of (arg_limit v) (arg_period v) }) _ q t q'
      (λ _. refl) (λ _. refl) refl refl sync h
configure-InSync (Setting.priority_enabled v) q t q' sync h =
    set_if-InSync (λ r. record r { priority_enabled = v }) (λ x. record x { priority_enabled = v })
      false q t q' (λ _. refl) (λ _. refl) refl refl sync h
configure-InSync (Setting.partition_queue v) q t q' sync h =
    set_if-InSync (λ r. record r { partition_queue = v }) (λ x. record x { partition_queue = v })
      false q t q' (λ _. refl) (λ _. refl) refl refl sync h
configure-InSync (Setting.min_polling_interval_ms v) q t q' sync h =
    set_if-InSync (λ r. record r { polling_interval_ms = v })
      (λ x. record x { min_polling_interval_ms = some v }) _ q t q' (λ _. refl) (λ _. refl) refl
      refl sync h
