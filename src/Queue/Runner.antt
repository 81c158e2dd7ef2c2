-- ===== src/Queue/Runner.antt =====
-- `WFQueueRunner` of src/wfqueue.ts: which queues a process polls. A `Map` of states by name is a list
-- of states in the order of insertion, a `Set` a list of names, and the map of polls in flight the list
-- of its keys. What is logged is left out.
pub mod Schedule
pub mod Refresh
use dbos_transact_ts.Common.{
  ℕ, ◌+◌, String, Bool, true, false, not, ◌&&◌, ◌||◌, Option, none, some, List, [], ◌∷◌, ◌++◌, same,
  any_of, if◌then◌else◌, or_else, is_some, update, select, delete, first, order_by, length, leb,
}
use dbos_transact_ts.Queue.Params.{WorkflowQueue, QueueRecord, from_record}
use dbos_transact_ts.SysDb.Manage.{internal_queue_name}

-- `QueueRuntimeState`
pub record QueueRuntimeState : Type 0 where
  pub queue : WorkflowQueue
  pub current_polling_ms : ℕ
  pub next_poll_at : ℕ

pub record Runner : Type 0 where
  pub is_running : Bool
  pub queues_by_name : List WorkflowQueue
  pub poller_queue_names : List String
  pub listen_queue_names : Option (List String)
  pub states : List QueueRuntimeState

-- An entry of `listenQueues`.
pub data ListenEntry : Type 0 where
  by_name : String → ListenEntry
  by_queue : WorkflowQueue → ListenEntry

abbrev pub default_min_polling_interval_ms : ℕ
default_min_polling_interval_ms = 1000

abbrev pub is_named : String → WorkflowQueue → Bool
is_named n q = same q.name n

-- `wfQueuesByName.get(name)`
abbrev pub registered : Runner → String → Option WorkflowQueue
registered w n = first (is_named n) w.queues_by_name

abbrev pub resolve_entry : Runner → ListenEntry → List WorkflowQueue
resolve_entry w (by_queue q) = q ∷ []
resolve_entry w (by_name n) = elim (registered w n) [ none ↦ [] | some q ↦ q ∷ [] ]

abbrev pub resolve_entries : Runner → List ListenEntry → List WorkflowQueue
resolve_entries w [] = []
resolve_entries w (e ∷ es) = resolve_entry w e ++ resolve_entries w es

-- `if (q && !result.some((r) => r.name === name)) result.push(q)`
abbrev pub push_registered : String → Option WorkflowQueue → List WorkflowQueue → List WorkflowQueue
push_registered n none result = result
push_registered n (some q) result =
    if is_some (first (is_named n) result) then result else result ++ q ∷ []

abbrev pub push_pollers : Runner → List String → List WorkflowQueue → List WorkflowQueue
push_pollers w [] result = result
push_pollers w (n ∷ ns) result = push_pollers w ns (push_registered n (registered w n) result)

unfoldable pub resolve_in_memory_queues : Runner → Option (List ListenEntry) → List WorkflowQueue
resolve_in_memory_queues w none =
    select (λ q. not (same q.name internal_queue_name)) w.queues_by_name
resolve_in_memory_queues w (some entries) =
    push_pollers w w.poller_queue_names (resolve_entries w entries)

abbrev pub tracks : String → QueueRuntimeState → Bool
tracks n s = same s.queue.name n

unfoldable pub ensure_state : WorkflowQueue → ℕ → List QueueRuntimeState → List QueueRuntimeState
ensure_state q now states =
    let interval = or_else q.min_polling_interval_ms default_min_polling_interval_ms in
    if is_some (first (tracks q.name) states)
    then states
    else states
      ++ record { queue = q; current_polling_ms = interval; next_poll_at = now + interval } ∷ []

-- The row is dispatched by this process: it is neither the internal queue's nor shadowed by a queue in
-- memory, and it passes the filter.
abbrev pub listens : Option (List String) → List String → String → Bool
listens none pollers n = true
listens (some names) pollers n = any_of names n || any_of pollers n

abbrev pub dispatched : Runner → QueueRecord → Bool
dispatched w r =
    not (same r.name internal_queue_name)
    && not (is_some (registered w r.name))
    && listens w.listen_queue_names w.poller_queue_names r.name

-- The configuration is replaced in place, or a new state begins.
unfoldable pub track : QueueRecord → ℕ → List QueueRuntimeState → List QueueRuntimeState
unfolding ensure_state from_record
track r now states =
    if is_some (first (tracks r.name) states)
    then update (tracks r.name) (λ s. record s { queue = from_record r }) states
    else ensure_state (from_record r) now states

unfoldable pub track_all :
    Runner → List QueueRecord → ℕ → List QueueRuntimeState → List QueueRuntimeState
unfolding track
track_all w [] now states = states
track_all w (r ∷ rs) now states =
    track_all w rs now (if dispatched w r then track r now states else states)

-- The names of the rows that are dispatched.
abbrev pub present : Runner → List QueueRecord → String → Bool
present w rs n = is_some (first (λ r. dispatched w r && same r.name n) rs)

-- A database-backed queue whose row is gone.
abbrev pub is_gone : Runner → List QueueRecord → QueueRuntimeState → Bool
is_gone w rs s = s.queue.database_backed && not (present w rs s.queue.name)

-- `none` when the queues could not be listed.
unfoldable pub refresh_db_queues : Option (List QueueRecord) → ℕ → Runner → Runner
unfolding track_all
refresh_db_queues none now w = w
refresh_db_queues (some rs) now w = record w {
  states = delete (is_gone w rs) (track_all w rs now w.states);
}

abbrev pub is_due : ℕ → List String → QueueRuntimeState → Bool
is_due now in_flight s = leb s.next_poll_at now && not (any_of in_flight s.queue.name)

abbrev pub earlier : QueueRuntimeState → QueueRuntimeState → Bool
earlier a b = leb a.next_poll_at b.next_poll_at

unfoldable pub due_queues : ℕ → List String → List QueueRuntimeState → List QueueRuntimeState
due_queues now in_flight states = order_by earlier (select (is_due now in_flight) states)

-- `inFlightPolls.set(name, ...)`
abbrev pub set_flight : String → List String → List String
set_flight n in_flight = if any_of in_flight n then in_flight else in_flight ++ n ∷ []

unfoldable pub start_polls : ℕ → List String → List QueueRuntimeState → List String
start_polls limit in_flight [] = in_flight
start_polls limit in_flight (s ∷ ss) =
    let rest = start_polls limit (set_flight s.queue.name in_flight) ss in
    if leb limit (length in_flight) then in_flight else rest

unfoldable pub schedule_due_queues : ℕ → ℕ → List String → Runner → List String
unfolding due_queues start_polls
schedule_due_queues now limit in_flight w =
    if not w.is_running
    then in_flight
    else start_polls limit in_flight (due_queues now in_flight w.states)
