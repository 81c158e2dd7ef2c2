-- ===== src/SysDb/Life/Keys.antt =====
-- The unique index on the queue and the deduplication ID, through every sequence of the statements of `Op`.
use dbos_transact_ts.Common.{false, List, ◌≡◌}
use dbos_transact_ts.SysDb.Schema.{WorkflowStatus}
use dbos_transact_ts.SysDb.Manage.{breaks_unique}
use dbos_transact_ts.SysDb.Life.Deduplication.{
  breaks_unique-update, breaks_unique-append, Loosens-changed,
}
use dbos_transact_ts.SysDb.Life.Invariants.{run_keeps}
use dbos_transact_ts.SysDb.Life.{Op, run}

-- No sequence of these statements makes two workflows of one queue hold one deduplication ID: no statement
-- but a start and a recovery can meet the unique index, and these two refuse what would break it.
pub run-breaks_unique :
    (ops : List Op) (t : List WorkflowStatus)
    → breaks_unique t ≡ false
    → breaks_unique (run ops t) ≡ false
run-breaks_unique ops t h =
    run_keeps (λ t. breaks_unique t ≡ false)
      (λ q f _ loosens t h. breaks_unique-update q f (Loosens-changed q f loosens) t h)
      (λ r t _ free h. breaks_unique-append r t free h) (λ q f _ t kept _. kept) ops t h
