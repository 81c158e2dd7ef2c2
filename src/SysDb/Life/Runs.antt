-- ===== src/SysDb/Life/Runs.antt =====
-- What holds of a workflow across any sequence of statements.
use dbos_transact_ts.Common.{String, false, some, List, [], ◌∷◌, ◌≡◌, refl, arith, any_of, ◌∙◌, All}
use dbos_transact_ts.SysDb.Schema.{Status, WorkflowStatus, cancelled}
use dbos_transact_ts.SysDb.Rows.{find_row}
use dbos_transact_ts.SysDb.Life.{
  batches, debounces, Op, starts, finishes, fails, cancels, resumes, prioritises, delays, wakes,
  recovers, dequeues, apply, run, Allowed, Follows, HasOutcome,
}
use dbos_transact_ts.SysDb.Life.Steps.{
  batches-Follows, debounces-Follows, cancels-Follows, resumes-Follows, prioritises-Follows,
  delays-Follows, wakes-Follows, recovers-Follows, finishes-Follows, fails-Follows,
}
use dbos_transact_ts.SysDb.Life.Starts.{starts-Follows, dequeues-Follows}

-- Each of the twelve statements of `Op` keeps the row of every workflow and its function, and moves its
-- status only as `Allowed` says: a start, a recording of an outcome, a cancellation and a resumption
-- only that of a workflow that it names, and only from a status from which it may. Deletion, garbage
-- collection and setWorkflowStatus are not among the twelve.
pub apply-Follows :
    (op : Op) (k : String) (r : WorkflowStatus) (t : List WorkflowStatus)
    → find_row k t ≡ some r
    → Follows (Allowed op k) k r (apply op t)
unfolding apply
apply-Follows (starts now i owner o) k r t found = starts-Follows k r t found now i owner o
apply-Follows (finishes now id output) k r t found = finishes-Follows k r t found now id output
apply-Follows (fails now id e) k r t found = fails-Follows k r t found now id e
apply-Follows (cancels now ids) k r t found = cancels-Follows k r t found now ids
apply-Follows (resumes now ids queue) k r t found = resumes-Follows k r t found now ids queue
apply-Follows (prioritises now id p) k r t found = prioritises-Follows k r t found now id p
apply-Follows (delays now id until) k r t found = delays-Follows k r t found now id until
apply-Follows (wakes now) k r t found = wakes-Follows k r t found now
apply-Follows (recovers now executor version queue) k r t found =
    recovers-Follows k r t found now executor version queue
apply-Follows (dequeues q p env) k r t found = dequeues-Follows k r t found q p env
apply-Follows (batches now is c) k r t found = batches-Follows k r t found now is c
apply-Follows (debounces now p) k r t found = debounces-Follows k r t found now p

outcome_stays :
    (op : Op) (k : String) (s s' : Status) → Allowed op k s s' → HasOutcome s → HasOutcome s'
outcome_stays (starts now i owner o) k s s' a h = ground (arith, a, h)
outcome_stays (finishes now id output) k s s' a h = ground (arith, a, h)
outcome_stays (fails now id e) k s s' a h = ground (arith, a, h)
outcome_stays (cancels now ids) k s s' a h = ground (arith, a, h)
outcome_stays (resumes now ids queue) k s s' a h = ground (arith, a, h)
outcome_stays (prioritises now id p) k s s' a h = ground (arith, a, h)
outcome_stays (delays now id until) k s s' a h = ground (arith, a, h)
outcome_stays (wakes now) k s s' a h = ground (arith, a, h)
outcome_stays (recovers now executor version queue) k s s' a h = ground (arith, a, h)
outcome_stays (dequeues q p env) k s s' a h = ground (arith, a, h)
outcome_stays (batches now is c) k s s' a h = ground (arith, a, h)
outcome_stays (debounces now p) k s s' a h = ground (arith, a, h)

-- Once a workflow has an outcome, no sequence of starts, batches, recoveries, dequeues, cancellations,
-- resumptions and recordings takes it back to a status without one.
pub run_outcome :
    (ops : List Op) (k : String) (r : WorkflowStatus) (t : List WorkflowStatus)
    → find_row k t ≡ some r
    → HasOutcome r.status
    → (r' : WorkflowStatus) × (find_row k (run ops t) ≡ some r')
      × HasOutcome r'.status
      × (r'.name ≡ r.name)
unfolding run
run_outcome [] k r t found h = (r, found, h, refl)
run_outcome (op ∷ ops) k r t found h =
    let (r', found', moves, n, _) = apply-Follows op k r t found in
    let (r'', found'', h'', n') =
      run_outcome ops k r' (apply op t) found' (outcome_stays op k r.status r'.status moves h) in
    (r'', found'', h'', n' ∙ n)

-- The statement is no resumption of the workflow.
abbrev pub LeavesAsleep : String → Op → Type 0
LeavesAsleep k (resumes now ids queue) = any_of ids k ≡ false
LeavesAsleep k _ = Unit

cancelled_stays :
    (op : Op) (k : String) (s s' : Status)
    → Allowed op k s s'
    → LeavesAsleep k op
    → s ≡ cancelled
    → s' ≡ cancelled
cancelled_stays (starts now i owner o) k s s' a l h = ground (arith, a, h)
cancelled_stays (finishes now id output) k s s' a l h = ground (arith, a, h)
cancelled_stays (fails now id e) k s s' a l h = ground (arith, a, h)
cancelled_stays (cancels now ids) k s s' a l h = ground (arith, a, h)
cancelled_stays (resumes now ids queue) k s s' a l h = ground (arith, a, h, l)
cancelled_stays (prioritises now id p) k s s' a l h = ground (arith, a, h)
cancelled_stays (delays now id until) k s s' a l h = ground (arith, a, h)
cancelled_stays (wakes now) k s s' a l h = ground (arith, a, h)
cancelled_stays (recovers now executor version queue) k s s' a l h = ground (arith, a, h)
cancelled_stays (dequeues q p env) k s s' a l h = ground (arith, a, h)
cancelled_stays (batches now is c) k s s' a l h = ground (arith, a, h)
cancelled_stays (debounces now p) k s s' a l h = ground (arith, a, h)

-- A cancelled workflow stays cancelled through every sequence of statements that does not resume it:
-- it is not started, recovered, dequeued or completed.
pub run_cancelled :
    (ops : List Op) (k : String) (r : WorkflowStatus) (t : List WorkflowStatus)
    → find_row k t ≡ some r
    → r.status ≡ cancelled
    → All (LeavesAsleep k) ops
    → (r' : WorkflowStatus) × (find_row k (run ops t) ≡ some r') × (r'.status ≡ cancelled)
unfolding run
run_cancelled [] k r t found h l = (r, found, h)
run_cancelled (op ∷ ops) k r t found h l =
    let (r', found', moves, _, _) = apply-Follows op k r t found in
    run_cancelled ops k r' (apply op t) found' (cancelled_stays op k r.status r'.status moves l.0 h)
      l.1
