-- ===== src/SysDb/Retry/Once.antt =====
-- A step under `dbRetry`: however often the connection breaks, before the step has run or after it was
-- recorded, it has run once.
use dbos_transact_ts.Common.{
  ℕ, ◌+◌, ◌<◌, ◌≤◌, String, Bool, true, false, Option, none, some, List, [], ◌∷◌, ◌≡◌, refl, arith,
  inl, inr, ◌⊎◌, All, length,
}
use dbos_transact_ts.SysDb.Steps.Effects.{rollback-ok}
use dbos_transact_ts.SysDb.Schema.{Db}
use dbos_transact_ts.SysDb.Result.{Result, ok, err, Fault}
use dbos_transact_ts.SysDb.Outcome.{check_if_canceled}
use dbos_transact_ts.SysDb.Steps.{find_step, rollback, run_and_record_result}
use dbos_transact_ts.SysDb.Steps.Replay.{run_and_record_result_once}
use dbos_transact_ts.SysDb.Retry.{
  Outcome, value, failure, Turn, retry_from, db_retry, next_backoff, initial_backoff,
}

-- What happens to the connection in a call.
pub data Connection : Type 0 where
  whole : Connection
  broken_before : Connection
  broken_after : Connection

pub data Thrown : Type 0 where
  lost : Thrown
  thrown : Fault → Thrown

abbrev pub is_lost : Thrown → Bool
is_lost lost = true
is_lost (thrown e) = false

abbrev pub reported : Result (Option String) × Db → Outcome Thrown (Option String) × Db
reported (ok a, db) = (value a, db)
reported (err e, db) = (failure (thrown e), db)

-- A call over a connection: what the transaction did stays, where only its answer is lost.
abbrev pub over :
    Connection → (Db → Result (Option String) × Db) → Db → Outcome Thrown (Option String) × Db
over whole call db = reported (call db)
over broken_before call db = (failure lost, db)
over broken_after call db = (failure lost, (call db).1)

-- Nothing else happens to the tables during the sleeps.
abbrev pub IsAlone : Turn → Type 0
IsAlone t = (d : Db) → t.others d ≡ d

Connection-cases : (c : Connection) → (c ≡ whole) ⊎ ((c ≡ broken_before) ⊎ (c ≡ broken_after))
Connection-cases whole = inl refl
Connection-cases broken_before = inr (inl refl)
Connection-cases broken_after = inr (inr refl)

module _ (call : ℕ → Db → Result (Option String) × Db) (connection : ℕ → Connection)
    (output : Option String) (done : ℕ → Db) (k : ℕ) (fine : connection k ≡ whole)
    (again : (m j : ℕ) → call m (done j) ≡ (ok output, done j)) where
  abbrev retried : ℕ → ℕ → List Turn → Db → Option (Outcome Thrown (Option String) × Db)
  retried n backoff turns db =
      (retry_from is_lost (λ m. over (connection m) (call m)) n backoff turns db).ended

  -- From tables in which the step is recorded.
  retried_recorded :
      (j n backoff : ℕ) (turns : List Turn)
      → n ≤ k
      → k < n + length turns
      → All IsAlone turns
      → retried n backoff turns (done j) ≡ some (value output, done j)
  unfolding retry_from
  retried_recorded j n backoff [] low high alone = absurd (omega arith)
  retried_recorded j n backoff (t ∷ ts) low high alone = elim (Connection-cases (connection n)) [
    | inl w ↦ ground (arith, w, again n j)
    | inr (inl b) ↦
        let not_yet : n < k = ground (arith, b, fine, low) in
        ground (
          arith,
          b,
          alone.0 (done j),
          retried_recorded j (n + 1) (next_backoff backoff) ts (omega arith) (omega arith) alone.1,
        )
    | inr (inr a) ↦
        let not_yet : n < k = ground (arith, a, fine, low) in
        ground (
          arith,
          a,
          again n j,
          alone.0 (done j),
          retried_recorded j (n + 1) (next_backoff backoff) ts (omega arith) (omega arith) alone.1,
        )
  ]

  -- From tables in which it is not.
  retried_fresh :
      (db : Db)
      → ((m : ℕ) → call m db ≡ (ok output, done m))
      → (n backoff : ℕ) (turns : List Turn) → n ≤ k
      → k < n + length turns
      → All IsAlone turns
      → (j : ℕ) × (j ≤ k) × (retried n backoff turns db ≡ some (value output, done j))
  unfolding retry_from
  retried_fresh db ran n backoff [] low high alone = absurd (omega arith)
  retried_fresh db ran n backoff (t ∷ ts) low high alone = elim (Connection-cases (connection n)) [
    | inl w ↦ (n, low, ground (arith, w, ran n))
    | inr (inl b) ↦
        let not_yet : n < k = ground (arith, b, fine, low) in
        let (j, bound, rest) =
          retried_fresh db ran (n + 1) (next_backoff backoff) ts (omega arith) (omega arith)
            alone.1 in
        (j, bound, ground (arith, b, alone.0 db, rest))
    | inr (inr a) ↦
        let not_yet : n < k = ground (arith, a, fine, low) in
        (
          n,
          low,
          ground (
            arith,
            a,
            ran n,
            alone.0 (done n),
            retried_recorded n (n + 1) (next_backoff backoff) ts (omega arith) (omega arith)
                alone.1,
          ),
        )
  ]

-- A transaction of one step under the retries, each call with times of its own, which would return
-- the output and leave `done m` if the call `m` were the only one: where the connection may break
-- before any call or after its commit, is whole by the call `k`, and nothing else happens meanwhile,
-- the caller gets the output and one of the calls has taken effect, once.
pub db_retry-run_and_record_result :
    (executor name id : String) (fn : ℕ) (started ended : ℕ → ℕ)
    (func : Db → Result (Option String) × Db) (db : Db) (output : Option String) (done : ℕ → Db)
    → find_step id fn (func db).1.operation_outputs ≡ none
    → ((m : ℕ)
        → rollback db (run_and_record_result executor (started m) (ended m) name id fn func db)
          ≡ (ok output, done m))
    → find_step id fn db.operation_outputs ≡ none
    → ((m : ℕ) → check_if_canceled id (done m).workflow_status ≡ ok tt)
    → (connection : ℕ → Connection) (k : ℕ) → connection k ≡ whole
    → (turns : List Turn) → k < length turns
    → All IsAlone turns
    → (m : ℕ) × (m ≤ k)
      × ((db_retry is_lost
            (λ n. over (connection n) (λ d.
              rollback d (run_and_record_result executor (started n) (ended n) name id fn func d)))
            turns
            db).ended
          ≡ some (value output, done m))
unfolding db_retry
db_retry-run_and_record_result executor name id fn started ended func db output done untouched ran
      fresh free connection k fine turns high alone =
    retried_fresh
      (λ m d. rollback d (run_and_record_result executor (started m) (ended m) name id fn func d))
      connection output done k fine
      (λ m j. ground (
        arith,
        run_and_record_result_once executor (started j) (ended j) name id fn func db output (done j)
            untouched (rollback-ok output db (done j) _ (ran j)) fresh (free j) executor (started m)
            (ended m) func,
      ))
      db ran 0 initial_backoff turns (omega arith) (omega arith) alone
