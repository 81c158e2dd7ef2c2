-- ===== src/Tests/Retries.antt =====
-- A step of the test table under the retries, over a connection that breaks twice.
use dbos_transact_ts.Common.{
  none, ℕ, zero, suc, ◌≤◌, String, true, Option, some, is_some, List, [], ◌∷◌, ◌≡◌, refl, arith,
  same,
}
use dbos_transact_ts.SysDb.Schema.{Db}
use dbos_transact_ts.SysDb.Result.{Result, ok}
use dbos_transact_ts.SysDb.Outcome.{check_if_canceled}
use dbos_transact_ts.SysDb.Steps.{find_step, rollback, run_and_record_result}
use dbos_transact_ts.SysDb.Retry.{Outcome, Turn, value, db_retry}
use dbos_transact_ts.SysDb.Retry.Loop.{db_retry_ends}
use dbos_transact_ts.SysDb.Retry.Errors.{
  ErrorObject, Verdict, object, nothing, retriable, type_error, retriable_postgres_exception,
  includes, message_looks_retryable, text_length,
}
use dbos_transact_ts.SysDb.Retry.Errors.Walk.{unseen_held}
use dbos_transact_ts.SysDb.Retry.Errors.Classes.{
  IsRight, Under, retriable_postgres_exception-IsRight,
}
use dbos_transact_ts.SysDb.Retry.Once.{
  Connection, Thrown, whole, broken_before, broken_after, is_lost, over,
  db_retry-run_and_record_result,
}
use dbos_transact_ts.Tests.Fixtures.{db}
use dbos_transact_ts.Tests.Replays.{charged}

abbrev charge : Db → Result (Option String) × Db
charge d = (ok (some "10"), record d { operation_outputs = d.operation_outputs })

abbrev connection : ℕ → Connection
connection zero = broken_before
connection (suc zero) = broken_after
connection (suc (suc n)) = whole

abbrev idle : ℕ → Turn
idle random = record { random = random; others = λ d. d }

abbrev turns : List Turn
turns = idle 0 ∷ idle 999 ∷ idle 250 ∷ []

abbrev charged_call : ℕ → Db → Result (Option String) × Db
charged_call m d = rollback d (run_and_record_result "local" 4 5 "charge" "a" 0 charge d)

abbrev charge_over : ℕ → Db → Outcome Thrown (Option String) × Db
charge_over m = over (connection m) (charged_call m)

abbrev charged_db : Db
charged_db = record db { operation_outputs = charged ∷ [] }

db_retry-run_and_record_result_example :
    (m : ℕ) × (m ≤ 2)
    × ((db_retry is_lost charge_over turns db).ended ≡ some (value (some "10"), charged_db))
db_retry-run_and_record_result_example =
    db_retry-run_and_record_result "local" "charge" "a" 0 (λ m. 4) (λ m. 5) charge db (some "10")
      (λ m. charged_db) (unfold find_step in refl) (λ m. unfold run_and_record_result same in refl)
      (unfold find_step in refl) (λ m. unfold check_if_canceled same in refl) connection 2 refl
      turns (omega arith) (λ d. refl, (λ d. refl, (λ d. refl, tt)))

abbrev sure : ℕ → Db → Outcome Thrown (Option String) × Db
sure m d = over (connection m) (λ e. (ok (some "10"), e)) d

db_retry_ends_example : is_some (db_retry is_lost sure turns db).ended ≡ true
db_retry_ends_example = db_retry_ends is_lost sure 2 (λ d. refl) turns db (omega arith)

sleeps_test : (db_retry is_lost sure turns db).sleeps ≡ 500 ∷ 2998 ∷ []
unfolding db_retry
sleeps_test = refl

abbrev plain_error : ErrorObject
plain_error = record {
  is_error = true;
  code = none;
  stack = none;
  message = some "failed";
  text = "Error: failed";
  errors = none;
  cause = none;
  error = none;
}

-- An AggregateError that holds itself and an error whose cause is a broken connection.
abbrev errors : List ErrorObject
errors =
    record plain_error { errors = some (object 0 ∷ object 1 ∷ []) }
    ∷ record plain_error { cause = some (object 2) }
    ∷ record plain_error { code = some "08006" }
    ∷ []

retriable_postgres_exception-IsRight_example :
    (verdict : Verdict) × (retriable_postgres_exception (λ s. s) 9 errors (object 0) ≡ some verdict)
    × IsRight (λ s. s) errors (λ v. Under errors (object 0) v) verdict
retriable_postgres_exception-IsRight_example =
    retriable_postgres_exception-IsRight (λ s. s) errors (object 0) 9
      (unfold unseen_held in omega arith)

classified_test : retriable_postgres_exception (λ s. s) 9 errors (object 0) ≡ some retriable
unfolding retriable_postgres_exception includes same message_looks_retryable text_length
classified_test = refl

null_test : retriable_postgres_exception (λ s. s) 1 errors nothing ≡ some type_error
unfolding retriable_postgres_exception
null_test = refl
