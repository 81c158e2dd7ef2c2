-- ===== src/SysDb/Result.antt =====
-- The errors of src/error.ts that the system database throws. A method is a function from a table
-- to its result and the table that its transaction leaves behind.
use dbos_transact_ts.Common.{◌≡◌, refl, ◌⊎◌, inl, inr, ℕ, String, Bool, true, false, Option}
use dbos_transact_ts.SysDb.Schema.{Status}

pub data Fault : Type 0 where
  conflicting_workflow : String → Fault
  queue_duplicated : String → String → String → Fault
  max_recovery_attempts : String → Option ℕ → Fault
  workflow_cancelled : String → Fault
  workflow_conflict : String → Fault
  unexpected_step : String → ℕ → String → Option String → Fault
  nonexistent_workflow : String → Fault
  lock_not_available : Fault
  unique_violation : Fault
  foreign_key_violation : Fault
  not_null_violation : Fault
  number_out_of_range : Fault
  not_enqueued : String → Status → Fault
  unsupported_deduplication : String → Fault
  invalid_queue_parameters : Fault
  not_database_backed : String → Fault
  queue_not_found : String → Fault
  schedule_exists : String → Fault
  schedule_not_found : String → Fault
  no_application_versions : Fault
  bad_request : Fault

pub data Result {ℓ} (A : Type ℓ) : Type ℓ where
  ok : A → Result A
  err : Fault → Result A

abbrev pub is_ok {ℓ} : {A : Type ℓ} → Result A → Bool
is_ok (ok a) = true
is_ok (err e) = false

pub Result-cases {ℓ} :
    {A : Type ℓ} (r : Result A) → ((a : A) × (r ≡ ok a)) ⊎ ((e : Fault) × (r ≡ err e))
Result-cases (ok a) = inl (a, refl)
Result-cases (err e) = inr (e, refl)
