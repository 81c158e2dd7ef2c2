-- ===== src/Tests/Attempts.antt =====
-- A step that fails twice, with a predicate that retries it once.
use dbos_transact_ts.Common.{
  ℕ, Bool, true, false, Option, none, some, List, [], ◌∷◌, ◌≡◌, refl, String, length, or_else, same,
}
use dbos_transact_ts.SysDb.Schema.{Db}
use dbos_transact_ts.SysDb.Outcome.{check_if_canceled}
use dbos_transact_ts.SysDb.Retry.{Outcome, value, failure}
use dbos_transact_ts.Executor.{StepConfig, thrown, execute_step}
use dbos_transact_ts.Executor.Attempts.{AllRetried, execute_step-max_step_retries}
use dbos_transact_ts.Tests.Fixtures.{db}

abbrev config : Option (String → Outcome String Bool) → StepConfig String
config should_retry = record {
  retries_allowed = true;
  interval_seconds = some 7200;
  max_attempts = none;
  backoff_rate = none;
  should_retry = should_retry;
}

abbrev downs : List String
downs = "down" ∷ "down" ∷ "down" ∷ []

abbrev failing : Option ℕ → Db → Outcome String ℕ × Db
failing n d = (failure "down", d)

execute_step-max_step_retries_example :
    (length downs ≡ or_else (config none).max_attempts 3) × AllRetried (config none) downs
execute_step-max_step_retries_example =
    execute_step-max_step_retries "a" (config none) failing db downs
      (unfold execute_step check_if_canceled same in refl)

abbrev patient : StepConfig String
patient = record (config none) { interval_seconds = some 1000 }

-- The first sleep is not capped.
sleeps_test : (execute_step "a" (config none) failing db).sleeps ≡ 7200000 ∷ 3600000 ∷ []
unfolding execute_step check_if_canceled same
sleeps_test = refl

refused_test :
    (execute_step "a" (config (some (λ e. value false))) failing db).ending ≡ thrown "down"
unfolding execute_step check_if_canceled same
refused_test = refl
