-- ===== src/SysDb/Retry.antt =====
-- `dbRetry`, which runs a method of the system database again as long as it fails for want of a
-- connection. The loop takes the test of errors, `retriablePostgresException`, as an argument.
pub mod Errors
pub mod Loop
pub mod Once
use dbos_transact_ts.Common.{
  ℕ, ◌+◌, ◌*◌, min, String, Bool, true, false, Option, none, some, List, [], ◌∷◌, if◌then◌else◌,
}
use dbos_transact_ts.SysDb.Schema.{Db}

-- What one call of the method ends with: its value, or an error.
pub data Outcome {ℓ κ} (E : Type ℓ) (A : Type κ) : Type (ℓ ⊔ κ) where
  value : A → Outcome E A
  failure : E → Outcome E A

-- One turn of the loop: the random number in thousandths, and what other transactions do during the
-- sleep that may follow.
pub record Turn : Type 0 where
  pub random : ℕ
  pub others : Db → Db

-- `initialBackoff` and `maxBackoff`, in seconds.
abbrev pub initial_backoff : ℕ
initial_backoff = 1

abbrev pub max_backoff : ℕ
max_backoff = 60

-- `backoff * (0.5 + Math.random()) * 1000`, in milliseconds.
abbrev pub actual_backoff : ℕ → ℕ → ℕ
actual_backoff backoff random = backoff * (500 + random)

abbrev pub next_backoff : ℕ → ℕ
next_backoff backoff = min (backoff * 2) max_backoff

-- What the caller gets, the tables then, and how long the loop after_sleep each time.
pub record Retried {ℓ κ} (E : Type ℓ) (A : Type κ) : Type (ℓ ⊔ κ) where
  pub ended : Option (Outcome E A × Db)
  pub sleeps : List ℕ

abbrev pub after_sleep {ℓ κ} : {E : Type ℓ} {A : Type κ} → ℕ → Retried E A → Retried E A
after_sleep ms r = record r { sleeps = ms ∷ r.sleeps }

module _ {ℓ κ} {E : Type ℓ} {A : Type κ} (retriable : E → Bool) where
  abbrev pub after_call : ℕ → Turn → (Db → Retried E A) → Outcome E A × Db → Retried E A
  after_call backoff t again (value a, db) = record { ended = some (value a, db); sleeps = [] }
  after_call backoff t again (failure e, db) =
      if retriable e
      then after_sleep (actual_backoff backoff t.random) (again (t.others db))
      else record { ended = some (failure e, db); sleeps = [] }

  -- The loop; `method` may act on the tables and still fail. `ended` is `none` where the turns are
  -- used up first.
  unfoldable pub retry_from : (ℕ → Db → Outcome E A × Db) → ℕ → ℕ → List Turn → Db → Retried E A
  retry_from method n backoff [] db = record { ended = none; sleeps = [] }
  retry_from method n backoff (t ∷ ts) db =
      after_call backoff t (retry_from method (n + 1) (next_backoff backoff) ts) (method n db)

  -- `method n` is what the call after `n` retries does: the connection may break in any of them.
  unfoldable pub db_retry : (ℕ → Db → Outcome E A × Db) → List Turn → Db → Retried E A
  unfolding retry_from
  db_retry method turns db = retry_from method 0 initial_backoff turns db
