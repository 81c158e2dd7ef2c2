-- ===== src/Executor/Backoff.antt =====
-- How long the attempts of a step sleep between them, and how often.
use dbos_transact_ts.Common.{
  ℕ, zero, suc, ◌-◌, ◌*◌, ◌≤◌, min, List, [], ◌∷◌, ◌≡◌, String, length, or_else,
}
use dbos_transact_ts.Executor.{StepConfig, max_step_retries, Attempted}

-- The first interval, multiplied by the rate `k` times.
abbrev pub grown : ℕ → ℕ → ℕ → ℕ
grown rate interval zero = interval
grown rate interval (suc k) = grown rate interval k * rate

-- The wait before the retry `k`, in seconds: an hour at most, but for the first.
abbrev pub wait_seconds : ℕ → ℕ → ℕ → ℕ
wait_seconds rate interval zero = interval
wait_seconds rate interval (suc k) = min (grown rate interval (suc k)) 3600

-- `n` waits from that of the retry `k` on, in milliseconds.
abbrev pub waits : ℕ → ℕ → ℕ → ℕ → List ℕ
waits rate interval k zero = []
waits rate interval k (suc n) = wait_seconds rate interval k * 1000 ∷ waits rate interval (suc k) n

abbrev rate_of {ℓ} : {E : Type ℓ} → StepConfig E → ℕ
rate_of config = or_else config.backoff_rate 2

abbrev first_of {ℓ} : {E : Type ℓ} → StepConfig E → ℕ
first_of config = or_else config.interval_seconds 1

module _ {ℓ κ} {E : Type ℓ} {A : Type κ} (id : String) (config : StepConfig E) where
  -- The sleeps of a loop that has `left` attempts left after `k` retries.
  abbrev Slept : ℕ → ℕ → Attempted E A → Type (ℓ ⊔ κ)
  Slept left k r =
      (r.sleeps ≡ waits (rate_of config) (first_of config) k (length r.sleeps))
      × (length r.sleeps ≤ left - 1)
      × ((es : List E) → r.ending ≡ max_step_retries es → length r.sleeps ≡ left - 1)
