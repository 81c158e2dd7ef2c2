-- ===== src/SysDb/Retry/Loop.antt =====
-- The loop of `dbRetry` ends when the connection is back, with what the method then gives, and sleeps
-- within its bounds.
use native.Mathlib.Nat.{mul-le-mul}
use dbos_transact_ts.Common.{
  not, refl, Bool-cases, inl, inr, ℕ, ◌+◌, ◌*◌, ◌<◌, ◌≤◌, Bool, true, false, some, List, [], ◌∷◌,
  ◌≡◌, arith, All, length, is_some, if◌then◌else◌,
}
use dbos_transact_ts.SysDb.Schema.{Db}
use dbos_transact_ts.SysDb.Retry.{
  Outcome, value, failure, Turn, Retried, retry_from, db_retry, after_call, after_sleep,
  initial_backoff, max_backoff, next_backoff, actual_backoff,
}

-- The least and the largest time that the loop sleeps, in milliseconds.
abbrev pub InBounds : ℕ → Type 0
InBounds ms = (500 ≤ ms) × (ms < 90000)

sleep-InBounds :
    (backoff random : ℕ)
    → 1 ≤ backoff
    → backoff ≤ max_backoff
    → random < 1000
    → InBounds (actual_backoff backoff random)
sleep-InBounds backoff random low high small =
    let least : 500 ≤ 500 + random = omega arith in
    let most : 500 + random ≤ 1499 = omega arith in
    let above : 1 * 500 ≤ backoff * (500 + random) = mul-le-mul low least in
    let below : backoff * (500 + random) ≤ 60 * 1499 = mul-le-mul high most in
    (omega (arith, above), omega (arith, below))

module _ {ℓ κ} {E : Type ℓ} {A : Type κ} (retriable : E → Bool) where
  -- An outcome that ends the loop.
  abbrev pub is_settled : Outcome E A → Bool
  is_settled (value a) = true
  is_settled (failure e) = not (retriable e)

  -- One call, where a failed one goes on.
  after_call_ends :
      (backoff : ℕ) (t : Turn) (again : Db → Retried E A) (x : Outcome E A × Db)
      → ((d : Db) → is_settled x.0 ≡ false → is_some (again d).ended ≡ true)
      → is_some (after_call retriable backoff t again x).ended ≡ true
  after_call_ends backoff t again (value a, db) h = refl
  after_call_ends backoff t again (failure e, db) h = elim (Bool-cases (retriable e)) [
    | inl lost ↦ ground (arith, lost, h (t.others db))
    | inr over ↦ ground (arith, over)
  ]

  after_call_settled :
      (backoff : ℕ) (t : Turn) (again : Db → Retried E A) (x : Outcome E A × Db) (o : Outcome E A)
      (db' : Db)
      → ((d : Db) → (again d).ended ≡ some (o, db') → is_settled o ≡ true)
      → (after_call retriable backoff t again x).ended ≡ some (o, db')
      → is_settled o ≡ true
  after_call_settled backoff t again (value a, db) o db' h e =
      let same : o ≡ value a = cc in rw same refl
  after_call_settled backoff t again (failure f, db) o db' h e = elim (Bool-cases (retriable f)) [
    | inl lost ↦ h (t.others db) (ground (arith, lost, e))
    | inr over ↦
        let same : o ≡ failure f = ground (arith, over, e) in rw same (ground (arith, over))
  ]

  after_call_sleeps :
      (backoff : ℕ) (t : Turn) (again : Db → Retried E A) (x : Outcome E A × Db)
      → InBounds (actual_backoff backoff t.random)
      → ((d : Db) → All InBounds (again d).sleeps)
      → All InBounds (after_call retriable backoff t again x).sleeps
  after_call_sleeps backoff t again (value a, db) fits h = tt
  after_call_sleeps backoff t again (failure f, db) fits h =
      elim (retriable f)
        as (λ b.
          All InBounds
            (if b
              then after_sleep (actual_backoff backoff t.random) (again (t.others db))
              else record { ended = some (failure f, db); sleeps = [] }).sleeps) [
                | true ↦ (fits, h (t.others db))
                | false ↦ tt
              ]

  module _ (method : ℕ → Db → Outcome E A × Db) where
    retry_from_ends :
        (k : ℕ)
        → ((db : Db) → is_settled (method k db).0 ≡ true)
        → (n backoff : ℕ) (turns : List Turn) (db : Db) → n ≤ k
        → k < n + length turns
        → is_some (retry_from retriable method n backoff turns db).ended ≡ true
    unfolding retry_from
    retry_from_ends k back n backoff [] db low high = absurd (omega arith)
    retry_from_ends k back n backoff (t ∷ ts) db low high =
        after_call_ends backoff t (retry_from retriable method (n + 1) (next_backoff backoff) ts)
          (method n db)
          λ d failed.
            let not_yet : n < k = ground (arith, failed, back db, low) in
            retry_from_ends k back (n + 1) (next_backoff backoff) ts d (omega arith) (omega arith)

    retry_from_settled :
        (n backoff : ℕ) (turns : List Turn) (db : Db) (o : Outcome E A) (db' : Db)
        → (retry_from retriable method n backoff turns db).ended ≡ some (o, db')
        → is_settled o ≡ true
    unfolding retry_from
    retry_from_settled n backoff [] db o db' h = cc
    retry_from_settled n backoff (t ∷ ts) db o db' h =
        after_call_settled backoff t (retry_from retriable method (n + 1) (next_backoff backoff) ts)
          (method n db) o db'
          (λ d e. retry_from_settled (n + 1) (next_backoff backoff) ts d o db' e) h

    retry_from_sleeps :
        (n backoff : ℕ) (turns : List Turn) (db : Db)
        → 1 ≤ backoff
        → backoff ≤ max_backoff
        → All (λ t. t.random < 1000) turns
        → All InBounds (retry_from retriable method n backoff turns db).sleeps
    unfolding retry_from
    retry_from_sleeps n backoff [] db low high random = tt
    retry_from_sleeps n backoff (t ∷ ts) db low high random =
        after_call_sleeps backoff t (retry_from retriable method (n + 1) (next_backoff backoff) ts)
          (method n db) (sleep-InBounds backoff t.random low high random.0)
          (λ d.
            retry_from_sleeps (n + 1) (next_backoff backoff) ts d (omega arith) (omega arith)
              random.1)

    -- Once a call, whatever the tables are then, does not fail for want of a connection, the loop
    -- has ended by it.
    pub db_retry_ends :
        (k : ℕ)
        → ((db : Db) → is_settled (method k db).0 ≡ true)
        → (turns : List Turn) (db : Db) → k < length turns
        → is_some (db_retry retriable method turns db).ended ≡ true
    unfolding db_retry
    db_retry_ends k back turns db high =
        retry_from_ends k back 0 initial_backoff turns db (omega arith) (omega arith)

    -- The loop sleeps half a second at least and less than ninety seconds each time, whatever the
    -- random numbers are.
    pub db_retry_bounds :
        (turns : List Turn) (db : Db)
        → All (λ t. t.random < 1000) turns
        → All InBounds (db_retry retriable method turns db).sleeps
    unfolding db_retry
    db_retry_bounds turns db random =
        retry_from_sleeps 0 initial_backoff turns db (omega arith) (omega arith) random
