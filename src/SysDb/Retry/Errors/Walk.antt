-- ===== src/SysDb/Retry/Errors/Walk.antt =====
-- The walk of `unwrapErrors` ends.
use dbos_transact_ts.Common.{
  ℕ, zero, suc, ◌+◌, ◌<◌, ◌≤◌, String, true, false, List, [], ◌∷◌, ◌++◌, ◌≡◌, refl, arith,
  if◌then◌else◌, is_some, length, length-append, Bool-cases, inl, inr,
}
use dbos_transact_ts.SysDb.Retry.Errors.{
  Value, object, primitive, nothing, ErrorObject, held, held_at, is_seen, unwrap_errors,
  retriable_postgres_exception,
}

-- How many values the unseen objects of the store hold, counted from place `i`.
unfoldable pub unseen_held : ℕ → List ErrorObject → List ℕ → ℕ
unseen_held i [] seen = 0
unseen_held i (o ∷ os) seen =
    (if is_seen i seen then 0 else length (held o)) + unseen_held (i + 1) os seen

unseen_held_past :
    (n i : ℕ) (os : List ErrorObject) (seen : List ℕ)
    → n < i
    → unseen_held i os (n ∷ seen) ≡ unseen_held i os seen
unfolding unseen_held
unseen_held_past n i [] seen h = refl
unseen_held_past n i (o ∷ os) seen h =
    ground (arith, h, unseen_held_past n (i + 1) os seen (omega arith))

-- Seeing an object takes what it holds off the count.
unseen_held_seen :
    (n i k : ℕ) (os : List ErrorObject) (seen : List ℕ)
    → i + k ≡ n
    → is_seen n seen ≡ false
    → unseen_held i os (n ∷ seen) + length (held_at os k) ≤ unseen_held i os seen
unfolding unseen_held
unseen_held_seen n i k [] seen e new = omega arith
unseen_held_seen n i zero (o ∷ os) seen e new =
    ground (arith, e, new, unseen_held_past n (i + 1) os seen (omega arith))
unseen_held_seen n i (suc k) (o ∷ os) seen e new =
    ground (arith, e, new, unseen_held_seen n (i + 1) k os seen (omega arith) new)

pub unwrap_errors_ends :
    (fuel : ℕ) (store : List ErrorObject) (queue : List Value) (seen : List ℕ)
    → length queue + unseen_held 0 store seen ≤ fuel
    → is_some (unwrap_errors fuel store queue seen) ≡ true
unfolding unwrap_errors
unwrap_errors_ends fuel store [] seen h = refl
unwrap_errors_ends zero store (v ∷ queue) seen h = absurd (omega arith)
unwrap_errors_ends (suc fuel) store (primitive s ∷ queue) seen h =
    ground (arith, unwrap_errors_ends fuel store queue seen (omega arith))
unwrap_errors_ends (suc fuel) store (nothing ∷ queue) seen h =
    ground (arith, unwrap_errors_ends fuel store queue seen (omega arith))
unwrap_errors_ends (suc fuel) store (object n ∷ queue) seen h = elim (Bool-cases (is_seen n seen)) [
  | inl old ↦ ground (arith, old, unwrap_errors_ends fuel store queue seen (omega arith))
  | inr new ↦ ground (
    arith,
    new,
    unwrap_errors_ends fuel store (queue ++ held_at store n) (n ∷ seen) (
        omega (
          arith,
          length-append queue (held_at store n),
          unseen_held_seen n 0 n store seen (omega arith) new,
        )),
  )
]

-- One more round than the store and the error hold values is enough to classify it.
pub retriable_postgres_exception_ends :
    (to_lower : String → String) (store : List ErrorObject) (e : Value) (fuel : ℕ)
    → 1 + unseen_held 0 store [] ≤ fuel
    → is_some (retriable_postgres_exception to_lower fuel store e) ≡ true
unfolding retriable_postgres_exception
retriable_postgres_exception_ends to_lower store e fuel h =
    ground (arith, unwrap_errors_ends fuel store (e ∷ []) [] (omega (arith, h)))
