-- ===== src/SysDb/Retry/Errors/Classes.antt =====
-- What `retriablePostgresException` finds among all the values that an error holds.
use dbos_transact_ts.Common.{
  ℕ, ◌+◌, ◌≤◌, zero, suc, String, true, false, some, List, [], ◌∷◌, ◌++◌, ◌≡◌, refl, arith,
  Bool-cases, Option-cases, inl, inr,
}
use dbos_transact_ts.SysDb.Retry.Errors.{
  Value, object, primitive, nothing, ErrorObject, held_at, is_seen, unwrap_errors,
  value_looks_retryable, judge, retriable_postgres_exception, Verdict, retriable, final, type_error,
}
use dbos_transact_ts.SysDb.Retry.Errors.Walk.{unseen_held, unwrap_errors_ends}
use dbos_transact_ts.SysDb.Retry.Errors.Held.{
  In, Covered, queue-Covered, held-Covered, map-some, unwrap_object, unwrap_seen,
}

-- A value is under another where it is that value, or is held by an object under it.
pub data Under (store : List ErrorObject) : Value → Value → Type 0 where
  itself : {v : Value} → Under store v v
  inside :
      {v w : Value} (n : ℕ) → Under store v (object n) → In w (held_at store n) → Under store v w

uncovered : (v : Value) (ys : List Value) → Covered v ys [] → In v ys
uncovered v ys (inl m) = m
uncovered (object n) ys (inr w) = absurd (ground (arith, w))
uncovered (primitive s) ys (inr w) = absurd w
uncovered nothing ys (inr w) = absurd w

Under-unwrap_errors :
    (store : List ErrorObject) (fuel : ℕ) (e : Value) (ys : List Value)
    → unwrap_errors fuel store (e ∷ []) [] ≡ some ys
    → (v : Value) → Under store e v
    → In v ys
Under-unwrap_errors store fuel e ys h v itself =
    uncovered v ys (queue-Covered store fuel (v ∷ []) [] ys h v (inl refl))
Under-unwrap_errors store fuel e ys h v (inside n below held) = uncovered v ys (
    held-Covered store fuel (e ∷ []) [] ys h n
      (Under-unwrap_errors store fuel e ys h (object n) below) v held)

module _ (store : List ErrorObject) (root : Value) where
  -- Every value of a list is under the root.
  abbrev AllUnder : List Value → Type 0
  AllUnder ys = (v : Value) → In v ys → Under store root v

  AllUnder-append :
      (n : ℕ) (queue ys : List Value)
      → Under store root (object n)
      → AllUnder queue
      → ((v : Value) → In v ys → In v (held_at store n))
      → AllUnder (queue ++ ys)
  AllUnder-append n [] ys top h inner v m = inside n top (inner v m)
  AllUnder-append n (x ∷ queue) ys top h inner v (inl e) = h v (inl e)
  AllUnder-append n (x ∷ queue) ys top h inner v (inr m) =
      AllUnder-append n queue ys top (λ w k. h w (inr k)) inner v m

  AllUnder-cons :
      (x : Value) (ys : List Value) → Under store root x → AllUnder ys → AllUnder (x ∷ ys)
  AllUnder-cons x ys top h v (inl e) = rw e top
  AllUnder-cons x ys top h v (inr m) = h v m

  AllUnder-unwrap_errors :
      (fuel : ℕ) (queue : List Value) (seen : List ℕ) (ys : List Value)
      → unwrap_errors fuel store queue seen ≡ some ys
      → AllUnder queue
      → AllUnder ys
  unfolding unwrap_errors
  AllUnder-unwrap_errors fuel [] seen ys h all = let empty : ys ≡ [] = cc in rw empty all
  AllUnder-unwrap_errors zero (x ∷ queue) seen ys h all = cc
  AllUnder-unwrap_errors (suc fuel) (primitive s ∷ queue) seen ys h all =
      let (zs, rest, made) = map-some (primitive s) _ ys h in
      rw made (
        AllUnder-cons (primitive s) zs (all (primitive s) (inl refl))
          (AllUnder-unwrap_errors fuel queue seen zs rest (λ v m. all v (inr m))))
  AllUnder-unwrap_errors (suc fuel) (nothing ∷ queue) seen ys h all =
      let (zs, rest, made) = map-some nothing _ ys h in
      rw made (
        AllUnder-cons nothing zs (all nothing (inl refl))
          (AllUnder-unwrap_errors fuel queue seen zs rest (λ v m. all v (inr m))))
  AllUnder-unwrap_errors (suc fuel) (object n ∷ queue) seen ys h all =
      elim (Bool-cases (is_seen n seen)) [
        | inl old ↦
            AllUnder-unwrap_errors fuel queue seen ys (unwrap_seen store fuel n queue seen ys old h)
              (λ v m. all v (inr m))
        | inr new ↦
            let (zs, rest, made) = unwrap_object store fuel n queue seen ys new h in
            rw made (
              AllUnder-cons (object n) zs (all (object n) (inl refl)) (
                AllUnder-unwrap_errors fuel (queue ++ held_at store n) (n ∷ seen) zs rest (
                  AllUnder-append n queue (held_at store n) (all (object n) (inl refl))
                    (λ v m. all v (inr m)) (λ v m. m))))
      ]

module _ (to_lower : String → String) (store : List ErrorObject) where
  -- What a verdict says of the values of which `P` holds.
  abbrev pub IsRight : (Value → Type 0) → Verdict → Type 0
  IsRight P retriable = (v : Value) × P v × (value_looks_retryable to_lower store v ≡ true)
  IsRight P final = (v : Value) → P v → value_looks_retryable to_lower store v ≡ false
  IsRight P type_error = P nothing

  IsRight-cons :
      (x : Value) (ys : List Value) (verdict : Verdict)
      → value_looks_retryable to_lower store x ≡ false
      → IsRight (λ v. In v ys) verdict
      → IsRight (λ v. In v (x ∷ ys)) verdict
  IsRight-cons x ys retriable plain (v, m, looks) = (v, inr m, looks)
  IsRight-cons x ys final plain h = λ v m. elim m [ inl e ↦ rw e plain | inr k ↦ h v k ]
  IsRight-cons x ys type_error plain m = inr m

  judge-IsRight : (ys : List Value) → IsRight (λ v. In v ys) (judge to_lower store ys)
  unfolding judge
  judge-IsRight [] = λ v m. absurd m
  judge-IsRight (nothing ∷ ys) = inl refl
  judge-IsRight (primitive s ∷ ys) =
      elim (Bool-cases (value_looks_retryable to_lower store (primitive s))) [
        | inl looks ↦ rw looks (primitive s, inl refl, looks)
        | inr plain ↦ rw plain (IsRight-cons (primitive s) ys _ plain (judge-IsRight ys))
      ]
  judge-IsRight (object n ∷ ys) =
      elim (Bool-cases (value_looks_retryable to_lower store (object n))) [
        | inl looks ↦ rw looks (object n, inl refl, looks)
        | inr plain ↦ rw plain (IsRight-cons (object n) ys _ plain (judge-IsRight ys))
      ]

  IsRight-imp :
      (P Q : Value → Type 0) (verdict : Verdict)
      → ((v : Value) → P v → Q v)
      → ((v : Value) → Q v → P v)
      → IsRight P verdict
      → IsRight Q verdict
  IsRight-imp P Q retriable to back (v, m, looks) = (v, to v m, looks)
  IsRight-imp P Q final to back h = λ v m. h v (back v m)
  IsRight-imp P Q type_error to back m = to nothing m

  -- With one more round than the store and the error hold values, the walk ends with a verdict, and
  -- the verdict is right of everything that the error holds, in however many steps, cycles included:
  -- it is retriable only where some of that looks retryable, it is final only where none of it
  -- does, and the check throws a type error only where there is a null among it.
  pub retriable_postgres_exception-IsRight :
      (e : Value) (fuel : ℕ)
      → 1 + unseen_held 0 store [] ≤ fuel
      → (verdict : Verdict) × (retriable_postgres_exception to_lower fuel store e ≡ some verdict)
        × IsRight (λ v. Under store e v) verdict
  unfolding retriable_postgres_exception
  retriable_postgres_exception-IsRight e fuel enough =
      elim (Option-cases (unwrap_errors fuel store (e ∷ []) [])) [
        | inl out ↦
            absurd (
              ground
                (arith, out, unwrap_errors_ends fuel store (e ∷ []) [] (omega (arith, enough))))
        | inr (ys, ended) ↦ (
          judge to_lower store ys,
          rw ended refl,
          IsRight-imp (λ v. In v ys) (λ v. Under store e v) (judge to_lower store ys)
              (AllUnder-unwrap_errors store e fuel (e ∷ []) [] ys ended
                (AllUnder-cons store e e [] itself (λ v m. absurd m)))
              (Under-unwrap_errors store fuel e ys ended) (judge-IsRight ys),
        )
      ]
