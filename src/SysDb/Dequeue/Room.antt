-- ===== src/SysDb/Dequeue/Room.antt =====
-- The limits of a queue as numbers: what they let through, and when one of them is reached.
use dbos_transact_ts.SysDb.Dequeue.Loop.{room}
use dbos_transact_ts.SysDb.Dequeue.{period_ms}
use dbos_transact_ts.Common.{
  is_some, if◌then◌else◌, ℕ, zero, suc, ◌+◌, ◌*◌, String, count, ◌≤◌, Option, none, some, List, [],
  ◌∷◌, ◌≡◌, refl, ap, arith, inl, inr, ◌⊎◌, All, length, Occurs, IsOrdered, IsOrdered-take,
  take_split,
}
use dbos_transact_ts.SysDb.Schema.{WorkflowStatus}
use dbos_transact_ts.Queue.Params.{WorkflowQueue, QueueRateLimit}
use dbos_transact_ts.SysDb.Dequeue.{Env, recent, limit_rows, global_tasks, worker_tasks}

-- With `used` taken already, `n` more stay within the limit.
abbrev pub Within : Option ℕ → ℕ → ℕ → Type 0
Within none used n = Unit {0}
Within (some limit) used n = (n ≡ 0) ⊎ (used + n ≤ limit)

-- With `used` taken already, `n` more reach the limit.
abbrev pub Reaches : Option ℕ → ℕ → ℕ → Type 0
Reaches none used n = ⊥
Reaches (some limit) used n = limit ≤ used + n

-- What is left of a limit.
abbrev pub AtMost : Option ℕ → ℕ → Type 0
AtMost none n = Unit {0}
AtMost (some m) n = n ≤ m

pub AtMost-le : (o : Option ℕ) (m n : ℕ) → m ≤ n → AtMost o n → AtMost o m
AtMost-le none m n h k = tt
AtMost-le (some l) m n h k = omega arith

pub tasks-Within :
    (c w : Option ℕ) (running local n : ℕ)
    → AtMost (global_tasks c running (worker_tasks w local)) n
    → Within c running n × Within w local n
tasks-Within none none running local n h = (tt, tt)
tasks-Within none (some w) running local n h = (tt, ground arith)
tasks-Within (some c) none running local n h = (ground arith, tt)
tasks-Within (some c) (some w) running local n h = (ground arith, ground arith)

pub tasks-Reaches :
    (c w : Option ℕ) (running local n : ℕ)
    → global_tasks c running (worker_tasks w local) ≡ some n
    → Reaches c running n ⊎ Reaches w local n
tasks-Reaches none none running local n h = cc
tasks-Reaches none (some w) running local n h = inr (ground arith)
tasks-Reaches (some c) none running local n h = inl (ground arith)
tasks-Reaches (some c) (some w) running local n h = ground arith

module _ {A : Type 0} where
  pub limit_rows-AtMost : (o : Option ℕ) (xs : List A) → AtMost o (length (limit_rows o xs))
  limit_rows-AtMost none xs = tt
  limit_rows-AtMost (some zero) xs = omega arith
  limit_rows-AtMost (some (suc n)) [] = omega arith
  limit_rows-AtMost (some (suc n)) (x ∷ xs) = omega (arith, limit_rows-AtMost (some n) xs)

  pub limit_rows_le : (o : Option ℕ) (xs : List A) → length (limit_rows o xs) ≤ length xs
  limit_rows_le none xs = omega arith
  limit_rows_le (some zero) xs = omega arith
  limit_rows_le (some (suc n)) [] = omega arith
  limit_rows_le (some (suc n)) (x ∷ xs) = omega (arith, limit_rows_le (some n) xs)

  -- A limit lets all through or is reached.
  pub limit_rows_all :
      (o : Option ℕ) (xs : List A) → (limit_rows o xs ≡ xs) ⊎ (o ≡ some (length (limit_rows o xs)))
  limit_rows_all none xs = inl refl
  limit_rows_all (some zero) xs = inr refl
  limit_rows_all (some (suc n)) [] = inl refl
  limit_rows_all (some (suc n)) (x ∷ xs) = elim (limit_rows_all (some n) xs) [
    | inl whole ↦ inl (ap (λ ys. x ∷ ys) whole)
    | inr full ↦ inr (ground (arith, full))
  ]

  module _ (R : A → A → Type 0) where
    pub IsOrdered-limit_rows :
        (o : Option ℕ) (xs : List A) → IsOrdered R xs → IsOrdered R (limit_rows o xs)
    IsOrdered-limit_rows none xs h = h
    IsOrdered-limit_rows (some n) xs h = IsOrdered-take R n xs h

    pub limit_rows_split :
        (o : Option ℕ) (xs : List A) (a : A)
        → IsOrdered R xs
        → Occurs a xs
        → Occurs a (limit_rows o xs)
          ⊎ (All (λ x. R x a) (limit_rows o xs) × (o ≡ some (length (limit_rows o xs))))
    limit_rows_split none xs a h m = inl m
    limit_rows_split (some n) xs a h m = elim (take_split R n xs a h m) [
      | inl k ↦ inl k
      | inr (ahead, full) ↦ inr (ahead, cc)
    ]

-- The starts that the rate limit allows, and those within its period.
abbrev pub rate_of : Option QueueRateLimit → Option ℕ
rate_of none = none
rate_of (some l) = some l.limit_per_period

abbrev pub recent_starts :
    Option QueueRateLimit → WorkflowQueue → Option String → Env → List WorkflowStatus → ℕ
recent_starts none q p env t = 0
recent_starts (some l) q p env t = count (recent q p env.start_time_ms (l.period_sec * 1000)) t

pub rate-Within :
    (l : Option QueueRateLimit) (q : WorkflowQueue) (p : Option String) (env : Env)
    (t : List WorkflowStatus) (n : ℕ)
    → AtMost
        (room l (if is_some l then count (recent q p env.start_time_ms (period_ms l)) t else 0))
        n
    → Within (rate_of l) (recent_starts l q p env t) n
rate-Within none q p env t n k = tt
rate-Within (some l) q p env t n k = ground arith

pub rate-Reaches :
    (l : Option QueueRateLimit) (q : WorkflowQueue) (p : Option String) (env : Env)
    (t : List WorkflowStatus) (n : ℕ)
    → room l (if is_some l then count (recent q p env.start_time_ms (period_ms l)) t else 0)
      ≡ some n
    → Reaches (rate_of l) (recent_starts l q p env t) n
rate-Reaches none q p env t n k = cc
rate-Reaches (some l) q p env t n k = ground arith

-- With `started` running, `on_worker` of them here, and `lately` counted against the rate limit, `n`
-- more starts stay within the limits of the queue; or they reach one.
abbrev pub WithinLimits : WorkflowQueue → ℕ → ℕ → ℕ → ℕ → Type 0
WithinLimits q started on_worker lately n =
    Within q.concurrency started n
    × Within q.worker_concurrency on_worker n
    × Within (rate_of q.rate_limit) lately n

abbrev pub ReachesLimit : WorkflowQueue → ℕ → ℕ → ℕ → ℕ → Type 0
ReachesLimit q started on_worker lately n =
    (Reaches q.concurrency started n ⊎ Reaches q.worker_concurrency on_worker n)
    ⊎ Reaches (rate_of q.rate_limit) lately n
