-- ===== src/Queue/Runner/Schedule.antt =====
-- Which polls start: the longest overdue first, within the number of lanes.
use dbos_transact_ts.Common.{
  ℕ, zero, suc, sym, ◌+◌, ◌-◌, ◌≤◌, String, true, false, List, [], ◌∷◌, ◌++◌, ◌≡◌, ◌∙◌, refl, arith,
  ap, map, length, take, count, select, any_of, any_of-append, same, same_iff, same_refl,
  if◌then◌else◌, Bool-cases, inl, inr, leb, count-order_by, count-select_le, length-append,
}
use mathlib.Core.List.{append_assoc, append-nil}
use dbos_transact_ts.Queue.Runner.{
  QueueRuntimeState, Runner, tracks, is_due, earlier, due_queues, start_polls, schedule_due_queues,
}

-- A queue has one state.
abbrev pub UniqueNames : List QueueRuntimeState → Type 0
UniqueNames states = (n : String) → count (tracks n) states ≤ 1

-- No name is in flight and listed, and none is listed twice.
abbrev Apart : List String → List QueueRuntimeState → Type 0
Apart in_flight ss = (n : String) → (if any_of in_flight n then 1 else 0) + count (tracks n) ss ≤ 1

abbrev pub names_of : List QueueRuntimeState → List String
names_of ss = map (λ s. s.queue.name) ss

count-tracks-due :
    (n : String) (now : ℕ) (in_flight : List String) (states : List QueueRuntimeState)
    → any_of in_flight n ≡ true
    → count (tracks n) (select (is_due now in_flight) states) ≡ 0
count-tracks-due n now in_flight [] h = refl
count-tracks-due n now in_flight (s ∷ ss) h = elim (Bool-cases (same s.queue.name n)) [
  | inl here ↦
      let flying : any_of in_flight s.queue.name ≡ true = rw ((same_iff s.queue.name n).0 here) h in
      ground (arith, here, flying, count-tracks-due n now in_flight ss h)
  | inr other ↦ ground (arith, other, count-tracks-due n now in_flight ss h)
]

due_queues-Apart :
    (now : ℕ) (in_flight : List String) (states : List QueueRuntimeState)
    → UniqueNames states
    → Apart in_flight (due_queues now in_flight states)
unfolding due_queues
due_queues-Apart now in_flight states unique n = elim (Bool-cases (any_of in_flight n)) [
  | inl flying ↦ ground (
    arith,
    flying,
    count-tracks-due n now in_flight states flying,
    count-order_by (tracks n) earlier (select (is_due now in_flight) states),
  )
  | inr free ↦ ground (
    arith,
    free,
    unique n,
    count-select_le (tracks n) (is_due now in_flight) states,
    count-order_by (tracks n) earlier (select (is_due now in_flight) states),
  )
]

take_nil : (n : ℕ) → take {A = String} n [] ≡ []
take_nil zero = refl
take_nil (suc n) = refl

take_zero : (xs : List String) (n : ℕ) → n ≤ 0 → take n xs ≡ []
take_zero xs n h = let e : n ≡ 0 = omega (arith, h) in rw e refl

-- The state that starts next is not in flight, and the ones after it are apart from it too.
Apart-next :
    (in_flight : List String) (s : QueueRuntimeState) (ss : List QueueRuntimeState)
    → Apart in_flight (s ∷ ss)
    → (any_of in_flight s.queue.name ≡ false) × Apart (in_flight ++ s.queue.name ∷ []) ss
unfolding any_of
Apart-next in_flight s ss h = (
  ground (arith, h s.queue.name, same_refl s.queue.name),
  λ n. ground (arith, h n, any_of-append in_flight (s.queue.name ∷ []) n),
)

start_polls_exact :
    (limit : ℕ) (in_flight : List String) (ss : List QueueRuntimeState)
    → Apart in_flight ss
    → start_polls limit in_flight ss ≡ in_flight ++ take (limit - length in_flight) (names_of ss)
unfolding start_polls
start_polls_exact limit in_flight [] h = sym (
    ap (λ (x : List String). in_flight ++ x) (take_nil (limit - length in_flight))
    ∙ append-nil in_flight)
start_polls_exact limit in_flight (s ∷ ss) h = elim (Bool-cases (leb limit (length in_flight))) [
  | inl full ↦
      rw (full, take_zero (names_of (s ∷ ss)) (limit - length in_flight) (ground (arith, full)))
        (sym (append-nil in_flight))
  | inr left ↦
      let (free, apart) = Apart-next in_flight s ss h in
      let rest = start_polls_exact limit (in_flight ++ s.queue.name ∷ []) ss apart in
      let one_less : limit - length in_flight
          ≡ suc (limit - length (in_flight ++ s.queue.name ∷ [])) =
        ground (arith, left, length-append in_flight (s.queue.name ∷ [])) in
      rw (left, free, one_less) (rest ∙ append_assoc in_flight (s.queue.name ∷ []) _)
]

-- While the runner runs and has one state for each queue, the polls that start are those of the
-- due queues, the longest overdue first, as many as there are free lanes; what is in flight stays
-- there, and a queue in flight is not polled a second time.
pub schedule_due_queues_exact :
    (now limit : ℕ) (in_flight : List String) (w : Runner)
    → w.is_running ≡ true
    → UniqueNames w.states
    → schedule_due_queues now limit in_flight w
      ≡ in_flight ++ take (limit - length in_flight) (names_of (due_queues now in_flight w.states))
unfolding schedule_due_queues
schedule_due_queues_exact now limit in_flight w runs unique = rw runs (
    start_polls_exact limit in_flight (due_queues now in_flight w.states)
      (due_queues-Apart now in_flight w.states unique))
