-- ===== src/Queue/Runner/Refresh.antt =====
-- What a reconciliation with the queues table does to the state of one queue.
use mathlib.Core.Option
use dbos_transact_ts.Common.{
  ℕ, ◌+◌, ◌≤◌, String, Bool, true, false, ◌&&◌, Option, none, some, List, [], ◌∷◌, ◌++◌, ◌≡◌, ◌∙◌,
  refl, arith, ap, count, first, first-update_at, first_sound, first-delete, first-delete_kept,
  update, changed, delete, same, same_iff, same_refl, Bool-cases, Option-cases, inl, inr,
}
use dbos_transact_ts.Queue.Params.{QueueRecord, from_record}
use dbos_transact_ts.Queue.Runner.{
  QueueRuntimeState, Runner, tracks, track, track_all, dispatched, is_gone, ensure_state,
  refresh_db_queues,
}
use dbos_transact_ts.SysDb.Steps.Checkpoints.{first-append_new}

-- The state of a queue with a row: its configuration is that of the row, and its polling goes on as it
-- was, or starts one interval from now.
abbrev pub tracked_as : ℕ → QueueRecord → Option QueueRuntimeState → QueueRuntimeState
tracked_as now r (some s) = record s { queue = from_record r }
tracked_as now r none = record {
  queue = from_record r;
  current_polling_ms = r.polling_interval_ms;
  next_poll_at = now + r.polling_interval_ms;
}

first-append_other {ℓ} :
    {A : Type ℓ} (p : A → Bool) (t : List A) (r : A)
    → p r ≡ false
    → first p (t ++ r ∷ []) ≡ first p t
first-append_other p [] r h = rw h refl
first-append_other p (x ∷ t) r h = ground (arith, first-append_other p t r h)

-- The row that a queue is dispatched by.
abbrev pub row_of : Runner → String → List QueueRecord → Option QueueRecord
row_of w n rs = first (λ r. dispatched w r && same r.name n) rs

named_alike : (a b n : String) → same a b ≡ true → same b n ≡ same a n
named_alike a b n h = rw ((same_iff a b).0 h) refl

module _ (r : QueueRecord) (now : ℕ) (states : List QueueRuntimeState) where
  first-update-track :
      (n : String)
      → first (tracks n) (update (tracks r.name) (λ s. record s { queue = from_record r }) states)
        ≡ Option.map
            (changed (tracks r.name) (λ s. record s { queue = from_record r }))
            (first (tracks n) states)
  unfolding from_record
  first-update-track n =
      first-update_at (tracks n) (tracks r.name) (λ s. record s { queue = from_record r })
        (λ s h. named_alike s.queue.name r.name n h) states

  track_own :
      first (tracks r.name) (track r now states)
      ≡ some (tracked_as now r (first (tracks r.name) states))
  unfolding track ensure_state from_record
  track_own = elim (Option-cases (first (tracks r.name) states)) [
    | inl e ↦
        rw e (first-append_new (tracks r.name) states (tracked_as now r none) e (same_refl r.name))
    | inr (s, e) ↦
        ground (arith, e, first-update-track r.name, first_sound (tracks r.name) states s e)
  ]

  track_own_at :
      (n : String)
      → same r.name n ≡ true
      → first (tracks n) (track r now states) ≡ some (tracked_as now r (first (tracks n) states))
  track_own_at n h = rw (← (same_iff r.name n).0 h) track_own

  elsewhere :
      (n : String)
      → same r.name n ≡ false
      → Option.map
          (changed (tracks r.name) (λ s. record s { queue = from_record r }))
          (first (tracks n) states)
        ≡ first (tracks n) states
  elsewhere n h = elim (Option-cases (first (tracks n) states)) [
    | inl e ↦ rw e refl
    | inr (x, e) ↦
        let at_n = first_sound (tracks n) states x e in
        elim (Bool-cases (same x.queue.name r.name)) [
          | inl alike ↦ absurd (ground (arith, h, at_n, named_alike x.queue.name r.name n alike))
          | inr apart ↦ ground (arith, e, apart)
        ]
  ]

  track_other :
      (n : String)
      → same r.name n ≡ false
      → first (tracks n) (track r now states) ≡ first (tracks n) states
  unfolding track ensure_state from_record
  track_other n h = elim (Option-cases (first (tracks r.name) states)) [
    | inl e ↦ rw e (first-append_other (tracks n) states (tracked_as now r none) h)
    | inr (s, e) ↦ rw (e, first-update-track n) (elsewhere n h)
  ]

module _ (w : Runner) (now : ℕ) (n : String) where
  track_all_absent :
      (rs : List QueueRecord) (states : List QueueRuntimeState)
      → row_of w n rs ≡ none
      → first (tracks n) (track_all w rs now states) ≡ first (tracks n) states
  unfolding track_all
  track_all_absent [] states h = refl
  track_all_absent (r ∷ rs) states h = elim (Bool-cases (dispatched w r)) [
    | inr skipped ↦ rw skipped (track_all_absent rs states (ground (arith, skipped, h)))
    | inl runs ↦ elim (Bool-cases (same r.name n)) [
      | inl here ↦ absurd (ground (arith, runs, here, h))
      | inr other ↦ rw runs (
          track_all_absent rs (track r now states) (ground (arith, runs, other, h))
          ∙ track_other r now states n other)
    ]
  ]

  -- At most one row has the name.
  abbrev pub OneRow : List QueueRecord → Type 0
  OneRow rs = count (λ r. same r.name n) rs ≤ 1

  no_more_rows : (rs : List QueueRecord) → count (λ r. same r.name n) rs ≤ 0 → row_of w n rs ≡ none
  no_more_rows [] h = refl
  no_more_rows (r ∷ rs) h = elim (Bool-cases (same r.name n)) [
    | inl here ↦ absurd (ground (arith, here, h))
    | inr other ↦ ground (arith, other, h, no_more_rows rs)
  ]

  track_all_present :
      (rs : List QueueRecord) (states : List QueueRuntimeState) (r : QueueRecord)
      → OneRow rs
      → row_of w n rs ≡ some r
      → first (tracks n) (track_all w rs now states)
        ≡ some (tracked_as now r (first (tracks n) states))
  unfolding track_all
  track_all_present [] states r one h = cc
  track_all_present (x ∷ rs) states r one h = elim (Bool-cases (same x.name n)) [
    | inl here ↦ elim (Bool-cases (dispatched w x)) [
      | inr skipped ↦
          absurd (ground (arith, skipped, h, no_more_rows rs (ground (arith, here, one))))
      | inl runs ↦
          let same_row : x ≡ r = ground (arith, runs, here, h) in
          rw (runs, ← same_row)
            (track_all_absent rs (track x now states) (no_more_rows rs (ground (arith, here, one)))
              ∙ track_own_at x now states n here)
    ]
    | inr other ↦ elim (Bool-cases (dispatched w x)) [
      | inr skipped ↦
          rw skipped
            (track_all_present rs states r (ground (arith, other, one)) (ground (arith, other, h)))
      | inl runs ↦
          rw (runs, ← track_other x now states n other)
            (track_all_present rs (track x now states) r (ground (arith, other, one))
              (ground (arith, other, h)))
    ]
  ]

  stays :
      (rs : List QueueRecord) (r : QueueRecord) (o : Option QueueRuntimeState)
      → row_of w n rs ≡ some r
      → is_gone w rs (tracked_as now r o) ≡ false
  unfolding from_record
  stays rs r o h =
      let sound = first_sound (λ x. dispatched w x && same x.name n) rs r h in
      let there : row_of w r.name rs ≡ some r =
        ap (λ (k : String). row_of w k rs) ((same_iff r.name n).0 (ground (arith, sound))) ∙ h in
      elim (Option-cases o) [
        | inl e ↦ rw e (ground (arith, there))
        | inr (s, e) ↦ rw e (ground (arith, there))
      ]

  -- Where one row of the queues table dispatches the queue, a reconciliation leaves a state with the
  -- configuration of the row; a queue that is tracked already keeps its interval and its next poll.
  pub refresh_db_queues-present :
      (rs : List QueueRecord) (r : QueueRecord)
      → OneRow rs
      → row_of w n rs ≡ some r
      → first (tracks n) (refresh_db_queues (some rs) now w).states
        ≡ some (tracked_as now r (first (tracks n) w.states))
  unfolding refresh_db_queues from_record
  refresh_db_queues-present rs r one h =
      first-delete (tracks n) (is_gone w rs) (track_all w rs now w.states)
        (tracked_as now r (first (tracks n) w.states)) (track_all_present rs w.states r one h)
        (stays rs r (first (tracks n) w.states) h)

  -- A queue that no row dispatches keeps its state if it is in memory.
  pub refresh_db_queues_in_memory :
      (rs : List QueueRecord) (s : QueueRuntimeState)
      → row_of w n rs ≡ none
      → first (tracks n) w.states ≡ some s
      → s.queue.database_backed ≡ false
      → first (tracks n) (refresh_db_queues (some rs) now w).states ≡ some s
  unfolding refresh_db_queues
  refresh_db_queues_in_memory rs s h e m =
      first-delete (tracks n) (is_gone w rs) (track_all w rs now w.states) s
        (track_all_absent rs w.states h ∙ e) (ground (arith, m))

  -- A queue that no row dispatches any more and that is still polled is one in memory.
  pub refresh_db_queues_gone :
      (rs : List QueueRecord) (s : QueueRuntimeState)
      → row_of w n rs ≡ none
      → first (tracks n) (refresh_db_queues (some rs) now w).states ≡ some s
      → s.queue.database_backed ≡ false
  unfolding refresh_db_queues
  refresh_db_queues_gone rs s h e =
      let at_n = first_sound (tracks n) (delete (is_gone w rs) (track_all w rs now w.states)) s e in
      let none_there : row_of w s.queue.name rs ≡ none = rw ((same_iff s.queue.name n).0 at_n) h in
      ground (
        arith,
        none_there,
        first-delete_kept (tracks n) (is_gone w rs) (track_all w rs now w.states) s e,
      )
