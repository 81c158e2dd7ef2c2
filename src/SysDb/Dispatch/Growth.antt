-- ===== src/SysDb/Dispatch/Growth.antt =====
-- The state of a key after several writes: what is returned is what is stored, and late writes lose.
use dbos_transact_ts.Common.{
  ℕ, ◌≤◌, ◌≢◌, Option, none, some, List, ◌≡◌, refl, ◌∙◌, ap, sym, arith, same_refl, first,
  first_sound, first-update_at, Option-cases, inl, inr, String,
}
use dbos_transact_ts.SysDb.Steps.Checkpoints.{first-append_new}
use dbos_transact_ts.SysDb.Dispatch.{
  DispatchState, is_state, get_event_dispatch_state, merge_state, upsert_event_dispatch_state,
  greatest,
}

abbrev pub AtMost : Option ℕ → Option ℕ → Type 0
AtMost none y = Unit {0}
AtMost (some a) none = ⊥
AtMost (some a) (some b) = a ≤ b

greatest_left : (x y : Option ℕ) → AtMost x (greatest x y)
greatest_left none y = tt
greatest_left (some a) none = omega arith
greatest_left (some a) (some b) = omega arith

greatest_right : (x y : Option ℕ) → AtMost y (greatest x y)
greatest_right none none = tt
greatest_right none (some b) = omega arith
greatest_right (some a) none = tt
greatest_right (some a) (some b) = omega arith

module _ (s : DispatchState) (t : List DispatchState) where
  abbrev upserted : DispatchState × List DispatchState
  upserted = upsert_event_dispatch_state s t

  -- What the statement returns is what is stored under the key then.
  pub get_event_dispatch_state-upsert :
      get_event_dispatch_state s.service_name s.workflow_fn_name s.key upserted.1 ≡ some upserted.0
  unfolding upsert_event_dispatch_state get_event_dispatch_state merge_state
  get_event_dispatch_state-upsert =
      elim (Option-cases (first (is_state s.service_name s.workflow_fn_name s.key) t)) [
        | inl free ↦ ground (
          arith,
          free,
          same_refl s.service_name,
          same_refl s.workflow_fn_name,
          same_refl s.key,
          first-append_new (is_state s.service_name s.workflow_fn_name s.key) t s,
        )
        | inr (old, found) ↦ ground (
          arith,
          found,
          first_sound (is_state s.service_name s.workflow_fn_name s.key) t old found,
          first-update_at (is_state s.service_name s.workflow_fn_name s.key)
              (is_state s.service_name s.workflow_fn_name s.key) (merge_state s) (λ r h. refl) t,
        )
      ]

-- What a write makes of the state of its key.
abbrev pub stored : DispatchState → Option DispatchState → DispatchState
stored s none = s
stored s (some old) = merge_state s old

upsert-stored :
    (s : DispatchState) (t : List DispatchState)
    → get_event_dispatch_state s.service_name s.workflow_fn_name s.key
        (upsert_event_dispatch_state s t).1
      ≡ some (stored s (get_event_dispatch_state s.service_name s.workflow_fn_name s.key t))
unfolding upsert_event_dispatch_state
upsert-stored s t =
    elim (Option-cases (get_event_dispatch_state s.service_name s.workflow_fn_name s.key t)) [
      | inl free ↦ ground (arith, free, get_event_dispatch_state-upsert s t)
      | inr (old, found) ↦ ground (arith, found, get_event_dispatch_state-upsert s t)
    ]

-- The time and the sequence number stored under a key never decrease, and are at least the ones
-- written.
pub upsert_event_dispatch_state_grows :
    (s : DispatchState) (t : List DispatchState) (old : DispatchState)
    → get_event_dispatch_state s.service_name s.workflow_fn_name s.key t ≡ some old
    → (new : DispatchState) × (get_event_dispatch_state s.service_name s.workflow_fn_name s.key
          (upsert_event_dispatch_state s t).1
        ≡ some new)
      × AtMost old.update_time new.update_time
      × AtMost old.update_seq new.update_seq
      × AtMost s.update_time new.update_time
      × AtMost s.update_seq new.update_seq
unfolding merge_state
upsert_event_dispatch_state_grows s t old found = (
  merge_state s old,
  rw (upsert-stored s t, found) refl,
  greatest_right s.update_time old.update_time,
  greatest_right s.update_seq old.update_seq,
  greatest_left s.update_time old.update_time,
  greatest_left s.update_seq old.update_seq,
)

module _ (service workflow key : String) where
  -- A state with a time and no sequence number.
  abbrev pub timed : Option String → ℕ → DispatchState
  timed value time = record {
    service_name = service;
    workflow_fn_name = workflow;
    key = key;
    value = value;
    update_time = some time;
    update_seq = none;
  }

  merge_state_order :
      (v w : Option String) (m n : ℕ) (old : DispatchState)
      → m ≢ n
      → old.update_seq ≡ none
      → merge_state (timed w n) (merge_state (timed v m) old)
        ≡ merge_state (timed v m) (merge_state (timed w n) old)
  unfolding merge_state
  merge_state_order v w m n old apart unnumbered = elim (Option-cases old.update_time) [
    | inl new ↦ ground (arith, apart, unnumbered, new)
    | inr (k, known) ↦ ground (arith, apart, unnumbered, known)
  ]

  stored_order :
      (v w : Option String) (m n : ℕ) (x : Option DispatchState)
      → m ≢ n
      → ((old : DispatchState) → x ≡ some old → old.update_seq ≡ none)
      → stored (timed w n) (some (stored (timed v m) x))
        ≡ stored (timed v m) (some (stored (timed w n) x))
  unfolding merge_state
  stored_order v w m n none apart unnumbered = ground (arith, apart)
  stored_order v w m n (some old) apart unnumbered =
      merge_state_order v w m n old apart (unnumbered old refl)

  -- Two writes with different times and without sequence numbers leave the same state in either
  -- order, where the state before has no sequence number: the older write never overwrites.
  pub upsert_event_dispatch_state_order :
      (v w : Option String) (m n : ℕ) (t : List DispatchState)
      → m ≢ n
      → ((old : DispatchState)
          → get_event_dispatch_state service workflow key t ≡ some old
          → old.update_seq ≡ none)
      → get_event_dispatch_state service workflow key
          (upsert_event_dispatch_state (timed w n) (upsert_event_dispatch_state (timed v m) t).1).1
        ≡ get_event_dispatch_state service workflow key
            (upsert_event_dispatch_state
              (timed v m)
              (upsert_event_dispatch_state (timed w n) t).1).1
  upsert_event_dispatch_state_order v w m n t apart unnumbered =
      twice v w m n
      ∙ ap some
          (stored_order v w m n (get_event_dispatch_state service workflow key t) apart unnumbered)
      ∙ sym (twice w v n m)
    where
      twice :
          (v w : Option String) (m n : ℕ)
          → get_event_dispatch_state service workflow key
              (upsert_event_dispatch_state
                (timed w n)
                (upsert_event_dispatch_state (timed v m) t).1).1
            ≡ some (
                stored
                  (timed w n)
                  (some (stored (timed v m) (get_event_dispatch_state service workflow key t))))
      twice v w m n =
          upsert-stored (timed w n) (upsert_event_dispatch_state (timed v m) t).1
          ∙ ap (λ x. some (stored (timed w n) x)) (upsert-stored (timed v m) t)
