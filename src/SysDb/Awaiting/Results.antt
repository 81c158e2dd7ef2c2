-- ===== src/SysDb/Awaiting/Results.antt =====
-- What waiting for workflows yields, and that it ends.
use mathlib.Core.Option
use mathlib.Core.Path.{subst}
use dbos_transact_ts.Common.{
  ℕ, ◌<◌, String, true, false, Option, none, some, List, [], ◌∷◌, ◌≡◌, ◌≢◌, ap, ◌∙◌, arith, map,
  any_of, same, same_sym, first, first_sound, select, All, All-imp, is_some, Option-cases,
  Bool-cases, inl, inr, if◌then◌else◌,
}
use dbos_transact_ts.SysDb.Schema.{Db, WorkflowStatus, success, cancelled, is_workflow_active}
use dbos_transact_ts.SysDb.Rows.{find_row}
use dbos_transact_ts.SysDb.Result.{Result, ok, err}
use dbos_transact_ts.SysDb.Outcome.{record_workflow_outcome, truthy}
use dbos_transact_ts.SysDb.Outcome.Completion.{record_workflow_outcome_completes}
use dbos_transact_ts.SysDb.Sleep.{Clock}
use dbos_transact_ts.SysDb.Polling.{Round, poll, check_caller}
use dbos_transact_ts.SysDb.Polling.Ending.{poll_found, poll_ends, poll_untimed, Expires}
use dbos_transact_ts.SysDb.Awaiting.{
  StoredResult, returned, stored_result, find_result, Waiter, finish_time, await_from,
  await_workflow_result, is_done_among, await_first_workflow_id, without, done_among,
  await_workflow_ids,
}

module _ (executor : String) (clock : Clock) (w : Waiter) (id : String) (timeout : Option ℕ)
    (rounds : List Round) (db : Db) where
  await_from_found :
      (x : Result ℕ × Db) (a : StoredResult) (db' : Db)
      → await_from w (find_result id) rounds x ≡ some (ok (some a), db')
      → find_result id db' ≡ some a
  await_from_found (err e, d) a db' h = cc
  await_from_found (ok finish, d) a db' h =
      (poll_found w.caller (find_result id) finish rounds d a db' h).0

  -- A result that was awaited is that of the workflow, as it stands when the wait ends: the row is
  -- there and its status is final.
  pub await_workflow_result_found :
      (a : StoredResult) (db' : Db)
      → await_workflow_result executor clock w id timeout rounds db ≡ some (ok (some a), db')
      → (r : WorkflowStatus) × (find_row id db'.workflow_status ≡ some r)
        × (is_workflow_active r.status ≡ false)
        × (stored_result r ≡ some a)
  unfolding await_workflow_result find_result
  await_workflow_result_found a db' h =
      let found = await_from_found _ a db' h in
      elim (Option-cases (find_row id db'.workflow_status)) [
        | inl e ↦ ground (arith, found, e)
        | inr (r, e) ↦ (r, e, ground (arith, found, e), ground (arith, found, e))
      ]

  -- A wait that timed out ended where the workflow had no result.
  pub await_workflow_result_ends :
      (finish : ℕ) (d : Db)
      → finish_time executor clock w timeout db ≡ (ok finish, d)
      → 0 < finish
      → Expires finish rounds
      → is_some (await_workflow_result executor clock w id timeout rounds db) ≡ true
  unfolding await_workflow_result
  await_workflow_result_ends finish d timer pos late =
      ground (arith, timer, poll_ends w.caller (find_result id) finish rounds d pos late)

-- A wait from outside of workflows, on tables where the outcome of a workflow has been recorded as a
-- success and its row is still that one, returns the recorded output at its first look.
pub await-record_workflow_outcome :
    (now : ℕ) (id : String) (output : Option String) (db : Db) (r : WorkflowStatus)
    → find_row id db.workflow_status ≡ some r
    → r.status ≢ cancelled
    → (executor : String) (clock : Clock) (timeout : Option ℕ) (later : Db) (round : Round)
      (rest : List Round)
    → (round.others later).workflow_status
      ≡ (record_workflow_outcome now id success output none db.workflow_status).1
    → await_workflow_result executor clock
        (record { caller = none; timer = none })
        id
        timeout
        (round ∷ rest)
        later
      ≡ some (
        ok (some (returned (if truthy output then output else r.output) r.serialization)),
        round.others later,
      )
unfolding await_workflow_result finish_time find_result poll check_caller
await-record_workflow_outcome now id output db r found alive executor clock timeout later round rest
      same =
    let (completes, _) =
      record_workflow_outcome_completes now id success output none db.workflow_status r found alive
        (λ e. cc) in
    let there = ap (find_row id) same ∙ completes in
    elim timeout
      as (λ t.
        await_from (record { caller = none; timer = none }) (find_result id) (round ∷ rest)
          (finish_time executor clock (record { caller = none; timer = none }) t later)
        ≡ some (
          ok (some (returned (if truthy output then output else r.output) r.serialization)),
          round.others later,
        )) [ none ↦ ground (arith, there) | some seconds ↦ ground (arith, there) ]

abbrev first_done : List String → Db → Option String
first_done ids d = Option.map (λ r. r.workflow_uuid) (first (is_done_among ids) d.workflow_status)

-- The first workflow that a wait names is one of those waited for, and is done when the wait ends.
pub await_first_workflow_id_done :
    (caller : Option String) (ids : List String) (rounds : List Round) (db : Db)
    (id : Option String) (db' : Db)
    → await_first_workflow_id caller ids rounds db ≡ some (ok id, db')
    → (r : WorkflowStatus) × (id ≡ some r.workflow_uuid)
      × (any_of ids r.workflow_uuid ≡ true)
      × (is_workflow_active r.status ≡ false)
      × (first (is_done_among ids) db'.workflow_status ≡ some r)
unfolding await_first_workflow_id
await_first_workflow_id_done caller ids rounds db none db' h =
    absurd (poll_untimed caller (first_done ids) rounds db db' h)
await_first_workflow_id_done caller ids rounds db (some id) db' h =
    let (seen, _) = poll_found caller (first_done ids) 0 rounds db id db' h in
    elim (Option-cases (first (is_done_among ids) db'.workflow_status)) [
      | inl e ↦ ground (arith, seen, e)
      | inr (r, e) ↦
          let both = first_sound (is_done_among ids) db'.workflow_status r e in
          (r, ground (arith, seen, e), ground (arith, both), ground (arith, both), e)
    ]

-- The workflow of an id is done.
abbrev pub IsDone : Db → String → Type 0
IsDone d id = is_some (first (is_done_among (id ∷ [])) d.workflow_status) ≡ true

done_among-IsDone :
    (ids : List String) (t : List WorkflowStatus) (id : String)
    → any_of (map (λ r. r.workflow_uuid) (select (is_done_among ids) t)) id ≡ true
    → is_some (first (is_done_among (id ∷ [])) t) ≡ true
unfolding any_of
done_among-IsDone ids [] id h = cc
done_among-IsDone ids (r ∷ t) id h =
    ground (arith, h, done_among-IsDone ids t id, same_sym r.workflow_uuid id)

without-All :
    (P : String → Type 0) (gone ids : List String)
    → ((id : String) → any_of gone id ≡ true → P id)
    → All P (without gone ids)
    → All P ids
without-All P gone [] out rest = tt
without-All P gone (x ∷ ids) out rest = elim (Bool-cases (any_of gone x)) [
  | inl e ↦ (out x e, without-All P gone ids out (kept e))
  | inr e ↦ let both = still e in (both.0, without-All P gone ids out both.1)
]
  where
    kept : any_of gone x ≡ true → All P (without gone ids)
    kept e =
        let at : without gone (x ∷ ids) ≡ without gone ids = ground (arith, e) in
        subst (All P) at rest

    still : any_of gone x ≡ false → All P (x ∷ without gone ids)
    still e =
        let at : without gone (x ∷ ids) ≡ x ∷ without gone ids = ground (arith, e) in
        subst (All P) at rest

goes_on :
    (caller : Option String) (x : String) (xs : List String) (r : Round) (rs : List Round)
    (db db' : Db)
    → await_workflow_ids caller (x ∷ xs) (r ∷ rs) db ≡ some (ok tt, db')
    → await_workflow_ids caller
        (without (done_among (x ∷ xs) (r.others db)) (x ∷ xs))
        rs
        (r.others db)
      ≡ some (ok tt, db')
unfolding await_workflow_ids
goes_on caller x xs r rs db db' h = ground (arith, h)

await_workflow_ids_keeps :
    (P : Db → Type 0) (caller : Option String) (ids : List String) (rounds : List Round)
    (db db' : Db)
    → All (λ round. (d : Db) → P d → P (round.others d)) rounds
    → await_workflow_ids caller ids rounds db ≡ some (ok tt, db')
    → P db
    → P db'
unfolding await_workflow_ids
await_workflow_ids_keeps P caller [] rounds db db' keep h p = let at : db ≡ db' = cc in rw (← at) p
await_workflow_ids_keeps P caller (x ∷ xs) [] db db' keep h p = cc
await_workflow_ids_keeps P caller (x ∷ xs) (r ∷ rs) db db' keep h p =
    await_workflow_ids_keeps P caller (without (done_among (x ∷ xs) (r.others db)) (x ∷ xs)) rs
      (r.others db) db' keep.1 (goes_on caller x xs r rs db db' h) (keep.0 db p)

-- A wait for several workflows that returns has seen each of them done, and they still are, if the
-- other transactions revive none.
pub await_workflow_ids-IsDone :
    (caller : Option String) (ids : List String) (rounds : List Round) (db db' : Db)
    → All (λ round. (d : Db) (id : String) → IsDone d id → IsDone (round.others d) id) rounds
    → await_workflow_ids caller ids rounds db ≡ some (ok tt, db')
    → All (IsDone db') ids
unfolding await_workflow_ids
await_workflow_ids-IsDone caller [] rounds db db' keep h = tt
await_workflow_ids-IsDone caller (x ∷ xs) [] db db' keep h = cc
await_workflow_ids-IsDone caller (x ∷ xs) (r ∷ rs) db db' keep h =
    let d = r.others db in
    let next = goes_on caller x xs r rs db db' h in
    without-All (IsDone db') (done_among (x ∷ xs) d) (x ∷ xs)
      (λ id gone.
        await_workflow_ids_keeps (λ e. IsDone e id) caller
          (without (done_among (x ∷ xs) d) (x ∷ xs)) rs d db'
          (All-imp _ (λ round. (e : Db) → IsDone e id → IsDone (round.others e) id)
            (λ round k e. k e id) rs keep.1)
          next (done_among-IsDone (x ∷ xs) d.workflow_status id gone))
      (await_workflow_ids-IsDone caller (without (done_among (x ∷ xs) d) (x ∷ xs)) rs d db' keep.1
        next)
