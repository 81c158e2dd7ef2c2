-- ===== src/Queue/Registry/Registration.antt =====
-- What a registration stores and returns.
use dbos_transact_ts.Common.{
  String, Bool, true, false, Option, none, some, List, ◌≡◌, arith, same, same_iff, same_refl,
  if◌then◌else◌, first, first-update_at, first-update_apart, first-append_other, first_sound,
  Option-cases, inl, inr,
}
use dbos_transact_ts.SysDb.Result.{ok}
use dbos_transact_ts.SysDb.Steps.Checkpoints.{first-append_new}
use dbos_transact_ts.SysDb.Dequeue.{VersionInfo}
use dbos_transact_ts.Queue.Params.{
  QueueParameters, QueueRecord, validate_queue_params, record_from_params, from_record, named,
  get_queue,
}
use dbos_transact_ts.Queue.Registry.{
  upsert_queue, retrieve_queue, OnConflict, updates_existing, persist, register_queue,
}

-- The row that a registration leaves under its name.
abbrev pub registered_row : Bool → QueueRecord → Option QueueRecord → QueueRecord
registered_row update_existing new none = new
registered_row update_existing new (some old) = if update_existing then new else old

module _ (r : QueueRecord) (u : Bool) (t : List QueueRecord) where
  upsert_queue-get_queue :
      get_queue r.name (upsert_queue r u t).1 ≡ some (registered_row u r (get_queue r.name t))
  unfolding upsert_queue get_queue
  upsert_queue-get_queue = elim (Option-cases (first (named r.name) t)) [
    | inl free ↦ ground (arith, free, same_refl r.name, first-append_new (named r.name) t r)
    | inr (old, found) ↦ ground (
      arith,
      found,
      first_sound (named r.name) t old found,
      same_refl r.name,
      first-update_at (named r.name) (named r.name) (λ x. r)
          (λ x h. ground (arith, h, same_refl r.name)) t,
    )
  ]

  upsert_queue_elsewhere :
      (other : String)
      → same r.name other ≡ false
      → get_queue other (upsert_queue r u t).1 ≡ get_queue other t
  unfolding upsert_queue get_queue
  upsert_queue_elsewhere other apart = ground (
    arith,
    apart,
    first-append_other (named other) t r,
    first-update_apart (named other) (named r.name) (λ x. r) (λ x here. (past x here, apart)) t,
  )
    where
      past : (x : QueueRecord) → named r.name x ≡ true → named other x ≡ false
      past x here = ground (arith, here, apart, same_iff x.name r.name)

  persist_lem :
      persist r u t
      ≡ (ok (from_record (registered_row u r (get_queue r.name t))), (upsert_queue r u t).1)
  unfolding persist retrieve_queue
  persist_lem = ground (arith, upsert_queue-get_queue)

-- A registration whose parameters pass the checks returns the queue of the row that is stored under
-- its name then: the new parameters, where there was no row or rows are to be updated, and the old
-- row otherwise. The rows of the other queues stay as they are.
pub register_queue-get_queue :
    (conflict : OnConflict) (app_version : String) (versions : List VersionInfo) (name : String)
    (params : QueueParameters) (t : List QueueRecord) (u : Bool)
    → validate_queue_params params ≡ ok tt
    → updates_existing conflict app_version versions ≡ ok u
    → let (result, t') = register_queue conflict app_version versions name params t in
      let row = registered_row u (record_from_params name params) (get_queue name t) in
      (result ≡ ok (from_record row))
      × (get_queue name t' ≡ some row)
      × ((other : String) → same name other ≡ false → get_queue other t' ≡ get_queue other t)
unfolding register_queue record_from_params
register_queue-get_queue conflict app_version versions name params t u valid updates =
    let row : QueueRecord = record_from_params name params in
    let stored = persist_lem row u t in
    (
      ground (arith, valid, updates, stored),
      ground (arith, valid, updates, stored, upsert_queue-get_queue row u t),
      λ other apart.
          ground (arith, valid, updates, stored, upsert_queue_elsewhere row u t other apart),
    )
