-- ===== src/SysDb/Dispatch.antt =====
-- `getEventDispatchState` and `upsertEventDispatchState`: the state of an event receiver, with a time
-- and a sequence number that only grow.
pub mod Growth
use dbos_transact_ts.Common.{
  ℕ, String, Bool, true, false, not, ◌&&◌, ◌||◌, Option, none, some, List, [], ◌∷◌, ◌++◌, same, ltb,
  max, if◌then◌else◌, is_some, first, update,
}

-- A row of `event_dispatch_kv`, and a `DBOSExternalState`.
pub record DispatchState : Type 0 where
  pub service_name : String
  pub workflow_fn_name : String
  pub key : String
  pub value : Option String
  pub update_time : Option ℕ
  pub update_seq : Option ℕ

-- The primary key.
abbrev pub is_state : String → String → String → DispatchState → Bool
is_state service workflow key r =
    same r.service_name service && same r.workflow_fn_name workflow && same r.key key

unfoldable pub get_event_dispatch_state :
    String → String → String → List DispatchState → Option DispatchState
get_event_dispatch_state service workflow key t = first (is_state service workflow key) t

-- `GREATEST`, which leaves out `NULL`.
abbrev pub greatest : Option ℕ → Option ℕ → Option ℕ
greatest none y = y
greatest (some a) none = some a
greatest (some a) (some b) = some (max a b)

-- `>`, where a comparison with `NULL` holds for nobody.
abbrev pub is_greater : Option ℕ → Option ℕ → Bool
is_greater none y = false
is_greater (some a) none = false
is_greater (some a) (some b) = ltb b a

-- The condition of the `CASE`.
abbrev pub is_newer : DispatchState → DispatchState → Bool
is_newer new old =
    is_greater new.update_time old.update_time
    || is_greater new.update_seq old.update_seq
    || (not (is_some old.update_time) && not (is_some old.update_seq))

-- `DO UPDATE SET`
unfoldable pub merge_state : DispatchState → DispatchState → DispatchState
merge_state new old = record old {
  update_time = greatest new.update_time old.update_time;
  update_seq = greatest new.update_seq old.update_seq;
  value = if is_newer new old then new.value else old.value;
}

-- The row that the statement returns, and the table.
unfoldable pub upsert_event_dispatch_state :
    DispatchState → List DispatchState → DispatchState × List DispatchState
unfolding get_event_dispatch_state merge_state
upsert_event_dispatch_state s t =
    elim (get_event_dispatch_state s.service_name s.workflow_fn_name s.key t) [
      | some old ↦ (
        merge_state s old,
        update (is_state s.service_name s.workflow_fn_name s.key) (merge_state s) t,
      )
      | none ↦ (s, t ++ s ∷ [])
    ]
