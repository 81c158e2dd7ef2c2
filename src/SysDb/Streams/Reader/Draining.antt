-- ===== src/SysDb/Streams/Reader/Draining.antt =====
-- A reader of a stream that nobody writes to any more drains it and ends.
use dbos_transact_ts.Common.{
  ℕ, zero, suc, ◌+◌, ◌≤◌, String, Bool, true, false, some, List, [], ◌∷◌, ◌≡◌, refl, ap, ◌∙◌, arith,
  same, length, if◌then◌else◌, get_elem?-map, get_elem?-drop, drop, drop-tail, head, tail,
  length-map,
}
use dbos_transact_ts.SysDb.Schema.{Db, WorkflowStatus, is_workflow_active}
use dbos_transact_ts.SysDb.Rows.{find_row}
use dbos_transact_ts.SysDb.Result.{Result, ok}
use dbos_transact_ts.SysDb.Streams.{read_stream_value, stream_closed_sentinel}
use dbos_transact_ts.SysDb.Streams.Entries.{entries, IsContiguous, find_entry-get_elem?}
use dbos_transact_ts.SysDb.Streams.Reader.{Yield, read_from, read_stream}
use dbos_transact_ts.SysDb.Streams.Reader.Values.{Value, values}

-- The values before the mark that closes the stream.
abbrev pub until_closed : List Value → List Value
until_closed [] = []
until_closed (v ∷ vs) = if same v.0 stream_closed_sentinel then [] else v ∷ until_closed vs

abbrev pub drained : List Value → Yield
drained vs = record { yielded = until_closed vs; ended = some (ok tt) }

abbrev pub repeat {ℓ} : {A : Type ℓ} → ℕ → A → List A
repeat zero a = []
repeat (suc n) a = a ∷ repeat n a

module _ (id key : String) (db : Db) (r : WorkflowStatus)
    (found : find_row id db.workflow_status ≡ some r) (done : is_workflow_active r.status ≡ false)
    (counts : IsContiguous db.streams) (missing : Result (Unit {0})) where
  seen-status : (k : ℕ) → (read_stream_value id key k db).status ≡ some r.status
  unfolding read_stream_value
  seen-status k = ground (arith, found)

  seen-value : (k : ℕ) → (read_stream_value id key k db).value ≡ head (drop k (values id key db))
  unfolding read_stream_value
  seen-value k =
      let at = find_entry-get_elem? id key db.streams (counts id key) k in
      let e =
        get_elem?-map {B = Value} (λ s. (s.value, s.serialization)) (entries id key db.streams) k in
      ground (arith, found, at, e, get_elem?-drop (values id key db) k)

  read_from-drained :
      (n k : ℕ) (final : Bool) (l : List Value)
      → drop k (values id key db) ≡ l
      → length l + (if final then 1 else 2) ≤ n
      → read_from missing id key (repeat n db) k final ≡ drained l
  unfolding read_from
  read_from-drained zero k true l e h = absurd (omega arith)
  read_from-drained zero k false l e h = absurd (omega arith)
  read_from-drained (suc n) k true [] e h = ground (arith, seen-status k, seen-value k ∙ ap head e)
  read_from-drained (suc n) k false [] e h = ground (
    arith,
    seen-status k,
    seen-value k ∙ ap head e,
    done,
    read_from-drained n k true [] e (omega arith),
  )
  read_from-drained (suc n) k final (v ∷ l) e h = ground (
    arith,
    seen-status k,
    seen-value k ∙ ap head e,
    read_from-drained n (k + 1) final l (drop-tail (values id key db) k ∙ ap tail e) (omega arith),
  )

-- In tables where the offsets of every stream count up from zero without a gap (those of a fork need
-- not), a reader that looks at a stream of a workflow that is done and writes no more ends, after two
-- looks more than the stream has entries, having yielded all its values up to the mark that closes
-- it, or all there are.
pub read_stream_drains :
    (id key : String) (db : Db) (r : WorkflowStatus) (n : ℕ)
    → find_row id db.workflow_status ≡ some r
    → is_workflow_active r.status ≡ false
    → IsContiguous db.streams
    → length (entries id key db.streams) + 2 ≤ n
    → read_stream id key (repeat n db) ≡ drained (values id key db)
unfolding read_stream
read_stream_drains id key db r n found done counts enough =
    read_from-drained id key db r found done counts _ n 0 false (values id key db) refl (
      omega (
        arith,
        enough,
        length-map {B = Value} (entries id key db.streams) (λ s. (s.value, s.serialization)),
      ))
