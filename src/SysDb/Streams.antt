-- ===== src/SysDb/Streams.antt =====
-- Streams of a workflow (`streams`): `writeStreamFromStep`, `writeStreamFromWorkflow`, `closeStream`
-- and `readStreamValue`. A stream's values are serialized texts.
pub mod Entries
pub mod Writes
pub mod Reader
use dbos_transact_ts.Common.{
  ℕ, ◌+◌, max, ltb, ◌==◌, String, Bool, true, false, ◌&&◌, Option, none, some, List, [], ◌∷◌, ◌++◌,
  same, if◌then◌else◌, is_some, first, select,
}
use mathlib.Core.Option
use dbos_transact_ts.SysDb.Schema.{Db, StreamEntry, Status}
use dbos_transact_ts.SysDb.Rows.{find_row}
use dbos_transact_ts.SysDb.Result.{
  Result, ok, err, foreign_key_violation, unique_violation, number_out_of_range,
}
use dbos_transact_ts.SysDb.Steps.{rollback, no_output, run_and_record_result}

abbrev pub funcname_write_stream : String
funcname_write_stream = "DBOS.writeStream"

abbrev pub funcname_close_stream : String
funcname_close_stream = "DBOS.closeStream"

-- `DBOS_STREAM_CLOSED_SENTINEL`
abbrev pub stream_closed_sentinel : String
stream_closed_sentinel = "__DBOS_STREAM_CLOSED__"

-- `WHERE workflow_uuid = $1 AND key = $2`
abbrev pub is_stream : String → String → StreamEntry → Bool
is_stream id key s = same s.workflow_uuid id && same s.key key

-- The primary key of `streams`.
abbrev pub is_entry : String → String → ℕ → StreamEntry → Bool
is_entry id key offset s = is_stream id key s && s.offset == offset

unfoldable pub find_entry : String → String → ℕ → List StreamEntry → Option StreamEntry
find_entry id key offset t = first (is_entry id key offset) t

-- `SELECT MAX("offset")`
unfoldable pub max_offset : List StreamEntry → Option ℕ
max_offset [] = none
max_offset (s ∷ t) = elim (max_offset t) [ none ↦ some s.offset | some m ↦ some (max s.offset m) ]

unfoldable pub next_offset : String → String → List StreamEntry → ℕ
unfolding max_offset
next_offset id key t = elim (max_offset (select (is_stream id key) t)) [ none ↦ 0 | some m ↦ m + 1 ]

-- The largest value of a column of type `int4`.
abbrev pub max_int4 : ℕ
max_int4 = 2147483647

-- `INSERT INTO streams`, with the column's type, its primary key and its foreign key.
unfoldable pub insert_entry : StreamEntry → Db → Result (Unit {0}) × Db
unfolding find_entry find_row
insert_entry s db =
    if ltb max_int4 s.offset
    then (err number_out_of_range, db)
    else (if is_some (find_entry s.workflow_uuid s.key s.offset db.streams)
        then (err unique_violation, db)
        else (if is_some (find_row s.workflow_uuid db.workflow_status)
            then (ok tt, record db { streams = db.streams ++ s ∷ [] })
            else (err foreign_key_violation, db)))

-- The two statements that add a value at the end of a stream.
unfoldable pub append_entry :
    String → ℕ → String → String → Option String → Db → Result (Unit {0}) × Db
unfolding insert_entry next_offset
append_entry id fn key value serialization db =
    insert_entry
      (record {
        workflow_uuid = id;
        key = key;
        value = value;
        offset = next_offset id key db.streams;
        function_id = fn;
        serialization = serialization;
      })
      db

unfoldable pub write_stream_from_step :
    String → ℕ → String → String → Option String → Db → Result (Unit {0}) × Db
unfolding append_entry
write_stream_from_step id fn key value serialization db =
    rollback db (append_entry id fn key value serialization db)

unfoldable pub write_stream_from_workflow :
    String
    → ℕ
    → ℕ
    → String
    → ℕ
    → String
    → String
    → Option String
    → String
    → Db
    → Result (Option String) × Db
unfolding run_and_record_result append_entry
write_stream_from_workflow executor started ended id fn key value serialization name db =
    rollback db (
      run_and_record_result executor started ended name id fn
        (λ d. no_output (append_entry id fn key value serialization d)) db)

unfoldable pub close_stream :
    String → ℕ → ℕ → String → ℕ → String → Db → Result (Option String) × Db
unfolding write_stream_from_workflow
close_stream executor started ended id fn key db =
    write_stream_from_workflow executor started ended id fn key stream_closed_sentinel
      (some "portable_json") funcname_close_stream db

-- `status` is `none` where there is no such workflow.
pub record StreamRead : Type 0 where
  pub status : Option Status
  pub value : Option (String × Option String)

unfoldable pub read_stream_value : String → String → ℕ → Db → StreamRead
unfolding find_entry find_row
read_stream_value id key offset db = elim (find_row id db.workflow_status) [
  | none ↦ record { status = none; value = none }
  | some r ↦ record {
    status = some r.status;
    value = Option.map (λ s. (s.value, s.serialization)) (find_entry id key offset db.streams);
  }
]
