-- ===== src/Tests/Streams.antt =====
-- Streams of the workflows of the test table, and a reader of one.
use dbos_transact_ts.Common.{
  ltb, none, List, [], ◌∷◌, ◌++◌, ◌≡◌, refl, same, length, if◌then◌else◌, is_some, arith,
}
use dbos_transact_ts.SysDb.Schema.{Db, success}
use dbos_transact_ts.SysDb.Rows.{find_row}
use dbos_transact_ts.SysDb.Result.{ok, err, number_out_of_range, foreign_key_violation}
use dbos_transact_ts.SysDb.Steps.{find_step}
use dbos_transact_ts.SysDb.Streams.{
  max_int4, write_stream_from_step, write_stream_from_workflow, funcname_write_stream,
}
use dbos_transact_ts.SysDb.Streams.Entries.{entries, IsContiguous}
use dbos_transact_ts.SysDb.Streams.Writes.{
  IsAppended, appended, write_stream_from_step-IsAppended, write_stream_from_workflow-IsAppended,
}
use dbos_transact_ts.SysDb.Streams.Reader.{read_stream}
use dbos_transact_ts.SysDb.Streams.Reader.Values.{Value, values, read_stream_in_order}
use dbos_transact_ts.SysDb.Streams.Reader.Draining.{read_stream_drains, repeat, drained}
use dbos_transact_ts.Tests.Fixtures.{db, row}

no_streams-IsContiguous : IsContiguous db.streams
unfolding entries
no_streams-IsContiguous id key = tt

write_stream_from_step-IsAppended_example :
    (write_stream_from_step "a" 1 "log" "one" none db ≡ (
      if ltb max_int4 (length (entries "a" "log" db.streams))
      then (err number_out_of_range, db)
      else (if is_some (find_row "a" db.workflow_status)
          then (ok tt, appended "a" 1 "log" "one" none db)
          else (err foreign_key_violation, db))))
    × IsAppended "a" 1 "log" "one" none db (appended "a" 1 "log" "one" none db)
write_stream_from_step-IsAppended_example =
    write_stream_from_step-IsAppended "a" 1 "log" "one" none db no_streams-IsContiguous

abbrev logged : Db
logged = (write_stream_from_workflow "local" 4 5 "a" 1 "log" "one" none funcname_write_stream db).1

logged-IsContiguous : IsContiguous logged.streams
logged-IsContiguous =
    (write_stream_from_workflow-IsAppended "a" 1 "log" "one" none db "local" 4 5
      funcname_write_stream none logged no_streams-IsContiguous (unfold find_step in refl)
      (unfold write_stream_from_workflow same in refl)).0

-- A reader looks before the write, and twice after it.
read_stream_in_order_example :
    (rest : List Value) × (values "a" "log" logged
      ≡ (read_stream "a" "log" (db ∷ logged ∷ logged ∷ [])).yielded ++ rest)
read_stream_in_order_example = read_stream_in_order "a" "log" logged (db ∷ logged ∷ logged ∷ []) (
  (no_streams-IsContiguous, entries "a" "log" logged.streams, unfold entries in refl),
  (
    (logged-IsContiguous, [], unfold entries write_stream_from_workflow same in refl),
    ((logged-IsContiguous, [], unfold entries write_stream_from_workflow same in refl), tt),
  ),
)

-- The workflow has ended.
abbrev ended : Db
ended = record logged { workflow_status = row "a" success 1 ∷ [] }

read_stream_drains_example :
    read_stream "a" "log" (repeat 3 ended) ≡ drained (values "a" "log" ended)
read_stream_drains_example =
    read_stream_drains "a" "log" ended (row "a" success 1) 3 (unfold find_row same in refl) refl
      logged-IsContiguous (unfold entries write_stream_from_workflow same in omega arith)
