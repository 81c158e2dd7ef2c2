-- ===== src/SysDb/Streams/Writes.antt =====
-- A write adds its value at the end of its stream, and leaves every other stream alone.
use dbos_transact_ts.Common.{
  ℕ, ltb, String, true, false, ◌&&◌, Option, none, [], ◌∷◌, ◌++◌, ◌≡◌, ap, ◌∙◌, arith, same,
  same_iff, same_refl, select-append, select-append_other, Bool-cases, inl, inr, length, is_some,
  if◌then◌else◌,
}
use dbos_transact_ts.SysDb.Schema.{Db, StreamEntry}
use dbos_transact_ts.SysDb.Rows.{find_row}
use dbos_transact_ts.SysDb.Result.{ok, err, number_out_of_range, foreign_key_violation}
use dbos_transact_ts.SysDb.Steps.{find_step, no_output}
use dbos_transact_ts.SysDb.Steps.Effects.{run_and_record_result-SameComms, no_output-ok}
use dbos_transact_ts.SysDb.Streams.{
  max_int4, is_stream, insert_entry, append_entry, write_stream_from_step,
  write_stream_from_workflow,
}
use dbos_transact_ts.SysDb.Streams.Entries.{
  entries, IsContiguous, CountsFrom-append, next_offset_lem, find_entry-get_elem?, get_elem?-length,
}

module _ (id : String) (fn : ℕ) (key value : String) (serialization : Option String) (db : Db) where
  -- The entry that a write adds.
  abbrev pub new_entry : StreamEntry
  new_entry = record {
    workflow_uuid = id;
    key = key;
    value = value;
    offset = length (entries id key db.streams);
    function_id = fn;
    serialization = serialization;
  }

  append_entry_lem :
      IsContiguous db.streams
      → append_entry id fn key value serialization db ≡ (
          if ltb max_int4 new_entry.offset
          then (err number_out_of_range, db)
          else (if is_some (find_row id db.workflow_status)
              then (ok tt, record db { streams = db.streams ++ new_entry ∷ [] })
              else (err foreign_key_violation, db)))
  unfolding append_entry insert_entry
  append_entry_lem counts =
      let at = next_offset_lem id key db.streams (counts id key) in
      let free =
        find_entry-get_elem? id key db.streams (counts id key) (length (entries id key db.streams))
        ∙ get_elem?-length (entries id key db.streams) in
      ground (arith, at, free)

  -- What a write leaves: the stream with the entry at its end, the others as they were.
  abbrev pub IsAppended : Db → Type 0
  IsAppended db' =
      IsContiguous db'.streams
      × (entries id key db'.streams ≡ entries id key db.streams ++ new_entry ∷ [])
      × ((id' key' : String)
          → (same id id' && same key key') ≡ false
          → entries id' key' db'.streams ≡ entries id' key' db.streams)

  appended_here :
      entries id key (db.streams ++ new_entry ∷ []) ≡ entries id key db.streams ++ new_entry ∷ []
  unfolding entries
  appended_here = ground (
    arith,
    select-append (is_stream id key) db.streams (new_entry ∷ []),
    same_refl id,
    same_refl key,
  )

  append_keeps_end :
      (id' key' : String)
      → (same id id' && same key key') ≡ false
      → entries id' key' (db.streams ++ new_entry ∷ []) ≡ entries id' key' db.streams
  unfolding entries
  append_keeps_end id' key' apart =
      select-append_other (is_stream id' key') db.streams new_entry apart

  append-IsContiguous : IsContiguous db.streams → IsContiguous (db.streams ++ new_entry ∷ [])
  append-IsContiguous counts id' key' = elim (Bool-cases (same id id' && same key key')) [
    | inl here ↦
        let (a, b) = same_ids id' key' here in
        rw (← a, ← b, appended_here)
          (CountsFrom-append 0 (entries id key db.streams) new_entry (counts id key) (omega arith))
    | inr apart ↦ rw (append_keeps_end id' key' apart) (counts id' key')
  ]
    where
      same_ids :
          (id' key' : String) → (same id id' && same key key') ≡ true → (id ≡ id') × (key ≡ key')
      same_ids id' key' here = ground (arith, here, same_iff id id', same_iff key key')

  append_entry_ok :
      IsContiguous db.streams
      → (append_entry id fn key value serialization db).0 ≡ ok tt
      → (append_entry id fn key value serialization db).1.streams ≡ db.streams ++ new_entry ∷ []
  append_entry_ok counts done = ground (arith, done, append_entry_lem counts)

  append_entry-IsAppended :
      IsContiguous db.streams
      → (append_entry id fn key value serialization db).0 ≡ ok tt
      → (d : Db) → d.streams ≡ (append_entry id fn key value serialization db).1.streams
      → IsAppended d
  append_entry-IsAppended counts done d same =
      rw (same, append_entry_ok counts done)
        (append-IsContiguous counts, appended_here, append_keeps_end)

  -- The tables with the entry added.
  abbrev pub appended : Db
  appended = record db { streams = db.streams ++ new_entry ∷ [] }

  -- In tables where the offsets of every stream count up from zero without a gap (those of a fork
  -- need not), a write from a step that no other write to the stream overlaps adds its value at the
  -- end of its stream, under the next offset, leaves every other stream as it is, and leaves no gap;
  -- it throws, and leaves no trace, just where the stream has used up the offsets of its column or
  -- the workflow does not exist.
  pub write_stream_from_step-IsAppended :
      IsContiguous db.streams
      → (write_stream_from_step id fn key value serialization db ≡ (
          if ltb max_int4 (length (entries id key db.streams))
          then (err number_out_of_range, db)
          else (if is_some (find_row id db.workflow_status)
              then (ok tt, appended)
              else (err foreign_key_violation, db))))
        × IsAppended appended
  unfolding write_stream_from_step
  write_stream_from_step-IsAppended counts = (
    ground (arith, append_entry_lem counts),
    (append-IsContiguous counts, appended_here, append_keeps_end),
  )

  -- A write from a workflow whose step has not run before, and which returns, adds its value at
  -- the end of its stream, under the next offset, and leaves every other stream as it is.
  pub write_stream_from_workflow-IsAppended :
      (executor : String) (started ended : ℕ) (name : String) (output : Option String) (db' : Db)
      → IsContiguous db.streams
      → find_step id fn db.operation_outputs ≡ none
      → write_stream_from_workflow executor started ended id fn key value serialization name db
        ≡ (ok output, db')
      → IsAppended db'
  unfolding write_stream_from_workflow
  write_stream_from_workflow-IsAppended executor started ended name output db' counts fresh ran =
      let (done, same) =
        run_and_record_result-SameComms executor started ended name id fn
          (λ d. no_output (append_entry id fn key value serialization d)) db output db' ran fresh in
      let (written, at) =
        no_output-ok (append_entry id fn key value serialization db) output done in
      append_entry-IsAppended counts written db' (same.3 ∙ ap (λ (d : Db). d.streams) at)
