-- ===== src/SysDb/Streams/Reader.antt =====
-- src/dbos.ts and src/client.ts: the generator `readStream`. It is given the tables at each of its
-- looks; `ended` is `none` where these are used up before the generator ends.
pub mod Values
pub mod Draining
use dbos_transact_ts.Common.{
  ℕ, ◌+◌, String, Bool, true, false, Option, none, some, List, [], ◌∷◌, same, if◌then◌else◌,
}
use dbos_transact_ts.SysDb.Schema.{Db, Status, is_workflow_active}
use dbos_transact_ts.SysDb.Result.{Result, ok, err, nonexistent_workflow}
use dbos_transact_ts.SysDb.Streams.{StreamRead, read_stream_value, stream_closed_sentinel}

-- What the generator has yielded, text and format, and how it ended.
pub record Yield : Type 0 where
  pub yielded : List (String × Option String)
  pub ended : Option (Result (Unit {0}))

abbrev pub ends_with : Result (Unit {0}) → Yield
ends_with r = record { yielded = []; ended = some r }

abbrev pub yields : String × Option String → Yield → Yield
yields v y = record y { yielded = v ∷ y.yielded }

-- One look: what is there decides whether the generator ends, yields and goes on at the next offset,
-- looks again, or looks a last time.
abbrev pub look :
    Result (Unit {0})
    → Bool
    → Option Status
    → Option (String × Option String)
    → Yield
    → Yield
    → Yield
    → Yield
look missing final_read none value next again drain = ends_with missing
look missing final_read (some status) (some v) next again drain =
    if same v.0 stream_closed_sentinel then ends_with (ok tt) else yields v next
look missing true (some status) none next again drain = ends_with (ok tt)
look missing false (some status) none next again drain =
    if is_workflow_active status then again else drain

-- `missing` is how the generator ends for a workflow that does not exist: an error in the process,
-- quietly in the client.
unfoldable pub read_from : Result (Unit {0}) → String → String → List Db → ℕ → Bool → Yield
unfolding read_stream_value
read_from missing id key [] offset final_read = record { yielded = []; ended = none }
read_from missing id key (db ∷ rest) offset final_read =
    let seen = read_stream_value id key offset db in
    look missing final_read seen.status seen.value
      (read_from missing id key rest (offset + 1) final_read)
      (read_from missing id key rest offset false) (read_from missing id key rest offset true)

-- `DBOS.readStream`
unfoldable pub read_stream : String → String → List Db → Yield
unfolding read_from
read_stream id key looks = read_from (err (nonexistent_workflow id)) id key looks 0 false

-- `DBOSClient.readStream`
unfoldable pub client_read_stream : String → String → List Db → Yield
unfolding read_from
client_read_stream id key looks = read_from (ok tt) id key looks 0 false
