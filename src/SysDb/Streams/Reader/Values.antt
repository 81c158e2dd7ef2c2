-- ===== src/SysDb/Streams/Reader/Values.antt =====
-- What a reader yields are the values of the stream, in their order, from the first on, each once.
use dbos_transact_ts.Common.{
  ℕ, ◌+◌, String, Bool, true, false, Option, none, some, List, [], ◌∷◌, ◌++◌, ◌≡◌, refl, ap, sym,
  ◌∙◌, map, arith, same, get_elem?, All, if◌then◌else◌, Option-cases, inl, inr, get_elem?-map,
  get_elem?-append, drop_at, drop,
}
use dbos_transact_ts.SysDb.Schema.{Db, Status, StreamEntry, is_workflow_active}
use dbos_transact_ts.SysDb.Result.{Result, ok}
use dbos_transact_ts.SysDb.Streams.{read_stream_value, stream_closed_sentinel, find_entry}
use dbos_transact_ts.SysDb.Streams.Entries.{entries, IsContiguous, find_entry-get_elem?}
use dbos_transact_ts.SysDb.Streams.Reader.{Yield, read_from, read_stream, look, ends_with, yields}

abbrev pub Value : Type 0
Value = String × Option String

-- The values of a stream.
abbrev pub values : String → String → Db → List Value
values id key db = map (λ s. (s.value, s.serialization)) (entries id key db.streams)

-- A reader looks at a stream that grows: what is there at a look stays, up to `last`.
abbrev pub Grows : String → String → Db → Db → Type 0
Grows id key last db =
    IsContiguous db.streams
    × (more : List StreamEntry) × (entries id key last.streams ≡ entries id key db.streams ++ more)

looked-up :
    (id key : String) (last db : Db) (k : ℕ) (v : Value)
    → Grows id key last db
    → (read_stream_value id key k db).value ≡ some v
    → get_elem? (values id key last) k ≡ some v
unfolding read_stream_value
looked-up id key last db k v (counts, more, grown) seen =
    elim (Option-cases (find_entry id key k db.streams)) [
      | inl e ↦ ground (arith, seen, e)
      | inr (s, e) ↦
          let at = sym (find_entry-get_elem? id key db.streams (counts id key) k) ∙ e in
          let kept = get_elem?-append (entries id key db.streams) more k s at in
          let v_is : v ≡ (s.value, s.serialization) = ground (arith, seen, e) in
          get_elem?-map (λ s. (s.value, s.serialization)) (entries id key last.streams) k
          ∙ rw grown (ground (arith, kept, v_is))
    ]

-- What has been yielded so far is what comes next in `all`.
abbrev IsNext : List Value → Yield → Type 0
IsNext all y = (rest : List Value) × (all ≡ y.yielded ++ rest)

look-IsNext :
    (missing : Result (Unit {0})) (final : Bool) (status : Option Status) (value : Option Value)
    (next again drain : Yield) (all after : List Value)
    → ((v : Value) → value ≡ some v → all ≡ v ∷ after)
    → IsNext after next
    → IsNext all again
    → IsNext all drain
    → IsNext all (look missing final status value next again drain)
look-IsNext missing final none value next again drain all after at n a d = (all, refl)
look-IsNext missing final (some status) (some v) next again drain all after at n a d =
    elim (same v.0 stream_closed_sentinel)
      as (λ b. IsNext all (if b then ends_with (ok tt) else yields v next)) [
        | true ↦ (all, refl)
        | false ↦ (n.0, at v refl ∙ ap (λ (l : List Value). v ∷ l) n.1)
      ]
look-IsNext missing true (some status) none next again drain all after at n a d = (all, refl)
look-IsNext missing false (some status) none next again drain all after at n a d =
    elim (is_workflow_active status) as (λ b. IsNext all (if b then again else drain)) [
      | true ↦ a
      | false ↦ d
    ]

read_from-IsNext :
    (missing : Result (Unit {0})) (id key : String) (last : Db) (looks : List Db) (k : ℕ)
    (final : Bool)
    → All (Grows id key last) looks
    → IsNext (drop k (values id key last)) (read_from missing id key looks k final)
unfolding read_from
read_from-IsNext missing id key last [] k final h = (drop k (values id key last), refl)
read_from-IsNext missing id key last (db ∷ looks) k final h =
    look-IsNext missing final _ _ _ _ _ (drop k (values id key last))
      (drop (k + 1) (values id key last))
      (λ v e. drop_at (values id key last) k v (looked-up id key last db k v h.0 e))
      (read_from-IsNext missing id key last looks (k + 1) final h.1)
      (read_from-IsNext missing id key last looks k false h.1)
      (read_from-IsNext missing id key last looks k true h.1)

-- At whatever moments a reader looks, while the stream only grows, it yields the first values of the
-- stream, in their order, each once, without a gap.
pub read_stream_in_order :
    (id key : String) (last : Db) (looks : List Db)
    → All (Grows id key last) looks
    → (rest : List Value) × (values id key last ≡ (read_stream id key looks).yielded ++ rest)
unfolding read_stream
read_stream_in_order id key last looks grows = read_from-IsNext _ id key last looks 0 false grows
