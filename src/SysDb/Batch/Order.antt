-- ===== src/SysDb/Batch/Order.antt =====
-- The times of creation within a partition key rise strictly, across batches and restarts.
use dbos_transact_ts.Common.{
  select, All-zip, All-select, All-select_of, ℕ, suc, ◌≤◌, ◌<◌, max, String, true, false, Option,
  none, some, List, [], ◌∷◌, ◌++◌, ◌≡◌, refl, same, same_iff, column_is, any_of, if◌then◌else◌,
  or_else, All, All-imp, arith, inl, inr, Bool-cases, Option-cases,
}
use dbos_transact_ts.SysDb.Schema.{WorkflowStatus}
use dbos_transact_ts.SysDb.Family.{add_all}
use dbos_transact_ts.SysDb.Family.Edges.{any_of-add_all}
use dbos_transact_ts.SysDb.Batch.{
  Cursors, set_cursor, cursor, counts, max_created_at, keys_of, without_cursor, seed, seeded, stamp,
  advance, no_cursors, assign_batch_created_at,
}
use dbos_transact_ts.SysDb.Batch.Seeds.{
  seed-cursor_le, seed_above, max_created_at_bound, any_of-without_cursor,
}

-- The times of the workflows of one partition key.
unfoldable pub stamps_of : String → List (Option String) → List ℕ → List ℕ
stamps_of k [] times = []
stamps_of k (p ∷ ps) [] = []
stamps_of k (p ∷ ps) (n ∷ times) =
    let rest = stamps_of k ps times in if column_is p k then n ∷ rest else rest

-- The numbers rise strictly, from `lo` on and below `hi`.
abbrev pub Climbs : ℕ → List ℕ → ℕ → Type 0
Climbs lo [] hi = lo ≤ hi
Climbs lo (x ∷ xs) hi = (lo ≤ x) × Climbs (suc x) xs hi

Climbs-from : (lo lo' : ℕ) (xs : List ℕ) (hi : ℕ) → lo ≤ lo' → Climbs lo' xs hi → Climbs lo xs hi
Climbs-from lo lo' [] hi le h = omega (arith, le, h)
Climbs-from lo lo' (x ∷ xs) hi le h = (omega (arith, le, h.0), h.1)

Climbs-append :
    (lo : ℕ) (xs : List ℕ) (mid : ℕ) (ys : List ℕ) (hi : ℕ)
    → Climbs lo xs mid
    → Climbs mid ys hi
    → Climbs lo (xs ++ ys) hi
Climbs-append lo [] mid ys hi h k = Climbs-from lo mid ys hi h k
Climbs-append lo (x ∷ xs) mid ys hi h k = (h.0, Climbs-append (suc x) xs mid ys hi h.1 k)

Climbs-above : (lo : ℕ) (xs : List ℕ) (hi n : ℕ) → Climbs lo xs hi → n < lo → All (λ x. n < x) xs
Climbs-above lo [] hi n h le = tt
Climbs-above lo (x ∷ xs) hi n h le =
    (omega (arith, le, h.0), Climbs-above (suc x) xs hi n h.1 (omega (arith, le, h.0)))

-- The next time that a key may get.
abbrev ahead : String → Cursors → Cursors → ℕ
ahead k c next = cursor k (advance next c)

-- The time that the next workflow of a key gets.
abbrev next_time : ℕ → Cursors → Cursors → String → ℕ
next_time now c next k = or_else (next k) (max now (cursor k c))

ahead_le : (now : ℕ) (k : String) (c next : Cursors) → ahead k c next ≤ next_time now c next k
ahead_le now k c next = elim (Option-cases (next k)) [
  | inl e ↦ ground (arith, e)
  | inr (n, e) ↦ ground (arith, e)
]

ahead_set :
    (j k : String) (n : ℕ) (c next : Cursors)
    → ahead k c (set_cursor j n next) ≡ (if same j k then n else ahead k c next)
unfolding set_cursor
ahead_set j k n c next = elim (Bool-cases (same j k)) [
  | inl e ↦ ground (arith, e)
  | inr e ↦ ground (arith, e)
]

module _ (now : ℕ) (k : String) (c : Cursors) where
  stamp-Climbs :
      (next : Cursors) (ps : List (Option String))
      → Climbs
          (ahead k c next)
          (stamps_of k ps (stamp now c next ps).0)
          (ahead k c (stamp now c next ps).1)
  unfolding stamp stamps_of
  stamp-Climbs next [] = omega arith
  stamp-Climbs next (none ∷ ps) = stamp-Climbs next ps
  stamp-Climbs next (some j ∷ ps) =
      let next' = set_cursor j (suc (next_time now c next j)) next in
      let rest = stamp-Climbs next' ps in
      let moved = ahead_set j k (suc (next_time now c next j)) c next in
      elim (Bool-cases (same j k)) [
        | inl here ↦
            let e' : j ≡ k = (same_iff j k).0 here in
            rw here (rw e' (ahead_le now k c next), rw (moved, here) at rest)
        | inr other ↦ rw other (rw (moved, other) at rest)
      ]

stamps_of_none :
    (k : String) (ps : List (Option String)) (times : List ℕ)
    → any_of (keys_of ps) k ≡ false
    → stamps_of k ps times ≡ []
unfolding stamps_of any_of
stamps_of_none k [] times h = refl
stamps_of_none k (p ∷ ps) [] h = refl
stamps_of_none k (none ∷ ps) (n ∷ times) h = stamps_of_none k ps times h
stamps_of_none k (some j ∷ ps) (n ∷ times) h = elim (Bool-cases (same j k)) [
  | inl here ↦ absurd (ground (arith, here, h))
  | inr other ↦ ground (arith, other, h, stamps_of_none k ps times)
]

module _ (k : String) where
  -- In a batch, the times of creation of the workflows of one partition key rise strictly in the order
  -- of the batch: from the key's cursor before the batch on, and below its cursor after the batch.
  assign_batch_created_at-Climbs :
      (now : ℕ) (ps : List (Option String)) (t : List WorkflowStatus) (c : Cursors)
      → Climbs
          (cursor k c)
          (stamps_of k ps (assign_batch_created_at now ps t c).0)
          (cursor k (assign_batch_created_at now ps t c).1)
  unfolding assign_batch_created_at seeded
  assign_batch_created_at-Climbs now ps t c =
      let keys = without_cursor c (add_all [] (keys_of ps)) in
      Climbs-from (cursor k c) (cursor k (seed keys t c)) _ _ (seed-cursor_le k keys t c)
        (stamp-Climbs now k (seed keys t c) no_cursors ps)

  -- The times of two batches, one after the other, rise strictly within a partition key as well,
  -- whatever the clock and the table are at the second batch.
  pub batches-Climb :
      (now now' : ℕ) (ps ps' : List (Option String)) (t t' : List WorkflowStatus) (c : Cursors)
      → let (times, c') = assign_batch_created_at now ps t c in
        let (times', c'') = assign_batch_created_at now' ps' t' c' in
        Climbs (cursor k c) (stamps_of k ps times ++ stamps_of k ps' times') (cursor k c'')
  batches-Climb now now' ps ps' t t' c =
      let c' = (assign_batch_created_at now ps t c).1 in
      Climbs-append (cursor k c) (stamps_of k ps (assign_batch_created_at now ps t c).0)
        (cursor k c') (stamps_of k ps' (assign_batch_created_at now' ps' t' c').0)
        (cursor k (assign_batch_created_at now' ps' t' c').1)
        (assign_batch_created_at-Climbs now ps t c) (assign_batch_created_at-Climbs now' ps' t' c')

  -- For a key without a cursor, as after a restart, every time is above the times of creation of the
  -- key's enqueued and pending workflows in the table.
  pub assign_batch_created_at_after :
      (now : ℕ) (ps : List (Option String)) (t : List WorkflowStatus) (c : Cursors)
      → c k ≡ none
      → All
          (λ r. All (λ n. r.created_at < n) (stamps_of k ps (assign_batch_created_at now ps t c).0))
          (select (counts k) t)
  unfolding assign_batch_created_at seeded any_of
  assign_batch_created_at_after now ps t c fresh =
      All-imp (λ r. (counts k r ≡ true) × Bound r)
        (λ r. All (λ n. r.created_at < n) (stamps_of k ps (assign_batch_created_at now ps t c).0))
        (λ r (counted, bound). above r (bound counted)) (select (counts k) t)
        (All-zip (λ r. counts k r ≡ true) Bound (select (counts k) t) (All-select (counts k) t)
          (All-select_of Bound (counts k) t (max_created_at_bound k t)))
    where
      Bound : WorkflowStatus → Type 0
      Bound r = counts k r ≡ true → (m : ℕ) × (max_created_at k t ≡ some m) × (r.created_at ≤ m)

      keys : List String
      keys = without_cursor c (add_all [] (keys_of ps))

      above :
          (r : WorkflowStatus)
          → (m : ℕ) × (max_created_at k t ≡ some m) × (r.created_at ≤ m)
          → All (λ n. r.created_at < n) (stamps_of k ps (assign_batch_created_at now ps t c).0)
      above r (m, e, le) = elim (Bool-cases (any_of (keys_of ps) k)) [
        | inr absent ↦ rw (stamps_of_none k ps (assign_batch_created_at now ps t c).0 absent) tt
        | inl present ↦
            let asked =
              any_of-without_cursor c (add_all [] (keys_of ps)) k fresh
                (rw (any_of-add_all [] (keys_of ps) k) present) in
            Climbs-above (cursor k (seed keys t c)) _ _ r.created_at
              (stamp-Climbs now k (seed keys t c) no_cursors ps)
              (omega (arith, le, seed_above k keys t c m asked e))
      ]
