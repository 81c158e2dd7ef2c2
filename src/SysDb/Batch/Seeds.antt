-- ===== src/SysDb/Batch/Seeds.antt =====
-- The cursors of partition keys that a batch reads from the table.
use dbos_transact_ts.Common.{
  ℕ, suc, ◌≤◌, ◌<◌, max, String, true, none, some, List, [], ◌∷◌, ◌≡◌, refl, ap, same, same_iff,
  any_of, or_else, is_some, All, All-imp, arith, inl, inr, Bool-cases, Option-cases,
}
use dbos_transact_ts.SysDb.Schema.{WorkflowStatus}
use dbos_transact_ts.SysDb.Batch.{
  Cursors, set_cursor, cursor, counts, max_created_at, without_cursor, seed,
}

set_cursor_le :
    (k j : String) (n : ℕ) (c : Cursors)
    → cursor k c ≤ cursor k (set_cursor j (max (cursor j c) n) c)
unfolding set_cursor
set_cursor_le k j n c = elim (Bool-cases (same j k)) [
  | inl e ↦ ground (arith, e, ap (λ (x : String). cursor x c) ((same_iff j k).0 e))
  | inr e ↦ ground (arith, e)
]

pub seed-cursor_le :
    (k : String) (ks : List String) (t : List WorkflowStatus) (c : Cursors)
    → cursor k c ≤ cursor k (seed ks t c)
unfolding seed
seed-cursor_le k [] t c = omega arith
seed-cursor_le k (j ∷ ks) t c = elim (Option-cases (max_created_at j t)) [
  | inl e ↦ ground (arith, e, seed-cursor_le k ks t c)
  | inr (m, e) ↦ ground (
    arith,
    e,
    seed-cursor_le k ks t (set_cursor j (max (cursor j c) (suc m)) c),
    set_cursor_le k j (suc m) c,
  )
]

-- A key that is seeded starts above the rows of the key.
pub seed_above :
    (k : String) (ks : List String) (t : List WorkflowStatus) (c : Cursors) (m : ℕ)
    → any_of ks k ≡ true
    → max_created_at k t ≡ some m
    → m < cursor k (seed ks t c)
unfolding seed any_of set_cursor
seed_above k [] t c m h e = cc
seed_above k (j ∷ ks) t c m h e = elim (Bool-cases (same j k)) [
  | inl here ↦
      let found : max_created_at j t ≡ some m =
        rw (ap (λ (x : String). max_created_at x t) ((same_iff j k).0 here)) e in
      ground (arith, found, here, seed-cursor_le k ks t (set_cursor j (max (cursor j c) (suc m)) c))
  | inr other ↦ elim (Option-cases (max_created_at j t)) [
    | inl n ↦ ground (arith, n, other, seed_above k ks t c m, h, e)
    | inr (n, at) ↦
        ground
          (arith, at, other, h, e, seed_above k ks t (set_cursor j (max (cursor j c) (suc n)) c) m)
  ]
]

pub max_created_at_bound :
    (k : String) (t : List WorkflowStatus)
    → All (λ r. counts k r ≡ true → (m : ℕ) × (max_created_at k t ≡ some m) × (r.created_at ≤ m)) t
unfolding max_created_at
max_created_at_bound k [] = tt
max_created_at_bound k (x ∷ t) = (
  λ h. (max x.created_at (or_else (max_created_at k t) 0), rw h refl, omega arith),
  All-imp (λ r. counts k r ≡ true → (m : ℕ) × (max_created_at k t ≡ some m) × (r.created_at ≤ m))
      (λ r. counts k r ≡ true → (m : ℕ) × (max_created_at k (x ∷ t) ≡ some m) × (r.created_at ≤ m))
      later t (max_created_at_bound k t),
)
  where
    later :
        (r : WorkflowStatus)
        → (counts k r ≡ true → (m : ℕ) × (max_created_at k t ≡ some m) × (r.created_at ≤ m))
        → counts k r ≡ true
        → (m : ℕ) × (max_created_at k (x ∷ t) ≡ some m) × (r.created_at ≤ m)
    later r f h =
        let (m, e, le) = f h in
        elim (Bool-cases (counts k x)) [
          | inl now ↦ (max x.created_at m, rw (now, e) refl, omega (arith, le))
          | inr other ↦ (m, rw (other, e) refl, le)
        ]

pub any_of-without_cursor :
    (c : Cursors) (ks : List String) (k : String)
    → c k ≡ none
    → any_of ks k ≡ true
    → any_of (without_cursor c ks) k ≡ true
unfolding any_of
any_of-without_cursor c [] k h e = e
any_of-without_cursor c (j ∷ ks) k h e = elim (Bool-cases (same j k)) [
  | inl here ↦
      let free : c j ≡ none = rw (ap c ((same_iff j k).0 here)) h in ground (arith, free, here)
  | inr other ↦ elim (Bool-cases (is_some (c j))) [
    | inl old ↦ ground (arith, old, other, e, any_of-without_cursor c ks k h)
    | inr new ↦ ground (arith, new, other, e, any_of-without_cursor c ks k h)
  ]
]
