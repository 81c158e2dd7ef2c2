-- ===== src/SysDb/Manage/Collection.antt =====
-- What garbage collection spares.
use dbos_transact_ts.Common.{
  ℕ, zero, suc, ◌≤◌, ◌<◌, String, Bool, true, Option, none, some, List, [], ◌∷◌, ◌≡◌, ◌≢◌, arith,
  All, All-imp, count, count-order_by, order_by, insert_by, get_elem?, first-delete, ltb, leb,
  Bool-cases, Option-cases, inl, inr,
}
use dbos_transact_ts.SysDb.Schema.{WorkflowStatus, is_workflow_active}
use dbos_transact_ts.SysDb.Rows.{find_row, has_id}
use dbos_transact_ts.SysDb.Manage.{newest_first, stricter, collectable, collect, garbage_collect}

collect_active :
    (cutoff : Option ℕ) (k : String) (r : WorkflowStatus) (t : List WorkflowStatus)
    → find_row k t ≡ some r
    → is_workflow_active r.status ≡ true
    → find_row k (collect cutoff t) ≡ some r
unfolding find_row
collect_active none k r t found active = found
collect_active (some c) k r t found active =
    first-delete (has_id k) (collectable c) t r found (ground (arith, active))

-- A workflow that is pending, enqueued or delayed survives every garbage collection.
pub garbage_collect_active :
    (cutoff threshold : Option ℕ) (k : String) (r : WorkflowStatus) (t : List WorkflowStatus)
    → find_row k t ≡ some r
    → is_workflow_active r.status ≡ true
    → find_row k (garbage_collect cutoff threshold t).1 ≡ some r
unfolding garbage_collect
garbage_collect_active cutoff none k r t found active = collect_active cutoff k r t found active
garbage_collect_active cutoff (some zero) k r t found active = found
garbage_collect_active cutoff (some (suc n)) k r t found active =
    collect_active (stricter cutoff _) k r t found active

-- The rows are in descending order of creation.
abbrev Descends : List WorkflowStatus → Type 0
Descends [] = Unit
Descends (x ∷ xs) = All (λ s. s.created_at ≤ x.created_at) xs × Descends xs

All-insert_by :
    (n : ℕ) (a : WorkflowStatus) (xs : List WorkflowStatus)
    → a.created_at ≤ n
    → All (λ s. s.created_at ≤ n) xs
    → All (λ s. s.created_at ≤ n) (insert_by newest_first a xs)
All-insert_by n a [] h k = (h, tt)
All-insert_by n a (x ∷ xs) h k = elim (Bool-cases (newest_first a x)) [
  | inl e ↦ rw e (h, k)
  | inr e ↦ rw e (k.0, All-insert_by n a xs h k.1)
]

insert_by-Descends :
    (a : WorkflowStatus) (xs : List WorkflowStatus)
    → Descends xs
    → Descends (insert_by newest_first a xs)
insert_by-Descends a [] h = (tt, tt)
insert_by-Descends a (x ∷ xs) h = elim (Bool-cases (newest_first a x)) [
  | inl e ↦ rw e (
    (
      ground (arith, e),
      All-imp (λ s. s.created_at ≤ x.created_at) (λ s. s.created_at ≤ a.created_at)
          (λ s le. ground (arith, e, le)) xs h.0,
    ),
    h,
  )
  | inr e ↦
      rw e (All-insert_by x.created_at a xs (ground (arith, e)) h.0, insert_by-Descends a xs h.1)
]

order_by-Descends : (t : List WorkflowStatus) → Descends (order_by newest_first t)
order_by-Descends [] = tt
order_by-Descends (x ∷ t) = insert_by-Descends x (order_by newest_first t) (order_by-Descends t)

All-get_elem? :
    (m : ℕ) (xs : List WorkflowStatus) (n : ℕ) (b : WorkflowStatus)
    → All (λ s. s.created_at ≤ m) xs
    → get_elem? xs n ≡ some b
    → b.created_at ≤ m
All-get_elem? m [] n b h e = cc
All-get_elem? m (x ∷ xs) zero b h e = ground (arith, e, h.0)
All-get_elem? m (x ∷ xs) (suc n) b h e = All-get_elem? m xs n b h.1 e

-- The first `n + 1` rows are no older than the one at position `n`.
Descends-count :
    (xs : List WorkflowStatus) (n : ℕ) (b : WorkflowStatus)
    → Descends xs
    → get_elem? xs n ≡ some b
    → n < count (λ s. leb b.created_at s.created_at) xs
Descends-count [] n b h e = cc
Descends-count (x ∷ xs) zero b h e = let same_row : x ≡ b = cc in ground (arith, same_row)
Descends-count (x ∷ xs) (suc n) b h e =
    ground (arith, All-get_elem? x.created_at xs n b h.0 e, Descends-count xs n b h.1 e)

count_imp :
    (p q : WorkflowStatus → Bool) (t : List WorkflowStatus)
    → ((r : WorkflowStatus) → p r ≡ true → q r ≡ true)
    → count p t ≤ count q t
count_imp p q [] h = omega arith
count_imp p q (r ∷ t) h = ground (arith, h r, count_imp p q t h)

-- With a row threshold of `n` and no cutoff, a workflow that has gone had at least `n` newer ones in
-- the table: the `n` newest workflows are spared.
pub garbage_collect_newest :
    (n : ℕ) (k : String) (r : WorkflowStatus) (t : List WorkflowStatus)
    → find_row k t ≡ some r
    → find_row k (garbage_collect none (some n) t).1 ≢ some r
    → n ≤ count (λ s. ltb r.created_at s.created_at) t
unfolding garbage_collect find_row
garbage_collect_newest zero k r t found gone = omega arith
garbage_collect_newest (suc n) k r t found gone =
    elim (Option-cases (get_elem? (order_by newest_first t) n)) [
      | inl few ↦ absurd (gone (rw (few, garbage_collect) found))
      | inr (b, e) ↦ elim (Bool-cases (ltb r.created_at b.created_at)) [
        | inr young ↦ absurd (
            gone rw (e, garbage_collect)
              (first-delete (has_id k) (collectable b.created_at) t r found
                (ground (arith, young))))
        | inl old ↦ omega (
          arith,
          Descends-count (order_by newest_first t) n b (order_by-Descends t) e,
          count-order_by (λ s. leb b.created_at s.created_at) newest_first t,
          count_imp (λ s. leb b.created_at s.created_at) (λ s. ltb r.created_at s.created_at) t
              (λ s h. ground (arith, old, h)),
        )
      ]
    ]
