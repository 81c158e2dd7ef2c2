-- ===== src/SysDb/Life/Deduplication.antt =====
-- No two workflows of a queue hold one deduplication ID: the statements that can break the unique
-- index are those that check it.
use dbos_transact_ts.Common.{
  String, Bool, true, false, ◌||◌, Option, none, some, List, [], ◌∷◌, ◌++◌, ◌≡◌, ◌⊎◌, refl, arith,
  same_iff, same_refl, column_is, first, is_some, update, changed, inl, inr, Bool-cases,
  Option-cases,
}
use dbos_transact_ts.SysDb.Schema.{WorkflowStatus}
use dbos_transact_ts.SysDb.Manage.{breaks_unique, clashes, shares}

-- The row keeps its queue and its deduplication ID, or loses the ID.
abbrev pub Loosens : WorkflowStatus → WorkflowStatus → Type 0
Loosens r r' =
    ((r'.queue_name ≡ r.queue_name) × (r'.deduplication_id ≡ r.deduplication_id))
    ⊎ (r'.deduplication_id ≡ none)

column_is-none : (o : Option String) (k : String) → o ≡ none → column_is o k ≡ false
column_is-none o k h = ground (arith, h)

Loosens-clashes :
    (r r' s s' : WorkflowStatus)
    → Loosens r r'
    → Loosens s s'
    → clashes r' s' ≡ true
    → clashes r s ≡ true
Loosens-clashes r r' s s' (inl (a, b)) (inl (c, d)) h = rw (← a, ← b, ← c, ← d) h
Loosens-clashes r r' s s' (inr b) k h = ground (arith, b, h)
Loosens-clashes r r' s s' (inl (a, b)) (inr d) h = elim (Option-cases r'.deduplication_id) [
  | inl e ↦ ground (arith, e, h)
  | inr (x, e) ↦ ground (arith, e, d, h)
]

module _ (q : WorkflowStatus → Bool) (f : WorkflowStatus → WorkflowStatus)
    (loosens : (r : WorkflowStatus) → Loosens r (changed q f r)) where
  first_clash :
      (x x' : WorkflowStatus) (t : List WorkflowStatus)
      → Loosens x x'
      → is_some (first (clashes x) t) ≡ false
      → is_some (first (clashes x') (update q f t)) ≡ false
  first_clash x x' [] l h = refl
  first_clash x x' (s ∷ t) l h = elim (Bool-cases (clashes x s)) [
    | inl clash ↦ absurd (ground (arith, clash, h))
    | inr fine ↦ elim (Bool-cases (clashes x' (changed q f s))) [
      | inl clash' ↦ absurd (cc (Loosens-clashes x x' s (changed q f s) l (loosens s) clash', fine))
      | inr fine' ↦ rw fine' (first_clash x x' t l (ground (arith, fine, h)))
    ]
  ]

  -- An `UPDATE` that only loosens rows keeps the index.
  pub breaks_unique-update :
      (t : List WorkflowStatus) → breaks_unique t ≡ false → breaks_unique (update q f t) ≡ false
  breaks_unique-update [] h = refl
  breaks_unique-update (r ∷ t) h = elim (Bool-cases (is_some (first (clashes r) t))) [
    | inl clash ↦ absurd (ground (arith, clash, h))
    | inr fine ↦
        rw (first_clash r (changed q f r) t (loosens r) fine)
          (breaks_unique-update t (ground (arith, fine, h)))
  ]

shares_sym : (a b : Option String) → shares a b ≡ true → shares b a ≡ true
shares_sym none b h = cc
shares_sym (some a) none h = cc
shares_sym (some a) (some b) h = rw ((same_iff b a).0 h) (same_refl a)

is_some-first-append :
    (p : WorkflowStatus → Bool) (t : List WorkflowStatus) (r : WorkflowStatus)
    → is_some (first p (t ++ r ∷ [])) ≡ is_some (first p t) || p r
is_some-first-append p [] r = ground arith
is_some-first-append p (x ∷ t) r = ground (arith, is_some-first-append p t r)

clashes_sym : (r s : WorkflowStatus) → clashes r s ≡ true → clashes s r ≡ true
clashes_sym r s h = ground (
  arith,
  h,
  shares_sym r.queue_name s.queue_name,
  shares_sym r.deduplication_id s.deduplication_id,
)

-- A row that clashes with none of the others.
pub breaks_unique-append :
    (r : WorkflowStatus) (t : List WorkflowStatus)
    → is_some (first (clashes r) t) ≡ false
    → breaks_unique t ≡ false
    → breaks_unique (t ++ r ∷ []) ≡ false
breaks_unique-append r [] h k = refl
breaks_unique-append r (x ∷ t) h k =
    ground
      (arith, h, k, clashes_sym x r, is_some-first-append (clashes x) t r, breaks_unique-append r t)

pub Loosens-changed :
    (q : WorkflowStatus → Bool) (f : WorkflowStatus → WorkflowStatus)
    → ((r : WorkflowStatus) → Loosens r (f r))
    → (r : WorkflowStatus) → Loosens r (changed q f r)
Loosens-changed q f h r = elim (Bool-cases (q r)) [
  | inl e ↦ rw e (h r)
  | inr e ↦ rw e (inl (refl, refl))
]
