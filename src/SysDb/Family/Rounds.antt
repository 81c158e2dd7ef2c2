-- ===== src/SysDb/Family/Rounds.antt =====
-- The rounds of a search through the children, and the fuel that they need.
use dbos_transact_ts.Common.{
  ℕ, zero, suc, ◌+◌, ◌≤◌, ◌<◌, String, true, false, not, ◌&&◌, some, List, [], ◌∷◌, ◌≡◌, refl,
  any_of, same_iff, count, count-split, first-count_of, first, arith, Option-cases, inl, inr,
  first_sound,
}
use dbos_transact_ts.SysDb.Schema.{WorkflowStatus}
use dbos_transact_ts.SysDb.Family.{get_direct_children, unseen, add_all, children_loop}
use dbos_transact_ts.SysDb.Family.Edges.{
  edge, is_edge, any_of-select, any_of-add_all, any_of-map_sound, any_of-map_complete, any_of_self,
}

pub children_sound :
    (ids : List String) (c : String) (t : List WorkflowStatus)
    → any_of (get_direct_children ids t) c ≡ true
    → (p : String) × (any_of ids p ≡ true) × (is_edge p c t ≡ true)
unfolding get_direct_children any_of
children_sound [] c t h = cc
children_sound (x ∷ xs) c t h = any_of-map_sound (x ∷ xs) c t h

pub children_complete :
    (ids : List String) (p c : String) (t : List WorkflowStatus)
    → any_of ids p ≡ true
    → is_edge p c t ≡ true
    → any_of (get_direct_children ids t) c ≡ true
unfolding get_direct_children any_of
children_complete [] p c t h e = cc
children_complete (x ∷ xs) p c t h e = any_of-map_complete (x ∷ xs) p c t h e

-- What a round finds for the first time.
abbrev pub next_of : List String → List String → List WorkflowStatus → List String
next_of frontier known t = unseen known (get_direct_children frontier t)

-- The rows that are not among the descendants yet.
abbrev pub left : List String → List WorkflowStatus → ℕ
left known t = count (λ r. not (any_of known r.workflow_uuid)) t

-- An edge leads to a row.
edge_row :
    (p c : String) (t : List WorkflowStatus)
    → is_edge p c t ≡ true
    → (r : WorkflowStatus) × (first (edge p c) t ≡ some r) × (r.workflow_uuid ≡ c)
unfolding is_edge
edge_row p c t h = elim (Option-cases (first (edge p c) t)) [
  | inl e ↦ cc
  | inr (r, e) ↦
      (r, e, (same_iff r.workflow_uuid c).0 (ground (arith, first_sound (edge p c) t r e)))
]

-- A new ID leaves fewer rows to find.
left-decreases :
    (known next : List String) (t : List WorkflowStatus) (p c : String)
    → is_edge p c t ≡ true
    → any_of known c ≡ false
    → any_of next c ≡ true
    → left (add_all known next) t < left known t
left-decreases known next t p c e new added =
    let (r, at, key) = edge_row p c t e in
    omega (
      arith,
      count-split (λ x. not (any_of known x.workflow_uuid))
          (λ x. not (any_of (add_all known next) x.workflow_uuid)) inside t,
      first-count_of (edge p c)
          (λ x.
            not (any_of known x.workflow_uuid)
            && not (not (any_of (add_all known next) x.workflow_uuid)))
          t r at (rw key (ground (arith, new, added, any_of-add_all known next c))),
    )
  where
    inside :
        (x : WorkflowStatus)
        → not (any_of (add_all known next) x.workflow_uuid) ≡ true
        → not (any_of known x.workflow_uuid) ≡ true
    inside x h = ground (arith, h, any_of-add_all known next x.workflow_uuid)

-- The fuel that a round needs.
abbrev pub need : List String → ℕ → ℕ
need [] n = 1
need (x ∷ xs) n = n + 2

pub need_falls :
    (frontier known next : List String) (t : List WorkflowStatus)
    → next ≡ next_of frontier known t
    → need next (left (add_all known next) t) ≤ left known t + 1
need_falls frontier known [] t h = omega arith
need_falls frontier known (y ∷ ys) t h =
    let found : any_of (next_of frontier known t) y ≡ true = rw h at (any_of_self ys y) in
    let split = any_of-select (λ id. not (any_of known id)) (get_direct_children frontier t) y in
    let (p, _, e) = children_sound frontier y t (ground (arith, found, split)) in
    omega (
      arith,
      left-decreases known (y ∷ ys) t p y e (ground (arith, found, split)) (any_of_self ys y),
    )

-- With fuel for every row that is left, the loop ends.
pub children_loop_total :
    (t : List WorkflowStatus) (fuel : ℕ) (frontier known : List String)
    → need frontier (left known t) ≤ fuel
    → (result : List String) × (children_loop fuel frontier known t ≡ some result)
unfolding children_loop
children_loop_total t zero [] known h = absurd (omega arith)
children_loop_total t zero (x ∷ xs) known h = absurd (omega arith)
children_loop_total t (suc fuel) [] known h = (known, refl)
children_loop_total t (suc fuel) (x ∷ xs) known h =
    let next = next_of (x ∷ xs) known t in
    children_loop_total t fuel next (add_all known next)
      (omega (arith, need_falls (x ∷ xs) known next t refl))
