-- ===== src/SysDb/Family/Edges.antt =====
-- Membership in the lists of the search, and the edges from parents to children.
use dbos_transact_ts.Common.{
  String, Bool, true, ◌&&◌, ◌||◌, List, [], ◌∷◌, ◌++◌, ◌≡◌, refl, ap, map, select, any_of,
  any_of-append, same, same_iff, same_refl, first, is_some, column_is, arith, Bool-cases,
  Option-cases, inl, inr,
}
use dbos_transact_ts.SysDb.Schema.{WorkflowStatus}
use dbos_transact_ts.SysDb.Rows.{has_id}
use dbos_transact_ts.SysDb.Family.{has_parent_in, add_all}

-- `p` has the child `c` in the table.
abbrev pub edge : String → String → WorkflowStatus → Bool
edge p c r = column_is r.parent_workflow_id p && has_id c r

unfoldable pub is_edge : String → String → List WorkflowStatus → Bool
is_edge p c t = is_some (first (edge p c) t)

-- `c` is a descendant of `root`.
pub data Descendant (t : List WorkflowStatus) (root : String) : String → Type 0 where
  child : (c : String) → is_edge root c t ≡ true → Descendant t root c
  deeper : (p c : String) → Descendant t root p → is_edge p c t ≡ true → Descendant t root c

pub any_of_self : (xs : List String) (x : String) → any_of (x ∷ xs) x ≡ true
unfolding any_of
any_of_self xs x = ground (arith, same_refl x)

pub any_of-select :
    (p : String → Bool) (xs : List String) (k : String)
    → any_of (select p xs) k ≡ any_of xs k && p k
unfolding any_of
any_of-select p [] k = refl
any_of-select p (x ∷ xs) k = elim (Bool-cases (same x k)) [
  | inl e ↦ let e' : x ≡ k = (same_iff x k).0 e in ground (arith, e, any_of-select p xs k, ap p e')
  | inr e ↦ ground (arith, e, any_of-select p xs k)
]

pub any_of-add_all :
    (visited xs : List String) (k : String)
    → any_of (add_all visited xs) k ≡ any_of visited k || any_of xs k
unfolding add_all any_of
any_of-add_all visited [] k = ground arith
any_of-add_all visited (x ∷ xs) k = elim (Bool-cases (any_of visited x)) [
  | inl seen ↦ elim (Bool-cases (same x k)) [
    | inl e ↦
        let e' : x ≡ k = (same_iff x k).0 e in
        ground (arith, seen, e, ap (any_of visited) e', any_of-add_all visited xs k)
    | inr e ↦ ground (arith, seen, e, any_of-add_all visited xs k)
  ]
  | inr new ↦
      ground (arith, new, any_of-add_all (visited ++ x ∷ []) xs k, any_of-append visited (x ∷ []) k)
]

pub any_of-map_sound :
    (ids : List String) (c : String) (t : List WorkflowStatus)
    → any_of (map (λ r. r.workflow_uuid) (select (has_parent_in ids) t)) c ≡ true
    → (p : String) × (any_of ids p ≡ true) × (is_edge p c t ≡ true)
unfolding is_edge any_of
any_of-map_sound ids c [] h = cc
any_of-map_sound ids c (r ∷ t) h = elim (Option-cases r.parent_workflow_id) [
  | inl orphan ↦
      let (p, known, e) = any_of-map_sound ids c t (ground (arith, orphan, h)) in
      (p, known, ground (arith, orphan, e))
  | inr (p, parent) ↦ elim (Bool-cases (any_of ids p && same r.workflow_uuid c)) [
    | inl here ↦ (p, ground (arith, here), ground (arith, here, parent, same_refl p))
    | inr other ↦
        let (p', known, e) = any_of-map_sound ids c t (ground (arith, other, parent, h)) in
        (p', known, ground (arith, e))
  ]
]

pub any_of-map_complete :
    (ids : List String) (p c : String) (t : List WorkflowStatus)
    → any_of ids p ≡ true
    → is_edge p c t ≡ true
    → any_of (map (λ r. r.workflow_uuid) (select (has_parent_in ids) t)) c ≡ true
unfolding is_edge any_of
any_of-map_complete ids p c [] h e = cc
any_of-map_complete ids p c (r ∷ t) h e = elim (Option-cases r.parent_workflow_id) [
  | inl orphan ↦ ground (arith, orphan, any_of-map_complete ids p c t h)
  | inr (p', parent) ↦ ground (arith, parent, same_iff p' p, h, any_of-map_complete ids p c t h)
]
