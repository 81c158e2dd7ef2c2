-- ===== src/SysDb/Family/Search.antt =====
-- The search of `getWorkflowChildren` ends, and finds the descendants of a workflow and nothing else.
use dbos_transact_ts.Common.{
  ℕ, zero, suc, ◌+◌, String, true, false, not, some, List, [], ◌∷◌, ◌≡◌, ◌⊎◌, ◌↔◌, refl, any_of,
  same_iff, count_le_length, length, arith, Bool-cases, inl, inr,
}
use dbos_transact_ts.SysDb.Schema.{WorkflowStatus}
use dbos_transact_ts.SysDb.Family.{
  get_direct_children, add_all, children_loop, get_workflow_children,
}
use dbos_transact_ts.SysDb.Family.Edges.{
  is_edge, Descendant, any_of-select, any_of-add_all, any_of_self,
}
use dbos_transact_ts.SysDb.Family.Rounds.{
  children_sound, children_complete, next_of, children_loop_total,
}

module _ (root : String) (t : List WorkflowStatus) where
  children_loop_sound :
      (fuel : ℕ) (frontier known result : List String)
      → ((c : String) → any_of frontier c ≡ true → (c ≡ root) ⊎ Descendant t root c)
      → ((c : String) → any_of known c ≡ true → Descendant t root c)
      → children_loop fuel frontier known t ≡ some result
      → (c : String) → any_of result c ≡ true
      → Descendant t root c
  unfolding children_loop
  children_loop_sound zero frontier known result f k h c m = cc
  children_loop_sound (suc fuel) [] known result f k h c m = k c (cc)
  children_loop_sound (suc fuel) (x ∷ xs) known result f k h c m =
      let next = next_of (x ∷ xs) known t in
      children_loop_sound fuel next (add_all known next) result (λ d e. inr (reached d e))
        (λ d e. elim (Bool-cases (any_of known d)) [
          | inl old ↦ k d old
          | inr new ↦ reached d (ground (arith, new, e, any_of-add_all known next d))
        ])
        h c m
    where
      from_parent :
          (p d : String)
          → is_edge p d t ≡ true
          → (p ≡ root) ⊎ Descendant t root p
          → Descendant t root d
      from_parent p d e (inl at) = Descendant.child d (rw at at e)
      from_parent p d e (inr deep) = Descendant.deeper p d deep e

      reached : (d : String) → any_of (next_of (x ∷ xs) known t) d ≡ true → Descendant t root d
      reached d e =
          let split =
            any_of-select (λ id. not (any_of known id)) (get_direct_children (x ∷ xs) t) d in
          let (p, in_frontier, at) = children_sound (x ∷ xs) d t (ground (arith, e, split)) in
          from_parent p d at (f p in_frontier)

  -- The parents of which the search has met the ID.
  abbrev pub Met : List String → String → Type 0
  Met known p = (p ≡ root) ⊎ (any_of known p ≡ true)

  Met-earlier :
      (known next : List String) (p : String)
      → Met (add_all known next) p
      → any_of next p ≡ false
      → Met known p
  Met-earlier known next p (inl at) apart = inl at
  Met-earlier known next p (inr m) apart =
      inr (ground (arith, m, apart, any_of-add_all known next p))

  pub children_loop_closed :
      (fuel : ℕ) (frontier known result : List String)
      → ((p c : String)
          → Met known p
          → any_of frontier p ≡ false
          → is_edge p c t ≡ true
          → any_of known c ≡ true)
      → children_loop fuel frontier known t ≡ some result
      → (p c : String) → Met result p
      → is_edge p c t ≡ true
      → any_of result c ≡ true
  unfolding children_loop
  children_loop_closed zero frontier known result closed h p c m e = cc
  children_loop_closed (suc fuel) [] known result closed h p c m e =
      let same_known : known ≡ result = cc in
      rw same_known at (closed p c (rw (← same_known) at m) (unfold any_of in refl) e)
  children_loop_closed (suc fuel) (x ∷ xs) known result closed h p c m e =
      let next = next_of (x ∷ xs) known t in
      children_loop_closed fuel next (add_all known next) result step h p c m e
    where
      step :
          (p d : String)
          → Met (add_all known (next_of (x ∷ xs) known t)) p
          → any_of (next_of (x ∷ xs) known t) p ≡ false
          → is_edge p d t ≡ true
          → any_of (add_all known (next_of (x ∷ xs) known t)) d ≡ true
      step p d m apart at = elim (Bool-cases (any_of (x ∷ xs) p)) [
        | inl in_frontier ↦ ground (
          arith,
          children_complete (x ∷ xs) p d t in_frontier at,
          any_of-select (λ id. not (any_of known id)) (get_direct_children (x ∷ xs) t) d,
          any_of-add_all known (next_of (x ∷ xs) known t) d,
        )
        | inr processed ↦ ground (
          arith,
          closed p d (Met-earlier known (next_of (x ∷ xs) known t) p m apart) processed at,
          any_of-add_all known (next_of (x ∷ xs) known t) d,
        )
      ]

  pub Descendant-Met :
      (result : List String)
      → ((p c : String) → Met result p → is_edge p c t ≡ true → any_of result c ≡ true)
      → (c : String) → Descendant t root c
      → any_of result c ≡ true
  Descendant-Met result closed c (Descendant.child _ e) = closed root c (inl refl) e
  Descendant-Met result closed c (Descendant.deeper p _ d e) =
      closed p c (inr (Descendant-Met result closed p d)) e

  -- The search for the children of a workflow ends on every table, cyclic parents included, and
  -- yields exactly the descendants of the workflow.
  pub get_workflow_children_descendants :
      (result : List String) × (get_workflow_children root t ≡ some result)
      × ((c : String) → (any_of result c ≡ true) ↔ Descendant t root c)
  unfolding get_workflow_children
  get_workflow_children_descendants =
      let (result, ends) =
        children_loop_total t (length t + 2) (root ∷ []) []
          (omega (arith, count_le_length (λ r. not (any_of [] r.workflow_uuid)) t)) in
      (
        result,
        ends,
        λ c. (
          children_loop_sound (length t + 2) (root ∷ []) [] result (λ d e. inl (only_root d e))
              (λ d e. absurd (nothing_known d e)) ends c,
          Descendant-Met result
              (children_loop_closed (length t + 2) (root ∷ []) [] result start ends) c,
        ),
      )
    where
      only_root : (d : String) → any_of (root ∷ []) d ≡ true → d ≡ root
      only_root d e = unfold any_of in (ground (arith, e, same_iff root d))

      nothing_known : (d : String) → any_of [] d ≡ true → ⊥
      nothing_known d e = unfold any_of in cc

      start :
          (p c : String)
          → Met [] p
          → any_of (root ∷ []) p ≡ false
          → is_edge p c t ≡ true
          → any_of [] c ≡ true
      start p c (inl at) out e = cc (rw at at out, any_of_self [] root)
      start p c (inr m) out e = absurd (nothing_known p m)
