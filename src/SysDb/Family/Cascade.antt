-- ===== src/SysDb/Family/Cascade.antt =====
-- The cascade of `cancelWorkflows` cancels what the search for children finds.
use dbos_transact_ts.Common.{
  ℕ, zero, suc, ◌+◌, ◌≤◌, String, true, false, not, ◌&&◌, ◌||◌, some, List, [], ◌∷◌, ◌++◌, ◌≡◌, ◌⊎◌,
  ◌↔◌, refl, ap, any_of, any_of-append, length, count_le_length, arith, Bool-cases, inl, inr,
}
use dbos_transact_ts.SysDb.Schema.{WorkflowStatus}
use dbos_transact_ts.SysDb.Manage.{cancel_workflows, unfinished}
use dbos_transact_ts.SysDb.Family.{
  get_direct_children, add_all, children_loop, cancel_loop, cancel_workflows_and_children,
}
use dbos_transact_ts.SysDb.Family.Edges.{is_edge, Descendant, any_of-select, any_of-add_all}
use dbos_transact_ts.SysDb.Family.Rounds.{next_of, children_loop_total, children_sound, need, left}
use dbos_transact_ts.SysDb.Family.Search.{children_loop_closed, Descendant-Met}

-- `c` is one of the workflows or a descendant of one of them.
abbrev pub Reached : List String → List WorkflowStatus → String → Type 0
Reached ids t c = (any_of ids c ≡ true) ⊎ ((r : String) × (any_of ids r ≡ true) × Descendant t r c)

-- A cancellation moves no workflow in its family.
get_direct_children-cancel_workflows :
    (now : ℕ) (done xs : List String) (t : List WorkflowStatus)
    → get_direct_children xs (cancel_workflows now done t) ≡ get_direct_children xs t
unfolding get_direct_children cancel_workflows
get_direct_children-cancel_workflows now done [] t = refl
get_direct_children-cancel_workflows now done (x ∷ xs) [] = refl
get_direct_children-cancel_workflows now done (x ∷ xs) (r ∷ t) = ground (
  arith,
  Bool-cases (any_of done r.workflow_uuid && unfinished r.status),
  get_direct_children-cancel_workflows now done (x ∷ xs) t,
)

cancel_workflows-cancel_workflows :
    (now : ℕ) (xs ys : List String) (t : List WorkflowStatus)
    → cancel_workflows now ys (cancel_workflows now xs t) ≡ cancel_workflows now (xs ++ ys) t
unfolding cancel_workflows
cancel_workflows-cancel_workflows now xs ys [] = refl
cancel_workflows-cancel_workflows now xs ys (r ∷ t) =
    ground
      (arith, any_of-append xs ys r.workflow_uuid, cancel_workflows-cancel_workflows now xs ys t)

cancel_workflows_same :
    (now : ℕ) (xs ys : List String) (t : List WorkflowStatus)
    → ((k : String) → any_of xs k ≡ any_of ys k)
    → cancel_workflows now xs t ≡ cancel_workflows now ys t
unfolding cancel_workflows
cancel_workflows_same now xs ys [] h = refl
cancel_workflows_same now xs ys (r ∷ t) h =
    ground (arith, h r.workflow_uuid, cancel_workflows_same now xs ys t h)

cancel_workflows_nil : (now : ℕ) (t : List WorkflowStatus) → cancel_workflows now [] t ≡ t
unfolding cancel_workflows any_of
cancel_workflows_nil now [] = refl
cancel_workflows_nil now (r ∷ t) =
    ap (λ (u : List WorkflowStatus). r ∷ u) (cancel_workflows_nil now t)

-- The loop of the cascade goes through the rounds of the search, and has cancelled what they found.
cancel_loop-children_loop :
    (now fuel : ℕ) (frontier visited done result : List String) (t : List WorkflowStatus)
    → ((k : String) → any_of done k || any_of frontier k ≡ any_of visited k)
    → children_loop fuel frontier visited t ≡ some result
    → cancel_loop fuel now frontier visited (cancel_workflows now done t)
      ≡ some (cancel_workflows now result t)
unfolding cancel_loop children_loop
cancel_loop-children_loop now zero frontier visited done result t inv h = cc
cancel_loop-children_loop now (suc fuel) [] visited done result t inv h =
    let same_set : visited ≡ result = cc in
    ap some (
      cancel_workflows_same now done result t
        (λ k. rw (← same_set) (unfold any_of in (ground (arith, inv k)))))
cancel_loop-children_loop now (suc fuel) (x ∷ xs) visited done result t inv h =
    let next = next_of (x ∷ xs) visited t in
    rw
      (
        cancel_workflows-cancel_workflows now done (x ∷ xs) t,
        get_direct_children-cancel_workflows now (done ++ x ∷ xs) (x ∷ xs) t,
      )
      (cancel_loop-children_loop now fuel next (add_all visited next) (done ++ x ∷ xs) result t
        (λ k. ground (arith, inv k, any_of-append done (x ∷ xs) k, any_of-add_all visited next k))
        h)

any_of-add_all_nil : (ids : List String) (k : String) → any_of (add_all [] ids) k ≡ any_of ids k
unfolding any_of
any_of-add_all_nil ids k = any_of-add_all [] ids k

need_le : (xs : List String) (n m : ℕ) → n ≤ m → need xs n ≤ m + 2
need_le [] n m le = omega arith
need_le (x ∷ xs) n m le = omega (arith, le)

module _ (ids : List String) (t : List WorkflowStatus) where
  Reached-child : (p c : String) → is_edge p c t ≡ true → Reached ids t p → Reached ids t c
  Reached-child p c e (inl given) = inr (p, given, Descendant.child c e)
  Reached-child p c e (inr (r, given, d)) = inr (r, given, Descendant.deeper p c d e)

  children_loop-Reached :
      (fuel : ℕ) (frontier known result : List String)
      → ((c : String) → any_of frontier c ≡ true → Reached ids t c)
      → ((c : String) → any_of known c ≡ true → Reached ids t c)
      → children_loop fuel frontier known t ≡ some result
      → (c : String) → any_of result c ≡ true
      → Reached ids t c
  unfolding children_loop
  children_loop-Reached zero frontier known result f k h c m = cc
  children_loop-Reached (suc fuel) [] known result f k h c m = k c (cc)
  children_loop-Reached (suc fuel) (x ∷ xs) known result f k h c m =
      let next = next_of (x ∷ xs) known t in
      children_loop-Reached fuel next (add_all known next) result found
        (λ d e. elim (Bool-cases (any_of known d)) [
          | inl old ↦ k d old
          | inr new ↦ found d (ground (arith, new, e, any_of-add_all known next d))
        ])
        h c m
    where
      found : (d : String) → any_of (next_of (x ∷ xs) known t) d ≡ true → Reached ids t d
      found d e =
          let split =
            any_of-select (λ id. not (any_of known id)) (get_direct_children (x ∷ xs) t) d in
          let (p, in_frontier, at) = children_sound (x ∷ xs) d t (ground (arith, e, split)) in
          Reached-child p d at (f p in_frontier)

  children_loop_keeps :
      (fuel : ℕ) (frontier known result : List String)
      → children_loop fuel frontier known t ≡ some result
      → (c : String) → any_of known c ≡ true
      → any_of result c ≡ true
  unfolding children_loop
  children_loop_keeps zero frontier known result h c m = cc
  children_loop_keeps (suc fuel) [] known result h c m = cc
  children_loop_keeps (suc fuel) (x ∷ xs) known result h c m =
      let next = next_of (x ∷ xs) known t in
      children_loop_keeps fuel next (add_all known next) result h c
        (ground (arith, m, any_of-add_all known next c))

  -- The search from the given workflows finds them and all their descendants.
  children_loop_complete :
      (fuel : ℕ) (all : List String)
      → children_loop fuel ids (add_all [] ids) t ≡ some all
      → (c : String) → Reached ids t c
      → any_of all c ≡ true
  children_loop_complete fuel all ends c (inl given) =
      children_loop_keeps fuel ids (add_all [] ids) all ends c
        (ground (arith, given, any_of-add_all_nil ids c))
  children_loop_complete fuel all ends c (inr (r, given, d)) =
      Descendant-Met r t all (children_loop_closed r t fuel ids (add_all [] ids) all start ends) c d
    where
      start :
          (p c : String)
          → (p ≡ r) ⊎ (any_of (add_all [] ids) p ≡ true)
          → any_of ids p ≡ false
          → is_edge p c t ≡ true
          → any_of (add_all [] ids) c ≡ true
      start p c (inl at) out e = absurd (cc (rw at at out, given))
      start p c (inr m) out e = absurd (ground (arith, m, out, any_of-add_all_nil ids p))

  -- A cancellation with its children ends on every table, cyclic parents included, and is the
  -- cancellation of exactly the given workflows and all their descendants.
  pub cancel_workflows_and_children-Reached :
      (now : ℕ)
      → (all : List String) × (cancel_workflows_and_children now ids true t
          ≡ some (cancel_workflows now all t))
        × ((c : String) → (any_of all c ≡ true) ↔ Reached ids t c)
  unfolding cancel_workflows_and_children
  cancel_workflows_and_children-Reached now =
      let known = add_all [] ids in
      let fuel = length t + 2 in
      let (all, ends) = children_loop_total t fuel ids known (
        need_le ids (left known t) (length t)
          (count_le_length (λ r. not (any_of known r.workflow_uuid)) t)) in
      (
        all,
        rw (cancel_workflows_nil now t) at (
            cancel_loop-children_loop now fuel ids known [] all t
              (λ k. unfold any_of in (ground (arith, any_of-add_all_nil ids k))) ends),
        λ c. (
          children_loop-Reached fuel ids known all (λ d e. inl e)
              (λ d e. inl (ground (arith, e, any_of-add_all_nil ids d))) ends c,
          children_loop_complete fuel all ends c,
        ),
      )
