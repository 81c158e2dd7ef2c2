-- ===== src/Common/Fifo.antt =====
-- A table read in the order of a column is a queue: the first of the waiting rows leaves, a new row
-- that is not before the others joins at the end.
use Prim.Native.Nat.{◌≤◌}
use mathlib.Core.Path.{◌≡◌, refl, ap, sym, ◌∙◌}
use mathlib.Core.Bool.{Bool, true, false, ◌&&◌}
use mathlib.Core.Option.{some}
use mathlib.Core.List.{List, [], ◌∷◌, ◌++◌}
use native.Mathlib.Omega.{arith}
use dbos_transact_ts.Common.Tests.{Bool-cases}
use dbos_transact_ts.Common.Lists.{All, All-imp, head, tail}
use dbos_transact_ts.Common.Table.{
  select, count, update, first, insert_by, order_by, All-order_by, All-select_of,
}
use dbos_transact_ts.Common.Counts.{count_none}
use mathlib.Core.Logic.{inl, inr}

module _ {ℓ} {A : Type ℓ} (le : A → A → Bool) where
  insert_by-last :
      (a x : A) (t : List A)
      → le a x ≡ true
      → insert_by le a (t ++ x ∷ []) ≡ insert_by le a t ++ x ∷ []
  insert_by-last a x [] h = rw h refl
  insert_by-last a x (y ∷ t) h = ground (arith, insert_by-last a x t h)

  -- A row that no row of the table comes after joins the ordered table at its end.
  pub order_by-append :
      (x : A) (t : List A)
      → All (λ a. le a x ≡ true) t
      → order_by le (t ++ x ∷ []) ≡ order_by le t ++ x ∷ []
  order_by-append x [] h = refl
  order_by-append x (a ∷ t) h =
      rw (order_by-append x t h.1) (insert_by-last a x (order_by le t) h.0)

pub select-append {ℓ} :
    {A : Type ℓ} (p : A → Bool) (t u : List A) → select p (t ++ u) ≡ select p t ++ select p u
select-append p [] u = refl
select-append p (x ∷ t) u = ground (arith, select-append p t u)

-- An `UPDATE` that meets no row of a table.
pub update-never {ℓ} :
    {A : Type ℓ} (q : A → Bool) (f : A → A) (t : List A)
    → All (λ r. q r ≡ false) t
    → update q f t ≡ t
update-never q f [] h = refl
update-never q f (r ∷ t) h = ground (arith, h.0, update-never q f t h.1)

module _ {ℓ} {A : Type ℓ} (p q : A → Bool) (f : A → A) (le : A → A → Bool) where
  abbrev queued : List A → List A
  queued t = order_by le (select p t)

  abbrev taken : List A → List A
  taken t = update (λ r. p r && q r) f t

  -- The row at the front of an ordered table, and the rest of it.
  insert_by-front :
      (r x : A) (s : List A)
      → head (insert_by le r s) ≡ some x
      → All (λ y. q y ≡ false) s
      → q x ≡ true
      → (s ≡ tail (insert_by le r s)) × (r ≡ x)
  insert_by-front r x [] h quiet target = (refl, cc)
  insert_by-front r x (y ∷ s) h quiet target = ground (arith, h, quiet.0, target)

  insert_by-behind :
      (r x : A) (s : List A)
      → head (insert_by le r s) ≡ some x
      → q r ≡ false
      → q x ≡ true
      → (head s ≡ some x) × (insert_by le r (tail s) ≡ tail (insert_by le r s))
  insert_by-behind r x [] h quiet target = ground (arith, h, quiet, target)
  insert_by-behind r x (y ∷ s) h quiet target = ground (arith, h, quiet, target)

  queued-in : (r : A) (t : List A) → p r ≡ true → queued (r ∷ t) ≡ insert_by le r (queued t)
  queued-in r t w = rw w refl

  queued-out : (r : A) (t : List A) → p r ≡ false → queued (r ∷ t) ≡ queued t
  queued-out r t w = rw w refl

  taken-kept : (r : A) (t : List A) → (p r && q r) ≡ false → taken (r ∷ t) ≡ r ∷ taken t
  taken-kept r t w = rw w refl

  taken-hit :
      (r : A) (t : List A)
      → p r ≡ true
      → q r ≡ true
      → All (λ y. q y ≡ false) t
      → taken (r ∷ t) ≡ f r ∷ t
  taken-hit r t w hit quiet =
      let untouched =
        update-never (λ y. p y && q y) f t
          (All-imp (λ y. q y ≡ false) (λ y. (p y && q y) ≡ false) (λ y e. ground (arith, e)) t
            quiet) in
      ground (arith, w, hit, untouched)

  quiet-queued : (t : List A) → All (λ y. q y ≡ false) t → All (λ y. q y ≡ false) (queued t)
  quiet-queued t quiet =
      All-order_by (λ y. q y ≡ false) le (select p t) (All-select_of (λ y. q y ≡ false) p t quiet)

  -- Where `q` picks the row at the front and no other row, and `f` puts it past waiting, the
  -- `UPDATE` takes the front of the queue away and leaves the rest as it is.
  pub queued-taken :
      (x : A)
      → q x ≡ true
      → ((r : A) → p (f r) ≡ false)
      → (t : List A) → count q t ≤ 1
      → head (queued t) ≡ some x
      → queued (taken t) ≡ tail (queued t)
  queued-taken x target past [] once h = refl
  queued-taken x target past (r ∷ t) once h = elim (Bool-cases (p r)) [
    | inl w ↦ elim (Bool-cases (q r)) [
      | inl hit ↦
          let quiet = count_none q t (ground (arith, hit, once)) in
          let e = queued-in r t w in
          let (rest, _) =
            insert_by-front r x (queued t) (ap head (sym e) ∙ h) (quiet-queued t quiet) target in
          ap queued (taken-hit r t w hit quiet)
          ∙ queued-out (f r) t (past r)
          ∙ rest
          ∙ ap tail (sym e)
      | inr miss ↦
          let e = queued-in r t w in
          let (front, rest) = insert_by-behind r x (queued t) (ap head (sym e) ∙ h) miss target in
          let ih = queued-taken x target past t (ground (arith, miss, once)) front in
          ap queued (taken-kept r t (ground (arith, miss)))
          ∙ queued-in r (taken t) w
          ∙ ap (insert_by le r) ih
          ∙ rest
          ∙ ap tail (sym e)
    ]
    | inr w ↦
        let e = queued-out r t w in
        let ih = queued-taken x target past t (ground (arith, once)) (ap head (sym e) ∙ h) in
        ap queued (taken-kept r t (ground (arith, w)))
        ∙ queued-out r (taken t) w
        ∙ ih
        ∙ ap tail (sym e)
  ]

  -- And that row is the one that the condition of the `UPDATE` finds.
  pub first-queued :
      (x : A)
      → q x ≡ true
      → (t : List A) → count q t ≤ 1
      → head (queued t) ≡ some x
      → first (λ r. p r && q r) t ≡ some x
  first-queued x target [] once h = cc
  first-queued x target (r ∷ t) once h = elim (Bool-cases (p r)) [
    | inl w ↦ elim (Bool-cases (q r)) [
      | inl hit ↦
          let quiet = count_none q t (ground (arith, hit, once)) in
          let (_, same) =
            insert_by-front r x (queued t) (ap head (sym (queued-in r t w)) ∙ h)
              (quiet-queued t quiet) target in
          ground (arith, w, hit, same)
      | inr miss ↦
          let (front, _) =
            insert_by-behind r x (queued t) (ap head (sym (queued-in r t w)) ∙ h) miss target in
          ground (arith, miss, first-queued x target t (ground (arith, miss, once)) front)
    ]
    | inr w ↦ ground (
      arith,
      w,
      first-queued x target t (ground (arith, once)) (ap head (sym (queued-out r t w)) ∙ h),
    )
  ]

pub select-append_other {ℓ} :
    {A : Type ℓ} (p : A → Bool) (t : List A) (r : A)
    → p r ≡ false
    → select p (t ++ r ∷ []) ≡ select p t
select-append_other p [] r h = ground (arith, h)
select-append_other p (x ∷ t) r h = ground (arith, select-append_other p t r h)
