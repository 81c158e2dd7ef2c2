-- ===== src/Common/Table.antt =====
-- A table is a list of rows; the statements of SQL that the source uses on one table.
use Prim.Native.Nat.{ℕ, suc, ◌+◌, ◌≤◌}
use mathlib.Core.Path.{◌≡◌, refl, ap}
use mathlib.Core.Bool.{Bool, true, false}
use mathlib.Core.Option
use mathlib.Core.Option.{Option, none, some}
use mathlib.Core.List.{List, [], ◌∷◌, ◌++◌}
use native.Mathlib.Omega.{arith}
use dbos_transact_ts.Common.Tests.{if◌then◌else◌}
use dbos_transact_ts.Common.Lists.{length, All}

module _ {ℓ} {A : Type ℓ} where
  -- `SELECT * FROM t WHERE p`
  abbrev pub select : (A → Bool) → List A → List A
  select p [] = []
  select p (r ∷ rs) = if p r then r ∷ select p rs else select p rs

  -- `SELECT COUNT(*) FROM t WHERE p`
  abbrev pub count : (A → Bool) → List A → ℕ
  count p [] = 0
  count p (r ∷ rs) = (if p r then 1 else 0) + count p rs

  -- `UPDATE t SET f WHERE p`
  abbrev pub update : (A → Bool) → (A → A) → List A → List A
  update p f [] = []
  update p f (r ∷ rs) = (if p r then f r else r) ∷ update p f rs

  -- `DELETE FROM t WHERE p`
  abbrev pub delete : (A → Bool) → List A → List A
  delete p [] = []
  delete p (r ∷ rs) = if p r then delete p rs else r ∷ delete p rs

  -- `rows[0]` of `SELECT * FROM t WHERE p`
  abbrev pub first : (A → Bool) → List A → Option A
  first p [] = none
  first p (r ∷ rs) = if p r then some r else first p rs

  -- `ORDER BY`, where `le` compares two rows; rows that compare equal keep their order.
  abbrev pub insert_by : (A → A → Bool) → A → List A → List A
  insert_by le a [] = a ∷ []
  insert_by le a (x ∷ xs) = if le a x then a ∷ x ∷ xs else x ∷ insert_by le a xs

  abbrev pub order_by : (A → A → Bool) → List A → List A
  order_by le [] = []
  order_by le (x ∷ xs) = insert_by le x (order_by le xs)

  pub length-update : (p : A → Bool) (f : A → A) (t : List A) → length (update p f t) ≡ length t
  length-update p f [] = refl
  length-update p f (r ∷ t) = ap suc (length-update p f t)

module _ {ℓ} {A : Type ℓ} where
  -- What an `UPDATE` makes of one row.
  abbrev pub changed : (A → Bool) → (A → A) → A → A
  changed q f r = if q r then f r else r

  -- An `UPDATE` that does not change which rows `p` accepts acts on the first of them alone.
  pub first-update :
      (p q : A → Bool) (f : A → A)
      → ((r : A) → p (f r) ≡ p r)
      → (t : List A) → first p (update q f t) ≡ Option.map (changed q f) (first p t)
  first-update p q f keeps [] = refl
  first-update p q f keeps (r ∷ t) = ground (arith, keeps r, first-update p q f keeps t)

  -- The same where only the rows that are updated need to stay accepted or refused.
  pub first-update_at :
      (p q : A → Bool) (f : A → A)
      → ((r : A) → q r ≡ true → p (f r) ≡ p r)
      → (t : List A) → first p (update q f t) ≡ Option.map (changed q f) (first p t)
  first-update_at p q f keeps [] = refl
  first-update_at p q f keeps (r ∷ t) = ground (arith, keeps r, first-update_at p q f keeps t)

  pub first_sound : (p : A → Bool) (t : List A) (r : A) → first p t ≡ some r → p r ≡ true
  first_sound p [] r h = cc
  first_sound p (x ∷ t) r h = ground (arith, first_sound p t r)

  -- A row that every `DELETE` condition spares stays the first.
  pub first-delete :
      (p q : A → Bool) (t : List A) (r : A)
      → first p t ≡ some r
      → q r ≡ false
      → first p (delete q t) ≡ some r
  first-delete p q [] r h keep = cc
  first-delete p q (x ∷ t) r h keep = ground (arith, first-delete p q t r)

  -- A row that is left after a `DELETE` does not meet its condition.
  pub first-delete_kept :
      (p q : A → Bool) (t : List A) (r : A) → first p (delete q t) ≡ some r → q r ≡ false
  first-delete_kept p q [] r h = cc
  first-delete_kept p q (x ∷ t) r h = ground (arith, h, first-delete_kept p q t r)

  pub length-select_le : (p : A → Bool) (t : List A) → length (select p t) ≤ length t
  length-select_le p [] = omega arith
  length-select_le p (r ∷ t) = ground (arith, length-select_le p t)

  pub All-select : (p : A → Bool) (t : List A) → All (λ r. p r ≡ true) (select p t)
  All-select p [] = tt
  All-select p (r ∷ t) = ground (arith, All-select p t)

module _ {ℓ κ} {A : Type ℓ} (P : A → Type κ) where
  pub All-select_of : (q : A → Bool) (t : List A) → All P t → All P (select q t)
  All-select_of q [] h = tt
  All-select_of q (r ∷ t) h =
      elim (q r) as (λ b. All P (if b then r ∷ select q t else select q t)) [
        | true ↦ (h.0, All-select_of q t h.1)
        | false ↦ All-select_of q t h.1
      ]

  pub All-insert_by :
      (le : A → A → Bool) (a : A) (t : List A) → P a → All P t → All P (insert_by le a t)
  All-insert_by le a [] h k = (h, k)
  All-insert_by le a (r ∷ t) h k =
      elim (le a r) as (λ b. All P (if b then a ∷ r ∷ t else r ∷ insert_by le a t)) [
        | true ↦ (h, k)
        | false ↦ (k.0, All-insert_by le a t h k.1)
      ]

  pub All-order_by : (le : A → A → Bool) (t : List A) → All P t → All P (order_by le t)
  All-order_by le [] h = tt
  All-order_by le (r ∷ t) h = All-insert_by le r (order_by le t) h.0 (All-order_by le t h.1)

module _ {ℓ} {A : Type ℓ} where
  pub first_never : (p : A → Bool) → ((r : A) → p r ≡ false) → (t : List A) → first p t ≡ none
  first_never p never [] = refl
  first_never p never (r ∷ t) = rw (never r) (first_never p never t)

  pub select_always : (p : A → Bool) → ((r : A) → p r ≡ true) → (t : List A) → select p t ≡ t
  select_always p always [] = refl
  select_always p always (r ∷ t) =
      rw (always r) (ap (λ (l : List A). r ∷ l) (select_always p always t))

-- An `UPDATE` that meets no row.
pub update-none {ℓ} :
    {A : Type ℓ} (p : A → Bool) (f : A → A) (t : List A) → first p t ≡ none → update p f t ≡ t
update-none p f [] h = refl
update-none p f (r ∷ t) h = ground (arith, h, update-none p f t)

module _ {ℓ} {A : Type ℓ} where
  -- An `UPDATE` of rows that `p` refuses before and after.
  pub first-update_apart :
      (p q : A → Bool) (f : A → A)
      → ((r : A) → q r ≡ true → (p r ≡ false) × (p (f r) ≡ false))
      → (t : List A) → first p (update q f t) ≡ first p t
  first-update_apart p q f apart [] = refl
  first-update_apart p q f apart (r ∷ t) = ground (arith, apart r, first-update_apart p q f apart t)

  pub first-append_other :
      (p : A → Bool) (t : List A) (r : A) → p r ≡ false → first p (t ++ r ∷ []) ≡ first p t
  first-append_other p [] r h = ground (arith, h)
  first-append_other p (x ∷ t) r h = ground (arith, first-append_other p t r h)
