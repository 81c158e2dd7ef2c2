-- ===== src/Common/Counts.antt =====
-- How many rows of a table meet a condition, through the statements on it.
use Prim.Native.Nat.{ℕ, zero, suc, ◌+◌, ◌≤◌}
use mathlib.Core.Path.{◌≡◌, refl, ap, ◌∙◌}
use mathlib.Core.Bool.{Bool, true, false, ◌&&◌, not}
use mathlib.Core.Option.{none, some}
use mathlib.Core.List.{List, [], ◌∷◌, ◌++◌}
use native.Mathlib.Omega.{arith}
use dbos_transact_ts.Common.Tests.{if◌then◌else◌}
use dbos_transact_ts.Common.Lists.{length, All, take}
use dbos_transact_ts.Common.Table.{select, count, update, first, insert_by, order_by}

module _ {ℓ} {A : Type ℓ} where
  pub count-update :
      (p q : A → Bool) (f : A → A)
      → ((r : A) → p (f r) ≡ p r)
      → (t : List A) → count p (update q f t) ≡ count p t
  count-update p q f keeps [] = refl
  count-update p q f keeps (r ∷ t) = ground (arith, keeps r, count-update p q f keeps t)

  -- An `UPDATE` adds to a count at most the rows that it changes.
  pub count-update_le :
      (p q : A → Bool) (f : A → A) (t : List A) → count p (update q f t) ≤ count p t + count q t
  count-update_le p q f [] = omega arith
  count-update_le p q f (r ∷ t) = ground (arith, count-update_le p q f t)

  pub count-and_le : (p q : A → Bool) (t : List A) → count (λ r. p r && q r) t ≤ count p t
  count-and_le p q [] = omega arith
  count-and_le p q (r ∷ t) = ground (arith, count-and_le p q t)

  pub count-select_le : (p q : A → Bool) (t : List A) → count p (select q t) ≤ count p t
  count-select_le p q [] = omega arith
  count-select_le p q (r ∷ t) = ground (arith, count-select_le p q t)

  pub count_none : (p : A → Bool) (t : List A) → count p t ≤ 0 → All (λ r. p r ≡ false) t
  count_none p [] h = tt
  count_none p (r ∷ t) h = ground (arith, count_none p t)

  pub count-take_le : (p : A → Bool) (n : ℕ) (t : List A) → count p (take n t) ≤ count p t
  count-take_le p zero t = omega arith
  count-take_le p (suc n) [] = omega arith
  count-take_le p (suc n) (r ∷ t) = omega (arith, count-take_le p n t)

  count-insert_by :
      (p : A → Bool) (le : A → A → Bool) (a : A) (t : List A)
      → count p (insert_by le a t) ≡ (if p a then 1 else 0) + count p t
  count-insert_by p le a [] = refl
  count-insert_by p le a (r ∷ t) = ground (arith, count-insert_by p le a t)

  -- Sorting keeps how often each row occurs.
  pub count-order_by :
      (p : A → Bool) (le : A → A → Bool) (t : List A) → count p (order_by le t) ≡ count p t
  count-order_by p le [] = refl
  count-order_by p le (r ∷ t) =
      count-insert_by p le r (order_by le t)
      ∙ ap (λ (n : ℕ). (if p r then 1 else 0) + n) (count-order_by p le t)

  pub first-count : (p : A → Bool) (t : List A) (r : A) → first p t ≡ some r → 1 ≤ count p t
  first-count p [] r h = cc
  first-count p (x ∷ t) r h = ground (arith, first-count p t r)

  pub first-and-count :
      (p q : A → Bool) (t : List A) (r : A)
      → first p t ≡ some r
      → q r ≡ true
      → 1 ≤ count (λ x. p x && q x) t
  first-and-count p q [] r h k = cc
  first-and-count p q (x ∷ t) r h k = ground (arith, first-and-count p q t r)

  pub first-count_of :
      (p q : A → Bool) (t : List A) (r : A) → first p t ≡ some r → q r ≡ true → 1 ≤ count q t
  first-count_of p q [] r h k = cc
  first-count_of p q (x ∷ t) r h k = ground (arith, first-count_of p q t r)

  -- A condition that is stricter on some row counts less.
  pub count-split :
      (p q : A → Bool)
      → ((r : A) → q r ≡ true → p r ≡ true)
      → (t : List A) → count p t ≡ count q t + count (λ r. p r && not (q r)) t
  count-split p q inside [] = refl
  count-split p q inside (r ∷ t) = ground (arith, inside r, count-split p q inside t)

  pub count_le_length : (p : A → Bool) (t : List A) → count p t ≤ length t
  count_le_length p [] = omega arith
  count_le_length p (r ∷ t) = ground (arith, count_le_length p t)

pub count-append {ℓ} :
    {A : Type ℓ} (p : A → Bool) (t : List A) (r : A)
    → count p (t ++ r ∷ []) ≡ count p t + (if p r then 1 else 0)
count-append p [] r = omega arith
count-append p (x ∷ t) r = omega (arith, count-append p t r)

pub count-first-none {ℓ} :
    {A : Type ℓ} (p : A → Bool) (t : List A) → first p t ≡ none → count p t ≡ 0
count-first-none p [] h = refl
count-first-none p (x ∷ t) h = ground (arith, h, count-first-none p t)
