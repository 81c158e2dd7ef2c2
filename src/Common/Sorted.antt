-- ===== src/Common/Sorted.antt =====
-- Lists in an order, and what occurs in them.
use Prim.Native.Nat.{ℕ, zero, suc, ◌+◌}
use mathlib.Core.Path.{◌≡◌, refl, ap}
use mathlib.Core.Logic.{◌⊎◌, ◌↔◌, inl, inr}
use mathlib.Core.Bool.{Bool, true, false}
use mathlib.Core.List.{List, [], ◌∷◌}
use native.Mathlib.Omega.{arith}
use dbos_transact_ts.Common.Tests.{Bool-cases}
use dbos_transact_ts.Common.Lists.{All, All-imp, All-take, take, length}
use dbos_transact_ts.Common.Table.{count, select, insert_by, order_by, All-insert_by}

module _ {A : Type 0} where
  abbrev pub Occurs : A → List A → Type 0
  Occurs a [] = ⊥
  Occurs a (x ∷ xs) = (a ≡ x) ⊎ Occurs a xs

  pub All-Occurs {κ} : (P : A → Type κ) (xs : List A) (a : A) → All P xs → Occurs a xs → P a
  All-Occurs P [] a h m = absurd m
  All-Occurs P (x ∷ xs) a h (inl e) = rw e h.0
  All-Occurs P (x ∷ xs) a h (inr m) = All-Occurs P xs a h.1 m

  pub Occurs-select :
      (p : A → Bool) (xs : List A) (a : A) → p a ≡ true → Occurs a xs → Occurs a (select p xs)
  Occurs-select p [] a h m = absurd m
  Occurs-select p (x ∷ xs) a h (inl e) = let here : p x ≡ true = cc in rw here (inl e)
  Occurs-select p (x ∷ xs) a h (inr m) = elim (Bool-cases (p x)) [
    | inl here ↦ rw here (inr (Occurs-select p xs a h m))
    | inr apart ↦ rw apart (Occurs-select p xs a h m)
  ]

  module _ (le : A → A → Bool) where
    Occurs-insert_by :
        (x : A) (xs : List A) (a : A) → (a ≡ x) ⊎ Occurs a xs → Occurs a (insert_by le x xs)
    Occurs-insert_by x [] a m = m
    Occurs-insert_by x (y ∷ ys) a m = elim (Bool-cases (le x y)) [
      | inl first ↦ rw first m
      | inr later ↦ rw later (elim m [
        | inl e ↦ inr (Occurs-insert_by x ys a (inl e))
        | inr k ↦ elim k [ inl e ↦ inl e | inr k' ↦ inr (Occurs-insert_by x ys a (inr k')) ]
      ])
    ]

    pub Occurs-order_by : (xs : List A) (a : A) → Occurs a xs → Occurs a (order_by le xs)
    Occurs-order_by [] a m = absurd m
    Occurs-order_by (x ∷ xs) a (inl e) = Occurs-insert_by x (order_by le xs) a (inl e)
    Occurs-order_by (x ∷ xs) a (inr m) =
        Occurs-insert_by x (order_by le xs) a (inr (Occurs-order_by xs a m))

  module _ (R : A → A → Type 0) where
    -- Each element comes before all that follow it.
    abbrev pub IsOrdered : List A → Type 0
    IsOrdered [] = Unit {0}
    IsOrdered (x ∷ xs) = All (R x) xs × IsOrdered xs

    pub IsOrdered-take : (n : ℕ) (xs : List A) → IsOrdered xs → IsOrdered (take n xs)
    IsOrdered-take zero xs h = tt
    IsOrdered-take (suc n) [] h = tt
    IsOrdered-take (suc n) (x ∷ xs) h = (All-take (R x) n xs h.0, IsOrdered-take n xs h.1)

    -- What a `LIMIT` leaves out comes after all that it lets through.
    pub take_split :
        (n : ℕ) (xs : List A) (a : A)
        → IsOrdered xs
        → Occurs a xs
        → Occurs a (take n xs) ⊎ (All (λ x. R x a) (take n xs) × (length (take n xs) ≡ n))
    take_split zero xs a h m = inr (tt, refl)
    take_split (suc n) [] a h m = absurd m
    take_split (suc n) (x ∷ xs) a h (inl e) = inl (inl e)
    take_split (suc n) (x ∷ xs) a h (inr m) = elim (take_split n xs a h.1 m) [
      | inl k ↦ inl (inr k)
      | inr (before, full) ↦ inr ((All-Occurs (R x) xs a h.0 m, before), ap suc full)
    ]

    module _ (le : A → A → Bool) (sound : (a b : A) → le a b ≡ true → R a b)
        (total : (a b : A) → le a b ≡ false → R b a)
        (trans : (a b c : A) → R a b → R b c → R a c) where
      IsOrdered-insert_by : (a : A) (xs : List A) → IsOrdered xs → IsOrdered (insert_by le a xs)
      IsOrdered-insert_by a [] h = (tt, tt)
      IsOrdered-insert_by a (x ∷ xs) h = elim (Bool-cases (le a x)) [
        | inl first ↦ rw first (
          (sound a x first, All-imp (R x) (R a) (λ y k. trans a x y (sound a x first) k) xs h.0),
          h,
        )
        | inr later ↦
            rw later
              (All-insert_by (R x) le a xs (total a x later) h.0, IsOrdered-insert_by a xs h.1)
      ]

      pub IsOrdered-order_by : (xs : List A) → IsOrdered (order_by le xs)
      IsOrdered-order_by [] = tt
      IsOrdered-order_by (x ∷ xs) = IsOrdered-insert_by x (order_by le xs) (IsOrdered-order_by xs)

module _ {A : Type 0} where
  -- The predicate holds of `n` of the elements.
  abbrev pub IsCount : (A → Type 0) → List A → ℕ → Type 0
  IsCount P [] n = n ≡ 0
  IsCount P (x ∷ xs) n =
      (P x × (m : ℕ) × (n ≡ suc m) × IsCount P xs m) ⊎ ((P x → ⊥) × IsCount P xs n)

  pub count-IsCount :
      (p : A → Bool) (P : A → Type 0)
      → ((a : A) → (p a ≡ true) ↔ P a)
      → (xs : List A) → IsCount P xs (count p xs)
  count-IsCount p P iff [] = refl
  count-IsCount p P iff (x ∷ xs) = elim (Bool-cases (p x)) [
    | inl here ↦ rw here (inl ((iff x).0 here, count p xs, omega arith, count-IsCount p P iff xs))
    | inr apart ↦
        let same : 0 + count p xs ≡ count p xs = omega arith in
        rw (apart, same) (inr (λ k. let e = (iff x).1 k in cc, count-IsCount p P iff xs))
  ]
