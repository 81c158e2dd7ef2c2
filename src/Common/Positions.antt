-- ===== src/Common/Positions.antt =====
-- Elements of a list by their position.
use Prim.Native.Nat.{ℕ, zero, suc, ◌+◌}
use mathlib.Core.Path.{◌≡◌, refl, ap, sym, ◌∙◌}
use mathlib.Core.Option
use mathlib.Core.Option.{Option, some}
use mathlib.Core.List.{List, [], ◌∷◌, ◌++◌, map}
use native.Mathlib.Numerals.{unary_clauses}
use dbos_transact_ts.Common.Lists.{get_elem?, drop, head, tail}

module _ {ℓ} {A : Type ℓ} where
  pub get_elem?-drop : (xs : List A) (i : ℕ) → get_elem? xs i ≡ head (drop i xs)
  get_elem?-drop [] zero = refl
  get_elem?-drop [] (suc i) = refl
  get_elem?-drop (x ∷ xs) zero = refl
  get_elem?-drop (x ∷ xs) (suc i) = get_elem?-drop xs i

  drop-suc : (xs : List A) (i : ℕ) → drop (suc i) xs ≡ tail (drop i xs)
  drop-suc [] zero = refl
  drop-suc [] (suc i) = refl
  drop-suc (x ∷ xs) zero = refl
  drop-suc (x ∷ xs) (suc i) = drop-suc xs i

  pub drop-tail : (xs : List A) (i : ℕ) → drop (i + 1) xs ≡ tail (drop i xs)
  drop-tail xs i = simp unary_clauses (drop-suc xs i)

  pub head-tail : (xs : List A) (x : A) → head xs ≡ some x → xs ≡ x ∷ tail xs
  head-tail [] x h = cc
  head-tail (y ∷ xs) x h = cc

  -- The rest of a list from a position on where there is an element.
  pub drop_at :
      (xs : List A) (i : ℕ) (x : A) → get_elem? xs i ≡ some x → drop i xs ≡ x ∷ drop (i + 1) xs
  drop_at xs i x h =
      head-tail (drop i xs) x (sym (get_elem?-drop xs i) ∙ h)
      ∙ ap (λ (l : List A). x ∷ l) (sym (drop-tail xs i))

  pub get_elem?-append :
      (xs ys : List A) (i : ℕ) (x : A) → get_elem? xs i ≡ some x → get_elem? (xs ++ ys) i ≡ some x
  get_elem?-append [] ys i x h = cc
  get_elem?-append (y ∷ xs) ys zero x h = h
  get_elem?-append (y ∷ xs) ys (suc i) x h = get_elem?-append xs ys i x h

module _ {ℓ κ} {A : Type ℓ} {B : Type κ} where
  pub get_elem?-map :
      (f : A → B) (xs : List A) (i : ℕ) → get_elem? (map f xs) i ≡ Option.map f (get_elem? xs i)
  get_elem?-map f [] i = refl
  get_elem?-map f (x ∷ xs) zero = refl
  get_elem?-map f (x ∷ xs) (suc i) = get_elem?-map f xs i
