-- ===== src/Common/Text.antt =====
-- Identifiers and names are texts; `same` is the source's `===` and SQL's `=` on them.
use Prim.Native.String.{String}
use mathlib.Core.Path.{◌≡◌, refl, sym}
use mathlib.Core.Logic.{◌↔◌, inl, inr}
use mathlib.Core.Bool.{Bool, true, false, ◌||◌}
use mathlib.Core.Option.{Option, none, some}
use mathlib.Core.List.{List, [], ◌∷◌, ◌++◌}
use native.Mathlib.Omega.{arith}
use dbos_transact_ts.Common.Tests.{Bool-cases}
use text.Mathlib.Text.{◌==◌}
use text.Mathlib.TextEquality.{eq_iff}
use text.Mathlib.TextPositions.{eq_refl}

unfoldable pub same : String → String → Bool
same a b = a == b

pub same_iff : (a b : String) → (same a b ≡ true) ↔ (a ≡ b)
unfolding same
same_iff a b = eq_iff a b

pub same_refl : (a : String) → same a a ≡ true
unfolding same
same_refl a = eq_refl a

pub same_sym : (a b : String) → same a b ≡ same b a
same_sym a b = elim (Bool-cases (same a b)) [
  | inl e ↦ let back : same b a ≡ true = (same_iff b a).1 (sym ((same_iff a b).0 e)) in cc
  | inr e ↦ elim (Bool-cases (same b a)) [
    | inl f ↦ let back : same a b ≡ true = (same_iff a b).1 (sym ((same_iff b a).0 f)) in cc
    | inr f ↦ cc
  ]
]

-- `column = $k` of SQL, which a NULL column does not satisfy.
abbrev pub column_is : Option String → String → Bool
column_is none k = false
column_is (some s) k = same s k

-- `a IS NOT DISTINCT FROM b` of SQL, and `===` between optional texts.
abbrev pub same_column : Option String → Option String → Bool
same_column none none = true
same_column none (some b) = false
same_column (some a) none = false
same_column (some a) (some b) = same a b

-- `id = ANY(ids)` of SQL, and membership in a set of texts.
unfoldable pub any_of : List String → String → Bool
any_of [] k = false
any_of (x ∷ xs) k = elim (same x k) [ true ↦ true | false ↦ any_of xs k ]

pub any_of-append :
    (xs ys : List String) (k : String) → any_of (xs ++ ys) k ≡ any_of xs k || any_of ys k
unfolding any_of
any_of-append [] ys k = refl
any_of-append (x ∷ xs) ys k = ground (arith, any_of-append xs ys k)
