-- ===== src/Common/Decimal.antt =====
-- Decimal texts of the natural numbers: what `JSON.stringify`, `toString` and `${n}` make of a
-- non-negative integer, and the reading of such a text.
use Prim.Native.Nat.{ℕ, zero, suc, ◌+◌, ◌-◌, ◌*◌, ◌/◌, ◌%◌, ◌≤◌, ◌<◌}
use Prim.Native.Char.{Char, code}
use Prim.Native.String.{String}
use mathlib.Core.Path.{◌≡◌, refl, ap, sym}
use mathlib.Core.Logic.{◌≢◌, inl, inr}
use mathlib.Core.Bool.{Bool, true, false, ◌&&◌}
use mathlib.Core.Option.{Option, none, some}
use native.Mathlib.Nat.{le_refl}
use native.Mathlib.Omega.{arith}
use dbos_transact_ts.Common.Tests.{if◌then◌else◌, ◌==◌, leb, Bool-cases, ==_iff}

abbrev digit : ℕ → Char
digit zero = "0"
digit (suc zero) = "1"
digit (suc (suc zero)) = "2"
digit (suc (suc (suc zero))) = "3"
digit (suc (suc (suc (suc zero)))) = "4"
digit (suc (suc (suc (suc (suc zero))))) = "5"
digit (suc (suc (suc (suc (suc (suc zero)))))) = "6"
digit (suc (suc (suc (suc (suc (suc (suc zero))))))) = "7"
digit (suc (suc (suc (suc (suc (suc (suc (suc zero)))))))) = "8"
digit _ = "9"

abbrev is_digit : Char → Bool
is_digit c = leb b'0' (code c) && leb (code c) b'9'

-- `fuel` bounds the number of digits.
digits : ℕ → ℕ → String → String
digits zero n out = out
digits (suc fuel) n out =
    let rest = digits fuel (n / 10) (String.◌∷◌ (digit (n % 10)) out) in
    if n == 0 then out else rest

unfoldable pub print : ℕ → String
unfolding digits
print n = if n == 0 then "0" else digits n n ""

scan : String → ℕ → Option ℕ
scan String.[] n = some n
scan (String.◌∷◌ c s) n = elim (is_digit c) [
  | true ↦ scan s (n * 10 + (code c - b'0'))
  | false ↦ none
]

unfoldable pub parse : String → Option ℕ
unfolding scan
parse String.[] = none
parse (String.◌∷◌ c s) = scan (String.◌∷◌ c s) 0

digit_read : (d n : ℕ) (s : String) → d < 10 → scan (String.◌∷◌ (digit d) s) n ≡ scan s (n * 10 + d)
unfolding scan
digit_read zero n s h = refl
digit_read (suc zero) n s h = refl
digit_read (suc (suc zero)) n s h = refl
digit_read (suc (suc (suc zero))) n s h = refl
digit_read (suc (suc (suc (suc zero)))) n s h = refl
digit_read (suc (suc (suc (suc (suc zero))))) n s h = refl
digit_read (suc (suc (suc (suc (suc (suc zero)))))) n s h = refl
digit_read (suc (suc (suc (suc (suc (suc (suc zero))))))) n s h = refl
digit_read (suc (suc (suc (suc (suc (suc (suc (suc zero)))))))) n s h = refl
digit_read (suc (suc (suc (suc (suc (suc (suc (suc (suc zero))))))))) n s h = refl
digit_read (suc (suc (suc (suc (suc (suc (suc (suc (suc (suc d)))))))))) n s h =
    absurd (omega arith)

scan-digits : (fuel n : ℕ) (out : String) → n ≤ fuel → scan (digits fuel n out) 0 ≡ scan out n
unfolding digits
scan-digits zero n out h = let e : n ≡ 0 = omega arith in rw e
scan-digits (suc fuel) n out h =
    let e : n / 10 * 10 + n % 10 ≡ n = omega arith in
    ground (
      arith,
      scan-digits fuel (n / 10) (String.◌∷◌ (digit (n % 10)) out),
      digit_read (n % 10) (n / 10) out,
      e,
    )

parse_of_scan : (s : String) → s ≢ "" → parse s ≡ scan s 0
unfolding parse
parse_of_scan String.[] h = absurd (h refl)
parse_of_scan (String.◌∷◌ c s) h = refl

cons-ne-nil : (c : Char) (s : String) → String.◌∷◌ c s ≢ ""
cons-ne-nil c s h = cc

digits-ne-nil : (fuel n : ℕ) (out : String) → out ≢ "" → digits fuel n out ≢ ""
unfolding digits
digits-ne-nil zero n out h = h
digits-ne-nil (suc fuel) n out h = elim (Bool-cases (n == 0)) [
  | inl e ↦ rw e h
  | inr e ↦ rw e (digits-ne-nil fuel (n / 10) _ (cons-ne-nil (digit (n % 10)) out))
]

-- A positive number has a first digit.
digits_pos-ne-nil : (n : ℕ) → (n == 0) ≡ false → digits n n "" ≢ ""
unfolding digits
digits_pos-ne-nil zero h = cc
digits_pos-ne-nil (suc n) h =
    rw h (digits-ne-nil n (suc n / 10) _ (cons-ne-nil (digit (suc n % 10)) ""))

-- Every natural number is read back from its text.
pub parse-print : (n : ℕ) → parse (print n) ≡ some n
unfolding print parse
parse-print n = elim (Bool-cases (n == 0)) [
  | inl e ↦ rw e (ap some (sym ((==_iff n 0).0 e)))
  | inr e ↦
      rw (e, parse_of_scan (digits n n "") (digits_pos-ne-nil n e), scan-digits n n "" (le_refl n))
        (unfold scan in refl)
]
