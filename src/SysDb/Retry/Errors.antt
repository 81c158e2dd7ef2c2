-- ===== src/SysDb/Retry/Errors.antt =====
-- `retriablePostgresException`: which errors mean that the connection is lost. An error may hold
-- others, as the members of an AggregateError, as its cause or as a wrapped error; `unwrapErrors` walks
-- through them.
pub mod Walk
pub mod Held
pub mod Classes
use mathlib.Core.Option
use Prim.Native.Char.{Char, code}
use dbos_transact_ts.Common.{
  ℕ, zero, suc, String, Bool, true, false, ◌&&◌, ◌||◌, Option, none, some, List, [], ◌∷◌, ◌++◌,
  same, if◌then◌else◌, ◌==◌, or_else, any_of, get_elem?,
}

-- `s.startsWith(p)`
unfoldable pub starts : String → String → Bool
starts String.[] s = true
starts (String.◌∷◌ c p) String.[] = false
starts (String.◌∷◌ c p) (String.◌∷◌ d s) = code c == code d && starts p s

-- `s.includes(p)`
unfoldable pub includes : String → String → Bool
unfolding starts
includes p String.[] = starts p String.[]
includes p (String.◌∷◌ c s) = starts p (String.◌∷◌ c s) || includes p s

unfoldable pub text_length : String → ℕ
text_length String.[] = 0
text_length (String.◌∷◌ c s) = suc (text_length s)

-- A value that is thrown or held: an object, by its place in the store, another value by its text, or
-- `null` or `undefined`.
pub data Value : Type 0 where
  object : ℕ → Value
  primitive : String → Value
  nothing : Value

-- What the walk reads of an object. `text` is what `String(e)` makes of it; the causes and wrapped
-- errors are those that are truthy.
pub record ErrorObject : Type 0 where
  pub is_error : Bool
  pub code : Option String
  pub stack : Option String
  pub message : Option String
  pub text : String
  pub errors : Option (List Value)
  pub cause : Option Value
  pub error : Option Value

abbrev pub one_of : Option Value → List Value
one_of none = []
one_of (some v) = v ∷ []

-- What `unwrapErrors` adds to its queue for an object.
abbrev pub held : ErrorObject → List Value
held o = or_else o.errors [] ++ (one_of o.cause ++ one_of o.error)

abbrev pub held_at : List ErrorObject → ℕ → List Value
held_at store n = elim (get_elem? store n) [ none ↦ [] | some o ↦ held o ]

abbrev pub is_seen : ℕ → List ℕ → Bool
is_seen n [] = false
is_seen n (m ∷ seen) = n == m || is_seen n seen

-- `unwrapErrors`: what it yields; `none` where the fuel is used up before the queue is empty.
unfoldable pub unwrap_errors : ℕ → List ErrorObject → List Value → List ℕ → Option (List Value)
unwrap_errors fuel store [] seen = some []
unwrap_errors zero store (v ∷ queue) seen = none
unwrap_errors (suc fuel) store (primitive s ∷ queue) seen =
    Option.map (λ ys. primitive s ∷ ys) (unwrap_errors fuel store queue seen)
unwrap_errors (suc fuel) store (nothing ∷ queue) seen =
    Option.map (λ ys. nothing ∷ ys) (unwrap_errors fuel store queue seen)
unwrap_errors (suc fuel) store (object n ∷ queue) seen =
    let skipped = unwrap_errors fuel store queue seen in
    let walked = unwrap_errors fuel store (queue ++ held_at store n) (n ∷ seen) in
    if is_seen n seen then skipped else Option.map (λ ys. object n ∷ ys) walked

abbrev pub sql_state_looks_retryable : String → Bool
sql_state_looks_retryable s = same s "40003" || starts "08" s || starts "53" s || starts "57" s

-- The code of a database error has five characters.
abbrev pub is_retryable_code : Option String → Bool
is_retryable_code none = false
is_retryable_code (some c) =
    (text_length c == 5 && sql_state_looks_retryable c)
    || any_of
        ("ECONNRESET" ∷ "ECONNREFUSED" ∷ "EHOSTUNREACH" ∷ "ENETUNREACH" ∷ "ETIMEDOUT"
          ∷ "ECONNABORTED" ∷ [])
        c

-- What the loop over the yielded values ends with; reading the code of `null` throws.
pub data Verdict : Type 0 where
  retriable final type_error : Verdict

-- `to_lower` is the language's, over all of Unicode.
module _ (to_lower : String → String) where
  unfoldable pub message_looks_retryable : String → Bool
  unfolding includes
  message_looks_retryable msg =
      let m = to_lower msg in
      includes "ECONNREFUSED" msg
      || includes "ECONNRESET" msg
      || includes "connection timeout" m
      || includes "server closed the connection" m
      || includes "connection terminated unexpectedly" m
      || includes "client has encountered a connection error" m
      || includes "timeout exceeded when trying to connect" m
      || includes "could not connect to server" m

  -- An empty or missing text is not looked at.
  abbrev pub text_looks_retryable : Option String → Bool
  text_looks_retryable none = false
  text_looks_retryable (some s) = if same s "" then false else message_looks_retryable s

  abbrev pub looks_retryable : ErrorObject → Bool
  looks_retryable o =
      is_retryable_code o.code
      || (if o.is_error
          then text_looks_retryable o.stack || text_looks_retryable o.message
          else message_looks_retryable o.text)

  abbrev pub value_looks_retryable : List ErrorObject → Value → Bool
  value_looks_retryable store nothing = false
  value_looks_retryable store (primitive s) = message_looks_retryable s
  value_looks_retryable store (object n) = elim (get_elem? store n) [
    | none ↦ false
    | some o ↦ looks_retryable o
  ]

  unfoldable pub judge : List ErrorObject → List Value → Verdict
  judge store [] = final
  judge store (nothing ∷ ys) = type_error
  judge store (primitive s ∷ ys) =
      let rest = judge store ys in
      if value_looks_retryable store (primitive s) then retriable else rest
  judge store (object n ∷ ys) =
      let rest = judge store ys in
      if value_looks_retryable store (object n) then retriable else rest

  unfoldable pub retriable_postgres_exception : ℕ → List ErrorObject → Value → Option Verdict
  unfolding unwrap_errors judge
  retriable_postgres_exception fuel store e =
      Option.map (judge store) (unwrap_errors fuel store (e ∷ []) [])
