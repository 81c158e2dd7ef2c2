-- ===== src/SysDb/Polling/Ending.antt =====
-- When a polling loop ends, and what it then has seen.
use dbos_transact_ts.Common.{
  ◌≢◌, All, ℕ, ◌<◌, String, Option, none, some, List, [], ◌∷◌, ◌≡◌, ◌⊎◌, inl, inr, arith, is_some,
  true,
}
use dbos_transact_ts.SysDb.Schema.{Db}
use dbos_transact_ts.SysDb.Result.{Result, ok}
use dbos_transact_ts.SysDb.Polling.{Round, poll, check_caller}

-- Some round of the loop reads the clock after the deadline.
abbrev pub Expires : ℕ → List Round → Type 0
Expires finish [] = ⊥
Expires finish (r ∷ rs) = (finish < r.now) ⊎ Expires finish rs

module _ {ℓ} {A : Type ℓ} (caller : Option String) (ready : Db → Option A) (finish : ℕ) where
  -- A loop with a deadline ends once the clock is past it.
  pub poll_ends :
      (rs : List Round) (db : Db)
      → 0 < finish
      → Expires finish rs
      → is_some (poll caller ready finish rs db) ≡ true
  unfolding poll
  poll_ends [] db pos late = absurd late
  poll_ends (r ∷ rs) db pos (inl late) = ground arith
  poll_ends (r ∷ rs) db pos (inr later) = ground (arith, poll_ends rs (r.others db) pos later)

  -- What a loop found is there when it ends, and the caller is not cancelled.
  pub poll_found :
      (rs : List Round) (db : Db) (a : A) (db' : Db)
      → poll caller ready finish rs db ≡ some (ok (some a), db')
      → (ready db' ≡ some a) × (check_caller caller db' ≡ ok tt)
  unfolding poll
  poll_found [] db a db' h = cc
  poll_found (r ∷ rs) db a db' h = ground (arith, h, poll_found rs (r.others db) a db')

  -- A loop that ends without a find ends where there is nothing to find.
  pub poll_missed :
      (rs : List Round) (db : Db) (db' : Db)
      → poll caller ready finish rs db ≡ some (ok none, db')
      → (ready db' ≡ none) × (check_caller caller db' ≡ ok tt)
  unfolding poll
  poll_missed [] db db' h = cc
  poll_missed (r ∷ rs) db db' h = ground (arith, h, poll_missed rs (r.others db) db')

  -- What the other transactions keep is kept through the loop.
  pub poll_keeps {κ} :
      (P : Db → Type κ) (rs : List Round) (db : Db)
      → P db
      → All (λ r. (d : Db) → P d → P (r.others d)) rs
      → (x : Result (Option A)) (db' : Db) → poll caller ready finish rs db ≡ some (x, db')
      → P db'
  unfolding poll
  poll_keeps P [] db h keep x db' e = cc
  poll_keeps P (r ∷ rs) db h keep x db' e =
      let h' = keep.0 db h in ground (arith, e, h', poll_keeps P rs (r.others db) h' keep.1 x db')

-- A loop without a deadline does not time out.
pub poll_untimed {ℓ} :
    {A : Type ℓ} (caller : Option String) (ready : Db → Option A) (rs : List Round) (db db' : Db)
    → poll caller ready 0 rs db ≢ some (ok none, db')
unfolding poll
poll_untimed caller ready [] db db' h = cc
poll_untimed caller ready (r ∷ rs) db db' h =
    ground (arith, h, poll_untimed caller ready rs (r.others db) db')
