-- ===== src/SysDb/Patch/Marker.antt =====
-- The decision of `checkPatch` is stable.
use dbos_transact_ts.Common.{ℕ, String, false, none, ◌≡◌, arith, same_refl}
use dbos_transact_ts.SysDb.Schema.{Db}
use dbos_transact_ts.SysDb.Result.{ok}
use dbos_transact_ts.SysDb.Steps.{find_step, is_step, new_step, only_output}
use dbos_transact_ts.SysDb.Steps.Checkpoints.{first-append_new}
use dbos_transact_ts.SysDb.Patch.{PatchResult, check_patch, patch_name}

module _ (now : ℕ) (id : String) (fn : ℕ) (name : String) (db : Db) where
  -- Where a workflow has asked for a patch, asking again at the same place gives the same answer and
  -- changes nothing: a workflow that has started on the old code stays on it, and one that has
  -- started on the new code stays there.
  pub check_patch_stable :
      (r : PatchResult) (db' : Db)
      → check_patch now id fn name false db ≡ (ok r, db')
      → (now' : ℕ) → check_patch now' id fn name false db' ≡ (ok r, db')
  unfolding check_patch find_step
  check_patch_stable r db' h now' = ground (
    arith,
    h,
    first-append_new (is_step id fn) db.operation_outputs
        (new_step id fn (patch_name name) now now (only_output none)),
    same_refl id,
    same_refl (patch_name name),
  )
