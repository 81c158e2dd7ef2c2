-- ===== src/SysDb/Patch.antt =====
-- `checkPatch`: whether a workflow runs the new code of a patch, decided once by a marker among its
-- checkpoints.
pub mod Marker
use Prim.Native.String.{◌++◌ as join}
use dbos_transact_ts.Common.{
  ℕ, String, Bool, true, false, Option, none, some, [], ◌∷◌, ◌++◌, column_is, if◌then◌else◌,
  is_some,
}
use dbos_transact_ts.SysDb.Schema.{Db, OperationOutput}
use dbos_transact_ts.SysDb.Rows.{find_row}
use dbos_transact_ts.SysDb.Result.{Result, ok, err, foreign_key_violation}
use dbos_transact_ts.SysDb.Steps.{StepOptions, only_output, find_step, new_step}

pub record PatchResult : Type 0 where
  pub is_patched : Bool
  pub has_entry : Bool

abbrev pub patch_name : String → String
patch_name name = join "DBOS.patch-" name

-- The `INSERT ... ON CONFLICT DO NOTHING` of the marker, for which there is no checkpoint yet.
unfoldable pub insert_marker : ℕ → String → ℕ → String → Db → Result PatchResult × Db
unfolding find_row new_step
insert_marker now id fn marker db =
    if is_some (find_row id db.workflow_status)
    then (
      ok (record { is_patched = true; has_entry = true }),
      record db {
        operation_outputs =
            db.operation_outputs ++ new_step id fn marker now now (only_output none) ∷ [];
      },
    )
    else (err foreign_key_violation, db)

unfoldable pub check_patch : ℕ → String → ℕ → String → Bool → Db → Result PatchResult × Db
unfolding find_step insert_marker
check_patch now id fn name deprecated db = elim (find_step id fn db.operation_outputs) [
  | none ↦
      if deprecated
      then (ok (record { is_patched = true; has_entry = false }), db)
      else insert_marker now id fn (patch_name name) db
  | some o ↦ (
    ok (record {
      is_patched = if deprecated then true else column_is o.function_name (patch_name name);
      has_entry = column_is o.function_name (patch_name name);
    }),
    db,
  )
]
