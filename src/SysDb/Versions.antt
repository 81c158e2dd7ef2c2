-- ===== src/SysDb/Versions.antt =====
-- The statements on `application_versions`: `createApplicationVersion`,
-- `updateApplicationVersionTimestamp`, `listApplicationVersions` and `getLatestApplicationVersion`.
pub mod Latest
use dbos_transact_ts.Common.{
  ℕ, String, Bool, Option, none, some, List, [], ◌∷◌, ◌++◌, same, leb, if◌then◌else◌, is_some,
  first, update, order_by,
}
use dbos_transact_ts.SysDb.Result.{Result, ok, err, no_application_versions}
use dbos_transact_ts.SysDb.Dequeue.{VersionInfo}

abbrev pub is_version : String → VersionInfo → Bool
is_version name v = same v.version_name name

-- `ON CONFLICT (version_name) DO NOTHING`; the time is the column's default.
unfoldable pub create_application_version : ℕ → String → List VersionInfo → List VersionInfo
create_application_version now name t =
    if is_some (first (is_version name) t)
    then t
    else t ++ record { version_name = name; version_timestamp = now } ∷ []

unfoldable pub update_application_version_timestamp :
    String → ℕ → List VersionInfo → List VersionInfo
update_application_version_timestamp name time t =
    update (is_version name) (λ v. record v { version_timestamp = time }) t

-- `ORDER BY version_timestamp DESC`
unfoldable pub list_application_versions : List VersionInfo → List VersionInfo
list_application_versions t = order_by (λ a b. leb b.version_timestamp a.version_timestamp) t

unfoldable pub get_latest_application_version : List VersionInfo → Result VersionInfo
unfolding list_application_versions
get_latest_application_version t = elim (list_application_versions t) [
  | [] ↦ err no_application_versions
  | v ∷ vs ↦ ok v
]

-- What the launch of a process does (src/dbos.ts): whether its version is the latest.
unfoldable pub launch_version : ℕ → String → List VersionInfo → Result Bool × List VersionInfo
unfolding create_application_version get_latest_application_version
launch_version now app_version t =
    let t' = create_application_version now app_version t in
    elim (get_latest_application_version t') [
      | err e ↦ (err e, t')
      | ok v ↦ (ok (same v.version_name app_version), t')
    ]
