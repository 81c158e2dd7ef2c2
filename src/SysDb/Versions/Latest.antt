-- ===== src/SysDb/Versions/Latest.antt =====
-- Which version is the latest after a launch and after a change of a time.
use dbos_transact_ts.Common.{
  ℕ, ◌<◌, ◌≤◌, leb, String, Bool, true, Option, none, some, List, [], ◌∷◌, ◌≡◌, refl, arith, same,
  if◌then◌else◌, is_some, All, head, first, update, order_by, insert_by, Option-cases, Bool-cases,
  inl, inr,
}
use dbos_transact_ts.SysDb.Result.{Result, ok, err, no_application_versions}
use dbos_transact_ts.SysDb.Dequeue.{VersionInfo}
use dbos_transact_ts.SysDb.Versions.{
  is_version, update_application_version_timestamp, get_latest_application_version,
}

abbrev later : VersionInfo → VersionInfo → Bool
later a b = leb b.version_timestamp a.version_timestamp

-- The first row of the order.
newest : List VersionInfo → Option VersionInfo
newest t = head (order_by later t)

head-insert_by :
    (v : VersionInfo) (t : List VersionInfo)
    → head (insert_by later v t)
      ≡ some (elim (head t) [ none ↦ v | some w ↦ if later v w then v else w ])
head-insert_by v [] = refl
head-insert_by v (w ∷ t) = ground arith

newest-cons :
    (v : VersionInfo) (t : List VersionInfo)
    → newest (v ∷ t) ≡ some (elim (newest t) [ none ↦ v | some w ↦ if later v w then v else w ])
unfolding newest
newest-cons v t = head-insert_by v (order_by later t)

newest_ahead :
    (v : VersionInfo) (t : List VersionInfo)
    → ((w : VersionInfo) → newest t ≡ some w → w.version_timestamp ≤ v.version_timestamp)
    → newest (v ∷ t) ≡ some v
newest_ahead v t h = elim (Option-cases (newest t)) [
  | inl empty ↦ ground (arith, empty, newest-cons v t)
  | inr (w, top) ↦ ground (arith, top, h w top, newest-cons v t)
]

newest_behind :
    (v w : VersionInfo) (t : List VersionInfo)
    → newest t ≡ some w
    → v.version_timestamp < w.version_timestamp
    → newest (v ∷ t) ≡ some w
newest_behind v w t top h = ground (arith, top, h, newest-cons v t)

-- The versions after a change of one time.
abbrev moved : String → ℕ → List VersionInfo → List VersionInfo
moved name now t = update (is_version name) (λ v. record v { version_timestamp = now }) t

newest-moved_le :
    (name : String) (now : ℕ) (t : List VersionInfo) (v : VersionInfo)
    → All (λ w. w.version_timestamp < now) t
    → newest (moved name now t) ≡ some v
    → v.version_timestamp ≤ now
unfolding newest
newest-moved_le name now [] v h e = cc
newest-moved_le name now (x ∷ t) v h e =
    let x' : VersionInfo = if is_version name x then record x { version_timestamp = now } else x in
    elim (Option-cases (newest (moved name now t))) [
      | inl empty ↦ ground (arith, h.0, e, empty, newest-cons x' (moved name now t))
      | inr (w, top) ↦ ground (
        arith,
        h.0,
        e,
        top,
        newest-moved_le name now t w h.1 top,
        newest-cons x' (moved name now t),
      )
    ]

newest-moved :
    (name : String) (now : ℕ) (t : List VersionInfo)
    → is_some (first (is_version name) t) ≡ true
    → All (λ w. w.version_timestamp < now) t
    → (v : VersionInfo) × (newest (moved name now t) ≡ some v)
      × (same v.version_name name ≡ true)
      × (v.version_timestamp ≡ now)
newest-moved name now [] there h = absurd (ground (arith, there))
newest-moved name now (x ∷ t) there h = elim (Bool-cases (is_version name x)) [
  | inl here ↦
      let v : VersionInfo = record x { version_timestamp = now } in
      (
        v,
        rw here (newest_ahead v (moved name now t) λ w top. newest-moved_le name now t w h.1 top),
        here,
        refl,
      )
  | inr apart ↦
      let (v, top, its, at) = newest-moved name now t (ground (arith, apart, there)) h.1 in
      (v, rw apart (newest_behind x v (moved name now t) top (ground (arith, h.0, at))), its, at)
]

get_latest-newest :
    (t : List VersionInfo) (v : VersionInfo)
    → newest t ≡ some v
    → get_latest_application_version t ≡ ok v
unfolding newest get_latest_application_version
get_latest-newest t v h = of_head (order_by later t) h
  where
    of_head :
        (l : List VersionInfo)
        → head l ≡ some v
        → elim l as (λ l. Result VersionInfo) [ [] ↦ err no_application_versions | w ∷ ws ↦ ok w ]
          ≡ ok v
    of_head [] k = cc
    of_head (w ∷ ws) k = cc

-- A version that is registered, and whose time is set to one after every other, is the latest then.
pub get_latest_application_version-update_application_version_timestamp :
    (name : String) (now : ℕ) (t : List VersionInfo)
    → is_some (first (is_version name) t) ≡ true
    → All (λ w. w.version_timestamp < now) t
    → (v : VersionInfo) × (get_latest_application_version
          (update_application_version_timestamp name now t)
        ≡ ok v)
      × (same v.version_name name ≡ true)
      × (v.version_timestamp ≡ now)
unfolding update_application_version_timestamp
get_latest_application_version-update_application_version_timestamp name now t there h =
    let (v, top, its, at) = newest-moved name now t there h in
    (v, get_latest-newest (moved name now t) v top, its, at)
