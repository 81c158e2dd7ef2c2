-- ===== src/SysDb/Schedules/Applied.antt =====
-- What `applySchedules` makes of the schedule of one name, and that it may be repeated.
use dbos_transact_ts.Common.{
  String, true, false, Option, none, some, List, [], ◌∷◌, ◌≡◌, refl, arith, same_iff, same_refl,
  if◌then◌else◌, is_some, first, update, first-update_at, first-update_apart, first-append_other,
  first_sound, Option-cases, Bool-cases, inl, inr, ◌∙◌, ap, sym, All, All-imp,
}
use dbos_transact_ts.SysDb.Result.{ok, Result-cases}
use dbos_transact_ts.SysDb.Steps.Checkpoints.{first-append_new}
use dbos_transact_ts.SysDb.Schedules.{
  Schedule, has_schedule_name, get_schedule, redefined, upsert_schedule, apply_each,
  apply_schedules,
}

-- A declaration of a schedule that is there: all of it but the id, the status and the time it last fired.
abbrev pub with_state : Schedule → Schedule → Schedule
with_state s r = record s {
  schedule_id = r.schedule_id;
  status = r.status;
  last_fired_at = r.last_fired_at;
}

redefined_lem :
    (s r : Schedule) → has_schedule_name s.schedule_name r ≡ true → redefined s r ≡ with_state s r
redefined_lem s r named = let same_name = (same_iff r.schedule_name s.schedule_name).0 named in cc

-- What one declaration makes of the schedule of a name.
abbrev pub declared_one : String → Schedule → Option Schedule → Option Schedule
declared_one name s x =
    if has_schedule_name name s then some (elim x [ none ↦ s | some r ↦ with_state s r ]) else x

-- What the declarations make of it, one after the other.
unfoldable pub declared : String → List Schedule → Option Schedule → Option Schedule
declared name [] x = x
declared name (s ∷ ss) x = declared name ss (declared_one name s x)

upsert_schedule_here :
    (s : Schedule) (t t' : List Schedule)
    → upsert_schedule s t ≡ ok t'
    → get_schedule s.schedule_name t'
      ≡ some (elim (get_schedule s.schedule_name t) [ none ↦ s | some r ↦ with_state s r ])
unfolding upsert_schedule get_schedule
upsert_schedule_here s t t' h = elim (Option-cases (first (has_schedule_name s.schedule_name) t)) [
  | inl free ↦ ground (
    arith,
    h,
    free,
    same_refl s.schedule_name,
    first-append_new (has_schedule_name s.schedule_name) t s,
  )
  | inr (r, found) ↦ ground (
    arith,
    h,
    found,
    first_sound (has_schedule_name s.schedule_name) t r found,
    redefined_lem s r (first_sound (has_schedule_name s.schedule_name) t r found),
    first-update_at (has_schedule_name s.schedule_name) (has_schedule_name s.schedule_name)
        (redefined s) (λ x e. refl) t,
  )
]

upsert_schedule_found :
    (s : Schedule) (t t' : List Schedule)
    → upsert_schedule s t ≡ ok t'
    → (r : Schedule) × (get_schedule s.schedule_name t' ≡ some r)
upsert_schedule_found s t t' h = (_, upsert_schedule_here s t t' h)

upsert_schedule_elsewhere :
    (name : String) (s : Schedule) (t t' : List Schedule)
    → has_schedule_name name s ≡ false
    → upsert_schedule s t ≡ ok t'
    → get_schedule name t' ≡ get_schedule name t
unfolding upsert_schedule get_schedule
upsert_schedule_elsewhere name s t t' apart h = ground (
  arith,
  h,
  apart,
  first-append_other (has_schedule_name name) t s,
  first-update_apart (has_schedule_name name) (has_schedule_name s.schedule_name) (redefined s)
      (λ r here. (past r here, past r here)) t,
)
  where
    past :
        (r : Schedule)
        → has_schedule_name s.schedule_name r ≡ true
        → has_schedule_name name r ≡ false
    past r here = ground (arith, here, apart, same_iff r.schedule_name s.schedule_name)

upsert_schedule-get_schedule :
    (name : String) (s : Schedule) (t t' : List Schedule)
    → upsert_schedule s t ≡ ok t'
    → get_schedule name t' ≡ declared_one name s (get_schedule name t)
upsert_schedule-get_schedule name s t t' h = elim (Bool-cases (has_schedule_name name s)) [
  | inl here ↦
      let same_name : s.schedule_name ≡ name = (same_iff s.schedule_name name).0 here in
      rw here (rw (sym same_name) (upsert_schedule_here s t t' h))
  | inr apart ↦ ground (arith, apart, upsert_schedule_elsewhere name s t t' apart h)
]

apply_each-ok :
    (s : Schedule) (ss t t' : List Schedule)
    → apply_each (s ∷ ss) t ≡ ok t'
    → (t1 : List Schedule) × (upsert_schedule s t ≡ ok t1) × (apply_each ss t1 ≡ ok t')
unfolding apply_each
apply_each-ok s ss t t' h = elim (Result-cases (upsert_schedule s t)) [
  | inl (t1, done) ↦ (t1, done, ground (arith, h, done))
  | inr (e, failed) ↦ absurd (ground (arith, h, failed))
]

apply_each-get_schedule :
    (name : String) (ss t t' : List Schedule)
    → apply_each ss t ≡ ok t'
    → get_schedule name t' ≡ declared name ss (get_schedule name t)
unfolding apply_each declared
apply_each-get_schedule name [] t t' h = ground (arith, h)
apply_each-get_schedule name (s ∷ ss) t t' h =
    let (t1, done, rest) = apply_each-ok s ss t t' h in
    apply_each-get_schedule name ss t1 t' rest
    ∙ ap (declared name ss) (upsert_schedule-get_schedule name s t t1 done)

apply_schedules-ok :
    (ss t t' : List Schedule) → apply_schedules ss t ≡ (ok tt, t') → apply_each ss t ≡ ok t'
unfolding apply_schedules
apply_schedules-ok ss t t' h = elim (Result-cases (apply_each ss t)) [
  | inl (t1, done) ↦ ground (arith, h, done)
  | inr (e, failed) ↦ absurd (ground (arith, h, failed))
]

-- Where the declarations are applied without an error, the schedule of each name is then the one that
-- the declarations of that name make of it one after the other: the first of a new name is inserted
-- as it is, and each other is put in the place of the schedule but for its id, its status and the
-- time it last fired.
pub apply_schedules-get_schedule :
    (name : String) (ss t t' : List Schedule)
    → apply_schedules ss t ≡ (ok tt, t')
    → get_schedule name t' ≡ declared name ss (get_schedule name t)
apply_schedules-get_schedule name ss t t' h =
    apply_each-get_schedule name ss t t' (apply_schedules-ok ss t t' h)

-- Two rows of one state.
abbrev pub SameState : Schedule → Schedule → Type 0
SameState r r' =
    (r.schedule_id ≡ r'.schedule_id) × (r.status ≡ r'.status) × (r.last_fired_at ≡ r'.last_fired_at)

-- The declarations leave the id, the status and the time that a schedule last fired.
pub declared-SameState :
    (name : String) (ss : List Schedule) (r : Schedule)
    → (r' : Schedule) × (declared name ss (some r) ≡ some r') × SameState r r'
unfolding declared
declared-SameState name [] r = (r, refl, (refl, refl, refl))
declared-SameState name (s ∷ ss) r = elim (Bool-cases (has_schedule_name name s)) [
  | inl here ↦ rw here (declared-SameState name ss (with_state s r))
  | inr apart ↦ rw apart (declared-SameState name ss r)
]

-- A declaration of the name fixes the row but for its state.
declared_one_settles :
    (name : String) (s : Schedule) (x : Option Schedule)
    → has_schedule_name name s ≡ true
    → (r : Schedule) × (declared_one name s x ≡ some r)
      × ((r' : Schedule) → SameState r r' → with_state s r' ≡ r)
declared_one_settles name s none here = (s, rw here refl, λ r' h. cc)
declared_one_settles name s (some x) here = (with_state s x, rw here refl, λ r' h. cc)

declared_again :
    (name : String) (ss : List Schedule) (x : Option Schedule)
    → declared name ss (declared name ss x) ≡ declared name ss x
unfolding declared
declared_again name [] x = refl
declared_again name (s ∷ ss) x = elim (Bool-cases (has_schedule_name name s)) [
  | inl here ↦
      let (r, fixed, stable) = declared_one_settles name s x here in
      let (r', later, alike) = declared-SameState name ss r in
      rw (fixed, later, here, stable r' alike) later
  | inr apart ↦ rw apart (declared_again name ss x)
]

abbrev IsPresent : List Schedule → Schedule → Type 0
IsPresent t s = is_some (get_schedule s.schedule_name t) ≡ true

declared_one_present :
    (name : String) (s : Schedule) (x : Option Schedule)
    → is_some x ≡ true
    → is_some (declared_one name s x) ≡ true
declared_one_present name s x h = ground (arith, h)

upsert_schedule_present :
    (s : Schedule) (t : List Schedule)
    → IsPresent t s
    → (t' : List Schedule) × (upsert_schedule s t ≡ ok t')
unfolding upsert_schedule
upsert_schedule_present s t h =
    (update (has_schedule_name s.schedule_name) (redefined s) t, ground (arith, h))

apply_each_present :
    (ss t : List Schedule) → All (IsPresent t) ss → (t' : List Schedule) × (apply_each ss t ≡ ok t')
unfolding apply_each
apply_each_present [] t h = (t, refl)
apply_each_present (s ∷ ss) t h =
    let (t1, done) = upsert_schedule_present s t h.0 in
    let still =
      All-imp (IsPresent t) (IsPresent t1)
        (λ x there.
          rw (upsert_schedule-get_schedule x.schedule_name s t t1 done)
            (declared_one_present x.schedule_name s (get_schedule x.schedule_name t) there))
        ss h.1 in
    let (t', rest) = apply_each_present ss t1 still in (t', ground (arith, done, rest))

apply_each-IsPresent : (ss t t' : List Schedule) → apply_each ss t ≡ ok t' → All (IsPresent t') ss
apply_each-IsPresent [] t t' h = tt
apply_each-IsPresent (s ∷ ss) t t' h =
    let (t1, done, rest) = apply_each-ok s ss t t' h in
    let (r, found) = upsert_schedule_found s t t1 done in
    let (r', later, alike) = declared-SameState s.schedule_name ss r in
    (
      rw (apply_each-get_schedule s.schedule_name ss t1 t' rest, found, later) refl,
      apply_each-IsPresent ss t1 t' rest,
    )

-- Applying the same declarations again succeeds, and leaves the schedule of each name as it is.
pub apply_schedules_again :
    (ss t t' : List Schedule)
    → apply_schedules ss t ≡ (ok tt, t')
    → (t'' : List Schedule) × (apply_schedules ss t' ≡ (ok tt, t''))
      × ((name : String) → get_schedule name t'' ≡ get_schedule name t')
unfolding apply_schedules
apply_schedules_again ss t t' h =
    let once = apply_schedules-ok ss t t' h in
    let (t'', twice) = apply_each_present ss t' (apply_each-IsPresent ss t t' once) in
    (
      t'',
      ground (arith, twice),
      λ name.
          apply_each-get_schedule name ss t' t'' twice
          ∙ ap (declared name ss) (apply_each-get_schedule name ss t t' once)
          ∙ declared_again name ss (get_schedule name t)
          ∙ sym (apply_each-get_schedule name ss t t' once),
    )
