-- ===== src/SysDb/Dequeue/Order.antt =====
-- What a dequeue may start, in which order, and the row of a start, without reference to its code.
use mathlib.Core.Option
use dbos_transact_ts.Common.{
  ℕ, ◌<◌, ◌≤◌, leb, String, Bool, true, false, Option, none, some, List, [], ◌∷◌, ◌≡◌, refl, ap,
  sym, ◌+◌, not, is_some, ◌&&◌, ◌||◌, ◌↔◌, arith, same_iff, column_is, if◌then◌else◌, head,
  order_by, insert_by, inl, inr, ◌⊎◌,
}
use dbos_transact_ts.Queue.Params.{WorkflowQueue}
use dbos_transact_ts.SysDb.Schema.{Status, WorkflowStatus, pending, enqueued, status_eq}
use dbos_transact_ts.SysDb.Dequeue.{
  mark_started, start_deadline, Env, VersionInfo, latest_version, is_latest, in_partition,
  version_matches, startable, before,
}

-- A smaller priority first; of one priority, the earlier creation.
abbrev pub Precedes : WorkflowStatus → WorkflowStatus → Type 0
Precedes a b =
    (a.priority < b.priority) ⊎ ((a.priority ≡ b.priority) × (a.created_at ≤ b.created_at))

pub before-Precedes : (a b : WorkflowStatus) → before a b ≡ true → Precedes a b
before-Precedes a b h = grind arith

pub before_not-Precedes : (a b : WorkflowStatus) → before a b ≡ false → Precedes b a
before_not-Precedes a b h = grind arith

pub Precedes-trans : (a b c : WorkflowStatus) → Precedes a b → Precedes b c → Precedes a c
Precedes-trans a b c h k = grind arith

-- The version with the greatest time; of several, the first of the list.
abbrev pub newer_of : VersionInfo → Option VersionInfo → VersionInfo
newer_of v none = v
newer_of v (some w) = if leb w.version_timestamp v.version_timestamp then v else w

abbrev pub newest_of : List VersionInfo → Option VersionInfo
newest_of [] = none
newest_of (v ∷ versions) = some (newer_of v (newest_of versions))

abbrev pub IsNewest : Option VersionInfo → String → Type 0
IsNewest none app_version = Unit {0}
IsNewest (some v) app_version = v.version_name ≡ app_version

abbrev pub InPartition : Option String → Option String → Type 0
InPartition none key = Unit {0}
InPartition (some k) key = key ≡ some k

-- An enqueued workflow of the queue and the partition, of the worker's version or, where the worker
-- has the newest version, of none.
abbrev pub MayStart : WorkflowQueue → Option String → Env → WorkflowStatus → Type 0
MayStart q p env r =
    (r.status ≡ enqueued)
    × (r.queue_name ≡ some q.name)
    × InPartition p r.queue_partition_key
    × ((r.application_version ≡ some env.app_version)
        ⊎ ((r.application_version ≡ none) × IsNewest (newest_of env.versions) env.app_version))

abbrev later : VersionInfo → VersionInfo → Bool
later a b = leb b.version_timestamp a.version_timestamp

head-insert_by :
    (v : VersionInfo) (t : List VersionInfo)
    → head (insert_by later v t) ≡ some (newer_of v (head t))
head-insert_by v [] = refl
head-insert_by v (w ∷ t) = ground arith

head-newest_of : (t : List VersionInfo) → head (order_by later t) ≡ newest_of t
head-newest_of [] = refl
head-newest_of (v ∷ t) = rw (sym (head-newest_of t)) (head-insert_by v (order_by later t))

latest_version-newest_of :
    (t : List VersionInfo) → latest_version t ≡ Option.map (λ v. v.version_name) (newest_of t)
unfolding latest_version
latest_version-newest_of t = rw (sym (head-newest_of t)) (of_head (order_by later t))
  where
    of_head :
        (l : List VersionInfo)
        → elim l as (λ l. Option String) [ [] ↦ none | v ∷ rest ↦ some v.version_name ]
          ≡ Option.map (λ v. v.version_name) (head l)
    of_head [] = refl
    of_head (v ∷ rest) = refl

pub column_is_iff : (o : Option String) (k : String) → (column_is o k ≡ true) ↔ (o ≡ some k)
column_is_iff none k = (λ h. cc, λ h. cc)
column_is_iff (some o) k = ground (arith, same_iff o k)

status_eq-enqueued : (s : Status) → status_eq s enqueued ≡ true → s ≡ enqueued
status_eq-enqueued s h = ground arith

pub in_partition_iff :
    (p : Option String) (r : WorkflowStatus)
    → (in_partition p r ≡ true) ↔ InPartition p r.queue_partition_key
in_partition_iff none r = (λ _. tt, λ _. refl)
in_partition_iff (some k) r = column_is_iff r.queue_partition_key k

is_latest_iff :
    (versions : List VersionInfo) (app_version : String)
    → (is_latest (latest_version versions) app_version ≡ true)
      ↔ IsNewest (newest_of versions) app_version
is_latest_iff versions app_version =
    rw (latest_version-newest_of versions) (newest_iff (newest_of versions))
  where
    newest_iff :
        (v : Option VersionInfo)
        → (is_latest (Option.map (λ v. v.version_name) v) app_version ≡ true)
          ↔ IsNewest v app_version
    newest_iff none = (λ _. tt, λ _. refl)
    newest_iff (some v) = same_iff v.version_name app_version

absent_iff : (o : Option String) → (not (is_some o) ≡ true) ↔ (o ≡ none)
absent_iff none = (λ _. refl, λ _. refl)
absent_iff (some k) = (λ h. cc, λ h. cc)

or_iff : {A B : Type 0} (a b : Bool) → (a ≡ true) ↔ A → (b ≡ true) ↔ B → (a || b ≡ true) ↔ (A ⊎ B)
or_iff true b f g = (λ h. inl (f.0 h), λ _. refl)
or_iff false b f g =
    (λ h. inr (g.0 h), λ s. elim s [ inl x ↦ absurd (ground (arith, f.1 x)) | inr y ↦ g.1 y ])

pub and_iff :
    {A B : Type 0} (a b : Bool) → (a ≡ true) ↔ A → (b ≡ true) ↔ B → (a && b ≡ true) ↔ (A × B)
and_iff true b f g = (λ h. (f.0 refl, g.0 h), λ k. g.1 k.1)
and_iff false b f g = (λ h. cc, λ k. f.1 k.0)

version_matches_iff :
    (env : Env) (r : WorkflowStatus)
    → (version_matches env r ≡ true) ↔ (
        (r.application_version ≡ some env.app_version)
        ⊎ ((r.application_version ≡ none) × IsNewest (newest_of env.versions) env.app_version))
version_matches_iff env r = or_iff _ _ (column_is_iff r.application_version env.app_version) (
    swap_iff
      (and_iff _ _ (is_latest_iff env.versions env.app_version) (absent_iff r.application_version)))
  where
    swap_iff : {P A B : Type 0} → P ↔ (A × B) → P ↔ (B × A)
    swap_iff h = (λ x. let (a, b) = h.0 x in (b, a), λ (b, a). h.1 (a, b))

status_iff : (s : Status) → (status_eq s enqueued ≡ true) ↔ (s ≡ enqueued)
status_iff s = (status_eq-enqueued s, λ e. rw e refl)

-- `startable` is `MayStart`.
pub startable_iff :
    (q : WorkflowQueue) (p : Option String) (env : Env) (r : WorkflowStatus)
    → (startable q p env r ≡ true) ↔ MayStart q p env r
startable_iff q p env r =
    let whole =
      and_iff _ _
        (and_iff _ _ (status_iff r.status)
          (and_iff _ _ (column_is_iff r.queue_name q.name) (in_partition_iff p r)))
        (version_matches_iff env r) in
    (
      λ h. let ((s, (n, k)), v) = whole.0 h in (s, n, k, v),
      λ (s, n, k, v). whole.1 ((s, (n, k)), v),
    )

-- A started row; its own deadline stays, and else it is its timeout after now.
abbrev pub deadline_of : ℕ → Option ℕ → Option ℕ → Option ℕ
deadline_of now timeout (some deadline) = some deadline
deadline_of now timeout none = Option.map (λ ms. now + ms) timeout

abbrev pub started : WorkflowQueue → Env → WorkflowStatus → WorkflowStatus
started q env r = record r {
  status = pending;
  executor_id = some env.executor_id;
  application_version = some env.app_version;
  started_at_epoch_ms = some env.start_time_ms;
  rate_limited = is_some q.rate_limit;
  workflow_deadline_epoch_ms =
      deadline_of env.now r.workflow_timeout_ms r.workflow_deadline_epoch_ms;
}

pub mark_started-started :
    (q : WorkflowQueue) (env : Env) (r : WorkflowStatus) → mark_started q env r ≡ started q env r
unfolding mark_started
mark_started-started q env r =
    ap (λ d. record (started q env r) { workflow_deadline_epoch_ms = d })
      (same_deadline r.workflow_timeout_ms r.workflow_deadline_epoch_ms)
  where
    same_deadline :
        (timeout deadline : Option ℕ)
        → start_deadline env.now timeout deadline ≡ deadline_of env.now timeout deadline
    same_deadline none none = refl
    same_deadline none (some d) = refl
    same_deadline (some ms) none = refl
    same_deadline (some ms) (some d) = refl
