-- ===== src/Runtime/Activity.antt =====
-- packages/backend/src/runtime/activity-state.ts: the daemon's record of its activities and of the
-- task leases that hosts hold, and the assessment whether the daemon is idle.
-- The stored file is an `Option RuntimeActivityRecord`. An instant is its number of milliseconds,
-- which `toISOString` and `Date.parse` carry to the file and back. Parameters: the UUID format of
-- the schema library and the byte length of the record's JSON.
pub mod Sets
pub mod Activities
pub mod Requests
pub mod Leases
pub mod Release
pub mod Assessment
mod Tests
pub use lorelum.Prelude.{is_empty, ok, err, ◌>>=◌, ◌>>◌, refuse}
use lorelum.Prelude.{
  Fallible, ℕ, ◌+◌, ◌≤◌, ◌≡◌, refl, Bool, true, false, not, ◌&&◌, ◌||◌, Option, none, some, List,
  [], ◌∷◌, ◌++◌, map, ltb, leb, ◌==◌, if◌then◌else◌, Text, units, text_eq, text_lt, contains, add,
  keep, find, any, all, length, sort,
}
use lorelum.Lifecycle.Store.{max_safe_integer}

abbrev pub max_activity_record_bytes : ℕ
max_activity_record_bytes = 8192

abbrev pub daemon_startup : Text
daemon_startup = units "daemon-startup"

abbrev pub handoff_stop : Text
handoff_stop = units "handoff-stop"

abbrev pub activity_kinds : List Text
activity_kinds =
    daemon_startup ∷ units "model-preparation" ∷ units "index-operation" ∷ handoff_stop ∷ []

pub record ProcessIdentity : Type 0 where
  pub pid : ℕ
  pub started_at : Text

pub record HostTaskLease : Type 0 where
  pub lease_id : Text
  pub owner : ProcessIdentity
  pub heartbeat_at : ℕ
  pub expires_at : ℕ

pub record RuntimeActivityRecord : Type 0 where
  pub schema_version : ℕ
  pub instance_id : Text
  pub activities : List Text
  pub leases : List HostTaskLease

pub data RuntimeActivityAssessment : Type 0 where
  idle active_long_task unknown_activity : RuntimeActivityAssessment

pub record LeaseGrant : Type 0 where
  pub lease_id : Text
  pub expires_at : ℕ

pub data BackendError : Type 0 where
  state_invalid busy operation_expired invalid_request : BackendError

abbrev pub Outcome {ℓ} : Type ℓ → Type ℓ
Outcome A = Fallible BackendError A

-- What the schema library and `JSON.stringify` supply.
pub record Format : Type 0 where
  pub is_uuid : Text → Bool
  pub byte_length : RuntimeActivityRecord → ℕ

-- `new Set(xs)`, of which the code takes the size and the members.
unfoldable pub new_set : List Text → List Text
new_set [] = []
new_set (x ∷ xs) = add x (new_set xs)

-- `new Set(xs).size === xs.length`
unfoldable pub unique : List Text → Bool
unique xs = length (new_set xs) == length xs

unfoldable pub process_identity_valid : ProcessIdentity → Bool
process_identity_valid p =
    ltb 0 p.pid
    && leb p.pid max_safe_integer
    && leb 1 (length p.started_at)
    && leb (length p.started_at) 256

unfoldable pub lease_valid : Format → HostTaskLease → Bool
lease_valid z l = z.is_uuid l.lease_id && process_identity_valid l.owner

abbrev pub lease_ids : List HostTaskLease → List Text
lease_ids [] = []
lease_ids (l ∷ ls) = l.lease_id ∷ lease_ids ls

-- `runtimeActivityRecordSchema.safeParse(record).success`
unfoldable pub record_valid : Format → RuntimeActivityRecord → Bool
record_valid z r =
    (r.schema_version == 1 && z.is_uuid r.instance_id)
    && (all (λ k. contains k activity_kinds) r.activities && leb (length r.activities) 4)
    && (all (lease_valid z) r.leases && leb (length r.leases) 32)
    && (unique r.activities && unique (lease_ids r.leases))
    && leb (z.byte_length r) max_activity_record_bytes

unfoldable pub read_activity_record :
    Format → Option RuntimeActivityRecord → Outcome (Option RuntimeActivityRecord)
read_activity_record z none = ok none
read_activity_record z (some r) = if record_valid z r then ok (some r) else err state_invalid

-- The record that the file holds afterwards.
unfoldable pub write_activity_record :
    Format → RuntimeActivityRecord → Outcome RuntimeActivityRecord
write_activity_record z r = if record_valid z r then ok r else err state_invalid

unfoldable pub initialize_activity_record : Format → Text → Outcome RuntimeActivityRecord
unfolding write_activity_record
initialize_activity_record z id =
    write_activity_record z (record {
      schema_version = 1;
      instance_id = id;
      activities = daemon_startup ∷ [];
      leases = [];
    })

-- `if (current === undefined || current.instanceId !== instanceId) throw`
unfoldable pub of_instance : Text → Option RuntimeActivityRecord → Outcome RuntimeActivityRecord
of_instance id none = err state_invalid
of_instance id (some r) = if text_eq r.instance_id id then ok r else err state_invalid

unfoldable pub required_activity_record :
    Format → Option RuntimeActivityRecord → Text → Outcome RuntimeActivityRecord
unfolding read_activity_record of_instance
required_activity_record z file id = do
  let current = (← read_activity_record z file)
  of_instance id current

abbrev pub with_activities : RuntimeActivityRecord → List Text → RuntimeActivityRecord
with_activities r ks = record {
  schema_version = r.schema_version;
  instance_id = r.instance_id;
  activities = ks;
  leases = r.leases;
}

abbrev pub with_leases : RuntimeActivityRecord → List HostTaskLease → RuntimeActivityRecord
with_leases r ls = record {
  schema_version = r.schema_version;
  instance_id = r.instance_id;
  activities = r.activities;
  leases = ls;
}

-- The activities that `setRuntimeActivity` writes.
unfoldable pub next_activities : List Text → Text → Bool → List Text
next_activities ks kind active =
    sort text_lt
      (if active then add kind (new_set ks) else keep (λ k. not (text_eq k kind)) (new_set ks))

unfoldable pub set_runtime_activity :
    Format → Option RuntimeActivityRecord → Text → Text → Bool → Outcome RuntimeActivityRecord
unfolding required_activity_record write_activity_record next_activities
set_runtime_activity z file id kind active = do
  let current = (← required_activity_record z file id)
  refuse
      (active
        && not (text_eq kind handoff_stop)
        && contains handoff_stop (new_set current.activities))
      busy
  write_activity_record z (with_activities current (next_activities current.activities kind active))

-- The duration is a safe integer in 1 s .. 300 s.
unfoldable pub validate_lease_duration : ℕ → Outcome ℕ
validate_lease_duration ttl = if ltb ttl 1000 || ltb 300000 ttl then err invalid_request else ok ttl

-- `protocolVersion < 4 || Date.parse(lease.expiresAt) > now`
unfoldable pub kept_at : ℕ → ℕ → HostTaskLease → Bool
kept_at version now l = ltb version 4 || ltb now l.expires_at

-- `leaseId` is what `randomUUID()` gave.
unfoldable pub grant_task_lease :
    Format
    → Option RuntimeActivityRecord
    → (instance lease : Text) → ProcessIdentity
    → (ttl now version : ℕ) → Outcome (RuntimeActivityRecord × LeaseGrant)
unfolding required_activity_record validate_lease_duration kept_at write_activity_record
grant_task_lease z file id lease owner ttl now version = do
  let current = (← required_activity_record z file id)
  let duration = (← validate_lease_duration ttl)
  let next = with_leases current (
      keep (kept_at version now) current.leases
      ++ record { lease_id = lease; owner = owner; heartbeat_at = now; expires_at = now + duration }
        ∷ [])
  let written = (← write_activity_record z next)
  ok (written, record { lease_id = lease; expires_at = now + duration })

abbrev pub renewed : Text → ProcessIdentity → ℕ → ℕ → HostTaskLease → HostTaskLease
renewed lease owner now expires l =
    if text_eq l.lease_id lease
    then record { lease_id = l.lease_id; owner = owner; heartbeat_at = now; expires_at = expires }
    else l

abbrev pub renew_all : (HostTaskLease → HostTaskLease) → List HostTaskLease → List HostTaskLease
renew_all f [] = []
renew_all f (l ∷ ls) = f l ∷ renew_all f ls

abbrev pub is_lease : Text → HostTaskLease → Bool
is_lease lease l = text_eq l.lease_id lease

unfoldable pub renew_task_lease :
    Format
    → Option RuntimeActivityRecord
    → (instance lease : Text) → ProcessIdentity
    → (ttl now version : ℕ) → Outcome (RuntimeActivityRecord × LeaseGrant)
unfolding required_activity_record validate_lease_duration kept_at write_activity_record
renew_task_lease z file id lease owner ttl now version = do
  refuse (not (z.is_uuid lease)) invalid_request
  let current = (← required_activity_record z file id)
  refuse (not (any (is_lease lease) current.leases)) operation_expired
  let duration = (← validate_lease_duration ttl)
  let next = with_leases current (
      renew_all (renewed lease owner now (now + duration))
        (keep (λ l. kept_at version now l || is_lease lease l) current.leases))
  let written = (← write_activity_record z next)
  ok (written, record { lease_id = lease; expires_at = now + duration })

unfoldable pub release_task_lease :
    Format → Option RuntimeActivityRecord → (instance lease : Text) → Outcome RuntimeActivityRecord
unfolding required_activity_record write_activity_record
release_task_lease z file id lease = do
  refuse (not (z.is_uuid lease)) invalid_request
  let current = (← required_activity_record z file id)
  refuse (not (any (is_lease lease) current.leases)) operation_expired
  write_activity_record z (with_leases current (keep (λ l. not (is_lease lease l)) current.leases))

-- What is left of the file: another instance's record stays.
abbrev pub removed_if_own : Text → Option RuntimeActivityRecord → Option RuntimeActivityRecord
removed_if_own id none = none
removed_if_own id (some r) = if text_eq r.instance_id id then none else some r

unfoldable pub remove_activity_record :
    Format → Option RuntimeActivityRecord → Text → Outcome (Option RuntimeActivityRecord)
unfolding read_activity_record
remove_activity_record z file id = do
  let current = (← read_activity_record z file)
  ok (removed_if_own id current)

unfoldable pub assess_runtime_activity :
    Option RuntimeActivityRecord → Text → ℕ → RuntimeActivityAssessment
assess_runtime_activity none id now = unknown_activity
assess_runtime_activity (some r) id now =
    if not (text_eq r.instance_id id)
    then unknown_activity
    else if not (is_empty r.activities)
    then active_long_task
    else if any (λ l. leb l.expires_at now) r.leases
    then unknown_activity
    else if not (is_empty r.leases)
    then active_long_task
    else idle

unfoldable pub assess_runtime_activity_v4 :
    Option RuntimeActivityRecord → Text → ℕ → RuntimeActivityAssessment
assess_runtime_activity_v4 none id now = unknown_activity
assess_runtime_activity_v4 (some r) id now =
    if not (text_eq r.instance_id id)
    then unknown_activity
    else if not (is_empty r.activities)
    then active_long_task
    else if any (λ l. ltb now l.expires_at) r.leases
    then active_long_task
    else idle
