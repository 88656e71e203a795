-- ===== src/Runtime/Activity/Tests.antt =====
-- Runs of the record's operations, and its theorems at concrete records.
use lorelum.Prelude.{
  ℕ, ◌≡◌, ◌≢◌, ◌↔◌, refl, Bool, true, false, not, some, none, List, [], ◌∷◌, Text, units, text_eq,
  text_eq_iff, contains, contains-add, add, sort, text_lt, any, keep, length, if◌then◌else◌, ◌&&◌,
  leb, arith,
}
use lorelum.Runtime.Activity.{
  Format, RuntimeActivityRecord, ProcessIdentity, HostTaskLease, LeaseGrant, ok, err, busy,
  state_invalid, operation_expired, idle, active_long_task, unknown_activity, daemon_startup,
  handoff_stop, record_valid, new_set, next_activities, set_runtime_activity, grant_task_lease,
  renew_task_lease, release_task_lease, initialize_activity_record, assess_runtime_activity,
  assess_runtime_activity_v4, with_activities, with_leases, max_activity_record_bytes, is_empty,
}
use lorelum.Runtime.Activity.Activities.{set_runtime_activity_lem}
use lorelum.Runtime.Activity.Assessment.{assess_agree, live_at}
use lorelum.Runtime.Activity.Requests.{set_activity, grant, renew, release, handle_all, Request}
use lorelum.Runtime.Activity.Leases.{granted_lease_protects}
use lorelum.Runtime.Activity.Release.{released_lease_stays_released}

abbrev small_format : Format
small_format = record { is_uuid = λ s. not (is_empty s); byte_length = λ r. 300 }

abbrev host : ProcessIdentity
host = record { pid = 7; started_at = units "t0" }

abbrev lease_a : HostTaskLease
lease_a = record { lease_id = units "a"; owner = host; heartbeat_at = 0; expires_at = 3000 }

abbrev stopping : RuntimeActivityRecord
stopping = record {
  schema_version = 1;
  instance_id = units "i";
  activities = handoff_stop ∷ [];
  leases = [];
}

abbrev serving : RuntimeActivityRecord
serving = with_leases (with_activities stopping []) (lease_a ∷ [])

refused :
    set_runtime_activity small_format (some stopping) (units "i") daemon_startup true ≡ err busy
unfolding set_runtime_activity contains new_set add text_eq any record_valid lorelum.Prelude.all
    lorelum.Runtime.Activity.unique
refused = refl

set_runtime_activity_lem_example :
    (set_runtime_activity small_format (some stopping) (units "i") handoff_stop false
      ≡ ok (with_activities stopping (next_activities (handoff_stop ∷ []) handoff_stop false)))
    × ((k : Text)
        → contains k (next_activities (handoff_stop ∷ []) handoff_stop false)
          ≡ (if text_eq k handoff_stop then false else contains k (handoff_stop ∷ [])))
unfolding record_valid lorelum.Prelude.all contains text_eq lorelum.Runtime.Activity.unique new_set
    add
set_runtime_activity_lem_example =
    set_runtime_activity_lem small_format stopping handoff_stop false refl refl

assess_agree_example :
    (any (λ l. leb l.expires_at 5000) (lease_a ∷ []) ≡ false
      → assess_runtime_activity (some serving) (units "i") 5000
        ≡ assess_runtime_activity_v4 (some serving) (units "i") 5000)
    × (any (λ l. leb l.expires_at 5000) (lease_a ∷ []) ≡ true
        → units "i" ≡ units "i"
        → true ≡ true
        → (assess_runtime_activity (some serving) (units "i") 5000 ≡ unknown_activity)
          × (assess_runtime_activity_v4 (some serving) (units "i") 5000
              ≡ (if any (live_at 5000) (lease_a ∷ []) then active_long_task else idle)))
    × (assess_runtime_activity (some serving) (units "i") 5000 ≡ idle
        → assess_runtime_activity_v4 (some serving) (units "i") 5000 ≡ idle)
assess_agree_example = assess_agree serving (units "i") 5000

abbrev granted_record : RuntimeActivityRecord
granted_record = with_leases serving (
    lease_a
    ∷ record { lease_id = units "b"; owner = host; heartbeat_at = 1000; expires_at = 3500 }
    ∷ [])

abbrev later_requests : List Request
later_requests =
    release (units "a") ∷ grant (units "c") host 1000 1200 ∷ set_activity handoff_stop true ∷ []

granted_lease_protects_example :
    assess_runtime_activity_v4
      (some (handle_all small_format 4 granted_record later_requests))
      (units "i")
      3000
    ≢ idle
unfolding grant_task_lease record_valid lorelum.Prelude.all lorelum.Runtime.Activity.lease_valid
    lorelum.Runtime.Activity.process_identity_valid lorelum.Runtime.Activity.unique new_set add
    contains text_eq keep any lorelum.Runtime.Activity.Requests.spares
granted_lease_protects_example =
    granted_lease_protects small_format 4 serving granted_record (units "b") host 2500 1000 3000
      (record { lease_id = units "b"; expires_at = 3500 }) later_requests refl refl (omega arith)

released_lease_stays_released_example :
    (release_task_lease small_format (some (with_leases serving [])) (units "i") (units "a")
      ≡ err operation_expired)
    × (renew_task_lease small_format
          (some (with_leases serving []))
          (units "i")
          (units "a")
          host
          2000
          10
          4
        ≡ err operation_expired)
unfolding release_task_lease record_valid lorelum.Prelude.all lorelum.Runtime.Activity.lease_valid
    lorelum.Runtime.Activity.process_identity_valid lorelum.Runtime.Activity.unique new_set add
    contains text_eq any keep
released_lease_stays_released_example =
    released_lease_stays_released small_format serving (with_leases serving []) (units "a") host
      2000 10 4 refl
