-- ===== src/Runtime/Activity/Assessment.antt =====
-- The two assessments of the daemon's record, and how they differ.
use lorelum.Prelude.{
  ℕ, ◌≡◌, ◌↔◌, refl, Bool, true, false, not, some, List, [], ◌∷◌, leb, ltb, if◌then◌else◌, Text,
  text_eq_iff, any, arith,
}
use lorelum.Runtime.Activity.{
  RuntimeActivityRecord, HostTaskLease, idle, active_long_task, unknown_activity,
  assess_runtime_activity, assess_runtime_activity_v4, is_empty,
}

abbrev pub live_at : ℕ → HostTaskLease → Bool
live_at now l = ltb now l.expires_at

abbrev pub expired_at : ℕ → HostTaskLease → Bool
expired_at now l = leb l.expires_at now

any-live :
    (now : ℕ) (ls : List HostTaskLease)
    → any (live_at now) ls ≡ false
    → any (expired_at now) ls ≡ not (is_empty ls)
unfolding any
any-live now [] h = refl
any-live now (l ∷ ls) h = ground (arith, any-live now ls)

any-expired :
    (now : ℕ) (ls : List HostTaskLease)
    → any (expired_at now) ls ≡ false
    → any (live_at now) ls ≡ not (is_empty ls)
unfolding any
any-expired now [] h = refl
any-expired now (l ∷ ls) h = ground (arith, any-expired now ls)

-- The version-4 assessment is `idle` exactly when the record is of this instance, names no
-- activity, and has no lease that expires after `now`.
pub assess_v4_idle :
    (r : RuntimeActivityRecord) (instance : Text) (now : ℕ)
    → (assess_runtime_activity_v4 (some r) instance now ≡ idle) ↔ (
        (r.instance_id ≡ instance)
        × (is_empty r.activities ≡ true)
        × (any (live_at now) r.leases ≡ false))
unfolding assess_runtime_activity_v4
assess_v4_idle r instance now = ground (arith, text_eq_iff r.instance_id instance)

-- The two assessments agree while no lease has expired; where one has and the record of this
-- instance names no activity, the old assessment is `unknown` and the version-4 assessment still
-- decides between `active` and `idle` by the leases that are live. An old `idle` is an `idle` of version 4.
pub assess_agree :
    (r : RuntimeActivityRecord) (instance : Text) (now : ℕ)
    → (any (expired_at now) r.leases ≡ false
        → assess_runtime_activity (some r) instance now
          ≡ assess_runtime_activity_v4 (some r) instance now)
      × (any (expired_at now) r.leases ≡ true
          → r.instance_id ≡ instance
          → is_empty r.activities ≡ true
          → (assess_runtime_activity (some r) instance now ≡ unknown_activity)
            × (assess_runtime_activity_v4 (some r) instance now
                ≡ (if any (live_at now) r.leases then active_long_task else idle)))
      × (assess_runtime_activity (some r) instance now ≡ idle
          → assess_runtime_activity_v4 (some r) instance now ≡ idle)
unfolding assess_runtime_activity assess_runtime_activity_v4
assess_agree r instance now = (
  λ e. ground (arith, any-expired now r.leases),
  λ x i e. ground (arith, text_eq_iff r.instance_id instance),
  λ i. ground (arith, any-expired now r.leases, any-live now r.leases),
)
