-- ===== src/Runtime/Activity/Activities.antt =====
-- `setRuntimeActivity`: what it writes, and when it refuses.
use lorelum.Prelude.{
  ◌≤◌, ◌≡◌, refl, sym, ap, ◌∙◌, Bool, true, false, not, ◌&&◌, some, List, inl, inr, Bool-cases, leb,
  if◌then◌else◌, Text, text_eq, text_eq_iff, text_eq_refl, contains, all, length, arith,
}
use lorelum.Runtime.Activity.{
  Format, RuntimeActivityRecord, Outcome, ok, err, busy, state_invalid, ◌>>◌, refuse, record_valid,
  read_activity_record, of_instance, required_activity_record, write_activity_record,
  with_activities, next_activities, set_runtime_activity, activity_kinds, handoff_stop,
  max_activity_record_bytes,
}
use lorelum.Runtime.Activity.Sets.{
  unique-apart, unique-next_activities, contains-next_activities, contains-new_set, length-apart-le,
  all-contains, contains-all,
}

pub required-valid :
    (z : Format) (r : RuntimeActivityRecord)
    → record_valid z r ≡ true
    → required_activity_record z (some r) r.instance_id ≡ ok r
unfolding required_activity_record read_activity_record of_instance
required-valid z r v = rw v (rw (text_eq_refl r.instance_id) refl)

next_activities-known :
    (ks : List Text) (kind : Text) (active : Bool)
    → all (λ k. contains k activity_kinds) ks ≡ true
    → contains kind activity_kinds ≡ true
    → all (λ k. contains k activity_kinds) (next_activities ks kind active) ≡ true
next_activities-known ks kind active h c =
    contains-all (λ k. contains k activity_kinds) (next_activities ks kind active)
      (λ k m. elim (Bool-cases (text_eq k kind)) [
        | inl e ↦ ap (λ x. contains x activity_kinds) ((text_eq_iff k kind).0 e) ∙ c
        | inr n ↦
            all-contains (λ k. contains k activity_kinds) ks k h
              (sym (contains-next_activities k ks kind active ∙ rw n refl) ∙ m)
      ])

length-next_activities :
    (ks : List Text) (kind : Text) (active : Bool)
    → all (λ k. contains k activity_kinds) ks ≡ true
    → contains kind activity_kinds ≡ true
    → length (next_activities ks kind active) ≤ 4
length-next_activities ks kind active h c =
    length-apart-le (next_activities ks kind active) activity_kinds
      (sym (unique-apart (next_activities ks kind active)) ∙ unique-next_activities ks kind active)
      (next_activities-known ks kind active h c)

-- Only the size of the file can make the write of the next record fail.
written-next :
    (z : Format) (r : RuntimeActivityRecord) (kind : Text) (active : Bool)
    → record_valid z r ≡ true
    → contains kind activity_kinds ≡ true
    → record_valid z (with_activities r (next_activities r.activities kind active))
      ≡ leb
          (z.byte_length (with_activities r (next_activities r.activities kind active)))
          max_activity_record_bytes
unfolding record_valid
written-next z r kind active v c = ground (
  arith,
  unique-next_activities r.activities kind active,
  next_activities-known r.activities kind active,
  length-next_activities r.activities kind active,
)

-- On a valid record of this instance and a known kind, `setRuntimeActivity` answers `busy` exactly
-- when another activity than the hand-off is to start while a hand-off is in progress. Otherwise it
-- writes the record, unless its JSON is too large; and of the activities that it writes, the
-- one that was set is there exactly when it was set active, and every other as before.
pub set_runtime_activity_lem :
    (z : Format) (r : RuntimeActivityRecord) (kind : Text) (active : Bool)
    → record_valid z r ≡ true
    → contains kind activity_kinds ≡ true
    → (set_runtime_activity z (some r) r.instance_id kind active ≡ (
        if active && not (text_eq kind handoff_stop) && contains handoff_stop r.activities
        then err busy
        else if leb
            (z.byte_length (with_activities r (next_activities r.activities kind active)))
            max_activity_record_bytes
        then ok (with_activities r (next_activities r.activities kind active))
        else err state_invalid))
      × ((k : Text)
          → contains k (next_activities r.activities kind active)
            ≡ (if text_eq k kind then active else contains k r.activities))
unfolding set_runtime_activity write_activity_record
set_runtime_activity_lem z r kind active v c = (
  rw
      (
        required-valid z r v,
        contains-new_set handoff_stop r.activities,
        written-next z r kind active v c,
      )
      (joined (active && not (text_eq kind handoff_stop) && contains handoff_stop r.activities) (
        if leb (z.byte_length (with_activities r (next_activities r.activities kind active)))
          max_activity_record_bytes
        then ok (with_activities r (next_activities r.activities kind active))
        else err state_invalid)),
  λ k. contains-next_activities k r.activities kind active,
)
  where
    joined :
        (b : Bool) (o : Outcome RuntimeActivityRecord)
        → (refuse b busy >> o) ≡ (if b then err busy else o)
    joined true o = refl
    joined false o = refl
