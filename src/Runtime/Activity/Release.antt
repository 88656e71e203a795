-- ===== src/Runtime/Activity/Release.antt =====
-- A lease that was released is gone.
use lorelum.Prelude.{
  ℕ, ◌≡◌, refl, sym, ◌∙◌, ap, Bool, true, false, not, ◌&&◌, some, List, [], ◌∷◌, Text, any,
  any-keep, arith, inl, inr,
}
use lorelum.Runtime.Activity.{
  Format, RuntimeActivityRecord, HostTaskLease, ProcessIdentity, ok, err, is_lease, record_valid,
  required_activity_record, write_activity_record, renew_task_lease, release_task_lease,
  operation_expired,
}
use lorelum.Runtime.Activity.Activities.{required-valid}
use lorelum.Runtime.Activity.Requests.{required-cases}

any-none :
    (p : HostTaskLease → Bool) (ls : List HostTaskLease) → any (λ l. not (p l) && p l) ls ≡ false
unfolding any
any-none p [] = refl
any-none p (l ∷ ls) = ground (arith, any-none p ls)

-- What a release that succeeded wrote.
released :
    (z : Format) (r s : RuntimeActivityRecord) (lease : Text)
    → release_task_lease z (some r) r.instance_id lease ≡ ok s
    → (any (is_lease lease) s.leases ≡ false)
      × (s.instance_id ≡ r.instance_id)
      × (record_valid z s ≡ true)
      × (z.is_uuid lease ≡ true)
unfolding release_task_lease write_activity_record
released z r s lease e = elim (required-cases z r r.instance_id) [
  | inl c ↦
      let h = rw c at e in
      let gone =
        any-keep (λ l. not (is_lease lease l)) (is_lease lease) r.leases
        ∙ any-none (is_lease lease) r.leases in
      ground arith
  | inr (x, c) ↦ let h = rw c at e in ground arith
]

-- After `releaseTaskLease` succeeded, the lease can neither be released again nor renewed: both
-- answer `operation-expired`, at any time, by any owner and for any duration.
pub released_lease_stays_released :
    (z : Format) (r s : RuntimeActivityRecord) (lease : Text) (owner : ProcessIdentity)
    (ttl now v : ℕ)
    → release_task_lease z (some r) r.instance_id lease ≡ ok s
    → (release_task_lease z (some s) r.instance_id lease ≡ err operation_expired)
      × (renew_task_lease z (some s) r.instance_id lease owner ttl now v ≡ err operation_expired)
released_lease_stays_released z r s lease owner ttl now v e =
    let (gone, same, valid, uuid) = released z r s lease e in
    let again = subst-required same (required-valid z s valid) in
    (
      unfold release_task_lease in rw (uuid, again, gone) refl,
      unfold renew_task_lease in rw (uuid, again, gone) refl,
    )
  where
    subst-required :
        s.instance_id ≡ r.instance_id
        → required_activity_record z (some s) s.instance_id ≡ ok s
        → required_activity_record z (some s) r.instance_id ≡ ok s
    subst-required i h = ap (required_activity_record z (some s)) (sym i) ∙ h
