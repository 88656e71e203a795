-- ===== src/Runtime/Activity/Leases.antt =====
-- Runs of requests against the stored record, and the protection that a granted lease gives.
use lorelum.Prelude.{
  ℕ, ◌+◌, ◌<◌, ◌≡◌, ◌≢◌, refl, ◌∙◌, true, false, not, ◌||◌, some, List, [], ◌∷◌, Text, text_eq_iff,
  text_eq_refl, any, any-append, keep, arith, inl, inr,
}
use lorelum.Runtime.Activity.{
  Format, RuntimeActivityRecord, HostTaskLease, ProcessIdentity, ok, LeaseGrant, kept_at, renewed,
  is_lease, write_activity_record, set_runtime_activity, grant_task_lease, renew_task_lease,
  release_task_lease, validate_lease_duration, assess_runtime_activity_v4, idle,
}
use lorelum.Runtime.Activity.Assessment.{live_at, assess_v4_idle}
use lorelum.Runtime.Activity.Requests.{
  Request, set_activity, grant, renew, release, handle, handle_all, spares, holds, any-renew_all,
  any-imp, any-holds-keep, holds-kept, holds-renewed, required-cases,
}

-- One request that spares a lease keeps it.
handle-holds :
    (z : Format) (v : ℕ) (r : RuntimeActivityRecord) (lease : Text) (t : ℕ) (q : Request)
    → spares lease t q ≡ true
    → any (holds lease t) r.leases ≡ true
    → any (holds lease t) (handle z v r q).leases ≡ true
unfolding handle spares set_runtime_activity grant_task_lease renew_task_lease release_task_lease
    write_activity_record validate_lease_duration
handle-holds z v r lease t (set_activity kind active) s h =
    elim (required-cases z r r.instance_id) [ inl e ↦ rw e (ground arith) | inr (x, e) ↦ rw e h ]
handle-holds z v r lease t (grant other owner ttl now) s h =
    elim (required-cases z r r.instance_id) [
      | inl e ↦
          let kept =
            any-holds-keep (kept_at v now) lease t r.leases (λ l. holds-kept v now t lease l s) h in
          rw e (
            ground (
              arith,
              any-append (holds lease t) (keep (kept_at v now) r.leases) (
                  record {
                    lease_id = other;
                    owner = owner;
                    heartbeat_at = now;
                    expires_at = now + ttl;
                  }
                  ∷ []),
            ))
      | inr (x, e) ↦ rw e h
    ]
handle-holds z v r lease t (renew other owner ttl now) s h =
    elim (required-cases z r r.instance_id) [
      | inl e ↦
          let keeping = λ (l : HostTaskLease). kept_at v now l || is_lease other l in
          let kept =
            any-holds-keep keeping lease t r.leases
              (λ l a. let b = holds-kept v now t lease l (ground arith) a in ground arith) h in
          let moved =
            any-renew_all (holds lease t) (renewed other owner now (now + ttl))
              (λ l. holds-renewed lease other owner now (now + ttl) t l (ground arith))
              (keep keeping r.leases) kept in
          rw e (ground arith)
      | inr (x, e) ↦ rw e (ground arith)
    ]
handle-holds z v r lease t (release other) s h = elim (required-cases z r r.instance_id) [
  | inl e ↦
      let kept =
        any-holds-keep (λ l. not (is_lease other l)) lease t r.leases
          (λ l a. ground (
            arith,
            text_eq_iff l.lease_id other,
            text_eq_iff other lease,
            text_eq_iff l.lease_id lease,
          ))
          h in
      rw e (ground arith)
  | inr (x, e) ↦ rw e (ground arith)
]

handle-instance :
    (z : Format) (v : ℕ) (r : RuntimeActivityRecord) (q : Request)
    → (handle z v r q).instance_id ≡ r.instance_id
unfolding handle set_runtime_activity grant_task_lease renew_task_lease release_task_lease
    write_activity_record validate_lease_duration
handle-instance z v r (set_activity kind active) = elim (required-cases z r r.instance_id) [
  | inl e ↦ rw e (ground arith)
  | inr (x, e) ↦ rw e refl
]
handle-instance z v r (grant other owner ttl now) = elim (required-cases z r r.instance_id) [
  | inl e ↦ rw e (ground arith)
  | inr (x, e) ↦ rw e refl
]
handle-instance z v r (renew other owner ttl now) = elim (required-cases z r r.instance_id) [
  | inl e ↦ rw e (ground arith)
  | inr (x, e) ↦ rw e (ground arith)
]
handle-instance z v r (release other) = elim (required-cases z r r.instance_id) [
  | inl e ↦ rw e (ground arith)
  | inr (x, e) ↦ rw e (ground arith)
]

handle_all-holds :
    (z : Format) (v : ℕ) (r : RuntimeActivityRecord) (lease : Text) (t : ℕ) (qs : List Request)
    → any (λ q. not (spares lease t q)) qs ≡ false
    → any (holds lease t) r.leases ≡ true
    → any (holds lease t) (handle_all z v r qs).leases ≡ true
unfolding handle_all any
handle_all-holds z v r lease t [] s h = h
handle_all-holds z v r lease t (q ∷ qs) s h =
    handle_all-holds z v (handle z v r q) lease t qs (ground arith)
      (handle-holds z v r lease t q (ground arith) h)

granted-holds :
    (z : Format) (v : ℕ) (r s : RuntimeActivityRecord) (lease : Text) (owner : ProcessIdentity)
    (ttl now t : ℕ) (g : LeaseGrant)
    → grant_task_lease z (some r) r.instance_id lease owner ttl now v ≡ ok (s, g)
    → t < g.expires_at
    → any (holds lease t) s.leases ≡ true
unfolding grant_task_lease write_activity_record validate_lease_duration any
granted-holds z v r s lease owner ttl now t g e before = elim (required-cases z r r.instance_id) [
  | inl c ↦
      let h = rw c at e in
      ground (
        arith,
        text_eq_refl lease,
        any-append (holds lease t) (keep (kept_at v now) r.leases) (
            record { lease_id = lease; owner = owner; heartbeat_at = now; expires_at = now + ttl }
            ∷ []),
      )
  | inr (x, c) ↦ let h = rw c at e in ground arith
]

handle_all-instance :
    (z : Format) (v : ℕ) (r : RuntimeActivityRecord) (qs : List Request)
    → (handle_all z v r qs).instance_id ≡ r.instance_id
unfolding handle_all
handle_all-instance z v r [] = refl
handle_all-instance z v r (q ∷ qs) =
    handle_all-instance z v (handle z v r q) qs ∙ handle-instance z v r q

-- After `grantTaskLease` succeeded, and any series of requests of that instance made no later than
-- `t`, in any order, refused or not, that neither release nor renew the lease: the version-4
-- assessment at `t` is not `idle` while `t` is before the granted expiry.
pub granted_lease_protects :
    (z : Format) (v : ℕ) (r s : RuntimeActivityRecord) (lease : Text) (owner : ProcessIdentity)
    (ttl now t : ℕ) (g : LeaseGrant) (qs : List Request)
    → grant_task_lease z (some r) r.instance_id lease owner ttl now v ≡ ok (s, g)
    → any (λ q. not (spares lease t q)) qs ≡ false
    → t < g.expires_at
    → assess_runtime_activity_v4 (some (handle_all z v s qs)) r.instance_id t ≢ idle
granted_lease_protects z v r s lease owner ttl now t g qs e quiet before is_idle =
    let held =
      handle_all-holds z v s lease t qs quiet
        (granted-holds z v r s lease owner ttl now t g e before) in
    let (i, rest, none_live) = (assess_v4_idle (handle_all z v s qs) r.instance_id t).0 is_idle in
    let live =
      any-imp (holds lease t) (live_at t) (λ l h. ground arith) (handle_all z v s qs).leases held in
    ground arith
