-- ===== src/Runtime/Activity/Requests.antt =====
-- Requests against the stored record one after the other, and what they do to the leases that hold.
use lorelum.Prelude.{
  ℕ, ◌≡◌, ◌⊎◌, refl, ◌∙◌, Bool, true, false, not, ◌&&◌, some, List, [], ◌∷◌, leb, Text, text_eq,
  text_eq_iff, any, any-keep, keep, arith, inl, inr, Bool-cases,
}
use lorelum.Runtime.Activity.{
  Format, RuntimeActivityRecord, HostTaskLease, ProcessIdentity, Outcome, ok, err, BackendError,
  state_invalid, kept_at, renewed, renew_all, is_lease, record_valid, read_activity_record,
  of_instance, required_activity_record, set_runtime_activity, grant_task_lease, renew_task_lease,
  release_task_lease,
}
use lorelum.Runtime.Activity.Assessment.{live_at}

pub data Request : Type 0 where
  set_activity : Text → Bool → Request
  grant : Text → ProcessIdentity → ℕ → ℕ → Request
  renew : Text → ProcessIdentity → ℕ → ℕ → Request
  release : Text → Request

-- One request of this instance. A refused request leaves the file as it was.
abbrev pub stored {ℓ} :
    {A : Type ℓ}
    → (A → RuntimeActivityRecord)
    → RuntimeActivityRecord
    → Outcome A
    → RuntimeActivityRecord
stored f r (ok a) = f a
stored f r (err e) = r

unfoldable pub handle : Format → ℕ → RuntimeActivityRecord → Request → RuntimeActivityRecord
unfolding set_runtime_activity grant_task_lease renew_task_lease release_task_lease
handle z v r (set_activity kind active) =
    stored (λ n. n) r (set_runtime_activity z (some r) r.instance_id kind active)
handle z v r (grant lease owner ttl now) =
    stored (λ n. n.0) r (grant_task_lease z (some r) r.instance_id lease owner ttl now v)
handle z v r (renew lease owner ttl now) =
    stored (λ n. n.0) r (renew_task_lease z (some r) r.instance_id lease owner ttl now v)
handle z v r (release lease) = stored (λ n. n) r (release_task_lease z (some r) r.instance_id lease)

unfoldable pub handle_all :
    Format → ℕ → RuntimeActivityRecord → List Request → RuntimeActivityRecord
unfolding handle
handle_all z v r [] = r
handle_all z v r (q ∷ qs) = handle_all z v (handle z v r q) qs

-- The request neither releases nor renews this lease, and is made no later than `t`.
unfoldable pub spares : Text → ℕ → Request → Bool
spares lease t (set_activity kind active) = true
spares lease t (grant other owner ttl now) = leb now t
spares lease t (renew other owner ttl now) = not (text_eq other lease) && leb now t
spares lease t (release other) = not (text_eq other lease)

-- A lease of that name which is live at `t`.
abbrev pub holds : Text → ℕ → HostTaskLease → Bool
holds lease t l = is_lease lease l && live_at t l

pub any-renew_all :
    (p : HostTaskLease → Bool) (f : HostTaskLease → HostTaskLease)
    → ((l : HostTaskLease) → p l ≡ true → p (f l) ≡ true)
    → (ls : List HostTaskLease) → any p ls ≡ true
    → any p (renew_all f ls) ≡ true
unfolding any
any-renew_all p f h [] a = a
any-renew_all p f h (l ∷ ls) a = elim (Bool-cases (p l)) [
  | inl e ↦ let here = h l e in ground arith
  | inr n ↦ let rest = any-renew_all p f h ls (ground arith) in ground arith
]

pub any-imp :
    (p q : HostTaskLease → Bool)
    → ((l : HostTaskLease) → p l ≡ true → q l ≡ true)
    → (ls : List HostTaskLease) → any p ls ≡ true
    → any q ls ≡ true
unfolding any
any-imp p q h [] a = a
any-imp p q h (l ∷ ls) a = elim (Bool-cases (p l)) [
  | inl e ↦ let here = h l e in ground arith
  | inr n ↦ let rest = any-imp p q h ls (ground arith) in ground arith
]

-- Every lease that `p` keeps and that holds is still there.
pub any-holds-keep :
    (p : HostTaskLease → Bool) (lease : Text) (t : ℕ) (ls : List HostTaskLease)
    → ((l : HostTaskLease) → holds lease t l ≡ true → p l ≡ true)
    → any (holds lease t) ls ≡ true
    → any (holds lease t) (keep p ls) ≡ true
any-holds-keep p lease t ls h a =
    any-keep p (holds lease t) ls
    ∙ any-imp (holds lease t) (λ l. p l && holds lease t l) (λ l e. rw (h l e, e) refl) ls a

pub holds-kept :
    (v now t : ℕ) (lease : Text) (l : HostTaskLease)
    → leb now t ≡ true
    → holds lease t l ≡ true
    → kept_at v now l ≡ true
unfolding kept_at
holds-kept v now t lease l b h = ground arith

pub holds-renewed :
    (lease other : Text) (owner : ProcessIdentity) (now expires t : ℕ) (l : HostTaskLease)
    → text_eq other lease ≡ false
    → holds lease t l ≡ true
    → holds lease t (renewed other owner now expires l) ≡ true
holds-renewed lease other owner now expires t l n h =
    ground
      (arith, text_eq_iff l.lease_id other, text_eq_iff other lease, text_eq_iff l.lease_id lease)

-- A request that succeeds started from the stored record.
pub required-done :
    (z : Format) (r s : RuntimeActivityRecord) (id : Text)
    → required_activity_record z (some r) id ≡ ok s
    → r ≡ s
unfolding required_activity_record read_activity_record of_instance
required-done z r s id e = ground arith

pub required-cases :
    (z : Format) (r : RuntimeActivityRecord) (id : Text)
    → (required_activity_record z (some r) id ≡ ok r)
      ⊎ ((e : BackendError) × (required_activity_record z (some r) id ≡ err e))
unfolding required_activity_record read_activity_record of_instance
required-cases z r id = elim (Bool-cases (record_valid z r)) [
  | inl v ↦ elim (Bool-cases (text_eq r.instance_id id)) [
    | inl i ↦ inl (rw (v, i) refl)
    | inr i ↦ inr (state_invalid, rw (v, i) refl)
  ]
  | inr v ↦ inr (state_invalid, rw v refl)
]
