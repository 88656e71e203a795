-- ===== src/Lifecycle/Notifications/Queue.antt =====
-- The outbox of Notifications as rows come and go.
use lorelum.Prelude.{
  ℕ, ◌≡◌, refl, Bool, Bool-cases, true, false, not, ◌&&◌, List, [], ◌∷◌, ◌++◌, ◌==◌, ltb, leb, keep,
  all, inl, inr, arith,
}
use lorelum.Lifecycle.Notifications.{
  Pending, enqueue, enqueue_all, delete_pending_revision_notification,
}

-- Each revision is before the later ones.
unfoldable pub ascending : List Pending → Bool
ascending [] = true
ascending (p ∷ ps) = all (λ q. ltb p.revision q.revision) ps && ascending ps

-- The rows stand within `low ≤ revision < limit`.
unfoldable pub within : ℕ → ℕ → List Pending → Bool
within low limit rows = all (λ q. leb low q.revision && ltb q.revision limit) rows

all-enqueue :
    (f : Pending → Bool) (p : Pending) (rows : List Pending)
    → f p ≡ true
    → all f rows ≡ true
    → all f (enqueue p rows) ≡ true
unfolding all enqueue
all-enqueue f p [] h k = ground arith
all-enqueue f p (q ∷ qs) h k = ground (arith, all-enqueue f p qs)

pub all-enqueue_all :
    (f : Pending → Bool) (ps rows : List Pending)
    → all f ps ≡ true
    → all f rows ≡ true
    → all f (enqueue_all ps rows) ≡ true
unfolding all enqueue_all
all-enqueue_all f [] rows h k = k
all-enqueue_all f (p ∷ ps) rows h k =
    let first : f p ≡ true = ground arith in
    let others : all f ps ≡ true = ground arith in
    all-enqueue_all f ps (enqueue p rows) others (all-enqueue f p rows first k)

pub ascending-enqueue :
    (p : Pending) (rows : List Pending) → ascending rows ≡ true → ascending (enqueue p rows) ≡ true
unfolding ascending all enqueue
ascending-enqueue p [] h = refl
ascending-enqueue p (q ∷ qs) h = elim (Bool-cases (ltb p.revision q.revision)) [
  | inl before ↦ rw before (ground (arith, all_later p q qs))
  | inr behind ↦
      rw behind
        (ground (arith, ascending-enqueue p qs, all-enqueue (λ r. ltb q.revision r.revision) p qs))
]
  where
    all_later :
        (p q : Pending) (qs : List Pending)
        → ltb p.revision q.revision ≡ true
        → all (λ r. ltb q.revision r.revision) qs ≡ true
        → all (λ r. ltb p.revision r.revision) qs ≡ true
    all_later p q [] h k = refl
    all_later p q (r ∷ rs) h k = ground (arith, all_later p q rs)

pub ascending-enqueue_all :
    (ps rows : List Pending) → ascending rows ≡ true → ascending (enqueue_all ps rows) ≡ true
unfolding enqueue_all
ascending-enqueue_all [] rows h = h
ascending-enqueue_all (p ∷ ps) rows h =
    ascending-enqueue_all ps (enqueue p rows) (ascending-enqueue p rows h)

-- Rows that are later than the first one leave it where it stands.
pub enqueue_all-first :
    (p : Pending) (ps rows : List Pending)
    → all (λ q. ltb p.revision q.revision) ps ≡ true
    → enqueue_all ps (p ∷ rows) ≡ p ∷ enqueue_all ps rows
unfolding enqueue_all enqueue all
enqueue_all-first p [] rows h = refl
enqueue_all-first p (q ∷ qs) rows h =
    let behind : ltb q.revision p.revision ≡ false = ground arith in
    let other : (q.revision == p.revision) ≡ false = ground arith in
    rw (behind, other) (enqueue_all-first p qs (enqueue q rows) (ground arith))

pub enqueue_all-append :
    (ps qs rows : List Pending) → enqueue_all (ps ++ qs) rows ≡ enqueue_all qs (enqueue_all ps rows)
unfolding enqueue_all
enqueue_all-append [] qs rows = refl
enqueue_all-append (p ∷ ps) qs rows = enqueue_all-append ps qs (enqueue p rows)

keep-later :
    (n : ℕ) (ps : List Pending)
    → all (λ q. ltb n q.revision) ps ≡ true
    → keep (λ q. not (q.revision == n)) ps ≡ ps
unfolding keep all
keep-later n [] h = refl
keep-later n (q ∷ qs) h = ground (arith, keep-later n qs)

pub delete-first :
    (p : Pending) (ps : List Pending)
    → all (λ q. ltb p.revision q.revision) ps ≡ true
    → delete_pending_revision_notification p.revision (p ∷ ps) ≡ ps
unfolding delete_pending_revision_notification
delete-first p ps h = unfold keep in ground (arith, keep-later p.revision ps)

pub all-append :
    (f : Pending → Bool) (ps qs : List Pending)
    → all f ps ≡ true
    → all f qs ≡ true
    → all f (ps ++ qs) ≡ true
unfolding all
all-append f [] qs h k = k
all-append f (p ∷ ps) qs h k = ground (arith, all-append f ps qs)

pub all-imp :
    (f g : Pending → Bool) (ps : List Pending)
    → ((p : Pending) → f p ≡ true → g p ≡ true)
    → all f ps ≡ true
    → all g ps ≡ true
unfolding all
all-imp f g [] step h = refl
all-imp f g (p ∷ ps) step h = ground (arith, step p, all-imp f g ps step)
