-- ===== src/Lifecycle/Notifications/Delivery.antt =====
-- The order of delivery, and what stays queued.
use mathlib.Core.List.{append-nil}
use lorelum.Prelude.{
  ℕ, zero, suc, ◌+◌, ◌-◌, ◌<◌, ◌≡◌, ◌⊎◌, refl, ap, ◌∙◌, Bool, Bool-cases, true, false, ◌&&◌, none,
  some, List, [], ◌∷◌, ◌++◌, ltb, leb, all, inl, inr, arith,
}
use lorelum.Lifecycle.Notifications.{
  Pending, Drained, Hook, enqueue_all, drain_revision_notifications,
}
use lorelum.Lifecycle.Notifications.Queue.{
  ascending, within, all-enqueue_all, ascending-enqueue_all, enqueue_all-first, enqueue_all-append,
  delete-first, all-append, all-imp,
}

-- The hook's own mutations, and those of others meanwhile, make later revisions than the one that is
-- delivered, and all of them are below `limit`: they end. None of them is a reindex.
abbrev pub EnqueuesLater : ℕ → Hook → Type 0
EnqueuesLater limit deliver =
    (p : Pending)
    → ((deliver p).supersedes ≡ false) × (within (p.revision + 1) limit (deliver p).enqueued ≡ true)

abbrev pub succeeds : Hook → Pending → Bool
succeeds deliver p = (deliver p).accepts && (deliver p).acknowledges

abbrev pub revisions : List Pending → List ℕ
revisions [] = []
revisions (p ∷ ps) = p.revision ∷ revisions ps

abbrev pub arrivals : Hook → List Pending → List Pending
arrivals deliver [] = []
arrivals deliver (p ∷ ps) = (deliver p).enqueued ++ arrivals deliver ps

-- How a drain ends that called the hook with the rows `called`, and succeeded on `delivered`.
abbrev pub Ends : Hook → List Pending → Drained → List Pending → List Pending → Type 0
Ends deliver rows d delivered called =
    (d.calls ≡ revisions called)
    × (ascending called ≡ true)
    × (all (succeeds deliver) delivered ≡ true)
    × (enqueue_all (arrivals deliver called) rows ≡ delivered ++ d.rows)
    × (((d.rows ≡ []) × (called ≡ delivered) × (d.pending ≡ none))
        ⊎ ((q : Pending) × (qs : List Pending) × (d.rows ≡ q ∷ qs)
            × (called ≡ delivered ++ q ∷ [])
            × (succeeds deliver q ≡ false)
            × (d.pending ≡ some q.revision)))

abbrev pub IsDelivery : Hook → List Pending → Drained → Type 0
IsDelivery deliver rows d =
    (delivered : List Pending) × (called : List Pending) × Ends deliver rows d delivered called

-- A drain of rows from `low` on, which calls the hook with no earlier one.
abbrev Delivers : ℕ → ℕ → Hook → List Pending → Type 0
Delivers low fuel deliver rows =
    (d : Drained) × (drain_revision_notifications fuel (some deliver) rows ≡ some d)
    × ((delivered : List Pending) × (called : List Pending) × (all (λ q. leb low q.revision) called
          ≡ true)
        × (all (λ q. leb low q.revision) (arrivals deliver called) ≡ true)
        × Ends deliver rows d delivered called)

from-within :
    (low limit other : ℕ) (rows : List Pending)
    → leb other low ≡ true
    → within low limit rows ≡ true
    → all (λ q. leb other q.revision) rows ≡ true
unfolding within
from-within low limit other rows order h =
    all-imp (λ q. leb low q.revision && ltb q.revision limit) (λ q. leb other q.revision) rows
      (λ q b. ground arith) h

after-within :
    (n limit : ℕ) (rows : List Pending)
    → within (n + 1) limit rows ≡ true
    → all (λ q. ltb n q.revision) rows ≡ true
unfolding within
after-within n limit rows h =
    all-imp (λ q. leb (n + 1) q.revision && ltb q.revision limit) (λ q. ltb n q.revision) rows
      (λ q b. ground arith) h

-- The rows after a round: still in order, later than the delivered one, below the limit.
next-within :
    (n limit low : ℕ) (rows : List Pending)
    → all (λ q. ltb n q.revision) rows ≡ true
    → within low limit rows ≡ true
    → within (n + 1) limit rows ≡ true
unfolding within all
next-within n limit low [] h k = refl
next-within n limit low (q ∷ qs) h k = ground (arith, next-within n limit low qs)

ascending-parts :
    (p : Pending) (ps : List Pending)
    → ascending (p ∷ ps) ≡ true
    → (all (λ q. ltb p.revision q.revision) ps ≡ true) × (ascending ps ≡ true)
unfolding ascending
ascending-parts p ps h = (ground arith, ground arith)

both : {a b : Bool} → a ≡ true → b ≡ true → (a && b) ≡ true
both h k = ground arith

from_low :
    (low n : ℕ) (rows : List Pending)
    → leb low n ≡ true
    → all (λ q. leb (n + 1) q.revision) rows ≡ true
    → all (λ q. leb low q.revision) rows ≡ true
from_low low n rows order h =
    all-imp (λ q. leb (n + 1) q.revision) (λ q. leb low q.revision) rows (λ q b. ground arith) h

above :
    (n : ℕ) (rows : List Pending)
    → all (λ q. leb (n + 1) q.revision) rows ≡ true
    → all (λ q. ltb n q.revision) rows ≡ true
above n rows h =
    all-imp (λ q. leb (n + 1) q.revision) (λ q. ltb n q.revision) rows (λ q b. ground arith) h

fails-Delivers :
    (low limit fuel : ℕ) (deliver : Hook) (p : Pending) (ps : List Pending)
    → EnqueuesLater limit deliver
    → within low limit (p ∷ ps) ≡ true
    → succeeds deliver p ≡ false
    → Delivers low (suc fuel) deliver (p ∷ ps)
unfolding drain_revision_notifications ascending all
fails-Delivers low limit fuel deliver p ps later bounds failing =
    let e = (deliver p).enqueued in
    let first : leb low p.revision ≡ true = unfold within in ground arith in
    let behind = after-within p.revision limit e (later p).1 in
    (
      record { rows = enqueue_all e (p ∷ ps); calls = p.revision ∷ []; pending = some p.revision },
      rw (failing, (later p).0) refl,
      (
        [],
        p ∷ [],
        ground arith,
        rw (append-nil e) (from-within (p.revision + 1) limit low e (ground arith) (later p).1),
        (
          refl,
          refl,
          refl,
          ap (λ z. enqueue_all z (p ∷ ps)) (append-nil e),
          inr (p, enqueue_all e ps, enqueue_all-first p e ps behind, refl, failing, refl),
        ),
      ),
    )

succeeds-Delivers :
    (low limit fuel : ℕ) (deliver : Hook) (p : Pending) (ps : List Pending)
    → EnqueuesLater limit deliver
    → within low limit (p ∷ ps) ≡ true
    → ascending (p ∷ ps) ≡ true
    → succeeds deliver p ≡ true
    → Delivers (p.revision + 1) fuel deliver (enqueue_all (deliver p).enqueued ps)
    → Delivers low (suc fuel) deliver (p ∷ ps)
unfolding drain_revision_notifications ascending all
succeeds-Delivers low limit fuel deliver p ps later bounds order done
      (d, runs, (delivered, called, high, arrived, (calls, sorted, sent, ledger, ends))) =
    let e = (deliver p).enqueued in
    let first : leb low p.revision ≡ true = unfold within in ground arith in
    let behind = after-within p.revision limit e (later p).1 in
    let next = delete-first p (enqueue_all e ps) (
      all-enqueue_all (λ q. ltb p.revision q.revision) e ps behind
        (ascending-parts p ps order).0) in
    (
      record { rows = d.rows; calls = p.revision ∷ d.calls; pending = d.pending },
      rw (done, (later p).0, enqueue_all-first p e ps behind, next, runs) refl,
      (
        p ∷ delivered,
        p ∷ called,
        both first (from_low low p.revision called (ground arith) high),
        all-append (λ q. leb low q.revision) e (arrivals deliver called)
            (from-within (p.revision + 1) limit low e (ground arith) (later p).1)
            (from_low low p.revision (arrivals deliver called) (ground arith) arrived),
        (
          ap (λ z. p.revision ∷ z) calls,
          both (above p.revision called high) sorted,
          both done sent,
          enqueue_all-append e (arrivals deliver called) (p ∷ ps)
              ∙ ap (enqueue_all (arrivals deliver called)) (enqueue_all-first p e ps behind)
              ∙ enqueue_all-first p (arrivals deliver called) (enqueue_all e ps)
                  (above p.revision (arrivals deliver called) arrived)
              ∙ ap (λ z. p ∷ z) ledger,
          elim ends [
            | inl (empty, same, silent) ↦ inl (empty, ap (λ z. p ∷ z) same, silent)
            | inr (q, qs, left, same, failed, told) ↦
                inr (q, qs, left, ap (λ z. p ∷ z) same, failed, told)
          ],
        ),
      ),
    )

-- Enough fuel: one round more than there are revisions from the first row's to the limit.
drain-Delivers :
    (low limit fuel : ℕ) (deliver : Hook) (rows : List Pending)
    → EnqueuesLater limit deliver
    → within low limit rows ≡ true
    → ascending rows ≡ true
    → limit - low < fuel
    → Delivers low fuel deliver rows
unfolding drain_revision_notifications ascending all enqueue_all
drain-Delivers low limit zero deliver rows later bounds order enough =
    let absurd : ⊥ = omega arith in elim absurd [ ]
drain-Delivers low limit (suc fuel) deliver [] later bounds order enough = (
  record { rows = []; calls = []; pending = none },
  refl,
  ([], [], refl, refl, (refl, refl, refl, refl, inl (refl, refl, refl))),
)
drain-Delivers low limit (suc fuel) deliver (p ∷ ps) later bounds order enough =
    elim (Bool-cases (succeeds deliver p)) [
      | inr failing ↦ fails-Delivers low limit fuel deliver p ps later bounds failing
      | inl done ↦
          let (behind, sorted) = ascending-parts p ps order in
          let e = (deliver p).enqueued in
          let rest = next-within p.revision limit low ps behind (unfold within in ground arith) in
          succeeds-Delivers low limit fuel deliver p ps later bounds order done (
            drain-Delivers (p.revision + 1) limit fuel deliver (enqueue_all e ps) later
              (unfold within in
                all-enqueue_all (λ q. leb (p.revision + 1) q.revision && ltb q.revision limit) e ps
                  (unfold within in (later p).1) (unfold within in rest))
              (ascending-enqueue_all e ps sorted) (unfold within in ground arith))
    ]

-- Rows are in the order of their revisions, below a limit. What the hook and others queue while it
-- runs on a row has later revisions than that row, and ones below the limit, and is no reindex.
-- Then the loop ends within as many rounds as the limit, and one more. The hook is called with
-- rows in ascending order, each at most once: those on which the call and the deletion succeed,
-- and, if one of the two fails, that row as the last. All rows that were there or were queued on
-- the way are the ones delivered, which are deleted, followed by the ones left. Either none is
-- left, none failed and none is reported; or the first one left is the one that failed, and its
-- revision is reported.
pub drain_revision_notifications_in_order :
    (limit : ℕ) (deliver : Hook) (rows : List Pending)
    → EnqueuesLater limit deliver
    → within 0 limit rows ≡ true
    → ascending rows ≡ true
    → (d : Drained) × (drain_revision_notifications (suc limit) (some deliver) rows ≡ some d)
      × IsDelivery deliver rows d
drain_revision_notifications_in_order limit deliver rows later bounds order =
    let (d, runs, (delivered, called, high, arrived, ends)) =
      drain-Delivers 0 limit (suc limit) deliver rows later bounds order (omega arith) in
    (d, runs, (delivered, called, ends))
