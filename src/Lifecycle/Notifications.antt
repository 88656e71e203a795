-- ===== src/Lifecycle/Notifications.antt =====
-- packages/engine/src/local-store/lifecycle/mutation.ts, `drainRevisionNotifications`, over the
-- outbox table of storage/sqlite/revision-outbox.ts. The table is its rows in the order of their
-- revisions, its key, in which they are read, anew in each round.
-- The hook is a parameter: whether it succeeds on a row, what is queued while it runs (by a mutation
-- that it starts itself or by another process, `writeRevisionRecords` of sqlite/state-writer.ts), and
-- whether the row can then be deleted. A read of the outbox that throws is not modelled.
pub mod Delivery
pub mod Queue
mod Tests
use lorelum.Prelude.{
  ℕ, zero, suc, Bool, true, false, not, ◌&&◌, Option, none, some, List, [], ◌∷◌, ltb, ◌==◌,
  if◌then◌else◌, keep,
}
use lorelum.LocalStore.Effective.{RevisionDelta}

pub record Pending : Type 0 where
  pub revision : ℕ
  pub delta : RevisionDelta

-- The rows left, the revisions that the hook was called with, in turn, and the one that is reported.
pub record Drained : Type 0 where
  pub rows : List Pending
  pub calls : List ℕ
  pub pending : Option ℕ

-- What comes of one call of the hook. A reindex supersedes the rows that are queued.
pub record Round : Type 0 where
  pub accepts : Bool
  pub supersedes : Bool
  pub enqueued : List Pending
  pub acknowledges : Bool

abbrev pub Hook : Type 0
Hook = Pending → Round

-- A row is inserted; where its revision is there already, its delta is put in its place.
unfoldable pub enqueue : Pending → List Pending → List Pending
enqueue p [] = p ∷ []
enqueue p (q ∷ qs) =
    let rest = enqueue p qs in
    if ltb p.revision q.revision
    then p ∷ q ∷ qs
    else if p.revision == q.revision
    then p ∷ qs
    else q ∷ rest

unfoldable pub enqueue_all : List Pending → List Pending → List Pending
unfolding enqueue
enqueue_all [] rows = rows
enqueue_all (p ∷ ps) rows = enqueue_all ps (enqueue p rows)

abbrev pub queued_in : Round → List Pending → List Pending
queued_in r rows = if r.supersedes then enqueue_all r.enqueued [] else enqueue_all r.enqueued rows

unfoldable pub delete_pending_revision_notification : ℕ → List Pending → List Pending
delete_pending_revision_notification revision rows = keep (λ p. not (p.revision == revision)) rows

abbrev pub after_call : ℕ → Option Drained → Option Drained
after_call revision none = none
after_call revision (some d) =
    some (record { rows = d.rows; calls = revision ∷ d.calls; pending = d.pending })

-- The loop, on fuel; `none` means that the fuel ran out. An error of the hook and one of the deletion
-- are caught alike.
unfoldable pub drain_revision_notifications : ℕ → Option Hook → List Pending → Option Drained
unfolding enqueue_all delete_pending_revision_notification
drain_revision_notifications zero hook rows = none
drain_revision_notifications (suc fuel) hook [] =
    some (record { rows = []; calls = []; pending = none })
drain_revision_notifications (suc fuel) none (p ∷ ps) =
    some (record { rows = p ∷ ps; calls = []; pending = some p.revision })
drain_revision_notifications (suc fuel) (some deliver) (p ∷ ps) =
    let queued = queued_in (deliver p) (p ∷ ps) in
    let rest =
      drain_revision_notifications fuel (some deliver)
        (delete_pending_revision_notification p.revision queued) in
    if (deliver p).accepts && (deliver p).acknowledges
    then after_call p.revision rest
    else some (record { rows = queued; calls = p.revision ∷ []; pending = some p.revision })
