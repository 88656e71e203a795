-- ===== src/Lifecycle/Notifications/Tests.antt =====
-- Drains in which the hook queues a row, fails, or has its row not deleted.
use lorelum.Prelude.{
  ℕ, suc, ◌+◌, ◌≡◌, refl, Bool, Bool-cases, true, false, not, Option, none, some, List, [], ◌∷◌,
  ◌==◌, if◌then◌else◌, inl, inr, arith,
}
use lorelum.Lifecycle.Notifications.{Pending, Drained, Round, Hook, drain_revision_notifications}
use lorelum.Lifecycle.Notifications.Queue.{ascending, within}
use lorelum.Lifecycle.Notifications.Delivery.{
  EnqueuesLater, IsDelivery, drain_revision_notifications_in_order,
}

abbrev row : ℕ → Pending
row n = record { revision = n; delta = record { added = []; changed = []; invalidated = [] } }

abbrev queue : List Pending
queue = row 4 ∷ row 6 ∷ []

abbrev plainly : Round
plainly = record { accepts = true; supersedes = false; enqueued = []; acknowledges = true }

-- At revision 4 the hook starts a mutation that makes revision 7; at `failing` it fails.
abbrev nested : ℕ → Hook
nested failing p = record plainly {
  accepts = not (p.revision == failing);
  enqueued = if p.revision == 4 then row 7 ∷ [] else [];
}

drained :
    (drain_revision_notifications 9 (some (nested 6)) queue
      ≡ some (record { rows = row 6 ∷ row 7 ∷ []; calls = 4 ∷ 6 ∷ []; pending = some 6 }))
    × (drain_revision_notifications 9 (some (nested 9)) queue
        ≡ some (record { rows = []; calls = 4 ∷ 6 ∷ 7 ∷ []; pending = none }))
    × (drain_revision_notifications 9 (some (λ p. record plainly { acknowledges = false })) queue
        ≡ some (record { rows = queue; calls = 4 ∷ []; pending = some 4 }))
unfolding drain_revision_notifications lorelum.Prelude.keep
drained = (refl, refl, refl)

nested-EnqueuesLater : EnqueuesLater 8 (nested 6)
unfolding within lorelum.Prelude.all
nested-EnqueuesLater p = elim (Bool-cases (p.revision == 4)) [
  | inl four ↦ (refl, ground arith)
  | inr other ↦ (refl, rw other refl)
]

drain_revision_notifications_in_order_example :
    (d : Drained) × (drain_revision_notifications 9 (some (nested 6)) queue ≡ some d)
    × IsDelivery (nested 6) queue d
unfolding ascending within lorelum.Prelude.all
drain_revision_notifications_in_order_example =
    drain_revision_notifications_in_order 8 (nested 6) queue nested-EnqueuesLater refl refl
