-- ===== src/Lifecycle/RevisionLog/Tests.antt =====
-- Runs of the log, and its theorems at concrete logs.
use lorelum.Prelude.{ℕ, ◌≤◌, ◌≡◌, refl, true, List, [], ◌∷◌, ltb, keep, length, arith}
use lorelum.Lifecycle.RevisionLog.{
  ok, err, LogEntry, malformed_row, cannot_append, append_effective_revision_log,
  read_effective_revision_log, append_all, latest_revision,
}
use lorelum.Lifecycle.RevisionLog.Order.{ascending}
use lorelum.Lifecycle.RevisionLog.Retention.{
  append_effective_revision_log_bounds, read_effective_revision_log_complete,
}

abbrev at : ℕ → LogEntry
at n = record { revision = n; delta = record { added = []; changed = []; invalidated = [] } }

abbrev history : List LogEntry
history = at 3 ∷ at 1000 ∷ at 1027 ∷ []

-- The first row is 1024 revisions behind the last one, which is one too many.
forgets :
    (append_all [] history ≡ ok (at 1000 ∷ at 1027 ∷ []))
    × (append_effective_revision_log (at 1000) history ≡ err cannot_append)
    × (append_effective_revision_log (at 9007199254740992) history ≡ err malformed_row)
    × (append_effective_revision_log (at 5) (at 3 ∷ at 9 ∷ []) ≡ ok (at 3 ∷ at 5 ∷ at 9 ∷ []))
unfolding append_all keep
forgets = (refl, refl, refl, refl)

append_effective_revision_log_bounds_example :
    (ascending (at 1000 ∷ at 1027 ∷ []) ≡ true) × (length (at 1000 ∷ at 1027 ∷ []) ≤ 1024)
unfolding ascending lorelum.Prelude.all append_effective_revision_log keep
append_effective_revision_log_bounds_example =
    append_effective_revision_log_bounds (at 1027) (at 3 ∷ at 1000 ∷ []) (at 1000 ∷ at 1027 ∷ [])
      refl refl

read_effective_revision_log_complete_example :
    (rows : List LogEntry) × (append_all [] history ≡ ok rows)
    × (read_effective_revision_log 3 rows ≡ ok (keep (λ r. ltb 3 r.revision) history))
unfolding ascending lorelum.Prelude.all
read_effective_revision_log_complete_example =
    read_effective_revision_log_complete history 3 refl refl (omega arith)
      (unfold latest_revision in omega arith)
