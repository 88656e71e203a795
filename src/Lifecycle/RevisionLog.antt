-- ===== src/Lifecycle/RevisionLog.antt =====
-- packages/engine/src/local-store/storage/sqlite/revision-log.ts: the log of the changes by which a
-- derived index catches up. The rows stand in the order of their key, the revision; a delta stands
-- as the parsed value.
pub mod Order
pub mod Retention
mod Tests
pub use lorelum.Prelude.{ok, err, ◌>>=◌, ◌>>◌, refuse}
use lorelum.Prelude.{
  Fallible, ℕ, ◌+◌, ◌-◌, Bool, true, false, not, ◌&&◌, Option, none, some, List, [], ◌∷◌, ltb, leb,
  ◌==◌, if◌then◌else◌, keep, all,
}
use lorelum.LocalStore.Effective.{RevisionDelta}
use lorelum.Lifecycle.Store.{max_safe_integer}

pub record LogEntry : Type 0 where
  pub revision : ℕ
  pub delta : RevisionDelta

abbrev pub effective_revision_log_retention : ℕ
effective_revision_log_retention = 1024

pub data SqliteStateError : Type 0 where
  malformed_row cannot_append : SqliteStateError

abbrev pub assert_revision : ℕ → Fallible SqliteStateError (Unit {0})
assert_revision revision = refuse (not (leb revision max_safe_integer)) malformed_row

-- `insert`, which the primary key refuses where the revision is there.
unfoldable pub insert_row : LogEntry → List LogEntry → Fallible SqliteStateError (List LogEntry)
insert_row e [] = ok (e ∷ [])
insert_row e (r ∷ rs) =
    let rest = insert_row e rs in
    if e.revision == r.revision
    then err cannot_append
    else if ltb e.revision r.revision
    then ok (e ∷ r ∷ rs)
    else (rest >>= (λ found. ok (r ∷ found)))

-- The last revision, or 0 where there is none.
unfoldable pub latest_revision : List LogEntry → ℕ
latest_revision [] = 0
latest_revision (r ∷ []) = r.revision
latest_revision (r ∷ s ∷ rs) = latest_revision (s ∷ rs)

-- The deletion keeps the rows from `latest - (retention - 1)` on, where that is positive.
unfoldable pub prune_rows : List LogEntry → List LogEntry
unfolding latest_revision
prune_rows rows =
    let minimum = latest_revision rows - (effective_revision_log_retention - 1) in
    if ltb 0 minimum then keep (λ r. not (ltb r.revision minimum)) rows else rows

unfoldable pub append_effective_revision_log :
    LogEntry → List LogEntry → Fallible SqliteStateError (List LogEntry)
unfolding insert_row prune_rows
append_effective_revision_log e rows = do
  assert_revision e.revision
  inserted ← insert_row e rows
  ok (prune_rows inserted)

unfoldable pub read_effective_revision_log :
    ℕ → List LogEntry → Fallible SqliteStateError (List LogEntry)
read_effective_revision_log after rows = do
  assert_revision after
  refuse (not (all (λ r. leb r.revision max_safe_integer) (keep (λ r. ltb after r.revision) rows)))
      malformed_row
  ok (keep (λ r. ltb after r.revision) rows)

-- The records of successive changes.
unfoldable pub append_all :
    List LogEntry → List LogEntry → Fallible SqliteStateError (List LogEntry)
unfolding append_effective_revision_log
append_all rows [] = ok rows
append_all rows (e ∷ es) = append_effective_revision_log e rows >>= (λ next. append_all next es)
