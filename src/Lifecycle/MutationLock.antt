-- ===== src/Lifecycle/MutationLock.antt =====
-- packages/engine/src/local-store/storage/mutation-lock.ts: the lock file by which the processes
-- that change one Store exclude one another, and the reclaim of a lock whose holder is gone.
-- Here is one call of each operation, by what each of its accesses finds: the text of a file, and the
-- operating system's process table, at each look anew. Instants are milliseconds. How the accesses of
-- several processes come in between one another is in Reclaim.
pub mod Ownership
pub mod Reclaim
pub mod Knowledge
pub mod Exclusion
mod Tests
use lorelum.Prelude.{
  ℕ, ◌+◌, ◌-◌, ◌≡◌, refl, Bool, true, false, not, ◌&&◌, ◌||◌, Option, none, some, List, [], ◌∷◌,
  ltb, leb, ◌==◌, if◌then◌else◌, Text, text_eq,
}

abbrev pub process_start_tolerance_ms : ℕ
process_start_tolerance_ms = 2000

pub record LockRecord : Type 0 where
  pub pid : ℕ
  pub started_at : Text
  pub process_started_at : Option ℕ
  pub owner_token : Option Text

pub record GuardRecord : Type 0 where
  pub target : LockRecord
  pub claimer_pid : ℕ
  pub claimer_started_at : Text
  pub claimer_process_started_at : ℕ
  pub claimer_token : Text

-- `process.kill(pid, 0)`, and the start time where the platform can tell it.
pub record Processes : Type 0 where
  pub is_process_alive : ℕ → Bool
  pub process_started_at : ℕ → Option ℕ

-- What a read of a record's file finds: no file, bytes that are no record, or a record.
pub data File {ℓ} (A : Type ℓ) : Type ℓ where
  absent garbled : File A
  holding : A → File A

pub data ReclaimOutcome : Type 0 where
  removed gone busy changed : ReclaimOutcome

-- `StoreBusyError` is the one failure.
pub data Checked {ℓ} (A : Type ℓ) : Type ℓ where
  value : A → Checked A
  store_busy : Checked A

abbrev pub distance : ℕ → ℕ → ℕ
distance a b = (a - b) + (b - a)

-- `actualStartedAt` against the recorded start; each one that is not known counts as a match.
abbrev pub started_within : Option ℕ → Option ℕ → Bool
started_within none actual = true
started_within (some recorded) none = true
started_within (some recorded) (some actual) =
    leb (distance actual recorded) process_start_tolerance_ms

unfoldable pub is_recorded_process_alive : Processes → LockRecord → Bool
is_recorded_process_alive p r =
    p.is_process_alive r.pid && started_within r.process_started_at (p.process_started_at r.pid)

abbrev pub same_token : Option Text → Option Text → Bool
same_token none none = true
same_token none (some y) = false
same_token (some x) none = false
same_token (some x) (some y) = text_eq x y

unfoldable pub same_lock_record : LockRecord → LockRecord → Bool
same_lock_record l r =
    l.pid == r.pid && text_eq l.started_at r.started_at && same_token l.owner_token r.owner_token

abbrev pub claimer_of : GuardRecord → LockRecord
claimer_of g = record {
  pid = g.claimer_pid;
  started_at = g.claimer_started_at;
  process_started_at = some g.claimer_process_started_at;
  owner_token = none;
}

pub data Claim : Type 0 where
  claimed claim_busy claim_changed : Claim

-- `found` is the guard that the path already held when this one was renamed to it, as it is then
-- read; `none` where the rename succeeded.
unfoldable pub claim_reclaim_guard :
    Processes → LockRecord → Option (File GuardRecord) → Checked Claim
unfolding same_lock_record is_recorded_process_alive
claim_reclaim_guard p expected none = value claimed
claim_reclaim_guard p expected (some absent) = value claim_changed
claim_reclaim_guard p expected (some garbled) = store_busy
claim_reclaim_guard p expected (some (holding g)) =
    if not (same_lock_record g.target expected)
    then value claim_busy
    else if is_recorded_process_alive p (claimer_of g)
    then value claim_busy
    else value claim_changed

-- The guard of a claimant that is gone is retired.
unfoldable pub retires_guard : Processes → LockRecord → Option (File GuardRecord) → Bool
unfolding same_lock_record is_recorded_process_alive
retires_guard p expected none = false
retires_guard p expected (some absent) = false
retires_guard p expected (some garbled) = false
retires_guard p expected (some (holding g)) =
    same_lock_record g.target expected && not (is_recorded_process_alive p (claimer_of g))

-- The second read, under the guard; `unlinked` tells whether the file was still there to unlink.
unfoldable pub confirm : Processes → LockRecord → File LockRecord → Bool → Checked ReclaimOutcome
unfolding same_lock_record is_recorded_process_alive
confirm p expected absent unlinked = value gone
confirm p expected garbled unlinked = store_busy
confirm p expected (holding c) unlinked =
    if not (same_lock_record c expected) || is_recorded_process_alive p c
    then value changed
    else if unlinked
    then value removed
    else value gone

unfoldable pub with_guard :
    Processes → LockRecord → Checked Claim → File LockRecord → Bool → Checked ReclaimOutcome
unfolding confirm
with_guard p expected (value claimed) second unlinked = confirm p expected second unlinked
with_guard p expected (value claim_busy) second unlinked = value busy
with_guard p expected (value claim_changed) second unlinked = value busy
with_guard p expected store_busy second unlinked = store_busy

-- Each look at the process table finds one of its own.
unfoldable pub reclaim_stale_lock :
    (at_first at_guard at_second : Processes)
    → LockRecord
    → (first : File LockRecord) → Option (File GuardRecord)
    → (second : File LockRecord) → Bool
    → Checked ReclaimOutcome
unfolding same_lock_record is_recorded_process_alive claim_reclaim_guard with_guard
reclaim_stale_lock p pg ps expected absent found second unlinked = value gone
reclaim_stale_lock p pg ps expected garbled found second unlinked = store_busy
reclaim_stale_lock p pg ps expected (holding current) found second unlinked =
    if not (same_lock_record current expected)
    then value changed
    else if is_recorded_process_alive p current
    then value busy
    else with_guard ps expected (claim_reclaim_guard pg expected found) second unlinked

pub data CreateResult : Type 0 where
  acquired : CreateResult
  held stale : LockRecord → CreateResult
  retry : CreateResult

-- `created` tells whether the exclusive create found no file; `reread` is the read after a failure.
unfoldable pub try_create_lock :
    Processes → (created : Bool) → (reread : File LockRecord) → Checked CreateResult
unfolding is_recorded_process_alive
try_create_lock p true reread = value acquired
try_create_lock p false absent = value retry
try_create_lock p false garbled = store_busy
try_create_lock p false (holding r) =
    if is_recorded_process_alive p r then value (held r) else value (stale r)

-- `release()` of the handle that wrote `own`: whether it unlinks the file that it reads.
unfoldable pub releases : LockRecord → File LockRecord → Checked Bool
unfolding same_lock_record
releases own absent = value false
releases own garbled = store_busy
releases own (holding current) = value (same_lock_record current own)

unfoldable pub is_mutation_lock_held : Processes → File LockRecord → Checked Bool
unfolding is_recorded_process_alive
is_mutation_lock_held p absent = value false
is_mutation_lock_held p garbled = store_busy
is_mutation_lock_held p (holding r) = value (is_recorded_process_alive p r)
