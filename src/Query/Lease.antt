-- ===== src/Query/Lease.antt =====
-- packages/engine/src/query/artifacts/artifact-lease.ts: the leases that keep an artifact while it is
-- read or built, and the guard of a pruner. Readers and pruners are processes that act in between one
-- another: a move is what one of them does between two awaits, or one access to the file system.
-- A reader's number is one turn of the loop of `withContentArtifactLease`, which is also the name of
-- its lease; `dead` lists the process ids that are gone.
pub mod Exclusion
mod Tests
use lorelum.Prelude.{
  ℕ, suc, ◌+◌, ◌≡◌, Bool, true, false, not, ◌&&◌, ◌||◌, Option, none, some, List, [], ◌∷◌, ltb,
  ◌==◌, if◌then◌else◌, keep, listed, set,
}

-- A reader stands before: the first look for the guard, the lease's directory, its record, the second
-- look, the end of its work, the removal of the lease after the work or without it.
pub data ReaderPhase : Type 0 where
  checking publishing recording rechecking working leaving withdrawing stopped : ReaderPhase

-- A pruner stands before: its guard, the listing of the leases, the next lease of the list (with the
-- number of active ones so far), the end of its work, the removal of its guard.
pub data PrunerPhase : Type 0 where
  claiming listing : PrunerPhase
  counting : List ℕ → ℕ → PrunerPhase
  pruning releasing done : PrunerPhase

pub record World : Type 0 where
  pub guard : Option ℕ
  pub leases : List ℕ
  pub recorded : List ℕ
  pub reader : ℕ → ReaderPhase
  pub pruner : ℕ → PrunerPhase
  pub dead : List ℕ

abbrev pub initial : World
initial = record {
  guard = none;
  leases = [];
  recorded = [];
  reader = λ i. checking;
  pruner = λ j. claiming;
  dead = [];
}

abbrev pub without : ℕ → List ℕ → List ℕ
without n ns = keep (λ k. not (k == n)) ns

abbrev pub present : Option ℕ → Bool
present none = false
present (some j) = true

abbrev pub stands_at : ℕ → ReaderPhase → World → World
stands_at i phase w = record w { reader = set i phase w.reader }

abbrev pub drops : ℕ → World → World
drops i w = record w {
  reader = set i stopped w.reader;
  leases = without i w.leases;
  recorded = without i w.recorded;
}

-- `withContentArtifactLease`, from one access to the next.
unfoldable pub reader_step : ℕ → ReaderPhase → World → World
reader_step i checking w = if present w.guard then w else stands_at i publishing w
reader_step i publishing w = record w { reader = set i recording w.reader; leases = i ∷ w.leases }
reader_step i recording w = record w {
  reader = set i rechecking w.reader;
  recorded = i ∷ w.recorded;
}
reader_step i rechecking w =
    if present w.guard then stands_at i withdrawing w else stands_at i working w
reader_step i working w = stands_at i leaving w
reader_step i leaving w = drops i w
reader_step i withdrawing w = drops i w
reader_step i stopped w = w

-- `exists` answers `false` where its access fails, whether the guard is there or not.
unfoldable pub look_failure : ℕ → ReaderPhase → World → World
look_failure i checking w = stands_at i publishing w
look_failure i rechecking w = stands_at i working w
look_failure i publishing w = w
look_failure i recording w = w
look_failure i working w = w
look_failure i leaving w = w
look_failure i withdrawing w = w
look_failure i stopped w = w

-- Where another access fails. A look that finds the guard past the deadline throws; a lease that
-- could not be made is withdrawn; a removal that fails is not reported, and its lease stays.
unfoldable pub reader_failure : ℕ → ReaderPhase → World → World
reader_failure i checking w = if present w.guard then stands_at i stopped w else w
reader_failure i publishing w = stands_at i withdrawing w
reader_failure i recording w = stands_at i withdrawing w
reader_failure i rechecking w = w
reader_failure i working w = stands_at i leaving w
reader_failure i leaving w = stands_at i stopped w
reader_failure i withdrawing w = stands_at i stopped w
reader_failure i stopped w = w

abbrev pub phase_of : ℕ → PrunerPhase → World → World
phase_of j phase w = record w { pruner = set j phase w.pruner }

-- One turn of the loop of `activeLeaseCount`: a lease with no record counts, and one whose process is
-- alive; another one is removed.
unfoldable pub count_lease : (ℕ → ℕ) → ℕ → ℕ → List ℕ → ℕ → World → World
unfolding listed
count_lease pid j i rest active w =
    if not (listed i w.recorded) || not (listed (pid i) w.dead)
    then phase_of j (counting rest (suc active)) w
    else record w {
      pruner = set j (counting rest active) w.pruner;
      leases = without i w.leases;
      recorded = without i w.recorded;
    }

-- `withContentArtifactPruneGuard`, from one access to the next.
unfoldable pub pruner_step : (ℕ → ℕ) → ℕ → PrunerPhase → World → World
unfolding count_lease
pruner_step pid j claiming w =
    if present w.guard
    then phase_of j done w
    else record w { pruner = set j listing w.pruner; guard = some j }
pruner_step pid j listing w = phase_of j (counting w.leases 0) w
pruner_step pid j (counting (i ∷ rest) active) w = count_lease pid j i rest active w
pruner_step pid j (counting [] active) w =
    if ltb 0 active then phase_of j releasing w else phase_of j pruning w
pruner_step pid j pruning w = phase_of j releasing w
pruner_step pid j releasing w = record w { pruner = set j done w.pruner; guard = none }
pruner_step pid j done w = w

-- The lease of a dead process that cannot be removed stays, and does not count.
unfoldable pub removal_failure : (ℕ → ℕ) → ℕ → PrunerPhase → World → World
unfolding listed
removal_failure pid j (counting (i ∷ rest) active) w =
    if listed i w.recorded && listed (pid i) w.dead then phase_of j (counting rest active) w else w
removal_failure pid j (counting [] active) w = w
removal_failure pid j claiming w = w
removal_failure pid j listing w = w
removal_failure pid j pruning w = w
removal_failure pid j releasing w = w
removal_failure pid j done w = w

-- A listing that fails counts as one active lease, and so does a record that cannot be read.
unfoldable pub pruner_failure : ℕ → PrunerPhase → World → World
pruner_failure j listing w = phase_of j (counting [] 1) w
pruner_failure j claiming w = phase_of j done w
pruner_failure j (counting (i ∷ rest) active) w = phase_of j (counting rest (suc active)) w
pruner_failure j (counting [] active) w = w
pruner_failure j pruning w = phase_of j releasing w
pruner_failure j releasing w = phase_of j done w
pruner_failure j done w = w

-- `removes_directory` is what the work of `pruneContentArtifactCache` does: it removes the artifact's
-- directory, and in it the leases and the guard.
pub data Event : Type 0 where
  reads look_fails reader_fails prunes removal_fails pruner_fails dies removes_directory : ℕ → Event

unfoldable pub is_pruning : PrunerPhase → Bool
is_pruning pruning = true
is_pruning claiming = false
is_pruning listing = false
is_pruning (counting is active) = false
is_pruning releasing = false
is_pruning done = false

unfoldable pub step : (ℕ → ℕ) → Event → World → World
unfolding reader_step look_failure reader_failure pruner_step removal_failure pruner_failure listed
    is_pruning
step pid (reads i) w = if listed (pid i) w.dead then w else reader_step i (w.reader i) w
step pid (reader_fails i) w = if listed (pid i) w.dead then w else reader_failure i (w.reader i) w
step pid (look_fails i) w = if listed (pid i) w.dead then w else look_failure i (w.reader i) w
step pid (removal_fails j) w = removal_failure pid j (w.pruner j) w
step pid (prunes j) w = pruner_step pid j (w.pruner j) w
step pid (pruner_fails j) w = pruner_failure j (w.pruner j) w
step pid (dies p) w = record w { dead = p ∷ w.dead }
step pid (removes_directory j) w =
    if is_pruning (w.pruner j) then record w { guard = none; leases = []; recorded = [] } else w

unfoldable pub run : (ℕ → ℕ) → List Event → World → World
unfolding step
run pid [] w = w
run pid (e ∷ es) w = run pid es (step pid e w)
