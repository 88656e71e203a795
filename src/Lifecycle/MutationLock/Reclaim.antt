-- ===== src/Lifecycle/MutationLock/Reclaim.antt =====
-- The lock file, its holders and the processes that reclaim it, as they act in between one another: a
-- move is one access to a file, or one look at the process table. A number stands for what
-- `sameLockRecord` tells a record by. Writing a file and removing a guard's directory are one access.
use lorelum.Prelude.{
  ℕ, Bool, false, ◌&&◌, Option, none, some, List, [], ◌∷◌, ◌==◌, if◌then◌else◌, listed, set,
}

-- The handle of a lock record: before its creation, in use, past the read of `release`, and after it.
pub data HolderPhase : Type 0 where
  outside holding unlinking released : HolderPhase

-- A process stands, in `reclaimStaleLock` and `claimReclaimGuard` for a record: before it; past the
-- first read; before the rename of its guard; before the read of another's guard; before the look at
-- that one's claimant; before the removal of that guard; before the second read; before the look at
-- the holder; before `unlink`; before the removal of its own guard.
pub data ReclaimPhase : Type 0 where
  idle : ReclaimPhase
  found claiming inspecting : ℕ → ReclaimPhase
  examining : ℕ → ℕ → ReclaimPhase
  retiring confirming checking removing releasing : ℕ → ReclaimPhase

-- `dead` lists the records whose process is gone, `lost` the reclaiming processes that are.
pub record World : Type 0 where
  pub lock : Option ℕ
  pub guard : ℕ → Option ℕ
  pub holder : ℕ → HolderPhase
  pub reclaimer : ℕ → ReclaimPhase
  pub dead : List ℕ
  pub lost : List ℕ

abbrev pub initial : World
initial = record {
  lock = none;
  guard = λ t. none;
  holder = λ n. outside;
  reclaimer = λ i. idle;
  dead = [];
  lost = [];
}

abbrev pub is_at : ℕ → Option ℕ → Bool
is_at n none = false
is_at n (some k) = k == n

abbrev pub stands : ℕ → ReclaimPhase → World → World
stands i phase w = record w { reclaimer = set i phase w.reclaimer }

abbrev pub holder_at : ℕ → HolderPhase → World → World
holder_at n phase w = record w { holder = set n phase w.holder }

-- `tryCreateLock` where the exclusive create succeeds.
unfoldable pub create_lock : ℕ → HolderPhase → Option ℕ → World → World
create_lock n outside none w = record w { lock = some n; holder = set n holding w.holder }
create_lock n outside (some k) w = w
create_lock n holding lock w = w
create_lock n unlinking lock w = w
create_lock n released lock w = w

-- `release`, from one access to the next.
unfoldable pub release_step : ℕ → HolderPhase → World → World
release_step n outside w = w
release_step n holding w =
    if is_at n w.lock then holder_at n unlinking w else holder_at n released w
release_step n unlinking w = record w { lock = none; holder = set n released w.holder }
release_step n released w = w

abbrev pub claim : ℕ → ℕ → Option ℕ → World → World
claim i t none w = record w {
  guard = set t (some i) w.guard;
  reclaimer = set i (confirming t) w.reclaimer;
}
claim i t (some c) w = stands i (inspecting t) w

abbrev pub inspect : ℕ → ℕ → Option ℕ → World → World
inspect i t none w = stands i idle w
inspect i t (some c) w = stands i (examining t c) w

-- `reclaimStaleLock`, with `claimReclaimGuard` in it, from one access to the next. `b` tells what a
-- look at the process table says of a process that is gone, whose id may be in use again; one that is
-- alive is never taken for gone.
unfoldable pub reclaim_step : ℕ → Bool → ReclaimPhase → World → World
reclaim_step i b idle w = w
reclaim_step i b (found t) w =
    if listed t w.dead && b then stands i (claiming t) w else stands i idle w
reclaim_step i b (claiming t) w = claim i t (w.guard t) w
reclaim_step i b (inspecting t) w = inspect i t (w.guard t) w
reclaim_step i b (examining t c) w =
    if listed c w.lost && b then stands i (retiring t) w else stands i idle w
reclaim_step i b (retiring t) w = w
reclaim_step i b (confirming t) w =
    if is_at t w.lock then stands i (checking t) w else stands i (releasing t) w
reclaim_step i b (checking t) w =
    if listed t w.dead && b then stands i (removing t) w else stands i (releasing t) w
reclaim_step i b (removing t) w = record w {
  lock = none;
  reclaimer = set i (releasing t) w.reclaimer;
}
reclaim_step i b (releasing t) w = record w {
  guard = set t none w.guard;
  reclaimer = set i idle w.reclaimer;
}

-- The guard of a claimant that was found gone is removed, whoever holds it by now.
unfoldable pub retire_step : ℕ → ReclaimPhase → World → World
retire_step i (retiring t) w = record w {
  guard = set t none w.guard;
  reclaimer = set i idle w.reclaimer;
}
retire_step i idle w = w
retire_step i (found t) w = w
retire_step i (claiming t) w = w
retire_step i (inspecting t) w = w
retire_step i (examining t c) w = w
retire_step i (confirming t) w = w
retire_step i (checking t) w = w
retire_step i (removing t) w = w
retire_step i (releasing t) w = w

-- An access that fails ends the reclaim, past the `finally` where the guard is its own.
unfoldable pub reclaim_failure : ℕ → ReclaimPhase → World → World
reclaim_failure i idle w = w
reclaim_failure i (found t) w = stands i idle w
reclaim_failure i (claiming t) w = stands i idle w
reclaim_failure i (inspecting t) w = stands i idle w
reclaim_failure i (examining t c) w = stands i idle w
reclaim_failure i (retiring t) w = stands i idle w
reclaim_failure i (confirming t) w = stands i (releasing t) w
reclaim_failure i (checking t) w = stands i (releasing t) w
reclaim_failure i (removing t) w = stands i (releasing t) w
reclaim_failure i (releasing t) w = stands i idle w

-- `reclaimStaleLock` for the record `t` begins with its first read.
unfoldable pub begin_reclaim : ℕ → ℕ → ReclaimPhase → World → World
begin_reclaim i t idle w = if is_at t w.lock then stands i (found t) w else w
begin_reclaim i t (found s) w = w
begin_reclaim i t (claiming s) w = w
begin_reclaim i t (inspecting s) w = w
begin_reclaim i t (examining s c) w = w
begin_reclaim i t (retiring s) w = w
begin_reclaim i t (confirming s) w = w
begin_reclaim i t (checking s) w = w
begin_reclaim i t (removing s) w = w
begin_reclaim i t (releasing s) w = w

pub data Event : Type 0 where
  creates releases dies : ℕ → Event
  begins : ℕ → ℕ → Event
  moves : ℕ → Bool → Event
  fails retires crashes : ℕ → Event

unfoldable pub step : Event → World → World
unfolding create_lock release_step reclaim_step retire_step reclaim_failure begin_reclaim
step (creates n) w = if listed n w.dead then w else create_lock n (w.holder n) w.lock w
step (releases n) w = if listed n w.dead then w else release_step n (w.holder n) w
step (dies n) w = record w { dead = n ∷ w.dead }
step (begins i t) w = if listed i w.lost then w else begin_reclaim i t (w.reclaimer i) w
step (moves i b) w = if listed i w.lost then w else reclaim_step i b (w.reclaimer i) w
step (fails i) w = if listed i w.lost then w else reclaim_failure i (w.reclaimer i) w
step (retires i) w = if listed i w.lost then w else retire_step i (w.reclaimer i) w
step (crashes i) w = record w { lost = i ∷ w.lost }

unfoldable pub run : List Event → World → World
unfolding step
run [] w = w
run (e ∷ es) w = run es (step e w)
