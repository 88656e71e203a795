-- ===== src/Query/Lease/Exclusion.antt =====
-- The exclusion of readers and pruners, over the accesses of artifact-lease.ts.
use lorelum.Prelude.{
  ℕ, ◌≡◌, refl, Bool, true, false, not, ◌&&◌, ◌||◌, Option, none, some, List, [], ◌∷◌, ltb, ◌==◌,
  if◌then◌else◌, keep, any, all, listed, arith,
}
use lorelum.Query.Lease.{
  ReaderPhase, checking, publishing, recording, rechecking, working, leaving, withdrawing, stopped,
  PrunerPhase, claiming, listing, counting, pruning, releasing, done, World, initial, without,
  reader_step, look_failure, reader_failure, pruner_step, removal_failure, pruner_failure,
  count_lease, Event, reads, look_fails, reader_fails, prunes, removal_fails, pruner_fails, dies,
  removes_directory, is_pruning, step, run,
}

-- The phases of a reader whose lease is there, of a reader at work, and of a pruner with its guard.
abbrev pub has_lease : ReaderPhase → Bool
has_lease checking = false
has_lease publishing = false
has_lease recording = true
has_lease rechecking = true
has_lease working = true
has_lease leaving = false
has_lease withdrawing = false
has_lease stopped = false

abbrev pub is_working : ReaderPhase → Bool
is_working working = true
is_working checking = false
is_working publishing = false
is_working recording = false
is_working rechecking = false
is_working leaving = false
is_working withdrawing = false
is_working stopped = false

abbrev pub has_guard : PrunerPhase → Bool
has_guard claiming = false
has_guard listing = true
has_guard (counting is active) = true
has_guard pruning = true
has_guard releasing = true
has_guard done = false

abbrev pub is_guard : ℕ → Option ℕ → Bool
is_guard j none = false
is_guard j (some k) = k == j

-- What a pruner at each phase knows of a reader that is alive and at work.
abbrev pub knows : ℕ → PrunerPhase → Bool
knows i (counting is active) = listed i is || ltb 0 active
knows i pruning = false
knows i claiming = true
knows i listing = true
knows i releasing = true
knows i done = true

abbrev pub alive : (ℕ → ℕ) → ℕ → World → Bool
alive pid i w = not (listed (pid i) w.dead)

unfoldable pub excludes : (ℕ → ℕ) → ℕ → ℕ → World → Bool
excludes pid i j w =
    (not (has_guard (w.pruner j)) || is_guard j w.guard)
    && (not (alive pid i w && has_lease (w.reader i)) || listed i w.leases)
    && (not (alive pid i w && is_working (w.reader i)) || knows i (w.pruner j))

listed-without : (i k : ℕ) (ns : List ℕ) → listed i (without k ns) ≡ (listed i ns && not (i == k))
unfolding listed any keep
listed-without i k [] = refl
listed-without i k (n ∷ ns) = ground (arith, listed-without i k ns)

reader_step-excludes :
    (pid : ℕ → ℕ) (i j k : ℕ) (ph : ReaderPhase) (w : World)
    → w.reader k ≡ ph
    → excludes pid i j w ≡ true
    → excludes pid i j (reader_step k ph w) ≡ true
unfolding excludes reader_step listed any
reader_step-excludes pid i j k checking w e h = ground arith
reader_step-excludes pid i j k publishing w e h = ground arith
reader_step-excludes pid i j k recording w e h = ground arith
reader_step-excludes pid i j k rechecking w e h = ground arith
reader_step-excludes pid i j k working w e h = ground arith
reader_step-excludes pid i j k leaving w e h = ground (arith, listed-without i k w.leases)
reader_step-excludes pid i j k withdrawing w e h = ground (arith, listed-without i k w.leases)
reader_step-excludes pid i j k stopped w e h = h

reader_failure-excludes :
    (pid : ℕ → ℕ) (i j k : ℕ) (ph : ReaderPhase) (w : World)
    → w.reader k ≡ ph
    → excludes pid i j w ≡ true
    → excludes pid i j (reader_failure k ph w) ≡ true
unfolding excludes reader_failure
reader_failure-excludes pid i j k checking w e h = ground arith
reader_failure-excludes pid i j k publishing w e h = ground arith
reader_failure-excludes pid i j k recording w e h = ground arith
reader_failure-excludes pid i j k rechecking w e h = h
reader_failure-excludes pid i j k working w e h = ground arith
reader_failure-excludes pid i j k leaving w e h = ground arith
reader_failure-excludes pid i j k withdrawing w e h = ground arith
reader_failure-excludes pid i j k stopped w e h = h

look_failure-excludes :
    (pid : ℕ → ℕ) (i j k : ℕ) (ph : ReaderPhase) (w : World)
    → w.reader k ≡ ph
    → (k == i) ≡ false
    → excludes pid i j w ≡ true
    → excludes pid i j (look_failure k ph w) ≡ true
unfolding excludes look_failure
look_failure-excludes pid i j k checking w e other h = ground arith
look_failure-excludes pid i j k publishing w e other h = h
look_failure-excludes pid i j k recording w e other h = h
look_failure-excludes pid i j k rechecking w e other h = ground arith
look_failure-excludes pid i j k working w e other h = h
look_failure-excludes pid i j k leaving w e other h = h
look_failure-excludes pid i j k withdrawing w e other h = h
look_failure-excludes pid i j k stopped w e other h = h

-- `h` for the pruner that moves as well as for `j`.
pruner_step-excludes :
    (pid : ℕ → ℕ) (i j k : ℕ) (ph : PrunerPhase) (w : World)
    → w.pruner k ≡ ph
    → excludes pid i j w ≡ true
    → excludes pid i k w ≡ true
    → excludes pid i j (pruner_step pid k ph w) ≡ true
unfolding excludes pruner_step count_lease listed any
pruner_step-excludes pid i j k claiming w e h g = ground arith
pruner_step-excludes pid i j k listing w e h g = ground arith
pruner_step-excludes pid i j k (counting [] active) w e h g = ground arith
pruner_step-excludes pid i j k (counting (n ∷ ns) active) w e h g =
    ground (arith, listed-without i n w.leases)
pruner_step-excludes pid i j k pruning w e h g = ground arith
pruner_step-excludes pid i j k releasing w e h g = ground arith
pruner_step-excludes pid i j k done w e h g = h

pruner_failure-excludes :
    (pid : ℕ → ℕ) (i j k : ℕ) (ph : PrunerPhase) (w : World)
    → w.pruner k ≡ ph
    → excludes pid i j w ≡ true
    → excludes pid i j (pruner_failure k ph w) ≡ true
unfolding excludes pruner_failure listed any
pruner_failure-excludes pid i j k claiming w e h = ground arith
pruner_failure-excludes pid i j k listing w e h = ground arith
pruner_failure-excludes pid i j k (counting [] active) w e h = h
pruner_failure-excludes pid i j k (counting (n ∷ ns) active) w e h = ground arith
pruner_failure-excludes pid i j k pruning w e h = ground arith
pruner_failure-excludes pid i j k releasing w e h = ground arith
pruner_failure-excludes pid i j k done w e h = h

removal_failure-excludes :
    (pid : ℕ → ℕ) (i j k : ℕ) (ph : PrunerPhase) (w : World)
    → w.pruner k ≡ ph
    → excludes pid i j w ≡ true
    → excludes pid i j (removal_failure pid k ph w) ≡ true
unfolding excludes removal_failure listed any
removal_failure-excludes pid i j k claiming w e h = h
removal_failure-excludes pid i j k listing w e h = h
removal_failure-excludes pid i j k (counting [] active) w e h = h
removal_failure-excludes pid i j k (counting (n ∷ ns) active) w e h = ground arith
removal_failure-excludes pid i j k pruning w e h = h
removal_failure-excludes pid i j k releasing w e h = h
removal_failure-excludes pid i j k done w e h = h

-- Events of which none removes the artifact's directory, and none is a failed look of reader `i`.
unfoldable pub leaves_directory : ℕ → Event → Bool
leaves_directory i (removes_directory j) = false
leaves_directory i (look_fails k) = not (k == i)
leaves_directory i (reads k) = true
leaves_directory i (reader_fails k) = true
leaves_directory i (prunes k) = true
leaves_directory i (removal_fails k) = true
leaves_directory i (pruner_fails k) = true
leaves_directory i (dies p) = true

-- What holds of a reader and every pruner.
abbrev pub IsExclusive : (ℕ → ℕ) → ℕ → World → Type 0
IsExclusive pid i w = (j : ℕ) → excludes pid i j w ≡ true

abbrev if_alive : Bool → World → World → World
if_alive gone w moved = if gone then w else moved

if_alive-excludes :
    (pid : ℕ → ℕ) (i j : ℕ) (gone : Bool) (w moved : World)
    → excludes pid i j w ≡ true
    → excludes pid i j moved ≡ true
    → excludes pid i j (if_alive gone w moved) ≡ true
if_alive-excludes pid i j true w moved h g = h
if_alive-excludes pid i j false w moved h g = g

step-excludes :
    (pid : ℕ → ℕ) (i : ℕ) (e : Event) (w : World)
    → leaves_directory i e ≡ true
    → IsExclusive pid i w
    → IsExclusive pid i (step pid e w)
unfolding step leaves_directory
step-excludes pid i (reads k) w quiet h j =
    if_alive-excludes pid i j (listed (pid k) w.dead) w (reader_step k (w.reader k) w) (h j)
      (reader_step-excludes pid i j k (w.reader k) w refl (h j))
step-excludes pid i (look_fails k) w quiet h j =
    let other : (k == i) ≡ false = ground arith in
    if_alive-excludes pid i j (listed (pid k) w.dead) w (look_failure k (w.reader k) w) (h j)
      (look_failure-excludes pid i j k (w.reader k) w refl other (h j))
step-excludes pid i (reader_fails k) w quiet h j =
    if_alive-excludes pid i j (listed (pid k) w.dead) w (reader_failure k (w.reader k) w) (h j)
      (reader_failure-excludes pid i j k (w.reader k) w refl (h j))
step-excludes pid i (prunes k) w quiet h j =
    pruner_step-excludes pid i j k (w.pruner k) w refl (h j) (h k)
step-excludes pid i (removal_fails k) w quiet h j =
    removal_failure-excludes pid i j k (w.pruner k) w refl (h j)
step-excludes pid i (pruner_fails k) w quiet h j =
    pruner_failure-excludes pid i j k (w.pruner k) w refl (h j)
step-excludes pid i (dies p) w quiet h j =
    let g = h j in unfold excludes in unfold listed in unfold any in ground arith
step-excludes pid i (removes_directory k) w quiet h j = ground arith

run-excludes :
    (pid : ℕ → ℕ) (i : ℕ) (es : List Event) (w : World)
    → all (leaves_directory i) es ≡ true
    → IsExclusive pid i w
    → IsExclusive pid i (run pid es w)
unfolding run all
run-excludes pid i [] w quiet h = h
run-excludes pid i (e ∷ es) w quiet h =
    let (now, later) = both (leaves_directory i e) (all (leaves_directory i) es) quiet in
    run-excludes pid i es (step pid e w) later (step-excludes pid i e w now h)
  where
    both : (a b : Bool) → (a && b) ≡ true → (a ≡ true) × (b ≡ true)
    both a b h = ground arith

initial-excludes : (pid : ℕ → ℕ) (i : ℕ) → IsExclusive pid i initial
unfolding excludes listed any
initial-excludes pid i j = refl

apart :
    (pid : ℕ → ℕ) (i j : ℕ) (w : World)
    → listed (pid i) w.dead ≡ false
    → w.reader i ≡ working
    → excludes pid i j w ≡ true
    → is_pruning (w.pruner j) ≡ false
unfolding excludes is_pruning
apart pid i j w lives works h = ground arith

-- Readers and pruners act on one artifact in any order of their accesses, fail at any of them, or die.
-- Up to the moment when a pruner's work first removes the artifact's directory, and the guard with
-- it, no pruner is at work while a reader of a live process is, one none of whose looks for the guard
-- failed: a failed look takes the guard for absent. So a removal begins with no such reader at work.
pub lease_excludes_pruning :
    (pid : ℕ → ℕ) (es : List Event) (i j : ℕ)
    → all (leaves_directory i) es ≡ true
    → listed (pid i) (run pid es initial).dead ≡ false
    → (run pid es initial).reader i ≡ working
    → is_pruning ((run pid es initial).pruner j) ≡ false
lease_excludes_pruning pid es i j quiet lives works =
    apart pid i j (run pid es initial) lives works
      (run-excludes pid i es initial quiet (initial-excludes pid i) j)
