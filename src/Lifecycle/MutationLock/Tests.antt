-- ===== src/Lifecycle/MutationLock/Tests.antt =====
-- The lock at concrete records.
use lorelum.Prelude.{
  ℕ, ◌≡◌, ◌↔◌, refl, Bool, true, false, Option, none, some, Text, units, ◌==◌, List, [], ◌∷◌, ◌++◌,
  listed,
}
use lorelum.Lifecycle.MutationLock.{
  LockRecord, Processes, holding, value, removed, changed, reclaim_stale_lock, releases,
}
use lorelum.Lifecycle.MutationLock.Ownership.{releases_own}
use lorelum.Lifecycle.MutationLock.Reclaim.{
  Event, creates, dies, begins, moves, retires, crashes, initial, run,
}
use lorelum.Lifecycle.MutationLock.Knowledge.{holds}
use lorelum.Lifecycle.MutationLock.Exclusion.{is_no_retirement, mutation_lock_excludes}

-- Process 7 runs, but it started later than the record's.
abbrev processes : Processes
processes = record { is_process_alive = λ n. n == 7; process_started_at = λ n. some 90000 }

abbrev crashed_lock : LockRecord
crashed_lock = record {
  pid = 7;
  started_at = units "t0";
  process_started_at = some 1000;
  owner_token = some (units "x");
}

-- By the second look the process is another one, or one that runs.
abbrev reused : Processes
reused = record { is_process_alive = λ n. n == 7; process_started_at = λ n. some 1000 }

reclaims :
    (reclaim_stale_lock processes processes processes crashed_lock
        (holding crashed_lock)
        none
        (holding crashed_lock)
        true
      ≡ value removed)
    × (reclaim_stale_lock processes processes reused crashed_lock
          (holding crashed_lock)
          none
          (holding crashed_lock)
          true
        ≡ value changed)
unfolding reclaim_stale_lock lorelum.Prelude.text_eq
reclaims = (refl, refl)

releases_own_example :
    (releases
        (record {
          pid = 7;
          started_at = units "t0";
          process_started_at = none;
          owner_token = some (units "y");
        })
        (holding crashed_lock)
      ≡ value true)
    ↔ ((crashed_lock.pid ≡ 7) × (units "t0" ≡ units "t0") × (some (units "x") ≡ some (units "y")))
releases_own_example = releases_own 7 (units "t0") (units "y") none crashed_lock

-- Holder 1 dies, process 5 claims its guard and crashes, and 6 and 7 both find 5's guard.
abbrev to_guard : ℕ → List Event
to_guard i = begins i 1 ∷ moves i true ∷ moves i true ∷ []

abbrev to_unlink : ℕ → List Event
to_unlink i = to_guard i ++ moves i true ∷ moves i true ∷ []

abbrev crashed : List Event
crashed = creates 1 ∷ dies 1 ∷ to_guard 5 ++ crashes 5 ∷ []

-- 6 removes it, claims its own and is about to unlink; 7 then removes that one too.
abbrev two_holders : List Event
two_holders =
    crashed
    ++ (to_unlink 6
        ++ (to_unlink 7
            ++ (retires 6 ∷ to_unlink 6)
            ++ ((retires 7 ∷ to_unlink 7)
                ++ (moves 6 true ∷ creates 2 ∷ moves 7 true ∷ creates 3 ∷ []))))

overlaps : (holds 2 (run two_holders initial) ≡ true) × (holds 3 (run two_holders initial) ≡ true)
unfolding run listed lorelum.Prelude.any
overlaps = (refl, refl)

-- Process 6 reclaims the lock of 1, and holder 2 takes it.
abbrev reclaimed : List Event
reclaimed = creates 1 ∷ dies 1 ∷ to_unlink 6 ++ (moves 6 true ∷ creates 2 ∷ moves 6 true ∷ [])

mutation_lock_excludes_example : ((run reclaimed initial).lock ≡ some 2) × (◌≡◌ {A = ℕ} 2 2)
unfolding run is_no_retirement listed lorelum.Prelude.any lorelum.Prelude.all
mutation_lock_excludes_example = mutation_lock_excludes reclaimed 2 2 refl refl refl
