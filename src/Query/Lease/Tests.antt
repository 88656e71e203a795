-- ===== src/Query/Lease/Tests.antt =====
-- Runs of readers and pruners, and the theorem at one of them.
use lorelum.Prelude.{ℕ, ◌≡◌, refl, true, false, List, [], ◌∷◌, none, some, listed}
use lorelum.Query.Lease.{
  working, withdrawing, done, initial, Event, reads, prunes, look_fails, dies, removes_directory,
  is_pruning, run,
}
use lorelum.Query.Lease.Exclusion.{leaves_directory, lease_excludes_pruning}

abbrev own : ℕ → ℕ
own i = i

-- Reader 5 leases and works; pruner 0 claims its guard, lists and counts, and refuses.
abbrev leased_first : List Event
leased_first =
    reads 5 ∷ reads 5 ∷ prunes 0 ∷ reads 5 ∷ prunes 0 ∷ prunes 0 ∷ prunes 0 ∷ prunes 0 ∷ []

-- Reader 5 looks for the guard too late, and withdraws.
looks_again :
    ((run own leased_first initial).pruner 0 ≡ done)
    × ((run own (reads 5 ∷ reads 5 ∷ reads 5 ∷ prunes 0 ∷ reads 5 ∷ []) initial).reader 5
        ≡ withdrawing)
unfolding run lorelum.Prelude.any
looks_again = (refl, refl)

-- A dead reader's lease is removed, and the pruner goes to work.
abbrev leaves_lease : List Event
leaves_lease =
    reads 5 ∷ reads 5 ∷ reads 5 ∷ reads 5 ∷ dies 5 ∷ prunes 0 ∷ prunes 0 ∷ prunes 0 ∷ prunes 0 ∷ []

reclaims :
    ((run own leaves_lease initial).leases ≡ [])
    × (is_pruning ((run own leaves_lease initial).pruner 0) ≡ true)
unfolding run lorelum.Prelude.any lorelum.Prelude.keep
reclaims = (refl, refl)

-- Once the pruner's work has removed the directory, its own guard in it, reader 5 gets to work while
-- the removal goes on.
abbrev race : List Event
race =
    prunes 0
    ∷ prunes 0
    ∷ prunes 0
    ∷ removes_directory 0
    ∷ reads 5
    ∷ reads 5
    ∷ reads 5
    ∷ reads 5
    ∷ []

races :
    ((run own race initial).reader 5 ≡ working)
    × (is_pruning ((run own race initial).pruner 0) ≡ true)
unfolding run lorelum.Prelude.any
races = (refl, refl)

-- Reader 5's second look fails, and it goes to work.
looks_in_vain :
    (run own (reads 5 ∷ reads 5 ∷ reads 5 ∷ look_fails 5 ∷ []) initial).reader 5 ≡ working
unfolding run lorelum.Prelude.any
looks_in_vain = refl

abbrev working_now : List Event
working_now = reads 5 ∷ reads 5 ∷ reads 5 ∷ reads 5 ∷ prunes 0 ∷ prunes 0 ∷ prunes 0 ∷ []

lease_excludes_pruning_example : is_pruning ((run own working_now initial).pruner 0) ≡ false
unfolding leaves_directory listed lorelum.Prelude.any lorelum.Prelude.all run
lease_excludes_pruning_example = lease_excludes_pruning own working_now 5 0 refl refl refl
