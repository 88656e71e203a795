-- ===== src/Lifecycle/Recovery.antt =====
-- packages/engine/src/local-store/lifecycle/recovery.ts, and the checks of `withStoreMutation`
-- (lifecycle/mutation.ts): what brings the Store back to one state after an interruption.
pub mod Settled
pub mod Agreement
use lorelum.Prelude.{
  ℕ, ◌≡◌, refl, Bool, true, false, not, ◌&&◌, ◌||◌, Option, none, some, List, [], ◌∷◌, ◌==◌,
  if◌then◌else◌, Text, text_eq, text_lt, find, sort,
}
use lorelum.Lifecycle.Store.{
  Store, Manifest, Tuple, Journal, Formats, Result, ok, err, recovery_required, manifest_error,
  ◌>>=◌, ◌>>◌, refuse, manifest_valid, is_manifest_equal, tuple_of, tuple_equals, empty_manifest,
  write_manifest, sync_current_pack_locators, clear_operation_journal, installed_pack_entries_equal,
}

pub record RecoveryResult : Type 0 where
  pub manifest : Manifest
  pub metadata : Option Tuple

abbrev pub operation_ids : List Journal → List Text
operation_ids [] = []
operation_ids (j ∷ js) = j.operation_id ∷ operation_ids js

unfoldable pub list_operation_journals : Store → List Text
list_operation_journals s = sort text_lt (operation_ids s.journals)

-- A journal whose two manifests are invalid is refused.
abbrev pub checked_journal : Formats → Option Journal → Result Journal
checked_journal f none = err manifest_error
checked_journal f (some j) =
    if manifest_valid f j.old_manifest && manifest_valid f j.target_manifest
    then ok j
    else err manifest_error

unfoldable pub read_operation_journal : Formats → Store → Text → Result Journal
read_operation_journal f s id = checked_journal f (find (λ j. text_eq j.operation_id id) s.journals)

unfoldable pub try_read_manifest : Formats → Option Manifest → Result (Option Manifest)
try_read_manifest f none = ok none
try_read_manifest f (some m) = if manifest_valid f m then ok (some m) else err manifest_error

-- `writeManifest`, `syncCurrentPackLocators`, `clearOperationJournal`
unfoldable pub restore : Formats → Manifest → Text → Store → Result Store
unfolding write_manifest sync_current_pack_locators clear_operation_journal
restore f m id s = do
  let written = (← write_manifest f m s)
  let linked = (← sync_current_pack_locators m written)
  ok (clear_operation_journal id linked)

abbrev pub is_active : Manifest → Option Manifest → Bool
is_active m none = false
is_active m (some active) = is_manifest_equal active m

-- As `restore`, but a manifest that is already active is not written again.
unfoldable pub complete : Formats → Manifest → Text → Store → Result Store
unfolding write_manifest sync_current_pack_locators clear_operation_journal try_read_manifest
    is_manifest_equal
complete f m id s = do
  let active = (← try_read_manifest f s.manifest)
  let written = (← if is_active m active then ok s else write_manifest f m s)
  let linked = (← sync_current_pack_locators m written)
  ok (clear_operation_journal id linked)

unfoldable pub converge : Formats → Journal → Text → Option Tuple → Store → Result Store
unfolding restore complete
converge f j id none s =
    if j.old_manifest.generation == 0 && j.old_manifest.effective_revision == 0
    then restore f j.old_manifest id s
    else err recovery_required
converge f j id (some t) s =
    if tuple_equals t (tuple_of j.target_manifest)
    then complete f j.target_manifest id s
    else if tuple_equals t (tuple_of j.old_manifest)
    then restore f j.old_manifest id s
    else err recovery_required

unfoldable pub reconcile_journal : Formats → Store → Text → Result Store
unfolding read_operation_journal converge
reconcile_journal f s id = do
  let j = (← read_operation_journal f s id)
  converge f j id s.metadata s

unfoldable pub reconcile_all : Formats → List Text → Store → Result Store
unfolding reconcile_journal
reconcile_all f [] s = ok s
reconcile_all f (id ∷ ids) s = reconcile_journal f s id >>= reconcile_all f ids

unfoldable pub verify : Option Manifest → Option Tuple → Store → Result (Store × RecoveryResult)
unfolding sync_current_pack_locators
verify none none s = do
  let linked = (← sync_current_pack_locators empty_manifest s)
  ok (linked, record { manifest = empty_manifest; metadata = none })
verify none (some t) s = err recovery_required
verify (some m) none s = err recovery_required
verify (some m) (some t) s = do
  refuse (not (tuple_equals t (tuple_of m))) recovery_required
  let linked = (← sync_current_pack_locators m s)
  ok (linked, record { manifest = m; metadata = some t })

unfoldable pub run_store_recovery : Formats → Store → Result (Store × RecoveryResult)
unfolding list_operation_journals reconcile_all try_read_manifest verify
run_store_recovery f s = do
  let converged = (← reconcile_all f (list_operation_journals s) s)
  let manifest = (← try_read_manifest f converged.manifest)
  verify manifest converged.metadata converged

abbrev pub rows_agree : RecoveryResult → Store → Bool
rows_agree r s = elim r.metadata [
  | none ↦ true
  | some t ↦ installed_pack_entries_equal s.active_packs r.manifest.packs
]

-- What `withStoreMutation` does under the lock before it runs the mutation.
unfoldable pub enter_mutation : Formats → Store → Result (Store × RecoveryResult)
unfolding run_store_recovery installed_pack_entries_equal
enter_mutation f s = do
  let (t, r) = (← run_store_recovery f s)
  refuse (not (rows_agree r t)) recovery_required
  ok (t, r)
