-- ===== src/Lifecycle/Install/Tests.antt =====
-- Runs of installation and removal, and their theorems at a concrete Store.
use lorelum.Prelude.{
  ℕ, ◌+◌, ◌≡◌, ◌⊎◌, refl, Bool, true, false, not, Option, none, some, List, [], ◌∷◌, ◌++◌, leb,
  if◌then◌else◌, Text, units, find, all, keep,
}
use lorelum.LocalStore.Effective.{PackCandidate, EffectivePractice, Hashing}
use lorelum.Lifecycle.Store.{
  Store, Manifest, PackEntry, Formats, Result, ok, err, recovery_required, Mode, upgrade_mode,
  Effect, collect, manifest_valid, entry_valid, named, artifact_of, present,
  manifest_schema_version, empty_manifest,
}
use lorelum.Lifecycle.Recovery.{run_store_recovery, reconcile_all}
use lorelum.Lifecycle.Recovery.Settled.{settled, settled_result}
use lorelum.Lifecycle.Recovery.Agreement.{
  HasAgreed, run_store_recovery_agrees, first_install_crash_stuck, first_interrupted, first_journal,
}
use lorelum.Lifecycle.Install.{
  install_or_upgrade, uninstall_pack, target_manifest, entry_for_candidate, put_effects,
  remove_effects, has_digest, with_pack_entry,
}
use lorelum.Lifecycle.Install.Targets.{with_pack_entry-valid}
use lorelum.Lifecycle.Install.Crash.{IsRecoveredTo}
use lorelum.Lifecycle.Install.Atomic.{install_or_upgrade_atomic}
use lorelum.Lifecycle.Install.Uninstall.{uninstall_pack_atomic}

abbrev lenient : Formats
lenient = record { pack_identity = λ n v. true; is_instant = λ s. true }

abbrev hashing : Hashing
hashing = record { sha256 = λ s. s; stringify = λ p. p.id }

abbrev sixteen : Text → Text
sixteen s = s ++ s ++ s ++ s

abbrev digest_a : Text
digest_a = sixteen (units "0123456789abcdef")

abbrev digest_b : Text
digest_b = sixteen (units "fedcba9876543210")

abbrev candidate : PackCandidate
candidate = record { name = units "api"; sources = [] }

abbrev old_entry : PackEntry
old_entry = record {
  pack_name = units "api";
  pack_version = units "1.0.0";
  artifact_digest = digest_a;
  storage_key = units "p-api";
  installed_at = units "t";
}

abbrev other_entry : PackEntry
other_entry = record {
  pack_name = units "web";
  pack_version = units "1.0.0";
  artifact_digest = digest_a;
  storage_key = units "p-web";
  installed_at = units "t";
}

abbrev new_entry : PackEntry
new_entry = record {
  pack_name = units "api";
  pack_version = units "2.0.0";
  artifact_digest = digest_b;
  storage_key = units "p-api";
  installed_at = units "u";
}

abbrev before : Manifest
before = record {
  schema_version = manifest_schema_version;
  generation = 2;
  effective_revision = 5;
  packs = old_entry ∷ other_entry ∷ [];
}

abbrev upgraded : Manifest
upgraded = record {
  schema_version = manifest_schema_version;
  generation = 3;
  effective_revision = 5;
  packs = new_entry ∷ other_entry ∷ [];
}

abbrev stored : List (Text × Text)
stored = artifact_of other_entry ∷ artifact_of old_entry ∷ []

abbrev reduced : Manifest
reduced = record {
  schema_version = manifest_schema_version;
  generation = 3;
  effective_revision = 5;
  packs = other_entry ∷ [];
}

upgrade_effects :
    install_or_upgrade hashing before candidate
      (units "2.0.0")
      digest_b
      (units "u")
      (units "op")
      upgrade_mode
      []
    ≡ ok (
        put_effects (units "op") before upgraded new_entry (collect (units "p-api", digest_a) ∷ []))
unfolding install_or_upgrade entry_for_candidate find
    lorelum.LocalStore.Effective.diff_effective_practices lorelum.Lifecycle.Install.active_sources
    lorelum.Lifecycle.Install.next_revision lorelum.Lifecycle.Install.next_store_counter put_effects
    target_manifest with_pack_entry lorelum.LocalStore.Effective.reconcile_effective_practices
    lorelum.LocalStore.Effective.build_effective_practices lorelum.Prelude.sort
    lorelum.Prelude.insert keep lorelum.Prelude.text_eq lorelum.Prelude.text_lt
upgrade_effects = refl

removal_effects :
    uninstall_pack hashing before (units "api") (units "op") []
    ≡ ok (remove_effects (units "op") before reduced old_entry)
unfolding uninstall_pack find lorelum.Prelude.text_eq
    lorelum.LocalStore.Effective.build_effective_practices lorelum.Prelude.sort keep
    lorelum.LocalStore.Effective.diff_effective_practices
removal_effects = refl

before-IsValid : manifest_valid lenient before ≡ true
unfolding manifest_valid all entry_valid lorelum.Lifecycle.Store.is_digest lorelum.Prelude.text_eq
    lorelum.Lifecycle.Store.distinct_names lorelum.Prelude.any lorelum.Lifecycle.Store.ordered
    lorelum.Prelude.text_lt
before-IsValid = refl

before-IsPresent : all (present stored) before.packs ≡ true
unfolding all present lorelum.Prelude.any lorelum.Prelude.text_eq
before-IsPresent = refl

entry-IsValid :
    entry_valid lenient (entry_for_candidate candidate (units "2.0.0") digest_b (units "u")) ≡ true
unfolding entry_valid lorelum.Lifecycle.Store.is_digest entry_for_candidate all
    lorelum.Prelude.text_eq
entry-IsValid = refl

install_or_upgrade_atomic_example :
    ((has_digest digest_b (find (named (units "api")) before.packs) ≡ true)
      × IsRecoveredTo lenient before
          (put_effects
            (units "op")
            before
            upgraded
            new_entry
            (collect (units "p-api", digest_a) ∷ []))
          3
          (settled before stored []))
    ⊎ ((t : Manifest) × (target_manifest hashing before candidate
            (entry_for_candidate candidate (units "2.0.0") digest_b (units "u"))
            upgrade_mode
            []
          ≡ ok t)
        × IsRecoveredTo lenient
            (if leb 3 4 then before else t)
            (put_effects
              (units "op")
              before
              upgraded
              new_entry
              (collect (units "p-api", digest_a) ∷ []))
            3
            (settled before stored []))
install_or_upgrade_atomic_example =
    install_or_upgrade_atomic hashing lenient before candidate (units "2.0.0") digest_b (units "u")
      (units "op") upgrade_mode [] stored []
      (put_effects (units "op") before upgraded new_entry (collect (units "p-api", digest_a) ∷ []))
      3 before-IsValid entry-IsValid before-IsPresent upgrade_effects

uninstall_pack_atomic_example :
    (t : Manifest) × (t.packs ≡ keep (λ p. not (named (units "api") p)) before.packs)
    × (t.generation ≡ 2 + 1)
    × IsRecoveredTo lenient
        (if leb 5 3 then before else t)
        (remove_effects (units "op") before reduced old_entry)
        5
        (settled before stored [])
uninstall_pack_atomic_example =
    uninstall_pack_atomic hashing lenient before (units "api") (units "op") [] stored []
      (remove_effects (units "op") before reduced old_entry) 5 before-IsValid before-IsPresent
      removal_effects

with_pack_entry-valid_example :
    manifest_valid lenient (with_pack_entry before new_entry true 3 5) ≡ true
unfolding manifest_valid all entry_valid lorelum.Lifecycle.Store.is_digest lorelum.Prelude.text_eq
    lorelum.Lifecycle.Store.distinct_names lorelum.Prelude.any lorelum.Lifecycle.Store.ordered
    lorelum.Prelude.text_lt
with_pack_entry-valid_example =
    with_pack_entry-valid lenient before new_entry true 3 5 refl refl refl refl refl

run_store_recovery_agrees_example :
    HasAgreed
      (settled before stored ((units "p-api", digest_a) ∷ (units "p-web", digest_a) ∷ []))
      (settled_result before)
unfolding run_store_recovery lorelum.Prelude.sort manifest_valid all entry_valid
    lorelum.Lifecycle.Store.is_digest lorelum.Prelude.text_eq lorelum.Lifecycle.Store.distinct_names
    lorelum.Prelude.any lorelum.Lifecycle.Store.ordered lorelum.Prelude.text_lt present
run_store_recovery_agrees_example =
    run_store_recovery_agrees lenient (settled before stored [])
      (settled before stored ((units "p-api", digest_a) ∷ (units "p-web", digest_a) ∷ []))
      (settled_result before) refl

abbrev cleared : Store
cleared = record {
  manifest = some empty_manifest;
  metadata = none;
  active_packs = [];
  journals = [];
  artifacts = stored;
  locators = [];
}

first_install_crash_stuck_example :
    (run_store_recovery lenient
        (first_interrupted (first_journal (units "op") reduced) none stored [])
      ≡ err recovery_required)
    × (reconcile_all lenient
          (units "op" ∷ [])
          (first_interrupted (first_journal (units "op") reduced) none stored [])
        ≡ ok cleared)
    × (run_store_recovery lenient cleared ≡ err recovery_required)
unfolding manifest_valid all entry_valid lorelum.Lifecycle.Store.is_digest lorelum.Prelude.text_eq
    lorelum.Lifecycle.Store.distinct_names lorelum.Prelude.any lorelum.Lifecycle.Store.ordered
first_install_crash_stuck_example =
    first_install_crash_stuck lenient (units "op") reduced none stored [] refl
