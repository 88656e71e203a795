-- ===== src/Lifecycle/Install.antt =====
-- packages/engine/src/local-store/lifecycle/{install,uninstall,counters}.ts: what a mutation decides
-- from the recovered manifest, and the writes that it then makes one after the other. The sealed
-- snapshot's digest, the operation's UUID and the time are arguments, as are the rows that the
-- repository materializes for the affected practices.
pub mod Ordering
pub mod Targets
pub mod Crash
pub mod Planning
pub mod Atomic
pub mod Removal
pub mod Uninstall
mod Tests
use lorelum.Prelude.{
  ℕ, suc, ◌+◌, ◌≡◌, refl, Bool, true, false, not, ◌&&◌, ◌||◌, Option, none, some, List, [], ◌∷◌,
  ◌++◌, ltb, leb, ◌==◌, if◌then◌else◌, Text, units, text_eq, find, keep, any, sort,
}
use lorelum.LocalStore.Effective
use lorelum.LocalStore.Effective.{
  PracticeSource, EffectivePractice, PackCandidate, ReconciledPractices, Hashing,
  reconcile_effective_practices, remove_pack_sources,
}
use lorelum.Lifecycle.Store.{
  Store, Manifest, Tuple, PackEntry, Journal, Mode, install_mode, upgrade_mode, Formats, Result, ok,
  err, StoreError, counter_exhausted, upgrade_required, pack_not_installed, merge_failed, ◌>>=◌,
  ◌>>◌, refuse, max_safe_integer, tuple_of, named, replace_entry, name_before, artifact_of, Effect,
  write_journal, promote, publish, sync, remove_locator, commit, clear, collect, upsert, remove,
}

-- `!Number.isSafeInteger(value) || value === Number.MAX_SAFE_integer` for a number from 0 on.
unfoldable pub next_store_counter : ℕ → Result ℕ
next_store_counter value =
    if leb max_safe_integer value then err counter_exhausted else ok (value + 1)

unfoldable pub with_pack_entry : Manifest → PackEntry → Bool → ℕ → ℕ → Manifest
with_pack_entry m entry replace generation effective_revision = record {
  schema_version = m.schema_version;
  generation = generation;
  effective_revision = effective_revision;
  packs = sort name_before (if replace then replace_entry entry m.packs else m.packs ++ entry ∷ []);
}

unfoldable pub without_pack : Manifest → Text → ℕ → Result Manifest
unfolding next_store_counter
without_pack m name effective_revision = do
  let generation = (← next_store_counter m.generation)
  ok (record {
    schema_version = m.schema_version;
    generation = generation;
    effective_revision = effective_revision;
    packs = keep (λ p. not (named name p)) m.packs;
  })

abbrev pub merged {ℓ} : {A : Type ℓ} → Effective.Result A → Result A
merged (ok a) = ok a
merged (err e) = err (merge_failed e)

unfoldable pub active_sources : List EffectivePractice → List PracticeSource
active_sources [] = []
active_sources (p ∷ ps) = p.sources ++ active_sources ps

unfoldable pub next_revision : Bool → ℕ → Result ℕ
unfolding next_store_counter
next_revision true revision = next_store_counter revision
next_revision false revision = ok revision

unfoldable pub entry_for_candidate : PackCandidate → (version digest now : Text) → PackEntry
entry_for_candidate candidate version digest now = record {
  pack_name = candidate.name;
  pack_version = version;
  artifact_digest = digest;
  storage_key = units "p-" ++ candidate.name;
  installed_at = now;
}

abbrev pub journal_for : Text → Manifest → Manifest → Journal
journal_for id old target = record {
  operation_id = id;
  old_manifest = old;
  target_manifest = target;
}

abbrev pub is_upgrade : Mode → Bool
is_upgrade install_mode = false
is_upgrade upgrade_mode = true

-- Only an upgrade leaves an artifact without a reference.
abbrev pub garbage : Mode → Option PackEntry → PackEntry → List Effect
garbage install_mode existing entry = []
garbage upgrade_mode none entry = []
garbage upgrade_mode (some old) entry = collect (entry.storage_key, old.artifact_digest) ∷ []

unfoldable pub put_effects : Text → Manifest → Manifest → PackEntry → List Effect → List Effect
put_effects id active target entry cleanup =
    write_journal (journal_for id active target)
    ∷ promote (artifact_of entry)
    ∷ publish target
    ∷ sync target
    ∷ commit (tuple_of target) (upsert entry)
    ∷ clear id
    ∷ cleanup

unfoldable pub remove_effects : Text → Manifest → Manifest → PackEntry → List Effect
remove_effects id active target entry =
    write_journal (journal_for id active target)
    ∷ publish target
    ∷ remove_locator entry.storage_key
    ∷ commit (tuple_of target) (remove entry.pack_name)
    ∷ clear id
    ∷ collect (artifact_of entry)
    ∷ []

abbrev pub has_digest : Text → Option PackEntry → Bool
has_digest digest none = false
has_digest digest (some e) = text_eq e.artifact_digest digest

abbrev pub is_some {ℓ} : {A : Type ℓ} → Option A → Bool
is_some none = false
is_some (some a) = true

abbrev pub replaced_pack : Mode → Text → Option Text
replaced_pack install_mode name = none
replaced_pack upgrade_mode name = some name

-- The guards of `installOrUpgrade` after the idempotent return, and the manifest that it publishes.
unfoldable pub target_manifest :
    Hashing → Manifest → PackCandidate → PackEntry → Mode → List EffectivePractice → Result Manifest
unfolding next_store_counter next_revision active_sources with_pack_entry
    reconcile_effective_practices
target_manifest h active candidate entry mode practices = do
  let generation = (← next_store_counter active.generation)
  let reconciled =
      (← merged (
        reconcile_effective_practices h (active_sources practices) candidate
          (replaced_pack mode candidate.name)))
  let revision = (← next_revision reconciled.advances_effective_revision active.effective_revision)
  ok (with_pack_entry active entry (is_upgrade mode) generation revision)

-- `installOrUpgrade`: the writes that it makes; none but the links where the digest is already active.
unfoldable pub install_or_upgrade :
    Hashing
    → Manifest
    → PackCandidate
    → (version digest now operation : Text) → Mode
    → List EffectivePractice
    → Result (List Effect)
unfolding target_manifest entry_for_candidate put_effects
install_or_upgrade h active candidate version digest now operation mode practices =
    let existing = find (named candidate.name) active.packs in
    let entry = entry_for_candidate candidate version digest now in
    if has_digest digest existing then ok (sync active ∷ []) else do
      refuse (not (is_upgrade mode) && is_some existing) upgrade_required
      refuse (is_upgrade mode && not (is_some existing)) pack_not_installed
      let target = (← target_manifest h active candidate entry mode practices)
      ok (put_effects operation active target entry (garbage mode existing entry))

abbrev pub required_pack : Option PackEntry → Result PackEntry
required_pack none = err pack_not_installed
required_pack (some e) = ok e

unfoldable pub uninstall_pack :
    Hashing → Manifest → (name operation : Text) → List EffectivePractice → Result (List Effect)
unfolding active_sources next_revision without_pack remove_effects remove_pack_sources
uninstall_pack h active name operation practices = do
  let entry = (← required_pack (find (named name) active.packs))
  let reconciled = (← merged (remove_pack_sources h (active_sources practices) name))
  let revision = (← next_revision reconciled.advances_effective_revision active.effective_revision)
  let target = (← without_pack active name revision)
  ok (remove_effects operation active target entry)
