-- ===== src/Format/Localization.antt =====
-- packages/format/src/localization/state.ts: which localized files of a Pack are up to date. Paths are
-- keys of an object: they are Pack-relative, so none is a property that every object has.
pub mod State
mod Tests
use lorelum.Prelude.{
  ℕ, Bool, true, false, not, ◌&&◌, ◌||◌, Option, none, some, List, [], ◌∷◌, if◌then◌else◌, Text,
  text_eq, text_lt, contains, add, get, put, keys, sort,
}

pub record LocalizationManifestEntry : Type 0 where
  pub path : Text
  pub source_digest : Text

pub record LocalizationStateInput : Type 0 where
  pub canonical_digests : List (Text × Text)
  pub entries : List LocalizationManifestEntry
  pub localized_paths : List Text

pub record LocalizationStateReport : Type 0 where
  pub current : List Text
  pub stale : List Text
  pub missing : List Text
  pub orphaned : List Text

abbrev pub present {ℓ} : {A : Type ℓ} → Option A → Bool
present none = false
present (some x) = true

-- The map of entries by path, a later entry over an earlier one, and the set of orphaned paths.
pub record Recorded : Type 0 where
  pub entry_by_path : List (Text × LocalizationManifestEntry)
  pub orphaned : List Text

abbrev pub nothing_recorded : Recorded
nothing_recorded = record { entry_by_path = []; orphaned = [] }

abbrev pub add_if : Bool → Text → List Text → List Text
add_if false x xs = xs
add_if true x xs = add x xs

unfoldable pub record_entry : List (Text × Text) → LocalizationManifestEntry → Recorded → Recorded
record_entry digests e r = record {
  entry_by_path = put e.path e r.entry_by_path;
  orphaned =
      add_if (not (present (get e.path digests))) e.path
        (add_if (present (get e.path r.entry_by_path)) e.path r.orphaned);
}

unfoldable pub record_entries :
    List (Text × Text) → List LocalizationManifestEntry → Recorded → Recorded
unfolding record_entry
record_entries digests [] r = r
record_entries digests (e ∷ es) r = record_entries digests es (record_entry digests e r)

unfoldable pub add_unknown : List (Text × Text) → List Text → List Text → List Text
add_unknown digests [] orphaned = orphaned
add_unknown digests (path ∷ paths) orphaned =
    add_unknown digests paths (add_if (not (present (get path digests))) path orphaned)

pub data Standing : Type 0 where
  is_current is_stale is_missing : Standing

-- `entry.source_digest === input.canonicalDigests[path]`, once there is an entry.
abbrev pub matches : Option LocalizationManifestEntry → Option Text → Bool
matches none digest = false
matches (some e) none = false
matches (some e) (some digest) = text_eq e.source_digest digest

unfoldable pub standing :
    List (Text × Text) → List Text → List (Text × LocalizationManifestEntry) → Text → Standing
standing digests localized entries path =
    if not (contains path localized)
    then is_missing
    else if matches (get path entries) (get path digests)
    then is_current
    else is_stale

abbrev pub put_in : Standing → Text → LocalizationStateReport → LocalizationStateReport
put_in is_current path r = record r { current = path ∷ r.current }
put_in is_stale path r = record r { stale = path ∷ r.stale }
put_in is_missing path r = record r { missing = path ∷ r.missing }

unfoldable pub classify : (Text → Standing) → List Text → List Text → LocalizationStateReport
classify stands orphaned [] = record { current = []; stale = []; missing = []; orphaned = orphaned }
classify stands orphaned (path ∷ paths) = put_in (stands path) path (classify stands orphaned paths)

unfoldable pub analyze_localization_state : LocalizationStateInput → LocalizationStateReport
unfolding record_entries add_unknown standing classify
analyze_localization_state input =
    let recorded = record_entries input.canonical_digests input.entries nothing_recorded in
    classify (standing input.canonical_digests input.localized_paths recorded.entry_by_path)
      (sort text_lt (add_unknown input.canonical_digests input.localized_paths recorded.orphaned))
      (sort text_lt (keys input.canonical_digests))
