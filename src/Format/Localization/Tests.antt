-- ===== src/Format/Localization/Tests.antt =====
-- A report, and its theorem at a path.
use lorelum.Prelude.{
  ◌≡◌, refl, true, false, not, ◌&&◌, ◌||◌, List, [], ◌∷◌, Text, units, contains, get, keys, ltb,
}
use lorelum.Format.Localization.{
  LocalizationManifestEntry, LocalizationStateInput, present, matches, analyze_localization_state,
}
use lorelum.Format.Localization.State.{last_entry, count, analyze_localization_state_lem}

abbrev entry : Text → Text → LocalizationManifestEntry
entry path digest = record { path = path; source_digest = digest }

abbrev pack : LocalizationStateInput
pack = record {
  canonical_digests =
      (units "d", units "4")
      ∷ (units "a", units "1")
      ∷ (units "b", units "2")
      ∷ (units "c", units "3")
      ∷ [];
  entries =
      entry (units "a") (units "0")
      ∷ entry (units "a") (units "1")
      ∷ entry (units "b") (units "0")
      ∷ entry (units "z") (units "9")
      ∷ [];
  localized_paths = units "y" ∷ units "d" ∷ units "a" ∷ units "b" ∷ [];
}

reported : analyze_localization_state pack ≡ record {
  current = units "a" ∷ [];
  stale = units "b" ∷ units "d" ∷ [];
  missing = units "c" ∷ [];
  orphaned = units "a" ∷ units "y" ∷ units "z" ∷ [];
}
unfolding analyze_localization_state lorelum.Prelude.sort lorelum.Prelude.text_lt contains
    lorelum.Prelude.text_eq get lorelum.Prelude.put lorelum.Prelude.add
reported = refl

analyze_localization_state_lem_example :
    (contains (units "a") (analyze_localization_state pack).current ≡ (
      contains (units "a") (keys pack.canonical_digests)
      && (contains (units "a") pack.localized_paths
          && matches
              (last_entry (units "a") pack.entries)
              (get (units "a") pack.canonical_digests))))
    × (contains (units "a") (analyze_localization_state pack).stale ≡ (
        contains (units "a") (keys pack.canonical_digests)
        && (contains (units "a") pack.localized_paths
            && not (
                matches
                  (last_entry (units "a") pack.entries)
                  (get (units "a") pack.canonical_digests)))))
    × (contains (units "a") (analyze_localization_state pack).missing ≡ (
        contains (units "a") (keys pack.canonical_digests)
        && not (contains (units "a") pack.localized_paths)))
    × (contains (units "a") (analyze_localization_state pack).orphaned ≡ (
        ltb 1 (count (units "a") pack.entries)
        || (not (present (get (units "a") pack.canonical_digests))
            && (ltb 0 (count (units "a") pack.entries)
                || contains (units "a") pack.localized_paths))))
analyze_localization_state_lem_example = analyze_localization_state_lem pack (units "a")
