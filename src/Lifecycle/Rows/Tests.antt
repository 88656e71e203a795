-- ===== src/Lifecycle/Rows/Tests.antt =====
-- A rebuild and an incremental write at concrete practices, and the theorems there.
use lorelum.Prelude.{
  ◌≡◌, ◌⊎◌, refl, List, [], ◌∷◌, ◌++◌, true, false, ◌&&◌, Option, none, some, Text, units, contains,
  find,
}
use lorelum.LocalStore.Canonical.{Practice, canonicalize_practice}
use lorelum.LocalStore.Effective.{Hashing, EffectivePractice}
use lorelum.Lifecycle.Store.{PackEntry, upsert}
use lorelum.Lifecycle.Rows.{
  ok, err, no_prior_revision, outside_affected, PracticeRow, Database, DerivedStoreState,
  IncrementalState, row_of, is_row,
}
use lorelum.Lifecycle.Rows.Writes.{
  write_derived_state, apply_incremental_derived_state, changed_practice,
}
use lorelum.Lifecycle.Rows.Refinement.{
  Represents, view_of, updated, tuple_of_state, practice_rows_refine, rebuild-Represents,
}
use lorelum.Lifecycle.Rows.Revisions.{incremental_revisions}

-- Stand-ins: the id and the title for the JSON text, and that text for its hash.
abbrev hashing : Hashing
hashing = record { stringify = λ p. p.id ++ p.title; sha256 = λ t. t }

abbrev practice_titled : Text → Text → Practice
practice_titled id title = record {
  id = id;
  title = title;
  stage = [];
  tech_stack = [];
  applies_when = [];
  severity = none;
  body = none;
  anti_patterns = none;
}

abbrev effective : Text → Text → EffectivePractice
effective id title = record {
  practice_id = id;
  content_digest = id ++ title;
  canonical_content = id ++ title;
  practice = practice_titled id title;
  sources =
      record {
        pack_name = units "api";
        practice_id = id;
        content_digest = id ++ title;
        source_path = units "practices/a.md";
        canonical_practice =
            canonicalize_practice hashing.stringify hashing.sha256 (practice_titled id title);
      }
      ∷ [];
}

abbrev pack : PackEntry
pack = record {
  pack_name = units "api";
  pack_version = units "1.0.0";
  artifact_digest = units "d";
  storage_key = units "k";
  installed_at = units "t";
}

abbrev empty_database : Database
empty_database = record {
  metadata = none;
  active_packs = [];
  practices = [];
  sources = [];
  revision_log = [];
  outbox = [];
}

abbrev first_state : DerivedStoreState
first_state = record {
  generation = 1;
  effective_revision = 1;
  active_packs = pack ∷ [];
  effective_practices =
      effective (units "a") (units "v1") ∷ effective (units "b") (units "v1") ∷ [];
  revision_notification = none;
  supersedes_pending = false;
  revision_log_delta = none;
  clear_revision_log = true;
}

abbrev change : IncrementalState
change = record {
  derived = record {
    generation = 2;
    effective_revision = 2;
    active_packs = pack ∷ [];
    effective_practices = effective (units "b") (units "v2") ∷ [];
    revision_notification = none;
    supersedes_pending = false;
    revision_log_delta = some (record { added = []; changed = units "b" ∷ []; invalidated = [] });
    clear_revision_log = false;
  };
  active_pack_mutation = upsert pack;
  affected_practice_ids = units "b" ∷ [];
}

abbrev source_row_of : Text → Text → lorelum.Lifecycle.Rows.SourceRow
source_row_of id title = record {
  pack_name = units "api";
  practice_id = id;
  content_digest = id ++ title;
  source_path = units "practices/a.md";
}

abbrev rebuilt : Database
rebuilt = record {
  metadata = tuple_of_state first_state;
  active_packs = pack ∷ [];
  practices =
      row_of (effective (units "a") (units "v1")) 1
      ∷ row_of (effective (units "b") (units "v1")) 1
      ∷ [];
  sources = source_row_of (units "a") (units "v1") ∷ source_row_of (units "b") (units "v1") ∷ [];
  revision_log = [];
  outbox = [];
}

abbrev changed : Database
changed = record {
  metadata = tuple_of_state change.derived;
  active_packs = pack ∷ [];
  practices =
      row_of (effective (units "a") (units "v1")) 1
      ∷ row_of (effective (units "b") (units "v2")) 2
      ∷ [];
  sources = source_row_of (units "a") (units "v1") ∷ source_row_of (units "b") (units "v2") ∷ [];
  revision_log =
      record {
        revision = 2;
        delta = record { added = []; changed = units "b" ∷ []; invalidated = [] };
      }
      ∷ [];
  outbox = [];
}

abbrev b_row : PracticeRow
b_row = row_of (effective (units "b") (units "v2")) 2

rebuilds : write_derived_state hashing first_state empty_database ≡ ok rebuilt
unfolding write_derived_state lorelum.Prelude.text_eq canonicalize_practice
    lorelum.LocalStore.Canonical.canonical_practice_object lorelum.Prelude.all lorelum.Prelude.any
    lorelum.LocalStore.SourcePath.is_practice_source_path lorelum.Prelude.sort
rebuilds = refl

changes : apply_incremental_derived_state hashing change rebuilt ≡ ok changed
unfolding apply_incremental_derived_state lorelum.Prelude.text_eq canonicalize_practice
    lorelum.LocalStore.Canonical.canonical_practice_object lorelum.Prelude.all lorelum.Prelude.any
    lorelum.LocalStore.SourcePath.is_practice_source_path contains lorelum.Prelude.sort
    lorelum.Prelude.keep
changes = refl

-- Without a delta, a practice that has no row has no revision to keep.
no_revision :
    apply_incremental_derived_state hashing
      (record change { derived = record change.derived { revision_log_delta = none } })
      empty_database
    ≡ err no_prior_revision
unfolding apply_incremental_derived_state lorelum.Prelude.text_eq canonicalize_practice
    lorelum.LocalStore.Canonical.canonical_practice_object lorelum.Prelude.all lorelum.Prelude.any
    lorelum.LocalStore.SourcePath.is_practice_source_path contains lorelum.Prelude.sort
    lorelum.Prelude.keep find
no_revision = refl

practice_rows_refine_example :
    (Represents rebuilt (view_of first_state.effective_practices)
      × (rebuilt.metadata ≡ tuple_of_state first_state))
    × (Represents changed (updated change (view_of first_state.effective_practices))
        × (changed.metadata ≡ tuple_of_state change.derived))
unfolding write_derived_state
practice_rows_refine_example =
    practice_rows_refine hashing first_state change (view_of first_state.effective_practices)
      rebuilt rebuilt changed rebuilds changes
      (rebuild-Represents hashing first_state empty_database rebuilt rebuilds).0

incremental_revisions_example :
    (((contains (units "b") change.affected_practice_ids
          && changed_practice change.derived.revision_log_delta (units "b"))
        ≡ true)
      × (b_row.effective_revision ≡ change.derived.effective_revision))
    ⊎ (((contains (units "b") change.affected_practice_ids
            && changed_practice change.derived.revision_log_delta (units "b"))
          ≡ false)
        × (old : PracticeRow) × (find (is_row (units "b")) rebuilt.practices ≡ some old)
        × (b_row.effective_revision ≡ old.effective_revision))
unfolding find lorelum.Prelude.text_eq
incremental_revisions_example =
    incremental_revisions hashing change rebuilt changed (units "b") b_row changes refl
