-- ===== src/Query/Catalog/Tests.antt =====
-- Runs of the catalog, and its theorem at a record.
use lorelum.Prelude.{
  ℕ, suc, ◌≤◌, ◌≡◌, refl, true, false, none, some, List, [], ◌∷◌, ◌++◌, Text, units, length, all,
  ltb, arith,
}
use lorelum.Query.Catalog.{
  keyword_kind, semantic_kind, ready_index, ArtifactRecord, SourceRow, Catalog, valid_record,
  safe_relative_artifact_path, record_artifact, remove_artifacts, recent_artifact_ids,
}
use lorelum.Query.Catalog.Queries.{catalog_status, recent_artifact_predecessors}
use lorelum.Query.Catalog.Recent.{recorded_artifact_is_recent}

abbrev digest_a : Text
digest_a = units "aaaaaaaaaaaaaaaaaaaaaaaaaaaaaaaaaaaaaaaaaaaaaaaaaaaaaaaaaaaaaaaa"

abbrev digest_b : Text
digest_b = units "bbbbbbbbbbbbbbbbbbbbbbbbbbbbbbbbbbbbbbbbbbbbbbbbbbbbbbbbbbbbbbbb"

abbrev slot : Text
slot = units "5555555555555555555555555555555555555555555555555555555555555555"

abbrev artifact : Text → ArtifactRecord
artifact id = record {
  artifact_id = id;
  kind = keyword_kind;
  profile_id = none;
  corpus_digest = id;
  source_slot_id = some slot;
  source_revision = some 3;
  document_count = 2;
  index_state = ready_index;
  verified = true;
}

abbrev path_of : Text → Text
path_of id = units "keyword/" ++ id ++ units "/active.sqlite"

abbrev empty_catalog : Catalog
empty_catalog = record { artifacts = []; sources = []; indexes = [] }

abbrev first_source : SourceRow
first_source = record {
  artifact_id = digest_a;
  source_slot_id = slot;
  source_revision = some 3;
  last_accessed_at = 7;
}

abbrev catalog : Catalog
catalog = record {
  artifacts =
      record {
        artifact_id = digest_a;
        kind = keyword_kind;
        profile_id = none;
        corpus_digest = digest_a;
        document_count = 2;
        created_at = 7;
        last_accessed_at = 7;
      }
      ∷ [];
  sources = first_source ∷ [];
  indexes =
      record {
        artifact_id = digest_a;
        index_state = ready_index;
        relative_path = path_of digest_a;
        byte_size = 10;
        published_at = 7;
        verified_at = some 7;
      }
      ∷ [];
}

records : record_artifact (artifact digest_a) (path_of digest_a) (some 10) 7 empty_catalog ≡ catalog
unfolding record_artifact lorelum.Lifecycle.Store.is_digest all lorelum.Prelude.text_eq
records = refl

ignores_other_paths :
    (safe_relative_artifact_path (units "../keyword/x") ≡ false)
    × (safe_relative_artifact_path (units "vector/" ++ digest_a ++ units "/active.sqlite") ≡ false)
    × (record_artifact (artifact digest_a) (path_of digest_a) none 7 empty_catalog ≡ empty_catalog)
unfolding safe_relative_artifact_path record_artifact
ignores_other_paths = (refl, refl, refl)

finds :
    (recent_artifact_ids keyword_kind slot 1
        (some (record_artifact (artifact digest_b) (path_of digest_b) (some 4) 9 catalog))
      ≡ digest_b ∷ [])
    × (recent_artifact_ids semantic_kind slot 5 (some catalog) ≡ [])
    × (recent_artifact_ids keyword_kind slot 0 (some catalog) ≡ [])
    × (remove_artifacts (digest_a ∷ units "x" ∷ []) catalog ≡ empty_catalog)
unfolding recent_artifact_ids lorelum.Lifecycle.Store.is_digest all lorelum.Prelude.sort
    lorelum.Prelude.keep record_artifact lorelum.Prelude.text_eq lorelum.Prelude.any
    remove_artifacts lorelum.Prelude.contains
finds = (refl, refl, refl, refl)

counts :
    (catalog_status (some catalog)
      ≡ record { artifact_count = 1; keyword_artifact_count = 1; semantic_artifact_count = 0 })
    × (recent_artifact_predecessors keyword_kind slot 2 (some catalog)
        ≡ record {
          artifact_id = digest_a;
          corpus_digest = digest_a;
          document_count = 2;
          source_revision = some 3;
        }
          ∷ [])
unfolding catalog_status lorelum.Prelude.keep recent_artifact_predecessors
    lorelum.Lifecycle.Store.is_digest all lorelum.Prelude.sort lorelum.Query.Catalog.selected
    lorelum.Prelude.text_eq lorelum.Prelude.any lorelum.Prelude.find
counts = (refl, refl)

recorded_artifact_is_recent_example :
    ((rest : List Text) × (recent_artifact_ids keyword_kind slot 5
          (some (record_artifact (artifact digest_b) (path_of digest_b) (some 4) 9 catalog))
        ≡ digest_b ∷ rest))
    × (length (
          recent_artifact_ids keyword_kind slot 5
            (some (record_artifact (artifact digest_b) (path_of digest_b) (some 4) 9 catalog)))
        ≤ 5)
unfolding valid_record lorelum.Lifecycle.Store.is_digest all safe_relative_artifact_path
    lorelum.Prelude.text_eq
recorded_artifact_is_recent_example =
    recorded_artifact_is_recent (artifact digest_b) (path_of digest_b) slot 4 9 4 catalog refl refl
      refl refl (omega arith)
