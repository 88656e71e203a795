-- ===== src/Query/Catalog/Queries.antt =====
-- The other queries of cache-catalog.ts: the counts, and the predecessors with their metadata.
use lorelum.Prelude.{
  ℕ, Bool, true, ◌&&◌, Option, none, some, List, [], ◌∷◌, ◌++◌, leb, if◌then◌else◌, Text, text_eq,
  find, keep, length, sort,
}
use lorelum.Lifecycle.Store.{is_digest, max_safe_integer}
use lorelum.Query.Catalog.{
  Kind, keyword_kind, semantic_kind, same_kind, ArtifactRow, SourceRow, Catalog, first_rows,
  selected, later,
}

pub record CatalogStatus : Type 0 where
  pub artifact_count : ℕ
  pub keyword_artifact_count : ℕ
  pub semantic_artifact_count : ℕ

unfoldable pub catalog_status : Option Catalog → CatalogStatus
catalog_status none = record {
  artifact_count = 0;
  keyword_artifact_count = 0;
  semantic_artifact_count = 0;
}
catalog_status (some catalog) = record {
  artifact_count = length catalog.artifacts;
  keyword_artifact_count = length (keep (λ a. same_kind a.kind keyword_kind) catalog.artifacts);
  semantic_artifact_count = length (keep (λ a. same_kind a.kind semantic_kind) catalog.artifacts);
}

pub record Predecessor : Type 0 where
  pub artifact_id : Text
  pub corpus_digest : Text
  pub document_count : ℕ
  pub source_revision : Option ℕ

abbrev exact_or_null : Option ℕ → Bool
exact_or_null none = true
exact_or_null (some n) = leb n max_safe_integer

-- The joined row of a source, if it is well-formed.
abbrev predecessor : SourceRow → Option ArtifactRow → List Predecessor
predecessor s none = []
predecessor s (some a) =
    if is_digest a.artifact_id
      && is_digest a.corpus_digest
      && leb a.document_count max_safe_integer
      && exact_or_null s.source_revision
    then record {
      artifact_id = a.artifact_id;
      corpus_digest = a.corpus_digest;
      document_count = a.document_count;
      source_revision = s.source_revision;
    }
      ∷ []
    else []

abbrev predecessors_of : List ArtifactRow → List SourceRow → List Predecessor
predecessors_of artifacts [] = []
predecessors_of artifacts (s ∷ rows) =
    predecessor s (find (λ a. text_eq a.artifact_id s.artifact_id) artifacts)
    ++ predecessors_of artifacts rows

-- `recentContentArtifactPredecessors`
unfoldable pub recent_artifact_predecessors : Kind → Text → ℕ → Option Catalog → List Predecessor
recent_artifact_predecessors kind slot limit none = []
recent_artifact_predecessors kind slot limit (some catalog) =
    if is_digest slot && leb 1 limit && leb limit max_safe_integer
    then predecessors_of catalog.artifacts
        (first_rows limit (sort later (selected kind slot catalog)))
    else []
