-- ===== src/Query/Catalog.antt =====
-- packages/engine/src/query/artifacts/cache-catalog.ts: the catalog of cached artifacts, which is
-- advisory. A table is the list of its rows, an instant its number of milliseconds. Arguments: whether
-- the catalog's file is there (as an `Option`), the size of the artifact's file if that is there, and
-- its path below the artifacts' directory, which Node's `relative` finds.
pub mod Recent
pub mod Queries
mod Tests
use lorelum.Prelude.{
  ℕ, zero, suc, Bool, true, false, not, ◌&&◌, ◌||◌, Option, none, some, List, [], ◌∷◌, ◌++◌, ltb,
  leb, ◌==◌, if◌then◌else◌, Text, units, text_eq, contains, find, keep, any, all, length, is_empty,
  sort,
}
use lorelum.Lifecycle.Store.{is_digest, max_safe_integer}

pub data Kind : Type 0 where
  keyword_kind semantic_kind : Kind

pub data IndexState : Type 0 where
  ready_index progress_index : IndexState

pub record ArtifactRecord : Type 0 where
  pub artifact_id : Text
  pub kind : Kind
  pub profile_id : Option Text
  pub corpus_digest : Text
  pub source_slot_id : Option Text
  pub source_revision : Option ℕ
  pub document_count : ℕ
  pub index_state : IndexState
  pub verified : Bool

pub record ArtifactRow : Type 0 where
  pub artifact_id : Text
  pub kind : Kind
  pub profile_id : Option Text
  pub corpus_digest : Text
  pub document_count : ℕ
  pub created_at : ℕ
  pub last_accessed_at : ℕ

pub record SourceRow : Type 0 where
  pub artifact_id : Text
  pub source_slot_id : Text
  pub source_revision : Option ℕ
  pub last_accessed_at : ℕ

pub record IndexRow : Type 0 where
  pub artifact_id : Text
  pub index_state : IndexState
  pub relative_path : Text
  pub byte_size : ℕ
  pub published_at : ℕ
  pub verified_at : Option ℕ

pub record Catalog : Type 0 where
  pub artifacts : List ArtifactRow
  pub sources : List SourceRow
  pub indexes : List IndexRow

abbrev pub same_kind : Kind → Kind → Bool
same_kind keyword_kind keyword_kind = true
same_kind keyword_kind semantic_kind = false
same_kind semantic_kind keyword_kind = false
same_kind semantic_kind semantic_kind = true

abbrev pub same_state : IndexState → IndexState → Bool
same_state ready_index ready_index = true
same_state ready_index progress_index = false
same_state progress_index ready_index = false
same_state progress_index progress_index = true

abbrev pub digest_or_absent : Option Text → Bool
digest_or_absent none = true
digest_or_absent (some t) = is_digest t

abbrev pub revision_allowed : Option Text → Option ℕ → Bool
revision_allowed slot none = true
revision_allowed none (some n) = false
revision_allowed (some slot) (some n) = leb n max_safe_integer

unfoldable pub valid_record : ArtifactRecord → Bool
valid_record r =
    is_digest r.artifact_id
    && is_digest r.corpus_digest
    && digest_or_absent r.profile_id
    && digest_or_absent r.source_slot_id
    && revision_allowed r.source_slot_id r.source_revision
    && leb r.document_count max_safe_integer

-- `text` without a prefix that it has.
abbrev pub strip : Text → Text → Option Text
strip [] text = some text
strip (c ∷ cs) [] = none
strip (c ∷ cs) (d ∷ ds) = if c == d then strip cs ds else none

abbrev pub split_at : ℕ → Text → Text × Text
split_at zero text = ([], text)
split_at (suc n) [] = ([], [])
split_at (suc n) (c ∷ cs) = let (front, back) = split_at n cs in (c ∷ front, back)

abbrev pub is_artifact_file : Option Text → Bool
is_artifact_file none = false
is_artifact_file (some below) =
    let (id, file) = split_at 64 below in
    is_digest id
    && (text_eq file (units "/active.sqlite") || text_eq file (units "/progress.sqlite"))

-- The regular expression on the path; one that it accepts does not begin with `../`.
unfoldable pub safe_relative_artifact_path : Text → Bool
safe_relative_artifact_path path =
    is_artifact_file (strip (units "keyword/") path)
    || is_artifact_file (strip (units "semantic/") path)

unfoldable pub put_artifact : ArtifactRecord → ℕ → List ArtifactRow → List ArtifactRow
put_artifact r now [] =
    record {
      artifact_id = r.artifact_id;
      kind = r.kind;
      profile_id = r.profile_id;
      corpus_digest = r.corpus_digest;
      document_count = r.document_count;
      created_at = now;
      last_accessed_at = now;
    }
    ∷ []
put_artifact r now (a ∷ rows) =
    let rest = put_artifact r now rows in
    if text_eq a.artifact_id r.artifact_id
    then record a {
      kind = r.kind;
      profile_id = r.profile_id;
      corpus_digest = r.corpus_digest;
      document_count = r.document_count;
      last_accessed_at = now;
    }
      ∷ rows
    else a ∷ rest

unfoldable pub put_source : Text → Text → Option ℕ → ℕ → List SourceRow → List SourceRow
put_source id slot revision now [] =
    record {
      artifact_id = id;
      source_slot_id = slot;
      source_revision = revision;
      last_accessed_at = now;
    }
    ∷ []
put_source id slot revision now (s ∷ rows) =
    let rest = put_source id slot revision now rows in
    if text_eq s.artifact_id id && text_eq s.source_slot_id slot
    then record s { source_revision = revision; last_accessed_at = now } ∷ rows
    else s ∷ rest

abbrev pub verified_time : Bool → ℕ → Option ℕ
verified_time true now = some now
verified_time false now = none

unfoldable pub put_index : ArtifactRecord → Text → ℕ → ℕ → List IndexRow → List IndexRow
put_index r path size now [] =
    record {
      artifact_id = r.artifact_id;
      index_state = r.index_state;
      relative_path = path;
      byte_size = size;
      published_at = now;
      verified_at = verified_time r.verified now;
    }
    ∷ []
put_index r path size now (i ∷ rows) =
    let rest = put_index r path size now rows in
    if text_eq i.artifact_id r.artifact_id && same_state i.index_state r.index_state
    then record i {
      relative_path = path;
      byte_size = size;
      published_at = now;
      verified_at = verified_time r.verified now;
    }
      ∷ rows
    else i ∷ rest

abbrev pub put_optional_source : ArtifactRecord → ℕ → List SourceRow → List SourceRow
put_optional_source r now rows = elim r.source_slot_id [
  | none ↦ rows
  | some slot ↦ put_source r.artifact_id slot r.source_revision now rows
]

-- `recordContentArtifactCacheArtifact`, where the catalog can be written.
unfoldable pub record_artifact : ArtifactRecord → Text → Option ℕ → ℕ → Catalog → Catalog
unfolding valid_record safe_relative_artifact_path put_artifact put_source put_index
record_artifact r path none now catalog = catalog
record_artifact r path (some size) now catalog =
    if valid_record r && safe_relative_artifact_path path
    then record {
      artifacts = put_artifact r now catalog.artifacts;
      sources = put_optional_source r now catalog.sources;
      indexes = put_index r path size now catalog.indexes;
    }
    else catalog

-- `removeContentArtifactCacheArtifactRecords`; the other rows of an artifact go with it.
unfoldable pub remove_artifacts : List Text → Catalog → Catalog
remove_artifacts given catalog =
    let ids = keep is_digest given in
    record {
      artifacts = keep (λ a. not (contains a.artifact_id ids)) catalog.artifacts;
      sources = keep (λ s. not (contains s.artifact_id ids)) catalog.sources;
      indexes = keep (λ i. not (contains i.artifact_id ids)) catalog.indexes;
    }

abbrev pub first_rows {ℓ} : {A : Type ℓ} → ℕ → List A → List A
first_rows zero xs = []
first_rows (suc n) [] = []
first_rows (suc n) (x ∷ xs) = x ∷ first_rows n xs

-- The source rows that the query selects: of the slot, with an artifact of the kind.
unfoldable pub selected : Kind → Text → Catalog → List SourceRow
selected kind slot catalog =
    keep
      (λ s.
        text_eq s.source_slot_id slot
        && any (λ a. text_eq a.artifact_id s.artifact_id && same_kind a.kind kind)
            catalog.artifacts)
      catalog.sources

-- `desc(lastAccessedAt)`
abbrev pub later : SourceRow → SourceRow → Bool
later a b = ltb b.last_accessed_at a.last_accessed_at

abbrev pub valid_ids : List SourceRow → List Text
valid_ids [] = []
valid_ids (s ∷ rows) =
    let rest = valid_ids rows in if is_digest s.artifact_id then s.artifact_id ∷ rest else rest

-- `recentContentArtifactIds`
unfoldable pub recent_artifact_ids : Kind → Text → ℕ → Option Catalog → List Text
unfolding selected
recent_artifact_ids kind slot limit none = []
recent_artifact_ids kind slot limit (some catalog) =
    if is_digest slot && leb 1 limit && leb limit max_safe_integer
    then valid_ids (first_rows limit (sort later (selected kind slot catalog)))
    else []
