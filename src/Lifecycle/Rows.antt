-- ===== src/Lifecycle/Rows.antt =====
-- packages/engine/src/local-store/storage/sqlite/state-writer.ts: the rows that a Store keeps of its
-- effective practices, rewritten as a whole or brought up to date by one change. A table is the list
-- of its rows; a transaction that throws leaves none. `tech_stack` and deltas stand as parsed values.
-- Row counts for metrics are left out. JSON and SHA-256 are parameters.
pub mod Writes
pub mod Lookup
pub mod Refinement
pub mod Revisions
mod Tests
pub use lorelum.Prelude.{ok, err, ◌>>=◌, ◌>>◌, refuse}
use lorelum.Prelude.{
  Fallible, ℕ, Bool, true, false, not, ◌&&◌, ◌||◌, Option, none, some, List, [], ◌∷◌, ◌++◌, map,
  leb, ltb, ◌==◌, if◌then◌else◌, Text, units, text_eq, text_lt, contains, find, keep, any, all,
  length, is_empty, sort, add,
}
use lorelum.LocalStore.Canonical.{Practice, canonicalize_practice}
use lorelum.LocalStore.SourcePath.{is_practice_source_path}
use lorelum.LocalStore.Effective.{EffectivePractice, PracticeSource, RevisionDelta, Hashing}
use lorelum.Lifecycle.Store.{
  PackEntry, Tuple, PackMutation, upsert, remove, mutate_packs, max_safe_integer,
}
use lorelum.Lifecycle.RevisionLog.{LogEntry, SqliteStateError, append_effective_revision_log}

pub data StateError : Type 0 where
  invalid_counters inconsistent_practice inconsistent_source affected_not_unique : StateError
  outside_affected no_prior_revision malformed_revision cannot_write : StateError

abbrev pub Result {ℓ} : Type ℓ → Type ℓ
Result A = Fallible StateError A

pub record PracticeRow : Type 0 where
  pub practice_id : Text
  pub content_digest : Text
  pub canonical_content : Text
  pub title : Text
  pub stage : Text
  pub tech_stack : List Text
  pub applies_when : Text
  pub severity : Text
  pub effective_revision : ℕ

pub record SourceRow : Type 0 where
  pub pack_name : Text
  pub practice_id : Text
  pub content_digest : Text
  pub source_path : Text

pub record Database : Type 0 where
  pub metadata : Option Tuple
  pub active_packs : List PackEntry
  pub practices : List PracticeRow
  pub sources : List SourceRow
  pub revision_log : List LogEntry
  pub outbox : List LogEntry

-- `supersedes_pending` goes with `revision_notification`.
pub record DerivedStoreState : Type 0 where
  pub generation : ℕ
  pub effective_revision : ℕ
  pub active_packs : List PackEntry
  pub effective_practices : List EffectivePractice
  pub revision_notification : Option RevisionDelta
  pub supersedes_pending : Bool
  pub revision_log_delta : Option RevisionDelta
  pub clear_revision_log : Bool

pub record IncrementalState : Type 0 where
  pub derived : DerivedStoreState
  pub active_pack_mutation : PackMutation
  pub affected_practice_ids : List Text

unfoldable pub source_coherent : List PackEntry → EffectivePractice → PracticeSource → Bool
source_coherent packs e s =
    any (λ p. text_eq p.pack_name s.pack_name) packs
    && text_eq s.practice_id e.practice_id
    && text_eq s.content_digest e.content_digest
    && text_eq s.canonical_practice.canonical_content e.canonical_content
    && text_eq s.canonical_practice.content_digest e.content_digest
    && is_practice_source_path s.source_path

unfoldable pub practice_coherent : Hashing → EffectivePractice → Bool
practice_coherent h e =
    let canonical = canonicalize_practice h.stringify h.sha256 e.practice in
    not (is_empty e.sources)
    && text_eq canonical.canonical_content e.canonical_content
    && text_eq canonical.content_digest e.content_digest
    && text_eq canonical.practice.id e.practice_id

unfoldable pub assert_practices :
    Hashing → List PackEntry → List EffectivePractice → Result (Unit {0})
unfolding source_coherent practice_coherent
assert_practices h packs [] = ok tt
assert_practices h packs (e ∷ es) = do
  refuse (not (practice_coherent h e)) inconsistent_practice
  refuse (not (all (source_coherent packs e) e.sources)) inconsistent_source
  assert_practices h packs es

unfoldable pub assert_state_is_coherent : Hashing → DerivedStoreState → Result (Unit {0})
unfolding assert_practices
assert_state_is_coherent h state = do
  refuse
      (not (leb state.generation max_safe_integer && leb state.effective_revision max_safe_integer))
      invalid_counters
  assert_practices h state.active_packs state.effective_practices

abbrev pub or_warn : Option Text → Text
or_warn none = units "warn"
or_warn (some severity) = severity

abbrev pub row_of : EffectivePractice → ℕ → PracticeRow
row_of e revision = record {
  practice_id = e.practice_id;
  content_digest = e.content_digest;
  canonical_content = e.canonical_content;
  title = e.practice.title;
  stage = e.practice.stage;
  tech_stack = e.practice.tech_stack;
  applies_when = e.practice.applies_when;
  severity = or_warn e.practice.severity;
  effective_revision = revision;
}

-- The primary keys refuse a second row.
unfoldable pub insert_source : PracticeSource → List SourceRow → Result (List SourceRow)
insert_source s rows = do
  refuse (any (λ r. text_eq r.pack_name s.pack_name && text_eq r.practice_id s.practice_id) rows)
      cannot_write
  ok (
      rows
      ++ record {
        pack_name = s.pack_name;
        practice_id = s.practice_id;
        content_digest = s.content_digest;
        source_path = s.source_path;
      }
        ∷ [])

unfoldable pub insert_sources : List PracticeSource → List SourceRow → Result (List SourceRow)
unfolding insert_source
insert_sources [] rows = ok rows
insert_sources (s ∷ ss) rows = insert_source s rows >>= (λ next. insert_sources ss next)

abbrev pub is_row : Text → PracticeRow → Bool
is_row id r = text_eq r.practice_id id

unfoldable pub insert_effective_practice_rows :
    (EffectivePractice → Result ℕ)
    → List EffectivePractice
    → List PracticeRow
    → List SourceRow
    → Result (List PracticeRow × List SourceRow)
unfolding insert_sources
insert_effective_practice_rows revision_for [] practices sources = ok (practices, sources)
insert_effective_practice_rows revision_for (e ∷ es) practices sources =
    revision_for e >>= (λ revision.
      refuse (any (is_row e.practice_id) practices) cannot_write >>= (λ free.
        insert_sources e.sources sources >>= (λ more.
          insert_effective_practice_rows revision_for es (practices ++ row_of e revision ∷ [])
            more)))
