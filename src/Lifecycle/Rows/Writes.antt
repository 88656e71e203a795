-- ===== src/Lifecycle/Rows/Writes.antt =====
-- The two transactions: `writeDerivedState` and `applyIncrementalDerivedState`.
use lorelum.Prelude.{
  ℕ, Bool, true, false, not, ◌&&◌, ◌||◌, Option, none, some, List, [], ◌∷◌, ◌++◌, leb, ltb, ◌==◌,
  if◌then◌else◌, Text, text_eq, text_lt, contains, find, keep, any, all, sort,
}
use lorelum.LocalStore.Effective.{EffectivePractice, RevisionDelta, Hashing}
use lorelum.Lifecycle.Store.{
  PackEntry, PackMutation, upsert, remove, mutate_packs, name_before, named, max_safe_integer,
}
use lorelum.Lifecycle.RevisionLog.{LogEntry, append_effective_revision_log}
use lorelum.Lifecycle.Rows.{
  ok, err, ◌>>=◌, ◌>>◌, refuse, Result, affected_not_unique, outside_affected, no_prior_revision,
  malformed_revision, cannot_write, PracticeRow, SourceRow, Database, DerivedStoreState,
  IncrementalState, assert_state_is_coherent, is_row, insert_effective_practice_rows,
}

-- The upsert into the outbox, whose key is the revision.
unfoldable pub put_pending : LogEntry → List LogEntry → List LogEntry
put_pending e [] = e ∷ []
put_pending e (r ∷ rs) =
    let rest = put_pending e rs in
    if e.revision == r.revision
    then e ∷ rs
    else if ltb e.revision r.revision
    then e ∷ r ∷ rs
    else r ∷ rest

unfoldable pub pending_after : DerivedStoreState → List LogEntry → List LogEntry
unfolding put_pending
pending_after state outbox = elim state.revision_notification [
  | none ↦ outbox
  | some delta ↦
      put_pending (record { revision = state.effective_revision; delta = delta })
        (if state.supersedes_pending then [] else outbox)
]

unfoldable pub log_after : DerivedStoreState → List LogEntry → Result (List LogEntry)
unfolding append_effective_revision_log
log_after state rows =
    let left = if state.clear_revision_log then [] else rows in
    elim state.revision_log_delta [
      | none ↦ ok left
      | some delta ↦
          elim (append_effective_revision_log
            (record { revision = state.effective_revision; delta = delta }) left) [
              | err e ↦ err cannot_write
              | ok next ↦ ok next
            ]
    ]

unfoldable pub write_revision_records : DerivedStoreState → Database → Result Database
unfolding log_after pending_after
write_revision_records state db = do
  log ← log_after state db.revision_log
  ok (record db { revision_log = log; outbox = pending_after state db.outbox })

-- The Pack rows, each name once.
unfoldable pub insert_packs : List PackEntry → List PackEntry → Result (List PackEntry)
insert_packs rows [] = ok (sort name_before rows)
insert_packs rows (p ∷ ps) = do
  refuse (any (named p.pack_name) rows) cannot_write
  insert_packs (rows ++ p ∷ []) ps

unfoldable pub write_derived_state : Hashing → DerivedStoreState → Database → Result Database
unfolding assert_state_is_coherent insert_packs insert_effective_practice_rows
    write_revision_records
write_derived_state h state db = do
  assert_state_is_coherent h state
  packs ← insert_packs [] state.active_packs
  written ←
      insert_effective_practice_rows (λ e. ok state.effective_revision) state.effective_practices []
        []
  write_revision_records state (record db {
    metadata =
        some
          (record { generation = state.generation; effective_revision = state.effective_revision });
    active_packs = packs;
    practices = written.0;
    sources = written.1;
  })

abbrev pub distinct : List Text → Bool
distinct [] = true
distinct (id ∷ ids) = not (contains id ids) && distinct ids

unfoldable pub unique_sorted_ids : List Text → Result (List Text)
unique_sorted_ids ids = do refuse (not (distinct ids)) affected_not_unique; ok (sort text_lt ids)

-- The rows of the affected practices, whose revisions are looked up.
unfoldable pub row_revisions : List PracticeRow → List Text → Result (List PracticeRow)
row_revisions rows ids = do
  let found = keep (λ r. contains r.practice_id ids) rows
  refuse (not (all (λ r. leb r.effective_revision max_safe_integer) found)) malformed_revision
  ok found

unfoldable pub changed_practice : Option RevisionDelta → Text → Bool
changed_practice none id = false
changed_practice (some delta) id = contains id delta.added || contains id delta.changed

unfoldable pub revision_for : DerivedStoreState → List PracticeRow → EffectivePractice → Result ℕ
unfolding changed_practice
revision_for state prior e =
    if changed_practice state.revision_log_delta e.practice_id
    then ok state.effective_revision
    else elim (find (is_row e.practice_id) prior) [
      | none ↦ err no_prior_revision
      | some r ↦ ok r.effective_revision
    ]

-- The sources that the deletions leave: of practices that are not affected, and of Packs that stay.
unfoldable pub sources_left : PackMutation → List Text → List SourceRow → List SourceRow
sources_left (upsert e) ids rows = keep (λ r. not (contains r.practice_id ids)) rows
sources_left (remove name) ids rows =
    keep (λ r. not (text_eq r.pack_name name)) (keep (λ r. not (contains r.practice_id ids)) rows)

unfoldable pub apply_incremental_derived_state :
    Hashing → IncrementalState → Database → Result Database
unfolding assert_state_is_coherent unique_sorted_ids row_revisions revision_for sources_left
    insert_effective_practice_rows mutate_packs write_revision_records
apply_incremental_derived_state h incremental db = do
  let state = incremental.derived
  assert_state_is_coherent h state
  ids ← unique_sorted_ids incremental.affected_practice_ids
  refuse (any (λ e. not (contains e.practice_id ids)) state.effective_practices) outside_affected
  prior ← row_revisions db.practices ids
  written ←
      insert_effective_practice_rows (revision_for state prior) state.effective_practices
        (keep (λ r. not (contains r.practice_id ids)) db.practices)
        (sources_left incremental.active_pack_mutation ids db.sources)
  write_revision_records state (record db {
    metadata =
        some
          (record { generation = state.generation; effective_revision = state.effective_revision });
    active_packs = mutate_packs incremental.active_pack_mutation db.active_packs;
    practices = written.0;
    sources = written.1;
  })
