-- ===== src/Lib.antt =====
-- A model of Lorelum's core: the validation of a knowledge Pack, the Local Store that installs Packs
-- and recovers from interruptions, the texts that a query has encoded and the artifacts it shares, and
-- the daemon's services that keep state.
--
-- Parts, and where they stand (paths from the repository's root):
-- - Format/Cycle: packages/format/src/validate/cycle.ts, `detectCycles`. The three-colour search is
--   `visit`, `follow`, `follow_all` and `visit_all` over a record of colours, path and cycles. It runs
--   on fuel, one more than the number of nodes (keys and targets) of the graph: each descent colours
--   a node that was white, so the fuel is enough, which is proved.
-- - Format/Validate: packages/format/src/validate/validate.ts and report.ts, `validateParsedPack`,
--   stage by stage. A message is left out, a path is a constructor with its indices. It uses
--   Format/Cycle for the `next` edges.
-- - Format/Localization: packages/format/src/localization/state.ts, `analyzeLocalizationState`.
-- - LocalStore/Canonical: packages/engine/src/local-store/model/canonical-practice.ts. The JSON
--   serializer and SHA-256 are parameters.
-- - LocalStore/SourcePath: `isPracticeSourcePath` of model/candidate.ts there, its regular
--   expressions written out as recursions.
-- - LocalStore/Effective: model/effective-practices.ts there: `build_effective_practices`,
--   `diff_effective_practices`, `reconcile_effective_practices`, `remove_pack_sources`. Errors are
--   values. It checks sources by LocalStore/Canonical and LocalStore/SourcePath.
-- - Lifecycle/Store: storage/ there. A Store is the manifest file, SQLite's tuple and Pack rows, the
--   journals, the artifacts and the links; an `Effect` is one atomic write.
-- - Lifecycle/Recovery: lifecycle/recovery.ts, and the checks of `withStoreMutation` in mutation.ts.
-- - Lifecycle/Install: lifecycle/install.ts, uninstall.ts and counters.ts. An operation is the
--   decision from the recovered manifest, which merges practices by LocalStore/Effective, and the list
--   of its writes. A crash is a prefix of that list; recovery is run on what the prefix leaves.
-- - Lifecycle/MutationLock: storage/mutation-lock.ts, each operation by what its accesses find.
--   MutationLock/Reclaim has holders and reclaiming processes that act in between one another.
-- - Lifecycle/Notifications: the drain of lifecycle/mutation.ts over storage/sqlite/revision-outbox.ts,
--   with the rows that are queued while the hook runs.
-- - Lifecycle/RevisionLog and Lifecycle/Rows: sqlite/revision-log.ts and sqlite/state-writer.ts of
--   storage/. A table is the list of its rows, a transaction that throws leaves none. Rows/Writes has
--   `writeDerivedState` and `applyIncrementalDerivedState`, which append to the log.
-- - Query/Projection: packages/engine/src/query/semantic/methods/multi-view/projection.ts and
--   query-views.ts there (Views). Tokens are counted in quarters; text is a list of code points.
-- - Query/Keyword: packages/engine/src/query/keyword/tokenizer.ts. Unicode's tables are parameters.
-- - Query/Catalog: packages/engine/src/query/artifacts/cache-catalog.ts. Its tables are lists of rows.
-- - Query/Lease: packages/engine/src/query/artifacts/artifact-lease.ts. Readers and pruners act on one
--   artifact in any order of their accesses to the file system; an event is one access.
-- - Services/Embedding: packages/backend/src/modules/embedding/service.ts. The service's variables and
--   its running tasks are a record; an event is a call, the end of an await, or the exit of a process.
-- - Services/Sessions: packages/backend/src/modules/sessions/service.ts and model.ts.
-- - Runtime/Activity: packages/backend/src/runtime/activity-state.ts.
-- - Prelude: lists, text as UTF-16 code units, sets and maps as lists in insertion order, stable sort.
--
-- Numbers are natural numbers, with JavaScript's bound on exact integers where the code tests it.
-- Loops are recursions on lists; only the cycle search, the drain and the pairing of a query's last
-- views have fuel. A drain delivers a later revision each round, so as many rounds as the revisions are
-- bounded by, and one more, are enough; the pairing takes one view away each round. Both are proved.
--
-- Not modelled: JSON and YAML text, the schema library, single file-system calls and their errors
-- (but those of the leases, the reclaims and the drain's deletion), the loop that waits for the lock, cold open and reindex, search, ranking
-- and listing, the daemon's sockets and processes, the command line, the site and the plugins.
-- A crash of a Store operation leaves the writes before it complete: each is a rename, a link, a
-- transaction or a removal. Clock times of the embedding service stand as awaits that time out.
pub mod Prelude
pub mod Format
pub mod LocalStore
pub mod Runtime
pub mod Services
pub mod Query
pub mod Lifecycle
