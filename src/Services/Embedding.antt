-- ===== src/Services/Embedding.antt =====
-- packages/backend/src/modules/embedding/service.ts: the service that owns the native process of the
-- embedding model. An `async` operation is cut at its awaits: a call is what runs before the first
-- one, and a task is a value that says at which await it waits. What an await gives is an argument.
-- Diagnostics and the activity flag are left out, and a UUID is a number that is an argument.
-- `processes` lists the native processes that run; the source has no such variable.
pub mod Steps
pub mod Calls
pub mod Consistent
pub mod Ownership
mod Tests
pub use lorelum.Prelude.{ok, err, ◌>>=◌, ◌>>◌, refuse}
use lorelum.Prelude.{
  Fallible, ℕ, Bool, true, false, not, ◌&&◌, ◌||◌, Option, none, some, List, [], ◌∷◌, ◌==◌,
  if◌then◌else◌, Text, keep,
}

pub data ErrorCode : Type 0 where
  preparation_expired not_configured download_unavailable download_failed : ErrorCode
  download_stalled download_range_unsupported resource_invalid : ErrorCode
  native_resource_invalid not_loaded busy input_invalid deadline_exceeded : ErrorCode
  embedding_failed : ErrorCode

pub data ResourceKind : Type 0 where
  model_file native_file : ResourceKind

pub data ResourceCheck : Type 0 where
  missing invalid size_mismatch sha256_mismatch manifest_mismatch : ResourceCheck

pub record ResourceFailure : Type 0 where
  pub kind : ResourceKind
  pub file : Text
  pub check : ResourceCheck
  pub expected : Option Text
  pub actual : Option Text

pub record EmbeddingError : Type 0 where
  pub code : ErrorCode
  pub resource : Option ResourceFailure

abbrev pub plain : ErrorCode → EmbeddingError
plain c = record { code = c; resource = none }

pub data ModelState : Type 0 where
  unloaded loading ready unloading failed : ModelState

pub data ProgressPhase : Type 0 where
  resolving downloading verifying starting_up : ProgressPhase

pub record ModelProgress : Type 0 where
  pub phase : ProgressPhase
  pub downloaded_bytes : Option ℕ
  pub total_bytes : Option ℕ
  pub attempt : Option ℕ

abbrev pub at_phase : ProgressPhase → ModelProgress
at_phase p = record { phase = p; downloaded_bytes = none; total_bytes = none; attempt = none }

-- Where the task of `load` waits: for the activity flag, `prepareModel`, `start` and `stop`.
pub data LoadPhase : Type 0 where
  publishing preparing : LoadPhase
  starting stopping : ℕ → LoadPhase

-- `aborted` is its signal's.
pub record LoadTask : Type 0 where
  pub aborted : Bool
  pub phase : LoadPhase

-- Where the task of `unload` waits: for the request in flight, `stop`, the load, the request again.
pub data UnloadPhase : Type 0 where
  draining : UnloadPhase
  stopping_runtime : ℕ → UnloadPhase
  awaiting_load awaiting_request : UnloadPhase

-- Where a request waits: for `encodeBatch`, and for `stop` after an error.
pub data EmbedPhase : Type 0 where
  encoding recycling : ℕ → EmbedPhase

pub record Service : Type 0 where
  pub state : ModelState
  pub progress : Option ModelProgress
  pub failure : Option ErrorCode
  pub resource_failure : Option ResourceFailure
  pub runtime : Option ℕ
  pub load_task : Option LoadTask
  pub preparation_id : Option ℕ
  pub unload_task : Option UnloadPhase
  pub inflight : Option EmbedPhase
  pub processes : List ℕ

abbrev pub initial : Service
initial = record {
  state = unloaded;
  progress = none;
  failure = none;
  resource_failure = none;
  runtime = none;
  load_task = none;
  preparation_id = none;
  unload_task = none;
  inflight = none;
  processes = [];
}

abbrev pub present {ℓ} : {A : Type ℓ} → Option A → Bool
present none = false
present (some x) = true

abbrev pub is_ready : ModelState → Bool
is_ready ready = true
is_ready unloaded = false
is_ready loading = false
is_ready unloading = false
is_ready failed = false

abbrev pub is_loading : ModelState → Bool
is_loading loading = true
is_loading unloaded = false
is_loading ready = false
is_loading unloading = false
is_loading failed = false

abbrev pub is_unloading : ModelState → Bool
is_unloading unloading = true
is_unloading unloaded = false
is_unloading loading = false
is_unloading ready = false
is_unloading failed = false

abbrev pub is_failed : ModelState → Bool
is_failed failed = true
is_failed unloaded = false
is_failed loading = false
is_failed ready = false
is_failed unloading = false

abbrev pub is_handle : ℕ → Option ℕ → Bool
is_handle h none = false
is_handle h (some k) = h == k

-- `recycle` once `stop` is done: the process is gone, and the variable is cleared if it is that one.
unfoldable pub recycled : ℕ → Service → Service
recycled h s = record s {
  runtime = if is_handle h s.runtime then none else s.runtime;
  processes = keep (λ k. not (k == h)) s.processes;
}

-- `recover` up to the call of `recycle`.
unfoldable pub recovering : EmbeddingError → Service → Service
recovering e s = if is_unloading s.state then record s { progress = none } else record s {
  progress = none;
  state = failed;
  failure = some e.code;
  resource_failure = e.resource;
}

-- The guard that `load`, `beginLoad` and `beginModelPreparation` share.
abbrev pub occupied : Service → Bool
occupied s = present s.runtime || present s.inflight

unfoldable pub started : ℕ → Service → Service
started id s = record s {
  preparation_id = some id;
  state = loading;
  progress = some (at_phase resolving);
  failure = none;
  resource_failure = none;
  load_task = some (record { aborted = false; phase = publishing });
}

unfoldable pub load : ℕ → Service → Fallible EmbeddingError Service
unfolding started
load id s =
    if is_unloading s.state
    then err (plain busy)
    else if present s.load_task
    then ok s
    else if is_ready s.state
    then ok s
    else if occupied s
    then err (plain busy)
    else ok (started id s)
