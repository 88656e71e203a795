-- ===== src/Services/Embedding/Steps.antt =====
-- The rest of each task after an await, the other calls, and the runs of the service.
use lorelum.Prelude.{ℕ, Bool, true, false, not, ◌&&◌, Option, none, some, ◌∷◌, if◌then◌else◌}
use lorelum.Services.Embedding.{
  busy, deadline_exceeded, embedding_failed, EmbeddingError, plain, ModelState, unloaded, ready,
  unloading, failed, starting_up, ModelProgress, at_phase, publishing, preparing, starting,
  stopping, LoadTask, UnloadPhase, draining, stopping_runtime, awaiting_load, awaiting_request,
  Service, present, is_loading, is_unloading, recycled, recovering,
}

-- What an await gives: a value, nothing before its deadline or its abort, or an error.
pub data Settlement : Type 0 where
  fulfilled timed_out : Settlement
  rejected : EmbeddingError → Settlement

-- The error of the task of `load`: after an abort outside an unload, the deadline's.
unfoldable pub visible : Bool → ModelState → EmbeddingError → EmbeddingError
visible aborted st e = if aborted && not (is_unloading st) then plain deadline_exceeded else e

-- Its `catch`, with the handle if there is one.
unfoldable pub load_fails : LoadTask → Option ℕ → EmbeddingError → Service → Service
unfolding visible recovering
load_fails t none e s =
    let r = recovering (visible t.aborted s.state e) s in record r { load_task = none }
load_fails t (some h) e s =
    let r = recovering (visible t.aborted s.state e) s in
    record r { load_task = some (record { aborted = t.aborted; phase = stopping h }) }

-- `throwIfAborted` throws what `embeddingFailure` makes `embedding.failed`.
abbrev pub abort_error : EmbeddingError
abort_error = plain embedding_failed

unfoldable pub after_publishing : LoadTask → Settlement → Service → Service
unfolding load_fails
after_publishing t fulfilled s =
    if t.aborted
    then load_fails t none abort_error s
    else record s { load_task = some (record { aborted = t.aborted; phase = preparing }) }
after_publishing t timed_out s = load_fails t none abort_error s
after_publishing t (rejected e) s = load_fails t none e s

-- `fresh` is the handle that `createRuntime` returns; where that throws, it is as if `prepareModel`
-- had.
unfoldable pub after_preparing : ℕ → LoadTask → Settlement → Service → Service
unfolding load_fails
after_preparing fresh t fulfilled s =
    if t.aborted then load_fails t none abort_error s else record s {
      progress = some (at_phase starting_up);
      runtime = some fresh;
      processes = fresh ∷ s.processes;
      load_task = some (record { aborted = t.aborted; phase = starting fresh });
    }
after_preparing fresh t timed_out s = load_fails t none abort_error s
after_preparing fresh t (rejected e) s = load_fails t none e s

unfoldable pub after_starting : ℕ → LoadTask → Settlement → Service → Service
unfolding load_fails
after_starting h t fulfilled s =
    if t.aborted
    then load_fails t (some h) abort_error s
    else if not (is_loading s.state)
    then load_fails t (some h) (plain busy) s
    else record s { state = ready; progress = none; load_task = none }
after_starting h t timed_out s = load_fails t (some h) abort_error s
after_starting h t (rejected e) s = load_fails t (some h) e s

unfoldable pub after_stopping : ℕ → Settlement → Service → Service
unfolding recycled
after_stopping h fulfilled s = let r = recycled h s in record r { load_task = none }
after_stopping h timed_out s = record s { load_task = none }
after_stopping h (rejected e) s = record s { load_task = none }

unfoldable pub load_continues : ℕ → LoadTask → Settlement → Service → Service
unfolding after_publishing after_preparing after_starting after_stopping
load_continues fresh t o s = elim t.phase [
  | publishing ↦ after_publishing t o s
  | preparing ↦ after_preparing fresh t o s
  | starting h ↦ after_starting h t o s
  | stopping h ↦ after_stopping h o s
]

-- What `prepareModel` calls back.
unfoldable pub report_progress : ModelProgress → Service → Service
report_progress p s = elim s.load_task [
  | none ↦ s
  | some t ↦ if is_loading s.state && not t.aborted then record s { progress = some p } else s
]

abbrev pub abort_load : Option LoadTask → Option LoadTask
abort_load none = none
abort_load (some t) = some (record { aborted = true; phase = t.phase })

unfoldable pub unload : Service → Service
unload s = if present s.unload_task then s else record s {
  state = unloading;
  preparation_id = none;
  progress = none;
  load_task = abort_load s.load_task;
  unload_task = some draining;
}

unfoldable pub unload_fails : EmbeddingError → Service → Service
unload_fails e s = record s {
  state = failed;
  failure = some e.code;
  resource_failure = e.resource;
  unload_task = none;
}

unfoldable pub unload_ends : Service → Service
unfolding unload_fails
unload_ends s =
    if present s.runtime
    then unload_fails (plain deadline_exceeded) s
    else record s { state = unloaded; failure = none; resource_failure = none; unload_task = none }

unfoldable pub await_request : Service → Service
unfolding unload_ends
await_request s =
    if present s.inflight then record s { unload_task = some awaiting_request } else unload_ends s

unfoldable pub await_load : Service → Service
unfolding await_request
await_load s =
    if present s.load_task then record s { unload_task = some awaiting_load } else await_request s

abbrev pub is_timed_out : Settlement → Bool
is_timed_out fulfilled = false
is_timed_out timed_out = true
is_timed_out (rejected e) = false

-- An await of another task ends once that task has ended, or at the deadline.
unfoldable pub unload_continues : UnloadPhase → Settlement → Service → Service
unfolding recycled unload_fails await_load await_request unload_ends
unload_continues draining o s =
    if present s.inflight && not (is_timed_out o) then s else elim s.runtime [
      | some h ↦ record s { unload_task = some (stopping_runtime h) }
      | none ↦ await_load s
    ]
unload_continues (stopping_runtime h) fulfilled s = await_load (recycled h s)
unload_continues (stopping_runtime h) timed_out s = unload_fails (plain embedding_failed) s
unload_continues (stopping_runtime h) (rejected e) s = unload_fails e s
unload_continues awaiting_load timed_out s = unload_fails (plain deadline_exceeded) s
unload_continues awaiting_load fulfilled s = if present s.load_task then s else await_request s
unload_continues awaiting_load (rejected e) s = if present s.load_task then s else await_request s
unload_continues awaiting_request timed_out s = unload_fails (plain deadline_exceeded) s
unload_continues awaiting_request fulfilled s = if present s.inflight then s else unload_ends s
unload_continues awaiting_request (rejected e) s = if present s.inflight then s else unload_ends s
