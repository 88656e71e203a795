-- ===== src/Services/Embedding/Calls.antt =====
-- Requests for vectors, the preparations that clients begin and poll, and the runs of the service.
use lorelum.Prelude.{
  Fallible, ℕ, Bool, false, not, ◌&&◌, ◌||◌, Option, none, some, ◌==◌, if◌then◌else◌, keep,
}
use lorelum.Services.Embedding.{
  ok, err, ◌>>=◌, ◌>>◌, refuse, preparation_expired, not_loaded, busy, deadline_exceeded,
  embedding_failed, EmbeddingError, plain, ModelState, failed, ModelProgress, EmbedPhase, encoding,
  recycling, Service, initial, present, is_ready, is_loading, is_unloading, is_failed, is_handle,
  recycled, recovering, occupied, load,
}
use lorelum.Services.Embedding.Steps.{
  Settlement, fulfilled, timed_out, rejected, load_continues, report_progress, unload,
  unload_continues,
}

-- `embed` up to its await; the request it begins goes to the runtime of that moment.
unfoldable pub embed : Service → Fallible EmbeddingError Service
embed s =
    if is_loading s.state || is_unloading s.state || present s.inflight
    then err (plain busy)
    else if not (is_ready s.state)
    then err (plain not_loaded)
    else elim s.runtime [
      | none ↦ err (plain not_loaded)
      | some h ↦ ok (record s { inflight = some (encoding h) })
    ]

unfoldable pub embed_query : Service → Fallible EmbeddingError Service
unfolding embed
embed_query s = if is_loading s.state then err (plain not_loaded) else embed s

-- The outcome of a request, where it ends: whether its vectors are returned, or its error.
pub data Answer : Type 0 where
  waiting vectors : Answer
  refused : EmbeddingError → Answer

unfoldable pub request_fails : ℕ → EmbeddingError → Service → Service
unfolding recovering
request_fails h e s = let r = recovering e s in record r { inflight = some (recycling h) }

unfoldable pub embed_continues : EmbedPhase → Settlement → Service → Service
unfolding request_fails recycled
embed_continues (encoding h) fulfilled s =
    if is_handle h s.runtime
    then record s { inflight = none }
    else request_fails h (plain not_loaded) s
embed_continues (encoding h) timed_out s = request_fails h (plain deadline_exceeded) s
embed_continues (encoding h) (rejected e) s = request_fails h e s
embed_continues (recycling h) fulfilled s = let r = recycled h s in record r { inflight = none }
embed_continues (recycling h) timed_out s = record s { inflight = none }
embed_continues (recycling h) (rejected e) s = record s { inflight = none }

-- What `encodeBatch` gave is returned only on the way where it is the runtime's still.
unfoldable pub returns_vectors : EmbedPhase → Settlement → Service → Bool
returns_vectors (encoding h) fulfilled s = is_handle h s.runtime
returns_vectors (encoding h) timed_out s = false
returns_vectors (encoding h) (rejected e) s = false
returns_vectors (recycling h) o s = false

-- The handler of `exited`, which is registered on a handle that became ready.
unfoldable pub process_exits : ℕ → Service → Service
process_exits h s =
    let gone = record s { processes = keep (λ k. not (k == h)) s.processes } in
    if is_handle h s.runtime && is_ready s.state
    then record gone {
      state = failed;
      failure = some embedding_failed;
      resource_failure = none;
      runtime = none;
    }
    else gone

-- A call that throws leaves the service as it was.
abbrev pub or_unchanged : Service → Fallible EmbeddingError Service → Service
or_unchanged s (err e) = s
or_unchanged s (ok t) = t

-- `void load().catch(() => {})`: a rejection is dropped.
unfoldable pub begin_load : ℕ → Service → Fallible EmbeddingError Service
unfolding load
begin_load id s = do
  refuse
      (is_unloading s.state || (not (present s.load_task) && not (is_ready s.state) && occupied s))
      (plain busy)
  ok (or_unchanged s (load id s))

-- `modelPreparation`: the state of the preparation that the client names.
unfoldable pub model_preparation : ℕ → Service → Fallible EmbeddingError ModelState
model_preparation id s =
    if is_handle id s.preparation_id then ok s.state else err (plain preparation_expired)

abbrev pub or_else {ℓ} : {A : Type ℓ} → Option A → A → A
or_else none b = b
or_else (some a) b = a

-- `preparationId ??= randomUUID()`
abbrev pub prepared : ℕ → Service → ℕ × Service
prepared other s =
    let drawn = or_else s.preparation_id other in (drawn, record s { preparation_id = some drawn })

-- `beginModelPreparation`: the id it answers with, and the state it leaves. `id` is the UUID that
-- `load` draws, `other` the one that would be drawn if there were no preparation.
unfoldable pub begin_model_preparation :
    (id other : ℕ) → Service → Fallible EmbeddingError (ℕ × Service)
unfolding load
begin_model_preparation id other s = do
  refuse (is_failed s.state)
      (record { code = or_else s.failure embedding_failed; resource = s.resource_failure })
  refuse
      (is_unloading s.state || (not (present s.load_task) && not (is_ready s.state) && occupied s))
      (plain busy)
  ok (prepared other (or_unchanged s (load id s)))

-- `waitModelPreparation` once no load is awaited.
unfoldable pub preparation_outcome : ℕ → Service → Fallible EmbeddingError ModelState
unfolding model_preparation
preparation_outcome id s = do
  current ← model_preparation id s
  refuse (is_failed current)
      (record { code = or_else s.failure embedding_failed; resource = s.resource_failure })
  refuse (not (is_ready current)) (plain not_loaded)
  ok current

-- What can happen to the service: a call, the end of an await of a task, the end of a process.
pub data Event : Type 0 where
  calls_load calls_begin_load : ℕ → Event
  calls_begin_model_preparation : ℕ → ℕ → Event
  load_goes_on : ℕ → Settlement → Event
  reports : ModelProgress → Event
  calls_unload : Event
  unload_goes_on : Settlement → Event
  calls_embed calls_embed_query : Event
  embed_goes_on : Settlement → Event
  exits : ℕ → Event

-- A task that is not there does not go on.
abbrev pub on_task {ℓ} : {A : Type ℓ} → Option A → (A → Service → Service) → Service → Service
on_task none go s = s
on_task (some t) go s = go t s

unfoldable pub step : Event → Service → Service
unfolding load begin_load begin_model_preparation load_continues report_progress unload
    unload_continues embed embed_query embed_continues process_exits
step (calls_load id) s = or_unchanged s (load id s)
step (calls_begin_load id) s = or_unchanged s (begin_load id s)
step (calls_begin_model_preparation id other) s = elim (begin_model_preparation id other s) [
  | err e ↦ s
  | ok done ↦ done.1
]
step (load_goes_on fresh o) s = on_task s.load_task (λ t. load_continues fresh t o) s
step (reports p) s = report_progress p s
step calls_unload s = unload s
step (unload_goes_on o) s = on_task s.unload_task (λ u. unload_continues u o) s
step calls_embed s = or_unchanged s (embed s)
step calls_embed_query s = or_unchanged s (embed_query s)
step (embed_goes_on o) s = on_task s.inflight (λ p. embed_continues p o) s
step (exits h) s = process_exits h s

-- The states that calls, awaits and exits lead to, in any order.
pub data Reachable : Service → Type 0 where
  fresh_service : Reachable initial
  after : {s : Service} → Reachable s → (e : Event) → Reachable (step e s)
