-- ===== src/Services/Embedding/Consistent.antt =====
-- How the variables of the service depend on one another, and that every event keeps this.
use lorelum.Prelude.{ℕ, ◌≡◌, refl, Bool, true, false, not, ◌&&◌, ◌||◌, Option, none, some, arith}
use lorelum.Services.Embedding.{
  ErrorCode, ModelState, unloaded, loading, ready, unloading, failed, publishing, preparing,
  starting, stopping, LoadTask, UnloadPhase, draining, stopping_runtime, awaiting_load,
  awaiting_request, EmbedPhase, encoding, recycling, Service, present, ModelProgress, is_ready,
  is_loading, is_unloading, is_failed, is_handle, recycled, recovering, load, started,
}
use lorelum.Services.Embedding.Steps.{
  Settlement, load_continues, report_progress, unload, unload_continues, after_publishing,
  after_preparing, after_starting, after_stopping, load_fails, visible, unload_fails, await_load,
  await_request, unload_ends,
}
use lorelum.Services.Embedding.Calls.{
  embed, embed_query, embed_continues, process_exits, begin_load, begin_model_preparation, Event,
  step, on_task, Reachable, fresh_service, after, calls_load, calls_begin_load, load_goes_on,
  reports, calls_unload, unload_goes_on, calls_embed, calls_embed_query, embed_goes_on, exits,
  or_unchanged, request_fails, calls_begin_model_preparation,
}

-- What each state says of the error, the runtime, the preparation and the unload.
abbrev pub state_agrees :
    ModelState → Option ErrorCode → Option ℕ → Option ℕ → Option UnloadPhase → Bool
state_agrees unloaded f r p u = not (present f) && not (present r) && not (present u)
state_agrees loading f r p u = not (present f) && present p && not (present u)
state_agrees ready f r p u = not (present f) && present r && present p && not (present u)
state_agrees unloading f r p u = present u
state_agrees failed f r p u = present f && not (present u)

-- A load that waits for its resources has no runtime yet; it is aborted or the state is `loading`.
abbrev pub load_agrees : ModelState → Option ℕ → Option LoadTask → Bool
load_agrees st r none = not (is_loading st)
load_agrees st r (some t) = elim t.phase [
  | publishing ↦ not (present r) && attended t.aborted st
  | preparing ↦ not (present r) && attended t.aborted st
  | starting h ↦ attended t.aborted st && (t.aborted || is_handle h r)
  | stopping h ↦ is_failed st || is_unloading st
]
  where
    attended : Bool → ModelState → Bool
    attended true st = is_failed st || is_unloading st
    attended false st = is_loading st

-- A request is in flight only where no load is, and after its error no state but these is possible.
abbrev pub request_agrees : ModelState → Option LoadTask → Option EmbedPhase → Bool
request_agrees st l none = true
request_agrees st l (some (encoding h)) =
    not (present l) && (is_ready st || is_failed st || is_unloading st)
request_agrees st l (some (recycling h)) = not (present l) && (is_failed st || is_unloading st)

-- Once the unload waits for the request only, the load has ended.
abbrev pub unload_agrees : Option UnloadPhase → Option LoadTask → Bool
unload_agrees none l = true
unload_agrees (some draining) l = true
unload_agrees (some (stopping_runtime h)) l = true
unload_agrees (some awaiting_load) l = true
unload_agrees (some awaiting_request) l = not (present l)

unfoldable pub consistent : Service → Bool
consistent s =
    state_agrees s.state s.failure s.runtime s.preparation_id s.unload_task
    && load_agrees s.state s.runtime s.load_task
    && request_agrees s.state s.load_task s.inflight
    && unload_agrees s.unload_task s.load_task

load-consistent :
    (id : ℕ) (s : Service) → consistent s ≡ true → consistent (or_unchanged s (load id s)) ≡ true
unfolding consistent load started
load-consistent id s h = ground arith

begin_load-consistent :
    (id : ℕ) (s : Service)
    → consistent s ≡ true
    → consistent (or_unchanged s (begin_load id s)) ≡ true
unfolding consistent load started begin_load
begin_load-consistent id s h = ground arith

begin_model_preparation-consistent :
    (id other : ℕ) (s : Service)
    → consistent s ≡ true
    → consistent (step (calls_begin_model_preparation id other) s) ≡ true
unfolding consistent load started begin_model_preparation step
begin_model_preparation-consistent id other s h = ground arith

load_continues-consistent :
    (fresh : ℕ) (t : LoadTask) (o : Settlement) (s : Service)
    → s.load_task ≡ some t
    → consistent s ≡ true
    → consistent (load_continues fresh t o s) ≡ true
unfolding consistent load_continues after_publishing after_preparing after_starting after_stopping
    load_fails recovering visible recycled
load_continues-consistent fresh t o s e h = ground arith

report_progress-consistent :
    (p : ModelProgress) (s : Service)
    → consistent s ≡ true
    → consistent (report_progress p s) ≡ true
unfolding consistent report_progress
report_progress-consistent p s h = ground arith

unload-consistent : (s : Service) → consistent s ≡ true → consistent (unload s) ≡ true
unfolding consistent unload
unload-consistent s h = ground arith

unload_continues-consistent :
    (u : UnloadPhase) (o : Settlement) (s : Service)
    → s.unload_task ≡ some u
    → consistent s ≡ true
    → consistent (unload_continues u o s) ≡ true
unfolding consistent unload_continues recycled unload_fails await_load await_request unload_ends
unload_continues-consistent u o s e h = ground arith

embed-consistent :
    (s : Service) → consistent s ≡ true → consistent (or_unchanged s (embed s)) ≡ true
unfolding consistent embed
embed-consistent s h = ground arith

embed_query-consistent :
    (s : Service) → consistent s ≡ true → consistent (or_unchanged s (embed_query s)) ≡ true
unfolding consistent embed_query embed
embed_query-consistent s h = ground arith

embed_continues-consistent :
    (p : EmbedPhase) (o : Settlement) (s : Service)
    → s.inflight ≡ some p
    → consistent s ≡ true
    → consistent (embed_continues p o s) ≡ true
unfolding consistent embed_continues request_fails recovering recycled
embed_continues-consistent p o s e h = ground arith

process_exits-consistent :
    (k : ℕ) (s : Service) → consistent s ≡ true → consistent (process_exits k s) ≡ true
unfolding consistent process_exits
process_exits-consistent k s h = ground arith

-- What a task keeps wherever it is there, its step keeps.
pub on_task-keeps {ℓ} :
    {A : Type ℓ} (test : Service → Bool) (o : Option A) (go : A → Service → Service) (s : Service)
    → test s ≡ true
    → ((t : A) → o ≡ some t → test (go t s) ≡ true)
    → test (on_task o go s) ≡ true
on_task-keeps test none go s h k = h
on_task-keeps test (some t) go s h k = k t refl

step-consistent : (e : Event) (s : Service) → consistent s ≡ true → consistent (step e s) ≡ true
unfolding step
step-consistent (calls_load id) s h = load-consistent id s h
step-consistent (calls_begin_load id) s h = begin_load-consistent id s h
step-consistent (calls_begin_model_preparation id other) s h =
    begin_model_preparation-consistent id other s h
step-consistent (load_goes_on fresh o) s h =
    on_task-keeps consistent s.load_task (λ t. load_continues fresh t o) s h
      (λ t e. load_continues-consistent fresh t o s e h)
step-consistent (reports p) s h = report_progress-consistent p s h
step-consistent calls_unload s h = unload-consistent s h
step-consistent (unload_goes_on o) s h =
    on_task-keeps consistent s.unload_task (λ u. unload_continues u o) s h
      (λ u e. unload_continues-consistent u o s e h)
step-consistent calls_embed s h = embed-consistent s h
step-consistent calls_embed_query s h = embed_query-consistent s h
step-consistent (embed_goes_on o) s h =
    on_task-keeps consistent s.inflight (λ p. embed_continues p o) s h
      (λ p e. embed_continues-consistent p o s e h)
step-consistent (exits k) s h = process_exits-consistent k s h

-- Whatever calls arrive, awaits end and processes exit, in any order: the variables of the service
-- agree. A failure is recorded exactly in `failed`, or is left from before in `unloading`; `ready` has
-- a runtime, and like `loading` a preparation's id; `loading` has a task that is not aborted;
-- `unloading` and only it has a task of its own; a request is never in flight beside a load.
pub Reachable-consistent : {s : Service} → Reachable s → consistent s ≡ true
unfolding consistent
Reachable-consistent fresh_service = refl
Reachable-consistent (after {s} reached e) = step-consistent e s (Reachable-consistent reached)
