-- ===== src/Services/Embedding/Ownership.antt =====
-- The native processes that run, and how an unload and a preparation end.
use lorelum.Prelude.{
  Fallible, ℕ, ◌≡◌, ◌⊎◌, refl, Bool, true, not, Option, Option-cases, inl, inr, none, some, List,
  [], ◌∷◌, ◌==◌, if◌then◌else◌, keep, all, arith,
}
use lorelum.Services.Embedding.{
  ok, err, EmbeddingError, unloaded, loading, ready, failed, publishing, preparing, starting,
  stopping, LoadPhase, LoadTask, UnloadPhase, draining, stopping_runtime, awaiting_load,
  awaiting_request, EmbedPhase, encoding, recycling, Service, is_handle, recycled, recovering, load,
  started,
}
use lorelum.Services.Embedding.Steps.{
  Settlement, timed_out, load_continues, report_progress, unload, unload_continues,
  after_publishing, after_preparing, after_starting, after_stopping, load_fails, visible,
  unload_fails, await_load, await_request, unload_ends,
}
use lorelum.Services.Embedding.Calls.{
  embed, embed_query, embed_continues, process_exits, begin_load, begin_model_preparation, Event,
  step, Reachable, fresh_service, after, or_unchanged, request_fails, calls_begin_model_preparation,
  calls_load, calls_begin_load, load_goes_on, reports, calls_unload, unload_goes_on, calls_embed,
  calls_embed_query, embed_goes_on, exits, model_preparation,
}
use lorelum.Services.Embedding.Consistent.{consistent, Reachable-consistent, on_task-keeps}

-- Each process that runs is the runtime's.
unfoldable pub owned : Service → Bool
owned s = all (λ k. is_handle k s.runtime) s.processes

owned-stopped :
    (h : ℕ) (r : Option ℕ) (ps : List ℕ)
    → all (λ k. is_handle k r) ps ≡ true
    → all (λ k. is_handle k (if is_handle h r then none else r)) (keep (λ k. not (k == h)) ps)
      ≡ true
unfolding all keep
owned-stopped h r [] a = refl
owned-stopped h r (p ∷ ps) a = ground (arith, owned-stopped h r ps)

owned-gone :
    (h : ℕ) (r : Option ℕ) (ps : List ℕ)
    → all (λ k. is_handle k r) ps ≡ true
    → all (λ k. is_handle k r) (keep (λ k. not (k == h)) ps) ≡ true
unfolding all keep
owned-gone h r [] a = refl
owned-gone h r (p ∷ ps) a = ground (arith, owned-gone h r ps)

owned-none : (r : Option ℕ) (ps : List ℕ) → r ≡ none → all (λ k. is_handle k r) ps ≡ true → ps ≡ []
unfolding all
owned-none r [] e a = refl
owned-none r (p ∷ ps) e a = ground arith

owned-recycled : (h : ℕ) (s : Service) → owned s ≡ true → owned (recycled h s) ≡ true
unfolding owned recycled
owned-recycled h s a = owned-stopped h s.runtime s.processes a

unstarted-empty :
    (t : LoadTask) (s : Service)
    → s.load_task ≡ some t
    → t.phase ≡ preparing
    → consistent s ≡ true
    → owned s ≡ true
    → s.processes ≡ []
unfolding consistent owned
unstarted-empty t s e p h a = elim (Option-cases s.runtime) [
  | inl bare ↦ owned-none s.runtime s.processes bare a
  | inr (k, there) ↦ ground arith
]

load_continues-owned :
    (fresh : ℕ) (t : LoadTask) (o : Settlement) (s : Service) (ph : LoadPhase)
    → t.phase ≡ ph
    → s.load_task ≡ some t
    → consistent s ≡ true
    → owned s ≡ true
    → owned (load_continues fresh t o s) ≡ true
unfolding owned load_continues after_publishing after_preparing after_starting after_stopping
    load_fails recovering visible recycled
load_continues-owned fresh t o s publishing p e h a = ground arith
load_continues-owned fresh t o s preparing p e h a =
    let empty = unstarted-empty t s e p h a in unfold all in ground arith
load_continues-owned fresh t o s (starting k) p e h a = ground arith
load_continues-owned fresh t o s (stopping k) p e h a =
    ground (arith, owned-stopped k s.runtime s.processes)

unload_continues-owned :
    (u : UnloadPhase) (o : Settlement) (s : Service)
    → owned s ≡ true
    → owned (unload_continues u o s) ≡ true
unfolding owned unload_continues recycled unload_fails await_load await_request unload_ends
unload_continues-owned draining o s a = ground arith
unload_continues-owned (stopping_runtime h) o s a =
    ground (arith, owned-stopped h s.runtime s.processes)
unload_continues-owned awaiting_load o s a = ground arith
unload_continues-owned awaiting_request o s a = ground arith

embed_continues-owned :
    (p : EmbedPhase) (o : Settlement) (s : Service)
    → owned s ≡ true
    → owned (embed_continues p o s) ≡ true
unfolding owned embed_continues request_fails recovering recycled
embed_continues-owned (encoding h) o s a = ground arith
embed_continues-owned (recycling h) o s a = ground (arith, owned-stopped h s.runtime s.processes)

process_exits-owned : (k : ℕ) (s : Service) → owned s ≡ true → owned (process_exits k s) ≡ true
unfolding owned process_exits
process_exits-owned k s a =
    ground (arith, owned-gone k s.runtime s.processes, owned-stopped k s.runtime s.processes)

call-owned :
    (s : Service) (r : Fallible EmbeddingError Service)
    → ((t : Service) → r ≡ ok t → (t.runtime ≡ s.runtime) × (t.processes ≡ s.processes))
    → owned s ≡ true
    → owned (or_unchanged s r) ≡ true
unfolding owned
call-owned s (err e) keeps a = a
call-owned s (ok t) keeps a = let (x, y) = keeps t refl in rw (x, y) a

step-owned :
    (e : Event) (s : Service) → consistent s ≡ true → owned s ≡ true → owned (step e s) ≡ true
unfolding step
step-owned (calls_load id) s h a = unfold load in unfold started in unfold owned in ground arith
step-owned (calls_begin_load id) s h a =
    unfold begin_load in unfold load in unfold started in unfold owned in ground arith
step-owned (calls_begin_model_preparation id other) s h a =
    unfold begin_model_preparation in unfold load in unfold started in unfold owned in ground arith
step-owned (load_goes_on fresh o) s h a =
    on_task-keeps owned s.load_task (λ t. load_continues fresh t o) s a
      (λ t e. load_continues-owned fresh t o s t.phase refl e h a)
step-owned (reports p) s h a = unfold report_progress in unfold owned in ground arith
step-owned calls_unload s h a = unfold unload in unfold owned in ground arith
step-owned (unload_goes_on o) s h a =
    on_task-keeps owned s.unload_task (λ u. unload_continues u o) s a
      (λ u e. unload_continues-owned u o s a)
step-owned calls_embed s h a = unfold embed in unfold owned in ground arith
step-owned calls_embed_query s h a =
    unfold embed_query in unfold embed in unfold owned in ground arith
step-owned (embed_goes_on o) s h a =
    on_task-keeps owned s.inflight (λ p. embed_continues p o) s a
      (λ p e. embed_continues-owned p o s a)
step-owned (exits k) s h a = process_exits-owned k s a

Reachable-owned : {s : Service} → Reachable s → owned s ≡ true
unfolding owned all
Reachable-owned fresh_service = refl
Reachable-owned (after {s} reached e) =
    step-owned e s (Reachable-consistent reached) (Reachable-owned reached)

-- In every state that the service can reach, each native process that runs is the one of the
-- `runtime` variable: none is lost, whatever fails or exits when. In `unloaded` none runs, and there
-- is no runtime, no load, no unload and no request in flight.
pub Reachable-processes :
    (s : Service)
    → Reachable s
    → (all (λ k. is_handle k s.runtime) s.processes ≡ true)
      × (s.state ≡ unloaded
          → (s.processes ≡ [])
            × (s.runtime ≡ none)
            × (s.load_task ≡ none)
            × (s.unload_task ≡ none)
            × (s.inflight ≡ none))
unfolding owned
Reachable-processes s reached = (
  Reachable-owned reached,
  λ off.
      let (a, b, c, d) = at_rest s (Reachable-consistent reached) off in
      (owned-none s.runtime s.processes a (Reachable-owned reached), a, b, c, d),
)
  where
    at_rest :
        (s : Service)
        → consistent s ≡ true
        → s.state ≡ unloaded
        → (s.runtime ≡ none) × (s.load_task ≡ none) × (s.unload_task ≡ none) × (s.inflight ≡ none)
    at_rest s h off = unfold consistent in ground arith

-- From every state that the service can reach: after a call of `unload`, two awaits of its task that
-- end at their deadline end the unload, in `unloaded` or in `failed`, even where no other task ends.
pub unload_ends_at_deadline :
    (s : Service)
    → Reachable s
    → (ended : Service) × (step
          (unload_goes_on timed_out)
          (step (unload_goes_on timed_out) (step calls_unload s))
        ≡ ended)
      × (ended.unload_task ≡ none)
      × ((ended.state ≡ unloaded) ⊎ (ended.state ≡ failed))
unfolding step unload unload_continues unload_fails await_load await_request unload_ends
unload_ends_at_deadline s reached = (
  step (unload_goes_on timed_out) (step (unload_goes_on timed_out) (step calls_unload s)),
  refl,
  ground arith,
  ground arith,
)

-- In every state that the service can reach, where `beginModelPreparation` answers with an id: either
-- it is the id of the preparation that is there, and nothing changes; or a load starts, and it is the
-- id that this load draws. The UUID it would draw for want of a preparation is never needed: with any
-- other one the answer is the same. The state it leaves is `loading` or `ready`, `modelPreparation`
-- finds the id there, and a second `beginModelPreparation` answers with it and changes nothing.
pub begin_model_preparation_answers :
    (id other unneeded again another drawn : ℕ) (s t : Service)
    → Reachable s
    → begin_model_preparation id other s ≡ ok (drawn, t)
    → (((s.preparation_id ≡ some drawn) × (t ≡ s)) ⊎ ((drawn ≡ id) × (t ≡ started id s)))
      × (begin_model_preparation id unneeded s ≡ ok (drawn, t))
      × ((t.state ≡ loading) ⊎ (t.state ≡ ready))
      × (model_preparation drawn t ≡ ok t.state)
      × (begin_model_preparation again another t ≡ ok (drawn, t))
begin_model_preparation_answers id other unneeded again another drawn s t reached e =
    let h = Reachable-consistent reached in
    unfold consistent in
    unfold begin_model_preparation in
    unfold load in
    unfold started in
    unfold model_preparation in
    (ground arith, ground arith, ground arith, ground arith, ground arith)
