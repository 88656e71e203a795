-- ===== src/Services/Embedding/Tests.antt =====
-- Runs of the service, and its theorems at the states that they reach.
use lorelum.Prelude.{ℕ, ◌≡◌, ◌⊎◌, refl, true, none, some, [], all}
use lorelum.Services.Embedding.{
  ok, err, plain, busy, not_loaded, embedding_failed, unloaded, loading, ready, failed, encoding,
  Service, initial, is_handle, started,
}
use lorelum.Services.Embedding.Steps.{fulfilled, timed_out, rejected}
use lorelum.Services.Embedding.Calls.{
  step, Reachable, fresh_service, after, embed, model_preparation, begin_model_preparation,
  calls_load, load_goes_on, calls_unload, unload_goes_on, calls_embed, embed_goes_on, exits,
  returns_vectors,
}
use lorelum.Services.Embedding.Consistent.{consistent, Reachable-consistent}
use lorelum.Services.Embedding.Ownership.{
  Reachable-processes, unload_ends_at_deadline, begin_model_preparation_answers,
}

abbrev begun : Service
begun = step (calls_load 1) initial

abbrev starting_seven : Service
starting_seven = step (load_goes_on 7 fulfilled) (step (load_goes_on 0 fulfilled) begun)

abbrev serving : Service
serving = step (load_goes_on 0 fulfilled) starting_seven

abbrev stuck : Service
stuck = step (embed_goes_on (rejected (plain embedding_failed))) (step calls_embed serving)

starting_seven-Reachable : Reachable starting_seven
starting_seven-Reachable =
    after (after (after fresh_service (calls_load 1)) (load_goes_on 0 fulfilled))
      (load_goes_on 7 fulfilled)

stuck-Reachable : Reachable stuck
stuck-Reachable =
    after (after (after starting_seven-Reachable (load_goes_on 0 fulfilled)) calls_embed)
      (embed_goes_on (rejected (plain embedding_failed)))

serves :
    (serving.state ≡ ready)
    × (serving.runtime ≡ some 7)
    × ((step calls_embed serving).inflight ≡ some (encoding 7))
    × (returns_vectors (encoding 7) fulfilled (step calls_embed serving) ≡ true)
    × (embed begun ≡ err (plain busy))
    × (embed initial ≡ err (plain not_loaded))
unfolding step returns_vectors
serves = (refl, refl, refl, refl, refl, refl)

-- The process exits while it serves; a later load begins another.
exit_fails : (step (exits 7) serving).state ≡ failed
unfolding step
exit_fails = refl

-- The stop of a runtime whose request failed is refused: it is kept, and an unload tries again.
keeps_stuck :
    (stuck.state ≡ failed)
    × (stuck.runtime ≡ some 7)
    × ((step (unload_goes_on fulfilled) (
          step
            (unload_goes_on timed_out)
            (step calls_unload (step (embed_goes_on timed_out) stuck)))).state
        ≡ unloaded)
unfolding step
keeps_stuck = (refl, refl, refl)

Reachable-consistent_example : consistent stuck ≡ true
Reachable-consistent_example = Reachable-consistent stuck-Reachable

Reachable-processes_example :
    (all (λ k. is_handle k stuck.runtime) stuck.processes ≡ true)
    × (stuck.state ≡ unloaded
        → (stuck.processes ≡ [])
          × (stuck.runtime ≡ none)
          × (stuck.load_task ≡ none)
          × (stuck.unload_task ≡ none)
          × (stuck.inflight ≡ none))
Reachable-processes_example = Reachable-processes stuck stuck-Reachable

unload_ends_at_deadline_example :
    (ended : Service) × (step
        (unload_goes_on timed_out)
        (step (unload_goes_on timed_out) (step calls_unload starting_seven))
      ≡ ended)
    × (ended.unload_task ≡ none)
    × ((ended.state ≡ unloaded) ⊎ (ended.state ≡ failed))
unload_ends_at_deadline_example = unload_ends_at_deadline starting_seven starting_seven-Reachable

begin_model_preparation_answers_example :
    (((starting_seven.preparation_id ≡ some 1) × (starting_seven ≡ starting_seven))
      ⊎ ((◌≡◌ {A = ℕ} 1 2) × (starting_seven ≡ started 2 starting_seven)))
    × (begin_model_preparation 2 9 starting_seven ≡ ok (1, starting_seven))
    × ((starting_seven.state ≡ loading) ⊎ (starting_seven.state ≡ ready))
    × (model_preparation 1 starting_seven ≡ ok starting_seven.state)
    × (begin_model_preparation 4 5 starting_seven ≡ ok (1, starting_seven))
unfolding begin_model_preparation step
begin_model_preparation_answers_example =
    begin_model_preparation_answers 2 3 9 4 5 1 starting_seven starting_seven
      starting_seven-Reachable refl
