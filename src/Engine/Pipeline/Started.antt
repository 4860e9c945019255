-- ===== src/Engine/Pipeline/Started.antt =====
-- internal/engine/engine.go: the engine with the streams that Run has started. A stream that is not
-- there has a sliding manager which is never asked.
use mathlib.Core.Path.{subst}
use stream_rail.Common.{
  ℕ, zero, suc, ◌^◌, ◌<◌, ◌≡◌, true, refl, Option, none, some, List, [], ◌∷◌, Str, All, length,
  nat_eq,
}
use stream_rail.Common.Int.{pos}
use stream_rail.Clock.{Duration}
use stream_rail.Model.{Event}
use stream_rail.Rule.{Floats, Rule}
use stream_rail.Window.{Batch, Store, ok}
use stream_rail.Window.Sliding.{new_sliding}
use stream_rail.Notifier.{Network}
use stream_rail.Engine.{StreamKey, Counters}
use stream_rail.Engine.Setup.{Engine, Stage, sliding, Stream, namespace, start_streams}
use stream_rail.Engine.Setup.Fresh.{AllFresh, start_streams-AllFresh}
use stream_rail.Engine.System.{initial_system}
use stream_rail.Engine.System.Acked.{reached}
use stream_rail.Engine.System.Kept.{nth}
use stream_rail.Engine.System.Kept.Steps.{IsFresh, all_accepted}
use stream_rail.Engine.Dispatch.Lists.{evaluate_all}
use stream_rail.Engine.Pipeline.{Pipeline, Step, step_all, initial_pipeline}
use stream_rail.Engine.Pipeline.Acked.{actions_of, Located, acked_event_kept}

-- The store of a manager that has none: it is never called.
abbrev idle_store : {F S : Type 0} → Store F S
idle_store = record {
  save = λ b s. s;
  delete = λ k s. s;
  load_all = λ s. ok [];
  save_checkpoint = λ t s. s;
  load_checkpoint = λ s. ok none;
}

module _ {F S : Type 0} where
  abbrev no_stage : Stage F S
  no_stage = sliding (new_sliding (pos 0) (pos 0) true none)

  unfoldable pub stage_of : List (Stream F S) → ℕ → Stage F S
  stage_of streams i = elim (nth i streams) [ none ↦ no_stage | some st ↦ st.stage ]

  unfoldable pub rules_served : List (Stream F S) → ℕ → List (Rule F)
  rules_served streams i = elim (nth i streams) [ none ↦ [] | some st ↦ st.rules ]

  unfoldable pub store_of : (Duration → Str) → Engine F S → List (Stream F S) → ℕ → Store F S
  store_of show e streams i = elim e.store [
    | none ↦ idle_store
    | some buckets ↦ elim (nth i streams) [
      | none ↦ idle_store
      | some st ↦ buckets (namespace show st.key)
    ]
  ]

  module _ ⦃fl : Floats F⦄ ⦃net : Network F⦄ (show : Duration → Str) (e : Engine F S) where
    -- The engine with these streams, after the steps.
    abbrev pub run_engine : List (Stream F S) → Option Counters → List (Step F) → Pipeline F S
    run_engine streams counters steps =
        step_all (store_of show e streams) (length streams) e.notifiers (rules_served streams) steps
          (initial_pipeline (stage_of streams) counters)

    stage_of-IsFresh :
        (streams : List (Stream F S))
        → All (λ st. IsFresh st.stage) streams
        → (i : ℕ) → IsFresh (stage_of streams i)
    unfolding stage_of nth new_sliding
    stage_of-IsFresh [] h i = refl
    stage_of-IsFresh (st ∷ streams) h zero = h.0
    stage_of-IsFresh (st ∷ streams) h (suc i) = stage_of-IsFresh streams h.1 i

    -- For an engine whose Run starts at least one and fewer than 2 ^ 31 streams, after any steps of it
    -- in any order: if the upstream acknowledgement of an accepted event that has one has been called
    -- once, then what the engine has put out is the evaluation of some batches under the rules of their
    -- streams, and in each stream with a tumbling manager the event is in an open window of the manager,
    -- or in a batch of the stream that is among these or under way to its evaluation.
    pub running_engine_keeps :
        (s : S) (groups : List (StreamKey × List (Rule F))) (streams : List (Stream F S))
        (counters : Option Counters) (steps : List (Step F)) (k : ℕ)
        → start_streams show e s groups ≡ ok streams
        → 0 < length streams
        → length streams < 2 ^ 31
        → let t =
            reached
              (store_of show e streams)
              (length streams)
              (stage_of streams)
              (actions_of steps) in
          k < t.accepted
          → (t.barriers k).has_ack ≡ true
          → (t.barriers k).fired ≡ 1
          → let p = run_engine streams counters steps in
            (done : List (ℕ × Batch F)) × (ev : Event F) × (p.dispatch.emitted
              ≡ evaluate_all e.notifiers (rules_served streams) done)
            × (nth k (
                  all_accepted
                    (store_of show e streams)
                    (length streams)
                    (actions_of steps)
                    (initial_system (stage_of streams)))
                ≡ some ev)
            × ((j : ℕ)
                → j < length streams
                → Located done p.dispatch j ev (p.system.stations j).stage)
    running_engine_keeps s groups streams counters steps k starts some_stream few before has fired =
        acked_event_kept (store_of show e streams) (length streams) e.notifiers
          (rules_served streams) (stage_of streams) counters steps k some_stream few
          (stage_of-IsFresh streams
            (subst (AllFresh show e s) starts (start_streams-AllFresh show e s groups)))
          before has fired
