-- ===== src/Tests/Running.antt =====
-- Runs of the theorems on the running engine.
use stream_rail.Common.{true, ◌<◌, ℕ, ◌≡◌, refl, false, some, none, List, [], ◌∷◌, ◌++◌, arith}
use stream_rail.Common.Int.{pos}
use stream_rail.Clock.{minute}
use stream_rail.Rule.{Rule}
use stream_rail.Window.{ok}
use stream_rail.Window.Tumbling.{set_store, new_manager}
use stream_rail.Engine.{StreamKey, stream_key_eq}
use stream_rail.Engine.Setup.{tumbling, Engine, Stream, new_engine, start_streams, grouping}
use stream_rail.Engine.{ack_barrier, call_done, Counters}
use stream_rail.Window.{Batch}
use stream_rail.Notifier.{console}
use stream_rail.Engine.Pipeline.{
  Step, step, act, fetch_step, pass_step, take_step, step_all, initial_pipeline,
}
use stream_rail.Model.{Event}
use stream_rail.Engine.System.Kept.{nth}
use stream_rail.Engine.System.Kept.Steps.{all_accepted}
use stream_rail.Engine.Pipeline.Acked.{actions_of, Located}
use stream_rail.Engine.Pipeline.Started.{
  run_engine, stage_of, rules_served, store_of, running_engine_keeps,
}
use stream_rail.Engine.Setup.{start_stage}
use stream_rail.Window.Tumbling.{set_lateness}
use stream_rail.Engine.Pipeline.Order.{Flows, batches_in_order}
use stream_rail.Engine.Pipeline.Waiting.{go, go_all, can_go}
use stream_rail.Engine.Pipeline.Waiting.Live.{eventually_acked}
use stream_rail.Engine.Dispatch.{Dispatch, Move, send, fetch, pass, take, move_all, quiet}
use stream_rail.Engine.Dispatch.Lists.{of_stream, evaluate_all}
use stream_rail.Engine.Dispatch.Room.{HasRoom}
use stream_rail.Engine.Dispatch.Order.{Ordered, dispatched_in_order}
use stream_rail.Engine.Dispatch.Drain.{Reaches, every_batch_evaluated}
use stream_rail.Engine.System.{
  accept, deliver, work, tick, perform, perform_all, initial_system, update,
}
use stream_rail.Tests.Memory.{memory}
use stream_rail.Tests.Disk.{event_at, key_at, Disk, disk, words}
use stream_rail.Tests.Rules.{natural, seconds, no_network}
use stream_rail.Tests.Storage.{bare}
use stream_rail.Tests.Server.{two_stages, spike, tumbles, text_of_duration}

abbrev first_batch : Batch ℕ
first_batch = record {
  key = key_at 0;
  window_end = minute;
  events = event_at 5 ∷ [];
  count = 1;
  corrected = false;
}

abbrev second_batch : Batch ℕ
second_batch = record first_batch { corrected = true }

abbrev zeros : Counters
zeros = record { late_events = 0; closed_normally = 0; closed_corrected = 0 }

abbrev rules_of : ℕ → List (Rule ℕ)
rules_of i = spike ∷ []

abbrev moves : List (Move ℕ)
moves =
    send 0 first_batch ∷ fetch 0 ∷ send 1 second_batch ∷ pass 0 ∷ send 0 second_batch ∷ take ∷ []

dispatched_in_order_example :
    HasRoom (move_all (console ∷ []) rules_of moves (quiet (some zeros)))
    × ((done : List (ℕ × Batch ℕ)) × Ordered
          (console ∷ [])
          rules_of
          (some zeros)
          done
          (move_all (console ∷ []) rules_of moves (quiet (some zeros))))
dispatched_in_order_example = dispatched_in_order (console ∷ []) rules_of (some zeros) moves

every_batch_evaluated_example :
    (e : Dispatch ℕ) × Reaches
      (console ∷ [])
      rules_of
      (move_all (console ∷ []) rules_of moves (quiet (some zeros)))
      e
    × ((done : List (ℕ × Batch ℕ)) × (e.emitted ≡ evaluate_all (console ∷ []) rules_of done)
        × ((j : ℕ)
            → j < 2
            → ((move_all (console ∷ []) rules_of moves (quiet (some zeros))).lanes j).sent
              ≡ of_stream j done))
every_batch_evaluated_example = every_batch_evaluated (console ∷ []) rules_of (some zeros) moves 2

abbrev steps : List (Step ℕ)
steps =
    act (accept true (event_at 5))
    ∷ act deliver
    ∷ act (work 0)
    ∷ act (tick 0 (pos 999_999_999_999) (key_at 0 ∷ []) [] 1)
    ∷ fetch_step 0
    ∷ pass_step 0
    ∷ take_step
    ∷ []

batches_in_order_example :
    (done : List (ℕ × Batch ℕ)) × Flows
      (λ i. memory)
      2
      (console ∷ [])
      rules_of
      (some zeros)
      done
      (step_all
        (λ i. memory)
        2
        (console ∷ [])
        rules_of
        steps
        (initial_pipeline two_stages (some zeros)))
batches_in_order_example =
    batches_in_order (λ i. memory) 2 (console ∷ []) rules_of (some zeros) two_stages steps
      (λ i. unfold set_store new_manager in refl)

abbrev full_steps : List (Step ℕ)
full_steps =
    act (accept true (event_at 5))
    ∷ act deliver
    ∷ act (work 0)
    ∷ act (tick 0 (pos 999_999_999_999) (key_at 0 ∷ []) [] 1)
    ∷ act deliver
    ∷ fetch_step 0
    ∷ act (work 1)
    ∷ pass_step 0
    ∷ take_step
    ∷ []

-- An engine without a store, with one stream.
abbrev plain : Engine ℕ Disk
plain = new_engine minute (spike ∷ []) none

abbrev one_group : List (StreamKey × List (Rule ℕ))
one_group = (tumbles, spike ∷ []) ∷ []

abbrev one_stream : List (Stream ℕ Disk)
one_stream =
    record {
      key = tumbles;
      rules = spike ∷ [];
      stage =
          tumbling
            (set_lateness (pos 0) (new_manager Disk minute true (some (grouping plain tumbles))));
    }
    ∷ []

one_stream-starts : start_streams text_of_duration plain bare one_group ≡ ok one_stream
unfolding start_streams start_stage new_engine
one_stream-starts = refl

running_engine_keeps_example :
    let p = run_engine text_of_duration plain one_stream (some zeros) full_steps in
    (done : List (ℕ × Batch ℕ)) × (ev : Event ℕ) × (p.dispatch.emitted
      ≡ evaluate_all plain.notifiers (rules_served one_stream) done)
    × (nth 0 (
          all_accepted
            (store_of text_of_duration plain one_stream)
            1
            (actions_of full_steps)
            (initial_system (stage_of one_stream)))
        ≡ some ev)
    × ((j : ℕ) → j < 1 → Located done p.dispatch j ev (p.system.stations j).stage)
unfolding perform_all perform initial_system update ack_barrier call_done actions_of
running_engine_keeps_example =
    running_engine_keeps text_of_duration plain bare one_group one_stream (some zeros) full_steps 0
      one_stream-starts (omega arith) (omega arith) (omega arith) refl refl

-- fanOut has sent an event to the first of two streams, and no manager has taken it yet.
abbrev begun : List (Step ℕ)
begun = act (accept true (event_at 5)) ∷ act deliver ∷ []

eventually_acked_example :
    (more : List (Step ℕ)) × (let q =
        go_all
          (λ i. memory)
          2
          (console ∷ [])
          rules_of
          (begun ++ more)
          (initial_pipeline two_stages (some zeros)) in
      ((q.system.barriers 0).fired ≡ 1) × (q.system.accepted ≡ 1))
unfolding go_all go can_go step perform initial_pipeline initial_system update ack_barrier call_done
eventually_acked_example =
    eventually_acked (λ i. memory) 2 (console ∷ []) rules_of two_stages (some zeros) begun 0
      (omega arith) (omega arith) (omega arith) refl
