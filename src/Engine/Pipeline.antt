-- ===== src/Engine/Pipeline.antt =====
-- internal/engine/engine.go: Run as a whole, for the streams below `n`: fanOut and the managers
-- (Engine/System), and the way of their batches to the evaluation (Engine/Dispatch). The batches that
-- a step of a manager sends come into its channel with that step, whether there is room or not, since
-- waiting for room changes neither the batches nor their order; Engine/Pipeline/Waiting has the engine
-- whose managers wait.
pub mod Order
pub mod Acked
pub mod Started
pub mod Waiting
use stream_rail.Common.{ℕ, List, [], ◌∷◌, ◌++◌, Option}
use stream_rail.Rule.{Floats, Rule}
use stream_rail.Window.{Batch, Store}
use stream_rail.Notifier.{Network, Notifier}
use stream_rail.Engine.{Counters}
use stream_rail.Engine.Setup.{Stage}
use stream_rail.Engine.System.{System, Action, perform, initial_system}
use stream_rail.Engine.System.Grows.{sent_by}
use stream_rail.Engine.Dispatch.{Lane, Dispatch, fetch, pass, take, move, quiet}

pub record Pipeline (F S : Type 0) : Type 0 where
  pub system : System F S
  pub dispatch : Dispatch F

pub data Step (F : Type 0) : Type 0 where
  -- A step of fanOut or of a manager.
  act : Action F → Step F
  -- A step of the goroutine of a stream, or of the loop of Run.
  fetch_step pass_step : ℕ → Step F
  take_step : Step F

-- The batches of the second list that come after those of the first.
unfoldable pub newer : {F : Type 0} → List (Batch F) → List (Batch F) → List (Batch F)
newer [] new = new
newer (b ∷ old) [] = []
newer (b ∷ old) (c ∷ new) = newer old new

-- A channel that a manager has sent on: all that it has sent so far, before and after.
receive_sent : {F : Type 0} → List (Batch F) → List (Batch F) → Lane F → Lane F
receive_sent old new lane = record lane { sent = new; queue = lane.queue ++ newer old new }

module _ {F S : Type 0} where
  linked : System F S → System F S → (ℕ → Lane F) → ℕ → Lane F
  unfolding receive_sent
  linked s t lanes i =
      receive_sent (sent_by (s.stations i).stage) (sent_by (t.stations i).stage) (lanes i)

  module _ ⦃fl : Floats F⦄ ⦃net : Network F⦄ (stores : ℕ → Store F S) (n : ℕ)
      (notifiers : List (Notifier F)) (rules : ℕ → List (Rule F)) where
    unfoldable pub step : Step F → Pipeline F S → Pipeline F S
    unfolding linked
    step (act a) p =
        let t = perform stores n a p.system in
        record {
          system = t;
          dispatch = record p.dispatch { lanes = linked p.system t p.dispatch.lanes };
        }
    step (fetch_step i) p = record p { dispatch = move notifiers rules (fetch i) p.dispatch }
    step (pass_step i) p = record p { dispatch = move notifiers rules (pass i) p.dispatch }
    step take_step p = record p { dispatch = move notifiers rules take p.dispatch }

    unfoldable pub step_all : List (Step F) → Pipeline F S → Pipeline F S
    step_all [] p = p
    step_all (s ∷ steps) p = step_all steps (step s p)

  -- Run starts with empty channels.
  unfoldable pub initial_pipeline : (ℕ → Stage F S) → Option Counters → Pipeline F S
  initial_pipeline stages counters = record {
    system = initial_system stages;
    dispatch = quiet counters;
  }
