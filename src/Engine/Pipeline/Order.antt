-- ===== src/Engine/Pipeline/Order.antt =====
-- Each batch that a manager of a running engine sends is evaluated, or it is under way.
use mathlib.Core.List.{append_assoc, append-nil}
use stream_rail.Common.{ℕ, ◌≡◌, true, refl, sym, ap, ◌∙◌, Option, List, [], ◌∷◌, ◌++◌}
use stream_rail.Rule.{Floats, Rule}
use stream_rail.Window.{Batch, Store}
use stream_rail.Notifier.{Network, Notifier}
use stream_rail.Engine.{Counters}
use stream_rail.Engine.Setup.{Stage}
use stream_rail.Engine.System.{Action, perform, initial_system}
use stream_rail.Engine.System.Grows.{sent_by, perform-Grows}
use stream_rail.Engine.Dispatch.{Move, fetch, pass, take, move, quiet}
use stream_rail.Engine.Dispatch.Lists.{of_stream, held_list, untagged, regroup}
use stream_rail.Engine.Dispatch.Sent.{is_inner, move-sent}
use stream_rail.Engine.Dispatch.Order.{Ordered, quiet-Ordered, move-Ordered}
use stream_rail.Engine.Pipeline.{
  Pipeline, Step, act, fetch_step, pass_step, take_step, newer, receive_sent, linked, step,
  step_all, initial_pipeline,
}

pub newer-append : {F : Type 0} (old more : List (Batch F)) → newer old (old ++ more) ≡ more
unfolding newer
newer-append [] more = refl
newer-append (b ∷ old) more = newer-append old more

module _ {F S : Type 0} where
  module _ ⦃fl : Floats F⦄ ⦃net : Network F⦄ (stores : ℕ → Store F S) (n : ℕ)
      (notifiers : List (Notifier F)) (rules : ℕ → List (Rule F)) (start : Option Counters) where
    -- The batches in `done` are evaluated, and the channels have what the managers have sent.
    pub record Flows (done : List (ℕ × Batch F)) (p : Pipeline F S) : Type 0 where
      pub ordered : Ordered notifiers rules start done p.dispatch
      pub sent : (i : ℕ) → (p.dispatch.lanes i).sent ≡ sent_by (p.system.stations i).stage

    act-Flows :
        (a : Action F) (done : List (ℕ × Batch F)) (p : Pipeline F S)
        → Flows done p
        → Flows done (step stores n notifiers rules (act a) p)
    unfolding step linked receive_sent
    act-Flows a done p h = record {
      ordered = record {
        emitted = h.ordered.emitted;
        counters = h.ordered.counters;
        flow = λ i.
            let grows = perform-Grows stores n a p.system i in
            let lane = p.dispatch.lanes i in
            let extra : newer (sent_by (p.system.stations i).stage)
                  (sent_by ((perform stores n a p.system).stations i).stage)
                ≡ grows.more =
              ap (newer (sent_by (p.system.stations i).stage)) grows.grown
              ∙ newer-append (sent_by (p.system.stations i).stage) grows.more in
            grows.grown
            ∙ ap (λ l. l ++ grows.more) (sym (h.sent i) ∙ h.ordered.flow i)
            ∙ regroup (of_stream i done) (of_stream i (untagged p.dispatch.inbox))
                (held_list lane.held) lane.queue grows.more
            ∙ ap
                (λ l.
                  of_stream i done
                  ++ (of_stream i (untagged p.dispatch.inbox)
                      ++ (held_list lane.held ++ (lane.queue ++ l))))
                (sym extra);
        tagged = h.ordered.tagged;
      };
      sent = λ i. refl;
    }

    move-Flows :
        (m : Move F) (done : List (ℕ × Batch F)) (p : Pipeline F S)
        → is_inner m ≡ true
        → Flows done p
        → (more : List (ℕ × Batch F)) × Flows
            (done ++ more)
            (record p { dispatch = move notifiers rules m p.dispatch })
    move-Flows m done p inner h =
        let (more, o) = move-Ordered notifiers rules start done m p.dispatch h.ordered in
        (
          more,
          record {
            ordered = o;
            sent = λ i. move-sent notifiers rules m p.dispatch inner i ∙ h.sent i;
          },
        )

    step-Flows :
        (s : Step F) (done : List (ℕ × Batch F)) (p : Pipeline F S)
        → Flows done p
        → (more : List (ℕ × Batch F)) × Flows (done ++ more) (step stores n notifiers rules s p)
    unfolding step
    step-Flows (act a) done p h = ([], rw (append-nil done) (act-Flows a done p h))
    step-Flows (fetch_step i) done p h = move-Flows (fetch i) done p refl h
    step-Flows (pass_step i) done p h = move-Flows (pass i) done p refl h
    step-Flows take_step done p h = move-Flows take done p refl h

    step_all-Flows :
        (steps : List (Step F)) (done : List (ℕ × Batch F)) (p : Pipeline F S)
        → Flows done p
        → (more : List (ℕ × Batch F)) × Flows
            (done ++ more)
            (step_all stores n notifiers rules steps p)
    unfolding step_all
    step_all-Flows [] done p h = ([], rw (append-nil done) h)
    step_all-Flows (s ∷ steps) done p h =
        let (first, h1) = step-Flows s done p h in
        let (more, h2) =
          step_all-Flows steps (done ++ first) (step stores n notifiers rules s p) h1 in
        (first ++ more, rw (sym (append_assoc done first more)) h2)

    -- From managers that have sent nothing and empty channels, after any steps of fanOut, the managers,
    -- the goroutines that forward and the loop of Run, in any order: there are batches, each with its
    -- stream, such that the output of the engine is the evaluation of each under the rules of its
    -- stream, in their order, and the counters are theirs; and what a manager has sent are the batches of
    -- its stream among them, in the order of the sending, and after these the ones under way.
    pub batches_in_order :
        (stages : ℕ → Stage F S) (steps : List (Step F))
        → ((i : ℕ) → sent_by (stages i) ≡ [])
        → (done : List (ℕ × Batch F)) × Flows done
            (step_all stores n notifiers rules steps (initial_pipeline stages start))
    unfolding initial_pipeline quiet initial_system
    batches_in_order stages steps fresh =
        step_all-Flows steps [] _
          (record { ordered = quiet-Ordered notifiers rules start; sent = λ i. sym (fresh i) })
