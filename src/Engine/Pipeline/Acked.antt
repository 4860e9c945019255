-- ===== src/Engine/Pipeline/Acked.antt =====
-- What a running engine has of an event that it has acknowledged upstream.
use mathlib.Core.List.{Mem, not-mem-nil}
use mathlib.Core.Path.{subst}
use stream_rail.Common.{
  ℕ, ◌^◌, ◌<◌, ◌≡◌, ◌⊎◌, inl, inr, true, refl, sym, ap, ◌∙◌, Option, some, List, [], ◌∷◌, ◌++◌,
  arith,
}
use stream_rail.Common.Assoc.{lookup}
use stream_rail.Model.{Event}
use stream_rail.Rule.{Floats, Rule}
use stream_rail.Window.{Key, key_eq, Bucket, Batch, Store}
use stream_rail.Window.Tumbling.Secure.{Secure}
use stream_rail.Notifier.{Network, Notifier}
use stream_rail.Engine.{Counters}
use stream_rail.Engine.Setup.{Stage, tumbling, sliding}
use stream_rail.Engine.System.{Action, perform_all, initial_system}
use stream_rail.Engine.System.Acked.{reached, acked_by_all}
use stream_rail.Engine.System.Counts.{occurrences}
use stream_rail.Engine.System.Grows.{sent_by, all_of}
use stream_rail.Engine.System.Kept.{nth, nth_there, nth-All, occurs-All, StageKeeps, HeldIn}
use stream_rail.Engine.System.Kept.Steps.{IsFresh, all_accepted, perform_all-Keeps, initial-Keeps}
use stream_rail.Engine.Dispatch.{Dispatch}
use stream_rail.Engine.Dispatch.Lists.{of_stream, under_way, evaluate_all}
use stream_rail.Engine.Pipeline.{
  Pipeline, Step, act, fetch_step, pass_step, take_step, step, step_all, initial_pipeline,
}
use stream_rail.Engine.Pipeline.Order.{batches_in_order}

-- The actions of fanOut and of the managers among the steps.
unfoldable pub actions_of : {F : Type 0} → List (Step F) → List (Action F)
actions_of [] = []
actions_of (act a ∷ steps) = a ∷ actions_of steps
actions_of (fetch_step i ∷ steps) = actions_of steps
actions_of (pass_step i ∷ steps) = actions_of steps
actions_of (take_step ∷ steps) = actions_of steps

-- In an open window of the manager of a stream, or in a batch of the stream that is evaluated, as one
-- of `done`, or under way. Of a sliding manager this says nothing.
abbrev pub Located :
    {F S : Type 0} → List (ℕ × Batch F) → Dispatch F → ℕ → Event F → Stage F S → Type 0
Located done d j ev (sliding m) = Unit
Located {F} done d j ev (tumbling m) =
    ((k : Key) × (b : Bucket F) × (lookup k m.windows ≡ some b) × Mem ev b.events)
    ⊎ ((batch : Batch F) × Mem batch (of_stream j done ++ under_way d j) × Mem ev batch.events)

module _ {F S : Type 0} where
  fresh_sent : (stage : Stage F S) → IsFresh stage → sent_by stage ≡ []
  fresh_sent (tumbling m) e = ap all_of e
  fresh_sent (sliding m) e = ap all_of e

  -- What a manager keeps of an event whose number it has acknowledged.
  kept-Located :
      (evs : List (Event F)) (done : List (ℕ × Batch F)) (d : Dispatch F) (j k : ℕ) (ev : Event F)
      (stage : Stage F S) (acked : List ℕ)
      → nth k evs ≡ some ev
      → 0 < occurrences k acked
      → sent_by stage ≡ of_stream j done ++ under_way d j
      → StageKeeps evs stage acked
      → Located done d j ev stage
  kept-Located evs done d j k ev (sliding m) acked own there flow h = tt
  kept-Located evs done d j k ev (tumbling m) acked own there flow (kept, t, held) =
      let (e, p, named, within) = occurs-All (HeldIn evs kept) k acked there held in
      let same : e ≡ ev = ground (arith, named, own) in
      elim (nth-All (Secure m.windows [] t.sent) p kept ev (within ∙ ap some same) t.secure) [
        | inl open_window ↦ inl open_window
        | inr (batch, inl nowhere, here) ↦ absurd (not-mem-nil nowhere)
        | inr (batch, inr sent, here) ↦
            inr (batch, subst (Mem batch) (sym (ap all_of t.channel) ∙ flow) sent, here)
      ]

  module _ ⦃fl : Floats F⦄ ⦃net : Network F⦄ (stores : ℕ → Store F S) (n : ℕ)
      (notifiers : List (Notifier F)) (rules : ℕ → List (Rule F)) where
    -- The system goes its own way.
    pub system-step_all :
        (steps : List (Step F)) (p : Pipeline F S)
        → (step_all stores n notifiers rules steps p).system
          ≡ perform_all stores n (actions_of steps) p.system
    unfolding step_all step perform_all actions_of
    system-step_all [] p = refl
    system-step_all (act a ∷ steps) p = system-step_all steps _
    system-step_all (fetch_step i ∷ steps) p = system-step_all steps _
    system-step_all (pass_step i ∷ steps) p = system-step_all steps _
    system-step_all (take_step ∷ steps) p = system-step_all steps _

    -- For at least one and fewer than 2 ^ 31 streams, whose managers start with open channels and
    -- nothing sent, after any steps of the engine in any order: if the upstream acknowledgement of an
    -- accepted event has been called, then what the engine has put out is the evaluation of some
    -- batches under the rules of their streams, and in each stream with a tumbling manager the event is
    -- in an open window of the manager, or in a batch of the stream that is among these or under way to
    -- its evaluation.
    pub acked_event_kept :
        (stages : ℕ → Stage F S) (start : Option Counters) (steps : List (Step F)) (k : ℕ)
        → 0 < n
        → n < 2 ^ 31
        → ((j : ℕ) → IsFresh (stages j))
        → k < (reached stores n stages (actions_of steps)).accepted
        → ((reached stores n stages (actions_of steps)).barriers k).has_ack ≡ true
        → ((reached stores n stages (actions_of steps)).barriers k).fired ≡ 1
        → let p = step_all stores n notifiers rules steps (initial_pipeline stages start) in
          (done : List (ℕ × Batch F)) × (ev : Event F) × (p.dispatch.emitted
            ≡ evaluate_all notifiers rules done)
          × (nth k (all_accepted stores n (actions_of steps) (initial_system stages)) ≡ some ev)
          × ((j : ℕ) → j < n → Located done p.dispatch j ev (p.system.stations j).stage)
    acked_event_kept stages start steps k pos_n small fresh before has fired =
        let actions = actions_of steps in
        let p = step_all stores n notifiers rules steps (initial_pipeline stages start) in
        let evs = all_accepted stores n actions (initial_system stages) in
        let same : p.system ≡ reached stores n stages actions =
          unfold initial_pipeline in system-step_all steps (initial_pipeline stages start) in
        let (done, flows) =
          batches_in_order stores n notifiers rules start stages steps
            (λ i. fresh_sent (stages i) (fresh i)) in
        let keeps = perform_all-Keeps stores n actions [] _ (initial-Keeps stages fresh) in
        let (ev, named) = nth_there k evs (omega (arith, before, keeps.counted)) in
        let taken = ((acked_by_all stores n stages actions k pos_n small before has).2).0 fired in
        let there : (j : ℕ) → j < n → occurrences k (p.system.stations j).acked ≡ 1 =
          λ j lt. ap (λ s. occurrences k (s.stations j).acked) same ∙ taken j lt in
        (
          done,
          ev,
          flows.ordered.emitted,
          named,
          (λ j lt.
              kept-Located evs done p.dispatch j k ev (p.system.stations j).stage
                (p.system.stations j).acked named (omega (arith, there j lt))
                (sym (flows.sent j) ∙ flows.ordered.flow j)
                (subst (λ s. StageKeeps evs (s.stations j).stage (s.stations j).acked) (sym same)
                  (keeps.stations j).1)),
        )
