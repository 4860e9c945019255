-- ===== src/Engine/Pipeline/Waiting/Live.antt =====
-- The engine whose managers wait for room can always go on until an event is acknowledged.
use mathlib.Core.Path.{subst}
use stream_rail.Common.{
  ℕ, ◌^◌, ◌<◌, ◌≤◌, ◌≡◌, refl, sym, ap, ◌∙◌, true, false, Option, none, some, List, [], ◌∷◌, ◌++◌,
  length, arith, Bool-cases, inl, inr, ltb,
}
use stream_rail.Model.{Event}
use stream_rail.Rule.{Floats, Rule}
use stream_rail.Window.{Batch, Store}
use stream_rail.Window.Tumbling.{
  Manager, send as send_batch, advance, append_open, append_closed, emit_blocking, add_event,
  key_for,
}
use stream_rail.Window.Tumbling.Cases.{advance_cases, place_cases}
use stream_rail.Notifier.{Network, Notifier}
use stream_rail.Engine.{Counters}
use stream_rail.Engine.Setup.{Stage, tumbling, sliding}
use stream_rail.Engine.System.{
  Child, System, Action, accept, deliver, work, tick, receive_event, take_child, perform,
  perform_all, initial_system,
}
use stream_rail.Engine.System.Acked.{reached, eventually_fired}
use stream_rail.Engine.System.Copies.{update_self}
use stream_rail.Engine.System.Grows.{all_of, sent_by, add_sliding-out}
use stream_rail.Engine.System.Live.{Plain, perform_all-append}
use stream_rail.Engine.Dispatch.{Move, send, fetch, pass, take, move_all}
use stream_rail.Engine.Dispatch.Drain.{Inner, taken, all_cleared, IsClear}
use stream_rail.Engine.Pipeline.{
  Pipeline, Step, act, fetch_step, pass_step, take_step, newer, receive_sent, linked, step,
  step_all, initial_pipeline,
}
use stream_rail.Engine.Pipeline.Acked.{actions_of, system-step_all}
use stream_rail.Engine.Pipeline.Order.{newer-append}
use stream_rail.Engine.Pipeline.Waiting.{can_go, go, go_all}

module _ {F : Type 0} where
  -- At most one batch more.
  abbrev AtMostOne : List (Batch F) → List (Batch F) → Type 0
  AtMostOne old new = length (newer old new) ≤ 1

  newer-same : (old : List (Batch F)) → newer old old ≡ []
  unfolding newer
  newer-same [] = refl
  newer-same (b ∷ old) = newer-same old

  none_more : (old new : List (Batch F)) → new ≡ old → AtMostOne old new
  none_more old new e = ground (arith, ap (newer old) e ∙ newer-same old)

  one_more :
      (b : Batch F) (o p : Option (List (Batch F)))
      → p ≡ o
      → AtMostOne (all_of o) (all_of (send_batch b p))
  one_more b o none e = none_more (all_of o) [] (ap all_of e)
  one_more b o (some sent) e =
      ground
        (arith, ap (λ q. newer q (sent ++ b ∷ [])) (sym (ap all_of e)) ∙ newer-append sent (b ∷ []))

module _ {F S : Type 0} where
  add_event-AtMostOne :
      (ops : Store F S) (m : Manager F S) (ev : Event F)
      → AtMostOne (all_of m.out) (all_of (add_event ⦃ops = ops⦄ m ev).out)
  unfolding add_event append_open append_closed emit_blocking
  add_event-AtMostOne ops m ev =
      let n = advance ⦃ops = ops⦄ ev m in
      let same : n.out ≡ m.out =
        advance_cases ⦃ops = ops⦄ (λ n. n.out ≡ m.out) ev m (λ _. refl) (λ _. refl) in
      place_cases ⦃ops = ops⦄ (λ r. AtMostOne (all_of m.out) (all_of r.out)) (key_for n ev) ev n
        (λ _ _. none_more _ _ (ap all_of same)) (λ _ _ _. one_more _ m.out n.out same)
        (λ _ _ _. one_more _ m.out n.out same) (λ _ _ _. none_more _ _ (ap all_of same))

  receive_event-AtMostOne :
      (ops : Store F S) (ev : Event F) (stage : Stage F S)
      → AtMostOne (sent_by stage) (sent_by (receive_event ops ev stage))
  unfolding receive_event
  receive_event-AtMostOne ops ev (tumbling m) = add_event-AtMostOne ops m ev
  receive_event-AtMostOne ops ev (sliding m) = none_more _ _ (ap all_of (add_sliding-out m ev))

  take_child-AtMostOne :
      (ops : Store F S) (i : ℕ) (queue : List (Child F)) (s : System F S)
      → AtMostOne
          (sent_by (s.stations i).stage)
          (sent_by ((take_child ops i queue s).stations i).stage)
  unfolding take_child
  take_child-AtMostOne ops i [] s = none_more _ _ refl
  take_child-AtMostOne ops i (child ∷ rest) s =
      rw (update_self i _ s.stations) (receive_event-AtMostOne ops child.event (s.stations i).stage)

  module _ ⦃fl : Floats F⦄ ⦃net : Network F⦄ (stores : ℕ → Store F S) (n : ℕ)
      (notifiers : List (Notifier F)) (rules : ℕ → List (Rule F)) where
    go_all-append :
        (xs ys : List (Step F)) (p : Pipeline F S)
        → go_all stores n notifiers rules (xs ++ ys) p
          ≡ go_all stores n notifiers rules ys (go_all stores n notifiers rules xs p)
    unfolding go_all
    go_all-append [] ys p = refl
    go_all-append (s ∷ xs) ys p = go_all-append xs ys (go stores n notifiers rules s p)

    steps_of : List (Move F) → List (Step F)
    steps_of [] = []
    steps_of (send i b ∷ ms) = steps_of ms
    steps_of (fetch i ∷ ms) = fetch_step i ∷ steps_of ms
    steps_of (pass i ∷ ms) = pass_step i ∷ steps_of ms
    steps_of (take ∷ ms) = take_step ∷ steps_of ms

    -- The steps of Run itself never wait for a manager.
    go_all_moves :
        (ms : List (Move F)) (p : Pipeline F S)
        → Inner ms
        → go_all stores n notifiers rules (steps_of ms) p
          ≡ record p { dispatch = move_all notifiers rules ms p.dispatch }
    unfolding steps_of go_all go can_go step move_all
    go_all_moves [] p h = refl
    go_all_moves (send i b ∷ ms) p h = cc (h.0)
    go_all_moves (fetch i ∷ ms) p h = go_all_moves ms _ h.1
    go_all_moves (pass i ∷ ms) p h = go_all_moves ms _ h.1
    go_all_moves (take ∷ ms) p h = go_all_moves ms _ h.1

    -- Run can empty the channels of all managers.
    emptied :
        (p : Pipeline F S)
        → (steps : List (Step F)) × ((go_all stores n notifiers rules steps p).system ≡ p.system)
          × ((j : ℕ)
              → j < n
              → IsClear notifiers rules j (go_all stores n notifiers rules steps p).dispatch)
    emptied p =
        let (c, reach, empty, same) = taken notifiers rules p.dispatch.inbox p.dispatch refl in
        let (e, reach2, gone, clear, sent) = all_cleared notifiers rules n c empty in
        let q : Pipeline F S = record p { dispatch = c } in
        let first =
          go_all_moves reach.moves p reach.inner
          ∙ ap (λ d. record p { dispatch = d }) reach.arrives in
        let second =
          go_all_moves reach2.moves q reach2.inner
          ∙ ap (λ d. record q { dispatch = d }) reach2.arrives in
        let whole : go_all stores n notifiers rules (steps_of reach.moves ++ steps_of reach2.moves)
              p
            ≡ record q { dispatch = e } =
          go_all-append (steps_of reach.moves) (steps_of reach2.moves) p
          ∙ ap (go_all stores n notifiers rules (steps_of reach2.moves)) first
          ∙ second in
        (
          steps_of reach.moves ++ steps_of reach2.moves,
          ap (λ r. r.system) whole,
          (λ j lt. subst (λ r. IsClear notifiers rules j r.dispatch) (sym whole) (clear j lt)),
        )

    -- A receipt goes on when the channel is empty.
    work_goes :
        (i : ℕ) (p : Pipeline F S)
        → (p.dispatch.lanes i).queue ≡ []
        → ltb i n ≡ true
        → can_go stores n notifiers rules (act (work i)) p ≡ true
    unfolding can_go step linked receive_sent perform
    work_goes i p e lt =
        let one = take_child-AtMostOne (stores i) i (p.system.stations i).queue p.system in
        rw (lt, e) (ground (arith, one))

    go_goes :
        (s : Step F) (p : Pipeline F S)
        → can_go stores n notifiers rules s p ≡ true
        → go stores n notifiers rules s p ≡ step stores n notifiers rules s p
    unfolding go
    go_goes s p goes = ground (arith, goes)

    go_waits :
        (s : Step F) (p : Pipeline F S)
        → can_go stores n notifiers rules s p ≡ false
        → go stores n notifiers rules s p ≡ p
    unfolding go
    go_waits s p waits = ground (arith, waits)

    -- What the system does without waiting, the engine does with the steps of Run between.
    simulated :
        (actions : List (Action F)) (p : Pipeline F S)
        → Plain n actions
        → (steps : List (Step F)) × ((go_all stores n notifiers rules steps p).system
            ≡ perform_all stores n actions p.system)
    unfolding perform_all go_all go can_go step
    simulated [] p h = ([], refl)
    simulated (accept has_ack ev ∷ actions) p h = cc (h.0)
    simulated (tick i now order gc_order sends ∷ actions) p h = cc (h.0)
    simulated (deliver ∷ actions) p h =
        let (steps, same) = simulated actions (step stores n notifiers rules (act deliver) p) h.1 in
        (act deliver ∷ steps, same)
    simulated (work i ∷ actions) p h =
        let (first, still, clear) = emptied p in
        let q = go_all stores n notifiers rules first p in
        let goes = work_goes i q (clear i (ground (arith, h.0))).1 h.0 in
        let r = step stores n notifiers rules (act (work i)) q in
        let (steps, same) = simulated actions r h.1 in
        let moved : go stores n notifiers rules (act (work i)) q ≡ r =
          go_goes (act (work i)) q goes in
        let arrived : r.system ≡ perform stores n (work i) p.system =
          ap (perform stores n (work i)) still in
        (
          first ++ act (work i) ∷ steps,
          ap (λ z. z.system) (go_all-append first (act (work i) ∷ steps) p)
              ∙ ap (λ z. (go_all stores n notifiers rules steps z).system) moved
              ∙ same
              ∙ ap (perform_all stores n actions) arrived,
        )

    -- The engine that waits takes fewer steps of the system, and no other ones.
    performed :
        (steps : List (Step F)) (p : Pipeline F S)
        → (actions : List (Action F)) × ((go_all stores n notifiers rules steps p).system
            ≡ perform_all stores n actions p.system)
    unfolding go_all perform_all step_all
    performed [] p = ([], refl)
    performed (s ∷ steps) p = elim (Bool-cases (can_go stores n notifiers rules s p)) [
      | inr waits ↦
          let (actions, same) = performed steps p in
          (
            actions,
            ap (λ q. (go_all stores n notifiers rules steps q).system) (go_waits s p waits) ∙ same,
          )
      | inl goes ↦
          let q = step stores n notifiers rules s p in
          let (actions, same) = performed steps q in
          (
            actions_of (s ∷ []) ++ actions,
            ap (λ q. (go_all stores n notifiers rules steps q).system) (go_goes s p goes)
                ∙ same
                ∙ ap (perform_all stores n actions)
                    (system-step_all stores n notifiers rules (s ∷ []) p)
                ∙ sym (perform_all-append stores n (actions_of (s ∷ [])) actions p.system),
          )
    ]

    -- The engine whose managers wait for room on `out`, for at least one and fewer than 2 ^ 31
    -- streams: whatever the steps were so far, it can go on, without receiving another event, such
    -- that the upstream acknowledgement of an accepted event that has one has been called once. The
    -- channels of the streams, their `out`, and the channel of the batches have their capacities, and
    -- a receipt is taken only where the batch that it may send finds room.
    pub eventually_acked :
        (stages : ℕ → Stage F S) (start : Option Counters) (steps : List (Step F)) (k : ℕ)
        → let p = go_all stores n notifiers rules steps (initial_pipeline stages start) in
          0 < n
          → n < 2 ^ 31
          → k < p.system.accepted
          → (p.system.barriers k).has_ack ≡ true
          → (more : List (Step F)) × (let q =
                go_all stores n notifiers rules (steps ++ more) (initial_pipeline stages start) in
              ((q.system.barriers k).fired ≡ 1) × (q.system.accepted ≡ p.system.accepted))
    eventually_acked stages start steps k pos_n small before has =
        let first = initial_pipeline {F = F} stages start in
        let p = go_all stores n notifiers rules steps first in
        let (actions, same) = performed steps first in
        let begun : p.system ≡ reached stores n stages actions =
          same ∙ (unfold initial_pipeline in refl) in
        let (more, plain, fired, held) =
          eventually_fired stores n stages actions k pos_n small
            (subst (λ s. k < s.accepted) begun before)
            (ap (λ s. (s.barriers k).has_ack) (sym begun) ∙ has) in
        let (rest, on) = simulated more p plain in
        let whole : (go_all stores n notifiers rules (steps ++ rest) first).system
            ≡ reached stores n stages (actions ++ more) =
          ap (λ z. z.system) (go_all-append steps rest first)
          ∙ on
          ∙ ap (perform_all stores n more) begun
          ∙ sym (perform_all-append stores n actions more (initial_system stages)) in
        (
          rest,
          (
            ap (λ s. (s.barriers k).fired) whole ∙ fired,
            ap (λ s. s.accepted) whole ∙ held ∙ ap (λ s. s.accepted) (sym begun),
          ),
        )
