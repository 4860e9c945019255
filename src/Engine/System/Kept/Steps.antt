-- ===== src/Engine/System/Kept/Steps.antt =====
-- Every step of the system keeps the events.
use mathlib.Core.List.{append-nil, append_assoc}
use mathlib.Core.Path.{subst}
use stream_rail.Common.{
  ℕ, ◌+◌, ◌≡◌, refl, sym, ap, ◌∙◌, Bool, none, some, List, [], ◌∷◌, ◌++◌, ◌==◌, nat_eq, ltb, length,
  length-append, arith, All, All-append, inl, inr, Bool-cases, Option-cases,
}
use stream_rail.Model.{Event}
use stream_rail.Window.{Store}
use stream_rail.Engine.Setup.{Stage, tumbling, sliding}
use stream_rail.Engine.System.{
  Child, System, Action, accept, deliver, work, tick, send_child, take_child, open_barrier, perform,
  perform_all, queue_size, initial_system,
}
use stream_rail.Engine.System.Kept.{
  nth, nth_last, Own, PendingOwn, StageKeeps, Keeps, StationKeeps-more, stations_at,
  receive_event-Keeps, close_stage-Keeps,
}

module _ {F S : Type 0} where
  send_child-Keeps :
      (n : ℕ) (evs : List (Event F)) (child : Child F) (i : ℕ) (s : System F S)
      → s.pending ≡ some (child, i)
      → Keeps evs s
      → Keeps evs (send_child n child i s)
  unfolding send_child
  send_child-Keeps n evs child i s e h =
      elim (Bool-cases (ltb (length (s.stations i).queue) queue_size)) [
        | inr full ↦ rw full h
        | inl room ↦ rw room (record {
          counted = h.counted;
          pending = elim (Bool-cases (i + 1 == n)) [
            | inl last ↦ rw last tt
            | inr next ↦ rw next own
          ];
          stations =
              stations_at evs i _ s.stations
                (
                  All-append (Own evs) (s.stations i).queue (child ∷ []) (h.stations i).0 (own, tt),
                  (h.stations i).1,
                )
                h.stations;
        })
      ]
    where
      own : Own evs child
      own = subst (PendingOwn evs) e h.pending

  take_child-Keeps :
      (ops : Store F S) (evs : List (Event F)) (i : ℕ) (queue : List (Child F)) (s : System F S)
      → (s.stations i).queue ≡ queue
      → Keeps evs s
      → Keeps evs (take_child ops i queue s)
  unfolding take_child
  take_child-Keeps ops evs i [] s e h = h
  take_child-Keeps ops evs i (child ∷ rest) s e h = record {
    counted = h.counted;
    pending = h.pending;
    stations =
        stations_at evs i _ s.stations
          (
            owns.1,
            receive_event-Keeps ops evs child (s.stations i).stage (s.stations i).acked owns.0
                (h.stations i).1,
          )
          h.stations;
  }
    where
      owns : All (Own evs) (child ∷ rest)
      owns = subst (All (Own evs)) e (h.stations i).0

  open_barrier-Keeps :
      (n : ℕ) (evs : List (Event F)) (has_ack : Bool) (ev : Event F) (s : System F S)
      → Keeps evs s
      → Keeps (evs ++ ev ∷ []) (open_barrier n has_ack ev s)
  unfolding open_barrier
  open_barrier-Keeps n evs has_ack ev s h = record {
    counted = omega (arith, length-append evs (ev ∷ []), h.counted);
    pending = ap (λ k. nth k (evs ++ ev ∷ [])) (sym h.counted) ∙ nth_last evs ev;
    stations = λ j. StationKeeps-more evs (ev ∷ []) (s.stations j) (h.stations j);
  }

  module _ (stores : ℕ → Store F S) (n : ℕ) where
    -- The events that fanOut receives in an action, and in some actions.
    abbrev pub accepted_by : Action F → System F S → List (Event F)
    accepted_by (accept has_ack ev) s = elim s.pending [ none ↦ ev ∷ [] | some _ ↦ [] ]
    accepted_by deliver s = []
    accepted_by (work i) s = []
    accepted_by (tick i now order gc_order sends) s = []

    unfoldable pub all_accepted : List (Action F) → System F S → List (Event F)
    all_accepted [] s = []
    all_accepted (a ∷ actions) s = accepted_by a s ++ all_accepted actions (perform stores n a s)

    perform-Keeps :
        (evs : List (Event F)) (a : Action F) (s : System F S)
        → Keeps evs s
        → Keeps (evs ++ accepted_by a s) (perform stores n a s)
    unfolding perform
    perform-Keeps evs (accept has_ack ev) s h = elim (Option-cases s.pending) [
      | inl e ↦ rw e (open_barrier-Keeps n evs has_ack ev s h)
      | inr (p, e) ↦
          let same : perform stores n (accept has_ack ev) s ≡ s = ground (arith, e) in
          let nothing : accepted_by (accept has_ack ev) s ≡ [] = ground (arith, e) in
          subst (λ t. Keeps (evs ++ accepted_by (accept has_ack ev) s) t) (sym same)
            (subst (λ l. Keeps (evs ++ l) s) (sym nothing) (rw (append-nil evs) h))
    ]
    perform-Keeps evs deliver s h = elim (Option-cases s.pending) [
      | inl e ↦
          let same : perform stores n deliver s ≡ s = ground (arith, e) in
          subst (λ t. Keeps (evs ++ []) t) (sym same) (rw (append-nil evs) h)
      | inr ((child, i), e) ↦
          let next : perform stores n deliver s ≡ send_child n child i s = ground (arith, e) in
          subst (λ t. Keeps (evs ++ []) t) (sym next)
            (rw (append-nil evs) (send_child-Keeps n evs child i s e h))
    ]
    perform-Keeps evs (work i) s h = elim (Bool-cases (ltb i n)) [
      | inl there ↦
          rw (there, append-nil evs)
            (take_child-Keeps (stores i) evs i (s.stations i).queue s refl h)
      | inr not_there ↦ rw (not_there, append-nil evs) h
    ]
    perform-Keeps evs (tick i now order gc_order sends) s h = rw (append-nil evs) (record {
      counted = h.counted;
      pending = h.pending;
      stations =
          stations_at evs i _ s.stations
            (
              (h.stations i).0,
              close_stage-Keeps (stores i) now order gc_order sends evs (s.stations i).stage
                  (s.stations i).acked (h.stations i).1,
            )
            h.stations;
    })

    pub perform_all-Keeps :
        (actions : List (Action F)) (evs : List (Event F)) (s : System F S)
        → Keeps evs s
        → Keeps (evs ++ all_accepted actions s) (perform_all stores n actions s)
    unfolding perform_all all_accepted
    perform_all-Keeps [] evs s h = rw (append-nil evs) h
    perform_all-Keeps (a ∷ actions) evs s h =
        rw (sym (append_assoc evs (accepted_by a s) (all_accepted actions (perform stores n a s))))
          (perform_all-Keeps actions (evs ++ accepted_by a s) (perform stores n a s)
            (perform-Keeps evs a s h))

  -- A manager as Run starts it, with an open channel on which nothing is sent.
  abbrev pub IsFresh : Stage F S → Type 0
  IsFresh (tumbling m) = m.out ≡ some []
  IsFresh (sliding m) = m.out ≡ some []

  pub initial-Keeps :
      (stages : ℕ → Stage F S) → ((j : ℕ) → IsFresh (stages j)) → Keeps [] (initial_system stages)
  unfolding initial_system
  initial-Keeps stages fresh = record {
    counted = refl;
    pending = tt;
    stations = λ j. (tt, stage_keeps (stages j) (fresh j));
  }
    where
      stage_keeps : (stage : Stage F S) → IsFresh stage → StageKeeps [] stage []
      stage_keeps (tumbling m) e = ([], record { sent = []; channel = e; secure = tt }, tt)
      stage_keeps (sliding m) e = tt
