-- ===== src/Window/Tumbling/Run/Acks.antt =====
-- What the loop of Run acknowledges, and in which state it leaves the manager.
use mathlib.Core.List.{append_assoc, append-nil}
use stream_rail.Common.{◌≡◌, refl, sym, ◌∙◌, Option, none, some, List, [], ◌∷◌, ◌++◌, arith}
use stream_rail.Window.{Store}
use stream_rail.Window.Tumbling.Invariant.{IsValid, add_event-IsValid, close_expired-IsValid}
use stream_rail.Window.Tumbling.Run.{
  Signal, done, receive, in_closed, tick, Loop, running, cancelled, finished, call_ack, react, take,
  run,
}

-- The acknowledgements of the envelopes that are received before the loop returns, in their order.
unfoldable pub acks_of : {F A : Type 0} → List (Signal F A) → List A
acks_of [] = []
acks_of (done ∷ ss) = []
acks_of (in_closed ∷ ss) = []
acks_of (receive env ∷ ss) = elim env.ack [ none ↦ acks_of ss | some a ↦ a ∷ acks_of ss ]
acks_of (tick now order gc_order sends ∷ ss) = acks_of ss

call_ack_lem :
    {A : Type 0} (ack : Option A) (acked rest : List A)
    → call_ack ack acked ++ rest ≡ acked ++ elim ack [ none ↦ rest | some a ↦ a ∷ rest ]
unfolding call_ack
call_ack_lem none acked rest = refl
call_ack_lem (some a) acked rest = append_assoc acked (a ∷ []) rest

module _ {F S A : Type 0} ⦃ops : Store F S⦄ where
  -- A loop that has returned stays as it is.
  pub run_cancelled : (ss : List (Signal F A)) (l : Loop F S A) → l.exit ≡ cancelled → run ss l ≡ l
  unfolding run take
  run_cancelled [] l h = refl
  run_cancelled (s ∷ ss) l h = ground (arith, h, run_cancelled ss l h)

  pub run_finished : (ss : List (Signal F A)) (l : Loop F S A) → l.exit ≡ finished → run ss l ≡ l
  unfolding run take
  run_finished [] l h = refl
  run_finished (s ∷ ss) l h = ground (arith, h, run_finished ss l h)

  pub run_running :
      (s : Signal F A) (ss : List (Signal F A)) (l : Loop F S A)
      → l.exit ≡ running
      → run (s ∷ ss) l ≡ run ss (react s l)
  unfolding run take
  run_running s ss l h = ground (arith, h)

  -- From a running loop with a valid manager: the acknowledgements that it calls, and that the
  -- manager stays valid.
  pub run_calls :
      (ss : List (Signal F A)) (l : Loop F S A)
      → l.exit ≡ running
      → IsValid l.manager
      → ((run ss l).acked ≡ l.acked ++ acks_of ss) × IsValid (run ss l).manager
  unfolding acks_of react
  run_calls [] l h v = unfold run in (sym (append-nil l.acked), v)
  run_calls (done ∷ ss) l h v =
      rw (run_running done ss l h, run_cancelled ss (record l { exit = cancelled }) refl)
        (sym (append-nil l.acked), v)
  run_calls (in_closed ∷ ss) l h v =
      rw (run_running in_closed ss l h, run_finished ss (record l { exit = finished }) refl)
        (sym (append-nil l.acked), v)
  run_calls (receive env ∷ ss) l h v =
      let ih = run_calls ss (react (receive env) l) h (add_event-IsValid l.manager env.event v) in
      rw (run_running (receive env) ss l h) (ih.0 ∙ call_ack_lem env.ack l.acked (acks_of ss), ih.1)
  run_calls (tick now order gc_order sends ∷ ss) l h v =
      rw (run_running (tick now order gc_order sends) ss l h) (
        run_calls ss (react (tick now order gc_order sends) l) h
          (close_expired-IsValid sends now order gc_order l.manager v))
