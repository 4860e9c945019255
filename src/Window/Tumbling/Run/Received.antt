-- ===== src/Window/Tumbling/Run/Received.antt =====
-- The events that the loop of Run has received are in an open window or in a batch that was sent.
use stream_rail.Common.{◌≡◌, refl, List, [], ◌∷◌, ◌++◌, All}
use stream_rail.Model.{Event}
use stream_rail.Window.{Batch, Store}
use stream_rail.Window.Tumbling.Secure.{Tracked, add_event-Tracked, close_expired-Tracked}
use stream_rail.Window.Tumbling.Invariant.{IsValid}
use stream_rail.Window.Tumbling.Run.{
  Signal, done, receive, in_closed, tick, Loop, running, cancelled, finished, react, run,
}
use stream_rail.Window.Tumbling.Run.Acks.{
  run_running, run_cancelled, run_finished, acks_of, run_calls,
}

-- The events of the envelopes that are received before the loop returns, in their order.
unfoldable pub received : {F A : Type 0} → List (Signal F A) → List (Event F)
received [] = []
received (done ∷ ss) = []
received (in_closed ∷ ss) = []
received (receive env ∷ ss) = env.event ∷ received ss
received (tick now order gc_order sends ∷ ss) = received ss

All-insert :
    {A : Type 0} (P : A → Type 0) (xs : List A) (y : A) (ys : List A)
    → All P (xs ++ y ∷ ys)
    → All P (y ∷ (xs ++ ys))
All-insert P [] y ys h = h
All-insert P (x ∷ xs) y ys h = let ih = All-insert P xs y ys h.1 in (ih.0, (h.0, ih.1))

module _ {F S A : Type 0} ⦃ops : Store F S⦄ (before : List (Batch F)) where
  -- From a running loop: all events that it receives are secure in the end, as those before.
  pub run-Tracked :
      (ss : List (Signal F A)) (l : Loop F S A) (evs : List (Event F))
      → l.exit ≡ running
      → Tracked before evs l.manager
      → Tracked before (received ss ++ evs) (run ss l).manager
  unfolding received react
  run-Tracked [] l evs h t = unfold run in t
  run-Tracked (done ∷ ss) l evs h t =
      rw (run_running done ss l h, run_cancelled ss (record l { exit = cancelled }) refl) t
  run-Tracked (in_closed ∷ ss) l evs h t =
      rw (run_running in_closed ss l h, run_finished ss (record l { exit = finished }) refl) t
  run-Tracked (receive env ∷ ss) l evs h t =
      let u =
        run-Tracked ss (react (receive env) l) (env.event ∷ evs) h
          (add_event-Tracked env.event l.manager t) in
      rw (run_running (receive env) ss l h) (record {
        sent = u.sent;
        channel = u.channel;
        secure = All-insert _ (received ss) env.event evs u.secure;
      })
  run-Tracked (tick now order gc_order sends ∷ ss) l evs h t =
      rw (run_running (tick now order gc_order sends) ss l h) (
        run-Tracked ss (react (tick now order gc_order sends) l) evs h
          (close_expired-Tracked sends now order gc_order l.manager t))

  -- From a running loop with a valid manager that keeps the events `evs`: Run calls the
  -- acknowledgement of each envelope that it receives before it is cancelled or its channel is
  -- closed, once and in their order; the event of each of them, acknowledged or not, is in the end
  -- in an open window or in a batch that was sent, as are those of `evs`; and the manager is valid.
  pub run_acks :
      (ss : List (Signal F A)) (l : Loop F S A) (evs : List (Event F))
      → l.exit ≡ running
      → IsValid l.manager
      → Tracked before evs l.manager
      → ((run ss l).acked ≡ l.acked ++ acks_of ss)
        × Tracked before (received ss ++ evs) (run ss l).manager
        × IsValid (run ss l).manager
  run_acks ss l evs h v t =
      let calls = run_calls ss l h v in (calls.0, run-Tracked ss l evs h t, calls.1)
