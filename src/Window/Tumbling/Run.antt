-- ===== src/Window/Tumbling/Run.antt =====
-- internal/window/tumbling.go: the loop of Run, over the sequence of the cases that its select
-- takes.
pub mod Acks
pub mod Durable
pub mod Received
use stream_rail.Common.{ℕ, Option, none, some, List, [], ◌∷◌, ◌++◌}
use stream_rail.Clock.{Instant}
use stream_rail.Model.{Envelope}
use stream_rail.Window.{Key, Store}
use stream_rail.Window.Tumbling.{Manager, add_event, close_expired}

-- `tick` has the clock, the orders of the two loops of closeExpired, and the sends that go through
-- in it.
pub data Signal (F A : Type 0) : Type 0 where
  done : Signal F A
  receive : Envelope F A → Signal F A
  in_closed : Signal F A
  tick : Instant → List Key → List Key → ℕ → Signal F A

pub data Exit : Type 0 where
  running cancelled finished : Exit

-- `acked` lists the acknowledgements in the order of their calls.
pub record Loop (F S A : Type 0) : Type 0 where
  pub manager : Manager F S
  pub acked : List A
  pub exit : Exit

unfoldable pub call_ack : {A : Type 0} → Option A → List A → List A
call_ack none acked = acked
call_ack (some a) acked = acked ++ a ∷ []

module _ {F S A : Type 0} ⦃ops : Store F S⦄ where
  unfoldable pub react : Signal F A → Loop F S A → Loop F S A
  unfolding call_ack
  react done l = record l { exit = cancelled }
  react in_closed l = record l { exit = finished }
  react (receive env) l = record l {
    manager = add_event l.manager env.event;
    acked = call_ack env.ack l.acked;
  }
  react (tick now order gc_order sends) l = record l {
    manager = close_expired sends now order gc_order l.manager;
  }

  -- A loop that has returned takes no signal.
  take : Exit → Signal F A → Loop F S A → Loop F S A
  take running s l = react s l
  take cancelled s l = l
  take finished s l = l

  unfoldable pub run : List (Signal F A) → Loop F S A → Loop F S A
  unfolding take react
  run [] l = l
  run (s ∷ ss) l = run ss (take l.exit s l)
