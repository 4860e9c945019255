-- ===== src/Engine/System.antt =====
-- internal/engine/engine.go: fanOut and the managers as one system, for the streams below `n`. A
-- sequence of actions is an interleaving of their steps; an action that is not enabled does nothing.
-- A shutdown is the end of the sequence.
pub mod Counts
pub mod Copies
pub mod Sound
pub mod Taken
pub mod Steps
pub mod Acked
pub mod Live
pub mod Grows
pub mod Kept
use stream_rail.Common.{
  ℕ, suc, ◌+◌, Bool, true, false, Option, none, some, List, [], ◌∷◌, ◌++◌, ◌==◌, nat_eq, ltb,
  length, if◌then◌else◌,
}
use stream_rail.Clock.{Instant}
use stream_rail.Model.{Event}
use stream_rail.Window.{Key, Store}
use stream_rail.Window.Tumbling.{add_event, close_expired}
use stream_rail.Window.Sliding.{add_sliding, close_expired_sliding}
use stream_rail.Engine.{AckBarrier, ack_barrier, call_done}
use stream_rail.Engine.Setup.{Stage, tumbling, sliding}

-- The envelope that fanOut sends to a stream: its Ack is the function of the barrier `number`.
pub record Child (F : Type 0) : Type 0 where
  pub number : ℕ
  pub event : Event F

-- A stream: its channel, oldest first, its manager, and the calls of Ack so far.
pub record Station (F S : Type 0) : Type 0 where
  pub queue : List (Child F)
  pub stage : Stage F S
  pub acked : List ℕ

-- `pending` is the child that fanOut is sending, and the number of the stream that is next.
pub record System (F S : Type 0) : Type 0 where
  pub accepted : ℕ
  pub pending : Option (Child F × ℕ)
  pub stations : ℕ → Station F S
  pub barriers : ℕ → AckBarrier

pub data Action (F : Type 0) : Type 0 where
  -- fanOut receives an envelope, with an Ack or a nil one.
  accept : Bool → Event F → Action F
  -- fanOut sends the pending child to the next stream.
  deliver : Action F
  -- A manager receives an envelope, or has a tick.
  work : ℕ → Action F
  tick : ℕ → Instant → List Key → List Key → ℕ → Action F

-- A function changed at one place.
unfoldable pub update : {A : Type 0} → ℕ → A → (ℕ → A) → ℕ → A
update i new f j = if j == i then new else f j

-- The capacity of a stream's channel.
abbrev pub queue_size : ℕ
queue_size = 1024

module _ {F S : Type 0} where
  unfoldable pub receive_event : Store F S → Event F → Stage F S → Stage F S
  receive_event ops ev (tumbling m) = tumbling (add_event ⦃ops = ops⦄ m ev)
  receive_event ops ev (sliding m) = sliding (add_sliding m ev)

  pub close_stage : Store F S → Instant → List Key → List Key → ℕ → Stage F S → Stage F S
  close_stage ops now order gc_order sends (tumbling m) =
      tumbling (close_expired ⦃ops = ops⦄ sends now order gc_order m)
  close_stage ops now order gc_order sends (sliding m) =
      sliding (close_expired_sliding now order (sends, m))

  -- ackBarrier and the start of the loop over the streams.
  pub open_barrier : ℕ → Bool → Event F → System F S → System F S
  open_barrier n has_ack ev s = record s {
    accepted = s.accepted + 1;
    pending = some (record { number = s.accepted; event = ev }, 0);
    barriers = update s.accepted (ack_barrier has_ack n) s.barriers;
  }

  pub send_child : ℕ → Child F → ℕ → System F S → System F S
  send_child n child i s =
      let st = s.stations i in
      if ltb (length st.queue) queue_size
      then record s {
        pending = if i + 1 == n then none else some (child, i + 1);
        stations = update i (record st { queue = st.queue ++ child ∷ [] }) s.stations;
      }
      else s

  -- The event, and then the call of the child's Ack.
  unfoldable pub take_child : Store F S → ℕ → List (Child F) → System F S → System F S
  take_child ops i [] s = s
  take_child ops i (child ∷ rest) s =
      let st = s.stations i in
      record s {
        stations =
            update i
              (record {
                queue = rest;
                stage = receive_event ops child.event st.stage;
                acked = st.acked ++ child.number ∷ [];
              })
              s.stations;
        barriers = update child.number (call_done (s.barriers child.number)) s.barriers;
      }

  -- The stores of the streams, and the number of streams.
  module _ (stores : ℕ → Store F S) (n : ℕ) where
    unfoldable pub perform : Action F → System F S → System F S
    unfolding open_barrier send_child take_child close_stage receive_event
    perform (accept has_ack ev) s = elim s.pending [
      | none ↦ open_barrier n has_ack ev s
      | some _ ↦ s
    ]
    perform deliver s = elim s.pending [ none ↦ s | some (child, i) ↦ send_child n child i s ]
    perform (work i) s = if ltb i n then take_child (stores i) i (s.stations i).queue s else s
    perform (tick i now order gc_order sends) s =
        let st = s.stations i in
        record s {
          stations =
              update i
                (record st { stage = close_stage (stores i) now order gc_order sends st.stage })
                s.stations;
        }

    unfoldable pub perform_all : List (Action F) → System F S → System F S
    perform_all [] s = s
    perform_all (a ∷ actions) s = perform_all actions (perform a s)

-- Run starts with empty channels.
unfoldable pub initial_system : {F S : Type 0} → (ℕ → Stage F S) → System F S
initial_system stages = record {
  accepted = 0;
  pending = none;
  stations = λ i. record { queue = []; stage = stages i; acked = [] };
  barriers = λ number. ack_barrier false 0;
}
