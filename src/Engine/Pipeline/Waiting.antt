-- ===== src/Engine/Pipeline/Waiting.antt =====
-- internal/engine/engine.go and internal/window/tumbling.go: the engine whose managers wait for
-- room on `out`, whose capacity is DefaultBatchBuffer. A step of a manager is taken only if the
-- channel has room for all the batches of the step; `add` sends one at most. What `add` does before
-- it waits, which no other goroutine reads, comes with the send, and the Ack after it, as in the
-- code. A tick that waits between two of its sends is a tick with fewer of them, after which
-- another one goes on.
pub mod Live
use stream_rail.Common.{ℕ, Bool, true, List, [], ◌∷◌, leb, length, if◌then◌else◌}
use stream_rail.Rule.{Floats, Rule}
use stream_rail.Window.{Store}
use stream_rail.Notifier.{Network, Notifier}
use stream_rail.Engine.System.{accept, deliver, work, tick}
use stream_rail.Engine.Dispatch.{buffer}
use stream_rail.Engine.Pipeline.{Pipeline, Step, act, fetch_step, pass_step, take_step, step}

module _ {F S : Type 0} ⦃fl : Floats F⦄ ⦃net : Network F⦄ (stores : ℕ → Store F S) (n : ℕ)
    (notifiers : List (Notifier F)) (rules : ℕ → List (Rule F)) where
  -- Whether the batches of a step of the manager `i` find room.
  finds_room : ℕ → Step F → Pipeline F S → Bool
  finds_room i s p =
      leb (length ((step stores n notifiers rules s p).dispatch.lanes i).queue) buffer

  unfoldable pub can_go : Step F → Pipeline F S → Bool
  unfolding finds_room
  can_go (act (accept has_ack ev)) p = true
  can_go (act deliver) p = true
  can_go (act (work i)) p = finds_room i (act (work i)) p
  can_go (act (tick i now order gc_order sends)) p =
      finds_room i (act (tick i now order gc_order sends)) p
  can_go (fetch_step i) p = true
  can_go (pass_step i) p = true
  can_go take_step p = true

  -- A step that waits does nothing yet.
  unfoldable pub go : Step F → Pipeline F S → Pipeline F S
  go s p = if can_go s p then step stores n notifiers rules s p else p

  unfoldable pub go_all : List (Step F) → Pipeline F S → Pipeline F S
  go_all [] p = p
  go_all (s ∷ steps) p = go_all steps (go s p)
