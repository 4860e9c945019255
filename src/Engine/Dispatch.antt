-- ===== src/Engine/Dispatch.antt =====
-- internal/engine/engine.go: the way of the batches in Run: a goroutine per stream forwards what its
-- manager sends on `out` to batchCh, from where the loop of Run takes them to evaluate them. A
-- sequence of moves is an interleaving of their steps; a move that is not enabled does nothing. A
-- shutdown is the end of the sequence.
pub mod Lists
pub mod Room
pub mod Sent
pub mod Order
pub mod Drain
use mathlib.Core.Option
use stream_rail.Common.{
  ℕ, ◌+◌, Bool, true, false, Option, none, some, List, [], ◌∷◌, ◌++◌, ltb, length, if◌then◌else◌,
}
use stream_rail.Rule.{Floats, Rule}
use stream_rail.Window.{Batch}
use stream_rail.Notifier.{Network, Notifier, Emission}
use stream_rail.Engine.{Counters, count_batch, evaluate}
use stream_rail.Engine.System.{update}

-- taggedBatch
pub record TaggedBatch (F : Type 0) : Type 0 where
  pub batch : Batch F
  pub rules : List (Rule F)

-- A stream: all that its manager has sent on `out`, what that channel has yet, oldest first, and the
-- batch that its goroutine is sending.
pub record Lane (F : Type 0) : Type 0 where
  pub sent : List (Batch F)
  pub queue : List (Batch F)
  pub held : Option (Batch F)

-- `inbox` is batchCh, with the number of the stream beside each batch, for the theorems only.
-- `counters` is `none` without metrics.
pub record Dispatch (F : Type 0) : Type 0 where
  pub lanes : ℕ → Lane F
  pub inbox : List (ℕ × TaggedBatch F)
  pub counters : Option Counters
  pub emitted : List (Emission × Bool)

pub data Move (F : Type 0) : Type 0 where
  -- A manager sends a batch on `out`.
  send : ℕ → Batch F → Move F
  -- The goroutine of a stream receives from `out`, or sends on batchCh.
  fetch : ℕ → Move F
  pass : ℕ → Move F
  -- The loop of Run takes a batch.
  take : Move F

-- window.DefaultBatchBuffer, the capacity of both kinds of channels.
abbrev pub buffer : ℕ
buffer = 1_000

module _ {F : Type 0} where
  send_out : ℕ → Batch F → Dispatch F → Dispatch F
  send_out i b d =
      let lane = d.lanes i in
      if ltb (length lane.queue) buffer
      then record d {
        lanes =
            update i (record lane { sent = lane.sent ++ b ∷ []; queue = lane.queue ++ b ∷ [] })
              d.lanes;
      }
      else d

  fetch_from : ℕ → Option (Batch F) → List (Batch F) → Dispatch F → Dispatch F
  fetch_from i (some b) queue d = d
  fetch_from i none [] d = d
  fetch_from i none (b ∷ queue) d = record d {
    lanes = update i (record (d.lanes i) { queue = queue; held = some b }) d.lanes;
  }

  pass_on : (ℕ → List (Rule F)) → ℕ → Option (Batch F) → Dispatch F → Dispatch F
  pass_on rules i none d = d
  pass_on rules i (some b) d =
      if ltb (length d.inbox) buffer
      then record d {
        lanes = update i (record (d.lanes i) { held = none }) d.lanes;
        inbox = d.inbox ++ (i, record { batch = b; rules = rules i }) ∷ [];
      }
      else d

  module _ ⦃fl : Floats F⦄ ⦃net : Network F⦄ (notifiers : List (Notifier F)) where
    take_next : List (ℕ × TaggedBatch F) → Dispatch F → Dispatch F
    take_next [] d = d
    take_next ((i, t) ∷ rest) d = record d {
      inbox = rest;
      counters = Option.map (count_batch t.batch) d.counters;
      emitted = d.emitted ++ evaluate notifiers t.rules t.batch;
    }

    -- The rules of the streams.
    module _ (rules : ℕ → List (Rule F)) where
      unfoldable pub move : Move F → Dispatch F → Dispatch F
      unfolding send_out fetch_from pass_on take_next
      move (send i b) d = send_out i b d
      move (fetch i) d = fetch_from i (d.lanes i).held (d.lanes i).queue d
      move (pass i) d = pass_on rules i (d.lanes i).held d
      move take d = take_next d.inbox d

      unfoldable pub move_all : List (Move F) → Dispatch F → Dispatch F
      move_all [] d = d
      move_all (m ∷ ms) d = move_all ms (move m d)

-- Run starts with empty channels.
unfoldable pub quiet : {F : Type 0} → Option Counters → Dispatch F
quiet counters = record {
  lanes = λ i. record { sent = []; queue = []; held = none };
  inbox = [];
  counters = counters;
  emitted = [];
}
