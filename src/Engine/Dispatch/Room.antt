-- ===== src/Engine/Dispatch/Room.antt =====
-- The channels of the batches hold no more than their capacity.

use stream_rail.Common.{
  ℕ, ◌≤◌, Option, none, some, List, [], ◌∷◌, nat_eq, ltb, length, length-append, arith, inl, inr,
  Bool-cases,
}
use stream_rail.Rule.{Floats, Rule}
use stream_rail.Window.{Batch}
use stream_rail.Notifier.{Network, Notifier}
use stream_rail.Engine.{Counters}
use stream_rail.Engine.System.{update}
use stream_rail.Engine.Dispatch.{
  TaggedBatch, Lane, Dispatch, Move, send, fetch, pass, take, buffer, send_out, fetch_from, pass_on,
  take_next, move, move_all, quiet,
}
use stream_rail.Engine.Dispatch.Lists.{at_lane}

module _ {F : Type 0} where
  pub record HasRoom (d : Dispatch F) : Type 0 where
    pub out_room : (i : ℕ) → length (d.lanes i).queue ≤ buffer
    pub inbox_room : length d.inbox ≤ buffer

  pub quiet-HasRoom : (start : Option Counters) → HasRoom (quiet start)
  unfolding quiet
  quiet-HasRoom start = record { out_room = λ i. omega arith; inbox_room = omega arith }

  -- The lanes of `d` with another one for a stream.
  room_at :
      (d : Dispatch F) (i : ℕ) (lane : Lane F)
      → HasRoom d
      → length lane.queue ≤ buffer
      → (j : ℕ) → length (update i lane d.lanes j).queue ≤ buffer
  room_at d i lane h room =
      at_lane (λ j l. length l.queue ≤ buffer) i lane d.lanes room (λ j other. h.out_room j)

  send_out-HasRoom : (i : ℕ) (b : Batch F) (d : Dispatch F) → HasRoom d → HasRoom (send_out i b d)
  unfolding send_out
  send_out-HasRoom i b d h = elim (Bool-cases (ltb (length (d.lanes i).queue) buffer)) [
    | inr full ↦ rw full h
    | inl room ↦ rw room (record {
      out_room = room_at d i _ h (ground (arith, room, length-append (d.lanes i).queue (b ∷ [])));
      inbox_room = h.inbox_room;
    })
  ]

  fetch_from-HasRoom :
      (i : ℕ) (held : Option (Batch F)) (queue : List (Batch F)) (d : Dispatch F)
      → length queue ≤ buffer
      → HasRoom d
      → HasRoom (fetch_from i held queue d)
  unfolding fetch_from
  fetch_from-HasRoom i (some b) queue d room h = h
  fetch_from-HasRoom i none [] d room h = h
  fetch_from-HasRoom i none (b ∷ queue) d room h = record {
    out_room = room_at d i _ h (omega (arith, room));
    inbox_room = h.inbox_room;
  }

  pass_on-HasRoom :
      (rules : ℕ → List (Rule F)) (i : ℕ) (held : Option (Batch F)) (d : Dispatch F)
      → HasRoom d
      → HasRoom (pass_on rules i held d)
  unfolding pass_on
  pass_on-HasRoom rules i none d h = h
  pass_on-HasRoom rules i (some b) d h = elim (Bool-cases (ltb (length d.inbox) buffer)) [
    | inr full ↦ rw full h
    | inl room ↦ rw room (record {
      out_room = room_at d i _ h (h.out_room i);
      inbox_room =
          ground
            (arith, room, length-append d.inbox ((i, record { batch = b; rules = rules i }) ∷ []));
    })
  ]

  module _ ⦃fl : Floats F⦄ ⦃net : Network F⦄ (notifiers : List (Notifier F))
      (rules : ℕ → List (Rule F)) where
    take_next-HasRoom :
        (inbox : List (ℕ × TaggedBatch F)) (d : Dispatch F)
        → length inbox ≤ buffer
        → HasRoom d
        → HasRoom (take_next notifiers inbox d)
    unfolding take_next
    take_next-HasRoom [] d room h = h
    take_next-HasRoom ((i, t) ∷ rest) d room h = record {
      out_room = h.out_room;
      inbox_room = omega (arith, room);
    }

    move-HasRoom : (m : Move F) (d : Dispatch F) → HasRoom d → HasRoom (move notifiers rules m d)
    unfolding move
    move-HasRoom (send i b) d h = send_out-HasRoom i b d h
    move-HasRoom (fetch i) d h = fetch_from-HasRoom i _ (d.lanes i).queue d (h.out_room i) h
    move-HasRoom (pass i) d h = pass_on-HasRoom rules i _ d h
    move-HasRoom take d h = take_next-HasRoom d.inbox d h.inbox_room h

    pub move_all-HasRoom :
        (ms : List (Move F)) (d : Dispatch F) → HasRoom d → HasRoom (move_all notifiers rules ms d)
    unfolding move_all
    move_all-HasRoom [] d h = h
    move_all-HasRoom (m ∷ ms) d h =
        move_all-HasRoom ms (move notifiers rules m d) (move-HasRoom m d h)
