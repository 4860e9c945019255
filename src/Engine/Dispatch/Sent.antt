-- ===== src/Engine/Dispatch/Sent.antt =====
-- What a manager has sent stays the same in the steps of Run.
use stream_rail.Common.{
  Bool, true, false, ◌≡◌, refl, ℕ, Option, none, some, List, [], ◌∷◌, nat_eq, ltb, length, inl, inr,
  Bool-cases,
}
use stream_rail.Rule.{Floats, Rule}
use stream_rail.Window.{Batch}
use stream_rail.Notifier.{Network, Notifier}
use stream_rail.Engine.System.{update}
use stream_rail.Engine.Dispatch.{
  TaggedBatch, Lane, Dispatch, Move, send, fetch, pass, take, buffer, fetch_from, pass_on,
  take_next, move,
}
use stream_rail.Engine.Dispatch.Lists.{at_lane}

module _ {F : Type 0} where
  -- A step of Run, not of a manager.
  abbrev pub is_inner : Move F → Bool
  is_inner (send i b) = false
  is_inner (fetch i) = true
  is_inner (pass i) = true
  is_inner take = true

  same_sent :
      (d : Dispatch F) (i : ℕ) (lane : Lane F)
      → lane.sent ≡ (d.lanes i).sent
      → (j : ℕ) → (update i lane d.lanes j).sent ≡ (d.lanes j).sent
  same_sent d i lane e =
      at_lane (λ j l. l.sent ≡ (d.lanes j).sent) i lane d.lanes e (λ j other. refl)

  fetch_from-sent :
      (i : ℕ) (held : Option (Batch F)) (queue : List (Batch F)) (d : Dispatch F) (j : ℕ)
      → ((fetch_from i held queue d).lanes j).sent ≡ (d.lanes j).sent
  unfolding fetch_from
  fetch_from-sent i (some b) queue d j = refl
  fetch_from-sent i none [] d j = refl
  fetch_from-sent i none (b ∷ queue) d j = same_sent d i _ refl j

  pass_on-sent :
      (rules : ℕ → List (Rule F)) (i : ℕ) (held : Option (Batch F)) (d : Dispatch F) (j : ℕ)
      → ((pass_on rules i held d).lanes j).sent ≡ (d.lanes j).sent
  unfolding pass_on
  pass_on-sent rules i none d j = refl
  pass_on-sent rules i (some b) d j = elim (Bool-cases (ltb (length d.inbox) buffer)) [
    | inr full ↦ rw full refl
    | inl room ↦ rw room (same_sent d i _ refl j)
  ]

  module _ ⦃fl : Floats F⦄ ⦃net : Network F⦄ (notifiers : List (Notifier F))
      (rules : ℕ → List (Rule F)) where
    take_next-sent :
        (inbox : List (ℕ × TaggedBatch F)) (d : Dispatch F) (j : ℕ)
        → ((take_next notifiers inbox d).lanes j).sent ≡ (d.lanes j).sent
    unfolding take_next
    take_next-sent [] d j = refl
    take_next-sent ((i, t) ∷ rest) d j = refl

    pub move-sent :
        (m : Move F) (d : Dispatch F)
        → is_inner m ≡ true
        → (j : ℕ) → ((move notifiers rules m d).lanes j).sent ≡ (d.lanes j).sent
    unfolding move
    move-sent (send i b) d inner j = cc inner
    move-sent (fetch i) d inner j = fetch_from-sent i _ _ d j
    move-sent (pass i) d inner j = pass_on-sent rules i _ d j
    move-sent take d inner j = take_next-sent d.inbox d j
