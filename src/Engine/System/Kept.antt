-- ===== src/Engine/System/Kept.antt =====
-- Where the events are that the tumbling managers of the system have taken.
pub mod Steps
use mathlib.Core.List.{Mem, mem-cons_self, mem-cons_of_mem, append-nil, append_assoc}
use mathlib.Core.Path.{subst}
use stream_rail.Common.{
  ℕ, zero, suc, ◌+◌, ◌<◌, ◌≤◌, ◌≡◌, ◌≢◌, refl, sym, ap, ◌∙◌, Bool, true, false, Option, none, some,
  List, [], ◌∷◌, ◌++◌, ◌==◌, nat_eq, nat_beq_iff, ltb, length, length-append, arith, All,
  All-append, All-map, if◌then◌else◌, inl, inr, Bool-cases, Option-cases,
}
use stream_rail.Clock.{Instant}
use stream_rail.Model.{Event}
use stream_rail.Window.{Key, Batch, Store}
use stream_rail.Window.Tumbling.{Manager}
use stream_rail.Window.Tumbling.Secure.{Secure, Tracked, add_event-Tracked, close_expired-Tracked}
use stream_rail.Engine.Setup.{Stage, tumbling, sliding}
use stream_rail.Engine.System.{
  Child, Station, System, Action, accept, deliver, work, tick, update, receive_event, close_stage,
  send_child, take_child, open_barrier, perform, perform_all, queue_size, initial_system,
}
use stream_rail.Engine.System.Counts.{occurrences}
use stream_rail.Engine.System.Copies.{update_self, update_other, index_cases, following}

module _ {A : Type 0} where
  unfoldable pub nth : ℕ → List A → Option A
  nth n [] = none
  nth zero (x ∷ xs) = some x
  nth (suc n) (x ∷ xs) = nth n xs

  pub nth-append : (k : ℕ) (xs ys : List A) {x : A} → nth k xs ≡ some x → nth k (xs ++ ys) ≡ some x
  unfolding nth
  nth-append k [] ys h = cc
  nth-append zero (x ∷ xs) ys h = h
  nth-append (suc k) (x ∷ xs) ys h = nth-append k xs ys h

  pub nth_last : (xs : List A) (x : A) → nth (length xs) (xs ++ x ∷ []) ≡ some x
  unfolding nth
  nth_last [] x = refl
  nth_last (y ∷ xs) x = nth_last xs x

  pub nth_there : (k : ℕ) (xs : List A) → k < length xs → (x : A) × (nth k xs ≡ some x)
  unfolding nth
  nth_there k [] lt = absurd (omega (arith, lt))
  nth_there zero (x ∷ xs) lt = (x, refl)
  nth_there (suc k) (x ∷ xs) lt = nth_there k xs (omega (arith, lt))

pub nth-All :
    {A : Type 0} (P : A → Type 0) (n : ℕ) (xs : List A) (x : A) → nth n xs ≡ some x → All P xs → P x
unfolding nth
nth-All P n [] x e h = cc e
nth-All P zero (y ∷ xs) x e h = let same : y ≡ x = ground (arith, e) in subst P same h.0
nth-All P (suc n) (y ∷ xs) x e h = nth-All P n xs x e h.1

pub occurs-All : (P : ℕ → Type 0) (k : ℕ) (xs : List ℕ) → 0 < occurrences k xs → All P xs → P k
unfolding occurrences
occurs-All P k [] lt h = absurd (omega (arith, lt))
occurs-All P k (x ∷ xs) lt h = elim (Bool-cases (x == k)) [
  | inl same ↦ subst P ((nat_beq_iff x k).0 same) h.0
  | inr other ↦ occurs-All P k xs (ground (arith, lt, other)) h.1
]

module _ {F : Type 0} where
  -- The envelope with a number is that of the event which came with this number.
  abbrev pub Own : List (Event F) → Child F → Type 0
  Own evs child = nth child.number evs ≡ some child.event

  abbrev pub HeldIn : List (Event F) → List (Event F) → ℕ → Type 0
  HeldIn evs kept k = (ev : Event F) × (p : ℕ) × (nth k evs ≡ some ev) × (nth p kept ≡ some ev)

  abbrev pub PendingOwn : List (Event F) → Option (Child F × ℕ) → Type 0
  PendingOwn evs none = Unit
  PendingOwn evs (some (child, i)) = Own evs child

  HeldIn-more :
      (evs more kept : List (Event F)) (acked : List ℕ)
      → All (HeldIn evs kept) acked
      → All (HeldIn (evs ++ more) kept) acked
  HeldIn-more evs more kept acked h =
      All-map (λ k held. (held.0, held.1, nth-append k evs more held.2, held.3)) acked h

module _ {F S : Type 0} where
  -- The events whose numbers a tumbling manager has acknowledged are in its windows or batches.
  abbrev pub StageKeeps : List (Event F) → Stage F S → List ℕ → Type 0
  StageKeeps evs (tumbling m) acked =
      (kept : List (Event F)) × Tracked [] kept m × All (HeldIn evs kept) acked
  StageKeeps evs (sliding m) acked = Unit

  abbrev pub StationKeeps : List (Event F) → Station F S → Type 0
  StationKeeps evs st = All (Own evs) st.queue × StageKeeps evs st.stage st.acked

  -- `evs` are the events that fanOut has received, in their order.
  pub record Keeps (evs : List (Event F)) (s : System F S) : Type 0 where
    pub counted : length evs ≡ s.accepted
    pub pending : PendingOwn evs s.pending
    pub stations : (j : ℕ) → StationKeeps evs (s.stations j)

  pub StationKeeps-more :
      (evs more : List (Event F)) (st : Station F S)
      → StationKeeps evs st
      → StationKeeps (evs ++ more) st
  StationKeeps-more evs more st h =
      (All-map (λ c own. nth-append c.number evs more own) st.queue h.0, stage_more st.stage h.1)
    where
      stage_more :
          (stage : Stage F S)
          → StageKeeps evs stage st.acked
          → StageKeeps (evs ++ more) stage st.acked
      stage_more (tumbling m) (kept, t, held) = (kept, t, HeldIn-more evs more kept st.acked held)
      stage_more (sliding m) g = tt

  pub stations_at :
      (evs : List (Event F)) (i : ℕ) (st : Station F S) (stations : ℕ → Station F S)
      → StationKeeps evs st
      → ((j : ℕ) → StationKeeps evs (stations j))
      → (j : ℕ) → StationKeeps evs (update i st stations j)
  stations_at evs i st stations here others j = elim (index_cases j i) [
    | inl same ↦ rw (same, update_self i st stations) here
    | inr other ↦ rw (update_other i j st stations other) (others j)
  ]

  pub receive_event-Keeps :
      (ops : Store F S) (evs : List (Event F)) (child : Child F) (stage : Stage F S)
      (acked : List ℕ)
      → Own evs child
      → StageKeeps evs stage acked
      → StageKeeps evs (receive_event ops child.event stage) (acked ++ child.number ∷ [])
  unfolding receive_event
  receive_event-Keeps ops evs child (sliding m) acked own h = tt
  receive_event-Keeps ops evs child (tumbling m) acked own (kept, t, held) = (
    child.event ∷ kept,
    add_event-Tracked ⦃ops = ops⦄ child.event m t,
    All-append (HeldIn evs (child.event ∷ kept)) acked (child.number ∷ [])
        (All-map (λ k h. (h.0, suc h.1, h.2, unfold nth in h.3)) acked held)
        ((child.event, 0, own, (unfold nth in refl)), tt),
  )

  pub close_stage-Keeps :
      (ops : Store F S) (now : Instant) (order gc_order : List Key) (sends : ℕ)
      (evs : List (Event F)) (stage : Stage F S) (acked : List ℕ)
      → StageKeeps evs stage acked
      → StageKeeps evs (close_stage ops now order gc_order sends stage) acked
  unfolding close_stage
  close_stage-Keeps ops now order gc_order sends evs (sliding m) acked h = tt
  close_stage-Keeps ops now order gc_order sends evs (tumbling m) acked (kept, t, held) =
      (kept, close_expired-Tracked ⦃ops = ops⦄ sends now order gc_order m t, held)
