-- ===== src/Engine/System/Grows.antt =====
-- What the managers have sent is only added to.
use mathlib.Core.List.{append_assoc, append-nil}
use mathlib.Core.Path.{subst}
use stream_rail.Common.{
  ℕ, zero, suc, ◌≡◌, refl, sym, ap, ◌∙◌, false, Option, none, some, List, [], ◌∷◌, ◌++◌, nat_eq,
  ltb, length, arith, inl, inr, Bool-cases, Option-cases,
}
use stream_rail.Common.Assoc.{lookup}
use stream_rail.Clock.{Instant}
use stream_rail.Model.{Event}
use stream_rail.Window.{Key, key_eq, Bucket, Batch, Store}
use stream_rail.Window.Tumbling.{
  Manager, send, advance, append_open, append_closed, emit_blocking, add_event, retain, batch_of,
  close_expired, key_for,
}
use stream_rail.Window.Tumbling.Cases.{advance_cases, place_cases, close_expired_keeps}
use stream_rail.Window.Sliding.{
  SlidingManager, advance_sliding, enter, enter_all, add_sliding, send_sliding, close_sliding,
  is_over, sliding_batch, sliding_end, close_expired_sliding,
}
use stream_rail.Engine.Setup.{Stage, tumbling, sliding}
use stream_rail.Engine.System.{
  Child, Station, System, Action, accept, deliver, work, tick, update, receive_event, close_stage,
  send_child, take_child, open_barrier, perform, queue_size,
}
use stream_rail.Engine.System.Copies.{update_self, update_other, index_cases}

abbrev pub all_of : {F : Type 0} → Option (List (Batch F)) → List (Batch F)
all_of none = []
all_of (some sent) = sent

-- The batches that a manager has sent.
abbrev pub sent_by : {F S : Type 0} → Stage F S → List (Batch F)
sent_by (tumbling m) = all_of m.out
sent_by (sliding m) = all_of m.out

module _ {F : Type 0} where
  pub record Extends (old new : List (Batch F)) : Type 0 where
    pub more : List (Batch F)
    pub grown : new ≡ old ++ more

  pub Extends-self : (old new : List (Batch F)) → new ≡ old → Extends old new
  Extends-self old new e = record { more = []; grown = e ∙ sym (append-nil old) }

  Extends-trans : {a b c : List (Batch F)} → Extends a b → Extends b c → Extends a c
  Extends-trans {a} f g = record {
    more = f.more ++ g.more;
    grown = g.grown ∙ ap (λ l. l ++ g.more) f.grown ∙ append_assoc a f.more g.more;
  }

  send-Extends :
      (b : Batch F) (o : Option (List (Batch F))) → Extends (all_of o) (all_of (send b o))
  send-Extends b none = record { more = []; grown = refl }
  send-Extends b (some sent) = record { more = b ∷ []; grown = refl }

module _ {F S : Type 0} ⦃ops : Store F S⦄ (m : Manager F S) where
  abbrev After : Manager F S → Type 0
  After n = Extends (all_of m.out) (all_of n.out)

  add_event-Extends : (ev : Event F) → After (add_event m ev)
  unfolding add_event append_open append_closed emit_blocking
  add_event-Extends ev =
      let n = advance ev m in
      let k = key_for n ev in
      let same : After n =
        advance_cases After ev m (λ _. Extends-self _ _ refl) (λ _. Extends-self _ _ refl) in
      place_cases After k ev n (λ _ _. same) (λ _ _ _. Extends-trans same (send-Extends _ n.out))
        (λ _ _ _. Extends-trans same (send-Extends _ n.out)) (λ _ _ _. same)

  close_expired-Extends :
      (sends : ℕ) (now : Instant) (order gc_order : List Key)
      → After (close_expired sends now order gc_order m)
  close_expired-Extends sends now order gc_order =
      close_expired_keeps After sends now order gc_order m
        (λ wm k b sent n _ _ out h.
          let batch = batch_of n b false in
          Extends-trans h (
            unfold retain batch_of in
            record { more = batch ∷ []; grown = ap (λ o. all_of o ++ batch ∷ []) (sym out) }))
        (λ wm k b n _ _ h. h) (Extends-self _ _ refl)

module _ {F : Type 0} where
  enter_all-out :
      (rounds i : ℕ) (ev : Event F) (m : SlidingManager F) → (enter_all rounds i ev m).out ≡ m.out
  unfolding enter_all enter
  enter_all-out zero i ev m = refl
  enter_all-out (suc rounds) i ev m = enter_all-out rounds (suc i) ev _ ∙ ground arith

  pub add_sliding-out : (m : SlidingManager F) (ev : Event F) → (add_sliding m ev).out ≡ m.out
  unfolding add_sliding advance_sliding
  add_sliding-out m ev =
      enter_all-out (advance_sliding ev m).count 0 ev (advance_sliding ev m) ∙ ground arith

  abbrev AfterStep : SlidingManager F → Option (ℕ × SlidingManager F) → Type 0
  AfterStep m none = Unit
  AfterStep m (some (n, x)) = Extends (all_of m.out) (all_of x.out)

  send_sliding-Extends :
      (k : Key) (b : Bucket F) (sends : ℕ) (m : SlidingManager F)
      → AfterStep m (send_sliding sends k b m)
  unfolding send_sliding
  send_sliding-Extends k b zero m = tt
  send_sliding-Extends k b (suc sends) m = elim (Option-cases m.out) [
    | inl e ↦ rw e tt
    | inr (sent, e) ↦
        rw e (record { more = sliding_batch m b (sliding_end m k) ∷ []; grown = refl })
  ]

  close_sliding-Extends :
      (now : Instant) (k : Key) (sends : ℕ) (m : SlidingManager F)
      → AfterStep m (close_sliding now k (sends, m))
  unfolding close_sliding
  close_sliding-Extends now k sends m = elim (Option-cases (lookup k m.windows)) [
    | inl e ↦ rw (e, AfterStep) (Extends-self _ _ refl)
    | inr (b, e) ↦
        rw (e, AfterStep)
          (elim (Bool-cases (is_over m now k)) [
            | inl over ↦ rw (over, AfterStep) (send_sliding-Extends k b sends m)
            | inr early ↦ rw (early, AfterStep) (Extends-self _ _ refl)
          ])
  ]

  close_expired_sliding-Extends :
      (now : Instant) (order : List Key) (sends : ℕ) (m : SlidingManager F)
      → Extends (all_of m.out) (all_of (close_expired_sliding now order (sends, m)).out)
  unfolding close_expired_sliding
  close_expired_sliding-Extends now [] sends m = Extends-self _ _ refl
  close_expired_sliding-Extends now (k ∷ ks) sends m =
      elim (Option-cases (close_sliding now k (sends, m))) [
        | inl e ↦ rw (e, close_expired_sliding) (Extends-self _ _ refl)
        | inr ((left, n), e) ↦
            rw (e, close_expired_sliding)
              (Extends-trans (subst (AfterStep m) e (close_sliding-Extends now k sends m))
                (close_expired_sliding-Extends now ks left n))
      ]

module _ {F S : Type 0} where
  receive_event-Extends :
      (ops : Store F S) (ev : Event F) (stage : Stage F S)
      → Extends (sent_by stage) (sent_by (receive_event ops ev stage))
  unfolding receive_event
  receive_event-Extends ops ev (tumbling m) = add_event-Extends ⦃ops = ops⦄ m ev
  receive_event-Extends ops ev (sliding m) = Extends-self _ _ (ap all_of (add_sliding-out m ev))

  close_stage-Extends :
      (ops : Store F S) (now : Instant) (order gc_order : List Key) (sends : ℕ) (stage : Stage F S)
      → Extends (sent_by stage) (sent_by (close_stage ops now order gc_order sends stage))
  unfolding close_stage
  close_stage-Extends ops now order gc_order sends (tumbling m) =
      close_expired-Extends ⦃ops = ops⦄ m sends now order gc_order
  close_stage-Extends ops now order gc_order sends (sliding m) =
      close_expired_sliding-Extends now order sends m

  abbrev GrowsAt : ℕ → System F S → System F S → Type 0
  GrowsAt i s t = Extends (sent_by (s.stations i).stage) (sent_by (t.stations i).stage)

  -- Only one station changes.
  grows_at :
      (i : ℕ) (st : Station F S) (stations : ℕ → Station F S)
      → Extends (sent_by (stations i).stage) (sent_by st.stage)
      → (j : ℕ) → Extends (sent_by (stations j).stage) (sent_by (update i st stations j).stage)
  grows_at i st stations h j = elim (index_cases j i) [
    | inl same ↦ rw (same, update_self i st stations) h
    | inr other ↦ Extends-self _ _ (ap (λ x. sent_by x.stage) (update_other i j st stations other))
  ]

  send_child-Grows :
      (n : ℕ) (child : Child F) (i : ℕ) (s : System F S) (j : ℕ)
      → GrowsAt j s (send_child n child i s)
  unfolding send_child
  send_child-Grows n child i s j =
      elim (Bool-cases (ltb (length (s.stations i).queue) queue_size)) [
        | inl room ↦ rw room (grows_at i _ s.stations (Extends-self _ _ refl) j)
        | inr full ↦ rw full (Extends-self _ _ refl)
      ]

  take_child-Grows :
      (ops : Store F S) (i : ℕ) (queue : List (Child F)) (s : System F S) (j : ℕ)
      → GrowsAt j s (take_child ops i queue s)
  unfolding take_child
  take_child-Grows ops i [] s j = Extends-self _ _ refl
  take_child-Grows ops i (child ∷ rest) s j =
      grows_at i _ s.stations (receive_event-Extends ops child.event (s.stations i).stage) j

  -- In each step of the system a manager only adds to the batches that it has sent.
  pub perform-Grows :
      (stores : ℕ → Store F S) (n : ℕ) (a : Action F) (s : System F S) (j : ℕ)
      → GrowsAt j s (perform stores n a s)
  unfolding perform open_barrier
  perform-Grows stores n (accept has_ack ev) s j = elim (Option-cases s.pending) [
    | inl e ↦ rw e (Extends-self _ _ refl)
    | inr (p, e) ↦ rw e (Extends-self _ _ refl)
  ]
  perform-Grows stores n deliver s j = elim (Option-cases s.pending) [
    | inl e ↦ rw e (Extends-self _ _ refl)
    | inr ((child, i), e) ↦
        let next : send_child n child i s ≡ perform stores n deliver s = ground (arith, e) in
        subst (λ t. GrowsAt j s t) next (send_child-Grows n child i s j)
  ]
  perform-Grows stores n (work i) s j = elim (Bool-cases (ltb i n)) [
    | inl there ↦ rw there (take_child-Grows (stores i) i (s.stations i).queue s j)
    | inr not_there ↦ rw not_there (Extends-self _ _ refl)
  ]
  perform-Grows stores n (tick i now order gc_order sends) s j =
      grows_at i _ s.stations
        (close_stage-Extends (stores i) now order gc_order sends (s.stations i).stage) j
