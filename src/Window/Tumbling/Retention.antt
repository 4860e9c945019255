-- ===== src/Window/Tumbling/Retention.antt =====
-- Which closed windows a tick keeps for late events.
use stream_rail.Common.{
  ℕ, ◌≤◌, ◌≡◌, refl, ◌∙◌, true, ◌&&◌, none, some, List, [], ◌∷◌, ◌++◌, ◌==◌, arith, length,
  if◌then◌else◌,
}
use stream_rail.Common.Int.{ℤ}
use stream_rail.Common.Assoc.{lookup, lookup-delete}
use stream_rail.Clock.{Instant}
use stream_rail.Window.{Key, key_eq, key_beq_iff, Batch, Store}
use stream_rail.Window.Tumbling.{
  Manager, watermark_unix, is_beyond_horizon, collect, gc_closed, close_windows, close_expired,
  retain,
}
use stream_rail.Window.Tumbling.Cases.{collect_cases, gc_closed_keeps, close_windows_keeps}
use stream_rail.Window.Tumbling.Closing.{
  visits, due, Once, Flushed, close_windows-Flushed, staying, joined,
}

-- The parts of a manager by which it judges windows.
abbrev pub SameClock : {F S : Type 0} → Manager F S → Manager F S → Type 0
SameClock m n = (m.size ≡ n.size) × (m.lateness ≡ n.lateness)

module _ {F S : Type 0} ⦃ops : Store F S⦄ (wm : ℤ) (now : Instant) where
  is_beyond_horizon-SameClock :
      (m n : Manager F S) (k : Key)
      → SameClock m n
      → is_beyond_horizon m wm now k ≡ is_beyond_horizon n wm now k
  unfolding is_beyond_horizon
  is_beyond_horizon-SameClock m n k h = rw (h.0, h.1)

  pub collect-SameClock : (k : Key) (m : Manager F S) → SameClock (collect wm now k m) m
  collect-SameClock k m =
      collect_cases (λ n. SameClock n m) wm now k m (λ _. (refl, refl)) (λ _ _ _. (refl, refl))
        (λ _ _ _. (refl, refl))

  lookup-collect :
      (k j : Key) (m : Manager F S)
      → lookup j (collect wm now k m).closed
        ≡ (if k == j && is_beyond_horizon m wm now k then none else lookup j m.closed)
  lookup-collect k j m =
      collect_cases
        (λ n.
          lookup j n.closed
          ≡ (if k == j && is_beyond_horizon m wm now k then none else lookup j m.closed))
        wm now k m (λ e. ground (arith, e, key_beq_iff k j)) (λ b e t. ground (arith, t))
        (λ b e t. ground (arith, t, lookup-delete k j m.closed))

  -- The loop of gcClosed drops the windows that it visits and that are beyond the horizon, and
  -- keeps all others.
  pub lookup-gc_closed :
      (order : List Key) (m : Manager F S) (k : Key)
      → lookup k (gc_closed wm now order m).closed
        ≡ (if visits order k && is_beyond_horizon m wm now k then none else lookup k m.closed)
  unfolding gc_closed visits
  lookup-gc_closed [] m k = refl
  lookup-gc_closed (j ∷ ks) m k = ground (
    arith,
    key_beq_iff j k,
    lookup-gc_closed ks (collect wm now j m) k,
    lookup-collect j k m,
    is_beyond_horizon-SameClock (collect wm now j m) m k (collect-SameClock j m),
  )

  pub windows-gc_closed :
      (order : List Key) (m : Manager F S) → (gc_closed wm now order m).windows ≡ m.windows
  windows-gc_closed order m =
      gc_closed_keeps (λ n. n.windows ≡ m.windows) wm now (λ _ _ _ _ _ h. h) order m refl

  out-gc_closed : (order : List Key) (m : Manager F S) → (gc_closed wm now order m).out ≡ m.out
  out-gc_closed order m =
      gc_closed_keeps (λ n. n.out ≡ m.out) wm now (λ _ _ _ _ _ h. h) order m refl

  close_windows-SameClock :
      (ks : List Key) (sends : ℕ) (m : Manager F S)
      → SameClock (close_windows wm now ks (sends, m)).0 m
  close_windows-SameClock ks sends m =
      close_windows_keeps (λ n. SameClock n m) wm now (λ k b sent n _ _ _ h. unfold retain in h) ks
        sends m (refl, refl)

module _ {F S : Type 0} ⦃ops : Store F S⦄ where
  -- The state after a tick: `order` and `gc_order` are the orders of the two visits.
  pub record Ticked (now : Instant) (order gc_order : List Key) (sent : List (Batch F))
      (m n : Manager F S) : Type 0 where
    pub sends : n.out ≡ some (sent ++ due (watermark_unix m) now m order)
    pub opens : (k : Key) → lookup k n.windows ≡ staying (watermark_unix m) now m (visits order k) k
    pub closes :
        (k : Key)
        → lookup k n.closed ≡ (
            if visits gc_order k && is_beyond_horizon m (watermark_unix m) now k
            then none
            else joined (watermark_unix m) now m (visits order k) k)

  -- A tick that visits no open window twice and whose sends go through: it sends the batches of the
  -- expired windows that it visits, once each; these windows and no others stop being open; they are
  -- closed windows then, and with them the older ones, except those that gcClosed visits and that
  -- are beyond the horizon of late events.
  pub close_expired-Ticked :
      (sends : ℕ) (now : Instant) (order gc_order : List Key) (sent : List (Batch F))
      (m : Manager F S)
      → m.out ≡ some sent
      → length order ≤ sends
      → Once order
      → Ticked now order gc_order sent m (close_expired sends now order gc_order m)
  unfolding close_expired
  close_expired-Ticked sends now order gc_order sent m o room once = rw flushed.1 (record {
    sends = out-gc_closed wm now gc_order n ∙ flushed.0.sends;
    opens = λ k. rw (windows-gc_closed wm now gc_order n) (flushed.0.opens k);
    closes = λ k. rw (
      lookup-gc_closed wm now gc_order n k,
      flushed.0.closes k,
      is_beyond_horizon-SameClock wm now n m k (close_windows-SameClock wm now order sends m),
    );
  })
    where
      wm : ℤ
      wm = watermark_unix m

      n : Manager F S
      n = (close_windows wm now order (sends, m)).0

      flushed : Flushed wm now order sent m n × ((close_windows wm now order (sends, m)).1 ≡ true)
      flushed = close_windows-Flushed wm now order sends sent m o room once
