-- ===== src/Window/Tumbling/Late.antt =====
-- What `add` sends: nothing for an event of an open or a new window, a corrected batch for a late
-- one.
use stream_rail.Common.{
  ◌≡◌, ◌≢◌, refl, sym, if◌then◌else◌, ◌+◌, ◌%◌, ◌^◌, ◌++◌, ap, ◌∙◌, true, false, none, some, List,
  [], ◌∷◌, arith,
}
use stream_rail.Common.Int.{
  ℤ, pos, ◌+ℤ◌, +ℤ_zero, InInt64, wrap64, wrap64_small, quot, scale, leb_ℤ, ltb_ℤ, ◌-ℤ◌,
}
use stream_rail.Common.Assoc.{lookup, insert, lookup-insert, lookup-insert_self}
use stream_rail.Clock.{Instant, nanos, unix, add}
use stream_rail.Model.{Event}
use stream_rail.Window.{Key, key_eq, key_beq_iff, Bucket, Batch, Store, appended, new_bucket}
use stream_rail.Window.Tumbling.{
  Manager, key_for, window_end, watermark_unix, send, batch_of, is_expired, is_beyond_horizon,
  advance, place, append_open, append_closed, emit_blocking, add_event,
}
use stream_rail.Window.Tumbling.Cases.{advance_cases, place_cases}
use stream_rail.Window.Tumbling.Closing.{visits, staying}
use stream_rail.Window.Tumbling.Retention.{Ticked}

no_seconds : (end : ℤ) → end +ℤ quot (pos 0) nanos ≡ end
unfolding quot
no_seconds end = +ℤ_zero end

zero_twice : wrap64 (scale 2 (pos 0)) ≡ pos 0
unfolding wrap64 scale
zero_twice = refl

-- The buckets of the other keys stay.
others_lem :
    {F : Type 0} (k j : Key) (b : Bucket F) (windows : List (Key × Bucket F))
    → k ≢ j
    → lookup j (insert k b windows) ≡ lookup j windows
others_lem k j b windows apart = ground (arith, lookup-insert k j b windows, key_beq_iff k j, apart)

module _ {F S : Type 0} ⦃ops : Store F S⦄ where
  -- What a switch over the maps of `m`, with the watermark `wm`, makes of an event with key `k`.
  pub record Placed (k : Key) (ev : Event F) (wm : ℤ) (m n : Manager F S) : Type 0 where
    pub held :
        (b : Bucket F)
        → lookup k m.windows ≡ some b
        → (lookup k n.windows
            ≡ some (record b { events = b.events ++ ev ∷ []; count = (b.count + 1) % 2 ^ 64 }))
          × (n.closed ≡ m.closed)
          × (n.out ≡ m.out)
    pub late :
        (b : Bucket F)
        → lookup k m.windows ≡ none
        → lookup k m.closed ≡ some b
        → (lookup k n.closed
            ≡ some (record b { events = b.events ++ ev ∷ []; count = (b.count + 1) % 2 ^ 64 }))
          × (n.windows ≡ m.windows)
          × (n.out
              ≡ send
                  (record {
                    key = b.key;
                    window_end = add b.key.window_start m.size;
                    events = b.events ++ ev ∷ [];
                    count = (b.count + 1) % 2 ^ 64;
                    corrected = true;
                  })
                  m.out)
    pub passed :
        lookup k m.windows ≡ none
        → lookup k m.closed ≡ none
        → leb_ℤ (unix (add k.window_start m.size)) wm ≡ true
        → (lookup k n.closed
            ≡ some (record { key = k; events = ev ∷ []; count = 1; closed = true }))
          × (n.windows ≡ m.windows)
          × (n.out
              ≡ send
                  (record {
                    key = k;
                    window_end = add k.window_start m.size;
                    events = ev ∷ [];
                    count = 1;
                    corrected = true;
                  })
                  m.out)
    pub fresh :
        lookup k m.windows ≡ none
        → lookup k m.closed ≡ none
        → leb_ℤ (unix (add k.window_start m.size)) wm ≡ false
        → (lookup k n.windows
            ≡ some (record { key = k; events = ev ∷ []; count = 1; closed = false }))
          × (n.closed ≡ m.closed)
          × (n.out ≡ m.out)
    pub others :
        (j : Key)
        → k ≢ j
        → (lookup j n.windows ≡ lookup j m.windows) × (lookup j n.closed ≡ lookup j m.closed)

  module _ (k : Key) (ev : Event F) (m : Manager F S) where
    open_lem :
        (b : Bucket F)
        → (lookup k (append_open k b m).windows ≡ some b)
          × ((append_open k b m).closed ≡ m.closed)
          × ((append_open k b m).out ≡ m.out)
    unfolding append_open
    open_lem b = (lookup-insert_self k b m.windows, refl, refl)

    closed_lem :
        (b : Bucket F)
        → let n = emit_blocking (append_closed k b m) b true in
          (lookup k n.closed ≡ some b)
          × (n.windows ≡ m.windows)
          × (n.out ≡ send (batch_of m b true) m.out)
    unfolding append_closed emit_blocking batch_of
    closed_lem b = (lookup-insert_self k b m.closed, refl, refl)

    beside :
        (j : Key) (b : Bucket F)
        → k ≢ j
        → (lookup j (append_open k b m).windows ≡ lookup j m.windows)
          × (lookup j (append_open k b m).closed ≡ lookup j m.closed)
    unfolding append_open
    beside j b apart = (others_lem k j b m.windows apart, refl)

    apart :
        (j : Key) (b : Bucket F)
        → k ≢ j
        → let n = emit_blocking (append_closed k b m) b true in
          (lookup j n.windows ≡ lookup j m.windows) × (lookup j n.closed ≡ lookup j m.closed)
    unfolding append_closed emit_blocking
    apart j b a = (refl, others_lem k j b m.closed a)

    place-Placed : Placed k ev (watermark_unix m) m (place k ev m)
    unfolding appended window_end batch_of
    place-Placed =
        place_cases (Placed k ev (watermark_unix m) m) k ev m
          (λ b e. record {
            held = λ c f. let is : c ≡ b = ground (arith, e, f) in rw is (open_lem (appended b ev));
            late = λ c f g. cc;
            passed = λ f g t. cc;
            fresh = λ f g t. cc;
            others = λ j a. beside j (appended b ev) a;
          })
          (λ b e d. record {
            held = λ c f. cc;
            late = λ c f g.
                let is : c ≡ b = ground (arith, d, g) in rw is (closed_lem (appended b ev));
            passed = λ f g t. cc;
            fresh = λ f g t. cc;
            others = λ j a. apart j (appended b ev) a;
          })
          (λ e d t. record {
            held = λ c f. cc;
            late = λ c f g. cc;
            passed = λ f g u. closed_lem (appended (new_bucket F k true) ev);
            fresh = λ f g u. cc;
            others = λ j a. apart j (appended (new_bucket F k true) ev) a;
          })
          (λ e d t. record {
            held = λ c f. cc;
            late = λ c f g. cc;
            passed = λ f g u. cc;
            fresh = λ f g u. open_lem (appended (new_bucket F k false) ev);
            others = λ j a. beside j (appended (new_bucket F k false) ev) a;
          })

  key_for-advance : (m : Manager F S) (ev : Event F) → key_for (advance ev m) ev ≡ key_for m ev
  unfolding key_for
  key_for-advance m ev =
      advance_cases (λ n. key_for n ev ≡ key_for m ev) ev m (λ _. refl) (λ _. refl)

  -- The newest timestamp once the event is in.
  abbrev pub newest : Manager F S → Event F → ℤ
  newest m ev = if ltb_ℤ m.max_ts ev.timestamp then ev.timestamp else m.max_ts

  max_ts-place : (k : Key) (ev : Event F) (m : Manager F S) → (place k ev m).max_ts ≡ m.max_ts
  max_ts-place k ev m =
      place_cases (λ n. n.max_ts ≡ m.max_ts) k ev m (λ b e. unfold append_open in refl)
        (λ b e d. unfold append_closed emit_blocking in refl)
        (λ e d t. unfold append_closed emit_blocking in refl) (λ e d t. unfold append_open in refl)

  -- The switch sees the maps and the length of the windows as they were, and the watermark moved on.
  Placed-advance :
      (k : Key) (m : Manager F S) (ev : Event F) (r : Manager F S)
      → Placed k ev (watermark_unix (advance ev m)) (advance ev m) r
      → Placed k ev (watermark_unix (advance ev m)) m r
  Placed-advance k m ev r =
      advance_cases (λ n. Placed k ev (watermark_unix n) n r → Placed k ev (watermark_unix n) m r)
        ev m
        (λ _ p. record {
          held = p.held;
          late = p.late;
          passed = p.passed;
          fresh = p.fresh;
          others = p.others;
        })
        (λ _ p. p)

  watermark-advance :
      (m : Manager F S) (ev : Event F)
      → (watermark_unix (advance ev m) ≡ wrap64 (newest m ev -ℤ quot m.lateness nanos))
        × ((advance ev m).max_ts ≡ newest m ev)
  unfolding watermark_unix
  watermark-advance m ev =
      advance_cases
        (λ n.
          (watermark_unix n ≡ wrap64 (newest m ev -ℤ quot m.lateness nanos))
          × (n.max_ts ≡ newest m ev))
        ev m (λ e. rw (e) (refl, refl)) (λ e. rw (e) (refl, refl))

  -- `add` on every manager. The newest timestamp is kept, and the watermark is that timestamp less
  -- the lateness. An event of an open or of a new window goes behind the events of its bucket there,
  -- is counted, and sends nothing. An event of a closed window that is kept, or of one that the
  -- watermark has passed, does so among the closed windows, and one corrected batch is sent, with
  -- the bucket's key, its window's end, all its events with the new one behind them, and its count.
  -- The other map and all other keys stay as they were.
  pub add_event-Placed :
      (m : Manager F S) (ev : Event F)
      → Placed (key_for m ev) ev (wrap64 (newest m ev -ℤ quot m.lateness nanos)) m (add_event m ev)
        × ((add_event m ev).max_ts ≡ newest m ev)
  unfolding add_event
  add_event-Placed m ev = rw (key_for-advance m ev) (
    rw (sym (watermark-advance m ev).0)
        (Placed-advance k m ev _ (place-Placed k ev (advance ev m))),
    max_ts-place k ev (advance ev m) ∙ (watermark-advance m ev).1,
  )
    where
      k : Key
      k = key_for m ev

  window_end-advance :
      (m : Manager F S) (ev : Event F) (k : Key)
      → window_end (advance ev m) k ≡ add k.window_start m.size
  unfolding window_end
  window_end-advance m ev k =
      advance_cases (λ n. window_end n k ≡ add k.window_start m.size) ev m (λ _. refl) (λ _. refl)

  -- Without lateness what is expired is beyond the horizon too.
  is_beyond_horizon_zero :
      (m : Manager F S) (wm : ℤ) (now : Instant) (k : Key)
      → m.lateness ≡ pos 0
      → InInt64 (unix (window_end m k))
      → is_expired m wm now k ≡ true
      → is_beyond_horizon m wm now k ≡ true
  unfolding is_beyond_horizon is_expired
  is_beyond_horizon_zero m wm now k l r t = rw (seconds, twice) t
    where
      end : ℤ
      end = unix (window_end m k)

      seconds : wrap64 (end +ℤ quot m.lateness nanos) ≡ end
      seconds =
          ap (λ d. wrap64 (end +ℤ quot d nanos)) l ∙ ap wrap64 (no_seconds end) ∙ wrap64_small end r

      twice : wrap64 (scale 2 m.lateness) ≡ m.lateness
      twice = ap (λ d. wrap64 (scale 2 d)) l ∙ zero_twice ∙ sym l

  -- With no lateness a tick forgets the expired windows that both of its loops visit. A later event of
  -- such a window, once the watermark has passed the window's end, is nevertheless sent as a
  -- correction, in a batch of that event alone; the end of the window fits an int64.
  pub zero_lateness_corrects :
      (now : Instant) (order gc_order : List Key) (sent : List (Batch F)) (m n : Manager F S)
      (ev : Event F) (b : Bucket F)
      → Ticked now order gc_order sent m n
      → m.lateness ≡ pos 0
      → InInt64 (unix (window_end m (key_for n ev)))
      → lookup (key_for n ev) m.windows ≡ some b
      → is_expired m (watermark_unix m) now (key_for n ev) ≡ true
      → visits order (key_for n ev) ≡ true
      → visits gc_order (key_for n ev) ≡ true
      → leb_ℤ (unix (window_end (advance ev n) (key_for n ev))) (watermark_unix (advance ev n))
        ≡ true
      → (add_event n ev).out
        ≡ send
            (record {
              key = key_for n ev;
              window_end = window_end (advance ev n) (key_for n ev);
              events = ev ∷ [];
              count = 1;
              corrected = true;
            })
            n.out
  zero_lateness_corrects now order gc_order sent m n ev b t l r e x v g p =
      rw (window_end-advance n ev k)
        ((add_event-Placed n ev).0.passed no_open no_closed
          (rw (sym (window_end-advance n ev k), sym (watermark-advance n ev).0) p)).2
    where
      k : Key
      k = key_for n ev

      no_open : lookup k n.windows ≡ none
      no_open = t.opens k ∙ (unfold staying in rw (v, x))

      no_closed : lookup k n.closed ≡ none
      no_closed = t.closes k ∙ (rw (g, is_beyond_horizon_zero m (watermark_unix m) now k l r x))
