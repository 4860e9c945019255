-- ===== src/Window/Tumbling/Cases.antt =====
-- The branches of the tumbling Manager's operations, as rules that every proof about them uses.
use mathlib.Core.Option
use mathlib.Core.Path.{subst}
use stream_rail.Common.{
  ℕ, zero, suc, ◌≡◌, Bool, true, false, Option, none, some, List, [], ◌∷◌, ◌++◌, Bool-cases,
  Option-cases, inl, inr,
}
use stream_rail.Common.Int.{ℤ, ltb_ℤ, leb_ℤ}
use stream_rail.Common.Assoc.{lookup, delete}
use stream_rail.Clock.{Instant, unix}
use stream_rail.Model.{Event}
use stream_rail.Window.{Key, key_eq, Bucket, Batch, Store, appended, new_bucket}
use stream_rail.Window.Tumbling.{
  Manager, advance, place, place_closed, place_fresh, append_open, append_closed, emit_blocking,
  batch_of, window_end, watermark_unix, is_expired, retain, send_batch, close_window, close_windows,
  gc_closed, close_expired, is_beyond_horizon, collect,
}

module _ {F S : Type 0} ⦃ops : Store F S⦄ (P : Manager F S → Type 0) where
  -- The watermark's part leaves all but the watermark and the store alone.
  pub advance_cases :
      (ev : Event F) (m : Manager F S)
      → (ltb_ℤ m.max_ts ev.timestamp ≡ true
          → P (record m {
            max_ts = ev.timestamp;
            store = Option.map (ops.save_checkpoint ev.timestamp) m.store;
          }))
      → (ltb_ℤ m.max_ts ev.timestamp ≡ false → P m)
      → P (advance ev m)
  unfolding advance
  advance_cases ev m newer older = elim (Bool-cases (ltb_ℤ m.max_ts ev.timestamp)) [
    | inl e ↦ rw (e, advance) (newer e)
    | inr e ↦ rw (e, advance) (older e)
  ]

  -- The four cases of the switch in `add`.
  pub place_cases :
      (k : Key) (ev : Event F) (m : Manager F S)
      → ((b : Bucket F) → lookup k m.windows ≡ some b → P (append_open k (appended b ev) m))
      → ((b : Bucket F)
          → lookup k m.windows ≡ none
          → lookup k m.closed ≡ some b
          → P (emit_blocking (append_closed k (appended b ev) m) (appended b ev) true))
      → (lookup k m.windows ≡ none
          → lookup k m.closed ≡ none
          → leb_ℤ (unix (window_end m k)) (watermark_unix m) ≡ true
          → let b = appended (new_bucket F k true) ev in
            P (emit_blocking (append_closed k b m) b true))
      → (lookup k m.windows ≡ none
          → lookup k m.closed ≡ none
          → leb_ℤ (unix (window_end m k)) (watermark_unix m) ≡ false
          → P (append_open k (appended (new_bucket F k false) ev) m))
      → P (place k ev m)
  place_cases k ev m held late passed fresh = elim (Option-cases (lookup k m.windows)) [
    | inr (b, e) ↦ unfold place in rw (e, place) (held b e)
    | inl e ↦
        unfold place in
        rw (e, place)
          (elim (Option-cases (lookup k m.closed)) [
            | inr (c, d) ↦ unfold place_closed in rw (d, place_closed) (late c e d)
            | inl d ↦
                unfold place_closed in
                rw (d, place_closed)
                  (elim (Bool-cases (leb_ℤ (unix (window_end m k)) (watermark_unix m))) [
                    | inl t ↦ unfold place_fresh in rw (t, place_fresh) (passed e d t)
                    | inr t ↦ unfold place_fresh in rw (t, place_fresh) (fresh e d t)
                  ])
          ])
  ]

  pub collect_cases :
      (wm : ℤ) (now : Instant) (k : Key) (m : Manager F S)
      → (lookup k m.closed ≡ none → P m)
      → ((b : Bucket F) → lookup k m.closed ≡ some b → is_beyond_horizon m wm now k ≡ false → P m)
      → ((b : Bucket F)
          → lookup k m.closed ≡ some b
          → is_beyond_horizon m wm now k ≡ true
          → P (record m { closed = delete k m.closed; store = Option.map (ops.delete k) m.store }))
      → P (collect wm now k m)
  collect_cases wm now k m gone within beyond = elim (Option-cases (lookup k m.closed)) [
    | inl e ↦ unfold collect in rw (e, collect) (gone e)
    | inr (b, e) ↦
        unfold collect in
        rw (e, collect)
          (elim (Bool-cases (is_beyond_horizon m wm now k)) [
            | inl t ↦ rw t (beyond b e t)
            | inr t ↦ rw t (within b e t)
          ])
  ]

module _ {F S : Type 0} ⦃ops : Store F S⦄ where
  pub close_window_cases :
      (wm : ℤ) (now : Instant) (k : Key) (sends : ℕ) (m : Manager F S)
      → (Q : Option (ℕ × Manager F S) → Type 0) → (lookup k m.windows ≡ none → Q (some (sends, m)))
      → ((b : Bucket F)
          → lookup k m.windows ≡ some b
          → is_expired m wm now k ≡ false
          → Q (some (sends, m)))
      → ((b : Bucket F)
          → lookup k m.windows ≡ some b
          → is_expired m wm now k ≡ true
          → Q (send_batch sends k b m))
      → Q (close_window wm now k (sends, m))
  close_window_cases wm now k sends m Q gone early expired =
      elim (Option-cases (lookup k m.windows)) [
        | inl e ↦ unfold close_window in rw (e, close_window) (gone e)
        | inr (b, e) ↦
            unfold close_window in
            rw (e, close_window)
              (elim (Bool-cases (is_expired m wm now k)) [
                | inl t ↦ rw t (expired b e t)
                | inr t ↦ rw t (early b e t)
              ])
      ]

module _ {F S : Type 0} ⦃ops : Store F S⦄ (P : Manager F S → Type 0) where
  -- The state with which the loop goes on, if it does.
  abbrev Kept : Option (ℕ × Manager F S) → Type 0
  Kept none = Unit
  Kept (some (sends, m)) = P m

  abbrev Sending : ℤ → Instant → Type 0
  Sending wm now =
      (k : Key) (b : Bucket F) (sent : List (Batch F)) (m : Manager F S)
      → lookup k m.windows ≡ some b
      → is_expired m wm now k ≡ true
      → m.out ≡ some sent
      → P m
      → P (retain k b (record m { out = some (sent ++ batch_of m b false ∷ []) }))

  send_batch-Kept :
      (wm : ℤ) (now : Instant) (k : Key) (b : Bucket F) (sends : ℕ) (m : Manager F S)
      → Sending wm now
      → lookup k m.windows ≡ some b
      → is_expired m wm now k ≡ true
      → P m
      → Kept (send_batch sends k b m)
  unfolding send_batch
  send_batch-Kept wm now k b zero m keep e t h = tt
  send_batch-Kept wm now k b (suc sends) m keep e t h = elim (Option-cases m.out) [
    | inl d ↦ rw d tt
    | inr (sent, d) ↦ rw d (keep k b sent m e t d h)
  ]

  -- What every sent window keeps, the loop of closeExpired keeps.
  pub close_windows_keeps :
      (wm : ℤ) (now : Instant)
      → Sending wm now
      → (ks : List Key) (sends : ℕ) (m : Manager F S) → P m
      → P (close_windows wm now ks (sends, m)).0
  unfolding close_windows
  close_windows_keeps wm now keep [] sends m h = h
  close_windows_keeps wm now keep (k ∷ ks) sends m h =
      elim (Option-cases (close_window wm now k (sends, m))) [
        | inl e ↦ rw (e, close_windows) h
        | inr ((n, m'), e) ↦
            rw (e, close_windows) (close_windows_keeps wm now keep ks n m' (subst Kept e kept))
      ]
    where
      kept : Kept (close_window wm now k (sends, m))
      kept =
          close_window_cases wm now k sends m Kept (λ _. h) (λ b _ _. h)
            (λ b e t. send_batch-Kept wm now k b sends m keep e t h)

  pub gc_closed_keeps :
      (wm : ℤ) (now : Instant)
      → ((k : Key) (b : Bucket F) (m : Manager F S)
          → lookup k m.closed ≡ some b
          → is_beyond_horizon m wm now k ≡ true
          → P m
          → P (record m { closed = delete k m.closed; store = Option.map (ops.delete k) m.store }))
      → (ks : List Key) (m : Manager F S) → P m
      → P (gc_closed wm now ks m)
  unfolding gc_closed
  gc_closed_keeps wm now keep [] m h = h
  gc_closed_keeps wm now keep (k ∷ ks) m h =
      gc_closed_keeps wm now keep ks (collect wm now k m)
        (collect_cases P wm now k m (λ e. h) (λ b e t. h) (λ b e t. keep k b m e t h))

  -- What both loops keep, closeExpired keeps.
  pub close_expired_keeps :
      (sends : ℕ) (now : Instant) (order gc_order : List Key) (m : Manager F S)
      → ((wm : ℤ) → Sending wm now)
      → ((wm : ℤ) (k : Key) (b : Bucket F) (m' : Manager F S)
          → lookup k m'.closed ≡ some b
          → is_beyond_horizon m' wm now k ≡ true
          → P m'
          → P (record m' {
            closed = delete k m'.closed;
            store = Option.map (ops.delete k) m'.store;
          }))
      → P m
      → P (close_expired sends now order gc_order m)
  unfolding close_expired
  close_expired_keeps sends now order gc_order m keep drop h = elim (Bool-cases looped.1) [
    | inl e ↦ rw e (gc_closed_keeps wm now (drop wm) gc_order looped.0 kept)
    | inr e ↦ rw e kept
  ]
    where
      wm : ℤ
      wm = watermark_unix m

      looped : Manager F S × Bool
      looped = close_windows wm now order (sends, m)

      kept : P looped.0
      kept = close_windows_keeps wm now (keep wm) order sends m h
