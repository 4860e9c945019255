-- ===== src/Window/Tumbling/Accounting.antt =====
-- What the tumbling Manager holds, weighed: no event is lost or counted twice.

use stream_rail.Common.{
  ℕ, ◌+◌, ◌≡◌, refl, ◌∙◌, true, false, some, List, [], ◌∷◌, arith, total, total-append,
}
use stream_rail.Common.Int.{ℤ}
use stream_rail.Common.Assoc.{
  lookup, total_values, total_values-insert_new, total_values-insert_old, total_values-delete,
}
use stream_rail.Clock.{Instant}
use stream_rail.Model.{Event}
use stream_rail.Window.{Key, key_eq, Bucket, Batch, Store, appended, new_bucket}
use stream_rail.Window.Tumbling.{
  Manager, key_for, advance, append_open, append_closed, place, add_event, emit_blocking, retain,
  close_windows,
}
use stream_rail.Window.Tumbling.Cases.{advance_cases, place_cases, close_windows_keeps}
use stream_rail.Window.Tumbling.Invariant.{IsValid, retain-IsValid}

module _ {F : Type 0} (w : Event F → ℕ) where
  abbrev pub weight : Bucket F → ℕ
  weight b = total w b.events

  -- The weight of the events in all buckets, open and closed.
  pub held : {S : Type 0} → Manager F S → ℕ
  held m = total_values weight m.windows + total_values weight m.closed

  weight-appended : (b : Bucket F) (ev : Event F) → weight (appended b ev) ≡ weight b + w ev
  unfolding appended
  weight-appended b ev = omega (arith, total-append w b.events (ev ∷ []))

  module _ {S : Type 0} ⦃ops : Store F S⦄ where
    held-advance : (ev : Event F) (m : Manager F S) → held (advance ev m) ≡ held m
    unfolding held
    held-advance ev m = advance_cases (λ n. held n ≡ held m) ev m (λ _. refl) (λ _. refl)

    held-place : (k : Key) (ev : Event F) (m : Manager F S) → held (place k ev m) ≡ w ev + held m
    unfolding held append_open append_closed emit_blocking
    held-place k ev m =
        place_cases (λ n. held n ≡ w ev + held m) k ev m
          (λ b e. omega (
            arith,
            weight-appended b ev,
            total_values-insert_old weight k (appended b ev) b m.windows e,
          ))
          (λ b e d. omega (
            arith,
            weight-appended b ev,
            total_values-insert_old weight k (appended b ev) b m.closed d,
          ))
          (λ e d t. omega (
            arith,
            weight-appended (new_bucket F k true) ev,
            total_values-insert_new weight k (appended (new_bucket F k true) ev) m.closed d,
          ))
          (λ e d t. omega (
            arith,
            weight-appended (new_bucket F k false) ev,
            total_values-insert_new weight k (appended (new_bucket F k false) ev) m.windows e,
          ))

    -- `add` puts the event into one bucket, once, and loses no other event: whatever the weight of
    -- an event, the weight of what the manager holds grows by that of the new event.
    pub held-add_event : (m : Manager F S) (ev : Event F) → held (add_event m ev) ≡ w ev + held m
    unfolding add_event
    held-add_event m ev =
        omega (arith, held-place (key_for (advance ev m) ev) ev (advance ev m), held-advance ev m)

    held-retain :
        (k : Key) (b : Bucket F) (sent : List (Batch F)) (m : Manager F S)
        → IsValid m
        → lookup k m.windows ≡ some b
        → held (retain k b (record m { out = some sent })) ≡ held m
    unfolding held retain
    held-retain k b sent m v e = omega (
      arith,
      total_values-delete weight k b m.windows v.open_distinct e,
      total_values-insert_new weight k (record b { closed = true }) m.closed (v.disjoint k b e),
    )

    -- The loop of closeExpired loses no event of a valid manager, wherever it ends: whatever the
    -- weight of an event, the weight of what the manager holds stays the same.
    pub held-close_windows :
        (wm : ℤ) (now : Instant) (order : List Key) (sends : ℕ) (m : Manager F S)
        → IsValid m
        → held (close_windows wm now order (sends, m)).0 ≡ held m
    held-close_windows wm now order sends m v =
        (close_windows_keeps (λ n. IsValid n × (held n ≡ held m)) wm now
          (λ k b sent n e _ _ h. (retain-IsValid n h.0 k b _ e, held-retain k b _ n h.0 e ∙ h.1))
          order sends m (v, refl)).1
