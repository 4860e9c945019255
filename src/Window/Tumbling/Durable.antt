-- ===== src/Window/Tumbling/Durable.antt =====
-- The store mirrors what the tumbling Manager holds, so that Restore finds it again.
use mathlib.Core.Option
use stream_rail.Common.{
  ◌<◌, ◌^◌, ℕ, ◌≡◌, refl, ap, ◌∙◌, inl, inr, true, Option, none, some, List, ◌==◌, arith, All,
  All-append, if◌then◌else◌, Option-cases,
}
use stream_rail.Common.Int.{ℤ, pos}
use stream_rail.Common.Assoc.{lookup, delete, lookup-insert, lookup-delete}
use stream_rail.Clock.{Instant}
use stream_rail.Model.{Event}
use stream_rail.Window.{Key, key_eq, key_beq_iff, Bucket, Batch, Store, appended}
use stream_rail.Window.Contract.{Table}
use stream_rail.Window.Tumbling.{
  Manager, key_for, advance, append_open, append_closed, place, add_event, emit_blocking, retain,
  close_expired,
}
use stream_rail.Window.Tumbling.Cases.{advance_cases, place_cases, close_expired_keeps}
use stream_rail.Window.Tumbling.Invariant.{
  IsValid, delete_closed, add_event-IsValid, retain-IsValid,
}

-- The bucket of a key, open or closed.
abbrev pub kept_at : {F S : Type 0} → Manager F S → Key → Option (Bucket F)
kept_at m k = elim (lookup k m.windows) [ none ↦ lookup k m.closed | some b ↦ some b ]

-- A manager that has seen no event after the epoch has written no checkpoint.
abbrev pub Reads : ℤ → Option ℤ → Type 0
Reads t none = t ≡ pos 0
Reads t (some u) = t ≡ u

module _ {F S : Type 0} {ops : Store F S} (table : Table ops) where
  open table use {KeyOk, EventOk, TimeOk, Clean, bucket_at, checkpoint}

  pub record Mirrors (m : Manager F S) (s : S) : Type 0 where
    pub valid : IsValid m
    pub storable : (k : Key) (b : Bucket F) → kept_at m k ≡ some b → KeyOk k × All EventOk b.events
    pub stored : m.store ≡ some s
    pub clean : Clean s
    pub buckets : (k : Key) → KeyOk k → bucket_at s k ≡ kept_at m k
    pub reads : Reads m.max_ts (checkpoint s)

  abbrev pub IsDurable : Manager F S → Type 0
  IsDurable m = (s : S) × Mirrors m s

  pub advance-IsDurable :
      (ev : Event F) (m : Manager F S)
      → TimeOk ev.timestamp
      → IsDurable m
      → IsDurable (advance ⦃ops = ops⦄ ev m)
  advance-IsDurable ev m t (s, d) =
      advance_cases ⦃ops = ops⦄ IsDurable ev m
        (λ e. (
          ops.save_checkpoint ev.timestamp s,
          record {
            valid = unfold key_for in d.valid;
            storable = d.storable;
            stored = ap (Option.map (ops.save_checkpoint ev.timestamp)) d.stored;
            clean = table.save_checkpoint-Clean ev.timestamp s d.clean;
            buckets =
                λ k g. table.bucket_at-save_checkpoint ev.timestamp s k g d.clean ∙ d.buckets k g;
            reads = rw (table.checkpoint-save_checkpoint ev.timestamp s t d.clean) refl;
          },
        ))
        (λ _. (s, d))

  module _ (m : Manager F S) (s : S) (d : Mirrors m s) (k : Key) (b : Bucket F) where
    -- Saving a bucket under its key, where it is the one that the manager has for that key.
    saved-Mirrors :
        (n : Manager F S)
        → IsValid n
        → b.key ≡ k
        → KeyOk k
        → All EventOk b.events
        → b.count < 2 ^ 64
        → n.store ≡ Option.map (ops.save b) m.store
        → n.max_ts ≡ m.max_ts
        → ((j : Key) → kept_at n j ≡ (if k == j then some b else kept_at m j))
        → Mirrors n (ops.save b s)
    saved-Mirrors n v own g evs small st ts kept = record {
      valid = v;
      storable = λ j c e. ground (arith, kept j, key_beq_iff k j, d.storable j c);
      stored = st ∙ ap (Option.map (ops.save b)) d.stored;
      clean = table.save-Clean b s (rw own g) evs small d.clean;
      buckets = λ j h.
          rw (table.bucket_at-save b s j (rw own g) evs small h d.clean, own, kept j)
            (ground (arith, d.buckets j h));
      reads = rw (ts, table.checkpoint-save b s (rw own g) d.clean) d.reads;
    }

  module _ (m : Manager F S) (s : S) (d : Mirrors m s) (k : Key) (b : Bucket F) where
    append_open-Mirrors :
        IsValid (append_open ⦃ops = ops⦄ k b m)
        → b.key ≡ k
        → KeyOk k
        → All EventOk b.events
        → b.count < 2 ^ 64
        → Mirrors (append_open ⦃ops = ops⦄ k b m) (ops.save b s)
    append_open-Mirrors v own g evs small =
        saved-Mirrors m s d k b (append_open ⦃ops = ops⦄ k b m) v own g evs small
          (unfold append_open in refl) (unfold append_open in refl)
          (λ j. unfold append_open in ground (arith, lookup-insert k j b m.windows))

    append_closed-Mirrors :
        lookup k m.windows ≡ none
        → IsValid (emit_blocking (append_closed ⦃ops = ops⦄ k b m) b true)
        → b.key ≡ k
        → KeyOk k
        → All EventOk b.events
        → b.count < 2 ^ 64
        → Mirrors (emit_blocking (append_closed ⦃ops = ops⦄ k b m) b true) (ops.save b s)
    append_closed-Mirrors free v own g evs small =
        saved-Mirrors m s d k b (emit_blocking (append_closed ⦃ops = ops⦄ k b m) b true) v own g evs
          small (unfold append_closed emit_blocking in refl)
          (unfold append_closed emit_blocking in refl)
          (λ j.
            unfold append_closed emit_blocking in
            ground (arith, key_beq_iff k j, lookup-insert k j b m.closed))

    retain-Mirrors :
        (sent : List (Batch F))
        → lookup k m.windows ≡ some b
        → Mirrors
            (retain ⦃ops = ops⦄ k b (record m { out = some sent }))
            (ops.save (record b { closed = true }) s)
    retain-Mirrors sent e =
        saved-Mirrors m s d k (record b { closed = true })
          (retain ⦃ops = ops⦄ k b (record m { out = some sent }))
          (retain-IsValid ⦃ops = ops⦄ m d.valid k b sent e) (d.valid.open_buckets k b e).own_key
          found.0 found.1 (omega (arith, (d.valid.open_buckets k b e).counted))
          (unfold retain in refl) (unfold retain in refl)
          (λ j.
            unfold retain in
            ground (
              arith,
              key_beq_iff k j,
              lookup-delete k j m.windows,
              lookup-insert k j (record b { closed = true }) m.closed,
            ))
      where
        found : KeyOk k × All EventOk b.events
        found = d.storable k b (ground arith)

    collect-Mirrors :
        lookup k m.closed ≡ some b
        → Mirrors
            (record m { closed = delete k m.closed; store = Option.map (ops.delete k) m.store })
            (ops.delete k s)
    collect-Mirrors e = record {
      valid = unfold key_for in delete_closed d.valid k;
      storable =
          λ j c h. ground (arith, lookup-delete k j m.closed, key_beq_iff k j, d.storable j c);
      stored = ap (Option.map (ops.delete k)) d.stored;
      clean = table.delete-Clean k s g d.clean;
      buckets = λ j h. rw (table.bucket_at-delete k s j g h d.clean) (
          ground
            (arith, open_or_closed, key_beq_iff k j, d.buckets j h, lookup-delete k j m.closed));
      reads = rw (table.checkpoint-delete k s g d.clean) d.reads;
    }
      where
        open_or_closed : lookup k m.windows ≡ none
        open_or_closed = elim (Option-cases (lookup k m.windows)) [
          | inl a ↦ a
          | inr (c, a) ↦ cc (d.valid.disjoint k c a)
        ]

        g : KeyOk k
        g = (d.storable k b (ground (arith, open_or_closed))).0

  appended-EventOk :
      (b : Bucket F) (ev : Event F)
      → All EventOk b.events
      → EventOk ev
      → All EventOk (appended b ev).events
  unfolding appended
  appended-EventOk b ev h g = All-append EventOk b.events _ h (g, tt)

  place-IsDurable :
      (ev : Event F) (m : Manager F S)
      → KeyOk (key_for m ev)
      → EventOk ev
      → IsValid (place ⦃ops = ops⦄ (key_for m ev) ev m)
      → IsDurable m
      → IsDurable (place ⦃ops = ops⦄ (key_for m ev) ev m)
  unfolding appended
  place-IsDurable ev m g h v (s, d) =
      place_cases ⦃ops = ops⦄ (λ n. IsValid n → IsDurable n) k ev m
        (λ b e w. (
          _,
          append_open-Mirrors m s d k (appended b ev) w (d.valid.open_buckets k b e).own_key g
              (appended-EventOk b ev (d.storable k b (ground arith)).1 h) (omega arith),
        ))
        (λ b e c w. (
          _,
          append_closed-Mirrors m s d k (appended b ev) e w (d.valid.closed_buckets k b c).own_key g
              (appended-EventOk b ev (d.storable k b (ground arith)).1 h) (omega arith),
        ))
        (λ e _ _ w. (_, append_closed-Mirrors m s d k _ e w refl g (h, tt) (omega arith)))
        (λ _ _ _ w. (_, append_open-Mirrors m s d k _ w refl g (h, tt) (omega arith))) v
    where
      k : Key
      k = key_for m ev

  -- `add` keeps the store equal to what the manager holds, for an event that the store can hold and
  -- whose key it can hold.
  pub add_event-IsDurable :
      (m : Manager F S) (ev : Event F)
      → KeyOk (key_for m ev)
      → EventOk ev
      → IsDurable m
      → IsDurable (add_event ⦃ops = ops⦄ m ev)
  unfolding add_event
  add_event-IsDurable m ev g h (s, d) =
      place-IsDurable ev (advance ⦃ops = ops⦄ ev m)
        (advance_cases ⦃ops = ops⦄ (λ n. KeyOk (key_for n ev)) ev m (λ _. unfold key_for in g)
          (λ _. g))
        h (add_event-IsValid ⦃ops = ops⦄ m ev d.valid)
        (advance-IsDurable ev m (table.EventOk-TimeOk ev h) (s, d))

  -- closeExpired keeps the store equal to what the manager holds, wherever its loop ends.
  pub close_expired-IsDurable :
      (sends : ℕ) (now : Instant) (order gc_order : List Key) (m : Manager F S)
      → IsDurable m
      → IsDurable (close_expired ⦃ops = ops⦄ sends now order gc_order m)
  close_expired-IsDurable sends now order gc_order m d =
      close_expired_keeps ⦃ops = ops⦄ IsDurable sends now order gc_order m
        (λ wm k b sent n e _ _ h. (_, retain-Mirrors n h.0 h.1 k b _ e))
        (λ wm k b n e _ h. (_, collect-Mirrors n h.0 h.1 k b e)) d
