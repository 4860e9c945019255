-- ===== src/Window/Tumbling/Invariant.antt =====
-- The invariant of the tumbling Manager: no key is both open and closed, and each bucket stands
-- under its own key, with the flag of its map, its events in that window, and their number.
use stream_rail.Common.{
  ℕ, ◌%◌, ◌^◌, ◌≡◌, refl, Bool, true, false, Option, none, some, List, [], ◌∷◌, Str, arith, length,
  length-append, All, All-append,
}
use stream_rail.Common.Assoc.{
  lookup, insert, delete, Distinct, lookup-insert, lookup-delete, insert-Distinct, delete-Distinct,
  lookup-delete_self,
}
use stream_rail.Clock.{Duration, Instant}
use stream_rail.Model.{Event}
use stream_rail.Window.{Key, key_eq, key_beq_iff, Bucket, Batch, Store, appended, new_bucket}
use stream_rail.Window.Tumbling.{
  Manager, new_manager, key_for, advance, append_open, append_closed, place, add_event,
  emit_blocking, retain, close_expired,
}
use stream_rail.Window.Tumbling.Cases.{advance_cases, place_cases, close_expired_keeps}

module _ {F : Type 0} where
  -- `window_of` is the key of the window that an event belongs to.
  pub record IsBucket (window_of : Event F → Key) (k : Key) (flag : Bool) (b : Bucket F)
      : Type 0 where
    pub own_key : b.key ≡ k
    pub flagged : b.closed ≡ flag
    pub counted : b.count ≡ length b.events % 2 ^ 64
    pub placed : All (λ ev. window_of ev ≡ k) b.events

  pub record Holds (window_of : Event F → Key) (windows closed : List (Key × Bucket F))
      : Type 0 where
    pub open_distinct : Distinct windows
    pub closed_distinct : Distinct closed
    pub disjoint : (k : Key) (b : Bucket F) → lookup k windows ≡ some b → lookup k closed ≡ none
    pub open_buckets :
        (k : Key) (b : Bucket F) → lookup k windows ≡ some b → IsBucket window_of k false b
    pub closed_buckets :
        (k : Key) (b : Bucket F) → lookup k closed ≡ some b → IsBucket window_of k true b

module _ {F : Type 0} {window_of : Event F → Key} where
  pub appended-IsBucket :
      {k : Key} {flag : Bool} {b : Bucket F} (ev : Event F)
      → IsBucket window_of k flag b
      → window_of ev ≡ k
      → IsBucket window_of k flag (appended b ev)
  unfolding appended
  appended-IsBucket {k} {flag} {b} ev h e = record {
    own_key = h.own_key;
    flagged = h.flagged;
    counted = omega (arith, h.counted, length-append b.events (ev ∷ []));
    placed = All-append (λ v. window_of v ≡ k) b.events _ h.placed (e, tt);
  }

  new_bucket-IsBucket : {k : Key} (flag : Bool) → IsBucket window_of k flag (new_bucket F k flag)
  new_bucket-IsBucket flag = record { own_key = refl; flagged = refl; counted = refl; placed = tt }

  module _ {ws cs : List (Key × Bucket F)} (h : Holds window_of ws cs) (k : Key)
      (b : Bucket F) where
    insert_open :
        lookup k cs ≡ none → IsBucket window_of k false b → Holds window_of (insert k b ws) cs
    insert_open free v = record {
      open_distinct = insert-Distinct k b ws h.open_distinct;
      closed_distinct = h.closed_distinct;
      disjoint = λ j c e. ground (arith, lookup-insert k j b ws, key_beq_iff k j, h.disjoint j c);
      open_buckets =
          λ j c e. ground (arith, lookup-insert k j b ws, key_beq_iff k j, h.open_buckets j c);
      closed_buckets = h.closed_buckets;
    }

    insert_closed :
        lookup k ws ≡ none → IsBucket window_of k true b → Holds window_of ws (insert k b cs)
    insert_closed free v = record {
      open_distinct = h.open_distinct;
      closed_distinct = insert-Distinct k b cs h.closed_distinct;
      disjoint = λ j c e. ground (arith, lookup-insert k j b cs, key_beq_iff k j, h.disjoint j c);
      open_buckets = h.open_buckets;
      closed_buckets =
          λ j c e. ground (arith, lookup-insert k j b cs, key_beq_iff k j, h.closed_buckets j c);
    }

  module _ {ws cs : List (Key × Bucket F)} (h : Holds window_of ws cs) (k : Key) where
    delete_open : Holds window_of (delete k ws) cs
    delete_open = record {
      open_distinct = delete-Distinct k ws h.open_distinct;
      closed_distinct = h.closed_distinct;
      disjoint = λ j c e. ground (arith, lookup-delete k j ws, h.disjoint j c);
      open_buckets = λ j c e. ground (arith, lookup-delete k j ws, h.open_buckets j c);
      closed_buckets = h.closed_buckets;
    }

    pub delete_closed : Holds window_of ws (delete k cs)
    delete_closed = record {
      open_distinct = h.open_distinct;
      closed_distinct = delete-Distinct k cs h.closed_distinct;
      disjoint = λ j c e. ground (arith, lookup-delete k j cs, h.disjoint j c);
      open_buckets = h.open_buckets;
      closed_buckets = λ j c e. ground (arith, lookup-delete k j cs, h.closed_buckets j c);
    }

module _ {F S : Type 0} where
  abbrev pub IsValid : Manager F S → Type 0
  IsValid m = Holds (key_for m) m.windows m.closed

-- A new manager is valid.
pub new_manager-IsValid :
    {F : Type 0} (S : Type 0) (size : Duration) (has_out : Bool) (group_by : Option (Event F → Str))
    → IsValid (new_manager S size has_out group_by)
unfolding new_manager lookup
new_manager-IsValid S size has_out group_by = record {
  open_distinct = tt;
  closed_distinct = tt;
  disjoint = λ k b e. cc;
  open_buckets = λ k b e. absurd (cc);
  closed_buckets = λ k b e. absurd (cc);
}

module _ {F S : Type 0} ⦃ops : Store F S⦄ where
  pub advance-IsValid : (ev : Event F) (m : Manager F S) → IsValid m → IsValid (advance ev m)
  unfolding key_for
  advance-IsValid ev m v = advance_cases IsValid ev m (λ _. v) (λ _. v)

  module _ (m : Manager F S) (v : IsValid m) (k : Key) (b : Bucket F) where
    append_open-IsValid :
        lookup k m.closed ≡ none → IsBucket (key_for m) k false b → IsValid (append_open k b m)
    unfolding append_open key_for
    append_open-IsValid free w = insert_open v k b free w

    append_closed-IsValid :
        lookup k m.windows ≡ none
        → IsBucket (key_for m) k true b
        → IsValid (emit_blocking (append_closed k b m) b true)
    unfolding append_closed emit_blocking key_for
    append_closed-IsValid free w = insert_closed v k b free w

    pub retain-IsValid :
        (batch : List (Batch F))
        → lookup k m.windows ≡ some b
        → IsValid (retain k b (record m { out = some batch }))
    unfolding retain key_for
    retain-IsValid batch e =
        insert_closed (delete_open v k) k (record b { closed = true })
          (lookup-delete_self k m.windows)
          (record { own_key = w.own_key; flagged = refl; counted = w.counted; placed = w.placed })
      where
        w : IsBucket (key_for m) k false b
        w = v.open_buckets k b e

  place-IsValid : (ev : Event F) (m : Manager F S) → IsValid m → IsValid (place (key_for m ev) ev m)
  place-IsValid ev m v =
      place_cases IsValid k ev m
        (λ b e.
          append_open-IsValid m v k _ (v.disjoint k b e)
            (appended-IsBucket {b = b} ev (v.open_buckets k b e) refl))
        (λ b e d.
          append_closed-IsValid m v k _ e
            (appended-IsBucket {b = b} ev (v.closed_buckets k b d) refl))
        (λ e d _.
          append_closed-IsValid m v k _ e (appended-IsBucket ev (new_bucket-IsBucket true) refl))
        (λ e d _.
          append_open-IsValid m v k _ d (appended-IsBucket ev (new_bucket-IsBucket false) refl))
    where
      k : Key
      k = key_for m ev

  -- `add` keeps the invariant of the tumbling Manager: no key is both open and closed, and each
  -- bucket stands under its own key, with the flag of its map, its events in that window, and their
  -- number modulo 2 ^ 64.
  pub add_event-IsValid : (m : Manager F S) (ev : Event F) → IsValid m → IsValid (add_event m ev)
  unfolding add_event
  add_event-IsValid m ev v = place-IsValid ev (advance ev m) (advance-IsValid ev m v)

  -- closeExpired keeps the invariant of the tumbling Manager, wherever its loop ends.
  pub close_expired-IsValid :
      (sends : ℕ) (now : Instant) (order gc_order : List Key) (m : Manager F S)
      → IsValid m
      → IsValid (close_expired sends now order gc_order m)
  close_expired-IsValid sends now order gc_order m v =
      close_expired_keeps IsValid sends now order gc_order m
        (λ wm k b sent m' e _ _ w. retain-IsValid m' w k b _ e)
        (λ wm k b m' _ _ w. unfold key_for in delete_closed w k) v
