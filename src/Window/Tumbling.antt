-- ===== src/Window/Tumbling.antt =====
-- internal/window/tumbling.go: the Manager of tumbling windows.
-- The channel `out` is the list of the batches sent on it, `none` for a nil channel. A bucket is
-- reached through one map at a time, so the pointer in the map is the bucket itself. A `range` over
-- a map is given the order of its visit. Where a send waits beside `ctx.Done()`, a number `sends`
-- says how many sends go through before the context ends the loop.
pub mod Run
pub mod Cases
pub mod Invariant
pub mod Accounting
pub mod Closing
pub mod Durable
pub mod Restart
pub mod Retention
pub mod Secure
pub mod Late
use mathlib.Core.Option
use stream_rail.Common.{
  ℕ, zero, suc, ◌+◌, ◌%◌, ◌^◌, Bool, true, false, not, ◌&&◌, ◌||◌, Option, none, some, List, [],
  ◌∷◌, ◌++◌, Str, ◌==◌, if◌then◌else◌,
}
use stream_rail.Common.Int.{ℤ, pos, ◌-ℤ◌, ◌+ℤ◌, quot, scale, wrap64, leb_ℤ, ltb_ℤ}
use stream_rail.Common.Assoc.{lookup, insert, delete}
use stream_rail.Clock.{Duration, Instant, nanos, from_unix, unix, add, truncate, before}
use stream_rail.Model.{Event, Envelope}
use stream_rail.Window.{Key, key_eq, Bucket, Batch, Result, ok, err, Store, appended, new_bucket}

pub record Manager (F S : Type 0) : Type 0 where
  pub size : Duration
  pub lateness : Duration
  pub group_by : Event F → Str
  pub out : Option (List (Batch F))
  pub windows : List (Key × Bucket F)
  pub closed : List (Key × Bucket F)
  pub max_ts : ℤ
  pub store : Option S

abbrev pub group_by_service : {F : Type 0} → Event F → Str
group_by_service ev = ev.service

-- NewManager, with an open channel if `has_out`; a nil `group_by` groups by service.
unfoldable pub new_manager :
    {F : Type 0} (S : Type 0) → Duration → Bool → Option (Event F → Str) → Manager F S
new_manager S size has_out group_by = record {
  size = size;
  lateness = pos 0;
  group_by = elim group_by [ none ↦ group_by_service | some f ↦ f ];
  out = if has_out then some [] else none;
  windows = [];
  closed = [];
  max_ts = pos 0;
  store = none;
}

-- A send on a channel that may be nil.
abbrev pub send : {F : Type 0} → Batch F → Option (List (Batch F)) → Option (List (Batch F))
send batch none = none
send batch (some sent) = some (sent ++ batch ∷ [])

module _ {F S : Type 0} where
  unfoldable pub set_store : S → Manager F S → Manager F S
  set_store s m = record m { store = some s }

  unfoldable pub set_lateness : Duration → Manager F S → Manager F S
  set_lateness d m = record m { lateness = d }

  unfoldable pub watermark_unix : Manager F S → ℤ
  watermark_unix m = wrap64 (m.max_ts -ℤ quot m.lateness nanos)

  unfoldable pub window_end : Manager F S → Key → Instant
  window_end m k = add k.window_start m.size

  unfoldable pub key_for : Manager F S → Event F → Key
  key_for m ev = record {
    rule_name = [];
    group_key = m.group_by ev;
    window_start = truncate (from_unix ev.timestamp) m.size;
  }

  unfoldable pub batch_of : Manager F S → Bucket F → Bool → Batch F
  unfolding window_end
  batch_of m b corrected = record {
    key = b.key;
    window_end = window_end m b.key;
    events = b.events;
    count = b.count;
    corrected = corrected;
  }

  -- The send waits until the channel takes the batch; a nil channel is skipped.
  unfoldable pub emit_blocking : Manager F S → Bucket F → Bool → Manager F S
  unfolding batch_of
  emit_blocking m b corrected = record m { out = send (batch_of m b corrected) m.out }

  -- Whether an open window has passed the watermark or, by the lateness, the clock.
  unfoldable pub is_expired : Manager F S → ℤ → Instant → Key → Bool
  unfolding window_end
  is_expired m wm now k =
      leb_ℤ (unix (window_end m k)) wm || not (before now (add (window_end m k) m.lateness))

  unfoldable pub is_beyond_horizon : Manager F S → ℤ → Instant → Key → Bool
  unfolding window_end
  is_beyond_horizon m wm now k =
      leb_ℤ (wrap64 (unix (window_end m k) +ℤ quot m.lateness nanos)) wm
      || not (before now (add (window_end m k) (wrap64 (scale 2 m.lateness))))

  -- A call of the store, if there is one.
  write : (S → S) → Manager F S → Manager F S
  write f m = record m { store = Option.map f m.store }

  -- One round of the loop in Restore: the manager, and the number of open windows.
  restore_bucket : Bucket F → Manager F S × ℕ → Manager F S × ℕ
  restore_bucket b (m, n) =
      if b.closed
      then (record m { closed = insert b.key b m.closed }, n)
      else (record m { windows = insert b.key b m.windows }, n + 1)

  unfoldable pub restore_buckets : List (Bucket F) → Manager F S × ℕ → Manager F S × ℕ
  unfolding restore_bucket
  restore_buckets [] r = r
  restore_buckets (b ∷ bs) r = restore_buckets bs (restore_bucket b r)

module _ {F S : Type 0} ⦃ops : Store F S⦄ where
  restore_windows : Result Str (List (Bucket F)) → Manager F S → Manager F S × Result Str ℕ
  restore_windows (err e) m = (m, err e)
  restore_windows (ok buckets) m =
      let (m', open_count) = restore_buckets buckets (m, 0) in (m', ok open_count)

  restore_checkpoint : Result Str (Option ℤ) → S → Manager F S → Manager F S × Result Str ℕ
  unfolding restore_windows
  restore_checkpoint (err e) s m = (m, err e)
  restore_checkpoint (ok none) s m = restore_windows (ops.load_all s) m
  restore_checkpoint (ok (some max_ts)) s m =
      restore_windows (ops.load_all s) (record m { max_ts = max_ts })

  unfoldable pub restore : Manager F S → Manager F S × Result Str ℕ
  unfolding restore_checkpoint restore_buckets
  restore m = elim m.store [
    | none ↦ (m, ok 0)
    | some s ↦ restore_checkpoint (ops.load_checkpoint s) s m
  ]

  -- The watermark's part of `add`.
  unfoldable pub advance : Event F → Manager F S → Manager F S
  unfolding write
  advance ev m =
      if ltb_ℤ m.max_ts ev.timestamp
      then write (ops.save_checkpoint ev.timestamp) (record m { max_ts = ev.timestamp })
      else m

  -- `append` to a bucket of the open windows, and of the closed ones.
  unfoldable pub append_open : Key → Bucket F → Manager F S → Manager F S
  unfolding write
  append_open k b m = write (ops.save b) (record m { windows = insert k b m.windows })

  unfoldable pub append_closed : Key → Bucket F → Manager F S → Manager F S
  unfolding write
  append_closed k b m = write (ops.save b) (record m { closed = insert k b m.closed })

  -- The last two cases of the switch: no bucket has the key.
  unfoldable pub place_fresh : Key → Event F → Manager F S → Manager F S
  unfolding append_open append_closed emit_blocking watermark_unix window_end appended
  place_fresh k ev m =
      if leb_ℤ (unix (window_end m k)) (watermark_unix m)
      then (let b = appended (new_bucket F k true) ev in emit_blocking (append_closed k b m) b true)
      else append_open k (appended (new_bucket F k false) ev) m

  unfoldable pub place_closed : Key → Event F → Manager F S → Manager F S
  unfolding place_fresh
  place_closed k ev m = elim (lookup k m.closed) [
    | none ↦ place_fresh k ev m
    | some b ↦ let b' = appended b ev in emit_blocking (append_closed k b' m) b' true
  ]

  unfoldable pub place : Key → Event F → Manager F S → Manager F S
  unfolding place_closed
  place k ev m = elim (lookup k m.windows) [
    | none ↦ place_closed k ev m
    | some b ↦ append_open k (appended b ev) m
  ]

  -- Manager.add
  unfoldable pub add_event : Manager F S → Event F → Manager F S
  unfolding advance key_for place
  add_event m ev = let m' = advance ev m in place (key_for m' ev) ev m'

  -- The window leaves the open ones once its batch is sent.
  unfoldable pub retain : Key → Bucket F → Manager F S → Manager F S
  unfolding write
  retain k b m =
      let b' = record b { closed = true } in
      write (ops.save b') (record m { windows = delete k m.windows; closed = insert k b' m.closed })

  -- The select of closeExpired: `none` if `ctx.Done()` is taken. A nil channel takes no batch.
  unfoldable pub send_batch : ℕ → Key → Bucket F → Manager F S → Option (ℕ × Manager F S)
  unfolding retain batch_of
  send_batch zero k b m = none
  send_batch (suc sends) k b m = elim m.out [
    | none ↦ none
    | some sent ↦
        some (sends, retain k b (record m { out = some (sent ++ batch_of m b false ∷ []) }))
  ]

  -- One round of the first loop of closeExpired; a key that is gone is passed over.
  unfoldable pub close_window : ℤ → Instant → Key → ℕ × Manager F S → Option (ℕ × Manager F S)
  unfolding send_batch is_expired
  close_window wm now k (sends, m) = elim (lookup k m.windows) [
    | none ↦ some (sends, m)
    | some b ↦ if is_expired m wm now k then send_batch sends k b m else some (sends, m)
  ]

  -- The loop: the last manager, and whether the loop came to its end.
  unfoldable pub close_windows : ℤ → Instant → List Key → ℕ × Manager F S → Manager F S × Bool
  close_windows wm now [] (sends, m) = (m, true)
  close_windows wm now (k ∷ ks) (sends, m) = elim (close_window wm now k (sends, m)) [
    | none ↦ (m, false)
    | some next ↦ close_windows wm now ks next
  ]

  unfoldable pub collect : ℤ → Instant → Key → Manager F S → Manager F S
  unfolding is_beyond_horizon write
  collect wm now k m = elim (lookup k m.closed) [
    | none ↦ m
    | some b ↦
        if is_beyond_horizon m wm now k
        then write (ops.delete k) (record m { closed = delete k m.closed })
        else m
  ]

  unfoldable pub gc_closed : ℤ → Instant → List Key → Manager F S → Manager F S
  gc_closed wm now [] m = m
  gc_closed wm now (k ∷ ks) m = gc_closed wm now ks (collect wm now k m)

  -- `order` and `gc_order` are the orders in which the two loops visit the keys.
  unfoldable pub close_expired : ℕ → Instant → List Key → List Key → Manager F S → Manager F S
  close_expired sends now order gc_order m =
      let wm = watermark_unix m in
      let (m', finished) = close_windows wm now order (sends, m) in
      if finished then gc_closed wm now gc_order m' else m'
