-- ===== src/Window/Sliding.antt =====
-- internal/window/sliding.go: the SlidingManager. The channel, the order of a `range` and the sends
-- that go through are as in Tumbling. `closed_keys` is the set closedK.
pub mod Once
pub mod Cover
pub mod Short
pub mod Entered
use stream_rail.Common.{
  ℕ, zero, suc, ◌+◌, Bool, true, false, ◌&&◌, ◌||◌, Option, none, some, List, [], ◌∷◌, ◌++◌, Str,
  ◌==◌, if◌then◌else◌,
}
use stream_rail.Common.Int.{ℤ, pos, pos_part, ◌-ℤ◌, quot, scale, wrap64, leb_ℤ, ltb_ℤ}
use stream_rail.Common.Assoc.{lookup, insert, delete}
use stream_rail.Clock.{Duration, Instant, from_unix, unix, add, truncate, before}
use stream_rail.Model.{Event}
use stream_rail.Window.{Key, key_eq, Bucket, Batch, appended, new_bucket}
use stream_rail.Window.Tumbling.{group_by_service, send}

pub record SlidingManager (F : Type 0) : Type 0 where
  pub size : Duration
  pub slide : Duration
  pub count : ℕ
  pub group_by : Event F → Str
  pub out : Option (List (Batch F))
  pub windows : List (Key × Bucket F)
  pub closed_keys : List (Key × Unit {0})
  pub max_ts : ℤ

-- NewSlidingManager, for a positive `slide`: a zero one makes the division panic. A quotient below
-- zero gives no round of the loop in `add`, as zero does.
unfoldable pub new_sliding :
    {F : Type 0} → Duration → Duration → Bool → Option (Event F → Str) → SlidingManager F
new_sliding size slide has_out group_by = record {
  size = size;
  slide = slide;
  count = pos_part (quot size (pos_part slide));
  group_by = elim group_by [ none ↦ group_by_service | some f ↦ f ];
  out = if has_out then some [] else none;
  windows = [];
  closed_keys = [];
  max_ts = pos 0;
}

-- The start of the window of round `i`: base.Add(-time.Duration(i) * m.slide)
unfoldable pub start_of : Duration → Instant → ℕ → Instant
start_of slide base i = add base (wrap64 (pos 0 -ℤ scale i slide))

abbrev pub is_done : Option (Unit {0}) → Bool
is_done none = false
is_done (some _) = true

module _ {F : Type 0} where
  unfoldable pub advance_sliding : Event F → SlidingManager F → SlidingManager F
  advance_sliding ev m =
      if ltb_ℤ m.max_ts ev.timestamp then record m { max_ts = ev.timestamp } else m

  unfoldable pub sliding_key : SlidingManager F → Event F → ℕ → Key
  unfolding start_of
  sliding_key m ev i = record {
    rule_name = [];
    group_key = m.group_by ev;
    window_start = start_of m.slide (truncate (from_unix ev.timestamp) m.slide) i;
  }

  unfoldable pub sliding_end : SlidingManager F → Key → Instant
  sliding_end m k = add k.window_start m.size

  -- The end of a round, for a key that is neither passed nor closed.
  unfoldable pub enter : Key → Event F → SlidingManager F → SlidingManager F
  enter k ev m = elim (lookup k m.windows) [
    | none ↦ record m { windows = insert k (appended (new_bucket F k false) ev) m.windows }
    | some b ↦ record m { windows = insert k (appended b ev) m.windows }
  ]

  -- Whether a round takes the event.
  unfoldable pub takes : SlidingManager F → Key → Bool
  unfolding sliding_end
  takes m k =
      if ltb_ℤ (unix (sliding_end m k)) m.max_ts
      then false
      else if is_done (lookup k m.closed_keys)
      then false
      else true

  -- The rounds from `i` on, of which `rounds` are left.
  unfoldable pub enter_all : ℕ → ℕ → Event F → SlidingManager F → SlidingManager F
  enter_all zero i ev m = m
  enter_all (suc rounds) i ev m =
      let k = sliding_key m ev i in
      enter_all rounds (suc i) ev (if takes m k then enter k ev m else m)

  -- SlidingManager.add
  unfoldable pub add_sliding : SlidingManager F → Event F → SlidingManager F
  unfolding advance_sliding sliding_key enter takes enter_all
  add_sliding m ev = let m' = advance_sliding ev m in enter_all m'.count 0 ev m'

  unfoldable pub is_over : SlidingManager F → Instant → Key → Bool
  unfolding sliding_end
  is_over m now k =
      if ltb_ℤ m.max_ts (unix (sliding_end m k)) && before now (sliding_end m k)
      then false
      else true

  unfoldable pub sliding_batch : SlidingManager F → Bucket F → Instant → Batch F
  sliding_batch m b end = record {
    key = b.key;
    window_end = end;
    events = b.events;
    count = b.count;
    corrected = false;
  }

  unfoldable pub send_sliding :
      ℕ → Key → Bucket F → SlidingManager F → Option (ℕ × SlidingManager F)
  unfolding sliding_batch sliding_end
  send_sliding zero k b m = none
  send_sliding (suc sends) k b m = elim m.out [
    | none ↦ none
    | some sent ↦ some (
      sends,
      record m {
        out = some (sent ++ sliding_batch m b (sliding_end m k) ∷ []);
        windows = delete k m.windows;
        closed_keys = insert k tt m.closed_keys;
      },
    )
  ]

  unfoldable pub close_sliding :
      Instant → Key → ℕ × SlidingManager F → Option (ℕ × SlidingManager F)
  close_sliding now k (sends, m) = elim (lookup k m.windows) [
    | none ↦ some (sends, m)
    | some b ↦ if is_over m now k then send_sliding sends k b m else some (sends, m)
  ]

  -- SlidingManager.closeExpired
  unfoldable pub close_expired_sliding :
      Instant → List Key → ℕ × SlidingManager F → SlidingManager F
  close_expired_sliding now [] (sends, m) = m
  close_expired_sliding now (k ∷ ks) (sends, m) = elim (close_sliding now k (sends, m)) [
    | none ↦ m
    | some next ↦ close_expired_sliding now ks next
  ]
