-- ===== src/Tests/Windows.antt =====
-- Runs of the theorems on the windows.
use stream_rail.Common.{
  ◌≢◌, ◌++◌, ℕ, ◌+◌, ◌*◌, ◌<◌, ◌↔◌, ◌≡◌, refl, true, false, some, none, Option, List, [], ◌∷◌,
  codes, arith, length,
}
use stream_rail.Common.Int.{
  ℤ, InInt64, pos, ◌+ℤ◌, ◌-ℤ◌, scale, quot, wrap64, floor_div, floor_mod, ◌≤ℤ◌, ◌<ℤ◌,
}
use stream_rail.Common.Assoc.{lookup, insert}
use stream_rail.Clock.{minute, second, from_unix, unix, truncate, add}
use stream_rail.Model.{Event, float64}
use stream_rail.Window.{Key, key_eq, Bucket, Batch}
use stream_rail.Window.Tumbling.{
  Manager, new_manager, set_store, set_lateness, add_event, close_expired, close_windows, restore,
  key_for, watermark_unix, advance, window_end, batch_of, send, emit_blocking, is_expired,
  group_by_service, gc_closed,
}
use stream_rail.Window.Tumbling.Invariant.{
  IsValid, new_manager-IsValid, add_event-IsValid, close_expired-IsValid,
}
use stream_rail.Window.Tumbling.Accounting.{held, held-add_event, held-close_windows}
use stream_rail.Window.Tumbling.Closing.{Once, visits}
use stream_rail.Window.Tumbling.Durable.{
  Mirrors, IsDurable, add_event-IsDurable, close_expired-IsDurable,
}
use stream_rail.Window.Tumbling.Restart.{started, Resumes, restore-Resumes}
use stream_rail.Window.Tumbling.Retention.{Ticked, close_expired-Ticked}
use stream_rail.Window.Tumbling.Late.{Placed, add_event-Placed, zero_lateness_corrects}
use stream_rail.Window.Tumbling.Run.{Signal, receive, tick, done, Loop, running, run}
use stream_rail.Window.Tumbling.Run.Acks.{acks_of}
use stream_rail.Window.Tumbling.Run.Received.{received, run_acks}
use stream_rail.Window.Tumbling.Secure.{Tracked}
use stream_rail.Window.Sliding.{new_sliding, start_of}
use stream_rail.Window.Sliding.Once.{arrives, ticks, perform_all, perform_all-Once, keys_out}
use stream_rail.Window.Sliding.Entered.{Has, add_sliding-Has}
use stream_rail.Window.Sliding.{SlidingManager, advance_sliding, sliding_key, takes, add_sliding}
use stream_rail.Window.Sliding.Short.{short_windows_silent}
use stream_rail.Window.Sliding.Cover.{start_of-contains}
use stream_rail.Tests.Memory.{Cells, memory, memory_table}

abbrev pub first_event : Event ℕ
first_event = record {
  service = codes "web";
  level = codes "error";
  timestamp = pos 130;
  fields = (codes "latency", float64 7) ∷ [];
}

abbrev pub second_event : Event ℕ
second_event = record {
  service = codes "db";
  level = codes "info";
  timestamp = pos 190;
  fields = (codes "latency", float64 9) ∷ [];
}

abbrev quiet : Manager ℕ (Cells ℕ)
quiet = set_store ([], none) (new_manager (Cells ℕ) minute true none)

quiet-Mirrors : Mirrors memory_table quiet ([], none)
unfolding set_store new_manager lookup
quiet-Mirrors = record {
  valid = record {
    open_distinct = tt;
    closed_distinct = tt;
    disjoint = λ k b h. refl;
    open_buckets = λ k b h. cc;
    closed_buckets = λ k b h. cc;
  };
  storable = λ k b h. cc;
  stored = refl;
  clean = (tt, tt);
  buckets = λ k g. refl;
  reads = refl;
}

abbrev busy : Manager ℕ (Cells ℕ)
busy = add_event quiet first_event

busy-IsDurable : IsDurable memory_table busy
busy-IsDurable =
    add_event-IsDurable memory_table quiet first_event tt tt (([], none), quiet-Mirrors)

restore-Resumes_example :
    Resumes busy
      (restore (started busy.size busy.lateness true (some busy.group_by) busy-IsDurable.0))
restore-Resumes_example = restore-Resumes memory_table busy busy-IsDurable.0 true busy-IsDurable.1

add_event-IsDurable_example : IsDurable memory_table (add_event busy second_event)
add_event-IsDurable_example =
    add_event-IsDurable memory_table busy second_event tt tt busy-IsDurable

close_expired-IsDurable_example : IsDurable memory_table (
    close_expired 1
      (from_unix (pos 200))
      (key_for busy first_event ∷ [])
      (key_for busy first_event ∷ [])
      busy)
close_expired-IsDurable_example =
    close_expired-IsDurable memory_table 1 (from_unix (pos 200)) (key_for busy first_event ∷ [])
      (key_for busy first_event ∷ []) busy busy-IsDurable

-- A window that began 120 seconds after the epoch.
abbrev pub web_key : Key
web_key = record {
  rule_name = [];
  group_key = codes "web";
  window_start = pos 62_135_596_920_000_000_000;
}

abbrev web_bucket : Bucket ℕ
web_bucket = record { key = web_key; events = first_event ∷ []; count = 1; closed = false }

abbrev waiting : Manager ℕ (Cells ℕ)
waiting = record {
  size = minute;
  lateness = pos 0;
  group_by = group_by_service;
  out = some [];
  windows = (web_key, web_bucket) ∷ [];
  closed = [];
  max_ts = pos 190;
  store = none;
}

abbrev late_now : ℤ
late_now = pos 62_135_597_000_000_000_000

abbrev ticked : Manager ℕ (Cells ℕ)
ticked = close_expired 1 late_now (web_key ∷ []) (web_key ∷ []) waiting

close_expired-Ticked_example : Ticked late_now (web_key ∷ []) (web_key ∷ []) [] waiting ticked
unfolding visits
close_expired-Ticked_example =
    close_expired-Ticked 1 late_now (web_key ∷ []) (web_key ∷ []) [] waiting refl (omega arith)
      (refl, tt)

-- The tick has sent and forgotten the window, and the watermark has passed it.
add_event-Placed_example :
    Placed (key_for ticked first_event) first_event (pos 190) ticked (add_event ticked first_event)
    × ((add_event ticked first_event).max_ts ≡ pos 190)
unfolding wrap64 ◌-ℤ◌ ◌+ℤ◌ quot close_expired close_windows gc_closed watermark_unix is_expired
    stream_rail.Window.Tumbling.close_window stream_rail.Window.Tumbling.collect
    stream_rail.Window.key_beq stream_rail.Common.list_beq lookup window_end add unix floor_div
    insert
add_event-Placed_example = add_event-Placed ticked first_event

held-add_event_example : held (λ ev. 1) (add_event waiting first_event) ≡ 1 + held (λ ev. 1) waiting
held-add_event_example = held-add_event (λ ev. 1) waiting first_event

abbrev blank : Manager ℕ (Cells ℕ)
blank = new_manager (Cells ℕ) minute true none

blank-IsValid : IsValid blank
blank-IsValid = new_manager-IsValid (Cells ℕ) minute true none

add_event-IsValid_example : IsValid (add_event blank first_event)
add_event-IsValid_example = add_event-IsValid blank first_event blank-IsValid

loaded-IsValid : IsValid (add_event blank first_event)
loaded-IsValid = add_event-IsValid blank first_event blank-IsValid

close_expired-IsValid_example :
    IsValid (close_expired 1 late_now (web_key ∷ []) (web_key ∷ []) (add_event blank first_event))
close_expired-IsValid_example =
    close_expired-IsValid 1 late_now (web_key ∷ []) (web_key ∷ []) (add_event blank first_event)
      loaded-IsValid

held-close_windows_example :
    held
      (λ ev. 1)
      (close_windows (pos 190) late_now (web_key ∷ []) (1, add_event blank first_event)).0
    ≡ held (λ ev. 1) (add_event blank first_event)
held-close_windows_example =
    held-close_windows (λ ev. 1) (pos 190) late_now (web_key ∷ []) 1 (add_event blank first_event)
      loaded-IsValid

start_of-contains_example :
    let start = start_of (pos 60) (truncate (pos 130) (pos 60)) 1 in
    ((start ≤ℤ pos 130) × (pos 130 <ℤ start +ℤ pos (3 * 60))) ↔ (1 < 3)
unfolding scale ◌-ℤ◌
start_of-contains_example =
    start_of-contains (pos 130) 60 3 1 (omega arith) (omega arith, omega arith)

perform_all-Once_example :
    let m =
      perform_all
        (arrives first_event ∷ ticks late_now (web_key ∷ []) 1 ∷ arrives first_event ∷ [])
        (new_sliding minute second true none) in
    Once (keys_out m) × ((k : Key) → visits (keys_out m) k ≡ true → lookup k m.windows ≡ none)
perform_all-Once_example =
    perform_all-Once minute second true none
      (arrives first_event ∷ ticks late_now (web_key ∷ []) 1 ∷ arrives first_event ∷ [])

in_range : InInt64 (pos 180)
in_range = (omega arith, omega arith)

close_expired-Ticked_run : Ticked late_now (web_key ∷ []) (web_key ∷ []) [] waiting ticked
unfolding visits
close_expired-Ticked_run =
    close_expired-Ticked 1 late_now (web_key ∷ []) (web_key ∷ []) [] waiting refl (omega arith)
      (refl, tt)

zero_lateness_corrects_example :
    (add_event ticked first_event).out
    ≡ send
        (record {
          key = key_for ticked first_event;
          window_end = window_end (advance first_event ticked) (key_for ticked first_event);
          events = first_event ∷ [];
          count = 1;
          corrected = true;
        })
        ticked.out
unfolding visits close_expired close_windows key_for truncate from_unix scale floor_mod window_end
    add unix floor_div lookup is_expired advance watermark_unix quot wrap64 gc_closed ◌-ℤ◌ ◌+ℤ◌
    stream_rail.Window.Tumbling.close_window stream_rail.Window.key_beq stream_rail.Common.list_beq
    stream_rail.Window.Tumbling.collect insert
zero_lateness_corrects_example =
    zero_lateness_corrects late_now (web_key ∷ []) (web_key ∷ []) [] waiting ticked first_event
      web_bucket close_expired-Ticked_run refl in_range refl refl refl refl refl

short_windows_silent_example :
    let m =
      perform_all
        (arrives first_event ∷ ticks late_now [] 1 ∷ [])
        (new_sliding (pos 60) (pos 90) true none) in
    (m.windows ≡ []) × (m.out ≡ some [])
short_windows_silent_example =
    short_windows_silent 60 90 true none (arrives first_event ∷ ticks late_now [] 1 ∷ [])
      (omega arith)

-- An event with the acknowledgement 7, a tick, the end of the context, and an event after it.
abbrev signals : List (Signal ℕ ℕ)
signals =
    receive (record { id = []; event = first_event; ack = some 7 })
    ∷ tick late_now [] [] 0
    ∷ done
    ∷ receive (record { id = []; event = second_event; ack = some 8 })
    ∷ []

abbrev started_loop : Loop ℕ (Cells ℕ) ℕ
started_loop = record { manager = blank; acked = []; exit = running }

run_acks_example :
    ((run signals started_loop).acked ≡ 7 ∷ [])
    × Tracked [] (first_event ∷ []) (run signals started_loop).manager
    × IsValid (run signals started_loop).manager
unfolding acks_of received new_manager
run_acks_example =
    run_acks [] signals started_loop [] refl blank-IsValid
      (record { sent = []; channel = refl; secure = tt })

abbrev slides : SlidingManager ℕ
slides = new_sliding minute second true none

add_sliding-Has_example :
    ((i : ℕ)
      → i < slides.count
      → takes (advance_sliding first_event slides) (sliding_key slides first_event i) ≡ true
      → Has first_event (sliding_key slides first_event i) (add_sliding slides first_event))
    × ((j : Key)
        → ((i : ℕ)
            → i < slides.count
            → takes (advance_sliding first_event slides) (sliding_key slides first_event i) ≡ true
            → sliding_key slides first_event i ≢ j)
        → lookup j (add_sliding slides first_event).windows ≡ lookup j slides.windows)
add_sliding-Has_example = add_sliding-Has first_event slides
