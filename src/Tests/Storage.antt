-- ===== src/Tests/Storage.antt =====
-- Runs of the theorems on what is stored.
use mathlib.Core.List.{Mem}
use stream_rail.Common.{
  ℕ, ◌*◌, ◌≡◌, ◌≢◌, refl, ap, true, false, none, some, List, [], ◌∷◌, Str, codes, arith, All,
}
use stream_rail.Common.Int.{scale, ◌+ℤ◌, pos, negsuc, ◌-ℤ◌, floor_mod}
use stream_rail.Common.Assoc.{lookup}
use stream_rail.Clock.{Duration, second, from_unix, truncate, nanos, epoch}
use stream_rail.Model.{Event}
use stream_rail.Window.{Key, key_eq, Bucket, ok}
use stream_rail.Window.Contract.{by_key}
use stream_rail.Window.Tumbling.{restore, Manager}
use stream_rail.Window.Tumbling.Restart.{started, Resumes}
use stream_rail.Window.Tumbling.Run.{Signal, receive}
use stream_rail.Window.Tumbling.Run.Durable.{window_key}
use stream_rail.Badger.{
  save, load_all, load_checkpoint, save_checkpoint, bucket_store, bucket_key, key_prefix,
}
use stream_rail.Badger.Keys.{has_prefix}
use stream_rail.Badger.Checkpoint.{load_checkpoint-save_checkpoint}
use stream_rail.Badger.Buckets.{KeyOk, Clean}
use stream_rail.Badger.Refines.{items_at}
use stream_rail.Badger.Recovery.{live, lives, state_of, Fits, IsEmpty, empty-Clean, crash_recovery}
use stream_rail.Badger.Crashes.{Life, after_lives, all_sent, all_received, NotLost, no_event_lost}
use stream_rail.Badger.Namespaces.{
  IsElsewhere, Write, saving, checkpointing, marking, write_all, namespaces_apart,
}
use stream_rail.Badger.Collisions.{below, nested_namespace, short_windows_collide}
use stream_rail.Tests.Disk.{Disk, disk, words, disk_laws, api, event_at, key_at}

abbrev pub service_of : Event ℕ → Str
service_of ev = ev.service

abbrev pub arrival : ℕ → Signal ℕ Str
arrival t = receive (record { id = []; event = event_at t; ack = some [] })

abbrev pub lateness : Duration
lateness = second

abbrev pub bare : Disk
bare = []

abbrev stored : Bucket ℕ
stored = record { key = key_at 0; events = event_at 5 ∷ []; count = 1; closed = false }

pub blank : IsEmpty api bare
unfolding lookup
blank = record { healthy = tt; no_bucket = λ key text e. cc; no_checkpoint = refl }

pub arrival-Fits : Fits api service_of (arrival 130)
unfolding truncate from_unix scale floor_mod ◌-ℤ◌ ◌+ℤ◌
arrival-Fits = (refl, refl, omega arith)

early_arrival-Fits : Fits api service_of (arrival 70)
unfolding truncate from_unix scale floor_mod ◌-ℤ◌ ◌+ℤ◌
early_arrival-Fits = (refl, refl, omega arith)

abbrev pub before_crash : List (Signal ℕ Str)
before_crash = arrival 130 ∷ []

abbrev crashed : Manager ℕ Disk
crashed =
    live api lateness service_of before_crash (lives api lateness service_of (before_crash ∷ []) [])

crash_recovery_example : Resumes crashed (
    restore ⦃ops = bucket_store (codes "1m0s/service")⦄ (
      started
        (pos (60 * nanos))
        lateness
        true
        (some service_of)
        (state_of (lives api lateness service_of (before_crash ∷ []) []) crashed)))
crash_recovery_example =
    crash_recovery api lateness service_of (before_crash ∷ []) before_crash [] blank
      ((arrival-Fits, tt), tt) (arrival-Fits, tt)

load_checkpoint-save_checkpoint_example :
    load_checkpoint
      (codes "1m0s/service")
      (save_checkpoint (codes "1m0s/service") (negsuc 4) bare).0
    ≡ ok (some (negsuc 4))
load_checkpoint-save_checkpoint_example =
    load_checkpoint-save_checkpoint disk_laws (codes "1m0s/service") (negsuc 4) bare tt
      (omega arith)

-- One process that stops after an event, and one that stops between the two writes of the next.
abbrev crashes : List (Life ℕ Str)
crashes =
    record { signals = before_crash; torn = none }
    ∷ record { signals = arrival 70 ∷ []; torn = some (event_at 200) }
    ∷ []

no_event_lost_example :
    (load_all (codes "1m0s/service") (after_lives api lateness service_of crashes bare)
      ≡ ok (items_at api (after_lives api lateness service_of crashes bare)))
    × All
        (NotLost api
          (after_lives api lateness service_of crashes bare)
          (all_sent api lateness service_of crashes bare))
        (all_received crashes)
no_event_lost_example =
    no_event_lost api lateness service_of crashes bare blank
      (((arrival-Fits, tt), tt), (((early_arrival-Fits, tt), omega arith), tt))

abbrev elsewhere : List (Write ℕ)
elsewhere =
    saving (codes "1m0s/region") stored
    ∷ checkpointing (codes "5m0s/service") (pos 7)
    ∷ marking (codes "logs:9") second
    ∷ []

elsewhere_apart : All (IsElsewhere api.prefix) elsewhere
unfolding has_prefix key_prefix
elsewhere_apart =
    ((refl, refl), ((λ e. let bad : true ≡ false = ap (has_prefix (codes "5")) e in cc), (tt, tt)))

namespaces_apart_example :
    Clean api (write_all elsewhere bare)
    × (load_checkpoint (codes "1m0s/service") (write_all elsewhere bare)
        ≡ load_checkpoint (codes "1m0s/service") bare)
    × (load_all (codes "1m0s/service") bare ≡ ok (items_at api bare))
    × (load_all (codes "1m0s/service") (write_all elsewhere bare)
        ≡ ok (items_at api (write_all elsewhere bare)))
    × ((k : Key)
        → KeyOk api k
        → lookup k (by_key (items_at api (write_all elsewhere bare)))
          ≡ lookup k (by_key (items_at api bare)))
namespaces_apart_example =
    namespaces_apart api elsewhere bare elsewhere_apart (empty-Clean api bare blank)

abbrev nested : Disk
nested = (save (below (codes "1m0s/service") (codes "zone")) stored bare).0

nested_namespace_example :
    (bs : List (Bucket ℕ)) × (load_all (codes "1m0s/service") nested ≡ ok bs) × Mem stored bs
nested_namespace_example =
    nested_namespace api (codes "zone") stored refl (refl, tt) (omega arith) bare
      (empty-Clean api bare blank)

-- In the year 2018, with windows of 700 milliseconds.
abbrev early_event : Event ℕ
early_event = record (event_at 0) { timestamp = pos 63_700_000_000 -ℤ epoch }

abbrev late_event : Event ℕ
late_event = record (event_at 0) { timestamp = pos 63_700_000_001 -ℤ epoch }

short_windows_collide_example :
    (window_key (pos 700_000_000) service_of early_event
      ≢ window_key (pos 700_000_000) service_of late_event)
    × (bucket_key (codes "700ms/service") (window_key (pos 700_000_000) service_of early_event)
        ≡ bucket_key (codes "700ms/service") (window_key (pos 700_000_000) service_of late_event))
short_windows_collide_example =
    short_windows_collide (codes "700ms/service") service_of early_event late_event 700_000_000 91
      (omega arith) (omega arith) refl refl refl
