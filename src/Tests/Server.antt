-- ===== src/Tests/Server.antt =====
-- Runs of the theorems on the start of the engine.
use stream_rail.Common.{
  ◌↔◌, true, ◌<◌, ◌≤◌, ℕ, ◌≡◌, refl, false, some, none, Option, List, [], ◌∷◌, Str, codes, map, All,
  list_beq, arith,
}
use stream_rail.Common.Int.{pos, ltb_ℤ, scale, floor_mod, ◌-ℤ◌, ◌+ℤ◌}
use stream_rail.Common.Assoc.{lookup, insert}
use stream_rail.Clock.{truncate, from_unix, Duration, minute, second}
use stream_rail.Rule.{Rule, group_key, join, group_value, field_string}
use stream_rail.Rule.Config.{Parsed, YamlConfig}
use stream_rail.Window.{Store, ok}
use stream_rail.Window.Tumbling.{Manager, set_store, new_manager}
use stream_rail.Engine.{
  stream_key, stream_key_beq, engine_window, normalize_group_by, group_func_for, group_fields,
  StreamKey, stream_key_eq,
}
use stream_rail.Engine.Setup.{
  Stage, tumbling, namespace, fields_of, Engine, Stream, new_engine, with_lateness, start_streams,
  grouping,
}
use stream_rail.Engine.Setup.Restart.{IsStored, Continues, start_streams-Continues}
use stream_rail.Badger.{bucket_store}
use stream_rail.Badger.Buckets.{Namespace}
use stream_rail.Badger.Refines.{bucket_table}
use stream_rail.Badger.Recovery.{live, Fits, state_of, live-Resting, empty-Resting}
use stream_rail.Main.{RunConfig, default_config}
use stream_rail.Engine.{ack_barrier, call_done}
use stream_rail.Engine.System.{
  System, Action, accept, deliver, work, perform, perform_all, initial_system, update,
}
use stream_rail.Engine.System.Counts.{occurrences}
use stream_rail.Engine.System.Acked.{reached, acked_by_all}
use stream_rail.Tests.Memory.{Cells, memory}
use stream_rail.Tests.Disk.{event_at, Disk, disk, words, api}
use stream_rail.Tests.Rules.{natural, seconds, no_network, yaml_rule, parsed_rule}
use stream_rail.Tests.Storage.{bare, blank, before_crash}

abbrev with_file : RunConfig ℕ
with_file = record (default_config 20) {
  config_path = codes "rules.yaml";
  metrics_addr = codes ":9090";
}

abbrev one_file : Str → Parsed (YamlConfig ℕ)
one_file path = Parsed.ok (record { rules = yaml_rule ∷ []; notify = [] })

abbrev no_store : Option (Str → Store ℕ Disk)
no_store = none

abbrev stores : Str → Store ℕ Disk
stores = bucket_store

abbrev namespaces : Str → Namespace disk words
namespaces p = record api { prefix = p }

abbrev pub text_of_duration : Duration → Str
text_of_duration d = codes "1m0s"

abbrev pub spike : Rule ℕ
spike = record parsed_rule {
  group_by = codes "service" ∷ [];
  window_size = pos 0;
  window_slide = pos 0;
}

abbrev engine : Engine ℕ Disk
engine = with_lateness second (new_engine minute (spike ∷ []) (some stores))

abbrev pub tumbles : StreamKey
tumbles = record { size = minute; slide = pos 0; group_by = codes "service" }

abbrev slides : StreamKey
slides = record { size = minute; slide = second; group_by = codes "service" }

abbrev groups : List (StreamKey × List (Rule ℕ))
groups = (tumbles, spike ∷ []) ∷ (slides, []) ∷ []

abbrev previous : Manager ℕ Disk
previous = live api second (grouping engine tumbles) before_crash bare

abbrev left : Disk
left = state_of bare previous

before_crash-Fits : All (Fits api (grouping engine tumbles)) before_crash
unfolding truncate from_unix scale floor_mod ◌-ℤ◌ ◌+ℤ◌ group_func_for group_key group_value
    field_string fields_of group_fields lookup with_lateness new_engine insert stream_key_beq
    stream_key engine_window list_beq normalize_group_by join
before_crash-Fits = ((refl, refl, omega arith), tt)

tumbles-IsStored :
    ltb_ℤ (pos 0) tumbles.slide ≡ false
    → IsStored text_of_duration engine stores
        (λ p. bucket_table (namespaces p))
        left
        (λ k. previous)
        tumbles
unfolding with_lateness new_engine namespace
tumbles-IsStored _ =
    let w =
      live-Resting api second (grouping engine tumbles) before_crash bare before_crash-Fits
        (empty-Resting api second (grouping engine tumbles) bare blank) in
    record { mirrors = w.0; setup = w.1 }

start_streams-Continues_example :
    (streams : List (Stream ℕ Disk)) × (start_streams text_of_duration engine left groups
      ≡ ok streams)
    × (map (λ st. (st.key, st.rules)) streams ≡ groups)
    × All
        (λ st.
          Continues text_of_duration engine stores
            (λ p. bucket_table (namespaces p))
            left
            (λ k. previous)
            st.key
            st.stage)
        streams
unfolding with_lateness new_engine
start_streams-Continues_example =
    start_streams-Continues text_of_duration engine stores (λ p. bucket_table (namespaces p)) left
      (λ k. previous) groups refl (tumbles-IsStored, ((λ e. cc), tt))

abbrev pub two_stages : ℕ → Stage ℕ (Cells ℕ)
two_stages i = tumbling (set_store ([], none) (new_manager (Cells ℕ) minute true none))

abbrev actions : List (Action ℕ)
actions = accept true (event_at 5) ∷ deliver ∷ work 0 ∷ deliver ∷ work 1 ∷ []

abbrev final_system : System ℕ (Cells ℕ)
final_system = reached (λ i. memory) 2 two_stages actions

acked_by_all_example :
    ((j : ℕ) → j < 2 → occurrences 0 (final_system.stations j).acked ≤ 1)
    × ((final_system.barriers 0).fired ≤ 1)
    × (((final_system.barriers 0).fired ≡ 1)
        ↔ ((j : ℕ) → j < 2 → occurrences 0 (final_system.stations j).acked ≡ 1))
unfolding perform_all perform initial_system update ack_barrier call_done
acked_by_all_example =
    acked_by_all (λ i. memory) 2 two_stages actions 0 (omega arith) (omega arith) (omega arith) refl

abbrev begun : List (Action ℕ)
begun = accept true (event_at 5) ∷ deliver ∷ work 0 ∷ []
