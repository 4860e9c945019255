-- ===== src/Metrics.antt =====
-- internal/metrics/metrics.go: the counters that New makes and registers.
use stream_rail.Common.{refl, List, [], ◌∷◌, Str, codes, map, list_eq, list_beq, nat_eq}
use stream_rail.Common.Assoc.{lookup, Distinct}

-- The options of a counter, and the labels of a vector of counters.
record Collector : Type 0 where
  pub name : Str
  pub help : Str
  pub labels : List Str

record Metrics : Type 0 where
  pub events_total : Collector
  pub deduped_total : Collector
  pub windows_closed_total : Collector
  pub late_events_total : Collector

abbrev new_metrics : Metrics
new_metrics = record {
  events_total = record {
    name = codes "streamrail_events_total";
    help = codes "Total number of events accepted into the pipeline.";
    labels = codes "source" ∷ [];
  };
  deduped_total = record {
    name = codes "streamrail_deduped_total";
    help = codes "Total number of NATS messages skipped by deduplication.";
    labels = [];
  };
  windows_closed_total = record {
    name = codes "streamrail_windows_closed_total";
    help = codes "Total number of tumbling windows flushed downstream.";
    labels = codes "corrected" ∷ [];
  };
  late_events_total = record {
    name = codes "streamrail_late_events_total";
    help = codes "Total number of events that arrived after their window closed.";
    labels = [];
  };
}

-- What New registers, in the order of MustRegister.
abbrev registered : Metrics → List Collector
registered m = m.events_total ∷ m.deduped_total ∷ m.windows_closed_total ∷ m.late_events_total ∷ []

-- The counters have names of their own, so that a fresh registry takes them all.
registered-Distinct : Distinct (map (λ c. (c.name, c)) (registered new_metrics))
unfolding lookup list_beq
registered-Distinct = (refl, (refl, (refl, (refl, tt))))
