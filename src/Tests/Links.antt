-- ===== src/Tests/Links.antt =====
-- Runs of the theorems on what is opened and closed.
use stream_rail.Common.{
  ℕ, refl, Bool, true, false, [], ◌∷◌, codes, ◌==◌, ◌&&◌, nat_eq, nat_beq_iff, arith, if◌then◌else◌,
}
use stream_rail.Window.{ok, err}
use stream_rail.Ingester.{not_found}
use stream_rail.Ingester.Connection.{
  Client, KeepsConnections, NatsLink, new_link, start, Outcome, start-Outcome,
}
use stream_rail.Rule.Config.{Parsed}
use stream_rail.Badger.{bucket_store}
use stream_rail.Main.{RunConfig, default_config}
use stream_rail.Main.Shutdown.{Answers, broken}
use stream_rail.Tests.Disk.{Disk, disk, words}
use stream_rail.Tests.Rules.{natural, seconds, no_network, yaml_rule}

-- A client of at most one connection, whose server has no stream yet.
abbrev single : Client Bool
single = record {
  connect = λ url busy. if busy then (true, err (codes "busy")) else (true, ok 0);
  jet_stream = λ c w. (w, ok tt);
  stream_info = λ c subject w. (w, not_found);
  add_stream = λ c subject w. (w, ok tt);
  subscribe = λ c subject durable w. (w, ok 7);
  drain_subscription = λ s w. w;
  drain = λ c w. w;
  close = λ c w. if c == 0 then false else w;
}

single_keeps : KeepsConnections single
single_keeps = record {
  is_open = λ c w. (c == 0) && w;
  connect_new = λ url w c e. ground (arith, nat_beq_iff c 0, e);
  connect_none = λ url e w f d. ground (arith, f);
  jet_stream_leaves = λ c d w. refl;
  stream_info_leaves = λ c d subject w. refl;
  add_stream_leaves = λ c d subject w. refl;
  subscribe_leaves = λ c d subject durable w. refl;
  drain_subscription_leaves = λ s d w. refl;
  drain_others = λ c d w other. refl;
  close_own = λ c d w. ground (arith, nat_beq_iff c d, nat_beq_iff c 0, nat_beq_iff d 0);
}

abbrev link : NatsLink
link = new_link (codes "nats://localhost:4222") (codes "application_logs")

start-Outcome_example : Outcome single_keeps false link (start single link false)
start-Outcome_example = start-Outcome single_keeps false link

-- With a database, a metrics server and NATS, where the server ends by an error.
abbrev flags : RunConfig ℕ
flags = record (default_config 20) {
  data_dir = codes "state";
  metrics_addr = codes ":9090";
  nats_url = codes "nats://localhost:4222";
}

abbrev answers : Answers ℕ Disk
answers = record {
  file = λ path. Parsed.ok (record { rules = yaml_rule ∷ []; notify = [] });
  opened = ok bucket_store;
  started = ok tt;
  served = broken (codes "address in use");
}
