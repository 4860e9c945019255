-- ===== src/Main.antt =====
-- cmd/streamrail/main.go: the flags, the rules and the notifiers that they give, and the engine and
-- the ingesters that they set up. The servers, the signals and the prints are not modelled.
pub mod Configured
pub mod Shutdown
use stream_rail.Common.{
  ℕ, suc, zero, ◌+◌, ◌*◌, Bool, true, false, not, Option, none, some, List, [], ◌∷◌, ◌++◌, Str,
  codes, ◌==◌, list_eq, nat_eq, if◌then◌else◌,
}
use stream_rail.Common.Int.{ℤ, pos}
use stream_rail.Clock.{Duration, minute}
use stream_rail.Model.{Envelope}
use stream_rail.Rule.{Floats, Rule, NotifyConfig, agg_count, op_gt}
use stream_rail.Rule.Config.{Durations, Parsed, ConfigError, Config, YamlConfig, load_config}
use stream_rail.Window.{Store, Result, ok, err}
use stream_rail.Notifier.{Network, Notifier, console, webhook, new_webhook}
use stream_rail.Engine.Setup.{Engine, new_engine, with_notifiers, with_lateness, with_metrics}
use stream_rail.Ingester.{
  Chan, AckCall, HttpIngester, with_events_counter, NatsIngester, new_nats, with_deduper,
  with_dedupe_ttl, with_counters, default_dedupe_ttl,
}

-- The flags of the run command.
pub record RunConfig (F : Type 0) : Type 0 where
  pub addr : Str
  pub window_size : Duration
  pub threshold : F
  pub config_path : Str
  pub data_dir : Str
  pub nats_url : Str
  pub nats_subject : Str
  pub lateness : Duration
  pub nats_dedupe_ttl : Duration
  pub metrics_addr : Str

-- The defaults of the flags; `twenty` is the float 20.
abbrev pub default_config : {F : Type 0} → F → RunConfig F
default_config twenty = record {
  addr = codes ":8080";
  window_size = pos (5 * 60_000_000_000);
  threshold = twenty;
  config_path = [];
  data_dir = [];
  nats_url = [];
  nats_subject = codes "application_logs";
  lateness = pos 0;
  nats_dedupe_ttl = default_dedupe_ttl;
  metrics_addr = [];
}

-- The errors of loadRules.
pub data LoadError : Type 0 where
  bad_config : ConfigError → LoadError
  bad_webhook : Str → LoadError

module _ {F : Type 0} ⦃net : Network F⦄ where
  -- The loop of buildNotifiers; an entry of another type is passed over.
  unfoldable pub build_notifiers : List NotifyConfig → Result LoadError (List (Notifier F))
  build_notifiers [] = ok []
  build_notifiers (nc ∷ ncs) =
      let rest = build_notifiers ncs in
      if nc.kind == codes "console"
      then elim rest [ err e ↦ err e | ok ns ↦ ok (console ∷ ns) ]
      else if nc.kind == codes "webhook"
      then elim (new_webhook nc.url nc.method nc.headers nc.template) [
        | err e ↦ err (bad_webhook (codes "webhook notifier: " ++ e))
        | ok w ↦ elim rest [ err e ↦ err e | ok ns ↦ ok (webhook w ∷ ns) ]
      ]
      else rest

  -- The built-in rule.
  unfoldable pub error_spike : F → Rule F
  error_spike threshold = record {
    name = codes "error-spike";
    filter = record { field = codes "level"; eq = codes "ERROR" };
    group_by = codes "service" ∷ [];
    agg_func = agg_count;
    agg_field = [];
    having = record { op = op_gt; value = threshold };
    emit = codes "console";
    window_size = pos 0;
    window_slide = pos 0;
  }

  loaded : Parsed (Config F) → Result LoadError (List (Rule F) × List (Notifier F))
  loaded (Parsed.err e) = err (bad_config e)
  loaded (Parsed.ok cfg) = elim (build_notifiers cfg.notify) [
    | err e ↦ err e
    | ok ns ↦ ok (cfg.rules, ns)
  ]

  -- loadRules; `file` is what opening and decoding the file at a path gives.
  unfoldable pub load_rules :
      ⦃ds : Durations⦄
      → (Str → Parsed (YamlConfig F))
      → Str
      → F
      → Result LoadError (List (Rule F) × List (Notifier F))
  unfolding loaded
  load_rules file path threshold =
      if path == [] then ok (error_spike threshold ∷ [], []) else loaded (load_config (file path))

module _ {F S : Type 0} where
  replaced : List (Notifier F) → Engine F S → Engine F S
  replaced [] e = e
  replaced (n ∷ ns) e = with_notifiers (n ∷ ns) e

  -- The engine that runServer builds from what it loaded.
  unfoldable pub server_engine :
      RunConfig F → List (Rule F) → List (Notifier F) → Option (Str → Store F S) → Engine F S
  unfolding replaced
  server_engine cfg rules ns store =
      let e = replaced ns (with_lateness cfg.lateness (new_engine cfg.window_size rules store)) in
      if cfg.metrics_addr == [] then e else with_metrics e

-- The HTTP ingester, with the counter of the source "http" at zero.
unfoldable pub server_http : {F A : Type 0} → RunConfig F → Chan (Envelope F A) → HttpIngester F A
server_http {F} {A} cfg ch =
    let h : HttpIngester F A = record { ch = ch; events_counter = none } in
    if cfg.metrics_addr == [] then h else with_events_counter 0 h

-- The NATS ingester where an address is given: deduplication only with a database.
unfoldable pub server_nats :
    {F D : Type 0} → RunConfig F → Option D → Chan (Envelope F AckCall) → Option (NatsIngester F D)
server_nats {F} {D} cfg db ch =
    if cfg.nats_url == []
    then none
    else let n = new_nats ch in
      let n' : NatsIngester F D = elim db [
        | none ↦ n
        | some d ↦ with_dedupe_ttl cfg.nats_dedupe_ttl (with_deduper d n)
      ] in
      some (if cfg.metrics_addr == [] then n' else with_counters 0 0 n')
