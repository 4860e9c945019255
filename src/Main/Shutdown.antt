-- ===== src/Main/Shutdown.antt =====
-- cmd/streamrail/main.go: runServer, as the sequence of what it opens, starts and closes, for the
-- answers of store.Open, Start of the NATS ingester, and ListenAndServe. A `defer` is the release at
-- the end of the steps after it.
pub mod Order
use stream_rail.Common.{
  ℕ, ◌≡◌, refl, sym, ap, ◌∙◌, Bool, true, false, not, Option, none, some, List, [], ◌∷◌, ◌++◌, Str,
  ◌==◌, list_eq, nat_eq, arith, if◌then◌else◌, Bool-cases, Option-cases, inl, inr,
}
use stream_rail.Rule.{Rule}
use stream_rail.Rule.Config.{Durations, Parsed, YamlConfig}
use stream_rail.Window.{Store, Result, ok, err}
use stream_rail.Notifier.{Network, Notifier}
use stream_rail.Engine.Setup.{Engine}
use stream_rail.Main.{RunConfig, LoadError, load_rules, server_engine}

-- The database, the metrics server, the signal handler, and the NATS ingester.
pub data Resource : Type 0 where
  database metrics_server signals nats : Resource

-- `watch` is the goroutine that shuts the server down when the context ends, and `run_engine` that
-- of the engine.
pub data Effect (F S : Type 0) : Type 0 where
  acquire release : Resource → Effect F S
  serve_metrics listen : Str → Effect F S
  watch : Effect F S
  run_engine : Engine F S → Effect F S

-- What ListenAndServe returns; `closed` is http.ErrServerClosed.
pub data Served : Type 0 where
  closed : Served
  broken : Str → Served

pub record Answers (F S : Type 0) : Type 0 where
  pub file : Str → Parsed (YamlConfig F)
  pub opened : Result Str (Str → Store F S)
  pub started : Result Str (Unit {0})
  pub served : Served

pub data ServerError : Type 0 where
  not_loaded : LoadError → ServerError
  not_opened not_started not_served : Str → ServerError

-- The effects of a part of runServer, and what it returns.
pub record Course (F S : Type 0) : Type 0 where
  pub effects : List (Effect F S)
  pub result : Result ServerError (Unit {0})

abbrev failing : {F S : Type 0} → ServerError → Course F S
failing e = record { effects = []; result = err e }

-- The steps between the opening and the deferred closing of a resource.
with_resource : {F S : Type 0} → Resource → Course F S → Course F S
with_resource r c = record c { effects = acquire r ∷ (c.effects ++ release r ∷ []) }

abbrev served_result : Served → Result ServerError (Unit {0})
served_result closed = ok tt
served_result (broken e) = err (not_served e)

module _ {F S : Type 0} (cfg : RunConfig F) where
  serve : Engine F S → Served → Course F S
  serve engine served = record {
    effects = watch ∷ run_engine engine ∷ listen cfg.addr ∷ [];
    result = served_result served;
  }

  started_nats : Engine F S → Result Str (Unit {0}) → Served → Course F S
  unfolding serve with_resource
  started_nats engine (err e) served = failing (not_started e)
  started_nats engine (ok _) served = with_resource nats (serve engine served)

  with_nats : Engine F S → Result Str (Unit {0}) → Served → Course F S
  unfolding serve started_nats
  with_nats engine started served =
      if cfg.nats_url == [] then serve engine served else started_nats engine started served

  -- The goroutine of the metrics server, which has no Shutdown and no Close.
  with_metrics_server : Course F S → Course F S
  with_metrics_server c = if cfg.metrics_addr == [] then c else record c {
    effects = acquire metrics_server ∷ serve_metrics cfg.metrics_addr ∷ c.effects;
  }

  -- From the metrics on, with the rules, the notifiers and the store.
  with_engine :
      List (Rule F) → List (Notifier F) → Option (Str → Store F S) → Answers F S → Course F S
  unfolding with_metrics_server with_resource with_nats
  with_engine rules notifiers store a =
      let engine = server_engine cfg rules notifiers store in
      with_metrics_server (with_resource signals (with_nats engine a.started a.served))

  opened_database :
      List (Rule F) → List (Notifier F) → Result Str (Str → Store F S) → Answers F S → Course F S
  unfolding with_engine with_resource
  opened_database rules notifiers (err e) a = failing (not_opened e)
  opened_database rules notifiers (ok store) a =
      with_resource database (with_engine rules notifiers (some store) a)

  loaded_rules : Result LoadError (List (Rule F) × List (Notifier F)) → Answers F S → Course F S
  unfolding with_engine opened_database
  loaded_rules (err e) a = failing (not_loaded e)
  loaded_rules (ok (rules, notifiers)) a =
      if cfg.data_dir == []
      then with_engine rules notifiers none a
      else opened_database rules notifiers a.opened a

  -- runServer
  unfoldable pub run_server : ⦃ds : Durations⦄ ⦃net : Network F⦄ → Answers F S → Course F S
  unfolding loaded_rules
  run_server a = loaded_rules (load_rules a.file cfg.config_path cfg.threshold) a
