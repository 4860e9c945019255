-- ===== src/Main/Shutdown/Order.antt =====
-- What runServer closes, in which order, what it leaves open, and which error it returns.
use mathlib.Core.Option
use stream_rail.Common.{
  ◌≡◌, Bool, true, false, not, Option, none, some, List, [], ◌∷◌, ◌++◌, Str, ◌==◌, list_eq, nat_eq,
  if◌then◌else◌,
}
use stream_rail.Rule.{Rule}
use stream_rail.Window.{Result, ok, err}
use stream_rail.Notifier.{Notifier}
use stream_rail.Engine.Setup.{Engine}
use stream_rail.Main.{RunConfig, LoadError}
use stream_rail.Main.Shutdown.{
  Resource, database, metrics_server, signals, nats, Effect, acquire, release, serve_metrics,
  listen, watch, run_engine, closed, broken, Answers, ServerError, not_loaded, not_opened,
  not_started, not_served, Course,
}

same : Resource → Resource → Bool
same database database = true
same metrics_server metrics_server = true
same signals signals = true
same nats nats = true
same _ _ = false

-- Takes a resource off the top; metrics servers above it stay.
top_is : Resource → List Resource → Option (List Resource)
unfolding same
top_is r [] = none
top_is r (q ∷ open_ones) =
    let below = top_is r open_ones in
    if same r q
    then some open_ones
    else if same metrics_server q
    then Option.map (λ rest. q ∷ rest) below
    else none

-- What a course leaves open: a metrics server, or nothing.
abbrev pub left : Bool → List Resource
left true = metrics_server ∷ []
left false = []

-- The first failure of some steps.
unfoldable pub first_failure : List (Option ServerError) → Result ServerError (Unit {0})
first_failure [] = ok tt
first_failure (none ∷ rest) = first_failure rest
first_failure (some e ∷ rest) = err e

abbrev pub failure_of : {A : Type 0} → (Str → ServerError) → Result Str A → Option ServerError
failure_of f (ok a) = none
failure_of f (err e) = some (f e)

module _ {F S : Type 0} where
  -- The open resources after some effects, the last one first; `none` if one is released that is not
  -- the last one but for metrics servers.
  unfoldable pub unwound : List (Effect F S) → List Resource → Option (List Resource)
  unfolding top_is
  unwound [] open_ones = some open_ones
  unwound (acquire r ∷ effects) open_ones = unwound effects (r ∷ open_ones)
  unwound (release r ∷ effects) open_ones = elim (top_is r open_ones) [
    | none ↦ none
    | some rest ↦ unwound effects rest
  ]
  unwound (serve_metrics addr ∷ effects) open_ones = unwound effects open_ones
  unwound (listen addr ∷ effects) open_ones = unwound effects open_ones
  unwound (watch ∷ effects) open_ones = unwound effects open_ones
  unwound (run_engine engine ∷ effects) open_ones = unwound effects open_ones

module _ {F S : Type 0} where
  -- A part of runServer that closes what it opens, whatever is open before, but for a metrics server
  -- if `b`.
  abbrev Leaves : Bool → Course F S → Type 0
  Leaves b c =
      (open_ones : List Resource) → unwound c.effects open_ones ≡ some (left b ++ open_ones)

  module _ (cfg : RunConfig F) (a : Answers F S) where
    -- Whether a metrics server is asked for.
    abbrev asked : Bool
    asked = not (cfg.metrics_addr == [])

    -- Whether a metrics server was started: after loading and, where it is asked for, opening the
    -- database.
    abbrev pub metrics_running : Result LoadError (List (Rule F) × List (Notifier F)) → Bool
    metrics_running (err e) = false
    metrics_running (ok _) =
        if cfg.data_dir == []
        then not (cfg.metrics_addr == [])
        else elim a.opened [ err e ↦ false | ok store ↦ not (cfg.metrics_addr == []) ]

    -- The failures of the steps that the flags ask for, in the order of the steps.
    abbrev pub failures :
        Result LoadError (List (Rule F) × List (Notifier F)) → List (Option ServerError)
    failures loaded =
        elim loaded [ err e ↦ some (not_loaded e) | ok _ ↦ none ]
        ∷ (if cfg.data_dir == [] then none else failure_of not_opened a.opened)
        ∷ (if cfg.nats_url == [] then none else failure_of not_started a.started)
        ∷ elim a.served [ closed ↦ none | broken e ↦ some (not_served e) ]
        ∷ []
