-- ===== src/Main/Configured.antt =====
-- What the engine starts with.
use mathlib.Core.Path.{subst}
use stream_rail.Common.{
  ◌≡◌, ◌≢◌, refl, sym, Option, List, [], ◌∷◌, Str, ◌==◌, list_eq, nat_eq, All, arith, Bool-cases,
  inl, inr,
}
use stream_rail.Rule.{Rule}
use stream_rail.Rule.Config.{Durations, Parsed, YamlConfig, Config, load_config}
use stream_rail.Rule.Config.Accepted.{IsRule, load_config-All}
use stream_rail.Window.{Store, ok, Result-cases}
use stream_rail.Notifier.{Network, Notifier}
use stream_rail.Engine.Setup.{with_lateness, new_engine, with_notifiers, with_metrics}
use stream_rail.Main.{loaded, RunConfig, build_notifiers, error_spike, load_rules, server_engine}

module _ {F : Type 0} ⦃net : Network F⦄ where
  error_spike-IsRule : (threshold : F) → IsRule (error_spike threshold)
  unfolding error_spike
  error_spike-IsRule threshold = record {
    named = λ e. cc;
    sized = omega arith;
    slides = omega arith;
    divides = λ h g. absurd (omega (arith, h));
    func = inl refl;
    field = inl refl;
    op = inl refl;
    emits = inr refl;
  }

  loaded-rules :
      (parsed : Parsed (Config F)) (rs : List (Rule F)) (ns : List (Notifier F))
      → loaded parsed ≡ ok (rs, ns)
      → (c : Config F) × (parsed ≡ Parsed.ok c) × (c.rules ≡ rs)
  unfolding loaded
  loaded-rules (Parsed.err e) rs ns h = cc
  loaded-rules (Parsed.ok c) rs ns h = elim (Result-cases (build_notifiers {F = F} c.notify)) [
    | inl (e, bad) ↦ absurd (ground (arith, bad, h))
    | inr (made, good) ↦ (c, refl, ground (arith, good, h))
  ]

  module _ ⦃ds : Durations⦄ where
    loaded-All :
        (decoded : Parsed (YamlConfig F)) (c : Config F)
        → load_config decoded ≡ Parsed.ok c
        → All IsRule c.rules × (c.rules ≢ [])
    loaded-All (Parsed.err e) c h = unfold load_config in cc
    loaded-All (Parsed.ok yaml) c h = let p = load_config-All yaml c h in (p.0, p.2)

    -- What loadRules returns without an error, for the flags and any file.
    load_rules-All :
        (file : Str → Parsed (YamlConfig F)) (path : Str) (threshold : F) (rs : List (Rule F))
        (ns : List (Notifier F))
        → load_rules file path threshold ≡ ok (rs, ns)
        → All IsRule rs × (rs ≢ [])
    unfolding load_rules
    load_rules-All file path threshold rs ns h = elim (Bool-cases (path == [])) [
      | inl unset ↦
          let one : rs ≡ error_spike threshold ∷ [] = ground (arith, unset, h) in
          subst (λ z. All IsRule z × (z ≢ [])) (sym one)
            ((error_spike-IsRule threshold, tt), (λ e. cc))
      | inr given ↦
          let (c, parsed, same) =
            loaded-rules (load_config (file path)) rs ns (ground (arith, given, h)) in
          subst (λ z. All IsRule z × (z ≢ [])) same (loaded-All (file path) c parsed)
    ]

  server-rules :
      {S : Type 0} (cfg : RunConfig F) (rs : List (Rule F)) (ns : List (Notifier F))
      (store : Option (Str → Store F S))
      → ((server_engine cfg rs ns store).rules ≡ rs)
        × ((server_engine cfg rs ns store).notifiers ≢ [])
  unfolding server_engine with_lateness new_engine with_notifiers with_metrics
  server-rules cfg rs [] store = (ground arith, ground arith)
  server-rules cfg rs (n ∷ ns) store = (ground arith, ground arith)

  -- Where loadRules returns no error, for any flags and file, the engine of runServer has at least one
  -- rule, each as the configuration demands it, the built-in one included, and at least one notifier.
  configured :
      {S : Type 0} ⦃ds : Durations⦄ (file : Str → Parsed (YamlConfig F)) (cfg : RunConfig F)
      (store : Option (Str → Store F S)) (rs : List (Rule F)) (ns : List (Notifier F))
      → load_rules file cfg.config_path cfg.threshold ≡ ok (rs, ns)
      → let e = server_engine cfg rs ns store in
        All IsRule e.rules × (e.rules ≢ []) × (e.notifiers ≢ [])
  configured file cfg store rs ns h =
      let p = load_rules-All file cfg.config_path cfg.threshold rs ns h in
      let q = server-rules cfg rs ns store in (rw (q.0) p.0, rw (q.0) p.1, q.1)
