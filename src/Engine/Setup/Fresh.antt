-- ===== src/Engine/Setup/Fresh.antt =====
-- The managers that Run starts have an open channel, and have sent nothing.
use mathlib.Core.Path.{subst}
use stream_rail.Common.{
  ℕ, ◌≡◌, true, refl, Option, none, some, List, [], ◌∷◌, Str, All, inl, inr, Bool-cases, nat_eq,
}
use stream_rail.Common.Int.{pos, ltb_ℤ}
use stream_rail.Clock.{Duration}
use stream_rail.Rule.{Floats, Rule}
use stream_rail.Window.{Store, Result, ok, err, Result-cases}
use stream_rail.Window.Tumbling.{Manager, restore, new_manager, set_lateness, set_store}
use stream_rail.Window.Tumbling.Restart.{started}
use stream_rail.Window.Tumbling.Restart.Channel.{restore-out}
use stream_rail.Window.Sliding.{new_sliding}
use stream_rail.Engine.{StreamKey}
use stream_rail.Engine.Setup.{
  Engine, Stage, tumbling, Stream, namespace, start_stage, start_streams, grouping, restored,
}
use stream_rail.Engine.System.Kept.Steps.{IsFresh}

module _ {F S : Type 0} ⦃fl : Floats F⦄ (show : Duration → Str) (e : Engine F S) (s : S) where
  abbrev FreshResult : Result Str (Stage F S) → Type 0
  FreshResult (ok stage) = IsFresh stage
  FreshResult (err f) = Unit

  restored-Fresh :
      (k : StreamKey) (r : Manager F S × Result Str ℕ)
      → r.0.out ≡ some []
      → FreshResult (restored show e s k r)
  unfolding restored
  restored-Fresh k (m, ok n) h = h
  restored-Fresh k (m, err f) h = tt

  tumbling-Fresh :
      (k : StreamKey) (store : Option (Str → Store F S))
      → FreshResult (elim store [
        | none ↦
            ok
              (tumbling (set_lateness e.lateness (new_manager S k.size true (some (grouping e k)))))
        | some buckets ↦ restored show e s k (
            restore ⦃ops = buckets (namespace show k)⦄
              (started k.size e.lateness true (some (grouping e k)) s))
      ])
  unfolding new_manager set_lateness set_store
  tumbling-Fresh k none = refl
  tumbling-Fresh k (some buckets) = restored-Fresh k _ (
      restore-out ⦃ops = buckets (namespace show k)⦄
        (started k.size e.lateness true (some (grouping e k)) s))

  start_stage-Fresh : (k : StreamKey) → FreshResult (start_stage show e s k)
  unfolding start_stage
  start_stage-Fresh k = elim (Bool-cases (ltb_ℤ (pos 0) k.slide)) [
    | inl slides ↦ rw (slides, FreshResult) (unfold new_sliding in refl)
    | inr tumbles ↦ rw (tumbles) (tumbling-Fresh k e.store)
  ]

  abbrev pub AllFresh : Result Str (List (Stream F S)) → Type 0
  AllFresh (ok streams) = All (λ st. IsFresh st.stage) streams
  AllFresh (err f) = Unit

  -- Each manager that Run starts has an open channel on which nothing is sent.
  pub start_streams-AllFresh :
      (groups : List (StreamKey × List (Rule F))) → AllFresh (start_streams show e s groups)
  unfolding start_streams
  start_streams-AllFresh [] = tt
  start_streams-AllFresh ((k, rs) ∷ groups) = elim (Result-cases (start_stage show e s k)) [
    | inl (f, bad) ↦ rw (bad, AllFresh) tt
    | inr (stage, good) ↦ elim (Result-cases (start_streams show e s groups)) [
      | inl (f, bad) ↦ rw (good, bad, AllFresh) tt
      | inr (rest, others) ↦
          rw (good, others, AllFresh)
            (
              subst FreshResult good (start_stage-Fresh k),
              subst AllFresh others (start_streams-AllFresh groups),
            )
    ]
  ]
