-- ===== src/Engine/Setup/Restart.antt =====
-- An engine that is started again on the store of the one before it.
use stream_rail.Common.{
  ◌≡◌, refl, ap, ◌∙◌, true, false, some, List, [], ◌∷◌, Str, map, All, arith, Bool-cases, inl, inr,
}
use stream_rail.Common.Int.{pos, ltb_ℤ}
use stream_rail.Common.Assoc.{lookup}
use stream_rail.Clock.{Duration}
use stream_rail.Rule.{Floats, Rule}
use stream_rail.Window.{Key, key_eq, Store, ok}
use stream_rail.Window.Contract.{Table}
use stream_rail.Window.Tumbling.{Manager, restore}
use stream_rail.Window.Tumbling.Durable.{Mirrors}
use stream_rail.Window.Tumbling.Restart.{started}
use stream_rail.Window.Tumbling.Run.Durable.{HasSetup, restarted-Resumes}
use stream_rail.Window.Sliding.{new_sliding}
use stream_rail.Engine.{StreamKey}
use stream_rail.Engine.Setup.{
  Engine, Stream, Stage, tumbling, sliding, namespace, grouping, start_stage, start_streams,
}

module _ {F S : Type 0} ⦃fl : Floats F⦄ (show : Duration → Str) (e : Engine F S)
    (buckets : Str → Store F S) (tables : (p : Str) → Table (buckets p)) (s : S)
    (before : StreamKey → Manager F S) where
  -- A manager of the engine before, set up as this engine does it, whose state the store has.
  pub record IsStored (k : StreamKey) : Type 0 where
    pub mirrors : Mirrors (tables (namespace show k)) (before k) s
    pub setup : HasSetup k.size e.lateness (grouping e k) (before k)

  -- A stage with the watermark and the windows of the stage before; a sliding one starts anew.
  abbrev pub Continues : StreamKey → Stage F S → Type 0
  Continues k (tumbling m) =
      (m.max_ts ≡ (before k).max_ts)
      × (m.store ≡ some s)
      × ((j : Key) → lookup j m.windows ≡ lookup j (before k).windows)
      × ((j : Key) → lookup j m.closed ≡ lookup j (before k).closed)
  Continues k (sliding m) = m ≡ new_sliding k.size k.slide true (some (grouping e k))

  start_stage-Continues :
      (k : StreamKey)
      → e.store ≡ some buckets
      → (ltb_ℤ (pos 0) k.slide ≡ false → IsStored k)
      → (stage : Stage F S) × (start_stage show e s k ≡ ok stage) × Continues k stage
  unfolding start_stage
  start_stage-Continues k h st = elim (Bool-cases (ltb_ℤ (pos 0) k.slide)) [
    | inl slides ↦ (
      sliding (new_sliding k.size k.slide true (some (grouping e k))),
      ground (arith, slides),
      refl,
    )
    | inr tumbles ↦
        let t = tables (namespace show k) in
        let there = st tumbles in
        let r =
          restarted-Resumes t k.size e.lateness (grouping e k) (before k) s there.mirrors
            there.setup in
        (
          tumbling
              (restore ⦃ops = buckets (namespace show k)⦄
                (started k.size e.lateness true (some (grouping e k)) s)).0,
          ground (arith, tumbles, h, r.succeeds.1),
          (r.watermark, r.same_store ∙ there.mirrors.stored, r.opens, r.closes),
        )
  ]

  -- For an engine with a store each of whose namespaces keeps the contract of the Manager, where the
  -- engine before had, for each of the groups that is not of a sliding stream, a manager set up alike
  -- whose state the store has: Run starts a stage for every group, in the order of the visit and with
  -- its rules; a tumbling one has the watermark and, under each key, the open window or the closed one
  -- of the manager before, and a sliding one starts with nothing.
  pub start_streams-Continues :
      (groups : List (StreamKey × List (Rule F)))
      → e.store ≡ some buckets
      → All (λ g. ltb_ℤ (pos 0) g.0.slide ≡ false → IsStored g.0) groups
      → (streams : List (Stream F S)) × (start_streams show e s groups ≡ ok streams)
        × (map (λ st. (st.key, st.rules)) streams ≡ groups)
        × All (λ st. Continues st.key st.stage) streams
  unfolding start_streams
  start_streams-Continues [] h st = ([], refl, refl, tt)
  start_streams-Continues ((k, rs) ∷ groups) h st =
      let head = start_stage-Continues k h st.0 in
      let tail = start_streams-Continues groups h st.1 in
      (
        record { key = k; rules = rs; stage = head.0 } ∷ tail.0,
        ground (arith, head.1, tail.1),
        ap (λ l. (k, rs) ∷ l) tail.2,
        (head.2, tail.3),
      )
