-- ===== src/Badger/Recovery.antt =====
-- Crashes and restarts of a tumbling Manager on a database.
use mathlib.Core.Path.{subst}
use stream_rail.Common.{
  ℕ, ◌≡◌, refl, sym, ◌∙◌, true, false, Option-cases, inl, inr, none, some, List, [], ◌∷◌, Str, All,
  arith,
}
use stream_rail.Common.Int.{pos, InInt64}
use stream_rail.Common.Assoc.{lookup}
use stream_rail.Clock.{Duration, from_unix}
use stream_rail.Clock.Truncate.{truncate-on_grid}
use stream_rail.Model.{Event}
use stream_rail.Window.{Key, key_eq, Result}
use stream_rail.Window.Tumbling.{Manager, new_manager, set_store, set_lateness, restore}
use stream_rail.Window.Tumbling.Invariant.{Holds}
use stream_rail.Window.Tumbling.Durable.{Mirrors, Reads}
use stream_rail.Window.Tumbling.Restart.{started, Resumes}
use stream_rail.Window.Tumbling.Restart.Again.{resumed-Mirrors}
use stream_rail.Window.Tumbling.Run.{Signal, done, receive, in_closed, tick, running, run}
use stream_rail.Window.Tumbling.Run.Durable.{
  HasSetup, Persists, CanHold, window_key, run-Persists, restarted-Resumes,
}
use stream_rail.Badger.{Database, Json, key_prefix, checkpoint_key, bucket_key, bucket_store}
use stream_rail.Badger.Keys.{has_prefix, has_prefix-bucket_key}
use stream_rail.Badger.Buckets.{Namespace, Clean, bucket_at, checkpoint}
use stream_rail.Badger.Refines.{bucket_table}

nothing_held : {F : Type 0} (window_of : Event F → Key) → Holds window_of [] []
unfolding lookup
nothing_held window_of = record {
  open_distinct = tt;
  closed_distinct = tt;
  disjoint = λ k b e. cc;
  open_buckets = λ k b e. absurd (cc);
  closed_buckets = λ k b e. absurd (cc);
}

-- The database that a manager has, or the one before it.
abbrev pub state_of : {F D : Type 0} → D → Manager F D → D
state_of d m = elim m.store [ none ↦ d | some d' ↦ d' ]

module _ {F D : Type 0} ⦃db : Database D⦄ ⦃json : Json F⦄ (ns : Namespace db json) where
  open ns use {laws, texts, prefix, size}

  -- A database with nothing of the namespace.
  pub record IsEmpty (d : D) : Type 0 where
    pub healthy : laws.Healthy d
    pub no_bucket :
        (key text : Str)
        → laws.value_at d key ≡ some text
        → has_prefix (key_prefix prefix) key ≡ false
    pub no_checkpoint : laws.value_at d (checkpoint_key prefix) ≡ none

  pub empty-Clean : (d : D) → IsEmpty d → Clean ns d
  empty-Clean d e = record {
    healthy = e.healthy;
    well_formed = λ key text found inside. cc (e.no_bucket key text found, inside);
    eight = λ text found. cc (e.no_checkpoint, found);
  }

  empty-bucket_at : (d : D) (k : Key) → IsEmpty d → bucket_at ns d k ≡ none
  empty-bucket_at d k e = elim (Option-cases (laws.value_at d (bucket_key prefix k))) [
    | inl nothing ↦ rw (bucket_at, nothing) refl
    | inr (text, there) ↦
        cc (e.no_bucket (bucket_key prefix k) text there, has_prefix-bucket_key prefix k)
  ]

  empty-Reads : (d : D) → IsEmpty d → Reads (pos 0) (checkpoint ns d)
  empty-Reads d e = rw (checkpoint, e.no_checkpoint) refl

module _ {F D : Type 0} ⦃db : Database D⦄ ⦃json : Json F⦄ (ns : Namespace db json)
    (group_by : Event F → Str) where
  open ns use {texts, size}

  -- An event, and the key of its window, as JSON and a checkpoint keep them.
  abbrev pub Fits : {A : Type 0} → Signal F A → Type 0
  Fits (receive env) =
      texts.KeyKept (window_key (pos size) group_by env.event)
      × texts.EventKept env.event
      × InInt64 env.event.timestamp
  Fits _ = Unit

module _ {F D : Type 0} ⦃db : Database D⦄ ⦃json : Json F⦄ (ns : Namespace db json)
    (lateness : Duration) (group_by : Event F → Str) where
  open ns use {laws, texts, prefix, size}

  -- The manager of one process: it restores what the database holds, and runs.
  unfoldable pub live : {A : Type 0} → List (Signal F A) → D → Manager F D
  live ss d =
      (run ⦃ops = bucket_store prefix⦄ ss (record {
        manager =
            (restore ⦃ops = bucket_store prefix⦄
              (started (pos size) lateness true (some group_by) d)).0;
        acked = [];
        exit = running;
      })).manager

  -- The database after some processes, each of which took its signals and crashed.
  unfoldable pub lives : {A : Type 0} → List (List (Signal F A)) → D → D
  lives [] d = d
  lives (ss ∷ sss) d = lives sss (state_of d (live ss d))

  module _ {A : Type 0} where
    Fits-CanHold :
        (s : Signal F A)
        → Fits ns group_by s
        → CanHold (bucket_table ns) (pos size) lateness group_by s
    Fits-CanHold done h = tt
    Fits-CanHold in_closed h = tt
    Fits-CanHold (tick now order gc_order sends) h = tt
    Fits-CanHold (receive env) h = (
      (refl, truncate-on_grid (from_unix env.event.timestamp) size (omega (arith, ns.wide)), h.0),
      (h.1, h.2),
    )

    Fits-All :
        (ss : List (Signal F A))
        → All (Fits ns group_by) ss
        → All (CanHold (bucket_table ns) (pos size) lateness group_by) ss
    Fits-All [] h = tt
    Fits-All (s ∷ ss) h = (Fits-CanHold s h.0, Fits-All ss h.1)

  -- The invariant of a database between two processes: it mirrors some manager of this setup.
  abbrev pub Resting : D → Type 0
  Resting d =
      (m : Manager F D) × Mirrors (bucket_table ns) m d × HasSetup (pos size) lateness group_by m

  abbrev pub restarted : D → Manager F D × Result Str ℕ
  restarted d =
      restore ⦃ops = bucket_store prefix⦄ (started (pos size) lateness true (some group_by) d)

  live-Persists :
      {A : Type 0} (ss : List (Signal F A)) (d : D)
      → All (Fits ns group_by) ss
      → Resting d
      → Persists (bucket_table ns) (pos size) lateness group_by (live ss d)
  unfolding live
  live-Persists ss d h (m, w, g) =
      let r = restarted-Resumes (bucket_table ns) (pos size) lateness group_by m d w g in
      run-Persists (bucket_table ns) (pos size) lateness group_by ss _ (Fits-All ss h) (
        (d, resumed-Mirrors m (restarted d) r (bucket_table ns) d w),
        record {
          same_size = r.same_size ∙ g.same_size;
          same_lateness = r.same_lateness ∙ g.same_lateness;
          same_group = r.same_group ∙ g.same_group;
        },
      )

  pub live-Resting :
      {A : Type 0} (ss : List (Signal F A)) (d : D)
      → All (Fits ns group_by) ss
      → Resting d
      → Mirrors (bucket_table ns) (live ss d) (state_of d (live ss d))
        × HasSetup (pos size) lateness group_by (live ss d)
  live-Resting ss d h r =
      let p = live-Persists ss d h r in
      let same : state_of d (live ss d) ≡ p.0.0 = ground (arith, p.0.1.stored) in
      (subst (Mirrors (bucket_table ns) (live ss d)) (sym same) p.0.1, p.1)

  lives-Resting :
      {A : Type 0} (sss : List (List (Signal F A))) (d : D)
      → All (All (Fits ns group_by)) sss
      → Resting d
      → Resting (lives sss d)
  unfolding lives
  lives-Resting [] d h r = r
  lives-Resting (ss ∷ sss) d h r =
      let w = live-Resting ss d h.0 r in
      lives-Resting sss (state_of d (live ss d)) h.1 (live ss d, w.0, w.1)

  pub empty-Resting : (d : D) → IsEmpty ns d → Resting d
  unfolding lookup
  empty-Resting d e = (
    started (pos size) lateness true (some group_by) d,
    (unfold set_store set_lateness new_manager in
        record {
          valid = nothing_held _;
          storable = λ k b h. cc;
          stored = refl;
          clean = empty-Clean ns d e;
          buckets = λ k g. empty-bucket_at ns d k e;
          reads = empty-Reads ns d e;
        }),
    unfold set_store set_lateness new_manager in
        record { same_size = refl; same_lateness = refl; same_group = refl },
  )

  -- With windows of at least a second, on a reliable database and JSON that keeps buckets: any number
  -- of processes run one after the other on a database that has nothing of the namespace, each set up
  -- alike, with any signals, and stopped at any point between two of them, where the events and the
  -- keys of their windows are such as the texts keep. A process that restores then has, under each key,
  -- the open window or the closed one that the process before it had, and its watermark.
  pub crash_recovery :
      {A : Type 0} (sss : List (List (Signal F A))) (ss : List (Signal F A)) (d : D)
      → IsEmpty ns d
      → All (All (Fits ns group_by)) sss
      → All (Fits ns group_by) ss
      → let before = live ss (lives sss d) in
        Resumes before (
          restore ⦃ops = bucket_store prefix⦄
            (started (pos size) lateness true (some group_by) (state_of (lives sss d) before)))
  crash_recovery sss ss d e hs h =
      let w = live-Resting ss (lives sss d) h (lives-Resting sss d hs (empty-Resting d e)) in
      restarted-Resumes (bucket_table ns) (pos size) lateness group_by _ _ w.0 w.1
