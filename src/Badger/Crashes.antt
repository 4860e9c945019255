-- ===== src/Badger/Crashes.antt =====
-- Processes that may crash between any two writes to the database, and where their events are.
use mathlib.Core.List.{Mem, not-mem-nil, append-nil, append_assoc}
use mathlib.Core.Path.{subst}
use stream_rail.Common.{
  ◌≡◌, ◌⊎◌, inl, inr, refl, sym, ap, ◌∙◌, true, false, Option, none, some, List, [], ◌∷◌, ◌++◌, Str,
  arith, All, All-map,
}
use stream_rail.Common.Int.{pos, InInt64}
use stream_rail.Common.Assoc.{lookup}
use stream_rail.Clock.{Duration}
use stream_rail.Model.{Event}
use stream_rail.Window.{Key, key_eq, Bucket, Batch, ok}
use stream_rail.Window.Contract.{by_key}
use stream_rail.Window.Tumbling.{Manager, advance, set_store, set_lateness, new_manager}
use stream_rail.Window.Tumbling.Durable.{Mirrors, kept_at, advance-IsDurable}
use stream_rail.Window.Tumbling.Restart.{started}
use stream_rail.Window.Tumbling.Restart.Channel.{restore-out}
use stream_rail.Window.Tumbling.Run.{Signal, running}
use stream_rail.Window.Tumbling.Run.Durable.{HasSetup, advance-HasSetup, restarted-Resumes}
use stream_rail.Window.Tumbling.Run.Received.{received, run-Tracked}
use stream_rail.Window.Tumbling.Secure.{Secure, Secure-same, Secure-next, Tracked, advance-Tracked}
use stream_rail.Badger.{Database, Json, bucket_store, load_all}
use stream_rail.Badger.Buckets.{Namespace}
use stream_rail.Badger.Refines.{bucket_table, items_at}
use stream_rail.Badger.Recovery.{
  Fits, live, state_of, live-Resting, empty-Resting, restarted, IsEmpty,
}

-- The signals that a process takes to their end, and the event whose checkpoint it has saved but not
-- its bucket. A crash inside closeExpired leaves the database that a tick with fewer sends or fewer
-- keys leaves, and one after the bucket is saved that of the whole `add`.
pub record Life (F A : Type 0) : Type 0 where
  pub signals : List (Signal F A)
  pub torn : Option (Event F)

abbrev pub batches : {F : Type 0} → Option (List (Batch F)) → List (Batch F)
batches none = []
batches (some sent) = sent

-- The events that the processes received, those of the later ones first.
unfoldable pub all_received : {F A : Type 0} → List (Life F A) → List (Event F)
all_received [] = []
all_received (life ∷ rest) = all_received rest ++ received life.signals

abbrev pub TornFits : {F : Type 0} → Option (Event F) → Type 0
TornFits none = Unit
TornFits (some ev) = InInt64 ev.timestamp

module _ {F D : Type 0} ⦃db : Database D⦄ ⦃json : Json F⦄ (ns : Namespace db json) where
  -- In a window that LoadAll gives as an open one, or in a batch of the list.
  abbrev pub NotLost : D → List (Batch F) → Event F → Type 0
  NotLost d sent ev =
      ((k : Key) × (b : Bucket F) × (lookup k (by_key (items_at ns d)) ≡ some b)
        × (b.closed ≡ false)
        × Mem ev b.events)
      ⊎ ((batch : Batch F) × Mem batch sent × Mem ev batch.events)

  kept-NotLost :
      (m : Manager F D) (d : D) (sent : List (Batch F)) (ev : Event F)
      → Mirrors (bucket_table ns) m d
      → Secure m.windows sent [] ev
      → NotLost d sent ev
  kept-NotLost m d sent ev h (inl (k, b, at, here)) =
      let kept : kept_at m k ≡ some b = ground arith in
      let good = (h.storable k b kept).0 in
      inl (
        k,
        b,
        (bucket_table ns).lookup-all d k good h.clean ∙ h.buckets k good ∙ kept,
        (h.valid.open_buckets k b at).flagged,
        here,
      )
  kept-NotLost m d sent ev h (inr (b, inl old, here)) = inr (b, old, here)
  kept-NotLost m d sent ev h (inr (b, inr new, here)) = absurd (not-mem-nil new)

module _ {F D : Type 0} ⦃db : Database D⦄ ⦃json : Json F⦄ (ns : Namespace db json)
    (lateness : Duration) (group_by : Event F → Str) where
  open ns use {prefix, size}

  torn_by : Option (Event F) → Manager F D → Manager F D
  torn_by none m = m
  torn_by (some ev) m = advance ⦃ops = bucket_store prefix⦄ ev m

  abbrev Setup : Manager F D → D → Type 0
  Setup m d = Mirrors (bucket_table ns) m d × HasSetup (pos size) lateness group_by m

  torn-Setup :
      (torn : Option (Event F)) (m : Manager F D) (d : D)
      → TornFits torn
      → Setup m (state_of d m)
      → Setup (torn_by torn m) (state_of d (torn_by torn m))
  unfolding torn_by
  torn-Setup none m d t h = h
  torn-Setup (some ev) m d t h =
      let n = advance ⦃ops = bucket_store prefix⦄ ev m in
      let (s, w) = advance-IsDurable (bucket_table ns) ev m t (state_of d m, h.0) in
      let same : state_of d n ≡ s = ground (arith, w.stored) in
      (
        subst (Mirrors (bucket_table ns) n) (sym same) w,
        advance-HasSetup (pos size) lateness group_by ⦃ops = bucket_store prefix⦄ m ev h.1,
      )

  torn-Tracked :
      (torn : Option (Event F)) (m : Manager F D) {before : List (Batch F)} {evs : List (Event F)}
      → Tracked before evs m
      → Tracked before evs (torn_by torn m)
  unfolding torn_by
  torn-Tracked none m t = t
  torn-Tracked (some ev) m t = advance-Tracked ⦃ops = bucket_store prefix⦄ ev m t

  -- A process that restores what the one before it left has the events of its open windows.
  restarted-Tracked :
      (m : Manager F D) (d : D) (before : List (Batch F)) (evs : List (Event F))
      → Setup m d
      → All (Secure m.windows before []) evs
      → Tracked before evs (restarted ns lateness group_by d).0
  unfolding set_store set_lateness new_manager
  restarted-Tracked m d before evs h secure =
      let r = restarted ns lateness group_by d in
      let resumes = restarted-Resumes (bucket_table ns) (pos size) lateness group_by m d h.0 h.1 in
      record {
        sent = [];
        channel =
            restore-out ⦃ops = bucket_store prefix⦄
              (started (pos size) lateness true (some group_by) d);
        secure =
            All-map (λ ev s. Secure-same m.windows r.0.windows before [] ev resumes.opens s) evs
              secure;
      }

  module _ {A : Type 0} where
    -- The manager at the crash.
    unfoldable pub last_of : Life F A → D → Manager F D
    unfolding torn_by
    last_of life d = torn_by life.torn (live ns lateness group_by life.signals d)

    -- The database after the processes, and what they sent.
    unfoldable pub after_lives : List (Life F A) → D → D
    after_lives [] d = d
    after_lives (life ∷ rest) d = after_lives rest (state_of d (last_of life d))

    unfoldable pub all_sent : List (Life F A) → D → List (Batch F)
    all_sent [] d = []
    all_sent (life ∷ rest) d =
        batches (last_of life d).out ++ all_sent rest (state_of d (last_of life d))

    abbrev pub LifeFits : Life F A → Type 0
    LifeFits life = All (Fits ns group_by) life.signals × TornFits life.torn

    life-Setup :
        (life : Life F A) (m : Manager F D) (d : D)
        → LifeFits life
        → Setup m d
        → Setup (last_of life d) (state_of d (last_of life d))
    unfolding last_of
    life-Setup life m d fits h =
        torn-Setup life.torn (live ns lateness group_by life.signals d) d fits.1
          (live-Resting ns lateness group_by life.signals d fits.0 (m, h.0, h.1))

    life-Tracked :
        (life : Life F A) (m : Manager F D) (d : D) (before : List (Batch F)) (evs : List (Event F))
        → Setup m d
        → All (Secure m.windows before []) evs
        → Tracked before (received life.signals ++ evs) (last_of life d)
    unfolding last_of live
    life-Tracked life m d before evs h secure = torn-Tracked life.torn _ (
        run-Tracked ⦃ops = bucket_store prefix⦄ before life.signals
          (record { manager = (restarted ns lateness group_by d).0; acked = []; exit = running })
          evs refl (restarted-Tracked m d before evs h secure))

    lives-Secure :
        (lives : List (Life F A)) (m : Manager F D) (d : D) (before : List (Batch F))
        (evs : List (Event F))
        → All LifeFits lives
        → Setup m d
        → All (Secure m.windows before []) evs
        → (n : Manager F D) × Setup n (after_lives lives d)
          × All (Secure n.windows (before ++ all_sent lives d) []) (all_received lives ++ evs)
    unfolding after_lives all_sent all_received
    lives-Secure [] m d before evs fits h secure =
        (m, h, subst (λ l. All (Secure m.windows l []) evs) (sym (append-nil before)) secure)
    lives-Secure (life ∷ rest) m d before evs fits h secure =
        let last = last_of life d in
        let t = life-Tracked life m d before evs h secure in
        let out : batches last.out ≡ t.sent = ap batches t.channel in
        let (n, setup, all) =
          lives-Secure rest last (state_of d last) (before ++ t.sent) (received life.signals ++ evs)
            fits.1 (life-Setup life m d fits.0 h)
            (All-map (λ ev s. Secure-next last.windows before t.sent ev s) _ t.secure) in
        (
          n,
          setup,
          rw
              (
                out,
                append_assoc (all_received rest) (received life.signals) evs,
                sym (append_assoc before t.sent (all_sent rest (state_of d last))),
              )
              all,
        )

    -- With windows of at least a second, on a reliable database and JSON that keeps buckets: any
    -- number of processes run one after the other on a database that has nothing of the namespace,
    -- each set up alike, with any signals, and stopped between two of them or in `add` between its
    -- two writes, where the events and the keys of their windows are such as the texts keep. Then
    -- LoadAll succeeds on the database they leave, and each event that one of them received to the
    -- end of its `add` is in a window that LoadAll gives as open, or in a batch that one of them sent.
    pub no_event_lost :
        (lives : List (Life F A)) (d : D)
        → IsEmpty ns d
        → All LifeFits lives
        → (load_all prefix (after_lives lives d) ≡ ok (items_at ns (after_lives lives d)))
          × All (NotLost ns (after_lives lives d) (all_sent lives d)) (all_received lives)
    no_event_lost lives d e fits =
        let (m, mirrors, setup) = empty-Resting ns lateness group_by d e in
        let h : Setup m d = (mirrors, setup) in
        let (n, set_up, all) = lives-Secure lives m d [] [] fits h tt in
        (
          (bucket_table ns).load_all_lem (after_lives lives d) set_up.0.clean,
          subst (All _) (append-nil (all_received lives)) (
              All-map
                (λ ev s. kept-NotLost ns n (after_lives lives d) (all_sent lives d) ev set_up.0 s) _
                all),
        )
