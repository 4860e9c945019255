-- ===== src/Window/Tumbling/Restart.antt =====
-- A manager that is started anew from the store takes over what the old one held.
pub mod Rounds
pub mod Again
pub mod Channel
use mathlib.Core.Path.{subst}
use stream_rail.Common.{
  true, false, ℕ, ◌+◌, ◌≡◌, refl, sym, ◌∙◌, Bool, Option, none, some, List, [], ◌∷◌, Str, arith,
  if◌then◌else◌, Bool-cases, Option-cases, inl, inr,
}
use stream_rail.Common.Int.{ℤ}
use stream_rail.Common.Assoc.{lookup, insert, Distinct, lookup-insert, insert-Distinct}
use stream_rail.Clock.{Duration}
use stream_rail.Model.{Event}
use stream_rail.Window.{Key, key_eq, key_beq_iff, Bucket, Store, Result, ok}
use stream_rail.Window.Contract.{Table, by_key}
use stream_rail.Window.Tumbling.{
  Manager, new_manager, set_store, set_lateness, restore_bucket, restore_buckets, restore,
  restore_checkpoint, restore_windows,
}
use stream_rail.Window.Tumbling.Invariant.{IsValid}
use stream_rail.Window.Tumbling.Durable.{Mirrors, kept_at, Reads}
use stream_rail.Window.Tumbling.Restart.Rounds.{
  open_part, closed_part, lookup-restore_buckets, restore_buckets_keeps,
}

module _ {F S : Type 0} where
  kept-parts :
      (m : Manager F S) (k : Key)
      → IsValid m
      → (open_part (kept_at m k) none ≡ lookup k m.windows)
        × (closed_part (kept_at m k) none ≡ lookup k m.closed)
  kept-parts m k v = elim (Option-cases (lookup k m.windows)) [
    | inr (b, e) ↦ ground (arith, e, (v.open_buckets k b e).flagged, v.disjoint k b e)
    | inl e ↦ elim (Option-cases (lookup k m.closed)) [
      | inr (c, f) ↦ ground (arith, e, f, (v.closed_buckets k c f).flagged)
      | inl f ↦ ground (arith, e, f)
    ]
  ]

-- The manager that engine.Run sets up for a stream whose store has a state.
abbrev pub started :
    {F S : Type 0} → Duration → Duration → Bool → Option (Event F → Str) → S → Manager F S
started size lateness has_out group_by s =
    set_store s (set_lateness lateness (new_manager _ size has_out group_by))

-- What a restored manager shares with the old one, the output channel aside.
pub record Resumes {F S : Type 0} (m : Manager F S) (r : Manager F S × Result Str ℕ) : Type 0 where
  pub succeeds : (open_count : ℕ) × (r.1 ≡ ok open_count)
  pub watermark : r.0.max_ts ≡ m.max_ts
  pub same_size : r.0.size ≡ m.size
  pub same_lateness : r.0.lateness ≡ m.lateness
  pub same_group : r.0.group_by ≡ m.group_by
  pub same_store : r.0.store ≡ m.store
  pub open_distinct : Distinct r.0.windows
  pub closed_distinct : Distinct r.0.closed
  pub opens : (k : Key) → lookup k r.0.windows ≡ lookup k m.windows
  pub closes : (k : Key) → lookup k r.0.closed ≡ lookup k m.closed

-- The parts of a manager that the loop of Restore leaves alone, and the order of its maps.
record Untouched {F S : Type 0} (m n : Manager F S) : Type 0 where
  pub watermark : n.max_ts ≡ m.max_ts
  pub same_size : n.size ≡ m.size
  pub same_lateness : n.lateness ≡ m.lateness
  pub same_group : n.group_by ≡ m.group_by
  pub same_store : n.store ≡ m.store
  pub open_distinct : Distinct n.windows
  pub closed_distinct : Distinct n.closed

module _ {F S : Type 0} {ops : Store F S} (table : Table ops) where
  open table use {KeyOk}

  open_found : (o : Option (Bucket F)) {b : Bucket F} → open_part o none ≡ some b → o ≡ some b
  open_found none h = cc
  open_found (some b) h = ground arith

  closed_found : (o : Option (Bucket F)) {b : Bucket F} → closed_part o none ≡ some b → o ≡ some b
  closed_found none h = cc
  closed_found (some b) h = ground arith

  -- Two options are equal if each value of one of them makes them equal.
  agree :
      (o p : Option (Bucket F))
      → ((b : Bucket F) → o ≡ some b → o ≡ p)
      → ((b : Bucket F) → p ≡ some b → o ≡ p)
      → o ≡ p
  agree none none h g = refl
  agree (some b) p h g = h b refl
  agree none (some b) h g = g b refl

  module _ (m n : Manager F S) (s : S) (d : Mirrors table m s) where
    found : (k : Key) → KeyOk k → lookup k (by_key (table.all s)) ≡ kept_at m k
    found k g = table.lookup-all s k g d.clean ∙ d.buckets k g

    restore_windows-Resumes :
        n.windows ≡ []
        → n.closed ≡ []
        → n.max_ts ≡ m.max_ts
        → n.size ≡ m.size
        → n.lateness ≡ m.lateness
        → n.group_by ≡ m.group_by
        → n.store ≡ m.store
        → Resumes m (restore_windows ⦃ops = ops⦄ (ok (table.all s)) n)
    unfolding restore_windows lookup
    restore_windows-Resumes ws cs ts sizes latenesses groups stores = record {
      succeeds = (_, refl);
      watermark = kept.watermark ∙ ts;
      same_size = kept.same_size ∙ sizes;
      same_lateness = kept.same_lateness ∙ latenesses;
      same_group = kept.same_group ∙ groups;
      same_store = kept.same_store ∙ stores;
      open_distinct = kept.open_distinct;
      closed_distinct = kept.closed_distinct;
      opens = λ k.
          agree _ _
            (λ b e. at_open k (table.all-KeyOk s k b d.clean (open_found _ (sym (opened k) ∙ e))))
            (λ b e. at_open k (d.storable k b (ground (arith, e))).0);
      closes = λ k.
          agree _ _
            (λ b e. at_closed k (table.all-KeyOk s k b d.clean (closed_found _ (sym (shut k) ∙ e))))
            (λ b e. at_closed k (d.storable k b (shut_at k b e)).0);
    }
      where
        bs : List (Bucket F)
        bs = table.all s

        kept : Untouched n (restore_buckets bs (n, 0)).0
        kept =
            restore_buckets_keeps (Untouched n)
              (λ b x h. record {
                watermark = h.watermark;
                same_size = h.same_size;
                same_lateness = h.same_lateness;
                same_group = h.same_group;
                same_store = h.same_store;
                open_distinct = h.open_distinct;
                closed_distinct = insert-Distinct b.key b x.closed h.closed_distinct;
              })
              (λ b x h. record {
                watermark = h.watermark;
                same_size = h.same_size;
                same_lateness = h.same_lateness;
                same_group = h.same_group;
                same_store = h.same_store;
                open_distinct = insert-Distinct b.key b x.windows h.open_distinct;
                closed_distinct = h.closed_distinct;
              })
              bs n 0
              (record {
                watermark = refl;
                same_size = refl;
                same_lateness = refl;
                same_group = refl;
                same_store = refl;
                open_distinct = rw ws tt;
                closed_distinct = rw cs tt;
              })

        distinct : Distinct (by_key bs)
        distinct = table.all-Distinct s d.clean

        opened :
            (k : Key)
            → lookup k (restore_buckets bs (n, 0)).0.windows ≡ open_part (lookup k (by_key bs)) none
        opened k = (lookup-restore_buckets bs n 0 k distinct).0 ∙ (rw ws)

        shut :
            (k : Key)
            → lookup k (restore_buckets bs (n, 0)).0.closed
              ≡ closed_part (lookup k (by_key bs)) none
        shut k = (lookup-restore_buckets bs n 0 k distinct).1 ∙ (rw cs)

        at_open :
            (k : Key)
            → KeyOk k
            → lookup k (restore_buckets bs (n, 0)).0.windows ≡ lookup k m.windows
        at_open k g = opened k ∙ (rw (found k g) (kept-parts m k d.valid).0)

        at_closed :
            (k : Key) → KeyOk k → lookup k (restore_buckets bs (n, 0)).0.closed ≡ lookup k m.closed
        at_closed k g = shut k ∙ (rw (found k g) (kept-parts m k d.valid).1)

        shut_at : (k : Key) (b : Bucket F) → lookup k m.closed ≡ some b → kept_at m k ≡ some b
        shut_at k b e = elim (Option-cases (lookup k m.windows)) [
          | inl free ↦ ground (arith, free, e)
          | inr (c, held) ↦ cc (d.valid.disjoint k c held, e)
        ]

  -- Where a store mirrors a manager, restoring a fresh manager from it succeeds and gives a manager
  -- with the watermark of the old one and under each key the same open window or the same closed
  -- one.
  pub restore-Resumes :
      (m : Manager F S) (s : S) (has_out : Bool)
      → Mirrors table m s
      → Resumes m (restore ⦃ops = ops⦄ (started m.size m.lateness has_out (some m.group_by) s))
  unfolding restore set_store set_lateness new_manager
  restore-Resumes m s has_out d =
      rw (table.load_checkpoint_lem s d.clean) (resume (table.checkpoint s) d.reads)
    where
      n : Manager F S
      n = started m.size m.lateness has_out (some m.group_by) s

      resume :
          (saved : Option ℤ)
          → Reads m.max_ts saved
          → Resumes m (restore_checkpoint ⦃ops = ops⦄ (ok saved) s n)
      resume none r =
          rw (table.load_all_lem s d.clean)
            (restore_windows-Resumes m n s d refl refl (sym r) refl refl refl (sym d.stored))
      resume (some t) r = rw (table.load_all_lem s d.clean) (
          restore_windows-Resumes m (record n { max_ts = t }) s d refl refl (sym r) refl refl refl
            (sym d.stored))
