-- ===== src/Badger/Buckets/Writes.antt =====
-- What the writes of the bucket store do.
use stream_rail.Common.{
  ◌<◌, ◌^◌, ◌≡◌, ◌⊎◌, refl, sym, ap, ◌∙◌, true, none, some, List, [], ◌∷◌, Str, ◌==◌, list_eq,
  list_beq_iff, nat_eq, length, arith, All, if◌then◌else◌, Bool-cases, inl, inr, beq_refl,
}
use stream_rail.Common.Int.{ℤ, InInt64, floor_mod, signed64}
use stream_rail.Clock.Truncate.{floor_mod-lt}
use stream_rail.Model.{Event}
use stream_rail.Window.{Key, key_eq, Bucket, Result-cases}
use stream_rail.Badger.{
  Database, Json, after, key_prefix, bucket_key, checkpoint_key, put_uint64, uint64, save,
  delete_bucket, save_checkpoint,
}
use stream_rail.Badger.Keys.{has_prefix, has_prefix-checkpoint_key, bucket_key-ne-checkpoint_key}
use stream_rail.Badger.Checkpoint.{uint64-put_uint64, signed64-floor_mod}
use stream_rail.Badger.Buckets.{
  Namespace, KeyOk, EventOk, IsItem, Clean, bucket_at, checkpoint, same_test,
}

module _ {F D : Type 0} ⦃db : Database D⦄ ⦃json : Json F⦄ (ns : Namespace db json) where
  open ns use {laws, texts, prefix, size, wide}
  open laws use {Healthy, value_at, items}
  open texts use {KeyKept, EventKept, text_of}

  module _ (d : D) (c : Clean ns d) where
    set_cases :
        (key text j v : Str)
        → value_at (after (db.set key text d) d) j ≡ some v
        → ((key ≡ j) × (text ≡ v)) ⊎ (value_at d j ≡ some v)
    set_cases key text j v e =
        let found = sym (laws.value_at-set key text d j c.healthy) ∙ e in
        elim (Bool-cases (key == j)) [
          | inl same ↦ inl (ground (arith, same, found, list_beq_iff key j))
          | inr other ↦ inr (ground (arith, other, found))
        ]

    delete_cases :
        (key j v : Str) → value_at (after (db.delete key d) d) j ≡ some v → value_at d j ≡ some v
    delete_cases key j v e =
        let found = sym (laws.value_at-delete key d j c.healthy) ∙ e in ground (arith, found)

    -- A write of a well-formed item, or of a checkpoint ns.
    pub set-Clean :
        (key text : Str)
        → (has_prefix (key_prefix prefix) key ≡ true → IsItem ns key text)
        → (key ≡ checkpoint_key prefix → length text ≡ 8)
        → Clean ns (after (db.set key text d) d)
    set-Clean key text item word = record {
      healthy = laws.set-Healthy key text d c.healthy;
      well_formed = λ j v e p. elim (set_cases key text j v e) [
        | inl (same, held) ↦ rw (← same, ← held) (item (rw same p))
        | inr old ↦ c.well_formed j v old p
      ];
      eight = λ v e. elim (set_cases key text (checkpoint_key prefix) v e) [
        | inl (same, held) ↦ rw (← held) (word same)
        | inr old ↦ c.eight v old
      ];
    }

    pub delete_key-Clean : (key : Str) → Clean ns (after (db.delete key d) d)
    delete_key-Clean key = record {
      healthy = laws.delete-Healthy key d c.healthy;
      well_formed = λ j v e p. c.well_formed j v (delete_cases key j v e) p;
      eight = λ v e. c.eight v (delete_cases key (checkpoint_key prefix) v e);
    }

  module _ (b : Bucket F) (g : KeyOk ns b.key) (evs : All (EventOk ns) b.events)
      (small : b.count < 2 ^ 64) where
    kept_events : (es : List (Event F)) → All (EventOk ns) es → All EventKept es
    kept_events [] h = tt
    kept_events (ev ∷ es) h = (h.0.0, kept_events es h.1)

    pub save_lem :
        (d : D) → (save prefix b d).0 ≡ after (db.set (bucket_key prefix b.key) (text_of b) d) d
    save_lem d =
        unfold save in rw (texts.marshal_lem b g.2 (kept_events b.events evs) small, save) refl

    pub text_of-IsItem : IsItem ns (bucket_key prefix b.key) (text_of b)
    text_of-IsItem = record {
      bucket = b;
      decodes = texts.unmarshal-text_of b g.2 (kept_events b.events evs) small;
      key_ok = g;
      own = refl;
    }

  pub bucket_at-save :
      (b : Bucket F) (d : D) (k : Key)
      → KeyOk ns b.key
      → All (EventOk ns) b.events
      → b.count < 2 ^ 64
      → KeyOk ns k
      → Clean ns d
      → bucket_at ns (save prefix b d).0 k ≡ (if b.key == k then some b else bucket_at ns d k)
  bucket_at-save b d k g evs small h c =
      let found =
        laws.value_at-set (bucket_key prefix b.key) (text_of b) d (bucket_key prefix k) c.healthy in
      rw (save_lem b g evs small d) (
        ground (
          arith,
          found,
          same_test ns b.key k g h,
          texts.unmarshal-text_of b g.2 (kept_events b g evs small b.events evs) small,
        ))

  module _ (d : D) (c : Clean ns d) where
    pub bucket_at-delete :
        (j k : Key)
        → KeyOk ns j
        → KeyOk ns k
        → bucket_at ns (delete_bucket prefix j d).0 k ≡ (if j == k then none else bucket_at ns d k)
    bucket_at-delete j k g h =
        let found = laws.value_at-delete (bucket_key prefix j) d (bucket_key prefix k) c.healthy in
        unfold delete_bucket in ground (arith, found, same_test ns j k g h)

    pub bucket_at-save_checkpoint :
        (t : ℤ) (k : Key) → bucket_at ns (save_checkpoint prefix t d).0 k ≡ bucket_at ns d k
    bucket_at-save_checkpoint t k =
        let found =
          laws.value_at-set (checkpoint_key prefix) (put_uint64 (floor_mod t (2 ^ 64))) d
            (bucket_key prefix k) c.healthy in
        unfold save_checkpoint in
        ground (
          arith,
          found,
          list_beq_iff (checkpoint_key prefix) (bucket_key prefix k),
          bucket_key-ne-checkpoint_key prefix prefix k,
        )

    checkpoint-set :
        (k : Key) (text : Str)
        → checkpoint ns (after (db.set (bucket_key prefix k) text d) d) ≡ checkpoint ns d
    checkpoint-set k text =
        let found =
          laws.value_at-set (bucket_key prefix k) text d (checkpoint_key prefix) c.healthy in
        ground (
          arith,
          found,
          list_beq_iff (bucket_key prefix k) (checkpoint_key prefix),
          bucket_key-ne-checkpoint_key prefix prefix k,
        )

    pub checkpoint-delete_bucket :
        (k : Key) → checkpoint ns (delete_bucket prefix k d).0 ≡ checkpoint ns d
    checkpoint-delete_bucket k =
        let found =
          laws.value_at-delete (bucket_key prefix k) d (checkpoint_key prefix) c.healthy in
        unfold delete_bucket in
        ground (
          arith,
          found,
          list_beq_iff (bucket_key prefix k) (checkpoint_key prefix),
          bucket_key-ne-checkpoint_key prefix prefix k,
        )

    pub checkpoint-save_checkpoint :
        (t : ℤ) → InInt64 t → checkpoint ns (save_checkpoint prefix t d).0 ≡ some t
    checkpoint-save_checkpoint t h =
        let word = put_uint64 (floor_mod t (2 ^ 64)) in
        let found =
          laws.value_at-set (checkpoint_key prefix) word d (checkpoint_key prefix) c.healthy in
        let back : signed64 (uint64 word) ≡ t =
          ap signed64
            (uint64-put_uint64 (floor_mod t (2 ^ 64)) (floor_mod-lt t (2 ^ 64) (omega arith)))
          ∙ signed64-floor_mod t h in
        unfold save_checkpoint in ground (arith, found, back, beq_refl (checkpoint_key prefix))

  pub checkpoint-save :
      (b : Bucket F) (d : D) → Clean ns d → checkpoint ns (save prefix b d).0 ≡ checkpoint ns d
  checkpoint-save b d c = elim (Result-cases (json.marshal b)) [
    | inl (e, failed) ↦ unfold save in rw (failed, save)
    | inr (text, made) ↦ unfold save in rw (made, save) (checkpoint-set d c b.key text)
  ]

  pub save-Clean :
      (b : Bucket F) (d : D)
      → KeyOk ns b.key
      → All (EventOk ns) b.events
      → b.count < 2 ^ 64
      → Clean ns d
      → Clean ns (save prefix b d).0
  save-Clean b d g evs small c = rw (save_lem b g evs small d) (
      set-Clean d c (bucket_key prefix b.key) (text_of b) (λ _. text_of-IsItem b g evs small)
        (λ e. absurd (bucket_key-ne-checkpoint_key prefix prefix b.key e)))

  pub delete_bucket-Clean : (k : Key) (d : D) → Clean ns d → Clean ns (delete_bucket prefix k d).0
  unfolding delete_bucket
  delete_bucket-Clean k d c = delete_key-Clean d c (bucket_key prefix k)

  pub save_checkpoint-Clean : (t : ℤ) (d : D) → Clean ns d → Clean ns (save_checkpoint prefix t d).0
  unfolding save_checkpoint put_uint64
  save_checkpoint-Clean t d c =
      set-Clean d c (checkpoint_key prefix) _ (λ e. cc (has_prefix-checkpoint_key prefix prefix, e))
        (λ _. refl)
