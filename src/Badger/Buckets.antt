-- ===== src/Badger/Buckets.antt =====
-- The states of the database in which a bucket store works, and what it has there.
pub mod Items
pub mod Writes
use stream_rail.Common.{
  ℕ, ◌<◌, ◌≤◌, ◌^◌, ◌≡◌, ◌≢◌, ◌⊎◌, refl, sym, ap, ◌∙◌, Bool, true, false, Option, none, some, List,
  [], ◌∷◌, Str, ◌==◌, list_eq, list_beq_iff, nat_eq, length, arith, All, if◌then◌else◌, Bool-cases,
  Option-cases, inl, inr, beq_refl,
}
use stream_rail.Common.Int.{ℤ, InInt64, floor_mod, signed64}
use stream_rail.Common.Assoc.{lookup, Distinct}
use stream_rail.Clock.{nanos, unix}
use stream_rail.Clock.Truncate.{floor_mod-lt}
use stream_rail.Model.{Event}
use stream_rail.Window.{
  Key, key_eq, key_beq, key_beq_iff, Bucket, Result, ok, err, Result-cases, Store,
}
use stream_rail.Window.Contract.{Table, by_key}
use stream_rail.Badger.{
  Database, Json, after, key_prefix, bucket_key, checkpoint_key, put_uint64, uint64, save,
  load_items, load_all, delete_bucket, save_checkpoint, checkpoint_of, load_checkpoint,
  bucket_store, decoded,
}
use stream_rail.Badger.Keys.{
  has_prefix, bucket_key-injective, unix-injective, has_prefix-checkpoint_key,
  has_prefix-bucket_key, bucket_key-ne-checkpoint_key,
}
use stream_rail.Badger.Checkpoint.{uint64-put_uint64, signed64-floor_mod}
use stream_rail.Badger.Laws.{readable, Reliable, RoundTrips}

abbrev pub value_of_result : {A : Type 0} → Result Str A → Option A
value_of_result (ok a) = some a
value_of_result (err e) = none

-- What a bucket store is used with: a reliable database and JSON that keeps buckets, the prefix of
-- its keys, and the size of the windows, of at least a second.
pub record Namespace {F D : Type 0} (db : Database D) (json : Json F) : Type 1 where
  pub laws : Reliable db
  pub texts : RoundTrips json
  pub prefix : Str
  pub size : ℕ
  pub wide : nanos ≤ size

module _ {F D : Type 0} ⦃db : Database D⦄ ⦃json : Json F⦄ (ns : Namespace db json) where
  open ns use {laws, texts, prefix, size, wide}
  open laws use {Healthy, value_at, items}
  open texts use {KeyKept, EventKept, text_of}

  -- The windows of a manager of this size, in one namespace.
  abbrev pub KeyOk : Key → Type 0
  KeyOk k = (k.rule_name ≡ []) × (floor_mod k.window_start size ≡ 0) × KeyKept k

  abbrev pub EventOk : Event F → Type 0
  EventOk ev = EventKept ev × InInt64 ev.timestamp

  -- What stands under a key of the namespace.
  pub record IsItem (key text : Str) : Type 0 where
    pub bucket : Bucket F
    pub decodes : json.unmarshal text ≡ ok bucket
    pub key_ok : KeyOk bucket.key
    pub own : key ≡ bucket_key prefix bucket.key

  pub record Clean (d : D) : Type 0 where
    pub healthy : Healthy d
    pub well_formed :
        (key text : Str)
        → value_at d key ≡ some text
        → has_prefix (key_prefix prefix) key ≡ true
        → IsItem key text
    pub eight : (text : Str) → value_at d (checkpoint_key prefix) ≡ some text → length text ≡ 8

  abbrev pub bucket_at : D → Key → Option (Bucket F)
  bucket_at d k = elim (value_at d (bucket_key prefix k)) [
    | none ↦ none
    | some text ↦ value_of_result (json.unmarshal text)
  ]

  abbrev pub checkpoint : D → Option ℤ
  checkpoint d = elim (value_at d (checkpoint_key prefix)) [
    | none ↦ none
    | some text ↦ some (signed64 (uint64 text))
  ]

  pub same_bucket_key :
      (j k : Key) → KeyOk j → KeyOk k → bucket_key prefix j ≡ bucket_key prefix k → j ≡ k
  same_bucket_key j k g h e =
      let parts = bucket_key-injective prefix j k e in
      let start : j.window_start ≡ k.window_start =
        unix-injective j.window_start k.window_start size wide parts.1 g.1 h.1 in
      ground (arith, parts.0, start, g.0, h.0)

  pub same_test :
      (j k : Key) → KeyOk j → KeyOk k → (bucket_key prefix j == bucket_key prefix k) ≡ (j == k)
  same_test j k g h = ground (
    arith,
    key_beq_iff j k,
    list_beq_iff (bucket_key prefix j) (bucket_key prefix k),
    same_bucket_key j k g h,
    λ (e : j ≡ k). ap (bucket_key prefix) e,
  )
