-- ===== src/Badger/Refines.antt =====
-- The bucket store keeps the contract of the tumbling Manager.
use stream_rail.Common.{List}
use stream_rail.Common.Int.{InInt64}
use stream_rail.Window.{Bucket}
use stream_rail.Window.Contract.{Table}
use stream_rail.Badger.{Database, Json, key_prefix, bucket_store}
use stream_rail.Badger.Buckets.{Namespace, KeyOk, EventOk, Clean, bucket_at, checkpoint}
use stream_rail.Badger.Buckets.Items
use stream_rail.Badger.Buckets.Writes

module _ {F D : Type 0} ⦃db : Database D⦄ ⦃json : Json F⦄ (ns : Namespace db json) where
  open ns use {laws, prefix}

  abbrev pub items_at : D → List (Bucket F)
  items_at d = Items.values_of ns (laws.items d (key_prefix prefix))

  -- The contract, for windows of at least a second.
  abbrev pub bucket_table : Table {S = D} (bucket_store {F = F} prefix)
  bucket_table = record {
    KeyOk = KeyOk ns;
    EventOk = EventOk ns;
    Clean = Clean ns;
    bucket_at = bucket_at ns;
    checkpoint = checkpoint ns;
    all = items_at;
    TimeOk = InInt64;
    EventOk-TimeOk = λ ev h. h.1;
    save-Clean = Writes.save-Clean ns;
    delete-Clean = λ k d g c. Writes.delete_bucket-Clean ns k d c;
    save_checkpoint-Clean = Writes.save_checkpoint-Clean ns;
    bucket_at-save = Writes.bucket_at-save ns;
    bucket_at-delete = λ j d k g h c. Writes.bucket_at-delete ns d c j k g h;
    bucket_at-save_checkpoint = λ t d k g c. Writes.bucket_at-save_checkpoint ns d c t k;
    checkpoint-save = λ b d g c. Writes.checkpoint-save ns b d c;
    checkpoint-delete = λ k d g c. Writes.checkpoint-delete_bucket ns d c k;
    checkpoint-save_checkpoint = λ t d h c. Writes.checkpoint-save_checkpoint ns d c t h;
    load_checkpoint_lem = Items.load_checkpoint_lem ns;
    load_all_lem = Items.load_all_lem ns;
    all-Distinct = λ d c.
        Items.values-Distinct ns (laws.items d (key_prefix prefix)) (Items.items-All ns d c)
          (laws.items-Distinct (key_prefix prefix) d c.healthy);
    lookup-all = λ d k g c. Items.lookup-all ns d c k g;
    all-KeyOk = λ d k b c.
        Items.values-KeyOk ns (laws.items d (key_prefix prefix)) k b (Items.items-All ns d c);
  }
